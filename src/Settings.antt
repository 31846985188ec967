-- ===== src/Settings.antt =====
-- flight/config.py: `FswConfig` and `from_env`. The fields are kept by name, each value with its type.
pub mod Environment
mod Tests
use asterion_one.Base.{
  ℕ, Bool, true, false, ◌||◌, Option, none, some, List, [], ◌∷◌, String, ◌<>◌, str_eq,
}
use mathlib.Core.Option
use asterion_one.Base.Assoc.{Assoc}
use asterion_one.Floats.{Floats}

-- The conversions of texts that `from_env` calls: `int` and `float`, which may raise `ValueError`, and
-- `lower`. Integers are kept as the type that `int` gives.
pub record Conversions (F : Type 0) : Type 1 where
  pub Int : Type 0
  pub of_nat : ℕ → Int
  pub int_of : String → Option Int
  pub float_of : String → Option F
  pub lower : String → String

-- The types of the fields.
pub data Value (F I : Type 0) : Type 0 where
  flag : Bool → Value F I
  int : I → Value F I
  float : F → Value F I
  text : String → Value F I

module _ (fl : Floats) (cv : Conversions fl.Float) where
  open fl use {Float, lit}
  open cv use {Int, of_nat, int_of, float_of, lower}

  -- `FswConfig()`
  abbrev pub defaults : Assoc (Value Float Int)
  defaults =
      ("TICK_INTERVAL_SEC", float (lit 10 1))
      ∷ ("THRESHOLD_TEMP_WARN_C", float (lit 750 1))
      ∷ ("THRESHOLD_TEMP_CRIT_C", float (lit 850 1))
      ∷ ("HYSTERESIS_TEMP_C", float (lit 50 1))
      ∷ ("VOLTAGE_MIN_V", float (lit 46 1))
      ∷ ("BATTERY_SOC_MIN", float (lit 10 2))
      ∷ ("COMMS_ERROR_RATE_MAX", float (lit 10 2))
      ∷ ("STABILITY_TIMER_SEC", float (lit 300 1))
      ∷ ("WD_HEARTBEAT_INTERVAL_SEC", float (lit 10 1))
      ∷ ("WD_TIMEOUT_SEC", float (lit 30 1))
      ∷ ("MAX_WD_RESTARTS", int (of_nat 3))
      ∷ ("BOOT_SELF_TEST_TIMEOUT_SEC", float (lit 50 1))
      ∷ ("TELEMETRY_RATE_NOMINAL_SEC", float (lit 10 1))
      ∷ ("TELEMETRY_RATE_SAFE_SEC", float (lit 100 1))
      ∷ ("GROUND_WS_URL", text "ws://192.168.1.100:8081/flight")
      ∷ ("WS_RECONNECT_INTERVAL_SEC", float (lit 50 1))
      ∷ ("WS_PING_INTERVAL_SEC", float (lit 300 1))
      ∷ ("QUEUE_DIR", text "/var/lib/asterion/queue")
      ∷ ("QUEUE_MAX_DEPTH", int (of_nat 10000))
      ∷ ("AUDIT_LOG_PATH", text "/var/log/asterion/audit.jsonl")
      ∷ ("TRUSTED_KEYS_PATH", text "/etc/asterion/trusted_keys.json")
      ∷ ("SENSOR_USE_REAL_TEMP", flag false)
      ∷ ("SENSOR_NOMINAL_TEMP_C", float (lit 550 1))
      ∷ ("SENSOR_NOMINAL_VOLTAGE_V", float (lit 51 1))
      ∷ ("SENSOR_NOMINAL_POWER_W", float (lit 40 1))
      ∷ ("SENSOR_NOISE_AMPLITUDE", float (lit 20 1))
      ∷ []

  -- `env_val.lower() in ("true", "1", "yes")`
  abbrev is_yes : String → Bool
  is_yes t = str_eq t "true" || (str_eq t "1" || str_eq t "yes")

  -- A text as a value of the type of the field's value; `none` is a `ValueError`.
  unfoldable pub read_as : Value Float Int → String → Option (Value Float Int)
  read_as (flag b) t = some (flag (is_yes (lower t)))
  read_as (int n) t = Option.map int (int_of t)
  read_as (float x) t = Option.map float (float_of t)
  read_as (text s) t = some (text t)

  abbrev value_or : Value Float Int → Option (Value Float Int) → Value Float Int
  value_or v none = v
  value_or v (some w) = w

  -- One round of the loop: the environment's value, or the default where there is none or where it is
  -- malformed.
  unfoldable pub field_from : Option String → Value Float Int → Value Float Int
  field_from none v = v
  field_from (some t) v = value_or v (read_as v t)

  -- The loop over the fields.
  unfoldable pub from_fields :
      (String → Option String) → Assoc (Value Float Int) → Assoc (Value Float Int)
  from_fields env [] = []
  from_fields env ((name, v) ∷ fields) =
      (name, field_from (env ("ASTERION_" <> name)) v) ∷ from_fields env fields

  unfoldable pub from_env : (String → Option String) → Assoc (Value Float Int)
  from_env env = from_fields env defaults
