-- ===== src/Sensors.antt =====
-- flight/sensor_sim.py: `SensorSim`. Random numbers and the board's thermometer are streams, and the
-- object counts what it has taken from them; each method holds the mutex, so it is one step.
pub mod Overrides
pub mod Tests
use asterion_one.Base.{
  ℕ, ◌+◌, ◌-◌, Bool, true, false, Option, none, some, List, [], ◌∷◌, String, str_eq, get_or,
  if◌then◌else◌,
}
use asterion_one.Base.Assoc.{Assoc, lookup, insert, remove, update}
use asterion_one.Floats.{Floats}

-- `random.gauss`, `round`, `abs`, the conversions to float, and `vcgencmd measure_temp`, which gives
-- nothing where it is missing, late, fails or prints no number.
pub record Hardware (F : Type 0) : Type 0 where
  pub gauss : ℕ → F → F → F
  pub round : ℕ → F → F
  pub abs : F → F
  pub of_nat : ℕ → F
  pub seconds : ℕ → F
  pub measure_temp : ℕ → Option F

pub record SensorSim (F : Type 0) : Type 0 where
  pub use_real_temp : Bool
  pub nominal_temp_c : F
  pub nominal_voltage_v : F
  pub nominal_power_w : F
  pub noise_amplitude : F
  pub start_time : ℕ
  pub overrides : Assoc (Assoc F)
  pub battery_soc : F
  pub ws_connected : Bool
  pub msg_queue_depth : ℕ
  pub wd_restarts : ℕ
  pub fsw_state_code : ℕ
  pub draws : ℕ
  pub measurements : ℕ

abbrev pub subsystem_names : List String
subsystem_names = "THERMAL" ∷ "POWER" ∷ "CPU" ∷ "COMMS" ∷ "FSW" ∷ []

-- `name in SUBSYSTEM_NAMES`
abbrev pub is_subsystem : String → List String → Bool
is_subsystem name [] = false
is_subsystem name (n ∷ ns) = if str_eq n name then true else is_subsystem name ns

module _ (fl : Floats) (hw : Hardware fl.Float) where
  open fl use {Float, lt, add, sub, mul, lit}
  open hw use {gauss, round, abs, of_nat, seconds, measure_temp}

  abbrev max_of : Float → Float → Float
  max_of a b = if lt a b then b else a

  abbrev min_of : Float → Float → Float
  min_of a b = if lt b a then b else a

  -- The k-th next random number of the object.
  abbrev draw : ℕ → Float → SensorSim Float → Float
  draw k sigma s = gauss (s.draws + k) (lit 0 0) sigma

  -- `_read_rpi_cpu_temp`
  abbrev pub read_rpi_cpu_temp : SensorSim Float → Float
  read_rpi_cpu_temp s = get_or (measure_temp s.measurements) (lit 550 1)

  abbrev thermal_values : Float → Float → Assoc Float
  thermal_values cpu noise =
      ("cpu_temp_c", round 2 cpu) ∷ ("board_temp_c", round 2 (add (sub cpu (lit 150 1)) noise)) ∷ []

  abbrev pub gen_thermal : SensorSim Float → Assoc Float × SensorSim Float
  gen_thermal s =
      let board_noise = mul s.noise_amplitude (lit 5 1) in
      if s.use_real_temp
      then (
        thermal_values (read_rpi_cpu_temp s) (draw 0 board_noise s),
        record s { draws = s.draws + 1; measurements = s.measurements + 1 },
      )
      else (
        thermal_values (add s.nominal_temp_c (draw 0 s.noise_amplitude s)) (draw 1 board_noise s),
        record s { draws = s.draws + 2 },
      )

  abbrev drained : Float → Float
  drained soc = max_of (lit 0 0) (sub soc (lit 1 5))

  abbrev pub gen_power : SensorSim Float → Assoc Float × SensorSim Float
  gen_power s =
      let voltage = add s.nominal_voltage_v (draw 0 (mul s.noise_amplitude (lit 2 2)) s) in
      let current = add (lit 600 0) (draw 1 (lit 50 0) s) in
      let power = add s.nominal_power_w (draw 2 (mul s.noise_amplitude (lit 1 1)) s) in
      let soc = drained s.battery_soc in
      (
        ("voltage_v", round 3 voltage)
            ∷ ("current_ma", round 1 (max_of (lit 0 0) current))
            ∷ ("battery_soc", round 4 soc)
            ∷ ("power_w", round 2 (max_of (lit 0 0) power))
            ∷ [],
        record s { battery_soc = soc; draws = s.draws + 3 },
      )

  abbrev percent : Float → Float
  percent x = round 1 (max_of (lit 0 0) (min_of (lit 100 0) x))

  abbrev pub gen_cpu : SensorSim Float → Assoc Float × SensorSim Float
  gen_cpu s =
      let cpu = add (lit 350 1) (draw 0 (mul s.noise_amplitude (lit 2 0)) s) in
      let mem = add (lit 400 1) (draw 1 (mul s.noise_amplitude (lit 15 1)) s) in
      (
        ("cpu_usage_pct", percent cpu) ∷ ("memory_usage_pct", percent mem) ∷ [],
        record s { draws = s.draws + 2 },
      )

  abbrev pub gen_comms : SensorSim Float → Assoc Float × SensorSim Float
  gen_comms s = (
    ("ws_connected", if s.ws_connected then lit 10 1 else lit 0 0)
        ∷ ("msg_queue_depth", of_nat s.msg_queue_depth)
        ∷ ("error_rate", round 4 (min_of (lit 10 1) (abs (draw 0 (lit 5 3) s))))
        ∷ [],
    record s { draws = s.draws + 1 },
  )

  abbrev pub gen_fsw : ℕ → SensorSim Float → Assoc Float × SensorSim Float
  gen_fsw now s = (
    ("state_code", of_nat s.fsw_state_code)
        ∷ ("uptime_s", round 1 (seconds (now - s.start_time)))
        ∷ ("wd_restarts", of_nat s.wd_restarts)
        ∷ [],
    s,
  )

  unfoldable pub generate_normal : ℕ → String → SensorSim Float → Assoc Float × SensorSim Float
  generate_normal now name s =
      if str_eq name "THERMAL"
      then gen_thermal s
      else if str_eq name "POWER"
      then gen_power s
      else if str_eq name "CPU"
      then gen_cpu s
      else if str_eq name "COMMS"
      then gen_comms s
      else if str_eq name "FSW"
      then gen_fsw now s
      else ([], s)

  -- `merged.update(override)`; an empty override leaves the normal values.
  abbrev pub merged : Assoc Float → Option (Assoc Float) → Assoc Float
  merged normal none = normal
  merged normal (some override) = update normal override

  -- `_read_subsystem_locked`
  abbrev pub read_locked : ℕ → String → SensorSim Float → Assoc Float × SensorSim Float
  read_locked now name s =
      let (normal, after) = generate_normal now name s in
      (merged normal (lookup name s.overrides), after)

  -- A subsystem that is not known raises.
  unfoldable pub read_subsystem :
      ℕ → String → SensorSim Float → Option (Assoc Float × SensorSim Float)
  read_subsystem now name s =
      if is_subsystem name subsystem_names then some (read_locked now name s) else none

  unfoldable pub read_each :
      ℕ → List String → SensorSim Float → Assoc (Assoc Float) × SensorSim Float
  read_each now [] s = ([], s)
  read_each now (name ∷ names) s =
      let (values, after) = read_locked now name s in
      let (rest, last) = read_each now names after in ((name, values) ∷ rest, last)

  unfoldable pub read_all : ℕ → SensorSim Float → Assoc (Assoc Float) × SensorSim Float
  read_all now s = read_each now subsystem_names s

  unfoldable pub set_override : String → Assoc Float → SensorSim Float → Option (SensorSim Float)
  set_override name values s =
      if is_subsystem name subsystem_names
      then some (record s { overrides = insert name values s.overrides })
      else none

  unfoldable pub clear_override : String → SensorSim Float → SensorSim Float
  clear_override name s = record s { overrides = remove name s.overrides }

  unfoldable pub clear_all_overrides : SensorSim Float → SensorSim Float
  clear_all_overrides s = record s { overrides = [] }

  abbrev pub update_fsw_state : ℕ → SensorSim Float → SensorSim Float
  update_fsw_state code s = record s { fsw_state_code = code }

  abbrev pub update_comms_status : Bool → ℕ → SensorSim Float → SensorSim Float
  update_comms_status connected queue_depth s = record s {
    ws_connected = connected;
    msg_queue_depth = queue_depth;
  }

  abbrev pub update_wd_restarts : ℕ → SensorSim Float → SensorSim Float
  update_wd_restarts count s = record s { wd_restarts = count }

  unfoldable pub update_battery_soc : Float → SensorSim Float → SensorSim Float
  update_battery_soc soc s = record s { battery_soc = max_of (lit 0 0) (min_of (lit 10 1) soc) }
