-- ===== src/Twin.antt =====
-- twin/config.py and the data types of twin/twin_engine.py: the parameters of the digital twin, the
-- telemetry that it reads, and the forecast that it makes.
pub mod Physics
pub mod Engine
pub mod Rationale
pub mod Alerts
pub mod Times
pub mod Telemetry
pub mod Api
pub mod Breaches
pub mod Trajectories
pub mod Forecasts
pub mod Charge
pub mod Raises
pub mod Warnings
pub mod Severity
pub mod Early
pub mod Contents
pub mod Cycles
pub mod Windows
mod Tests
use asterion_one.Base.{
  ℕ, ◌+◌, ◌*◌, ◌/◌, ◌==◌, Bool, true, false, Option, none, some, List, [], ◌∷◌, String,
  if◌then◌else◌,
}
use asterion_one.Base.Assoc.{Assoc}
use asterion_one.Base.Partial.{◌>>=◌}
use asterion_one.Floats.{Floats}

-- What the twin takes from Python and NumPy for its numbers: `round(x, k)`, `abs`, `float(n)`,
-- whether a number is true (it is not 0), `np.clip`, and `float` and `int` of a text, which may fail.
pub record Numbers (F : Type 0) : Type 0 where
  pub round : ℕ → F → F
  pub abs : F → F
  pub of_nat : ℕ → F
  pub is_true : F → Bool
  pub clip : F → F → F → F
  pub float_of : String → Option F
  pub int_of : String → Option ℕ

pub record Config (F : Type 0) : Type 0 where
  pub thermal_r : F
  pub thermal_c : F
  pub thermal_t_amb : F
  pub battery_capacity_wh : F
  pub charge_power_w : F
  pub horizon_min : ℕ
  pub dt_sec : ℕ
  pub threshold_temp_c : F
  pub threshold_temp_critical_c : F
  pub threshold_soc_low : F
  pub threshold_soc_critical : F
  pub min_useful_lead_time_min : F
  pub twin_cycle_sec : ℕ
  pub telem_lookback_min : ℕ
  pub power_base_w : F
  pub power_per_cpu_pct_w : F

-- One telemetry frame as `_fetch_telemetry` flattens it. The metrics hold numbers, and none of them is
-- called "timestamp".
pub record Frame (F : Type 0) : Type 0 where
  pub timestamp : Option String
  pub metrics : Assoc F

pub record Forecast (F : Type 0) : Type 0 where
  pub model_type : String
  pub horizon_min : ℕ
  pub timestamps : List String
  pub predicted_values : List F
  pub breach_detected : Bool
  pub breach_index : Option ℕ
  pub breach_time : Option String
  pub lead_time_min : Option F
  pub current_value : F
  pub threshold : F
  pub rate_per_min : F
  pub metadata : Assoc F

-- `os.environ.get(name, default)`
abbrev environ : (String → Option String) → String → String → String
environ env name other = elim (env name) [ none ↦ other | some value ↦ value ]

-- The module's constants, read from the environment. A text that is no number raises.
unfoldable pub read_config : {F : Type 0} → Numbers F → (String → Option String) → Option (Config F)
read_config nm env = do
  let float_at = λ (name other : String). nm.float_of (environ env name other)
  let int_at = λ (name other : String). nm.int_of (environ env name other)
  thermal_r ← float_at "TWIN_THERMAL_R" "10.0"
  thermal_c ← float_at "TWIN_THERMAL_C" "15.0"
  thermal_t_amb ← float_at "TWIN_T_AMB" "25.0"
  battery_capacity_wh ← float_at "TWIN_BATTERY_WH" "50.0"
  charge_power_w ← float_at "TWIN_CHARGE_W" "7.0"
  horizon_min ← int_at "TWIN_HORIZON_MIN" "30"
  dt_sec ← int_at "TWIN_DT_SEC" "60"
  horizon_steps ← (if dt_sec == 0 then none else some (horizon_min * 60 / dt_sec))
  threshold_temp_c ← float_at "TWIN_THRESHOLD_TEMP" "75.0"
  threshold_temp_critical_c ← float_at "TWIN_THRESHOLD_TEMP_CRIT" "80.0"
  threshold_soc_low ← float_at "TWIN_THRESHOLD_SOC" "0.15"
  threshold_soc_critical ← float_at "TWIN_THRESHOLD_SOC_CRIT" "0.10"
  min_useful_lead_time_min ← float_at "TWIN_MIN_LEAD_TIME" "15.0"
  twin_cycle_sec ← int_at "TWIN_CYCLE_SEC" "60"
  telem_lookback_min ← int_at "TWIN_TELEM_LOOKBACK" "30"
  power_base_w ← float_at "TWIN_POWER_BASE" "2.0"
  power_per_cpu_pct_w ← float_at "TWIN_POWER_PER_PCT" "0.03"
  some (record {
    thermal_r = thermal_r;
    thermal_c = thermal_c;
    thermal_t_amb = thermal_t_amb;
    battery_capacity_wh = battery_capacity_wh;
    charge_power_w = charge_power_w;
    horizon_min = horizon_min;
    dt_sec = dt_sec;
    threshold_temp_c = threshold_temp_c;
    threshold_temp_critical_c = threshold_temp_critical_c;
    threshold_soc_low = threshold_soc_low;
    threshold_soc_critical = threshold_soc_critical;
    min_useful_lead_time_min = min_useful_lead_time_min;
    twin_cycle_sec = twin_cycle_sec;
    telem_lookback_min = telem_lookback_min;
    power_base_w = power_base_w;
    power_per_cpu_pct_w = power_per_cpu_pct_w;
  })
