-- ===== src/Twin/Tests.antt =====
-- Runs of the digital twin, with numbers in hundredths, and its theorems at concrete inputs.
use mathlib.Core.List.{Perm}
use asterion_one.Base.{
  ℕ, ◌*◌, ◌≡◌, ◌↔◌, ◌==◌, refl, true, false, not, Option, none, some, List, [], ◌∷◌, ◌++◌, String,
  ltb, leb, if◌then◌else◌, get_elem?, arith,
}
use asterion_one.Base.Assoc.{lookup}
use asterion_one.Floats.{hundredths}
use asterion_one.Twin.{Numbers, Config, Frame, Forecast}
use asterion_one.Twin.Engine.{
  Engine, predict_thermal, predict_energy, lead_time, is_too_hot, is_too_low, first_index, stamps,
}
use asterion_one.Twin.Physics.{
  euler, euler_from, thermal_model, energy_model, thermal_step, energy_step,
}
use asterion_one.Twin.Warnings.{HasLeads}
use asterion_one.Twin.Trajectories.{iterate}
use asterion_one.Twin.Alerts.{Thresholds, critical, determine_severity, alert_engine}
use asterion_one.Base.Sorting.{IsSorted}
use asterion_one.Twin.Charge.{IsClip, IsFraction, predict_energy-IsFraction}
use asterion_one.Twin.Raises.{Raises, predict-eq-none}
use asterion_one.Twin.Contents.{IsPost, IsReported, IsReport}
use asterion_one.Twin.Api.{Post, AlertReport}
use asterion_one.Twin.Severity.{Some, determine_severity-critical_iff}
use asterion_one.Twin.Times.{stamped_leb}
use asterion_one.Twin.Windows.{fetched-IsSorted, merge_telemetry-lookup}
use asterion_one.Twin.Telemetry.{Outside, object, absent, fetched, merge_telemetry}
use asterion_one.Twin.Api.{Orchestrator, new_orchestrator, run_cycle, run_loop}
use asterion_one.Twin.Cycles.{IsThermal, IsEnergy, alert_of, run_cycle_lem, run_loop-stops}
use asterion_one.Twin.Early.{IsEarly, predict_thermal-IsEarly, predict_energy-IsEarly}

abbrev numbers : Numbers ℕ
numbers = record {
  round = λ k x. x;
  abs = λ x. x;
  of_nat = λ n. n * 100;
  is_true = λ x. not (x == 0);
  clip = λ x lo hi. if ltb x lo then lo else if ltb hi x then hi else x;
  float_of = λ t. none;
  int_of = λ t. none;
}

abbrev config : Config ℕ
config = record {
  thermal_r = 1000;
  thermal_c = 1500;
  thermal_t_amb = 2500;
  battery_capacity_wh = 5000;
  charge_power_w = 700;
  horizon_min = 30;
  dt_sec = 60;
  threshold_temp_c = 7500;
  threshold_temp_critical_c = 8000;
  threshold_soc_low = 15;
  threshold_soc_critical = 10;
  min_useful_lead_time_min = 1500;
  twin_cycle_sec = 60;
  telem_lookback_min = 30;
  power_base_w = 200;
  power_per_cpu_pct_w = 3;
}

abbrev engine : Engine ℕ
engine = record {
  thermal = thermal_model hundredths numbers config none none none;
  energy = energy_model hundredths numbers config none none;
}

abbrev thresholds : Thresholds ℕ
thresholds = alert_engine hundredths numbers config (λ t. none) none

abbrev clock_text : ℕ → String
clock_text t = "t"

abbrev warm : Frame ℕ
warm = record {
  timestamp = some "t";
  metrics = ("cpu_temp_c", 7000) ∷ ("cpu_usage_pct", 9000) ∷ ("power_w", 800) ∷ [];
}

leads : HasLeads hundredths (lead_time hundredths numbers config)
leads i = ground arith

predict_thermal-IsEarly_example :
    (f : Forecast ℕ) × (predict_thermal hundredths numbers config engine clock_text 0
        (warm ∷ [])
        none
      ≡ some f)
    × IsEarly hundredths numbers config
        (λ t. none)
        thresholds
        clock_text
        0
        none
        (is_too_hot hundredths numbers config)
        (λ n. iterate n (thermal_step hundredths numbers config engine.thermal 60 800) 7000)
        f
predict_thermal-IsEarly_example =
    predict_thermal-IsEarly hundredths numbers config (λ t. none) thresholds clock_text 0 none
      engine warm [] (omega arith) (omega arith) leads

-- The same window warns: the temperature reaches the threshold after a minute.
warms_up : iterate 1 (thermal_step hundredths numbers config engine.thermal 60 800) 7000 ≡ 8400
warms_up = refl

abbrev drained : Frame ℕ
drained = record { timestamp = some "t"; metrics = ("battery_soc", 20) ∷ ("power_w", 800) ∷ [] }

predict_energy-IsEarly_example :
    (f : Forecast ℕ) × (predict_energy hundredths numbers config engine clock_text 0
        (drained ∷ [])
        none
      ≡ some f)
    × IsEarly hundredths numbers config
        (λ t. none)
        thresholds
        clock_text
        0
        none
        (is_too_low hundredths numbers config)
        (λ n. iterate n (energy_step hundredths numbers config engine.energy 60 800) 20)
        f
predict_energy-IsEarly_example =
    predict_energy-IsEarly hundredths numbers config (λ t. none) thresholds clock_text 0 none engine
      drained [] (omega arith) (omega arith) leads

clips : IsClip hundredths numbers
clips = record { clip_lem = λ x lo hi. refl; zero_lt_one = refl }

abbrev energy_forecast : Option (Forecast ℕ)
energy_forecast =
    predict_energy hundredths numbers config engine clock_text 0 (drained ∷ []) (some 2)

abbrev two_values : Forecast ℕ
two_values = record {
  model_type = "ENERGY";
  horizon_min = 2;
  timestamps = "t" ∷ "t" ∷ [];
  predicted_values = 20 ∷ 20 ∷ [];
  breach_detected = false;
  breach_index = none;
  breach_time = none;
  lead_time_min = none;
  current_value = 20;
  threshold = 15;
  rate_per_min = 0;
  metadata = ("power_w", 800) ∷ ("charge_w", 700) ∷ ("capacity_wh", 5000) ∷ [];
}

made : energy_forecast ≡ some two_values
unfolding predict_energy first_index stamps euler euler_from
made = refl

predict_energy-IsFraction_example : IsFraction hundredths numbers 20
predict_energy-IsFraction_example =
    predict_energy-IsFraction hundredths numbers config engine clock_text 0 drained [] (some 2)
      clips (omega arith) made 0 20 (omega arith) refl

predict-eq-none_example :
    ((predict_thermal hundredths numbers config engine clock_text 0 (warm ∷ []) (some 0) ≡ none)
      ↔ Raises config (warm ∷ []) (some 0))
    × ((predict_energy hundredths numbers config engine clock_text 0 (warm ∷ []) (some 0) ≡ none)
        ↔ Raises config (warm ∷ []) (some 0))
predict-eq-none_example =
    predict-eq-none hundredths numbers config engine clock_text 0 (some 0) (warm ∷ [])

determine_severity-critical_iff_example :
    (two_values.model_type ≡ "THERMAL"
      → (determine_severity hundredths numbers config (λ t. none) thresholds two_values ≡ critical)
        ↔ Some (λ x. leb 8000 x) (20 ∷ 20 ∷ []))
    × (two_values.model_type ≡ "ENERGY"
        → (determine_severity hundredths numbers config (λ t. none) thresholds two_values
            ≡ critical)
          ↔ Some (λ x. leb x 10) (20 ∷ 20 ∷ []))
determine_severity-critical_iff_example =
    determine_severity-critical_iff hundredths numbers config (λ t. none) thresholds two_values
      (refl, (refl, tt)) (omega arith)

abbrev outside : Outside ℕ
outside = record {
  answer = λ subsystem request. some (
      record { timestamp = some "12:01"; metrics = object warm.metrics }
      ∷ record { timestamp = some "12:00"; metrics = absent }
      ∷ []);
  parse_metrics = λ t. none;
  isoformat = clock_text;
  utc_now = λ n. n;
  hour_utc = λ t. none;
}

abbrev orchestrator : Orchestrator ℕ
orchestrator = new_orchestrator hundredths numbers config outside engine thresholds

run_cycle_lem_example :
    let (r, o') = run_cycle hundredths numbers config outside orchestrator in
    (thermal energy : Forecast ℕ) × IsThermal hundredths numbers config outside orchestrator thermal
    × IsEnergy hundredths numbers config outside orchestrator energy
    × (r.errors ≡ [])
    × ((first second : Post ℕ) × (o'.posts ≡ ([] ++ first ∷ []) ++ second ∷ [])
        × IsPost hundredths thermal
            (alert_of hundredths numbers config outside orchestrator thermal)
            first
        × IsPost hundredths energy
            (alert_of hundredths numbers config outside orchestrator energy)
            second)
    × ((first second : List (AlertReport ℕ)) × (r.alerts ≡ first ++ second)
        × IsReported hundredths "THERMAL"
            (alert_of hundredths numbers config outside orchestrator thermal)
            first
        × IsReported hundredths "ENERGY"
            (alert_of hundredths numbers config outside orchestrator energy)
            second)
    × IsReport hundredths thermal r.thermal
    × IsReport hundredths energy r.energy
    × (r.cycle ≡ 1)
run_cycle_lem_example =
    run_cycle_lem hundredths numbers config outside orchestrator (omega arith) (omega arith)

run_loop-stops_example :
    ((run_loop hundredths numbers config outside
        (false ∷ true ∷ false ∷ [])
        orchestrator).cycle_count
      ≡ 2)
    × ((run_loop hundredths numbers config outside (false ∷ true ∷ false ∷ []) orchestrator).running
        ≡ false)
run_loop-stops_example =
    run_loop-stops hundredths numbers config outside (false ∷ true ∷ false ∷ []) orchestrator

abbrev early_frame : Frame ℕ
early_frame = record { timestamp = some "12:00"; metrics = [] }

abbrev late_frame : Frame ℕ
late_frame = record { timestamp = some "12:01"; metrics = warm.metrics }

fetched-IsSorted_example :
    (window : List (Frame ℕ)) × (fetched outside "THERMAL" 0 ≡ some window)
    × IsSorted stamped_leb window
    × Perm window (late_frame ∷ early_frame ∷ [])
fetched-IsSorted_example = fetched-IsSorted outside "THERMAL" 0 refl refl refl

merge_telemetry-lookup_example :
    (merged : Frame ℕ) × (get_elem?
        (merge_telemetry (drained ∷ []) (early_frame ∷ late_frame ∷ []))
        0
      ≡ some merged)
    × (merged.timestamp ≡ some "t")
    × (lookup "power_w" merged.metrics ≡ some 800)
merge_telemetry-lookup_example =
    merge_telemetry-lookup (drained ∷ []) early_frame (late_frame ∷ []) 0 "power_w" refl
