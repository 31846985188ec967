-- ===== src/Twin/Api.antt =====
-- twin/twin_api.py: `TwinOrchestrator`. The requests that it makes are numbered, and what the ground API
-- answers is a parameter; so are the readings of the clock.
use asterion_one.Base.{
  ℕ, ◌+◌, Bool, true, false, Option, none, some, List, [], ◌∷◌, ◌++◌, String, if◌then◌else◌,
  is_some, get_or,
}
use asterion_one.Twin.Telemetry.{Outside, fetched, merge_telemetry}
use mathlib.Core.Option
use asterion_one.Floats.{Floats}
use asterion_one.Twin.{Numbers, Config, Frame, Forecast}
use asterion_one.Twin.Engine.{Engine, predict_thermal, predict_energy}
use asterion_one.Twin.Alerts.{Level, Thresholds, Alert, evaluate}

-- The body of a request to post a forecast.
pub record Post (F : Type 0) : Type 0 where
  pub model_type : String
  pub horizon_min : ℕ
  pub values : List F
  pub timestamps : List String
  pub threshold : F
  pub breach_index : Option ℕ
  pub breach_detected : Bool
  pub breach_time : Option String
  pub lead_time_min : Option F
  pub rationale : Option String
  pub alert_emitted : Bool

pub record Orchestrator (F : Type 0) : Type 0 where
  pub engine : Engine F
  pub thresholds : Thresholds F
  pub cycle_count : ℕ
  pub running : Bool
  pub requests : ℕ
  pub readings : ℕ
  pub posts : List (Post F)

-- `result["thermal"]` and `result["energy"]`
pub record Report (F : Type 0) : Type 0 where
  pub breach_detected : Bool
  pub lead_time_min : Option F
  pub current : F
  pub rate_per_min : F

-- An element of `result["alerts"]`
pub record AlertReport (F : Type 0) : Type 0 where
  pub model : String
  pub severity : Level
  pub lead_time_min : F
  pub meets_req : Bool

-- The call that raised, in place of the exception's text.
pub data CycleError : Type 0 where
  thermal_raised energy_raised : CycleError

pub record CycleResult (F : Type 0) : Type 0 where
  pub cycle : ℕ
  pub timestamp : String
  pub thermal : Option (Report F)
  pub energy : Option (Report F)
  pub alerts : List (AlertReport F)
  pub errors : List CycleError

module _ (fl : Floats) (nm : Numbers fl.Float) (cfg : Config fl.Float)
    (out : Outside fl.Float) where
  open fl use {Float}
  open out use {answer, parse_metrics, isoformat, utc_now, hour_utc}

  -- `TwinOrchestrator(engine, alert_engine)`
  abbrev pub new_orchestrator : Engine Float → Thresholds Float → Orchestrator Float
  new_orchestrator engine thresholds = record {
    engine = engine;
    thresholds = thresholds;
    cycle_count = 0;
    running = false;
    requests = 0;
    readings = 0;
    posts = [];
  }

  -- `_fetch_telemetry`: any exception gives no frame.
  abbrev pub fetch_telemetry : String → Orchestrator Float → List (Frame Float) × Orchestrator Float
  fetch_telemetry subsystem o =
      (get_or (fetched out subsystem o.requests) [], record o { requests = o.requests + 1 })

  -- The body that `_post_forecast` sends. The answer is not used.
  abbrev pub post_of : Forecast Float → Option (Alert Float) → Post Float
  post_of f alert = record {
    model_type = f.model_type;
    horizon_min = f.horizon_min;
    values = f.predicted_values;
    timestamps = f.timestamps;
    threshold = f.threshold;
    breach_index = f.breach_index;
    breach_detected = f.breach_detected;
    breach_time = f.breach_time;
    lead_time_min = f.lead_time_min;
    rationale = Option.map (λ a. a.rationale) alert;
    alert_emitted = is_some alert;
  }

  -- `_post_forecast`
  abbrev post_forecast :
      Forecast Float → Option (Alert Float) → Orchestrator Float → Orchestrator Float
  post_forecast f alert o = record o {
    posts = o.posts ++ post_of f alert ∷ [];
    requests = o.requests + 1;
  }

  abbrev pub report_of : Forecast Float → Report Float
  report_of f = record {
    breach_detected = f.breach_detected;
    lead_time_min = f.lead_time_min;
    current = f.current_value;
    rate_per_min = f.rate_per_min;
  }

  abbrev pub alert_reports : String → Option (Alert Float) → List (AlertReport Float)
  alert_reports model none = []
  alert_reports model (some a) =
      record {
        model = model;
        severity = a.severity;
        lead_time_min = a.lead_time_min;
        meets_req = a.meets_requirement;
      }
      ∷ []

  abbrev read_clock : Orchestrator Float → Orchestrator Float
  read_clock o = record o { readings = o.readings + 1 }

  abbrev alert_of : Forecast Float → Orchestrator Float → Option (Alert Float)
  alert_of f o = evaluate fl nm cfg hour_utc o.thresholds f

  -- The end of the block under `try`: both evaluations, and then both posts.
  abbrev conclude :
      Forecast Float
      → Forecast Float
      → CycleResult Float
      → Orchestrator Float
      → CycleResult Float × Orchestrator Float
  conclude thermal energy r o = (
    record r {
      thermal = some (report_of thermal);
      energy = some (report_of energy);
      alerts =
          alert_reports "THERMAL" (alert_of thermal o)
          ++ alert_reports "ENERGY" (alert_of energy o);
    },
    post_forecast energy (alert_of energy o) (post_forecast thermal (alert_of thermal o) o),
  )

  -- What follows once the energy prediction has raised or returned.
  abbrev pub after_energy :
      Forecast Float
      → CycleResult Float
      → Orchestrator Float
      → Option (Forecast Float)
      → CycleResult Float × Orchestrator Float
  after_energy thermal r o none =
      (record r { thermal = some (report_of thermal); errors = energy_raised ∷ [] }, o)
  after_energy thermal r o (some energy) = conclude thermal energy r (read_clock o)

  -- What follows once the thermal prediction has raised or returned.
  abbrev pub after_thermal :
      List (Frame Float)
      → CycleResult Float
      → Orchestrator Float
      → Option (Forecast Float)
      → CycleResult Float × Orchestrator Float
  after_thermal power r o none = (record r { errors = thermal_raised ∷ [] }, o)
  after_thermal power r o (some thermal) =
      after_energy thermal r (read_clock o)
        (predict_energy fl nm cfg o.engine isoformat (utc_now (o.readings + 1)) power none)

  abbrev pub new_result : Orchestrator Float → CycleResult Float
  new_result o = record {
    cycle = o.cycle_count + 1;
    timestamp = isoformat (utc_now o.readings);
    thermal = none;
    energy = none;
    alerts = [];
    errors = [];
  }

  unfoldable pub run_cycle : Orchestrator Float → CycleResult Float × Orchestrator Float
  run_cycle o =
      let begun = record o { cycle_count = o.cycle_count + 1; readings = o.readings + 1 } in
      let (thermal, asked) = fetch_telemetry "THERMAL" begun in
      let (power, asked_again) = fetch_telemetry "POWER" asked in
      after_thermal power (new_result o) asked_again (
        predict_thermal fl nm cfg o.engine isoformat (utc_now asked_again.readings)
          (merge_telemetry thermal power) none)

  abbrev pub stop : Orchestrator Float → Orchestrator Float
  stop o = record o { running = false }

  -- The `while` loop. Each flag says whether `stop` is called during that round; the list ends where
  -- the process is killed.
  unfoldable pub rounds : List Bool → Orchestrator Float → Orchestrator Float
  rounds [] o = o
  rounds (stopped ∷ later) o =
      let next = rounds later (if stopped then stop (run_cycle o).1 else (run_cycle o).1) in
      if o.running then next else o

  unfoldable pub run_loop : List Bool → Orchestrator Float → Orchestrator Float
  run_loop flags o = rounds flags (record o { running = true })
