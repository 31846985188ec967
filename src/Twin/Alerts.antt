-- ===== src/Twin/Alerts.antt =====
-- twin/alert_engine.py: `AlertEngine`, which turns a forecast into an alert.
use asterion_one.Base.{
  ℕ, Bool, true, not, Option, none, some, List, [], ◌∷◌, String, str_eq, if◌then◌else◌, get_elem?,
  get_or,
}
use asterion_one.Floats.{Floats}
use asterion_one.Twin.Rationale.{generate_rationale}
use asterion_one.Twin.{Numbers, Config, Forecast}

-- The severities that the engine writes as texts.
pub data Level : Type 0 where
  warning critical : Level

pub record Thresholds (F : Type 0) : Type 0 where
  pub temp_warn : F
  pub temp_crit : F
  pub soc_warn : F
  pub soc_crit : F

-- `forecast_summary`
pub record Summary (F : Type 0) : Type 0 where
  pub current_value : F
  pub threshold : F
  pub breach_index : Option ℕ
  pub rate_per_min : F
  pub horizon_min : ℕ
  pub predicted_at_breach : Option F

pub record Alert (F : Type 0) : Type 0 where
  pub model_type : String
  pub severity : Level
  pub breach_detected : Bool
  pub breach_time : Option String
  pub lead_time_min : F
  pub rationale : String
  pub forecast_summary : Summary F
  pub meets_requirement : Bool

module _ (fl : Floats) where
  open fl use {Float, lt, lit}

  -- `max` and `min` of a list that starts with `best`.
  unfoldable pub max_of : Float → List Float → Float
  max_of best [] = best
  max_of best (x ∷ xs) = max_of (if lt best x then x else best) xs

  unfoldable pub min_of : Float → List Float → Float
  min_of best [] = best
  min_of best (x ∷ xs) = min_of (if lt x best then x else best) xs

  -- `max(l) if l else 0`
  abbrev pub peak : List Float → Float
  peak [] = lit 0 0
  peak (x ∷ xs) = max_of x xs

  -- `min(l) if l else 1`
  abbrev pub trough : List Float → Float
  trough [] = lit 10 1
  trough (x ∷ xs) = min_of x xs

-- `hour_utc` parses an ISO 8601 time and writes its hour and minute; it fails on any other text.
module _ (fl : Floats) (nm : Numbers fl.Float) (cfg : Config fl.Float)
    (hour_utc : String → Option String) where
  open fl use {Float, lt, le, sub, mul, lit, text, fixed}
  open nm use {abs, is_true}

  -- `AlertEngine(thresholds)`
  abbrev pub alert_engine : Option (Thresholds Float) → Thresholds Float
  alert_engine thresholds = get_or thresholds (record {
    temp_warn = cfg.threshold_temp_c;
    temp_crit = cfg.threshold_temp_critical_c;
    soc_warn = cfg.threshold_soc_low;
    soc_crit = cfg.threshold_soc_critical;
  })

  -- `_determine_severity`
  unfoldable pub determine_severity : Thresholds Float → Forecast Float → Level
  determine_severity t f =
      if str_eq f.model_type "THERMAL"
      then (if le t.temp_crit (peak fl f.predicted_values) then critical else warning)
      else if str_eq f.model_type "ENERGY"
      then (if le (trough fl f.predicted_values) t.soc_crit then critical else warning)
      else warning

  abbrev value_at : Option ℕ → List Float → Option Float
  value_at none values = none
  value_at (some i) values = get_elem? values i

  abbrev pub new_alert : Thresholds Float → Forecast Float → Float → Alert Float
  new_alert t f lead = record {
    model_type = f.model_type;
    severity = determine_severity t f;
    breach_detected = true;
    breach_time = f.breach_time;
    lead_time_min = lead;
    rationale = generate_rationale fl nm cfg hour_utc f;
    forecast_summary = record {
      current_value = f.current_value;
      threshold = f.threshold;
      breach_index = f.breach_index;
      rate_per_min = f.rate_per_min;
      horizon_min = f.horizon_min;
      predicted_at_breach = value_at f.breach_index f.predicted_values;
    };
    meets_requirement = le cfg.min_useful_lead_time_min lead;
  }

  -- A lead time that is missing, zero or negative gives no alert.
  abbrev alert_after : Thresholds Float → Forecast Float → Option Float → Option (Alert Float)
  alert_after t f none = none
  alert_after t f (some lead) = if le lead (lit 0 0) then none else some (new_alert t f lead)

  unfoldable pub evaluate : Thresholds Float → Forecast Float → Option (Alert Float)
  evaluate t f = if not f.breach_detected then none else alert_after t f f.lead_time_min
