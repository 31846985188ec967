-- ===== src/Twin/Rationale.antt =====
-- twin/alert_engine.py: the explanation that an alert carries.
use asterion_one.Base.{
  ℕ, Bool, ◌&&◌, Option, none, some, List, [], ◌∷◌, ◌++◌, String, ◌<>◌, str_eq, if◌then◌else◌,
  get_or,
}
use asterion_one.Base.Assoc.{lookup}
use asterion_one.Floats.{Floats}
use asterion_one.Twin.{Numbers, Config, Forecast}

-- `", ".join(texts)`
abbrev join : List String → String
join [] = ""
join (t ∷ []) = t
join (t ∷ u ∷ us) = t <> (", " <> join (u ∷ us))

-- `[text] if test else []`
abbrev factor : Bool → String → List String
factor test t = if test then t ∷ [] else []

-- `if not factors: factors.append(t)`
abbrev some_factor : List String → String → List String
some_factor [] t = t ∷ []
some_factor (f ∷ fs) t = f ∷ fs

-- `hour_utc` parses an ISO 8601 time and writes its hour and minute; it fails on any other text.
module _ (fl : Floats) (nm : Numbers fl.Float) (cfg : Config fl.Float)
    (hour_utc : String → Option String) where
  open fl use {Float, lt, sub, mul, lit, text, fixed}
  open nm use {abs, is_true}

  -- `forecast.lead_time_min or 0`
  abbrev lead_of : Forecast Float → Float
  lead_of f =
      if is_true (get_or f.lead_time_min (lit 0 0))
      then get_or f.lead_time_min (lit 0 0)
      else lit 0 0

  abbrev breach_utc : Option String → String
  breach_utc none = "unknown"
  breach_utc (some time) = if str_eq time "" then "unknown" else get_or (hour_utc time) time

  abbrev rate_text : ℕ → Float → Float → String
  rate_text digits rate shown = if is_true rate then fixed digits (abs shown) else "N/A"

  abbrev shown : Option Float → String
  shown none = "unknown"
  shown (some x) = text x

  abbrev load_factor : Option Float → List String
  load_factor none = []
  load_factor (some cpu) =
      factor (lt (lit 700 1) cpu) ("high computational load (" <> (fixed 0 cpu <> "%)"))

  abbrev draw_factor : Option Float → List String
  draw_factor none = []
  draw_factor (some power) =
      factor (lt (lit 35 1) power) ("elevated power draw (" <> (fixed 1 power <> "W)"))

  abbrev margin_factor : Forecast Float → List String
  margin_factor f =
      let margin = sub f.threshold f.current_value in
      factor (is_true f.threshold && is_true f.current_value && lt margin (lit 100 1))
        ("narrow thermal margin (" <> (fixed 1 margin <> "°C to threshold)"))

  unfoldable pub thermal_rationale : Forecast Float → String
  thermal_rationale f =
      let cpu = lookup "cpu_usage_pct" f.metadata in
      let power = lookup "power_w" f.metadata in
      let factors =
        some_factor (load_factor cpu ++ (draw_factor power ++ margin_factor f))
          "sustained thermal load" in
      "Predicted Overheat in "
      <> (fixed 0 (lead_of f)
          <> (" min: CPU load sustained at "
              <> (shown cpu
                  <> ("% is driving thermal rise at "
                      <> (rate_text 2 f.rate_per_min f.rate_per_min
                          <> ("°C/min. At current trajectory, the "
                              <> (text f.threshold
                                  <> ("°C threshold will be breached at ~"
                                      <> (breach_utc f.breach_time
                                          <> (". Contributing factors: "
                                              <> (join factors <> ".")))))))))))

  abbrev drain_factors : Option Float → Float → List String
  drain_factors none charge = []
  drain_factors (some power) charge =
      let net = sub charge power in
      factor (lt net (lit 0 0)) ("net energy drain (" <> (fixed 1 (abs net) <> "W deficit)"))
      ++ (("load " <> (fixed 1 power <> ("W vs charge " <> (fixed 1 charge <> "W")))) ∷ [])

  unfoldable pub energy_rationale : Forecast Float → String
  energy_rationale f =
      let power = lookup "power_w" f.metadata in
      let charge = get_or (lookup "charge_w" f.metadata) cfg.charge_power_w in
      let factors = some_factor (drain_factors power charge) "sustained power imbalance" in
      "Predicted Battery Depletion in "
      <> (fixed 0 (lead_of f)
          <> (" min: Current SOC at "
              <> (fixed 1 (mul f.current_value (lit 1000 1))
                  <> ("% declining at "
                      <> (rate_text 3 f.rate_per_min (mul f.rate_per_min (lit 1000 1))
                          <> ("%/min. At current trajectory, the "
                              <> (fixed 0 (mul f.threshold (lit 1000 1))
                                  <> ("% threshold will be breached at ~"
                                      <> (breach_utc f.breach_time
                                          <> (". Contributing factors: "
                                              <> (join factors <> ".")))))))))))

  unfoldable pub generate_rationale : Forecast Float → String
  generate_rationale f =
      if str_eq f.model_type "THERMAL"
      then thermal_rationale f
      else if str_eq f.model_type "ENERGY"
      then energy_rationale f
      else "Unknown model type: " <> f.model_type
