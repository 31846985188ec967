-- ===== src/Twin/Contents.antt =====
-- twin/twin_api.py: what a cycle tells of a forecast and of its alert.
use asterion_one.Base.{◌≡◌, refl, ◌↔◌, true, Option, none, some, List, [], ◌∷◌, String}
use asterion_one.Floats.{Floats}
use asterion_one.Twin.{Numbers, Config, Forecast}
use asterion_one.Twin.Alerts.{Alert}
use asterion_one.Twin.Telemetry.{Outside}
use asterion_one.Twin.Api.{Post, Report, AlertReport, post_of, alert_reports}

-- The post has the forecast's contents and tells of its alert.
pub record IsPost (fl : Floats) (f : Forecast fl.Float) (alert : Option (Alert fl.Float))
    (p : Post fl.Float) : Type 0 where
  pub model : p.model_type ≡ f.model_type
  pub horizon : p.horizon_min ≡ f.horizon_min
  pub values : p.values ≡ f.predicted_values
  pub times : p.timestamps ≡ f.timestamps
  pub limit : p.threshold ≡ f.threshold
  pub index : p.breach_index ≡ f.breach_index
  pub breach : p.breach_detected ≡ f.breach_detected
  pub breach_at : p.breach_time ≡ f.breach_time
  pub lead : p.lead_time_min ≡ f.lead_time_min
  pub flagged : (p.alert_emitted ≡ true) ↔ ((a : Alert fl.Float) × (alert ≡ some a))
  pub explained : (a : Alert fl.Float) → alert ≡ some a → p.rationale ≡ some a.rationale
  pub silent : alert ≡ none → p.rationale ≡ none

-- One report of the alert, or none without an alert.
pub record IsReported (fl : Floats) (model : String) (alert : Option (Alert fl.Float))
    (rs : List (AlertReport fl.Float)) : Type 0 where
  pub silent : alert ≡ none → rs ≡ []
  pub told :
      (a : Alert fl.Float)
      → alert ≡ some a
      → (r : AlertReport fl.Float) × (rs ≡ r ∷ [])
        × (r.model ≡ model)
        × (r.severity ≡ a.severity)
        × (r.lead_time_min ≡ a.lead_time_min)
        × (r.meets_req ≡ a.meets_requirement)

-- The result's entry for a forecast.
abbrev pub IsReport : (fl : Floats) → Forecast fl.Float → Option (Report fl.Float) → Type 0
IsReport fl f none = ⊥
IsReport fl f (some r) =
    (r.breach_detected ≡ f.breach_detected)
    × (r.lead_time_min ≡ f.lead_time_min)
    × (r.current ≡ f.current_value)
    × (r.rate_per_min ≡ f.rate_per_min)

module _ (fl : Floats) (nm : Numbers fl.Float) (cfg : Config fl.Float)
    (out : Outside fl.Float) where
  open fl use {Float}

  pub post_of-IsPost :
      (f : Forecast Float) (alert : Option (Alert Float))
      → IsPost fl f alert (post_of fl nm cfg out f alert)
  post_of-IsPost f none = record {
    model = refl;
    horizon = refl;
    values = refl;
    times = refl;
    limit = refl;
    index = refl;
    breach = refl;
    breach_at = refl;
    lead = refl;
    flagged = (λ h. cc, λ h. cc (h.1));
    explained = λ a h. cc;
    silent = λ h. refl;
  }
  post_of-IsPost f (some a) = record {
    model = refl;
    horizon = refl;
    values = refl;
    times = refl;
    limit = refl;
    index = refl;
    breach = refl;
    breach_at = refl;
    lead = refl;
    flagged = (λ h. (a, refl), λ h. refl);
    explained = λ b h. cc;
    silent = λ h. cc;
  }

  pub alert_reports-IsReported :
      (model : String) (alert : Option (Alert Float))
      → IsReported fl model alert (alert_reports fl nm cfg out model alert)
  alert_reports-IsReported model none = record { silent = λ h. refl; told = λ a h. absurd (cc) }
  alert_reports-IsReported model (some a) = record {
    silent = λ h. cc;
    told = λ b h. (_, refl, refl, cc, cc, cc);
  }
