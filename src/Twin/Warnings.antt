-- ===== src/Twin/Warnings.antt =====
-- twin/alert_engine.py: when a forecast gives an alert, and what the alert says.
use asterion_one.Base.{
  ℕ, zero, suc, ◌≡◌, ◌==◌, refl, ap, Bool, true, false, Option, none, some, List, String, get_elem?,
  arith, is_some,
}
use mathlib.Core.Option
use asterion_one.Floats.{Floats}
use asterion_one.Twin.{Numbers, Config, Forecast}
use asterion_one.Twin.Alerts.{Thresholds, Alert, determine_severity, new_alert, evaluate}
use asterion_one.Twin.Breaches.{IsFirst, Finds-eq_some, Describes}

-- Rounding to hundredths of a minute keeps a lead of at least one time step above 0, and 0 at 0.
abbrev pub HasLeads : (fl : Floats) → (ℕ → fl.Float) → Type 0
HasLeads fl lead = (i : ℕ) → fl.le (lead i) (fl.lit 0 0) ≡ (i == 0)

module _ (fl : Floats) (nm : Numbers fl.Float) (cfg : Config fl.Float)
    (hour_utc : String → Option String) (t : Thresholds fl.Float) (lead : ℕ → fl.Float)
    (breaches : fl.Float → Bool) (times : List String) (steps : ℕ) (f : Forecast fl.Float) where
  open fl use {Float, le}

  -- What an alert says, for a breach at index `i`.
  pub record Warns (i : ℕ) (a : Alert Float) : Type 0 where
    pub model : a.model_type ≡ f.model_type
    pub time : a.breach_time ≡ get_elem? times i
    pub ahead : a.lead_time_min ≡ lead i
    pub useful : a.meets_requirement ≡ le cfg.min_useful_lead_time_min (lead i)
    pub value : a.forecast_summary.predicted_at_breach ≡ get_elem? f.predicted_values i
    pub level : a.severity ≡ determine_severity fl nm cfg hour_utc t f

  pub evaluate_later :
      HasLeads fl lead
      → Describes lead breaches times steps f
      → (i : ℕ) → IsFirst breaches f.predicted_values (suc i)
      → (a : Alert Float) × (evaluate fl nm cfg hour_utc t f ≡ some a) × Warns (suc i) a
  unfolding evaluate
  evaluate_later h d i first =
      let index = Finds-eq_some breaches f.predicted_values f.breach_index (suc i) d.first first in
      let detected : f.breach_detected ≡ true = cc (d.detected, ap is_some index) in
      let ahead : f.lead_time_min ≡ some (lead (suc i)) =
        cc (d.ahead, ap (Option.map lead) index) in
      let positive : le (lead (suc i)) (fl.lit 0 0) ≡ false = ground (arith, h (suc i)) in
      (
        new_alert fl nm cfg hour_utc t f (lead (suc i)),
        simp (detected, ahead, positive),
        record {
          model = refl;
          time = d.time (suc i) index;
          ahead = refl;
          useful = refl;
          value = rw index;
          level = refl;
        },
      )

  not_later :
      HasLeads fl lead
      → Describes lead breaches times steps f
      → (o : Option ℕ) → f.breach_index ≡ o
      → ((i : ℕ) → o ≡ some (suc i) → ⊥)
      → evaluate fl nm cfg hour_utc t f ≡ none
  unfolding evaluate
  not_later h d none e never = rw (d.detected, e)
  not_later h d (some zero) e never = rw (d.detected, d.ahead, e, h 0)
  not_later h d (some (suc i)) e never = absurd (never i refl)

  pub evaluate_otherwise :
      HasLeads fl lead
      → Describes lead breaches times steps f
      → ((i : ℕ) → ¬ (IsFirst breaches f.predicted_values (suc i)))
      → evaluate fl nm cfg hour_utc t f ≡ none
  evaluate_otherwise h d never =
      not_later h d f.breach_index refl (λ i e. never i (let found = d.first in rw e at found))
