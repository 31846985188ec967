-- ===== src/Twin/Severity.antt =====
-- twin/alert_engine.py: how severe an alert is.
use asterion_one.Base.{
  ◌≡◌, ◌⊎◌, ◌↔◌, inl, inr, Bool, true, List, [], ◌∷◌, Option, All, ◌<◌, length, String, arith,
  Bool-cases,
}
use asterion_one.Floats.{Floats}
use asterion_one.Twin.{Numbers, Config, Forecast}
use asterion_one.Twin.Alerts.{
  Thresholds, critical, max_of, min_of, peak, trough, determine_severity,
}

-- Some value passes the test.
abbrev pub Some : {A : Type 0} → (A → Bool) → List A → Type 0
Some p [] = ⊥
Some p (x ∷ xs) = (p x ≡ true) ⊎ Some p xs

module _ (fl : Floats) where
  open fl use {Float, lt, le, lit, le-trans, le_of_lt, le_of_not_lt}

  -- The value is not NaN.
  abbrev pub IsNumber : Float → Type 0
  IsNumber x = le x x ≡ true

  le-max_of :
      (c best : Float) (xs : List Float)
      → IsNumber best
      → All IsNumber xs
      → (le c (max_of fl best xs) ≡ true) ↔ ((le c best ≡ true) ⊎ Some (le c) xs)
  unfolding max_of
  le-max_of c best [] n ns = ground arith
  le-max_of c best (x ∷ xs) n (m, ms) = elim (Bool-cases (lt best x)) [
    | inl e ↦ rw e (ground (arith, le-max_of c x xs m ms, le-trans c best x, le_of_lt best x))
    | inr e ↦
        rw e
          (ground (arith, le-max_of c best xs n ms, le-trans c x best, le_of_not_lt best x n m e))
  ]

  min_of-le :
      (c best : Float) (xs : List Float)
      → IsNumber best
      → All IsNumber xs
      → (le (min_of fl best xs) c ≡ true) ↔ ((le best c ≡ true) ⊎ Some (λ x. le x c) xs)
  unfolding min_of
  min_of-le c best [] n ns = ground arith
  min_of-le c best (x ∷ xs) n (m, ms) = elim (Bool-cases (lt x best)) [
    | inl e ↦ rw e (ground (arith, min_of-le c x xs m ms, le-trans x best c, le_of_lt x best))
    | inr e ↦
        rw e
          (ground (arith, min_of-le c best xs n ms, le-trans best x c, le_of_not_lt x best m n e))
  ]

  le-peak :
      (c : Float) (xs : List Float)
      → All IsNumber xs
      → 0 < length xs
      → (le c (peak fl xs) ≡ true) ↔ Some (le c) xs
  le-peak c [] ns h = absurd (omega arith)
  le-peak c (x ∷ xs) (n, ns) h = le-max_of c x xs n ns

  trough-le :
      (c : Float) (xs : List Float)
      → All IsNumber xs
      → 0 < length xs
      → (le (trough fl xs) c ≡ true) ↔ Some (λ x. le x c) xs
  trough-le c [] ns h = absurd (omega arith)
  trough-le c (x ∷ xs) (n, ns) h = min_of-le c x xs n ns

module _ (fl : Floats) (nm : Numbers fl.Float) (cfg : Config fl.Float)
    (hour_utc : String → Option String) (t : Thresholds fl.Float) (f : Forecast fl.Float) where
  open fl use {le}

  -- Where none of its values is NaN, a forecast with at least one value is critical exactly when a value reaches the
  -- critical threshold: from below for a thermal forecast, from above for one of energy.
  pub determine_severity-critical_iff :
      All (IsNumber fl) f.predicted_values
      → 0 < length f.predicted_values
      → (f.model_type ≡ "THERMAL"
          → (determine_severity fl nm cfg hour_utc t f ≡ critical)
            ↔ Some (le t.temp_crit) f.predicted_values)
        × (f.model_type ≡ "ENERGY"
            → (determine_severity fl nm cfg hour_utc t f ≡ critical)
              ↔ Some (λ x. le x t.soc_crit) f.predicted_values)
  unfolding determine_severity
  determine_severity-critical_iff h k = (
    λ e. rw e (ground (arith, le-peak fl t.temp_crit f.predicted_values h k)),
    λ e. rw e (ground (arith, trough-le fl t.soc_crit f.predicted_values h k)),
  )
