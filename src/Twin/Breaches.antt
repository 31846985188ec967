-- ===== src/Twin/Breaches.antt =====
-- twin/twin_engine.py: what a forecast says of its values, for any test that finds a breach.
use asterion_one.Base.{
  ℕ, zero, suc, ◌+◌, ◌*◌, ◌<◌, ◌≡◌, refl, Bool, true, false, Option, none, some, List, [], ◌∷◌,
  String, length, get_elem?, get_elem?-of_lt, is_some, arith, All, Bool-cases, inl, inr,
}
use asterion_one.Base.Assoc.{Assoc}
use mathlib.Core.Option
use asterion_one.Floats.{Floats}
use asterion_one.Twin.{Numbers, Config, Forecast}
use asterion_one.Twin.Engine.{
  first_index, stamps, make_forecast, with_breach, with_breach_at, lead_time,
}

-- The value at index `i` passes the test, and no earlier one does.
abbrev pub IsFirst : {A : Type 0} → (A → Bool) → List A → ℕ → Type 0
IsFirst p [] i = ⊥
IsFirst p (x ∷ xs) zero = p x ≡ true
IsFirst p (x ∷ xs) (suc i) = (p x ≡ false) × IsFirst p xs i

-- The index is that of the first value that passes the test, or none does.
abbrev pub Finds : {A : Type 0} → (A → Bool) → List A → Option ℕ → Type 0
Finds p xs none = All (λ x. p x ≡ false) xs
Finds p xs (some i) = IsFirst p xs i

abbrev shifted : Option ℕ → ℕ → Option ℕ
shifted none n = none
shifted (some i) n = some (i + n)

module _ {A : Type 0} where
  first_index-shifted :
      (p : A → Bool) (n : ℕ) (xs : List A) → first_index p n xs ≡ shifted (first_index p 0 xs) n
  unfolding first_index
  first_index-shifted p n [] = refl
  first_index-shifted p n (x ∷ xs) =
      ground (arith, first_index-shifted p (n + 1) xs, first_index-shifted p 1 xs)

  Finds-cons :
      (p : A → Bool) (x : A) (xs : List A) (o : Option ℕ)
      → p x ≡ false
      → Finds p xs o
      → Finds p (x ∷ xs) (shifted o 1)
  Finds-cons p x xs none h f = (h, f)
  Finds-cons p x xs (some i) h f = let e : i + 1 ≡ suc i = omega arith in rw e (h, f)

  pub first_index-Finds : (p : A → Bool) (xs : List A) → Finds p xs (first_index p 0 xs)
  unfolding first_index
  first_index-Finds p [] = tt
  first_index-Finds p (x ∷ xs) = elim (Bool-cases (p x)) [
    | inl e ↦ rw e e
    | inr e ↦ rw (e, first_index-shifted p 1 xs) (Finds-cons p x xs _ e (first_index-Finds p xs))
  ]

  pub IsFirst-lt : (p : A → Bool) (xs : List A) (i : ℕ) → IsFirst p xs i → i < length xs
  IsFirst-lt p [] i h = absurd h
  IsFirst-lt p (x ∷ xs) zero h = omega arith
  IsFirst-lt p (x ∷ xs) (suc i) h = omega (arith, IsFirst-lt p xs i h.1)

-- The sequence `g` passes the test at `i` for the first time.
abbrev pub Crosses : {A : Type 0} → (A → Bool) → (ℕ → A) → ℕ → Type 0
Crosses p g i = (p (g i) ≡ true) × ((j : ℕ) → j < i → p (g j) ≡ false)

module _ {A : Type 0} (p : A → Bool) where
  pub Finds-eq_some :
      (xs : List A) (o : Option ℕ) (i : ℕ) → Finds p xs o → IsFirst p xs i → o ≡ some i
  Finds-eq_some [] none i f h = absurd h
  Finds-eq_some [] (some j) i f h = absurd h
  Finds-eq_some (x ∷ xs) none zero f h = cc (f.0, h)
  Finds-eq_some (x ∷ xs) none (suc i) f h = cc (Finds-eq_some xs none i f.1 h.1)
  Finds-eq_some (x ∷ xs) (some zero) zero f h = refl
  Finds-eq_some (x ∷ xs) (some zero) (suc i) f h = cc (f, h.0)
  Finds-eq_some (x ∷ xs) (some (suc j)) zero f h = cc (f.0, h)
  Finds-eq_some (x ∷ xs) (some (suc j)) (suc i) f h = cc (Finds-eq_some xs (some j) i f.1 h.1)

  before_suc :
      (g : ℕ → A) (i : ℕ)
      → p (g 0) ≡ false
      → ((j : ℕ) → j < i → p (g (suc j)) ≡ false)
      → (j : ℕ) → j < suc i
      → p (g j) ≡ false
  before_suc g i h k zero l = h
  before_suc g i h k (suc j) l = k j (omega arith)

  pub IsFirst-Crosses :
      (xs : List A) (g : ℕ → A) (i : ℕ)
      → ((j : ℕ) → j < length xs → get_elem? xs j ≡ some (g j))
      → IsFirst p xs i
      → Crosses p g i
  IsFirst-Crosses [] g i e h = absurd h
  IsFirst-Crosses (x ∷ xs) g zero e h = (cc (e 0 (omega arith), h), λ j l. absurd (omega arith))
  IsFirst-Crosses (x ∷ xs) g (suc i) e h =
      let later = IsFirst-Crosses xs (λ j. g (suc j)) i (λ j l. e (suc j) (omega arith)) h.1 in
      (later.0, before_suc g i (cc (e 0 (omega arith), h.0)) later.1)

  pub Crosses-IsFirst :
      (xs : List A) (g : ℕ → A) (i : ℕ)
      → ((j : ℕ) → j < length xs → get_elem? xs j ≡ some (g j))
      → i < length xs
      → Crosses p g i
      → IsFirst p xs i
  Crosses-IsFirst [] g i e k h = absurd (omega arith)
  Crosses-IsFirst (x ∷ xs) g zero e k h = cc (e 0 (omega arith), h.0)
  Crosses-IsFirst (x ∷ xs) g (suc i) e k h = (
    cc (e 0 (omega arith), h.1 0 (omega arith)),
    Crosses-IsFirst xs (λ j. g (suc j)) i (λ j l. e (suc j) (omega arith)) (omega arith)
        (h.0, λ j l. h.1 (suc j) (omega arith)),
  )

pub get_elem?-stamps :
    (isoformat : ℕ → String) (now dt i n k : ℕ)
    → k < n
    → get_elem? (stamps isoformat now dt i n) k ≡ some (isoformat (now + (i + k) * dt * 1_000_000))
unfolding stamps
get_elem?-stamps isoformat now dt i zero k h = absurd (omega arith)
get_elem?-stamps isoformat now dt i (suc n) zero h = ground arith
get_elem?-stamps isoformat now dt i (suc n) (suc k) h =
    let e : i + 1 + k ≡ i + suc k = omega arith in
    let ih = get_elem?-stamps isoformat now dt (i + 1) n k (omega arith) in rw e at ih

pub length-stamps :
    (isoformat : ℕ → String) (now dt i n : ℕ) → length (stamps isoformat now dt i n) ≡ n
unfolding stamps
length-stamps isoformat now dt i zero = refl
length-stamps isoformat now dt i (suc n) = omega (arith, length-stamps isoformat now dt (i + 1) n)

-- What a forecast says of the values that it holds: as many as there are steps, each with its time,
-- and the first that passes the test as the breach, with its time and lead.
pub record Describes {F : Type 0} (lead : ℕ → F) (breaches : F → Bool) (times : List String)
    (steps : ℕ) (f : Forecast F) : Type 0 where
  pub count : length f.predicted_values ≡ steps
  pub stamped : f.timestamps ≡ times
  pub first : Finds breaches f.predicted_values f.breach_index
  pub detected : f.breach_detected ≡ is_some f.breach_index
  pub time : (i : ℕ) → f.breach_index ≡ some i → f.breach_time ≡ get_elem? times i
  pub ahead : f.lead_time_min ≡ Option.map lead f.breach_index

-- A forecast before its breach is entered.
record IsBlank {F : Type 0} (f : Forecast F) : Type 0 where
  pub detected : f.breach_detected ≡ false
  pub index : f.breach_index ≡ none
  pub time : f.breach_time ≡ none
  pub lead : f.lead_time_min ≡ none

module _ (fl : Floats) (nm : Numbers fl.Float) (cfg : Config fl.Float) where
  open fl use {Float}

  with_breach-Describes :
      (breaches : Float → Bool) (times : List String) (steps : ℕ) (f : Forecast Float)
      (o : Option ℕ)
      → length f.predicted_values ≡ steps
      → length times ≡ steps
      → f.timestamps ≡ times
      → IsBlank f
      → Finds breaches f.predicted_values o
      → (g : Forecast Float) × (with_breach fl nm cfg o f ≡ some g)
        × (g.predicted_values ≡ f.predicted_values)
        × (g.model_type ≡ f.model_type)
        × Describes (lead_time fl nm cfg) breaches times steps g
  with_breach-Describes breaches times steps f none n m t b found = (
    f,
    refl,
    refl,
    refl,
    record {
      count = n;
      stamped = t;
      first = rw b.index found;
      detected = rw (b.index, b.detected);
      time = λ i e. ground (arith, b.index);
      ahead = rw (b.index, b.lead);
    },
  )
  with_breach-Describes breaches times steps f (some i) n m t b found =
      let (time, e) =
        get_elem?-of_lt f.timestamps i
          (rw t (omega (arith, IsFirst-lt breaches f.predicted_values i found))) in
      (
        with_breach_at fl nm cfg i time f,
        rw e,
        refl,
        refl,
        record {
          count = n;
          stamped = t;
          first = found;
          detected = refl;
          time = λ j h. ground arith;
          ahead = refl;
        },
      )

  pub make_forecast-Describes :
      (model : String) (isoformat : ℕ → String) (now horizon steps : ℕ) (breaches : Float → Bool)
      (threshold : Float) (digits : ℕ) (current : Float) (metadata : Assoc Float)
      (values : List Float)
      → length values ≡ steps
      → (f : Forecast Float) × (make_forecast fl nm cfg model isoformat now horizon steps breaches
            threshold digits current metadata values
          ≡ some f)
        × (f.predicted_values ≡ values)
        × (f.model_type ≡ model)
        × Describes (lead_time fl nm cfg) breaches (stamps isoformat now cfg.dt_sec 0 steps) steps f
  make_forecast-Describes model isoformat now horizon steps breaches threshold digits current
        metadata values h =
      with_breach-Describes breaches (stamps isoformat now cfg.dt_sec 0 steps) steps _
        (first_index breaches 0 values) h (length-stamps isoformat now cfg.dt_sec 0 steps) refl
        (record { detected = refl; index = refl; time = refl; lead = refl })
        (first_index-Finds breaches values)
