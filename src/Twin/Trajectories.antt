-- ===== src/Twin/Trajectories.antt =====
-- twin/twin_engine.py: `predict` under a constant profile, against the iterated step.
use asterion_one.Base.{
  ℕ, zero, suc, ◌+◌, ◌<◌, ◌≤◌, ◌≡◌, refl, some, List, [], ◌∷◌, length, get_elem?, arith,
}
use asterion_one.Twin.Physics.{full, extended, euler, euler_from}

module _ {A : Type 0} where
  -- The step, taken `n` times.
  abbrev pub iterate : ℕ → (A → A) → A → A
  iterate zero f x = x
  iterate (suc n) f x = iterate n f (f x)

  -- The `n` values after `x`.
  abbrev pub orbit : ℕ → (A → A) → A → List A
  orbit zero f x = []
  orbit (suc n) f x = f x ∷ orbit n f (f x)

  pub length-full : (n : ℕ) (x : A) → length (full n x) ≡ n
  length-full zero x = refl
  length-full (suc n) x = omega (arith, length-full n x)

  get_elem?-full : (n i : ℕ) (x : A) → i < n → get_elem? (full n x) i ≡ some x
  get_elem?-full zero i x h = absurd (omega arith)
  get_elem?-full (suc n) zero x h = refl
  get_elem?-full (suc n) (suc i) x h = get_elem?-full n i x (omega arith)

  extended-full : (n i : ℕ) (x : A) → 0 < n → extended (full n x) i ≡ some x
  extended-full n i x h = get_elem?-full n _ x (omega (arith, length-full n x))

  euler_from-full :
      (step : A → A → A) (n : ℕ) (q : A) (i k : ℕ) (x : A)
      → 0 < n
      → euler_from step (full n q) i k x ≡ some (orbit k (step q) x)
  unfolding euler_from
  euler_from-full step n q i zero x h = refl
  euler_from-full step n q i (suc k) x h =
      rw (extended-full n i q h, euler_from-full step n q (i + 1) k (step q x) h)

  -- Under a constant profile the values are the start and its orbit.
  pub euler-full :
      (step : A → A → A) (k : ℕ) (q x : A)
      → euler step (full (suc k) q) (suc k) x ≡ some (x ∷ orbit k (step q) x)
  unfolding euler
  euler-full step k q x = rw (euler_from-full step (suc k) q 0 k x (omega arith))

  pub length-orbit : (n : ℕ) (f : A → A) (x : A) → length (orbit n f x) ≡ n
  length-orbit zero f x = refl
  length-orbit (suc n) f x = omega (arith, length-orbit n f (f x))

  pub get_elem?-orbit :
      (n i : ℕ) (f : A → A) (x : A) → i ≤ n → get_elem? (x ∷ orbit n f x) i ≡ some (iterate i f x)
  get_elem?-orbit n zero f x h = refl
  get_elem?-orbit zero (suc i) f x h = absurd (omega arith)
  get_elem?-orbit (suc n) (suc i) f x h = get_elem?-orbit n i f (f x) (omega arith)

  -- For at least one step, the values exist, and value `i` is the start after `i` steps.
  pub euler_follows :
      (step : A → A → A) (n : ℕ) (q x : A)
      → 0 < n
      → (values : List A) × (euler step (full n q) n x ≡ some values)
        × (length values ≡ n)
        × ((i : ℕ) → i < n → get_elem? values i ≡ some (iterate i (step q) x))
  euler_follows step zero q x h = absurd (omega arith)
  euler_follows step (suc k) q x h = (
    x ∷ orbit k (step q) x,
    euler-full step k q x,
    omega (arith, length-orbit k (step q) x),
    λ i p. get_elem?-orbit k i (step q) x (omega arith),
  )

  pub iterate-suc : (n : ℕ) (f : A → A) (x : A) → iterate (suc n) f x ≡ f (iterate n f x)
  iterate-suc zero f x = refl
  iterate-suc (suc n) f x = iterate-suc n f (f x)
