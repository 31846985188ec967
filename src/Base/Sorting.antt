-- ===== src/Base/Sorting.antt =====
-- A stable sort by a comparison, such as Python's `list.sort`: insertion from the back, each element in
-- front of those that it is at most.
use mathlib.Core.Path.{◌≡◌}
use mathlib.Core.Logic.{inl, inr}
use mathlib.Core.Bool.{Bool, true, false}
use mathlib.Core.List.{List, [], ◌∷◌, Perm}
use mathlib.Core.List.Perm
use native.Mathlib.Omega.{arith}
use asterion_one.Base.Tests.{if◌then◌else◌, Bool-cases}
use asterion_one.Base.Lists.{All}

module _ {A : Type 0} where
  unfoldable pub insert_by : (A → A → Bool) → A → List A → List A
  insert_by le x [] = x ∷ []
  insert_by le x (y ∷ ys) =
      let further = y ∷ insert_by le x ys in if le x y then x ∷ y ∷ ys else further

  unfoldable pub sort_by : (A → A → Bool) → List A → List A
  sort_by le [] = []
  sort_by le (x ∷ xs) = insert_by le x (sort_by le xs)

  -- Each element is at most every later one.
  abbrev pub IsSorted : (A → A → Bool) → List A → Type 0
  IsSorted le [] = Unit
  IsSorted le (x ∷ xs) = All (λ y. le x y ≡ true) xs × IsSorted le xs

module _ {A : Type 0} (le : A → A → Bool) (total : (x y : A) → le x y ≡ false → le y x ≡ true)
    (trans : (x y z : A) → le x y ≡ true → le y z ≡ true → le x z ≡ true) where
  IsLower_trans :
      (x y : A) (zs : List A)
      → le x y ≡ true
      → All (λ z. le y z ≡ true) zs
      → All (λ z. le x z ≡ true) zs
  IsLower_trans x y [] h k = tt
  IsLower_trans x y (z ∷ zs) h k = (trans x y z h k.0, IsLower_trans x y zs h k.1)

  insert_by-IsLower :
      (x y : A) (ys : List A)
      → le x y ≡ true
      → All (λ z. le x z ≡ true) ys
      → All (λ z. le x z ≡ true) (insert_by le y ys)
  unfolding insert_by
  insert_by-IsLower x y [] h k = (h, tt)
  insert_by-IsLower x y (z ∷ zs) h k = ground (arith, insert_by-IsLower x y zs h k.1)

  insert_by-IsSorted : (x : A) (ys : List A) → IsSorted le ys → IsSorted le (insert_by le x ys)
  unfolding insert_by
  insert_by-IsSorted x [] h = (tt, tt)
  insert_by-IsSorted x (y ∷ ys) h = elim (Bool-cases (le x y)) [
    | inl low ↦ rw low ((low, IsLower_trans x y ys low h.0), h)
    | inr high ↦
        rw high (insert_by-IsLower y x ys (total x y high) h.0, insert_by-IsSorted x ys h.1)
  ]

  pub sort_by-IsSorted : (xs : List A) → IsSorted le (sort_by le xs)
  unfolding sort_by
  sort_by-IsSorted [] = tt
  sort_by-IsSorted (x ∷ xs) = insert_by-IsSorted x (sort_by le xs) (sort_by-IsSorted xs)

module _ {A : Type 0} (le : A → A → Bool) where
  insert_by-perm : (x : A) (ys : List A) → Perm (insert_by le x ys) (x ∷ ys)
  unfolding insert_by
  insert_by-perm x [] = Perm.rfl
  insert_by-perm x (y ∷ ys) = elim (Bool-cases (le x y)) [
    | inl low ↦ rw low Perm.rfl
    | inr high ↦ rw high (Perm.trans (Perm.cons y (insert_by-perm x ys)) (Perm.swap x y ys))
  ]

  pub sort_by-perm : (xs : List A) → Perm (sort_by le xs) xs
  unfolding sort_by
  sort_by-perm [] = Perm.rfl
  sort_by-perm (x ∷ xs) =
      Perm.trans (insert_by-perm x (sort_by le xs)) (Perm.cons x (sort_by-perm xs))
