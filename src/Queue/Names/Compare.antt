-- ===== src/Queue/Names/Compare.antt =====
-- flight/disk_queue.py: file names compare by a total order, and which names are queue files.
use asterion_one.Base.{
  ℕ, ◌≤◌, ◌≡◌, ◌≢◌, length-append, refl, true, false, [], ◌∷◌, ◌++◌, arith, ◌==◌, length, inl, inr,
  Bool-cases,
}
use mathlib.Core.List.{append_assoc}
use asterion_one.Queue.Names.{
  Name, padded, dot_json, dot_tmp, file_name, tmp_name, ends_json, is_queue_file, name_leb, name_eq,
}
use asterion_one.Queue.Names.Digits.{seq_from_filename-file_name, padded-ne-nil}

pub name_leb-total : (xs ys : Name) → name_leb xs ys ≡ false → name_leb ys xs ≡ true
unfolding name_leb
name_leb-total [] ys h = cc
name_leb-total (x ∷ xs) [] h = refl
name_leb-total (x ∷ xs) (y ∷ ys) h = ground (arith, name_leb-total xs ys)

pub name_leb_trans :
    (xs ys zs : Name) → name_leb xs ys ≡ true → name_leb ys zs ≡ true → name_leb xs zs ≡ true
unfolding name_leb
name_leb_trans [] ys zs h k = refl
name_leb_trans (x ∷ xs) [] zs h k = cc
name_leb_trans (x ∷ xs) (y ∷ ys) [] h k = cc
name_leb_trans (x ∷ xs) (y ∷ ys) (z ∷ zs) h k = ground (arith, name_leb_trans xs ys zs)

pub name_eq_refl : (xs : Name) → name_eq xs xs ≡ true
unfolding name_eq
name_eq_refl [] = refl
name_eq_refl (x ∷ xs) = ground (arith, name_eq_refl xs)

pub eq_of_name_eq : (xs ys : Name) → name_eq xs ys ≡ true → xs ≡ ys
unfolding name_eq
eq_of_name_eq [] [] h = refl
eq_of_name_eq [] (y ∷ ys) h = cc
eq_of_name_eq (x ∷ xs) [] h = cc
eq_of_name_eq (x ∷ xs) (y ∷ ys) h = ground (arith, eq_of_name_eq xs ys)

-- Two sequence numbers have one file name only if they are the same.
pub name_eq-file_name : (a b : ℕ) → name_eq (file_name a) (file_name b) ≡ (a == b)
name_eq-file_name a b = elim (Bool-cases (a == b)) [
  | inl same ↦ let e : a ≡ b = ground arith in rw (e) (ground (arith, name_eq_refl (file_name b)))
  | inr other ↦ ground (
    arith,
    eq_of_name_eq (file_name a) (file_name b),
    seq_from_filename-file_name a,
    seq_from_filename-file_name b,
  )
]

-- Only the last five characters count.
ends_json-cons : (a : ℕ) (xs : Name) → 5 ≤ length xs → ends_json (a ∷ xs) ≡ ends_json xs
unfolding ends_json
ends_json-cons a (b ∷ c ∷ d ∷ e ∷ f ∷ xs) h = refl
ends_json-cons a [] h = absurd (omega arith)
ends_json-cons a (b ∷ []) h = absurd (omega arith)
ends_json-cons a (b ∷ c ∷ []) h = absurd (omega arith)
ends_json-cons a (b ∷ c ∷ d ∷ []) h = absurd (omega arith)
ends_json-cons a (b ∷ c ∷ d ∷ e ∷ []) h = absurd (omega arith)

ends_json-append : (xs s : Name) → 5 ≤ length s → ends_json (xs ++ s) ≡ ends_json s
ends_json-append [] s h = refl
ends_json-append (x ∷ xs) s h =
    rw (ends_json-cons x (xs ++ s) (omega (arith, length-append xs s))) (ends_json-append xs s h)

is_queue_file-eq :
    (x : ℕ) (xs s : Name) → 5 ≤ length s → is_queue_file ((x ∷ xs) ++ s) ≡ ends_json s
unfolding is_queue_file
is_queue_file-eq x xs s h = ends_json-append xs s h

is_queue_file-append :
    (xs s : Name) → xs ≢ [] → 5 ≤ length s → is_queue_file (xs ++ s) ≡ ends_json s
is_queue_file-append [] s n h = absurd (n refl)
is_queue_file-append (x ∷ xs) s n h = is_queue_file-eq x xs s h

-- Finished files are listed, and temporary ones are not.
pub is_queue_file-file_name : (n : ℕ) → is_queue_file (file_name n) ≡ true
unfolding file_name ends_json
is_queue_file-file_name n = is_queue_file-append (padded n) dot_json (padded-ne-nil n) (omega arith)

pub is_queue_file-tmp_name : (n : ℕ) → is_queue_file (tmp_name n) ≡ false
unfolding file_name tmp_name ends_json
is_queue_file-tmp_name n =
    rw (append_assoc (padded n) dot_json dot_tmp)
      (is_queue_file-append (padded n) (dot_json ++ dot_tmp) (padded-ne-nil n) (omega arith))
