-- ===== src/Queue/Names/Digits.antt =====
-- flight/disk_queue.py: a file name gives back its sequence number.
use asterion_one.Base.{
  ℕ, zero, suc, ◌+◌, ◌-◌, ◌*◌, ◌/◌, ◌%◌, ◌<◌, ◌≡◌, ◌≢◌, refl, ap, true, Option, none, some, [], ◌∷◌,
  ◌++◌, arith, ltb, length, All, Bool-cases, inl, inr,
}
use asterion_one.Queue.Names.{
  Name, digits_from, digits, zeros, padded, dot_json, file_name, is_digit, read_from, read_int,
  remove_json, seq_from_filename,
}

abbrev pub IsNumeral : Name → Type 0
IsNumeral = All (λ c. is_digit c ≡ true)

pub IsNumeral-append : (xs ys : Name) → IsNumeral xs → IsNumeral ys → IsNumeral (xs ++ ys)
IsNumeral-append [] ys h k = k
IsNumeral-append (x ∷ xs) ys h k = (h.0, IsNumeral-append xs ys h.1 k)

pub digits_from-IsNumeral : (f n : ℕ) → IsNumeral (digits_from f n)
unfolding digits_from
digits_from-IsNumeral zero n = tt
digits_from-IsNumeral (suc f) n = elim (Bool-cases (ltb n 10)) [
  | inl small ↦ rw small (ground arith, tt)
  | inr large ↦ rw large (
      IsNumeral-append (digits_from f (n / 10)) _ (digits_from-IsNumeral f (n / 10))
        (ground arith, tt))
]

pub zeros-IsNumeral : (k : ℕ) → IsNumeral (zeros k)
unfolding zeros
zeros-IsNumeral zero = tt
zeros-IsNumeral (suc k) = (refl, zeros-IsNumeral k)

pub padded-IsNumeral : (n : ℕ) → IsNumeral (padded n)
unfolding padded
padded-IsNumeral n =
    IsNumeral-append _ _ (zeros-IsNumeral (6 - length (digits n))) (digits_from-IsNumeral (suc n) n)

abbrev push_digit : ℕ → Option ℕ → Option ℕ
push_digit d none = none
push_digit d (some v) = some (v * 10 + d)

read_from-snoc :
    (acc d : ℕ) (xs : Name)
    → d < 10
    → read_from acc (xs ++ (48 + d) ∷ []) ≡ push_digit d (read_from acc xs)
unfolding read_from
read_from-snoc acc d [] h = ground arith
read_from-snoc acc d (x ∷ xs) h = ground (arith, read_from-snoc (acc * 10 + (x - 48)) d xs h)

pub read_from-digits_from : (f n : ℕ) → n < f → read_from 0 (digits_from f n) ≡ some n
unfolding digits_from
read_from-digits_from zero n h = elim h [ ]
read_from-digits_from (suc f) n h = elim (Bool-cases (ltb n 10)) [
  | inl small ↦ rw small (unfold read_from in ground arith)
  | inr large ↦ rw large (
      rw (read_from-snoc 0 (n % 10) (digits_from f (n / 10)) (omega arith))
        (rw (read_from-digits_from f (n / 10) (ground arith)) (ap some (omega arith))))
]

read_from-zeros : (k : ℕ) (xs : Name) → read_from 0 (zeros k ++ xs) ≡ read_from 0 xs
unfolding read_from zeros
read_from-zeros zero xs = refl
read_from-zeros (suc k) xs = read_from-zeros k xs

-- The padded numeral reads back.
pub read_from-padded : (n : ℕ) → read_from 0 (padded n) ≡ some n
unfolding padded
read_from-padded n =
    rw (read_from-zeros (6 - length (digits n)) (digits n))
      (read_from-digits_from (suc n) n (omega arith))

remove_json-other : (a : ℕ) (xs : Name) → a ≢ b'.' → remove_json (a ∷ xs) ≡ a ∷ remove_json xs
unfolding remove_json
remove_json-other a (b ∷ c ∷ d ∷ e ∷ rest) h = ground arith
remove_json-other a _ h = refl

remove_json-dot_json : (xs : Name) → IsNumeral xs → remove_json (xs ++ dot_json) ≡ xs
remove_json-dot_json [] h = unfold remove_json in refl
remove_json-dot_json (x ∷ xs) h =
    rw (remove_json-other x (xs ++ dot_json) (ground (arith, h.0)))
      (ap (◌∷◌ x) (remove_json-dot_json xs h.1))

read_int-eq : (xs : Name) → xs ≢ [] → read_int xs ≡ read_from 0 xs
unfolding read_int
read_int-eq [] h = absurd (h refl)
read_int-eq (x ∷ xs) h = refl

pub length-zeros-append : (k : ℕ) (xs : Name) → length (zeros k ++ xs) ≡ k + length xs
unfolding zeros
length-zeros-append zero xs = omega arith
length-zeros-append (suc k) xs = omega (arith, length-zeros-append k xs)

pub length-padded : (n : ℕ) → length (padded n) ≡ 6 - length (digits n) + length (digits n)
unfolding padded
length-padded n = length-zeros-append (6 - length (digits n)) (digits n)

pub padded-ne-nil : (n : ℕ) → padded n ≢ []
padded-ne-nil n h = absurd (omega (arith, length-padded n, ap (length {A = ℕ}) h))

-- The number in a file name is the number that the name was made from.
pub seq_from_filename-file_name : (n : ℕ) → seq_from_filename (file_name n) ≡ some n
unfolding seq_from_filename file_name
seq_from_filename-file_name n =
    rw (remove_json-dot_json (padded n) (padded-IsNumeral n))
      (rw (read_int-eq (padded n) (padded-ne-nil n)) (read_from-padded n))
