-- ===== src/Queue/Names/Order.antt =====
-- flight/disk_queue.py: the order of file names against the order of sequence numbers.
use native.Mathlib.Nat.{pow-suc}
use mathlib.Core.Path.{ap₂}
use mathlib.Core.List.{append_assoc}
use asterion_one.Base.{
  ℕ, zero, suc, ◌+◌, ◌-◌, ◌*◌, ◌/◌, ◌%◌, ◌^◌, ◌<◌, ◌≤◌, ◌≡◌, refl, ap, true, false, some, [], ◌∷◌,
  ◌++◌, arith, ltb, leb, length, Bool-cases, inl, inr, length-append,
}
use asterion_one.Queue.Names.{
  Name, digits_from, digits, zeros, padded, dot_json, file_name, is_digit, read_from, name_leb,
}
use asterion_one.Queue.Names.Digits.{
  IsNumeral, digits_from-IsNumeral, padded-IsNumeral, read_from-padded, read_from-digits_from,
  length-padded,
}

abbrev value : Name → ℕ
value [] = 0
value (x ∷ xs) = (x - 48) * 10 ^ length xs + value xs

read_from-value :
    (acc : ℕ) (xs : Name) → IsNumeral xs → read_from acc xs ≡ some (acc * 10 ^ length xs + value xs)
unfolding read_from
read_from-value acc [] h = ap some (omega arith)
read_from-value acc (x ∷ xs) h = rw (h.0) (
    rw (read_from-value (acc * 10 + (x - 48)) xs h.1)
      (ap some (rw (pow-suc 10 (length xs)) (grind arith))))

mul-le : (a b p : ℕ) → a ≤ b → a * p ≤ b * p
mul-le a b p h = grind arith

digit-le : (x : ℕ) → is_digit x ≡ true → x - 48 ≤ 9
digit-le x h = ground arith

value-lt : (xs : Name) → IsNumeral xs → value xs < 10 ^ length xs
value-lt [] h = omega arith
value-lt (x ∷ xs) h =
    rw (pow-suc 10 (length xs))
      (omega (arith, value-lt xs h.1, mul-le (x - 48) 9 (10 ^ length xs) (digit-le x h.0)))

-- The digit in front decides.
head-lt :
    (x y : ℕ) (xs ys : Name)
    → is_digit x ≡ true
    → IsNumeral xs
    → length xs ≡ length ys
    → x < y
    → value (x ∷ xs) < value (y ∷ ys)
head-lt x y xs ys d h e lt =
    rw (← e)
      (omega (arith, value-lt xs h, mul-le (x - 48 + 1) (y - 48) (10 ^ length xs) (ground arith)))

tail-lt :
    (x y : ℕ) (xs ys : Name)
    → x ≡ y
    → length xs ≡ length ys
    → value (x ∷ xs) < value (y ∷ ys)
    → value xs < value ys
tail-lt x y xs ys same e lt = omega (arith, ap₂ (λ (a n : ℕ). (a - 48) * 10 ^ n) same e)

-- Numerals of one length are in the order of their values, whatever stands behind them.
name_leb-lt :
    (xs ys s t : Name)
    → IsNumeral xs
    → IsNumeral ys
    → length xs ≡ length ys
    → value xs < value ys
    → (name_leb (xs ++ s) (ys ++ t) ≡ true) × (name_leb (ys ++ t) (xs ++ s) ≡ false)
unfolding name_leb
name_leb-lt [] [] s t h k e lt = absurd (omega arith)
name_leb-lt [] (y ∷ ys) s t h k e lt = absurd (omega arith)
name_leb-lt (x ∷ xs) [] s t h k e lt = absurd (omega arith)
name_leb-lt (x ∷ xs) (y ∷ ys) s t h k e lt = elim (Bool-cases (ltb x y)) [
  | inl less ↦ ground arith
  | inr ge ↦ elim (Bool-cases (ltb y x)) [
    | inl more ↦ absurd (omega (arith, head-lt y x ys xs k.0 k.1 (omega arith) (ground arith)))
    | inr le ↦ ground (
      arith,
      name_leb-lt xs ys s t h.1 k.1 (omega arith)
          (tail-lt x y xs ys (ground arith) (omega arith) lt),
    )
  ]
]

pub name_leb_refl : (xs : Name) → name_leb xs xs ≡ true
unfolding name_leb
name_leb_refl [] = refl
name_leb_refl (x ∷ xs) = ground (arith, name_leb_refl xs)

value-padded : (n : ℕ) → value (padded n) ≡ n
value-padded n =
    ground (arith, read_from-padded n, read_from-value 0 (padded n) (padded-IsNumeral n))

tenth-lt : (k n : ℕ) → n < 10 ^ suc (suc k) → n / 10 < 10 ^ suc k
tenth-lt k n h = omega (arith, pow-suc 10 (suc k))

length-digits_from-le : (k f n : ℕ) → n < 10 ^ suc k → length (digits_from f n) ≤ suc k
unfolding digits_from
length-digits_from-le k zero n h = omega arith
length-digits_from-le zero (suc f) n h = ground arith
length-digits_from-le (suc k) (suc f) n h = elim (Bool-cases (ltb n 10)) [
  | inl small ↦ rw small (omega arith)
  | inr large ↦ rw large (
      rw (length-append (digits_from f (n / 10)) ((48 + n % 10) ∷ []))
        (omega (arith, length-digits_from-le k f (n / 10) (tenth-lt k n h))))
]

-- Below a million every name has six digits.
length-padded_small : (n : ℕ) → n < 1000000 → length (padded n) ≡ 6
unfolding digits
length-padded_small n h = omega (arith, length-padded n, length-digits_from-le 5 (suc n) n h)

name_leb-padded :
    (a b : ℕ)
    → a < b
    → b < 1000000
    → (name_leb (padded a ++ dot_json) (padded b ++ dot_json) ≡ true)
      × (name_leb (padded b ++ dot_json) (padded a ++ dot_json) ≡ false)
name_leb-padded a b lt hb =
    name_leb-lt (padded a) (padded b) dot_json dot_json (padded-IsNumeral a) (padded-IsNumeral b)
      (omega (arith, length-padded_small a (omega arith), length-padded_small b hb))
      (omega (arith, value-padded a, value-padded b))

-- Below a million the order of the names is the order of the sequence numbers.
pub name_leb-file_name :
    (a b : ℕ) → a < 1000000 → b < 1000000 → name_leb (file_name a) (file_name b) ≡ leb a b
unfolding file_name
name_leb-file_name a b ha hb = elim (Bool-cases (ltb a b)) [
  | inl less ↦ ground (arith, name_leb-padded a b (ground arith) hb)
  | inr ge ↦ elim (Bool-cases (ltb b a)) [
    | inl more ↦ ground (arith, name_leb-padded b a (ground arith) ha)
    | inr le ↦
        let same : a ≡ b = ground arith in
        rw same (ground (arith, name_leb_refl (padded b ++ dot_json)))
  ]
]

pow-le : (n : ℕ) → n ≤ 5 → 10 ^ n ≤ 100000
pow-le zero h = omega arith
pow-le (suc zero) h = omega arith
pow-le (suc (suc zero)) h = omega arith
pow-le (suc (suc (suc zero))) h = omega arith
pow-le (suc (suc (suc (suc zero)))) h = omega arith
pow-le (suc (suc (suc (suc (suc zero))))) h = omega arith
pow-le (suc (suc (suc (suc (suc (suc n)))))) h = absurd (omega arith)

value-digits_from : (f n : ℕ) → n < f → value (digits_from f n) ≡ n
value-digits_from f n h = ground (
  arith,
  read_from-digits_from f n h,
  read_from-value 0 (digits_from f n) (digits_from-IsNumeral f n),
)

-- A six-digit number has six digits.
length-digits_from_six : (f n : ℕ) → 100000 ≤ n → n < 1000000 → n < f → length (digits_from f n) ≡ 6
length-digits_from_six f n low high h = grind (
  arith,
  length-digits_from-le 5 f n high,
  pow-le (length (digits_from f n)),
  value-lt (digits_from f n) (digits_from-IsNumeral f n),
  value-digits_from f n h,
)

zeros_none : (xs : Name) → 6 ≤ length xs → zeros (6 - length xs) ++ xs ≡ xs
unfolding zeros
zeros_none xs h = let e : 6 - length xs ≡ 0 = omega arith in rw e

padded_million :
    (a : ℕ) → 1000000 ≤ a → a < 10000000 → padded a ≡ digits_from a (a / 10) ++ (48 + a % 10) ∷ []
unfolding padded digits digits_from
padded_million a low high =
    let big : ltb a 10 ≡ false = ground arith in
    let front = digits_from a (a / 10) in
    rw big (
      zeros_none (front ++ (48 + a % 10) ∷ []) (
        omega (
          arith,
          length-append front ((48 + a % 10) ∷ []),
          length-digits_from_six a (a / 10) (omega arith) (omega arith) (omega arith),
        )))

-- From a million on it is not: the name of a seven-digit number stands before that of any
-- six-digit number above its first six digits.
pub name_leb-file_name_million :
    (a b : ℕ)
    → 1000000 ≤ a
    → a < 10000000
    → a / 10 < b
    → b < 1000000
    → (name_leb (file_name a) (file_name b) ≡ true) × (name_leb (file_name b) (file_name a) ≡ false)
unfolding file_name
name_leb-file_name_million a b la ha lt hb = rw (padded_million a la ha) (
    rw (append_assoc (digits_from a (a / 10)) ((48 + a % 10) ∷ []) dot_json) (
      name_leb-lt (digits_from a (a / 10)) (padded b) _ dot_json (digits_from-IsNumeral a (a / 10))
        (padded-IsNumeral b)
        (omega (
          arith,
          length-padded_small b hb,
          length-digits_from_six a (a / 10) (omega arith) (omega arith) (omega arith),
        ))
        (omega (arith, value-padded b, value-digits_from a (a / 10) (omega arith)))))
