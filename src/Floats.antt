-- ===== src/Floats.antt =====
-- Python's floats, as an interface: the comparisons, the arithmetic and the formatting that the
-- source uses, and of the order only what IEEE 754 gives with NaN among the values.
use asterion_one.Base.{ℕ, ◌+◌, ◌-◌, ◌*◌, ◌/◌, ◌^◌, ◌≡◌, Bool, true, false, String, arith, ltb, leb}

pub record Floats : Type 1 where
  pub Float : Type 0
  -- `a < b` and `a <= b`
  pub lt : Float → Float → Bool
  pub le : Float → Float → Bool
  pub add : Float → Float → Float
  pub sub : Float → Float → Float
  pub mul : Float → Float → Float
  pub div : Float → Float → Float
  -- the literal m / 10 ^ k
  pub lit : ℕ → ℕ → Float
  -- `str(x)` and `f"{x:.kf}"`
  pub text : Float → String
  pub fixed : ℕ → Float → String
  pub le_of_lt : (a b : Float) → lt a b ≡ true → le a b ≡ true
  pub le-trans : (a b c : Float) → le a b ≡ true → le b c ≡ true → le a c ≡ true
  -- A value is NaN where it does not equal itself; any two others compare.
  pub le_of_not_lt : (a b : Float) → le a a ≡ true → le b b ≡ true → lt a b ≡ false → le b a ≡ true
  pub lt-irrefl : (a : Float) → lt a a ≡ false
  pub lt-asymm : (a b : Float) → lt a b ≡ true → lt b a ≡ false

-- Natural numbers in hundredths meet the interface.
abbrev pub hundredths : Floats
hundredths = record {
  Float = ℕ;
  lt = ltb;
  le = leb;
  add = λ a b. a + b;
  sub = λ a b. a - b;
  mul = λ a b. a * b / 100;
  div = λ a b. a * 100 / b;
  lit = λ m k. m * 100 / 10 ^ k;
  text = λ a. "x";
  fixed = λ k a. "x";
  le_of_lt = λ a b h. ground arith;
  le-trans = λ a b c h k. ground arith;
  le_of_not_lt = λ a b h k n. ground arith;
  lt-irrefl = λ a. ground arith;
  lt-asymm = λ a b h. ground arith;
}
