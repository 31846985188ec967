-- ===== src/Base/Substring.antt =====
-- `t in s` on texts.
use Prim.Native.Char.{code}
use Prim.Native.String.{String, [], ◌∷◌, ◌++◌}
use text.Mathlib.TextLemmas.{cons-append}
use asterion_one.Base.{Bool, true, false, ◌==◌, ◌&&◌, ◌≡◌, refl, arith, if◌then◌else◌}

abbrev has_prefix : String → String → Bool
has_prefix [] s = true
has_prefix (c ∷ t) [] = false
has_prefix (c ∷ t) (d ∷ s) = (code c == code d) && has_prefix t s

unfoldable pub contains : String → String → Bool
contains t [] = has_prefix t []
contains t (c ∷ s) = let rest = contains t s in if has_prefix t (c ∷ s) then true else rest

has_prefix-append : (t s : String) → has_prefix t (t ++ s) ≡ true
has_prefix-append [] s = refl
has_prefix-append (c ∷ t) s = rw (cons-append c t s) (ground (arith, has_prefix-append t s))

contains-of_prefix : (t s : String) → has_prefix t s ≡ true → contains t s ≡ true
unfolding contains
contains-of_prefix t [] h = h
contains-of_prefix t (c ∷ s) h = rw h refl

pub contains-append : (t s : String) → contains t (t ++ s) ≡ true
contains-append t s = contains-of_prefix t (t ++ s) (has_prefix-append t s)
