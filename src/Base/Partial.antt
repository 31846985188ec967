-- ===== src/Base/Partial.antt =====
-- Code that may raise: `none` is the exception, and a `do` block is a chain of such calls.
use mathlib.Core.Option.{Option, none, some}

infixl 5 ◌>>=◌
abbrev pub ◌>>=◌ {ℓ κ} : {A : Type ℓ} {B : Type κ} → Option A → (A → Option B) → Option B
none >>= f = none
some a >>= f = f a
