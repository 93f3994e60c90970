-- ===== src/Base/Outcome.antt =====
-- What a C++ call can do besides returning: throw, or leave the defined behaviour of the language.
use mathlib.Core.Option.{Option, none, some}

pub data Exception : Type 0 where
  bad_alloc out_of_range invalid_argument range_error : Exception

pub data Return {ℓ} (A : Type ℓ) : Type ℓ where
  value : A → Return A
  throws : Exception → Return A

-- A step that fails with `none`: an assertion that does not hold, or an access outside a block.
infixl 5 ◌>>=◌
abbrev pub ◌>>=◌ {ℓ κ} : {A : Type ℓ} {B : Type κ} → Option A → (A → Option B) → Option B
none >>= f = none
some a >>= f = f a

infixl 5 ◌>>◌
abbrev pub ◌>>◌ {κ} : {B : Type κ} → Option (Unit {0}) → Option B → Option B
m >> k = m >>= λ _. k
