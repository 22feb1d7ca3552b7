-- ===== src/Core/Run.antt =====
-- The outcome of a Go function that may dereference nil. Every loop over `Next` pointers runs on
-- fuel, and running out of it is an outcome of its own.
use mathlib.Core.Path.{◌≡◌, refl}

pub data Run {ℓ} (A : Type ℓ) : Type ℓ where
  ok : A → Run A
  -- a nil pointer dereference
  panic : Run A
  out_of_fuel : Run A

infixl 5 ◌>>=◌
abbrev pub ◌>>=◌ {ℓ κ} : {A : Type ℓ} {B : Type κ} → Run A → (A → Run B) → Run B
ok a >>= f = f a
panic >>= f = panic
out_of_fuel >>= f = out_of_fuel

-- What a run that ends well went through first.
pub first_part {ℓ κ} :
    {A : Type ℓ} {B : Type κ} {b : B} (whole : Run A) (rest : A → Run B)
    → (whole >>= rest) ≡ ok b
    → (a : A) × (rest a ≡ ok b) × (whole ≡ ok a)
first_part panic rest ends = absurd (cc)
first_part out_of_fuel rest ends = absurd (cc)
first_part (ok a) rest ends = (a, ends, refl)
