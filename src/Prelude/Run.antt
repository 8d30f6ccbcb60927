-- ===== src/Prelude/Run.antt =====
-- What a run of C code can come to, and postconditions of runs.
use mathlib.Core.Path.{◌≡◌, subst}
use mathlib.Core.Option.{Option, none, some}

-- `fault` is an access outside a buffer; `out_of_fuel` does not occur with the fuel given.
pub data Run {ℓ} (A : Type ℓ) : Type ℓ where
  ok : A → Run A
  fault : Run A
  out_of_fuel : Run A

abbrev pub of_option {ℓ} : {A : Type ℓ} → Option A → Run A
of_option none = fault
of_option (some a) = ok a

infixl 5 ◌>>=◌
abbrev pub ◌>>=◌ {ℓ κ} : {A : Type ℓ} {B : Type κ} → Run A → (A → Run B) → Run B
ok a >>= f = f a
fault >>= f = fault
out_of_fuel >>= f = out_of_fuel

-- What holds of the result, if the run has one.
abbrev pub Ensures {ℓ κ} : {A : Type ℓ} → (A → Type κ) → Run A → Type κ
Ensures P (ok a) = P a
Ensures P fault = Unit
Ensures P out_of_fuel = Unit

module _ {ℓ κ} {A : Type ℓ} {B : Type κ} where
  pub Ensures-bind {μ ν} :
      (P : A → Type μ) (Q : B → Type ν) (r : Run A) (f : A → Run B)
      → Ensures P r
      → ((a : A) → P a → Ensures Q (f a))
      → Ensures Q (r >>= f)
  Ensures-bind P Q (ok a) f h k = k a h
  Ensures-bind P Q fault f h k = tt
  Ensures-bind P Q out_of_fuel f h k = tt

-- Of a step whose result does not matter.
pub Ensures-then {ℓ κ ν} :
    {A : Type ℓ} {B : Type κ} (Q : B → Type ν) (r : Run A) (f : A → Run B)
    → ((a : A) → Ensures Q (f a))
    → Ensures Q (r >>= f)
Ensures-then Q (ok a) f k = k a
Ensures-then Q fault f k = tt
Ensures-then Q out_of_fuel f k = tt

pub Ensures-ok {ℓ κ} :
    {A : Type ℓ} (P : A → Type κ) (r : Run A) {a : A} → Ensures P r → r ≡ ok a → P a
Ensures-ok P r h e = subst (Ensures P) e h

pub Ensures-mono {ℓ κ ν} :
    {A : Type ℓ} (P : A → Type κ) (Q : A → Type ν) (r : Run A)
    → Ensures P r
    → ((a : A) → P a → Q a)
    → Ensures Q r
Ensures-mono P Q (ok a) h k = k a h
Ensures-mono P Q fault h k = tt
Ensures-mono P Q out_of_fuel h k = tt
