-- ===== src/Prelude/Bytes.antt =====
-- Bytes: exclusive or, and words of several bytes in both orders.
use Prim.Native.Nat.{ℕ, zero, suc, ◌<◌, bit_xor}
use mathlib.Core.Path.{◌≡◌, refl}
use mathlib.Core.Bool.{Bool, true, false, ◌&&◌}
use native.Mathlib.Omega.{arith}
use voice.Prelude.Tests.{◌==◌, ltb, if◌then◌else◌}

-- `p` passes on the numbers under a bound.
passes : (ℕ → Bool) → ℕ → Bool
passes p zero = true
passes p (suc bound) = if p bound then passes p bound else false

passes-at : (p : ℕ → Bool) (k bound : ℕ) → k < bound → passes p bound ≡ true → p k ≡ true
unfolding passes
passes-at p k zero under e = absurd (omega arith)
passes-at p k (suc bound) under e = ground (arith, passes-at p k bound)

abbrev xor_row : ℕ → ℕ → Bool
xor_row a b = bit_xor (bit_xor a b) b == a && ltb (bit_xor a b) 256

xor_rows : passes (λ a. passes (xor_row a) 256) 256 ≡ true
unfolding passes
xor_rows = refl

xor_row_holds : (a b : ℕ) → a < 256 → b < 256 → xor_row a b ≡ true
xor_row_holds a b ha hb =
    passes-at (xor_row a) b 256 hb (passes-at (λ x. passes (xor_row x) 256) a 256 ha xor_rows)

pub bit_xor-bit_xor : (a b : ℕ) → a < 256 → b < 256 → bit_xor (bit_xor a b) b ≡ a
bit_xor-bit_xor a b ha hb = ground (arith, xor_row_holds a b)

pub bit_xor-lt : (a b : ℕ) → a < 256 → b < 256 → bit_xor a b < 256
bit_xor-lt a b ha hb = ground (arith, xor_row_holds a b)

abbrev pub IsByte : ℕ → Type 0
IsByte b = b < 256
