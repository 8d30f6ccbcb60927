-- ===== src/Prelude/Int.antt =====
-- Signed integers, and the C conversions to a 32-bit `int`.
use Prim.Native.Nat.{ℕ, ◌-◌, ◌%◌, ◌^◌}
use voice.Prelude.Tests.{ltb, if◌then◌else◌}

-- `negsuc n` is -(n + 1).
pub data ℤ : Type 0 where
  pos : ℕ → ℤ
  negsuc : ℕ → ℤ

abbrev pub pos_part : ℤ → ℕ
pos_part (pos n) = n
pos_part (negsuc n) = 0

-- The low 32 bits of a value, read as an `int` in two's complement.
unfoldable pub to_int32 : ℕ → ℤ
to_int32 n = let r = n % 2 ^ 32 in if ltb r (2 ^ 31) then pos r else negsuc (2 ^ 32 - r - 1)
