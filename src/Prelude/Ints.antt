-- ===== src/Prelude/Ints.antt =====
-- Signed integers over the native numbers, with the library's constructors, and 32-bit `int`.
use Prim.Native.Nat.{ℕ, ◌-◌, ◌%◌, ◌^◌}
use mathlib.Core.Bool.{Bool, true, false}
use mini_middleware.Prelude.Tests.{ltb, if◌then◌else◌}

-- `negsuc n` is - (n + 1).
pub data ℤ : Type 0 where
  pos : ℕ → ℤ
  negsuc : ℕ → ℤ

-- The `int` of the same lower 32 bits.
abbrev pub int32 : ℕ → ℤ
int32 n = let low = n % 2 ^ 32 in if ltb low (2 ^ 31) then pos low else negsuc (2 ^ 32 - 1 - low)

-- `static_cast<int>` of a 64-bit `long`, given by its sign and its size.
abbrev pub long_to_int : Bool → ℕ → ℤ
long_to_int true size = int32 (2 ^ 64 - size)
long_to_int false size = int32 size
