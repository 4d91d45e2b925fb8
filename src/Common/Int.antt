-- ===== src/Common/Int.antt =====
-- The `int` and `ssize_t` values of the program: return codes, descriptors, counts.
use Prim.Native.Nat.{ℕ, ◌-◌, ◌%◌, ◌^◌}
use mathlib.Core.Bool.{Bool, true, false}
use mogakso.Common.Tests.{ltb, ◌==◌, if◌then◌else◌}

-- `negsuc n` is -(n + 1).
pub data ℤ : Type 0 where
  pos : ℕ → ℤ
  negsuc : ℕ → ℤ

-- The number that a 32-bit pattern stands for: `(int)x`.
abbrev pub signed32 : ℕ → ℤ
signed32 x =
    if ltb (x % 2 ^ 32) (2 ^ 31) then pos (x % 2 ^ 32) else negsuc (2 ^ 32 - (x % 2 ^ 32) - 1)

-- `x < 0`.
abbrev pub is_neg : ℤ → Bool
is_neg (pos n) = false
is_neg (negsuc n) = true

-- `x == y`.
abbrev pub eqb_ℤ : ℤ → ℤ → Bool
eqb_ℤ (pos m) (pos n) = m == n
eqb_ℤ (negsuc m) (negsuc n) = m == n
eqb_ℤ (pos m) (negsuc n) = false
eqb_ℤ (negsuc m) (pos n) = false
