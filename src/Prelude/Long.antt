-- ===== src/Prelude/Long.antt =====
-- The values that a comparison routine returns, as a signed number.
use Prim.Native.Nat.{ℕ, zero, suc}
use mathlib.Core.Bool.{Bool, true, false}

-- `negsuc n` is -(n + 1).
pub data ℤ : Type 0 where
  pos : ℕ → ℤ
  negsuc : ℕ → ℤ

abbrev pub is_zero : ℤ → Bool
is_zero (pos n) = elim n [ zero ↦ true | suc m ↦ false ]
is_zero (negsuc n) = false

abbrev pub negate : ℤ → ℤ
negate (pos n) = elim n [ zero ↦ pos 0 | suc m ↦ negsuc m ]
negate (negsuc n) = pos (suc n)

abbrev pub is_negative : ℤ → Bool
is_negative (pos n) = false
is_negative (negsuc n) = true
