-- ===== src/Prelude/Words.antt =====
-- Machine words: numbers below a power of two, with the wrap written out.
use Prim.Native.Nat.{ℕ, ◌+◌, ◌-◌, ◌*◌, ◌/◌, ◌%◌, ◌^◌}
use mathlib.Core.Path.{◌≡◌}
use native.Mathlib.Omega.{arith}

abbrev pub u32_mod : ℕ
u32_mod = 2 ^ 32

abbrev pub u64_mod : ℕ
u64_mod = 2 ^ 64

-- SIZE_MAX, for a 64-bit size_t.
abbrev pub size_max : ℕ
size_max = 2 ^ 64 - 1

abbrev pub add32 : ℕ → ℕ → ℕ
add32 a b = (a + b) % u32_mod

abbrev pub mul32 : ℕ → ℕ → ℕ
mul32 a b = (a * b) % u32_mod

abbrev pub add64 : ℕ → ℕ → ℕ
add64 a b = (a + b) % u64_mod

abbrev pub mul64 : ℕ → ℕ → ℕ
mul64 a b = (a * b) % u64_mod

abbrev pub shr : ℕ → ℕ → ℕ
shr a k = a / 2 ^ k

pub add64-add64 : (a b c : ℕ) → add64 (add64 a b) c ≡ add64 a (b + c)
add64-add64 a b c = omega arith
