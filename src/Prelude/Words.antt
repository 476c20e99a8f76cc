-- ===== src/Prelude/Words.antt =====
-- Machine words: the largest values, wrapping and saturating arithmetic.
use Prim.Native.Nat.{ℕ, ◌+◌, ◌-◌, ◌*◌, ◌%◌, ◌^◌, ◌≤◌, min}
use mathlib.Core.Path.{◌≡◌}
use native.Mathlib.Omega.{arith}

abbrev pub u32_max : ℕ
u32_max = 2 ^ 32 - 1

abbrev pub u64_max : ℕ
u64_max = 2 ^ 64 - 1

-- `saturating_add` and `saturating_mul` of the unsigned types, by their largest value.
abbrev pub saturating_add : ℕ → ℕ → ℕ → ℕ
saturating_add top a b = min (a + b) top

abbrev pub saturating_mul : ℕ → ℕ → ℕ → ℕ
saturating_mul top a b = min (a * b) top

-- `u64` results as the release build computes them, without overflow checks.
abbrev pub wrap_u64 : ℕ → ℕ
wrap_u64 n = n % 2 ^ 64

abbrev pub wrap_u32 : ℕ → ℕ
wrap_u32 n = n % 2 ^ 32

pub wrap_u64_small : (n : ℕ) → n ≤ u64_max → wrap_u64 n ≡ n
wrap_u64_small n h = omega arith
