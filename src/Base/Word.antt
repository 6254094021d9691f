-- ===== src/Base/Word.antt =====
-- The saturating arithmetic of `alloy_primitives::U256` and of the machine words, on plain numbers.
use Prim.Native.Nat.{ℕ, ◌+◌, ◌-◌, ◌*◌, ◌^◌, ◌≤◌, min}
use native.Mathlib.Omega.{arith}

-- The greatest `U256`.
unfoldable pub u256_max : ℕ
u256_max = 2 ^ 256 - 1

abbrev pub u32_max : ℕ
u32_max = 2 ^ 32 - 1

abbrev pub u64_max : ℕ
u64_max = 2 ^ 64 - 1

abbrev pub i64_max : ℕ
i64_max = 2 ^ 63 - 1

abbrev pub sat_add : ℕ → ℕ → ℕ
sat_add a b = min (a + b) u256_max

abbrev pub sat_mul : ℕ → ℕ → ℕ
sat_mul a b = min (a * b) u256_max

pub one-le-u256_max : 1 ≤ u256_max
unfolding u256_max
one-le-u256_max = omega arith
