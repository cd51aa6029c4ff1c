-- ===== src/Base/Words.antt =====
-- Unsigned machine words as native numbers: the bounds of u32 and u64, and the saturating
-- operations of Rust's standard library. `u64::try_from(x).unwrap_or(u64::MAX)` is `clamp_u64 x`.
use Prim.Native.Nat.{ℕ, ◌+◌, ◌-◌, ◌*◌, ◌^◌, min}

abbrev pub u32_max : ℕ
u32_max = 2 ^ 32 - 1

abbrev pub u64_max : ℕ
u64_max = 2 ^ 64 - 1

abbrev pub clamp_u64 : ℕ → ℕ
clamp_u64 x = min x u64_max

abbrev pub saturating_add : ℕ → ℕ → ℕ
saturating_add a b = clamp_u64 (a + b)

abbrev pub saturating_mul : ℕ → ℕ → ℕ
saturating_mul a b = clamp_u64 (a * b)

-- `-` on the native numbers stops at 0, as the saturating subtraction does.
abbrev pub saturating_sub : ℕ → ℕ → ℕ
saturating_sub a b = a - b
