-- ===== src/Prelude/Words.antt =====
-- Rust's unsigned integers as native numbers: the ranges, and the operations that saturate.
-- `saturating_sub` is the truncated subtraction of ℕ.
use Prim.Native.Nat.{ℕ, ◌+◌, ◌-◌, ◌*◌, ◌/◌, ◌^◌, min}

abbrev pub u32_max : ℕ
u32_max = 2 ^ 32 - 1

-- `u64`, and `usize` on the 64-bit targets.
abbrev pub u64_max : ℕ
u64_max = 2 ^ 64 - 1

abbrev pub saturating_add32 : ℕ → ℕ → ℕ
saturating_add32 a b = min (a + b) u32_max

abbrev pub saturating_add : ℕ → ℕ → ℕ
saturating_add a b = min (a + b) u64_max

abbrev pub saturating_mul : ℕ → ℕ → ℕ
saturating_mul a b = min (a * b) u64_max

-- `usize::div_ceil`.
abbrev pub div_ceil : ℕ → ℕ → ℕ
div_ceil a b = (a + b - 1) / b
