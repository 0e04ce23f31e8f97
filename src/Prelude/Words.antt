-- ===== src/Prelude/Words.antt =====
-- Go's 64-bit `int` as its bit pattern, a number below 2 ^ 64; a pattern from 2 ^ 63 on is negative.
use Prim.Native.Nat.{ℕ, ◌<◌, ◌≤◌, ◌+◌, ◌-◌, ◌*◌, ◌%◌, ◌^◌}
use mathlib.Core.Path.{◌≡◌}
use native.Mathlib.Omega.{arith}
use native.Mathlib.Nat.{mul-le-mul}
use mathlib.Core.Bool.{Bool, not}
use network_skill_lab.Prelude.Tests.{ltb}

abbrev pub int_size : ℕ
int_size = 2 ^ 64

-- `a < b` on `int`.
abbrev pub int_lt : ℕ → ℕ → Bool
int_lt a b = ltb ((a + 2 ^ 63) % 2 ^ 64) ((b + 2 ^ 63) % 2 ^ 64)

-- `a <= b` on `int`.
abbrev pub int_le : ℕ → ℕ → Bool
int_le a b = not (int_lt b a)

-- `a + b` on `int`, which wraps.
abbrev pub int_add : ℕ → ℕ → ℕ
int_add a b = (a + b) % int_size

-- `a * b` on `int`, which wraps.
abbrev pub int_mul : ℕ → ℕ → ℕ
int_mul a b = (a * b) % 2 ^ 64

-- Below 2 ^ 63 the order on patterns is the order on numbers.
pub int_lt_small : (a b : ℕ) → a < 2 ^ 63 → b < 2 ^ 63 → int_lt a b ≡ ltb a b
int_lt_small a b ha hb = ground arith

small_product : (a b : ℕ) → a < 2 ^ 31 → b < 2 ^ 31 → a * b ≤ (2 ^ 31 - 1) * (2 ^ 31 - 1)
small_product a b ha hb = mul-le-mul {n₂ = 2 ^ 31 - 1} {m₂ = 2 ^ 31 - 1} (omega arith) (omega arith)

pub int_mul_lt : (a b : ℕ) → a < 2 ^ 31 → b < 2 ^ 31 → a * b < 2 ^ 63
int_mul_lt a b ha hb = omega (arith, small_product a b ha hb)

-- Products of numbers below 2 ^ 31 do not wrap.
pub int_mul_small : (a b : ℕ) → a < 2 ^ 31 → b < 2 ^ 31 → int_mul a b ≡ a * b
int_mul_small a b ha hb = omega (arith, small_product a b ha hb)

-- A sum below 2 ^ 63 does not wrap.
pub int_add_small : (a b : ℕ) → a + b < 2 ^ 63 → int_add a b ≡ a + b
int_add_small a b h = omega arith
