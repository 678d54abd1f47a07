-- ===== src/Prelude/Words.antt =====
-- Go's int64, as the bit pattern of its two's complement: a number below 2 ^ 64.
-- Sums and differences wrap; the order is the signed one.
use Prim.Native.Nat.{ℕ, ◌+◌, ◌-◌, ◌%◌, ◌≤◌, ◌<◌}
use mathlib.Core.Path.{◌≡◌}
use mathlib.Core.Logic.{◌↔◌}
use mathlib.Core.Bool.{Bool, true}
use native.Mathlib.Omega.{arith}
use scan2graph.Prelude.Tests.{ltb, leb}

-- 2 ^ 64 and 2 ^ 63.
abbrev pub modulus : ℕ
modulus = 18446744073709551616

abbrev pub half : ℕ
half = 9223372036854775808

unfoldable pub add64 : ℕ → ℕ → ℕ
add64 a b = (a + b) % modulus

unfoldable pub sub64 : ℕ → ℕ → ℕ
sub64 a b = (a + modulus - b) % modulus

-- The signed order, by moving the sign bit's half to the front.
unfoldable pub le64 : ℕ → ℕ → Bool
le64 a b = leb ((a + half) % modulus) ((b + half) % modulus)

unfoldable pub lt64 : ℕ → ℕ → Bool
lt64 a b = ltb ((a + half) % modulus) ((b + half) % modulus)

-- On patterns that stand for numbers at or above 0 the signed order is the order of numbers.
pub le64_iff : (a b : ℕ) → a < half → b < half → (le64 a b ≡ true) ↔ (a ≤ b)
unfolding le64
le64_iff a b ha hb = ground arith

pub lt64_iff : (a b : ℕ) → a < half → b < half → (lt64 a b ≡ true) ↔ (a < b)
unfolding lt64
lt64_iff a b ha hb = ground arith

pub add64-lt : (a b : ℕ) → add64 a b < modulus
unfolding add64
add64-lt a b = omega arith

pub sub64-lt : (a b : ℕ) → sub64 a b < modulus
unfolding sub64
sub64-lt a b = omega arith

-- What the operations do to a number that is known modulo 2 ^ 64.
pub add64-mod : (t b : ℕ) → add64 (t % modulus) b ≡ (t + b) % modulus
unfolding add64
add64-mod t b = omega arith

pub sub64-mod : (t b : ℕ) → b ≤ t → b < modulus → sub64 (t % modulus) b ≡ (t - b) % modulus
unfolding sub64
sub64-mod t b h hb = omega arith

-- `x += n - b`, where `b` is part of the total `t`.
pub settle-mod :
    (t b n : ℕ) → b ≤ t → b < modulus → add64 (t % modulus) (sub64 n b) ≡ (t - b + n) % modulus
unfolding add64 sub64
settle-mod t b n h hb = omega arith

-- Where nothing wraps the operations are those of the numbers.
pub add64-eq : (a b : ℕ) → a + b < modulus → add64 a b ≡ a + b
unfolding add64
add64-eq a b h = omega arith

pub sub64-eq : (a b : ℕ) → b ≤ a → a < modulus → sub64 a b ≡ a - b
unfolding sub64
sub64-eq a b h k = omega arith
