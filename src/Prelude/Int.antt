-- ===== src/Prelude/Int.antt =====
-- Signed integers over the native numbers, and Go's `int64` as such an integer with wrap-around.
use Prim.Native.Nat.{ℕ, suc, ◌+◌, ◌-◌, ◌%◌, ◌^◌, ◌≤◌, ◌<◌}
use mathlib.Core.Path.{◌≡◌}
use mathlib.Core.Bool.{Bool}
use native.Mathlib.Omega.{arith}
use csi_test.Prelude.Tests.{ltb, leb, eqb, if◌then◌else◌}

-- `negsuc n` is -(n + 1).
pub data ℤ : Type 0 where
  pos : ℕ → ℤ
  negsuc : ℕ → ℤ

abbrev pub pos_part : ℤ → ℕ
pos_part (pos n) = n
pos_part (negsuc n) = 0

abbrev pub neg_part : ℤ → ℕ
neg_part (pos n) = 0
neg_part (negsuc n) = suc n

-- a - b, as an integer.
abbrev pub sub_ℕ : ℕ → ℕ → ℤ
sub_ℕ a b = if leb b a then pos (a - b) else negsuc (b - a - 1)

infix 50 ◌≤ℤ◌
abbrev pub ◌≤ℤ◌ : ℤ → ℤ → Type 0
a ≤ℤ b = pos_part a + neg_part b ≤ pos_part b + neg_part a

abbrev pub ltb_ℤ : ℤ → ℤ → Bool
ltb_ℤ a b = ltb (pos_part a + neg_part b) (pos_part b + neg_part a)

abbrev pub leb_ℤ : ℤ → ℤ → Bool
leb_ℤ a b = leb (pos_part a + neg_part b) (pos_part b + neg_part a)

abbrev pub eqb_ℤ : ℤ → ℤ → Bool
eqb_ℤ a b = eqb (pos_part a + neg_part b) (pos_part b + neg_part a)

-- The two's complement bit pattern of 64 bits, read as a signed number.
pub wrap_bits : ℕ → ℤ
wrap_bits n = if ltb n (2 ^ 63) then pos n else sub_ℕ n (2 ^ 64)

-- An integer reduced to `int64`; the `neg_part` is first made a residue.
pub wrap64 : ℤ → ℤ
unfolding wrap_bits
wrap64 (pos n) = wrap_bits (n % 2 ^ 64)
wrap64 (negsuc n) = wrap_bits ((2 ^ 64 - 1) - n % 2 ^ 64)

-- int64 a + b
pub add64 : ℤ → ℤ → ℤ
unfolding wrap64
add64 a b = wrap64 (sub_ℕ (pos_part a + pos_part b) (neg_part a + neg_part b))

abbrev pub IsInt64 : ℤ → Type 0
IsInt64 z = (pos_part z < 2 ^ 63) × (neg_part z ≤ 2 ^ 63)

pub wrap64-IsInt64 : (z : ℤ) → IsInt64 (wrap64 z)
unfolding wrap64
wrap64-IsInt64 (pos n) = ground arith
wrap64-IsInt64 (negsuc n) = ground arith

pub wrap64_pos : (n : ℕ) → n < 2 ^ 63 → wrap64 (pos n) ≡ pos n
unfolding wrap64
wrap64_pos n h = ground arith

-- A sum of two numbers below 2^63 wraps around at most once.
pub add64_pos :
    (a b : ℕ)
    → a < 2 ^ 63
    → b < 2 ^ 63
    → add64 (pos a) (pos b)
      ≡ (if ltb (a + b) (2 ^ 63) then pos (a + b) else negsuc (2 ^ 64 - 1 - (a + b)))
unfolding add64 wrap64 wrap_bits
add64_pos a b ha hb = ground arith
