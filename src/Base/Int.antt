-- ===== src/Base/Int.antt =====
-- Signed integers over the native numbers, and Go's `int64` arithmetic with its wrap-around.
use Prim.Native.Nat.{ℕ, suc, ◌+◌, ◌-◌, ◌%◌, ◌^◌, ◌<◌}
use mathlib.Core.Path.{◌≡◌}
use mathlib.Core.Bool.{Bool}
use native.Mathlib.Omega.{arith}
use go_tools.Base.Tests.{ltb, leb, ◌==◌, if◌then◌else◌}

-- `negsuc n` is -(n + 1).
pub data ℤ : Type 0 where
  pos : ℕ → ℤ
  negsuc : ℕ → ℤ

abbrev pub pos_part : ℤ → ℕ
pos_part (pos n) = n
pos_part (negsuc n) = 0

abbrev pub neg_part : ℤ → ℕ
neg_part (pos n) = 0
neg_part (negsuc n) = suc n

abbrev pub ltb_ℤ : ℤ → ℤ → Bool
ltb_ℤ a b = ltb (pos_part a + neg_part b) (pos_part b + neg_part a)

abbrev pub leb_ℤ : ℤ → ℤ → Bool
leb_ℤ a b = leb (pos_part a + neg_part b) (pos_part b + neg_part a)

abbrev pub two_pow_64 : ℕ
two_pow_64 = 2 ^ 64

abbrev pub two_pow_63 : ℕ
two_pow_63 = 2 ^ 63

-- The two's complement pattern of an integer, and the `int64` of a pattern.
unfoldable pub to_bits : ℤ → ℕ
to_bits (pos n) = n % two_pow_64
to_bits (negsuc n) = two_pow_64 - 1 - n % two_pow_64

unfoldable pub of_bits : ℕ → ℤ
of_bits m = if ltb m two_pow_63 then pos m else negsuc (two_pow_64 - 1 - m)

-- `a + b` on `int64`.
unfoldable pub add64 : ℤ → ℤ → ℤ
unfolding to_bits of_bits
add64 a b = of_bits ((to_bits a + to_bits b) % two_pow_64)

-- Without overflow the sum of two `int64` that are not negative is their sum.
pub add64_pos : (a b : ℕ) → a + b < two_pow_63 → add64 (pos a) (pos b) ≡ pos (a + b)
unfolding add64
add64_pos a b h = ground arith

abbrev pub eqb_ℤ : ℤ → ℤ → Bool
eqb_ℤ a b = pos_part a + neg_part b == pos_part b + neg_part a
