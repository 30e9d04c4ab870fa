-- ===== src/Base/Int.antt =====
-- Signed integers over the native numbers, and Go's 64-bit `int`, `int64` and `time.Duration`.
use Prim.Native.Nat.{ℕ, suc, ◌+◌, ◌-◌, ◌*◌, ◌/◌, ◌%◌, ◌≤◌, ◌<◌}
use mathlib.Core.Path.{◌≡◌}
use mathlib.Core.Bool.{Bool}
use native.Mathlib.Omega.{arith}
use w8nc.Base.Tests.{ltb, leb, if◌then◌else◌}

-- `negsuc n` is -(n + 1).
pub data ℤ : Type 0 where
  pos : ℕ → ℤ
  negsuc : ℕ → ℤ

abbrev pub pos_part : ℤ → ℕ
pos_part (pos n) = n
pos_part (negsuc n) = 0

abbrev pub neg_part : ℤ → ℕ
neg_part (pos n) = 0
neg_part (negsuc n) = suc n

-- a - b, as an integer.
abbrev pub sub_ℕ : ℕ → ℕ → ℤ
sub_ℕ a b = if leb b a then pos (a - b) else negsuc (b - a - 1)

abbrev pub neg : ℤ → ℤ
neg a = sub_ℕ (neg_part a) (pos_part a)

infix 50 ◌≤ℤ◌ ◌<ℤ◌
abbrev pub ◌≤ℤ◌ : ℤ → ℤ → Type 0
a ≤ℤ b = pos_part a + neg_part b ≤ pos_part b + neg_part a

abbrev pub ◌<ℤ◌ : ℤ → ℤ → Type 0
a <ℤ b = pos_part a + neg_part b < pos_part b + neg_part a

abbrev pub ltb_ℤ : ℤ → ℤ → Bool
ltb_ℤ a b = ltb (pos_part a + neg_part b) (pos_part b + neg_part a)

abbrev pub two_63 : ℕ
two_63 = 9223372036854775808

abbrev pub two_64 : ℕ
two_64 = 18446744073709551616

-- The signed 64-bit value of a number modulo 2^64.
abbrev pub to_int64 : ℕ → ℤ
to_int64 n = let m = n % two_64 in if ltb m two_63 then pos m else negsuc (two_64 - 1 - m)

-- Go's multiplication of an `int64` by a positive constant, which wraps.
abbrev pub mul_int64 : ℤ → ℕ → ℤ
mul_int64 (pos a) k = to_int64 (a * k)
mul_int64 (negsuc a) k = to_int64 (two_64 - (suc a * k) % two_64)

-- Go's division of an `int64` by a positive constant, which truncates toward 0.
abbrev pub quot : ℤ → ℕ → ℤ
quot (pos a) k = pos (a / k)
quot (negsuc a) k = neg (pos (suc a / k))

-- `a % k == 0`, for a positive constant.
abbrev pub divisible : ℤ → ℕ → Bool
divisible a k = leb ((pos_part a + neg_part a) % k) 0

pub to_int64_of_lt : (n : ℕ) → n < two_63 → to_int64 n ≡ pos n
to_int64_of_lt n h = ground arith
