-- ===== src/Prelude/Int.antt =====
-- Signed integers over the native numbers, and the casts between 64-bit words and integers.
use Prim.Native.Nat.{ℕ, suc, ◌+◌, ◌-◌, ◌≤◌, ◌<◌, ◌%◌, ◌^◌}
use mathlib.Core.Path.{◌≡◌}
use mathlib.Core.Bool.{Bool}
use native.Mathlib.Omega.{arith}
use sirr.Prelude.Tests.{ltb, leb, if◌then◌else◌}

-- `negsuc n` is -(n + 1).
pub data ℤ : Type 0 where
  pos : ℕ → ℤ
  negsuc : ℕ → ℤ

abbrev pub pos_part : ℤ → ℕ
pos_part (pos n) = n
pos_part (negsuc n) = 0

abbrev pub neg_part : ℤ → ℕ
neg_part (pos n) = 0
neg_part (negsuc n) = suc n

-- a - b, as an integer.
abbrev pub sub_ℕ : ℕ → ℕ → ℤ
sub_ℕ a b = if leb b a then pos (a - b) else negsuc (b - a - 1)

infix 50 ◌≤ℤ◌ ◌<ℤ◌
abbrev pub ◌≤ℤ◌ : ℤ → ℤ → Type 0
a ≤ℤ b = pos_part a + neg_part b ≤ pos_part b + neg_part a

abbrev pub ◌<ℤ◌ : ℤ → ℤ → Type 0
a <ℤ b = pos_part a + neg_part b < pos_part b + neg_part a

abbrev pub ltb_ℤ : ℤ → ℤ → Bool
ltb_ℤ a b = ltb (pos_part a + neg_part b) (pos_part b + neg_part a)

abbrev pub leb_ℤ : ℤ → ℤ → Bool
leb_ℤ a b = leb (pos_part a + neg_part b) (pos_part b + neg_part a)

-- `x as u64` of an i64.
unfoldable pub as_u64 : ℤ → ℕ
as_u64 (pos n) = n % 2 ^ 64
as_u64 (negsuc n) = 2 ^ 64 - 1 - n % 2 ^ 64

-- `x as i64` of a u64.
unfoldable pub as_i64 : ℕ → ℤ
as_i64 x = let n = x % 2 ^ 64 in if ltb n (2 ^ 63) then pos n else negsuc (2 ^ 64 - 1 - n)

-- i64 `+` and `-`, which wrap around in a release build.
infixl 65 ◌+i64◌ ◌-i64◌
unfoldable pub ◌+i64◌ : ℤ → ℤ → ℤ
unfolding as_i64 as_u64
a +i64 b = as_i64 (as_u64 a + as_u64 b)

unfoldable pub ◌-i64◌ : ℤ → ℤ → ℤ
unfolding as_i64 as_u64
a -i64 b = as_i64 (as_u64 a + 2 ^ 64 - as_u64 b)

abbrev pub i64_max : ℕ
i64_max = 2 ^ 63 - 1

-- Within the range of an i64 the sum of two numbers is their sum.
pub +i64_exact : (a b : ℕ) → a + b ≤ i64_max → pos a +i64 pos b ≡ pos (a + b)
unfolding ◌+i64◌
+i64_exact a b h = ground arith

pub -i64_exact : (a b : ℕ) → a ≤ i64_max → b ≤ a → pos a -i64 pos b ≡ pos (a - b)
unfolding ◌-i64◌
-i64_exact a b h k = ground arith

pub as_u64_exact : (a : ℕ) → a ≤ i64_max → as_u64 (pos a) ≡ a
unfolding as_u64
as_u64_exact a h = omega arith

pub as_i64_exact : (a : ℕ) → a ≤ i64_max → as_i64 a ≡ pos a
unfolding as_i64
as_i64_exact a h = ground arith
