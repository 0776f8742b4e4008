-- ===== src/Permissions/Bits.antt =====
-- The bits of a native number, and what `&`, `|` and a mask do to each of them.
use Prim.Native.Nat.{bit_and, bit_or, bit_and-bitwise, bit_or-bitwise, digits}
use native.Mathlib.Nat.{pow-suc}
use sirr.Prelude.{
  ℕ, zero, suc, ◌+◌, ◌*◌, ◌/◌, ◌%◌, ◌^◌, ◌≤◌, ◌<◌, min, max, ◌≡◌, refl, Bool, false, not, ◌&&◌,
  ◌||◌, arith, ◌==◌,
}

-- Bit `i` of `n`.
unfoldable pub bit : ℕ → ℕ → Bool
bit zero n = n % 2 == 1
bit (suc i) n = bit i (n / 2)

-- More fuel than the first number asks for changes nothing in the recursion on digits.
module _ (base : ℕ → ℕ) (op : ℕ → ℕ → ℕ) where
  enough_fuel :
      (x y fuel spare : ℕ)
      → x ≤ fuel
      → x ≤ spare
      → digits base op fuel x y ≡ digits base op spare x y
  enough_fuel zero y (suc fuel) (suc spare) le le' = refl
  enough_fuel zero y (suc fuel) zero le le' = refl
  enough_fuel zero y zero (suc spare) le le' = refl
  enough_fuel zero y zero zero le le' = refl
  enough_fuel (suc x) y zero spare le le' = absurd (omega arith)
  enough_fuel (suc x) y (suc fuel) zero le le' = absurd (omega arith)
  enough_fuel (suc x) y (suc fuel) (suc spare) le le' =
      let half : suc x / 2 ≤ x = omega arith in
      omega (
        arith,
        enough_fuel (suc x / 2) (y / 2) fuel spare (omega (arith, half, le))
            (omega (arith, half, le')),
      )

and_step : (x y : ℕ) → min (x % 2) (y % 2) + 2 * bit_and (x / 2) (y / 2) ≡ bit_and x y
and_step zero y = omega (arith, bit_and-bitwise 0 y, bit_and-bitwise 0 (y / 2))
and_step (suc x) y = omega (
  arith,
  bit_and-bitwise (suc x) y,
  bit_and-bitwise (suc x / 2) (y / 2),
  enough_fuel (λ _. 0) min (suc x / 2) (y / 2) x (suc x / 2) (omega arith) (omega arith),
)

or_step : (x y : ℕ) → max (x % 2) (y % 2) + 2 * bit_or (x / 2) (y / 2) ≡ bit_or x y
or_step zero y = omega (arith, bit_or-bitwise 0 y, bit_or-bitwise 0 (y / 2))
or_step (suc x) y = omega (
  arith,
  bit_or-bitwise (suc x) y,
  bit_or-bitwise (suc x / 2) (y / 2),
  enough_fuel (λ w. w) max (suc x / 2) (y / 2) x (suc x / 2) (omega arith) (omega arith),
)

half_and : (a b : ℕ) → bit_and a b / 2 ≡ bit_and (a / 2) (b / 2)
half_and a b = omega (arith, and_step a b)

half_or : (a b : ℕ) → bit_or a b / 2 ≡ bit_or (a / 2) (b / 2)
half_or a b = omega (arith, or_step a b)

pub bit-and : (i a b : ℕ) → bit i (bit_and a b) ≡ (bit i a && bit i b)
unfolding bit
bit-and zero a b = ground (arith, and_step a b)
bit-and (suc i) a b = ground (arith, half_and a b, bit-and i (a / 2) (b / 2))

pub bit-or : (i a b : ℕ) → bit i (bit_or a b) ≡ (bit i a || bit i b)
unfolding bit
bit-or zero a b = ground (arith, or_step a b)
bit-or (suc i) a b = ground (arith, half_or a b, bit-or i (a / 2) (b / 2))

half_power : (i : ℕ) → 2 ^ suc i / 2 ≡ 2 ^ i
half_power i = omega (arith, pow-suc 2 i)

even_power : (i : ℕ) → 2 ^ suc i % 2 ≡ 0
even_power i = omega (arith, pow-suc 2 i)

pub bit-zero : (i : ℕ) → bit i 0 ≡ false
unfolding bit
bit-zero zero = refl
bit-zero (suc i) = bit-zero i

-- The mask `1 << j` has bit `j` and no other.
pub bit-power : (i j : ℕ) → bit i (2 ^ j) ≡ (i == j)
unfolding bit
bit-power zero zero = refl
bit-power zero (suc j) = ground (arith, even_power j)
bit-power (suc i) zero = ground (arith, bit-zero i)
bit-power (suc i) (suc j) = ground (arith, half_power j, bit-power i j)

and-zero : (a : ℕ) → bit_and a 0 ≡ 0
and-zero a = and-zero_fuel a a (omega arith)
  where
    and-zero_fuel : (n a : ℕ) → a ≤ n → bit_and a 0 ≡ 0
    and-zero_fuel n zero h = omega (arith, bit_and-bitwise 0 0)
    and-zero_fuel zero (suc a) h = absurd (omega arith)
    and-zero_fuel (suc n) (suc a) h =
        omega (arith, and_step (suc a) 0, and-zero_fuel n (suc a / 2) (omega arith))

-- `flags & (1 << i) != 0` tests bit `i`.
pub bit_mask : (i n : ℕ) → not (bit_and n (2 ^ i) == 0) ≡ bit i n
unfolding bit
bit_mask zero n = ground (arith, and_step n 1, and-zero (n / 2))
bit_mask (suc i) n =
    ground (arith, and_step n (2 ^ suc i), half_power i, even_power i, bit_mask i (n / 2))

-- Numbers below `2 ^ k` with the same bits are equal.
pub eq_of_bits : (k a b : ℕ) → a < 2 ^ k → b < 2 ^ k → ((i : ℕ) → i < k → bit i a ≡ bit i b) → a ≡ b
unfolding bit
eq_of_bits zero a b p q h = omega arith
eq_of_bits (suc k) a b p q h = ground (
  arith,
  pow-suc 2 k,
  h 0 (omega arith),
  eq_of_bits k (a / 2) (b / 2) (omega (arith, pow-suc 2 k)) (omega (arith, pow-suc 2 k))
      (λ i lt. h (suc i) (omega arith)),
)

-- The bits from `k` on are clear in a number below `2 ^ k`.
pub bit_high : (k i n : ℕ) → n < 2 ^ k → k ≤ i → bit i n ≡ false
unfolding bit
bit_high zero i n h le = ground (arith, bit-zero i)
bit_high (suc k) zero n h le = absurd (omega arith)
bit_high (suc k) (suc i) n h le = bit_high k i (n / 2) (omega (arith, pow-suc 2 k)) (omega arith)

-- `|` stays below a power of two.
pub or-lt : (k a b : ℕ) → a < 2 ^ k → b < 2 ^ k → bit_or a b < 2 ^ k
or-lt zero zero zero p q = omega (arith, bit_or-bitwise 0 0)
or-lt zero zero (suc b) p q = absurd (omega arith)
or-lt zero (suc a) b p q = absurd (omega arith)
or-lt (suc k) a b p q = omega (
  arith,
  pow-suc 2 k,
  or_step a b,
  or-lt k (a / 2) (b / 2) (omega (arith, pow-suc 2 k)) (omega (arith, pow-suc 2 k)),
)

-- `&` is at most its second argument.
pub and-le : (a b : ℕ) → bit_and a b ≤ b
and-le a b = go a a b (omega arith)
  where
    go : (n a b : ℕ) → a ≤ n → bit_and a b ≤ b
    go n zero b h = omega (arith, bit_and-bitwise 0 b)
    go zero (suc a) b h = absurd (omega arith)
    go (suc n) (suc a) b h =
        omega (arith, and_step (suc a) b, go n (suc a / 2) (b / 2) (omega arith))
