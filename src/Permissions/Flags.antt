-- ===== src/Permissions/Flags.antt =====
-- crates/sirr-server/src/store/permissions.rs: `has`, `is_subset_of` and `from_bits` as sets of
-- permission bits.
use Prim.Native.Nat.{bit_and}
use sirr.Prelude.{
  ℕ, zero, suc, ◌<◌, ◌^◌, ◌≡◌, refl, ◌↔◌, Bool, true, ◌&&◌, ap, arith, ◌==◌, ==_iff, List, [], ◌∷◌,
}
use sirr.Permissions.{
  Permissions, PermBit, all_bits, discriminant, has, is_subset_of, from_bits, all_bits_mask,
  read_my,
}
use sirr.Permissions.Bits.{bit, bit-and, bit_mask, eq_of_bits, and-le}

-- A value of the `u16` with no bit above the fourteenth.
abbrev pub IsFlags : Permissions → Type 0
IsFlags p = p.raw < 2 ^ 15

pub has-bit : (p : Permissions) (b : PermBit) → has p b ≡ bit (discriminant b) p.raw
unfolding has
has-bit p b = bit_mask (discriminant b) p.raw

-- A Boolean test of every number below `n`.
every_below : ℕ → (ℕ → Bool) → Bool
every_below zero test = true
every_below (suc n) test = every_below n test && test n

of_every_below : (n i : ℕ) (test : ℕ → Bool) → every_below n test ≡ true → i < n → test i ≡ true
unfolding every_below
of_every_below zero i test h lt = absurd (omega arith)
of_every_below (suc n) i test h lt = ground (arith, of_every_below n i test)

-- The bit at a position of the enumeration.
bit_at : ℕ → List PermBit → PermBit
bit_at i [] = read_my
bit_at zero (b ∷ bits) = b
bit_at (suc i) (b ∷ bits) = bit_at i bits

discriminant-bit_at : (i : ℕ) → i < 15 → discriminant (bit_at i all_bits) ≡ i
unfolding every_below bit_at
discriminant-bit_at i h =
    (==_iff _ _).0 (of_every_below 15 i (λ j. discriminant (bit_at j all_bits) == j) refl h)

-- Flags are determined by the permissions that they hold.
pub eq_of_has :
    (p q : Permissions) → IsFlags p → IsFlags q → ((b : PermBit) → has p b ≡ has q b) → p ≡ q
eq_of_has p q hp hq same = λ i. record { raw = raws i }
  where
    at : (i : ℕ) → i < 15 → bit i p.raw ≡ bit i q.raw
    at i lt =
        let b = bit_at i all_bits in cc (has-bit p b, has-bit q b, same b, discriminant-bit_at i lt)

    raws : p.raw ≡ q.raw
    raws = eq_of_bits 15 p.raw q.raw hp hq at

and-flags : (p q : Permissions) → IsFlags q → bit_and p.raw q.raw < 2 ^ 15
and-flags p q h = omega (arith, and-le p.raw q.raw)

subset_masked :
    (p q : Permissions)
    → IsFlags p
    → IsFlags q
    → ((b : PermBit) → has p b ≡ true → has q b ≡ true)
    → record { raw = bit_and p.raw q.raw } ≡ p
subset_masked p q hp hq sub = eq_of_has _ p (and-flags p q hq) hp same
  where
    same : (b : PermBit) → has (record { raw = bit_and p.raw q.raw }) b ≡ has p b
    same b =
        let i = discriminant b in
        ground (
          arith,
          has-bit (record { raw = bit_and p.raw q.raw }) b,
          has-bit p b,
          has-bit q b,
          bit-and i p.raw q.raw,
          sub b,
        )

-- `is_subset_of` answers true exactly if every permission of the first is one of the second.
pub is_subset_of_iff :
    (p q : Permissions)
    → IsFlags p
    → IsFlags q
    → (is_subset_of p q ≡ true) ↔ ((b : PermBit) → has p b ≡ true → has q b ≡ true)
unfolding is_subset_of
is_subset_of_iff p q hp hq = (
  λ h b held. ground (
    arith,
    has-bit p b,
    has-bit q b,
    bit-and (discriminant b) p.raw q.raw,
    ap (bit (discriminant b)) ((==_iff _ _).0 h),
  ),
  λ sub. (==_iff _ _).1 (ap (λ r. r.raw) (subset_masked p q hp hq sub)),
)

pub discriminant-lt : (b : PermBit) → discriminant b < 15
discriminant-lt read_my = omega arith
discriminant-lt _ = omega arith

full_mask : (b : PermBit) → bit (discriminant b) all_bits_mask ≡ true
unfolding every_below bit
full_mask b = of_every_below 15 (discriminant b) (λ i. bit i all_bits_mask) refl (discriminant-lt b)

-- `from_bits` keeps the fifteen permission bits of a word and no other bit.
pub from_bits_lem :
    (n : ℕ) → IsFlags (from_bits n) × ((b : PermBit) → has (from_bits n) b ≡ bit (discriminant b) n)
unfolding from_bits
from_bits_lem n = (omega (arith, and-le n all_bits_mask), λ b. held b)
  where
    held : (b : PermBit) → has (record { raw = bit_and n all_bits_mask }) b ≡ bit (discriminant b) n
    held b = ground (
      arith,
      has-bit (record { raw = bit_and n all_bits_mask }) b,
      bit-and (discriminant b) n all_bits_mask,
      full_mask b,
    )
