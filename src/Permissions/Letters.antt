-- ===== src/Permissions/Letters.antt =====
-- crates/sirr-server/src/store/permissions.rs: `parse` and `to_letter_string` against the letter
-- that each permission is documented by.
use Prim.Native.Nat.{bit_or}
use sirr.Prelude.{
  ℕ, suc, ◌<◌, ◌^◌, ◌≡◌, refl, ◌⊎◌, inl, inr, Bool, true, false, ◌&&◌, ◌||◌, [], ◌∷◌, Option, none,
  some, Option-cases, ap, sym, ◌∙◌, arith, any, all, if◌then◌else◌, ◌==◌,
}
use sirr.Text.{Bytes}
use sirr.Permissions.{
  Permissions, PermBit, parsed, invalid_letter, letter_order, discriminant, as_mask, from_letter,
  parse, parse_from, has, letters_from, to_letter_string, all_bits, read_my, read_org, list_my,
  list_org, create, create_on_behalf, patch_my, patch_org, account_read, account_read_org,
  account_manage, manage_org, sirr_admin, delete_my, delete_org,
}
use sirr.Permissions.Bits.{bit, bit-or, bit-power, bit_mask, bit-zero, or-lt}
use sirr.Permissions.Flags.{IsFlags, has-bit, eq_of_has}

-- The documented letter of each permission.
unfoldable pub letter : PermBit → ℕ
letter read_my = b'r'
letter read_org = b'R'
letter list_my = b'l'
letter list_org = b'L'
letter create = b'c'
letter create_on_behalf = b'C'
letter patch_my = b'p'
letter patch_org = b'P'
letter account_read = b'a'
letter account_read_org = b'A'
letter account_manage = b'm'
letter manage_org = b'M'
letter sirr_admin = b'S'
letter delete_my = b'd'
letter delete_org = b'D'

-- The character is the letter of a permission.
unfoldable pub is_letter : ℕ → Bool
unfolding letter
is_letter ch = any (λ b. letter b == ch) all_bits

from_letter-letter : (ch : ℕ) (b : PermBit) → from_letter ch ≡ some b → letter b ≡ ch
unfolding from_letter letter
from_letter-letter ch b h = ground arith

letter-from_letter : (b : PermBit) → from_letter (letter b) ≡ some b
unfolding from_letter letter
letter-from_letter read_my = refl
letter-from_letter _ = refl

is_letter_of_none : (ch : ℕ) → from_letter ch ≡ none → is_letter ch ≡ false
unfolding from_letter is_letter
is_letter_of_none ch h = ground arith

from_letter-is_letter : (ch : ℕ) (b : PermBit) → from_letter ch ≡ some b → is_letter ch ≡ true
unfolding from_letter is_letter
from_letter-is_letter ch b h = ground arith

same_letter : (b c : PermBit) → (discriminant b == discriminant c) ≡ (letter b == letter c)
unfolding letter
same_letter read_my c = ground arith
same_letter _ c = ground arith

bit_mask-eq : (b c : PermBit) → bit (discriminant b) (as_mask c) ≡ (letter b == letter c)
unfolding as_mask
bit_mask-eq b c = bit-power (discriminant b) (discriminant c) ∙ same_letter b c

-- Some character of the text is the letter.
abbrev pub occurs : ℕ → Bytes → Bool
occurs l s = any (λ ch. l == ch) s

parse_from_bits :
    (s : Bytes) (flags : ℕ) (p : Permissions) (b : PermBit)
    → parse_from flags s ≡ parsed p
    → bit (discriminant b) p.raw ≡ (bit (discriminant b) flags || occurs (letter b) s)
unfolding parse_from
parse_from_bits [] flags p b h = ground arith
parse_from_bits (ch ∷ s) flags p b h = elim (Option-cases (from_letter ch)) [
  | inl e ↦ ground (arith, e)
  | inr (c, e) ↦ ground (
    arith,
    e,
    from_letter-letter ch c,
    bit-or (discriminant b) flags (as_mask c),
    bit_mask-eq b c,
    parse_from_bits s (bit_or flags (as_mask c)) p b,
  )
]

as_mask-lt : (b : PermBit) → as_mask b < 2 ^ 15
unfolding as_mask
as_mask-lt read_my = omega arith
as_mask-lt _ = omega arith

parse_from-IsFlags :
    (s : Bytes) (flags : ℕ) (p : Permissions)
    → flags < 2 ^ 15
    → parse_from flags s ≡ parsed p
    → IsFlags p
unfolding parse_from
parse_from-IsFlags [] flags p lt h = ground arith
parse_from-IsFlags (ch ∷ s) flags p lt h = elim (Option-cases (from_letter ch)) [
  | inl e ↦ ground (arith, e)
  | inr (c, e) ↦
      parse_from-IsFlags s (bit_or flags (as_mask c)) p
        (or-lt 15 flags (as_mask c) lt (as_mask-lt c)) (ground (arith, e))
]

-- The first character that is no letter.
pub first_invalid : Bytes → Option ℕ
first_invalid [] = none
first_invalid (ch ∷ s) = let rest = first_invalid s in if is_letter ch then rest else some ch

parse_from_cases :
    (s : Bytes) (flags : ℕ)
    → ((first_invalid s ≡ none) × ((p : Permissions) × (parse_from flags s ≡ parsed p)))
      ⊎ ((ch : ℕ) × (first_invalid s ≡ some ch) × (parse_from flags s ≡ invalid_letter ch))
unfolding parse_from first_invalid
parse_from_cases [] flags = inl (refl, (record { raw = flags }, refl))
parse_from_cases (ch ∷ s) flags = elim (Option-cases (from_letter ch)) [
  | inl e ↦ inr (ch, rw (is_letter_of_none ch e), rw (e, parse_from))
  | inr (c, e) ↦
      rw (from_letter-is_letter ch c e, e, parse_from)
        (parse_from_cases s (bit_or flags (as_mask c)))
]

-- A text of letters parses, to flags that hold exactly the permissions whose letters occur in it,
-- in any order and number; any other text is refused with its first character that is no letter.
pub parse_lem :
    (s : Bytes)
    → ((first_invalid s ≡ none)
        × ((p : Permissions) × (parse s ≡ parsed p)
            × IsFlags p
            × ((b : PermBit) → has p b ≡ occurs (letter b) s)))
      ⊎ ((ch : ℕ) × (first_invalid s ≡ some ch) × (parse s ≡ invalid_letter ch))
unfolding parse
parse_lem s = elim (parse_from_cases s 0) [
  | inl (valid, (p, e)) ↦ inl (
    valid,
    (
      p,
      e,
      parse_from-IsFlags s 0 p (omega arith) e,
      λ b. has-bit p b ∙ parse_from_bits s 0 p b e ∙ rw (bit-zero (discriminant b)),
    ),
  )
  | inr found ↦ inr found
]

-- The letters kept from the `i`-th on, tested by `q`.
any_kept : (ℕ → Bool) → ℕ → ℕ → Bytes → Bool
any_kept q flags i [] = false
any_kept q flags i (ch ∷ letters) = (q ch && bit i flags) || any_kept q flags (suc i) letters

any-letters_from :
    (q : ℕ → Bool) (flags i : ℕ) (letters : Bytes)
    → any q (letters_from flags i letters) ≡ any_kept q flags i letters
unfolding letters_from any_kept
any-letters_from q flags i [] = refl
any-letters_from q flags i (ch ∷ letters) =
    ground (arith, bit_mask i flags, any-letters_from q flags (suc i) letters)

any_kept-letter :
    (flags : ℕ) (b : PermBit)
    → any_kept (λ ch. letter b == ch) flags 0 letter_order ≡ bit (discriminant b) flags
unfolding any_kept letter
any_kept-letter flags read_my = ground arith
any_kept-letter flags _ = ground arith

first_invalid-letters_from :
    (flags i : ℕ) (letters : Bytes)
    → all is_letter letters ≡ true
    → first_invalid (letters_from flags i letters) ≡ none
unfolding letters_from first_invalid
first_invalid-letters_from flags i [] h = refl
first_invalid-letters_from flags i (ch ∷ letters) h =
    ground (arith, first_invalid-letters_from flags (suc i) letters)

letter_order-is_letter : all is_letter letter_order ≡ true
unfolding is_letter
letter_order-is_letter = refl

occurs-to_letter_string :
    (p : Permissions) (b : PermBit) → occurs (letter b) (to_letter_string p) ≡ has p b
unfolding to_letter_string
occurs-to_letter_string p b =
    any-letters_from (λ ch. letter b == ch) p.raw 0 letter_order
    ∙ any_kept-letter p.raw b
    ∙ sym (has-bit p b)

printed_lem : (p : Permissions) → first_invalid (to_letter_string p) ≡ none
unfolding to_letter_string
printed_lem p = first_invalid-letters_from p.raw 0 letter_order letter_order-is_letter

-- Printing flags and parsing the text gives the same flags.
pub parse-to_letter_string : (p : Permissions) → IsFlags p → parse (to_letter_string p) ≡ parsed p
parse-to_letter_string p h = elim (parse_lem (to_letter_string p)) [
  | inl (valid, (q, e, hq, held)) ↦
      e ∙ ap parsed (eq_of_has q p hq h (λ b. held b ∙ occurs-to_letter_string p b))
  | inr (ch, found, _) ↦ absurd (not_none (printed-valid ∙ found))
]
  where
    printed-valid : none ≡ first_invalid (to_letter_string p)
    printed-valid = sym (printed_lem p)

    not_none : {ch : ℕ} → none ≡ some ch → ⊥
    not_none e = cc
