-- ===== src/Permissions.antt =====
-- crates/sirr-server/src/store/permissions.rs: the 15-bit permission flags and their letters.
pub mod Bits
pub mod Flags
pub mod Letters
use Prim.Native.Nat.{bit_and, bit_or}
use sirr.Prelude.{
  ℕ, zero, suc, ◌+◌, ◌-◌, ◌^◌, ◌≡◌, Bool, not, Option, none, some, List, [], ◌∷◌, ◌++◌, ◌==◌,
  if◌then◌else◌,
}
use sirr.Text.{Bytes, codes}

-- `LETTER_ORDER`.
abbrev pub letter_order : Bytes
letter_order = codes "rRlLcCpPaAmMSdD"

pub data PermBit : Type 0 where
  read_my read_org list_my list_org create create_on_behalf patch_my patch_org : PermBit
  account_read account_read_org account_manage manage_org sirr_admin delete_my delete_org : PermBit

-- `self as u8`.
abbrev pub discriminant : PermBit → ℕ
discriminant read_my = 0
discriminant read_org = 1
discriminant list_my = 2
discriminant list_org = 3
discriminant create = 4
discriminant create_on_behalf = 5
discriminant patch_my = 6
discriminant patch_org = 7
discriminant account_read = 8
discriminant account_read_org = 9
discriminant account_manage = 10
discriminant manage_org = 11
discriminant sirr_admin = 12
discriminant delete_my = 13
discriminant delete_org = 14

-- The bits in the order of their discriminants: what `transmute` makes of 0 to 14.
abbrev pub all_bits : List PermBit
all_bits =
    read_my ∷ read_org ∷ list_my ∷ list_org ∷ create ∷ create_on_behalf ∷ patch_my ∷ patch_org
    ∷ account_read ∷ account_read_org ∷ account_manage ∷ manage_org ∷ sirr_admin ∷ delete_my
    ∷ delete_org ∷ []

-- The bit at the position of the letter: `position` in the letters, `transmute` into the bits.
find_letter : Bytes → List PermBit → ℕ → Option PermBit
find_letter (l ∷ letters) (b ∷ bits) ch = if l == ch then some b else find_letter letters bits ch
find_letter _ _ ch = none

pub from_letter : ℕ → Option PermBit
unfolding find_letter
from_letter ch = find_letter letter_order all_bits ch

pub as_mask : PermBit → ℕ
as_mask b = 2 ^ discriminant b

pub record Permissions : Type 0 where
  pub raw : ℕ

pub data ParseResult : Type 0 where
  parsed : Permissions → ParseResult
  invalid_letter : ℕ → ParseResult

-- `ALL_BITS`.
abbrev pub all_bits_mask : ℕ
all_bits_mask = 2 ^ 15 - 1

abbrev pub no_permissions : Permissions
no_permissions = record { raw = 0 }

abbrev pub all_permissions : Permissions
all_permissions = record { raw = all_bits_mask }

pub from_bits : ℕ → Permissions
from_bits n = record { raw = bit_and n all_bits_mask }

-- The loop of `parse`, from the flags read so far.
parse_from : ℕ → Bytes → ParseResult
parse_from flags [] = parsed (record { raw = flags })
parse_from flags (ch ∷ s) = elim (from_letter ch) [
  | some b ↦ parse_from (bit_or flags (as_mask b)) s
  | none ↦ invalid_letter ch
]

unfoldable pub parse : Bytes → ParseResult
unfolding parse_from from_letter as_mask
parse s = parse_from 0 s

unfoldable pub has : Permissions → PermBit → Bool
unfolding as_mask
has p b = not (bit_and p.raw (as_mask b) == 0)

pub is_subset_of : Permissions → Permissions → Bool
is_subset_of p q = bit_and p.raw q.raw == p.raw

-- The loop of `to_letter_string`: the letters from the `i`-th on.
letters_from : ℕ → ℕ → Bytes → Bytes
letters_from flags i [] = []
letters_from flags i (ch ∷ letters) =
    let rest = letters_from flags (suc i) letters in
    if not (bit_and flags (2 ^ i) == 0) then ch ∷ rest else rest

unfoldable pub to_letter_string : Permissions → Bytes
unfolding letters_from
to_letter_string p = letters_from p.raw 0 letter_order
