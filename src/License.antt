-- ===== src/License.antt =====
-- crates/sirr-server/src/license.rs: license keys, tiers and their limits.
use sirr.Prelude.{
  ℕ, ◌≡◌, ◌↔◌, Bool, true, not, ◌&&◌, ◌||◌, Option, none, some, [], ◌∷◌, length, drop, leb, ◌==◌,
  all, ==_iff, arith, if◌then◌else◌,
}
use sirr.Text.{Bytes, codes, starts_with}

-- `KEY_PREFIX` and `KEY_HEX_LEN`.
abbrev pub key_prefix : Bytes
key_prefix = codes "sirr_lic_"

abbrev pub key_hex_len : ℕ
key_hex_len = 40

pub data LicenseTier : Type 0 where
  solo team business enterprise : LicenseTier

abbrev pub max_orgs : LicenseTier → Option ℕ
max_orgs solo = some 1
max_orgs team = some 1
max_orgs business = none
max_orgs enterprise = none

abbrev pub max_principals_per_org : LicenseTier → Option ℕ
max_principals_per_org solo = some 1
max_principals_per_org team = none
max_principals_per_org business = none
max_principals_per_org enterprise = none

-- Why a key is invalid: the message of `Invalid`.
pub data BadKey : Type 0 where
  bad_prefix : BadKey
  bad_length : ℕ → BadKey
  not_hex : BadKey

pub data LicenseStatus : Type 0 where
  free : LicenseStatus
  licensed : LicenseTier → LicenseStatus
  invalid : BadKey → LicenseStatus

-- `char::is_ascii_hexdigit`; a byte of a longer character is none.
unfoldable pub is_hex_digit : ℕ → Bool
is_hex_digit c = leb b'0' c && leb c b'9' || (leb b'a' c && leb c b'f' || leb b'A' c && leb c b'F')

unfoldable pub check_format : Bytes → LicenseStatus
check_format key =
    if not (starts_with key key_prefix)
    then invalid bad_prefix
    else let hex_part = drop (length key_prefix) key in
      if not (length hex_part == key_hex_len)
      then invalid (bad_length (length hex_part))
      else if not (all is_hex_digit hex_part)
      then invalid not_hex
      else licensed business

unfoldable pub effective_status : Option Bytes → LicenseStatus
effective_status none = free
effective_status (some []) = free
effective_status (some (c ∷ key)) = check_format (c ∷ key)

abbrev pub effective_tier : LicenseStatus → LicenseTier
effective_tier free = solo
effective_tier (licensed tier) = tier
effective_tier (invalid reason) = solo

-- A configured key is licensed exactly if it is the prefix and forty hex digits behind it; the tier is
-- then the one without limits on organisations and principals.
pub effective_status_lem :
    (key : Bytes)
    → (effective_status (some key) ≡ licensed business) ↔ (
        (starts_with key key_prefix ≡ true)
        × (length (drop (length key_prefix) key) ≡ key_hex_len)
        × (all is_hex_digit (drop (length key_prefix) key) ≡ true))
unfolding effective_status check_format
effective_status_lem [] = ground arith
effective_status_lem (c ∷ key) =
    ground (arith, ==_iff (length (drop (length key_prefix) (c ∷ key))) key_hex_len)
