-- ===== src/Text/Utf8.antt =====
-- `String::from_utf8`: the check of a byte string by the table of well-formed UTF-8 sequences.
use sirr.Prelude.{
  ℕ, zero, suc, Bool, true, false, ◌&&◌, [], ◌∷◌, Option, none, some, leb, ltb, ◌==◌, ◌≡◌, refl,
  if◌then◌else◌,
}
use sirr.Text.{Bytes, codes}

-- How many continuation bytes follow, and the range of the first of them; `none` for a byte that
-- starts no sequence.
abbrev lead : ℕ → Option (ℕ × ℕ × ℕ)
lead b =
    if ltb b 0x80
    then some (0, 0x80, 0xbf)
    else if ltb b 0xc2
    then none
    else if ltb b 0xe0
    then some (1, 0x80, 0xbf)
    else if b == 0xe0
    then some (2, 0xa0, 0xbf)
    else if b == 0xed
    then some (2, 0x80, 0x9f)
    else if ltb b 0xf0
    then some (2, 0x80, 0xbf)
    else if b == 0xf0
    then some (3, 0x90, 0xbf)
    else if ltb b 0xf4
    then some (3, 0x80, 0xbf)
    else if b == 0xf4
    then some (3, 0x80, 0x8f)
    else none

-- `need` continuation bytes are awaited, the next one between `lo` and `hi`.
scan_utf8 : ℕ → ℕ → ℕ → Bytes → Bool
scan_utf8 zero lo hi [] = true
scan_utf8 (suc need) lo hi [] = false
scan_utf8 zero lo hi (b ∷ s) = elim (lead b) [
  | none ↦ false
  | some (need, lo', hi') ↦ scan_utf8 need lo' hi' s
]
scan_utf8 (suc need) lo hi (b ∷ s) = elim (leb lo b && leb b hi) [
  | true ↦ scan_utf8 need 0x80 0xbf s
  | false ↦ false
]

unfoldable pub is_utf8 : Bytes → Bool
unfolding scan_utf8
is_utf8 s = scan_utf8 0 0x80 0xbf s

unfoldable pub from_utf8 : Bytes → Option Bytes
unfolding is_utf8
from_utf8 s = if is_utf8 s then some s else none

ascii_is_utf8 : is_utf8 (codes "hello, sirr!") ≡ true
unfolding is_utf8
ascii_is_utf8 = refl

euro_is_utf8 : is_utf8 (0xe2 ∷ 0x82 ∷ 0xac ∷ []) ≡ true
unfolding is_utf8
euro_is_utf8 = refl

surrogate_is_not_utf8 : is_utf8 (0xed ∷ 0xa0 ∷ 0x80 ∷ []) ≡ false
unfolding is_utf8
surrogate_is_not_utf8 = refl
