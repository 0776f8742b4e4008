-- ===== src/Text.antt =====
-- Strings as the bytes that `str` compares, measures, splits and prefixes, and `format!` joins.
pub mod Decimal
pub mod Utf8
use Prim.Native.Char.{code}
use sirr.Prelude.{
  not, ℕ, zero, suc, ◌+◌, String, ◌≡◌, refl, ◌↔◌, ◌≢◌, Bool, true, false, ◌&&◌, List, [], ◌∷◌, ◌++◌,
  arith, ◌==◌, ap, length, drop, Option, none, some, if◌then◌else◌,
}

-- A byte string; a `&str` is one that holds UTF-8.
abbrev pub Bytes : Type 0
Bytes = List ℕ

-- The bytes of an ASCII literal.
abbrev pub codes : String → Bytes
codes String.[] = []
codes (String.◌∷◌ c s) = code c ∷ codes s

unfoldable pub bytes_eq : Bytes → Bytes → Bool
bytes_eq [] [] = true
bytes_eq (x ∷ xs) (y ∷ ys) = x == y && bytes_eq xs ys
bytes_eq _ _ = false

pub bytes_eq_iff : (a b : Bytes) → (bytes_eq a b ≡ true) ↔ (a ≡ b)
unfolding bytes_eq
bytes_eq_iff [] [] = ground arith
bytes_eq_iff [] (y ∷ ys) = ground arith
bytes_eq_iff (x ∷ xs) [] = ground arith
bytes_eq_iff (x ∷ xs) (y ∷ ys) = ground (arith, bytes_eq_iff xs ys)

-- `str::starts_with`.
unfoldable pub starts_with : Bytes → Bytes → Bool
starts_with s [] = true
starts_with [] (p ∷ ps) = false
starts_with (c ∷ s) (p ∷ ps) = c == p && starts_with s ps

-- `str::strip_prefix`.
unfoldable pub strip_prefix : Bytes → Bytes → Option Bytes
strip_prefix s [] = some s
strip_prefix [] (p ∷ ps) = none
strip_prefix (c ∷ s) (p ∷ ps) = if c == p then strip_prefix s ps else none

pub starts_with-append : (p s : Bytes) → starts_with (p ++ s) p ≡ true
unfolding starts_with
starts_with-append [] [] = refl
starts_with-append [] (c ∷ s) = refl
starts_with-append (c ∷ p) s = ground (arith, starts_with-append p s)

-- What starts with a prefix is that prefix and what is left behind it.
pub append_of_starts_with : (s p : Bytes) → starts_with s p ≡ true → s ≡ p ++ drop (length p) s
unfolding starts_with
append_of_starts_with [] [] h = refl
append_of_starts_with (c ∷ s) [] h = refl
append_of_starts_with [] (p ∷ ps) h = ground arith
append_of_starts_with (c ∷ s) (p ∷ ps) h = ground (arith, append_of_starts_with s ps)

pub strip_prefix-append : (p s : Bytes) → strip_prefix (p ++ s) p ≡ some s
unfolding strip_prefix
strip_prefix-append [] [] = refl
strip_prefix-append [] (c ∷ s) = refl
strip_prefix-append (c ∷ p) s = ground (arith, strip_prefix-append p s)

abbrev pub colon : ℕ
colon = b':'

-- `format!("{a}:{b}")`.
unfoldable pub join_colon : Bytes → Bytes → Bytes
join_colon a b = a ++ colon ∷ b

-- No colon occurs in the text.
abbrev pub no_colon : Bytes → Bool
no_colon [] = true
no_colon (c ∷ s) = not (c == colon) && no_colon s

-- Two joined texts whose first parts hold no colon are equal only part by part.
pub join_colon_injective :
    (a b a' b' : Bytes)
    → no_colon a ≡ true
    → no_colon a' ≡ true
    → join_colon a b ≡ join_colon a' b'
    → (a ≡ a') × (b ≡ b')
unfolding join_colon
join_colon_injective [] b [] b' h h' e = ground arith
join_colon_injective [] b (c ∷ a') b' h h' e = ground arith
join_colon_injective (c ∷ a) b [] b' h h' e = ground arith
join_colon_injective (c ∷ a) b (c' ∷ a') b' h h' e = ground (arith, join_colon_injective a b a' b')

-- A joined text holds a colon, so it is no text without one.
pub join_colon_ne : (a b s : Bytes) → no_colon s ≡ true → s ≢ join_colon a b
unfolding join_colon
join_colon_ne [] b [] h e = ground arith
join_colon_ne [] b (c ∷ s) h e = ground arith
join_colon_ne (x ∷ a) b [] h e = ground arith
join_colon_ne (x ∷ a) b (c ∷ s) h e = ground (arith, join_colon_ne a b s)

pub starts_with-join_self : (a b : Bytes) → starts_with (join_colon a b) (join_colon a []) ≡ true
unfolding join_colon starts_with
starts_with-join_self [] [] = refl
starts_with-join_self [] (c ∷ b) = refl
starts_with-join_self (c ∷ a) b = ground (arith, starts_with-join_self a b)

-- A text without a colon starts with no joined text.
pub starts_with-no_colon :
    (s a b : Bytes) → no_colon s ≡ true → starts_with s (join_colon a b) ≡ false
unfolding join_colon starts_with
starts_with-no_colon [] [] b h = refl
starts_with-no_colon [] (c ∷ a) b h = refl
starts_with-no_colon (x ∷ s) [] b h = ground arith
starts_with-no_colon (x ∷ s) (c ∷ a) b h = ground (arith, starts_with-no_colon s a b)

-- A joined text starts with the prefix of another first part exactly if the first parts agree.
pub starts_with-join_colon :
    (a a' b : Bytes)
    → no_colon a ≡ true
    → no_colon a' ≡ true
    → starts_with (join_colon a b) (join_colon a' []) ≡ bytes_eq a a'
unfolding join_colon starts_with bytes_eq
starts_with-join_colon [] [] [] h h' = ground arith
starts_with-join_colon [] [] (c ∷ b) h h' = ground arith
starts_with-join_colon [] (c ∷ a') b h h' = ground arith
starts_with-join_colon (c ∷ a) [] b h h' = ground arith
starts_with-join_colon (c ∷ a) (c' ∷ a') b h h' = ground (arith, starts_with-join_colon a a' b)
