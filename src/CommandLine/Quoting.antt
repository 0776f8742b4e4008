-- ===== src/CommandLine/Quoting.antt =====
-- crates/sirr/src/main.rs, `shell_escape`: how the value is got back from what is printed.
use sirr.Prelude.{
  ℕ, Bool, true, false, Option, none, some, List, [], ◌∷◌, is_empty, ◌==◌, if◌then◌else◌,
}

abbrev pub with_char : ℕ → Option (List ℕ) → Option (List ℕ)
with_char c none = none
with_char c (some s) = some (c ∷ s)

-- What stands between double quotes, up to the closing one, which has to be the last character. A `$`
-- has a backslash in front, and a backslash makes the next character stand for itself; whether there
-- was one is the first argument.
unfoldable pub inside : Bool → List ℕ → Option (List ℕ)
inside after_backslash [] = none
inside true (c ∷ s) = with_char c (inside false s)
inside false (c ∷ s) =
    let rest = inside false s in
    let next = inside true s in
    if c == 34
    then (if is_empty s then some [] else none)
    else if c == 92
    then next
    else if c == 36
    then none
    else with_char c rest

-- The value of a text that may be quoted.
unfoldable pub unquoted : List ℕ → Option (List ℕ)
unquoted [] = some []
unquoted (c ∷ s) = if c == 34 then inside false s else some (c ∷ s)
