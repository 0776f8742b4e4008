-- ===== src/CommandLine.antt =====
-- crates/sirr/src/main.rs: how the client prints values into a file of settings, and the paths that it
-- asks the server for. A text is the list of its characters, as code points.
pub mod Quoting
use sirr.Prelude.{
  ℕ, ◌/◌, Bool, true, false, ◌&&◌, ◌||◌, Option, none, some, List, [], ◌∷◌, ◌++◌, any, leb, ◌==◌,
  if◌then◌else◌,
}
use sirr.Text.{Bytes, codes}
use sirr.Text.Decimal.{decimal}

-- `char::is_whitespace`, by the White_Space property of Unicode.
abbrev pub is_whitespace : ℕ → Bool
is_whitespace c =
    leb 9 c && leb c 13
    || c == 32
    || c == 133
    || c == 160
    || c == 5760
    || leb 8192 c && leb c 8202
    || c == 8232
    || c == 8233
    || c == 8239
    || c == 8287
    || c == 12288

-- White space and `"`, `'`, `\`, `$` and the backquote.
unfoldable pub is_special : ℕ → Bool
is_special c = is_whitespace c || c == 34 || c == 39 || c == 92 || c == 36 || c == 96

-- `s.replace(c, text)`.
unfoldable pub replace : ℕ → List ℕ → List ℕ → List ℕ
replace c text [] = []
replace c text (x ∷ s) = let rest = replace c text s in if x == c then text ++ rest else x ∷ rest

-- A backslash in front of `\`, `"` and `$`.
unfoldable pub escaped : List ℕ → List ℕ
escaped s = replace 36 (92 ∷ 36 ∷ []) (replace 34 (92 ∷ 34 ∷ []) (replace 92 (92 ∷ 92 ∷ []) s))

unfoldable pub shell_escape : List ℕ → List ℕ
shell_escape s = if any is_special s then 34 ∷ escaped s ++ (34 ∷ []) else s

unfoldable pub format_duration : ℕ → Bytes
format_duration secs =
    if leb 86400 secs
    then decimal (secs / 86400) ++ codes "d"
    else if leb 3600 secs
    then decimal (secs / 3600) ++ codes "h"
    else if leb 60 secs
    then decimal (secs / 60) ++ codes "m"
    else decimal secs ++ codes "s"

-- A path of the server, or below one organisation.
abbrev pub under_org : Option Bytes → Bytes → Bytes
under_org none path = path
under_org (some org_id) path = codes "orgs/" ++ org_id ++ codes "/" ++ path

unfoldable pub secrets_path : Option Bytes → Bytes
secrets_path org = under_org org (codes "secrets")

unfoldable pub webhooks_path : Option Bytes → Option Bytes → Bytes
webhooks_path org none = under_org org (codes "webhooks")
webhooks_path org (some id) = under_org org (codes "webhooks") ++ codes "/" ++ id

unfoldable pub prune_path : Option Bytes → Bytes
prune_path org = under_org org (codes "prune")

unfoldable pub audit_path : Option Bytes → Bytes
audit_path org = under_org org (codes "audit")
