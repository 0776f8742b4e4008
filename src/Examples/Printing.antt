-- ===== src/Examples/Printing.antt =====
-- Texts that crates/sirr/src/main.rs prints, at concrete inputs.
use sirr.Text.Decimal.{decimal}
use sirr.Prelude.{some, ◌≡◌, refl}
use sirr.Text.{Bytes, codes}
use sirr.CommandLine.{replace, escaped, is_special, shell_escape, webhooks_path, format_duration}

abbrev dollars : Bytes
dollars = codes "pay $5"

escape-dollars : shell_escape dollars ≡ codes "\"pay \\$5\""
unfolding shell_escape is_special escaped replace
escape-dollars = refl

path-org : webhooks_path (some (codes "acme")) (some (codes "w1")) ≡ codes "orgs/acme/webhooks/w1"
unfolding webhooks_path
path-org = refl

two_days : format_duration 200000 ≡ codes "2d"
unfolding format_duration decimal
two_days = refl
