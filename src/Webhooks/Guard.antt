-- ===== src/Webhooks/Guard.antt =====
-- crates/sirr-server/src/webhooks.rs: the guard against requests to internal addresses. Parsing a URL
-- (`http`), an address (`std`) and a range of addresses (`ipnet`) is a parameter.
use sirr.Prelude.{
  ℕ, Bool, false, not, ◌||◌, Option, none, some, List, [], ◌∷◌, any, reverse, is_empty, ◌==◌,
  if◌then◌else◌,
}
use sirr.Text.{Bytes, codes, bytes_eq, starts_with}

-- The scheme and the host of a URL; `contains range ip` is false for a range that does not parse.
pub record Parsers : Type 1 where
  pub Ip : Type 0
  pub parse_uri : Bytes → Option (Option Bytes × Option Bytes)
  pub parse_ip : Bytes → Option Ip
  pub contains : Bytes → Ip → Bool

-- `BLOCKED_RANGES`.
abbrev pub blocked_ranges : List Bytes
blocked_ranges =
    codes "127.0.0.0/8"
    ∷ codes "10.0.0.0/8"
    ∷ codes "172.16.0.0/12"
    ∷ codes "192.168.0.0/16"
    ∷ codes "169.254.0.0/16"
    ∷ codes "::1/128"
    ∷ codes "fc00::/7"
    ∷ codes "fe80::/10"
    ∷ []

pub data UrlCheck : Type 0 where
  safe not_a_url not_https no_host private_address no_allowlist not_allowed : UrlCheck

abbrev pub is_bracket : ℕ → Bool
is_bracket c = c == b'[' || c == b']'

-- `trim_matches` at the front; the back is the front of the reversed text.
abbrev pub trim_front : Bytes → Bytes
trim_front [] = []
trim_front (c ∷ s) = if is_bracket c then trim_front s else c ∷ s

abbrev pub trim_brackets : Bytes → Bytes
trim_brackets s = reverse (trim_front (reverse (trim_front s)))

module _ (parsers : Parsers) where
  unfoldable pub is_private_ip : parsers.Ip → Bool
  is_private_ip ip = any (λ range. parsers.contains range ip) blocked_ranges

  -- A host that is an address in a blocked range.
  unfoldable pub is_private_host : Bytes → Bool
  is_private_host host = elim (parsers.parse_ip (trim_brackets host)) [
    | none ↦ false
    | some ip ↦ is_private_ip ip
  ]

  unfoldable pub check_host : Bytes → List Bytes → Bytes → UrlCheck
  check_host url allowed_origins host =
      if is_private_host host
      then private_address
      else if is_empty allowed_origins
      then no_allowlist
      else if not (any (λ o. starts_with url o) allowed_origins)
      then not_allowed
      else safe

  unfoldable pub is_https : Option Bytes → Bool
  is_https none = false
  is_https (some scheme) = bytes_eq scheme (codes "https")

  unfoldable pub check_uri : Bytes → List Bytes → Option (Option Bytes × Option Bytes) → UrlCheck
  check_uri url allowed_origins none = not_a_url
  check_uri url allowed_origins (some (scheme, none)) =
      if not (is_https scheme) then not_https else no_host
  check_uri url allowed_origins (some (scheme, some host)) =
      if not (is_https scheme) then not_https else check_host url allowed_origins host

  unfoldable pub validate_webhook_url : Bytes → List Bytes → UrlCheck
  validate_webhook_url url allowed_origins = check_uri url allowed_origins (parsers.parse_uri url)
