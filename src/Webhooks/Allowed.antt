-- ===== src/Webhooks/Allowed.antt =====
-- crates/sirr-server/src/webhooks.rs, `validate_webhook_url`: which URLs the guard lets through.
use sirr.Prelude.{
  true, false, Option, none, some, List, [], ◌∷◌, ◌++◌, ◌≡◌, ◌↔◌, ◌⊎◌, refl, ap, ◌∙◌, any, arith,
  Bool-cases, Option-cases, inl, inr,
}
use sirr.Text.{
  Bytes, codes, bytes_eq, starts_with, starts_with-append, append_of_starts_with, bytes_eq_iff,
}
use sirr.Webhooks.Brackets.{IsBare, trim_brackets-IsBare, IsBare-trim_brackets}
use sirr.Webhooks.Guard.{
  Parsers, trim_brackets, is_private_ip, is_private_host, check_host, check_uri, is_https, safe,
  validate_webhook_url,
}

-- An element of a list.
abbrev pub IsIn : Bytes → List Bytes → Type 0
IsIn x [] = ⊥
IsIn x (y ∷ ys) = (x ≡ y) ⊎ IsIn x ys

-- A URL that begins with one of the origins.
abbrev pub HasOrigin : Bytes → List Bytes → Type 0
HasOrigin url origins = (o : Bytes) × IsIn o origins × ((rest : Bytes) × (url ≡ o ++ rest))

origin_found :
    (url : Bytes) (origins : List Bytes)
    → any (λ o. starts_with url o) origins ≡ true
    → HasOrigin url origins
origin_found url [] h = absurd (ground (arith, h))
origin_found url (x ∷ origins) h = elim (Bool-cases (starts_with url x)) [
  | inl y ↦ (x, inl refl, (_, append_of_starts_with url x y))
  | inr n ↦ let (o, i, rest) = origin_found url origins (ground (arith, h, n)) in (o, inr i, rest)
]

found_origin :
    (url : Bytes) (origins : List Bytes)
    → HasOrigin url origins
    → any (λ o. starts_with url o) origins ≡ true
found_origin url [] (o, i, rest) = absurd i
found_origin url (x ∷ origins) (o, inl e, (rest, u)) =
    let here : starts_with url x ≡ true =
      ap (λ t. starts_with t x) (u ∙ ap (λ t. t ++ rest) e) ∙ starts_with-append x rest in
    ground (arith, here)
found_origin url (x ∷ origins) (o, inr i, rest) =
    ground (arith, found_origin url origins (o, i, rest))

any_origin_iff :
    (url : Bytes) (origins : List Bytes)
    → (any (λ o. starts_with url o) origins ≡ true) ↔ HasOrigin url origins
any_origin_iff url origins = (origin_found url origins, found_origin url origins)

module _ (parsers : Parsers) where
  -- A loopback, private, link-local or unique local address.
  abbrev pub IsInternal : parsers.Ip → Type 0
  IsInternal ip =
      (parsers.contains (codes "127.0.0.0/8") ip ≡ true)
      ⊎ (parsers.contains (codes "10.0.0.0/8") ip ≡ true)
      ⊎ (parsers.contains (codes "172.16.0.0/12") ip ≡ true)
      ⊎ (parsers.contains (codes "192.168.0.0/16") ip ≡ true)
      ⊎ (parsers.contains (codes "169.254.0.0/16") ip ≡ true)
      ⊎ (parsers.contains (codes "::1/128") ip ≡ true)
      ⊎ (parsers.contains (codes "fc00::/7") ip ≡ true)
      ⊎ (parsers.contains (codes "fe80::/10") ip ≡ true)

  is_private_ip_iff : (ip : parsers.Ip) → (is_private_ip parsers ip ≡ true) ↔ IsInternal ip
  unfolding is_private_ip
  is_private_ip_iff ip = ground arith

  -- A host that, without the brackets around it, is no address or one that is not internal.
  abbrev pub IsPublic : Bytes → Type 0
  IsPublic host =
      (bare : Bytes) × IsBare host bare
      × ((parsers.parse_ip bare ≡ none)
          ⊎ ((ip : parsers.Ip) × (parsers.parse_ip bare ≡ some ip) × (¬ IsInternal ip)))

  public_ip_iff : (ip : parsers.Ip) → (is_private_ip parsers ip ≡ false) ↔ (¬ IsInternal ip)
  public_ip_iff ip = (
    λ h i. ground (arith, h, (is_private_ip_iff ip).1 i),
    λ h. elim (Bool-cases (is_private_ip parsers ip)) [
      | inl y ↦ absurd (h ((is_private_ip_iff ip).0 y))
      | inr n ↦ n
    ],
  )

  is_private_host_iff : (host : Bytes) → (is_private_host parsers host ≡ false) ↔ IsPublic host
  unfolding is_private_host
  is_private_host_iff host = (forward, backward)
    where
      forward : is_private_host parsers host ≡ false → IsPublic host
      forward h = elim (Option-cases (parsers.parse_ip (trim_brackets host))) [
        | inl e ↦ (trim_brackets host, trim_brackets-IsBare host, inl e)
        | inr (ip, e) ↦
            let outside : is_private_ip parsers ip ≡ false = ground (arith, h, e) in
            (
              trim_brackets host,
              trim_brackets-IsBare host,
              inr (ip, e, (public_ip_iff ip).0 outside),
            )
      ]

      backward : IsPublic host → is_private_host parsers host ≡ false
      backward (bare, b, inl e) =
          rw (ap parsers.parse_ip (IsBare-trim_brackets host bare b) ∙ e, is_private_host) refl
      backward (bare, b, inr (ip, e, h)) =
          rw (ap parsers.parse_ip (IsBare-trim_brackets host bare b) ∙ e, is_private_host)
            ((public_ip_iff ip).1 h)

  check_host_safe :
      (url : Bytes) (allowed_origins : List Bytes) (host : Bytes)
      → (check_host parsers url allowed_origins host ≡ safe) ↔ (
          (is_private_host parsers host ≡ false)
          × (any (λ o. starts_with url o) allowed_origins ≡ true))
  unfolding check_host
  check_host_safe url [] host = ground arith
  check_host_safe url (o ∷ origins) host = ground arith

  check_uri_safe :
      (url : Bytes) (allowed_origins : List Bytes) (uri : Option (Option Bytes × Option Bytes))
      → check_uri parsers url allowed_origins uri ≡ safe
      → (host : Bytes) × (uri ≡ some (some (codes "https"), some host))
        × (is_private_host parsers host ≡ false)
        × (any (λ o. starts_with url o) allowed_origins ≡ true)
  unfolding check_uri is_https
  check_uri_safe url origins none h = absurd (ground (arith, h))
  check_uri_safe url origins (some (none, none)) h = absurd (ground (arith, h))
  check_uri_safe url origins (some (none, some host)) h = absurd (ground (arith, h))
  check_uri_safe url origins (some (some scheme, none)) h = absurd (ground (arith, h))
  check_uri_safe url origins (some (some scheme, some host)) h =
      elim (Bool-cases (bytes_eq scheme (codes "https"))) [
        | inl secure ↦
            let accepted = (check_host_safe url origins host).0 (ground (arith, h, secure)) in
            (
              host,
              ap (λ s. some (some s, some host)) ((bytes_eq_iff scheme (codes "https")).0 secure),
              accepted.0,
              accepted.1,
            )
        | inr other ↦ absurd (ground (arith, h, other))
      ]

  -- A URL is accepted exactly if it parses with the scheme https and a host, begins with one of the
  -- allowed origins, and its host, without the brackets at its ends, is no address or an address that
  -- is in none of these ranges: 127.0.0.0/8, 10.0.0.0/8, 172.16.0.0/12, 192.168.0.0/16,
  -- 169.254.0.0/16, ::1/128, fc00::/7 and fe80::/10.
  pub validate_webhook_url_lem :
      (url : Bytes) (allowed_origins : List Bytes)
      → (validate_webhook_url parsers url allowed_origins ≡ safe) ↔ (
          (host : Bytes) × (parsers.parse_uri url ≡ some (some (codes "https"), some host))
          × IsPublic host
          × HasOrigin url allowed_origins)
  unfolding validate_webhook_url check_uri is_https
  validate_webhook_url_lem url allowed_origins = (
    λ h.
        let (host, e, outside, origin) =
          check_uri_safe url allowed_origins (parsers.parse_uri url) h in
        (
          host,
          e,
          (is_private_host_iff host).0 outside,
          (any_origin_iff url allowed_origins).0 origin,
        ),
    λ (host, e, outside, origin).
        rw (e, validate_webhook_url)
          (rw ((bytes_eq_iff (codes "https") (codes "https")).1 refl) (
            (check_host_safe url allowed_origins host).1 (
              (is_private_host_iff host).1 outside,
              (any_origin_iff url allowed_origins).1 origin,
            ))),
  )
