-- ===== src/OrgHandlers/Client.antt =====
-- crates/sirr-server/src/org_handlers.rs, `extract_ip`, which handlers.rs has once more: the address of
-- the client. Addresses and networks (`ipnet`) are parameters; `HeaderValue::to_str` succeeds on visible
-- ASCII, spaces and tabs, of which `trim` takes spaces and tabs.
use sirr.Prelude.{
  Bool, false, not, ◌&&◌, ◌||◌, Option, none, some, List, [], ◌∷◌, ◌≡◌, ◌≢◌, refl, arith, any,
  reverse, is_empty, ◌==◌, if◌then◌else◌, Bool-cases, inl, inr,
}
use sirr.Text.{Bytes}

-- `contains net ip` of a network, and an address as text.
pub record Networks : Type 1 where
  pub Ip : Type 0
  pub Net : Type 0
  pub contains : Net → Ip → Bool
  pub to_text : Ip → Bytes

-- The headers "x-forwarded-for" and "x-real-ip", where they are text.
pub record Headers : Type 0 where
  pub forwarded_for : Option Bytes
  pub real_ip : Option Bytes

-- The text up to the first comma: the first part of `split(',')`, which has one always.
unfoldable pub first_part : Bytes → Bytes
first_part [] = []
first_part (c ∷ s) = if c == b',' then [] else c ∷ first_part s

unfoldable pub trim_start : Bytes → Bytes
trim_start [] = []
trim_start (c ∷ s) = if c == 32 || c == 9 then trim_start s else c ∷ s

unfoldable pub trim : Bytes → Bytes
trim s = reverse (trim_start (reverse (trim_start s)))

-- A text that is not empty.
abbrev pub if_some_text : Bytes → Option Bytes
if_some_text s = if is_empty s then none else some s

abbrev pub or_text : Option Bytes → Bytes → Bytes
or_text none other = other
or_text (some s) other = s

unfoldable pub from_forwarded : Option Bytes → Option Bytes
from_forwarded none = none
from_forwarded (some xff) = if_some_text (trim (first_part xff))

unfoldable pub from_real_ip : Option Bytes → Option Bytes
from_real_ip none = none
from_real_ip (some ip) = if_some_text (trim ip)

if_some_text-nonempty : (s : Bytes) {t : Bytes} → if_some_text s ≡ some t → t ≢ []
if_some_text-nonempty [] h e = ground arith
if_some_text-nonempty (c ∷ s) h e = ground arith

-- Two texts that may be there and one that is: what is chosen is not empty if none of them is.
chosen-nonempty :
    (a b : Option Bytes) (s : Bytes)
    → ((t : Bytes) → a ≡ some t → t ≢ [])
    → ((t : Bytes) → b ≡ some t → t ≢ [])
    → s ≢ []
    → or_text a (or_text b s) ≢ []
chosen-nonempty (some a) b s h h' n = h a refl
chosen-nonempty none (some b) s h h' n = h' b refl
chosen-nonempty none none s h h' n = n

from_forwarded-nonempty : (o : Option Bytes) (t : Bytes) → from_forwarded o ≡ some t → t ≢ []
unfolding from_forwarded
from_forwarded-nonempty none t h = absurd (ground (arith, h))
from_forwarded-nonempty (some xff) t h = if_some_text-nonempty (trim (first_part xff)) h

from_real_ip-nonempty : (o : Option Bytes) (t : Bytes) → from_real_ip o ≡ some t → t ≢ []
unfolding from_real_ip
from_real_ip-nonempty none t h = absurd (ground (arith, h))
from_real_ip-nonempty (some ip) t h = if_some_text-nonempty (trim ip) h

module _ (networks : Networks) where
  unfoldable pub is_trusted : List networks.Net → networks.Ip → Bool
  is_trusted trusted_proxies peer =
      not (is_empty trusted_proxies) && any (λ net. networks.contains net peer) trusted_proxies

  unfoldable pub extract_ip : Headers → networks.Ip → List networks.Net → Bytes
  extract_ip headers peer trusted_proxies =
      if is_trusted trusted_proxies peer
      then or_text (from_forwarded headers.forwarded_for)
          (or_text (from_real_ip headers.real_ip) (networks.to_text peer))
      else networks.to_text peer

  -- A client that no trusted network contains is known by its own address, whatever headers it sends;
  -- and no request is recorded with an empty address if addresses are not empty as text.
  pub extract_ip_lem :
      (headers : Headers) (peer : networks.Ip) (trusted_proxies : List networks.Net)
      → ((ip : networks.Ip) → networks.to_text ip ≢ [])
      → (is_trusted trusted_proxies peer ≡ false
          → extract_ip headers peer trusted_proxies ≡ networks.to_text peer)
        × (extract_ip headers peer trusted_proxies ≢ [])
  unfolding extract_ip
  extract_ip_lem headers peer trusted_proxies h = (
    λ u. rw u refl,
    elim (Bool-cases (is_trusted trusted_proxies peer)) [
      | inl t ↦ rw t (
          chosen-nonempty (from_forwarded headers.forwarded_for) (from_real_ip headers.real_ip)
            (networks.to_text peer) (from_forwarded-nonempty headers.forwarded_for)
            (from_real_ip-nonempty headers.real_ip) (h peer))
      | inr f ↦ rw f (h peer)
    ],
  )
