-- ===== src/Webhooks/Sender.antt =====
-- crates/sirr-server/src/webhooks.rs, `WebhookSender`: what is delivered where. The request over HTTP,
-- its signature and the detail of an event (`serde_json`) are left out.
use sirr.Prelude.{
  ℤ, Bool, true, ◌&&◌, Option, none, some, List, [], ◌∷◌, map, select, any, ◌≡◌, refl, sym, ap,
  subst, ◌∙◌, arith, Bool-cases, inl, inr,
}
use sirr.Text.{Bytes, bytes_eq, bytes_eq_iff}
use sirr.Result.{Result, ok, err, >>=-eq-ok, ok_injective}
use sirr.Records.{WebhookRegistration}
use sirr.External.Keys.{bytes_key}
use sirr.External.Tables.{lookup}
use sirr.Database.{Env, Db}
use sirr.Webhooks.{registrations, list_webhooks, matches_event}
use sirr.Webhooks.Guard.{Parsers, UrlCheck, safe, validate_webhook_url}

pub record WebhookEvent : Type 0 where
  pub event : Bytes
  pub key : Bytes
  pub timestamp : ℤ
  pub instance_id : Bytes

-- A call of `deliver`: the URL, the event and the key of the signature.
pub record Delivery : Type 0 where
  pub url : Bytes
  pub payload : WebhookEvent
  pub hmac_secret : Bytes

pub record WebhookSender : Type 0 where
  pub instance_id : Bytes
  pub per_secret_signing_key : Option Bytes
  pub allowed_origins : List Bytes

abbrev pub event_of : WebhookSender → ℤ → Bytes → Bytes → WebhookEvent
event_of sender now event_type key = record {
  event = event_type;
  key = key;
  timestamp = now;
  instance_id = sender.instance_id;
}

abbrev pub delivery_to : WebhookEvent → WebhookRegistration → Delivery
delivery_to payload reg = record { url = reg.url; payload = payload; hmac_secret = reg.secret }

-- The registrations that take the event.
abbrev pub takes : Bytes → WebhookRegistration → Bool
takes event_type reg = matches_event reg.events event_type

abbrev pub deliveries : WebhookEvent → Bytes → Result (List WebhookRegistration) → List Delivery
deliveries payload event_type (err e) = []
deliveries payload event_type (ok regs) = map (delivery_to payload) (select (takes event_type) regs)

unfoldable pub fire : (env : Env) → WebhookSender → ℤ → Bytes → Bytes → Db env → List Delivery
fire env sender now event_type key db =
    deliveries (event_of sender now event_type key) event_type (list_webhooks env db)

-- A URL that passes the guard, which is asked once more.
abbrev pub if_safe : UrlCheck → Delivery → List Delivery
if_safe safe d = d ∷ []
if_safe _ d = []

unfoldable pub fire_for_url : Parsers → WebhookSender → ℤ → Bytes → Bytes → Bytes → List Delivery
fire_for_url parsers sender now url event_type key = elim sender.per_secret_signing_key [
  | none ↦ []
  | some signing_key ↦ if_safe (validate_webhook_url parsers url sender.allowed_origins) (record {
    url = url;
    payload = event_of sender now event_type key;
    hmac_secret = signing_key;
  })
]

-- A delivery of the key of a secret to a URL is among the deliveries.
unfoldable pub tells : Bytes → Bytes → List Delivery → Bool
tells url key ds = any (λ d. bytes_eq d.url url && bytes_eq d.payload.key key) ds

bytes_eq_refl : (s : Bytes) → bytes_eq s s ≡ true
bytes_eq_refl s = (bytes_eq_iff s s).1 refl

module _ (payload : WebhookEvent) (event_type : Bytes) where
  -- The registrations that take the event are Told of the key.
  abbrev pub Told : Bytes → List WebhookRegistration → Type 0
  Told url regs =
      tells url payload.key (map (delivery_to payload) (select (takes event_type) regs)) ≡ true

  Told-first :
      (reg : WebhookRegistration) (rest : List WebhookRegistration)
      → takes event_type reg ≡ true
      → Told reg.url (reg ∷ rest)
  unfolding tells
  Told-first reg rest match =
      rw match (rw (bytes_eq_refl reg.url) (rw (bytes_eq_refl payload.key) refl))

  Told-later :
      (url : Bytes) (first : WebhookRegistration) (rest : List WebhookRegistration)
      → Told url rest
      → Told url (first ∷ rest)
  unfolding tells
  Told-later url first rest h = elim (Bool-cases (takes event_type first)) [
    | inl y ↦ rw y (ground (arith, h))
    | inr n ↦ rw n h
  ]

  pub Told-registered :
      (env : Env) (id bytes : Bytes) (reg : WebhookRegistration) (entries : List (Bytes × Bytes))
      (regs : List WebhookRegistration)
      → lookup bytes_key id entries ≡ some bytes
      → env.webhook_codec.decode bytes ≡ ok reg
      → takes event_type reg ≡ true
      → registrations env entries ≡ ok regs
      → Told reg.url regs
  unfolding registrations lookup
  Told-registered env id bytes reg [] regs at dec match h = absurd (ground (arith, at))
  Told-registered env id bytes reg ((k, b) ∷ entries) regs at dec match h =
      let (first, dec', h') = >>=-eq-ok (env.webhook_codec.decode b) _ h in
      let (rest, found, h'') = >>=-eq-ok (registrations env entries) _ h' in
      subst (Told reg.url) (ok_injective h'') (elim (Bool-cases (bytes_eq k id)) [
        | inl here ↦
            subst (λ r. Told reg.url (r ∷ rest))
              (ok_injective (sym dec ∙ ap env.webhook_codec.decode (stored here) ∙ dec'))
              (Told-first reg rest match)
        | inr there ↦ Told-later reg.url first rest (
            Told-registered env id bytes reg entries rest (ground (arith, at, there)) dec match
              found)
      ])
    where
      stored : bytes_eq k id ≡ true → bytes ≡ b
      stored here = ground (arith, at, here)
