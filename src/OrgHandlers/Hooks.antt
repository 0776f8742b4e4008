-- ===== src/OrgHandlers/Hooks.antt =====
-- crates/sirr-server/src/org_handlers.rs: the audit events and the webhooks of an organisation. The
-- identifier and the signing secret of a webhook are drawn at random and are arguments.
use sirr.Prelude.{
  ℕ, ℤ, Bool, true, false, not, ◌&&◌, Option, none, some, List, [], ◌∷◌, ◌++◌, map, min, leb,
}
use sirr.Text.{Bytes, codes, starts_with}
use sirr.Result.{Result, ok, err}
use sirr.Permissions.{manage_org}
use sirr.Records.{AuditEvent, AuditQuery, WebhookRegistration}
use sirr.Database.{Env, Db}
use sirr.Audit.{list_audit}
use sirr.Webhooks.{put_webhook, list_webhooks_for_org, delete_webhook, count_webhooks_for_org}
use sirr.Auth.{ResolvedAuth, is_master, auth_has}
use sirr.OrgHandlers.{
  AppState, Caller, Reply, forbidden, internal_error, missing, deleted, bad_request, bad_url,
  too_many_webhooks, shown_events, created_webhook, shown_webhooks, ShownWebhook, in_org, reject_if,
  ◌<|>◌, unless_ended, log,
}

-- `MAX_WEBHOOKS`.
abbrev pub max_webhooks : ℕ
max_webhooks = 10

pub record OrgAuditQueryParams : Type 0 where
  pub since : Option ℤ
  pub until : Option ℤ
  pub action : Option Bytes
  pub limit : Option ℕ

abbrev pub or_hundred : Option ℕ → ℕ
or_hundred none = 100
or_hundred (some n) = n

pub record CreateOrgWebhookRequest : Type 0 where
  pub url : Bytes
  pub events : Option (List Bytes)

-- No events given: all of them.
abbrev pub or_all_events : Option (List Bytes) → List Bytes
or_all_events none = codes "*" ∷ []
or_all_events (some events) = events

-- The two permission checks in front of the audit events and the webhooks.
unfoldable pub check_manager : ResolvedAuth → Bytes → Option Reply
check_manager auth org_id =
    reject_if (not (in_org auth org_id) && not (is_master auth)) forbidden
    <|> reject_if (not (is_master auth) && not (auth_has auth manage_org)) forbidden

abbrev pub check_url : Bytes → Option Reply
check_url url =
    reject_if (not (starts_with url (codes "http://")) && not (starts_with url (codes "https://")))
      (bad_request bad_url)

abbrev pub check_count : Result ℕ → Option Reply
check_count (ok count) = reject_if (leb max_webhooks count) too_many_webhooks
check_count (err e) = some internal_error

abbrev pub shown_webhook : WebhookRegistration → ShownWebhook
shown_webhook r = record { id = r.id; url = r.url; events = r.events; created_at = r.created_at }

module _ (env : Env) where
  -- The key of an event, redacted; `digest` is the first eight hex digits of its hash.
  abbrev pub redact_key : (Bytes → Bytes) → Option Bytes → Option Bytes
  redact_key digest none = none
  redact_key digest (some k) = some (codes "sha256:" ++ digest k)

  abbrev pub redact : (Bytes → Bytes) → AuditEvent → AuditEvent
  redact digest e = record e { key = redact_key digest e.key }

  abbrev pub answer_events : (Bytes → Bytes) → Bool → Result (List AuditEvent) → Reply
  answer_events digest true (ok events) = shown_events (map (redact digest) events)
  answer_events digest false (ok events) = shown_events events
  answer_events digest redacted (err e) = internal_error

  abbrev pub org_query : Bytes → OrgAuditQueryParams → AuditQuery
  org_query org_id params = record {
    since = params.since;
    until = params.until;
    action = params.action;
    limit = min (or_hundred params.limit) 1000;
    org_id = some org_id;
  }

  unfoldable pub org_audit_events :
      AppState → (Bytes → Bytes) → ResolvedAuth → Bytes → OrgAuditQueryParams → Db env → Reply
  org_audit_events state digest auth org_id params db =
      unless_ended (check_manager auth org_id) (λ r. r)
        (answer_events digest state.redact_audit_keys (list_audit env (org_query org_id params) db))

  unfoldable pub create_webhook_checks :
      ResolvedAuth → Bytes → CreateOrgWebhookRequest → Db env → Option Reply
  create_webhook_checks auth org_id body db =
      check_manager auth org_id
      <|> check_url body.url
      <|> check_count (count_webhooks_for_org env org_id db)

  unfoldable pub store_webhook : Caller → Bytes → WebhookRegistration → Db env → Reply × Db env
  store_webhook caller org_id reg db =
      let (r, db') = put_webhook env reg db in
      elim r [
        | ok _ ↦ (
          created_webhook reg.id reg.secret,
          log env caller (codes "webhook.create") none true (some (codes "id=" ++ reg.id))
              (some org_id) db',
        )
        | err e ↦ (internal_error, db')
      ]

  unfoldable pub create_org_webhook :
      Caller → ℤ → Bytes → Bytes → Bytes → CreateOrgWebhookRequest → Db env → Reply × Db env
  create_org_webhook caller now id secret org_id body db =
      unless_ended (create_webhook_checks caller.auth org_id body db) (λ r. (r, db))
        (store_webhook caller org_id
          (record {
            id = id;
            url = body.url;
            secret = secret;
            events = or_all_events body.events;
            created_at = now;
            org_id = some org_id;
          })
          db)

  abbrev pub answer_webhooks : Result (List WebhookRegistration) → Reply
  answer_webhooks (ok regs) = shown_webhooks (map shown_webhook regs)
  answer_webhooks (err e) = internal_error

  unfoldable pub list_org_webhooks : ResolvedAuth → Bytes → Db env → Reply
  list_org_webhooks auth org_id db =
      unless_ended (check_manager auth org_id) (λ r. r)
        (answer_webhooks (list_webhooks_for_org env org_id db))

  unfoldable pub answer_delete_webhook :
      Caller → Bytes → Bytes → Result Bool → Db env → Reply × Db env
  answer_delete_webhook caller org_id id (ok true) db = (
    deleted,
    log env caller (codes "webhook.delete") none true (some (codes "id=" ++ id)) (some org_id) db,
  )
  answer_delete_webhook caller org_id id (ok false) db = (missing (codes "webhook not found"), db)
  answer_delete_webhook caller org_id id (err e) db = (internal_error, db)

  unfoldable pub delete_org_webhook : Caller → Bytes → Bytes → Db env → Reply × Db env
  delete_org_webhook caller org_id id db =
      unless_ended (check_manager caller.auth org_id) (λ r. (r, db))
        (let (r, db') = delete_webhook env id db in answer_delete_webhook caller org_id id r db')
