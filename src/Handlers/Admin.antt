-- ===== src/Handlers/Admin.antt =====
-- crates/sirr-server/src/handlers.rs: the other requests on the public bucket. All but the reading of
-- metadata stand behind `require_master_key`, so they take no identity.
use sirr.Prelude.{
  ℕ, ℤ, min, Bool, true, false, not, ◌&&◌, Option, none, some, List, [], ◌++◌, map, length, leb,
  if◌then◌else◌,
}
use sirr.Text.{Bytes, codes, starts_with}
use sirr.Text.Decimal.{decimal}
use sirr.Result.{Result, ok, err}
use sirr.Records.{SecretMeta, AuditEvent, WebhookRegistration}
use sirr.Database.{Env, Db}
use sirr.Secrets.{head}
use sirr.Secrets.Scan.{list, prune}
use sirr.Audit.{new_event, record_audit, list_audit}
use sirr.License.{LicenseStatus, free}
use sirr.Webhooks.{put_webhook, list_webhooks, delete_webhook, count_webhooks}
use sirr.Handlers.{Fired, fire, validate_key_name}
use sirr.OrgHandlers.{ShownWebhook}
use sirr.OrgHandlers.Hooks.{max_webhooks, or_hundred, or_all_events, shown_webhook, redact}
use sirr.OrgHandlers.Secrets.{reads_remaining}

pub data AdminReply : Type 0 where
  bad_key_name missing internal_error license_required bad_url too_many_webhooks : AdminReply
  deleted_webhook webhook_missing : AdminReply
  head_of : SecretMeta → Option ℕ → Bool → AdminReply
  pruned : ℕ → AdminReply
  shown_secrets : List SecretMeta → AdminReply
  shown_events : List AuditEvent → AdminReply
  created_webhook : Bytes → Bytes → AdminReply
  shown_webhooks : List ShownWebhook → AdminReply

pub record CreateWebhookRequest : Type 0 where
  pub url : Bytes
  pub events : Option (List Bytes)

pub record AuditQueryParams : Type 0 where
  pub since : Option ℤ
  pub until : Option ℤ
  pub action : Option Bytes
  pub limit : Option ℕ

-- `matches!(license, Free)`.
abbrev pub is_free : LicenseStatus → Bool
is_free free = true
is_free _ = false

abbrev pub head_detail : Bool → Bytes
head_detail true = codes "head;sealed"
head_detail false = codes "head"

module _ (env : Env) (clock : ℤ) (ip : Bytes) where
  abbrev log_event : Bytes → Option Bytes → Bool → Bytes → Db env → Db env
  log_event action key success detail db =
      (record_audit env (new_event clock action key ip success (some detail) none none) db).1

  unfoldable pub answer_head :
      Bytes → Result (Option (SecretMeta × Bool)) → Db env → AdminReply × Db env
  answer_head key (ok (some (meta, is_sealed))) db = (
    head_of meta (reads_remaining meta) is_sealed,
    log_event (codes "secret.read") (some key) true (head_detail is_sealed) db,
  )
  answer_head key (ok none) db = (
    missing,
    log_event (codes "secret.read") (some key) false (codes "head;not found or expired") db,
  )
  answer_head key (err e) db = (internal_error, db)

  unfoldable pub head_secret : ℤ → Bytes → Db env → AdminReply × Db env
  head_secret now key db =
      if not (validate_key_name key)
      then (bad_key_name, db)
      else answer_head key (head env now key db) db

  unfoldable pub answer_list : Result (List SecretMeta) → Db env → AdminReply × Db env
  answer_list (ok metas) db = (
    shown_secrets metas,
    log_event (codes "secret.list") none true (codes "count=" ++ decimal (length metas)) db,
  )
  answer_list (err e) db = (internal_error, db)

  unfoldable pub list_secrets : ℤ → Db env → AdminReply × Db env
  list_secrets now db = answer_list (list env now db) db

  -- The events for the webhook sender, if there is one.
  unfoldable pub answer_prune :
      Bool → Result (List Bytes) → Db env → AdminReply × List Fired × Db env
  answer_prune has_sender (ok ks) db = (
    pruned (length ks),
    if has_sender then map (fire (codes "secret.expired")) ks else [],
    log_event (codes "secret.prune") none true (codes "pruned=" ++ decimal (length ks)) db,
  )
  answer_prune has_sender (err e) db = (internal_error, [], db)

  unfoldable pub prune_secrets : Bool → ℤ → Db env → AdminReply × List Fired × Db env
  prune_secrets has_sender now db = let (r, db') = prune env now db in answer_prune has_sender r db'

  abbrev pub answer_count : Result ℕ → AdminReply × Db env → Db env → AdminReply × Db env
  answer_count (err e) stored db = (internal_error, db)
  answer_count (ok count) stored db =
      if leb max_webhooks count then (too_many_webhooks, db) else stored

  unfoldable pub store_webhook : WebhookRegistration → Db env → AdminReply × Db env
  store_webhook reg db =
      let (r, db') = put_webhook env reg db in
      elim r [
        | ok _ ↦ (
          created_webhook reg.id reg.secret,
          log_event (codes "webhook.create") none true (codes "id=" ++ reg.id) db',
        )
        | err e ↦ (internal_error, db')
      ]

  unfoldable pub create_webhook :
      LicenseStatus → ℤ → Bytes → Bytes → CreateWebhookRequest → Db env → AdminReply × Db env
  create_webhook license now id secret body db =
      let stored : AdminReply × Db env =
        store_webhook
          (record {
            id = id;
            url = body.url;
            secret = secret;
            events = or_all_events body.events;
            created_at = now;
            org_id = none;
          })
          db in
      let counted : AdminReply × Db env = answer_count (count_webhooks env db) stored db in
      if is_free license
      then (license_required, db)
      else if not (starts_with body.url (codes "http://"))
          && not (starts_with body.url (codes "https://"))
      then (bad_url, db)
      else counted

  unfoldable pub answer_delete_webhook : Bytes → Result Bool → Db env → AdminReply × Db env
  answer_delete_webhook id (ok true) db =
      (deleted_webhook, log_event (codes "webhook.delete") none true (codes "id=" ++ id) db)
  answer_delete_webhook id (ok false) db = (webhook_missing, db)
  answer_delete_webhook id (err e) db = (internal_error, db)

  unfoldable pub remove_webhook : Bytes → Db env → AdminReply × Db env
  remove_webhook id db = let (r, db') = delete_webhook env id db in answer_delete_webhook id r db'

module _ (env : Env) where
  unfoldable pub show_webhooks : Result (List WebhookRegistration) → AdminReply
  show_webhooks (ok regs) = shown_webhooks (map shown_webhook regs)
  show_webhooks (err e) = internal_error

  unfoldable pub list_all_webhooks : Db env → AdminReply
  list_all_webhooks db = show_webhooks (list_webhooks env db)

  abbrev pub answer_events : (Bytes → Bytes) → Bool → Result (List AuditEvent) → AdminReply
  answer_events digest true (ok events) = shown_events (map (redact env digest) events)
  answer_events digest false (ok events) = shown_events events
  answer_events digest redacted (err e) = internal_error

  -- `digest` is the first eight hex digits of a hash.
  unfoldable pub audit_events : (Bytes → Bytes) → Bool → AuditQueryParams → Db env → AdminReply
  audit_events digest redacted params db = answer_events digest redacted (
      list_audit env
        (record {
          since = params.since;
          until = params.until;
          action = params.action;
          limit = min (or_hundred params.limit) 1000;
          org_id = none;
        })
        db)
