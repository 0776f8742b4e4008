-- ===== src/OrgHandlers/Secrets/Changes.antt =====
-- crates/sirr-server/src/org_handlers.rs: the requests that create, patch and delete a secret of an
-- organisation.
use sirr.Prelude.{
  ℕ, ℤ, as_i64, ◌+i64◌, Bool, true, false, not, ◌||◌, Option, none, some, List, [], ◌∷◌,
  if◌then◌else◌,
}
use sirr.Text.{Bytes, codes}
use sirr.Result.{Result, ok, err, cannot_patch, read_limit_exhausted}
use sirr.Permissions.{create, patch_my, patch_org, delete_my, delete_org}
use sirr.Records.{SecretMeta}
use sirr.Database.{Env, Db}
use sirr.Secrets.{map_option}
use sirr.OrgSecrets.{put_org_secret, head_org_secret, patch_org_secret, delete_org_secret}
use sirr.Auth.{ResolvedAuth, principal_id_of, auth_has}
use sirr.Webhooks.Guard.{Parsers, validate_webhook_url}
use sirr.Handlers.{
  fire, is_safe, is_zero_reads, is_too_large, is_too_long, or_true, validate_key_name,
}
use sirr.OrgHandlers.{
  AppState, Caller, Reply, forbidden, internal_error, missing, conflict, deleted, read_limit_gone,
  bad_request, bad_key_name, zero_reads, value_too_large, ttl_too_long, bad_webhook_url,
  created_secret, patched_secret, in_org, reject_if, ◌<|>◌, unless_ended, log,
}
use sirr.OrgHandlers.Secrets.{Answer, check_request, check_owner, sent}

pub record CreateOrgSecretRequest : Type 0 where
  pub key : Bytes
  pub value : Bytes
  pub ttl_seconds : Option ℕ
  pub max_reads : Option ℕ
  pub delete : Option Bool
  pub webhook_url : Option Bytes
  pub allowed_keys : Option (List Bytes)

pub record PatchOrgSecretRequest : Type 0 where
  pub value : Option Bytes
  pub max_reads : Option ℕ
  pub ttl_seconds : Option ℕ

-- `now_epoch() + ttl as i64`.
unfoldable pub expiry : ℤ → ℕ → ℤ
expiry now ttl = now +i64 as_i64 ttl

-- The checks of the reads, the value and the lifetime.
abbrev pub check_limits : Option ℕ → Option Bytes → Option ℕ → Option Reply
check_limits max_reads value ttl_seconds =
    reject_if (is_zero_reads max_reads) (bad_request zero_reads)
    <|> reject_if (is_too_large value) (bad_request value_too_large)
    <|> reject_if (is_too_long ttl_seconds) (bad_request ttl_too_long)

abbrev pub check_webhook_url : Parsers → List Bytes → Option Bytes → Option Reply
check_webhook_url parsers origins none = none
check_webhook_url parsers origins (some url) =
    reject_if (not (is_safe (validate_webhook_url parsers url origins)))
      (bad_request bad_webhook_url)

module _ (env : Env) (state : AppState) where
  unfoldable pub create_checks :
      Parsers → ResolvedAuth → Bytes → CreateOrgSecretRequest → Option Reply
  create_checks parsers auth org_id body =
      reject_if (not (auth_has auth create) || not (in_org auth org_id)) forbidden
      <|> reject_if (not (validate_key_name body.key)) (bad_request bad_key_name)
      <|> check_limits body.max_reads (some body.value) body.ttl_seconds
      <|> check_webhook_url parsers state.webhook_allowed_origins body.webhook_url

  unfoldable pub store_secret :
      Caller → ℤ → ℤ → Bytes → Bytes → CreateOrgSecretRequest → Db env → Answer env
  store_secret caller now put_now nonce org_id body db =
      let (r, db') =
        put_org_secret env state.store put_now nonce org_id body.key body.value
          (map_option (expiry now) body.ttl_seconds) body.max_reads (or_true body.delete)
          body.webhook_url (principal_id_of caller.auth) body.allowed_keys db in
      elim r [
        | ok _ ↦ (
          created_secret body.key,
          sent state (fire (codes "secret.created") body.key ∷ []),
          log env caller (codes "secret.create") (some body.key) true none (some org_id) db',
        )
        | err e ↦ (internal_error, [], db')
      ]

  unfoldable pub create_secret :
      Parsers → Caller → ℤ → ℤ → Bytes → Bytes → CreateOrgSecretRequest → Db env → Answer env
  create_secret parsers caller now put_now nonce org_id body db =
      unless_ended (create_checks parsers caller.auth org_id body) (λ r. (r, [], db))
        (store_secret caller now put_now nonce org_id body db)

  -- The check of the owner is left out for a caller with the permission for the organisation.
  unfoldable pub patch_checks :
      ℤ → ResolvedAuth → Bytes → Bytes → PatchOrgSecretRequest → Db env → Option Reply
  patch_checks head_now auth org_id key body db =
      check_request patch_my patch_org auth org_id key
      <|> check_limits body.max_reads body.value body.ttl_seconds
      <|> (if auth_has auth patch_org
          then none
          else check_owner patch_my patch_org auth (head_org_secret env head_now org_id key db))

  unfoldable pub answer_patch :
      Caller → Bytes → Bytes → Result (Option SecretMeta) → Db env → Answer env
  answer_patch caller org_id key (ok (some meta)) db = (
    patched_secret meta,
    [],
    log env caller (codes "secret.patch") (some key) true none (some org_id) db,
  )
  answer_patch caller org_id key (ok none) db = (
    missing (codes "not found or expired"),
    [],
    log env caller (codes "secret.patch") (some key) false (some (codes "not found or expired"))
        (some org_id) db,
  )
  answer_patch caller org_id key (err cannot_patch) db = (conflict cannot_patch, [], db)
  answer_patch caller org_id key (err read_limit_exhausted) db = (read_limit_gone, [], db)
  answer_patch caller org_id key (err _) db = (internal_error, [], db)

  unfoldable pub patch_secret :
      Caller → ℤ → ℤ → ℤ → Bytes → Bytes → Bytes → PatchOrgSecretRequest → Db env → Answer env
  patch_secret caller head_now now patch_now nonce org_id key body db =
      unless_ended (patch_checks head_now caller.auth org_id key body db) (λ r. (r, [], db))
        (let (r, db') =
            patch_org_secret env state.store patch_now nonce org_id key body.value body.max_reads
              (map_option (expiry now) body.ttl_seconds) db in
          answer_patch caller org_id key r db')

  unfoldable pub delete_checks : ℤ → ResolvedAuth → Bytes → Bytes → Db env → Option Reply
  delete_checks head_now auth org_id key db =
      check_request delete_my delete_org auth org_id key
      <|> (if auth_has auth delete_org
          then none
          else check_owner delete_my delete_org auth (head_org_secret env head_now org_id key db))

  unfoldable pub answer_delete : Caller → Bytes → Bytes → Result Bool → Db env → Answer env
  answer_delete caller org_id key (ok true) db = (
    deleted,
    sent state (fire (codes "secret.deleted") key ∷ []),
    log env caller (codes "secret.delete") (some key) true none (some org_id) db,
  )
  answer_delete caller org_id key (ok false) db = (missing (codes "not found"), [], db)
  answer_delete caller org_id key (err e) db = (internal_error, [], db)

  unfoldable pub delete_secret : Caller → ℤ → Bytes → Bytes → Db env → Answer env
  delete_secret caller head_now org_id key db =
      unless_ended (delete_checks head_now caller.auth org_id key db) (λ r. (r, [], db))
        (let (r, db') = delete_org_secret env org_id key db in
          answer_delete caller org_id key r db')
