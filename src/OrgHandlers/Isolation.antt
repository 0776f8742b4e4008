-- ===== src/OrgHandlers/Isolation.antt =====
-- crates/sirr-server/src/org_handlers.rs: which entries of the table of secrets a request touches.
use sirr.Prelude.{
  All, subst, sym, ℤ, true, false, not, Option, none, some, List, [], ◌∷◌, ◌≡◌, refl, ap, ◌∙◌,
  arith, Bool-cases, inl, inr,
}
use sirr.Text.{
  Bytes, starts_with, no_colon, join_colon, bytes_eq_iff, starts_with-join_colon, bytes_eq,
}
use sirr.Secrets.Frames.{reply-get}
use sirr.Database.{Env, Db}
use sirr.Handlers.Isolation.{record_audit-secrets}
use sirr.Webhooks.{delete_webhook}
use sirr.Webhooks.Guard.{Parsers}
use sirr.OrgSecrets.{org_secret_key, org_prefix, get_org_secret}
use sirr.OrgSecrets.Isolation.{
  OrgCall, get_call, put_call, patch_call, delete_call, prune_call, apply_org, apply_org-elsewhere,
}
use sirr.Secrets.{map_option}
use sirr.Auth.{principal_id_of}
use sirr.Handlers.{Fired, or_true}
use sirr.OrgHandlers.{
  AppState, Caller, Reply, forbidden, in_org, master_or, reject_if, unless_ended,
}
use sirr.Permissions.{manage_org}
use sirr.OrgHandlers.Principals.{create_principal_checks, create_principal, remove_principal}
use sirr.OrgHandlers.Roles.{create_role_checks, create_role, remove_role}
use sirr.OrgHandlers.Hooks.{
  create_webhook_checks, check_manager, create_org_webhook, delete_org_webhook,
}
use sirr.OrgHandlers.Secrets.{
  get_checks, prune_checks, get_secret, list_filtered, list_secrets, prune_secrets,
}
use sirr.OrgHandlers.Secrets.Changes.{
  CreateOrgSecretRequest, expiry, create_checks, patch_checks, delete_checks, store_secret,
  create_secret, patch_secret, delete_secret,
}
use sirr.OrgHandlers.Tenants.{handle_outside}
use sirr.OrgHandlers.Checks.{unless_ended-case}
use sirr.OrgHandlers.Frames.{
  store_principal-secrets, answer_delete_principal-secrets, remove_principal-secrets,
  store_parsed-secrets, delete_role-secrets, answer_delete_role-secrets, store_webhook-secrets,
  answer_delete_webhook-secrets, answer_list-secrets, answer_get-secrets, answer_prune-secrets,
  answer_patch-secrets, answer_delete-secrets,
}
use sirr.OrgHandlers.Requests.{
  OrgRequest, create_principal_request, list_principals_request, delete_principal_request,
  create_role_request, list_roles_request, delete_role_request, create_secret_request,
  list_secrets_request, get_secret_request, head_secret_request, patch_secret_request,
  delete_secret_request, prune_secrets_request, audit_request, create_webhook_request,
  list_webhooks_request, delete_webhook_request, is_for_master, quiet, handle,
}

-- The handlers of the requests on secrets, the replies to them, and what they do to the table.
module _ (env : Env) (state : AppState) (parsers : Parsers) (digest : Bytes → Bytes)
    (j : Bytes) where
  -- The answer leaves the entry at `j` as it is in the database.
  abbrev Spares : Db env → Reply × List Fired × Db env → Type 0
  Spares db a = env.tables.get a.2.secrets j ≡ env.tables.get db.secrets j

  at_j : {t t' : env.tables.Table} → t' ≡ t → env.tables.get t' j ≡ env.tables.get t j
  at_j e = ap (λ t. env.tables.get t j) e

  quiet-Spares :
      (check : Option Reply) (go_on : Reply × Db env) (db : Db env)
      → go_on.1.secrets ≡ db.secrets
      → Spares db (quiet (unless_ended check (λ r. (r, db)) go_on))
  quiet-Spares check go_on db e =
      unless_ended-case (λ a. Spares db (quiet a)) check (λ r. (r, db)) go_on (λ r. refl)
        (λ _. at_j e)

  unless_ended-Spares :
      (check : Option Reply) (go_on : Reply × List Fired × Db env) (db : Db env)
      → Spares db go_on
      → Spares db (unless_ended check (λ r. (r, [], db)) go_on)
  unless_ended-Spares check go_on db h =
      unless_ended-case (Spares db) check (λ r. (r, [], db)) go_on (λ r. refl) (λ _. h)

  list_filtered-Spares :
      (caller : Caller) (now : ℤ) (org_id : Bytes) (owner : Option (Option Bytes)) (db : Db env)
      → (list_filtered env caller now org_id owner db).1.secrets ≡ db.secrets
  unfolding list_filtered
  list_filtered-Spares caller now org_id none db = refl
  list_filtered-Spares caller now org_id (some owner) db =
      answer_list-secrets env caller org_id _ db

  module _ (caller : Caller) (org_id : Bytes) where
    call-Spares :
        starts_with j (org_prefix org_id) ≡ false
        → (call : OrgCall) (db : Db env)
        → env.tables.get (apply_org env state.store org_id call db).secrets j
          ≡ env.tables.get db.secrets j
    call-Spares h call db = apply_org-elsewhere env state.store org_id j h call db

    store_secret-Spares :
        (now put_now : ℤ) (nonce : Bytes) (body : CreateOrgSecretRequest) (db : Db env)
        → starts_with j (org_prefix org_id) ≡ false
        → Spares db (store_secret env state caller now put_now nonce org_id body db)
    unfolding store_secret apply_org
    store_secret-Spares now put_now nonce body db h = grind (
      arith,
      record_audit-secrets,
      call-Spares h
          (put_call put_now nonce body.key body.value (map_option (expiry now) body.ttl_seconds)
            body.max_reads (or_true body.delete) body.webhook_url (principal_id_of caller.auth)
            body.allowed_keys)
          db,
    )

    -- A request that is not on secrets, or of an organisation under whose prefix `j` does not fall.
    handle-Spares :
        (request : OrgRequest) (db : Db env)
        → (is_for_master request ≡ false → starts_with j (org_prefix org_id) ≡ false)
        → Spares db (handle env state parsers digest caller org_id request db)
    unfolding handle is_for_master create_principal remove_principal create_role remove_role
        list_secrets get_secret delete_secret patch_secret prune_secrets create_secret
        create_org_webhook delete_org_webhook apply_org delete_webhook
    handle-Spares (create_principal_request now id body) db h =
        quiet-Spares (create_principal_checks env state caller.auth org_id body db) _ db
          (store_principal-secrets env caller _ db)
    handle-Spares list_principals_request db h = refl
    handle-Spares (delete_principal_request now id) db h =
        quiet-Spares (reject_if (not (master_or manage_org caller.auth org_id)) forbidden) _ db (
          answer_delete_principal-secrets env caller org_id id _ _
          ∙ remove_principal-secrets env caller now org_id id db)
    handle-Spares (create_role_request now body) db h =
        quiet-Spares (create_role_checks env caller.auth org_id body) _ db
          (store_parsed-secrets env caller now org_id body.name _ db)
    handle-Spares list_roles_request db h = refl
    handle-Spares (delete_role_request name) db h =
        quiet-Spares (reject_if (not (master_or manage_org caller.auth org_id)) forbidden) _ db (
          answer_delete_role-secrets env caller org_id name _ _
          ∙ delete_role-secrets env org_id name db)
    handle-Spares (create_secret_request now put_now nonce body) db h =
        unless_ended-Spares (create_checks env state parsers caller.auth org_id body) _ db
          (store_secret-Spares now put_now nonce body db (h refl))
    handle-Spares (list_secrets_request now) db h =
        quiet-Spares (reject_if (not (in_org caller.auth org_id)) forbidden) _ db
          (list_filtered-Spares caller now org_id _ db)
    handle-Spares (get_secret_request head_now bind_now now key) db h =
        unless_ended-Spares (get_checks env head_now bind_now caller.auth org_id key db) _ db (
          at_j (answer_get-secrets env state caller org_id key _ _)
          ∙ call-Spares (h refl) (get_call now key) db)
    handle-Spares (head_secret_request bind_now now key) db h = refl
    handle-Spares (patch_secret_request head_now now patch_now nonce key body) db h =
        unless_ended-Spares (patch_checks env state head_now caller.auth org_id key body db) _ db (
          at_j (answer_patch-secrets env state caller org_id key _ _)
          ∙ call-Spares (h refl)
              (patch_call patch_now nonce key body.value body.max_reads
                (map_option (expiry now) body.ttl_seconds))
              db)
    handle-Spares (delete_secret_request head_now key) db h =
        unless_ended-Spares (delete_checks env state head_now caller.auth org_id key db) _ db (
          at_j (answer_delete-secrets env state caller org_id key _ _)
          ∙ call-Spares (h refl) (delete_call key) db)
    handle-Spares (prune_secrets_request now) db h =
        unless_ended-Spares (prune_checks env state caller.auth org_id) _ db (
          at_j (answer_prune-secrets env state caller org_id _ _)
          ∙ call-Spares (h refl) (prune_call now) db)
    handle-Spares (audit_request params) db h = refl
    handle-Spares (create_webhook_request now id secret body) db h =
        quiet-Spares (create_webhook_checks env caller.auth org_id body db) _ db
          (store_webhook-secrets env caller org_id _ db)
    handle-Spares list_webhooks_request db h = refl
    handle-Spares (delete_webhook_request id) db h =
        quiet-Spares (check_manager caller.auth org_id) _ db
          (answer_delete_webhook-secrets env caller org_id id _ _)

-- Who sends a request, the organisation that its path names, and the request.
abbrev pub Sent : Type 0
Sent = Caller × Bytes × OrgRequest

-- Sent by no principal of the organisation; the name in the path has no colon.
abbrev pub IsForeign : Bytes → Sent → Type 0
IsForeign other (caller, org_id, request) =
    (in_org caller.auth other ≡ false) × (no_colon org_id ≡ true)

module _ (env : Env) (state : AppState) (parsers : Parsers) (digest : Bytes → Bytes) where
  unfoldable pub handle_all : List Sent → Db env → Db env
  handle_all [] db = db
  handle_all ((caller, org_id, request) ∷ rest) db =
      handle_all rest (handle env state parsers digest caller org_id request db).2

  module _ (other key : Bytes) (plain : no_colon other ≡ true) where
    foreign-Spares :
        (sent : Sent) (db : Db env)
        → IsForeign other sent
        → Spares env state parsers digest
            (join_colon other key)
            db
            (handle env state parsers digest sent.0 sent.1 sent.2 db)
    unfolding org_prefix
    foreign-Spares (caller, org_id, request) db (out, named) =
        elim (Bool-cases (bytes_eq org_id other)) [
          | inl same ↦ elim (Bool-cases (is_for_master request)) [
            | inl m ↦
                handle-Spares env state parsers digest (join_colon other key) caller org_id request
                  db (λ n. absurd (ground (arith, m, n)))
            | inr n ↦
                rw
                  (handle_outside env state parsers digest caller org_id request db
                    (subst (λ o. in_org caller.auth o ≡ false)
                      (sym ((bytes_eq_iff org_id other).0 same)) out)
                    (inr n))
                  refl
          ]
          | inr ne ↦
              handle-Spares env state parsers digest (join_colon other key) caller org_id request db
                (λ _. ground (
                  arith,
                  starts_with-join_colon other org_id key plain named,
                  bytes_eq_iff other org_id,
                  bytes_eq_iff org_id other,
                  ne,
                ))
        ]

    handle_all-Spares :
        (requests : List Sent) (db : Db env)
        → All (IsForeign other) requests
        → env.tables.get (handle_all requests db).secrets (join_colon other key)
          ≡ env.tables.get db.secrets (join_colon other key)
    unfolding handle_all
    handle_all-Spares [] db h = refl
    handle_all-Spares ((caller, org_id, request) ∷ rest) db (first, h) =
        handle_all-Spares rest _ h ∙ foreign-Spares (caller, org_id, request) db first

  -- Whatever requests are sent by others than the principals of an organisation, the master included,
  -- and whatever organisation they name, a read of one of its secrets is answered as before. The names
  -- of organisations hold no colon.
  pub tenant_isolated :
      (other key : Bytes) (requests : List Sent) (now : ℤ) (db : Db env)
      → no_colon other ≡ true
      → All (IsForeign other) requests
      → (get_org_secret env state.store now other key (handle_all requests db)).0
        ≡ (get_org_secret env state.store now other key db).0
  unfolding get_org_secret org_secret_key
  tenant_isolated other key requests now db plain h =
      reply-get env state.store now (join_colon other key) (handle_all requests db) db
        (handle_all-Spares other key plain requests db h)
