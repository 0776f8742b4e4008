-- ===== src/Routes.antt =====
-- crates/sirr-server/src/server.rs, `run`: which middleware stands in front of which handler, and which
-- routes there are. The limits on the rate of requests, the headers for browsers and the fixed texts
-- of the public routes are left out.
pub mod Entry
use sirr.Prelude.{ℕ, ℤ, Bool, true, false, Option, none, some, List, []}
use sirr.Text.{Bytes}
use sirr.Records.{Metadata}
use sirr.Database.{Env, Db}
use sirr.Webhooks.Guard.{Parsers}
use sirr.Auth.{Tokens, ResolvedAuth, AuthOutcome, proceed, require_auth, require_master_key}
use sirr.Handlers.{
  Response, Fired, CreateRequest, create_secret, get_secret, patch_secret, delete_secret,
}
use sirr.Handlers.Admin.{
  AdminReply, CreateWebhookRequest, AuditQueryParams, head_secret, list_secrets, prune_secrets,
  create_webhook, list_all_webhooks, remove_webhook, audit_events,
}
use sirr.OrgHandlers.{AppState, Caller, Reply}
use sirr.OrgHandlers.Orgs.{CreateOrgRequest, create_org, list_all_orgs, remove_org}
use sirr.OrgHandlers.Account.{CreateKeyRequest, get_me, patch_me, create_key, delete_key}
use sirr.OrgHandlers.Requests.{OrgRequest, handle}

-- The open routes of the public bucket, with the clocks and the random bytes that they draw.
pub data OpenRoute : Type 0 where
  create_secret_route : ℤ → Bytes → CreateRequest → OpenRoute
  get_secret_route : ℤ → Bytes → OpenRoute
  head_secret_route : ℤ → Bytes → OpenRoute

-- Its routes for the master key only.
pub data MasterRoute : Type 0 where
  list_secrets_route : ℤ → MasterRoute
  patch_secret_route : ℤ → Bytes → Bytes → Option Bytes → Option ℕ → Option ℕ → MasterRoute
  delete_secret_route : Bytes → MasterRoute
  prune_route : ℤ → MasterRoute
  audit_route : AuditQueryParams → MasterRoute
  create_webhook_route : ℤ → Bytes → Bytes → CreateWebhookRequest → MasterRoute
  list_webhooks_route : MasterRoute
  delete_webhook_route : Bytes → MasterRoute

-- The routes on organisations, on one of them, and on the own account.
pub data OrgRoute : Type 0 where
  create_org_route : ℤ → Bytes → CreateOrgRequest → OrgRoute
  list_orgs_route : OrgRoute
  delete_org_route : Bytes → OrgRoute
  one_org_route : Bytes → OrgRequest → OrgRoute
  get_me_route : OrgRoute
  patch_me_route : Metadata → OrgRoute
  create_key_route : ℤ → Bytes → Bytes → CreateKeyRequest → OrgRoute
  delete_key_route : Bytes → OrgRoute

pub data Route : Type 0 where
  open_route : OpenRoute → Route
  master_route : MasterRoute → Route
  org_route : OrgRoute → Route

-- What is answered: by the router, by a middleware, or by a handler.
pub data Served : Type 0 where
  no_such_route : Served
  turned_away : AuthOutcome → Served
  bucket_reply : Response → Served
  admin_reply : AdminReply → Served
  org_reply : Reply → Served

-- The part of a request that the middlewares and the audit log read, with the clocks they read.
pub record Incoming : Type 0 where
  pub authorization : Option Bytes
  pub ip : Bytes
  pub auth_now : ℤ
  pub clock : ℤ

abbrev pub caller_of : Incoming → ResolvedAuth → Caller
caller_of i auth = record { auth = auth; ip = i.ip; clock = i.clock }

module _ (env : Env) where
  abbrev pub Outcome : Type 0
  Outcome = Served × List Fired × Db env

  -- `next.run` with the identity that the middleware has found.
  unfoldable pub behind : AuthOutcome → (ResolvedAuth → Outcome) → Db env → Outcome
  behind (proceed auth) next db = next auth
  behind outcome next db = (turned_away outcome, [], db)

  abbrev pub as_bucket : Response × List Fired × Db env → Outcome
  as_bucket (r, fired, db) = (bucket_reply r, fired, db)

  abbrev pub as_admin : AdminReply × Db env → Outcome
  as_admin (r, db) = (admin_reply r, [], db)

  abbrev pub as_pruned : AdminReply × List Fired × Db env → Outcome
  as_pruned (r, fired, db) = (admin_reply r, fired, db)

  abbrev pub as_org : Reply × Db env → Outcome
  as_org (r, db) = (org_reply r, [], db)

  abbrev pub as_one_org : Reply × List Fired × Db env → Outcome
  as_one_org (r, fired, db) = (org_reply r, fired, db)

module _ (tokens : Tokens) (env : Env) (state : AppState) (parsers : Parsers)
    (digest : Bytes → Bytes) where
  unfoldable pub open_handler : Incoming → OpenRoute → Db env → Outcome env
  open_handler i (create_secret_route now nonce body) db = as_bucket env (
      create_secret env state.store parsers state.webhook_allowed_origins state.has_sender now
        i.clock nonce i.ip body db)
  open_handler i (get_secret_route now key) db = as_bucket env (
      get_secret env state.store parsers state.webhook_allowed_origins state.has_sender now i.clock
        i.ip key db)
  open_handler i (head_secret_route now key) db =
      as_admin env (head_secret env i.clock i.ip now key db)

  unfoldable pub master_handler : Incoming → MasterRoute → Db env → Outcome env
  master_handler i (list_secrets_route now) db = as_admin env (list_secrets env i.clock i.ip now db)
  master_handler i (patch_secret_route now nonce key new_value max_reads ttl_seconds) db =
      as_bucket env (
        patch_secret env state.store parsers state.webhook_allowed_origins state.has_sender now
          i.clock nonce i.ip key new_value max_reads ttl_seconds db)
  master_handler i (delete_secret_route key) db = as_bucket env (
      delete_secret env state.store parsers state.webhook_allowed_origins state.has_sender i.clock
        i.ip key db)
  master_handler i (prune_route now) db =
      as_pruned env (prune_secrets env i.clock i.ip state.has_sender now db)
  master_handler i (audit_route params) db =
      (admin_reply (audit_events env digest state.redact_audit_keys params db), [], db)
  master_handler i (create_webhook_route now id secret body) db =
      as_admin env (create_webhook env i.clock i.ip state.license now id secret body db)
  master_handler i list_webhooks_route db = (admin_reply (list_all_webhooks env db), [], db)
  master_handler i (delete_webhook_route id) db =
      as_admin env (remove_webhook env i.clock i.ip id db)

  unfoldable pub org_handler : Incoming → OrgRoute → Db env → ResolvedAuth → Outcome env
  org_handler i (create_org_route now id body) db auth =
      as_org env (create_org env state (caller_of i auth) now id body db)
  org_handler i list_orgs_route db auth = (org_reply (list_all_orgs env auth db), [], db)
  org_handler i (delete_org_route org_id) db auth =
      as_org env (remove_org env (caller_of i auth) org_id db)
  org_handler i (one_org_route org_id request) db auth =
      as_one_org env (handle env state parsers digest (caller_of i auth) org_id request db)
  org_handler i get_me_route db auth = (org_reply (get_me env auth db), [], db)
  org_handler i (patch_me_route metadata) db auth = as_org env (patch_me env auth metadata db)
  org_handler i (create_key_route now id random body) db auth =
      as_org env (create_key env tokens (caller_of i auth) now id random body db)
  org_handler i (delete_key_route key_id) db auth =
      as_org env (delete_key env (caller_of i auth) key_id db)

  module _ (api_key : Option Bytes) (enable_public_bucket : Bool) where
    -- A route of the public bucket, which is there if it is enabled.
    abbrev pub if_enabled : Bool → Outcome env → Db env → Outcome env
    if_enabled true answered db = answered
    if_enabled false answered db = (no_such_route, [], db)

    unfoldable pub serve : Incoming → Route → Db env → Outcome env
    serve i (open_route route) db = if_enabled enable_public_bucket (open_handler i route db) db
    serve i (master_route route) db =
        if_enabled enable_public_bucket
          (behind env (require_master_key tokens api_key i.authorization)
            (λ auth. master_handler i route db) db)
          db
    serve i (org_route route) db =
        behind env (require_auth tokens env i.auth_now api_key i.authorization db)
          (org_handler i route db) db
