-- ===== src/OrgHandlers/Requests.antt =====
-- crates/sirr-server/src/org_handlers.rs: the requests under "/orgs/{org_id}/" as one data type, each
-- with the clocks it reads and the random texts it draws, and what handles them.
use sirr.Prelude.{ℤ, Bool, true, false, List, []}
use sirr.Text.{Bytes}
use sirr.Database.{Env, Db}
use sirr.Webhooks.Guard.{Parsers}
use sirr.Handlers.{Fired}
use sirr.OrgHandlers.{AppState, Caller, Reply}
use sirr.OrgHandlers.Principals.{
  CreatePrincipalRequest, create_principal, show_principals, remove_principal,
}
use sirr.OrgHandlers.Roles.{CreateRoleRequest, create_role, show_roles, remove_role}
use sirr.OrgHandlers.Secrets.{get_secret, head_secret, list_secrets, prune_secrets}
use sirr.OrgHandlers.Secrets.Changes.{
  CreateOrgSecretRequest, PatchOrgSecretRequest, create_secret, patch_secret, delete_secret,
}
use sirr.OrgHandlers.Hooks.{
  OrgAuditQueryParams, CreateOrgWebhookRequest, org_audit_events, create_org_webhook,
  list_org_webhooks, delete_org_webhook,
}

pub data OrgRequest : Type 0 where
  create_principal_request : ℤ → Bytes → CreatePrincipalRequest → OrgRequest
  list_principals_request : OrgRequest
  delete_principal_request : ℤ → Bytes → OrgRequest
  create_role_request : ℤ → CreateRoleRequest → OrgRequest
  list_roles_request : OrgRequest
  delete_role_request : Bytes → OrgRequest
  create_secret_request : ℤ → ℤ → Bytes → CreateOrgSecretRequest → OrgRequest
  list_secrets_request : ℤ → OrgRequest
  get_secret_request : ℤ → ℤ → ℤ → Bytes → OrgRequest
  head_secret_request : ℤ → ℤ → Bytes → OrgRequest
  patch_secret_request : ℤ → ℤ → ℤ → Bytes → Bytes → PatchOrgSecretRequest → OrgRequest
  delete_secret_request : ℤ → Bytes → OrgRequest
  prune_secrets_request : ℤ → OrgRequest
  audit_request : OrgAuditQueryParams → OrgRequest
  create_webhook_request : ℤ → Bytes → Bytes → CreateOrgWebhookRequest → OrgRequest
  list_webhooks_request : OrgRequest
  delete_webhook_request : Bytes → OrgRequest

-- The requests that the master may send too: all but those on secrets.
unfoldable pub is_for_master : OrgRequest → Bool
is_for_master (create_secret_request now put_now nonce body) = false
is_for_master (list_secrets_request now) = false
is_for_master (get_secret_request head_now bind_now now key) = false
is_for_master (head_secret_request bind_now now key) = false
is_for_master (patch_secret_request head_now now patch_now nonce key body) = false
is_for_master (delete_secret_request head_now key) = false
is_for_master (prune_secrets_request now) = false
is_for_master _ = true

-- A reply without webhook events.
abbrev pub quiet : {Db : Type 0} → Reply × Db → Reply × List Fired × Db
quiet (r, db) = (r, [], db)

module _ (env : Env) (state : AppState) (parsers : Parsers) (digest : Bytes → Bytes) where
  unfoldable pub handle : Caller → Bytes → OrgRequest → Db env → Reply × List Fired × Db env
  handle caller org_id (create_principal_request now id body) db =
      quiet (create_principal env state caller now id org_id body db)
  handle caller org_id list_principals_request db =
      (show_principals env caller.auth org_id db, [], db)
  handle caller org_id (delete_principal_request now id) db =
      quiet (remove_principal env caller now org_id id db)
  handle caller org_id (create_role_request now body) db =
      quiet (create_role env caller now org_id body db)
  handle caller org_id list_roles_request db = (show_roles env caller.auth org_id db, [], db)
  handle caller org_id (delete_role_request name) db = quiet (remove_role env caller org_id name db)
  handle caller org_id (create_secret_request now put_now nonce body) db =
      create_secret env state parsers caller now put_now nonce org_id body db
  handle caller org_id (list_secrets_request now) db = quiet (list_secrets env caller now org_id db)
  handle caller org_id (get_secret_request head_now bind_now now key) db =
      get_secret env state caller head_now bind_now now org_id key db
  handle caller org_id (head_secret_request bind_now now key) db =
      (head_secret env bind_now now caller.auth org_id key db, [], db)
  handle caller org_id (patch_secret_request head_now now patch_now nonce key body) db =
      patch_secret env state caller head_now now patch_now nonce org_id key body db
  handle caller org_id (delete_secret_request head_now key) db =
      delete_secret env state caller head_now org_id key db
  handle caller org_id (prune_secrets_request now) db = prune_secrets env state caller now org_id db
  handle caller org_id (audit_request params) db =
      (org_audit_events env state digest caller.auth org_id params db, [], db)
  handle caller org_id (create_webhook_request now id secret body) db =
      quiet (create_org_webhook env caller now id secret org_id body db)
  handle caller org_id list_webhooks_request db =
      (list_org_webhooks env caller.auth org_id db, [], db)
  handle caller org_id (delete_webhook_request id) db =
      quiet (delete_org_webhook env caller org_id id db)
