-- ===== src/OrgHandlers/Frames.antt =====
-- crates/sirr-server/src/org_handlers.rs: the answers that leave the table of secrets alone.
use sirr.Prelude.{ℤ, Bool, Option, some, List, ◌≡◌, arith}
use sirr.Text.{Bytes}
use sirr.Result.{Result}
use sirr.Records.{GetResult, SecretMeta, PrincipalRecord, WebhookRegistration}
use sirr.Permissions.{ParseResult}
use sirr.Database.{Env, Db}
use sirr.Handlers.Isolation.{record_audit-secrets}
use sirr.Directory.Principals.{put_principal, delete_principal}
use sirr.Directory.Roles.{put_role, delete_role}
use sirr.Webhooks.{put_webhook}
use sirr.OrgHandlers.{AppState, Caller}
use sirr.OrgHandlers.Principals.{store_principal, answer_delete_principal}
use sirr.OrgHandlers.Roles.{store_role, store_parsed, answer_delete_role}
use sirr.OrgHandlers.Hooks.{store_webhook, answer_delete_webhook}
use sirr.OrgHandlers.Secrets.{answer_get, answer_list, answer_prune}
use sirr.OrgHandlers.Secrets.Changes.{answer_patch, answer_delete}

module _ (env : Env) where
  pub store_principal-secrets :
      (caller : Caller) (p : PrincipalRecord) (db : Db env)
      → (store_principal env caller p db).1.secrets ≡ db.secrets
  unfolding store_principal put_principal
  store_principal-secrets caller p db = grind (arith, record_audit-secrets)

  pub answer_delete_principal-secrets :
      (caller : Caller) (org_id id : Bytes) (r : Result Bool) (db : Db env)
      → (answer_delete_principal env caller org_id id r db).1.secrets ≡ db.secrets
  unfolding answer_delete_principal
  answer_delete_principal-secrets caller org_id id r db = grind (arith, record_audit-secrets)

  pub remove_principal-secrets :
      (caller : Caller) (now : ℤ) (org_id id : Bytes) (db : Db env)
      → (delete_principal env now org_id id db).1.secrets ≡ db.secrets
  unfolding delete_principal
  remove_principal-secrets caller now org_id id db = ground arith

  pub store_parsed-secrets :
      (caller : Caller) (now : ℤ) (org_id name : Bytes) (p : ParseResult) (db : Db env)
      → (store_parsed env caller now org_id name p db).1.secrets ≡ db.secrets
  unfolding store_parsed store_role put_role
  store_parsed-secrets caller now org_id name p db = grind (arith, record_audit-secrets)

  pub delete_role-secrets :
      (org_id name : Bytes) (db : Db env)
      → (delete_role env (some org_id) name db).1.secrets ≡ db.secrets
  unfolding delete_role
  delete_role-secrets org_id name db = ground arith

  pub answer_delete_role-secrets :
      (caller : Caller) (org_id name : Bytes) (r : Result Bool) (db : Db env)
      → (answer_delete_role env caller org_id name r db).1.secrets ≡ db.secrets
  unfolding answer_delete_role
  answer_delete_role-secrets caller org_id name r db = grind (arith, record_audit-secrets)

  pub store_webhook-secrets :
      (caller : Caller) (org_id : Bytes) (reg : WebhookRegistration) (db : Db env)
      → (store_webhook env caller org_id reg db).1.secrets ≡ db.secrets
  unfolding store_webhook put_webhook
  store_webhook-secrets caller org_id reg db = grind (arith, record_audit-secrets)

  pub answer_delete_webhook-secrets :
      (caller : Caller) (org_id id : Bytes) (r : Result Bool) (db : Db env)
      → (answer_delete_webhook env caller org_id id r db).1.secrets ≡ db.secrets
  unfolding answer_delete_webhook
  answer_delete_webhook-secrets caller org_id id r db = grind (arith, record_audit-secrets)

  pub answer_list-secrets :
      (caller : Caller) (org_id : Bytes) (r : Result (List SecretMeta)) (db : Db env)
      → (answer_list env caller org_id r db).1.secrets ≡ db.secrets
  unfolding answer_list
  answer_list-secrets caller org_id r db = grind (arith, record_audit-secrets)

  module _ (state : AppState) where
    pub answer_get-secrets :
        (caller : Caller) (org_id key : Bytes) (r : Result GetResult) (db : Db env)
        → (answer_get env state caller org_id key r db).2.secrets ≡ db.secrets
    unfolding answer_get
    answer_get-secrets caller org_id key r db = grind (arith, record_audit-secrets)

    pub answer_prune-secrets :
        (caller : Caller) (org_id : Bytes) (r : Result (List Bytes)) (db : Db env)
        → (answer_prune env state caller org_id r db).2.secrets ≡ db.secrets
    unfolding answer_prune
    answer_prune-secrets caller org_id r db = grind (arith, record_audit-secrets)

    pub answer_patch-secrets :
        (caller : Caller) (org_id key : Bytes) (r : Result (Option SecretMeta)) (db : Db env)
        → (answer_patch env state caller org_id key r db).2.secrets ≡ db.secrets
    unfolding answer_patch
    answer_patch-secrets caller org_id key r db = grind (arith, record_audit-secrets)

    pub answer_delete-secrets :
        (caller : Caller) (org_id key : Bytes) (r : Result Bool) (db : Db env)
        → (answer_delete env state caller org_id key r db).2.secrets ≡ db.secrets
    unfolding answer_delete
    answer_delete-secrets caller org_id key r db = grind (arith, record_audit-secrets)
