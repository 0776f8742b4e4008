-- ===== src/OrgHandlers/Principals.antt =====
-- crates/sirr-server/src/org_handlers.rs: `create_principal`, `list_principals` and
-- `delete_principal`.
use sirr.Prelude.{ℤ, Bool, true, false, not, Option, none, some, List, ◌++◌, if◌then◌else◌}
use sirr.Text.{Bytes, codes}
use sirr.Result.{Result, Error, ok, err, has_active_keys}
use sirr.Permissions.{manage_org, account_read_org}
use sirr.Records.{Metadata, OrgRecord, PrincipalRecord, RoleRecord}
use sirr.Database.{Env, Db}
use sirr.Directory.Orgs.{get_org}
use sirr.Directory.Principals.{put_principal, list_principals, delete_principal}
use sirr.Directory.Roles.{get_role}
use sirr.License.{effective_tier, max_principals_per_org}
use sirr.Auth.{ResolvedAuth}
use sirr.OrgHandlers.{
  AppState, Caller, Reply, forbidden, internal_error, missing, conflict, deleted, bad_request,
  bad_name, unknown_role, created_principal, shown_principals, master_or, reject_if, ◌<|>◌,
  unless_ended, check_name, check_metadata, check_quota, log,
}

pub record CreatePrincipalRequest : Type 0 where
  pub name : Bytes
  pub role : Bytes
  pub metadata : Metadata

-- The message contains "has active keys".
abbrev pub has_keys : Error → Bool
has_keys (has_active_keys id) = true
has_keys _ = false

abbrev pub check_org : Result (Option OrgRecord) → Option Reply
check_org (ok none) = some (missing (codes "org not found"))
check_org (ok (some org)) = none
check_org (err e) = some internal_error

-- `matches!(…, Ok(Some(_)))` on the built-in role.
abbrev pub check_builtin : Bytes → Result (Option RoleRecord) → Option Reply
check_builtin role (ok (some r)) = none
check_builtin role _ = some (bad_request (unknown_role role))

-- The role of the organisation, and where there is none the built-in one.
abbrev pub check_role :
    Bytes → Result (Option RoleRecord) → Result (Option RoleRecord) → Option Reply
check_role role (ok (some r)) builtin = none
check_role role (ok none) builtin = check_builtin role builtin
check_role role (err e) builtin = some internal_error

module _ (env : Env) where
  unfoldable pub store_principal : Caller → PrincipalRecord → Db env → Reply × Db env
  store_principal caller p db =
      let (r, db') = put_principal env p db in
      elim r [
        | ok _ ↦ (
          created_principal p,
          log env caller (codes "principal.create") none true (some (codes "principal_id=" ++ p.id))
              (some p.org_id) db',
        )
        | err e ↦ (internal_error, db')
      ]

module _ (env : Env) (state : AppState) where
  unfoldable pub create_principal_checks :
      ResolvedAuth → Bytes → CreatePrincipalRequest → Db env → Option Reply
  create_principal_checks auth org_id body db =
      reject_if (not (master_or manage_org auth org_id)) forbidden
      <|> check_name 128 bad_name body.name
      <|> check_metadata body.metadata
      <|> check_org (get_org env org_id db)
      <|> check_role body.role (get_role env (some org_id) body.role db)
          (get_role env none body.role db)
      <|> check_quota (max_principals_per_org (effective_tier state.license))
          (list_principals env org_id db)

  unfoldable pub create_principal :
      Caller → ℤ → Bytes → Bytes → CreatePrincipalRequest → Db env → Reply × Db env
  create_principal caller now id org_id body db =
      unless_ended (create_principal_checks caller.auth org_id body db) (λ r. (r, db))
        (store_principal env caller
          (record {
            id = id;
            org_id = org_id;
            name = body.name;
            role = body.role;
            metadata = body.metadata;
            created_at = now;
          })
          db)

module _ (env : Env) where
  abbrev pub answer_principals : Result (List PrincipalRecord) → Reply
  answer_principals (ok principals) = shown_principals principals
  answer_principals (err e) = internal_error

  unfoldable pub show_principals : ResolvedAuth → Bytes → Db env → Reply
  show_principals auth org_id db =
      unless_ended (reject_if (not (master_or account_read_org auth org_id)) forbidden) (λ r. r)
        (answer_principals (list_principals env org_id db))

  unfoldable pub answer_delete_principal :
      Caller → Bytes → Bytes → Result Bool → Db env → Reply × Db env
  answer_delete_principal caller org_id id (ok true) db = (
    deleted,
    log env caller (codes "principal.delete") none true (some (codes "principal_id=" ++ id))
        (some org_id) db,
  )
  answer_delete_principal caller org_id id (ok false) db =
      (missing (codes "principal not found"), db)
  answer_delete_principal caller org_id id (err e) db =
      (if has_keys e then conflict e else internal_error, db)

  unfoldable pub remove_principal : Caller → ℤ → Bytes → Bytes → Db env → Reply × Db env
  remove_principal caller now org_id id db =
      unless_ended (reject_if (not (master_or manage_org caller.auth org_id)) forbidden)
        (λ r. (r, db))
        (let (r, db') = delete_principal env now org_id id db in
          answer_delete_principal caller org_id id r db')
