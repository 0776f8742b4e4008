-- ===== src/OrgHandlers/Roles.antt =====
-- crates/sirr-server/src/org_handlers.rs: `create_role`, `list_roles` and `delete_role`.
use sirr.Prelude.{ℤ, Bool, true, false, not, Option, none, some, List, map, ◌++◌, if◌then◌else◌}
use sirr.Text.{Bytes, codes}
use sirr.Result.{Result, Error, ok, err, builtin_role, role_in_use}
use sirr.Permissions.{
  ParseResult, parsed, invalid_letter, parse, has, to_letter_string, manage_org, account_read_org,
  sirr_admin,
}
use sirr.Records.{RoleRecord}
use sirr.Database.{Env, Db}
use sirr.Directory.Roles.{put_role, list_roles, delete_role}
use sirr.Auth.{ResolvedAuth}
use sirr.OrgHandlers.{
  Caller, Reply, forbidden, internal_error, missing, conflict, deleted, bad_request, bad_role_name,
  bad_letter, sirr_admin_in_role, created_role, shown_roles, ShownRole, master_or, reject_if, ◌<|>◌,
  unless_ended, check_name, log,
}

pub record CreateRoleRequest : Type 0 where
  pub name : Bytes
  pub permissions : Bytes

-- The message contains "cannot delete".
abbrev pub is_kept_role : Error → Bool
is_kept_role (builtin_role name) = true
is_kept_role (role_in_use name id) = true
is_kept_role _ = false

-- The letters, parsed, with no `S` among them.
abbrev pub check_permissions : ParseResult → Option Reply
check_permissions (invalid_letter ch) = some (bad_request (bad_letter ch))
check_permissions (parsed p) = reject_if (has p sirr_admin) (bad_request sirr_admin_in_role)

abbrev pub shown_role : RoleRecord → ShownRole
shown_role r = record {
  name = r.name;
  permissions = to_letter_string r.permissions;
  built_in = r.built_in;
  org_id = r.org_id;
  created_at = r.created_at;
}

module _ (env : Env) where
  unfoldable pub create_role_checks : ResolvedAuth → Bytes → CreateRoleRequest → Option Reply
  create_role_checks auth org_id body =
      reject_if (not (master_or manage_org auth org_id)) forbidden
      <|> check_name 64 bad_role_name body.name
      <|> check_permissions (parse body.permissions)

  unfoldable pub store_role : Caller → Bytes → RoleRecord → Db env → Reply × Db env
  store_role caller org_id role db =
      let (r, db') = put_role env role db in
      elim r [
        | ok _ ↦ (
          created_role role.name (to_letter_string role.permissions) role.org_id,
          log env caller (codes "role.create") none true (some (codes "role=" ++ role.name))
              (some org_id) db',
        )
        | err e ↦ (internal_error, db')
      ]

  -- What is done with the letters: the checks have turned away those that do not parse.
  unfoldable pub store_parsed : Caller → ℤ → Bytes → Bytes → ParseResult → Db env → Reply × Db env
  store_parsed caller now org_id name (invalid_letter ch) db = (bad_request (bad_letter ch), db)
  store_parsed caller now org_id name (parsed p) db =
      store_role caller org_id
        (record {
          name = name;
          org_id = some org_id;
          permissions = p;
          built_in = false;
          created_at = now;
        })
        db

  unfoldable pub create_role : Caller → ℤ → Bytes → CreateRoleRequest → Db env → Reply × Db env
  create_role caller now org_id body db =
      unless_ended (create_role_checks caller.auth org_id body) (λ r. (r, db))
        (store_parsed caller now org_id body.name (parse body.permissions) db)

  abbrev pub answer_roles : Result (List RoleRecord) → Reply
  answer_roles (ok roles) = shown_roles (map shown_role roles)
  answer_roles (err e) = internal_error

  unfoldable pub show_roles : ResolvedAuth → Bytes → Db env → Reply
  show_roles auth org_id db =
      unless_ended (reject_if (not (master_or account_read_org auth org_id)) forbidden) (λ r. r)
        (answer_roles (list_roles env (some org_id) db))

  unfoldable pub answer_delete_role : Caller → Bytes → Bytes → Result Bool → Db env → Reply × Db env
  answer_delete_role caller org_id name (ok true) db = (
    deleted,
    log env caller (codes "role.delete") none true (some (codes "role=" ++ name)) (some org_id) db,
  )
  answer_delete_role caller org_id name (ok false) db = (missing (codes "role not found"), db)
  answer_delete_role caller org_id name (err e) db =
      (if is_kept_role e then conflict e else internal_error, db)

  unfoldable pub remove_role : Caller → Bytes → Bytes → Db env → Reply × Db env
  remove_role caller org_id name db =
      unless_ended (reject_if (not (master_or manage_org caller.auth org_id)) forbidden)
        (λ r. (r, db))
        (let (r, db') = delete_role env (some org_id) name db in
          answer_delete_role caller org_id name r db')
