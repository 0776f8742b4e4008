-- ===== src/Directory/Roles.antt =====
-- crates/sirr-server/src/store/db.rs: the roles, built in and of organisations, and the seeding of
-- the built-in ones by `open_versioned`; store/org.rs: the built-in roles and `validate_metadata`.
use sirr.Prelude.{
  ℕ, pos, Bool, true, not, ◌||◌, Option, none, some, List, [], ◌∷◌, length, ltb, if◌then◌else◌,
}
use sirr.Text.{Bytes, codes, bytes_eq, starts_with, join_colon}
use sirr.Result.{Result, ok, err, ◌>>=◌, role_in_use, builtin_role}
use sirr.Permissions.{Permissions, parsed, invalid_letter, parse, all_permissions, no_permissions}
use sirr.Records.{RoleRecord, Metadata}
use sirr.Database.{Env, Db}
use sirr.Directory.{get_decoded, is_present}

unfoldable pub role_table_key : Option Bytes → Bytes → Bytes
role_table_key none name = join_colon (codes "builtin") name
role_table_key (some oid) name = join_colon oid name

module _ (env : Env) where
  unfoldable pub put_role : RoleRecord → Db env → Result (Unit {0}) × Db env
  put_role role db = elim (env.role_codec.encode role) [
    | ok bytes ↦ (
      ok tt,
      record db { roles = env.tables.insert db.roles (role_table_key role.org_id role.name) bytes },
    )
    | err e ↦ (err e, db)
  ]

  unfoldable pub get_role : Option Bytes → Bytes → Db env → Result (Option RoleRecord)
  get_role org_id name db = get_decoded env env.role_codec db.roles (role_table_key org_id name)

  -- The keys that `list_roles` includes.
  unfoldable pub is_listed : Option Bytes → Bytes → Bool
  is_listed none k = starts_with k (join_colon (codes "builtin") [])
  is_listed (some oid) k =
      starts_with k (join_colon (codes "builtin") []) || starts_with k (join_colon oid [])

  unfoldable pub roles_listed : Option Bytes → List (Bytes × Bytes) → Result (List RoleRecord)
  roles_listed org_id [] = ok []
  roles_listed org_id ((k, bytes) ∷ entries) =
      let rest = roles_listed org_id entries in
      if is_listed org_id k
      then (do role ← env.role_codec.decode bytes; roles ← rest; ok (role ∷ roles))
      else rest

  unfoldable pub list_roles : Option Bytes → Db env → Result (List RoleRecord)
  list_roles org_id db = roles_listed org_id (env.tables.iter db.roles)

  -- The principals of the organisation: an error if one of them has the role.
  unfoldable pub check_unused : Bytes → Bytes → List (Bytes × Bytes) → Result (Unit {0})
  check_unused oid name [] = ok tt
  check_unused oid name ((k, bytes) ∷ entries) =
      let rest = check_unused oid name entries in
      if not (starts_with k (join_colon oid []))
      then rest
      else env.principal_codec.decode bytes >>= λ principal.
          if bytes_eq principal.role name then err (role_in_use name principal.id) else rest

  -- The check of the principals and the removal are two transactions.
  unfoldable pub delete_role : Option Bytes → Bytes → Db env → Result Bool × Db env
  delete_role none name db = (err (builtin_role name), db)
  delete_role (some oid) name db = elim (check_unused oid name (env.tables.iter db.principals)) [
    | ok _ ↦ (
      ok (is_present (env.tables.get db.roles (role_table_key (some oid) name))),
      record db { roles = env.tables.remove db.roles (role_table_key (some oid) name) },
    )
    | err e ↦ (err e, db)
  ]

-- `Permissions::parse(s).unwrap()` on the letters of a built-in role, which all are letters.
abbrev pub letters : Bytes → Permissions
letters s = elim (parse s) [ parsed p ↦ p | invalid_letter ch ↦ no_permissions ]

abbrev pub builtin : Bytes → Permissions → RoleRecord
builtin name permissions = record {
  name = name;
  org_id = none;
  permissions = permissions;
  built_in = true;
  created_at = pos 0;
}

unfoldable pub builtin_roles : List RoleRecord
builtin_roles =
    builtin (codes "reader") (letters (codes "rla"))
    ∷ builtin (codes "writer") (letters (codes "rlcpdam"))
    ∷ builtin (codes "admin") (letters (codes "rRlLcCpPaAmMdD"))
    ∷ builtin (codes "owner") all_permissions
    ∷ []

-- The seeding of `open_versioned`: a role that is not there is inserted.
unfoldable pub seed_roles :
    (env : Env) → List RoleRecord → env.tables.Table → Result env.tables.Table
seed_roles env [] t = ok t
seed_roles env (role ∷ roles) t =
    let kept = seed_roles env roles t in
    let added = λ (bytes : Bytes).
      seed_roles env roles (env.tables.insert t (join_colon (codes "builtin") role.name) bytes) in
    if is_present (env.tables.get t (join_colon (codes "builtin") role.name))
    then kept
    else env.role_codec.encode role >>= added

unfoldable pub open_roles : (env : Env) → Db env → Result (Db env)
open_roles env db = do t ← seed_roles env builtin_roles db.roles; ok (record db { roles = t })

-- What `validate_metadata` finds: too many properties, or the first value that is too long.
pub data MetadataCheck : Type 0 where
  valid : MetadataCheck
  too_many : ℕ → MetadataCheck
  value_too_long : Bytes → ℕ → MetadataCheck

unfoldable pub check_values : Metadata → MetadataCheck
check_values [] = valid
check_values ((key, value) ∷ metadata) =
    if ltb 100 (length value) then value_too_long key (length value) else check_values metadata

unfoldable pub validate_metadata : Metadata → MetadataCheck
validate_metadata metadata =
    if ltb 10 (length metadata) then too_many (length metadata) else check_values metadata
