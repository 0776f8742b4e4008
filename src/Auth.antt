-- ===== src/Auth.antt =====
-- crates/sirr-server/src/auth.rs: who a request comes from and what it may do. The hash (`sha2`) and
-- the comparison in constant time (`constant_time_eq`) are parameters.
pub mod Grants
pub mod Access
use sirr.Prelude.{
  ℕ, ℤ, Bool, true, false, not, ◌&&◌, ◌||◌, Option, none, some, List, [], ◌∷◌, ◌≡◌, ◌↔◌, ltb_ℤ,
  leb_ℤ, ◌==◌, if◌then◌else◌,
}
use sirr.Text.{Bytes, codes, bytes_eq, strip_prefix}
use sirr.Result.{Result, ok, err}
use sirr.Permissions.{Permissions, PermBit, sirr_admin, discriminant, has}
use sirr.Records.{PrincipalRecord, PrincipalKeyRecord, RoleRecord}
use sirr.Database.{Env, Db}
use sirr.Directory.Principals.{get_principal}
use sirr.Directory.PrincipalKeys.{find_principal_key_by_hash}
use sirr.Directory.Roles.{get_role}

-- `constant_time_eq` is equality.
pub record Tokens : Type 0 where
  pub sha256 : Bytes → Bytes
  pub constant_time_eq : Bytes → Bytes → Bool
  pub constant_time_eq_iff : (a b : Bytes) → (constant_time_eq a b ≡ true) ↔ (a ≡ b)

pub record Principal : Type 0 where
  pub principal_id : Bytes
  pub org_id : Bytes
  pub key_id : Bytes
  pub key_name : Bytes
  pub permissions : Permissions

pub data ResolvedAuth : Type 0 where
  master : ResolvedAuth
  principal : Principal → ResolvedAuth

abbrev pub is_master : ResolvedAuth → Bool
is_master master = true
is_master (principal p) = false

abbrev pub org_id_of : ResolvedAuth → Option Bytes
org_id_of master = none
org_id_of (principal p) = some p.org_id

abbrev pub principal_id_of : ResolvedAuth → Option Bytes
principal_id_of master = none
principal_id_of (principal p) = some p.principal_id

abbrev pub key_name_of : ResolvedAuth → Option Bytes
key_name_of master = none
key_name_of (principal p) = some p.key_name

-- `ResolvedAuth::has`; two bits are the same if their discriminants are.
unfoldable pub auth_has : ResolvedAuth → PermBit → Bool
auth_has master bit = discriminant bit == discriminant sirr_admin
auth_has (principal p) bit = has p.permissions bit

unfoldable pub is_owner : Option Bytes → Bytes → Bool
is_owner none principal_id = false
is_owner (some owner) principal_id = bytes_eq owner principal_id

unfoldable pub can_access_secret : ResolvedAuth → Option Bytes → PermBit → PermBit → Bool
can_access_secret master secret_owner_id my_bit org_bit = false
can_access_secret (principal p) secret_owner_id my_bit org_bit =
    if has p.permissions org_bit
    then true
    else if has p.permissions my_bit
    then is_owner secret_owner_id p.principal_id
    else false

-- What the middleware does with a request: it goes on with an identity, or is answered.
pub data AuthOutcome : Type 0 where
  proceed : ResolvedAuth → AuthOutcome
  unauthorized key_expired_or_not_yet_valid principal_not_found role_not_found : AuthOutcome

-- The token of an `Authorization` header that is text.
unfoldable pub bearer_token : Option Bytes → Option Bytes
bearer_token none = none
bearer_token (some v) = strip_prefix v (codes "Bearer ")

-- The identity that a key gives.
abbrev pub identity : PrincipalKeyRecord → Permissions → Principal
identity key_record permissions = record {
  principal_id = key_record.principal_id;
  org_id = key_record.org_id;
  key_id = key_record.id;
  key_name = key_record.name;
  permissions = permissions;
}

module _ (tokens : Tokens) where
  -- The configured key is presented.
  unfoldable pub is_admin_key : Option Bytes → Bytes → Bool
  is_admin_key none token = false
  is_admin_key (some expected) token = tokens.constant_time_eq token expected

  module _ (env : Env) where
    -- The role of the organisation, or the built-in one; an error counts as no role.
    unfoldable pub builtin_permissions : Bytes → Db env → Option Permissions
    builtin_permissions role db = elim (get_role env none role db) [
      | err e ↦ none
      | ok found ↦ elim found [ none ↦ none | some r ↦ some r.permissions ]
    ]

    unfoldable pub role_permissions : Bytes → Bytes → Db env → Option Permissions
    role_permissions org_id role db = elim (get_role env (some org_id) role db) [
      | err e ↦ builtin_permissions role db
      | ok found ↦ elim found [ none ↦ builtin_permissions role db | some r ↦ some r.permissions ]
    ]

    unfoldable pub found_principal : PrincipalKeyRecord → Db env → Option PrincipalRecord
    found_principal key_record db =
        elim (get_principal env key_record.org_id key_record.principal_id db) [
          | err e ↦ none
          | ok found ↦ found
        ]

    unfoldable pub with_role : PrincipalKeyRecord → Option Permissions → AuthOutcome
    with_role key_record none = role_not_found
    with_role key_record (some permissions) = proceed (principal (identity key_record permissions))

    unfoldable pub with_principal :
        PrincipalKeyRecord → Option PrincipalRecord → Db env → AuthOutcome
    with_principal key_record none db = principal_not_found
    with_principal key_record (some p) db =
        with_role key_record (role_permissions key_record.org_id p.role db)

    unfoldable pub with_key : ℤ → PrincipalKeyRecord → Db env → AuthOutcome
    with_key now key_record db =
        if ltb_ℤ now key_record.valid_after || leb_ℤ key_record.valid_before now
        then key_expired_or_not_yet_valid
        else with_principal key_record (found_principal key_record db) db

    unfoldable pub found_key : Bytes → Db env → Option PrincipalKeyRecord
    found_key token db = elim (find_principal_key_by_hash env (tokens.sha256 token) db) [
      | err e ↦ none
      | ok found ↦ found
    ]

    unfoldable pub with_token : ℤ → Option PrincipalKeyRecord → Db env → AuthOutcome
    with_token now none db = unauthorized
    with_token now (some key_record) db = with_key now key_record db

    unfoldable pub require_auth : ℤ → Option Bytes → Option Bytes → Db env → AuthOutcome
    require_auth now api_key authorization db = elim (bearer_token authorization) [
      | none ↦ elim api_key [ none ↦ proceed master | some expected ↦ unauthorized ]
      | some token ↦
          if is_admin_key api_key token
          then proceed master
          else with_token now (found_key token db) db
    ]

  unfoldable pub require_master_key : Option Bytes → Option Bytes → AuthOutcome
  require_master_key none authorization = proceed master
  require_master_key (some expected) authorization = elim (bearer_token authorization) [
    | none ↦ unauthorized
    | some token ↦ if tokens.constant_time_eq token expected then proceed master else unauthorized
  ]
