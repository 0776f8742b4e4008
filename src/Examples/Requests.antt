-- ===== src/Examples/Requests.antt =====
-- Requests that crates/sirr-server/src/auth.rs recognises, at concrete inputs.
use sirr.Prelude.{[], pos, false, Option, none, some, ◌≡◌, ◌⊎◌, refl}
use sirr.Text.{Bytes, codes, bytes_eq, bytes_eq_iff, join_colon, strip_prefix}
use sirr.Records.{PrincipalRecord, PrincipalKeyRecord, RoleRecord}
use sirr.External.Tables.{lookup}
use sirr.Database.{Db}
use sirr.Samples.Setting.{setting, new_db}
use sirr.Directory.{get_decoded}
use sirr.Directory.Principals.{put_principal, get_principal}
use sirr.Directory.PrincipalKeys.{
  put_principal_key, find_principal_key_by_hash, delete_principal_key,
}
use sirr.Directory.Roles.{put_role, get_role, role_table_key}
use sirr.Auth.{
  Tokens, Principal, master, principal, proceed, unauthorized, bearer_token, is_admin_key,
  role_permissions, found_principal, with_role, with_principal, with_key, found_key, with_token,
  require_auth,
}
use sirr.Auth.Grants.{Recognised, require_auth_master, require_auth_principal, require_auth_revoked}

-- The hash keeps the token.
abbrev tokens : Tokens
tokens = record {
  sha256 = λ t. t;
  constant_time_eq = bytes_eq;
  constant_time_eq_iff = bytes_eq_iff;
}

abbrev acme : Bytes
acme = codes "acme"

abbrev ann : PrincipalRecord
ann = record {
  id = codes "p1";
  org_id = acme;
  name = codes "ann";
  role = codes "dev";
  metadata = [];
  created_at = pos 1;
}

abbrev ann_key : PrincipalKeyRecord
ann_key = record {
  id = codes "k1";
  principal_id = codes "p1";
  org_id = acme;
  name = codes "ci";
  key_hash = codes "t";
  valid_after = pos 10;
  valid_before = pos 20;
  created_at = pos 1;
}

abbrev dev : RoleRecord
dev = record {
  name = codes "dev";
  org_id = some acme;
  permissions = record { raw = 1 };
  built_in = false;
  created_at = pos 1;
}

abbrev db : Db setting
db =
    (put_principal_key setting ann_key
      (put_principal setting ann (put_role setting dev new_db).1).1).1

abbrev header : Option Bytes
header = some (codes "Bearer t")

abbrev ann_identity : Principal
ann_identity = record {
  principal_id = codes "p1";
  org_id = acme;
  key_id = codes "k1";
  key_name = codes "ci";
  permissions = record { raw = 1 };
}

ann-recognised :
    require_auth tokens setting (pos 15) none header db ≡ proceed (principal ann_identity)
unfolding require_auth bearer_token strip_prefix is_admin_key with_token found_key
    find_principal_key_by_hash get_decoded put_principal_key put_principal put_role role_table_key
    lookup bytes_eq join_colon with_key with_principal found_principal get_principal
    role_permissions get_role with_role
ann-recognised = refl

require_auth_principal_example : Recognised tokens setting (pos 15) header ann_identity db
require_auth_principal_example =
    require_auth_principal tokens setting (pos 15) none header ann_identity db ann-recognised

admin-recognised :
    require_auth tokens setting (pos 15) (some (codes "t")) header db ≡ proceed master
unfolding require_auth bearer_token strip_prefix is_admin_key bytes_eq
admin-recognised = refl

require_auth_master_example :
    ((some (codes "t") ≡ none) × (bearer_token header ≡ none))
    ⊎ ((key : Bytes) × (some (codes "t") ≡ some key) × (bearer_token header ≡ some key))
require_auth_master_example =
    require_auth_master tokens setting (pos 15) (some (codes "t")) header db admin-recognised

require_auth_revoked_example :
    require_auth tokens setting
      (pos 15)
      none
      header
      (delete_principal_key setting (codes "p1") (codes "k1") db).1
    ≡ unauthorized
unfolding bearer_token strip_prefix put_principal_key lookup bytes_eq join_colon put_principal
    put_role
require_auth_revoked_example =
    require_auth_revoked tokens setting (pos 15) none header (codes "t") (codes "p1") (codes "k1")
      db refl (λ e. cc) refl
