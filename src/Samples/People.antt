-- ===== src/Samples/People.antt =====
-- Two organisations, their principals and the parameters that requests are handled with.
use sirr.Prelude.{ℕ, pos, true, false, none, some, []}
use sirr.Text.{Bytes, codes, bytes_eq, bytes_eq_iff}
use sirr.Permissions.{all_permissions, no_permissions}
use sirr.Records.{OrgRecord, PrincipalRecord, RoleRecord}
use sirr.Database.{Db}
use sirr.Directory.Orgs.{put_org}
use sirr.Directory.Principals.{put_principal}
use sirr.Directory.Roles.{put_role}
use sirr.OrgSecrets.{put_org_secret}
use sirr.License.{free}
use sirr.Webhooks.Guard.{Parsers}
use sirr.Auth.{Tokens, Principal, master, principal}
use sirr.OrgHandlers.{AppState, Caller}
use sirr.Samples.Setting.{setting, store, new_db}

-- The hash keeps the token.
abbrev pub tokens : Tokens
tokens = record {
  sha256 = λ t. t;
  constant_time_eq = bytes_eq;
  constant_time_eq_iff = bytes_eq_iff;
}

-- No text is a URL or an address.
abbrev pub parsers : Parsers
parsers = record {
  Ip = ℕ;
  parse_uri = λ url. none;
  parse_ip = λ host. none;
  contains = λ range ip. false;
}

abbrev pub state : AppState
state = record {
  store = store;
  license = free;
  webhook_allowed_origins = [];
  has_sender = true;
  redact_audit_keys = true;
}

abbrev pub acme : Bytes
acme = codes "acme"

abbrev pub rival : Bytes
rival = codes "rival"

-- Ann may do everything in acme; Bob is of the other organisation, and may do nothing.
abbrev pub ann : Principal
ann = record {
  principal_id = codes "p1";
  org_id = acme;
  key_id = codes "k1";
  key_name = codes "ci";
  permissions = all_permissions;
}

abbrev pub bob : Principal
bob = record {
  principal_id = codes "p2";
  org_id = rival;
  key_id = codes "k2";
  key_name = codes "ci";
  permissions = no_permissions;
}

abbrev pub by_ann : Caller
by_ann = record { auth = principal ann; ip = codes "1.1.1.1"; clock = pos 50 }

abbrev pub by_bob : Caller
by_bob = record { auth = principal bob; ip = codes "2.2.2.2"; clock = pos 50 }

abbrev pub by_master : Caller
by_master = record { auth = master; ip = codes "3.3.3.3"; clock = pos 50 }

abbrev pub owner : RoleRecord
owner = record {
  name = codes "owner";
  org_id = none;
  permissions = all_permissions;
  built_in = true;
  created_at = pos 0;
}

abbrev pub acme_record : OrgRecord
acme_record = record { id = acme; name = codes "Acme"; metadata = []; created_at = pos 1 }

abbrev pub ann_record : PrincipalRecord
ann_record = record {
  id = codes "p1";
  org_id = acme;
  name = codes "ann";
  role = codes "owner";
  metadata = [];
  created_at = pos 1;
}

-- Acme with Ann as its owner, and a secret of hers.
abbrev pub with_acme : Db setting
with_acme =
    (put_principal setting ann_record
      (put_org setting acme_record (put_role setting owner new_db).1).1).1

abbrev pub with_secret : Db setting
with_secret =
    (put_org_secret setting store (pos 10) [] acme (codes "a") (codes "hi") none (some 5) true none
      (some (codes "p1")) none with_acme).1
