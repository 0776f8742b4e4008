-- ===== src/Bootstrap.antt =====
-- crates/sirr-server/src/server.rs, `auto_init_bootstrap`: the first organisation, its principal and two
-- keys. The random identifiers and keys are arguments; what is printed is the result.
pub mod Access
use sirr.Prelude.{
  ℤ, pos, ◌+i64◌, Bool, true, false, not, Option, some, List, [], ◌∷◌, ◌++◌, is_empty,
  if◌then◌else◌,
}
use sirr.Text.{Bytes, codes}
use sirr.Result.{Result, ok, err}
use sirr.Records.{OrgRecord, PrincipalRecord, PrincipalKeyRecord}
use sirr.Database.{Env, Db}
use sirr.Directory.Orgs.{put_org, list_orgs}
use sirr.Directory.Principals.{put_principal}
use sirr.Directory.PrincipalKeys.{put_principal_key}
use sirr.Auth.{Tokens}

-- What is drawn at random: identifiers, and for each key its identifier and its text.
pub record Draws : Type 0 where
  pub org_id : Bytes
  pub principal_id : Bytes
  pub first : Bytes × Bytes
  pub second : Bytes × Bytes

abbrev pub default_org : ℤ → Draws → OrgRecord
default_org now draws = record {
  id = draws.org_id;
  name = codes "default";
  metadata = [];
  created_at = now;
}

abbrev pub admin_principal : ℤ → Draws → PrincipalRecord
admin_principal now draws = record {
  id = draws.principal_id;
  org_id = draws.org_id;
  name = codes "admin";
  role = codes "admin";
  metadata = [];
  created_at = now;
}

-- `sirr_key_` and the random digits.
abbrev pub bootstrap_key : Bytes → Bytes
bootstrap_key random = codes "sirr_key_" ++ random

abbrev pub temporary_key : Tokens → ℤ → Draws → Bytes → Bytes × Bytes → PrincipalKeyRecord
temporary_key tokens now draws name (key_id, random) = record {
  id = key_id;
  principal_id = draws.principal_id;
  org_id = draws.org_id;
  name = name;
  key_hash = tokens.sha256 (bootstrap_key random);
  valid_after = now;
  valid_before = now +i64 pos 1800;
  created_at = now;
}

-- `?` on an operation of the store.
abbrev pub and_then {ℓ κ} :
    {A : Type ℓ} {B : Type κ} {Db : Type 0} → Result A × Db → (Db → Result B × Db) → Result B × Db
and_then (ok a, db) next = next db
and_then (err e, db) next = (err e, db)

module _ (tokens : Tokens) (env : Env) where
  unfoldable pub create_default : ℤ → Draws → Db env → Result (List (Bytes × Bytes)) × Db env
  create_default now draws db = and_then (put_org env (default_org now draws) db) λ db1.
      and_then (put_principal env (admin_principal now draws) db1) λ db2.
        and_then
          (put_principal_key env
            (temporary_key tokens now draws (codes "bootstrap-key-1") draws.first) db2)
          λ db3.
            and_then
              (put_principal_key env
                (temporary_key tokens now draws (codes "bootstrap-key-2") draws.second) db3)
              λ db4. (
                ok (
                    (draws.first.0, bootstrap_key draws.first.1)
                    ∷ (draws.second.0, bootstrap_key draws.second.1)
                    ∷ []),
                db4,
              )

  unfoldable pub if_no_orgs :
      Result (List OrgRecord) → ℤ → Draws → Db env → Result (List (Bytes × Bytes)) × Db env
  if_no_orgs (err e) now draws db = (err e, db)
  if_no_orgs (ok orgs) now draws db =
      if not (is_empty orgs) then (ok [], db) else create_default now draws db

  unfoldable pub auto_init_bootstrap : ℤ → Draws → Db env → Result (List (Bytes × Bytes)) × Db env
  auto_init_bootstrap now draws db = if_no_orgs (list_orgs env db) now draws db
