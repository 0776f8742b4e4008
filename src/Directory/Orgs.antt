-- ===== src/Directory/Orgs.antt =====
-- crates/sirr-server/src/store/db.rs: `put_org`, `get_org`, `list_orgs` and `delete_org`.
use sirr.Prelude.{Bool, Option, List, [], any, if◌then◌else◌}
use sirr.Text.{Bytes, starts_with, join_colon}
use sirr.Result.{Result, ok, err, still_has_principals}
use sirr.Records.{OrgRecord}
use sirr.Database.{Env, Db}
use sirr.Directory.{get_decoded, decode_under, is_present}

module _ (env : Env) where
  unfoldable pub put_org : OrgRecord → Db env → Result (Unit {0}) × Db env
  put_org org db = elim (env.org_codec.encode org) [
    | ok bytes ↦ (ok tt, record db { orgs = env.tables.insert db.orgs org.id bytes })
    | err e ↦ (err e, db)
  ]

  unfoldable pub get_org : Bytes → Db env → Result (Option OrgRecord)
  get_org id db = get_decoded env env.org_codec db.orgs id

  -- Every key starts with the empty prefix.
  unfoldable pub list_orgs : Db env → Result (List OrgRecord)
  list_orgs db = decode_under env env.org_codec [] (env.tables.iter db.orgs)

  -- The scan of the principals and the removal are two transactions.
  unfoldable pub delete_org : Bytes → Db env → Result Bool × Db env
  delete_org id db =
      if any (λ e. starts_with e.0 (join_colon id [])) (env.tables.iter db.principals)
      then (err (still_has_principals id), db)
      else (
        ok (is_present (env.tables.get db.orgs id)),
        record db { orgs = env.tables.remove db.orgs id },
      )
