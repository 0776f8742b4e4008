-- ===== src/Directory/Principals.antt =====
-- crates/sirr-server/src/store/db.rs: `put_principal`, `get_principal`, `list_principals` and
-- `delete_principal`.
use sirr.Prelude.{ℤ, Bool, not, Option, none, some, List, [], ◌∷◌, ltb_ℤ, if◌then◌else◌}
use sirr.Text.{Bytes, starts_with, join_colon}
use sirr.Result.{Result, ok, err, ◌>>=◌, has_active_keys}
use sirr.Records.{PrincipalRecord}
use sirr.Database.{Env, Db}
use sirr.Directory.{get_decoded, decode_under, is_present}

module _ (env : Env) where
  unfoldable pub put_principal : PrincipalRecord → Db env → Result (Unit {0}) × Db env
  put_principal p db = elim (env.principal_codec.encode p) [
    | ok bytes ↦ (
      ok tt,
      record db { principals = env.tables.insert db.principals (join_colon p.org_id p.id) bytes },
    )
    | err e ↦ (err e, db)
  ]

  unfoldable pub get_principal : Bytes → Bytes → Db env → Result (Option PrincipalRecord)
  get_principal org_id principal_id db =
      get_decoded env env.principal_codec db.principals (join_colon org_id principal_id)

  unfoldable pub list_principals : Bytes → Db env → Result (List PrincipalRecord)
  list_principals org_id db =
      decode_under env env.principal_codec (join_colon org_id []) (env.tables.iter db.principals)

  -- The keys of the principal in the index: an error if one of them is still valid.
  unfoldable pub check_no_active_keys :
      ℤ → Bytes → env.tables.Table → List (Bytes × Bytes) → Result (Unit {0})
  check_no_active_keys now principal_id keys_table [] = ok tt
  check_no_active_keys now principal_id keys_table ((k, hash) ∷ entries) =
      let rest = check_no_active_keys now principal_id keys_table entries in
      if not (starts_with k (join_colon principal_id []))
      then rest
      else get_decoded env env.key_codec keys_table hash >>= λ found. elim found [
        | none ↦ rest
        | some key_record ↦
            if ltb_ℤ now key_record.valid_before then err (has_active_keys principal_id) else rest
      ]

  -- The check of the keys and the removal are two transactions.
  unfoldable pub delete_principal : ℤ → Bytes → Bytes → Db env → Result Bool × Db env
  delete_principal now org_id principal_id db =
      elim (check_no_active_keys now principal_id db.principal_keys
        (env.tables.iter db.principal_key_ix)) [
          | ok _ ↦ (
            ok (is_present (env.tables.get db.principals (join_colon org_id principal_id))),
            record db {
              principals = env.tables.remove db.principals (join_colon org_id principal_id);
            },
          )
          | err e ↦ (err e, db)
        ]
