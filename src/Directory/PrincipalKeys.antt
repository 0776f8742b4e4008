-- ===== src/Directory/PrincipalKeys.antt =====
-- crates/sirr-server/src/store/db.rs: the keys of principals, by hash and in an index by principal.
use sirr.Prelude.{Bool, true, false, not, Option, none, some, List, [], ◌∷◌, if◌then◌else◌}
use sirr.Text.{Bytes, starts_with, join_colon}
use sirr.Result.{Result, ok, err, ◌>>=◌}
use sirr.Records.{PrincipalKeyRecord}
use sirr.Database.{Env, Db}
use sirr.Directory.{get_decoded}

module _ (env : Env) where
  unfoldable pub put_principal_key : PrincipalKeyRecord → Db env → Result (Unit {0}) × Db env
  put_principal_key key db = elim (env.key_codec.encode key) [
    | ok bytes ↦ (
      ok tt,
      record db {
        principal_keys = env.tables.insert db.principal_keys key.key_hash bytes;
        principal_key_ix =
            env.tables.insert db.principal_key_ix (join_colon key.principal_id key.id) key.key_hash;
      },
    )
    | err e ↦ (err e, db)
  ]

  unfoldable pub find_principal_key_by_hash : Bytes → Db env → Result (Option PrincipalKeyRecord)
  find_principal_key_by_hash hash db = get_decoded env env.key_codec db.principal_keys hash

  -- The keys of the index entries under the prefix; a hash without a record is passed over.
  unfoldable pub keys_under :
      Bytes → env.tables.Table → List (Bytes × Bytes) → Result (List PrincipalKeyRecord)
  keys_under prefix keys_table [] = ok []
  keys_under prefix keys_table ((k, hash) ∷ entries) =
      let rest = keys_under prefix keys_table entries in
      if not (starts_with k prefix)
      then rest
      else get_decoded env env.key_codec keys_table hash >>= λ found. elim found [
        | none ↦ rest
        | some key_record ↦ rest >>= λ records. ok (key_record ∷ records)
      ]

  unfoldable pub list_principal_keys : Bytes → Db env → Result (List PrincipalKeyRecord)
  list_principal_keys principal_id db =
      keys_under (join_colon principal_id []) db.principal_keys
        (env.tables.iter db.principal_key_ix)

  unfoldable pub delete_principal_key : Bytes → Bytes → Db env → Result Bool × Db env
  delete_principal_key principal_id key_id db =
      elim (env.tables.get db.principal_key_ix (join_colon principal_id key_id)) [
        | none ↦ (ok false, db)
        | some hash ↦ (
          ok true,
          record db {
            principal_key_ix =
                env.tables.remove db.principal_key_ix (join_colon principal_id key_id);
            principal_keys = env.tables.remove db.principal_keys hash;
          },
        )
      ]
