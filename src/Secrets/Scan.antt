-- ===== src/Secrets/Scan.antt =====
-- crates/sirr-server/src/store/db.rs: `list`, `prune`, `max_key_version` and `rotate`, which go
-- through the whole table of secrets.
use sirr.Prelude.{ℕ, ℤ, suc, max, Bool, ◌||◌, List, [], ◌∷◌, is_empty, if◌then◌else◌}
use sirr.Text.{Bytes}
use sirr.Result.{Result, ok, err, ◌>>=◌}
use sirr.Records.{SecretRecord, SecretMeta, meta_of, is_expired, is_burned}
use sirr.Database.{Env, Db, Store}
use sirr.RecordFormat.{encode, decode, encrypt, decrypt}
use sirr.Secrets.{Table}

-- Records that a prune removes.
unfoldable pub is_prunable : ℤ → SecretRecord → Bool
is_prunable now r = is_expired r now || is_burned r

module _ (env : Env) where
  unfoldable pub list_entries : ℤ → List (Bytes × Bytes) → Result (List SecretMeta)
  list_entries now [] = ok []
  list_entries now ((k, bytes) ∷ entries) = do
    d ← decode env bytes
    metas ← list_entries now entries
    ok (if is_expired d.0 now then metas else meta_of k d.0 ∷ metas)

  unfoldable pub list : ℤ → Db env → Result (List SecretMeta)
  unfolding list_entries
  list now db = list_entries now (env.tables.iter db.secrets)

  -- The read pass of `prune`: the keys of the records to remove.
  unfoldable pub prunable_keys : ℤ → List (Bytes × Bytes) → Result (List Bytes)
  prunable_keys now [] = ok []
  prunable_keys now ((k, bytes) ∷ entries) = do
    d ← decode env bytes
    ks ← prunable_keys now entries
    ok (if is_prunable now d.0 then k ∷ ks else ks)

  -- The write pass of a prune.
  unfoldable pub remove_all : List Bytes → Table env → Table env
  remove_all [] t = t
  remove_all (k ∷ ks) t = remove_all ks (env.tables.remove t k)

  unfoldable pub remove_keys : List Bytes → Db env → Db env
  unfolding remove_all
  remove_keys ks db = if is_empty ks then db else record db { secrets = remove_all ks db.secrets }

  unfoldable pub prune : ℤ → Db env → Result (List Bytes) × Db env
  unfolding prunable_keys remove_keys
  prune now db = elim (prunable_keys now (env.tables.iter db.secrets)) [
    | ok ks ↦ (ok ks, remove_keys ks db)
    | err e ↦ (err e, db)
  ]

  max_version_from : ℕ → List (Bytes × Bytes) → Result ℕ
  max_version_from highest [] = ok highest
  max_version_from highest ((k, bytes) ∷ entries) = do
    d ← decode env bytes
    max_version_from (max highest d.1) entries

  unfoldable pub max_key_version : Db env → Result ℕ
  unfolding max_version_from
  max_key_version db = max_version_from 1 (env.tables.iter db.secrets)

  -- One record of a rotation: decrypt under the old key, encrypt under the new one, insert.
  unfoldable pub rotate_record :
      Bytes → Bytes → ℕ → Bytes → Bytes → SecretRecord → Table env → Result (Table env)
  rotate_record old_key new_key new_key_version nonce k r t = do
    plaintext ← decrypt env old_key r.value_encrypted r.nonce
    ciphertext ← encrypt env new_key nonce plaintext
    bytes ← encode env (record r { value_encrypted = ciphertext; nonce = nonce }) new_key_version
    ok (env.tables.insert t k bytes)

  -- The write pass of `rotate`; `nonce k` is drawn for the record at `k`.
  unfoldable pub rotate_entries :
      ℤ
      → Bytes
      → Bytes
      → ℕ
      → (Bytes → Bytes)
      → List (Bytes × Bytes)
      → Table env
      → Result (ℕ × Table env)
  rotate_entries now old_key new_key new_key_version nonce [] t = ok (0, t)
  rotate_entries now old_key new_key new_key_version nonce ((k, bytes) ∷ entries) t =
      let rest = rotate_entries now old_key new_key new_key_version nonce entries in
      decode env bytes >>= λ d. if is_expired d.0 now then rest t else (do
        t' ← rotate_record old_key new_key new_key_version (nonce k) k d.0 t
        c ← rest t'
        ok (suc c.0, c.1))

  -- A failing record drops the write transaction.
  unfoldable pub rotate : Store → ℤ → Bytes → ℕ → (Bytes → Bytes) → Db env → Result ℕ × Db env
  unfolding rotate_entries rotate_record
  rotate store now new_key new_key_version nonce db =
      elim (rotate_entries now store.key new_key new_key_version nonce (env.tables.iter db.secrets)
        db.secrets) [ ok c ↦ (ok c.0, record db { secrets = c.1 }) | err e ↦ (err e, db) ]
