-- ===== src/Secrets.antt =====
-- crates/sirr-server/src/store/db.rs: the secrets of the public bucket, and the table of secrets
-- that the org-scoped ones share. `now` is the clock at the call, a nonce the random bytes drawn.
pub mod Answers
pub mod Frames
pub mod History
pub mod Lifecycle
pub mod Limits
pub mod Machine
pub mod Patching
pub mod Pruning
pub mod Rotation
pub mod Listing
pub mod Deadlines
pub mod Scan
pub mod Sealed
pub mod Stored
use sirr.Prelude.{
  ℕ, ℤ, pos, suc, ◌+◌, ◌-◌, ◌%◌, ◌^◌, min, Bool, true, false, not, Option, none, some, List, [],
  ◌∷◌, i64_max, as_u64, as_i64, ◌+i64◌, ◌-i64◌, if◌then◌else◌, is_empty,
}
use sirr.Text.{Bytes}
use sirr.Text.Utf8.{from_utf8}
use sirr.Result.{Result, ok, err, or_error, invalid_utf8, cannot_patch, read_limit_exhausted}
use sirr.Records.{
  SecretRecord, SecretMeta, GetResult, value, burned, sealed, not_found, meta_of, is_expired,
  is_burned, is_sealed,
}
use sirr.Database.{Env, Db, Store, Txn, commit, abort, outcome, ◌>>=◌}
use sirr.RecordFormat.{encode, decode, encrypt, decrypt}

-- `now + ttl.min((i64::MAX - now) as u64) as i64`.
unfoldable pub deadline : ℤ → ℕ → ℤ
deadline now ttl = now +i64 as_i64 (min ttl (as_u64 (pos i64_max -i64 now)))

-- `+= 1` on a `u32`.
abbrev pub succ_u32 : ℕ → ℕ
succ_u32 n = (n + 1) % 2 ^ 32

-- The record after one more read.
abbrev pub counted : SecretRecord → SecretRecord
counted r = record r { read_count = succ_u32 r.read_count }

abbrev pub map_option {ℓ κ} : {A : Type ℓ} {B : Type κ} → (A → B) → Option A → Option B
map_option f none = none
map_option f (some a) = some (f a)

abbrev pub or_old {ℓ} : {A : Type ℓ} → Option A → Option A → Option A
or_old none old = old
or_old (some a) old = some a

module _ (env : Env) where
  abbrev pub Table : Type 0
  Table = env.tables.Table

  -- A transaction on the table of secrets, run on the database.
  abbrev pub on_secrets {ℓ} : {A : Type ℓ} → (Table → Txn Table A) → Db env → Result A × Db env
  on_secrets txn db =
      let (r, t) = outcome (txn db.secrets) db.secrets in (r, record db { secrets = t })

module _ (env : Env) (store : Store) where
  -- The end of `put` and `put_org_secret`: encode and insert.
  unfoldable pub insert_record : Bytes → SecretRecord → Table env → Txn (Table env) (Unit {0})
  insert_record table_key r t = do
    bytes ← encode env r store.key_version
    commit tt (env.tables.insert t table_key bytes)

  unfoldable pub put_txn :
      ℤ
      → Bytes
      → Bytes
      → Bytes
      → Option ℕ
      → Option ℕ
      → Bool
      → Option Bytes
      → Table env
      → Txn (Table env) (Unit {0})
  unfolding insert_record
  put_txn now nonce secret_key plaintext ttl_seconds max_reads delete webhook_url t = do
    ciphertext ← encrypt env store.key nonce plaintext
    insert_record secret_key
        (record {
          value_encrypted = ciphertext;
          nonce = nonce;
          created_at = now;
          expires_at = map_option (deadline now) ttl_seconds;
          max_reads = max_reads;
          read_count = 0;
          delete = delete;
          webhook_url = webhook_url;
          owner_id = none;
          org_id = none;
          allowed_keys = none;
        })
        t

  unfoldable pub put :
      ℤ
      → Bytes
      → Bytes
      → Bytes
      → Option ℕ
      → Option ℕ
      → Bool
      → Option Bytes
      → Db env
      → Result (Unit {0}) × Db env
  unfolding put_txn
  put now nonce secret_key plaintext ttl_seconds max_reads delete webhook_url =
      on_secrets env
        (put_txn now nonce secret_key plaintext ttl_seconds max_reads delete webhook_url)

  unfoldable pub burn_or_keep :
      Bytes → SecretRecord → ℕ → Bytes → Table env → Txn (Table env) GetResult
  burn_or_keep table_key r version text t =
      if is_burned r
      then commit (burned text r.webhook_url) (env.tables.remove t table_key)
      else (do
        updated ← encode env r version
        commit (value text r.webhook_url) (env.tables.insert t table_key updated))

  -- The read of a live record: count, decrypt, and burn or write back.
  unfoldable pub read_live : Bytes → SecretRecord → ℕ → Table env → Txn (Table env) GetResult
  read_live table_key r version t =
      let r' : SecretRecord = counted r in
      do
        plaintext ← decrypt env store.key r'.value_encrypted r'.nonce
        text ← or_error invalid_utf8 (from_utf8 plaintext)
        burn_or_keep table_key r' version text t

  unfoldable pub read_record : ℤ → Bytes → SecretRecord → ℕ → Table env → Txn (Table env) GetResult
  read_record now table_key r version t =
      if is_expired r now
      then commit not_found (env.tables.remove t table_key)
      else if is_sealed r
      then commit sealed t
      else read_live table_key r version t

  unfoldable pub get_txn : ℤ → Bytes → Table env → Txn (Table env) GetResult
  get_txn now table_key t = elim (env.tables.get t table_key) [
    | none ↦ commit not_found t
    | some bytes ↦ decode env bytes >>= λ d. read_record now table_key d.0 d.1 t
  ]

  unfoldable pub get_by_table_key : ℤ → Bytes → Db env → Result GetResult × Db env
  get_by_table_key now table_key = on_secrets env (get_txn now table_key)

  unfoldable pub get : ℤ → Bytes → Db env → Result GetResult × Db env
  unfolding get_by_table_key
  get now secret_key = get_by_table_key now secret_key

  -- The new fields of `patch` and `patch_org_secret`; the counter starts again.
  abbrev pub patched : Option (Bytes × Bytes) → Option ℕ → Option ℤ → SecretRecord → SecretRecord
  patched none new_max_reads new_expires_at r = record r {
    max_reads = or_old new_max_reads r.max_reads;
    expires_at = or_old new_expires_at r.expires_at;
    read_count = 0;
  }
  patched (some (ciphertext, nonce)) new_max_reads new_expires_at r = record r {
    value_encrypted = ciphertext;
    nonce = nonce;
    max_reads = or_old new_max_reads r.max_reads;
    expires_at = or_old new_expires_at r.expires_at;
    read_count = 0;
  }

  -- The new value under a fresh nonce, if there is one.
  abbrev pub encrypt_new : Bytes → Option Bytes → Result (Option (Bytes × Bytes))
  encrypt_new nonce none = ok none
  encrypt_new nonce (some plaintext) = elim (encrypt env store.key nonce plaintext) [
    | ok c ↦ ok (some (c, nonce))
    | err e ↦ err e
  ]

  -- Both patches: `new_expires_at` is the deadline already computed, `display_key` the key shown.
  -- Of an expired secret the removal is asked for, and the early return drops the transaction.
  unfoldable pub patch_record :
      ℤ
      → Bytes
      → Bytes
      → Bytes
      → Option Bytes
      → Option ℕ
      → Option ℤ
      → SecretRecord
      → ℕ
      → Table env
      → Txn (Table env) (Option SecretMeta)
  patch_record now nonce table_key display_key new_value new_max_reads new_expires_at r version t =
      if is_expired r now
      then abort (ok none)
      else if r.delete
      then abort (err cannot_patch)
      else if is_sealed r
      then abort (err read_limit_exhausted)
      else (do
        encrypted ← encrypt_new nonce new_value
        let r' = patched encrypted new_max_reads new_expires_at r
        updated ← encode env r' version
        commit (some (meta_of display_key r')) (env.tables.insert t table_key updated))

  unfoldable pub patch_txn :
      ℤ
      → Bytes
      → Bytes
      → Bytes
      → Option Bytes
      → Option ℕ
      → Option ℤ
      → Table env
      → Txn (Table env) (Option SecretMeta)
  patch_txn now nonce table_key display_key new_value new_max_reads new_expires_at t =
      elim (env.tables.get t table_key) [
        | none ↦ commit none t
        | some bytes ↦ decode env bytes >>= λ d.
            patch_record now nonce table_key display_key new_value new_max_reads new_expires_at d.0
              d.1 t
      ]

  unfoldable pub patch :
      ℤ
      → Bytes
      → Bytes
      → Option Bytes
      → Option ℕ
      → Option ℕ
      → Db env
      → Result (Option SecretMeta) × Db env
  patch now nonce secret_key new_value new_max_reads new_ttl_seconds = on_secrets env (
      patch_txn now nonce secret_key secret_key new_value new_max_reads
        (map_option (deadline now) new_ttl_seconds))

module _ (env : Env) where
  -- `table.remove(key)?.is_some()`.
  unfoldable pub remove_txn : Bytes → Table env → Txn (Table env) Bool
  remove_txn table_key t =
      commit (elim (env.tables.get t table_key) [ none ↦ false | some _ ↦ true ])
        (env.tables.remove t table_key)

  unfoldable pub delete : Bytes → Db env → Result Bool × Db env
  unfolding remove_txn
  delete secret_key = on_secrets env (remove_txn secret_key)

  -- The metadata of a stored record and whether it is sealed, if it has not expired.
  unfoldable pub head_record : ℤ → Bytes → SecretRecord → Option (SecretMeta × Bool)
  head_record now display_key r =
      if is_expired r now then none else some (meta_of display_key r, is_sealed r)

  unfoldable pub head_by_table_key :
      ℤ → Bytes → Bytes → Db env → Result (Option (SecretMeta × Bool))
  head_by_table_key now table_key display_key db = elim (env.tables.get db.secrets table_key) [
    | none ↦ ok none
    | some bytes ↦ elim (decode env bytes) [
      | ok d ↦ ok (head_record now display_key d.0)
      | err e ↦ err e
    ]
  ]

  unfoldable pub head : ℤ → Bytes → Db env → Result (Option (SecretMeta × Bool))
  unfolding head_by_table_key
  head now secret_key = head_by_table_key now secret_key secret_key
