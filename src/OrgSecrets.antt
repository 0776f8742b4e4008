-- ===== src/OrgSecrets.antt =====
-- crates/sirr-server/src/store/db.rs: the secrets of an organisation, which share the table of the
-- public secrets under the key "{org_id}:{key}".
pub mod Scan
pub mod Lifecycle
pub mod Pruning
pub mod Isolation
use sirr.Prelude.{ℕ, ℤ, Bool, Option, some, List, []}
use sirr.Text.{Bytes, join_colon}
use sirr.Result.{Result}
use sirr.Records.{SecretRecord, SecretMeta, GetResult}
use sirr.Database.{Env, Db, Store, Txn, ◌>>=◌}
use sirr.RecordFormat.{encrypt}
use sirr.Secrets.{
  Table, on_secrets, insert_record, get_by_table_key, head_by_table_key, remove_txn, patch_txn,
}

unfoldable pub org_secret_key : Bytes → Bytes → Bytes
org_secret_key org_id key = join_colon org_id key

-- `format!("{org_id}:")`.
unfoldable pub org_prefix : Bytes → Bytes
org_prefix org_id = join_colon org_id []

module _ (env : Env) (store : Store) where
  unfoldable pub put_org_txn :
      ℤ
      → Bytes
      → Bytes
      → Bytes
      → Bytes
      → Option ℤ
      → Option ℕ
      → Bool
      → Option Bytes
      → Option Bytes
      → Option (List Bytes)
      → Table env
      → Txn (Table env) (Unit {0})
  unfolding org_secret_key
  put_org_txn now nonce org_id key value expires_at max_reads delete webhook_url owner_id
        allowed_keys t =
      do
        ciphertext ← encrypt env store.key nonce value
        insert_record env store (org_secret_key org_id key)
            (record {
              value_encrypted = ciphertext;
              nonce = nonce;
              created_at = now;
              expires_at = expires_at;
              max_reads = max_reads;
              read_count = 0;
              delete = delete;
              webhook_url = webhook_url;
              owner_id = owner_id;
              org_id = some org_id;
              allowed_keys = allowed_keys;
            })
            t

  unfoldable pub put_org_secret :
      ℤ
      → Bytes
      → Bytes
      → Bytes
      → Bytes
      → Option ℤ
      → Option ℕ
      → Bool
      → Option Bytes
      → Option Bytes
      → Option (List Bytes)
      → Db env
      → Result (Unit {0}) × Db env
  put_org_secret now nonce org_id key value expires_at max_reads delete webhook_url owner_id
        allowed_keys =
      on_secrets env (
        put_org_txn now nonce org_id key value expires_at max_reads delete webhook_url owner_id
          allowed_keys)

  unfoldable pub get_org_secret : ℤ → Bytes → Bytes → Db env → Result GetResult × Db env
  unfolding org_secret_key
  get_org_secret now org_id key = get_by_table_key env store now (org_secret_key org_id key)

  unfoldable pub patch_org_secret :
      ℤ
      → Bytes
      → Bytes
      → Bytes
      → Option Bytes
      → Option ℕ
      → Option ℤ
      → Db env
      → Result (Option SecretMeta) × Db env
  unfolding org_secret_key
  patch_org_secret now nonce org_id key new_value new_max_reads new_expires_at = on_secrets env (
      patch_txn env store now nonce (org_secret_key org_id key) key new_value new_max_reads
        new_expires_at)

module _ (env : Env) where
  unfoldable pub head_org_secret : ℤ → Bytes → Bytes → Db env → Result (Option (SecretMeta × Bool))
  unfolding org_secret_key
  head_org_secret now org_id key = head_by_table_key env now (org_secret_key org_id key) key

  unfoldable pub delete_org_secret : Bytes → Bytes → Db env → Result Bool × Db env
  unfolding org_secret_key
  delete_org_secret org_id key = on_secrets env (remove_txn env (org_secret_key org_id key))
