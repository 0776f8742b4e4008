-- ===== src/Secrets/Stored.antt =====
-- A readable secret in the table, and what `put` and `get` of crates/sirr-server/src/store/db.rs
-- do to it.
use sirr.Prelude.{◌∙◌, ◌≢◌, ℕ, ℤ, Bool, true, false, Option, none, some, ◌≡◌}
use sirr.Text.{Bytes}
use sirr.Text.Utf8.{from_utf8}
use sirr.Result.{ok}
use sirr.Records.{SecretRecord, value, burned, sealed, not_found, is_expired, is_burned, is_sealed}
use sirr.External.Tables.{get-insert_self, get-insert_ne}
use sirr.Database.{Env, Db, Store, commit}
use sirr.RecordFormat.{decode, decrypt, decode-encode, decrypt-encrypt}
use sirr.Secrets.{
  Table, counted, deadline, map_option, put, read_live, read_record, burn_or_keep, get_txn,
}

-- The table holds at the key a record that decodes, decrypts under the key of the store, and is text.
pub record Stored (env : Env) (store : Store) (t : Table env) (k : Bytes) (r : SecretRecord)
    (version : ℕ) (text : Bytes) : Type 0 where
  pub bytes : Bytes
  pub at_key : env.tables.get t k ≡ some bytes
  pub decodes : decode env bytes ≡ ok (r, version)
  pub decrypts : decrypt env store.key r.value_encrypted r.nonce ≡ ok text
  pub is_text : from_utf8 text ≡ some text

module _ (env : Env) (store : Store) (t : Table env) (k : Bytes) (r : SecretRecord) (version : ℕ)
    (text : Bytes) where
  pub insert-Stored :
      (b : Bytes)
      → decode env b ≡ ok (r, version)
      → decrypt env store.key r.value_encrypted r.nonce ≡ ok text
      → from_utf8 text ≡ some text
      → Stored env store (env.tables.insert t k b) k r version text
  insert-Stored b d p u = record {
    bytes = b;
    at_key = get-insert_self env.tables t k b;
    decodes = d;
    decrypts = p;
    is_text = u;
  }

module _ (env : Env) (store : Store) (t : Table env) (k : Bytes) (r : SecretRecord) (version : ℕ)
    (text : Bytes) where
  -- What the transaction of `get` is on a readable record.
  get_txn-Stored :
      (now : ℤ)
      → Stored env store t k r version text
      → get_txn env store now k t ≡ read_record env store now k r version t
  unfolding get_txn
  get_txn-Stored now s = rw (s.at_key, get_txn) (rw s.decodes)

  pub get_txn-expired :
      (now : ℤ)
      → Stored env store t k r version text
      → is_expired r now ≡ true
      → get_txn env store now k t ≡ commit not_found (env.tables.remove t k)
  unfolding read_record
  get_txn-expired now s e = get_txn-Stored now s ∙ rw e

  pub get_txn-sealed :
      (now : ℤ)
      → Stored env store t k r version text
      → is_expired r now ≡ false
      → is_sealed r ≡ true
      → get_txn env store now k t ≡ commit sealed t
  unfolding read_record
  get_txn-sealed now s e e' = get_txn-Stored now s ∙ rw e (rw e')

  get_txn-live :
      (now : ℤ)
      → Stored env store t k r version text
      → is_expired r now ≡ false
      → is_sealed r ≡ false
      → get_txn env store now k t ≡ burn_or_keep env store k (counted r) version text t
  unfolding read_record read_live
  get_txn-live now s e e' = get_txn-Stored now s ∙ rw e (rw e' (rw s.decrypts (rw s.is_text)))

  pub get_txn-burned :
      (now : ℤ)
      → Stored env store t k r version text
      → is_expired r now ≡ false
      → is_sealed r ≡ false
      → is_burned (counted r) ≡ true
      → get_txn env store now k t ≡ commit (burned text r.webhook_url) (env.tables.remove t k)
  unfolding burn_or_keep
  get_txn-burned now s e e' b = get_txn-live now s e e' ∙ rw b

  -- The record that is written back can be read again.
  pub get_txn-kept :
      (now : ℤ)
      → Stored env store t k r version text
      → is_expired r now ≡ false
      → is_sealed r ≡ false
      → is_burned (counted r) ≡ false
      → (t' : Table env) × (get_txn env store now k t ≡ commit (value text r.webhook_url) t')
        × Stored env store t' k (counted r) version text
        × ((j : Bytes) → k ≢ j → env.tables.get t' j ≡ env.tables.get t j)
  unfolding burn_or_keep
  get_txn-kept now s e e' b =
      let (bytes, enc, dec) = decode-encode env (counted r) version in
      (
        env.tables.insert t k bytes,
        get_txn-live now s e e' ∙ rw b (rw enc),
        insert-Stored env store t k (counted r) version text bytes dec s.decrypts s.is_text,
        λ j ne. get-insert_ne env.tables t k j bytes ne,
      )

pub Stored-cong :
    (env : Env) (store : Store) (t t' : Table env) (k : Bytes) (r : SecretRecord) (version : ℕ)
    (text : Bytes)
    → env.tables.get t' k ≡ env.tables.get t k
    → Stored env store t k r version text
    → Stored env store t' k r version text
Stored-cong env store t t' k r version text e s = record {
  bytes = s.bytes;
  at_key = e ∙ s.at_key;
  decodes = s.decodes;
  decrypts = s.decrypts;
  is_text = s.is_text;
}

-- The record that `put` writes, without its ciphertext.
abbrev pub put_record : ℤ → Bytes → Bytes → Option ℕ → Option ℕ → Bool → Option Bytes → SecretRecord
put_record now nonce ciphertext ttl_seconds max_reads delete webhook_url = record {
  value_encrypted = ciphertext;
  nonce = nonce;
  created_at = now;
  expires_at = map_option (deadline now) ttl_seconds;
  max_reads = max_reads;
  read_count = 0;
  delete = delete;
  webhook_url = webhook_url;
  owner_id = none;
  org_id = none;
  allowed_keys = none;
}

module _ (env : Env) (store : Store) (now : ℤ) (nonce k text : Bytes) (ttl max_reads : Option ℕ)
    (delete : Bool) (hook : Option Bytes) (db : Db env) where
  -- `put` of a text succeeds, the secret can be read, and the other keys keep what they had.
  pub put-Stored :
      from_utf8 text ≡ some text
      → (c : Bytes) × ((put env store now nonce k text ttl max_reads delete hook db).0 ≡ ok tt)
        × Stored env store
            (put env store now nonce k text ttl max_reads delete hook db).1.secrets
            k
            (put_record now nonce c ttl max_reads delete hook)
            store.key_version
            text
        × ((j : Bytes)
            → k ≢ j
            → env.tables.get
                (put env store now nonce k text ttl max_reads delete hook db).1.secrets
                j
              ≡ env.tables.get db.secrets j)
  unfolding put
  put-Stored u =
      let (c, e, d) = decrypt-encrypt env store.key nonce text in
      let r : SecretRecord = put_record now nonce c ttl max_reads delete hook in
      let (b, enc, dec) = decode-encode env r store.key_version in
      (
        c,
        rw e (rw enc),
        rw e (rw enc (insert-Stored env store db.secrets k r store.key_version text b dec d u)),
        λ j ne. rw e (rw enc (get-insert_ne env.tables db.secrets k j b ne)),
      )
