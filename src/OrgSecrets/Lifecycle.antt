-- ===== src/OrgSecrets/Lifecycle.antt =====
-- crates/sirr-server/src/store/db.rs: the reads of a secret of an organisation and the machine of
-- `Secrets/Machine`.
use sirr.Prelude.{ℕ, ℤ, Bool, Option, some, List, [], ◌∷◌, ◌≡◌, refl, ap₂}
use sirr.Text.{Bytes, join_colon}
use sirr.Text.Utf8.{from_utf8}
use sirr.Result.{Result, ok}
use sirr.Records.{SecretRecord, GetResult}
use sirr.Database.{Env, Db, Store}
use sirr.RecordFormat.{decrypt-encrypt, decode-encode}
use sirr.Secrets.{get, insert_record}
use sirr.Secrets.Stored.{insert-Stored}
use sirr.Secrets.Machine.{Terms, Phase, live, InPhase, spec_get}
use sirr.Secrets.Lifecycle.{IsLimit, get-spec_get, fresh-ReadsLeft}
use sirr.OrgSecrets.{org_secret_key, put_org_txn, put_org_secret, get_org_secret}

-- The terms of a `put_org_secret`.
abbrev pub org_terms : Bytes → Option ℤ → Bool → Option Bytes → Terms
org_terms text expires_at delete hook = record {
  text = text;
  webhook_url = hook;
  delete = delete;
  expires_at = expires_at;
}

put_org-InPhase :
    (env : Env) (store : Store) (now : ℤ) (nonce org_id key text : Bytes) (expires_at : Option ℤ)
    (limit : Option ℕ) (delete : Bool) (hook owner : Option Bytes) (allowed : Option (List Bytes))
    (db : Db env)
    → from_utf8 text ≡ some text
    → IsLimit limit
    → InPhase env store
        (put_org_secret env store now nonce org_id key text expires_at limit delete hook owner
          allowed db).1.secrets
        (join_colon org_id key)
        (org_terms text expires_at delete hook)
        (live limit)
unfolding InPhase put_org_secret put_org_txn org_secret_key insert_record
put_org-InPhase env store now nonce org_id key text expires_at limit delete hook owner allowed db u
      h =
    let (c, e, d) = decrypt-encrypt env store.key nonce text in
    let r : SecretRecord = record {
      value_encrypted = c;
      nonce = nonce;
      created_at = now;
      expires_at = expires_at;
      max_reads = limit;
      read_count = 0;
      delete = delete;
      webhook_url = hook;
      owner_id = owner;
      org_id = some org_id;
      allowed_keys = allowed;
    } in
    let (b, enc, dec) = decode-encode env r store.key_version in
    (
      r,
      store.key_version,
      rw e (
          rw enc (
            insert-Stored env store db.secrets (join_colon org_id key) r store.key_version text b
              dec d u)),
      record { webhook_url = refl; delete = refl; expires_at = refl },
      fresh-ReadsLeft r limit refl refl h,
    )

-- The answers to reads of the secret at the clocks `nows`.
unfoldable pub org_answers :
    (env : Env) → Store → Bytes → Bytes → List ℤ → Db env → List (Result GetResult)
org_answers env store org_id key [] db = []
org_answers env store org_id key (now ∷ nows) db =
    let (reply, db') = get_org_secret env store now org_id key db in
    reply ∷ org_answers env store org_id key nows db'

-- The answers of the machine.
unfoldable pub spec_reads : Terms → List ℤ → Phase → List (Result GetResult)
spec_reads terms [] ph = []
spec_reads terms (now ∷ nows) ph =
    ok (spec_get terms now ph).0 ∷ spec_reads terms nows (spec_get terms now ph).1

org_answers_from :
    (env : Env) (store : Store) (org_id key : Bytes) (terms : Terms) (nows : List ℤ) (ph : Phase)
    (db : Db env)
    → InPhase env store db.secrets (join_colon org_id key) terms ph
    → org_answers env store org_id key nows db ≡ spec_reads terms nows ph
unfolding org_answers spec_reads get_org_secret org_secret_key get
org_answers_from env store org_id key terms [] ph db h = refl
org_answers_from env store org_id key terms (now ∷ nows) ph db h =
    let (reply, h', _) = get-spec_get env store now (join_colon org_id key) terms ph db h in
    ap₂ ◌∷◌ reply (org_answers_from env store org_id key terms nows (spec_get terms now ph).1 _ h')

-- After a `put_org_secret` with an accepted read limit, reads at any clocks answer as the machine
-- does that is started with that limit and that deadline.
pub put_org-answers :
    (env : Env) (store : Store) (now : ℤ) (nonce org_id key text : Bytes) (expires_at : Option ℤ)
    (limit : Option ℕ) (delete : Bool) (hook owner : Option Bytes) (allowed : Option (List Bytes))
    (nows : List ℤ) (db : Db env)
    → from_utf8 text ≡ some text
    → IsLimit limit
    → org_answers env store org_id key nows
        (put_org_secret env store now nonce org_id key text expires_at limit delete hook owner
          allowed db).1
      ≡ spec_reads (org_terms text expires_at delete hook) nows (live limit)
put_org-answers env store now nonce org_id key text expires_at limit delete hook owner allowed nows
      db u h =
    org_answers_from env store org_id key (org_terms text expires_at delete hook) nows (live limit)
      _
      (put_org-InPhase env store now nonce org_id key text expires_at limit delete hook owner
        allowed db u h)
