-- ===== src/Handlers/Isolation.antt =====
-- crates/sirr-server/src/handlers.rs: which entries of the table of secrets a request on a public
-- secret touches.
use sirr.Prelude.{
  ℤ, Bool, true, false, not, some, List, [], ◌∷◌, ◌≡◌, ◌≢◌, refl, ap, ◌∙◌, arith, all,
  if◌then◌else◌,
}
use sirr.Text.{Bytes, join_colon, no_colon, join_colon_ne}
use sirr.Result.{Result, ok, err}
use sirr.Records.{AuditEvent, GetResult, value, burned, sealed, not_found}
use sirr.Database.{Env, Db, Store}
use sirr.Secrets.{put}
use sirr.Secrets.Frames.{other-IsLocal, get-local, put-local, delete-local, reply-get}
use sirr.OrgSecrets.{org_secret_key, get_org_secret}
use sirr.Audit.{record_audit, record_numbered, next_seq}
use sirr.Webhooks.Guard.{Parsers}
use sirr.Handlers.{
  bad_key_name, zero_reads, value_too_large, ttl_too_long, bad_webhook_url, CreateRequest, Answer,
  or_true, is_key_byte, validate_key_name, is_zero_reads, is_too_large, is_too_long, url_is_safe,
  store_secret, create_secret, get_secret, answer_get, delete_secret, answer_delete,
}

of_not : {b : Bool} → not b ≡ false → b ≡ true
of_not {b = true} h = refl
of_not {b = false} h = absurd (ground (arith, h))

bytes-no_colon : (key : Bytes) → all is_key_byte key ≡ true → no_colon key ≡ true
unfolding is_key_byte
bytes-no_colon [] h = refl
bytes-no_colon (b ∷ key) h = ground (arith, h, bytes-no_colon key)

valid-no_colon : (key : Bytes) → validate_key_name key ≡ true → no_colon key ≡ true
unfolding validate_key_name
valid-no_colon key h = bytes-no_colon key (ground (arith, h))

pub record_audit-secrets :
    (env : Env) (e : AuditEvent) (db : Db env) → (record_audit env e db).1.secrets ≡ db.secrets
unfolding record_audit record_numbered
record_audit-secrets env e db = go _ refl
  where
    go :
        (r : Result Bytes)
        → env.audit_codec.encode (record e { id = next_seq env db }) ≡ r
        → (record_audit env e db).1.secrets ≡ db.secrets
    go (ok b) eq = rw (eq, record_numbered) refl
    go (err x) eq = rw (eq, record_numbered) refl

module _ (env : Env) (store : Store) (parsers : Parsers) (allowed_origins : List Bytes)
    (has_sender : Bool) (j : Bytes) where
  -- The answer leaves the entry at `j` as it is in the database.
  abbrev Spares : Db env → Answer env store parsers allowed_origins has_sender → Type 0
  Spares db a = env.tables.get a.2.secrets j ≡ env.tables.get db.secrets j

  Spares-if :
      (db : Db env) (b : Bool) (x y : Answer env store parsers allowed_origins has_sender)
      → Spares db x
      → (b ≡ false → Spares db y)
      → Spares db (if b then x else y)
  Spares-if db true x y h k = h
  Spares-if db false x y h k = k refl

  logged :
      (e : AuditEvent) (db : Db env)
      → env.tables.get (record_audit env e db).1.secrets j ≡ env.tables.get db.secrets j
  logged e db = ap (λ t. env.tables.get t j) (record_audit-secrets env e db)

  answer_get-Spares :
      (clock : ℤ) (ip key : Bytes) (r : Result GetResult) (db : Db env)
      → Spares db (answer_get env store parsers allowed_origins has_sender clock ip key r db)
  unfolding answer_get
  answer_get-Spares clock ip key (ok (value v url)) db = logged _ db
  answer_get-Spares clock ip key (ok (burned v url)) db = logged _ db
  answer_get-Spares clock ip key (ok sealed) db = logged _ db
  answer_get-Spares clock ip key (ok not_found) db = logged _ db
  answer_get-Spares clock ip key (err e) db = refl

  answer_delete-Spares :
      (clock : ℤ) (ip key : Bytes) (r : Result Bool) (db : Db env)
      → Spares db (answer_delete env store parsers allowed_origins has_sender clock ip key r db)
  unfolding answer_delete
  answer_delete-Spares clock ip key (ok true) db = logged _ db
  answer_delete-Spares clock ip key (ok false) db = logged _ db
  answer_delete-Spares clock ip key (err e) db = refl

  -- A request on a valid key that is not `j`.
  get_secret-Spares :
      (now clock : ℤ) (ip key : Bytes) (db : Db env)
      → (validate_key_name key ≡ true → key ≢ j)
      → Spares db (get_secret env store parsers allowed_origins has_sender now clock ip key db)
  unfolding get_secret
  get_secret-Spares now clock ip key db ne = Spares-if db _ _ _ refl (λ v.
      answer_get-Spares clock ip key _ _
      ∙ get-local env store key db (λ t. env.tables.get t j ≡ env.tables.get db.secrets j)
          (other-IsLocal env key j db.secrets (ne (of_not v))) now)

  delete_secret-Spares :
      (clock : ℤ) (ip key : Bytes) (db : Db env)
      → (validate_key_name key ≡ true → key ≢ j)
      → Spares db (delete_secret env store parsers allowed_origins has_sender clock ip key db)
  unfolding delete_secret
  delete_secret-Spares clock ip key db ne = Spares-if db _ _ _ refl (λ v.
      answer_delete-Spares clock ip key _ _
      ∙ delete-local env store key db (λ t. env.tables.get t j ≡ env.tables.get db.secrets j)
          (other-IsLocal env key j db.secrets (ne (of_not v))))

  store_secret-Spares :
      (now clock : ℤ) (nonce ip : Bytes) (body : CreateRequest) (db : Db env)
      → body.key ≢ j
      → Spares db
          (store_secret env store parsers allowed_origins has_sender now clock nonce ip body db)
  unfolding store_secret
  store_secret-Spares now clock nonce ip body db ne = go _ refl
    where
      kept :
          env.tables.get
            (put env store now nonce body.key body.value body.ttl_seconds body.max_reads
              (or_true body.delete)
              body.webhook_url
              db).1.secrets
            j
          ≡ env.tables.get db.secrets j
      kept =
          put-local env store body.key db (λ t. env.tables.get t j ≡ env.tables.get db.secrets j)
            (other-IsLocal env body.key j db.secrets ne) now nonce body.value body.ttl_seconds
            body.max_reads (or_true body.delete) body.webhook_url

      go :
          (r : Result (Unit {0}))
          → (put env store now nonce body.key body.value body.ttl_seconds body.max_reads
              (or_true body.delete)
              body.webhook_url
              db).0
            ≡ r
          → Spares db
              (store_secret env store parsers allowed_origins has_sender now clock nonce ip body db)
      go (ok u) eq = rw (eq, store_secret) (logged _ _ ∙ kept)
      go (err e) eq = rw (eq, store_secret) kept

  create_secret-Spares :
      (now clock : ℤ) (nonce ip : Bytes) (body : CreateRequest) (db : Db env)
      → (validate_key_name body.key ≡ true → body.key ≢ j)
      → Spares db
          (create_secret env store parsers allowed_origins has_sender now clock nonce ip body db)
  unfolding create_secret
  create_secret-Spares now clock nonce ip body db ne =
      let stored : Answer env store parsers allowed_origins has_sender =
        store_secret env store parsers allowed_origins has_sender now clock nonce ip body db in
      let by_url : Answer env store parsers allowed_origins has_sender =
        if not (url_is_safe env store parsers allowed_origins has_sender body.webhook_url)
        then (bad_webhook_url, [], db)
        else stored in
      let by_ttl : Answer env store parsers allowed_origins has_sender =
        if is_too_long body.ttl_seconds then (ttl_too_long, [], db) else by_url in
      let by_size : Answer env store parsers allowed_origins has_sender =
        if is_too_large (some body.value) then (value_too_large, [], db) else by_ttl in
      Spares-if db (not (validate_key_name body.key)) (bad_key_name, [], db) _ refl
        (λ v.
          Spares-if db (is_zero_reads body.max_reads) (zero_reads, [], db) by_size refl
            (λ _.
              Spares-if db (is_too_large (some body.value)) (value_too_large, [], db) by_ttl refl
                (λ _.
                  Spares-if db (is_too_long body.ttl_seconds) (ttl_too_long, [], db) by_url refl
                    (λ _.
                      Spares-if db
                        (not (
                          url_is_safe env store parsers allowed_origins has_sender
                            body.webhook_url))
                        (bad_webhook_url, [], db) stored refl
                        (λ _. store_secret-Spares now clock nonce ip body db (ne (of_not v)))))))

-- A request on one public secret, with the clocks and the nonce it draws.
pub data Request : Type 0 where
  get_request : ℤ → ℤ → Bytes → Bytes → Request
  create_request : ℤ → ℤ → Bytes → Bytes → CreateRequest → Request
  delete_request : ℤ → Bytes → Bytes → Request

module _ (env : Env) (store : Store) (parsers : Parsers) (allowed_origins : List Bytes)
    (has_sender : Bool) where
  pub handle : Request → Db env → Db env
  handle (get_request now clock ip key) db =
      (get_secret env store parsers allowed_origins has_sender now clock ip key db).2
  handle (create_request now clock nonce ip body) db =
      (create_secret env store parsers allowed_origins has_sender now clock nonce ip body db).2
  handle (delete_request clock ip key) db =
      (delete_secret env store parsers allowed_origins has_sender clock ip key db).2

  unfoldable pub handle_all : List Request → Db env → Db env
  unfolding handle
  handle_all [] db = db
  handle_all (r ∷ requests) db = handle_all requests (handle r db)

  handle-Spares :
      (org_id key : Bytes) (r : Request) (db : Db env)
      → env.tables.get (handle r db).secrets (join_colon org_id key)
        ≡ env.tables.get db.secrets (join_colon org_id key)
  unfolding handle
  handle-Spares org_id key (get_request now clock ip k) db =
      get_secret-Spares env store parsers allowed_origins has_sender (join_colon org_id key) now
        clock ip k db (λ v. join_colon_ne org_id key k (valid-no_colon k v))
  handle-Spares org_id key (create_request now clock nonce ip body) db =
      create_secret-Spares env store parsers allowed_origins has_sender (join_colon org_id key) now
        clock nonce ip body db (λ v. join_colon_ne org_id key body.key (valid-no_colon body.key v))
  handle-Spares org_id key (delete_request clock ip k) db =
      delete_secret-Spares env store parsers allowed_origins has_sender (join_colon org_id key)
        clock ip k db (λ v. join_colon_ne org_id key k (valid-no_colon k v))

  handle_all-Spares :
      (org_id key : Bytes) (requests : List Request) (db : Db env)
      → env.tables.get (handle_all requests db).secrets (join_colon org_id key)
        ≡ env.tables.get db.secrets (join_colon org_id key)
  unfolding handle_all
  handle_all-Spares org_id key [] db = refl
  handle_all-Spares org_id key (r ∷ requests) db =
      handle_all-Spares org_id key requests (handle r db) ∙ handle-Spares org_id key r db

  -- Whatever requests create, read and delete public secrets, a read of a secret of an organisation
  -- is answered as before.
  pub requests_isolated :
      (org_id key : Bytes) (requests : List Request) (now : ℤ) (db : Db env)
      → (get_org_secret env store now org_id key (handle_all requests db)).0
        ≡ (get_org_secret env store now org_id key db).0
  unfolding get_org_secret org_secret_key
  requests_isolated org_id key requests now db =
      reply-get env store now (join_colon org_id key) (handle_all requests db) db
        (handle_all-Spares org_id key requests db)
