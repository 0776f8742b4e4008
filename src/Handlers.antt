-- ===== src/Handlers.antt =====
-- crates/sirr-server/src/handlers.rs: the requests on one secret of the public bucket. The address of
-- the client, the clock and the nonces are arguments; the audit log uses a clock of its own.
pub mod Isolation
pub mod Admin
use sirr.Prelude.{
  ℕ, ℤ, Bool, true, false, not, ◌&&◌, ◌||◌, Option, none, some, List, [], ◌∷◌, ◌++◌, length, all,
  leb, ltb, ◌==◌, is_empty, if◌then◌else◌,
}
use sirr.Text.{Bytes, codes}
use sirr.Result.{Result, Error, ok, err, cannot_patch, read_limit_exhausted}
use sirr.Records.{SecretMeta, GetResult, value, burned, sealed, not_found}
use sirr.Database.{Env, Db, Store}
use sirr.Secrets.{put, get, patch, delete}
use sirr.Audit.{new_event, record_audit}
use sirr.Webhooks.Guard.{Parsers, UrlCheck, safe, validate_webhook_url}

-- `MAX_TTL_SECS`.
abbrev pub max_ttl_secs : ℕ
max_ttl_secs = 315360000

-- `is_ascii_alphanumeric`, `_`, `-` or `.`.
unfoldable pub is_key_byte : ℕ → Bool
is_key_byte b =
    leb b'0' b && leb b b'9'
    || (leb b'a' b && leb b b'z'
        || (leb b'A' b && leb b b'Z' || (b == b'_' || (b == b'-' || b == b'.'))))

unfoldable pub validate_key_name : Bytes → Bool
validate_key_name key = not (is_empty key) && (leb (length key) 256 && all is_key_byte key)

-- The answers, by status and message.
pub data Response : Type 0 where
  bad_key_name zero_reads value_too_large ttl_too_long bad_webhook_url : Response
  created : Bytes → Response
  secret_value : Bytes → Bytes → Response
  patched_meta : SecretMeta → Response
  deleted_secret missing sealed_gone conflict internal_error : Response

-- What is handed to the webhook sender.
pub data Fired : Type 0 where
  fire : Bytes → Bytes → Fired
  fire_for_url : Bytes → Bytes → Bytes → Fired

pub record CreateRequest : Type 0 where
  pub key : Bytes
  pub value : Bytes
  pub ttl_seconds : Option ℕ
  pub max_reads : Option ℕ
  pub delete : Option Bool
  pub webhook_url : Option Bytes

abbrev pub is_zero_reads : Option ℕ → Bool
is_zero_reads none = false
is_zero_reads (some n) = n == 0

abbrev pub is_too_long : Option ℕ → Bool
is_too_long none = false
is_too_long (some ttl) = ltb max_ttl_secs ttl

abbrev pub is_too_large : Option Bytes → Bool
is_too_large none = false
is_too_large (some v) = ltb 1048576 (length v)

abbrev pub is_safe : UrlCheck → Bool
is_safe safe = true
is_safe _ = false

-- `body.delete.unwrap_or(true)`.
abbrev pub or_true : Option Bool → Bool
or_true none = true
or_true (some b) = b

abbrev pub to_url : Option Bytes → Bytes → Bytes → List Fired
to_url none event key = []
to_url (some url) event key = fire_for_url url event key ∷ []

module _ (env : Env) (store : Store) (parsers : Parsers) (allowed_origins : List Bytes)
    (has_sender : Bool) where
  abbrev pub Answer : Type 0
  Answer = Response × List Fired × Db env

  -- An audit event of a request; its failure is ignored.
  abbrev pub log : ℤ → Bytes → Bytes → Bytes → Bool → Option Bytes → Db env → Db env
  log clock action key ip success detail db =
      (record_audit env (new_event clock action (some key) ip success detail none none) db).1

  abbrev pub sent : List Fired → List Fired
  sent events = if has_sender then events else []

  unfoldable pub url_is_safe : Option Bytes → Bool
  url_is_safe none = true
  url_is_safe (some url) = is_safe (validate_webhook_url parsers url allowed_origins)

  -- The store operation of `create_secret` and what follows it.
  unfoldable pub store_secret : ℤ → ℤ → Bytes → Bytes → CreateRequest → Db env → Answer
  store_secret now clock nonce ip body db =
      let (r, db') =
        put env store now nonce body.key body.value body.ttl_seconds body.max_reads
          (or_true body.delete) body.webhook_url db in
      elim r [
        | ok _ ↦ (
          created body.key,
          sent (fire (codes "secret.created") body.key ∷ []),
          log clock (codes "secret.create") body.key ip true none db',
        )
        | err e ↦ (internal_error, [], db')
      ]

  unfoldable pub create_secret : ℤ → ℤ → Bytes → Bytes → CreateRequest → Db env → Answer
  create_secret now clock nonce ip body db =
      let stored : Answer = store_secret now clock nonce ip body db in
      if not (validate_key_name body.key)
      then (bad_key_name, [], db)
      else if is_zero_reads body.max_reads
      then (zero_reads, [], db)
      else if is_too_large (some body.value)
      then (value_too_large, [], db)
      else if is_too_long body.ttl_seconds
      then (ttl_too_long, [], db)
      else if not (url_is_safe body.webhook_url)
      then (bad_webhook_url, [], db)
      else stored

  unfoldable pub answer_get : ℤ → Bytes → Bytes → Result GetResult → Db env → Answer
  answer_get clock ip key (ok (value v url)) db = (
    secret_value key v,
    sent (fire (codes "secret.read") key ∷ to_url url (codes "secret.read") key),
    log clock (codes "secret.read") key ip true none db,
  )
  answer_get clock ip key (ok (burned v url)) db = (
    secret_value key v,
    sent (fire (codes "secret.burned") key ∷ to_url url (codes "secret.burned") key),
    log clock (codes "secret.burned") key ip true none db,
  )
  answer_get clock ip key (ok sealed) db =
      (sealed_gone, [], log clock (codes "secret.read") key ip false (some (codes "sealed")) db)
  answer_get clock ip key (ok not_found) db = (
    missing,
    [],
    log clock (codes "secret.read") key ip false (some (codes "not found or expired")) db,
  )
  answer_get clock ip key (err e) db = (internal_error, [], db)

  unfoldable pub get_secret : ℤ → ℤ → Bytes → Bytes → Db env → Answer
  get_secret now clock ip key db =
      let (r, db') = get env store now key db in
      if not (validate_key_name key) then (bad_key_name, [], db) else answer_get clock ip key r db'

  unfoldable pub answer_patch : ℤ → Bytes → Bytes → Result (Option SecretMeta) → Db env → Answer
  answer_patch clock ip key (ok (some shown)) db =
      (patched_meta shown, [], log clock (codes "secret.patch") key ip true none db)
  answer_patch clock ip key (ok none) db = (
    missing,
    [],
    log clock (codes "secret.patch") key ip false (some (codes "not found or expired")) db,
  )
  answer_patch clock ip key (err cannot_patch) db = (
    conflict,
    [],
    log clock (codes "secret.patch") key ip false (some (codes "conflict: delete=true")) db,
  )
  answer_patch clock ip key (err read_limit_exhausted) db = (
    sealed_gone,
    [],
    log clock (codes "secret.patch") key ip false (some (codes "gone: secret read limit exhausted"))
        db,
  )
  answer_patch clock ip key (err _) db = (internal_error, [], db)

  unfoldable pub patch_secret :
      ℤ → ℤ → Bytes → Bytes → Bytes → Option Bytes → Option ℕ → Option ℕ → Db env → Answer
  patch_secret now clock nonce ip key new_value max_reads ttl_seconds db =
      let (r, db') = patch env store now nonce key new_value max_reads ttl_seconds db in
      if not (validate_key_name key)
      then (bad_key_name, [], db)
      else if is_zero_reads max_reads
      then (zero_reads, [], db)
      else if is_too_large new_value
      then (value_too_large, [], db)
      else if is_too_long ttl_seconds
      then (ttl_too_long, [], db)
      else answer_patch clock ip key r db'

  unfoldable pub answer_delete : ℤ → Bytes → Bytes → Result Bool → Db env → Answer
  answer_delete clock ip key (ok true) db = (
    deleted_secret,
    sent (fire (codes "secret.deleted") key ∷ []),
    log clock (codes "secret.delete") key ip true none db,
  )
  answer_delete clock ip key (ok false) db =
      (missing, [], log clock (codes "secret.delete") key ip false (some (codes "not found")) db)
  answer_delete clock ip key (err e) db = (internal_error, [], db)

  unfoldable pub delete_secret : ℤ → Bytes → Bytes → Db env → Answer
  delete_secret clock ip key db =
      let (r, db') = delete env key db in
      if not (validate_key_name key)
      then (bad_key_name, [], db)
      else answer_delete clock ip key r db'
