-- ===== src/OrgHandlers/Account.antt =====
-- crates/sirr-server/src/org_handlers.rs: what a principal does for itself: `get_me`, `patch_me`,
-- `create_key` and `delete_key`. The random part of a key is an argument.
use sirr.Prelude.{ℤ, pos, ◌*◌, ◌+i64◌, Bool, true, false, not, Option, none, some, List, map, ◌++◌}
use sirr.Text.{Bytes, codes}
use sirr.Result.{Result, ok, err}
use sirr.Permissions.{account_read, account_manage}
use sirr.Records.{Metadata, PrincipalRecord, PrincipalKeyRecord}
use sirr.Database.{Env, Db}
use sirr.Directory.Principals.{get_principal, put_principal}
use sirr.Directory.PrincipalKeys.{put_principal_key, list_principal_keys, delete_principal_key}
use sirr.Auth.{Tokens, Principal, ResolvedAuth, master, principal, auth_has}
use sirr.OrgHandlers.{
  Caller, Reply, forbidden, internal_error, missing, deleted, bad_key_label, ShownKey, shown_me,
  patched_me, created_key, reject_if, unless_ended, check_name, check_metadata, log,
}

abbrev pub shown_key : PrincipalKeyRecord → ShownKey
shown_key k = record {
  id = k.id;
  name = k.name;
  valid_after = k.valid_after;
  valid_before = k.valid_before;
  created_at = k.created_at;
}

pub record CreateKeyRequest : Type 0 where
  pub name : Bytes
  pub valid_for_seconds : Option ℤ
  pub valid_before : Option ℤ

-- When a key ends: at the given time, after the given seconds, or after a year.
unfoldable pub key_end : ℤ → Option ℤ → Option ℤ → ℤ
key_end now (some valid_before) valid_for_seconds = valid_before
key_end now none (some valid_for_seconds) = now +i64 valid_for_seconds
key_end now none none = now +i64 pos (365 * 86400)

abbrev pub raw_key : Bytes → Bytes
raw_key random = codes "sirr_key_" ++ random

module _ (env : Env) where
  abbrev pub answer_me : Result (Option PrincipalRecord) → Result (List PrincipalKeyRecord) → Reply
  answer_me (err e) keys = internal_error
  answer_me (ok none) keys = missing (codes "principal not found")
  answer_me (ok (some p)) (err e) = internal_error
  answer_me (ok (some p)) (ok keys) = shown_me p (map shown_key keys)

  unfoldable pub me_of : ResolvedAuth → Db env → Reply
  me_of master db = forbidden
  me_of (principal p) db =
      answer_me (get_principal env p.org_id p.principal_id db)
        (list_principal_keys env p.principal_id db)

  unfoldable pub get_me : ResolvedAuth → Db env → Reply
  get_me auth db =
      unless_ended (reject_if (not (auth_has auth account_read)) forbidden) (λ r. r) (me_of auth db)

  unfoldable pub store_me : PrincipalRecord → Db env → Reply × Db env
  store_me p db =
      let (r, db') = put_principal env p db in
      elim r [ ok _ ↦ (patched_me p, db') | err e ↦ (internal_error, db') ]

  unfoldable pub patch_found : Result (Option PrincipalRecord) → Metadata → Db env → Reply × Db env
  patch_found (err e) metadata db = (internal_error, db)
  patch_found (ok none) metadata db = (missing (codes "principal not found"), db)
  patch_found (ok (some p)) metadata db = store_me (record p { metadata = metadata }) db

  unfoldable pub patch_me_of : ResolvedAuth → Metadata → Db env → Reply × Db env
  patch_me_of master metadata db = (forbidden, db)
  patch_me_of (principal p) metadata db =
      unless_ended (check_metadata metadata) (λ r. (r, db))
        (patch_found (get_principal env p.org_id p.principal_id db) metadata db)

  unfoldable pub patch_me : ResolvedAuth → Metadata → Db env → Reply × Db env
  patch_me auth metadata db =
      unless_ended (reject_if (not (auth_has auth account_manage)) forbidden) (λ r. (r, db))
        (patch_me_of auth metadata db)

  unfoldable pub answer_delete_key :
      Caller → Principal → Bytes → Result Bool → Db env → Reply × Db env
  answer_delete_key caller p key_id (ok true) db = (
    deleted,
    log env caller (codes "key.delete") none true (some (codes "key_id=" ++ key_id)) (some p.org_id)
        db,
  )
  answer_delete_key caller p key_id (ok false) db = (missing (codes "key not found"), db)
  answer_delete_key caller p key_id (err e) db = (internal_error, db)

  unfoldable pub delete_key_of : Caller → ResolvedAuth → Bytes → Db env → Reply × Db env
  delete_key_of caller master key_id db = (forbidden, db)
  delete_key_of caller (principal p) key_id db =
      let (r, db') = delete_principal_key env p.principal_id key_id db in
      answer_delete_key caller p key_id r db'

  unfoldable pub delete_key : Caller → Bytes → Db env → Reply × Db env
  delete_key caller key_id db =
      unless_ended (reject_if (not (auth_has caller.auth account_manage)) forbidden) (λ r. (r, db))
        (delete_key_of caller caller.auth key_id db)

  module _ (tokens : Tokens) where
    abbrev pub new_key : ℤ → Bytes → Bytes → Principal → CreateKeyRequest → PrincipalKeyRecord
    new_key now id random p body = record {
      id = id;
      principal_id = p.principal_id;
      org_id = p.org_id;
      name = body.name;
      key_hash = tokens.sha256 (raw_key random);
      valid_after = now;
      valid_before = key_end now body.valid_before body.valid_for_seconds;
      created_at = now;
    }

    unfoldable pub store_key : Caller → Bytes → PrincipalKeyRecord → Db env → Reply × Db env
    store_key caller raw key db =
        let (r, db') = put_principal_key env key db in
        elim r [
          | ok _ ↦ (
            created_key key.id key.name raw key.valid_after key.valid_before,
            log env caller (codes "key.create") none true (some (codes "key_id=" ++ key.id))
                (some key.org_id) db',
          )
          | err e ↦ (internal_error, db')
        ]

    unfoldable pub create_key_of :
        Caller → ResolvedAuth → ℤ → Bytes → Bytes → CreateKeyRequest → Db env → Reply × Db env
    create_key_of caller master now id random body db = (forbidden, db)
    create_key_of caller (principal p) now id random body db =
        unless_ended (check_name 128 bad_key_label body.name) (λ r. (r, db))
          (store_key caller (raw_key random) (new_key now id random p body) db)

    unfoldable pub create_key :
        Caller → ℤ → Bytes → Bytes → CreateKeyRequest → Db env → Reply × Db env
    create_key caller now id random body db =
        unless_ended (reject_if (not (auth_has caller.auth account_manage)) forbidden)
          (λ r. (r, db)) (create_key_of caller caller.auth now id random body db)
