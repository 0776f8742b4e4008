-- ===== src/OrgHandlers/Secrets.antt =====
-- crates/sirr-server/src/org_handlers.rs: the requests on the secrets of an organisation that read
-- or list them, and the pruning. Each reading of the clock is an argument.
pub mod Changes
pub mod Reads
pub mod Owners
pub mod Mine
use sirr.Prelude.{
  ℕ, ℤ, ◌-◌, Bool, true, false, not, ◌&&◌, Option, none, some, List, [], ◌∷◌, ◌++◌, map, length,
  if◌then◌else◌,
}
use sirr.Text.{Bytes, codes}
use sirr.Text.Decimal.{decimal}
use sirr.Result.{Result, ok, err, secret_not_found}
use sirr.Permissions.{PermBit, read_my, read_org, list_my, list_org, manage_org, delete_org}
use sirr.Records.{SecretMeta, GetResult, value, burned, sealed, not_found}
use sirr.Database.{Env, Db}
use sirr.OrgSecrets.{get_org_secret, head_org_secret}
use sirr.OrgSecrets.Scan.{list_org_secrets, check_key_binding, prune_org_secrets}
use sirr.Auth.{ResolvedAuth, master, principal, principal_id_of, auth_has, can_access_secret}
use sirr.Handlers.{Fired, fire, to_url, validate_key_name}
use sirr.OrgHandlers.{
  AppState, Caller, Reply, forbidden, key_not_authorized, internal_error, missing, sealed_gone,
  bad_request, bad_key_name, shown_secrets, secret_value, head_of, pruned, in_org, reject_if, ◌<|>◌,
  unless_ended, log,
}

-- `meta.max_reads` less the reads so far, stopping at 0.
abbrev pub reads_remaining : SecretMeta → Option ℕ
reads_remaining m = elim m.max_reads [ none ↦ none | some limit ↦ some (limit - m.read_count) ]

-- The checks in front of each request on one secret: the organisation, one of two permissions, and
-- the form of the key.
unfoldable pub check_request : PermBit → PermBit → ResolvedAuth → Bytes → Bytes → Option Reply
check_request my_bit org_bit auth org_id key =
    reject_if (not (in_org auth org_id)) forbidden
    <|> reject_if (not (auth_has auth my_bit) && not (auth_has auth org_bit)) forbidden
    <|> reject_if (not (validate_key_name key)) (bad_request bad_key_name)

-- The check of the owner on the metadata that the store has.
unfoldable pub check_owner :
    PermBit → PermBit → ResolvedAuth → Result (Option (SecretMeta × Bool)) → Option Reply
check_owner my_bit org_bit auth (ok (some (meta, is_sealed))) =
    reject_if (not (can_access_secret auth meta.owner_id my_bit org_bit)) forbidden
check_owner my_bit org_bit auth (ok none) = some (missing (codes "not found or expired"))
check_owner my_bit org_bit auth (err e) = some internal_error

abbrev pub check_binding : Result Bool → Option Reply
check_binding (ok true) = none
check_binding (ok false) = some key_not_authorized
check_binding (err e) = some internal_error

-- In `head_org_secret`, a secret that is not there is answered as such.
abbrev pub check_head_binding : Result Bool → Option Reply
check_head_binding (ok true) = none
check_head_binding (ok false) = some key_not_authorized
check_head_binding (err secret_not_found) = some (missing (codes "not found or expired"))
check_head_binding (err _) = some internal_error

-- The events that go to the sender, if there is one.
abbrev pub sent : AppState → List Fired → List Fired
sent state events = if state.has_sender then events else []

module _ (env : Env) where
  abbrev pub Answer : Type 0
  Answer = Reply × List Fired × Db env

  -- A key is asked for its binding; the master has none.
  unfoldable pub binding_of : ℤ → ResolvedAuth → Bytes → Bytes → Db env → Result Bool
  binding_of now master org_id key db = ok true
  binding_of now (principal p) org_id key db = check_key_binding env now org_id key p.key_name db

  unfoldable pub get_checks : ℤ → ℤ → ResolvedAuth → Bytes → Bytes → Db env → Option Reply
  get_checks head_now bind_now auth org_id key db =
      check_request read_my read_org auth org_id key
      <|> check_owner read_my read_org auth (head_org_secret env head_now org_id key db)
      <|> check_binding (binding_of bind_now auth org_id key db)

  unfoldable pub head_reply : ResolvedAuth → Result (Option (SecretMeta × Bool)) → Reply
  head_reply auth (ok (some (meta, is_sealed))) =
      if not (can_access_secret auth meta.owner_id read_my read_org)
      then forbidden
      else head_of meta (reads_remaining meta) is_sealed
  head_reply auth (ok none) = missing (codes "not found or expired")
  head_reply auth (err e) = internal_error

  unfoldable pub head_secret : ℤ → ℤ → ResolvedAuth → Bytes → Bytes → Db env → Reply
  head_secret bind_now now auth org_id key db =
      unless_ended
        (check_request read_my read_org auth org_id key
          <|> check_head_binding (binding_of bind_now auth org_id key db))
        (λ r. r) (head_reply auth (head_org_secret env now org_id key db))

  -- Whose secrets are listed: all of the organisation, one's own, or none.
  unfoldable pub owner_filter : ResolvedAuth → Option (Option Bytes)
  owner_filter auth =
      if auth_has auth list_org
      then some none
      else if auth_has auth list_my
      then some (principal_id_of auth)
      else none

  unfoldable pub answer_list : Caller → Bytes → Result (List SecretMeta) → Db env → Reply × Db env
  answer_list caller org_id (ok metas) db = (
    shown_secrets metas,
    log env caller (codes "secret.list") none true (some (codes "count=" ++ decimal (length metas)))
        (some org_id) db,
  )
  answer_list caller org_id (err e) db = (internal_error, db)

  unfoldable pub list_filtered :
      Caller → ℤ → Bytes → Option (Option Bytes) → Db env → Reply × Db env
  list_filtered caller now org_id none db = (forbidden, db)
  list_filtered caller now org_id (some owner) db =
      answer_list caller org_id (list_org_secrets env now org_id owner db) db

  unfoldable pub list_secrets : Caller → ℤ → Bytes → Db env → Reply × Db env
  list_secrets caller now org_id db =
      unless_ended (reject_if (not (in_org caller.auth org_id)) forbidden) (λ r. (r, db))
        (list_filtered caller now org_id (owner_filter caller.auth) db)

  module _ (state : AppState) where
    unfoldable pub answer_get : Caller → Bytes → Bytes → Result GetResult → Db env → Answer
    answer_get caller org_id key (ok (value v url)) db = (
      secret_value key v,
      sent state (fire (codes "secret.read") key ∷ to_url url (codes "secret.read") key),
      log env caller (codes "secret.read") (some key) true none (some org_id) db,
    )
    answer_get caller org_id key (ok (burned v url)) db = (
      secret_value key v,
      sent state (fire (codes "secret.burned") key ∷ to_url url (codes "secret.burned") key),
      log env caller (codes "secret.burned") (some key) true none (some org_id) db,
    )
    answer_get caller org_id key (ok sealed) db = (
      sealed_gone,
      [],
      log env caller (codes "secret.read") (some key) false (some (codes "sealed")) (some org_id)
          db,
    )
    answer_get caller org_id key (ok not_found) db = (
      missing (codes "not found or expired"),
      [],
      log env caller (codes "secret.read") (some key) false (some (codes "not found or expired"))
          (some org_id) db,
    )
    answer_get caller org_id key (err e) db = (internal_error, [], db)

    unfoldable pub get_secret : Caller → ℤ → ℤ → ℤ → Bytes → Bytes → Db env → Answer
    get_secret caller head_now bind_now now org_id key db =
        unless_ended (get_checks head_now bind_now caller.auth org_id key db) (λ r. (r, [], db))
          (let (r, db') = get_org_secret env state.store now org_id key db in
            answer_get caller org_id key r db')

    unfoldable pub answer_prune : Caller → Bytes → Result (List Bytes) → Db env → Answer
    answer_prune caller org_id (ok ks) db = (
      pruned (length ks),
      sent state (map (fire (codes "secret.expired")) ks),
      log env caller (codes "secret.prune") none true
          (some (codes "pruned=" ++ decimal (length ks))) (some org_id) db,
    )
    answer_prune caller org_id (err e) db = (internal_error, [], db)

    unfoldable pub prune_checks : ResolvedAuth → Bytes → Option Reply
    prune_checks auth org_id =
        reject_if (not (in_org auth org_id)) forbidden
        <|> reject_if (not (auth_has auth manage_org) && not (auth_has auth delete_org)) forbidden

    unfoldable pub prune_secrets : Caller → ℤ → Bytes → Db env → Answer
    prune_secrets caller now org_id db =
        unless_ended (prune_checks caller.auth org_id) (λ r. (r, [], db))
          (let (r, db') = prune_org_secrets env now org_id db in answer_prune caller org_id r db')
