-- ===== src/OrgHandlers/Keys.antt =====
-- crates/sirr-server/src/org_handlers.rs, `create_key`, beside crates/sirr-server/src/auth.rs.
use sirr.Prelude.{
  ℤ, false, not, ◌||◌, ltb_ℤ, leb_ℤ, ◌++◌, Option, none, some, ◌≡◌, ◌≢◌, refl, sym, ap, ◌∙◌, ◌≤ℤ◌,
  ◌<ℤ◌, arith, subst,
}
use sirr.Text.{Bytes, codes, strip_prefix-append}
use sirr.Result.{ok}
use sirr.Permissions.{Permissions, account_manage}
use sirr.Records.{PrincipalRecord, PrincipalKeyRecord}
use sirr.Database.{Env, Db}
use sirr.Audit.Frames.{record_audit-principals, record_audit-principal_keys, record_audit-roles}
use sirr.Directory.{get_decoded}
use sirr.Directory.Revocation.{find-put_principal_key}
use sirr.Directory.Principals.{get_principal}
use sirr.Directory.PrincipalKeys.{put_principal_key, find_principal_key_by_hash}
use sirr.Directory.Roles.{get_role}
use sirr.Auth.{
  Tokens, Principal, ResolvedAuth, master, principal, proceed, bearer_token, is_admin_key,
  role_permissions, builtin_permissions, found_principal, with_role, with_principal, with_key,
  identity, found_key, with_token, require_auth, auth_has,
}
use sirr.OrgHandlers.{Caller, Reply, reject_if, forbidden, check_name, bad_key_label}
use sirr.OrgHandlers.Checks.{is_refusal, Refuses-reject_if, answered_lem}
use sirr.OrgHandlers.Account.{
  CreateKeyRequest, key_end, raw_key, new_key, store_key, create_key_of, create_key,
}

-- What a request with a bearer token is taken for depends on three tables.
module _ (tokens : Tokens) (env : Env) (db db' : Db env) where
  pub found_principal-same :
      db'.principals ≡ db.principals
      → (k : PrincipalKeyRecord)
      → found_principal tokens env k db' ≡ found_principal tokens env k db
  unfolding found_principal get_principal
  found_principal-same principals k = rw principals refl

  pub role_permissions-same :
      db'.roles ≡ db.roles
      → (org_id role : Bytes)
      → role_permissions tokens env org_id role db' ≡ role_permissions tokens env org_id role db
  unfolding role_permissions builtin_permissions get_role
  role_permissions-same roles org_id role = rw roles refl

principal_injective : {p q : Principal} → principal p ≡ principal q → p ≡ q
principal_injective e = cc

module _ (tokens : Tokens) (env : Env) where
  pub found_key_eq :
      (token : Bytes) (k : PrincipalKeyRecord) (db : Db env)
      → find_principal_key_by_hash env (tokens.sha256 token) db ≡ ok (some k)
      → found_key tokens env token db ≡ some k
  unfolding found_key
  found_key_eq token k db e = rw (e, found_key) refl

  pub found_principal_eq :
      (k : PrincipalKeyRecord) (who : PrincipalRecord) (db : Db env)
      → get_principal env k.org_id k.principal_id db ≡ ok (some who)
      → found_principal tokens env k db ≡ some who
  unfolding found_principal
  found_principal_eq k who db e = rw (e, found_principal) refl

  -- A token whose key is found, within its validity, of a principal that has a role.
  pub recognised :
      (now : ℤ) (api_key authorization : Option Bytes) (token : Bytes) (k : PrincipalKeyRecord)
      (who : PrincipalRecord) (granted : Permissions) (db : Db env)
      → bearer_token authorization ≡ some token
      → api_key ≢ some token
      → found_key tokens env token db ≡ some k
      → k.valid_after ≤ℤ now
      → now <ℤ k.valid_before
      → found_principal tokens env k db ≡ some who
      → role_permissions tokens env k.org_id who.role db ≡ some granted
      → require_auth tokens env now api_key authorization db
        ≡ proceed (principal (identity k granted))
  unfolding require_auth with_token with_key with_principal with_role is_admin_key
  recognised now api_key authorization token k who granted db bearer ne found begun valid there
        role =
      rw (bearer, require_auth)
        (rw (not_admin api_key ne) (rw found (rw inside (rw there (rw role refl)))))
    where
      not_admin : (o : Option Bytes) → o ≢ some token → is_admin_key tokens o token ≡ false
      not_admin none ne = refl
      not_admin (some key) ne = ground (arith, tokens.constant_time_eq_iff token key, ne)

      inside : (ltb_ℤ now k.valid_after || leb_ℤ k.valid_before now) ≡ false
      inside = ground (arith, begun, valid)

  create_key_of_lem :
      (caller : Caller) (auth : ResolvedAuth) (now : ℤ) (id random : Bytes)
      (body : CreateKeyRequest) (db : Db env)
      → is_refusal (create_key_of env tokens caller auth now id random body db).0 ≡ false
      → (p : Principal) × (auth ≡ principal p)
        × (create_key_of env tokens caller auth now id random body db
            ≡ store_key env tokens caller
                (raw_key random)
                (new_key env tokens now id random p body)
                db)
  unfolding create_key_of is_refusal
  create_key_of_lem caller master now id random body db h = absurd (ground (arith, h))
  create_key_of_lem caller (principal p) now id random body db h = (
    p,
    refl,
    (answered_lem (check_name 128 bad_key_label body.name) (λ r. (r, db)) _
        (λ (a : Reply × Db env). a.0) (λ r. refl) (Refuses-reject_if _ _ refl) h).1,
  )

  -- What a request to create a key comes to if it is not turned away.
  create_key_lem :
      (caller : Caller) (now : ℤ) (id random : Bytes) (body : CreateKeyRequest) (db : Db env)
      → is_refusal (create_key env tokens caller now id random body db).0 ≡ false
      → (p : Principal) × (caller.auth ≡ principal p)
        × (create_key env tokens caller now id random body db
            ≡ store_key env tokens caller
                (raw_key random)
                (new_key env tokens now id random p body)
                db)
  unfolding create_key is_refusal
  create_key_lem caller now id random body db h =
      let (passed, same) =
        answered_lem (reject_if (not (auth_has caller.auth account_manage)) forbidden)
          (λ r. (r, db)) _ (λ (a : Reply × Db env). a.0) (λ r. refl) (Refuses-reject_if _ _ refl)
          h in
      let (p, e, stored) =
        create_key_of_lem caller caller.auth now id random body db
          (subst (λ (a : Reply × Db env). is_refusal a.0 ≡ false) same h) in
      (p, e, same ∙ stored)

  -- The tables after a key is stored.
  module _ (caller : Caller) (raw : Bytes) (k : PrincipalKeyRecord) (db : Db env) where
    store_key-principal_keys :
        (store_key env tokens caller raw k db).1.principal_keys
        ≡ (put_principal_key env k db).1.principal_keys
    unfolding store_key put_principal_key
    store_key-principal_keys = grind (arith, record_audit-principal_keys)

    store_key-principals : (store_key env tokens caller raw k db).1.principals ≡ db.principals
    unfolding store_key put_principal_key
    store_key-principals = grind (arith, record_audit-principals)

    store_key-roles : (store_key env tokens caller raw k db).1.roles ≡ db.roles
    unfolding store_key put_principal_key
    store_key-roles = grind (arith, record_audit-roles)

    found_key-store_key :
        k.key_hash ≡ tokens.sha256 raw
        → found_key tokens env raw (store_key env tokens caller raw k db).1 ≡ some k
    unfolding find_principal_key_by_hash
    found_key-store_key e = found_key_eq raw k (store_key env tokens caller raw k db).1 (
        ap (get_decoded env env.key_codec (store_key env tokens caller raw k db).1.principal_keys)
          (sym e)
        ∙ ap (λ t. get_decoded env env.key_codec t k.key_hash) store_key-principal_keys
        ∙ (find-put_principal_key env k db).0)

  -- A key that is created lets its principal in, from the clock of its creation to the end that was
  -- set for it: a request with it as a bearer token has the organisation, the name and the permissions
  -- of the role of the principal. The principal and its role exist, and the key is not by chance the
  -- configured one.
  pub create_key_authenticates :
      (caller : Caller) (now later : ℤ) (id random : Bytes) (body : CreateKeyRequest)
      (p : Principal) (who : PrincipalRecord) (granted : Permissions) (api_key : Option Bytes)
      (db : Db env)
      → caller.auth ≡ principal p
      → is_refusal (create_key env tokens caller now id random body db).0 ≡ false
      → get_principal env p.org_id p.principal_id db ≡ ok (some who)
      → role_permissions tokens env p.org_id who.role db ≡ some granted
      → api_key ≢ some (raw_key random)
      → now ≤ℤ later
      → later <ℤ key_end now body.valid_before body.valid_for_seconds
      → require_auth tokens env later api_key
          (some (codes "Bearer " ++ raw_key random))
          (create_key env tokens caller now id random body db).1
        ≡ proceed (principal (identity (new_key env tokens now id random p body) granted))
  unfolding bearer_token
  create_key_authenticates caller now later id random body p who granted api_key db e h there role
        ne begun valid =
      let (q, e', stored) = create_key_lem caller now id random body db h in
      let k : PrincipalKeyRecord = new_key env tokens now id random p body in
      let same : create_key env tokens caller now id random body db
          ≡ store_key env tokens caller (raw_key random) k db =
        subst
          (λ x.
            create_key env tokens caller now id random body db
            ≡ store_key env tokens caller (raw_key random) (new_key env tokens now id random x body)
                db)
          (principal_injective (sym e' ∙ e)) stored in
      rw same (
        recognised later api_key (some (codes "Bearer " ++ raw_key random)) (raw_key random) k who
          granted (store_key env tokens caller (raw_key random) k db).1
          (strip_prefix-append (codes "Bearer ") (raw_key random)) ne
          (found_key-store_key caller (raw_key random) k db refl) begun valid
          (found_principal-same tokens env db _ (store_key-principals caller (raw_key random) k db)
              k
            ∙ found_principal_eq k who db there)
          (role_permissions-same tokens env db _ (store_key-roles caller (raw_key random) k db)
              k.org_id who.role
            ∙ role))
