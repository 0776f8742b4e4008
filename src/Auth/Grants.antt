-- ===== src/Auth/Grants.antt =====
-- crates/sirr-server/src/auth.rs: when a request is given an identity.
use sirr.Prelude.{
  ℤ, false, ◌||◌, Option, none, some, ◌≡◌, ◌≢◌, ◌⊎◌, inl, inr, refl, sym, ap, ◌∙◌, ltb_ℤ, leb_ℤ,
  ◌≤ℤ◌, ◌<ℤ◌, arith, Bool-cases, Option-cases,
}
use sirr.Text.{Bytes, bytes_eq_iff, join_colon}
use sirr.Result.{Result, ok, err}
use sirr.Permissions.{Permissions}
use sirr.Records.{PrincipalRecord, PrincipalKeyRecord}
use sirr.Database.{Env, Db}
use sirr.Directory.Principals.{get_principal}
use sirr.Directory.PrincipalKeys.{find_principal_key_by_hash, delete_principal_key}
use sirr.Directory.Revocation.{delete_principal_key_revokes}
use sirr.Auth.{
  Tokens, Principal, master, principal, proceed, unauthorized, bearer_token, is_admin_key,
  role_permissions, found_principal, with_role, with_principal, with_key, identity, found_key,
  with_token, require_auth,
}

proceed_injective : {p q : Principal} → proceed (principal p) ≡ proceed (principal q) → p ≡ q
proceed_injective e = cc

module _ (tokens : Tokens) (env : Env) where
  with_role_master :
      (k : PrincipalKeyRecord) (o : Option Permissions) → with_role tokens env k o ≢ proceed master
  unfolding with_role
  with_role_master k none h = ground (arith, h)
  with_role_master k (some p) h = ground (arith, h)

  with_principal_master :
      (k : PrincipalKeyRecord) (o : Option PrincipalRecord) (db : Db env)
      → with_principal tokens env k o db ≢ proceed master
  unfolding with_principal
  with_principal_master k none db h = ground (arith, h)
  with_principal_master k (some p) db h = with_role_master k _ h

  with_token_master :
      (now : ℤ) (o : Option PrincipalKeyRecord) (db : Db env)
      → with_token tokens env now o db ≢ proceed master
  unfolding with_token with_key
  with_token_master now none db h = ground (arith, h)
  with_token_master now (some k) db h =
      ground (arith, h, with_principal_master k (found_principal tokens env k db) db)

  -- A request is taken for the master only without a configured key and without a token, or with
  -- that very key as its token.
  pub require_auth_master :
      (now : ℤ) (api_key authorization : Option Bytes) (db : Db env)
      → require_auth tokens env now api_key authorization db ≡ proceed master
      → ((api_key ≡ none) × (bearer_token authorization ≡ none))
        ⊎ ((key : Bytes) × (api_key ≡ some key) × (bearer_token authorization ≡ some key))
  unfolding require_auth is_admin_key
  require_auth_master now none authorization db h =
      elim (Option-cases (bearer_token authorization)) [
        | inl e ↦ inl (refl, e)
        | inr (token, e) ↦
            absurd (ground (arith, h, e, with_token_master now (found_key tokens env token db) db))
      ]
  require_auth_master now (some key) authorization db h =
      elim (Option-cases (bearer_token authorization)) [
        | inl e ↦ absurd (ground (arith, h, e))
        | inr (token, e) ↦ elim (Bool-cases (tokens.constant_time_eq token key)) [
          | inl same ↦ inr (key, refl, e ∙ ap some ((tokens.constant_time_eq_iff token key).0 same))
          | inr other ↦ absurd (
              ground (arith, h, e, other, with_token_master now (found_key tokens env token db) db))
        ]
      ]

  -- What must hold for a principal to be recognised.
  pub record Recognised (now : ℤ) (authorization : Option Bytes) (p : Principal) (db : Db env)
      : Type 0 where
    pub token : Bytes
    pub key : PrincipalKeyRecord
    pub who : PrincipalRecord
    pub presented : bearer_token authorization ≡ some token
    pub known : find_principal_key_by_hash env (tokens.sha256 token) db ≡ ok (some key)
    pub begun : key.valid_after ≤ℤ now
    pub valid : now <ℤ key.valid_before
    pub exists : get_principal env key.org_id key.principal_id db ≡ ok (some who)
    pub granted : role_permissions tokens env key.org_id who.role db ≡ some p.permissions
    pub same_org : p.org_id ≡ key.org_id
    pub same_id : p.principal_id ≡ key.principal_id
    pub same_name : p.key_name ≡ key.name

  find_key :
      (token : Bytes) (db : Db env) (k : PrincipalKeyRecord)
      → found_key tokens env token db ≡ some k
      → find_principal_key_by_hash env (tokens.sha256 token) db ≡ ok (some k)
  unfolding found_key
  find_key token db k h = go (find_principal_key_by_hash env (tokens.sha256 token) db) refl h
    where
      go :
          (r : Result (Option PrincipalKeyRecord))
          → find_principal_key_by_hash env (tokens.sha256 token) db ≡ r
          → found_key tokens env token db ≡ some k
          → find_principal_key_by_hash env (tokens.sha256 token) db ≡ ok (some k)
      go (err e) eq h = absurd (ground (arith, eq, h))
      go (ok o) eq h = eq ∙ ap ok (sym (rw (eq, found_key) refl) ∙ h)

  find_who :
      (k : PrincipalKeyRecord) (db : Db env) (who : PrincipalRecord)
      → found_principal tokens env k db ≡ some who
      → get_principal env k.org_id k.principal_id db ≡ ok (some who)
  unfolding found_principal
  find_who k db who h = go (get_principal env k.org_id k.principal_id db) refl h
    where
      go :
          (r : Result (Option PrincipalRecord))
          → get_principal env k.org_id k.principal_id db ≡ r
          → found_principal tokens env k db ≡ some who
          → get_principal env k.org_id k.principal_id db ≡ ok (some who)
      go (err e) eq h = absurd (ground (arith, eq, h))
      go (ok o) eq h = eq ∙ ap ok (sym (rw (eq, found_principal) refl) ∙ h)

  with_token_principal :
      (now : ℤ) (authorization : Option Bytes) (token : Bytes) (p : Principal) (db : Db env)
      → bearer_token authorization ≡ some token
      → with_token tokens env now (found_key tokens env token db) db ≡ proceed (principal p)
      → Recognised now authorization p db
  unfolding with_token with_key with_principal with_role
  with_token_principal now authorization token p db presented h =
      elim (Option-cases (found_key tokens env token db)) [
        | inl e ↦ absurd (ground (arith, h, e))
        | inr (k, e) ↦ elim (Bool-cases (ltb_ℤ now k.valid_after || leb_ℤ k.valid_before now)) [
          | inl outside ↦ absurd (ground (arith, h, e, outside))
          | inr inside ↦ elim (Option-cases (found_principal tokens env k db)) [
            | inl missing ↦ absurd (ground (arith, h, e, inside, missing))
            | inr (who, there) ↦
                elim (Option-cases (role_permissions tokens env k.org_id who.role db)) [
                  | inl unknown ↦ absurd (ground (arith, h, e, inside, there, unknown))
                  | inr (granted, role) ↦
                      let same =
                        proceed_injective
                          (sym (granted_lem k who granted e inside there role) ∙ h) in
                      record {
                        token = token;
                        key = k;
                        who = who;
                        presented = presented;
                        known = find_key token db k e;
                        begun = ground (arith, inside);
                        valid = ground (arith, inside);
                        exists = find_who k db who there;
                        granted = role ∙ ap (λ q. some q.permissions) same;
                        same_org = ap (λ q. q.org_id) (sym same);
                        same_id = ap (λ q. q.principal_id) (sym same);
                        same_name = ap (λ q. q.key_name) (sym same);
                      }
                ]
          ]
        ]
      ]
    where
      granted_lem :
          (k : PrincipalKeyRecord) (who : PrincipalRecord) (granted : Permissions)
          → found_key tokens env token db ≡ some k
          → (ltb_ℤ now k.valid_after || leb_ℤ k.valid_before now) ≡ false
          → found_principal tokens env k db ≡ some who
          → role_permissions tokens env k.org_id who.role db ≡ some granted
          → with_token tokens env now (found_key tokens env token db) db
            ≡ proceed (principal (identity k granted))
      granted_lem k who granted e inside there role =
          rw (e, with_token) (rw inside (rw (there, with_principal) (rw (role, with_role) refl)))

  -- A request is taken for a principal only with a token whose key is known, valid at the clock, and
  -- of a principal that exists; and it has the permissions of the role of that principal.
  pub require_auth_principal :
      (now : ℤ) (api_key authorization : Option Bytes) (p : Principal) (db : Db env)
      → require_auth tokens env now api_key authorization db ≡ proceed (principal p)
      → Recognised now authorization p db
  unfolding require_auth
  require_auth_principal now api_key authorization p db h =
      elim (Option-cases (bearer_token authorization)) [
        | inl e ↦ absurd (no_token api_key e h)
        | inr (token, e) ↦ elim (Bool-cases (is_admin_key tokens api_key token)) [
          | inl admin ↦ absurd (ground (arith, h, e, admin))
          | inr other ↦
              with_token_principal now authorization token p db e (ground (arith, h, e, other))
        ]
      ]
    where
      no_token :
          (api_key : Option Bytes)
          → bearer_token authorization ≡ none
          → require_auth tokens env now api_key authorization db ≢ proceed (principal p)
      no_token none e h = ground (arith, h, e)
      no_token (some key) e h = ground (arith, h, e)

  -- A token whose key has been deleted is answered `unauthorized`, unless it is the configured key.
  pub require_auth_revoked :
      (now : ℤ) (api_key authorization : Option Bytes) (token principal_id key_id : Bytes)
      (db : Db env)
      → bearer_token authorization ≡ some token
      → api_key ≢ some token
      → env.tables.get db.principal_key_ix (join_colon principal_id key_id)
        ≡ some (tokens.sha256 token)
      → require_auth tokens env now api_key authorization
          (delete_principal_key env principal_id key_id db).1
        ≡ unauthorized
  unfolding require_auth found_key with_token is_admin_key
  require_auth_revoked now api_key authorization token principal_id key_id db presented ne at =
      let (_, revoked) =
        delete_principal_key_revokes env principal_id key_id (tokens.sha256 token)
          (tokens.sha256 token) db at in
      let db' : Db env = (delete_principal_key env principal_id key_id db).1 in
      let gone : find_principal_key_by_hash env (tokens.sha256 token) db' ≡ ok none =
        revoked ∙ rw ((bytes_eq_iff (tokens.sha256 token) (tokens.sha256 token)).1 refl) refl in
      rw (presented, require_auth) (rw (not_admin api_key ne) (rw (gone, found_key) refl))
    where
      not_admin :
          (api_key : Option Bytes)
          → api_key ≢ some token
          → is_admin_key tokens api_key token ≡ false
      not_admin none ne = refl
      not_admin (some key) ne = ground (arith, tokens.constant_time_eq_iff token key, ne)
