-- ===== src/Routes/Entry.antt =====
-- crates/sirr-server/src/server.rs, `run`: who gets through to a handler.
use sirr.Prelude.{
  if◌then◌else◌, Bool, true, false, Option, none, some, [], ◌≡◌, ◌≢◌, ◌⊎◌, inl, inr, refl, ap, ◌∙◌,
  arith, Bool-cases, Option-cases,
}
use sirr.Text.{Bytes}
use sirr.Result.{ok}
use sirr.Database.{Env, Db}
use sirr.Webhooks.Guard.{Parsers}
use sirr.Directory.PrincipalKeys.{find_principal_key_by_hash}
use sirr.Auth.{
  Tokens, ResolvedAuth, master, principal, Principal, AuthOutcome, proceed, unauthorized,
  key_expired_or_not_yet_valid, principal_not_found, role_not_found, is_master, bearer_token,
  is_admin_key, found_key, with_token, require_auth, require_master_key,
}
use sirr.Auth.Grants.{Recognised, require_auth_master, require_auth_principal}
use sirr.OrgHandlers.{AppState, forbidden, in_org}
use sirr.OrgHandlers.Checks.{in_org_lem}
use sirr.OrgHandlers.Requests.{OrgRequest, is_for_master}
use sirr.OrgHandlers.Tenants.{handle_outside}
use sirr.Routes.{
  OrgRoute, MasterRoute, OpenRoute, open_handler, open_route, master_route, org_route,
  one_org_route, no_such_route, turned_away, org_reply, Incoming, Outcome, behind, as_one_org,
  caller_of, org_handler, serve,
}

master_of : (auth : ResolvedAuth) → is_master auth ≡ true → auth ≡ master
master_of master h = refl
master_of (principal p) h = absurd (ground (arith, h))

-- The master is known by the configured key, or by nothing where none is configured.
abbrev pub HoldsKey : Option Bytes → Option Bytes → Type 0
HoldsKey api_key authorization =
    ((api_key ≡ none) × (bearer_token authorization ≡ none))
    ⊎ ((key : Bytes) × (api_key ≡ some key) × (bearer_token authorization ≡ some key))

module _ (env : Env) where
  -- Turned away by a middleware or by the handler: no event, and the database as before.
  abbrev pub TurnedAway : Outcome env → Db env → Type 0
  TurnedAway out db =
      ((o : AuthOutcome) × (out ≡ (turned_away o, [], db))) ⊎ (out ≡ (org_reply forbidden, [], db))

  behind-cases :
      (o : AuthOutcome) (next : ResolvedAuth → Outcome env) (db : Db env)
      → (behind env o next db ≡ (turned_away o, [], db))
        ⊎ ((auth : ResolvedAuth) × (o ≡ proceed auth) × (behind env o next db ≡ next auth))
  unfolding behind
  behind-cases (proceed auth) next db = inr (auth, refl, refl)
  behind-cases unauthorized next db = inl refl
  behind-cases key_expired_or_not_yet_valid next db = inl refl
  behind-cases principal_not_found next db = inl refl
  behind-cases role_not_found next db = inl refl

module _ (tokens : Tokens) (env : Env) (api_key : Option Bytes) where
  -- A key is configured, and the request bears neither it nor a token with a stored key.
  pub record IsStranger (i : Incoming) (db : Db env) : Type 0 where
    pub key : Bytes
    pub configured : api_key ≡ some key
    pub other : bearer_token i.authorization ≢ some key
    pub unknown :
        (token : Bytes)
        → bearer_token i.authorization ≡ some token
        → find_principal_key_by_hash env (tokens.sha256 token) db ≡ ok none

  not_admin :
      (i : Incoming) (db : Db env) (s : IsStranger i db) (token : Bytes)
      → bearer_token i.authorization ≡ some token
      → tokens.constant_time_eq token s.key ≡ false
  not_admin i db s token e = elim (Bool-cases (tokens.constant_time_eq token s.key)) [
    | inl admin ↦ absurd (s.other (e ∙ ap some ((tokens.constant_time_eq_iff token s.key).0 admin)))
    | inr n ↦ n
  ]

  require_master_key-stranger :
      (i : Incoming) (db : Db env)
      → IsStranger i db
      → require_master_key tokens api_key i.authorization ≡ unauthorized
  unfolding require_master_key
  require_master_key-stranger i db s =
      rw s.configured (elim (Option-cases (bearer_token i.authorization)) [
        | inl e ↦ rw (e, require_master_key) refl
        | inr (token, e) ↦ rw (e, require_master_key) (rw (not_admin i db s token e) refl)
      ])

  require_auth-stranger :
      (i : Incoming) (db : Db env)
      → IsStranger i db
      → require_auth tokens env i.auth_now api_key i.authorization db ≡ unauthorized
  unfolding require_auth is_admin_key found_key with_token
  require_auth-stranger i db s =
      rw s.configured (elim (Option-cases (bearer_token i.authorization)) [
        | inl e ↦ rw (e, require_auth) refl
        | inr (token, e) ↦
            rw (e, require_auth)
              (rw (not_admin i db s token e) (rw (s.unknown token e, found_key) refl))
      ])

module _ (tokens : Tokens) (env : Env) (state : AppState) (parsers : Parsers)
    (digest : Bytes → Bytes) (api_key : Option Bytes) (enable_public_bucket : Bool) where
  -- A principal of the organisation, recognised by a token with a key that is valid at the clock.
  abbrev pub Member : Incoming → Bytes → Db env → Type 0
  Member i org_id db =
      (p : Principal) × Recognised tokens env i.auth_now i.authorization p db × (p.org_id ≡ org_id)

  -- A request for one organisation is turned away, and then sends no event and changes nothing; or it
  -- is not one on secrets and comes with the configured key as its token or, where no key is
  -- configured, with no token at all; or it comes with a token whose key is valid at the clock and
  -- belongs to a principal of this organisation.
  pub serve_one_org :
      (i : Incoming) (org_id : Bytes) (request : OrgRequest) (db : Db env)
      → TurnedAway env
          (serve tokens env state parsers digest api_key enable_public_bucket i
            (org_route (one_org_route org_id request))
            db)
          db
        ⊎ ((HoldsKey api_key i.authorization × (is_for_master request ≡ true)) ⊎ Member i org_id db)
  unfolding serve org_handler
  serve_one_org i org_id request db =
      elim (behind-cases env outcome
        (org_handler tokens env state parsers digest i (one_org_route org_id request) db) db) [
          | inl e ↦ inl (inl (outcome, e))
          | inr (auth, e, s) ↦ elim (Bool-cases (in_org auth org_id)) [
            | inl inside ↦
                let (p, e', same) = in_org_lem auth org_id inside in
                inr (
                  inr (
                    p,
                    require_auth_principal tokens env i.auth_now api_key i.authorization p db
                        (e ∙ ap proceed e'),
                    same,
                  ))
            | inr out ↦ elim (Bool-cases (is_master auth)) [
              | inr other ↦ inl (
                  inr (
                    s
                    ∙ ap (as_one_org env) (
                        handle_outside env state parsers digest (caller_of i auth) org_id request db
                          out (inl other))))
              | inl m ↦ elim (Bool-cases (is_for_master request)) [
                | inr secret ↦ inl (
                    inr (
                      s
                      ∙ ap (as_one_org env) (
                          handle_outside env state parsers digest (caller_of i auth) org_id request
                            db out (inr secret))))
                | inl for_master ↦ inr (
                    inl (
                      require_auth_master tokens env i.auth_now api_key i.authorization db
                          (e ∙ ap proceed (master_of auth m)),
                      for_master,
                    ))
              ]
            ]
          ]
        ]
    where
      outcome : AuthOutcome
      outcome = require_auth tokens env i.auth_now api_key i.authorization db

  -- With a key configured, a request that bears neither this key nor a token with a stored key is
  -- answered `unauthorized` on every route on organisations and the own account. On a route of the
  -- public bucket for the master it is answered `unauthorized` if the bucket is enabled, and otherwise
  -- that there is no such route. Either way it sends no event and changes nothing. The open routes, of
  -- which one creates a secret, go to their handler without a question, or are not there if the bucket
  -- is disabled.
  pub serve_stranger :
      (i : Incoming) (on_orgs : OrgRoute) (for_master : MasterRoute) (unguarded : OpenRoute)
      (db : Db env)
      → IsStranger tokens env api_key i db
      → (serve tokens env state parsers digest api_key enable_public_bucket i (org_route on_orgs) db
          ≡ (turned_away unauthorized, [], db))
        × (serve tokens env state parsers digest api_key enable_public_bucket i
              (master_route for_master)
              db
            ≡ (if enable_public_bucket then turned_away unauthorized else no_such_route, [], db))
        × (serve tokens env state parsers digest api_key enable_public_bucket i
              (open_route unguarded)
              db
            ≡ (if enable_public_bucket
                then open_handler tokens env state parsers digest i unguarded db
                else (no_such_route, [], db)))
  unfolding serve behind
  serve_stranger i on_orgs for_master unguarded db s =
      let org = require_auth-stranger tokens env api_key i db s in
      let top = require_master_key-stranger tokens env api_key i db s in
      elim (Bool-cases enable_public_bucket) [
        | inl on ↦ (rw org refl, rw on (rw top refl), rw on refl)
        | inr off ↦ (rw org refl, rw off refl, rw off refl)
      ]
