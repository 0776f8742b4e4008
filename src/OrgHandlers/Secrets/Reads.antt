-- ===== src/OrgHandlers/Secrets/Reads.antt =====
-- crates/sirr-server/src/org_handlers.rs, `get_org_secret`: who is given a value.
use sirr.Prelude.{
  not-false, ℤ, Bool, true, false, Option, none, some, [], ◌≡◌, refl, ap, subst, ◌∙◌, sym, arith,
  ◌⊎◌, inl, inr,
}
use sirr.Text.{Bytes}
use sirr.Result.{Result, ok, err}
use sirr.Permissions.{PermBit, read_my, read_org}
use sirr.Records.{SecretMeta, GetResult, value, burned, sealed, not_found}
use sirr.Database.{Env, Db}
use sirr.OrgSecrets.{get_org_secret, head_org_secret}
use sirr.OrgSecrets.Scan.{check_key_binding}
use sirr.Auth.{ResolvedAuth, Principal, principal}
use sirr.Auth.Access.{Reaches, can_access_secret_iff}
use sirr.OrgHandlers.{AppState, Caller, secret_value}
use sirr.OrgHandlers.Checks.{
  is_refusal, Refuses, Refuses-reject_if, Refuses-some, Refuses-none, Refuses-or, passes_both,
  passes_reject, answered_lem, in_org_lem,
}
use sirr.OrgHandlers.Secrets.{
  Answer, check_request, check_owner, check_binding, binding_of, get_checks, answer_get, get_secret,
}

pub check_request-Refuses :
    (my_bit org_bit : PermBit) (auth : ResolvedAuth) (org_id key : Bytes)
    → Refuses (check_request my_bit org_bit auth org_id key)
unfolding check_request is_refusal
check_request-Refuses my_bit org_bit auth org_id key =
    Refuses-or _ _ (Refuses-reject_if _ _ refl)
      (Refuses-or _ _ (Refuses-reject_if _ _ refl) (Refuses-reject_if _ _ refl))

pub check_owner-Refuses :
    (my_bit org_bit : PermBit) (auth : ResolvedAuth) (found : Result (Option (SecretMeta × Bool)))
    → Refuses (check_owner my_bit org_bit auth found)
unfolding check_owner is_refusal
check_owner-Refuses my_bit org_bit auth (ok (some (meta, s))) = Refuses-reject_if _ _ refl
check_owner-Refuses my_bit org_bit auth (ok none) = Refuses-some _ refl
check_owner-Refuses my_bit org_bit auth (err e) = Refuses-some _ refl

check_binding-Refuses : (bound : Result Bool) → Refuses (check_binding bound)
unfolding is_refusal
check_binding-Refuses (ok true) = Refuses-none
check_binding-Refuses (ok false) = Refuses-some _ refl
check_binding-Refuses (err e) = Refuses-some _ refl

-- What a request on one secret of the organisation has shown when it goes on.
pub check_request_passed :
    (my_bit org_bit : PermBit) (auth : ResolvedAuth) (org_id key : Bytes)
    → check_request my_bit org_bit auth org_id key ≡ none
    → (p : Principal) × (auth ≡ principal p) × (p.org_id ≡ org_id)
unfolding check_request
check_request_passed my_bit org_bit auth org_id key h =
    in_org_lem auth org_id (not-false (passes_reject _ _ (passes_both _ _ h).0))

principal_eq : {p q : Principal} → principal p ≡ principal q → p ≡ q
principal_eq e = cc

-- The check of the owner lets a request go on if its principal reaches the secret.
pub check_owner_passed :
    (my_bit org_bit : PermBit) (p : Principal) (found : Result (Option (SecretMeta × Bool)))
    → check_owner my_bit org_bit (principal p) found ≡ none
    → (meta : SecretMeta) × (is_sealed : Bool) × (found ≡ ok (some (meta, is_sealed)))
      × Reaches p meta.owner_id my_bit org_bit
unfolding check_owner
check_owner_passed my_bit org_bit p (ok none) h = absurd (ground (arith, h))
check_owner_passed my_bit org_bit p (err e) h = absurd (ground (arith, h))
check_owner_passed my_bit org_bit p (ok (some (meta, s))) h =
    let (q, e, r) =
      (can_access_secret_iff (principal p) meta.owner_id my_bit org_bit).0
        (not-false (passes_reject _ _ h)) in
    (meta, s, refl, subst (λ x. Reaches x meta.owner_id my_bit org_bit) (sym (principal_eq e)) r)

check_binding_passed : (bound : Result Bool) → check_binding bound ≡ none → bound ≡ ok true
check_binding_passed (ok true) h = refl
check_binding_passed (ok false) h = absurd (ground (arith, h))
check_binding_passed (err e) h = absurd (ground (arith, h))

module _ (env : Env) where
  get_checks-Refuses :
      (head_now bind_now : ℤ) (auth : ResolvedAuth) (org_id key : Bytes) (db : Db env)
      → Refuses (get_checks env head_now bind_now auth org_id key db)
  unfolding get_checks
  get_checks-Refuses head_now bind_now auth org_id key db =
      Refuses-or _ _ (check_request-Refuses read_my read_org auth org_id key)
        (Refuses-or _ _ (check_owner-Refuses read_my read_org auth _) (check_binding-Refuses _))

  -- What the checks in front of a read have shown.
  abbrev pub MayRead : ℤ → ℤ → ResolvedAuth → Bytes → Bytes → Db env → Type 0
  MayRead head_now bind_now auth org_id key db =
      (p : Principal) × (auth ≡ principal p)
      × (p.org_id ≡ org_id)
      × ((meta : SecretMeta) × (is_sealed : Bool) × (head_org_secret env head_now org_id key db
            ≡ ok (some (meta, is_sealed)))
          × Reaches p meta.owner_id read_my read_org)
      × (check_key_binding env bind_now org_id key p.key_name db ≡ ok true)

  get_checks_passed :
      (head_now bind_now : ℤ) (auth : ResolvedAuth) (org_id key : Bytes) (db : Db env)
      → get_checks env head_now bind_now auth org_id key db ≡ none
      → MayRead head_now bind_now auth org_id key db
  unfolding get_checks binding_of
  get_checks_passed head_now bind_now auth org_id key db h =
      let (request, rest) = passes_both _ _ h in
      let (owner, bound) = passes_both _ _ rest in
      let (p, e, same) = check_request_passed read_my read_org auth org_id key request in
      (
        p,
        e,
        same,
        check_owner_passed read_my read_org p (head_org_secret env head_now org_id key db) (
            subst
              (λ a.
                check_owner read_my read_org a (head_org_secret env head_now org_id key db) ≡ none)
              e owner),
        check_binding_passed _
            (subst (λ a. check_binding (binding_of env bind_now a org_id key db) ≡ none) e bound),
      )

  module _ (state : AppState) where
    -- A value is shown where the store has returned it.
    answer_get_value :
        (caller : Caller) (org_id key shown v : Bytes) (r : Result GetResult) (db : Db env)
        → (answer_get env state caller org_id key r db).0 ≡ secret_value shown v
        → (shown ≡ key)
          × ((url : Option Bytes) × ((r ≡ ok (value v url)) ⊎ (r ≡ ok (burned v url))))
    unfolding answer_get
    answer_get_value caller org_id key shown v (ok (value w url)) db h = (cc, (url, inl cc))
    answer_get_value caller org_id key shown v (ok (burned w url)) db h = (cc, (url, inr cc))
    answer_get_value caller org_id key shown v (ok sealed) db h = absurd (ground (arith, h))
    answer_get_value caller org_id key shown v (ok not_found) db h = absurd (ground (arith, h))
    answer_get_value caller org_id key shown v (err e) db h = absurd (ground (arith, h))

    -- A read of a secret of an organisation that is answered with a value comes from a principal of
    -- this organisation that may read all its secrets, or this one as its owner, with a key that the
    -- secret is not withheld from; and the value is the one that the store has returned.
    pub get_secret_reveals :
        (caller : Caller) (head_now bind_now now : ℤ) (org_id key shown v : Bytes) (db : Db env)
        → (get_secret env state caller head_now bind_now now org_id key db).0 ≡ secret_value shown v
        → MayRead head_now bind_now caller.auth org_id key db
          × (shown ≡ key)
          × ((url : Option Bytes) × (((get_org_secret env state.store now org_id key db).0
                  ≡ ok (value v url))
                ⊎ ((get_org_secret env state.store now org_id key db).0 ≡ ok (burned v url))))
    unfolding get_secret is_refusal
    get_secret_reveals caller head_now bind_now now org_id key shown v db h =
        let (passed, same) =
          answered_lem (get_checks env head_now bind_now caller.auth org_id key db)
            (λ r. (r, [], db)) _ (λ (a : Answer env). a.0) (λ r. refl)
            (get_checks-Refuses head_now bind_now caller.auth org_id key db) (ap is_refusal h) in
        let (shown_key, found) =
          answer_get_value caller org_id key shown v _ _
            (sym (ap (λ (a : Answer env). a.0) same) ∙ h) in
        (get_checks_passed head_now bind_now caller.auth org_id key db passed, shown_key, found)
