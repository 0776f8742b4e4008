-- ===== src/OrgHandlers/Secrets/Owners.antt =====
-- crates/sirr-server/src/org_handlers.rs, `patch_org_secret` and `delete_org_secret`: who changes a
-- secret.
use sirr.Prelude.{
  ℕ, ℤ, Bool, true, Option, none, some, [], ◌≡◌, refl, subst, arith, ◌⊎◌, inl, inr, if◌then◌else◌,
  Bool-cases,
}
use sirr.Text.{Bytes}
use sirr.Result.{ok}
use sirr.Permissions.{PermBit, has, patch_my, patch_org, delete_my, delete_org}
use sirr.Records.{SecretMeta}
use sirr.Database.{Env, Db}
use sirr.OrgSecrets.{head_org_secret}
use sirr.Auth.{ResolvedAuth, Principal, principal, auth_has}
use sirr.Auth.Access.{Reaches}
use sirr.OrgHandlers.{AppState, Caller, Reply}
use sirr.OrgHandlers.Checks.{
  is_refusal, Refuses, Refuses-reject_if, Refuses-none, Refuses-or, passes_both, ended_or_passed,
  EndedOrPassed,
}
use sirr.OrgHandlers.Secrets.{check_request, check_owner}
use sirr.OrgHandlers.Secrets.Reads.{
  check_request-Refuses, check_owner-Refuses, check_request_passed, check_owner_passed,
}
use sirr.OrgHandlers.Secrets.Changes.{
  check_limits, PatchOrgSecretRequest, patch_checks, patch_secret, delete_checks, delete_secret,
}

module _ (env : Env) (my_bit org_bit : PermBit) where
  -- A principal of the organisation with the permission for all its secrets, or one that reaches the
  -- secret by the metadata that the store has.
  abbrev pub MayChange : ℤ → ResolvedAuth → Bytes → Bytes → Db env → Type 0
  MayChange head_now auth org_id key db =
      (p : Principal) × (auth ≡ principal p)
      × (p.org_id ≡ org_id)
      × ((has p.permissions org_bit ≡ true)
          ⊎ ((meta : SecretMeta) × (is_sealed : Bool) × (head_org_secret env head_now org_id key db
                ≡ ok (some (meta, is_sealed)))
              × Reaches p meta.owner_id my_bit org_bit))

  -- The check of the owner, left out with the permission for the organisation.
  abbrev pub check_unless_org : ℤ → ResolvedAuth → Bytes → Bytes → Db env → Option Reply
  check_unless_org head_now auth org_id key db =
      if auth_has auth org_bit
      then none
      else check_owner my_bit org_bit auth (head_org_secret env head_now org_id key db)

  check_unless_org-Refuses :
      (head_now : ℤ) (auth : ResolvedAuth) (org_id key : Bytes) (db : Db env)
      → Refuses (check_unless_org head_now auth org_id key db)
  check_unless_org-Refuses head_now auth org_id key db = elim (Bool-cases (auth_has auth org_bit)) [
    | inl y ↦ rw y Refuses-none
    | inr n ↦ rw n (check_owner-Refuses my_bit org_bit auth _)
  ]

  passed-MayChange :
      (head_now : ℤ) (auth : ResolvedAuth) (org_id key : Bytes) (db : Db env)
      → check_request my_bit org_bit auth org_id key ≡ none
      → check_unless_org head_now auth org_id key db ≡ none
      → MayChange head_now auth org_id key db
  unfolding auth_has
  passed-MayChange head_now auth org_id key db h owner =
      let (p, e, same) = check_request_passed my_bit org_bit auth org_id key h in
      let h' = subst (λ a. check_unless_org head_now a org_id key db ≡ none) e owner in
      (
        p,
        e,
        same,
        elim (Bool-cases (has p.permissions org_bit)) [
          | inl y ↦ inl y
          | inr n ↦ inr (
              check_owner_passed my_bit org_bit p (head_org_secret env head_now org_id key db)
                (ground (arith, h', n)))
        ],
      )

limits-Refuses :
    (max_reads : Option ℕ) (value : Option Bytes) (ttl_seconds : Option ℕ)
    → Refuses (check_limits max_reads value ttl_seconds)
unfolding is_refusal
limits-Refuses max_reads value ttl_seconds =
    Refuses-or _ _ (Refuses-reject_if _ _ refl)
      (Refuses-or _ _ (Refuses-reject_if _ _ refl) (Refuses-reject_if _ _ refl))

module _ (env : Env) (state : AppState) where
  -- A patch or a deletion of a secret of an organisation is turned away, and then changes nothing and
  -- sends no event, or comes from a principal of this organisation that has the permission for all its
  -- secrets, or the one for its own and owns this one.
  pub changes_authorised :
      (caller : Caller) (head_now now patch_now : ℤ) (nonce org_id key : Bytes)
      (body : PatchOrgSecretRequest) (db : Db env)
      → (EndedOrPassed
          (λ r. (r, [], db))
          (patch_secret env state caller head_now now patch_now nonce org_id key body db)
          (MayChange env patch_my patch_org head_now caller.auth org_id key db))
        × (EndedOrPassed
            (λ r. (r, [], db))
            (delete_secret env state caller head_now org_id key db)
            (MayChange env delete_my delete_org head_now caller.auth org_id key db))
  unfolding patch_secret delete_secret patch_checks delete_checks is_refusal
  changes_authorised caller head_now now patch_now nonce org_id key body db = (
    ended_or_passed (patch_checks env state head_now caller.auth org_id key body db) _ _
        (Refuses-or _ _ (check_request-Refuses patch_my patch_org caller.auth org_id key) (
          Refuses-or _ _ (limits-Refuses body.max_reads body.value body.ttl_seconds)
            (check_unless_org-Refuses env patch_my patch_org head_now caller.auth org_id key db)))
        (λ h.
          let (request, rest) = passes_both _ _ h in
          passed-MayChange env patch_my patch_org head_now caller.auth org_id key db request
            (passes_both _ _ rest).1),
    ended_or_passed (delete_checks env state head_now caller.auth org_id key db) _ _
        (Refuses-or _ _ (check_request-Refuses delete_my delete_org caller.auth org_id key)
          (check_unless_org-Refuses env delete_my delete_org head_now caller.auth org_id key db))
        (λ h.
          let (request, owner) = passes_both _ _ h in
          passed-MayChange env delete_my delete_org head_now caller.auth org_id key db request
            owner),
  )
