-- ===== src/OrgHandlers/Quotas.antt =====
-- crates/sirr-server/src/org_handlers.rs: the limits on organisations, on principals of one
-- organisation, and on its webhooks.
use sirr.Prelude.{
  ℕ, suc, ◌≤◌, ◌<◌, ℤ, Bool, true, false, not, none, some, List, [], ◌∷◌, length, select, ◌≡◌, refl,
  sym, ap, ◌∙◌, subst, arith, else_eq, Bool-cases, inl, inr, if◌then◌else◌,
}
use sirr.Text.{Bytes, starts_with, join_colon}
use sirr.Result.{Result, ok, err, >>=-eq-ok, ok_injective}
use sirr.Records.{OrgRecord, PrincipalRecord, WebhookRegistration}
use sirr.External.Codecs.{Codec}
use sirr.External.Keys.{bytes_key}
use sirr.External.Counting.{length-select-insert}
use sirr.Database.{Env, Db}
use sirr.Audit.Frames.{record_audit-orgs, record_audit-principals, record_audit-webhooks}
use sirr.License.{effective_tier, max_orgs, max_principals_per_org}
use sirr.Directory.{decode_under}
use sirr.Directory.Orgs.{put_org, list_orgs}
use sirr.Directory.Principals.{put_principal, list_principals}
use sirr.Webhooks.{
  is_of_org, put_webhook, registrations_of, list_webhooks_for_org, count_webhooks_for_org,
}
use sirr.OrgHandlers.{AppState, Caller, Reply, check_quota}
use sirr.OrgHandlers.Checks.{passes_both, passes_reject, unless_ended-case}
use sirr.OrgHandlers.Orgs.{CreateOrgRequest, create_org_checks, store_org, create_org}
use sirr.OrgHandlers.Principals.{
  CreatePrincipalRequest, create_principal_checks, store_principal, create_principal,
}
use sirr.OrgHandlers.Hooks.{
  CreateOrgWebhookRequest, max_webhooks, check_count, create_webhook_checks, store_webhook,
  create_org_webhook,
}

-- The records under a prefix are as many as the entries under it.
length-decode_under :
    (env : Env) {A : Type 0} (codec : Codec A) (prefix : Bytes) (entries : List (Bytes × Bytes))
    (as_read : List A)
    → decode_under env codec prefix entries ≡ ok as_read
    → length as_read ≡ length (select (λ e. starts_with e.0 prefix) entries)
unfolding decode_under
length-decode_under env codec prefix [] xs h = ap length (sym (ok_injective h))
length-decode_under env codec prefix ((k, bytes) ∷ entries) xs h =
    elim (Bool-cases (starts_with k prefix)) [
      | inl s ↦
          let (a, dec, h') = >>=-eq-ok (codec.decode bytes) _ (else_eq _ (ap not s) h) in
          let (rest, found, h'') = >>=-eq-ok (decode_under env codec prefix entries) _ h' in
          rw s (
            ap length (sym (ok_injective h''))
            ∙ ap suc (length-decode_under env codec prefix entries rest found))
      | inr n ↦ rw n (length-decode_under env codec prefix entries xs (ground (arith, h, n)))
    ]

-- What passes the check of a quota is below it.
check_quota_passed {ℓ} :
    {A : Type ℓ} (max : ℕ) (found : Result (List A))
    → check_quota (some max) found ≡ none
    → (xs : List A) × (found ≡ ok xs) × (length xs < max)
check_quota_passed max (err e) h = absurd (ground (arith, h))
check_quota_passed max (ok xs) h = (xs, refl, ground (arith, passes_reject _ _ h))

module _ (env : Env) where
  -- The number of entries whose key starts with the prefix.
  abbrev pub count_under : Bytes → env.tables.Table → ℕ
  count_under prefix t = length (select (λ e. starts_with e.0 prefix) (env.tables.iter t))

  put_org-count :
      (org : OrgRecord) (db : Db env)
      → count_under [] (put_org env org db).1.orgs ≤ suc (count_under [] db.orgs)
  unfolding put_org
  put_org-count org db =
      let (bytes, enc, dec, _) = env.org_codec.round_trip org in
      rw (enc, put_org)
        (length-select-insert bytes_key (λ k b. starts_with k []) env.tables db.orgs org.id bytes)

  put_principal-count :
      (prefix : Bytes) (p : PrincipalRecord) (db : Db env)
      → count_under prefix (put_principal env p db).1.principals
        ≤ suc (count_under prefix db.principals)
  unfolding put_principal
  put_principal-count prefix p db =
      let (bytes, enc, dec, _) = env.principal_codec.round_trip p in
      rw (enc, put_principal)
        (length-select-insert bytes_key (λ k b. starts_with k prefix) env.tables db.principals
          (join_colon p.org_id p.id) bytes)

  store_org-orgs :
      (caller : Caller) (org : OrgRecord) (db : Db env)
      → (store_org env caller org db).1.orgs ≡ (put_org env org db).1.orgs
  unfolding store_org put_org
  store_org-orgs caller org db = grind (arith, record_audit-orgs)

  store_principal-principals :
      (caller : Caller) (p : PrincipalRecord) (db : Db env)
      → (store_principal env caller p db).1.principals ≡ (put_principal env p db).1.principals
  unfolding store_principal put_principal
  store_principal-principals caller p db = grind (arith, record_audit-principals)

  -- The limit of the license on organisations holds after `create_org` if it held before.
  pub create_org-quota :
      (state : AppState) (caller : Caller) (now : ℤ) (id : Bytes) (body : CreateOrgRequest)
      (db : Db env) (max : ℕ)
      → max_orgs (effective_tier state.license) ≡ some max
      → count_under [] db.orgs ≤ max
      → count_under [] (create_org env state caller now id body db).1.orgs ≤ max
  unfolding create_org create_org_checks list_orgs
  create_org-quota state caller now id body db max tier le =
      let org : OrgRecord = record {
        id = id;
        name = body.name;
        metadata = body.metadata;
        created_at = now;
      } in
      unless_ended-case (λ (a : Reply × Db env). count_under [] a.1.orgs ≤ max)
        (create_org_checks env state caller.auth body db) (λ r. (r, db))
        (store_org env caller org db) (λ r. le)
        (λ h.
          let quota = (passes_both _ _ (passes_both _ _ (passes_both _ _ h).1).1).1 in
          let (orgs, found, lt) =
            check_quota_passed max (list_orgs env db)
              (subst (λ o. check_quota o (list_orgs env db) ≡ none) tier quota) in
          rw (store_org-orgs caller org db) (
            omega (
              arith,
              put_org-count org db,
              length-decode_under env env.org_codec [] (env.tables.iter db.orgs) orgs found,
              lt,
            )))

  -- The limit of the license on the principals of an organisation holds after `create_principal` if it
  -- held before.
  pub create_principal-quota :
      (state : AppState) (caller : Caller) (now : ℤ) (id org_id : Bytes)
      (body : CreatePrincipalRequest) (db : Db env) (max : ℕ)
      → max_principals_per_org (effective_tier state.license) ≡ some max
      → count_under (join_colon org_id []) db.principals ≤ max
      → count_under
          (join_colon org_id [])
          (create_principal env state caller now id org_id body db).1.principals
        ≤ max
  unfolding create_principal create_principal_checks list_principals
  create_principal-quota state caller now id org_id body db max tier le =
      let who : PrincipalRecord = record {
        id = id;
        org_id = org_id;
        name = body.name;
        role = body.role;
        metadata = body.metadata;
        created_at = now;
      } in
      unless_ended-case
        (λ (a : Reply × Db env). count_under (join_colon org_id []) a.1.principals ≤ max)
        (create_principal_checks env state caller.auth org_id body db) (λ r. (r, db))
        (store_principal env caller who db) (λ r. le)
        (λ h.
          let quota =
            (passes_both _ _
              (passes_both _ _
                (passes_both _ _ (passes_both _ _ (passes_both _ _ h).1).1).1).1).1 in
          let (ps, found, lt) =
            check_quota_passed max (list_principals env org_id db)
              (subst (λ o. check_quota o (list_principals env org_id db) ≡ none) tier quota) in
          rw (store_principal-principals caller who db) (
            omega (
              arith,
              put_principal-count (join_colon org_id []) who db,
              length-decode_under env env.principal_codec (join_colon org_id [])
                  (env.tables.iter db.principals) ps found,
              lt,
            )))

  -- Whether an entry of the table of webhooks is registered for the organisation.
  unfoldable pub is_registered : Bytes → Bytes → Bool
  is_registered org_id bytes = elim (env.webhook_codec.decode bytes) [
    | ok reg ↦ is_of_org org_id reg
    | err e ↦ false
  ]

  abbrev pub webhooks_of : Bytes → env.tables.Table → ℕ
  webhooks_of org_id t = length (select (λ e. is_registered org_id e.1) (env.tables.iter t))

  is_registered_eq :
      (org_id bytes : Bytes) (reg : WebhookRegistration)
      → env.webhook_codec.decode bytes ≡ ok reg
      → is_registered org_id bytes ≡ is_of_org org_id reg
  unfolding is_registered
  is_registered_eq org_id bytes reg dec = rw (dec, is_registered) refl

  length-registrations_of :
      (org_id : Bytes) (entries : List (Bytes × Bytes)) (regs : List WebhookRegistration)
      → registrations_of env org_id entries ≡ ok regs
      → length regs ≡ length (select (λ e. is_registered org_id e.1) entries)
  unfolding registrations_of
  length-registrations_of org_id [] regs h = ap length (sym (ok_injective h))
  length-registrations_of org_id ((k, bytes) ∷ entries) regs h =
      let (reg, dec, h') = >>=-eq-ok (env.webhook_codec.decode bytes) _ h in
      let (rest, found, h'') = >>=-eq-ok (registrations_of env org_id entries) _ h' in
      ap length (sym (ok_injective h''))
      ∙ step reg rest dec (length-registrations_of org_id entries rest found)
    where
      counted :
          (b : Bool) (reg : WebhookRegistration) (rest : List WebhookRegistration)
          → length rest ≡ length (select (λ e. is_registered org_id e.1) entries)
          → length (if b then reg ∷ rest else rest)
            ≡ length (
                if b
                then (k, bytes) ∷ select (λ e. is_registered org_id e.1) entries
                else select (λ e. is_registered org_id e.1) entries)
      counted true reg rest e = ap suc e
      counted false reg rest e = e

      step :
          (reg : WebhookRegistration) (rest : List WebhookRegistration)
          → env.webhook_codec.decode bytes ≡ ok reg
          → length rest ≡ length (select (λ e. is_registered org_id e.1) entries)
          → length (if is_of_org org_id reg then reg ∷ rest else rest)
            ≡ length (select (λ e. is_registered org_id e.1) ((k, bytes) ∷ entries))
      step reg rest dec e =
          rw (is_registered_eq org_id bytes reg dec) (counted (is_of_org org_id reg) reg rest e)

  put_webhook-count :
      (org_id : Bytes) (reg : WebhookRegistration) (db : Db env)
      → webhooks_of org_id (put_webhook env reg db).1.webhooks
        ≤ suc (webhooks_of org_id db.webhooks)
  unfolding put_webhook
  put_webhook-count org_id reg db =
      let (bytes, enc, dec, _) = env.webhook_codec.round_trip reg in
      rw (enc, put_webhook)
        (length-select-insert bytes_key (λ k b. is_registered org_id b) env.tables db.webhooks
          reg.id bytes)

  pub store_webhook-webhooks :
      (caller : Caller) (org_id : Bytes) (reg : WebhookRegistration) (db : Db env)
      → (store_webhook env caller org_id reg db).1.webhooks ≡ (put_webhook env reg db).1.webhooks
  unfolding store_webhook put_webhook
  store_webhook-webhooks caller org_id reg db = grind (arith, record_audit-webhooks)

  check_count_passed :
      (n : Result ℕ) → check_count n ≡ none → (m : ℕ) × (n ≡ ok m) × (m < max_webhooks)
  check_count_passed (err e) h = absurd (ground (arith, h))
  check_count_passed (ok m) h = (m, refl, ground (arith, passes_reject _ _ h))

  -- An organisation with at most ten webhooks has at most ten after `create_org_webhook`.
  pub create_org_webhook-quota :
      (caller : Caller) (now : ℤ) (id secret org_id : Bytes) (body : CreateOrgWebhookRequest)
      (db : Db env)
      → webhooks_of org_id db.webhooks ≤ max_webhooks
      → webhooks_of org_id (create_org_webhook env caller now id secret org_id body db).1.webhooks
        ≤ max_webhooks
  unfolding create_org_webhook create_webhook_checks count_webhooks_for_org list_webhooks_for_org
  create_org_webhook-quota caller now id secret org_id body db le =
      unless_ended-case (λ (a : Reply × Db env). webhooks_of org_id a.1.webhooks ≤ max_webhooks)
        (create_webhook_checks env caller.auth org_id body db) (λ r. (r, db)) _ (λ r. le)
        (λ h.
          let (n, counted, lt) =
            check_count_passed (count_webhooks_for_org env org_id db)
              (passes_both _ _ (passes_both _ _ h).1).1 in
          let (regs, found, same) = >>=-eq-ok (list_webhooks_for_org env org_id db) _ counted in
          rw (store_webhook-webhooks caller org_id _ db) (
            omega (
              arith,
              put_webhook-count org_id _ db,
              length-registrations_of org_id (env.tables.iter db.webhooks) regs found,
              ok_injective same,
              lt,
            )))
