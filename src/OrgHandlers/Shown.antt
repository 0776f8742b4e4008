-- ===== src/OrgHandlers/Shown.antt =====
-- crates/sirr-server/src/org_handlers.rs: the audit events that an organisation is shown, and the
-- deletion of a webhook.
use sirr.Prelude.{
  suc, ◌≤◌, Bool, true, false, Option, none, some, List, [], ◌∷◌, ◌++◌, map, reverse, length, All,
  ◌≡◌, refl, sym, ap, ◌∙◌, subst, arith, inl, inr, ◌⊎◌,
}
use sirr.Text.{Bytes, codes}
use sirr.Result.{Result, ok, err}
use sirr.Records.{AuditEvent}
use sirr.External.Tables.{get-remove_self}
use sirr.Database.{Env, Db}
use sirr.Audit.{list_audit, has_org}
use sirr.Audit.Bounds.{list_from-Within, has_org_lem}
use sirr.Audit.Frames.{record_audit-webhooks}
use sirr.Webhooks.{delete_webhook}
use sirr.Auth.{ResolvedAuth}
use sirr.OrgHandlers.{AppState, Caller, Reply, deleted, shown_events}
use sirr.OrgHandlers.Checks.{is_refusal, Refuses, Refuses-or, Refuses-reject_if, answered_lem}
use sirr.OrgHandlers.Hooks.{
  OrgAuditQueryParams, check_manager, org_query, redact, redact_key, answer_events,
  org_audit_events, answer_delete_webhook, delete_org_webhook,
}

-- An event of the organisation, and its key hidden where keys are redacted.
abbrev pub IsShown : (Bytes → Bytes) → Bool → Bytes → AuditEvent → Type 0
IsShown digest redacted org_id e =
    (e.org_id ≡ some org_id)
    × (redacted ≡ true
        → (e.key ≡ none) ⊎ ((k : Bytes) × (e.key ≡ some (codes "sha256:" ++ digest k))))

redact_key_lem :
    (env : Env) (digest : Bytes → Bytes) (o : Option Bytes)
    → (redact_key env digest o ≡ none)
      ⊎ ((k : Bytes) × (redact_key env digest o ≡ some (codes "sha256:" ++ digest k)))
redact_key_lem env digest none = inl refl
redact_key_lem env digest (some k) = inr (k, refl)

redacted-IsShown :
    (env : Env) (digest : Bytes → Bytes) (org_id : Bytes) (es : List AuditEvent)
    → All (λ e. has_org (some org_id) e ≡ true) es
    → All (IsShown digest true org_id) (map (redact env digest) es)
      × (length (map (redact env digest) es) ≡ length es)
redacted-IsShown env digest org_id [] h = (tt, refl)
redacted-IsShown env digest org_id (e ∷ es) (own, h) =
    let (all, same) = redacted-IsShown env digest org_id es h in
    (((has_org_lem org_id e own, λ _. redact_key_lem env digest e.key), all), ap suc same)

plain-IsShown :
    (digest : Bytes → Bytes) (org_id : Bytes) (es : List AuditEvent)
    → All (λ e. has_org (some org_id) e ≡ true) es
    → All (IsShown digest false org_id) es
plain-IsShown digest org_id [] h = tt
plain-IsShown digest org_id (e ∷ es) (own, h) =
    ((has_org_lem org_id e own, λ f. absurd (ground (arith, f))), plain-IsShown digest org_id es h)

shown_injective : {es fs : List AuditEvent} → shown_events es ≡ shown_events fs → es ≡ fs
shown_injective e = cc

answer_events_lem :
    (env : Env) (digest : Bytes → Bytes) (redacted : Bool) (org_id : Bytes)
    (found : Result (List AuditEvent)) (es : List AuditEvent)
    → ((fs : List AuditEvent)
        → found ≡ ok fs
        → All (λ e. has_org (some org_id) e ≡ true) fs × (length fs ≤ 1000))
    → answer_events env digest redacted found ≡ shown_events es
    → All (IsShown digest redacted org_id) es × (length es ≤ 1000)
answer_events_lem env digest true org_id (ok fs) es h e =
    let (own, le) = h fs refl in
    let (all, same) = redacted-IsShown env digest org_id fs own in
    subst (λ xs. All (IsShown digest true org_id) xs × (length xs ≤ 1000)) (shown_injective e)
      (all, omega (arith, le, same))
answer_events_lem env digest false org_id (ok fs) es h e =
    let (own, le) = h fs refl in
    subst (λ xs. All (IsShown digest false org_id) xs × (length xs ≤ 1000)) (shown_injective e)
      (plain-IsShown digest org_id fs own, le)
answer_events_lem env digest redacted org_id (err x) es h e = absurd (ground (arith, e))

pub check_manager-Refuses :
    (auth : ResolvedAuth) (org_id : Bytes) → Refuses (check_manager auth org_id)
unfolding check_manager is_refusal
check_manager-Refuses auth org_id =
    Refuses-or _ _ (Refuses-reject_if _ _ refl) (Refuses-reject_if _ _ refl)

module _ (env : Env) where
  -- The events that are shown to an organisation are its own, at most a thousand; and where the keys of
  -- secrets are redacted, each key is replaced by a digest.
  pub org_audit_events_lem :
      (state : AppState) (digest : Bytes → Bytes) (auth : ResolvedAuth) (org_id : Bytes)
      (params : OrgAuditQueryParams) (db : Db env) (es : List AuditEvent)
      → org_audit_events env state digest auth org_id params db ≡ shown_events es
      → All (IsShown digest state.redact_audit_keys org_id) es × (length es ≤ 1000)
  unfolding org_audit_events list_audit is_refusal
  org_audit_events_lem state digest auth org_id params db es h =
      let (passed, same) =
        answered_lem (check_manager auth org_id) (λ r. r)
          (answer_events env digest state.redact_audit_keys
            (list_audit env (org_query env org_id params) db))
          (λ (r : Reply). r) (λ r. refl) (check_manager-Refuses auth org_id) (ap is_refusal h) in
      answer_events_lem env digest state.redact_audit_keys org_id _ es
        (λ fs e.
          let (own, le) =
            (list_from-Within (org_query env org_id params) env 0
                (reverse (env.audit_tables.iter db.audit_log))).at
              fs e in
          (own, omega (arith, le)))
        (sym same ∙ h)

  -- A webhook is deleted by the master or a manager of the organisation that the request names, as soon
  -- as its identifier is registered; whichever organisation it is registered for.
  pub delete_org_webhook_lem :
      (caller : Caller) (org_id id bytes : Bytes) (db : Db env)
      → check_manager caller.auth org_id ≡ none
      → env.tables.get db.webhooks id ≡ some bytes
      → ((delete_org_webhook env caller org_id id db).0 ≡ deleted)
        × (env.tables.get (delete_org_webhook env caller org_id id db).1.webhooks id ≡ none)
  unfolding delete_org_webhook delete_webhook answer_delete_webhook
  delete_org_webhook_lem caller org_id id bytes db allowed at = (
    rw allowed (rw at refl),
    rw allowed (
        rw at (
          ap (λ t. env.tables.get t id) (record_audit-webhooks env _ _)
          ∙ get-remove_self env.tables db.webhooks id)),
  )
