-- ===== src/Audit/Bounds.antt =====
-- crates/sirr-server/src/store/db.rs, `list_audit`: whose events it returns, and how many.
use sirr.Prelude.{
  not-false, ℕ, suc, ◌-◌, ◌≤◌, max, Bool, true, false, not, some, List, [], ◌∷◌, length, All, ◌≡◌,
  refl, ap, ◌∙◌, subst, arith, Option-cases, inl, inr, leb, if◌then◌else◌,
}
use sirr.Text.{Bytes, bytes_eq_iff}
use sirr.Result.{Result, ok, err, ◌>>=◌, ok_injective}
use sirr.Records.{AuditEvent, AuditQuery}
use sirr.Database.{Env}
use sirr.Audit.{list_from, is_before, is_after, has_action, has_org}

-- What the loop of the audit log returns: events of the organisation that is asked for, no more than
-- the limit leaves, or one.
pub record Within (query : AuditQuery) (pushed : ℕ) (found : Result (List AuditEvent))
    : Type 0 where
  pub at :
      (es : List AuditEvent)
      → found ≡ ok es
      → All (λ e. has_org query.org_id e ≡ true) es × (length es ≤ max 1 (query.limit - pushed))

module _ (query : AuditQuery) where
  Within-if :
      (pushed : ℕ) (b : Bool) (x y : Result (List AuditEvent))
      → (b ≡ true → Within query pushed x)
      → (b ≡ false → Within query pushed y)
      → Within query pushed (if b then x else y)
  Within-if pushed true x y h k = h refl
  Within-if pushed false x y h k = k refl

  Within-ok :
      (pushed : ℕ) (es : List AuditEvent)
      → All (λ e. has_org query.org_id e ≡ true) es
      → length es ≤ max 1 (query.limit - pushed)
      → Within query pushed (ok es)
  Within-ok pushed es h le = record {
    at = λ fs e.
        subst
          (λ xs.
            All (λ f. has_org query.org_id f ≡ true) xs
            × (length xs ≤ max 1 (query.limit - pushed)))
          (ok_injective e) (h, le);
  }

  Within-more :
      (pushed : ℕ) (e : AuditEvent) (rest : Result (List AuditEvent))
      → has_org query.org_id e ≡ true
      → leb query.limit (suc pushed) ≡ false
      → Within query (suc pushed) rest
      → Within query pushed (rest >>= λ events. ok (e ∷ events))
  Within-more pushed e (err x) o room h = record { at = λ es e. absurd (ground (arith, e)) }
  Within-more pushed e (ok es) o room h =
      let (all, le) = h.at es refl in Within-ok pushed (e ∷ es) (o, all) (ground (arith, le, room))

  module _ (env : Env) where
    pub list_from-Within :
        (pushed : ℕ) (entries : List (ℕ × Bytes))
        → Within query pushed (list_from env query pushed entries)
    unfolding list_from
    list_from-Within pushed [] = Within-ok pushed [] tt (omega arith)
    list_from-Within pushed ((id, bytes) ∷ entries) =
        go (list_from-Within pushed entries) (list_from-Within (suc pushed) entries)
          (env.audit_codec.decode bytes) refl
      where
        go :
            Within query pushed (list_from env query pushed entries)
            → Within query (suc pushed) (list_from env query (suc pushed) entries)
            → (r : Result AuditEvent) → env.audit_codec.decode bytes ≡ r
            → Within query pushed (list_from env query pushed ((id, bytes) ∷ entries))
        go skip more (err x) eq =
            rw (eq, list_from) (record { at = λ es e. absurd (ground (arith, e)) })
        go skip more (ok e) eq =
            rw (eq, list_from)
              (Within-if pushed (is_before query.since e) _ _
                (λ _. Within-ok pushed [] tt (omega arith))
                (λ _.
                  Within-if pushed (is_after query.until e) _ _ (λ _. skip)
                    (λ _.
                      Within-if pushed (not (has_action query.action e)) _ _ (λ _. skip)
                        (λ _.
                          Within-if pushed (not (has_org query.org_id e)) _ _ (λ _. skip)
                            (λ o.
                              Within-if pushed (leb query.limit (suc pushed)) _ _
                                (λ full.
                                  Within-ok pushed (e ∷ []) (not-false o, tt)
                                    (ground (arith, full)))
                                (λ room. Within-more pushed e _ (not-false o) room more))))))

pub has_org_lem :
    (org_id : Bytes) (e : AuditEvent) → has_org (some org_id) e ≡ true → e.org_id ≡ some org_id
unfolding has_org
has_org_lem org_id e h = elim (Option-cases e.org_id) [
  | inl n ↦ absurd (ground (arith, h, n))
  | inr (o, s) ↦ s ∙ ap some ((bytes_eq_iff o org_id).0 (ground (arith, h, s)))
]
