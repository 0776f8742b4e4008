-- ===== src/Audit/Listing.antt =====
-- crates/sirr-server/src/store/db.rs, `list_audit`: which events it returns.
use sirr.Prelude.{
  ℕ, zero, suc, ◌-◌, max, Bool, true, false, not, ◌&&◌, List, [], ◌∷◌, reverse, take, select, leb,
  ◌≡◌, refl, sym, ap, ◌∙◌, arith, if◌then◌else◌, Bool-cases, inl, inr,
}
use sirr.Text.{Bytes}
use sirr.Result.{ok}
use sirr.Records.{AuditEvent, AuditQuery}
use sirr.Database.{Env, Db}
use sirr.Audit.{is_after, is_before, has_action, has_org, list_from, list_audit}

-- The events in front of the first one that the test finds.
abbrev pub until_first : (AuditEvent → Bool) → List AuditEvent → List AuditEvent
until_first p [] = []
until_first p (e ∷ es) = if p e then [] else e ∷ until_first p es

unfoldable pub matches : AuditQuery → AuditEvent → Bool
matches query e =
    not (is_after query.until e) && (has_action query.action e && has_org query.org_id e)

-- The entries decode to the events, one by one.
abbrev pub Decode : (env : Env) → List (ℕ × Bytes) → List AuditEvent → Type 0
Decode env [] [] = Unit
Decode env [] (e ∷ es) = ⊥
Decode env (x ∷ entries) [] = ⊥
Decode env (x ∷ entries) (e ∷ es) = (env.audit_codec.decode x.1 ≡ ok e) × Decode env entries es

take-nil : {A : Type 0} (n : ℕ) → take {A = A} n [] ≡ []
take-nil zero = refl
take-nil (suc n) = refl

-- From `pushed` events on, the loop takes what the limit leaves, and at least one.
list_from_lem :
    (env : Env) (query : AuditQuery) (pushed : ℕ) (entries : List (ℕ × Bytes))
    (es : List AuditEvent)
    → Decode env entries es
    → list_from env query pushed entries
      ≡ ok (
          take
            (max 1 (query.limit - pushed))
            (select (matches query) (until_first (is_before query.since) es)))
unfolding list_from matches
list_from_lem env query pushed [] [] h = ap ok (sym (take-nil (max 1 (query.limit - pushed))))
list_from_lem env query pushed [] (e ∷ es) h = absurd h
list_from_lem env query pushed (x ∷ entries) [] h = absurd h
list_from_lem env query pushed ((id, bytes) ∷ entries) (e ∷ es) (dec, h) =
    let skip = list_from_lem env query pushed entries es h in
    let more = list_from_lem env query (suc pushed) entries es h in
    elim (Bool-cases (is_before query.since e)) [
      | inl b ↦ rw dec (rw b (ap ok (sym (take-nil (max 1 (query.limit - pushed))))))
      | inr b ↦ elim (Bool-cases (is_after query.until e)) [
        | inl a ↦ rw dec (rw b (rw a skip))
        | inr a ↦ elim (Bool-cases (has_action query.action e)) [
          | inr c ↦ rw dec (rw b (rw a (rw c skip)))
          | inl c ↦ elim (Bool-cases (has_org query.org_id e)) [
            | inr o ↦ rw dec (rw b (rw a (rw c (rw o skip))))
            | inl o ↦ elim (Bool-cases (leb query.limit (suc pushed))) [
              | inl full ↦ rw dec (rw b (rw a (rw c (rw o (rw full (rw (one_left full) refl))))))
              | inr room ↦
                  rw dec (rw b (rw a (rw c (rw o (rw room (rw (some_left room) (rw more refl)))))))
            ]
          ]
        ]
      ]
    ]
  where
    one_left : leb query.limit (suc pushed) ≡ true → max 1 (query.limit - pushed) ≡ 1
    one_left f = ground arith

    some_left :
        leb query.limit (suc pushed) ≡ false
        → max 1 (query.limit - pushed) ≡ suc (max 1 (query.limit - suc pushed))
    some_left f = ground arith

-- `list_audit` goes through the log from the latest event back to the first one before `since`, and
-- returns the events that match the other filters, at most as many as the limit, but at least one if
-- there is one.
pub list_audit_lem :
    (env : Env) (query : AuditQuery) (db : Db env) (es : List AuditEvent)
    → Decode env (reverse (env.audit_tables.iter db.audit_log)) es
    → list_audit env query db
      ≡ ok (
          take
            (max 1 query.limit)
            (select (matches query) (until_first (is_before query.since) es)))
unfolding list_audit
list_audit_lem env query db es h =
    list_from_lem env query 0 (reverse (env.audit_tables.iter db.audit_log)) es h
    ∙ ap
        (λ n. ok (take (max 1 n) (select (matches query) (until_first (is_before query.since) es))))
        (omega arith)
