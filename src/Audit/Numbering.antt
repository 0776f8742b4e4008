-- ===== src/Audit/Numbering.antt =====
-- crates/sirr-server/src/store/db.rs, `record_audit`: the numbers of the events.
use sirr.Prelude.{
  ℕ, suc, ◌<◌, ◌≤◌, ◌^◌, false, none, some, ◌≡◌, refl, sym, ap, ◌∙◌, arith, ◌==◌, if◌then◌else◌,
  inl, inr, Option-cases, Bool-cases, ==_iff,
}
use sirr.Text.{Bytes}
use sirr.Result.{ok}
use sirr.Records.{AuditEvent}
use sirr.External.Tables.{get-insert_self}
use sirr.Database.{Env, Db}
use sirr.Audit.{audit_seq_key, or_zero, next_seq, record_numbered, record_audit}

-- The last number given.
abbrev pub last_seq : (env : Env) → Db env → ℕ
last_seq env db = or_zero (env.counter_tables.get db.counters audit_seq_key)

-- No event has a number that was not given yet.
pub record IsNumbered (env : Env) (db : Db env) : Type 0 where
  pub at_id :
      (id : ℕ) (b : Bytes) → env.audit_tables.get db.audit_log id ≡ some b → id ≤ last_seq env db

module _ (env : Env) (event : AuditEvent) (db : Db env) where
  -- The event as it is stored.
  abbrev pub numbered : AuditEvent
  numbered = record event { id = suc (last_seq env db) }

  next_seq_lem : suc (last_seq env db) < 2 ^ 64 → next_seq env db ≡ suc (last_seq env db)
  unfolding next_seq
  next_seq_lem h = omega arith

  fresh : IsNumbered env db → env.audit_tables.get db.audit_log (suc (last_seq env db)) ≡ none
  fresh h = elim (Option-cases (env.audit_tables.get db.audit_log (suc (last_seq env db)))) [
    | inl e ↦ e
    | inr (b, e) ↦ absurd (omega (arith, h.at_id (suc (last_seq env db)) b e))
  ]

  abbrev stored : Bytes → Db env
  stored bytes = record db {
    counters = env.counter_tables.insert db.counters audit_seq_key (suc (last_seq env db));
    audit_log = env.audit_tables.insert db.audit_log (suc (last_seq env db)) bytes;
  }

  stored-last_seq : (bytes : Bytes) → last_seq env (stored bytes) ≡ suc (last_seq env db)
  stored-last_seq bytes = rw get-insert_self refl

  stored-get :
      (bytes : Bytes) (id : ℕ)
      → (suc (last_seq env db) == id) ≡ false
      → env.audit_tables.get (stored bytes).audit_log id ≡ env.audit_tables.get db.audit_log id
  stored-get bytes id other =
      env.audit_tables.get-insert db.audit_log (suc (last_seq env db)) id bytes ∙ rw other refl

  stored-IsNumbered : (bytes : Bytes) → IsNumbered env db → IsNumbered env (stored bytes)
  stored-IsNumbered bytes h = record {
    at_id = λ id b e. elim (Bool-cases (suc (last_seq env db) == id)) [
      | inl same ↦ omega (arith, stored-last_seq bytes, (==_iff (suc (last_seq env db)) id).0 same)
      | inr other ↦
          omega (arith, h.at_id id b (sym (stored-get bytes id other) ∙ e), stored-last_seq bytes)
    ];
  }

  -- Recording succeeds while there are numbers left: the event is stored under the next number, which
  -- was free, all earlier events stay, and the log stays numbered.
  pub record_audit_lem :
      IsNumbered env db
      → suc (last_seq env db) < 2 ^ 64
      → ((record_audit env event db).0 ≡ ok tt)
        × ((b : Bytes) × (env.audit_codec.decode b ≡ ok numbered)
            × ((id : ℕ)
                → env.audit_tables.get (record_audit env event db).1.audit_log id ≡ (
                    if suc (last_seq env db) == id
                    then some b
                    else env.audit_tables.get db.audit_log id)))
        × (env.audit_tables.get db.audit_log (suc (last_seq env db)) ≡ none)
        × (last_seq env (record_audit env event db).1 ≡ suc (last_seq env db))
        × IsNumbered env (record_audit env event db).1
  unfolding record_audit record_numbered
  record_audit_lem h fits =
      let (b, enc, dec, _) = env.audit_codec.round_trip numbered in
      let done : record_audit env event db ≡ (ok tt, stored b) =
        ap (λ seq. record_numbered env seq event db) (next_seq_lem fits)
        ∙ rw (enc, record_numbered) refl in
      (
        rw done refl,
        (
          b,
          dec,
          λ id. rw done (env.audit_tables.get-insert db.audit_log (suc (last_seq env db)) id b),
        ),
        fresh h,
        rw done (stored-last_seq b),
        rw done (stored-IsNumbered b h),
      )
