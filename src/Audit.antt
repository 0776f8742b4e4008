-- ===== src/Audit.antt =====
-- crates/sirr-server/src/store/audit.rs and store/db.rs: the audit log, numbered by a counter that is
-- kept beside it.
pub mod Listing
pub mod Numbering
pub mod Frames
pub mod Bounds
pub mod Sweeping
use sirr.Prelude.{
  ℕ, ℤ, suc, ◌+◌, ◌%◌, ◌^◌, Bool, true, false, not, ◌&&◌, Option, none, some, List, [], ◌∷◌,
  reverse, length, leb, ltb_ℤ, ◌-i64◌, is_empty, if◌then◌else◌,
}
use sirr.Text.{Bytes, bytes_eq, codes}
use sirr.Result.{Result, ok, err, ◌>>=◌}
use sirr.Records.{AuditEvent, AuditQuery}
use sirr.Database.{Env, Db}

-- `AuditEvent::new` at the clock; the number is given by the store.
abbrev pub new_event :
    ℤ
    → Bytes
    → Option Bytes
    → Bytes
    → Bool
    → Option Bytes
    → Option Bytes
    → Option Bytes
    → AuditEvent
new_event timestamp action key source_ip success detail org_id principal_id = record {
  id = 0;
  timestamp = timestamp;
  action = action;
  key = key;
  source_ip = source_ip;
  success = success;
  detail = detail;
  org_id = org_id;
  principal_id = principal_id;
}

abbrev pub audit_seq_key : Bytes
audit_seq_key = codes "audit_seq"

abbrev pub or_zero : Option ℕ → ℕ
or_zero none = 0
or_zero (some n) = n

-- The filters of a query that skip an event.
unfoldable pub is_after : Option ℤ → AuditEvent → Bool
is_after none event = false
is_after (some until) event = ltb_ℤ until event.timestamp

unfoldable pub is_before : Option ℤ → AuditEvent → Bool
is_before none event = false
is_before (some since) event = ltb_ℤ event.timestamp since

unfoldable pub has_action : Option Bytes → AuditEvent → Bool
has_action none event = true
has_action (some action) event = bytes_eq event.action action

unfoldable pub has_org : Option Bytes → AuditEvent → Bool
has_org none event = true
has_org (some org_id) event = elim event.org_id [ none ↦ false | some o ↦ bytes_eq o org_id ]

module _ (env : Env) where
  -- The next number; a `u64` sum.
  unfoldable pub next_seq : Db env → ℕ
  next_seq db = (or_zero (env.counter_tables.get db.counters audit_seq_key) + 1) % 2 ^ 64

  -- The event under its number, beside the counter.
  unfoldable pub record_numbered : ℕ → AuditEvent → Db env → Result (Unit {0}) × Db env
  record_numbered seq event db = elim (env.audit_codec.encode (record event { id = seq })) [
    | ok bytes ↦ (
      ok tt,
      record db {
        counters = env.counter_tables.insert db.counters audit_seq_key seq;
        audit_log = env.audit_tables.insert db.audit_log seq bytes;
      },
    )
    | err e ↦ (err e, db)
  ]

  unfoldable pub record_audit : AuditEvent → Db env → Result (Unit {0}) × Db env
  record_audit event db = record_numbered (next_seq db) event db

  -- The loop of `list_audit` over the entries, latest first, with the number of events pushed so far.
  -- An event before `since` ends it, and so does a push that reaches the limit.
  unfoldable pub list_from : AuditQuery → ℕ → List (ℕ × Bytes) → Result (List AuditEvent)
  list_from query pushed [] = ok []
  list_from query pushed ((id, bytes) ∷ entries) =
      let skip = list_from query pushed entries in
      let more = list_from query (suc pushed) entries in
      env.audit_codec.decode bytes >>= λ event.
      if is_before query.since event
      then ok []
      else if is_after query.until event
      then skip
      else if not (has_action query.action event)
      then skip
      else if not (has_org query.org_id event)
      then skip
      else if leb query.limit (suc pushed)
      then ok (event ∷ [])
      else more >>= λ events. ok (event ∷ events)

  unfoldable pub list_audit : AuditQuery → Db env → Result (List AuditEvent)
  list_audit query db = list_from query 0 (reverse (env.audit_tables.iter db.audit_log))

  -- The read pass of `prune_audit`: it ends at the first event that is not too old.
  unfoldable pub ids_to_remove : ℤ → List (ℕ × Bytes) → Result (List ℕ)
  ids_to_remove cutoff [] = ok []
  ids_to_remove cutoff ((id, bytes) ∷ entries) =
      let rest = ids_to_remove cutoff entries in
      env.audit_codec.decode bytes >>= λ event.
      if ltb_ℤ event.timestamp cutoff then (rest >>= λ ids. ok (id ∷ ids)) else ok []

  unfoldable pub remove_ids : List ℕ → env.audit_tables.Table → env.audit_tables.Table
  remove_ids [] t = t
  remove_ids (id ∷ ids) t = remove_ids ids (env.audit_tables.remove t id)

  unfoldable pub prune_audit : ℤ → ℤ → Db env → Result ℕ × Db env
  prune_audit now retention_seconds db =
      elim (ids_to_remove (now -i64 retention_seconds) (env.audit_tables.iter db.audit_log)) [
        | ok ids ↦
            if is_empty ids
            then (ok 0, db)
            else (ok (length ids), record db { audit_log = remove_ids ids db.audit_log })
        | err e ↦ (err e, db)
      ]
