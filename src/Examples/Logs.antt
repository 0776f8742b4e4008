-- ===== src/Examples/Logs.antt =====
-- The audit log of crates/sirr-server/src/store/db.rs at concrete inputs.
use sirr.Prelude.{
  ℕ, pos, suc, max, ◌==◌, true, none, some, [], ◌∷◌, ◌≡◌, refl, sym, ◌∙◌, arith, take, select,
  if◌then◌else◌,
}
use sirr.Text.{Bytes, codes}
use sirr.Result.{ok}
use sirr.Records.{AuditEvent, AuditQuery}
use sirr.External.Tables.{lookup}
use sirr.Database.{Db}
use sirr.Samples.Setting.{setting, new_db}
use sirr.Audit.{new_event, is_before, record_audit, list_audit, record_numbered}
use sirr.Audit.Numbering.{IsNumbered, last_seq, numbered, record_audit_lem}
use sirr.Audit.Listing.{matches, until_first, list_audit_lem}

abbrev read_at : ℕ → AuditEvent
read_at t =
    new_event (pos t) (codes "secret.read") (some (codes "a")) (codes "1.2.3.4") true none none none

new-IsNumbered : IsNumbered setting new_db
new-IsNumbered = record {
  at_id = λ id b e. absurd (not_there (sym (setting.audit_tables.get-empty id) ∙ e));
}
  where
    not_there : {b : Bytes} → none ≡ some b → ⊥
    not_there e = cc

last-new : last_seq setting new_db ≡ 0
unfolding lookup
last-new = refl

record_audit_lem_example :
    ((record_audit setting (read_at 5) new_db).0 ≡ ok tt)
    × ((b : Bytes) × (setting.audit_codec.decode b ≡ ok (numbered setting (read_at 5) new_db))
        × ((id : ℕ)
            → setting.audit_tables.get (record_audit setting (read_at 5) new_db).1.audit_log id ≡ (
                if suc (last_seq setting new_db) == id
                then some b
                else setting.audit_tables.get new_db.audit_log id)))
    × (setting.audit_tables.get new_db.audit_log (suc (last_seq setting new_db)) ≡ none)
    × (last_seq setting (record_audit setting (read_at 5) new_db).1 ≡ suc (last_seq setting new_db))
    × IsNumbered setting (record_audit setting (read_at 5) new_db).1
record_audit_lem_example =
    record_audit_lem setting (read_at 5) new_db new-IsNumbered (omega (arith, last-new))

-- Two events.
abbrev with_log : Db setting
with_log =
    (record_numbered setting 2 (read_at 9) (record_numbered setting 1 (read_at 5) new_db).1).1

abbrev latest : AuditQuery
latest = record { since = some (pos 6); until = none; action = none; limit = 3; org_id = none }

list_audit_lem_example :
    list_audit setting latest with_log
    ≡ ok (
        take (max 1 3) (
          select (matches latest) (
            until_first
              (is_before (some (pos 6)))
              (record (read_at 9) { id = 2 } ∷ record (read_at 5) { id = 1 } ∷ []))))
unfolding record_numbered
list_audit_lem_example =
    list_audit_lem setting latest with_log
      (record (read_at 9) { id = 2 } ∷ record (read_at 5) { id = 1 } ∷ []) (refl, (refl, tt))
