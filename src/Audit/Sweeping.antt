-- ===== src/Audit/Sweeping.antt =====
-- crates/sirr-server/src/store/db.rs, `prune_audit`: which events it removes.
use sirr.Prelude.{
  ℕ, ℤ, Bool, true, false, Option, none, some, List, [], ◌∷◌, ◌≡◌, refl, ◌∙◌, arith, ◌==◌, any,
  length, Ascending, ltb, ltb_ℤ, ◌≤ℤ◌, ◌-i64◌, if◌then◌else◌, Bool-cases, inl, inr,
}
use sirr.Text.{Bytes}
use sirr.Result.{ok, err}
use sirr.Records.{AuditEvent}
use sirr.External.Keys.{u64_key}
use sirr.External.Tables.{lookup, lookup_above, keys}
use sirr.Database.{Env, Db}
use sirr.Audit.{ids_to_remove, remove_ids, prune_audit}

-- The entries decode, and their timestamps never fall.
abbrev pub Chronological : (env : Env) → ℤ → List (ℕ × Bytes) → Type 0
Chronological env last [] = Unit
Chronological env last ((id, b) ∷ entries) =
    (e : AuditEvent) × (env.audit_codec.decode b ≡ ok e)
    × (last ≤ℤ e.timestamp)
    × Chronological env e.timestamp entries

abbrev pub elem_id : ℕ → List ℕ → Bool
elem_id j ids = any (λ id. id == j) ids

module _ (env : Env) (cutoff : ℤ) where
  -- The stored bytes are an event older than the cutoff.
  unfoldable pub is_old : Option Bytes → Bool
  is_old none = false
  is_old (some b) = elim (env.audit_codec.decode b) [
    | ok e ↦ ltb_ℤ e.timestamp cutoff
    | err e ↦ false
  ]

  get-remove_ids :
      (ids : List ℕ) (t : env.audit_tables.Table) (j : ℕ)
      → env.audit_tables.get (remove_ids env ids t) j
        ≡ (if elem_id j ids then none else env.audit_tables.get t j)
  unfolding remove_ids
  get-remove_ids [] t j = refl
  get-remove_ids (id ∷ ids) t j =
      get-remove_ids ids (env.audit_tables.remove t id) j
      ∙ ground (arith, env.audit_tables.get-remove t id j)

  -- From a timestamp that is not old on, no entry is old.
  none_old :
      (last : ℤ) (entries : List (ℕ × Bytes)) (j : ℕ)
      → Chronological env last entries
      → ltb_ℤ last cutoff ≡ false
      → is_old (lookup u64_key j entries) ≡ false
  unfolding lookup is_old
  none_old last [] j c h = refl
  none_old last ((id, b) ∷ entries) j (e, dec, le, c) h =
      let late : ltb_ℤ e.timestamp cutoff ≡ false = ground (arith, le, h) in
      ground (arith, dec, late, none_old e.timestamp entries j c late)

  ids_to_remove_lem :
      (last : ℤ) (entries : List (ℕ × Bytes))
      → Ascending (λ a b. ltb a b ≡ true) (keys entries)
      → Chronological env last entries
      → (ids : List ℕ) × (ids_to_remove env cutoff entries ≡ ok ids)
        × ((j : ℕ) → elem_id j ids ≡ is_old (lookup u64_key j entries))
  unfolding ids_to_remove lookup is_old
  ids_to_remove_lem last [] asc c = ([], refl, λ j. refl)
  ids_to_remove_lem last ((id, b) ∷ entries) asc (e, dec, le, c) =
      elim (Bool-cases (ltb_ℤ e.timestamp cutoff)) [
        | inl old ↦
            let (ids, found, members) = ids_to_remove_lem e.timestamp entries asc.1 c in
            (
              id ∷ ids,
              rw dec (rw old (rw found refl)),
              λ j. ground (arith, dec, old, members j, lookup_above u64_key id entries asc.0),
            )
        | inr late ↦ (
          [],
          rw dec (rw late refl),
          λ j. ground (arith, dec, late, none_old e.timestamp entries j c late),
        )
      ]

-- In a log whose timestamps never fall, a sweep removes exactly the events older than the cutoff, and
-- keeps all others.
pub prune_audit_lem :
    (env : Env) (now retention_seconds first : ℤ) (db : Db env)
    → Chronological env first (env.audit_tables.iter db.audit_log)
    → (removed : ℕ) × ((prune_audit env now retention_seconds db).0 ≡ ok removed)
      × ((id : ℕ)
          → env.audit_tables.get (prune_audit env now retention_seconds db).1.audit_log id ≡ (
              if is_old env (now -i64 retention_seconds) (env.audit_tables.get db.audit_log id)
              then none
              else env.audit_tables.get db.audit_log id))
unfolding prune_audit
prune_audit_lem env now retention_seconds first db c =
    let cutoff : ℤ = now -i64 retention_seconds in
    let (ids, found, members) =
      ids_to_remove_lem env cutoff first (env.audit_tables.iter db.audit_log)
        (env.audit_tables.iter-Ascending db.audit_log) c in
    swept ids found members
  where
    swept :
        (ids : List ℕ)
        → ids_to_remove env (now -i64 retention_seconds) (env.audit_tables.iter db.audit_log)
          ≡ ok ids
        → ((j : ℕ)
            → elem_id j ids
              ≡ is_old env
                  (now -i64 retention_seconds)
                  (lookup u64_key j (env.audit_tables.iter db.audit_log)))
        → (removed : ℕ) × ((prune_audit env now retention_seconds db).0 ≡ ok removed)
          × ((id : ℕ)
              → env.audit_tables.get (prune_audit env now retention_seconds db).1.audit_log id ≡ (
                  if is_old env (now -i64 retention_seconds) (env.audit_tables.get db.audit_log id)
                  then none
                  else env.audit_tables.get db.audit_log id))
    swept [] found members = (
      0,
      rw (found, prune_audit) refl,
      λ j. rw (found, prune_audit) (rw env.audit_tables.get-iter (rw (← members j) refl)),
    )
    swept (i ∷ ids) found members = (
      length (i ∷ ids),
      rw (found, prune_audit) refl,
      λ j.
          rw (found, prune_audit)
            (get-remove_ids env (now -i64 retention_seconds) (i ∷ ids) db.audit_log j
              ∙ rw (members j) (rw env.audit_tables.get-iter refl)),
    )
