-- ===== src/Examples/Secrets.antt =====
-- The public secrets of crates/sirr-server/src/store/db.rs: runs, and the theorems on them at concrete
-- inputs.
use sirr.Prelude.{
  pos, min, ◌≤◌, true, false, none, some, List, [], ◌∷◌, ◌≡◌, refl, sym, ◌∙◌, arith, All,
  if◌then◌else◌,
}
use sirr.Text.{Bytes, codes, bytes_eq, strip_prefix}
use sirr.Text.Utf8.{from_utf8, is_utf8}
use sirr.Result.{ok}
use sirr.Records.{value, not_found, is_expired, is_sealed, is_burned, reads_exhausted}
use sirr.External.Tables.{lookup}
use sirr.Database.{Db}
use sirr.RecordFormat.{encrypt, encode, decode, decrypt}
use sirr.Samples.Setting.{setting, store, new_db}
use sirr.Secrets.{
  put, get, put_txn, insert_record, get_txn, read_record, read_live, burn_or_keep, get_by_table_key,
}
use sirr.Secrets.Scan.{prune, prunable_keys, remove_keys, is_prunable}
use sirr.Secrets.Frames.{IsWellFormed}
use sirr.Secrets.Machine.{live, has_expired}
use sirr.Secrets.Lifecycle.{terms_of}
use sirr.Secrets.History.{Call, get_call, put_call, prune_call, apply, apply-IsWellFormed}
use sirr.Secrets.Answers.{answers, spec_answers, put-answers, OnlyReads}
use sirr.Secrets.Limits.{reveals, reads, reveals-le-limit, reveals-eq-limit}
use sirr.Secrets.Pruning.{elem, prunable_at, prunable_bytes, prunable_entry, prune_lem, prune_race}

-- Nothing is stored in a new database.
pub new-IsWellFormed : IsWellFormed setting new_db.secrets
new-IsWellFormed = record {
  at_key = λ k b e. absurd (not_found_there (sym (setting.tables.get-empty k) ∙ e));
}
  where
    not_found_there : {b : Bytes} → none ≡ some b → ⊥
    not_found_there e = cc

abbrev pub a : Bytes
a = codes "a"

abbrev pub hi : Bytes
hi = codes "hi"

-- A kept secret with two reads.
abbrev pub with_a : Db setting
with_a = (put setting store (pos 100) [] a hi none (some 2) false none new_db).1

with_a-secrets : with_a.secrets.0 ≡ (
    (a, 1 ∷ 1 ∷ 0 ∷ 3 ∷ 7 ∷ 104 ∷ 105 ∷ 0 ∷ 0 ∷ 100 ∷ 0 ∷ 1 ∷ 2 ∷ 0 ∷ 0 ∷ 0 ∷ 0 ∷ 0 ∷ 0 ∷ []) ∷ [])
unfolding put put_txn encrypt insert_record encode
with_a-secrets = refl

get-with_a : (get setting store (pos 120) a with_a).0 ≡ ok (value hi none)
unfolding put put_txn encrypt insert_record encode get get_by_table_key get_txn lookup bytes_eq
    decode read_record is_expired is_sealed reads_exhausted read_live decrypt strip_prefix from_utf8
    is_utf8 burn_or_keep is_burned
get-with_a = refl

pub hi-text : from_utf8 hi ≡ some hi
unfolding from_utf8 is_utf8
hi-text = refl

-- Two reads among a prune and a write to another key.
abbrev calls : List Call
calls =
    get_call (pos 101) a
    ∷ put_call (pos 102) [] (codes "b") hi none none true none
    ∷ prune_call (pos 103)
    ∷ get_call (pos 104) a
    ∷ get_call (pos 105) a
    ∷ []

calls-OnlyReads : All (OnlyReads a) calls
calls-OnlyReads = (tt, ((λ e. ground (arith, e)), (tt, (tt, (tt, tt)))))

put-answers_example :
    answers setting store a calls
      (put setting store (pos 100) [] a hi (some 60) (some 2) true none new_db).1
    ≡ spec_answers (terms_of (pos 100) hi (some 60) true none) a calls (live (some 2))
put-answers_example =
    put-answers setting store (pos 100) [] a hi (some 60) (some 2) true none new_db calls
      new-IsWellFormed hi-text (omega arith, omega arith) calls-OnlyReads

reveals-le-limit_example :
    reveals (
      answers setting store a calls
        (put setting store (pos 100) [] a hi (some 60) (some 2) false none new_db).1)
    ≤ 2
reveals-le-limit_example =
    reveals-le-limit setting store (pos 100) [] a hi (some 60) 2 false none new_db calls
      new-IsWellFormed hi-text (omega arith) (omega arith) calls-OnlyReads

reveals-eq-limit_example :
    reveals (
      answers setting store a
        (reads a (pos 101 ∷ pos 102 ∷ pos 103 ∷ []))
        (put setting store (pos 100) [] a hi none (some 2) false none new_db).1)
    ≡ min 2 3
unfolding has_expired
reveals-eq-limit_example =
    reveals-eq-limit setting store (pos 100) [] a hi none 2 false none new_db
      (pos 101 ∷ pos 102 ∷ pos 103 ∷ []) new-IsWellFormed hi-text (omega arith) (omega arith)
      (refl, (refl, (refl, tt)))

prune_lem_example :
    (ks : List Bytes) × ((prune setting (pos 200) with_a).0 ≡ ok ks)
    × ((j : Bytes) → elem j ks ≡ prunable_at setting (pos 200) with_a.secrets j)
    × ((j : Bytes)
        → setting.tables.get (prune setting (pos 200) with_a).1.secrets j ≡ (
            if prunable_at setting (pos 200) with_a.secrets j
            then none
            else setting.tables.get with_a.secrets j))
unfolding apply
prune_lem_example = prune_lem setting (pos 200) with_a (
    apply-IsWellFormed setting store (put_call (pos 100) [] a hi none (some 2) false none) new_db
      new-IsWellFormed)

-- A secret that the next prune removes.
abbrev with_burned : Db setting
with_burned = (put setting store (pos 100) [] a hi none (some 0) true none new_db).1

burned-prunable :
    prunable_keys setting (pos 200) (setting.tables.iter with_burned.secrets) ≡ ok (a ∷ [])
unfolding put put_txn encrypt insert_record encode prunable_keys decode is_prunable is_expired
    is_burned reads_exhausted
burned-prunable = refl

burned-prunable_at : prunable_at setting (pos 200) with_burned.secrets a ≡ true
unfolding put put_txn encrypt insert_record encode prunable_at prunable_entry prunable_bytes lookup
    bytes_eq decode is_prunable is_expired is_burned reads_exhausted
burned-prunable_at = refl

prune_race_example :
    (get setting store (pos 202) a (
      remove_keys setting
        (a ∷ [])
        (put setting store (pos 200) [] a hi none none false none with_burned).1)).0
    ≡ ok not_found
prune_race_example =
    prune_race setting store (pos 200) with_burned (a ∷ []) [] a hi none none false none (pos 202)
      burned-prunable burned-prunable_at
