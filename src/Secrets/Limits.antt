-- ===== src/Secrets/Limits.antt =====
-- The promise of a read limit in crates/sirr-server/src/store/db.rs: how often a secret is revealed.
use sirr.Prelude.{
  ℕ, ℤ, zero, suc, ◌+◌, ◌≤◌, ◌<◌, ◌^◌, Bool, true, false, Option, none, some, List, [], ◌∷◌, ◌≡◌,
  refl, arith, All, ltb, Bool-cases, lt→ltb, ap, ◌∙◌, min, length, inl, inr,
}
use sirr.Text.{Bytes, bytes_eq, bytes_eq_iff}
use sirr.Text.Utf8.{from_utf8}
use sirr.Result.{Result, ok}
use sirr.Records.{GetResult, value, burned}
use sirr.Database.{Env, Db, Store}
use sirr.Secrets.{put}
use sirr.Secrets.Frames.{IsWellFormed}
use sirr.Secrets.Machine.{
  Terms, Phase, live, spent, gone, has_expired, last_read, use_read, spec_get,
}
use sirr.Secrets.Lifecycle.{terms_of}
use sirr.Secrets.History.{Call, get_call, prune_call}
use sirr.Secrets.Answers.{OnlyReads, answers, spec_answers, spec_prune, put-answers}

-- The answer gives the value away.
abbrev reveal : Result GetResult → ℕ
reveal (ok (value _ _)) = 1
reveal (ok (burned _ _)) = 1
reveal _ = 0

-- How many of the answers give the value away.
unfoldable pub reveals : List (Result GetResult) → ℕ
reveals [] = 0
reveals (a ∷ rest) = reveal a + reveals rest

-- The reads that are left under a limit.
abbrev budget : Phase → ℕ
budget (live none) = 0
budget (live (some m)) = m
budget spent = 0
budget gone = 0

-- A phase that has a limit.
abbrev IsLimited : Phase → Type 0
IsLimited (live none) = ⊥
IsLimited (live (some m)) = 0 < m
IsLimited spent = Unit
IsLimited gone = Unit

-- What a read leaves: it uses up one of the reads left if it gives the value away.
abbrev Spends : Phase → GetResult × Phase → Type 0
Spends ph next = (reveal (ok next.0) + budget next.1 ≤ budget ph) × IsLimited next.1

Spends-use_read : (terms : Terms) (m : ℕ) → 0 < m → Spends (live (some m)) (use_read terms (some m))
unfolding use_read
Spends-use_read terms m h = elim (Bool-cases (ltb 1 m)) [
  | inl more ↦ rw more (ground arith, ground arith)
  | inr last ↦ rw last (spends_last (terms.delete))
]
  where
    spends_last : (b : Bool) → Spends (live (some m)) (last_read terms b)
    spends_last true = (omega arith, tt)
    spends_last false = (omega arith, tt)

Spends-get :
    (terms : Terms) (now : ℤ) (ph : Phase) → IsLimited ph → Spends ph (spec_get terms now ph)
unfolding spec_get
Spends-get terms now gone h = (omega arith, tt)
Spends-get terms now spent h = elim (Bool-cases (has_expired terms now)) [
  | inl e ↦ rw e (omega arith, tt)
  | inr e ↦ rw e (omega arith, tt)
]
Spends-get terms now (live none) h = absurd h
Spends-get terms now (live (some m)) h = elim (Bool-cases (has_expired terms now)) [
  | inl e ↦ rw e (omega arith, tt)
  | inr e ↦ rw e (Spends-use_read terms m h)
]

keeps_prune :
    (terms : Terms) (now : ℤ) (ph : Phase)
    → IsLimited ph
    → (budget (spec_prune terms now ph) ≤ budget ph) × IsLimited (spec_prune terms now ph)
unfolding spec_prune
keeps_prune terms now gone h = (omega arith, tt)
keeps_prune terms now spent h = ground arith
keeps_prune terms now (live none) h = absurd h
keeps_prune terms now (live (some m)) h = ground arith

reveals-le-budget :
    (terms : Terms) (k : Bytes) (calls : List Call) (ph : Phase)
    → IsLimited ph
    → reveals (spec_answers terms k calls ph) ≤ budget ph
unfolding spec_answers reveals
reveals-le-budget terms k [] ph h = omega arith
reveals-le-budget terms k (get_call now j ∷ calls) ph h =
    let (step, h') = Spends-get terms now ph h in
    elim (Bool-cases (bytes_eq j k)) [
      | inl e ↦ rw e (omega (arith, reveals-le-budget terms k calls (spec_get terms now ph).1 h'))
      | inr e ↦ rw e (reveals-le-budget terms k calls ph h)
    ]
reveals-le-budget terms k (prune_call now ∷ calls) ph h =
    let (step, h') = keeps_prune terms now ph h in
    omega (arith, reveals-le-budget terms k calls (spec_prune terms now ph) h')
reveals-le-budget terms k (_ ∷ calls) ph h = reveals-le-budget terms k calls ph h

-- A secret stored with a read limit of `n`, at least 1 and below 2^32, is revealed at most `n` times,
-- whatever calls on the public bucket follow that do not write, patch or delete its key. Its text is
-- UTF-8, and the entries that were in the table before decode.
pub reveals-le-limit :
    (env : Env) (store : Store) (now : ℤ) (nonce k text : Bytes) (ttl : Option ℕ) (n : ℕ)
    (delete_flag : Bool) (hook : Option Bytes) (db : Db env) (calls : List Call)
    → IsWellFormed env db.secrets
    → from_utf8 text ≡ some text
    → 0 < n
    → n < 2 ^ 32
    → All (OnlyReads k) calls
    → reveals (
        answers env store k calls
          (put env store now nonce k text ttl (some n) delete_flag hook db).1)
      ≤ n
reveals-le-limit env store now nonce k text ttl n delete_flag hook db calls wf u pos fits only =
    rw
      (put-answers env store now nonce k text ttl (some n) delete_flag hook db calls wf u
        (pos, fits) only)
      (reveals-le-budget (terms_of now text ttl delete_flag hook) k calls (live (some n)) pos)

-- The reads at the clocks `nows`.
abbrev pub reads : Bytes → List ℤ → List Call
reads k [] = []
reads k (now ∷ nows) = get_call now k ∷ reads k nows

-- No answer gives the value away once the phase has no reads left.
reveals_exhausted :
    (terms : Terms) (k : Bytes) (nows : List ℤ) (ph : Phase)
    → IsLimited ph
    → budget ph ≡ 0
    → reveals (spec_answers terms k (reads k nows) ph) ≡ 0
reveals_exhausted terms k nows ph h e = omega (arith, reveals-le-budget terms k (reads k nows) ph h)

module _ (terms : Terms) (k : Bytes) where
  reveals_last :
      (b : Bool) (nows : List ℤ)
      → reveals
          (ok (last_read terms b).0 ∷ spec_answers terms k (reads k nows) (last_read terms b).1)
        ≡ 1
  unfolding reveals
  reveals_last true nows = omega (arith, reveals_exhausted terms k nows gone tt refl)
  reveals_last false nows = omega (arith, reveals_exhausted terms k nows spent tt refl)

  use_read_more :
      (m : ℕ)
      → use_read terms (some (suc (suc m)))
        ≡ (value terms.text terms.webhook_url, live (some (suc m)))
  unfolding use_read
  use_read_more m = rw (lt→ltb 1 (suc (suc m)) (omega arith)) (ground arith)

  use_read_one : use_read terms (some 1) ≡ last_read terms terms.delete
  unfolding use_read
  use_read_one = refl

  reveals-reads :
      (m : ℕ) (nows : List ℤ)
      → All (λ now. has_expired terms now ≡ false) nows
      → reveals (spec_answers terms k (reads k nows) (live (some (suc m))))
        ≡ min (suc m) (length nows)
  unfolding spec_answers spec_get reveals
  reveals-reads m [] h = omega arith
  reveals-reads zero (now ∷ nows) h =
      rw ((bytes_eq_iff k k).1 refl)
        (rw h.0 (rw use_read_one (reveals_last terms.delete nows ∙ omega arith)))
  reveals-reads (suc m) (now ∷ nows) h =
      rw ((bytes_eq_iff k k).1 refl)
        (rw h.0 (rw use_read_more (omega (arith, reveals-reads m nows h.1))))

-- Of reads before the deadline, a secret stored with a read limit of `n`, at least 1 and below 2^32,
-- answers the first `n` with its value, and no others. Its text is UTF-8, and the entries that were in
-- the table before decode.
pub reveals-eq-limit :
    (env : Env) (store : Store) (now : ℤ) (nonce k text : Bytes) (ttl : Option ℕ) (n : ℕ)
    (delete_flag : Bool) (hook : Option Bytes) (db : Db env) (nows : List ℤ)
    → IsWellFormed env db.secrets
    → from_utf8 text ≡ some text
    → 0 < n
    → n < 2 ^ 32
    → All (λ t. has_expired (terms_of now text ttl delete_flag hook) t ≡ false) nows
    → reveals (
        answers env store k
          (reads k nows)
          (put env store now nonce k text ttl (some n) delete_flag hook db).1)
      ≡ min n (length nows)
reveals-eq-limit env store now nonce k text ttl zero delete_flag hook db nows wf u pos fits early =
    absurd (omega arith)
reveals-eq-limit env store now nonce k text ttl (suc m) delete_flag hook db nows wf u pos fits
      early =
    ap reveals (
      put-answers env store now nonce k text ttl (some (suc m)) delete_flag hook db (reads k nows)
        wf u (pos, fits) (only nows))
    ∙ reveals-reads (terms_of now text ttl delete_flag hook) k m nows early
  where
    only : (ts : List ℤ) → All (OnlyReads k) (reads k ts)
    only [] = tt
    only (t ∷ ts) = (tt, only ts)
