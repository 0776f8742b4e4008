-- ===== src/Secrets/Answers.antt =====
-- crates/sirr-server/src/store/db.rs: the answers to the reads of one secret among all other calls, and
-- those of the machine of `Machine`.
use sirr.Prelude.{
  ℕ, ℤ, Bool, false, Option, some, List, [], ◌∷◌, ◌≡◌, ◌≢◌, refl, ◌∙◌, ap₂, sym, subst, arith, All,
  Bool-cases, inl, inr, if◌then◌else◌,
}
use sirr.Text.{Bytes, bytes_eq, bytes_eq_iff}
use sirr.Text.Utf8.{from_utf8}
use sirr.Result.{Result, ok}
use sirr.Records.{SecretRecord, GetResult, is_burned}
use sirr.Database.{Env, Db, Store}
use sirr.Secrets.{Table, get, put, patch, delete}
use sirr.Secrets.Stored.{Stored}
use sirr.Secrets.Frames.{
  IsWellFormed, other-IsLocal, get-local, put-local, patch-local, delete-local,
}
use sirr.Secrets.Machine.{
  Terms, Phase, live, spent, gone, InPhase, has_expired, spec_get, InPhase-cong, Follows,
  has_expired-is_expired, present,
}
use sirr.Secrets.Lifecycle.{get-spec_get, IsLimit, terms_of, put-InPhase}
use sirr.Secrets.Scan.{prune, is_prunable}
use sirr.Secrets.Pruning.{prune_lem, prunable_at, prunable_at-decoded}
use sirr.Secrets.History.{
  Call, get_call, put_call, patch_call, delete_call, prune_call, apply, apply-IsWellFormed,
  prune-IsWellFormed,
}

-- The machine under a prune: an expired secret is removed.
unfoldable pub spec_prune : Terms → ℤ → Phase → Phase
spec_prune terms now gone = gone
spec_prune terms now spent = if has_expired terms now then gone else spent
spec_prune terms now (live left) = if has_expired terms now then gone else live left

prunable_at-has_expired :
    (env : Env) (store : Store) (now : ℤ) (t : Table env) (k : Bytes) (terms : Terms)
    (r : SecretRecord) (version : ℕ)
    → Stored env store t k r version terms.text
    → Follows r terms
    → is_burned r ≡ false
    → prunable_at env now t k ≡ has_expired terms now
unfolding is_prunable
prunable_at-has_expired env store now t k terms r version s f b =
    prunable_at-decoded env now t k s.bytes r version s.at_key s.decodes
    ∙ ground (arith, b, has_expired-is_expired now f)

module _ (env : Env) (store : Store) (now : ℤ) (db : Db env) (k : Bytes) (terms : Terms)
    (wf : IsWellFormed env db.secrets) where
  prune_present :
      (ph : Phase)
      → InPhase env store db.secrets k terms ph
      → (r : SecretRecord) (version : ℕ) → Stored env store db.secrets k r version terms.text
      → Follows r terms
      → is_burned r ≡ false
      → InPhase env store
          (prune env now db).1.secrets
          k
          terms
          (if has_expired terms now then gone else ph)
  unfolding InPhase
  prune_present ph h r version s f b =
      let p = prunable_at-has_expired env store now db.secrets k terms r version s f b in
      let kept = (prune_lem env now db wf).3 k in
      elim (Bool-cases (has_expired terms now)) [
        | inl x ↦ rw x (ground (arith, kept, p, x))
        | inr x ↦ rw x (
            InPhase-cong env store db.secrets (prune env now db).1.secrets k terms ph
              (ground (arith, kept, p, x)) h)
      ]

  prune_unless_gone :
      (ph : Phase)
      → ph ≢ gone
      → InPhase env store db.secrets k terms ph
      → InPhase env store
          (prune env now db).1.secrets
          k
          terms
          (if has_expired terms now then gone else ph)
  prune_unless_gone ph ne h = elim (present env store db.secrets k terms ph h) [
    | inl (_, e) ↦ absurd (ne e)
    | inr (r, version, s, f, b, _) ↦ prune_present ph h r version s f b
  ]

  prune-InPhase :
      (ph : Phase)
      → InPhase env store db.secrets k terms ph
      → InPhase env store (prune env now db).1.secrets k terms (spec_prune terms now ph)
  unfolding InPhase spec_prune prunable_at
  prune-InPhase gone h = ground (arith, (prune_lem env now db wf).3 k, h)
  prune-InPhase spent h = prune_unless_gone spent (λ e. cc) h
  prune-InPhase (live left) h = prune_unless_gone (live left) (λ e. cc) h

-- Every call on the key is a read; the other calls are on other keys, or prunes.
abbrev pub OnlyReads : Bytes → Call → Type 0
OnlyReads k (get_call now j) = Unit
OnlyReads k (put_call now nonce j text ttl limit delete_flag hook) = j ≢ k
OnlyReads k (patch_call now nonce j v m ttl) = j ≢ k
OnlyReads k (delete_call j) = j ≢ k
OnlyReads k (prune_call now) = Unit

-- The answers to the reads of the key, in order.
unfoldable pub answers : (env : Env) → Store → Bytes → List Call → Db env → List (Result GetResult)
unfolding apply
answers env store k [] db = []
answers env store k (get_call now j ∷ calls) db =
    let rest = answers env store k calls (get env store now j db).1 in
    if bytes_eq j k then (get env store now j db).0 ∷ rest else rest
answers env store k (put_call now nonce j text ttl limit delete_flag hook ∷ calls) db =
    answers env store k calls (put env store now nonce j text ttl limit delete_flag hook db).1
answers env store k (patch_call now nonce j v m ttl ∷ calls) db =
    answers env store k calls (patch env store now nonce j v m ttl db).1
answers env store k (delete_call j ∷ calls) db = answers env store k calls (delete env j db).1
answers env store k (prune_call now ∷ calls) db = answers env store k calls (prune env now db).1

-- The answers of the machine, which sees the reads of its key and the prunes.
unfoldable pub spec_answers : Terms → Bytes → List Call → Phase → List (Result GetResult)
spec_answers terms k [] ph = []
spec_answers terms k (get_call now j ∷ calls) ph =
    let next = spec_answers terms k calls (spec_get terms now ph).1 in
    let same = spec_answers terms k calls ph in
    if bytes_eq j k then ok (spec_get terms now ph).0 ∷ next else same
spec_answers terms k (prune_call now ∷ calls) ph =
    spec_answers terms k calls (spec_prune terms now ph)
spec_answers terms k (_ ∷ calls) ph = spec_answers terms k calls ph

module _ (env : Env) (store : Store) (k : Bytes) (terms : Terms) where
  -- The answers from a phase on are those of the machine.
  abbrev Agrees : List Call → Type 0
  Agrees calls =
      (ph : Phase) (db : Db env)
      → IsWellFormed env db.secrets
      → InPhase env store db.secrets k terms ph
      → answers env store k calls db ≡ spec_answers terms k calls ph

  Agrees-own : (now : ℤ) (calls : List Call) → Agrees calls → Agrees (get_call now k ∷ calls)
  unfolding answers spec_answers
  Agrees-own now calls ih ph db wf h =
      let (reply, h', _) = get-spec_get env store now k terms ph db h in
      rw ((bytes_eq_iff k k).1 refl) (
        ap₂ ◌∷◌ reply (
          ih (spec_get terms now ph).1 (get env store now k db).1
            (apply-IsWellFormed env store (get_call now k) db wf) h'))

  module _ (j : Bytes) (ne : j ≢ k) (db : Db env) (ph : Phase)
      (h : InPhase env store db.secrets k terms ph) where
    -- A call on another key does not change the phase.
    elsewhere :
        (db' : Db env)
        → env.tables.get db'.secrets k ≡ env.tables.get db.secrets k
        → InPhase env store db'.secrets k terms ph
    elsewhere db' e = InPhase-cong env store db.secrets db'.secrets k terms ph e h

  Agrees-get :
      (now : ℤ) (j : Bytes) (calls : List Call) → Agrees calls → Agrees (get_call now j ∷ calls)
  unfolding answers spec_answers apply
  Agrees-get now j calls ih ph db wf h = elim (Bool-cases (bytes_eq j k)) [
    | inl e ↦
        subst
          (λ i.
            answers env store k (get_call now i ∷ calls) db
            ≡ spec_answers terms k (get_call now i ∷ calls) ph)
          (sym ((bytes_eq_iff j k).0 e)) (Agrees-own now calls ih ph db wf h)
    | inr e ↦ rw e (
        ih ph (get env store now j db).1 (apply-IsWellFormed env store (get_call now j) db wf) (
          elsewhere j (ne e) db ph h (get env store now j db).1
            (get-local env store j db _ (other-IsLocal env j k db.secrets (ne e)) now)))
  ]
    where
      ne : bytes_eq j k ≡ false → j ≢ k
      ne e = λ p. ground (arith, bytes_eq_iff j k)

  agrees : (calls : List Call) → All (OnlyReads k) calls → Agrees calls
  unfolding answers spec_answers apply
  agrees [] only ph db wf h = refl
  agrees (get_call now j ∷ calls) only ph db wf h =
      Agrees-get now j calls (agrees calls only.1) ph db wf h
  agrees (put_call now nonce j text ttl limit delete_flag hook ∷ calls) only ph db wf h =
      let c = put_call now nonce j text ttl limit delete_flag hook in
      agrees calls only.1 ph (apply env store c db) (apply-IsWellFormed env store c db wf) (
        elsewhere j only.0 db ph h (apply env store c db) (
          put-local env store j db _ (other-IsLocal env j k db.secrets only.0) now nonce text ttl
            limit delete_flag hook))
  agrees (patch_call now nonce j v m ttl ∷ calls) only ph db wf h =
      let c = patch_call now nonce j v m ttl in
      agrees calls only.1 ph (apply env store c db) (apply-IsWellFormed env store c db wf) (
        elsewhere j only.0 db ph h (apply env store c db) (
          patch-local env store j db _ (other-IsLocal env j k db.secrets only.0) now nonce v m ttl))
  agrees (delete_call j ∷ calls) only ph db wf h =
      agrees calls only.1 ph (apply env store (delete_call j) db)
        (apply-IsWellFormed env store (delete_call j) db wf)
        (elsewhere j only.0 db ph h (apply env store (delete_call j) db)
          (delete-local env store j db _ (other-IsLocal env j k db.secrets only.0)))
  agrees (prune_call now ∷ calls) only ph db wf h =
      agrees calls only.1 (spec_prune terms now ph) (prune env now db).1
        (prune-IsWellFormed env now db wf) (prune-InPhase env store now db k terms wf ph h)

-- After a `put` with an accepted read limit, none or from 1 to below 2^32, and whatever calls on the
-- public bucket follow that do not write, patch or delete the key, the reads of the secret answer
-- exactly as the machine does that was started with that limit: values until the limit is reached, the
-- last one burning the secret or leaving it sealed, and nothing from its deadline on. The text is
-- UTF-8, and the entries that were in the table before decode.
pub put-answers :
    (env : Env) (store : Store) (now : ℤ) (nonce k text : Bytes) (ttl limit : Option ℕ)
    (delete_flag : Bool) (hook : Option Bytes) (db : Db env) (calls : List Call)
    → IsWellFormed env db.secrets
    → from_utf8 text ≡ some text
    → IsLimit limit
    → All (OnlyReads k) calls
    → answers env store k calls (put env store now nonce k text ttl limit delete_flag hook db).1
      ≡ spec_answers (terms_of now text ttl delete_flag hook) k calls (live limit)
unfolding apply
put-answers env store now nonce k text ttl limit delete_flag hook db calls wf u fits only =
    agrees env store k (terms_of now text ttl delete_flag hook) calls only (live limit)
      (put env store now nonce k text ttl limit delete_flag hook db).1
      (apply-IsWellFormed env store (put_call now nonce k text ttl limit delete_flag hook) db wf)
      (put-InPhase env store now nonce k text ttl limit delete_flag hook db u fits)
