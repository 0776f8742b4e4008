-- ===== src/Secrets/Sealed.antt =====
-- crates/sirr-server/src/store/db.rs: a kept secret whose reads are used up, under `patch`.
use sirr.Prelude.{
  ℕ, ℤ, zero, suc, ◌≤◌, ◌<◌, ◌^◌, Bool, true, false, Option, none, some, List, [], ◌∷◌, map, length,
  ◌≡◌, refl, ap, subst, ◌∙◌, arith, All, Bool-cases, lt→ltb, if◌then◌else◌, inl, inr,
}
use sirr.Text.{Bytes}
use sirr.Text.Utf8.{from_utf8}
use sirr.Result.{Result, ok, err, read_limit_exhausted}
use sirr.Records.{SecretRecord, SecretMeta, sealed, not_found, is_expired, is_sealed}
use sirr.Database.{Env, Db, Store}
use sirr.Secrets.{get, put, patch}
use sirr.Secrets.Machine.{
  Terms, Phase, live, spent, InPhase, has_expired, has_expired-is_expired, use_read, spec_get,
}
use sirr.Secrets.Lifecycle.{get-spec_get, terms_of, put-InPhase}
use sirr.Secrets.History.{apply, run}
use sirr.Secrets.Limits.{reads}
use sirr.Secrets.Patching.{refusal, patch_refused}

-- A call of `patch` on the secret.
pub record Attempt : Type 0 where
  pub now : ℤ
  pub nonce : Bytes
  pub new_value : Option Bytes
  pub max_reads : Option ℕ
  pub ttl_seconds : Option ℕ

-- The replies to attempts one after the other, and the database after them.
unfoldable pub patch_all :
    (env : Env) → Store → Bytes → List Attempt → Db env → List (Result (Option SecretMeta)) × Db env
patch_all env store k [] db = ([], db)
patch_all env store k (a ∷ attempts) db =
    let (reply, db') = patch env store a.now a.nonce k a.new_value a.max_reads a.ttl_seconds db in
    let (replies, db'') = patch_all env store k attempts db' in (reply ∷ replies, db'')

-- What a sealed secret replies to an attempt, before and after its deadline.
abbrev pub reply_if : Bool → Result (Option SecretMeta)
reply_if true = ok none
reply_if false = err read_limit_exhausted

abbrev pub turned_down : Terms → Attempt → Result (Option SecretMeta)
turned_down terms a = reply_if (has_expired terms a.now)

refusal-sealed :
    (now : ℤ) (r : SecretRecord)
    → r.delete ≡ false
    → is_sealed r ≡ true
    → refusal now r ≡ some (reply_if (is_expired r now))
unfolding refusal
refusal-sealed now r kept used = elim (Bool-cases (is_expired r now)) [
  | inl y ↦ rw y refl
  | inr n ↦ ground (arith, n, kept, used)
]

-- The database after a kept secret with a read limit has been stored and read.
abbrev pub used_up :
    (env : Env)
    → Store
    → ℤ
    → Bytes
    → Bytes
    → Bytes
    → Option ℕ
    → ℕ
    → Option Bytes
    → List ℤ
    → Db env
    → Db env
used_up env store now nonce k text ttl n hook nows db =
    run env store (reads k nows) (put env store now nonce k text ttl (some n) false hook db).1

module _ (env : Env) (store : Store) (k : Bytes) (terms : Terms) where
  patch-spent :
      (a : Attempt) (db : Db env)
      → terms.delete ≡ false
      → InPhase env store db.secrets k terms spent
      → patch env store a.now a.nonce k a.new_value a.max_reads a.ttl_seconds db
        ≡ (turned_down terms a, db)
  unfolding InPhase
  patch-spent a db kept (r, version, s, f, is_used) =
      patch_refused env store a.now a.nonce k terms.text r version a.new_value a.max_reads
        a.ttl_seconds db (turned_down terms a) s
        (refusal-sealed a.now r (f.delete ∙ kept) is_used
          ∙ ap (λ b. some (reply_if b)) (has_expired-is_expired a.now f))

  patch_all-spent :
      (attempts : List Attempt) (db : Db env)
      → terms.delete ≡ false
      → InPhase env store db.secrets k terms spent
      → patch_all env store k attempts db ≡ (map (turned_down terms) attempts, db)
  unfolding patch_all
  patch_all-spent [] db kept h = refl
  patch_all-spent (a ∷ attempts) db kept h =
      rw (patch-spent a db kept h) (rw (patch_all-spent attempts db kept h) refl)

  -- A read before the deadline leaves a sealed secret sealed, and seals a kept one at its last read.
  stays_spent : (t : ℤ) → has_expired terms t ≡ false → (spec_get terms t spent).1 ≡ spent
  unfolding spec_get
  stays_spent t early = rw early refl

  answer-spent :
      (t : ℤ) → (spec_get terms t spent).0 ≡ (if has_expired terms t then not_found else sealed)
  unfolding spec_get
  answer-spent t = elim (Bool-cases (has_expired terms t)) [ inl y ↦ rw y refl | inr n ↦ rw n refl ]

  last-spent :
      (t : ℤ)
      → terms.delete ≡ false
      → has_expired terms t ≡ false
      → (spec_get terms t (live (some 1))).1 ≡ spent
  unfolding spec_get use_read
  last-spent t kept early = rw early (rw kept refl)

  next_live :
      (m : ℕ) (t : ℤ)
      → has_expired terms t ≡ false
      → (spec_get terms t (live (some (suc (suc m))))).1 ≡ live (some (suc m))
  unfolding spec_get use_read
  next_live m t early = rw early (rw (lt→ltb 1 (suc (suc m)) (omega arith)) (ground arith))

  -- The phase after a read, where it is known.
  after_read :
      (t : ℤ) (db : Db env) (ph next : Phase)
      → InPhase env store db.secrets k terms ph
      → (spec_get terms t ph).1 ≡ next
      → InPhase env store (get env store t k db).1.secrets k terms next
  after_read t db ph next h e =
      subst (InPhase env store (get env store t k db).1.secrets k terms) e
        (get-spec_get env store t k terms ph db h).1

  reads_leave_spent :
      (nows : List ℤ) (db : Db env)
      → All (λ t. has_expired terms t ≡ false) nows
      → InPhase env store db.secrets k terms spent
      → InPhase env store (run env store (reads k nows) db).secrets k terms spent
  unfolding run apply
  reads_leave_spent [] db early h = h
  reads_leave_spent (t ∷ nows) db early h =
      reads_leave_spent nows (get env store t k db).1 early.1
        (after_read t db spent spent h (stays_spent t early.0))

  -- As many reads as there are left seal a kept secret.
  reads_seal :
      (m : ℕ) (nows : List ℤ) (db : Db env)
      → terms.delete ≡ false
      → suc m ≤ length nows
      → All (λ t. has_expired terms t ≡ false) nows
      → InPhase env store db.secrets k terms (live (some (suc m)))
      → InPhase env store (run env store (reads k nows) db).secrets k terms spent
  unfolding run apply
  reads_seal m [] db kept enough early h = absurd (omega arith)
  reads_seal zero (t ∷ nows) db kept enough early h =
      reads_leave_spent nows (get env store t k db).1 early.1
        (after_read t db _ spent h (last-spent t kept early.0))
  reads_seal (suc m) (t ∷ nows) db kept enough early h =
      reads_seal m nows (get env store t k db).1 kept (omega arith) early.1
        (after_read t db _ (live (some (suc m))) h (next_live m t early.0))

-- A kept secret whose read limit of `n`, at least 1 and below 2^32, has been used up before its deadline
-- is not unsealed by any patches: whatever value, limit and lifetime they give, each replies that the
-- reads are exhausted, or from the deadline on that there is no such secret, none changes anything, and
-- a read afterwards is answered `sealed`, or `not_found` from the deadline on. Its text is UTF-8.
pub sealed_for_good :
    (env : Env) (store : Store) (now : ℤ) (nonce k text : Bytes) (ttl : Option ℕ) (n : ℕ)
    (hook : Option Bytes) (db : Db env) (nows : List ℤ) (attempts : List Attempt) (later : ℤ)
    → from_utf8 text ≡ some text
    → 0 < n
    → n < 2 ^ 32
    → n ≤ length nows
    → All (λ t. has_expired (terms_of now text ttl false hook) t ≡ false) nows
    → (patch_all env store k attempts (used_up env store now nonce k text ttl n hook nows db) ≡ (
      map (turned_down (terms_of now text ttl false hook)) attempts,
      used_up env store now nonce k text ttl n hook nows db,
    ))
      × ((get env store later k (used_up env store now nonce k text ttl n hook nows db)).0
          ≡ ok (if has_expired (terms_of now text ttl false hook) later then not_found else sealed))
sealed_for_good env store now nonce k text ttl zero hook db nows attempts later u pos fits enough
      early =
    absurd (omega arith)
sealed_for_good env store now nonce k text ttl (suc m) hook db nows attempts later u pos fits enough
      early =
    let terms : Terms = terms_of now text ttl false hook in
    let spent_then =
      reads_seal env store k terms m nows _ refl enough early
        (put-InPhase env store now nonce k text ttl (some (suc m)) false hook db u (pos, fits)) in
    (
      patch_all-spent env store k terms attempts _ refl spent_then,
      (get-spec_get env store later k terms spent _ spent_then).0
          ∙ ap ok (answer-spent env store k terms later),
    )
