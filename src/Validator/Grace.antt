-- ===== src/Validator/Grace.antt =====
-- crates/sirr-server/src/validator.rs: what becomes of the validity of a license over a course of
-- revalidations.
use sirr.Prelude.{
  ℕ, ℤ, ◌-◌, true, false, Option, none, some, List, [], ◌∷◌, All, ◌≡◌, refl, arith, ltb,
  if◌then◌else◌,
}
use sirr.Text.{Bytes}
use sirr.Database.{Env, Db}
use sirr.Validator.{
  ValidationResponse, CachedValidation, Remote, answered, unreachable, Timing, validate_startup,
  revalidate, in_grace, is_valid,
}

-- A revalidation: its two clocks and what the service says.
abbrev pub Round : Type 0
Round = ℕ × ℤ × Remote

unfoldable pub after_rounds :
    (env : Env) → List Round → Option CachedValidation → Db env → Option CachedValidation
after_rounds env [] cache db = cache
after_rounds env ((now, clock, remote) ∷ rounds) cache db =
    let (cache', db') = revalidate env now clock remote cache db in
    after_rounds env rounds cache' db'

-- The service denies the license, or is not reached.
abbrev pub IsNoSuccess : Round → Type 0
IsNoSuccess (now, clock, answered resp) = resp.valid ≡ false
IsNoSuccess (now, clock, unreachable e) = Unit

abbrev pub IsUnreachable : Round → Type 0
IsUnreachable (now, clock, answered resp) = ⊥
IsUnreachable (now, clock, unreachable e) = Unit

-- Never valid so far.
abbrev Denied : Option CachedValidation → Type 0
Denied none = ⊥
Denied (some c) = (c.valid ≡ false) × (c.last_success_at ≡ none)

abbrev Accepted : Option CachedValidation → Type 0
Accepted none = ⊥
Accepted (some c) = c.valid ≡ true

Denied-is_valid :
    (timing : Timing) (now : ℕ) (cache : Option CachedValidation)
    → Denied cache
    → (is_valid timing now cache).0 ≡ false
unfolding is_valid in_grace
Denied-is_valid timing now none d = elim d [ ]
Denied-is_valid timing now (some c) (v, s) = ground (arith, v, s)

Accepted-is_valid :
    (timing : Timing) (now : ℕ) (cache : Option CachedValidation)
    → Accepted cache
    → (is_valid timing now cache).0 ≡ true
unfolding is_valid
Accepted-is_valid timing now none v = elim v [ ]
Accepted-is_valid timing now (some c) v = ground (arith, v)

module _ (env : Env) where
  rounds-Denied :
      (rounds : List Round) (cache : Option CachedValidation) (db : Db env)
      → All IsNoSuccess rounds
      → Denied cache
      → Denied (after_rounds env rounds cache db)
  unfolding after_rounds revalidate
  rounds-Denied [] cache db h d = d
  rounds-Denied ((now, clock, answered resp) ∷ rounds) none db h d = elim d [ ]
  rounds-Denied ((now, clock, unreachable e) ∷ rounds) none db h d = elim d [ ]
  rounds-Denied ((now, clock, answered resp) ∷ rounds) (some c) db (denied, h) (v, s) =
      rounds-Denied rounds _ _ h (denied, rw denied s)
  rounds-Denied ((now, clock, unreachable e) ∷ rounds) (some c) db (denied, h) (v, s) =
      rounds-Denied rounds _ _ h (v, s)

  rounds-Accepted :
      (rounds : List Round) (cache : Option CachedValidation) (db : Db env)
      → All IsUnreachable rounds
      → Accepted cache
      → Accepted (after_rounds env rounds cache db)
  unfolding after_rounds revalidate
  rounds-Accepted [] cache db h v = v
  rounds-Accepted ((now, clock, answered resp) ∷ rounds) cache db (reached, h) v = elim reached [ ]
  rounds-Accepted ((now, clock, unreachable e) ∷ rounds) none db h v = elim v [ ]
  rounds-Accepted ((now, clock, unreachable e) ∷ rounds) (some c) db (_, h) v =
      rounds-Accepted rounds _ _ h v

  -- A license that the service denies at startup, and at each revalidation that reaches it, is not
  -- valid at any time.
  pub denied_stays_denied :
      (timing : Timing) (start now : ℕ) (clock : ℤ) (resp : ValidationResponse)
      (rounds : List Round) (db : Db env)
      → resp.valid ≡ false
      → All IsNoSuccess rounds
      → (is_valid timing now (
          after_rounds env rounds
            (validate_startup env start clock (answered resp) db).1
            (validate_startup env start clock (answered resp) db).2)).0
        ≡ false
  unfolding validate_startup
  denied_stays_denied timing start now clock resp rounds db v h =
      Denied-is_valid timing now _ (rounds-Denied rounds _ _ h (v, rw v refl))

  -- Where the service is never reached, neither at startup nor later, every license is valid at any
  -- time, also after the grace period.
  pub unreachable_stays_valid :
      (timing : Timing) (start now : ℕ) (clock : ℤ) (e : Bytes) (rounds : List Round) (db : Db env)
      → All IsUnreachable rounds
      → (is_valid timing now (
          after_rounds env rounds
            (validate_startup env start clock (unreachable e) db).1
            (validate_startup env start clock (unreachable e) db).2)).0
        ≡ true
  unfolding validate_startup
  unreachable_stays_valid timing start now clock e rounds db h =
      Accepted-is_valid timing now _ (rounds-Accepted rounds _ _ h refl)

-- A license that was valid before and is denied at a revalidation is not valid while the denial is
-- fresh; once it is stale, the license is valid again until the grace period of the last success ends,
-- and then no more.
pub denied_in_grace :
    (env : Env) (timing : Timing) (now later last_ok : ℕ) (clock : ℤ) (resp : ValidationResponse)
    (c : CachedValidation) (db : Db env)
    → resp.valid ≡ false
    → c.last_success_at ≡ some last_ok
    → (is_valid timing later (revalidate env now clock (answered resp) (some c) db).0).0 ≡ (
        if ltb (later - now) timing.cache_ttl
        then false
        else ltb (later - last_ok) timing.grace_period)
unfolding is_valid revalidate in_grace
denied_in_grace env timing now later last_ok clock resp c db v s = ground (arith, v, s)
