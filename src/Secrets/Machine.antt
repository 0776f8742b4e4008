-- ===== src/Secrets/Machine.antt =====
-- The life of one secret of crates/sirr-server/src/store/db.rs as an abstract machine: how many reads
-- are left and when it ends, whatever else happens in the store; and when the table of secrets is in a
-- phase of it.
use sirr.Prelude.{
  ◌∙◌, ℕ, ℤ, ◌+◌, ◌-◌, ◌<◌, ◌^◌, Bool, true, false, Option, none, some, ◌≡◌, ◌≢◌, ◌⊎◌, refl, arith,
  ltb, leb_ℤ, if◌then◌else◌, inl, inr,
}
use sirr.Text.{Bytes}
use sirr.Records.{
  SecretRecord, GetResult, value, burned, sealed, not_found, is_expired, is_burned, is_sealed,
}
use sirr.Database.{Env, Store}
use sirr.Secrets.{Table, counted}
use sirr.Secrets.Stored.{Stored, Stored-cong}

-- What `put` was asked for.
pub record Terms : Type 0 where
  pub text : Bytes
  pub webhook_url : Option Bytes
  pub delete : Bool
  pub expires_at : Option ℤ

-- `live` with the reads that are left (`none`: no limit), `spent` when a kept secret has none left.
pub data Phase : Type 0 where
  live : Option ℕ → Phase
  spent : Phase
  gone : Phase

unfoldable pub has_expired : Terms → ℤ → Bool
has_expired terms now = elim terms.expires_at [ none ↦ false | some exp ↦ leb_ℤ exp now ]

-- The last read that a limit leaves: it burns the secret, or leaves it sealed.
abbrev pub last_read : Terms → Bool → GetResult × Phase
last_read terms true = (burned terms.text terms.webhook_url, gone)
last_read terms false = (value terms.text terms.webhook_url, spent)

-- The read of an unexpired secret.
unfoldable pub use_read : Terms → Option ℕ → GetResult × Phase
use_read terms none = (value terms.text terms.webhook_url, live none)
use_read terms (some n) =
    if ltb 1 n
    then (value terms.text terms.webhook_url, live (some (n - 1)))
    else last_read terms terms.delete

unfoldable pub spec_get : Terms → ℤ → Phase → GetResult × Phase
spec_get terms now gone = (not_found, gone)
spec_get terms now spent = if has_expired terms now then (not_found, gone) else (sealed, spent)
spec_get terms now (live left) =
    if has_expired terms now then (not_found, gone) else use_read terms left

-- How the reads left show in a record.
unfoldable pub ReadsLeft : SecretRecord → Option ℕ → Type 0
ReadsLeft r none = r.max_reads ≡ none
ReadsLeft r (some n) =
    (0 < n) × (r.read_count + n < 2 ^ 32) × (r.max_reads ≡ some (r.read_count + n))

-- A record that was written under the terms.
pub record Follows (r : SecretRecord) (terms : Terms) : Type 0 where
  pub webhook_url : r.webhook_url ≡ terms.webhook_url
  pub delete : r.delete ≡ terms.delete
  pub expires_at : r.expires_at ≡ terms.expires_at

-- The table of secrets is in the phase at the key.
unfoldable pub InPhase : (env : Env) → Store → Table env → Bytes → Terms → Phase → Type 0
InPhase env store t k terms gone = env.tables.get t k ≡ none
InPhase env store t k terms spent =
    (r : SecretRecord) × (version : ℕ) × Stored env store t k r version terms.text
    × Follows r terms
    × (is_sealed r ≡ true)
InPhase env store t k terms (live left) =
    (r : SecretRecord) × (version : ℕ) × Stored env store t k r version terms.text
    × Follows r terms
    × ReadsLeft r left

pub has_expired-is_expired :
    {r : SecretRecord} {terms : Terms} (now : ℤ)
    → Follows r terms
    → is_expired r now ≡ has_expired terms now
unfolding is_expired has_expired
has_expired-is_expired now f = rw (f.expires_at, is_expired)

pub unsealed : (r : SecretRecord) (left : Option ℕ) → ReadsLeft r left → is_sealed r ≡ false
unfolding is_sealed ReadsLeft
unsealed r none h = ground arith
unsealed r (some n) h = ground arith

sealed_not_burned : (r : SecretRecord) → is_sealed r ≡ true → is_burned r ≡ false
unfolding is_sealed is_burned
sealed_not_burned r h = ground arith

unburned : (r : SecretRecord) (left : Option ℕ) → ReadsLeft r left → is_burned r ≡ false
unfolding is_burned ReadsLeft
unburned r none h = ground arith
unburned r (some n) h = ground arith

-- A secret that is there is stored as a record, and that record is not burned.
pub present :
    (env : Env) (store : Store) (t : Table env) (k : Bytes) (terms : Terms) (ph : Phase)
    → InPhase env store t k terms ph
    → (env.tables.get t k ≡ none) × (ph ≡ gone)
      ⊎ ((r : SecretRecord) × (version : ℕ) × Stored env store t k r version terms.text
          × Follows r terms
          × (is_burned r ≡ false)
          × (ph ≢ gone))
unfolding InPhase
present env store t k terms gone h = inl (h, refl)
present env store t k terms spent (r, version, s, f, h) =
    inr (r, version, s, f, sealed_not_burned r h, λ e. cc)
present env store t k terms (live left) (r, version, s, f, h) =
    inr (r, version, s, f, unburned r left h, λ e. cc)

-- The last read exhausts the record, and no other read does.
pub burned_if_last :
    (r : SecretRecord) (n : ℕ)
    → ReadsLeft r (some n)
    → (is_burned (counted r) ≡ (if ltb 1 n then false else r.delete))
unfolding is_burned ReadsLeft
burned_if_last r n h = ground arith

pub sealed_if_last :
    (r : SecretRecord) (n : ℕ)
    → ReadsLeft r (some n)
    → ltb 1 n ≡ false
    → r.delete ≡ false
    → is_sealed (counted r) ≡ true
unfolding is_sealed ReadsLeft
sealed_if_last r n h last kept = ground arith

pub one_fewer :
    (r : SecretRecord) (n : ℕ)
    → ReadsLeft r (some n)
    → ltb 1 n ≡ true
    → ReadsLeft (counted r) (some (n - 1))
unfolding ReadsLeft
one_fewer r n h more = ground arith

pub never_burned : (r : SecretRecord) → ReadsLeft r none → is_burned (counted r) ≡ false
unfolding is_burned ReadsLeft
never_burned r h = ground arith

-- A phase is about the entry at its key alone.
pub InPhase-cong :
    (env : Env) (store : Store) (t t' : Table env) (k : Bytes) (terms : Terms) (ph : Phase)
    → env.tables.get t' k ≡ env.tables.get t k
    → InPhase env store t k terms ph
    → InPhase env store t' k terms ph
unfolding InPhase
InPhase-cong env store t t' k terms gone e h = e ∙ h
InPhase-cong env store t t' k terms spent e (r, version, s, f, h) =
    (r, version, Stored-cong env store t t' k r version terms.text e s, f, h)
InPhase-cong env store t t' k terms (live left) e (r, version, s, f, h) =
    (r, version, Stored-cong env store t t' k r version terms.text e s, f, h)
