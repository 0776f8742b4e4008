-- ===== src/Validator.antt =====
-- crates/sirr-server/src/validator.rs: the cached answer of the license service. Times are those of the
-- monotonic clock; what the service answers, or that it cannot be reached, is an argument; a background
-- revalidation is a step of its own.
pub mod Grace
use sirr.Prelude.{
  ℕ, ℤ, ◌-◌, Bool, true, false, Option, none, some, List, [], ◌∷◌, ◌++◌, ltb, if◌then◌else◌,
}
use sirr.Text.{Bytes, codes}
use sirr.Database.{Env, Db}
use sirr.Audit.{new_event, record_audit}

pub record ValidationResponse : Type 0 where
  pub valid : Bool
  pub plan : Option Bytes
  pub limit : Option ℕ
  pub reason : Option Bytes

pub record CachedValidation : Type 0 where
  pub valid : Bool
  pub plan : Option Bytes
  pub limit : Option ℕ
  pub checked_at : ℕ
  pub last_success_at : Option ℕ

-- What `validate_remote` comes to: a response, or an error with its text.
pub data Remote : Type 0 where
  answered : ValidationResponse → Remote
  unreachable : Bytes → Remote

-- The settings of an `OnlineValidator`.
pub record Timing : Type 0 where
  pub cache_ttl : ℕ
  pub grace_period : ℕ

abbrev pub or_unknown : Option Bytes → Bytes
or_unknown none = codes "unknown"
or_unknown (some s) = s

-- The entry of a response, with the last success there was before.
abbrev pub cached : ℕ → Option ℕ → ValidationResponse → CachedValidation
cached now prev_success resp = record {
  valid = resp.valid;
  plan = resp.plan;
  limit = resp.limit;
  checked_at = now;
  last_success_at = if resp.valid then some now else prev_success;
}

abbrev pub detail_of : Bytes → ValidationResponse → Bytes
detail_of step resp =
    if resp.valid
    then step ++ codes ";plan=" ++ or_unknown resp.plan
    else step ++ codes ";denied;reason=" ++ or_unknown resp.reason

-- `last_success_at` of the entry, if there is one.
abbrev pub success_of : Option CachedValidation → Option ℕ
success_of none = none
success_of (some c) = c.last_success_at

abbrev pub checked_again : ℕ → Option CachedValidation → Option CachedValidation
checked_again now none = none
checked_again now (some c) = some (record c { checked_at = now })

module _ (env : Env) where
  abbrev pub log_validation : ℤ → Bool → Bytes → Db env → Db env
  log_validation clock success detail db =
      (record_audit env
        (new_event clock (codes "license.validate") none (codes "server") success (some detail) none
          none)
        db).1

  -- The reply, the cache and the database afterwards.
  unfoldable pub validate_startup :
      ℕ → ℤ → Remote → Db env → Bool × Option CachedValidation × Db env
  validate_startup now clock (answered resp) db = (
    resp.valid,
    some (cached now none resp),
    log_validation clock resp.valid (detail_of (codes "startup") resp) db,
  )
  validate_startup now clock (unreachable e) db = (
    true,
    some (record {
      valid = true;
      plan = none;
      limit = none;
      checked_at = now;
      last_success_at = some now;
    }),
    log_validation clock true (codes "startup;unreachable;error=" ++ e) db,
  )

  -- The task of `spawn_revalidate`.
  unfoldable pub revalidate :
      ℕ → ℤ → Remote → Option CachedValidation → Db env → Option CachedValidation × Db env
  revalidate now clock (answered resp) cache db = (
    some (cached now (success_of cache) resp),
    log_validation clock resp.valid (detail_of (codes "revalidate") resp) db,
  )
  revalidate now clock (unreachable e) cache db = (
    checked_again now cache,
    log_validation clock false (codes "revalidate;unreachable;error=" ++ e) db,
  )

-- `last_ok.elapsed() < self.grace_period`; `elapsed` stops at 0.
unfoldable pub in_grace : Timing → ℕ → Option ℕ → Bool
in_grace timing now none = false
in_grace timing now (some last_ok) = ltb (now - last_ok) timing.grace_period

-- Whether the license counts as valid, and whether a revalidation is started.
unfoldable pub is_valid : Timing → ℕ → Option CachedValidation → Bool × Bool
is_valid timing now none = (false, false)
is_valid timing now (some c) =
    if ltb (now - c.checked_at) timing.cache_ttl
    then (c.valid, false)
    else if in_grace timing now c.last_success_at
    then (true, true)
    else (c.valid, true)

unfoldable pub cached_plan : Option CachedValidation → Option Bytes
cached_plan none = none
cached_plan (some c) = c.plan
