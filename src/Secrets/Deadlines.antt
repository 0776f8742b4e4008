-- ===== src/Secrets/Deadlines.antt =====
-- crates/sirr-server/src/store/db.rs: the deadline that `put` and `patch` compute from a time to
-- live.
use sirr.Prelude.{
  ℕ, pos, ◌+◌, ◌-◌, ◌≤◌, min, ◌≡◌, ap, ◌∙◌, i64_max, +i64_exact, -i64_exact, as_u64_exact,
  as_i64_exact, arith,
}
use sirr.Secrets.{deadline}

-- From a clock that is not negative, the deadline is the time to live later, or the last
-- representable second where that would overflow.
pub deadline_lem :
    (now ttl : ℕ) → now ≤ i64_max → deadline (pos now) ttl ≡ pos (min (now + ttl) i64_max)
unfolding deadline
deadline_lem now ttl h = rw (-i64_exact i64_max now (omega arith) h) (
    rw (as_u64_exact (i64_max - now) (omega arith)) (
      rw (as_i64_exact (min ttl (i64_max - now)) (omega arith))
        (+i64_exact now (min ttl (i64_max - now)) (omega arith) ∙ ap pos (omega arith))))
