-- ===== src/Examples/Service.antt =====
-- The bootstrap and the validation of the license at concrete inputs.
use sirr.External.Tables.{lookup}
use sirr.Directory.{get_decoded, decode_under}
use sirr.Prelude.{
  pos, ◌-◌, ltb, +i64_exact, ◌+i64◌, ◌<ℤ◌, true, false, none, some, [], ◌∷◌, ◌++◌, ◌≡◌, refl, sym,
  subst, arith, if◌then◌else◌,
}
use sirr.Text.{join_colon, bytes_eq, codes}
use sirr.Result.{ok}
use sirr.Records.{RoleRecord}
use sirr.Database.{Db}
use sirr.Samples.Setting.{setting, new_db}
use sirr.Samples.People.{tokens}
use sirr.Auth.{builtin_permissions, principal, proceed, identity, require_auth, role_permissions}
use sirr.Directory.Orgs.{list_orgs}
use sirr.Directory.Roles.{role_table_key, get_role, put_role}
use sirr.Bootstrap.{Draws, bootstrap_key, temporary_key, auto_init_bootstrap}
use sirr.Bootstrap.Access.{bootstrap_lets_in}
use sirr.Validator.{
  ValidationResponse, CachedValidation, answered, unreachable, Timing, validate_startup, revalidate,
  is_valid,
}
use sirr.Validator.Grace.{
  after_rounds, denied_stays_denied, unreachable_stays_valid, denied_in_grace,
}

abbrev draws : Draws
draws = record {
  org_id = codes "o1";
  principal_id = codes "p1";
  first = (codes "k1", codes "11");
  second = (codes "k2", codes "22");
}

abbrev admin : RoleRecord
admin = record {
  name = codes "admin";
  org_id = none;
  permissions = record { raw = 3 };
  built_in = true;
  created_at = pos 0;
}

abbrev seeded : Db setting
seeded = (put_role setting admin new_db).1

no-orgs : list_orgs setting seeded ≡ ok []
unfolding list_orgs decode_under put_role
no-orgs = refl

admin-granted :
    role_permissions tokens setting (codes "o1") (codes "admin") seeded ≡ some (record { raw = 3 })
unfolding role_permissions get_role get_decoded lookup put_role bytes_eq role_table_key join_colon
    builtin_permissions
admin-granted = refl

in_time : pos 500 <ℤ pos 100 +i64 pos 1800
in_time = subst (λ t. pos 500 <ℤ t) (sym (+i64_exact 100 1800 (omega arith))) (omega arith)

bootstrap_lets_in_example :
    (require_auth tokens setting
        (pos 500)
        none
        (some (codes "Bearer " ++ bootstrap_key (codes "11")))
        (auto_init_bootstrap tokens setting (pos 100) draws seeded).1
      ≡ proceed (
          principal (
            identity
              (temporary_key tokens
                (pos 100)
                draws
                (codes "bootstrap-key-1")
                (codes "k1", codes "11"))
              (record { raw = 3 }))))
    × (require_auth tokens setting
          (pos 500)
          none
          (some (codes "Bearer " ++ bootstrap_key (codes "22")))
          (auto_init_bootstrap tokens setting (pos 100) draws seeded).1
        ≡ proceed (
            principal (
              identity
                (temporary_key tokens
                  (pos 100)
                  draws
                  (codes "bootstrap-key-2")
                  (codes "k2", codes "22"))
                (record { raw = 3 }))))
bootstrap_lets_in_example =
    bootstrap_lets_in tokens setting (pos 100) (pos 500) draws (record { raw = 3 }) none seeded
      no-orgs admin-granted refl (λ e. ground (arith, e)) (λ e. ground (arith, e))
      (λ e. ground (arith, e)) (omega arith) in_time

abbrev timing : Timing
timing = record { cache_ttl = 3600; grace_period = 259200 }

abbrev denial : ValidationResponse
denial = record { valid = false; plan = none; limit = none; reason = some (codes "revoked") }

denied_stays_denied_example :
    (is_valid timing 9000 (
      after_rounds setting
        ((4000, pos 4000, unreachable (codes "timeout")) ∷ (8000, pos 8000, answered denial) ∷ [])
        (validate_startup setting 0 (pos 0) (answered denial) new_db).1
        (validate_startup setting 0 (pos 0) (answered denial) new_db).2)).0
    ≡ false
denied_stays_denied_example =
    denied_stays_denied setting timing 0 9000 (pos 0) denial
      ((4000, pos 4000, unreachable (codes "timeout")) ∷ (8000, pos 8000, answered denial) ∷ [])
      new_db refl (tt, (refl, tt))

-- A month after the start, the service has not been reached once.
unreachable_stays_valid_example :
    (is_valid timing 2592000 (
      after_rounds setting
        ((4000, pos 4000, unreachable (codes "timeout")) ∷ [])
        (validate_startup setting 0 (pos 0) (unreachable (codes "timeout")) new_db).1
        (validate_startup setting 0 (pos 0) (unreachable (codes "timeout")) new_db).2)).0
    ≡ true
unreachable_stays_valid_example =
    unreachable_stays_valid setting timing 0 2592000 (pos 0) (codes "timeout")
      ((4000, pos 4000, unreachable (codes "timeout")) ∷ []) new_db (tt, tt)

abbrev last_valid : CachedValidation
last_valid = record {
  valid = true;
  plan = none;
  limit = none;
  checked_at = 0;
  last_success_at = some 0;
}

-- Denied at 4000, and valid again an hour later.
denied_in_grace_example :
    (is_valid timing 8000
      (revalidate setting 4000 (pos 4000) (answered denial) (some last_valid) new_db).0).0
    ≡ (if ltb (8000 - 4000) 3600 then false else ltb (8000 - 0) 259200)
denied_in_grace_example =
    denied_in_grace setting timing 4000 8000 0 (pos 4000) denial last_valid new_db refl refl
