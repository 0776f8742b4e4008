-- ===== src/Audit/Frames.antt =====
-- crates/sirr-server/src/store/db.rs, `record_audit`: the tables that an audit event leaves alone.
use sirr.Prelude.{◌≡◌, arith}
use sirr.Records.{AuditEvent}
use sirr.Database.{Env, Db}
use sirr.Audit.{record_audit, record_numbered}

module _ (env : Env) (e : AuditEvent) (db : Db env) where
  pub record_audit-orgs : (record_audit env e db).1.orgs ≡ db.orgs
  unfolding record_audit record_numbered
  record_audit-orgs = ground arith

  pub record_audit-principals : (record_audit env e db).1.principals ≡ db.principals
  unfolding record_audit record_numbered
  record_audit-principals = ground arith

  pub record_audit-principal_keys : (record_audit env e db).1.principal_keys ≡ db.principal_keys
  unfolding record_audit record_numbered
  record_audit-principal_keys = ground arith

  pub record_audit-roles : (record_audit env e db).1.roles ≡ db.roles
  unfolding record_audit record_numbered
  record_audit-roles = ground arith

  pub record_audit-webhooks : (record_audit env e db).1.webhooks ≡ db.webhooks
  unfolding record_audit record_numbered
  record_audit-webhooks = ground arith
