-- ===== src/Database.antt =====
-- crates/sirr-server/src/store/db.rs: the handle `Store`, the database behind it, and the write
-- transactions that change it.
pub mod Keeps
pub mod Alike
use sirr.Prelude.{ℕ, ℤ, Option, none, some, List, ◌≡◌, refl}
use sirr.Text.{Bytes}
use sirr.External.Keys.{bytes_key, u64_key}
use sirr.External.Tables.{Tables}
use sirr.External.Codecs.{Codec}
use sirr.External.Ciphers.{Cipher}
use sirr.Result.{Result, ok, err}
use sirr.Records.{
  SecretRecord, OrgRecord, PrincipalRecord, PrincipalKeyRecord, RoleRecord, AuditEvent,
  WebhookRegistration,
}

-- The other crates: tables from byte strings to byte strings, the audit log by number, the
-- counters, an encoding for each record, and the cipher.
pub record Env : Type 1 where
  pub tables : Tables bytes_key Bytes
  pub audit_tables : Tables u64_key Bytes
  pub counter_tables : Tables bytes_key ℕ
  pub secret_codec : Codec SecretRecord
  pub audit_codec : Codec AuditEvent
  pub webhook_codec : Codec WebhookRegistration
  pub org_codec : Codec OrgRecord
  pub principal_codec : Codec PrincipalRecord
  pub key_codec : Codec PrincipalKeyRecord
  pub role_codec : Codec RoleRecord
  pub cipher : Cipher

-- The tables of the database.
pub record Db (env : Env) : Type 0 where
  pub secrets : env.tables.Table
  pub audit_log : env.audit_tables.Table
  pub counters : env.counter_tables.Table
  pub webhooks : env.tables.Table
  pub orgs : env.tables.Table
  pub principals : env.tables.Table
  pub principal_keys : env.tables.Table
  pub principal_key_ix : env.tables.Table
  pub roles : env.tables.Table

-- The handle: the encryption key and its version. The database is passed beside it.
pub record Store : Type 0 where
  pub key : Bytes
  pub key_version : ℕ

-- How a write transaction on the tables `T` ends: with `commit` and a result, or dropped, with a
-- result and no change.
pub data Txn {ℓ} (T : Type 0) (A : Type ℓ) : Type ℓ where
  commit : A → T → Txn T A
  abort : Result A → Txn T A

-- `?` inside a transaction: an error drops it.
infixl 5 ◌>>=◌
abbrev pub ◌>>=◌ {ℓ κ} : {T : Type 0} {A : Type ℓ} {B : Type κ} → Result A → (A → Txn T B) → Txn T B
ok a >>= f = f a
err e >>= f = abort (err e)

-- What the caller gets, and the tables afterwards.
abbrev pub outcome {ℓ} : {T : Type 0} {A : Type ℓ} → Txn T A → T → Result A × T
outcome (commit a t') t = (ok a, t')
outcome (abort r) t = (r, t)
