-- ===== src/OrgHandlers.antt =====
-- crates/sirr-server/src/org_handlers.rs: what the requests on organisations share. A request ends at
-- the first check that fails; the checks only read the database. The clocks, the random identifiers and
-- the address of the client are arguments.
pub mod Client
pub mod Checks
pub mod Requests
pub mod Tenants
pub mod Frames
pub mod Isolation
pub mod Keys
pub mod Grants
pub mod Shown
pub mod Quotas
pub mod Broadcast
pub mod Orgs
pub mod Principals
pub mod Roles
pub mod Account
pub mod Secrets
pub mod Hooks
use sirr.Prelude.{
  ℕ, ℤ, Bool, true, false, not, ◌&&◌, ◌||◌, Option, none, some, List, ltb, leb, length, is_empty,
  if◌then◌else◌,
}
use sirr.Text.{Bytes, bytes_eq}
use sirr.Result.{Result, Error, ok, err}
use sirr.Permissions.{PermBit}
use sirr.Records.{SecretMeta, Metadata, OrgRecord, PrincipalRecord, PrincipalKeyRecord, AuditEvent}
use sirr.Database.{Env, Db, Store}
use sirr.Directory.Roles.{MetadataCheck, valid, validate_metadata}
use sirr.License.{LicenseStatus}
use sirr.Audit.{new_event, record_audit}
use sirr.Auth.{ResolvedAuth, is_master, org_id_of, principal_id_of, auth_has}

-- The part of `AppState` that the requests read; of the webhook sender, whether there is one.
pub record AppState : Type 0 where
  pub store : Store
  pub license : LicenseStatus
  pub webhook_allowed_origins : List Bytes
  pub has_sender : Bool
  pub redact_audit_keys : Bool

-- Who sends a request, from which address, and the clock of its audit event.
pub record Caller : Type 0 where
  pub auth : ResolvedAuth
  pub ip : Bytes
  pub clock : ℤ

-- Why a request is a bad one.
pub data Reason : Type 0 where
  bad_name bad_role_name bad_key_label : Reason
  bad_metadata : MetadataCheck → Reason
  unknown_role : Bytes → Reason
  bad_letter : ℕ → Reason
  sirr_admin_in_role : Reason
  bad_key_name zero_reads value_too_large ttl_too_long bad_webhook_url bad_url : Reason

-- A role as it is shown, with its permissions as letters.
pub record ShownRole : Type 0 where
  pub name : Bytes
  pub permissions : Bytes
  pub built_in : Bool
  pub org_id : Option Bytes
  pub created_at : ℤ

-- A key as it is shown, without its hash.
pub record ShownKey : Type 0 where
  pub id : Bytes
  pub name : Bytes
  pub valid_after : ℤ
  pub valid_before : ℤ
  pub created_at : ℤ

-- A webhook as it is shown, without its secret.
pub record ShownWebhook : Type 0 where
  pub id : Bytes
  pub url : Bytes
  pub events : List Bytes
  pub created_at : ℤ

-- The replies, by status and message.
pub data Reply : Type 0 where
  forbidden key_not_authorized internal_error sealed_gone read_limit_gone : Reply
  bad_request : Reason → Reply
  payment_required : ℕ → Reply
  missing : Bytes → Reply
  conflict : Error → Reply
  too_many_webhooks : Reply
  deleted : Reply
  created_org : Bytes → Bytes → Reply
  shown_orgs : List OrgRecord → Reply
  created_principal : PrincipalRecord → Reply
  shown_principals : List PrincipalRecord → Reply
  created_role : Bytes → Bytes → Option Bytes → Reply
  shown_roles : List ShownRole → Reply
  shown_me : PrincipalRecord → List ShownKey → Reply
  patched_me : PrincipalRecord → Reply
  -- Identifier, name, raw key and validity.
  created_key : Bytes → Bytes → Bytes → ℤ → ℤ → Reply
  created_secret : Bytes → Reply
  shown_secrets : List SecretMeta → Reply
  secret_value : Bytes → Bytes → Reply
  -- The metadata, the reads that remain if they are limited, and whether the secret is sealed.
  head_of : SecretMeta → Option ℕ → Bool → Reply
  patched_secret : SecretMeta → Reply
  pruned : ℕ → Reply
  shown_events : List AuditEvent → Reply
  created_webhook : Bytes → Bytes → Reply
  shown_webhooks : List ShownWebhook → Reply

-- `auth.org_id() == Some(&org_id)`.
unfoldable pub in_org : ResolvedAuth → Bytes → Bool
in_org auth org_id = elim (org_id_of auth) [ none ↦ false | some o ↦ bytes_eq o org_id ]

-- The master, or a principal of the organisation with the permission.
unfoldable pub master_or : PermBit → ResolvedAuth → Bytes → Bool
master_or bit auth org_id = is_master auth || auth_has auth bit && in_org auth org_id

-- The reply that ends a request, if the condition holds.
unfoldable pub reject_if : Bool → Reply → Option Reply
reject_if true r = some r
reject_if false r = none

-- The first check that ends the request.
infixr 45 ◌<|>◌
unfoldable pub ◌<|>◌ : Option Reply → Option Reply → Option Reply
some r <|> next = some r
none <|> next = next

-- What a request comes to: it ended at a check, or goes on.
abbrev pub unless_ended {ℓ} : {A : Type ℓ} → Option Reply → (Reply → A) → A → A
unless_ended (some r) stop go_on = stop r
unless_ended none stop go_on = go_on

-- A name that is empty or longer than the limit.
abbrev pub check_name : ℕ → Reason → Bytes → Option Reply
check_name limit reason name =
    reject_if (is_empty name || ltb limit (length name)) (bad_request reason)

abbrev pub of_metadata : MetadataCheck → Option Reply
of_metadata valid = none
of_metadata bad = some (bad_request (bad_metadata bad))

abbrev pub check_metadata : Metadata → Option Reply
check_metadata metadata = of_metadata (validate_metadata metadata)

-- The limit of the license tier on what is listed.
abbrev pub check_quota {ℓ} : {A : Type ℓ} → Option ℕ → Result (List A) → Option Reply
check_quota none found = none
check_quota (some max) (err e) = some internal_error
check_quota (some max) (ok xs) = reject_if (leb max (length xs)) (payment_required max)

module _ (env : Env) where
  -- An audit event of a request; its failure is ignored.
  abbrev pub log :
      Caller → Bytes → Option Bytes → Bool → Option Bytes → Option Bytes → Db env → Db env
  log caller action key success detail org_id db =
      (record_audit env
        (new_event caller.clock action key caller.ip success detail org_id
          (principal_id_of caller.auth))
        db).1
