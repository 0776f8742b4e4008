-- ===== src/Records.antt =====
-- The records of the store: crates/sirr-server/src/store/{model,org,audit}.rs and `GetResult` of
-- store/db.rs. Counters are native numbers, timestamps are signed integers.
use sirr.Prelude.{ℕ, ℤ, Bool, false, not, ◌&&◌, Option, none, some, List, leb, leb_ℤ}
use sirr.Text.{Bytes}
use sirr.Permissions.{Permissions}

pub record SecretRecord : Type 0 where
  pub value_encrypted : Bytes
  pub nonce : Bytes
  pub created_at : ℤ
  pub expires_at : Option ℤ
  pub max_reads : Option ℕ
  pub read_count : ℕ
  pub delete : Bool
  pub webhook_url : Option Bytes
  pub owner_id : Option Bytes
  pub org_id : Option Bytes
  pub allowed_keys : Option (List Bytes)

-- `matches!(self.expires_at, Some(exp) if now >= exp)`.
unfoldable pub is_expired : SecretRecord → ℤ → Bool
is_expired r now = elim r.expires_at [ none ↦ false | some exp ↦ leb_ℤ exp now ]

-- `matches!(self.max_reads, Some(max) if self.read_count >= max)`.
unfoldable pub reads_exhausted : SecretRecord → Bool
reads_exhausted r = elim r.max_reads [ none ↦ false | some limit ↦ leb limit r.read_count ]

unfoldable pub is_burned : SecretRecord → Bool
unfolding reads_exhausted
is_burned r = r.delete && reads_exhausted r

unfoldable pub is_sealed : SecretRecord → Bool
unfolding reads_exhausted
is_sealed r = not r.delete && reads_exhausted r

pub record SecretMeta : Type 0 where
  pub key : Bytes
  pub created_at : ℤ
  pub expires_at : Option ℤ
  pub max_reads : Option ℕ
  pub read_count : ℕ
  pub delete : Bool
  pub owner_id : Option Bytes
  pub org_id : Option Bytes

-- The metadata of a record under the key that is shown.
abbrev pub meta_of : Bytes → SecretRecord → SecretMeta
meta_of key r = record {
  key = key;
  created_at = r.created_at;
  expires_at = r.expires_at;
  max_reads = r.max_reads;
  read_count = r.read_count;
  delete = r.delete;
  owner_id = r.owner_id;
  org_id = r.org_id;
}

-- `value` and `burned` carry the value and the webhook URL.
pub data GetResult : Type 0 where
  value : Bytes → Option Bytes → GetResult
  burned : Bytes → Option Bytes → GetResult
  sealed : GetResult
  not_found : GetResult

-- A `HashMap<String, String>` as the list of its entries.
abbrev pub Metadata : Type 0
Metadata = List (Bytes × Bytes)

pub record OrgRecord : Type 0 where
  pub id : Bytes
  pub name : Bytes
  pub metadata : Metadata
  pub created_at : ℤ

pub record PrincipalRecord : Type 0 where
  pub id : Bytes
  pub org_id : Bytes
  pub name : Bytes
  pub role : Bytes
  pub metadata : Metadata
  pub created_at : ℤ

pub record PrincipalKeyRecord : Type 0 where
  pub id : Bytes
  pub principal_id : Bytes
  pub org_id : Bytes
  pub name : Bytes
  pub key_hash : Bytes
  pub valid_after : ℤ
  pub valid_before : ℤ
  pub created_at : ℤ

pub record RoleRecord : Type 0 where
  pub name : Bytes
  pub org_id : Option Bytes
  pub permissions : Permissions
  pub built_in : Bool
  pub created_at : ℤ

pub record AuditEvent : Type 0 where
  pub id : ℕ
  pub timestamp : ℤ
  pub action : Bytes
  pub key : Option Bytes
  pub source_ip : Bytes
  pub success : Bool
  pub detail : Option Bytes
  pub org_id : Option Bytes
  pub principal_id : Option Bytes

pub record AuditQuery : Type 0 where
  pub since : Option ℤ
  pub until : Option ℤ
  pub action : Option Bytes
  pub limit : ℕ
  pub org_id : Option Bytes

pub record WebhookRegistration : Type 0 where
  pub id : Bytes
  pub url : Bytes
  pub secret : Bytes
  pub events : List Bytes
  pub created_at : ℤ
  pub org_id : Option Bytes
