-- ===== src/OrgSecrets/Scan.antt =====
-- crates/sirr-server/src/store/db.rs: `list_org_secrets`, `check_key_binding` and
-- `prune_org_secrets`.
use sirr.Prelude.{
  ℤ, Bool, true, false, not, Option, none, some, List, [], ◌∷◌, map, any, drop, length,
  if◌then◌else◌,
}
use sirr.Text.{Bytes, bytes_eq, starts_with}
use sirr.Result.{Result, ok, err, or_error, ◌>>=◌, secret_not_found}
use sirr.Records.{SecretRecord, SecretMeta, meta_of, is_expired}
use sirr.Database.{Env, Db}
use sirr.RecordFormat.{decode}
use sirr.Secrets.Scan.{is_prunable, remove_keys}
use sirr.OrgSecrets.{org_secret_key, org_prefix}

module _ (env : Env) where
  -- `record.owner_id.as_deref() != Some(filter_owner)`, negated; no filter keeps every record.
  unfoldable pub is_owned : Option Bytes → SecretRecord → Bool
  is_owned none r = true
  is_owned (some filter_owner) r = elim r.owner_id [
    | none ↦ false
    | some o ↦ bytes_eq o filter_owner
  ]

  unfoldable pub list_org_entries :
      ℤ → Bytes → Option Bytes → List (Bytes × Bytes) → Result (List SecretMeta)
  list_org_entries now prefix owner_id [] = ok []
  list_org_entries now prefix owner_id ((k, bytes) ∷ entries) =
      let rest = list_org_entries now prefix owner_id entries in
      if not (starts_with k prefix) then rest else (do
        d ← decode env bytes
        metas ← rest
        ok (
            if is_expired d.0 now
            then metas
            else if is_owned owner_id d.0
            then meta_of (drop (length prefix) k) d.0 ∷ metas
            else metas))

  unfoldable pub list_org_secrets : ℤ → Bytes → Option Bytes → Db env → Result (List SecretMeta)
  unfolding list_org_entries
  list_org_secrets now org_id owner_id db =
      list_org_entries now (org_prefix org_id) owner_id (env.tables.iter db.secrets)

  -- Who may use a record with this restriction: no list and an empty list restrict nobody.
  unfoldable pub is_allowed : Option (List Bytes) → Bytes → Bool
  is_allowed none key_name = true
  is_allowed (some []) key_name = true
  is_allowed (some (k ∷ ks)) key_name = any (λ j. bytes_eq j key_name) (k ∷ ks)

  unfoldable pub check_key_binding : ℤ → Bytes → Bytes → Bytes → Db env → Result Bool
  unfolding org_secret_key
  check_key_binding now org_id key key_name db = do
    bytes ← or_error secret_not_found (env.tables.get db.secrets (org_secret_key org_id key))
    d ← decode env bytes
    if is_expired d.0 now then err secret_not_found else ok (is_allowed d.0.allowed_keys key_name)

  -- The read pass of `prune_org_secrets`: table keys under the prefix.
  unfoldable pub prunable_org_keys : ℤ → Bytes → List (Bytes × Bytes) → Result (List Bytes)
  prunable_org_keys now prefix [] = ok []
  prunable_org_keys now prefix ((k, bytes) ∷ entries) =
      let rest = prunable_org_keys now prefix entries in
      if not (starts_with k prefix)
      then rest
      else (do d ← decode env bytes; ks ← rest; ok (if is_prunable now d.0 then k ∷ ks else ks))

  -- The keys returned have lost the prefix.
  unfoldable pub prune_org_secrets : ℤ → Bytes → Db env → Result (List Bytes) × Db env
  prune_org_secrets now org_id db =
      elim (prunable_org_keys now (org_prefix org_id) (env.tables.iter db.secrets)) [
        | ok ks ↦ (ok (map (drop (length (org_prefix org_id))) ks), remove_keys env ks db)
        | err e ↦ (err e, db)
      ]
