-- ===== src/OrgHandlers/Orgs.antt =====
-- crates/sirr-server/src/org_handlers.rs: `create_org`, `list_orgs` and `delete_org`.
use sirr.Prelude.{ℤ, Bool, true, false, not, ◌&&◌, Option, none, some, List, ◌++◌, if◌then◌else◌}
use sirr.Text.{Bytes, codes}
use sirr.Result.{Result, Error, ok, err, still_has_principals}
use sirr.Permissions.{sirr_admin}
use sirr.Records.{Metadata, OrgRecord}
use sirr.Database.{Env, Db}
use sirr.Directory.Orgs.{put_org, list_orgs, delete_org}
use sirr.License.{effective_tier, max_orgs}
use sirr.Auth.{ResolvedAuth, is_master, auth_has}
use sirr.OrgHandlers.{
  AppState, Caller, Reply, forbidden, internal_error, missing, conflict, deleted, bad_name,
  created_org, shown_orgs, reject_if, ◌<|>◌, unless_ended, check_name, check_metadata, check_quota,
  log,
}

pub record CreateOrgRequest : Type 0 where
  pub name : Bytes
  pub metadata : Metadata

-- The message contains "still has principals".
abbrev pub has_principals : Error → Bool
has_principals (still_has_principals id) = true
has_principals _ = false

module _ (env : Env) where
  unfoldable pub store_org : Caller → OrgRecord → Db env → Reply × Db env
  store_org caller org db =
      let (r, db') = put_org env org db in
      elim r [
        | ok _ ↦ (
          created_org org.id org.name,
          log env caller (codes "org.create") none true (some (codes "org_id=" ++ org.id))
              (some org.id) db',
        )
        | err e ↦ (internal_error, db')
      ]

module _ (env : Env) (state : AppState) where
  unfoldable pub create_org_checks : ResolvedAuth → CreateOrgRequest → Db env → Option Reply
  create_org_checks auth body db =
      reject_if (not (is_master auth) && not (auth_has auth sirr_admin)) forbidden
      <|> check_name 128 bad_name body.name
      <|> check_metadata body.metadata
      <|> check_quota (max_orgs (effective_tier state.license)) (list_orgs env db)

  unfoldable pub create_org : Caller → ℤ → Bytes → CreateOrgRequest → Db env → Reply × Db env
  create_org caller now id body db =
      unless_ended (create_org_checks caller.auth body db) (λ r. (r, db))
        (store_org env caller
          (record { id = id; name = body.name; metadata = body.metadata; created_at = now }) db)

module _ (env : Env) where
  abbrev pub answer_orgs : Result (List OrgRecord) → Reply
  answer_orgs (ok orgs) = shown_orgs orgs
  answer_orgs (err e) = internal_error

  unfoldable pub list_all_orgs : ResolvedAuth → Db env → Reply
  list_all_orgs auth db =
      unless_ended (reject_if (not (is_master auth)) forbidden) (λ r. r)
        (answer_orgs (list_orgs env db))

  unfoldable pub answer_delete_org : Caller → Bytes → Result Bool → Db env → Reply × Db env
  answer_delete_org caller org_id (ok true) db = (
    deleted,
    log env caller (codes "org.delete") none true (some (codes "org_id=" ++ org_id)) (some org_id)
        db,
  )
  answer_delete_org caller org_id (ok false) db = (missing (codes "org not found"), db)
  answer_delete_org caller org_id (err e) db =
      (if has_principals e then conflict e else internal_error, db)

  unfoldable pub remove_org : Caller → Bytes → Db env → Reply × Db env
  remove_org caller org_id db =
      unless_ended (reject_if (not (is_master caller.auth)) forbidden) (λ r. (r, db))
        (let (r, db') = delete_org env org_id db in answer_delete_org caller org_id r db')
