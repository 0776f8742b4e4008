-- ===== src/OrgHandlers/Grants.antt =====
-- crates/sirr-server/src/org_handlers.rs: which permissions can be handed out by creating a role or a
-- principal, and by changing one's own record.
use sirr.Prelude.{ℤ, true, false, none, some, ◌≡◌, ◌≢◌, refl, ap, ◌∙◌, arith}
use sirr.Text.{Bytes, codes, no_colon}
use sirr.Result.{Result, ok}
use sirr.Permissions.{Permissions, ParseResult, parsed, invalid_letter, parse, has, sirr_admin}
use sirr.Records.{RoleRecord}
use sirr.Database.{Env, Db}
use sirr.Audit.Frames.{record_audit-roles}
use sirr.Directory.Roles.{put_role, get_role}
use sirr.Directory.Revocation.{get-put_role}
use sirr.OrgHandlers.{Caller, Reply}
use sirr.OrgHandlers.Checks.{
  is_refusal, Refuses, Refuses-reject_if, Refuses-some, Refuses-or, passes_both, passes_reject,
  answered_lem,
}
use sirr.OrgHandlers.Roles.{
  CreateRoleRequest, check_permissions, create_role_checks, store_role, store_parsed, create_role,
}

check_permissions-Refuses : (p : ParseResult) → Refuses (check_permissions p)
unfolding is_refusal
check_permissions-Refuses (invalid_letter ch) = Refuses-some _ refl
check_permissions-Refuses (parsed p) = Refuses-reject_if _ _ refl

check_permissions_passed :
    (p : ParseResult)
    → check_permissions p ≡ none
    → (q : Permissions) × (p ≡ parsed q) × (has q sirr_admin ≡ false)
check_permissions_passed (invalid_letter ch) h = absurd (ground (arith, h))
check_permissions_passed (parsed q) h = (q, refl, passes_reject _ _ h)

abbrev pub role_of : ℤ → Bytes → Bytes → Permissions → RoleRecord
role_of now org_id name q = record {
  name = name;
  org_id = some org_id;
  permissions = q;
  built_in = false;
  created_at = now;
}

module _ (env : Env) where
  store_role-roles :
      (caller : Caller) (org_id : Bytes) (r : RoleRecord) (db : Db env)
      → (store_role env caller org_id r db).1.roles ≡ (put_role env r db).1.roles
  unfolding store_role put_role
  store_role-roles caller org_id r db = grind (arith, record_audit-roles)

  -- A role that is created has exactly the permissions of the letters of the request, and these are
  -- without `SirrAdmin`; the built-in roles stay as they are. The organisation is not called "builtin"
  -- and its name has no colon.
  pub create_role_lem :
      (caller : Caller) (now : ℤ) (org_id name : Bytes) (body : CreateRoleRequest) (db : Db env)
      → no_colon org_id ≡ true
      → org_id ≢ codes "builtin"
      → is_refusal (create_role env caller now org_id body db).0 ≡ false
      → ((q : Permissions) × (parse body.permissions ≡ parsed q)
          × (has q sirr_admin ≡ false)
          × (get_role env (some org_id) body.name (create_role env caller now org_id body db).1
              ≡ ok (some (role_of now org_id body.name q))))
        × (get_role env none name (create_role env caller now org_id body db).1
            ≡ get_role env none name db)
  unfolding create_role create_role_checks is_refusal store_parsed get_role
  create_role_lem caller now org_id name body db plain ne h =
      let (passed, same) =
        answered_lem (create_role_checks env caller.auth org_id body) (λ r. (r, db))
          (store_parsed env caller now org_id body.name (parse body.permissions) db)
          (λ (a : Reply × Db env). a.0) (λ r. refl)
          (Refuses-or _ _ (Refuses-reject_if _ _ refl)
            (Refuses-or _ _ (Refuses-reject_if _ _ refl) (check_permissions-Refuses _)))
          h in
      let (q, e, no_admin) =
        check_permissions_passed (parse body.permissions)
          (passes_both _ _ (passes_both _ _ passed).1).1 in
      let stored : create_role env caller now org_id body db
          ≡ store_role env caller org_id (role_of now org_id body.name q) db =
        same ∙ rw e refl in
      let roles =
        ap (λ (a : Reply × Db env). a.1.roles) stored
        ∙ store_role-roles caller org_id (role_of now org_id body.name q) db in
      let (mine, builtin) =
        get-put_role env (role_of now org_id body.name q) org_id name db refl plain ne in
      ((q, e, no_admin, rw roles mine), rw roles builtin)
