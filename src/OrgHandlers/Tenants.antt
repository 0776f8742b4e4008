-- ===== src/OrgHandlers/Tenants.antt =====
-- crates/sirr-server/src/org_handlers.rs: requests from outside the organisation they are about.
use sirr.Prelude.{Bool, true, false, ◌||◌, some, [], ◌≡◌, ◌⊎◌, inl, inr, refl, arith}
use sirr.Text.{Bytes}
use sirr.Permissions.{
  PermBit, manage_org, account_read_org, read_my, read_org, patch_my, patch_org, delete_my,
  delete_org,
}
use sirr.Database.{Env, Db}
use sirr.Webhooks.Guard.{Parsers}
use sirr.Auth.{ResolvedAuth, is_master}
use sirr.OrgHandlers.{AppState, Caller, forbidden, in_org, master_or, reject_if, ◌<|>◌}
use sirr.OrgHandlers.Principals.{
  create_principal, create_principal_checks, show_principals, remove_principal,
}
use sirr.OrgHandlers.Roles.{create_role, create_role_checks, show_roles, remove_role}
use sirr.OrgHandlers.Secrets.{
  check_request, get_checks, get_secret, head_secret, list_secrets, prune_secrets, prune_checks,
}
use sirr.OrgHandlers.Secrets.Changes.{
  create_checks, create_secret, patch_checks, patch_secret, delete_checks, delete_secret,
}
use sirr.OrgHandlers.Hooks.{
  check_manager, org_audit_events, create_webhook_checks, create_org_webhook, list_org_webhooks,
  delete_org_webhook,
}
use sirr.OrgHandlers.Requests.{
  OrgRequest, create_principal_request, list_principals_request, delete_principal_request,
  create_role_request, list_roles_request, delete_role_request, create_secret_request,
  list_secrets_request, get_secret_request, head_secret_request, patch_secret_request,
  delete_secret_request, prune_secrets_request, audit_request, create_webhook_request,
  list_webhooks_request, delete_webhook_request, is_for_master, handle,
}

-- Neither the master nor of the organisation.
module _ (auth : ResolvedAuth) (org_id : Bytes) (out : in_org auth org_id ≡ false) where
  master_or-outside : (bit : PermBit) → is_master auth ≡ false → master_or bit auth org_id ≡ false
  unfolding master_or
  master_or-outside bit m = rw m (rw out (ground arith))

  check_manager-outside : is_master auth ≡ false → check_manager auth org_id ≡ some forbidden
  unfolding check_manager reject_if ◌<|>◌
  check_manager-outside m = rw out (rw m refl)

  check_request-outside :
      (my_bit org_bit : PermBit) (key : Bytes)
      → check_request my_bit org_bit auth org_id key ≡ some forbidden
  unfolding check_request reject_if ◌<|>◌
  check_request-outside my_bit org_bit key = rw out refl

or-true : (b : Bool) → (b || true) ≡ true
or-true true = refl
or-true false = refl

not_master :
    (auth : ResolvedAuth) {for_master : Bool}
    → (is_master auth ≡ false) ⊎ (for_master ≡ false)
    → for_master ≡ true
    → is_master auth ≡ false
not_master auth (inl m) h = m
not_master auth (inr n) h = absurd (ground (arith, n, h))

module _ (env : Env) (state : AppState) (parsers : Parsers) (digest : Bytes → Bytes) where
  -- A request for an organisation from outside it is forbidden, sends no event and changes nothing.
  -- Outside is every principal of another organisation, and the master too where the request is one
  -- on secrets.
  pub handle_outside :
      (caller : Caller) (org_id : Bytes) (request : OrgRequest) (db : Db env)
      → in_org caller.auth org_id ≡ false
      → (is_master caller.auth ≡ false) ⊎ (is_for_master request ≡ false)
      → handle env state parsers digest caller org_id request db ≡ (forbidden, [], db)
  unfolding handle is_for_master reject_if ◌<|>◌ create_principal create_principal_checks
      show_principals remove_principal create_role create_role_checks show_roles remove_role
      create_secret create_checks list_secrets get_secret get_checks head_secret patch_secret
      patch_checks delete_secret delete_checks prune_secrets prune_checks org_audit_events
      create_org_webhook create_webhook_checks list_org_webhooks delete_org_webhook
  handle_outside caller org_id (create_principal_request now id body) db out m =
      rw (master_or-outside caller.auth org_id out manage_org (not_master caller.auth m refl)) refl
  handle_outside caller org_id list_principals_request db out m =
      rw (master_or-outside caller.auth org_id out account_read_org (not_master caller.auth m refl))
        refl
  handle_outside caller org_id (delete_principal_request now id) db out m =
      rw (master_or-outside caller.auth org_id out manage_org (not_master caller.auth m refl)) refl
  handle_outside caller org_id (create_role_request now body) db out m =
      rw (master_or-outside caller.auth org_id out manage_org (not_master caller.auth m refl)) refl
  handle_outside caller org_id list_roles_request db out m =
      rw (master_or-outside caller.auth org_id out account_read_org (not_master caller.auth m refl))
        refl
  handle_outside caller org_id (delete_role_request name) db out m =
      rw (master_or-outside caller.auth org_id out manage_org (not_master caller.auth m refl)) refl
  handle_outside caller org_id (create_secret_request now put_now nonce body) db out m =
      rw out (rw (or-true _) refl)
  handle_outside caller org_id (list_secrets_request now) db out m = rw out refl
  handle_outside caller org_id (get_secret_request head_now bind_now now key) db out m =
      rw (check_request-outside caller.auth org_id out read_my read_org key) refl
  handle_outside caller org_id (head_secret_request bind_now now key) db out m =
      rw (check_request-outside caller.auth org_id out read_my read_org key) refl
  handle_outside caller org_id (patch_secret_request head_now now patch_now nonce key body) db out
        m =
      rw (check_request-outside caller.auth org_id out patch_my patch_org key) refl
  handle_outside caller org_id (delete_secret_request head_now key) db out m =
      rw (check_request-outside caller.auth org_id out delete_my delete_org key) refl
  handle_outside caller org_id (prune_secrets_request now) db out m = rw out refl
  handle_outside caller org_id (audit_request params) db out m =
      rw (check_manager-outside caller.auth org_id out (not_master caller.auth m refl)) refl
  handle_outside caller org_id (create_webhook_request now id secret body) db out m =
      rw (check_manager-outside caller.auth org_id out (not_master caller.auth m refl)) refl
  handle_outside caller org_id list_webhooks_request db out m =
      rw (check_manager-outside caller.auth org_id out (not_master caller.auth m refl)) refl
  handle_outside caller org_id (delete_webhook_request id) db out m =
      rw (check_manager-outside caller.auth org_id out (not_master caller.auth m refl)) refl
