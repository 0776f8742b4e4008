-- ===== src/Examples/Managers.antt =====
-- Requests of managers that crates/sirr-server/src/org_handlers.rs handles, at concrete inputs.
use sirr.Text.Decimal.{decimal}
use sirr.Secrets.{insert_record}
use sirr.RecordFormat.{decode, encode, encrypt}
use sirr.OrgSecrets.{org_secret_key, org_prefix, put_org_txn, put_org_secret}
use sirr.OrgSecrets.Scan.{list_org_entries, is_owned, list_org_secrets}
use sirr.Audit.{
  is_before, is_after, has_org, has_action, list_from, list_audit, record_numbered, record_audit,
  next_seq,
}
use sirr.External.Tables.{lookup}
use sirr.Directory.{get_decoded}
use sirr.Directory.Orgs.{put_org}
use sirr.Prelude.{pos, ◌≤◌, ◌^◌, ◌+◌, true, false, none, some, [], ◌∷◌, All, ◌≡◌, refl, arith}
use sirr.Text.{starts_with, Bytes, codes, bytes_eq, join_colon}
use sirr.Result.{ok, err}
use sirr.Permissions.{
  to_letter_string, Permissions, all_permissions, parsed, parse, has, sirr_admin, list_my,
}
use sirr.Records.{is_expired, WebhookRegistration, AuditEvent}
use sirr.Database.{Db}
use sirr.Samples.Setting.{setting, new_db}
use sirr.Samples.People.{tokens, state, acme, rival, by_master, with_acme, with_secret}
use sirr.Auth.{builtin_permissions, auth_has, Principal, principal, role_permissions}
use sirr.Directory.Principals.{put_principal}
use sirr.Directory.Roles.{role_table_key, put_role, get_role}
use sirr.Webhooks.{
  registrations, is_of_org, registrations_of, list_webhooks_for_org, count_webhooks_for_org,
  put_webhook, list_webhooks,
}
use sirr.Webhooks.Sender.{WebhookSender, fire, tells}
use sirr.OrgHandlers.{
  in_org, master_or, reject_if, ◌<|>◌, Caller, deleted, shown_events, shown_secrets,
}
use sirr.OrgHandlers.Checks.{is_refusal}
use sirr.OrgHandlers.Roles.{
  store_role, store_parsed, create_role_checks, CreateRoleRequest, create_role,
}
use sirr.OrgHandlers.Principals.{CreatePrincipalRequest}
use sirr.OrgHandlers.Orgs.{CreateOrgRequest, create_org}
use sirr.OrgHandlers.Grants.{role_of, create_role_lem}
use sirr.OrgHandlers.Quotas.{count_under, webhooks_of, create_org-quota, create_org_webhook-quota}
use sirr.OrgHandlers.Hooks.{
  store_webhook, create_webhook_checks, OrgAuditQueryParams, CreateOrgWebhookRequest, check_manager,
  max_webhooks, org_audit_events, create_org_webhook, delete_org_webhook,
}
use sirr.OrgHandlers.Shown.{IsShown, org_audit_events_lem, delete_org_webhook_lem}
use sirr.OrgHandlers.Broadcast.{org_webhook_told_of_all}
use sirr.OrgHandlers.Secrets.{answer_list, owner_filter, list_filtered, list_secrets}
use sirr.OrgHandlers.Secrets.Mine.{IsMine, list_secrets-IsMine}

-- A manager of acme that has neither `SirrAdmin` nor any permission on secrets of others.
abbrev mia : Principal
mia = record {
  principal_id = codes "p3";
  org_id = acme;
  key_id = codes "k3";
  key_name = codes "ci";
  permissions = record { raw = 2 ^ 11 + 2 ^ 2 };
}

abbrev by_mia : Caller
by_mia = record { auth = principal mia; ip = codes "4.4.4.4"; clock = pos 50 }

abbrev dev_request : CreateRoleRequest
dev_request = record { name = codes "dev"; permissions = codes "rl" }

role-created : is_refusal (create_role setting by_mia (pos 60) acme dev_request with_acme).0 ≡ false
unfolding is_refusal create_role create_role_checks ◌<|>◌ reject_if master_or auth_has has in_org
    bytes_eq parse store_parsed store_role put_role
role-created = refl

create_role_lem_example :
    ((q : Permissions) × (parse (codes "rl") ≡ parsed q)
      × (has q sirr_admin ≡ false)
      × (get_role setting
            (some acme)
            (codes "dev")
            (create_role setting by_mia (pos 60) acme dev_request with_acme).1
          ≡ ok (some (role_of (pos 60) acme (codes "dev") q))))
    × (get_role setting none
          (codes "dev")
          (create_role setting by_mia (pos 60) acme dev_request with_acme).1
        ≡ get_role setting none (codes "dev") with_acme)
create_role_lem_example =
    create_role_lem setting by_mia (pos 60) acme (codes "dev") dev_request with_acme refl
      (λ e. ground (arith, e)) role-created

-- The license of the state allows one principal, and Ann is not counted here.
abbrev no_principals : Db setting
no_principals = record with_acme { principals = setting.tables.empty }

abbrev new_owner : CreatePrincipalRequest
new_owner = record { name = codes "max"; role = codes "owner"; metadata = [] }

-- The role has the permission that Mia lacks.
owner-admin :
    (role_permissions tokens setting acme (codes "owner") no_principals ≡ some all_permissions)
    × (has all_permissions sirr_admin ≡ true)
    × (has mia.permissions sirr_admin ≡ false)
unfolding role_permissions get_role get_decoded lookup put_principal put_org put_role bytes_eq
    role_table_key join_colon builtin_permissions has
owner-admin = (refl, refl, refl)

abbrev beta : CreateOrgRequest
beta = record { name = codes "Beta"; metadata = [] }

create_org-quota_example :
    count_under setting []
      (create_org setting state by_master (pos 60) (codes "beta") beta new_db).1.orgs
    ≤ 1
create_org-quota_example =
    create_org-quota setting state by_master (pos 60) (codes "beta") beta new_db 1 refl
      (omega arith)

abbrev hook_request : CreateOrgWebhookRequest
hook_request = record { url = codes "http://a.b"; events = none }

no-hooks : webhooks_of setting acme with_acme.webhooks ≡ 0
unfolding put_principal put_org put_role
no-hooks = refl

create_org_webhook-quota_example :
    webhooks_of setting acme
      (create_org_webhook setting by_mia
        (pos 60)
        (codes "w1")
        (codes "s")
        acme
        hook_request
        with_acme).1.webhooks
    ≤ max_webhooks
create_org_webhook-quota_example =
    create_org_webhook-quota setting by_mia (pos 60) (codes "w1") (codes "s") acme hook_request
      with_acme (omega (arith, no-hooks))

abbrev sender : WebhookSender
sender = record { instance_id = codes "i"; per_secret_signing_key = none; allowed_origins = [] }

abbrev acme_hook : WebhookRegistration
acme_hook = record {
  id = codes "w1";
  url = codes "http://a.b";
  secret = codes "s";
  events = codes "*" ∷ [];
  created_at = pos 60;
  org_id = some acme;
}

hook-created :
    is_refusal
      (create_org_webhook setting by_mia
        (pos 60)
        (codes "w1")
        (codes "s")
        acme
        hook_request
        with_acme).0
    ≡ false
unfolding is_refusal create_org_webhook create_webhook_checks ◌<|>◌ check_manager reject_if in_org
    bytes_eq auth_has has starts_with count_webhooks_for_org list_webhooks_for_org registrations_of
    put_principal put_org put_role next_seq record_audit record_numbered role_table_key
    store_webhook join_colon is_of_org put_webhook
hook-created = refl

hook-listed :
    list_webhooks setting
      (create_org_webhook setting by_mia
        (pos 60)
        (codes "w1")
        (codes "s")
        acme
        hook_request
        with_acme).1
    ≡ ok (acme_hook ∷ [])
unfolding list_webhooks registrations create_org_webhook create_webhook_checks ◌<|>◌ check_manager
    reject_if in_org bytes_eq auth_has has starts_with count_webhooks_for_org list_webhooks_for_org
    registrations_of put_principal put_org next_seq record_audit record_numbered store_webhook
    join_colon is_of_org put_webhook put_role
hook-listed = refl

-- The event is one on a secret of the other organisation.
org_webhook_told_of_all_example :
    tells (codes "http://a.b") (codes "rivals_secret") (
      fire setting sender
        (pos 70)
        (codes "secret.created")
        (codes "rivals_secret")
        (create_org_webhook setting by_mia
          (pos 60)
          (codes "w1")
          (codes "s")
          acme
          hook_request
          with_acme).1)
    ≡ true
org_webhook_told_of_all_example =
    org_webhook_told_of_all setting by_mia (pos 60) (pos 70) (codes "w1") (codes "s") acme
      hook_request sender (codes "secret.created") (codes "rivals_secret") with_acme
      (acme_hook ∷ []) hook-created refl hook-listed

-- A webhook of the other organisation.
abbrev rival_hook : WebhookRegistration
rival_hook = record acme_hook { id = codes "w2"; org_id = some rival }

abbrev with_hook : Db setting
with_hook = (put_webhook setting rival_hook with_acme).1

abbrev hook_bytes : Bytes
hook_bytes = elim (setting.webhook_codec.encode rival_hook) [ ok b ↦ b | err e ↦ [] ]

hook-stored : setting.tables.get with_hook.webhooks (codes "w2") ≡ some hook_bytes
unfolding lookup put_webhook put_principal put_org put_role bytes_eq
hook-stored = refl

mia-manager : check_manager (principal mia) acme ≡ none
unfolding check_manager ◌<|>◌ reject_if in_org bytes_eq auth_has has
mia-manager = refl

delete_org_webhook_lem_example :
    ((delete_org_webhook setting by_mia acme (codes "w2") with_hook).0 ≡ deleted)
    × (setting.tables.get
          (delete_org_webhook setting by_mia acme (codes "w2") with_hook).1.webhooks
          (codes "w2")
        ≡ none)
delete_org_webhook_lem_example =
    delete_org_webhook_lem setting by_mia acme (codes "w2") hook_bytes with_hook mia-manager
      hook-stored

abbrev digest : Bytes → Bytes
digest k = codes "00000000"

-- Ann has read a secret, and the event of it is shown to Mia.
abbrev with_event : Db setting
with_event = (create_role setting by_mia (pos 60) acme dev_request with_acme).1

abbrev any_events : OrgAuditQueryParams
any_events = record { since = none; until = none; action = none; limit = none }

abbrev role_event : AuditEvent
role_event = record {
  id = 1;
  timestamp = pos 50;
  action = codes "role.create";
  key = none;
  source_ip = codes "4.4.4.4";
  success = true;
  detail = some (codes "role=dev");
  org_id = some acme;
  principal_id = some (codes "p3");
}

event-shown :
    org_audit_events setting state digest (principal mia) acme any_events with_event
    ≡ shown_events (role_event ∷ [])
unfolding org_audit_events check_manager ◌<|>◌ reject_if in_org bytes_eq auth_has has list_audit
    list_from create_role create_role_checks master_or parse store_parsed store_role put_role
    has_action has_org is_after is_before next_seq record_audit record_numbered role_table_key
    to_letter_string join_colon put_principal put_org lookup
event-shown = refl

org_audit_events_lem_example : All (IsShown digest true acme) (role_event ∷ []) × (1 ≤ 1000)
org_audit_events_lem_example =
    org_audit_events_lem setting state digest (principal mia) acme any_events with_event
      (role_event ∷ []) event-shown

-- Mia owns no secret of acme.
none-listed : (list_secrets setting by_mia (pos 60) acme with_secret).0 ≡ shown_secrets []
unfolding list_secrets reject_if in_org bytes_eq list_filtered owner_filter auth_has has answer_list
    list_org_secrets put_org_secret put_org_txn encrypt insert_record encode put_principal put_org
    next_seq record_audit record_numbered is_owned list_org_entries org_prefix org_secret_key decode
    is_expired decimal join_colon starts_with put_role
none-listed = refl

list_secrets-IsMine_example : (has mia.permissions list_my ≡ true) × All (IsMine (codes "p3")) []
unfolding has
list_secrets-IsMine_example =
    list_secrets-IsMine setting by_mia (pos 60) acme mia with_secret [] refl refl none-listed
