-- ===== src/Examples/Tenants.antt =====
-- Requests that crates/sirr-server/src/org_handlers.rs handles, at concrete inputs.
use sirr.Directory.Roles.{role_table_key, get_role, put_role}
use sirr.Directory.Orgs.{put_org}
use sirr.Directory.{get_decoded}
use sirr.Directory.Principals.{put_principal, get_principal}
use sirr.Directory.PrincipalKeys.{put_principal_key}
use sirr.Text.Utf8.{is_utf8, from_utf8}
use sirr.OrgSecrets.Scan.{is_allowed, check_key_binding}
use sirr.Audit.{record_numbered, record_audit, next_seq}
use sirr.RecordFormat.{decrypt, decode, encode, encrypt}
use sirr.External.Tables.{lookup}
use sirr.Secrets.{
  read_record, read_live, head_record, get_txn, get_by_table_key, burn_or_keep, insert_record,
  head_by_table_key,
}
use sirr.Handlers.{is_key_byte, validate_key_name}
use sirr.Prelude.{pos, Option, none, some, List, [], ◌∷◌, ◌++◌, ◌≡◌, ◌⊎◌, inl, refl, arith}
use sirr.Text.{strip_prefix, join_colon, Bytes, codes, bytes_eq}
use sirr.Result.{ok}
use sirr.Permissions.{all_permissions, patch_my, patch_org, delete_my, delete_org, has}
use sirr.Records.{reads_exhausted, is_sealed, is_expired, is_burned, value, burned}
use sirr.Samples.Setting.{setting, store}
use sirr.Samples.People.{
  tokens, parsers, state, acme, rival, ann, by_ann, by_bob, by_master, ann_record, with_acme,
  with_secret,
}
use sirr.OrgSecrets.{org_secret_key, put_org_txn, put_org_secret, head_org_secret, get_org_secret}
use sirr.Auth.{
  builtin_permissions, role_permissions, is_owner, can_access_secret, auth_has, principal, proceed,
  identity, require_auth,
}
use sirr.OrgHandlers.{reject_if, ◌<|>◌, Reply, forbidden, secret_value, in_org}
use sirr.OrgHandlers.Checks.{EndedOrPassed, is_refusal}
use sirr.OrgHandlers.Requests.{
  delete_secret_request, delete_principal_request, prune_secrets_request, handle,
}
use sirr.OrgHandlers.Tenants.{handle_outside}
use sirr.OrgHandlers.Isolation.{Sent, handle_all, tenant_isolated}
use sirr.OrgHandlers.Secrets.{
  binding_of, answer_get, check_owner, check_request, get_checks, get_secret,
}
use sirr.OrgHandlers.Secrets.Reads.{MayRead, get_secret_reveals}
use sirr.OrgHandlers.Secrets.Owners.{MayChange, changes_authorised}
use sirr.OrgHandlers.Secrets.Changes.{PatchOrgSecretRequest, patch_secret, delete_secret}
use sirr.OrgHandlers.Account.{
  key_end, store_key, create_key_of, CreateKeyRequest, create_key, new_key, raw_key,
}
use sirr.OrgHandlers.Keys.{create_key_authenticates}

abbrev digest : Bytes → Bytes
digest k = codes "00000000"

-- Others ask for secrets of acme to be deleted, for its principal, and for their own secrets.
abbrev requests : List Sent
requests =
    (by_bob, acme, delete_secret_request (pos 60) (codes "a"))
    ∷ (by_master, acme, delete_principal_request (pos 61) (codes "p1"))
    ∷ (by_bob, rival, prune_secrets_request (pos 62))
    ∷ []

tenant_isolated_example :
    (get_org_secret setting store
      (pos 70)
      acme
      (codes "a")
      (handle_all setting state parsers digest requests with_secret)).0
    ≡ (get_org_secret setting store (pos 70) acme (codes "a") with_secret).0
unfolding in_org bytes_eq
tenant_isolated_example =
    tenant_isolated setting state parsers digest acme (codes "a") requests (pos 70) with_secret refl
      ((refl, refl), ((refl, refl), ((refl, refl), tt)))

handle_outside_example :
    handle setting state parsers digest by_bob acme
      (delete_secret_request (pos 60) (codes "a"))
      with_secret
    ≡ (forbidden, [], with_secret)
unfolding in_org bytes_eq
handle_outside_example =
    handle_outside setting state parsers digest by_bob acme
      (delete_secret_request (pos 60) (codes "a")) with_secret refl (inl refl)

ann-reads :
    (get_secret setting state by_ann (pos 60) (pos 60) (pos 60) acme (codes "a") with_secret).0
    ≡ secret_value (codes "a") (codes "hi")
unfolding in_org bytes_eq get_secret get_checks ◌<|>◌ check_request reject_if auth_has has
    validate_key_name is_key_byte check_owner head_org_secret head_by_table_key lookup
    put_org_secret put_org_txn encrypt insert_record encode next_seq record_audit record_numbered
    can_access_secret is_owner answer_get binding_of check_key_binding is_allowed get_org_secret
    org_secret_key decode decrypt is_burned is_expired is_sealed reads_exhausted burn_or_keep
    get_by_table_key get_txn head_record read_live read_record from_utf8 is_utf8 join_colon
    put_principal put_org put_role strip_prefix
ann-reads = refl

get_secret_reveals_example :
    MayRead setting (pos 60) (pos 60) (principal ann) acme (codes "a") with_secret
    × (codes "a" ≡ codes "a")
    × ((url : Option Bytes) × (((get_org_secret setting store
              (pos 60)
              acme
              (codes "a")
              with_secret).0
            ≡ ok (value (codes "hi") url))
          ⊎ ((get_org_secret setting store (pos 60) acme (codes "a") with_secret).0
              ≡ ok (burned (codes "hi") url))))
get_secret_reveals_example =
    get_secret_reveals setting state by_ann (pos 60) (pos 60) (pos 60) acme (codes "a") (codes "a")
      (codes "hi") with_secret ann-reads

abbrev no_change : PatchOrgSecretRequest
no_change = record { value = none; max_reads = some 9; ttl_seconds = none }

changes_authorised_example :
    EndedOrPassed
      (λ (r : Reply). (r, [], with_secret))
      (patch_secret setting state by_ann
        (pos 60)
        (pos 60)
        (pos 60)
        []
        acme
        (codes "a")
        no_change
        with_secret)
      (MayChange setting patch_my patch_org (pos 60) (principal ann) acme (codes "a") with_secret)
    × EndedOrPassed
        (λ (r : Reply). (r, [], with_secret))
        (delete_secret setting state by_ann (pos 60) acme (codes "a") with_secret)
        (MayChange setting delete_my delete_org
          (pos 60)
          (principal ann)
          acme
          (codes "a")
          with_secret)
changes_authorised_example =
    changes_authorised setting state by_ann (pos 60) (pos 60) (pos 60) [] acme (codes "a") no_change
      with_secret

abbrev until_then : CreateKeyRequest
until_then = record {
  name = codes "laptop";
  valid_for_seconds = none;
  valid_before = some (pos 5000);
}

create_key_authenticates_example :
    require_auth tokens setting
      (pos 1000)
      none
      (some (codes "Bearer " ++ raw_key (codes "77")))
      (create_key setting tokens by_ann (pos 60) (codes "k9") (codes "77") until_then with_acme).1
    ≡ proceed (
        principal (
          identity
            (new_key setting tokens (pos 60) (codes "k9") (codes "77") ann until_then)
            all_permissions))
unfolding is_refusal create_key reject_if auth_has has create_key_of store_key put_principal_key
    get_principal get_decoded lookup put_principal put_org put_role bytes_eq join_colon
    role_permissions next_seq record_audit record_numbered builtin_permissions get_role
    role_table_key key_end
create_key_authenticates_example =
    create_key_authenticates tokens setting by_ann (pos 60) (pos 1000) (codes "k9") (codes "77")
      until_then ann ann_record all_permissions none with_acme refl refl refl refl
      (λ e. ground (arith, e)) (omega arith) (omega arith)
