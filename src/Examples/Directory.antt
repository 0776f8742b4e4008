-- ===== src/Examples/Directory.antt =====
-- Roles, permissions and the guard on URLs at concrete inputs.
use sirr.Prelude.{pos, false, none, some, [], ◌∷◌, ◌≡◌, ◌↔◌, refl, arith, if◌then◌else◌}
use sirr.Text.{Bytes, codes, bytes_eq}
use sirr.Result.{ok}
use sirr.Records.{RoleRecord}
use sirr.Permissions.{parsed, parse, to_letter_string, all_permissions}
use sirr.Permissions.Letters.{parse-to_letter_string}
use sirr.Samples.Setting.{setting, new_db}
use sirr.Directory.Roles.{put_role, get_role}
use sirr.Directory.Revocation.{builtin_role_overwritten}
use sirr.Webhooks.Guard.{
  is_private_ip, is_private_host, check_host, is_https, check_uri, Parsers, validate_webhook_url,
  safe, private_address,
}
use sirr.Webhooks.Allowed.{IsPublic, HasOrigin, validate_webhook_url_lem}

abbrev role_in : Bytes → RoleRecord
role_in oid = record {
  name = codes "owner";
  org_id = some oid;
  permissions = record { raw = 1 };
  built_in = false;
  created_at = pos 1;
}

builtin_role_overwritten_example :
    get_role setting none (codes "owner") (put_role setting (role_in (codes "builtin")) new_db).1
    ≡ ok (some (role_in (codes "builtin")))
builtin_role_overwritten_example =
    builtin_role_overwritten setting (role_in (codes "builtin")) new_db refl

parse-to_letter_string_example : parse (to_letter_string all_permissions) ≡ parsed all_permissions
parse-to_letter_string_example = parse-to_letter_string all_permissions (omega arith)

-- Every text is an https URL of the host "[x]", and "x" is an address in 10.0.0.0/8.
abbrev toy_parsers : Parsers
toy_parsers = record {
  Ip = Bytes;
  parse_uri = λ url. some (some (codes "https"), some (codes "[x]"));
  parse_ip = λ host. if bytes_eq host (codes "x") then some host else none;
  contains = λ range ip. bytes_eq range (codes "10.0.0.0/8");
}

validate_webhook_url_lem_example :
    (validate_webhook_url toy_parsers (codes "https://x/y") (codes "https://x/" ∷ []) ≡ safe) ↔ (
      (host : Bytes) × (toy_parsers.parse_uri (codes "https://x/y")
        ≡ some (some (codes "https"), some host))
      × IsPublic toy_parsers host
      × HasOrigin (codes "https://x/y") (codes "https://x/" ∷ []))
validate_webhook_url_lem_example =
    validate_webhook_url_lem toy_parsers (codes "https://x/y") (codes "https://x/" ∷ [])

toy-refused :
    validate_webhook_url toy_parsers (codes "https://x/y") (codes "https://x/" ∷ [])
    ≡ private_address
unfolding validate_webhook_url check_uri is_https bytes_eq check_host is_private_host is_private_ip
toy-refused = refl
