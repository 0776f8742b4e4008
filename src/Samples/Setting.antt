-- ===== src/Samples/Setting.antt =====
-- The records of the store as printed fields, the toy cipher, and the environment of both.
use sirr.Prelude.{refl, some, [], ◌∷◌, ◌++◌}
use sirr.Text.{strip_prefix, strip_prefix-append}
use sirr.Permissions.{Permissions}
use sirr.Records.{
  SecretRecord, AuditEvent, WebhookRegistration, OrgRecord, PrincipalRecord, PrincipalKeyRecord,
  RoleRecord, Metadata,
}
use sirr.External.Keys.{bytes_key, u64_key}
use sirr.External.Ciphers.{Cipher}
use sirr.Database.{Env, Db, Store}
use sirr.Samples.SortedLists.{sorted_lists}
use sirr.Samples.Printers.{
  Printer, number, via, pair, boolean, integer, several, optional, codec, text,
}

abbrev pub metadata : Printer Metadata
metadata = several (pair text text)

abbrev pub permissions : Printer Permissions
permissions = via number (λ p. p.raw) (λ n. record { raw = n }) (λ p. refl)

abbrev pub secret_printer : Printer SecretRecord
secret_printer =
    via
      (pair text (
        pair text (
          pair integer (
            pair (optional integer) (
              pair (optional number) (
                pair number (
                  pair boolean (
                    pair (optional text) (
                      pair (optional text) (pair (optional text) (optional (several text))))))))))))
      (λ r. (
        r.value_encrypted,
        (
          r.nonce,
          (
            r.created_at,
            (
              r.expires_at,
              (
                r.max_reads,
                (
                  r.read_count,
                  (r.delete, (r.webhook_url, (r.owner_id, (r.org_id, r.allowed_keys)))),
                ),
              ),
            ),
          ),
        ),
      ))
      (λ x. record {
        value_encrypted = x.0;
        nonce = x.1.0;
        created_at = x.1.1.0;
        expires_at = x.1.1.1.0;
        max_reads = x.1.1.1.1.0;
        read_count = x.1.1.1.1.1.0;
        delete = x.1.1.1.1.1.1.0;
        webhook_url = x.1.1.1.1.1.1.1.0;
        owner_id = x.1.1.1.1.1.1.1.1.0;
        org_id = x.1.1.1.1.1.1.1.1.1.0;
        allowed_keys = x.1.1.1.1.1.1.1.1.1.1;
      })
      (λ r. refl)

abbrev pub audit_printer : Printer AuditEvent
audit_printer =
    via
      (pair number (
        pair integer (
          pair text (
            pair (optional text) (
              pair text
                (pair boolean (pair (optional text) (pair (optional text) (optional text)))))))))
      (λ r. (
        r.id,
        (
          r.timestamp,
          (r.action, (r.key, (r.source_ip, (r.success, (r.detail, (r.org_id, r.principal_id)))))),
        ),
      ))
      (λ x. record {
        id = x.0;
        timestamp = x.1.0;
        action = x.1.1.0;
        key = x.1.1.1.0;
        source_ip = x.1.1.1.1.0;
        success = x.1.1.1.1.1.0;
        detail = x.1.1.1.1.1.1.0;
        org_id = x.1.1.1.1.1.1.1.0;
        principal_id = x.1.1.1.1.1.1.1.1;
      })
      (λ r. refl)

abbrev pub webhook_printer : Printer WebhookRegistration
webhook_printer =
    via (pair text (pair text (pair text (pair (several text) (pair integer (optional text))))))
      (λ r. (r.id, (r.url, (r.secret, (r.events, (r.created_at, r.org_id))))))
      (λ x. record {
        id = x.0;
        url = x.1.0;
        secret = x.1.1.0;
        events = x.1.1.1.0;
        created_at = x.1.1.1.1.0;
        org_id = x.1.1.1.1.1;
      })
      (λ r. refl)

abbrev pub org_printer : Printer OrgRecord
org_printer =
    via (pair text (pair text (pair metadata integer)))
      (λ r. (r.id, (r.name, (r.metadata, r.created_at))))
      (λ x. record { id = x.0; name = x.1.0; metadata = x.1.1.0; created_at = x.1.1.1 }) (λ r. refl)

abbrev pub principal_printer : Printer PrincipalRecord
principal_printer =
    via (pair text (pair text (pair text (pair text (pair metadata integer)))))
      (λ r. (r.id, (r.org_id, (r.name, (r.role, (r.metadata, r.created_at))))))
      (λ x. record {
        id = x.0;
        org_id = x.1.0;
        name = x.1.1.0;
        role = x.1.1.1.0;
        metadata = x.1.1.1.1.0;
        created_at = x.1.1.1.1.1;
      })
      (λ r. refl)

abbrev pub key_printer : Printer PrincipalKeyRecord
key_printer =
    via
      (pair text
        (pair text (pair text (pair text (pair text (pair integer (pair integer integer)))))))
      (λ r. (
        r.id,
        (
          r.principal_id,
          (r.org_id, (r.name, (r.key_hash, (r.valid_after, (r.valid_before, r.created_at))))),
        ),
      ))
      (λ x. record {
        id = x.0;
        principal_id = x.1.0;
        org_id = x.1.1.0;
        name = x.1.1.1.0;
        key_hash = x.1.1.1.1.0;
        valid_after = x.1.1.1.1.1.0;
        valid_before = x.1.1.1.1.1.1.0;
        created_at = x.1.1.1.1.1.1.1;
      })
      (λ r. refl)

abbrev pub role_printer : Printer RoleRecord
role_printer =
    via (pair text (pair (optional text) (pair permissions (pair boolean integer))))
      (λ r. (r.name, (r.org_id, (r.permissions, (r.built_in, r.created_at)))))
      (λ x. record {
        name = x.0;
        org_id = x.1.0;
        permissions = x.1.1.0;
        built_in = x.1.1.1.0;
        created_at = x.1.1.1.1;
      })
      (λ r. refl)

-- The ciphertext is the key followed by the text.
abbrev pub toy_cipher : Cipher
toy_cipher = record {
  encrypt = λ key nonce plaintext. some (key ++ plaintext);
  decrypt = λ key nonce ciphertext. strip_prefix ciphertext key;
  round_trip = λ key nonce plaintext. (key ++ plaintext, refl, strip_prefix-append key plaintext);
}

abbrev pub setting : Env
setting = record {
  tables = sorted_lists bytes_key;
  audit_tables = sorted_lists u64_key;
  counter_tables = sorted_lists bytes_key;
  secret_codec = codec secret_printer;
  audit_codec = codec audit_printer;
  webhook_codec = codec webhook_printer;
  org_codec = codec org_printer;
  principal_codec = codec principal_printer;
  key_codec = codec key_printer;
  role_codec = codec role_printer;
  cipher = toy_cipher;
}

abbrev pub store : Store
store = record { key = 7 ∷ []; key_version = 1 }

-- The database as it is created.
abbrev pub new_db : Db setting
new_db = record {
  secrets = setting.tables.empty;
  audit_log = setting.audit_tables.empty;
  counters = setting.counter_tables.empty;
  webhooks = setting.tables.empty;
  orgs = setting.tables.empty;
  principals = setting.tables.empty;
  principal_keys = setting.tables.empty;
  principal_key_ix = setting.tables.empty;
  roles = setting.tables.empty;
}
