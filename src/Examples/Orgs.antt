-- ===== src/Examples/Orgs.antt =====
-- The secrets of organisations, crates/sirr-server/src/store/db.rs, at concrete inputs.
use sirr.Prelude.{pos, true, none, some, List, [], ◌∷◌, ◌≡◌, refl, arith}
use sirr.Text.{Bytes, codes, bytes_eq, starts_with, join_colon}
use sirr.Result.{ok}
use sirr.Records.{SecretMeta, is_expired}
use sirr.Database.{Db}
use sirr.RecordFormat.{encrypt, encode, decode}
use sirr.Samples.Setting.{setting, store, new_db}
use sirr.Secrets.{put, insert_record}
use sirr.Secrets.Machine.{live}
use sirr.OrgSecrets.{org_prefix, org_secret_key, put_org_txn, put_org_secret, get_org_secret}
use sirr.OrgSecrets.Scan.{list_org_secrets, list_org_entries, is_owned}
use sirr.OrgSecrets.Lifecycle.{org_answers, spec_reads, org_terms, put_org-answers}
use sirr.OrgSecrets.Isolation.{OrgCall, put_call, delete_call, prune_call, run_org, org_isolated}
use sirr.Examples.Secrets.{a, hi, hi-text}

abbrev acme : Bytes
acme = codes "acme"

abbrev other : Bytes
other = codes "other"

-- A secret of acme, owned by one of its principals.
abbrev with_org : Db setting
with_org =
    (put_org_secret setting store (pos 100) [] acme a hi none (some 1) true none (some (codes "p1"))
      none new_db).1

abbrev org_calls : List OrgCall
org_calls =
    put_call (pos 101) [] a hi none none true none none none
    ∷ delete_call a
    ∷ prune_call (pos 102)
    ∷ []

org_isolated_example :
    (get_org_secret setting store
      (pos 103)
      acme
      a
      (run_org setting store other org_calls with_org)).0
    ≡ (get_org_secret setting store (pos 103) acme a with_org).0
org_isolated_example =
    org_isolated setting store other acme a org_calls (pos 103) with_org refl refl
      (λ e. ground (arith, e))

put_org-answers_example :
    org_answers setting store acme a (pos 101 ∷ pos 102 ∷ []) with_org
    ≡ spec_reads (org_terms hi none true none) (pos 101 ∷ pos 102 ∷ []) (live (some 1))
put_org-answers_example =
    put_org-answers setting store (pos 100) [] acme a hi none (some 1) true none (some (codes "p1"))
      none (pos 101 ∷ pos 102 ∷ []) new_db hi-text (omega arith, omega arith)

-- An exhausted secret that the next prune of acme removes.
abbrev with_burned : Db setting
with_burned = (put setting store (pos 100) [] (codes "acme:a") hi none (some 0) true none new_db).1

abbrev a_meta : SecretMeta
a_meta = record {
  key = a;
  created_at = pos 100;
  expires_at = none;
  max_reads = some 1;
  read_count = 0;
  delete = true;
  owner_id = some (codes "p1");
  org_id = some acme;
}

list-with_org :
    list_org_secrets setting (pos 101) acme (some (codes "p1")) with_org ≡ ok (a_meta ∷ [])
unfolding list_org_secrets list_org_entries put_org_secret put_org_txn insert_record encrypt encode
    decode is_expired org_prefix org_secret_key join_colon starts_with bytes_eq is_owned
list-with_org = refl
