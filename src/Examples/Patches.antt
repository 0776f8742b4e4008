-- ===== src/Examples/Patches.antt =====
-- Patches, rotations, listings and the record format of crates/sirr-server/src/store/db.rs at concrete
-- inputs.
use sirr.Prelude.{ℕ, pos, Bool, false, none, some, [], ◌∷◌, ◌≡◌, inr, refl, arith, All, List, map}
use sirr.Text.{Bytes, bytes_eq, strip_prefix}
use sirr.Result.{ok, err, read_limit_exhausted}
use sirr.Records.{SecretRecord, SecretMeta, meta_of, is_expired, is_sealed, reads_exhausted, sealed}
use sirr.External.Tables.{lookup}
use sirr.Database.{Store}
use sirr.RecordFormat.{encrypt, encode, decode, decrypt, decode-encode}
use sirr.Samples.Setting.{setting, store, new_db}
use sirr.Secrets.{put, put_txn, insert_record, patch, get}
use sirr.Secrets.Scan.{list, list_entries, rotate}
use sirr.Secrets.Stored.{Stored}
use sirr.Secrets.Machine.{live, InPhase, has_expired}
use sirr.Secrets.Patching.{refusal, patched_terms, patch_accepted}
use sirr.Secrets.Sealed.{Attempt, patch_all, turned_down, used_up, sealed_for_good}
use sirr.Secrets.Lifecycle.{terms_of}
use sirr.Secrets.Rotation.{Rotatable, rotate_lem}
use sirr.Examples.Secrets.{a, hi, hi-text, with_a}

-- The record of `with_a`, if it does not burn.
abbrev record_of : Bool → SecretRecord
record_of delete = record {
  value_encrypted = 7 ∷ 104 ∷ 105 ∷ [];
  nonce = [];
  created_at = pos 100;
  expires_at = none;
  max_reads = some 2;
  read_count = 0;
  delete = delete;
  webhook_url = none;
  owner_id = none;
  org_id = none;
  allowed_keys = none;
}

abbrev bytes_of : ℕ → Bytes
bytes_of delete =
    1 ∷ 1 ∷ 0 ∷ 3 ∷ 7 ∷ 104 ∷ 105 ∷ 0 ∷ 0 ∷ 100 ∷ 0 ∷ 1 ∷ 2 ∷ 0 ∷ delete ∷ 0 ∷ 0 ∷ 0 ∷ 0 ∷ []

with_a-Stored : Stored setting store with_a.secrets a (record_of false) 1 hi
unfolding put put_txn encrypt insert_record encode lookup bytes_eq decode decrypt strip_prefix
with_a-Stored = record {
  bytes = bytes_of 0;
  at_key = refl;
  decodes = refl;
  decrypts = refl;
  is_text = hi-text;
}

-- Patches that would give a new value, a new limit or more time.
abbrev attempts : List Attempt
attempts =
    (record {
      now = pos 105;
      nonce = [];
      new_value = some hi;
      max_reads = some 9;
      ttl_seconds = some 90;
    })
    ∷ (record {
      now = pos 900;
      nonce = [];
      new_value = none;
      max_reads = some 9;
      ttl_seconds = none;
    })
    ∷ []

sealed_for_good_example :
    (patch_all setting store a attempts
        (used_up setting store (pos 100) [] a hi none 2 none (pos 101 ∷ pos 102 ∷ []) new_db)
      ≡ (
        map (turned_down (terms_of (pos 100) hi none false none)) attempts,
        used_up setting store (pos 100) [] a hi none 2 none (pos 101 ∷ pos 102 ∷ []) new_db,
      ))
    × ((get setting store
          (pos 110)
          a
          (used_up setting store (pos 100) [] a hi none 2 none (pos 101 ∷ pos 102 ∷ []) new_db)).0
        ≡ ok sealed)
unfolding has_expired
sealed_for_good_example =
    sealed_for_good setting store (pos 100) [] a hi none 2 none new_db (pos 101 ∷ pos 102 ∷ [])
      attempts (pos 110) hi-text (omega arith) (omega arith) (omega arith) (refl, (refl, tt))

turned_down-attempts :
    map (turned_down (terms_of (pos 100) hi none false none)) attempts
    ≡ err read_limit_exhausted ∷ err read_limit_exhausted ∷ []
unfolding has_expired
turned_down-attempts = refl

patch_accepted_example :
    ((shown : SecretMeta) × ((patch setting store (pos 101) [] a (some hi) (some 5) none with_a).0
        ≡ ok (some shown))
      × (shown.key ≡ a)
      × (shown.read_count ≡ 0)
      × (shown.max_reads ≡ some 5)
      × (shown.expires_at ≡ none))
    × InPhase setting store
        (patch setting store (pos 101) [] a (some hi) (some 5) none with_a).1.secrets
        a
        (patched_terms (pos 101) hi (record_of false) (some hi) none)
        (live (some 5))
unfolding refusal is_expired is_sealed reads_exhausted
patch_accepted_example =
    patch_accepted setting store (pos 101) [] a hi (record_of false) 1 (some hi) (some 5) none
      with_a with_a-Stored refl hi-text (omega arith, omega arith)

with_a-Rotatable :
    All
      (λ e. Rotatable setting store.key (9 ∷ []) 2 (pos 101) (λ k. []) e.1)
      (setting.tables.iter with_a.secrets)
unfolding put put_txn encrypt insert_record encode decode decrypt strip_prefix is_expired
with_a-Rotatable = (((record_of false, 1), refl, inr (hi, refl)), tt)

rotate_lem_example :
    (n : ℕ) × ((rotate setting store (pos 101) (9 ∷ []) 2 (λ k. []) with_a).0 ≡ ok n)
    × (c : Bytes) × Stored setting
        (record { key = 9 ∷ []; key_version = 2 })
        (rotate setting store (pos 101) (9 ∷ []) 2 (λ k. []) with_a).1.secrets
        a
        (record (record_of false) { value_encrypted = c; nonce = [] })
        2
        hi
unfolding is_expired
rotate_lem_example =
    rotate_lem setting store (pos 101) (9 ∷ []) 2 (λ k. []) with_a a hi (record_of false) 1
      with_a-Rotatable with_a-Stored refl

-- A handle with another key than the one the secret is encrypted under.
abbrev other_store : Store
other_store = record { key = 8 ∷ []; key_version = 1 }

abbrev a_meta : SecretMeta
a_meta = meta_of a (record_of false)

list-with_a : list setting (pos 101) with_a ≡ ok (a_meta ∷ [])
unfolding list list_entries put put_txn encrypt insert_record encode decode is_expired
list-with_a = refl

decode-encode_example :
    (b : Bytes) × (encode setting (record_of false) 3 ≡ ok b)
    × (decode setting b ≡ ok (record_of false, 3))
decode-encode_example = decode-encode setting (record_of false) 3
