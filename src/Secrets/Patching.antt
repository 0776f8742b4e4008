-- ===== src/Secrets/Patching.antt =====
-- crates/sirr-server/src/store/db.rs, `patch`: which secrets it refuses, and what it makes of the
-- others.
use sirr.Prelude.{
  ℕ, ℤ, Bool, false, Option, none, some, ◌≡◌, refl, ◌∙◌, arith, if◌then◌else◌, Bool-cases, inl, inr,
}
use sirr.Text.{Bytes}
use sirr.Text.Utf8.{from_utf8}
use sirr.Result.{Result, ok, err, cannot_patch, read_limit_exhausted}
use sirr.Records.{SecretRecord, SecretMeta, meta_of, is_expired, is_sealed}
use sirr.Database.{Env, Db, Store, commit, abort, ◌>>=◌}
use sirr.RecordFormat.{encode, decrypt, decode-encode, decrypt-encrypt}
use sirr.Secrets.{
  Table, deadline, map_option, or_old, patched, encrypt_new, patch_record, patch_txn, patch,
}
use sirr.Secrets.Stored.{Stored, insert-Stored}
use sirr.Secrets.Machine.{Terms, live, InPhase}
use sirr.Secrets.Lifecycle.{IsLimit, fresh-ReadsLeft}

-- The reply to a patch of the record, where it is refused.
unfoldable pub refusal : ℤ → SecretRecord → Option (Result (Option SecretMeta))
refusal now r =
    if is_expired r now
    then some (ok none)
    else if r.delete
    then some (err cannot_patch)
    else if is_sealed r
    then some (err read_limit_exhausted)
    else none

-- The text that a patch leaves.
abbrev pub new_text : Option Bytes → Bytes → Bytes
new_text none old = old
new_text (some v) old = v

-- A patch of a record that is not refused, from here on.
module _ (env : Env) (store : Store) (now : ℤ) (nonce k : Bytes) (r : SecretRecord) (version : ℕ)
    (v : Option Bytes) (m : Option ℕ) where
  patch_record_refused :
      (display_key : Bytes) (x : Option ℤ) (t : Table env) (reply : Result (Option SecretMeta))
      → refusal now r ≡ some reply
      → patch_record env store now nonce k display_key v m x r version t ≡ abort reply
  unfolding refusal patch_record
  patch_record_refused display_key x t reply h = elim (Bool-cases (is_expired r now)) [
    | inl e ↦ rw e (ground (arith, h, e))
    | inr e ↦ elim (Bool-cases r.delete) [
      | inl d ↦ rw e (ground (arith, h, e, d))
      | inr d ↦ elim (Bool-cases (is_sealed r)) [
        | inl s ↦ ground (arith, h, e, d, s)
        | inr s ↦ ground (arith, h, e, d, s)
      ]
    ]
  ]

  patch_txn-Stored :
      (x : Option ℤ) (t : Table env) (text : Bytes)
      → Stored env store t k r version text
      → patch_txn env store now nonce k k v m x t
        ≡ patch_record env store now nonce k k v m x r version t
  unfolding patch_txn
  patch_txn-Stored x t text s = rw (s.at_key, patch_txn) (rw s.decodes)

-- A patch of a stored secret that has expired, that burns, or that is sealed replies so and changes
-- nothing.
pub patch_refused :
    (env : Env) (store : Store) (now : ℤ) (nonce k text : Bytes) (r : SecretRecord) (version : ℕ)
    (v : Option Bytes) (m ttl : Option ℕ) (db : Db env) (reply : Result (Option SecretMeta))
    → Stored env store db.secrets k r version text
    → refusal now r ≡ some reply
    → patch env store now nonce k v m ttl db ≡ (reply, db)
unfolding patch
patch_refused env store now nonce k text r version v m ttl db reply s h =
    rw
      (patch_txn-Stored env store now nonce k r version v m (map_option (deadline now) ttl)
          db.secrets text s
        ∙ patch_record_refused env store now nonce k r version v m k (map_option (deadline now) ttl)
            db.secrets reply h)
      refl

refusal-none :
    (now : ℤ) (r : SecretRecord)
    → refusal now r ≡ none
    → (is_expired r now ≡ false) × (r.delete ≡ false) × (is_sealed r ≡ false)
unfolding refusal
refusal-none now r h = ground arith

no_refusal :
    {A : Type 0} (a b c : Bool) (w x y z : A)
    → a ≡ false
    → b ≡ false
    → c ≡ false
    → (if a then w else if b then x else if c then y else z) ≡ z
no_refusal a b c w x y z e d s = rw e (rw d (rw s))

module _ (env : Env) (store : Store) (now : ℤ) (nonce k text : Bytes) (r : SecretRecord)
    (version : ℕ) (v : Option Bytes) (m : Option ℕ) where
  patch_record_accepted :
      (display_key : Bytes) (x : Option ℤ) (t : Table env)
      → refusal now r ≡ none
      → patch_record env store now nonce k display_key v m x r version t ≡ (
          encrypt_new env store nonce v >>= λ encrypted.
          encode env (patched env store encrypted m x r) version >>= λ b.
          commit
            (some (meta_of display_key (patched env store encrypted m x r)))
            (env.tables.insert t k b))
  unfolding patch_record
  patch_record_accepted display_key x t h =
      let (e, d, s) = refusal-none now r h in
      no_refusal (is_expired r now) r.delete (is_sealed r) _ _ _ _ e d s

-- The terms of a secret after a patch.
abbrev pub patched_terms : ℤ → Bytes → SecretRecord → Option Bytes → Option ℕ → Terms
patched_terms now text r v ttl = record {
  text = new_text v text;
  webhook_url = r.webhook_url;
  delete = r.delete;
  expires_at = or_old (map_option (deadline now) ttl) r.expires_at;
}

-- What a patched record has kept and what it has from the patch.
record IsPatched (env : Env) (store : Store) (text : Bytes) (r : SecretRecord) (v : Option Bytes)
    (m : Option ℕ) (x : Option ℤ) (r' : SecretRecord) : Type 0 where
  decrypts : decrypt env store.key r'.value_encrypted r'.nonce ≡ ok (new_text v text)
  webhook_url : r'.webhook_url ≡ r.webhook_url
  delete : r'.delete ≡ r.delete
  expires_at : r'.expires_at ≡ or_old x r.expires_at
  read_count : r'.read_count ≡ 0
  max_reads : r'.max_reads ≡ or_old m r.max_reads

-- The new value is encrypted, and what is stored then decrypts to it.
encrypt_new_lem :
    (env : Env) (store : Store) (nonce text : Bytes) (r : SecretRecord) (v : Option Bytes)
    (m : Option ℕ) (x : Option ℤ)
    → decrypt env store.key r.value_encrypted r.nonce ≡ ok text
    → (enc : Option (Bytes × Bytes)) × (encrypt_new env store nonce v ≡ ok enc)
      × IsPatched env store text r v m x (patched env store enc m x r)
encrypt_new_lem env store nonce text r none m x h = (
  none,
  refl,
  record {
    decrypts = h;
    webhook_url = refl;
    delete = refl;
    expires_at = refl;
    read_count = refl;
    max_reads = refl;
  },
)
encrypt_new_lem env store nonce text r (some plaintext) m x h =
    let (c, e, d) = decrypt-encrypt env store.key nonce plaintext in
    (
      some (c, nonce),
      rw (e, encrypt_new) refl,
      record {
        decrypts = d;
        webhook_url = refl;
        delete = refl;
        expires_at = refl;
        read_count = refl;
        max_reads = refl;
      },
    )

-- A patch of a stored secret that is not refused replies with its metadata and starts the secret
-- again: with the new text, read limit and deadline where they are given and the old ones where
-- not, and no read counted yet. The text is UTF-8, and the read limit is none or from 1 to below 2^32.
pub patch_accepted :
    (env : Env) (store : Store) (now : ℤ) (nonce k text : Bytes) (r : SecretRecord) (version : ℕ)
    (v : Option Bytes) (m ttl : Option ℕ) (db : Db env)
    → Stored env store db.secrets k r version text
    → refusal now r ≡ none
    → from_utf8 (new_text v text) ≡ some (new_text v text)
    → IsLimit (or_old m r.max_reads)
    → ((shown : SecretMeta) × ((patch env store now nonce k v m ttl db).0 ≡ ok (some shown))
        × (shown.key ≡ k)
        × (shown.read_count ≡ 0)
        × (shown.max_reads ≡ or_old m r.max_reads)
        × (shown.expires_at ≡ or_old (map_option (deadline now) ttl) r.expires_at))
      × InPhase env store
          (patch env store now nonce k v m ttl db).1.secrets
          k
          (patched_terms now text r v ttl)
          (live (or_old m r.max_reads))
unfolding patch InPhase
patch_accepted env store now nonce k text r version v m ttl db s h u fits =
    let x : Option ℤ = map_option (deadline now) ttl in
    let (enc, e, p) = encrypt_new_lem env store nonce text r v m x s.decrypts in
    let r' : SecretRecord = patched env store enc m x r in
    let (b, encoded, decoded) = decode-encode env r' version in
    let step : patch_txn env store now nonce k k v m x db.secrets
        ≡ commit (some (meta_of k r')) (env.tables.insert db.secrets k b) =
      patch_txn-Stored env store now nonce k r version v m x db.secrets text s
      ∙ patch_record_accepted env store now nonce k text r version v m k x db.secrets h
      ∙ rw e (rw encoded refl) in
    (
      (meta_of k r', rw step refl, refl, p.read_count, p.max_reads, p.expires_at),
      (
        r',
        version,
        rw step (
            insert-Stored env store db.secrets k r' version (new_text v text) b decoded p.decrypts
              u),
        record { webhook_url = p.webhook_url; delete = p.delete; expires_at = p.expires_at },
        fresh-ReadsLeft r' (or_old m r.max_reads) p.read_count p.max_reads fits,
      ),
    )
