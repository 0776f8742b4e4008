-- ===== src/OrgSecrets/Pruning.antt =====
-- crates/sirr-server/src/store/db.rs: what `list_org_secrets` shows and `prune_org_secrets` removes.
use sirr.Prelude.{
  ℕ, ℤ, Bool, true, false, not, ◌&&◌, Option, none, some, List, [], ◌∷◌, ◌≡◌, refl, sym, subst, ap,
  ◌∙◌, All, Ascending, if◌then◌else◌, Bool-cases, else_eq, inl, inr, arith, drop, length, map,
}
use mathlib.Core.List.{append_assoc}
use sirr.Text.{Bytes, bytes_eq_iff, starts_with, join_colon, colon, append_of_starts_with}
use sirr.Result.{ok, >>=-eq-ok, ok_injective}
use sirr.Records.{SecretRecord, SecretMeta, meta_of, is_expired, is_sealed}
use sirr.External.Keys.{bytes_key, bytes_lt}
use sirr.External.Tables.{lookup, lookup_above, keys}
use sirr.Database.{Env, Db}
use sirr.RecordFormat.{decode}
use sirr.Secrets.Scan.{is_prunable}
use sirr.Secrets.Frames.{IsWellFormed}
use sirr.Secrets.Pruning.{
  elem, prunable_entry, prunable_at, prunable_bytes, get-remove_all, Decodes, entries-Decodes,
  secrets-remove_keys,
}
use sirr.Secrets.Listing.{iter-get, head-unexpired}
use sirr.OrgSecrets.{org_secret_key, org_prefix, head_org_secret}
use sirr.OrgSecrets.Scan.{
  is_owned, list_org_entries, list_org_secrets, prunable_org_keys, prune_org_secrets,
}

-- A key under the prefix is that of the text behind it.
org_key_of :
    (org_id k : Bytes)
    → starts_with k (org_prefix org_id) ≡ true
    → join_colon org_id (drop (length (org_prefix org_id)) k) ≡ k
unfolding org_prefix join_colon
org_key_of org_id k h =
    sym (append_assoc org_id (colon ∷ []) (drop (length (org_prefix org_id)) k))
    ∙ sym (append_of_starts_with k (org_prefix org_id) h)

module _ (env : Env) (now : ℤ) (org_id : Bytes) where
  -- The listed metadata is what `head_org_secret` answers under its key.
  abbrev Shown : Db env → SecretMeta → Type 0
  Shown db m = (s : Bool) × (head_org_secret env now org_id m.key db ≡ ok (some (m, s)))

  Shown-entry :
      (k b : Bytes) (d : SecretRecord × ℕ) (db : Db env)
      → env.tables.get db.secrets k ≡ some b
      → decode env b ≡ ok d
      → starts_with k (org_prefix org_id) ≡ true
      → is_expired d.0 now ≡ false
      → Shown db (meta_of (drop (length (org_prefix org_id)) k) d.0)
  unfolding head_org_secret org_secret_key
  Shown-entry k b d db e dec s x =
      let shown = drop (length (org_prefix org_id)) k in
      (is_sealed d.0, rw (org_key_of org_id k s) (head-unexpired env now k shown b d db e dec x))

  list_org_entries-Shown :
      (db : Db env) (owner : Option Bytes) (entries : List (Bytes × Bytes))
      (metas : List SecretMeta)
      → All (λ e. env.tables.get db.secrets e.0 ≡ some e.1) entries
      → list_org_entries env now (org_prefix org_id) owner entries ≡ ok metas
      → All (Shown db) metas
  unfolding list_org_entries
  list_org_entries-Shown db owner [] metas h e = subst (All (Shown db)) (ok_injective e) tt
  list_org_entries-Shown db owner ((k, b) ∷ entries) metas h e =
      elim (Bool-cases (starts_with k (org_prefix org_id))) [
        | inr s ↦ list_org_entries-Shown db owner entries metas h.1 (ground (arith, e, s))
        | inl s ↦
            let (d, dec, e') = >>=-eq-ok (decode env b) _ (else_eq _ (ap not s) e) in
            let (ms, rest, e'') =
              >>=-eq-ok (list_org_entries env now (org_prefix org_id) owner entries) _ e' in
            let ih = list_org_entries-Shown db owner entries ms h.1 rest in
            subst (All (Shown db)) (ok_injective e'') (elim (Bool-cases (is_expired d.0 now)) [
              | inl x ↦ rw x ih
              | inr x ↦ elim (Bool-cases (is_owned env owner d.0)) [
                | inl o ↦ rw x (rw o (Shown-entry k b d db h.0 dec s x, ih))
                | inr o ↦ rw x (rw o ih)
              ]
            ])
      ]

  elem-prunable_org_keys :
      (prefix : Bytes) (entries : List (Bytes × Bytes)) (ks : List Bytes) (j : Bytes)
      → Ascending (λ a b. bytes_lt a b ≡ true) (keys entries)
      → prunable_org_keys env now prefix entries ≡ ok ks
      → elem j ks ≡ (starts_with j prefix && prunable_entry env now (lookup bytes_key j entries))
  unfolding prunable_org_keys lookup prunable_entry prunable_bytes
  elem-prunable_org_keys prefix [] ks j asc h = ground arith
  elem-prunable_org_keys prefix ((k, b) ∷ entries) ks j asc h =
      elim (Bool-cases (starts_with k prefix)) [
        | inr s ↦ ground (
          arith,
          s,
          elem-prunable_org_keys prefix entries ks j asc.1 (ground (arith, h, s)),
          bytes_eq_iff k j,
        )
        | inl s ↦
            let (d, dec, h') = >>=-eq-ok (decode env b) _ (else_eq _ (ap not s) h) in
            let (ks', rest, h'') = >>=-eq-ok (prunable_org_keys env now prefix entries) _ h' in
            ground (
              arith,
              dec,
              s,
              h'',
              elem-prunable_org_keys prefix entries ks' j asc.1 rest,
              bytes_eq_iff k j,
              lookup_above bytes_key k entries asc.0,
            )
      ]

  prunable_org_keys_total :
      (prefix : Bytes) (entries : List (Bytes × Bytes))
      → All (λ e. Decodes env e.1) entries
      → (ks : List Bytes) × (prunable_org_keys env now prefix entries ≡ ok ks)
  unfolding prunable_org_keys
  prunable_org_keys_total prefix [] h = ([], refl)
  prunable_org_keys_total prefix ((k, b) ∷ entries) ((r, version, dec), h) =
      let (ks, e) = prunable_org_keys_total prefix entries h in
      elim (Bool-cases (starts_with k prefix)) [
        | inl s ↦ (if is_prunable now r then k ∷ ks else ks, rw s (rw dec (rw e)))
        | inr s ↦ (ks, rw s e)
      ]

-- Every secret of an organisation that `list_org_secrets` shows, for whichever owner, is shown by
-- `head_org_secret` under its key, with the same metadata.
pub list_org-Shown :
    (env : Env) (now : ℤ) (org_id : Bytes) (owner : Option Bytes) (db : Db env)
    (metas : List SecretMeta)
    → list_org_secrets env now org_id owner db ≡ ok metas
    → All (λ m. (s : Bool) × (head_org_secret env now org_id m.key db ≡ ok (some (m, s)))) metas
unfolding list_org_secrets
list_org-Shown env now org_id owner db metas e =
    list_org_entries-Shown env now org_id db owner (env.tables.iter db.secrets) metas
      (iter-get env db.secrets) e

-- On a table whose entries all decode, a prune of an organisation succeeds, removes exactly the
-- expired and the burned records under its prefix, and returns their keys without the prefix.
pub prune_org_lem :
    (env : Env) (now : ℤ) (org_id : Bytes) (db : Db env)
    → IsWellFormed env db.secrets
    → (ks : List Bytes) × ((prune_org_secrets env now org_id db).0
        ≡ ok (map (drop (length (org_prefix org_id))) ks))
      × ((j : Bytes)
          → elem j ks ≡ (starts_with j (org_prefix org_id) && prunable_at env now db.secrets j))
      × ((j : Bytes)
          → env.tables.get (prune_org_secrets env now org_id db).1.secrets j ≡ (
              if starts_with j (org_prefix org_id) && prunable_at env now db.secrets j
              then none
              else env.tables.get db.secrets j))
unfolding prune_org_secrets prunable_at
prune_org_lem env now org_id db h = (ks, rw (e, prune_org_secrets), members, kept)
  where
    total :
        (ks : List Bytes) × (prunable_org_keys env now
            (org_prefix org_id)
            (env.tables.iter db.secrets)
          ≡ ok ks)
    total =
        prunable_org_keys_total env now org_id (org_prefix org_id) (env.tables.iter db.secrets)
          (entries-Decodes env db.secrets h)

    ks : List Bytes
    ks = total.0

    e : prunable_org_keys env now (org_prefix org_id) (env.tables.iter db.secrets) ≡ ok ks
    e = total.1

    members :
        (j : Bytes)
        → elem j ks ≡ (starts_with j (org_prefix org_id) && prunable_at env now db.secrets j)
    members j =
        elem-prunable_org_keys env now org_id (org_prefix org_id) (env.tables.iter db.secrets) ks j
          (env.tables.iter-Ascending db.secrets) e
        ∙ ap (λ o. starts_with j (org_prefix org_id) && prunable_entry env now o)
            (sym (env.tables.get-iter db.secrets j))

    kept :
        (j : Bytes)
        → env.tables.get (prune_org_secrets env now org_id db).1.secrets j ≡ (
            if starts_with j (org_prefix org_id) && prunable_at env now db.secrets j
            then none
            else env.tables.get db.secrets j)
    kept j =
        rw (e, prune_org_secrets)
          (rw secrets-remove_keys (get-remove_all env ks db.secrets j ∙ rw (members j)))
