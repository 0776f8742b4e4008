-- ===== src/OrgHandlers/Secrets/Mine.antt =====
-- crates/sirr-server/src/org_handlers.rs, `list_org_secrets`: whose secrets are listed.
use sirr.Prelude.{
  ℤ, true, false, not, none, some, List, [], ◌∷◌, All, ◌≡◌, refl, sym, ap, ◌∙◌, subst, arith,
  Bool-cases, Option-cases, inl, inr, length, drop, else_eq, if◌then◌else◌,
}
use sirr.Text.{Bytes, bytes_eq_iff, starts_with}
use sirr.Result.{Result, ok, err, >>=-eq-ok, ok_injective}
use sirr.Permissions.{has, list_org, list_my}
use sirr.Records.{SecretRecord, SecretMeta, meta_of, is_expired}
use sirr.Database.{Env, Db}
use sirr.RecordFormat.{decode}
use sirr.OrgSecrets.{org_prefix}
use sirr.OrgSecrets.Scan.{is_owned, list_org_entries, list_org_secrets}
use sirr.Auth.{Principal, principal, auth_has}
use sirr.OrgHandlers.{Caller, Reply, shown_secrets, reject_if, forbidden, in_org}
use sirr.OrgHandlers.Checks.{is_refusal, Refuses-reject_if, answered_lem}
use sirr.OrgHandlers.Secrets.{owner_filter, answer_list, list_filtered, list_secrets}

is_owned_lem :
    (env : Env) (owner : Bytes) (r : SecretRecord)
    → is_owned env (some owner) r ≡ true
    → r.owner_id ≡ some owner
unfolding is_owned
is_owned_lem env owner r h = elim (Option-cases r.owner_id) [
  | inl n ↦ absurd (ground (arith, h, n))
  | inr (o, s) ↦ s ∙ ap some ((bytes_eq_iff o owner).0 (ground (arith, h, s)))
]

abbrev pub IsMine : Bytes → SecretMeta → Type 0
IsMine owner m = m.owner_id ≡ some owner

module _ (env : Env) (now : ℤ) (prefix owner : Bytes) where
  kept-IsMine :
      (k : Bytes) (r : SecretRecord) (metas : List SecretMeta)
      → All (IsMine owner) metas
      → All (IsMine owner) (
          if is_expired r now
          then metas
          else if is_owned env (some owner) r
          then meta_of (drop (length prefix) k) r ∷ metas
          else metas)
  kept-IsMine k r metas h = elim (Bool-cases (is_expired r now)) [
    | inl e ↦ rw e h
    | inr e ↦ elim (Bool-cases (is_owned env (some owner) r)) [
      | inl o ↦ rw e (rw o (is_owned_lem env owner r o, h))
      | inr o ↦ rw e (rw o h)
    ]
  ]

  list_org_entries-IsMine :
      (entries : List (Bytes × Bytes)) (metas : List SecretMeta)
      → list_org_entries env now prefix (some owner) entries ≡ ok metas
      → All (IsMine owner) metas
  unfolding list_org_entries
  list_org_entries-IsMine [] metas h = subst (All (IsMine owner)) (ok_injective h) tt
  list_org_entries-IsMine ((k, bytes) ∷ entries) metas h =
      elim (Bool-cases (starts_with k prefix)) [
        | inl s ↦
            let (d, dec, h') = >>=-eq-ok (decode env bytes) _ (else_eq _ (ap not s) h) in
            let (rest, found, h'') =
              >>=-eq-ok (list_org_entries env now prefix (some owner) entries) _ h' in
            subst (All (IsMine owner)) (ok_injective h'')
              (kept-IsMine k d.0 rest (list_org_entries-IsMine entries rest found))
        | inr s ↦ list_org_entries-IsMine entries metas (ground (arith, h, s))
      ]

shown_injective : {ms ns : List SecretMeta} → shown_secrets ms ≡ shown_secrets ns → ms ≡ ns
shown_injective e = cc

module _ (env : Env) where
  answer_list_lem :
      (caller : Caller) (org_id : Bytes) (r : Result (List SecretMeta)) (db : Db env)
      (metas : List SecretMeta)
      → (answer_list env caller org_id r db).0 ≡ shown_secrets metas
      → r ≡ ok metas
  unfolding answer_list
  answer_list_lem caller org_id (ok ms) db metas h = ap ok (shown_injective h)
  answer_list_lem caller org_id (err e) db metas h = absurd (ground (arith, h))

  -- A principal without the permission for all secrets of its organisation is shown a list of secrets
  -- only with the permission for its own, and each secret in the list is its own.
  pub list_secrets-IsMine :
      (caller : Caller) (now : ℤ) (org_id : Bytes) (p : Principal) (db : Db env)
      (metas : List SecretMeta)
      → caller.auth ≡ principal p
      → has p.permissions list_org ≡ false
      → (list_secrets env caller now org_id db).0 ≡ shown_secrets metas
      → (has p.permissions list_my ≡ true) × All (IsMine p.principal_id) metas
  unfolding list_secrets list_filtered owner_filter auth_has list_org_secrets is_refusal
  list_secrets-IsMine caller now org_id p db metas e no_org h =
      let (passed, same) =
        answered_lem (reject_if (not (in_org caller.auth org_id)) forbidden) (λ r. (r, db))
          (list_filtered env caller now org_id (owner_filter env caller.auth) db)
          (λ (a : Reply × Db env). a.0) (λ r. refl) (Refuses-reject_if _ _ refl)
          (ap is_refusal h) in
      let h' = sym (ap (λ (a : Reply × Db env). a.0) same) ∙ h in
      elim (Bool-cases (has p.permissions list_my)) [
        | inl m ↦ (
          m,
          list_org_entries-IsMine env now (org_prefix org_id) p.principal_id
              (env.tables.iter db.secrets) metas
              (answer_list_lem caller org_id _ db metas
                (sym (ap (λ o. (list_filtered env caller now org_id o db).0) (filtered m)) ∙ h')),
        )
        | inr n ↦ absurd (
            ground (
              arith,
              sym (ap (λ o. (list_filtered env caller now org_id o db).0) (nothing n)) ∙ h',
            ))
      ]
    where
      filtered :
          has p.permissions list_my ≡ true
          → owner_filter env caller.auth ≡ some (some p.principal_id)
      filtered m = rw e (rw no_org (rw m refl))

      nothing : has p.permissions list_my ≡ false → owner_filter env caller.auth ≡ none
      nothing n = rw e (rw no_org (rw n refl))
