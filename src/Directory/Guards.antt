-- ===== src/Directory/Guards.antt =====
-- crates/sirr-server/src/store/db.rs: the checks in front of the deletion of an organisation, a principal
-- and a role.
use sirr.Prelude.{
  ℤ, Bool, true, Option, none, some, List, [], ◌∷◌, ◌≡◌, refl, ◌∙◌, sym, any, arith, if◌then◌else◌,
  ltb_ℤ, lt→ltb, ◌<ℤ◌, Bool-cases, inl, inr,
}
use sirr.Text.{Bytes, bytes_eq, bytes_eq_iff, starts_with, join_colon, starts_with-join_self}
use sirr.Result.{
  Result, Error, is_err, elim-is_err, is_err-bind, ok, err, still_has_principals, has_active_keys,
}
use sirr.Records.{PrincipalRecord, PrincipalKeyRecord}
use sirr.External.Keys.{bytes_key}
use sirr.External.Tables.{lookup}
use sirr.Database.{Env, Db}
use sirr.Directory.{get_decoded, get_decoded-some}
use sirr.Directory.Orgs.{delete_org}
use sirr.Directory.Principals.{get_principal, check_no_active_keys, delete_principal}
use sirr.Directory.PrincipalKeys.{find_principal_key_by_hash}
use sirr.Directory.Roles.{check_unused, delete_role}

any-lookup :
    (p : Bytes → Bool) (k b : Bytes) (entries : List (Bytes × Bytes))
    → p k ≡ true
    → lookup bytes_key k entries ≡ some b
    → any (λ e. p e.0) entries ≡ true
unfolding lookup
any-lookup p k b [] h e = ground (arith, e)
any-lookup p k b ((j, c) ∷ entries) h e =
    ground (arith, any-lookup p k b entries h, bytes_eq_iff j k, e, h)

-- An organisation with a principal is not deleted.
pub delete_org_guarded :
    (env : Env) (org_id principal_id : Bytes) (p : PrincipalRecord) (db : Db env)
    → get_principal env org_id principal_id db ≡ ok (some p)
    → delete_org env org_id db ≡ (err (still_has_principals org_id), db)
unfolding get_principal delete_org
delete_org_guarded env org_id principal_id p db h =
    let (b, e, _) =
      get_decoded-some env env.principal_codec db.principals (join_colon org_id principal_id) h in
    rw
      (any-lookup (λ k. starts_with k (join_colon org_id [])) (join_colon org_id principal_id) b
        (env.tables.iter db.principals) (starts_with-join_self org_id principal_id)
        (sym (env.tables.get-iter db.principals (join_colon org_id principal_id)) ∙ e))
      refl

-- The check of a role that a principal has finds an error.
check_unused_lem :
    (env : Env) (oid name k b : Bytes) (p : PrincipalRecord) (entries : List (Bytes × Bytes))
    → lookup bytes_key k entries ≡ some b
    → starts_with k (join_colon oid []) ≡ true
    → env.principal_codec.decode b ≡ ok p
    → p.role ≡ name
    → is_err (check_unused env oid name entries) ≡ true
unfolding lookup check_unused
check_unused_lem env oid name k b p [] f s dec r = ground (arith, f)
check_unused_lem env oid name k b p ((j, c) ∷ entries) f s dec r =
    elim (Bool-cases (bytes_eq j k)) [
      | inl same ↦ ground (arith, f, same, s, dec, r, bytes_eq_iff j k, bytes_eq_iff p.role name)
      | inr other ↦
          let ih = check_unused_lem env oid name k b p entries (ground (arith, f, other)) s dec r in
          elim (Bool-cases (starts_with j (join_colon oid []))) [
            | inr u ↦ rw u ih
            | inl u ↦ rw u (
                is_err-bind (env.principal_codec.decode c) _ (λ q _.
                  elim (Bool-cases (bytes_eq q.role name)) [
                    | inl used ↦ rw used refl
                    | inr unused ↦ rw unused ih
                  ]))
          ]
    ]

-- A role that a principal of the organisation has is not deleted.
pub delete_role_guarded :
    (env : Env) (org_id principal_id : Bytes) (p : PrincipalRecord) (db : Db env)
    → get_principal env org_id principal_id db ≡ ok (some p)
    → (e : Error) × (delete_role env (some org_id) p.role db ≡ (err e, db))
unfolding get_principal delete_role
delete_role_guarded env org_id principal_id p db h =
    let k : Bytes = join_colon org_id principal_id in
    let (b, at, dec) = get_decoded-some env env.principal_codec db.principals k h in
    elim-is_err (check_unused env org_id p.role (env.tables.iter db.principals)) _ db (
      check_unused_lem env org_id p.role k b p (env.tables.iter db.principals)
        (sym (env.tables.get-iter db.principals k) ∙ at) (starts_with-join_self org_id principal_id)
        dec refl)

-- The check of the keys of a principal finds an error if one of them is still valid.
check_no_active_keys_lem :
    (env : Env) (now : ℤ) (principal_id k hash : Bytes) (key : PrincipalKeyRecord)
    (t : env.tables.Table) (entries : List (Bytes × Bytes))
    → lookup bytes_key k entries ≡ some hash
    → starts_with k (join_colon principal_id []) ≡ true
    → get_decoded env env.key_codec t hash ≡ ok (some key)
    → ltb_ℤ now key.valid_before ≡ true
    → is_err (check_no_active_keys env now principal_id t entries) ≡ true
unfolding lookup check_no_active_keys
check_no_active_keys_lem env now principal_id k hash key t [] f s found valid = ground (arith, f)
check_no_active_keys_lem env now principal_id k hash key t ((j, c) ∷ entries) f s found valid =
    elim (Bool-cases (bytes_eq j k)) [
      | inl same ↦ ground (arith, f, same, s, found, valid, bytes_eq_iff j k)
      | inr other ↦
          let ih =
            check_no_active_keys_lem env now principal_id k hash key t entries
              (ground (arith, f, other)) s found valid in
          elim (Bool-cases (starts_with j (join_colon principal_id []))) [
            | inr u ↦ rw u ih
            | inl u ↦
                rw u (is_err-bind (get_decoded env env.key_codec t c) _ (λ o _. passes _ ih o))
          ]
    ]
  where
    passes :
        (rest : Result (Unit {0}))
        → is_err rest ≡ true
        → (o : Option PrincipalKeyRecord)
        → is_err (elim o [
          | none ↦ rest
          | some r ↦ if ltb_ℤ now r.valid_before then err (has_active_keys principal_id) else rest
        ])
          ≡ true
    passes rest h none = h
    passes rest h (some r) = ground (arith, h)

-- A principal is not deleted while one of its keys in the index is valid.
pub delete_principal_guarded :
    (env : Env) (now : ℤ) (org_id principal_id key_id hash : Bytes) (key : PrincipalKeyRecord)
    (db : Db env)
    → env.tables.get db.principal_key_ix (join_colon principal_id key_id) ≡ some hash
    → find_principal_key_by_hash env hash db ≡ ok (some key)
    → now <ℤ key.valid_before
    → (e : Error) × (delete_principal env now org_id principal_id db ≡ (err e, db))
unfolding find_principal_key_by_hash delete_principal
delete_principal_guarded env now org_id principal_id key_id hash key db at found valid =
    let k : Bytes = join_colon principal_id key_id in
    elim-is_err
      (check_no_active_keys env now principal_id db.principal_keys
        (env.tables.iter db.principal_key_ix))
      _ db
      (check_no_active_keys_lem env now principal_id k hash key db.principal_keys
        (env.tables.iter db.principal_key_ix) (sym (env.tables.get-iter db.principal_key_ix k) ∙ at)
        (starts_with-join_self principal_id key_id) found (lt→ltb _ _ valid))
