-- ===== src/Bootstrap/Access.antt =====
-- crates/sirr-server/src/server.rs, `auto_init_bootstrap`, beside crates/sirr-server/src/auth.rs.
use sirr.Prelude.{
  ℤ, pos, ◌+i64◌, ◌++◌, true, false, not, Option, some, List, [], ◌∷◌, ◌≡◌, ◌≢◌, refl, sym, ap, ◌∙◌,
  ◌≤ℤ◌, ◌<ℤ◌, arith, is_empty, else_eq,
}
use sirr.Text.{Bytes, codes, no_colon, starts_with, bytes_eq, bytes_eq_iff, strip_prefix-append}
use sirr.Result.{Result, ok, err, >>=-eq-ok, ok_injective}
use sirr.Permissions.{Permissions}
use sirr.Records.{OrgRecord, PrincipalRecord, PrincipalKeyRecord}
use sirr.External.Keys.{bytes_key}
use sirr.External.Tables.{lookup, get-insert_self}
use sirr.Database.{Env, Db}
use sirr.Directory.{decode_under, get_decoded-insert}
use sirr.Directory.Orgs.{put_org, list_orgs}
use sirr.Directory.Principals.{put_principal, get_principal}
use sirr.Directory.PrincipalKeys.{put_principal_key, find_principal_key_by_hash}
use sirr.Directory.Revocation.{get-put_principal, find-put_principal_key}
use sirr.Auth.{Tokens, principal, proceed, bearer_token, identity, require_auth, role_permissions}
use sirr.OrgHandlers.Keys.{
  recognised, found_key_eq, found_principal_eq, found_principal-same, role_permissions-same,
}
use sirr.Bootstrap.{
  Draws, default_org, admin_principal, bootstrap_key, temporary_key, and_then, create_default,
  if_no_orgs, auto_init_bootstrap,
}

starts_with-nil : (s : Bytes) → starts_with s [] ≡ true
unfolding starts_with
starts_with-nil [] = refl
starts_with-nil (c ∷ s) = refl

and_then_ok :
    {A B Db : Type 0} (r : Result A × Db) (next : Db → Result B × Db) (a : A)
    → r.0 ≡ ok a
    → and_then r next ≡ next r.1
and_then_ok (ok b, db) next a h = refl
and_then_ok (err e, db) next a h = absurd (ground (arith, h))

module _ (env : Env) where
  put_org-ok : (org : OrgRecord) (db : Db env) → (put_org env org db).0 ≡ ok tt
  unfolding put_org
  put_org-ok org db =
      let (bytes, enc, _, _) = env.org_codec.round_trip org in rw (enc, put_org) refl

  put_principal-ok : (p : PrincipalRecord) (db : Db env) → (put_principal env p db).0 ≡ ok tt
  unfolding put_principal
  put_principal-ok p db =
      let (bytes, enc, _, _) = env.principal_codec.round_trip p in rw (enc, put_principal) refl

  put_principal_key-ok :
      (k : PrincipalKeyRecord) (db : Db env) → (put_principal_key env k db).0 ≡ ok tt
  unfolding put_principal_key
  put_principal_key-ok k db =
      let (bytes, enc, _, _) = env.key_codec.round_trip k in rw (enc, put_principal_key) refl

  put_principal_key-principals :
      (k : PrincipalKeyRecord) (db : Db env)
      → (put_principal_key env k db).1.principals ≡ db.principals
  unfolding put_principal_key
  put_principal_key-principals k db = ground arith

  put_principal_key-roles :
      (k : PrincipalKeyRecord) (db : Db env) → (put_principal_key env k db).1.roles ≡ db.roles
  unfolding put_principal_key
  put_principal_key-roles k db = ground arith

  put_principal_key-orgs :
      (k : PrincipalKeyRecord) (db : Db env) → (put_principal_key env k db).1.orgs ≡ db.orgs
  unfolding put_principal_key
  put_principal_key-orgs k db = ground arith

  put_principal-roles :
      (p : PrincipalRecord) (db : Db env) → (put_principal env p db).1.roles ≡ db.roles
  unfolding put_principal
  put_principal-roles p db = ground arith

  put_principal-orgs :
      (p : PrincipalRecord) (db : Db env) → (put_principal env p db).1.orgs ≡ db.orgs
  unfolding put_principal
  put_principal-orgs p db = ground arith

  put_org-roles : (org : OrgRecord) (db : Db env) → (put_org env org db).1.roles ≡ db.roles
  unfolding put_org
  put_org-roles org db = ground arith

  put_org-found :
      (org : OrgRecord) (db : Db env)
      → (b : Bytes) × (env.tables.get (put_org env org db).1.orgs org.id ≡ some b)
  unfolding put_org
  put_org-found org db =
      let (bytes, enc, _, _) = env.org_codec.round_trip org in
      (bytes, rw (enc, put_org) (get-insert_self env.tables db.orgs org.id bytes))

  -- Another key that is stored hides none.
  find-put_other :
      (k : PrincipalKeyRecord) (hash : Bytes) (db : Db env)
      → k.key_hash ≢ hash
      → find_principal_key_by_hash env hash (put_principal_key env k db).1
        ≡ find_principal_key_by_hash env hash db
  unfolding find_principal_key_by_hash put_principal_key
  find-put_other k hash db ne =
      let (bytes, enc, dec, _) = env.key_codec.round_trip k in
      rw (enc, put_principal_key)
        (get_decoded-insert env env.key_codec db.principal_keys k.key_hash hash bytes k dec
          ∙ rw (different (bytes_eq_iff k.key_hash hash)) refl)
    where
      different :
          ((bytes_eq k.key_hash hash ≡ true) → k.key_hash ≡ hash)
            × (k.key_hash ≡ hash → bytes_eq k.key_hash hash ≡ true)
          → bytes_eq k.key_hash hash ≡ false
      different (f, g) = ground (arith, f, ne)

module _ (tokens : Tokens) (env : Env) (now : ℤ) (draws : Draws) (db : Db env) where
  abbrev key1 : PrincipalKeyRecord
  key1 = temporary_key tokens now draws (codes "bootstrap-key-1") draws.first

  abbrev key2 : PrincipalKeyRecord
  key2 = temporary_key tokens now draws (codes "bootstrap-key-2") draws.second

  abbrev db2 : Db env
  db2 = (put_principal env (admin_principal now draws) (put_org env (default_org now draws) db).1).1

  abbrev db3 : Db env
  db3 = (put_principal_key env key1 db2).1

  abbrev db4 : Db env
  db4 = (put_principal_key env key2 db3).1

  create_default_lem : (create_default tokens env now draws db).1 ≡ db4
  unfolding create_default
  create_default_lem =
      ap (λ (r : Result (List (Bytes × Bytes)) × Db env). r.1)
        (and_then_ok (put_org env (default_org now draws) db) _ tt
            (put_org-ok env (default_org now draws) db)
          ∙ and_then_ok
              (put_principal env (admin_principal now draws)
                (put_org env (default_org now draws) db).1)
              _ tt (put_principal-ok env (admin_principal now draws) _)
          ∙ and_then_ok (put_principal_key env key1 db2) _ tt (put_principal_key-ok env key1 db2)
          ∙ and_then_ok (put_principal_key env key2 db3) _ tt (put_principal_key-ok env key2 db3))

  bootstrap_lem : list_orgs env db ≡ ok [] → (auto_init_bootstrap tokens env now draws db).1 ≡ db4
  unfolding auto_init_bootstrap if_no_orgs
  bootstrap_lem e = rw (e, if_no_orgs) create_default_lem

  admin_found :
      no_colon draws.org_id ≡ true
      → get_principal env draws.org_id draws.principal_id db2
        ≡ ok (some (admin_principal now draws))
  admin_found plain =
      get-put_principal env (admin_principal now draws) draws.org_id draws.principal_id _ plain
        plain
      ∙ rw ((bytes_eq_iff draws.org_id draws.org_id).1 refl)
          (rw ((bytes_eq_iff draws.principal_id draws.principal_id).1 refl) refl)

  db4-principals : db4.principals ≡ db2.principals
  db4-principals =
      put_principal_key-principals env key2 db3 ∙ put_principal_key-principals env key1 db2

  db4-roles : db4.roles ≡ db.roles
  db4-roles =
      put_principal_key-roles env key2 db3
      ∙ put_principal_key-roles env key1 db2
      ∙ put_principal-roles env (admin_principal now draws) _
      ∙ put_org-roles env (default_org now draws) db

  db4-orgs : db4.orgs ≡ (put_org env (default_org now draws) db).1.orgs
  db4-orgs =
      put_principal_key-orgs env key2 db3
      ∙ put_principal_key-orgs env key1 db2
      ∙ put_principal-orgs env (admin_principal now draws) _

  -- One of the two keys is found.
  key_recognised :
      (later : ℤ) (api_key : Option Bytes) (name : Bytes) (draw : Bytes × Bytes)
      (granted : Permissions)
      → no_colon draws.org_id ≡ true
      → role_permissions tokens env draws.org_id (codes "admin") db ≡ some granted
      → api_key ≢ some (bootstrap_key draw.1)
      → now ≤ℤ later
      → later <ℤ now +i64 pos 1800
      → find_principal_key_by_hash env (tokens.sha256 (bootstrap_key draw.1)) db4
        ≡ ok (some (temporary_key tokens now draws name draw))
      → require_auth tokens env later api_key (some (codes "Bearer " ++ bootstrap_key draw.1)) db4
        ≡ proceed (principal (identity (temporary_key tokens now draws name draw) granted))
  unfolding bearer_token
  key_recognised later api_key name draw granted plain role ne begun valid found =
      let k : PrincipalKeyRecord = temporary_key tokens now draws name draw in
      recognised tokens env later api_key (some (codes "Bearer " ++ bootstrap_key draw.1))
        (bootstrap_key draw.1) k (admin_principal now draws) granted db4
        (strip_prefix-append (codes "Bearer ") (bootstrap_key draw.1)) ne
        (found_key_eq tokens env (bootstrap_key draw.1) k db4 found) begun valid
        (found_principal-same tokens env db2 db4 db4-principals k
          ∙ found_principal_eq tokens env k (admin_principal now draws) db2 (admin_found plain))
        (role_permissions-same tokens env db db4 db4-roles draws.org_id (codes "admin") ∙ role)

module _ (tokens : Tokens) (env : Env) where
  -- Where there is no organisation yet and the role "admin" has permissions, both keys that the
  -- bootstrap draws let the new principal in with these permissions for half an hour. The two keys
  -- have different hashes, neither is the configured key, and the new name has no colon.
  pub bootstrap_lets_in :
      (now later : ℤ) (draws : Draws) (granted : Permissions) (api_key : Option Bytes) (db : Db env)
      → list_orgs env db ≡ ok []
      → role_permissions tokens env draws.org_id (codes "admin") db ≡ some granted
      → no_colon draws.org_id ≡ true
      → tokens.sha256 (bootstrap_key draws.second.1) ≢ tokens.sha256 (bootstrap_key draws.first.1)
      → api_key ≢ some (bootstrap_key draws.first.1)
      → api_key ≢ some (bootstrap_key draws.second.1)
      → now ≤ℤ later
      → later <ℤ now +i64 pos 1800
      → (require_auth tokens env later api_key
            (some (codes "Bearer " ++ bootstrap_key draws.first.1))
            (auto_init_bootstrap tokens env now draws db).1
          ≡ proceed (
              principal (
                identity
                  (temporary_key tokens now draws (codes "bootstrap-key-1") draws.first)
                  granted)))
        × (require_auth tokens env later api_key
              (some (codes "Bearer " ++ bootstrap_key draws.second.1))
              (auto_init_bootstrap tokens env now draws db).1
            ≡ proceed (
                principal (
                  identity
                    (temporary_key tokens now draws (codes "bootstrap-key-2") draws.second)
                    granted)))
  bootstrap_lets_in now later draws granted api_key db none_yet role plain differ ne1 ne2 begun
        valid =
      let same = bootstrap_lem tokens env now draws db none_yet in
      (
        rw same (
            key_recognised tokens env now draws db later api_key (codes "bootstrap-key-1")
              draws.first granted plain role ne1 begun valid
              (find-put_other env (key2 tokens env now draws db)
                  (tokens.sha256 (bootstrap_key draws.first.1)) (db3 tokens env now draws db) differ
                ∙ (find-put_principal_key env (key1 tokens env now draws db)
                    (db2 tokens env now draws db)).0)),
        rw same (
            key_recognised tokens env now draws db later api_key (codes "bootstrap-key-2")
              draws.second granted plain role ne2 begun valid
              (find-put_principal_key env (key2 tokens env now draws db)
                (db3 tokens env now draws db)).0),
      )

  has_entry :
      (entries : List (Bytes × Bytes)) (rs : List OrgRecord) (k b : Bytes)
      → lookup bytes_key k entries ≡ some b
      → decode_under env env.org_codec [] entries ≡ ok rs
      → is_empty rs ≡ false
  unfolding decode_under lookup
  has_entry [] rs k b h d = absurd (ground (arith, h))
  has_entry ((j, bytes) ∷ entries) rs k b h d =
      let (a, dec, d') =
        >>=-eq-ok (env.org_codec.decode bytes) _ (else_eq _ (ap not (starts_with-nil j)) d) in
      let (rest, found, d'') = >>=-eq-ok (decode_under env env.org_codec [] entries) _ d' in
      ap is_empty (sym (ok_injective d''))

  skipped :
      (now : ℤ) (draws : Draws) (db : Db env) (k b : Bytes)
      → env.tables.get db.orgs k ≡ some b
      → (auto_init_bootstrap tokens env now draws db).1 ≡ db
  unfolding auto_init_bootstrap list_orgs if_no_orgs
  skipped now draws db k b at =
      go (decode_under env env.org_codec [] (env.tables.iter db.orgs)) refl
    where
      go :
          (r : Result (List OrgRecord))
          → decode_under env env.org_codec [] (env.tables.iter db.orgs) ≡ r
          → (if_no_orgs tokens env
              (decode_under env env.org_codec [] (env.tables.iter db.orgs))
              now
              draws
              db).1
            ≡ db
      go (err e) eq = rw (eq, if_no_orgs) refl
      go (ok rs) eq =
          rw (eq, if_no_orgs)
            (rw
              (has_entry (env.tables.iter db.orgs) rs k b (sym (env.tables.get-iter db.orgs k) ∙ at)
                eq)
              refl)

  -- Once the bootstrap has run, another one changes nothing.
  pub bootstrap_once :
      (now later : ℤ) (draws other : Draws) (db : Db env)
      → list_orgs env db ≡ ok []
      → (auto_init_bootstrap tokens env later other
          (auto_init_bootstrap tokens env now draws db).1).1
        ≡ (auto_init_bootstrap tokens env now draws db).1
  bootstrap_once now later draws other db e =
      let same = bootstrap_lem tokens env now draws db e in
      let (b, at) = put_org-found env (default_org now draws) db in
      rw same (
        skipped later other (db4 tokens env now draws db) draws.org_id b
          (ap (λ t. env.tables.get t draws.org_id) (db4-orgs tokens env now draws db) ∙ at))
