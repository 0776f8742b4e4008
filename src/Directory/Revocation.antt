-- ===== src/Directory/Revocation.antt =====
-- crates/sirr-server/src/store/db.rs: what is found in the tables of principals, keys and roles after
-- a record is stored or deleted.
use sirr.Prelude.{true, false, ◌&&◌, none, some, ◌≡◌, ◌≢◌, refl, ◌∙◌, ap, arith, if◌then◌else◌}
use sirr.Text.{Bytes, codes, bytes_eq, bytes_eq_iff, join_colon, no_colon, join_colon_injective}
use sirr.Result.{ok}
use sirr.Records.{PrincipalRecord, PrincipalKeyRecord, RoleRecord}
use sirr.External.Tables.{get-insert_self}
use sirr.Database.{Env, Db}
use sirr.Directory.{get_decoded-insert, get_decoded-remove}
use sirr.Directory.Principals.{put_principal, get_principal}
use sirr.Directory.PrincipalKeys.{
  put_principal_key, find_principal_key_by_hash, delete_principal_key,
}
use sirr.Directory.Roles.{role_table_key, put_role, get_role}

-- Two compound keys agree exactly if their parts do.
join_colon-eq :
    (a b a' b' : Bytes)
    → no_colon a ≡ true
    → no_colon a' ≡ true
    → bytes_eq (join_colon a b) (join_colon a' b') ≡ (bytes_eq a a' && bytes_eq b b')
join_colon-eq a b a' b' h h' = ground (
  arith,
  bytes_eq_iff (join_colon a b) (join_colon a' b'),
  bytes_eq_iff a a',
  bytes_eq_iff b b',
  join_colon_injective a b a' b' h h',
  ap (join_colon a) {x = b} {y = b'},
)

-- A principal that is stored is found under its organisation and id, and any other principal is
-- found as before. The ids of organisations hold no colon.
pub get-put_principal :
    (env : Env) (p : PrincipalRecord) (org_id principal_id : Bytes) (db : Db env)
    → no_colon p.org_id ≡ true
    → no_colon org_id ≡ true
    → get_principal env org_id principal_id (put_principal env p db).1 ≡ (
        if bytes_eq p.org_id org_id && bytes_eq p.id principal_id
        then ok (some p)
        else get_principal env org_id principal_id db)
unfolding get_principal put_principal
get-put_principal env p org_id principal_id db h h' =
    let (bytes, enc, dec, _) = env.principal_codec.round_trip p in
    rw (enc, put_principal)
      (get_decoded-insert env env.principal_codec db.principals (join_colon p.org_id p.id)
          (join_colon org_id principal_id) bytes p dec
        ∙ rw (join_colon-eq p.org_id p.id org_id principal_id h h') refl)

-- Once a key is deleted by its principal and its id, a lookup by its hash finds nothing, and the
-- lookup by any other hash finds what it found before.
pub delete_principal_key_revokes :
    (env : Env) (principal_id key_id hash other : Bytes) (db : Db env)
    → env.tables.get db.principal_key_ix (join_colon principal_id key_id) ≡ some hash
    → ((delete_principal_key env principal_id key_id db).0 ≡ ok true)
      × (find_principal_key_by_hash env other (delete_principal_key env principal_id key_id db).1
          ≡ (if bytes_eq hash other then ok none else find_principal_key_by_hash env other db))
unfolding delete_principal_key find_principal_key_by_hash
delete_principal_key_revokes env principal_id key_id hash other db at = (
  rw (at, delete_principal_key) refl,
  rw (at, delete_principal_key) (get_decoded-remove env env.key_codec db.principal_keys hash other),
)

-- A key that is stored is found by its hash, and can then be deleted by its principal and its id.
pub find-put_principal_key :
    (env : Env) (key : PrincipalKeyRecord) (db : Db env)
    → (find_principal_key_by_hash env key.key_hash (put_principal_key env key db).1 ≡ ok (some key))
      × ((delete_principal_key env key.principal_id key.id (put_principal_key env key db).1).0
          ≡ ok true)
      × (find_principal_key_by_hash env key.key_hash
            (delete_principal_key env key.principal_id key.id (put_principal_key env key db).1).1
          ≡ ok none)
unfolding find_principal_key_by_hash put_principal_key
find-put_principal_key env key db =
    let (bytes, enc, dec, _) = env.key_codec.round_trip key in
    let db' : Db env = record db {
      principal_keys = env.tables.insert db.principal_keys key.key_hash bytes;
      principal_key_ix =
          env.tables.insert db.principal_key_ix (join_colon key.principal_id key.id) key.key_hash;
    } in
    let stored : put_principal_key env key db ≡ (ok tt, db') = rw (enc, put_principal_key) refl in
    let self = (bytes_eq_iff key.key_hash key.key_hash).1 refl in
    let (replied, found) =
      delete_principal_key_revokes env key.principal_id key.id key.key_hash key.key_hash db' (
        get-insert_self env.tables db.principal_key_ix (join_colon key.principal_id key.id)
          key.key_hash) in
    (
      rw stored (
          get_decoded-insert env env.key_codec db.principal_keys key.key_hash key.key_hash bytes key
            dec
          ∙ rw self refl),
      rw stored replied,
      rw stored (found ∙ rw self refl),
    )

-- A role of an organisation is stored apart from the built-in roles, provided that the organisation is
-- not called "builtin" and that its id holds no colon.
pub get-put_role :
    (env : Env) (r : RoleRecord) (oid name : Bytes) (db : Db env)
    → r.org_id ≡ some oid
    → no_colon oid ≡ true
    → oid ≢ codes "builtin"
    → (get_role env (some oid) r.name (put_role env r db).1 ≡ ok (some r))
      × (get_role env none name (put_role env r db).1 ≡ get_role env none name db)
unfolding get_role put_role role_table_key
get-put_role env r oid name db e h ne =
    let (bytes, enc, dec, _) = env.role_codec.round_trip r in
    (
      rw (enc, put_role)
          (get_decoded-insert env env.role_codec db.roles (role_table_key r.org_id r.name)
              (role_table_key (some oid) r.name) bytes r dec
            ∙ rw e
                (rw ((bytes_eq_iff (join_colon oid r.name) (join_colon oid r.name)).1 refl) refl)),
      rw (enc, put_role)
          (get_decoded-insert env env.role_codec db.roles (role_table_key r.org_id r.name)
              (role_table_key none name) bytes r dec
            ∙ rw e (rw (apart r.name name) refl)),
    )
  where
    apart : (a b : Bytes) → bytes_eq (join_colon oid a) (join_colon (codes "builtin") b) ≡ false
    apart a b =
        join_colon-eq oid a (codes "builtin") b h refl
        ∙ ground (arith, bytes_eq_iff oid (codes "builtin"), ne)

-- A role whose organisation is called "builtin" takes the place of the built-in role of its name.
pub builtin_role_overwritten :
    (env : Env) (r : RoleRecord) (db : Db env)
    → r.org_id ≡ some (codes "builtin")
    → get_role env none r.name (put_role env r db).1 ≡ ok (some r)
unfolding get_role put_role role_table_key
builtin_role_overwritten env r db e =
    let (bytes, enc, dec, _) = env.role_codec.round_trip r in
    let k : Bytes = join_colon (codes "builtin") r.name in
    rw (enc, put_role)
      (get_decoded-insert env env.role_codec db.roles (role_table_key r.org_id r.name) k bytes r dec
        ∙ rw e (rw ((bytes_eq_iff k k).1 refl) refl))
