-- ===== src/Directory/Seeding.antt =====
-- crates/sirr-server/src/store/db.rs, `open_versioned`: the built-in roles after the database is opened.
use sirr.Prelude.{
  true, false, some, List, [], ◌∷◌, All, ◌≡◌, refl, arith, Bool-cases, Option-cases, inl, inr,
}
use sirr.Text.{Bytes, codes, bytes_eq_iff, join_colon}
use sirr.Result.{ok}
use sirr.Records.{RoleRecord}
use sirr.External.Tables.{get-insert_self}
use sirr.Database.{Env, Db}
use sirr.Directory.{is_present}
use sirr.Directory.Roles.{seed_roles, open_roles, builtin_roles}

module _ (env : Env) where
  -- Every entry there was is there, and every role is there.
  abbrev pub Seeded : List RoleRecord → env.tables.Table → env.tables.Table → Type 0
  Seeded roles t t' =
      ((k b : Bytes) → env.tables.get t k ≡ some b → env.tables.get t' k ≡ some b)
      × All (λ r. is_present (env.tables.get t' (join_colon (codes "builtin") r.name)) ≡ true) roles

  present_kept :
      (t t' : env.tables.Table) (k : Bytes)
      → ((j b : Bytes) → env.tables.get t j ≡ some b → env.tables.get t' j ≡ some b)
      → is_present (env.tables.get t k) ≡ true
      → is_present (env.tables.get t' k) ≡ true
  present_kept t t' k keep h = elim (Option-cases (env.tables.get t k)) [
    | inl n ↦ absurd (ground (arith, h, n))
    | inr (b, s) ↦ rw (keep k b s) refl
  ]

  -- An insertion where nothing was keeps every entry.
  fresh_kept :
      (t : env.tables.Table) (k bytes j b : Bytes)
      → is_present (env.tables.get t k) ≡ false
      → env.tables.get t j ≡ some b
      → env.tables.get (env.tables.insert t k bytes) j ≡ some b
  fresh_kept t k bytes j b fresh at =
      ground (arith, env.tables.get-insert t k j bytes, at, fresh, bytes_eq_iff k j)

  seed_roles_lem :
      (roles : List RoleRecord) (t : env.tables.Table)
      → (t' : env.tables.Table) × (seed_roles env roles t ≡ ok t') × Seeded roles t t'
  unfolding seed_roles
  seed_roles_lem [] t = (t, refl, ((λ k b h. h), tt))
  seed_roles_lem (r ∷ roles) t =
      let k = join_colon (codes "builtin") r.name in
      let (bytes, enc, _, _) = env.role_codec.round_trip r in
      elim (Bool-cases (is_present (env.tables.get t k))) [
        | inl there ↦
            let (t', seeded, (keep, all)) = seed_roles_lem roles t in
            (t', rw there seeded, (keep, (present_kept t t' k keep there, all)))
        | inr fresh ↦
            let (t', seeded, (keep, all)) = seed_roles_lem roles (env.tables.insert t k bytes) in
            (
              t',
              rw fresh (rw enc seeded),
              (
                (λ j b h. keep j b (fresh_kept t k bytes j b fresh h)),
                (rw (keep k bytes (get-insert_self env.tables t k bytes)) refl, all),
              ),
            )
      ]

  -- Opening a database succeeds, leaves every role that is stored as it is, changes no other table, and
  -- afterwards the four built-in roles are there.
  pub open_roles_lem :
      (db : Db env)
      → (db' : Db env) × (open_roles env db ≡ ok db')
        × (record db' { roles = db.roles } ≡ db)
        × ((k b : Bytes) → env.tables.get db.roles k ≡ some b → env.tables.get db'.roles k ≡ some b)
        × All
            (λ r.
              is_present (env.tables.get db'.roles (join_colon (codes "builtin") r.name)) ≡ true)
            builtin_roles
  unfolding open_roles
  open_roles_lem db =
      let (t, seeded, (keep, all)) = seed_roles_lem builtin_roles db.roles in
      (record db { roles = t }, rw seeded refl, refl, keep, all)
