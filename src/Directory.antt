-- ===== src/Directory.antt =====
-- crates/sirr-server/src/store/db.rs: the tables of organisations, principals, keys and roles. What
-- their operations share: a record is encoded and inserted, looked up and decoded, or listed under
-- the prefix of its organisation.
pub mod Orgs
pub mod Principals
pub mod PrincipalKeys
pub mod Roles
pub mod Guards
pub mod Revocation
pub mod Seeding
use sirr.Prelude.{
  Bool, true, false, not, Option, none, some, List, [], ◌∷◌, ◌≡◌, refl, ◌∙◌, sym, ap, arith,
  if◌then◌else◌, Option-cases, inl, inr,
}
use sirr.Text.{Bytes, bytes_eq, starts_with, join_colon}
use sirr.Result.{Result, ok, err, ◌>>=◌}
use sirr.External.Codecs.{Codec}
use sirr.Database.{Env}

module _ (env : Env) {A : Type 0} (codec : Codec A) where
  -- `table.get(key)?` and `decode_from_slice`.
  unfoldable pub get_decoded : env.tables.Table → Bytes → Result (Option A)
  get_decoded t k = elim (env.tables.get t k) [
    | none ↦ ok none
    | some bytes ↦ elim (codec.decode bytes) [ ok a ↦ ok (some a) | err e ↦ err e ]
  ]

  -- The records whose keys start with the prefix, in the order of the keys.
  unfoldable pub decode_under : Bytes → List (Bytes × Bytes) → Result (List A)
  decode_under prefix [] = ok []
  decode_under prefix ((k, bytes) ∷ entries) =
      let rest = decode_under prefix entries in
      if not (starts_with k prefix)
      then rest
      else (do a ← codec.decode bytes; as_read ← rest; ok (a ∷ as_read))

  -- A stored record is looked up after an insertion, and other keys keep what they had.
  pub get_decoded-insert :
      (t : env.tables.Table) (k j bytes : Bytes) (a : A)
      → codec.decode bytes ≡ ok a
      → get_decoded (env.tables.insert t k bytes) j
        ≡ (if bytes_eq k j then ok (some a) else get_decoded t j)
  unfolding get_decoded
  get_decoded-insert t k j bytes a dec = ground (arith, env.tables.get-insert t k j bytes, dec)

  pub get_decoded-remove :
      (t : env.tables.Table) (k j : Bytes)
      → get_decoded (env.tables.remove t k) j ≡ (if bytes_eq k j then ok none else get_decoded t j)
  unfolding get_decoded
  get_decoded-remove t k j = ground (arith, env.tables.get-remove t k j)

  -- A record that is found is in the table, encoded.
  pub get_decoded-some :
      (t : env.tables.Table) (k : Bytes) {a : A}
      → get_decoded t k ≡ ok (some a)
      → (b : Bytes) × (env.tables.get t k ≡ some b) × (codec.decode b ≡ ok a)
  unfolding get_decoded
  get_decoded-some t k h = elim (Option-cases (env.tables.get t k)) [
    | inl e ↦ ground (arith, h, e)
    | inr (b, e) ↦ (b, e, ground (arith, h, e))
  ]

-- `table.remove(key)?.is_some()`.
abbrev pub is_present : {A : Type 0} → Option A → Bool
is_present none = false
is_present (some a) = true
