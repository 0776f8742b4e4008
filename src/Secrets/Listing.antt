-- ===== src/Secrets/Listing.antt =====
-- crates/sirr-server/src/store/db.rs: what `list` and `head` show of a secret.
use sirr.Prelude.{
  ℕ, ℤ, Bool, false, some, List, [], ◌∷◌, ◌≡◌, refl, subst, ◌∙◌, All, Bool-cases, inl, inr,
}
use sirr.Text.{Bytes}
use sirr.Result.{ok, >>=-eq-ok, ok_injective}
use sirr.Records.{SecretRecord, SecretMeta, meta_of, is_expired, is_sealed}
use sirr.External.Keys.{bytes_key}
use sirr.External.Tables.{All-entries}
use sirr.Database.{Env, Db}
use sirr.RecordFormat.{decode}
use sirr.Secrets.{Table, head_record, head_by_table_key, head}
use sirr.Secrets.Scan.{list_entries, list}

-- The entries of the table as lookups.
pub iter-get :
    (env : Env) (t : Table env) → All (λ e. env.tables.get t e.0 ≡ some e.1) (env.tables.iter t)
iter-get env t =
    All-entries bytes_key (λ k b. env.tables.get t k ≡ some b) (env.tables.iter t)
      (env.tables.iter-Ascending t) (λ k b e. env.tables.get-iter t k ∙ e)

-- What `head` answers on a stored record that has not expired.
pub head-unexpired :
    (env : Env) (now : ℤ) (k shown b : Bytes) (d : SecretRecord × ℕ) (db : Db env)
    → env.tables.get db.secrets k ≡ some b
    → decode env b ≡ ok d
    → is_expired d.0 now ≡ false
    → head_by_table_key env now k shown db ≡ ok (some (meta_of shown d.0, is_sealed d.0))
unfolding head_by_table_key head_record
head-unexpired env now k shown b d db e dec x = rw (e, head_by_table_key) (rw dec (rw x refl))

-- The listed metadata is what `head` answers under its key.
abbrev pub Shown : (env : Env) → ℤ → Db env → SecretMeta → Type 0
Shown env now db m = (s : Bool) × (head env now m.key db ≡ ok (some (m, s)))

list_entries-Shown :
    (env : Env) (now : ℤ) (db : Db env) (entries : List (Bytes × Bytes)) (metas : List SecretMeta)
    → All (λ e. env.tables.get db.secrets e.0 ≡ some e.1) entries
    → list_entries env now entries ≡ ok metas
    → All (Shown env now db) metas
unfolding list_entries head
list_entries-Shown env now db [] metas h e = subst (All (Shown env now db)) (ok_injective e) tt
list_entries-Shown env now db ((k, b) ∷ entries) metas h e =
    let (d, dec, e') = >>=-eq-ok (decode env b) _ e in
    let (ms, rest, e'') = >>=-eq-ok (list_entries env now entries) _ e' in
    let ih = list_entries-Shown env now db entries ms h.1 rest in
    subst (All (Shown env now db)) (ok_injective e'') (elim (Bool-cases (is_expired d.0 now)) [
      | inl x ↦ rw x ih
      | inr x ↦ rw x ((is_sealed d.0, head-unexpired env now k k b d db h.0 dec x), ih)
    ])

-- Every secret that `list` shows is shown by `head` under its key, with the same metadata.
pub list-Shown :
    (env : Env) (now : ℤ) (db : Db env) (metas : List SecretMeta)
    → list env now db ≡ ok metas
    → All (λ m. (s : Bool) × (head env now m.key db ≡ ok (some (m, s)))) metas
unfolding list
list-Shown env now db metas e =
    list_entries-Shown env now db (env.tables.iter db.secrets) metas (iter-get env db.secrets) e
