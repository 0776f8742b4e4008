-- ===== src/OrgSecrets/Isolation.antt =====
-- crates/sirr-server/src/store/db.rs: which entries of the table of secrets an operation on the secrets
-- of one organisation touches.
use sirr.Prelude.{
  ℕ, ℤ, Bool, true, false, Option, List, [], ◌∷◌, ◌≡◌, ◌≢◌, refl, ◌∙◌, arith, Bool-cases, else_eq,
  ap, not, inl, inr,
}
use sirr.Text.{
  Bytes, bytes_eq_iff, starts_with, join_colon, no_colon, starts_with-join_colon,
  starts_with-join_self, starts_with-no_colon,
}
use sirr.Result.{Result, ok, err, >>=-eq-ok}
use sirr.Database.{Env, Db, Store}
use sirr.Database.Keeps.{Keeps, keeps_rules}
use sirr.RecordFormat.{decode}
use sirr.Secrets.{Table, get, get_by_table_key}
use sirr.Secrets.Frames.{
  IsLocal, other-IsLocal, reply-get, get_txn-Keeps, insert_record-Keeps, patch_txn-Keeps,
  remove_txn-Keeps,
}
use sirr.Secrets.Pruning.{elem, get-remove_all, secrets-remove_keys}
use sirr.OrgSecrets.{
  org_secret_key, org_prefix, put_org_txn, put_org_secret, get_org_secret, patch_org_secret,
  delete_org_secret,
}
use sirr.OrgSecrets.Scan.{prunable_org_keys, prune_org_secrets}

-- A call on the secrets of one organisation, with its arguments, the clock and the nonce it draws.
pub data OrgCall : Type 0 where
  get_call : ℤ → Bytes → OrgCall
  put_call :
      ℤ
      → Bytes
      → Bytes
      → Bytes
      → Option ℤ
      → Option ℕ
      → Bool
      → Option Bytes
      → Option Bytes
      → Option (List Bytes)
      → OrgCall
  patch_call : ℤ → Bytes → Bytes → Option Bytes → Option ℕ → Option ℤ → OrgCall
  delete_call : Bytes → OrgCall
  prune_call : ℤ → OrgCall

module _ (env : Env) (store : Store) (org_id : Bytes) where
  unfoldable pub apply_org : OrgCall → Db env → Db env
  apply_org (get_call now key) db = (get_org_secret env store now org_id key db).1
  apply_org (put_call now nonce key v expires_at limit delete_flag hook owner allowed) db =
      (put_org_secret env store now nonce org_id key v expires_at limit delete_flag hook owner
        allowed db).1
  apply_org (patch_call now nonce key v m x) db =
      (patch_org_secret env store now nonce org_id key v m x db).1
  apply_org (delete_call key) db = (delete_org_secret env org_id key db).1
  apply_org (prune_call now) db = (prune_org_secrets env now org_id db).1

  unfoldable pub run_org : List OrgCall → Db env → Db env
  unfolding apply_org
  run_org [] db = db
  run_org (c ∷ calls) db = run_org calls (apply_org c db)

-- The keys of an organisation start with its prefix.
org_key_ne :
    (org_id key j : Bytes) → starts_with j (org_prefix org_id) ≡ false → join_colon org_id key ≢ j
unfolding org_prefix
org_key_ne org_id key j h e = ground (arith, starts_with-join_self org_id key, h, e)

module _ (env : Env) (store : Store) (org_id : Bytes) (db : Db env) (P : Table env → Type 0) where
  put_org-local :
      (now : ℤ) (nonce key v : Bytes) (expires_at : Option ℤ) (limit : Option ℕ)
      (delete_flag : Bool) (hook owner : Option Bytes) (allowed : Option (List Bytes))
      → IsLocal env (join_colon org_id key) db.secrets P
      → P
          (put_org_secret env store now nonce org_id key v expires_at limit delete_flag hook owner
            allowed db).1.secrets
  unfolding put_org_secret put_org_txn org_secret_key
  put_org-local now nonce key v expires_at limit delete_flag hook owner allowed h =
      Keeps.at {P = P} {t = db.secrets}
        {txn = put_org_txn env store now nonce org_id key v expires_at limit delete_flag hook owner
          allowed db.secrets}
        (search (
          keeps_rules,
          h.unchanged,
          insert_record-Keeps env (join_colon org_id key) db.secrets P h store,
        ))

prunable_org_keys-prefix :
    (env : Env) (now : ℤ) (prefix : Bytes) (entries : List (Bytes × Bytes)) (ks : List Bytes)
    (j : Bytes)
    → prunable_org_keys env now prefix entries ≡ ok ks
    → starts_with j prefix ≡ false
    → elem j ks ≡ false
unfolding prunable_org_keys
prunable_org_keys-prefix env now prefix [] ks j h p = ground arith
prunable_org_keys-prefix env now prefix ((k, b) ∷ entries) ks j h p =
    elim (Bool-cases (starts_with k prefix)) [
      | inl s ↦
          let (d, dec, h') = >>=-eq-ok (decode env b) _ (else_eq _ (ap not s) h) in
          let (ks', rest, h'') = >>=-eq-ok (prunable_org_keys env now prefix entries) _ h' in
          ground (
            arith,
            h'',
            prunable_org_keys-prefix env now prefix entries ks' j rest p,
            bytes_eq_iff k j,
            s,
            p,
          )
      | inr s ↦ prunable_org_keys-prefix env now prefix entries ks j (ground (arith, h, s)) p
    ]

-- A prune of one organisation keeps the entries that are not under its prefix.
prune_org-elsewhere :
    (env : Env) (now : ℤ) (org_id j : Bytes) (db : Db env)
    → starts_with j (org_prefix org_id) ≡ false
    → env.tables.get (prune_org_secrets env now org_id db).1.secrets j ≡ env.tables.get db.secrets j
unfolding prune_org_secrets
prune_org-elsewhere env now org_id j db p = go _ refl
  where
    go :
        (found : Result (List Bytes))
        → prunable_org_keys env now (org_prefix org_id) (env.tables.iter db.secrets) ≡ found
        → env.tables.get (prune_org_secrets env now org_id db).1.secrets j
          ≡ env.tables.get db.secrets j
    go (ok ks) e =
        rw (e, prune_org_secrets)
          (rw secrets-remove_keys (
            get-remove_all env ks db.secrets j
            ∙ rw (
                prunable_org_keys-prefix env now (org_prefix org_id) (env.tables.iter db.secrets) ks
                  j e p)))
    go (err e') e = rw (e, prune_org_secrets) refl

module _ (env : Env) (store : Store) (org_id : Bytes) (j : Bytes)
    (p : starts_with j (org_prefix org_id) ≡ false) where
  -- An operation on a key of the organisation is local to another key than `j`.
  elsewhere-IsLocal :
      (key : Bytes) (db : Db env)
      → IsLocal env
          (join_colon org_id key)
          db.secrets
          (λ t. env.tables.get t j ≡ env.tables.get db.secrets j)
  elsewhere-IsLocal key db =
      other-IsLocal env (join_colon org_id key) j db.secrets (org_key_ne org_id key j p)

  pub apply_org-elsewhere :
      (c : OrgCall) (db : Db env)
      → env.tables.get (apply_org env store org_id c db).secrets j ≡ env.tables.get db.secrets j
  unfolding apply_org get_org_secret get_by_table_key patch_org_secret delete_org_secret
      org_secret_key
  apply_org-elsewhere (get_call now key) db =
      (get_txn-Keeps env (join_colon org_id key) db.secrets _ (elsewhere-IsLocal key db) store
        now).at
  apply_org-elsewhere (put_call now nonce key v x limit delete_flag hook owner allowed) db =
      put_org-local env store org_id db _ now nonce key v x limit delete_flag hook owner allowed
        (elsewhere-IsLocal key db)
  apply_org-elsewhere (patch_call now nonce key v m x) db =
      (patch_txn-Keeps env (join_colon org_id key) db.secrets _ (elsewhere-IsLocal key db) store now
        nonce key v m x).at
  apply_org-elsewhere (delete_call key) db =
      (remove_txn-Keeps env (join_colon org_id key) db.secrets _ (elsewhere-IsLocal key db)).at
  apply_org-elsewhere (prune_call now) db = prune_org-elsewhere env now org_id j db p

  run_org-elsewhere :
      (calls : List OrgCall) (db : Db env)
      → env.tables.get (run_org env store org_id calls db).secrets j ≡ env.tables.get db.secrets j
  unfolding run_org
  run_org-elsewhere [] db = refl
  run_org-elsewhere (c ∷ calls) db =
      run_org-elsewhere calls (apply_org env store org_id c db) ∙ apply_org-elsewhere c db

-- Whatever is done to the secrets of one organisation, a read of a secret of another one is answered
-- as before. The names of organisations hold no colon.
pub org_isolated :
    (env : Env) (store : Store) (org_id other key : Bytes) (calls : List OrgCall) (now : ℤ)
    (db : Db env)
    → no_colon org_id ≡ true
    → no_colon other ≡ true
    → org_id ≢ other
    → (get_org_secret env store now other key (run_org env store org_id calls db)).0
      ≡ (get_org_secret env store now other key db).0
unfolding get_org_secret org_secret_key org_prefix
org_isolated env store org_id other key calls now db h h' ne =
    reply-get env store now (join_colon other key) (run_org env store org_id calls db) db (
      run_org-elsewhere env store org_id (join_colon other key)
        (ground
          (arith, starts_with-join_colon other org_id key h' h, bytes_eq_iff other org_id, ne))
        calls db)

-- Whatever is done to the secrets of an organisation, a read of a public secret is answered as
-- before. The names of public secrets hold no colon.
pub public_isolated :
    (env : Env) (store : Store) (org_id key : Bytes) (calls : List OrgCall) (now : ℤ) (db : Db env)
    → no_colon key ≡ true
    → (get env store now key (run_org env store org_id calls db)).0 ≡ (get env store now key db).0
unfolding get org_prefix
public_isolated env store org_id key calls now db h =
    reply-get env store now key (run_org env store org_id calls db) db
      (run_org-elsewhere env store org_id key (starts_with-no_colon key org_id [] h) calls db)
