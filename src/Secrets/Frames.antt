-- ===== src/Secrets/Frames.antt =====
-- crates/sirr-server/src/store/db.rs: what each operation on one key may do to the table of secrets.
use sirr.Prelude.{
  ℕ, ℤ, Bool, Option, none, some, ◌≡◌, ◌≢◌, refl, sym, ◌∙◌, arith, inl, inr, Option-cases,
}
use sirr.Text.{Bytes}
use sirr.Result.{ok}
use sirr.Records.{SecretRecord, not_found}
use sirr.External.Tables.{get-insert_ne, get-remove_ne, get-remove-eq-some, get-insert-eq-some}
use sirr.Database.{Env, Db, Store, commit, ◌>>=◌}
use sirr.Database.Keeps.{Keeps, Keeps-elim, Keeps-commit, keeps_rules}
use sirr.Database.Alike.{Alike, Alike-commit, alike_rules}
use sirr.RecordFormat.{encode, decode, decode-encode}
use sirr.Secrets.{
  Table, put, put_txn, insert_record, get, get_txn, get_by_table_key, read_record, read_live,
  burn_or_keep, patch, map_option, deadline, patch_txn, patch_record, delete, remove_txn,
}

-- What an operation on the key `k` may do to the table `t`.
pub record IsLocal (env : Env) (k : Bytes) (t : Table env) (P : Table env → Type 0) : Type 0 where
  pub unchanged : P t
  pub removed : P (env.tables.remove t k)
  pub inserted :
      (r : SecretRecord) (version : ℕ) (b : Bytes)
      → encode env r version ≡ ok b
      → P (env.tables.insert t k b)

module _ (env : Env) (k : Bytes) (t : Table env) (P : Table env → Type 0)
    (h : IsLocal env k t P) where
  pub remove_txn-Keeps : Keeps P t (remove_txn env k t)
  unfolding remove_txn
  remove_txn-Keeps = search (keeps_rules, h.removed)

  module _ (store : Store) where
    pub insert_record-Keeps : (r : SecretRecord) → Keeps P t (insert_record env store k r t)
    unfolding insert_record
    insert_record-Keeps r = search (keeps_rules, h.unchanged, h.inserted)

    burn_or_keep-Keeps :
        (r : SecretRecord) (version : ℕ) (text : Bytes)
        → Keeps P t (burn_or_keep env store k r version text t)
    unfolding burn_or_keep
    burn_or_keep-Keeps r version text = search (keeps_rules, h.unchanged, h.removed, h.inserted)

    read_record-Keeps :
        (now : ℤ) (r : SecretRecord) (version : ℕ)
        → Keeps P t (read_record env store now k r version t)
    unfolding read_record read_live
    read_record-Keeps now r version =
        search (keeps_rules, h.unchanged, h.removed, burn_or_keep-Keeps)

    pub get_txn-Keeps : (now : ℤ) → Keeps P t (get_txn env store now k t)
    unfolding get_txn
    get_txn-Keeps now =
        Keeps-elim (env.tables.get t k) (commit not_found t)
          (λ b. decode env b >>= λ d. read_record env store now k d.0 d.1 t)
          (Keeps-commit _ _ h.unchanged)
          (λ b _. search (keeps_rules, h.unchanged, read_record-Keeps))

    patch_record-Keeps :
        (now : ℤ) (nonce display_key : Bytes) (v : Option Bytes) (m : Option ℕ) (x : Option ℤ)
        (r : SecretRecord) (version : ℕ)
        → Keeps P t (patch_record env store now nonce k display_key v m x r version t)
    unfolding patch_record
    patch_record-Keeps now nonce display_key v m x r version =
        search (keeps_rules, h.unchanged, h.inserted) depth 8

    pub patch_txn-Keeps :
        (now : ℤ) (nonce display_key : Bytes) (v : Option Bytes) (m : Option ℕ) (x : Option ℤ)
        → Keeps P t (patch_txn env store now nonce k display_key v m x t)
    unfolding patch_txn
    patch_txn-Keeps now nonce display_key v m x =
        Keeps-elim (env.tables.get t k) (commit none t)
          (λ b.
            decode env b >>= λ d. patch_record env store now nonce k display_key v m x d.0 d.1 t)
          (Keeps-commit _ _ h.unchanged)
          (λ b _. search (keeps_rules, h.unchanged, patch_record-Keeps))

    put_txn-Keeps :
        (now : ℤ) (nonce text : Bytes) (ttl max_reads : Option ℕ) (delete_flag : Bool)
        (hook : Option Bytes)
        → Keeps P t (put_txn env store now nonce k text ttl max_reads delete_flag hook t)
    unfolding put_txn
    put_txn-Keeps now nonce text ttl max_reads delete_flag hook =
        search (keeps_rules, h.unchanged, insert_record-Keeps)

-- The reply to a read depends on the entry at its key alone.
module _ (env : Env) (store : Store) (now : ℤ) (k : Bytes) (t t' : Table env) where
  burn_or_keep-Alike :
      (r : SecretRecord) (version : ℕ) (text : Bytes)
      → Alike t t'
          (burn_or_keep env store k r version text t)
          (burn_or_keep env store k r version text t')
  unfolding burn_or_keep
  burn_or_keep-Alike r version text = search alike_rules

  read_record-Alike :
      (r : SecretRecord) (version : ℕ)
      → Alike t t'
          (read_record env store now k r version t)
          (read_record env store now k r version t')
  unfolding read_record read_live
  read_record-Alike r version = search (alike_rules, burn_or_keep-Alike)

  get_txn-Alike :
      env.tables.get t k ≡ env.tables.get t' k
      → Alike t t' (get_txn env store now k t) (get_txn env store now k t')
  unfolding get_txn
  get_txn-Alike e = elim (Option-cases (env.tables.get t k)) [
    | inl none_at ↦ rw (none_at, get_txn) (rw (sym e ∙ none_at, get_txn) (Alike-commit _ _ _))
    | inr (b, some_at) ↦
        rw (some_at, get_txn)
          (rw (sym e ∙ some_at, get_txn) (search (alike_rules, read_record-Alike)))
  ]

pub reply-get :
    (env : Env) (store : Store) (now : ℤ) (k : Bytes) (db db' : Db env)
    → env.tables.get db.secrets k ≡ env.tables.get db'.secrets k
    → (get_by_table_key env store now k db).0 ≡ (get_by_table_key env store now k db').0
unfolding get_by_table_key
reply-get env store now k db db' e = (get_txn-Alike env store now k db.secrets db'.secrets e).reply

-- Another key than the one that an operation is about keeps its entry.
pub other-IsLocal :
    (env : Env) (k j : Bytes) (t : Table env)
    → k ≢ j
    → IsLocal env k t (λ t'. env.tables.get t' j ≡ env.tables.get t j)
other-IsLocal env k j t ne = record {
  unchanged = refl;
  removed = get-remove_ne env.tables t k j ne;
  inserted = λ r version b _. get-insert_ne env.tables t k j b ne;
}

-- Every entry of the table decodes to a record.
pub record IsWellFormed (env : Env) (t : Table env) : Type 0 where
  pub at_key :
      (k b : Bytes)
      → env.tables.get t k ≡ some b
      → (r : SecretRecord) × (version : ℕ) × (decode env b ≡ ok (r, version))

encoded-IsWellFormed :
    (env : Env) (r : SecretRecord) (version : ℕ) (b : Bytes)
    → encode env r version ≡ ok b
    → decode env b ≡ ok (r, version)
encoded-IsWellFormed env r version b e =
    let (b', e', d) = decode-encode env r version in ground (arith, e', d)

pub wf-IsLocal :
    (env : Env) (k : Bytes) (t : Table env)
    → IsWellFormed env t
    → IsLocal env k t (IsWellFormed env)
wf-IsLocal env k t h = record {
  unchanged = h;
  removed = record { at_key = λ j b e. h.at_key j b (get-remove-eq-some env.tables t k j e) };
  inserted = λ r version c enc. record {
    at_key = λ j b e. elim (get-insert-eq-some env.tables t k j c e) [
      | inl new ↦ (r, version, rw (← new) (encoded-IsWellFormed env r version c enc))
      | inr old ↦ h.at_key j b old
    ];
  };
}

module _ (env : Env) (store : Store) (k : Bytes) (db : Db env) (P : Table env → Type 0)
    (h : IsLocal env k db.secrets P) where
  pub get-local : (now : ℤ) → P (get env store now k db).1.secrets
  unfolding get
  get-local now = (get_txn-Keeps env k db.secrets P h store now).at

  pub put-local :
      (now : ℤ) (nonce text : Bytes) (ttl limit : Option ℕ) (delete_flag : Bool)
      (hook : Option Bytes)
      → P (put env store now nonce k text ttl limit delete_flag hook db).1.secrets
  unfolding put
  put-local now nonce text ttl limit delete_flag hook =
      (put_txn-Keeps env k db.secrets P h store now nonce text ttl limit delete_flag hook).at

  pub patch-local :
      (now : ℤ) (nonce : Bytes) (v : Option Bytes) (m ttl : Option ℕ)
      → P (patch env store now nonce k v m ttl db).1.secrets
  unfolding patch
  patch-local now nonce v m ttl =
      (patch_txn-Keeps env k db.secrets P h store now nonce k v m
        (map_option (deadline now) ttl)).at

  pub delete-local : P (delete env k db).1.secrets
  unfolding delete
  delete-local = (remove_txn-Keeps env k db.secrets P h).at
