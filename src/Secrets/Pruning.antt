-- ===== src/Secrets/Pruning.antt =====
-- crates/sirr-server/src/store/db.rs, `prune`: what its two passes remove, together and with another
-- write between them.
use sirr.Prelude.{
  ℕ, ℤ, Bool, true, false, Option, none, some, List, [], ◌∷◌, ◌≡◌, refl, ◌∙◌, ap, sym, arith, any,
  All, Ascending, if◌then◌else◌,
}
use sirr.Text.{Bytes, bytes_eq, bytes_eq_iff}
use sirr.Result.{ok, err, >>=-eq-ok}
use sirr.Records.{SecretRecord, not_found}
use sirr.External.Keys.{bytes_key, bytes_lt}
use sirr.External.Tables.{lookup, lookup_above, keys, All-entries}
use sirr.Database.{Env, Db, Store}
use sirr.RecordFormat.{decode}
use sirr.Secrets.{Table, put, get, get_txn}
use sirr.Secrets.Frames.{IsWellFormed}
use sirr.Secrets.Scan.{is_prunable, prunable_keys, remove_all, remove_keys, prune}

abbrev pub elem : Bytes → List Bytes → Bool
elem j ks = any (λ k. bytes_eq k j) ks

module _ (env : Env) where
  -- The stored bytes are a record that a prune removes.
  unfoldable pub prunable_bytes : ℤ → Bytes → Bool
  prunable_bytes now b = elim (decode env b) [ ok d ↦ is_prunable now d.0 | err e ↦ false ]

  unfoldable pub prunable_entry : ℤ → Option Bytes → Bool
  prunable_entry now none = false
  prunable_entry now (some b) = prunable_bytes now b

  -- The record at the key is one that a prune removes.
  unfoldable pub prunable_at : ℤ → Table env → Bytes → Bool
  unfolding prunable_entry prunable_bytes
  prunable_at now t k = prunable_entry now (env.tables.get t k)

  -- A stored record is removed exactly if it is a prunable one.
  pub prunable_at-decoded :
      (now : ℤ) (t : Table env) (k b : Bytes) (r : SecretRecord) (version : ℕ)
      → env.tables.get t k ≡ some b
      → decode env b ≡ ok (r, version)
      → prunable_at now t k ≡ is_prunable now r
  unfolding prunable_at
  prunable_at-decoded now t k b r version e d = rw e (rw (d, prunable_bytes))

  pub get-remove_all :
      (ks : List Bytes) (t : Table env) (j : Bytes)
      → env.tables.get (remove_all env ks t) j ≡ (if elem j ks then none else env.tables.get t j)
  unfolding remove_all
  get-remove_all [] t j = refl
  get-remove_all (k ∷ ks) t j =
      get-remove_all ks (env.tables.remove t k) j ∙ ground (arith, env.tables.get-remove t k j)

  elem-prunable_keys :
      (now : ℤ) (entries : List (Bytes × Bytes)) (ks : List Bytes) (j : Bytes)
      → Ascending (λ a b. bytes_lt a b ≡ true) (keys entries)
      → prunable_keys env now entries ≡ ok ks
      → elem j ks ≡ prunable_entry now (lookup bytes_key j entries)
  unfolding prunable_keys lookup prunable_entry prunable_bytes
  elem-prunable_keys now [] ks j asc h = ground arith
  elem-prunable_keys now ((k, b) ∷ entries) ks j asc h =
      let (d, dec, h') = >>=-eq-ok (decode env b) _ h in
      let (ks', rest, h'') = >>=-eq-ok (prunable_keys env now entries) _ h' in
      ground (
        arith,
        dec,
        h'',
        elem-prunable_keys now entries ks' j asc.1 rest,
        bytes_eq_iff k j,
        lookup_above bytes_key k entries asc.0,
      )

  -- Each of the bytes decodes to a record.
  abbrev pub Decodes : Bytes → Type 0
  Decodes b = (r : SecretRecord) × (version : ℕ) × (decode env b ≡ ok (r, version))

  pub entries-Decodes :
      (t : Table env) → IsWellFormed env t → All (λ e. Decodes e.1) (env.tables.iter t)
  entries-Decodes t h =
      All-entries bytes_key (λ k b. Decodes b) (env.tables.iter t) (env.tables.iter-Ascending t)
        (λ k b e. h.at_key k b (env.tables.get-iter t k ∙ e))

  prunable_keys_total :
      (now : ℤ) (entries : List (Bytes × Bytes))
      → All (λ e. Decodes e.1) entries
      → (ks : List Bytes) × (prunable_keys env now entries ≡ ok ks)
  unfolding prunable_keys
  prunable_keys_total now [] h = ([], refl)
  prunable_keys_total now ((k, b) ∷ entries) ((r, version, dec), h) =
      let (ks, e) = prunable_keys_total now entries h in
      (if is_prunable now r then k ∷ ks else ks, rw dec (rw e))

  -- `remove_keys` on the tables, with its test for an empty list.
  pub secrets-remove_keys :
      (ks : List Bytes) (db : Db env)
      → (remove_keys env ks db).secrets ≡ remove_all env ks db.secrets
  unfolding remove_keys
  secrets-remove_keys [] db = refl
  secrets-remove_keys (k ∷ ks) db = refl

  -- On a table whose entries all decode, a prune succeeds, returns exactly the keys of the expired
  -- and the burned records, removes these, and leaves all others as they were.
  pub prune_lem :
      (now : ℤ) (db : Db env)
      → IsWellFormed env db.secrets
      → (ks : List Bytes) × ((prune env now db).0 ≡ ok ks)
        × ((j : Bytes) → elem j ks ≡ prunable_at now db.secrets j)
        × ((j : Bytes)
            → env.tables.get (prune env now db).1.secrets j
              ≡ (if prunable_at now db.secrets j then none else env.tables.get db.secrets j))
  unfolding prune prunable_at
  prune_lem now db h = (ks, rw (e, prune), members, kept)
    where
      total : (ks : List Bytes) × (prunable_keys env now (env.tables.iter db.secrets) ≡ ok ks)
      total = prunable_keys_total now (env.tables.iter db.secrets) (entries-Decodes db.secrets h)

      ks : List Bytes
      ks = total.0

      e : prunable_keys env now (env.tables.iter db.secrets) ≡ ok ks
      e = total.1

      members : (j : Bytes) → elem j ks ≡ prunable_at now db.secrets j
      members j =
          elem-prunable_keys now (env.tables.iter db.secrets) ks j
            (env.tables.iter-Ascending db.secrets) e
          ∙ ap (prunable_entry now) (sym (env.tables.get-iter db.secrets j))

      kept :
          (j : Bytes)
          → env.tables.get (prune env now db).1.secrets j
            ≡ (if prunable_at now db.secrets j then none else env.tables.get db.secrets j)
      kept j =
          rw (e, prune) (rw secrets-remove_keys (get-remove_all ks db.secrets j ∙ rw (members j)))

-- A key that the read pass of a prune has listed is gone after the write pass, also if a `put` has
-- stored a new secret there in between: a read then finds nothing.
pub prune_race :
    (env : Env) (store : Store) (now : ℤ) (db : Db env) (ks : List Bytes) (nonce k text : Bytes)
    (ttl limit : Option ℕ) (delete : Bool) (hook : Option Bytes) (later : ℤ)
    → prunable_keys env now (env.tables.iter db.secrets) ≡ ok ks
    → prunable_at env now db.secrets k ≡ true
    → let db' = (put env store now nonce k text ttl limit delete hook db).1 in
      (get env store later k (remove_keys env ks db')).0 ≡ ok not_found
unfolding get get_txn prunable_at
prune_race env store now db ks nonce k text ttl limit delete hook later e p =
    rw (secrets-remove_keys, get_txn) (rw (gone, get_txn))
  where
    db' : Db env
    db' = (put env store now nonce k text ttl limit delete hook db).1

    listed : elem k ks ≡ true
    listed =
        elem-prunable_keys env now (env.tables.iter db.secrets) ks k
          (env.tables.iter-Ascending db.secrets) e
        ∙ ap (prunable_entry env now) (sym (env.tables.get-iter db.secrets k))
        ∙ p

    gone : env.tables.get (remove_all env ks db'.secrets) k ≡ none
    gone = get-remove_all env ks db'.secrets k ∙ rw listed
