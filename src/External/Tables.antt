-- ===== src/External/Tables.antt =====
-- redb's tables. A write transaction works on the tables as they were when it began, and its
-- `commit` puts the changed tables in their place.
use sirr.Prelude.{
  ◌⊎◌, refl, All, ◌≢◌, arith, false, ◌≡◌, true, Option, none, some, List, [], ◌∷◌, Ascending,
  if◌then◌else◌,
}
use sirr.External.Keys.{Key}

-- The first entry with the key.
unfoldable pub lookup : {K V : Type 0} → Key K → K → List (K × V) → Option V
lookup key k [] = none
lookup key k ((j, v) ∷ entries) = if key.beq j k then some v else lookup key k entries

abbrev pub keys : {K V : Type 0} → List (K × V) → List K
keys [] = []
keys ((k, v) ∷ entries) = k ∷ keys entries

-- `iter` goes through all entries in ascending order of the keys, each key once.
pub record Tables {K : Type 0} (key : Key K) (V : Type 0) : Type 1 where
  pub Table : Type 0
  pub empty : Table
  pub get : Table → K → Option V
  pub insert : Table → K → V → Table
  pub remove : Table → K → Table
  pub iter : Table → List (K × V)
  pub get-empty : (k : K) → get empty k ≡ none
  pub get-insert :
      (t : Table) (k j : K) (v : V)
      → get (insert t k v) j ≡ (if key.beq k j then some v else get t j)
  pub get-remove :
      (t : Table) (k j : K) → get (remove t k) j ≡ (if key.beq k j then none else get t j)
  pub get-iter : (t : Table) (k : K) → get t k ≡ lookup key k (iter t)
  pub iter-Ascending : (t : Table) → Ascending (λ a b. key.blt a b ≡ true) (keys (iter t))

module _ {K V : Type 0} {key : Key K} (tables : Tables key V) where
  pub get-insert_self :
      (t : tables.Table) (k : K) (v : V) → tables.get (tables.insert t k v) k ≡ some v
  get-insert_self t k v = rw tables.get-insert (rw ((key.beq_iff k k).1 refl))

  pub beq_ne : (k j : K) → k ≢ j → key.beq k j ≡ false
  beq_ne k j ne = ground (arith, key.beq_iff k j)

  pub get-insert_ne :
      (t : tables.Table) (k j : K) (v : V)
      → k ≢ j
      → tables.get (tables.insert t k v) j ≡ tables.get t j
  get-insert_ne t k j v ne = rw tables.get-insert (rw (beq_ne k j ne))

  pub get-remove_self : (t : tables.Table) (k : K) → tables.get (tables.remove t k) k ≡ none
  get-remove_self t k = rw tables.get-remove (rw ((key.beq_iff k k).1 refl))

  pub get-remove_ne :
      (t : tables.Table) (k j : K) → k ≢ j → tables.get (tables.remove t k) j ≡ tables.get t j
  get-remove_ne t k j ne = rw tables.get-remove (rw (beq_ne k j ne))

  -- What is found after a removal was there before.
  pub get-remove-eq-some :
      (t : tables.Table) (k j : K) {v : V}
      → tables.get (tables.remove t k) j ≡ some v
      → tables.get t j ≡ some v
  get-remove-eq-some t k j h = ground (arith, tables.get-remove t k j)

  -- What is found after an insertion is the new value or was there before.
  pub get-insert-eq-some :
      (t : tables.Table) (k j : K) (v : V) {w : V}
      → tables.get (tables.insert t k v) j ≡ some w
      → (v ≡ w) ⊎ (tables.get t j ≡ some w)
  get-insert-eq-some t k j v h = ground (arith, tables.get-insert t k j v)

-- A key above all others is not among them.
pub lookup_above :
    {K V : Type 0} (key : Key K) (k : K) (entries : List (K × V))
    → All (λ j. key.blt k j ≡ true) (keys entries)
    → lookup key k entries ≡ none
unfolding lookup
lookup_above key k [] h = refl
lookup_above key k ((j, v) ∷ entries) h =
    ground
      (arith, lookup_above key k entries h.1, key.blt-beq k j h.0, key.beq_iff k j, key.beq_iff j k)

-- What holds of every entry that can be looked up holds of every entry in the list.
pub All-entries {ℓ} :
    {K V : Type 0} (key : Key K) (P : K → V → Type ℓ) (entries : List (K × V))
    → Ascending (λ a b. key.blt a b ≡ true) (keys entries)
    → ((k : K) (v : V) → lookup key k entries ≡ some v → P k v)
    → All (λ e. P e.0 e.1) entries
unfolding lookup
All-entries key P [] asc h = tt
All-entries {K} {V} key P ((k, v) ∷ entries) asc h = (
  h k v (rw ((key.beq_iff k k).1 refl)),
  All-entries key P entries asc.1 (λ j w e. h j w (found j w e)),
)
  where
    found :
        (j : K) (w : V)
        → lookup key j entries ≡ some w
        → (if key.beq k j then some v else lookup key j entries) ≡ some w
    found j w e = ground (arith, e, key.beq_iff k j, lookup_above key k entries asc.0)
