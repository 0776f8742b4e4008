-- ===== src/Samples/SortedLists.antt =====
-- The tables of `External` as lists sorted by key.
use sirr.Prelude.{
  refl, All, arith, ◌≡◌, true, none, some, List, [], ◌∷◌, Ascending, if◌then◌else◌, Bool-cases, inl,
  inr,
}
use sirr.External.Keys.{Key}
use sirr.External.Tables.{Tables, lookup, keys, lookup_above}

All-map :
    {K : Type 0} (P Q : K → Type 0) (ks : List K) → ((k : K) → P k → Q k) → All P ks → All Q ks
All-map P Q [] f h = tt
All-map P Q (k ∷ ks) f h = (f k h.0, All-map P Q ks f h.1)

module _ {K V : Type 0} (key : Key K) where
  abbrev pub insert_entry : K → V → List (K × V) → List (K × V)
  insert_entry k v [] = (k, v) ∷ []
  insert_entry k v ((j, w) ∷ entries) =
      if key.blt k j
      then (k, v) ∷ (j, w) ∷ entries
      else if key.beq k j
      then (k, v) ∷ entries
      else (j, w) ∷ insert_entry k v entries

  abbrev pub remove_entry : K → List (K × V) → List (K × V)
  remove_entry k [] = []
  remove_entry k ((j, w) ∷ entries) =
      if key.beq j k then entries else (j, w) ∷ remove_entry k entries

  pub lookup-insert_entry :
      (k j : K) (v : V) (entries : List (K × V))
      → lookup key j (insert_entry k v entries)
        ≡ (if key.beq k j then some v else lookup key j entries)
  unfolding lookup
  lookup-insert_entry k j v [] = refl
  lookup-insert_entry k j v ((i, w) ∷ entries) =
      ground (
        arith,
        lookup-insert_entry k j v entries,
        key.beq_iff k j,
        key.beq_iff k i,
        key.beq_iff i j,
      )

  All-insert_entry :
      (P : K → Type 0) (k : K) (v : V) (entries : List (K × V))
      → P k
      → All P (keys entries)
      → All P (keys (insert_entry k v entries))
  All-insert_entry P k v [] p h = (p, tt)
  All-insert_entry P k v ((i, w) ∷ entries) p h = elim (Bool-cases (key.blt k i)) [
    | inl e ↦ rw e (p, h)
    | inr e ↦ elim (Bool-cases (key.beq k i)) [
      | inl f ↦ rw e (rw f (p, h.1))
      | inr f ↦ rw e (rw f (h.0, All-insert_entry P k v entries p h.1))
    ]
  ]

  abbrev pub IsSorted : List (K × V) → Type 0
  IsSorted entries = Ascending (λ a b. key.blt a b ≡ true) (keys entries)

  pub insert_entry-IsSorted :
      (k : K) (v : V) (entries : List (K × V))
      → IsSorted entries
      → IsSorted (insert_entry k v entries)
  insert_entry-IsSorted k v [] h = (tt, tt)
  insert_entry-IsSorted k v ((i, w) ∷ entries) h = elim (Bool-cases (key.blt k i)) [
    | inl e ↦ rw e ((e, All-map _ _ (keys entries) (λ j. key.blt_trans k i j e) h.0), h)
    | inr e ↦ elim (Bool-cases (key.beq k i)) [
      | inl f ↦ rw e (rw f (rw ((key.beq_iff k i).0 f) h))
      | inr f ↦ rw e (
          rw f (
            All-insert_entry _ k v entries (key.blt_total k i f e) h.0,
            insert_entry-IsSorted k v entries h.1,
          ))
    ]
  ]

  All-remove_entry :
      (P : K → Type 0) (k : K) (entries : List (K × V))
      → All P (keys entries)
      → All P (keys (remove_entry k entries))
  All-remove_entry P k [] h = tt
  All-remove_entry P k ((i, w) ∷ entries) h = elim (Bool-cases (key.beq i k)) [
    | inl e ↦ rw e h.1
    | inr e ↦ rw e (h.0, All-remove_entry P k entries h.1)
  ]

  pub remove_entry-IsSorted :
      (k : K) (entries : List (K × V)) → IsSorted entries → IsSorted (remove_entry k entries)
  remove_entry-IsSorted k [] h = tt
  remove_entry-IsSorted k ((i, w) ∷ entries) h = elim (Bool-cases (key.beq i k)) [
    | inl e ↦ rw e h.1
    | inr e ↦ rw e (All-remove_entry _ k entries h.0, remove_entry-IsSorted k entries h.1)
  ]

  pub lookup-remove_entry :
      (k j : K) (entries : List (K × V))
      → IsSorted entries
      → lookup key j (remove_entry k entries) ≡ (if key.beq k j then none else lookup key j entries)
  unfolding lookup
  lookup-remove_entry k j [] h = ground arith
  lookup-remove_entry k j ((i, w) ∷ entries) h = ground (
    arith,
    lookup-remove_entry k j entries h.1,
    lookup_above key i entries h.0,
    key.beq_iff k j,
    key.beq_iff i k,
    key.beq_iff i j,
  )

  pub lookup-nil : (k : K) → lookup {V = V} key k [] ≡ none
  unfolding lookup
  lookup-nil k = refl

  abbrev pub sorted_lists : Tables key V
  sorted_lists = record {
    Table = (entries : List (K × V)) × IsSorted entries;
    empty = ([], tt);
    get = λ t k. lookup key k t.0;
    insert = λ t k v. (insert_entry k v t.0, insert_entry-IsSorted k v t.0 t.1);
    remove = λ t k. (remove_entry k t.0, remove_entry-IsSorted k t.0 t.1);
    iter = λ t. t.0;
    get-empty = lookup-nil;
    get-insert = λ t k j v. lookup-insert_entry k j v t.0;
    get-remove = λ t k j. lookup-remove_entry k j t.0 t.1;
    get-iter = λ t k. refl;
    iter-Ascending = λ t. t.1;
  }
