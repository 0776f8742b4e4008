-- ===== src/External/Counting.antt =====
-- How many entries of a table satisfy a test, before and after an insertion.
use sirr.Prelude.{
  suc, ◌≤◌, Bool, true, false, ◌||◌, some, List, [], ◌∷◌, length, select, All, Ascending, ◌≡◌, refl,
  sym, ap, ap₂, ◌∙◌, arith, if◌then◌else◌, Bool-cases, inl, inr,
}
use sirr.External.Keys.{Key}
use sirr.External.Tables.{Tables, lookup, keys, All-entries}

module _ {K : Type 0} (key : Key K) where
  elem : K → List K → Bool
  elem j [] = false
  elem j (k ∷ ks) = key.beq j k || elem j ks

  -- The list without the first occurrence of the key.
  without : K → List K → List K
  without j [] = []
  without j (k ∷ ks) = if key.beq j k then ks else k ∷ without j ks

  length-without :
      (j : K) (ks : List K) → elem j ks ≡ true → length ks ≡ suc (length (without j ks))
  unfolding elem without
  length-without j [] h = absurd (ground (arith, h))
  length-without j (k ∷ ks) h = ground (arith, h, length-without j ks)

  elem-without :
      (i j : K) (ks : List K)
      → key.beq i j ≡ false
      → elem i ks ≡ true
      → elem i (without j ks) ≡ true
  unfolding elem without
  elem-without i j [] ne h = h
  elem-without i j (k ∷ ks) ne h =
      ground
        (arith, ne, h, elem-without i j ks ne, key.beq_iff i j, key.beq_iff i k, key.beq_iff j k)

  -- Later keys are other keys.
  All-without :
      (j : K) (js ks : List K)
      → All (λ i. key.blt j i ≡ true) js
      → All (λ i. elem i ks ≡ true) js
      → All (λ i. elem i (without j ks) ≡ true) js
  All-without j [] ks above h = tt
  All-without j (i ∷ js) ks (lt, above) (there, h) = (
    elem-without i j ks (ground (arith, key.blt-beq j i lt, key.beq_iff i j, key.beq_iff j i))
        there,
    All-without j js ks above h,
  )

  -- Keys in ascending order that all are in a list are no more than the list has.
  pigeonhole :
      (js ks : List K)
      → Ascending (λ a b. key.blt a b ≡ true) js
      → All (λ j. elem j ks ≡ true) js
      → length js ≤ length ks
  pigeonhole [] ks asc h = omega arith
  pigeonhole (j ∷ js) ks (above, asc) (there, h) = omega (
    arith,
    pigeonhole js (without j ks) asc (All-without j js ks above h),
    length-without j ks there,
  )

module _ {K V : Type 0} (key : Key K) (P : K → V → Bool) where
  abbrev passes : K × V → Bool
  passes e = P e.0 e.1

  select-above :
      (j : K) (entries : List (K × V))
      → All (λ i. key.blt j i ≡ true) (keys entries)
      → All (λ i. key.blt j i ≡ true) (keys (select passes entries))
  select-above j [] h = tt
  select-above j ((i, v) ∷ entries) (lt, h) = elim (Bool-cases (P i v)) [
    | inl y ↦ rw y (lt, select-above j entries h)
    | inr n ↦ rw n (select-above j entries h)
  ]

  select-Ascending :
      (entries : List (K × V))
      → Ascending (λ a b. key.blt a b ≡ true) (keys entries)
      → Ascending (λ a b. key.blt a b ≡ true) (keys (select passes entries))
  select-Ascending [] h = tt
  select-Ascending ((i, v) ∷ entries) (above, h) = elim (Bool-cases (P i v)) [
    | inl y ↦ rw y (select-above i entries above, select-Ascending entries h)
    | inr n ↦ rw n (select-Ascending entries h)
  ]

  lookup-selected :
      (j : K) (w : V) (entries : List (K × V))
      → lookup key j entries ≡ some w
      → P j w ≡ true
      → elem key j (keys (select passes entries)) ≡ true
  unfolding lookup elem
  lookup-selected j w [] h p = absurd (ground (arith, h))
  lookup-selected j w ((i, v) ∷ entries) h p = elim (Bool-cases (P i v)) [
    | inl y ↦
        rw y (ground (arith, h, lookup-selected j w entries, p, key.beq_iff i j, key.beq_iff j i))
    | inr n ↦ elim (Bool-cases (key.beq i j)) [
      | inl same ↦ absurd (ground (arith, n, p, ap₂ P ((key.beq_iff i j).0 same) (found same)))
      | inr other ↦ rw n (lookup-selected j w entries (ground (arith, h, other)) p)
    ]
  ]
    where
      found : key.beq i j ≡ true → v ≡ w
      found same = ground (arith, h, same)

  length-keys : (entries : List (K × V)) → length (keys entries) ≡ length entries
  length-keys [] = refl
  length-keys ((k, v) ∷ entries) = ap suc (length-keys entries)

  -- What is known of the entries that pass.
  selected :
      (Q : K → Type 0) (entries : List (K × V))
      → All (λ e. P e.0 e.1 ≡ true → Q e.0) entries
      → All Q (keys (select passes entries))
  selected Q [] h = tt
  selected Q ((k, v) ∷ entries) (here, h) = elim (Bool-cases (P k v)) [
    | inl y ↦ rw y (here y, selected Q entries h)
    | inr n ↦ rw n (selected Q entries h)
  ]

  -- Those that pass after an insertion are one more at most.
  pub length-select-insert :
      (tables : Tables key V) (t : tables.Table) (k : K) (v : V)
      → length (select passes (tables.iter (tables.insert t k v)))
        ≤ suc (length (select passes (tables.iter t)))
  unfolding elem
  length-select-insert tables t k v =
      let after = tables.iter (tables.insert t k v) in
      let before = select passes (tables.iter t) in
      omega (
        arith,
        pigeonhole key (keys (select passes after)) (k ∷ keys before)
            (select-Ascending after (tables.iter-Ascending (tables.insert t k v)))
            (selected (λ j. elem key j (k ∷ keys before) ≡ true) after
              (All-entries key (λ j w. P j w ≡ true → elem key j (k ∷ keys before) ≡ true) after
                (tables.iter-Ascending (tables.insert t k v)) known)),
        length-keys (select passes after),
        length-keys before,
      )
    where
      known :
          (j : K) (w : V)
          → lookup key j (tables.iter (tables.insert t k v)) ≡ some w
          → P j w ≡ true
          → elem key j (k ∷ keys (select passes (tables.iter t))) ≡ true
      known j w h p = elim (Bool-cases (key.beq k j)) [
        | inl same ↦ ground (arith, same, key.beq_iff k j, key.beq_iff j k)
        | inr other ↦ ground (
          arith,
          lookup-selected j w (tables.iter t)
              (sym (tables.get-iter t j)
                ∙ ground (
                  arith,
                  tables.get-insert t k j v,
                  tables.get-iter (tables.insert t k v) j,
                  other,
                  h,
                ))
              p,
        )
      ]
