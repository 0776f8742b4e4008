-- ===== src/Secrets/Rotation.antt =====
-- crates/sirr-server/src/store/db.rs, `rotate`: the secrets before and after.
use sirr.Prelude.{
  ℕ, ℤ, suc, true, false, none, some, List, [], ◌∷◌, ◌≡◌, ◌⊎◌, refl, sym, ap, subst, ◌∙◌, arith,
  Ascending, All, Bool-cases, else_eq, inl, inr,
}
use sirr.Text.{Bytes, bytes_eq, bytes_eq_iff}
use sirr.Text.Utf8.{from_utf8}
use sirr.Result.{Result, Error, ok, err, >>=-eq-ok, ok_injective}
use sirr.Records.{SecretRecord, is_expired}
use sirr.External.Keys.{bytes_key, bytes_lt}
use sirr.External.Tables.{lookup, lookup_above, keys, get-insert_ne}
use sirr.Database.{Env, Db, Store}
use sirr.RecordFormat.{encode, decode, encrypt, decrypt, decode-encode, decrypt-encrypt}
use sirr.Secrets.{Table}
use sirr.Secrets.Scan.{rotate_record, rotate_entries, rotate}
use sirr.Secrets.Stored.{Stored, insert-Stored, Stored-cong}

module _ (env : Env) (old_key new_key : Bytes) (new_version : ℕ) where
  -- The record that a rotation writes.
  abbrev pub rotated : Bytes → Bytes → SecretRecord → SecretRecord
  rotated ciphertext nonce r = record r { value_encrypted = ciphertext; nonce = nonce }

  rotate_record_inserts :
      (nonce k : Bytes) (r : SecretRecord) (t t' : Table env)
      → rotate_record env old_key new_key new_version nonce k r t ≡ ok t'
      → (b : Bytes) × (env.tables.insert t k b ≡ t')
  unfolding rotate_record
  rotate_record_inserts nonce k r t t' h =
      let (p, _, h1) = >>=-eq-ok (decrypt env old_key r.value_encrypted r.nonce) _ h in
      let (c, _, h2) = >>=-eq-ok (encrypt env new_key nonce p) _ h1 in
      let (b, _, h3) = >>=-eq-ok (encode env (rotated c nonce r) new_version) _ h2 in
      (b, ok_injective h3)

  rotate_record_lem :
      (nonce k text : Bytes) (r : SecretRecord) (t t' : Table env) (version : ℕ)
      → decrypt env old_key r.value_encrypted r.nonce ≡ ok text
      → from_utf8 text ≡ some text
      → rotate_record env old_key new_key new_version nonce k r t ≡ ok t'
      → (c : Bytes) × Stored env
          (record { key = new_key; key_version = version })
          t'
          k
          (rotated c nonce r)
          new_version
          text
  unfolding rotate_record
  rotate_record_lem nonce k text r t t' version d u h =
      let store : Store = record { key = new_key; key_version = version } in
      let (c, e, dec) = decrypt-encrypt env new_key nonce text in
      let (b, enc, back) = decode-encode env (rotated c nonce r) new_version in
      let inserted : ok (env.tables.insert t k b) ≡ ok t' = sym (rw d (rw e (rw enc refl))) ∙ h in
      (
        c,
        subst (λ s. Stored env store s k (rotated c nonce r) new_version text)
            (ok_injective inserted)
            (insert-Stored env store t k (rotated c nonce r) new_version text b back dec u),
      )

  module _ (now : ℤ) (nonce : Bytes → Bytes) where
    -- What a rotation of one entry and the others is.
    rotate_step :
        (j b : Bytes) (entries : List (Bytes × Bytes)) (t : Table env) (n : ℕ) (t' : Table env)
        → rotate_entries env now old_key new_key new_version nonce ((j, b) ∷ entries) t ≡ ok (n, t')
        → (d : SecretRecord × ℕ) × (decode env b ≡ ok d)
          × (m : ℕ) × (s : Table env) × (rotate_entries env now old_key new_key new_version nonce
                entries s
              ≡ ok (m, t'))
          × ((is_expired d.0 now ≡ true) × (t ≡ s)
              ⊎ (is_expired d.0 now ≡ false)
                × (rotate_record env old_key new_key new_version (nonce j) j d.0 t ≡ ok s))
    unfolding rotate_entries
    rotate_step j b entries t n t' h =
        let (d, dec, h1) = >>=-eq-ok (decode env b) _ h in
        elim (Bool-cases (is_expired d.0 now)) [
          | inl x ↦ (d, dec, n, t, ground (arith, h1, x), inl (x, refl))
          | inr x ↦
              let (s, here, h2) =
                >>=-eq-ok (rotate_record env old_key new_key new_version (nonce j) j d.0 t) _
                  (else_eq _ x h1) in
              let ((m, s'), rest, h3) =
                >>=-eq-ok (rotate_entries env now old_key new_key new_version nonce entries s) _
                  h2 in
              (
                d,
                dec,
                m,
                s,
                rest ∙ ap (λ last. ok (m, last)) (ap (λ c. c.1) (ok_injective h3)),
                inr (x, here),
              )
        ]

    -- The entries of a rotation touch no other key.
    rotate_entries-elsewhere :
        (k : Bytes) (entries : List (Bytes × Bytes)) (t : Table env) (n : ℕ) (t' : Table env)
        → lookup bytes_key k entries ≡ none
        → rotate_entries env now old_key new_key new_version nonce entries t ≡ ok (n, t')
        → env.tables.get t' k ≡ env.tables.get t k
    unfolding lookup rotate_entries
    rotate_entries-elsewhere k [] t n t' none_at h =
        ap (λ c. env.tables.get c.1 k) (sym (ok_injective h))
    rotate_entries-elsewhere k ((j, b) ∷ entries) t n t' none_at h =
        let (d, _, m, s, rest, step) = rotate_step j b entries t n t' h in
        let ih = rotate_entries-elsewhere k entries s m t' (ground (arith, none_at)) rest in
        elim step [
          | inl (_, same) ↦ ih ∙ ap (λ u. env.tables.get u k) (sym same)
          | inr (_, here) ↦
              let (c, inserted) = rotate_record_inserts (nonce j) j d.0 t s here in
              ih
              ∙ ap (λ u. env.tables.get u k) (sym inserted)
              ∙ get-insert_ne env.tables t j k c (λ e. ground (arith, none_at, bytes_eq_iff j k, e))
        ]

    rotate_entries_lem :
        (k text b : Bytes) (r : SecretRecord) (version : ℕ) (entries : List (Bytes × Bytes))
        (t : Table env) (n : ℕ) (t' : Table env)
        → Ascending (λ x y. bytes_lt x y ≡ true) (keys entries)
        → lookup bytes_key k entries ≡ some b
        → decode env b ≡ ok (r, version)
        → decrypt env old_key r.value_encrypted r.nonce ≡ ok text
        → from_utf8 text ≡ some text
        → is_expired r now ≡ false
        → rotate_entries env now old_key new_key new_version nonce entries t ≡ ok (n, t')
        → (c : Bytes) × Stored env
            (record { key = new_key; key_version = new_version })
            t'
            k
            (rotated c (nonce k) r)
            new_version
            text
    unfolding lookup
    rotate_entries_lem k text b r version [] t n t' asc found dec d u x h =
        absurd (ground (arith, found))
    rotate_entries_lem k text b r version ((j, b') ∷ entries) t n t' asc found dec d u x h =
        let (e, dec', m, s, rest, step) = rotate_step j b' entries t n t' h in
        elim (Bool-cases (bytes_eq j k)) [
          | inr other ↦
              rotate_entries_lem k text b r version entries s m t' asc.1
                (ground (arith, found, other)) dec d u x rest
          | inl same ↦
              let here : j ≡ k = (bytes_eq_iff j k).0 same in
              let same_bytes : b' ≡ b = ground (arith, found, same) in
              let same_record : e.0 ≡ r =
                ap (λ d. d.0) (ok_injective (sym dec' ∙ ap (decode env) same_bytes ∙ dec)) in
              let store : Store = record { key = new_key; key_version = new_version } in
              elim step [
                | inl (old, _) ↦ absurd (ground (arith, old, same_record, x))
                | inr (_, written) ↦
                    let at_k =
                      subst
                        (λ i.
                          rotate_record env old_key new_key new_version (nonce i) i e.0 t ≡ ok s)
                        here written in
                    let of_r =
                      subst
                        (λ q. rotate_record env old_key new_key new_version (nonce k) k q t ≡ ok s)
                        same_record at_k in
                    let (c, stored) =
                      rotate_record_lem (nonce k) k text r t s new_version d u of_r in
                    let none_left =
                      subst (λ i. lookup bytes_key i entries ≡ none) here
                        (lookup_above bytes_key j entries asc.0) in
                    (
                      c,
                      Stored-cong env store s t' k (rotated c (nonce k) r) new_version text
                          (rotate_entries-elsewhere k entries s m t' none_left rest) stored,
                    )
              ]
        ]

    -- An entry that a rotation can go through.
    abbrev pub Rotatable : Bytes → Type 0
    Rotatable b =
        (d : SecretRecord × ℕ) × (decode env b ≡ ok d)
        × ((is_expired d.0 now ≡ true)
            ⊎ ((p : Bytes) × (decrypt env old_key d.0.value_encrypted d.0.nonce ≡ ok p)))

    rotate_entries_total :
        (entries : List (Bytes × Bytes)) (t : Table env)
        → All (λ e. Rotatable e.1) entries
        → (c : ℕ × Table env) × (rotate_entries env now old_key new_key new_version nonce entries t
            ≡ ok c)
    unfolding rotate_entries rotate_record
    rotate_entries_total [] t h = ((0, t), refl)
    rotate_entries_total ((k, b) ∷ entries) t ((d, dec, inl x), h) =
        let (c, e) = rotate_entries_total entries t h in (c, rw dec (rw x e))
    rotate_entries_total ((k, b) ∷ entries) t ((d, dec, inr (p, plain)), h) =
        elim (Bool-cases (is_expired d.0 now)) [
          | inl x ↦ let (c, e) = rotate_entries_total entries t h in (c, rw dec (rw x e))
          | inr x ↦
              let (cipher, enc, _) = decrypt-encrypt env new_key (nonce k) p in
              let (bytes, coded, _) =
                decode-encode env (rotated cipher (nonce k) d.0) new_version in
              let (c, e) = rotate_entries_total entries (env.tables.insert t k bytes) h in
              ((suc c.0, c.1), rw dec (rw x (rw plain (rw enc (rw coded (rw e refl))))))
        ]

module _ (env : Env) (store : Store) (now : ℤ) (new_key : Bytes) (new_version : ℕ)
    (nonce : Bytes → Bytes) (db : Db env) where
  -- If every entry decodes, and decrypts under the old key unless it has expired, a rotation succeeds,
  -- and each unexpired secret can then be read under the new key: with the same text, and the same
  -- record but for the ciphertext and its nonce.
  pub rotate_lem :
      (k text : Bytes) (r : SecretRecord) (version : ℕ)
      → All
          (λ e. Rotatable env store.key new_key new_version now nonce e.1)
          (env.tables.iter db.secrets)
      → Stored env store db.secrets k r version text
      → is_expired r now ≡ false
      → (n : ℕ) × ((rotate env store now new_key new_version nonce db).0 ≡ ok n)
        × (c : Bytes) × Stored env
            (record { key = new_key; key_version = new_version })
            (rotate env store now new_key new_version nonce db).1.secrets
            k
            (record r { value_encrypted = c; nonce = nonce k })
            new_version
            text
  unfolding rotate
  rotate_lem k text r version h s x =
      let ((n, t'), e) =
        rotate_entries_total env store.key new_key new_version now nonce
          (env.tables.iter db.secrets) db.secrets h in
      let (c, stored) =
        rotate_entries_lem env store.key new_key new_version now nonce k text s.bytes r version
          (env.tables.iter db.secrets) db.secrets n t' (env.tables.iter-Ascending db.secrets)
          (sym (env.tables.get-iter db.secrets k) ∙ s.at_key) s.decodes s.decrypts s.is_text x e in
      let done : rotate env store now new_key new_version nonce db
          ≡ (ok n, record db { secrets = t' }) =
        rw (e, rotate) refl in
      (n, rw done refl, c, rw done stored)

  -- A rotation that fails leaves the database as it was.
  pub rotate_failed :
      (e : Error)
      → (rotate env store now new_key new_version nonce db).0 ≡ err e
      → (rotate env store now new_key new_version nonce db).1 ≡ db
  unfolding rotate
  rotate_failed e h = go _ refl
    where
      go :
          (found : Result (ℕ × Table env))
          → rotate_entries env now store.key new_key new_version nonce
              (env.tables.iter db.secrets)
              db.secrets
            ≡ found
          → (rotate env store now new_key new_version nonce db).1 ≡ db
      go (ok c) eq = absurd (ground (arith, h, eq))
      go (err e') eq = rw (eq, rotate) refl
