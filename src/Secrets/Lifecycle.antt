-- ===== src/Secrets/Lifecycle.antt =====
-- crates/sirr-server/src/store/db.rs: `put` and `get` and the machine of `Machine`.
use sirr.Prelude.{
  ◌∙◌, ap, subst, sym, ℕ, ℤ, ◌-◌, ◌<◌, ◌^◌, Bool, true, false, Option, none, some, ◌≡◌, ◌≢◌, refl,
  arith, ltb, Bool-cases, inl, inr,
}
use sirr.Text.{Bytes}
use sirr.Text.Utf8.{from_utf8}
use sirr.Result.{ok}
use sirr.Records.{SecretRecord, GetResult, value, burned, is_expired, is_burned, is_sealed}
use sirr.External.Tables.{get-remove_self, get-remove_ne}
use sirr.Database.{Env, Db, Store, commit}
use sirr.Secrets.{Table, counted, deadline, map_option, get, put, get_txn}
use sirr.Secrets.Stored.{
  Stored, put_record, put-Stored, get_txn-expired, get_txn-sealed, get_txn-burned, get_txn-kept,
}
use sirr.Secrets.Machine.{
  Follows, InPhase, Phase, ReadsLeft, Terms, burned_if_last, gone, has_expired-is_expired,
  last_read, live, never_burned, one_fewer, sealed_if_last, spec_get, spent, unsealed, use_read,
}

-- What a step of the machine is for the table.
abbrev Steps : (env : Env) → Store → ℤ → Table env → Bytes → Terms → GetResult × Phase → Type 0
Steps env store now t k terms next =
    (t' : Table env) × (get_txn env store now k t ≡ commit next.0 t')
    × InPhase env store t' k terms next.1
    × ((j : Bytes) → k ≢ j → env.tables.get t' j ≡ env.tables.get t j)

module _ (env : Env) (store : Store) (now : ℤ) (t : Table env) (k : Bytes) (terms : Terms) where
  removed :
      {g : GetResult}
      → get_txn env store now k t ≡ commit g (env.tables.remove t k)
      → Steps env store now t k terms (g, gone)
  unfolding InPhase
  removed e = (
    env.tables.remove t k,
    e,
    get-remove_self env.tables t k,
    λ j ne. get-remove_ne env.tables t k j ne,
  )

  module _ (r : SecretRecord) (version : ℕ) (s : Stored env store t k r version terms.text)
      (f : Follows r terms) where
    step_spent : is_sealed r ≡ true → Steps env store now t k terms (spec_get terms now spent)
    unfolding spec_get InPhase
    step_spent e = elim (Bool-cases (is_expired r now)) [
      | inl x ↦
          rw (← has_expired-is_expired now f)
            (rw x (removed (get_txn-expired env store t k r version terms.text now s x)))
      | inr x ↦ rw (← has_expired-is_expired now f) (
          rw x (
            t,
            get_txn-sealed env store t k r version terms.text now s x e,
            (r, version, s, f, e),
            λ j ne. refl,
          ))
    ]

    -- The read that is written back.
    kept :
        is_expired r now ≡ false
        → is_sealed r ≡ false
        → is_burned (counted r) ≡ false
        → (next : Phase)
        → ((t' : Table env)
            → Stored env store t' k (counted r) version terms.text
            → InPhase env store t' k terms next)
        → Steps env store now t k terms (value terms.text terms.webhook_url, next)
    kept x u b next phase =
        let (t', e, s', frame) = get_txn-kept env store t k r version terms.text now s x u b in
        (t', e ∙ ap (λ hook. commit (value terms.text hook) t') f.webhook_url, phase t' s', frame)

    counted-Follows : Follows (counted r) terms
    counted-Follows = record {
      webhook_url = f.webhook_url;
      delete = f.delete;
      expires_at = f.expires_at;
    }

    use_unlimited :
        is_expired r now ≡ false
        → ReadsLeft r none
        → Steps env store now t k terms (use_read terms none)
    unfolding use_read InPhase ReadsLeft
    use_unlimited x h =
        kept x (unsealed r none h) (never_burned r h) (live none)
          (λ t' s'. (counted r, version, s', counted-Follows, h))

    use_last :
        (n : ℕ)
        → is_expired r now ≡ false
        → ReadsLeft r (some n)
        → ltb 1 n ≡ false
        → Steps env store now t k terms (use_read terms (some n))
    unfolding use_read InPhase
    use_last n x h last =
        let with_flag = λ (b : Bool). Steps env store now t k terms (last_read terms b) in
        let u = unsealed r (some n) h in
        elim (Bool-cases terms.delete) [
          | inl d ↦ rw last (
              subst with_flag (sym d) (
                removed (
                  get_txn-burned env store t k r version terms.text now s x u
                    (burned_if_last r n h ∙ rw last (f.delete ∙ d))
                  ∙ ap (λ hook. commit (burned terms.text hook) (env.tables.remove t k))
                      f.webhook_url)))
          | inr d ↦ rw last (
              subst with_flag (sym d) (
                kept x u (burned_if_last r n h ∙ rw last (f.delete ∙ d)) spent (λ t' s'. (
                  counted r,
                  version,
                  s',
                  counted-Follows,
                  sealed_if_last r n h last (f.delete ∙ d),
                ))))
        ]

    use_limited :
        (n : ℕ)
        → is_expired r now ≡ false
        → ReadsLeft r (some n)
        → Steps env store now t k terms (use_read terms (some n))
    unfolding use_read InPhase
    use_limited n x h = elim (Bool-cases (ltb 1 n)) [
      | inl more ↦ rw more (
          kept x (unsealed r (some n) h) (burned_if_last r n h ∙ rw more) (live (some (n - 1)))
            (λ t' s'. (counted r, version, s', counted-Follows, one_fewer r n h more)))
      | inr last ↦ use_last n x h last
    ]

    use_left :
        (left : Option ℕ)
        → is_expired r now ≡ false
        → ReadsLeft r left
        → Steps env store now t k terms (use_read terms left)
    use_left none = use_unlimited
    use_left (some n) = use_limited n

    step_live :
        (left : Option ℕ)
        → ReadsLeft r left
        → Steps env store now t k terms (spec_get terms now (live left))
    unfolding spec_get
    step_live left h = elim (Bool-cases (is_expired r now)) [
      | inl x ↦
          rw (← has_expired-is_expired now f)
            (rw x (removed (get_txn-expired env store t k r version terms.text now s x)))
      | inr x ↦ rw (← has_expired-is_expired now f) (rw x (use_left left x h))
    ]

  step_gone : env.tables.get t k ≡ none → Steps env store now t k terms (spec_get terms now gone)
  unfolding spec_get InPhase get_txn
  step_gone h = (t, rw (h, get_txn), h, λ j ne. refl)

  get_txn-spec_get :
      (ph : Phase)
      → InPhase env store t k terms ph
      → Steps env store now t k terms (spec_get terms now ph)
  unfolding InPhase
  get_txn-spec_get gone h = step_gone h
  get_txn-spec_get spent (r, version, s, f, h) = step_spent r version s f h
  get_txn-spec_get (live left) (r, version, s, f, h) = step_live r version s f left h

-- A read is one step of the machine: the reply and the next phase are those of `spec_get`, and no
-- other key is touched.
pub get-spec_get :
    (env : Env) (store : Store) (now : ℤ) (k : Bytes) (terms : Terms) (ph : Phase) (db : Db env)
    → InPhase env store db.secrets k terms ph
    → ((get env store now k db).0 ≡ ok (spec_get terms now ph).0)
      × InPhase env store (get env store now k db).1.secrets k terms (spec_get terms now ph).1
      × ((j : Bytes)
          → k ≢ j
          → env.tables.get (get env store now k db).1.secrets j ≡ env.tables.get db.secrets j)
unfolding get
get-spec_get env store now k terms ph db h =
    let (t', e, h', frame) = get_txn-spec_get env store now db.secrets k terms ph h in
    (rw e, rw e h', λ j ne. rw e (frame j ne))

-- The terms of a `put`.
abbrev pub terms_of : ℤ → Bytes → Option ℕ → Bool → Option Bytes → Terms
terms_of now text ttl delete hook = record {
  text = text;
  webhook_url = hook;
  delete = delete;
  expires_at = map_option (deadline now) ttl;
}

-- A limit on reads that the handlers accept: at least one, and a `u32`.
abbrev pub IsLimit : Option ℕ → Type 0
IsLimit none = Unit
IsLimit (some n) = (0 < n) × (n < 2 ^ 32)

pub fresh-ReadsLeft :
    (r : SecretRecord) (limit : Option ℕ)
    → r.read_count ≡ 0
    → r.max_reads ≡ limit
    → IsLimit limit
    → ReadsLeft r limit
unfolding ReadsLeft
fresh-ReadsLeft r none z e h = e
fresh-ReadsLeft r (some n) z e h = ground arith

-- `put` of a text with an accepted limit starts the machine with that many reads left.
pub put-InPhase :
    (env : Env) (store : Store) (now : ℤ) (nonce k text : Bytes) (ttl limit : Option ℕ)
    (delete : Bool) (hook : Option Bytes) (db : Db env)
    → from_utf8 text ≡ some text
    → IsLimit limit
    → InPhase env store
        (put env store now nonce k text ttl limit delete hook db).1.secrets
        k
        (terms_of now text ttl delete hook)
        (live limit)
unfolding InPhase
put-InPhase env store now nonce k text ttl limit delete hook db u h =
    let (c, e, s, frame) = put-Stored env store now nonce k text ttl limit delete hook db u in
    (
      put_record now nonce c ttl limit delete hook,
      store.key_version,
      s,
      record { webhook_url = refl; delete = refl; expires_at = refl },
      fresh-ReadsLeft _ limit refl refl h,
    )
