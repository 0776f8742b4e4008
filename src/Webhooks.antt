-- ===== src/Webhooks.antt =====
-- crates/sirr-server/src/store/webhooks.rs, the registered webhooks, and webhooks.rs: which events a
-- registration takes and which URLs a secret may name.
pub mod Allowed
pub mod Brackets
pub mod Guard
pub mod Sender
use sirr.Prelude.{
  ℕ, suc, Bool, true, false, ◌||◌, Option, none, some, List, [], ◌∷◌, ◌≡◌, refl, subst, ap, ◌∙◌,
  any, length, select, if◌then◌else◌,
}
use sirr.Text.{Bytes, codes, bytes_eq}
use sirr.Result.{Result, ok, err, ◌>>=◌, >>=-eq-ok, ok_injective}
use sirr.Records.{WebhookRegistration}
use sirr.Database.{Env, Db}
use sirr.Directory.{decode_under, is_present}

-- `reg.org_id.as_deref() == Some(org_id)`.
unfoldable pub is_of_org : Bytes → WebhookRegistration → Bool
is_of_org org_id reg = elim reg.org_id [ none ↦ false | some o ↦ bytes_eq o org_id ]

module _ (env : Env) where
  unfoldable pub put_webhook : WebhookRegistration → Db env → Result (Unit {0}) × Db env
  put_webhook reg db = elim (env.webhook_codec.encode reg) [
    | ok bytes ↦ (ok tt, record db { webhooks = env.tables.insert db.webhooks reg.id bytes })
    | err e ↦ (err e, db)
  ]

  unfoldable pub registrations : List (Bytes × Bytes) → Result (List WebhookRegistration)
  registrations [] = ok []
  registrations ((k, bytes) ∷ entries) = do
    reg ← env.webhook_codec.decode bytes
    regs ← registrations entries
    ok (reg ∷ regs)

  unfoldable pub list_webhooks : Db env → Result (List WebhookRegistration)
  list_webhooks db = registrations (env.tables.iter db.webhooks)

  unfoldable pub delete_webhook : Bytes → Db env → Result Bool × Db env
  delete_webhook id db = (
    ok (is_present (env.tables.get db.webhooks id)),
    record db { webhooks = env.tables.remove db.webhooks id },
  )

  -- `table.len()`.
  unfoldable pub count_webhooks : Db env → Result ℕ
  count_webhooks db = ok (length (env.tables.iter db.webhooks))

  unfoldable pub registrations_of : Bytes → List (Bytes × Bytes) → Result (List WebhookRegistration)
  registrations_of org_id [] = ok []
  registrations_of org_id ((k, bytes) ∷ entries) = do
    reg ← env.webhook_codec.decode bytes
    regs ← registrations_of org_id entries
    ok (if is_of_org org_id reg then reg ∷ regs else regs)

  unfoldable pub list_webhooks_for_org : Bytes → Db env → Result (List WebhookRegistration)
  list_webhooks_for_org org_id db = registrations_of org_id (env.tables.iter db.webhooks)

  unfoldable pub count_webhooks_for_org : Bytes → Db env → Result ℕ
  count_webhooks_for_org org_id db = do regs ← list_webhooks_for_org org_id db; ok (length regs)

  registrations_of_lem :
      (org_id : Bytes) (entries : List (Bytes × Bytes)) (regs : List WebhookRegistration)
      → registrations entries ≡ ok regs
      → (registrations_of org_id entries ≡ ok (select (is_of_org org_id) regs))
        × (length entries ≡ length regs)
  unfolding registrations registrations_of
  registrations_of_lem org_id [] regs h =
      subst
        (λ rs. (registrations_of org_id [] ≡ ok (select (is_of_org org_id) rs)) × (0 ≡ length rs))
        (ok_injective h) (refl, refl)
  registrations_of_lem org_id ((k, bytes) ∷ entries) regs h =
      let (reg, dec, h') = >>=-eq-ok (env.webhook_codec.decode bytes) _ h in
      let (rest, found, h'') = >>=-eq-ok (registrations entries) _ h' in
      let (chosen, counted) = registrations_of_lem org_id entries rest found in
      subst
        (λ rs.
          (registrations_of org_id ((k, bytes) ∷ entries) ≡ ok (select (is_of_org org_id) rs))
          × (suc (length entries) ≡ length rs))
        (ok_injective h'') (rw dec (rw chosen refl), ap suc counted)

  -- Where the webhooks are listed, those of an organisation are the ones among them that name it, and
  -- both counts are the lengths of the lists.
  pub list_webhooks_for_org_lem :
      (org_id : Bytes) (db : Db env) (regs : List WebhookRegistration)
      → list_webhooks db ≡ ok regs
      → (list_webhooks_for_org org_id db ≡ ok (select (is_of_org org_id) regs))
        × (count_webhooks_for_org org_id db ≡ ok (length (select (is_of_org org_id) regs)))
        × (count_webhooks db ≡ ok (length regs))
  unfolding list_webhooks list_webhooks_for_org count_webhooks_for_org count_webhooks
  list_webhooks_for_org_lem org_id db regs h =
      let (chosen, counted) = registrations_of_lem org_id (env.tables.iter db.webhooks) regs h in
      (chosen, rw chosen refl, ap ok counted)

-- `matches_event`.
unfoldable pub matches_event : List Bytes → Bytes → Bool
matches_event subscribed event_type =
    any (λ e. bytes_eq e (codes "*") || bytes_eq e event_type) subscribed
