-- ===== src/OrgHandlers/Broadcast.antt =====
-- crates/sirr-server/src/org_handlers.rs, `create_org_webhook`, beside crates/sirr-server/src/webhooks.rs:
-- which events the webhook of an organisation is told of.
use sirr.Prelude.{ℕ, ℤ, true, false, none, some, List, [], ◌∷◌, ◌≡◌, refl, sym, ap, ◌∙◌}
use sirr.Text.{Bytes, codes, bytes_eq}
use sirr.Result.{Result, ok, err}
use sirr.Records.{WebhookRegistration}
use sirr.External.Tables.{get-insert_self}
use sirr.Database.{Env, Db}
use sirr.Webhooks.{put_webhook, list_webhooks, matches_event}
use sirr.Webhooks.Sender.{WebhookSender, event_of, takes, fire, tells, Told-registered}
use sirr.OrgHandlers.{Caller, Reply}
use sirr.OrgHandlers.Checks.{
  is_refusal, Refuses, Refuses-reject_if, Refuses-some, Refuses-or, answered_lem,
}
use sirr.OrgHandlers.Hooks.{
  CreateOrgWebhookRequest, or_all_events, check_count, create_webhook_checks, store_webhook,
  create_org_webhook,
}
use sirr.OrgHandlers.Shown.{check_manager-Refuses}
use sirr.OrgHandlers.Quotas.{store_webhook-webhooks}

check_count-Refuses : (n : Result ℕ) → Refuses (check_count n)
unfolding is_refusal
check_count-Refuses (ok n) = Refuses-reject_if _ _ refl
check_count-Refuses (err e) = Refuses-some _ refl

takes_all :
    (event_type : Bytes) (reg : WebhookRegistration)
    → reg.events ≡ codes "*" ∷ []
    → takes event_type reg ≡ true
unfolding matches_event bytes_eq
takes_all event_type reg e = rw e refl

module _ (env : Env) where
  put_webhook-stored :
      (reg : WebhookRegistration) (db : Db env)
      → (b : Bytes) × (env.tables.get (put_webhook env reg db).1.webhooks reg.id ≡ some b)
        × (env.webhook_codec.decode b ≡ ok reg)
  unfolding put_webhook
  put_webhook-stored reg db =
      let (bytes, enc, dec, _) = env.webhook_codec.round_trip reg in
      (bytes, rw (enc, put_webhook) (get-insert_self env.tables db.webhooks reg.id bytes), dec)

  fire-told :
      (sender : WebhookSender) (now : ℤ) (event_type key id bytes : Bytes)
      (reg : WebhookRegistration) (db : Db env) (regs : List WebhookRegistration)
      → env.tables.get db.webhooks id ≡ some bytes
      → env.webhook_codec.decode bytes ≡ ok reg
      → takes event_type reg ≡ true
      → list_webhooks env db ≡ ok regs
      → tells reg.url key (fire env sender now event_type key db) ≡ true
  unfolding fire list_webhooks
  fire-told sender now event_type key id bytes reg db regs at dec match h = rw h (
      Told-registered (event_of sender now event_type key) event_type env id bytes reg
        (env.tables.iter db.webhooks) regs (sym (env.tables.get-iter db.webhooks id) ∙ at) dec match
        h)

  -- A webhook that is created for an organisation without a list of events is told, with its key, of
  -- every event that is fired afterwards; whichever organisation the secret belongs to.
  pub org_webhook_told_of_all :
      (caller : Caller) (now later : ℤ) (id secret org_id : Bytes) (body : CreateOrgWebhookRequest)
      (sender : WebhookSender) (event_type key : Bytes) (db : Db env)
      (regs : List WebhookRegistration)
      → is_refusal (create_org_webhook env caller now id secret org_id body db).0 ≡ false
      → body.events ≡ none
      → list_webhooks env (create_org_webhook env caller now id secret org_id body db).1 ≡ ok regs
      → tells body.url key (
          fire env sender later event_type key
            (create_org_webhook env caller now id secret org_id body db).1)
        ≡ true
  unfolding create_org_webhook create_webhook_checks is_refusal
  org_webhook_told_of_all caller now later id secret org_id body sender event_type key db regs h all
        listed =
      let reg : WebhookRegistration = record {
        id = id;
        url = body.url;
        secret = secret;
        events = or_all_events body.events;
        created_at = now;
        org_id = some org_id;
      } in
      let (passed, same) =
        answered_lem (create_webhook_checks env caller.auth org_id body db) (λ r. (r, db))
          (store_webhook env caller org_id reg db) (λ (a : Reply × Db env). a.0) (λ r. refl)
          (Refuses-or _ _ (check_manager-Refuses caller.auth org_id)
            (Refuses-or _ _ (Refuses-reject_if _ _ refl) (check_count-Refuses _)))
          h in
      let (bytes, at, dec) = put_webhook-stored reg db in
      fire-told sender later event_type key id bytes reg
        (create_org_webhook env caller now id secret org_id body db).1 regs
        (ap (λ (a : Reply × Db env). env.tables.get a.1.webhooks id) same
          ∙ ap (λ t. env.tables.get t id) (store_webhook-webhooks env caller org_id reg db)
          ∙ at)
        dec (takes_all event_type reg (ap or_all_events all)) listed
