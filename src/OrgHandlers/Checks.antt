-- ===== src/OrgHandlers/Checks.antt =====
-- crates/sirr-server/src/org_handlers.rs: chains of checks in front of a request.
use sirr.Prelude.{Bool, true, false, Option, none, some, ◌≡◌, refl, arith, ◌⊎◌, inl, inr}
use sirr.Text.{Bytes, bytes_eq_iff}
use sirr.Auth.{ResolvedAuth, master, principal, Principal}
use sirr.OrgHandlers.{
  Reply, forbidden, internal_error, missing, key_not_authorized, bad_request, payment_required,
  conflict, too_many_webhooks, sealed_gone, read_limit_gone, in_org, reject_if, ◌<|>◌, unless_ended,
}

-- The replies that turn a request away.
unfoldable pub is_refusal : Reply → Bool
is_refusal forbidden = true
is_refusal key_not_authorized = true
is_refusal internal_error = true
is_refusal sealed_gone = true
is_refusal read_limit_gone = true
is_refusal (bad_request reason) = true
is_refusal (payment_required max) = true
is_refusal (missing what) = true
is_refusal (conflict e) = true
is_refusal too_many_webhooks = true
is_refusal _ = false

-- A chain of checks that ends a request turns it away.
pub record Refuses (check : Option Reply) : Type 0 where
  pub refuses : (r : Reply) → check ≡ some r → is_refusal r ≡ true

pub Refuses-reject_if : (b : Bool) (r : Reply) → is_refusal r ≡ true → Refuses (reject_if b r)
unfolding reject_if
Refuses-reject_if true r h = record { refuses = λ s e. ground (arith, h, e) }
Refuses-reject_if false r h = record { refuses = λ s e. absurd (ground (arith, e)) }

pub Refuses-none : Refuses none
Refuses-none = record { refuses = λ s e. absurd (ground (arith, e)) }

pub Refuses-some : (r : Reply) → is_refusal r ≡ true → Refuses (some r)
Refuses-some r h = record { refuses = λ s e. ground (arith, h, e) }

pub Refuses-or : (a b : Option Reply) → Refuses a → Refuses b → Refuses (a <|> b)
unfolding ◌<|>◌
Refuses-or (some r) b h h' = h
Refuses-or none b h h' = h'

-- A request that is not turned away has passed every check.
pub passes_both : (a b : Option Reply) → (a <|> b) ≡ none → (a ≡ none) × (b ≡ none)
unfolding ◌<|>◌
passes_both (some r) b h = absurd (ground (arith, h))
passes_both none b h = (refl, h)

pub passes_reject : (b : Bool) (r : Reply) → reject_if b r ≡ none → b ≡ false
unfolding reject_if
passes_reject true r h = absurd (ground (arith, h))
passes_reject false r h = refl

-- What holds where a check ends the request, and where it has let it go on.
pub unless_ended-case {ℓ κ} :
    {A : Type ℓ} (P : A → Type κ) (check : Option Reply) (stop : Reply → A) (go_on : A)
    → ((r : Reply) → P (stop r))
    → (check ≡ none → P go_on)
    → P (unless_ended check stop go_on)
unless_ended-case P (some r) stop go_on h h' = h r
unless_ended-case P none stop go_on h h' = h' refl

-- A reply that is no refusal comes from behind the checks.
pub answered_lem {ℓ} :
    {A : Type ℓ} (check : Option Reply) (stop : Reply → A) (go_on : A) (reply_of : A → Reply)
    → ((r : Reply) → reply_of (stop r) ≡ r)
    → Refuses check
    → is_refusal (reply_of (unless_ended check stop go_on)) ≡ false
    → (check ≡ none) × (unless_ended check stop go_on ≡ go_on)
answered_lem none stop go_on reply_of same h n = (refl, refl)
answered_lem (some r) stop go_on reply_of same h n =
    absurd (ground (arith, h.refuses r refl, same r, n))

-- A request is turned away with a reply, and comes to `stop` of it, or the statement holds.
abbrev pub EndedOrPassed {ℓ} : {A : Type ℓ} → (Reply → A) → A → Type 0 → Type ℓ
EndedOrPassed stop a Passed = ((r : Reply) × (is_refusal r ≡ true) × (a ≡ stop r)) ⊎ Passed

pub ended_or_passed {ℓ} :
    {A : Type ℓ} {Passed : Type 0} (check : Option Reply) (stop : Reply → A) (go_on : A)
    → Refuses check
    → (check ≡ none → Passed)
    → EndedOrPassed stop (unless_ended check stop go_on) Passed
ended_or_passed none stop go_on h passed = inr (passed refl)
ended_or_passed (some r) stop go_on h passed = inl (r, h.refuses r refl, refl)

-- Whose organisation it is.
pub in_org_lem :
    (auth : ResolvedAuth) (org_id : Bytes)
    → in_org auth org_id ≡ true
    → (p : Principal) × (auth ≡ principal p) × (p.org_id ≡ org_id)
unfolding in_org
in_org_lem master org_id h = absurd (ground (arith, h))
in_org_lem (principal p) org_id h = (p, refl, (bytes_eq_iff p.org_id org_id).0 h)

pub ruleset refusal_rules = (Refuses-reject_if, Refuses-none, Refuses-some, Refuses-or)
