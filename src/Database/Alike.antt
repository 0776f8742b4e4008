-- ===== src/Database/Alike.antt =====
-- Write transactions that answer alike on two states of the tables, by the ways to build one.
use sirr.Prelude.{◌≡◌, refl, Bool, true, false, if◌then◌else◌}
use sirr.Result.{Result, ok, err}
use sirr.Database.{Txn, commit, abort, outcome, ◌>>=◌}

-- The caller gets the same from the one transaction as from the other.
pub record Alike {ℓ} {T : Type 0} {A : Type ℓ} (t t' : T) (m m' : Txn T A) : Type ℓ where
  pub reply : (outcome m t).0 ≡ (outcome m' t').0

module _ {ℓ} {T : Type 0} {A : Type ℓ} {t t' : T} where
  pub Alike-commit : (a : A) (u u' : T) → Alike t t' (commit a u) (commit a u')
  Alike-commit a u u' = record { reply = refl }

  pub Alike-abort : (r : Result A) → Alike t t' (abort r) (abort r)
  Alike-abort r = record { reply = refl }

  pub Alike-if :
      (b : Bool) (m m' n n' : Txn T A)
      → Alike t t' m m'
      → Alike t t' n n'
      → Alike t t' (if b then m else n) (if b then m' else n')
  Alike-if true m m' n n' h k = h
  Alike-if false m m' n n' h k = k

  pub Alike-bind {κ} :
      {B : Type κ} (m : Result B) (f f' : B → Txn T A)
      → ((b : B) → Alike t t' (f b) (f' b))
      → Alike t t' (m >>= f) (m >>= f')
  Alike-bind (ok b) f f' h = h b
  Alike-bind (err e) f f' h = record { reply = refl }

pub ruleset alike_rules = (Alike-commit, Alike-abort, Alike-if, Alike-bind)
