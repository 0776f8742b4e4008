-- ===== src/Database/Keeps.antt =====
-- Properties of the tables that a write transaction keeps, by the ways to build one.
use sirr.Prelude.{◌≡◌, refl, Bool, true, false, if◌then◌else◌, Option, none, some}
use sirr.Result.{Result, ok, err}
use sirr.Database.{Txn, commit, abort, outcome, ◌>>=◌}

-- From the tables `t` the transaction leaves tables with `P`, however it ends.
pub record Keeps {ℓ} {T : Type 0} {A : Type ℓ} (P : T → Type 0) (t : T) (txn : Txn T A)
    : Type 0 where
  pub at : P (outcome txn t).1

module _ {ℓ} {T : Type 0} {A : Type ℓ} {P : T → Type 0} {t : T} where
  pub Keeps-commit : (a : A) (t' : T) → P t' → Keeps P t (commit a t')
  Keeps-commit a t' h = record { at = h }

  pub Keeps-abort : (r : Result A) → P t → Keeps P t (abort r)
  Keeps-abort r h = record { at = h }

  pub Keeps-if :
      (b : Bool) (m n : Txn T A) → Keeps P t m → Keeps P t n → Keeps P t (if b then m else n)
  Keeps-if true m n km kn = km
  Keeps-if false m n km kn = kn

  pub Keeps-bind {κ} :
      {B : Type κ} (m : Result B) (f : B → Txn T A)
      → P t
      → ((b : B) → m ≡ ok b → Keeps P t (f b))
      → Keeps P t (m >>= f)
  Keeps-bind (ok b) f h kf = kf b refl
  Keeps-bind (err e) f h kf = record { at = h }

  pub Keeps-elim {κ} :
      {B : Type κ} (o : Option B) (m : Txn T A) (f : B → Txn T A)
      → Keeps P t m
      → ((b : B) → o ≡ some b → Keeps P t (f b))
      → Keeps P t (elim o [ none ↦ m | some b ↦ f b ])
  Keeps-elim none m f km kf = km
  Keeps-elim (some b) m f km kf = kf b refl

pub ruleset keeps_rules = (Keeps-commit, Keeps-abort, Keeps-if, Keeps-bind, Keeps-elim)
