-- ===== src/Result.antt =====
-- The errors that the store reports through `anyhow`, and the results that carry them.
use sirr.Prelude.{Bool, true, false, Option, none, some, ◌≡◌, refl}
use native.Mathlib.Omega.{arith}
use sirr.Text.{Bytes}

pub data Error : Type 0 where
  bincode_encode bincode_decode : Error
  empty_record truncated_record : Error
  encrypt_failed decrypt_failed invalid_utf8 : Error
  -- "cannot patch a secret with delete=true" and "sealed: secret read limit exhausted".
  cannot_patch read_limit_exhausted : Error
  secret_not_found : Error
  still_has_principals has_active_keys : Bytes → Error
  builtin_role : Bytes → Error
  role_in_use : Bytes → Bytes → Error

pub data Result {ℓ} (A : Type ℓ) : Type ℓ where
  ok : A → Result A
  err : Error → Result A

infixl 5 ◌>>=◌
abbrev pub ◌>>=◌ {ℓ κ} : {A : Type ℓ} {B : Type κ} → Result A → (A → Result B) → Result B
err e >>= next = err e
ok a >>= next = next a

-- `.context(…)` on an optional value: `none` becomes the error.
abbrev pub or_error {ℓ} : {A : Type ℓ} → Error → Option A → Result A
or_error e none = err e
or_error e (some a) = ok a

-- Inversion of a bind that succeeds.
pub >>=-eq-ok {ℓ κ} :
    {A : Type ℓ} {B : Type κ} {last : B} (first : Result A) (next : A → Result B)
    → (first >>= next) ≡ ok last
    → (a : A) × (first ≡ ok a) × (next a ≡ ok last)
>>=-eq-ok (err e) next h = absurd (ground (arith, h))
>>=-eq-ok (ok a) next h = (a, refl, h)

pub ok_injective {ℓ} : {A : Type ℓ} {a b : A} → ok a ≡ ok b → a ≡ b
ok_injective e = cc

abbrev pub is_err {ℓ} : {A : Type ℓ} → Result A → Bool
is_err (ok a) = false
is_err (err e) = true

-- Where a check fails, what follows it is not done.
pub elim-is_err {ℓ κ} :
    {A : Type ℓ} {B : Type κ} {Db : Type 0} (m : Result A) (f : A → Result B × Db) (db : Db)
    → is_err m ≡ true
    → (e : Error) × (elim m [ ok a ↦ f a | err e ↦ (err e, db) ] ≡ (err e, db))
elim-is_err (ok a) f db h = absurd (ground (arith, h))
elim-is_err (err e) f db h = (e, refl)

-- A bind fails where its first part does, or where what follows does.
pub is_err-bind {ℓ κ} :
    {A : Type ℓ} {B : Type κ} (m : Result A) (f : A → Result B)
    → ((a : A) → m ≡ ok a → is_err (f a) ≡ true)
    → is_err (m >>= f) ≡ true
is_err-bind (ok a) f h = h a refl
is_err-bind (err e) f h = refl
