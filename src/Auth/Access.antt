-- ===== src/Auth/Access.antt =====
-- crates/sirr-server/src/auth.rs, `can_access_secret`: whose secrets an identity reaches.
use sirr.Prelude.{
  true, Option, none, some, ◌≡◌, ◌↔◌, ◌⊎◌, inl, inr, refl, sym, subst, arith, Bool-cases,
}
use sirr.Text.{Bytes, bytes_eq_iff}
use sirr.Permissions.{PermBit, has}
use sirr.Auth.{Principal, ResolvedAuth, master, principal, is_owner, can_access_secret}

-- A principal with the bit for the organisation, or with the bit for its own secrets and as the owner.
abbrev pub Reaches : Principal → Option Bytes → PermBit → PermBit → Type 0
Reaches p owner my_bit org_bit =
    (has p.permissions org_bit ≡ true)
    ⊎ ((has p.permissions my_bit ≡ true) × (owner ≡ some p.principal_id))

principal_injective : {p q : Principal} → principal p ≡ principal q → p ≡ q
principal_injective e = cc

is_owner_iff : (owner : Option Bytes) (id : Bytes) → (is_owner owner id ≡ true) ↔ (owner ≡ some id)
unfolding is_owner
is_owner_iff none id = ground arith
is_owner_iff (some o) id = ground (arith, bytes_eq_iff o id)

-- A secret is reached exactly by a principal that has the permission bit for the whole organisation,
-- or that owns the secret and has the bit for its own; never by the master.
pub can_access_secret_iff :
    (auth : ResolvedAuth) (owner : Option Bytes) (my_bit org_bit : PermBit)
    → (can_access_secret auth owner my_bit org_bit ≡ true)
      ↔ ((p : Principal) × (auth ≡ principal p) × Reaches p owner my_bit org_bit)
unfolding can_access_secret
can_access_secret_iff master owner my_bit org_bit =
    ((λ h. absurd (ground (arith, h))), λ (p, e, r). absurd (ground (arith, e)))
can_access_secret_iff (principal p) owner my_bit org_bit = (forward, backward)
  where
    forward :
        can_access_secret (principal p) owner my_bit org_bit ≡ true
        → (q : Principal) × (principal p ≡ principal q) × Reaches q owner my_bit org_bit
    forward h = elim (Bool-cases (has p.permissions org_bit)) [
      | inl o ↦ (p, refl, inl o)
      | inr n ↦ elim (Bool-cases (has p.permissions my_bit)) [
        | inl m ↦
            (p, refl, inr (m, (is_owner_iff owner p.principal_id).0 (ground (arith, h, n, m))))
        | inr k ↦ absurd (ground (arith, h, n, k))
      ]
    ]

    reached :
        Reaches p owner my_bit org_bit → can_access_secret (principal p) owner my_bit org_bit ≡ true
    reached (inl o) = rw o refl
    reached (inr (m, e)) = ground (arith, m, (is_owner_iff owner p.principal_id).1 e)

    backward :
        ((q : Principal) × (principal p ≡ principal q) × Reaches q owner my_bit org_bit)
        → can_access_secret (principal p) owner my_bit org_bit ≡ true
    backward (q, e, r) =
        reached (subst (λ x. Reaches x owner my_bit org_bit) (sym (principal_injective e)) r)
