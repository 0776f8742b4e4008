-- ===== src/External/Keys.antt =====
-- The key types of the tables with redb's order: bytes by the first difference, numbers by value.
use sirr.Prelude.{ℕ, ◌≡◌, ◌↔◌, Bool, true, false, ◌||◌, ◌&&◌, [], ◌∷◌, arith, ltb, ◌==◌, ==_iff}
use sirr.Text.{Bytes, bytes_eq, bytes_eq_iff}

pub record Key (K : Type 0) : Type 0 where
  pub beq : K → K → Bool
  pub blt : K → K → Bool
  pub beq_iff : (a b : K) → (beq a b ≡ true) ↔ (a ≡ b)
  pub blt_trans : (a b c : K) → blt a b ≡ true → blt b c ≡ true → blt a c ≡ true
  pub blt-beq : (a b : K) → blt a b ≡ true → beq a b ≡ false
  pub blt_total : (a b : K) → beq a b ≡ false → blt a b ≡ false → blt b a ≡ true

unfoldable pub bytes_lt : Bytes → Bytes → Bool
bytes_lt xs [] = false
bytes_lt [] (y ∷ ys) = true
bytes_lt (x ∷ xs) (y ∷ ys) = ltb x y || (x == y && bytes_lt xs ys)

pub bytes_lt_trans :
    (a b c : Bytes) → bytes_lt a b ≡ true → bytes_lt b c ≡ true → bytes_lt a c ≡ true
unfolding bytes_lt
bytes_lt_trans a [] c h k = ground arith
bytes_lt_trans a (y ∷ b) [] h k = ground arith
bytes_lt_trans [] (y ∷ b) (z ∷ c) h k = ground arith
bytes_lt_trans (x ∷ a) (y ∷ b) (z ∷ c) h k = ground (arith, bytes_lt_trans a b c)

pub bytes_lt-eq : (a b : Bytes) → bytes_lt a b ≡ true → bytes_eq a b ≡ false
unfolding bytes_lt bytes_eq
bytes_lt-eq a [] h = ground arith
bytes_lt-eq [] (y ∷ b) h = ground arith
bytes_lt-eq (x ∷ a) (y ∷ b) h = ground (arith, bytes_lt-eq a b)

pub bytes_lt_total :
    (a b : Bytes) → bytes_eq a b ≡ false → bytes_lt a b ≡ false → bytes_lt b a ≡ true
unfolding bytes_lt bytes_eq
bytes_lt_total [] [] h k = ground arith
bytes_lt_total (x ∷ a) [] h k = ground arith
bytes_lt_total [] (y ∷ b) h k = ground arith
bytes_lt_total (x ∷ a) (y ∷ b) h k = ground (arith, bytes_lt_total a b)

pub ltb_trans : (a b c : ℕ) → ltb a b ≡ true → ltb b c ≡ true → ltb a c ≡ true
ltb_trans a b c h k = ground arith

pub ltb-eq : (a b : ℕ) → ltb a b ≡ true → (a == b) ≡ false
ltb-eq a b h = ground arith

pub ltb_total : (a b : ℕ) → (a == b) ≡ false → ltb a b ≡ false → ltb b a ≡ true
ltb_total a b h k = ground arith

abbrev pub bytes_key : Key Bytes
bytes_key = record {
  beq = bytes_eq;
  blt = bytes_lt;
  beq_iff = bytes_eq_iff;
  blt_trans = bytes_lt_trans;
  blt-beq = bytes_lt-eq;
  blt_total = bytes_lt_total;
}

abbrev pub u64_key : Key ℕ
u64_key = record {
  beq = ◌==◌;
  blt = ltb;
  beq_iff = ==_iff;
  blt_trans = ltb_trans;
  blt-beq = ltb-eq;
  blt_total = ltb_total;
}
