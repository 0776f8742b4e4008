-- ===== src/Text/Decimal.antt =====
-- Numbers as `format!` prints them, in decimal.
use sirr.Prelude.{
  ℕ, zero, suc, ◌+◌, ◌*◌, ◌-◌, ◌/◌, ◌%◌, ◌<◌, ◌≡◌, [], ◌∷◌, arith, ltb, if◌then◌else◌,
}
use sirr.Text.{Bytes}

-- The digits of a number in front of those there are.
digits : ℕ → ℕ → Bytes → Bytes
digits zero n acc = acc
digits (suc fuel) n acc =
    let rest = digits fuel (n / 10) ((b'0' + n % 10) ∷ acc) in
    if ltb n 10 then (b'0' + n % 10) ∷ acc else rest

unfoldable pub decimal : ℕ → Bytes
unfolding digits
decimal n = digits (suc n) n []

-- The number that digits stand for, behind the one read so far.
read_from : ℕ → Bytes → ℕ
read_from n [] = n
read_from n (c ∷ s) = read_from (n * 10 + (c - b'0')) s

read-digits :
    (fuel n : ℕ) (acc : Bytes) → n < fuel → read_from 0 (digits fuel n acc) ≡ read_from n acc
unfolding digits read_from
read-digits zero n acc h = absurd (omega arith)
read-digits (suc fuel) n acc h =
    ground (arith, read-digits fuel (n / 10) ((b'0' + n % 10) ∷ acc), whole)
  where
    whole : n / 10 * 10 + (b'0' + n % 10 - b'0') ≡ n
    whole = omega arith

-- The fuel is enough: what is printed is read back as the number.
read-decimal : (n : ℕ) → read_from 0 (decimal n) ≡ n
unfolding decimal read_from
read-decimal n = read-digits (suc n) n [] (omega arith)
