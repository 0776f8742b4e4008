-- ===== src/Samples/Printers.antt =====
-- Printed values, each read back in front of anything, and the codecs of `External` from them.
use sirr.Prelude.{
  ℕ, zero, suc, ℤ, pos, negsuc, Bool, true, false, Option, none, some, ◌≡◌, refl, sym, ap, ◌∙◌,
  List, [], ◌∷◌, ◌++◌, length, arith,
}
use mathlib.Core.List.{append_assoc, append-nil}
use sirr.Text.{Bytes}
use sirr.Result.{Result, ok, err, bincode_decode}
use sirr.External.Codecs.{Codec}

pub record Printer (A : Type 0) : Type 0 where
  pub print : A → Bytes
  pub scan : Bytes → Option (A × Bytes)
  pub scan-print : (a : A) (rest : Bytes) → scan (print a ++ rest) ≡ some (a, rest)

abbrev pub scan_number : Bytes → Option (ℕ × Bytes)
scan_number [] = none
scan_number (n ∷ rest) = some (n, rest)

abbrev pub number : Printer ℕ
number = record { print = λ n. n ∷ []; scan = scan_number; scan-print = λ n rest. refl }

-- A printer of a type that is part of another one.
abbrev pub via :
    {A B : Type 0}
    → Printer B
    → (to : A → B) (from : B → A) → ((a : A) → from (to a) ≡ a)
    → Printer A
via p to from back = record {
  print = λ a. p.print (to a);
  scan = λ s. elim (p.scan s) [ none ↦ none | some x ↦ some (from x.0, x.1) ];
  scan-print = λ a rest. rw p.scan-print (rw back refl);
}

abbrev pub pair : {A B : Type 0} → Printer A → Printer B → Printer (A × B)
pair p q = record {
  print = λ x. p.print x.0 ++ q.print x.1;
  scan = λ s. elim (p.scan s) [
    | none ↦ none
    | some x ↦ elim (q.scan x.1) [ none ↦ none | some y ↦ some ((x.0, y.0), y.1) ]
  ];
  scan-print = λ x rest. rw append_assoc (rw p.scan-print (rw q.scan-print refl));
}

abbrev pub bool_code : Bool → ℕ
bool_code true = 1
bool_code false = 0

abbrev pub code_bool : ℕ → Bool
code_bool zero = false
code_bool (suc n) = true

pub code_bool-bool_code : (b : Bool) → code_bool (bool_code b) ≡ b
code_bool-bool_code true = refl
code_bool-bool_code false = refl

abbrev pub boolean : Printer Bool
boolean = via number bool_code code_bool code_bool-bool_code

abbrev pub int_code : ℤ → ℕ × ℕ
int_code (pos n) = (0, n)
int_code (negsuc n) = (1, n)

abbrev pub code_int : ℕ × ℕ → ℤ
code_int (zero, n) = pos n
code_int (suc m, n) = negsuc n

pub code_int-int_code : (x : ℤ) → code_int (int_code x) ≡ x
code_int-int_code (pos n) = refl
code_int-int_code (negsuc n) = refl

abbrev pub integer : Printer ℤ
integer = via (pair number number) int_code code_int code_int-int_code

module _ {A : Type 0} (p : Printer A) where
  abbrev pub print_list : List A → Bytes
  print_list [] = []
  print_list (a ∷ l) = p.print a ++ print_list l

  abbrev pub scan_list : ℕ → Bytes → Option (List A × Bytes)
  scan_list zero s = some ([], s)
  scan_list (suc n) s = elim (p.scan s) [
    | none ↦ none
    | some x ↦ elim (scan_list n x.1) [ none ↦ none | some y ↦ some (x.0 ∷ y.0, y.1) ]
  ]

  pub scan_list-print_list :
      (l : List A) (rest : Bytes) → scan_list (length l) (print_list l ++ rest) ≡ some (l, rest)
  scan_list-print_list [] rest = refl
  scan_list-print_list (a ∷ l) rest =
      rw append_assoc (rw p.scan-print (rw (scan_list-print_list l rest) refl))

  abbrev pub scan_counted : Bytes → Option (List A × Bytes)
  scan_counted [] = none
  scan_counted (n ∷ s) = scan_list n s

  abbrev pub several : Printer (List A)
  several = record {
    print = λ l. length l ∷ print_list l;
    scan = scan_counted;
    scan-print = scan_list-print_list;
  }

  abbrev pub to_list : Option A → List A
  to_list none = []
  to_list (some a) = a ∷ []

  abbrev pub first : List A → Option A
  first [] = none
  first (a ∷ l) = some a

  pub first-to_list : (o : Option A) → first (to_list o) ≡ o
  first-to_list none = refl
  first-to_list (some a) = refl

module _ {A : Type 0} (p : Printer A) where
  abbrev pub optional : Printer (Option A)
  optional = via (several p) (to_list p) (first p) (first-to_list p)

  abbrev pub decode_printed : Bytes → Result A
  decode_printed [] = err bincode_decode
  decode_printed (n ∷ s) = elim (p.scan s) [ none ↦ err bincode_decode | some x ↦ ok x.0 ]

  pub decode_printed_lem :
      (a : A) → elim (p.scan (p.print a)) [ none ↦ err bincode_decode | some x ↦ ok x.0 ] ≡ ok a
  decode_printed_lem a =
      ap (λ s. elim (p.scan s) [ none ↦ err bincode_decode | some x ↦ ok x.0 ])
        (sym (append-nil (p.print a)))
      ∙ rw p.scan-print refl

  -- A printed value behind a zero.
  abbrev pub codec : Codec A
  codec = record {
    encode = λ a. ok (0 ∷ p.print a);
    decode = decode_printed;
    round_trip = λ a. (0 ∷ p.print a, refl, decode_printed_lem a, omega arith);
  }

abbrev pub text : Printer Bytes
text = several number
