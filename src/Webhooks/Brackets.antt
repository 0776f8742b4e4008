-- ===== src/Webhooks/Brackets.antt =====
-- crates/sirr-server/src/webhooks.rs, `trim_matches` on the brackets of a host: what is left of it.
use mathlib.Core.List.{reverse-append, reverse-reverse, reverse-cons}
use sirr.Prelude.{
  Bool, true, false, [], ◌∷◌, ◌++◌, ◌≡◌, refl, sym, ap, ◌∙◌, subst, reverse, Bool-cases, inl, inr,
  All,
}
use sirr.Text.{Bytes}
use sirr.Webhooks.Guard.{is_bracket, trim_front, trim_brackets}

-- A text of brackets.
abbrev pub AllBrackets : Bytes → Type 0
AllBrackets s = All (λ c. is_bracket c ≡ true) s

abbrev pub starts_bracket : Bytes → Bool
starts_bracket [] = false
starts_bracket (c ∷ s) = is_bracket c

-- The host is the text between brackets, and the text neither begins nor ends with one.
pub record IsBare (host bare : Bytes) : Type 0 where
  pub left : Bytes
  pub right : Bytes
  pub parts : host ≡ left ++ (bare ++ right)
  pub all_left : AllBrackets left
  pub all_right : AllBrackets right
  pub first : starts_bracket bare ≡ false
  pub last : starts_bracket (reverse bare) ≡ false

AllBrackets-append : (s t : Bytes) → AllBrackets s → AllBrackets t → AllBrackets (s ++ t)
AllBrackets-append [] t h h' = h'
AllBrackets-append (c ∷ s) t h h' = (h.0, AllBrackets-append s t h.1 h')

AllBrackets-reverse : (s : Bytes) → AllBrackets s → AllBrackets (reverse s)
AllBrackets-reverse [] h = tt
AllBrackets-reverse (c ∷ s) h =
    subst AllBrackets (sym (reverse-cons c s))
      (AllBrackets-append (reverse s) (c ∷ []) (AllBrackets-reverse s h.1) (h.0, tt))

trim_front-append : (s t : Bytes) → AllBrackets s → trim_front (s ++ t) ≡ trim_front t
trim_front-append [] t h = refl
trim_front-append (c ∷ s) t h = rw h.0 (trim_front-append s t h.1)

trim_front_same : (s : Bytes) → starts_bracket s ≡ false → trim_front s ≡ s
trim_front_same [] h = refl
trim_front_same (c ∷ s) h = rw h refl

trim_front_all : (s : Bytes) → AllBrackets s → trim_front s ≡ []
trim_front_all [] h = refl
trim_front_all (c ∷ s) h = rw h.0 (trim_front_all s h.1)

trim_front_lem :
    (s : Bytes)
    → (left : Bytes) × (s ≡ left ++ trim_front s)
      × AllBrackets left
      × (starts_bracket (trim_front s) ≡ false)
trim_front_lem [] = ([], refl, tt, refl)
trim_front_lem (c ∷ s) = elim (Bool-cases (is_bracket c)) [
  | inl b ↦
      let (left, e, h, n) = trim_front_lem s in (c ∷ left, rw b (ap (λ t. c ∷ t) e), (b, h), rw b n)
  | inr b ↦ ([], rw b refl, tt, rw b b)
]

starts_bracket-front : (s t : Bytes) → starts_bracket (s ++ t) ≡ false → starts_bracket s ≡ false
starts_bracket-front [] t h = refl
starts_bracket-front (c ∷ s) t h = h

-- What is left of a host is bare, and it is the only text that is.
pub trim_brackets-IsBare : (host : Bytes) → IsBare host (trim_brackets host)
trim_brackets-IsBare host =
    let (left, e, h, n) = trim_front_lem host in
    let (right, e', h', n') = trim_front_lem (reverse (trim_front host)) in
    let whole : trim_front host ≡ trim_brackets host ++ reverse right =
      sym (reverse-reverse (trim_front host))
      ∙ ap reverse e'
      ∙ reverse-append right (trim_front (reverse (trim_front host))) in
    record {
      left = left;
      right = reverse right;
      parts = e ∙ ap (λ t. left ++ t) whole;
      all_left = h;
      all_right = AllBrackets-reverse right h';
      first =
          starts_bracket-front (trim_brackets host) (reverse right)
            (sym (ap starts_bracket whole) ∙ n);
      last = ap starts_bracket (reverse-reverse (trim_front (reverse (trim_front host)))) ∙ n';
    }

pub IsBare-trim_brackets : (host bare : Bytes) → IsBare host bare → trim_brackets host ≡ bare
IsBare-trim_brackets host bare b =
    ap (λ s. reverse (trim_front (reverse (trim_front s)))) b.parts
    ∙ ap (λ s. reverse (trim_front (reverse s)))
        (trim_front-append b.left (bare ++ b.right) b.all_left)
    ∙ inner bare b.first b.last
  where
    inner :
        (bare : Bytes)
        → starts_bracket bare ≡ false
        → starts_bracket (reverse bare) ≡ false
        → reverse (trim_front (reverse (trim_front (bare ++ b.right)))) ≡ bare
    inner [] first last = rw (trim_front_all b.right b.all_right) refl
    inner (c ∷ s) first last = rw first (
        ap (λ t. reverse (trim_front t)) (reverse-append (c ∷ s) b.right)
        ∙ ap reverse (
            trim_front-append (reverse b.right) (reverse (c ∷ s))
              (AllBrackets-reverse b.right b.all_right)
            ∙ trim_front_same (reverse (c ∷ s)) last)
        ∙ reverse-reverse (c ∷ s))
