-- ===== src/Common/Validators/Formats.antt =====
-- The texts that the regular expressions of the validators take.
use Prim.Native.Char.{Char, char, code}
use Prim.Native.String.{count}
use Prim.Native.String.count as Count
use Prim.Native.String.append
use package.text.Mathlib.TextEquality.{Char-path}
use vault_api.Prelude.{
  ℕ, zero, suc, String, ◌<>◌, ◌≤◌, ◌≡◌, ◌↔◌, ◌⊎◌, inl, inr, refl, sym, ap, ◌∙◌, arith, true,
  Bool-cases, ◌==◌, nat_eq,
}
use vault_api.Common.Validators.{
  Value, text, number, other, is_digit, digits, fraction, decimal_rest, decimal, is_nuban, is_bvn,
  is_positive_decimal,
}

abbrev pub AllDigits : String → Type 0
AllDigits String.[] = Unit {0}
AllDigits (String.◌∷◌ c s) = (48 ≤ code c) × (code c ≤ 57) × AllDigits s

digits-AllDigits : (n : ℕ) (s : String) → digits n s ≡ true → (count s ≡ n) × AllDigits s
unfolding digits
digits-AllDigits zero String.[] h = (Count.nil, tt)
digits-AllDigits zero (String.◌∷◌ c s) h = absurd (ground arith)
digits-AllDigits (suc n) String.[] h = absurd (ground arith)
digits-AllDigits (suc n) (String.◌∷◌ c s) h =
    let (long, rest) = digits-AllDigits n s (ground arith) in
    (ground (arith, Count.cons c s), (ground arith, ground arith, rest))

AllDigits-digits : (n : ℕ) (s : String) → count s ≡ n → AllDigits s → digits n s ≡ true
unfolding digits
AllDigits-digits zero String.[] long all = refl
AllDigits-digits zero (String.◌∷◌ c s) long all = absurd (ground (arith, Count.cons c s))
AllDigits-digits (suc n) String.[] long all = absurd (ground (arith, Count.nil))
AllDigits-digits (suc n) (String.◌∷◌ c s) long (low, high, all) =
    ground (arith, AllDigits-digits n s (ground (arith, Count.cons c s)) all)

-- Digits, and perhaps a point with one or two more of them.
pub record IsDecimal (s : String) : Type 0 where
  pub whole : String
  pub whole_digits : AllDigits whole
  pub decimals :
      (s ≡ whole)
      ⊎ ((f : String) × (s ≡ whole <> "." <> f) × AllDigits f × (1 ≤ count f) × (count f ≤ 2))

point : code (char 46 tt) ≡ 46
point = refl

IsDecimal-cons :
    (c : Char) (s : String)
    → is_digit (code c) ≡ true
    → IsDecimal s
    → (d : IsDecimal (String.◌∷◌ c s)) × (1 ≤ count d.whole)
IsDecimal-cons c s digit rest =
    let d : IsDecimal (String.◌∷◌ c s) = record {
      whole = String.◌∷◌ c rest.whole;
      whole_digits = (ground arith, ground arith, rest.whole_digits);
      decimals = elim rest.decimals [
        | inl same ↦ inl (ap (String.◌∷◌ c) same)
        | inr (f, same, digits_, short, long) ↦ inr (
          f,
          ap (String.◌∷◌ c) same ∙ sym (append.cons c rest.whole ("." <> f)),
          digits_,
          short,
          long,
        )
      ];
    } in
    (d, omega (arith, Count.cons c rest.whole))

decimal_rest-IsDecimal : (s : String) → decimal_rest s ≡ true → IsDecimal s
unfolding decimal_rest fraction
decimal_rest-IsDecimal String.[] h = record { whole = ""; whole_digits = tt; decimals = inl refl }
decimal_rest-IsDecimal (String.◌∷◌ c s) h = elim (Bool-cases (is_digit (code c))) [
  | inl digit ↦ (IsDecimal-cons c s digit (decimal_rest-IsDecimal s (ground arith))).0
  | inr not_digit ↦
      let is_point : c ≡ char 46 tt = Char-path c (char 46 tt) (ground arith) in
      let written : String.◌∷◌ c s ≡ "" <> "." <> s =
        ap (λ d. String.◌∷◌ d s) is_point
        ∙ ap (String.◌∷◌ (char 46 tt)) (sym (append.nil s))
        ∙ sym (append.cons (char 46 tt) "" s)
        ∙ sym (append.nil ("." <> s)) in
      elim (Bool-cases (digits 1 s)) [
        | inl one ↦
            let (long, all) = digits-AllDigits 1 s one in
            record {
              whole = "";
              whole_digits = tt;
              decimals = inr (s, written, all, omega arith, omega arith);
            }
        | inr no_one ↦
            let (long, all) = digits-AllDigits 2 s (ground arith) in
            record {
              whole = "";
              whole_digits = tt;
              decimals = inr (s, written, all, omega arith, omega arith);
            }
      ]
]

one_or_two : (n : ℕ) → 1 ≤ n → n ≤ 2 → (n ≡ 1) ⊎ (n ≡ 2)
one_or_two n low high = elim (Bool-cases (n == 1)) [
  | inl one ↦ inl (ground arith)
  | inr more ↦ inr (ground arith)
]

fraction-true :
    (f : String) → AllDigits f → 1 ≤ count f → count f ≤ 2 → decimal_rest ("." <> f) ≡ true
unfolding decimal_rest fraction
fraction-true f all short long =
    rw (append.cons (char 46 tt) "" f, append.nil f)
      (elim (one_or_two (count f) short long) [
        | inl one ↦ ground (arith, AllDigits-digits 1 f one all)
        | inr two ↦ ground (arith, AllDigits-digits 2 f two all)
      ])

IsDecimal-decimal_rest :
    (whole s : String)
    → AllDigits whole
    → (s ≡ whole)
      ⊎ ((f : String) × (s ≡ whole <> "." <> f) × AllDigits f × (1 ≤ count f) × (count f ≤ 2))
    → decimal_rest s ≡ true
unfolding decimal_rest
IsDecimal-decimal_rest String.[] s all (inl same) = rw same refl
IsDecimal-decimal_rest String.[] s all (inr (f, same, digits_, short, long)) =
    rw (same, append.nil ("." <> f)) (fraction-true f digits_ short long)
IsDecimal-decimal_rest (String.◌∷◌ c w) s (low, high, all) (inl same) =
    rw same (ground (arith, IsDecimal-decimal_rest w w all (inl refl)))
IsDecimal-decimal_rest (String.◌∷◌ c w) s (low, high, all) (inr (f, same, digits_, short, long)) =
    rw (same, append.cons c w ("." <> f))
      (ground
        (arith, IsDecimal-decimal_rest w (w <> "." <> f) all (inr (f, refl, digits_, short, long))))

decimal-IsDecimal : (s : String) → decimal s ≡ true → (d : IsDecimal s) × (1 ≤ count d.whole)
unfolding decimal
decimal-IsDecimal String.[] h = absurd (ground arith)
decimal-IsDecimal (String.◌∷◌ c s) h =
    IsDecimal-cons c s (ground arith) (decimal_rest-IsDecimal s (ground arith))

decimal-cons :
    (c : Char) (w s : String)
    → is_digit (code c) ≡ true
    → decimal_rest s ≡ true
    → decimal (String.◌∷◌ c s) ≡ true
unfolding decimal
decimal-cons c w s digit rest = ground arith

IsDecimal-decimal :
    (whole s : String)
    → AllDigits whole
    → 1 ≤ count whole
    → (s ≡ whole)
      ⊎ ((f : String) × (s ≡ whole <> "." <> f) × AllDigits f × (1 ≤ count f) × (count f ≤ 2))
    → decimal s ≡ true
IsDecimal-decimal String.[] s all filled decimals = absurd (omega (arith, Count.nil))
IsDecimal-decimal (String.◌∷◌ c w) s (low, high, all) filled (inl same) =
    rw same (decimal-cons c w w (ground arith) (IsDecimal-decimal_rest w w all (inl refl)))
IsDecimal-decimal (String.◌∷◌ c w) s (low, high, all) filled (inr (f, same, digits_, short, long)) =
    rw (same, append.cons c w ("." <> f))
      (decimal-cons c w (w <> "." <> f) (ground arith)
        (IsDecimal-decimal_rest w (w <> "." <> f) all (inr (f, refl, digits_, short, long))))

is_nuban-digits :
    (v : Value) → (is_nuban v ≡ true) ↔ ((s : String) × (v ≡ text s) × (digits 10 s ≡ true))
unfolding is_nuban
is_nuban-digits (text s) = (λ h. (s, refl, h), λ (s', same, h). ground arith)
is_nuban-digits (number positive s) = (λ h. absurd (ground arith), λ (s', same, h). ground arith)
is_nuban-digits other = (λ h. absurd (ground arith), λ (s', same, h). ground arith)

is_bvn-digits :
    (v : Value) → (is_bvn v ≡ true) ↔ ((s : String) × (v ≡ text s) × (digits 11 s ≡ true))
unfolding is_bvn
is_bvn-digits (text s) = (λ h. (s, refl, h), λ (s', same, h). ground arith)
is_bvn-digits (number positive s) = (λ h. absurd (ground arith), λ (s', same, h). ground arith)
is_bvn-digits other = (λ h. absurd (ground arith), λ (s', same, h). ground arith)

is_positive_decimal-number :
    (v : Value)
    → (is_positive_decimal v ≡ true) ↔ ((s : String) × (v ≡ number true s) × (decimal s ≡ true))
unfolding is_positive_decimal
is_positive_decimal-number (text s) = (λ h. absurd (ground arith), λ (s', same, h). ground arith)
is_positive_decimal-number (number positive s) =
    (λ h. (s, ground arith, ground arith), λ (s', same, h). ground arith)
is_positive_decimal-number other = (λ h. absurd (ground arith), λ (s', same, h). ground arith)

-- `IsNuban` takes exactly the texts of ten digits and `IsBvn` those of eleven; `IsPositiveDecimal`
-- takes exactly the positive numbers that are written as digits, alone or with a point and one or two
-- digits after it.
pub validators-take :
    (v : Value)
    → ((is_nuban v ≡ true) ↔ ((s : String) × (v ≡ text s) × (count s ≡ 10) × AllDigits s))
      × ((is_bvn v ≡ true) ↔ ((s : String) × (v ≡ text s) × (count s ≡ 11) × AllDigits s))
      × ((is_positive_decimal v ≡ true)
          ↔ ((s : String) × (v ≡ number true s) × (d : IsDecimal s) × (1 ≤ count d.whole)))
validators-take v = (
  (
    λ h.
        let (s, same, all) = (is_nuban-digits v).0 h in
        let (long, digits_) = digits-AllDigits 10 s all in (s, same, long, digits_),
    λ (s, same, long, digits_). (is_nuban-digits v).1 (s, same, AllDigits-digits 10 s long digits_),
  ),
  (
    λ h.
        let (s, same, all) = (is_bvn-digits v).0 h in
        let (long, digits_) = digits-AllDigits 11 s all in (s, same, long, digits_),
    λ (s, same, long, digits_). (is_bvn-digits v).1 (s, same, AllDigits-digits 11 s long digits_),
  ),
  (
    λ h.
        let (s, same, is_decimal) = (is_positive_decimal-number v).0 h in
        let (d, filled) = decimal-IsDecimal s is_decimal in (s, same, d, filled),
    λ (s, same, d, filled).
        (is_positive_decimal-number v).1
          (s, same, IsDecimal-decimal d.whole s d.whole_digits filled d.decimals),
  ),
)
