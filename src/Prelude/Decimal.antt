-- ===== src/Prelude/Decimal.antt =====
-- The decimal numeral of a number, as `format!` writes it, and what `parse` makes of it.
use local_etl_tool.Prelude.{
  ℕ, zero, suc, ◌+◌, ◌-◌, ◌*◌, ◌/◌, ◌%◌, ◌^◌, ◌<◌, ◌≡◌, refl, ap, ◌∙◌, inl, inr, true, false, some,
  [], ◌∷◌, arith, ltb, lt→ltb, ltb→lt, ltb→le, ◌==◌, all, Bool-cases,
}
use local_etl_tool.Prelude.Text.{Text, is_ascii_digit}
use local_etl_tool.Prelude.Split.{decimal, digits, below, parse_u64}

abbrev digit : ℕ → ℕ
digit n = b'0' + n % 10

-- Puts the digits of a number in front of a text; on fuel more than the number, which falls with each digit.
unfoldable pub digits_before : ℕ → ℕ → Text → Text
digits_before zero n after = after
digits_before (suc fuel) n after =
    let more = digits_before fuel (n / 10) (digit n ∷ after) in
    elim (ltb n 10) [ true ↦ digit n ∷ after | false ↦ more ]

unfoldable pub shown : ℕ → Text
unfolding digits_before
shown n = digits_before (suc n) n []

digit-is_ascii_digit : (n : ℕ) → is_ascii_digit (digit n) ≡ true
unfolding is_ascii_digit
digit-is_ascii_digit n = ground arith

digits_before-all :
    (fuel n : ℕ) (after : Text)
    → all is_ascii_digit after ≡ true
    → all is_ascii_digit (digits_before fuel n after) ≡ true
unfolding digits_before
digits_before-all zero n after h = h
digits_before-all (suc fuel) n after h =
    let here = digit-is_ascii_digit n in
    let both : all is_ascii_digit (digit n ∷ after) ≡ true = rw (here, h) refl in
    elim (Bool-cases (ltb n 10)) [
      | inl e ↦ rw (e, digits_before) both
      | inr e ↦ rw (e, digits_before) (digits_before-all fuel (n / 10) (digit n ∷ after) both)
    ]

-- The value of the digits that are put in front.
digits_before-decimal :
    (fuel n : ℕ) (after : Text)
    → n < fuel
    → decimal 0 (digits_before fuel n after) ≡ decimal n after
unfolding digits_before decimal
digits_before-decimal zero n after h = elim h [ ]
digits_before-decimal (suc fuel) n after h = elim (Bool-cases (ltb n 10)) [
  | inl e ↦ rw (e, digits_before) (ap (λ x. decimal x after) (leading n (ltb→lt n 10 e)))
  | inr e ↦
      let rest =
        digits_before-decimal fuel (n / 10) (digit n ∷ after) (omega (arith, ltb→le n 10 e)) in
      rw (e, digits_before) (rest ∙ ap (λ x. decimal x after) (joined n))
]
  where
    leading : (n : ℕ) → n < 10 → 0 * 10 + (digit n - b'0') ≡ n
    leading n h = omega arith

    joined : (n : ℕ) → n / 10 * 10 + (digit n - b'0') ≡ n
    joined n = omega arith

-- It is not empty and begins with a digit.
digits_before-cons :
    (fuel n : ℕ) (after : Text)
    → n < fuel
    → (c : ℕ) × (s : Text) × (digits_before fuel n after ≡ c ∷ s)
unfolding digits_before
digits_before-cons zero n after h = elim h [ ]
digits_before-cons (suc fuel) n after h = elim (Bool-cases (ltb n 10)) [
  | inl e ↦ (digit n, after, rw (e, digits_before) refl)
  | inr e ↦
      let (c, s, same) =
        digits_before-cons fuel (n / 10) (digit n ∷ after) (omega (arith, ltb→le n 10 e)) in
      (c, s, rw (e, digits_before) same)
]

pub shown-all_digits : (n : ℕ) → all is_ascii_digit (shown n) ≡ true
unfolding shown
shown-all_digits n = digits_before-all (suc n) n [] refl

parse_u64-digits :
    (c : ℕ) (s : Text) (n : ℕ)
    → all is_ascii_digit (c ∷ s) ≡ true
    → decimal 0 (c ∷ s) ≡ n
    → n < 2 ^ 64
    → parse_u64 (c ∷ s) ≡ some n
unfolding parse_u64 digits below is_ascii_digit
parse_u64-digits c s n all_digits value h =
    let not_plus : (c == b'+') ≡ false = ground arith in
    let small = lt→ltb n (2 ^ 64) h in rw (not_plus, all_digits, value, below, small) refl

pub parse_u64-shown : (n : ℕ) → n < 2 ^ 64 → parse_u64 (shown n) ≡ some n
unfolding decimal
parse_u64-shown n h =
    let (c, s, e) = digits_before-cons (suc n) n [] (omega arith) in
    let all_digits : all is_ascii_digit (c ∷ s) ≡ true =
      rw e at (digits_before-all (suc n) n [] refl) in
    let value : decimal 0 (c ∷ s) ≡ n =
      rw e at (digits_before-decimal (suc n) n [] (omega arith)) in
    let same : shown n ≡ c ∷ s = unfold shown in e in
    rw same (parse_u64-digits c s n all_digits value h)
