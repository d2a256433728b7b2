-- ===== src/Scheduler/Every/Render.antt =====
-- Texts of numbers with units, for `Interval::parse` of crates/scheduler/src/every.rs.
use mathlib.Core.Path.{subst}
use local_etl_tool.Prelude.{
  ℕ, ◌+◌, ◌*◌, ◌≤◌, ◌<◌, ◌≡◌, ◌≢◌, refl, sym, ap, ◌∙◌, Bool, true, false, List, [], ◌∷◌, ◌++◌,
  append_assoc, append-nil, Result, ok, arith, ltb, lt→ltb, ◌==◌, All,
}
use local_etl_tool.Prelude.Text.{Text, trim, trim_id, is_whitespace, is_ascii_digit}
use local_etl_tool.Scheduler.Every.{
  IntervalError, Scan, max_seconds, digits_value, multiplier, add_part, scan, finish, blank,
  u64_bound, is_empty, parse,
}

pub data TimeUnit : Type 0 where
  seconds minutes hours days : TimeUnit

unfoldable pub letter : TimeUnit → ℕ
letter seconds = b's'
letter minutes = b'm'
letter hours = b'h'
letter days = b'd'

unfoldable pub unit_seconds : TimeUnit → ℕ
unit_seconds seconds = 1
unit_seconds minutes = 60
unit_seconds hours = 3600
unit_seconds days = 86400

-- A number, as the digits that spell it, and its unit.
pub record Part : Type 0 where
  pub number : Text
  pub unit : TimeUnit

pub record IsPart (p : Part) : Type 0 where
  pub written : p.number ≢ []
  pub decimal : All (λ c. is_ascii_digit c ≡ true) p.number

unfoldable pub part_seconds : Part → ℕ
unfolding digits_value unit_seconds
part_seconds p = digits_value 0 p.number * unit_seconds p.unit

unfoldable pub render : List Part → Text
unfolding letter
render [] = []
render (p ∷ ps) = p.number ++ letter p.unit ∷ render ps

unfoldable pub total : List Part → ℕ
unfolding part_seconds
total [] = 0
total (p ∷ ps) = part_seconds p + total ps

-- The digits of a number go to the end of the digits read so far.
scan_digits :
    (t ds rest : Text) (s : Scan)
    → All (λ c. is_ascii_digit c ≡ true) ds
    → scan t (ds ++ rest) s ≡ scan t rest (record s { digits = s.digits ++ ds })
scan_digits t [] rest s h =
    ap (λ x. scan t rest (record s { digits = x })) (sym (append-nil s.digits))
scan_digits t (c ∷ ds) rest s (h, hs) =
    here
    ∙ scan_digits t ds rest (record s { digits = s.digits ++ c ∷ [] }) hs
    ∙ ap (λ x. scan t rest (record s { digits = x })) (append_assoc s.digits (c ∷ []) ds)
  where
    here :
        scan t (c ∷ ds ++ rest) s ≡ scan t (ds ++ rest) (record s { digits = s.digits ++ c ∷ [] })
    here = unfold scan in rw h

multiplier-letter : (u : TimeUnit) → multiplier (letter u) ≡ ok (unit_seconds u)
unfolding multiplier letter unit_seconds
multiplier-letter seconds = refl
multiplier-letter minutes = refl
multiplier-letter hours = refl
multiplier-letter days = refl

letter_plain :
    (u : TimeUnit)
    → (is_ascii_digit (letter u) ≡ false)
      × (is_whitespace (letter u) ≡ false)
      × ((letter u == b'_') ≡ false)
unfolding is_ascii_digit is_whitespace letter
letter_plain seconds = (refl, refl, refl)
letter_plain minutes = (refl, refl, refl)
letter_plain hours = (refl, refl, refl)
letter_plain days = (refl, refl, refl)

unit_positive : (u : TimeUnit) → 1 ≤ unit_seconds u
unfolding unit_seconds
unit_positive seconds = omega arith
unit_positive minutes = omega arith
unit_positive hours = omega arith
unit_positive days = omega arith

add_part_lem :
    (t : Text) (sum : ℕ) (p : Part)
    → sum + part_seconds p ≤ max_seconds
    → add_part t sum p.number (letter p.unit) ≡ ok (sum + part_seconds p)
add_part_lem t sum p h =
    let n = digits_value 0 p.number in
    let u = unit_seconds p.unit in
    let pos = unit_positive p.unit in
    let grow : n ≤ n * u = grind arith in
    let fits : sum + n * u ≤ max_seconds = unfold part_seconds in h in
    let one = lt→ltb n u64_bound (omega arith) in
    let two = lt→ltb (n * u) u64_bound (omega arith) in
    let three = lt→ltb (sum + n * u) u64_bound (omega arith) in
    unfold add_part part_seconds in rw (multiplier-letter p.unit, one, two, three)

digit_plain : (c : ℕ) → is_ascii_digit c ≡ true → is_whitespace c ≡ false
unfolding is_ascii_digit is_whitespace
digit_plain c h = ground arith

not_empty : (s : Text) → s ≢ [] → is_empty s ≡ false
unfolding is_empty
not_empty [] h = absurd (h refl)
not_empty (c ∷ s) h = refl

-- A unit adds its part and clears the digits.
scan_unit :
    (t rest : Text) (sum : ℕ) (p : Part) (saw : Bool)
    → p.number ≢ []
    → sum + part_seconds p ≤ max_seconds
    → scan t (letter p.unit ∷ rest) (record { seconds = sum; digits = p.number; saw_a_unit = saw })
      ≡ scan t rest (record { seconds = sum + part_seconds p; digits = []; saw_a_unit = true })
scan_unit t rest sum p saw some_ fits =
    let plain = letter_plain p.unit in
    unfold scan in
    rw (plain.0, plain.1, plain.2, not_empty p.number some_, add_part_lem t sum p fits)

abbrev seen : Bool → List Part → Bool
seen saw [] = saw
seen saw (p ∷ ps) = true

seen-true : (ps : List Part) → seen true ps ≡ true
seen-true [] = refl
seen-true (p ∷ ps) = refl

-- The loop over the parts ends with their sum.
scan_parts :
    (t : Text) (ps : List Part) (sum : ℕ) (saw : Bool)
    → All IsPart ps
    → sum + total ps ≤ max_seconds
    → scan t (render ps) (record { seconds = sum; digits = []; saw_a_unit = saw })
      ≡ ok (record { seconds = sum + total ps; digits = []; saw_a_unit = seen saw ps })
scan_parts t [] sum saw h fits =
    let e : sum ≡ sum + 0 = omega arith in
    unfold render total scan in
    ap (λ x. ok (record { seconds = x; digits = []; saw_a_unit = saw })) e
scan_parts t (p ∷ ps) sum saw (h, hs) fits =
    let here : sum + (part_seconds p + total ps) ≤ max_seconds = unfold total in fits in
    let rest = scan_parts t ps (sum + part_seconds p) true hs (omega arith) in
    first ∙ second (omega arith) ∙ rest ∙ last
  where
    first :
        scan t (render (p ∷ ps)) (record { seconds = sum; digits = []; saw_a_unit = saw })
        ≡ scan t
            (letter p.unit ∷ render ps)
            (record { seconds = sum; digits = p.number; saw_a_unit = saw })
    first =
        unfold render in
        scan_digits t p.number (letter p.unit ∷ render ps)
          (record { seconds = sum; digits = []; saw_a_unit = saw }) h.decimal

    second :
        sum + part_seconds p ≤ max_seconds
        → scan t
            (letter p.unit ∷ render ps)
            (record { seconds = sum; digits = p.number; saw_a_unit = saw })
          ≡ scan t
              (render ps)
              (record { seconds = sum + part_seconds p; digits = []; saw_a_unit = true })
    second f = scan_unit t (render ps) sum p saw h.written f

    last :
        ◌≡◌ {A = Result IntervalError Scan}
          (ok (record {
            seconds = sum + part_seconds p + total ps;
            digits = [];
            saw_a_unit = seen true ps;
          }))
          (ok (record { seconds = sum + total (p ∷ ps); digits = []; saw_a_unit = true }))
    last =
        let e : sum + part_seconds p + total ps ≡ sum + (part_seconds p + total ps) = omega arith in
        unfold total in rw (e, seen-true ps)

-- The last character of a text of parts is a unit.
last_letter :
    (p : Part) (ps : List Part)
    → (t : Text) × (u : TimeUnit) × (render (p ∷ ps) ≡ t ++ letter u ∷ [])
unfolding render
last_letter p [] = (p.number, p.unit, refl)
last_letter p (q ∷ qs) =
    let (t, u, e) = last_letter q qs in
    (
      p.number ++ letter p.unit ∷ t,
      u,
      ap (λ x. p.number ++ letter p.unit ∷ x) e
          ∙ sym (append_assoc p.number (letter p.unit ∷ t) (letter u ∷ [])),
    )

trim-render : (ps : List Part) → All IsPart ps → trim (render ps) ≡ render ps
trim-render [] h = unfold render trim in refl
trim-render (p ∷ ps) (h, hs) = let (t, u, e) = last_letter p ps in go p.number refl t u e h.decimal
  where
    go :
        (number : Text)
        → p.number ≡ number
        → (t : Text) (u : TimeUnit) → render (p ∷ ps) ≡ t ++ letter u ∷ []
        → All (λ c. is_ascii_digit c ≡ true) p.number
        → trim (render (p ∷ ps)) ≡ render (p ∷ ps)
    go [] q t u e d = absurd (h.written q)
    go (c ∷ number) q t u e d =
        let shape : render (p ∷ ps) ≡ c ∷ (number ++ letter p.unit ∷ render ps) =
          unfold render in ap (λ x. x ++ letter p.unit ∷ render ps) q in
        let digit : is_ascii_digit c ≡ true = (subst (All (λ c. is_ascii_digit c ≡ true)) q d).0 in
        rw shape (
          trim_id c (letter u) (number ++ letter p.unit ∷ render ps) t (sym shape ∙ e)
            (digit_plain c digit) (letter_plain u).1)

render-ne : (p : Part) (ps : List Part) → IsPart p → is_empty (render (p ∷ ps)) ≡ false
render-ne p ps h = not_empty (render (p ∷ ps)) (unfold render in ne p.number h.written)
  where
    ne : (n : Text) → n ≢ [] → n ++ letter p.unit ∷ render ps ≢ []
    ne [] h e = h refl
    ne (c ∷ n) h e = cc

-- A text of one or more numbers with units, whose sum is positive and at most 400 days, parses to
-- that sum and keeps its text; the units may come in any order and repeat.
pub parse-render :
    (p : Part) (ps : List Part)
    → All IsPart (p ∷ ps)
    → 0 < total (p ∷ ps)
    → total (p ∷ ps) ≤ max_seconds
    → parse (render (p ∷ ps)) ≡ ok (record { seconds = total (p ∷ ps); text = render (p ∷ ps) })
parse-render p ps h low high =
    let text = render (p ∷ ps) in
    let sum = total (p ∷ ps) in
    let loop : scan text text blank
        ≡ ok (record { seconds = sum; digits = []; saw_a_unit = true }) =
      scan_parts text (p ∷ ps) 0 false h (omega arith)
      ∙ ap (λ x. ok (record { seconds = x; digits = []; saw_a_unit = true })) (omega arith) in
    let positive : (sum == 0) ≡ false = ground arith in
    let small : ltb max_seconds sum ≡ false = ground arith in
    let some_text = render-ne p ps h.0 in
    unfold parse finish is_empty in rw (trim-render (p ∷ ps) h, some_text, loop, positive, small)
