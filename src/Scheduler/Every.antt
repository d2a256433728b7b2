-- ===== src/Scheduler/Every.antt =====
-- crates/scheduler/src/every.rs: intervals such as `90m` or `2h30m`.
pub mod Bounds
pub mod Ticks
pub mod Render
use local_etl_tool.Prelude.{
  ℕ, zero, suc, ◌+◌, ◌-◌, ◌*◌, ◌/◌, ◌^◌, Bool, true, false, not, ◌||◌, Option, none, some, List, [],
  ◌∷◌, ◌++◌, Result, ok, err, ◌>>=◌, ltb, ◌==◌, if◌then◌else◌,
}
use local_etl_tool.Prelude.Int.{ℤ, pos, ◌+ℤ◌, ◌-ℤ◌, ◌*ℤ◌, ltb_ℤ, leb_ℤ, div_euclid, tdiv, pos_part}
use local_etl_tool.Prelude.Text.{Text, trim, is_whitespace, is_ascii_digit, to_ascii_lowercase}

abbrev pub max_seconds : ℕ
max_seconds = 400 * 86400

pub data IntervalError : Type 0 where
  malformed : Text → IntervalError
  no_unit : Text → IntervalError
  unknown_unit : Text → IntervalError
  zero_interval : IntervalError
  too_long : (text : Text) (max : ℕ) → IntervalError
  overflow : Text → IntervalError

pub record Interval : Type 0 where
  pub seconds : ℕ
  pub text : Text

abbrev pub u64_bound : ℕ
u64_bound = 2 ^ 64

-- The number that a string of digits spells.
unfoldable pub digits_value : ℕ → Text → ℕ
digits_value n [] = n
digits_value n (c ∷ s) = digits_value (n * 10 + (c - b'0')) s

-- `parse::<u64>` of a string of digits.
abbrev pub parse_u64 : Text → Option ℕ
parse_u64 s = let n = digits_value 0 s in if ltb n u64_bound then some n else none

abbrev pub checked_mul : ℕ → ℕ → Option ℕ
checked_mul a b = if ltb (a * b) u64_bound then some (a * b) else none

abbrev pub checked_add : ℕ → ℕ → Option ℕ
checked_add a b = if ltb (a + b) u64_bound then some (a + b) else none

-- The multiplier of a unit.
unfoldable pub multiplier : ℕ → Result IntervalError ℕ
unfolding to_ascii_lowercase
multiplier character =
    let c = to_ascii_lowercase character in
    if c == b's'
    then ok 1
    else if c == b'm'
    then ok 60
    else if c == b'h'
    then ok 3600
    else if c == b'd'
    then ok 86400
    else err (unknown_unit (c ∷ []))

or_overflow : Text → Option ℕ → Result IntervalError ℕ
or_overflow trimmed none = err (overflow trimmed)
or_overflow trimmed (some n) = ok n

and_then : Option ℕ → (ℕ → Option ℕ) → Option ℕ
and_then none f = none
and_then (some a) f = f a

-- What a unit adds to the seconds so far.
unfoldable pub add_part : Text → ℕ → Text → ℕ → Result IntervalError ℕ
unfolding multiplier or_overflow and_then digits_value
add_part trimmed seconds digits character = do
  unit ← multiplier character
  count ← or_overflow trimmed (parse_u64 digits)
  or_overflow trimmed (and_then (checked_mul count unit) (λ part. checked_add seconds part))

-- The loop's variables.
pub record Scan : Type 0 where
  pub seconds : ℕ
  pub digits : Text
  pub saw_a_unit : Bool

is_empty : Text → Bool
is_empty [] = true
is_empty (c ∷ s) = false

-- `for character in trimmed.chars()`.
unfoldable pub scan : Text → Text → Scan → Result IntervalError Scan
unfolding is_ascii_digit is_whitespace is_empty add_part
scan trimmed [] s = ok s
scan trimmed (c ∷ rest) s =
    let pushed = scan trimmed rest (record s { digits = s.digits ++ c ∷ [] }) in
    let skipped = scan trimmed rest s in
    let counted = add_part trimmed s.seconds s.digits c >>= λ seconds.
    scan trimmed rest (record { seconds = seconds; digits = []; saw_a_unit = true }) in
    if is_ascii_digit c
    then pushed
    else if is_whitespace c || c == b'_'
    then skipped
    else if is_empty s.digits
    then err (malformed trimmed)
    else counted

-- The checks behind the loop.
unfoldable pub finish : Text → Scan → Result IntervalError Interval
unfolding is_empty
finish trimmed s =
    if not (is_empty s.digits)
    then err (no_unit s.digits)
    else if not s.saw_a_unit
    then err (malformed trimmed)
    else if s.seconds == 0
    then err zero_interval
    else if ltb max_seconds s.seconds
    then err (too_long trimmed (max_seconds / 86400))
    else ok (record { seconds = s.seconds; text = trimmed })

abbrev pub blank : Scan
blank = record { seconds = 0; digits = []; saw_a_unit = false }

unfoldable pub parse : Text → Result IntervalError Interval
unfolding trim is_empty scan finish
parse text =
    let trimmed = trim text in
    if is_empty trimmed then err (malformed text) else scan trimmed trimmed blank >>= finish trimmed

-- The first tick strictly after `after`, counting from `anchor`. `seconds` is at most `max_seconds`,
-- so its cast to i64 keeps it.
unfoldable pub next_after : Interval → ℤ → ℤ → ℤ
next_after i anchor after =
    let step = i.seconds in
    if ltb_ℤ after anchor
    then anchor
    else let elapsed = after -ℤ anchor in anchor +ℤ (div_euclid elapsed step +ℤ pos 1) *ℤ step

-- `(now - scheduled) / seconds` is positive here, so its cast to u64 keeps it.
unfoldable pub missed_between : Interval → ℤ → ℤ → ℕ
missed_between i scheduled now =
    if leb_ℤ now scheduled then 0 else pos_part (tdiv (now -ℤ scheduled) i.seconds)
