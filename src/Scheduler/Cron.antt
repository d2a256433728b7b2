-- ===== src/Scheduler/Cron.antt =====
-- crates/scheduler/src/cron.rs: five-field cron expressions in UTC.
pub mod Parse
pub mod Fields
pub mod Search
pub mod Sound
pub mod Days
pub mod Rounds
pub mod Next
pub mod Bounded
mod Tests
use local_etl_tool.Prelude.{
  ℕ, zero, suc, ◌+◌, ◌-◌, ◌*◌, ◌/◌, ◌%◌, ◌^◌, Bool, true, false, not, ◌&&◌, ◌||◌, Option, none,
  some, List, [], ◌∷◌, ◌++◌, Result, ok, err, ◌>>=◌, ltb, leb, ◌==◌, if◌then◌else◌, length, map,
}
use local_etl_tool.Prelude.Int.{ℤ, pos, pos_part, ltb_ℤ}
use local_etl_tool.Prelude.Text.{Text, codes, text_eq, trim, strip_prefix, to_ascii_lowercase}
use local_etl_tool.Prelude.Split.{
  split, split_once, split_whitespace, starts_with, is_ascii_alphabetic, parse_u32, parse_i64,
}

pub data CronError : Type 0 where
  wrong_field_count : (text : Text) (found : ℕ) → CronError
  empty : Text → CronError
  unknown_shorthand : Text → CronError
  malformed : (field_name part : Text) → CronError
  out_of_range : (field_name : Text) (value : ℤ) (low high : ℕ) → CronError
  backwards_range : (field_name : Text) (low high : ℕ) → CronError
  zero_step : Text → CronError
  unknown_name : (field_name name : Text) → CronError

-- A u64, whose bit `v` says whether the field matches `v`.
pub record FieldSet : Type 0 where
  pub bits : ℕ

-- `bits & (1 << value) != 0`.
abbrev pub bit : ℕ → ℕ → Bool
bit bits value = bits / 2 ^ value % 2 == 1

unfoldable pub contains : FieldSet → ℕ → Bool
contains s value = ltb value 64 && bit s.bits value

-- `bits |= 1 << value`.
unfoldable pub insert : ℕ → FieldSet → FieldSet
insert value s =
    if ltb value 64
    then record { bits = if bit s.bits value then s.bits else s.bits + 2 ^ value }
    else s

-- `bits &= !(1 << value)`.
unfoldable pub clear : ℕ → FieldSet → FieldSet
clear value s = record { bits = if bit s.bits value then s.bits - 2 ^ value else s.bits }

-- `trailing_zeros` of a number other than zero, on fuel its width.
unfoldable pub trailing_zeros : ℕ → ℕ → ℕ
trailing_zeros zero n = 0
trailing_zeros (suc fuel) n =
    let rest = trailing_zeros fuel (n / 2) in if n % 2 == 1 then 0 else suc rest

unfoldable pub next_from : FieldSet → ℕ → Option ℕ
unfolding trailing_zeros
next_from s from =
    let remaining = s.bits / 2 ^ from in
    if leb 64 from
    then none
    else if remaining == 0
    then none
    else some (from + trailing_zeros 64 remaining)

pub record FieldKind : Type 0 where
  pub name : Text
  pub low : ℕ
  pub high : ℕ
  pub names : List Text
  pub name_base : ℕ

abbrev pub minute_kind : FieldKind
minute_kind = record { name = codes "minute"; low = 0; high = 59; names = []; name_base = 0 }

abbrev pub hour_kind : FieldKind
hour_kind = record { name = codes "hour"; low = 0; high = 23; names = []; name_base = 0 }

abbrev pub day_of_month_kind : FieldKind
day_of_month_kind = record {
  name = codes "day-of-month";
  low = 1;
  high = 31;
  names = [];
  name_base = 0;
}

abbrev pub month_kind : FieldKind
month_kind = record {
  name = codes "month";
  low = 1;
  high = 12;
  names = map codes (
      "jan" ∷ "feb" ∷ "mar" ∷ "apr" ∷ "may" ∷ "jun" ∷ "jul" ∷ "aug" ∷ "sep" ∷ "oct" ∷ "nov" ∷ "dec"
      ∷ []);
  name_base = 1;
}

abbrev pub day_of_week_kind : FieldKind
day_of_week_kind = record {
  name = codes "day-of-week";
  low = 0;
  high = 7;
  names = map codes ("sun" ∷ "mon" ∷ "tue" ∷ "wed" ∷ "thu" ∷ "fri" ∷ "sat" ∷ []);
  name_base = 0;
}

pub record Cron : Type 0 where
  pub minutes : FieldSet
  pub hours : FieldSet
  pub days_of_month : FieldSet
  pub months : FieldSet
  pub days_of_week : FieldSet
  pub day_of_month_restricted : Bool
  pub day_of_week_restricted : Bool
  pub text : Text

-- The position of the first name that the wanted text starts with.
position : Text → List Text → Option ℕ
position wanted [] = none
position wanted (n ∷ ns) =
    let rest = position wanted ns in
    if starts_with wanted n then some 0 else elim rest [ none ↦ none | some k ↦ some (suc k) ]

begins_with_letter : Text → Bool
begins_with_letter [] = false
begins_with_letter (c ∷ s) = is_ascii_alphabetic c

unfoldable pub has_names : FieldKind → Bool
has_names kind = elim kind.names [ [] ↦ false | _ ∷ _ ↦ true ]

unfoldable pub parse_value : Text → FieldKind → Result CronError ℕ
unfolding position starts_with begins_with_letter is_ascii_alphabetic has_names trim
    to_ascii_lowercase
parse_value raw kind =
    let text = trim raw in
    if has_names kind && begins_with_letter text
    then elim (position (map to_ascii_lowercase text) kind.names) [
      | none ↦ err (unknown_name kind.name text)
      | some found ↦ ok (found + kind.name_base)
    ]
    else elim (parse_i64 text) [
      | none ↦ err (malformed kind.name text)
      | some value ↦
          if ltb_ℤ value (pos kind.low) || ltb_ℤ (pos kind.high) value
          then err (out_of_range kind.name value kind.low kind.high)
          else ok (pos_part value)
    ]

-- The first `-` after the first character splits the text.
unfoldable pub split_range : Text → Option (Text × Text)
unfolding split_once
split_range [] = none
split_range (c ∷ s) = elim (split_once b'-' s) [ none ↦ none | some (a, b) ↦ some (c ∷ a, b) ]

-- A part without its step, and the step.
unfoldable pub step_of : Text → FieldKind → Result CronError (Text × ℕ)
unfolding split_once trim parse_u32
step_of part kind = elim (split_once b'/' part) [
  | none ↦ ok (part, 1)
  | some (range, step) ↦ elim (parse_u32 (trim step)) [
    | none ↦ err (malformed kind.name part)
    | some n ↦ if n == 0 then err (zero_step kind.name) else ok (trim range, n)
  ]
]

unfoldable pub ordered_range : FieldKind → ℕ → ℕ → Result CronError (ℕ × ℕ)
ordered_range kind low high =
    if ltb high low then err (backwards_range kind.name low high) else ok (low, high)

-- The least and the greatest value of a part.
unfoldable pub bounds_of : Text → ℕ → FieldKind → Result CronError (ℕ × ℕ)
unfolding ordered_range parse_value split_range text_eq
bounds_of range step kind =
    if text_eq range (codes "*") then ok (kind.low, kind.high) else elim (split_range range) [
      | some (start, end) ↦ parse_value start kind >>= λ low.
          parse_value end kind >>= λ high. ordered_range kind low high
      | none ↦
          parse_value range kind >>= λ single. ok (single, if ltb 1 step then kind.high else single)
    ]

-- `while value <= high { set.insert(value); value += step }`: the sum is a u32, which wraps around in a
-- release build. The values go only up or only down, within a field of at most 64, so 65 rounds end it.
unfoldable pub fill : ℕ → ℕ → ℕ → ℕ → FieldSet → FieldSet
unfolding insert
fill zero value high step set = set
fill (suc fuel) value high step set =
    let rest = fill fuel ((value + step) % 2 ^ 32) high step (insert value set) in
    if leb value high then rest else set

unfoldable pub blank_text : Text → Bool
blank_text [] = true
blank_text (c ∷ s) = false

unfoldable pub parse_part : Text → Text → FieldKind → FieldSet → Result CronError FieldSet
unfolding blank_text step_of bounds_of fill trim
parse_part text raw kind set =
    let part = trim raw in
    if blank_text part
    then err (malformed kind.name text)
    else step_of part kind >>= λ ranged. bounds_of (ranged.0) (ranged.1) kind >>= λ ends.
        ok (fill 65 (ends.0) (ends.1) (ranged.1) set)

unfoldable pub parse_parts : Text → List Text → FieldKind → FieldSet → Result CronError FieldSet
unfolding parse_part
parse_parts text [] kind set = ok set
parse_parts text (part ∷ parts) kind set =
    parse_part text part kind set >>= parse_parts text parts kind

unfoldable pub parse_field : Text → FieldKind → Result CronError FieldSet
unfolding parse_parts split
parse_field text kind = parse_parts text (split b',' text) kind (record { bits = 0 })
