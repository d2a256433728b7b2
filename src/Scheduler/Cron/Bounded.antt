-- ===== src/Scheduler/Cron/Bounded.antt =====
-- The values of a field of crates/scheduler/src/cron.rs stay within the field's range.
use native.Mathlib.Nat.{pow-suc}
use local_etl_tool.Prelude.{
  ℕ, zero, suc, ◌+◌, ◌/◌, ◌%◌, ◌^◌, ◌≤◌, ◌<◌, ◌≡◌, refl, sym, ◌∙◌, inl, inr, false, List, [], ◌∷◌,
  ok, leb, arith, Bool-cases, Option-cases, bind-ok,
}
use local_etl_tool.Prelude.Int.{ℤ, ltb_ℤ}
use local_etl_tool.Prelude.Text.{Text, codes, text_eq, trim}
use local_etl_tool.Prelude.Split.{split, split_whitespace, parse_i64}
use local_etl_tool.Scheduler.Cron.{
  FieldSet, FieldKind, minute_kind, hour_kind, Cron, bit, insert, fill, parse_value, split_range,
  step_of, bounds_of, has_names, ordered_range, blank_text, day_of_week_kind, day_of_month_kind,
  month_kind, parse_part, parse_parts, parse_field,
}
use local_etl_tool.Scheduler.Cron.Fields.{bit-suc}
use local_etl_tool.Scheduler.Cron.Parse.{parse, from_fields, expand, is_empty}
use local_etl_tool.Scheduler.Cron.Search.{next_after}
use local_etl_tool.Scheduler.Cron.Next.{IsNextMatch, next_after-IsNextMatch}
use local_etl_tool.Scheduler.Cron.Sound.{IsClock}

-- Setting a bit that is not set keeps a number below a power of two.
set_bit : (width v n : ℕ) → v < width → n < 2 ^ width → bit n v ≡ false → n + 2 ^ v < 2 ^ width
set_bit zero v n h small unset = absurd (omega arith)
set_bit (suc width) zero n h small unset =
    let double = pow-suc 2 width in let even : n % 2 ≡ 0 = ground arith in omega arith
set_bit (suc width) (suc v) n h small unset =
    let double = pow-suc 2 width in
    let twice = pow-suc 2 v in
    let rest = set_bit width v (n / 2) (omega arith) (omega arith) (sym (bit-suc n v) ∙ unset) in
    omega arith

insert-bound :
    (width v : ℕ) (s : FieldSet) → v < width → s.bits < 2 ^ width → (insert v s).bits < 2 ^ width
unfolding insert
insert-bound width v s h small = elim (Bool-cases (bit s.bits v)) [
  | inl set_ ↦ ground arith
  | inr unset ↦ let added = set_bit width v s.bits h small unset in ground arith
]

fill-bound :
    (width fuel value high step : ℕ) (s : FieldSet)
    → high < width
    → s.bits < 2 ^ width
    → (fill fuel value high step s).bits < 2 ^ width
unfolding fill
fill-bound width zero value high step s h small = small
fill-bound width (suc fuel) value high step s h small = elim (Bool-cases (leb value high)) [
  | inl low ↦
      let added = insert-bound width value s (ground arith) small in
      rw low (fill-bound width fuel ((value + step) % 2 ^ 32) high step (insert value s) h added)
  | inr past ↦ rw past small
]

-- A field whose values have no names.
parse_value-bound :
    (raw : Text) (kind : FieldKind) (v : ℕ)
    → kind.names ≡ []
    → parse_value raw kind ≡ ok v
    → v ≤ kind.high
unfolding parse_value has_names ltb_ℤ
parse_value-bound raw kind v unnamed h = elim (Option-cases (parse_i64 (trim raw))) [
  | inl e ↦ let shown = rw (has_names, unnamed, e) at h in absurd (ground arith)
  | inr (value, e) ↦ let shown = rw (has_names, unnamed, e) at h in ground arith
]

ordered_range-bound :
    (kind : FieldKind) (start end low high : ℕ)
    → ordered_range kind start end ≡ ok (low, high)
    → end ≡ high
unfolding ordered_range
ordered_range-bound kind start end low high h = ground arith

bounds_of-bound :
    (range : Text) (step : ℕ) (kind : FieldKind) (low high : ℕ)
    → kind.names ≡ []
    → bounds_of range step kind ≡ ok (low, high)
    → high ≤ kind.high
unfolding bounds_of
bounds_of-bound range step kind low high unnamed h = elim (Bool-cases (text_eq range (codes "*"))) [
  | inl star ↦ let shown = rw star at h in ground arith
  | inr other ↦ elim (Option-cases (split_range range)) [
    | inl e ↦
        let (single, parsed, h1) = bind-ok (parse_value range kind) _ (rw (other, e) at h) in
        let bound = parse_value-bound range kind single unnamed parsed in ground arith
    | inr ((start, end), e) ↦
        let (first, _, h1) = bind-ok (parse_value start kind) _ (rw (other, e) at h) in
        let (last, parsed, h2) = bind-ok (parse_value end kind) _ h1 in
        let bound = parse_value-bound end kind last unnamed parsed in
        let same = ordered_range-bound kind first last low high h2 in omega arith
  ]
]

parse_part-bound :
    (width : ℕ) (text raw : Text) (kind : FieldKind) (s r : FieldSet)
    → kind.names ≡ []
    → kind.high < width
    → s.bits < 2 ^ width
    → parse_part text raw kind s ≡ ok r
    → r.bits < 2 ^ width
unfolding parse_part
parse_part-bound width text raw kind s r unnamed fits small h =
    elim (Bool-cases (blank_text (trim raw))) [
      | inl blank ↦ let shown = rw blank at h in absurd (ground arith)
      | inr some_ ↦
          let ((range, step), _, h1) = bind-ok (step_of (trim raw) kind) _ (rw some_ at h) in
          let ((low, high), ends, h2) = bind-ok (bounds_of range step kind) _ h1 in
          let bound = bounds_of-bound range step kind low high unnamed ends in
          let filled = fill-bound width 65 low high step s (omega arith) small in
          let same : fill 65 low high step s ≡ r = ground arith in rw same at filled
    ]

parse_parts-bound :
    (width : ℕ) (text : Text) (parts : List Text) (kind : FieldKind) (s r : FieldSet)
    → kind.names ≡ []
    → kind.high < width
    → s.bits < 2 ^ width
    → parse_parts text parts kind s ≡ ok r
    → r.bits < 2 ^ width
unfolding parse_parts
parse_parts-bound width text [] kind s r unnamed fits small h =
    let same : s ≡ r = ground arith in rw same at small
parse_parts-bound width text (part ∷ parts) kind s r unnamed fits small h =
    let (next, first, rest) = bind-ok (parse_part text part kind s) _ h in
    let bound = parse_part-bound width text part kind s next unnamed fits small first in
    parse_parts-bound width text parts kind next r unnamed fits bound rest

parse_field-bound :
    (width : ℕ) (text : Text) (kind : FieldKind) (r : FieldSet)
    → kind.names ≡ []
    → kind.high < width
    → 0 < 2 ^ width
    → parse_field text kind ≡ ok r
    → r.bits < 2 ^ width
unfolding parse_field
parse_field-bound width text kind r unnamed fits some_ h =
    parse_parts-bound width text (split b',' text) kind (record { bits = 0 }) r unnamed fits some_ h

five_fields-IsClock :
    (trimmed minute hour day month week : Text) (c : Cron)
    → from_fields trimmed (minute ∷ hour ∷ day ∷ month ∷ week ∷ []) ≡ ok c
    → IsClock c
unfolding from_fields
five_fields-IsClock trimmed minute hour day month week c h =
    let (_, _, h1) = bind-ok (parse_field week day_of_week_kind) _ h in
    let (minutes, at_minutes, h2) = bind-ok (parse_field minute minute_kind) _ h1 in
    let (hours, at_hours, h3) = bind-ok (parse_field hour hour_kind) _ h2 in
    let (_, _, h4) = bind-ok (parse_field day day_of_month_kind) _ h3 in
    let (_, _, h5) = bind-ok (parse_field month month_kind) _ h4 in
    let minutes_below =
      parse_field-bound 60 minute minute_kind minutes refl (omega arith) (omega arith) at_minutes in
    let hours_below =
      parse_field-bound 24 hour hour_kind hours refl (omega arith) (omega arith) at_hours in
    let same_minutes : minutes ≡ c.minutes = ground arith in
    let same_hours : hours ≡ c.hours = ground arith in
    record { hours = rw same_hours at hours_below; minutes = rw same_minutes at minutes_below }

from_fields-IsClock :
    (trimmed : Text) (fields : List Text) (c : Cron) → from_fields trimmed fields ≡ ok c → IsClock c
unfolding from_fields
from_fields-IsClock trimmed [] c h = absurd (ground arith)
from_fields-IsClock trimmed (_ ∷ []) c h = absurd (ground arith)
from_fields-IsClock trimmed (_ ∷ _ ∷ []) c h = absurd (ground arith)
from_fields-IsClock trimmed (_ ∷ _ ∷ _ ∷ []) c h = absurd (ground arith)
from_fields-IsClock trimmed (_ ∷ _ ∷ _ ∷ _ ∷ []) c h = absurd (ground arith)
from_fields-IsClock trimmed (a ∷ b ∷ d ∷ e ∷ f ∷ []) c h = five_fields-IsClock trimmed a b d e f c h
from_fields-IsClock trimmed (_ ∷ _ ∷ _ ∷ _ ∷ _ ∷ _ ∷ _) c h = absurd (ground arith)

-- The hours and the minutes of an expression that parses are below 24 and 60.
parse-IsClock : (text : Text) (c : Cron) → parse text ≡ ok c → IsClock c
unfolding parse
parse-IsClock text c h = elim (Bool-cases (is_empty (trim text))) [
  | inl blank ↦ let shown = rw blank at h in absurd (ground arith)
  | inr some_ ↦
      let (expanded, _, h1) = bind-ok (expand (trim text)) _ (rw some_ at h) in
      from_fields-IsClock (trim text) (split_whitespace expanded) c h1
]

-- For an expression that parses: an instant that `next_after` returns is later than the given one, is a whole
-- minute and matches the expression, and no instant matches from the first whole minute after the given
-- instant on and before it; where `next_after` returns none, no instant matches from that whole minute on, for
-- five years of 366 days.
pub next_after-parse :
    (text : Text) (c : Cron) (after : ℤ)
    → parse text ≡ ok c
    → IsNextMatch c after (next_after c after)
next_after-parse text c after h = next_after-IsNextMatch c after (parse-IsClock text c h)
