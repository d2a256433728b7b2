-- ===== src/Scheduler/Every/Bounds.antt =====
-- What `Interval::parse` of crates/scheduler/src/every.rs accepts.
use local_etl_tool.Prelude.{◌≤◌, ◌<◌, ◌≡◌, ok, Result-cases, inl, inr, arith, Bool-cases}
use local_etl_tool.Prelude.Text.{Text, trim}
use local_etl_tool.Scheduler.Every.{
  Interval, Scan, max_seconds, scan, finish, blank, is_empty, parse,
}

finish_bounds :
    (trimmed : Text) (s : Scan) (i : Interval)
    → finish trimmed s ≡ ok i
    → (0 < i.seconds) × (i.seconds ≤ max_seconds) × (i.text ≡ trimmed)
unfolding finish
finish_bounds trimmed s i h = ground arith

-- An interval that parses is positive and at most 400 days, and keeps the text that it was written as
-- but for the white space at its ends.
pub parse_bounds :
    (text : Text) (i : Interval)
    → parse text ≡ ok i
    → (0 < i.seconds) × (i.seconds ≤ max_seconds) × (i.text ≡ trim text)
parse_bounds text i h = elim (Bool-cases (is_empty (trim text))) [
  | inl e ↦ absurd (unfold parse in ground arith)
  | inr e ↦ elim (Result-cases (scan (trim text) (trim text) blank)) [
    | inl (s, q) ↦ finish_bounds (trim text) s i (unfold parse in ground arith)
    | inr (x, q) ↦ absurd (unfold parse in ground arith)
  ]
]
