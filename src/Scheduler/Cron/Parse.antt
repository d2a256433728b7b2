-- ===== src/Scheduler/Cron/Parse.antt =====
-- `Cron::parse` of crates/scheduler/src/cron.rs.
use local_etl_tool.Prelude.{
  Bool, true, false, not, ◌||◌, none, some, List, [], ◌∷◌, Result, ok, err, ◌>>=◌, if◌then◌else◌,
  length, map,
}
use local_etl_tool.Prelude.Text.{Text, codes, text_eq, trim, strip_prefix, to_ascii_lowercase}
use local_etl_tool.Prelude.Split.{split_whitespace}
use local_etl_tool.Scheduler.Cron.{
  CronError, empty, unknown_shorthand, wrong_field_count, FieldSet, contains, insert, clear,
  minute_kind, hour_kind, day_of_month_kind, month_kind, day_of_week_kind, Cron, parse_field,
}

unfoldable pub shorthand : Text → Text → Result CronError Text
unfolding text_eq
shorthand trimmed word =
    if text_eq word (codes "hourly")
    then ok (codes "0 * * * *")
    else if text_eq word (codes "daily") || text_eq word (codes "midnight")
    then ok (codes "0 0 * * *")
    else if text_eq word (codes "weekly")
    then ok (codes "0 0 * * 0")
    else if text_eq word (codes "monthly")
    then ok (codes "0 0 1 * *")
    else if text_eq word (codes "yearly") || text_eq word (codes "annually")
    then ok (codes "0 0 1 1 *")
    else err (unknown_shorthand trimmed)

unfoldable pub expand : Text → Result CronError Text
unfolding shorthand strip_prefix to_ascii_lowercase
expand trimmed = elim (strip_prefix (codes "@") trimmed) [
  | none ↦ ok trimmed
  | some word ↦ shorthand trimmed (map to_ascii_lowercase word)
]

-- 7 is Sunday too.
unfoldable pub fold_sunday : FieldSet → FieldSet
unfolding contains insert clear
fold_sunday s = if contains s 7 then clear 7 (insert 0 s) else s

unfoldable pub from_fields : Text → List Text → Result CronError Cron
unfolding fold_sunday parse_field text_eq
from_fields trimmed (minute ∷ hour ∷ day ∷ month ∷ week ∷ []) = do
  days_of_week ← parse_field week day_of_week_kind
  minutes ← parse_field minute minute_kind
  hours ← parse_field hour hour_kind
  days_of_month ← parse_field day day_of_month_kind
  months ← parse_field month month_kind
  ok (record {
    minutes = minutes;
    hours = hours;
    days_of_month = days_of_month;
    months = months;
    days_of_week = fold_sunday days_of_week;
    day_of_month_restricted = not (text_eq day (codes "*"));
    day_of_week_restricted = not (text_eq week (codes "*"));
    text = trimmed;
  })
from_fields trimmed fields = err (wrong_field_count trimmed (length fields))

unfoldable pub is_empty : Text → Bool
is_empty [] = true
is_empty (c ∷ s) = false

unfoldable pub parse : Text → Result CronError Cron
unfolding trim is_empty expand from_fields split_whitespace
parse text =
    let trimmed = trim text in
    if is_empty trimmed
    then err (empty text)
    else expand trimmed >>= λ expanded. from_fields trimmed (split_whitespace expanded)
