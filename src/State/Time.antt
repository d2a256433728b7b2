-- ===== src/State/Time.antt =====
-- crates/state/src/time.rs: civil dates in UTC. An i64 is an integer without bounds here:
-- the dates that would overflow it are out of the model.
pub mod Era
pub mod Civil
pub mod Valid
pub mod Months
pub mod Instant
use local_etl_tool.Prelude.{
  ℕ, zero, suc, ◌+◌, ◌-◌, ◌*◌, ◌/◌, ◌%◌, Bool, true, false, not, ◌&&◌, ◌||◌, ltb, leb, ◌==◌,
  if◌then◌else◌, List, [], ◌∷◌, any,
}
use local_etl_tool.Prelude.Int.{
  ℤ, pos, negsuc, pos_part, ◌+ℤ◌, ◌-ℤ◌, ◌*ℤ◌, floor_div, trem, div_euclid, rem_euclid,
}

abbrev pub seconds_per_day : ℕ
seconds_per_day = 86400

-- The year of the era that a day of it falls in.
unfoldable pub year_of_day : ℕ → ℕ
year_of_day d = (d - d / 1460 + d / 36524 - d / 146096) / 365

-- The days of an era before a year of it.
unfoldable pub days_before : ℕ → ℕ
days_before y = 365 * y + y / 4 - y / 100

-- `day_of_era` and what is computed from it are never negative (Era), so they are natural numbers.
unfoldable pub civil_from_days : ℤ → ℤ × ℕ × ℕ
civil_from_days days =
    let shifted = days +ℤ pos 719468 in
    let era = floor_div shifted 146097 in
    let day_of_era = pos_part (shifted -ℤ era *ℤ 146097) in
    let year_of_era = year_of_day day_of_era in
    let year = pos year_of_era +ℤ era *ℤ 400 in
    let day_of_year = day_of_era - days_before year_of_era in
    let month_position = (5 * day_of_year + 2) / 153 in
    let day = day_of_year - (153 * month_position + 2) / 5 + 1 in
    let month = if ltb month_position 10 then month_position + 3 else month_position - 9 in
    (year +ℤ pos (if leb month 2 then 1 else 0), month, day)

unfoldable pub days_from_civil : ℤ → ℕ → ℕ → ℤ
days_from_civil year month day =
    let year = year -ℤ pos (if leb month 2 then 1 else 0) in
    let era = floor_div year 400 in
    let year_of_era = pos_part (year -ℤ era *ℤ 400) in
    let month_position = if ltb 2 month then month - 3 else month + 9 in
    let day_of_year = pos ((153 * month_position + 2) / 5 + day) -ℤ pos 1 in
    let day_of_era = pos (days_before year_of_era) +ℤ day_of_year in
    era *ℤ 146097 +ℤ day_of_era -ℤ pos 719468

pub record DateTime : Type 0 where
  pub year : ℤ
  pub month : ℕ
  pub day : ℕ
  pub hour : ℕ
  pub minute : ℕ
  pub second : ℕ

unfoldable pub from_unix : ℤ → DateTime
from_unix seconds =
    let (year, month, day) = civil_from_days (div_euclid seconds seconds_per_day) in
    let within_day = rem_euclid seconds seconds_per_day in
    record {
      year = year;
      month = month;
      day = day;
      hour = within_day / 3600;
      minute = within_day % 3600 / 60;
      second = within_day % 60;
    }

unfoldable pub to_unix : DateTime → ℤ
to_unix when =
    days_from_civil when.year when.month when.day *ℤ seconds_per_day
    +ℤ pos (when.hour * 3600)
    +ℤ pos (when.minute * 60)
    +ℤ pos when.second

unfoldable pub weekday : DateTime → ℕ
weekday when = rem_euclid (days_from_civil when.year when.month when.day +ℤ pos 4) 7

unfoldable pub is_zero : ℤ → Bool
is_zero (pos n) = n == 0
is_zero (negsuc n) = false

unfoldable pub is_leap_year : ℤ → Bool
is_leap_year year =
    is_zero (trem year 4) && (not (is_zero (trem year 100)) || is_zero (trem year 400))

unfoldable pub days_in_month : ℤ → ℕ → ℕ
days_in_month year month =
    if month == 1
      || month == 3
      || month == 5
      || month == 7
      || month == 8
      || month == 10
      || month == 12
    then 31
    else if month == 4 || month == 6 || month == 9 || month == 11
    then 30
    else if month == 2
    then if is_leap_year year then 29 else 28
    else 0
