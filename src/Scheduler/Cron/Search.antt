-- ===== src/Scheduler/Cron/Search.antt =====
-- `Cron::matches` and `Cron::next_after` of crates/scheduler/src/cron.rs.
use local_etl_tool.Prelude.{
  ℕ, zero, suc, ◌+◌, ◌*◌, ◌/◌, Bool, true, not, ◌&&◌, ◌||◌, Option, none, some, ltb, ◌==◌,
  if◌then◌else◌,
}
use local_etl_tool.Prelude.Int.{ℤ, pos, ◌+ℤ◌, ◌*ℤ◌, ltb_ℤ, div_euclid}
use local_etl_tool.State.Time.{DateTime, from_unix, to_unix, weekday, days_in_month}
use local_etl_tool.Scheduler.Cron.{contains, next_from, Cron}

abbrev pub search_years : ℕ
search_years = 5

unfoldable pub day_matches : Cron → DateTime → Bool
unfolding contains weekday
day_matches c when =
    let by_month_day = contains c.days_of_month when.day in
    let by_week_day = contains c.days_of_week (weekday when) in
    if c.day_of_month_restricted
    then if c.day_of_week_restricted then by_month_day || by_week_day else by_month_day
    else if c.day_of_week_restricted
    then by_week_day
    else true

unfoldable pub matches : Cron → DateTime → Bool
unfolding day_matches contains
matches c when =
    contains c.months when.month
    && (day_matches c when && (contains c.hours when.hour && contains c.minutes when.minute))

unfoldable pub start_of_next_month : DateTime → ℤ
unfolding to_unix
start_of_next_month when =
    let last = when.month == 12 in
    to_unix (record {
      year = if last then when.year +ℤ pos 1 else when.year;
      month = if last then 1 else when.month + 1;
      day = 1;
      hour = 0;
      minute = 0;
      second = 0;
    })

unfoldable pub start_of_next_day : DateTime → ℤ
unfolding to_unix start_of_next_month days_in_month
start_of_next_day when =
    if ltb when.day (days_in_month when.year when.month)
    then to_unix (record when { day = when.day + 1; hour = 0; minute = 0; second = 0 })
    else start_of_next_month when

-- Where the loop goes from a probe: it returns an instant, or probes another one.
pub data Probe : Type 0 where
  found : ℤ → Probe
  again : ℤ → Probe

unfoldable pub at_hour : Cron → DateTime → ℕ → Probe
at_hour c when hour = elim (next_from c.minutes (if hour == when.hour then when.minute else 0)) [
  | some minute ↦ found (to_unix (record when { hour = hour; minute = minute; second = 0 }))
  | none ↦ again (to_unix (record when { hour = hour; minute = 59; second = 0 }) +ℤ pos 60)
]

-- The body of the loop.
unfoldable pub visit : Cron → ℤ → Probe
unfolding at_hour next_from from_unix day_matches contains start_of_next_month start_of_next_day
visit c probe =
    let when = from_unix probe in
    if not (contains c.months when.month)
    then again (start_of_next_month when)
    else if not (day_matches c when)
    then again (start_of_next_day when)
    else elim (next_from c.hours when.hour) [
      | none ↦ again (start_of_next_day when)
      | some hour ↦ at_hour c when hour
    ]

-- `while probe < limit`, on fuel.
unfoldable pub search : ℕ → Cron → ℤ → ℤ → Option ℤ
unfolding visit
search zero c limit probe = none
search (suc fuel) c limit probe =
    if ltb_ℤ probe limit
    then elim (visit c probe) [ found t ↦ some t | again next ↦ search fuel c limit next ]
    else none

-- Every round goes a minute forward at least, so a round for each minute of the five years is enough.
unfoldable pub next_after : Cron → ℤ → Option ℤ
unfolding search
next_after c after =
    let probe = (div_euclid after 60 +ℤ pos 1) *ℤ 60 in
    let span = search_years * 366 * 86400 in search (span / 60) c (probe +ℤ pos span) probe
