-- ===== src/Scheduler/Cron/Days.antt =====
-- The months and the days that the search of crates/scheduler/src/cron.rs skips.
use local_etl_tool.Prelude.{
  ℕ, ◌+◌, ◌-◌, ◌*◌, ◌/◌, ◌%◌, ◌≤◌, ◌<◌, ◌≡◌, refl, ◌⊎◌, inl, inr, false, ltb, ◌==◌, if◌then◌else◌,
  arith, Bool-cases,
}
use local_etl_tool.Prelude.Int.{
  ℤ, pos, pos_part, ◌+ℤ◌, ◌-ℤ◌, ◌*ℤ◌, ◌≤ℤ◌, ◌<ℤ◌, div_euclid, rem_euclid, euclid_parts, int_laws,
  add_diff, add_parts,
}
use local_etl_tool.State.Time.{
  DateTime, from_unix, to_unix, weekday, civil_from_days, days_in_month,
}
use local_etl_tool.State.Time.Civil.{days_from_civil-civil_from_days}
use local_etl_tool.State.Time.Months.{
  IsDate, civil_from_days-IsDate, civil_from_days-later, days_from_civil-next, days_from_civil-add,
}
use local_etl_tool.Scheduler.Cron.{contains, Cron}
use local_etl_tool.Scheduler.Cron.Search.{
  day_matches, matches, start_of_next_month, start_of_next_day,
}

-- The day number of an instant, and the second of the day.
abbrev pub day_of : ℤ → ℕ → ℤ
day_of t k = div_euclid t 86400 +ℤ pos k

abbrev pub clock_of : ℤ → ℕ
clock_of t = rem_euclid t 86400

-- A later instant is on the same day, not earlier on the clock, or on a later day.
pub later_day :
    (p u : ℤ)
    → p ≤ℤ u
    → (k : ℕ) × (div_euclid u 86400 ≡ day_of p k) × (k ≡ 0 → clock_of p ≤ clock_of u)
later_day p u h =
    let a = euclid_parts p 86400 (omega arith) in
    let b = euclid_parts u 86400 (omega arith) in
    let up : div_euclid p 86400 ≤ℤ div_euclid u 86400 = omega (arith, a, b) in
    let k : ℕ = pos_part (div_euclid u 86400 -ℤ div_euclid p 86400) in
    let same : div_euclid u 86400 ≡ day_of p k =
      add_diff (div_euclid u 86400) (div_euclid p 86400) up in
    let parts = add_parts (div_euclid u 86400) (div_euclid p 86400) k same in
    (k, same, λ e. omega arith)

-- Before a midnight a number of days on.
pub before_midnight :
    (p u : ℤ) (n k : ℕ) → div_euclid u 86400 ≡ day_of p k → u <ℤ day_of p n *ℤ 86400 → k < n
before_midnight p u n k at_day h =
    let b = euclid_parts u 86400 (omega arith) in
    let parts = add_parts (div_euclid u 86400) (div_euclid p 86400) k at_day in omega (int_laws, h)

pub start_of_next_month_lem :
    (p : ℤ)
    → let when = from_unix p in
      start_of_next_month when
      ≡ day_of p (days_in_month when.year when.month + 1 - when.day) *ℤ 86400
start_of_next_month_lem p =
    let next = days_from_civil-next (div_euclid p 86400) in
    unfold start_of_next_month to_unix from_unix in rw next (omega int_laws)

-- The date of every instant is one that the calendar has.
pub from_unix-IsDate : (p : ℤ) → IsDate (from_unix p).year (from_unix p).month (from_unix p).day
from_unix-IsDate p = unfold from_unix in civil_from_days-IsDate (div_euclid p 86400)

-- The date of an instant that is some days later in the same month.
pub from_unix-later :
    (p u : ℤ) (k : ℕ)
    → div_euclid u 86400 ≡ day_of p k
    → (from_unix p).day + k ≤ days_in_month (from_unix p).year (from_unix p).month
    → ((from_unix u).year ≡ (from_unix p).year)
      × ((from_unix u).month ≡ (from_unix p).month)
      × ((from_unix u).day ≡ (from_unix p).day + k)
unfolding from_unix
from_unix-later p u k at_day fits =
    let same = civil_from_days-later (div_euclid p 86400) k fits in
    rw (at_day, same) (refl, refl, refl)

-- Where the month is not one of the expression's, nothing before the next month matches.
pub no_month :
    (c : Cron) (p u : ℤ)
    → contains c.months (from_unix p).month ≡ false
    → p ≤ℤ u
    → u <ℤ start_of_next_month (from_unix p)
    → matches c (from_unix u) ≡ false
no_month c p u none_ low high =
    let (k, at_day, _) = later_day p u low in
    let when = from_unix p in
    let date = from_unix-IsDate p in
    let day_high = date.day_high in
    let bound = rw (start_of_next_month_lem p) at high in
    let below =
      before_midnight p u (days_in_month when.year when.month + 1 - when.day) k at_day bound in
    let (_, same, _) = from_unix-later p u k at_day (omega arith) in
    unfold matches in rw (same, none_) refl

-- The clock time of a day.
abbrev pub at_time : ℤ → ℕ → ℕ → ℤ
at_time p hour minute = div_euclid p 86400 *ℤ 86400 +ℤ pos (hour * 3600 + minute * 60)

pub to_unix-same_day :
    (p : ℤ) (hour minute : ℕ)
    → to_unix (record (from_unix p) { hour = hour; minute = minute; second = 0 })
      ≡ at_time p hour minute
to_unix-same_day p hour minute =
    let same = days_from_civil-civil_from_days (div_euclid p 86400) in
    unfold to_unix from_unix in rw same (omega int_laws)

pub start_of_next_day_lem : (p : ℤ) → start_of_next_day (from_unix p) ≡ at_time p 24 0
start_of_next_day_lem p =
    let when = from_unix p in
    let date = from_unix-IsDate p in
    let day_high = date.day_high in
    elim (Bool-cases (ltb when.day (days_in_month when.year when.month))) [
      | inl inner ↦
          let (year, month, day) = civil_from_days (div_euclid p 86400) in
          let back = days_from_civil-civil_from_days (div_euclid p 86400) in
          let next = days_from_civil-add year month day 1 in
          unfold start_of_next_day to_unix in
          rw inner (unfold from_unix in rw (next, back) (omega int_laws))
      | inr last ↦
          let one : days_in_month when.year when.month + 1 - when.day ≡ 1 = ground arith in
          let first = rw one at (start_of_next_month_lem p) in
          unfold start_of_next_day in rw (last, first) (omega int_laws)
    ]

-- The day rule reads the date only.
day_matches_date :
    (c : Cron) (a b : DateTime)
    → a.year ≡ b.year
    → a.month ≡ b.month
    → a.day ≡ b.day
    → day_matches c a ≡ day_matches c b
unfolding day_matches weekday
day_matches_date c a b y m d = rw (y, m, d) refl

-- Where the day is not one of the expression's, nothing before the next day matches.
pub no_day :
    (c : Cron) (p u : ℤ)
    → day_matches c (from_unix p) ≡ false
    → p ≤ℤ u
    → u <ℤ start_of_next_day (from_unix p)
    → matches c (from_unix u) ≡ false
no_day c p u none_ low high =
    let (k, at_day, _) = later_day p u low in
    let date = from_unix-IsDate p in
    let day_high = date.day_high in
    let bound = rw (start_of_next_day_lem p) at high in
    let below = before_midnight p u 1 k at_day (omega (int_laws, bound)) in
    let (y, m, d) = from_unix-later p u k at_day (omega arith) in
    let day : (from_unix u).day ≡ (from_unix p).day = omega arith in
    let same = day_matches_date c (from_unix u) (from_unix p) y m day in
    unfold matches in rw (same, none_) (ground arith)

pub from_unix-clock :
    (u : ℤ)
    → ((from_unix u).hour ≡ clock_of u / 3600) × ((from_unix u).minute ≡ clock_of u % 3600 / 60)
from_unix-clock u = unfold from_unix in (refl, refl)

before_slot :
    (w hour end : ℕ)
    → end ≤ 60
    → w < hour * 3600 + end * 60
    → (w / 3600 < hour) ⊎ ((w / 3600 ≡ hour) × (w % 3600 / 60 < end))
before_slot w hour end small h = elim split [
  | inl early ↦ inl early
  | inr late ↦ inr (omega arith, omega arith)
]
  where
    split : (w / 3600 < hour) ⊎ (hour ≤ w / 3600)
    split = omega arith

same_hour : (v w : ℕ) → v ≤ w → v / 3600 ≡ w / 3600 → v % 3600 / 60 ≤ w % 3600 / 60
same_hour v w h same = omega arith

before_clock :
    (p u : ℤ) (w : ℕ)
    → div_euclid u 86400 ≡ day_of p 0
    → u <ℤ div_euclid p 86400 *ℤ 86400 +ℤ pos w
    → clock_of u < w
before_clock p u w same high =
    let b = euclid_parts u 86400 (omega arith) in
    let parts = add_parts (div_euclid u 86400) (div_euclid p 86400) 0 same in omega (int_laws, high)

-- Before a time of the day of an instant: nothing matches where neither the hours before nor the minutes
-- before, in the hour itself, are the expression's.
pub no_time :
    (c : Cron) (p u : ℤ) (hour end : ℕ)
    → hour * 3600 + end * 60 ≤ 86400
    → end ≤ 60
    → ((w : ℕ) → (from_unix p).hour ≤ w → w < hour → contains c.hours w ≡ false)
    → ((w : ℕ)
        → (if hour == (from_unix p).hour then (from_unix p).minute else 0) ≤ w
        → w < end
        → contains c.minutes w ≡ false)
    → p ≤ℤ u
    → u <ℤ at_time p hour end
    → matches c (from_unix u) ≡ false
no_time c p u hour end fits small hours minutes low high =
    let (k, at_day, clock) = later_day p u low in
    let below = before_midnight p u 1 k at_day (omega int_laws) in
    let zero_ : k ≡ 0 = omega arith in
    let later = clock zero_ in
    let before = before_clock p u (hour * 3600 + end * 60) (rw zero_ at at_day) high in
    let (p_hour, p_minute) = from_unix-clock p in
    let (u_hour, u_minute) = from_unix-clock u in
    let from_minute_le : clock_of u / 3600 ≡ hour
        → (if hour == (from_unix p).hour then (from_unix p).minute else 0) ≤ (from_unix u).minute =
      λ same. let order = same_hour (clock_of p) (clock_of u) later in ground arith in
    elim (before_slot (clock_of u) hour end small before) [
      | inl early ↦
          let out = hours (from_unix u).hour (omega arith) (omega arith) in
          unfold matches in rw out (ground arith)
      | inr (same, early) ↦
          let out = minutes (from_unix u).minute (from_minute_le same) (omega arith) in
          unfold matches in rw out (ground arith)
    ]
