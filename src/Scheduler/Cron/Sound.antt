-- ===== src/Scheduler/Cron/Sound.antt =====
-- What the search of crates/scheduler/src/cron.rs finds.
use local_etl_tool.Prelude.{
  ℕ, zero, suc, ◌^◌, ◌<◌, ◌≡◌, refl, ap, ◌∙◌, ◌⊎◌, inl, inr, true, some, ◌==◌, if◌then◌else◌, arith,
  Bool-cases, Option-cases,
}
use local_etl_tool.Prelude.Int.{ℤ, pos, ◌+ℤ◌, ◌*ℤ◌, ltb_ℤ, div_euclid}
use local_etl_tool.State.Time.{DateTime, from_unix, to_unix, weekday}
use local_etl_tool.State.Time.Instant.{from_unix-same_day}
use local_etl_tool.Scheduler.Cron.{FieldSet, contains, next_from, Cron}
use local_etl_tool.Scheduler.Cron.Fields.{next_from-IsLeast, bit_below, contains-bit}
use local_etl_tool.Scheduler.Cron.Search.{
  matches, day_matches, visit, at_hour, Probe, found, again, search, next_after,
}

-- The hours and the minutes of the expression are hours and minutes.
pub record IsClock (c : Cron) : Type 0 where
  pub hours : c.hours.bits < 2 ^ 24
  pub minutes : c.minutes.bits < 2 ^ 60

-- A value that `next_from` returns is in the set, and below the bound of the set.
pub next_from-below :
    (s : FieldSet) (from width v : ℕ)
    → s.bits < 2 ^ 64
    → s.bits < 2 ^ width
    → next_from s from ≡ some v
    → (contains s v ≡ true) × (v < width)
next_from-below s from width v wide small h =
    let (set_, _, _) = (next_from-IsLeast s from wide).0 v h in
    (set_, bit_below width s.bits v small (contains-bit s v set_))

-- The day rule reads the date only.
same_day :
    (c : Cron) (when : DateTime) (hour minute : ℕ)
    → day_matches c (record when { hour = hour; minute = minute; second = 0 }) ≡ day_matches c when
unfolding day_matches weekday
same_day c when hour minute = refl

at_hour-matches :
    (c : Cron) (probe t : ℤ) (hour : ℕ)
    → IsClock c
    → contains c.months (from_unix probe).month ≡ true
    → day_matches c (from_unix probe) ≡ true
    → contains c.hours hour ≡ true
    → hour < 24
    → at_hour c (from_unix probe) hour ≡ found t
    → matches c (from_unix t) ≡ true
unfolding at_hour
at_hour-matches c probe t hour clock month day hour_in below h =
    let when = from_unix probe in
    let from : ℕ = if hour == when.hour then when.minute else 0 in
    elim (Option-cases (next_from c.minutes from)) [
      | inl e ↦ absurd (ground arith)
      | inr (minute, e) ↦
          let (minute_in, minute_below) =
            next_from-below c.minutes from 60 minute (omega (arith, clock.minutes)) clock.minutes
              e in
          let at_time : to_unix (record when { hour = hour; minute = minute; second = 0 }) ≡ t =
            ground arith in
          let back = from_unix-same_day probe hour minute 0 below minute_below (omega arith) in
          let same = same_day c when hour minute in
          rw (← at_time, back) (unfold matches in rw (month, same, day, hour_in, minute_in) refl)
    ]

visit-matches :
    (c : Cron) (probe t : ℤ) → IsClock c → visit c probe ≡ found t → matches c (from_unix t) ≡ true
unfolding visit
visit-matches c probe t clock h =
    let when = from_unix probe in
    elim (Bool-cases (contains c.months when.month)) [
      | inr e ↦ absurd (ground arith)
      | inl month ↦ elim (Bool-cases (day_matches c when)) [
        | inr e ↦ absurd (ground arith)
        | inl day ↦ elim (Option-cases (next_from c.hours when.hour)) [
          | inl e ↦ absurd (ground arith)
          | inr (hour, e) ↦
              let (hour_in, below) =
                next_from-below c.hours when.hour 24 hour (omega (arith, clock.hours)) clock.hours
                  e in
              at_hour-matches c probe t hour clock month day hour_in below (ground arith)
        ]
      ]
    ]

pub Probe-cases : (p : Probe) → ((t : ℤ) × (p ≡ found t)) ⊎ ((next : ℤ) × (p ≡ again next))
Probe-cases (found t) = inl (t, refl)
Probe-cases (again next) = inr (next, refl)

search-matches :
    (fuel : ℕ) (c : Cron) (limit probe t : ℤ)
    → IsClock c
    → search fuel c limit probe ≡ some t
    → matches c (from_unix t) ≡ true
unfolding search
search-matches zero c limit probe t clock h = absurd (ground arith)
search-matches (suc fuel) c limit probe t clock h = elim (Bool-cases (ltb_ℤ probe limit)) [
  | inr e ↦ absurd (ground arith)
  | inl e ↦ elim (Probe-cases (visit c probe)) [
    | inl (u, at_u) ↦
        let same : u ≡ t = ground arith in visit-matches c probe t clock (at_u ∙ ap found same)
    | inr (next, moved) ↦ search-matches fuel c limit next t clock (rw (e, moved) at h)
  ]
]

-- Where the hours and the minutes of an expression are below 24 and 60, an instant that `next_after`
-- returns matches the expression.
pub next_after-matches :
    (c : Cron) (after t : ℤ)
    → IsClock c
    → next_after c after ≡ some t
    → matches c (from_unix t) ≡ true
unfolding next_after
next_after-matches c after t clock h =
    let probe = (div_euclid after 60 +ℤ pos 1) *ℤ 60 in
    search-matches 2635200 c (probe +ℤ pos 158112000) probe t clock h
