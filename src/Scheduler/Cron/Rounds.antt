-- ===== src/Scheduler/Cron/Rounds.antt =====
-- A round of the search of `Cron::next_after` in crates/scheduler/src/cron.rs: what it leaves out.
use local_etl_tool.Prelude.{
  ℕ, ◌+◌, ◌-◌, ◌*◌, ◌/◌, ◌%◌, ◌^◌, ◌≤◌, ◌<◌, ◌≡◌, refl, sym, ap, ◌∙◌, inl, inr, false, none, some,
  ◌==◌, if◌then◌else◌, arith, Bool-cases, Option-cases,
}
use local_etl_tool.Prelude.Int.{
  ℤ, pos, ◌+ℤ◌, ◌*ℤ◌, ◌≤ℤ◌, ◌<ℤ◌, div_euclid, rem_euclid, euclid_split, floor_div, floor_div_unique,
  add_cancel, euclid_parts, int_laws,
}
use local_etl_tool.State.Time.{from_unix, to_unix, days_in_month}
use local_etl_tool.Scheduler.Cron.{contains, next_from, Cron}
use local_etl_tool.Scheduler.Cron.Fields.{next_from-IsLeast}
use local_etl_tool.Scheduler.Cron.Days.{
  day_of, at_time, to_unix-same_day, start_of_next_day_lem, start_of_next_month_lem,
  from_unix-IsDate, from_unix-clock, no_month, no_day, no_time,
}
use local_etl_tool.Scheduler.Cron.Search.{
  matches, day_matches, visit, at_hour, Probe, found, again, start_of_next_month, start_of_next_day,
}
use local_etl_tool.Scheduler.Cron.Sound.{IsClock, next_from-below}

-- A whole minute.
abbrev pub IsMinute : ℤ → Type 0
IsMinute t = (k : ℤ) × (t ≡ k *ℤ 60)

-- No instant from `start` on, and before `end`, matches.
abbrev pub NoMatch : Cron → ℤ → ℤ → Type 0
NoMatch c start end = (u : ℤ) → start ≤ℤ u → u <ℤ end → matches c (from_unix u) ≡ false

-- An instant is before a midnight that is some days on.
before_days : (p : ℤ) (n : ℕ) → 1 ≤ n → p <ℤ day_of p n *ℤ 86400
before_days p n h =
    let parts = euclid_parts p 86400 (omega arith) in
    let (_, below) = euclid_split p 86400 (omega arith) in omega (int_laws, parts)

before_month : (p : ℤ) → p <ℤ start_of_next_month (from_unix p)
before_month p =
    let when = from_unix p in
    let date = from_unix-IsDate p in
    let day_high = date.day_high in
    let n : ℕ = days_in_month when.year when.month + 1 - when.day in
    rw (start_of_next_month_lem p) (before_days p n (omega arith))

before_day : (p : ℤ) → p <ℤ start_of_next_day (from_unix p)
before_day p =
    rw (start_of_next_day_lem p) (let day = before_days p 1 (omega arith) in omega (int_laws, day))

-- The probes are whole minutes, each later than the one before, and nothing between the two matches.
pub record Advances (c : Cron) (p q : ℤ) : Type 0 where
  pub later : p <ℤ q
  pub minute : IsMinute q
  pub none_between : NoMatch c p q

skip_month :
    (c : Cron) (p : ℤ)
    → contains c.months (from_unix p).month ≡ false
    → Advances c p (start_of_next_month (from_unix p))
skip_month c p h =
    let n : ℕ = days_in_month (from_unix p).year (from_unix p).month + 1 - (from_unix p).day in
    record {
      later = before_month p;
      minute = (day_of p n *ℤ 1440, rw (start_of_next_month_lem p) (omega int_laws));
      none_between = λ u low high. no_month c p u h low high;
    }

skip_day :
    (c : Cron) (p : ℤ)
    → day_matches c (from_unix p) ≡ false
    → Advances c p (start_of_next_day (from_unix p))
skip_day c p h = record {
  later = before_day p;
  minute = (div_euclid p 86400 *ℤ 1440 +ℤ pos 1440, rw (start_of_next_day_lem p) (omega int_laws));
  none_between = λ u low high. no_day c p u h low high;
}

-- Where no later hour of the day is one of the expression's, nothing before the next day matches.
skip_hours :
    (c : Cron) (p : ℤ)
    → c.hours.bits < 2 ^ 24
    → next_from c.hours (from_unix p).hour ≡ none
    → Advances c p (start_of_next_day (from_unix p))
skip_hours c p small h = record {
  later = before_day p;
  minute = (div_euclid p 86400 *ℤ 1440 +ℤ pos 1440, rw (start_of_next_day_lem p) (omega int_laws));
  none_between = λ u low high.
      let hours = (next_from-IsLeast c.hours (from_unix p).hour (omega arith)).1 h in
      no_time c p u 24 0 (omega arith) (omega arith) (λ w up below. hours w up)
        (λ w up below. absurd (omega arith)) low (rw (start_of_next_day_lem p) at high);
}

-- The hour that the search goes on with, and the minute that it begins with there.
record IsNextHour (c : Cron) (p : ℤ) (hour : ℕ) : Type 0 where
  low : (from_unix p).hour ≤ hour
  high : hour < 24
  none_before : (w : ℕ) → (from_unix p).hour ≤ w → w < hour → contains c.hours w ≡ false

to_hour :
    (c : Cron) (p : ℤ) (hour : ℕ)
    → c.hours.bits < 2 ^ 24
    → next_from c.hours (from_unix p).hour ≡ some hour
    → IsNextHour c p hour
to_hour c p hour small h =
    let wide : c.hours.bits < 2 ^ 64 = omega arith in
    let (_, low, before) = (next_from-IsLeast c.hours (from_unix p).hour wide).0 hour h in
    let (_, high) = next_from-below c.hours (from_unix p).hour 24 hour wide small h in
    record { low = low; high = high; none_before = before }

abbrev first_minute : ℤ → ℕ → ℕ
first_minute p hour = if hour == (from_unix p).hour then (from_unix p).minute else 0

-- An instant is in the minute of its hour, and before the end of the hour.
before_hour : (p : ℤ) (hour : ℕ) → (from_unix p).hour ≤ hour → p <ℤ at_time p hour 60
before_hour p hour low =
    let parts = euclid_parts p 86400 (omega arith) in
    let (_, below) = euclid_split p 86400 (omega arith) in
    let (is_hour, _) = from_unix-clock p in
    let clock : rem_euclid p 86400 < hour * 3600 + 3600 = omega arith in omega (int_laws, parts)

skip_hour :
    (c : Cron) (p q : ℤ) (hour : ℕ)
    → c.minutes.bits < 2 ^ 60
    → IsNextHour c p hour
    → next_from c.minutes (first_minute p hour) ≡ none
    → to_unix (record (from_unix p) { hour = hour; minute = 59; second = 0 }) +ℤ pos 60 ≡ q
    → Advances c p q
skip_hour c p q hour small at h reached =
    let end : at_time p hour 60 ≡ q =
      omega int_laws ∙ ap (λ t. t +ℤ pos 60) (sym (to_unix-same_day p hour 59)) ∙ reached in
    let minutes = (next_from-IsLeast c.minutes (first_minute p hour) (omega arith)).1 h in
    let high = at.high in
    rw (sym end) (record {
      later = before_hour p hour at.low;
      minute = (div_euclid p 86400 *ℤ 1440 +ℤ pos (hour * 60 + 60), omega int_laws);
      none_between = λ u below above.
          no_time c p u hour 60 (omega arith) (omega arith) at.none_before
            (λ w up less. minutes w up) below above;
    })

-- A whole minute has no seconds.
minute_clock : (p : ℤ) → IsMinute p → rem_euclid p 86400 % 60 ≡ 0
minute_clock p (k, whole) =
    let days : ℤ = div_euclid p 86400 in
    let w : ℕ = rem_euclid p 86400 in
    let (split, _) = euclid_split p 86400 (omega arith) in
    let minutes : ℤ = days *ℤ 1440 +ℤ pos (w / 60) in
    let by_clock : p ≡ minutes *ℤ 60 +ℤ pos (w % 60) = sym split ∙ omega int_laws in
    let by_minute : p ≡ k *ℤ 60 +ℤ pos 0 = whole ∙ omega int_laws in
    let same : k ≡ minutes =
      sym (floor_div_unique k 60 0 (omega arith))
      ∙ ap (λ t. floor_div t 60) (sym by_minute ∙ by_clock)
      ∙ floor_div_unique minutes 60 (w % 60) (omega arith) in
    add_cancel (minutes *ℤ 60) (w % 60) 0 (sym by_clock ∙ (rw same at by_minute))

not_before :
    (p : ℤ) (hour minute : ℕ)
    → IsMinute p
    → (from_unix p).hour ≤ hour
    → first_minute p hour ≤ minute
    → p ≤ℤ at_time p hour minute
not_before p hour minute whole low up =
    let parts = euclid_parts p 86400 (omega arith) in
    let seconds = minute_clock p whole in
    let (is_hour, is_minute) = from_unix-clock p in
    let clock : rem_euclid p 86400 ≤ hour * 3600 + minute * 60 = ground arith in
    omega (int_laws, parts)

found_lem :
    (c : Cron) (p t : ℤ) (hour minute : ℕ)
    → c.minutes.bits < 2 ^ 60
    → IsNextHour c p hour
    → next_from c.minutes (first_minute p hour) ≡ some minute
    → to_unix (record (from_unix p) { hour = hour; minute = minute; second = 0 }) ≡ t
    → IsMinute p
    → (p ≤ℤ t) × IsMinute t × NoMatch c p t
found_lem c p t hour minute small at h reached whole =
    let end : at_time p hour minute ≡ t = sym (to_unix-same_day p hour minute) ∙ reached in
    let wide : c.minutes.bits < 2 ^ 64 = omega arith in
    let (_, up, before) = (next_from-IsLeast c.minutes (first_minute p hour) wide).0 minute h in
    let (_, below_hour) = next_from-below c.minutes (first_minute p hour) 60 minute wide small h in
    let high = at.high in
    rw (sym end) (
      not_before p hour minute whole at.low up,
      (div_euclid p 86400 *ℤ 1440 +ℤ pos (hour * 60 + minute), omega int_laws),
      (λ u below above.
          no_time c p u hour minute (omega arith) (omega arith) at.none_before before below above),
    )

-- What a round of the search says.
unfoldable pub Round : Cron → ℤ → Probe → Type 0
Round c p (found t) = (p ≤ℤ t) × IsMinute t × NoMatch c p t
Round c p (again q) = Advances c p q

visit_hour :
    (c : Cron) (p : ℤ) (hour : ℕ)
    → c.minutes.bits < 2 ^ 60
    → IsNextHour c p hour
    → IsMinute p
    → Round c p (at_hour c (from_unix p) hour)
unfolding at_hour Round
visit_hour c p hour small at whole =
    elim (Option-cases (next_from c.minutes (first_minute p hour))) [
      | inl e ↦
          rw (e, Round, at_hour)
            (skip_hour c p
              (to_unix (record (from_unix p) { hour = hour; minute = 59; second = 0 }) +ℤ pos 60)
              hour small at e refl)
      | inr (minute, e) ↦
          rw (e, Round, at_hour)
            (found_lem c p
              (to_unix (record (from_unix p) { hour = hour; minute = minute; second = 0 })) hour
              minute small at e refl whole)
    ]

pub visit_lem : (c : Cron) (p : ℤ) → IsClock c → IsMinute p → Round c p (visit c p)
unfolding visit Round
visit_lem c p clock whole = elim (Bool-cases (contains c.months (from_unix p).month)) [
  | inr e ↦ rw e (skip_month c p e)
  | inl month ↦ elim (Bool-cases (day_matches c (from_unix p))) [
    | inr e ↦ rw (month, e) (skip_day c p e)
    | inl day ↦ elim (Option-cases (next_from c.hours (from_unix p).hour)) [
      | inl e ↦ rw (month, day, e) (skip_hours c p clock.hours e)
      | inr (hour, e) ↦
          rw (month, day, e)
            (visit_hour c p hour clock.minutes (to_hour c p hour clock.hours e) whole)
    ]
  ]
]
