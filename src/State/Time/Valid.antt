-- ===== src/State/Time/Valid.antt =====
-- crates/state/src/time.rs: the dates that the calendar has.
use local_etl_tool.Prelude.{
  ℕ, suc, ◌+◌, ◌-◌, ◌*◌, ◌/◌, ◌%◌, ◌≤◌, ◌<◌, ◌≡◌, refl, sym, ap, ◌∙◌, Bool, true, false, not, ◌&&◌,
  ◌||◌, ltb, leb, ◌==◌, if◌then◌else◌, arith,
}
use local_etl_tool.Prelude.Int.{
  ℤ, pos, negsuc, pos_part, neg_part, ◌+ℤ◌, ◌-ℤ◌, ◌*ℤ◌, floor_div, floor_div-split, trem,
  rem_euclid, int_laws, part_zero,
}
use local_etl_tool.State.Time.{
  civil_from_days, days_from_civil, days_before, is_leap_year, days_in_month, is_zero,
}
use local_etl_tool.State.Time.Civil.{march_month, march_year, march_day, days-march, civil-march}

is_zero-trem : (a : ℤ) (k : ℕ) → is_zero (trem a k) ≡ ((pos_part a + neg_part a) % k == 0)
unfolding is_zero trem
is_zero-trem (pos n) k = ground arith
is_zero-trem (negsuc n) k = ground arith

abbrev pub is_leap : ℕ → Bool
is_leap n = (n % 4 == 0) && (not (n % 100 == 0) || (n % 400 == 0))

-- Whether a year is a leap year depends on its place among 400 years.
pub is_leap_year-era :
    (y : ℤ) (z : ℕ) (era : ℤ) → era *ℤ 400 +ℤ pos z ≡ y → is_leap_year y ≡ is_leap z
is_leap_year-era y z era h =
    let parts : pos_part y + neg_part era * 400 ≡ neg_part y + pos_part era * 400 + z =
      rw (sym h) (omega int_laws) in
    let one_part = part_zero y in
    let by_4 : ((pos_part y + neg_part y) % 4 == 0) ≡ (z % 4 == 0) = ground arith in
    let by_100 : ((pos_part y + neg_part y) % 100 == 0) ≡ (z % 100 == 0) = ground arith in
    let by_400 : ((pos_part y + neg_part y) % 400 == 0) ≡ (z % 400 == 0) = ground arith in
    unfold is_leap_year in
    rw (is_zero-trem y 4, is_zero-trem y 100, is_zero-trem y 400, by_4, by_100, by_400) refl

abbrev pub position : ℕ → ℕ
position m = if ltb 2 m then m - 3 else m + 9

-- The days of a month fit between its first day and the next month's, and 29 February needs a leap year.
month_fits :
    (y : ℤ) (m d : ℕ)
    → 1 ≤ m
    → m ≤ 12
    → d < days_in_month y m
    → march_day (position m) d < march_day (suc (position m)) 0
unfolding days_in_month
month_fits y m d low high h = ground arith

month_in_year :
    (y : ℤ) (m d : ℕ)
    → 1 ≤ m
    → m ≤ 12
    → d < days_in_month y m
    → march_day (position m) d < 365 + (if is_leap_year y then 1 else 0)
unfolding days_in_month
month_in_year y m d low high h = ground arith

in_year_of_era :
    (yoe m d : ℕ) (leap : Bool)
    → yoe < 400
    → (m < 11 → d < 337)
    → d < 365 + (if leap then 1 else 0)
    → (m ≡ 11 → leap ≡ is_leap (suc yoe))
    → m < 12
    → days_before yoe + d < days_before (suc yoe) + suc yoe / 400
unfolding days_before
in_year_of_era yoe m d true y early h at_end top = grind arith
in_year_of_era yoe m d false y early h at_end top = grind arith

year_shift :
    (year era : ℤ) (yoe c : ℕ)
    → era *ℤ 400 +ℤ pos yoe ≡ year -ℤ pos c
    → (pos yoe +ℤ era *ℤ 400 +ℤ pos c ≡ year) × (era *ℤ 400 +ℤ pos (yoe + c) ≡ year)
year_shift year era yoe c h =
    let up : era *ℤ 400 +ℤ pos yoe +ℤ pos c ≡ year = rw h (omega int_laws) in
    (omega int_laws ∙ up, omega int_laws ∙ up)

-- A year and a month, counted from a March.
pub record March (year : ℤ) (month : ℕ) : Type 0 where
  pub era : ℤ
  pub yoe : ℕ
  pub mp : ℕ
  pub year_below : yoe < 400
  pub month_below : mp < 12
  pub position_is : mp ≡ position month
  pub year_is : march_year era yoe mp ≡ year
  pub month_is : march_month mp ≡ month
  pub leap : mp ≡ 11 → is_leap_year year ≡ is_leap (suc yoe)

pub to_march : (year : ℤ) (month : ℕ) → 1 ≤ month → month ≤ 12 → March year month
to_march year month low high =
    let march_first : ℤ = year -ℤ pos (if leb month 2 then 1 else 0) in
    let era : ℤ = floor_div march_first 400 in
    let yoe : ℕ = rem_euclid march_first 400 in
    let (split, below) = floor_div-split march_first 400 (omega arith) in
    let c : ℕ = if leb month 2 then 1 else 0 in
    let (as_march, as_era) = year_shift year era yoe c split in
    let month_is : march_month (position month) ≡ month = ground arith in
    record {
      era = era;
      yoe = yoe;
      mp = position month;
      year_below = below;
      month_below = ground arith;
      position_is = refl;
      year_is = rw month_is as_march;
      month_is = month_is;
      leap = λ h.
          let c_is : yoe + c ≡ suc yoe = ground arith in
          is_leap_year-era year (suc yoe) era (rw c_is at as_era);
    }

-- `civil_from_days` is the exact inverse of `days_from_civil` on the dates of the calendar: a month
-- from 1 to 12 and a day from 1 to the number of days that the month has in that year.
pub civil_from_days-days_from_civil :
    (year : ℤ) (month day : ℕ)
    → 1 ≤ month
    → month ≤ 12
    → 1 ≤ day
    → day ≤ days_in_month year month
    → civil_from_days (days_from_civil year month day) ≡ (year, month, day)
civil_from_days-days_from_civil year month day low high first last =
    let march = to_march year month low high in
    let d : ℕ = day - 1 in
    let day_is : d + 1 ≡ day = omega arith in
    let inside : d < days_in_month year month = omega arith in
    let same = march.position_is in
    let in_month : march_day march.mp d < march_day (suc march.mp) 0 =
      rw same (month_fits year month d low high inside) in
    let within : march_day march.mp d < 365 + (if is_leap_year year then 1 else 0) =
      rw same (month_in_year year month d low high inside) in
    let in_year =
      in_year_of_era march.yoe march.mp (march_day march.mp d) (is_leap_year year) march.year_below
        (λ h. omega arith) within march.leap march.month_below in
    let there = days-march march.era march.yoe march.mp d march.year_below march.month_below in
    let again =
      civil-march march.era march.yoe march.mp d march.year_below march.month_below in_month
        in_year in
    ap (λ days. civil_from_days days) (rw (march.year_is, march.month_is, day_is) at there)
    ∙ (rw (march.year_is, march.month_is, day_is) at again)
