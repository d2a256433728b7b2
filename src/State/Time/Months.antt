-- ===== src/State/Time/Months.antt =====
-- crates/state/src/time.rs: the dates of consecutive days, and the days from one month to the next.
use local_etl_tool.Prelude.{
  ℕ, suc, ◌+◌, ◌-◌, ◌*◌, ◌/◌, ◌≤◌, ◌<◌, ◌≡◌, refl, sym, ap, ◌∙◌, ◌⊎◌, inl, inr, leb, ◌==◌,
  if◌then◌else◌, arith, Bool-cases,
}
use local_etl_tool.Prelude.Int.{
  ℤ, pos, pos_part, ◌+ℤ◌, ◌-ℤ◌, ◌*ℤ◌, floor_div, floor_div-split, rem_euclid, int_laws,
  sub_of_split, add_pos,
}
use local_etl_tool.State.Time.{
  civil_from_days, days_from_civil, days_before, year_of_day, is_leap_year, days_in_month,
}
use local_etl_tool.State.Time.Era.{year_lt, before_le, before_ge, before_next}
use local_etl_tool.State.Time.Civil.{
  march_month, march_year, march_day, march_days, days-march, days_from_civil-civil_from_days,
}
use local_etl_tool.State.Time.Valid.{
  March, to_march, is_leap, is_leap_year-era, position, civil_from_days-days_from_civil,
}

-- A date that the calendar has.
pub record IsDate (year : ℤ) (month day : ℕ) : Type 0 where
  pub month_low : 1 ≤ month
  pub month_high : month ≤ 12
  pub day_low : 1 ≤ day
  pub day_high : day ≤ days_in_month year month

-- Later days of a month.
pub days_from_civil-add :
    (year : ℤ) (month day k : ℕ)
    → days_from_civil year month (day + k) ≡ days_from_civil year month day +ℤ pos k
days_from_civil-add year month day k = unfold days_from_civil in omega int_laws

abbrev pub next_year : ℤ → ℕ → ℤ
next_year year month = if month == 12 then year +ℤ pos 1 else year

abbrev pub next_month : ℕ → ℕ
next_month month = if month == 12 then 1 else month + 1

-- The months but February.
month_length :
    (year : ℤ) (m : ℕ)
    → 1 ≤ m
    → m ≤ 12
    → position m < 11
    → march_day (suc (position m)) 0 ≡ march_day (position m) 0 + days_in_month year m
unfolding days_in_month
month_length year m low high h = ground arith

february_length :
    (year : ℤ) (m : ℕ)
    → 1 ≤ m
    → m ≤ 12
    → position m ≡ 11
    → days_in_month year m ≡ (if is_leap_year year then 29 else 28)
unfolding days_in_month
february_length year m low high h = ground arith

-- The last day of an era's year is followed by the first day of the next.
year_length :
    (yoe : ℕ)
    → yoe < 399
    → days_before (suc yoe) ≡ days_before yoe + 337 + (if is_leap (suc yoe) then 29 else 28)
unfolding days_before
year_length yoe h = grind arith

era_length : days_before 399 + 337 + (if is_leap 400 then 29 else 28) ≡ 146097
unfolding days_before
era_length = refl

next_year_lem : (year : ℤ) (m : ℕ) → next_year year m ≡ year +ℤ pos (if m == 12 then 1 else 0)
next_year_lem year m = elim (Bool-cases (m == 12)) [
  | inl t ↦ rw t refl
  | inr f ↦ rw f (omega int_laws)
]

-- The days from the first of a month to the first of the next, within a year from March to February.
step_within :
    (year : ℤ) (m : ℕ)
    → 1 ≤ m
    → m ≤ 12
    → (march : March year m) → march.mp < 11
    → days_from_civil (next_year year m) (next_month m) 1
      ≡ days_from_civil year m 1 +ℤ pos (days_in_month year m)
step_within year m low high march inner =
    let place = march.position_is in
    let c : ℕ = if leb (march_month march.mp) 2 then 1 else 0 in
    let step : (if leb (march_month (suc march.mp)) 2 then 1 else 0)
        ≡ c + (if m == 12 then 1 else 0) =
      ground arith in
    let year_is : march_year march.era march.yoe (suc march.mp) ≡ next_year year m =
      rw (step, next_year_lem year m, sym march.year_is) (omega int_laws) in
    let month_is : march_month (suc march.mp) ≡ next_month m = ground arith in
    let length_is : march_day (suc march.mp) 0 ≡ march_day march.mp 0 + days_in_month year m =
      rw place (month_length year m low high (rw place at inner)) in
    let here = days-march march.era march.yoe march.mp 0 march.year_below march.month_below in
    let there = days-march march.era march.yoe (suc march.mp) 0 march.year_below (omega arith) in
    (rw (year_is, month_is, length_is) at there)
    ∙ omega int_laws
    ∙ ap (λ d. d +ℤ pos (days_in_month year m)) (sym (rw (march.year_is, march.month_is) at here))

-- 1 March is the day after the last of February, also where it begins an era.
after_february :
    (era year : ℤ) (yoe : ℕ)
    → yoe < 400
    → march_year era yoe 11 ≡ year
    → days_from_civil year 3 1
      ≡ march_days era (days_before yoe + 337) +ℤ pos (if is_leap (suc yoe) then 29 else 28)
after_february era year yoe below year_is = elim split [
  | inl inner ↦
      let same : march_year era (suc yoe) 0 ≡ year = omega int_laws ∙ year_is in
      let there = days-march era (suc yoe) 0 0 (omega arith) (omega arith) in
      let length_is = year_length yoe inner in (rw (same, length_is) at there) ∙ omega int_laws
  | inr last ↦
      let same : march_year (era +ℤ pos 1) 0 0 ≡ year = omega int_laws ∙ (rw last at year_is) in
      let there = days-march (era +ℤ pos 1) 0 0 0 (omega arith) (omega arith) in
      rw last ((rw same at there) ∙ unfold days_before in omega int_laws)
]
  where
    split : (yoe < 399) ⊎ (yoe ≡ 399)
    split = omega arith

-- The days of February.
step_february :
    (year : ℤ) (m : ℕ)
    → 1 ≤ m
    → m ≤ 12
    → (march : March year m) → march.mp ≡ 11
    → days_from_civil (next_year year m) (next_month m) 1
      ≡ days_from_civil year m 1 +ℤ pos (days_in_month year m)
step_february year m low high march last =
    let two : m ≡ 2 = let shown = march.month_is in ground arith in
    let length_is : days_in_month year m ≡ (if is_leap (suc march.yoe) then 29 else 28) =
      february_length year m low high (sym march.position_is ∙ last)
      ∙ ap (λ b. if b then 29 else 28) (march.leap last) in
    let year_is : march_year march.era march.yoe 11 ≡ year = rw last at march.year_is in
    let here = days-march march.era march.yoe 11 0 march.year_below (omega arith) in
    let there = after_february march.era year march.yoe march.year_below year_is in
    let first : days_from_civil year 2 1 ≡ march_days march.era (days_before march.yoe + 337) =
      rw year_is at here in
    rw (length_is, two)
      (there ∙ ap (λ d. d +ℤ pos (if is_leap (suc march.yoe) then 29 else 28)) (sym first))

pub month_step :
    (year : ℤ) (m : ℕ)
    → 1 ≤ m
    → m ≤ 12
    → days_from_civil (next_year year m) (next_month m) 1
      ≡ days_from_civil year m 1 +ℤ pos (days_in_month year m)
month_step year m low high =
    let march = to_march year m low high in
    let below = march.month_below in
    let split : (march.mp < 11) ⊎ (march.mp ≡ 11) = omega arith in
    elim split [
      | inl inner ↦ step_within year m low high march inner
      | inr last ↦ step_february year m low high march last
    ]

-- A date that is counted from a March, with a day that its month and its year have.
march-IsDate :
    (era : ℤ) (yoe mp d : ℕ)
    → yoe < 400
    → mp < 12
    → march_day mp d < march_day (suc mp) 0
    → days_before yoe + march_day mp d < days_before (suc yoe) + suc yoe / 400
    → IsDate (march_year era yoe mp) (march_month mp) (d + 1)
march-IsDate era yoe mp d y m in_month in_year =
    let leap : mp ≡ 11 → is_leap_year (march_year era yoe mp) ≡ is_leap (suc yoe) =
      λ h. is_leap_year-era (march_year era yoe mp) (suc yoe) era (rw h (omega int_laws)) in
    let spare : days_before (suc yoe) + suc yoe / 400
        ≤ days_before yoe + 337 + (if is_leap (suc yoe) then 29 else 28) =
      unfold days_before in ground arith in
    record {
      month_low = ground arith;
      month_high = ground arith;
      day_low = omega arith;
      day_high = unfold days_in_month in ground arith;
    }

-- The date of every day number is one that the calendar has.
pub civil_from_days-IsDate :
    (days : ℤ) → let (year, month, day) = civil_from_days days in IsDate year month day
civil_from_days-IsDate days =
    let shifted : ℤ = days +ℤ pos 719468 in
    let era : ℤ = floor_div shifted 146097 in
    let doe : ℕ = rem_euclid shifted 146097 in
    let (split, below) = floor_div-split shifted 146097 (omega arith) in
    let yoe : ℕ = year_of_day doe in
    let y : yoe < 400 = year_lt doe below in
    let before : days_before yoe ≤ doe = before_le doe below in
    let after : doe ≤ days_before yoe + 365 = before_ge doe below in
    let next = before_next doe below in
    let doy : ℕ = doe - days_before yoe in
    let mp : ℕ = (5 * doy + 2) / 153 in
    let d : ℕ = doy - (153 * mp + 2) / 5 in
    let left : pos_part (shifted -ℤ era *ℤ 146097) ≡ doe =
      sub_of_split shifted (era *ℤ 146097) doe split in
    let date = march-IsDate era yoe mp d y (omega arith) (omega arith) (omega arith) in
    unfold civil_from_days in rw left date

-- The date of a later day of the same month.
pub civil_from_days-later :
    (days : ℤ) (k : ℕ)
    → let (year, month, day) = civil_from_days days in
      day + k ≤ days_in_month year month → civil_from_days (days +ℤ pos k) ≡ (year, month, day + k)
civil_from_days-later days k fits =
    let (year, month, day) = civil_from_days days in
    let date = civil_from_days-IsDate days in
    let back = days_from_civil-civil_from_days days in
    let later = days_from_civil-add year month day k in
    ap (λ d. civil_from_days d) (ap (λ d. d +ℤ pos k) (sym back) ∙ sym later)
    ∙ civil_from_days-days_from_civil year month (day + k) date.month_low date.month_high
        (omega (arith, date.day_low)) fits

-- The first day of the month after the one that a day is in.
pub days_from_civil-next :
    (days : ℤ)
    → let (year, month, day) = civil_from_days days in
      days_from_civil (next_year year month) (next_month month) 1
      ≡ days +ℤ pos (days_in_month year month + 1 - day)
days_from_civil-next days =
    let (year, month, day) = civil_from_days days in
    let date = civil_from_days-IsDate days in
    let back = days_from_civil-civil_from_days days in
    let day_low = date.day_low in
    let day_high = date.day_high in
    let split : 1 + (day - 1) ≡ day = omega arith in
    let first = rw split at (days_from_civil-add year month 1 (day - 1)) in
    let rest : ℕ = days_in_month year month + 1 - day in
    let sum : (day - 1) + rest ≡ days_in_month year month = omega arith in
    month_step year month date.month_low date.month_high
    ∙ ap (λ n. days_from_civil year month 1 +ℤ pos n) (sym sum)
    ∙ add_pos (days_from_civil year month 1) (day - 1) rest
    ∙ ap (λ d. d +ℤ pos rest) (sym first ∙ back)
