-- ===== src/State/Time/Civil.antt =====
-- crates/state/src/time.rs: day numbers, and dates counted from 1 March.
use local_etl_tool.Prelude.{
  ℕ, suc, ◌+◌, ◌-◌, ◌*◌, ◌/◌, ◌≤◌, ◌<◌, ◌≡◌, refl, ◌∙◌, ltb, leb, if◌then◌else◌, arith,
}
use local_etl_tool.Prelude.Int.{
  ℤ, pos, pos_part, ◌+ℤ◌, ◌-ℤ◌, ◌*ℤ◌, floor_div, floor_div_unique, add_sub_cancel, add_sub_int,
  sub_of_split, floor_div-split, rem_euclid, int_laws,
}
use local_etl_tool.State.Time.{civil_from_days, days_from_civil, days_before, year_of_day}
use local_etl_tool.State.Time.Era.{era_bound, year_of_day_lem, year_lt, before_le, before_ge}

-- A date counted from 1 March of year 400 * era: a year, a month and a day of it, all from zero.
abbrev pub march_month : ℕ → ℕ
march_month mp = if ltb mp 10 then mp + 3 else mp - 9

abbrev pub march_year : ℤ → ℕ → ℕ → ℤ
march_year era yoe mp = pos yoe +ℤ era *ℤ 400 +ℤ pos (if leb (march_month mp) 2 then 1 else 0)

abbrev pub march_day : ℕ → ℕ → ℕ
march_day mp d = (153 * mp + 2) / 5 + d

abbrev pub march_days : ℤ → ℕ → ℤ
march_days era doe = era *ℤ 146097 +ℤ pos doe -ℤ pos 719468

-- `days_from_civil` of such a date.
pub days-march :
    (era : ℤ) (yoe mp d : ℕ)
    → yoe < 400
    → mp < 12
    → days_from_civil (march_year era yoe mp) (march_month mp) (d + 1)
      ≡ march_days era (days_before yoe + march_day mp d)
days-march era yoe mp d y m =
    let back : march_year era yoe mp -ℤ pos (if leb (march_month mp) 2 then 1 else 0)
        ≡ era *ℤ 400 +ℤ pos yoe =
      omega int_laws in
    let era_is : floor_div (era *ℤ 400 +ℤ pos yoe) 400 ≡ era = floor_div_unique era 400 yoe y in
    let left : pos_part (era *ℤ 400 +ℤ pos yoe -ℤ era *ℤ 400) ≡ yoe =
      add_sub_cancel (era *ℤ 400) yoe in
    let position : (if ltb 2 (march_month mp) then march_month mp - 3 else march_month mp + 9)
        ≡ mp =
      ground arith in
    unfold days_from_civil in rw (back, era_is, left, position) (omega int_laws)

-- `civil_from_days` of its day number, for a day that its month and its year have.
pub civil-march :
    (era : ℤ) (yoe mp d : ℕ)
    → yoe < 400
    → mp < 12
    → march_day mp d < march_day (suc mp) 0
    → days_before yoe + march_day mp d < days_before (suc yoe) + suc yoe / 400
    → civil_from_days (march_days era (days_before yoe + march_day mp d))
      ≡ (march_year era yoe mp, march_month mp, d + 1)
civil-march era yoe mp d y m in_month in_year =
    let doe : ℕ = days_before yoe + march_day mp d in
    let below : doe < 146097 = era_bound yoe (march_day mp d) y in_year in
    let shifted : march_days era doe +ℤ pos 719468 ≡ era *ℤ 146097 +ℤ pos doe = omega int_laws in
    let era_is = floor_div_unique era 146097 doe below in
    let left = add_sub_cancel (era *ℤ 146097) doe in
    let year_is : year_of_day doe ≡ yoe = year_of_day_lem yoe (march_day mp d) y in_year in
    let day_is : doe - days_before yoe ≡ march_day mp d = omega arith in
    let month_is : (5 * march_day mp d + 2) / 153 ≡ mp = omega arith in
    let rest : march_day mp d - (153 * mp + 2) / 5 ≡ d = omega arith in
    unfold civil_from_days in rw (shifted, era_is, left, year_is, day_is, month_is, rest) refl

-- `days_from_civil` is the exact inverse of `civil_from_days`: the date of a day number, over the
-- whole range of integers, has that day number.
pub days_from_civil-civil_from_days :
    (days : ℤ)
    → (let (year, month, day) = civil_from_days days in days_from_civil year month day) ≡ days
days_from_civil-civil_from_days days =
    let shifted : ℤ = days +ℤ pos 719468 in
    let era : ℤ = floor_div shifted 146097 in
    let doe : ℕ = rem_euclid shifted 146097 in
    let (split, below) = floor_div-split shifted 146097 (omega arith) in
    let yoe : ℕ = year_of_day doe in
    let y : yoe < 400 = year_lt doe below in
    let before : days_before yoe ≤ doe = before_le doe below in
    let after : doe ≤ days_before yoe + 365 = before_ge doe below in
    let doy : ℕ = doe - days_before yoe in
    let mp : ℕ = (5 * doy + 2) / 153 in
    let d : ℕ = doy - (153 * mp + 2) / 5 in
    let m : mp < 12 = omega arith in
    let left : pos_part (shifted -ℤ era *ℤ 146097) ≡ doe =
      sub_of_split shifted (era *ℤ 146097) doe split in
    let march = days-march era yoe mp d y m in
    let sum : days_before yoe + march_day mp d ≡ doe = omega arith in
    let back : march_days era doe ≡ days = rw split (add_sub_int days (pos 719468)) in
    unfold civil_from_days in rw left ((rw sum at march) ∙ back)
