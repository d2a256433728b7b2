-- ===== src/State/Time/Era.antt =====
-- crates/state/src/time.rs: the years and the days of an era of 400 years, which begins on 1 March.
use local_etl_tool.Prelude.{ℕ, suc, ◌+◌, ◌/◌, ◌≤◌, ◌<◌, ◌≡◌, arith}
use local_etl_tool.State.Time.{year_of_day, days_before}

pub year_lt : (d : ℕ) → d < 146097 → year_of_day d < 400
unfolding year_of_day
year_lt d h = omega arith

pub before_le : (d : ℕ) → d < 146097 → days_before (year_of_day d) ≤ d
unfolding year_of_day days_before
before_le d h = omega arith

pub before_ge : (d : ℕ) → d < 146097 → d ≤ days_before (year_of_day d) + 365
unfolding year_of_day days_before
before_ge d h = omega arith

-- The year of a day is determined by the days before it and after it.
pub era_bound :
    (y d : ℕ)
    → y < 400
    → days_before y + d < days_before (suc y) + suc y / 400
    → days_before y + d < 146097
unfolding days_before
era_bound y d h b = omega arith

pub year_of_day_lem :
    (y d : ℕ)
    → y < 400
    → days_before y + d < days_before (suc y) + (suc y / 400)
    → year_of_day (days_before y + d) ≡ y
unfolding year_of_day days_before
year_of_day_lem y d h b = omega arith

pub before_next :
    (d : ℕ) → d < 146097 → d < days_before (suc (year_of_day d)) + suc (year_of_day d) / 400
unfolding year_of_day days_before
before_next d h = omega arith
