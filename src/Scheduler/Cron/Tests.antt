-- ===== src/Scheduler/Cron/Tests.antt =====
-- A cron expression, parsed and searched.
use local_etl_tool.Prelude.{◌≡◌, refl, some, false, ok, arith}
use local_etl_tool.Prelude.Text.{codes}
use local_etl_tool.Prelude.Int.{pos, ltb_ℤ, ◌*ℤ◌, ◌+ℤ◌, ◌-ℤ◌, div_euclid, floor_div, rem_euclid}
use local_etl_tool.Prelude.Split.{parse_i64, parse_u32}
use local_etl_tool.State.Time.{civil_from_days, days_from_civil, days_before, year_of_day}
use local_etl_tool.Scheduler.Cron.{Cron, parse_field, minute_kind}
use local_etl_tool.Scheduler.Cron.Parse.{parse}
use local_etl_tool.Scheduler.Cron.Search.{next_after}
use local_etl_tool.Scheduler.Cron.Next.{IsNextMatch}
use local_etl_tool.Scheduler.Cron.Bounded.{next_after-parse}
use local_etl_tool.Scheduler.Cron.Sound.{IsClock}

-- At 03:00 every day.
abbrev nightly : Cron
nightly = record {
  minutes = record { bits = 1 };
  hours = record { bits = 8 };
  days_of_month = record { bits = 4294967294 };
  months = record { bits = 8190 };
  days_of_week = record { bits = 127 };
  day_of_month_restricted = false;
  day_of_week_restricted = false;
  text = codes "0 3 * * *";
}

nightly_parses : parse (codes "0 3 * * *") ≡ ok nightly
unfolding parse parse_i64 ltb_ℤ
nightly_parses = refl

nightly-next_after : next_after nightly (pos 0) ≡ some (pos 10800)
unfolding next_after ltb_ℤ ◌*ℤ◌ ◌+ℤ◌ div_euclid civil_from_days ◌-ℤ◌ floor_div days_before
    year_of_day rem_euclid days_from_civil
nightly-next_after = refl

nightly-IsClock : IsClock nightly
nightly-IsClock = record { hours = omega arith; minutes = omega arith }

-- A step that wraps the sum of a u32 around: the values go down from 5 to 0.
wrapped_step : parse_field (codes "5/4294967295") minute_kind ≡ ok (record { bits = 63 })
unfolding parse_field parse_i64 parse_u32 ltb_ℤ
wrapped_step = refl

next_after-parse_example : IsNextMatch nightly (pos 0) (next_after nightly (pos 0))
next_after-parse_example = next_after-parse (codes "0 3 * * *") nightly (pos 0) nightly_parses
