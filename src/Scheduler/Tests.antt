-- ===== src/Scheduler/Tests.antt =====
-- Concrete intervals, field sets, watches and schedules for crates/scheduler/src.
use local_etl_tool.Prelude.{none, some, true, ◌↔◌}
use local_etl_tool.Prelude.{ℕ, ◌≡◌, refl, [], ◌∷◌, ok, ◌<◌, ◌≤◌, All, arith}
use local_etl_tool.Prelude.Text.{codes, trim, is_ascii_digit}
use local_etl_tool.Prelude.Int.{pos, ◌<ℤ◌, ◌≤ℤ◌}
use local_etl_tool.Scheduler.Every.{Interval, max_seconds, parse, next_after}
use local_etl_tool.Scheduler.Cron.{FieldSet, next_from}
use local_etl_tool.Scheduler.Watch.{
  Stamp, same_stamp, baseline, changing, settled, quiet, unwatched,
}
use local_etl_tool.Scheduler.Watch.Settling.{polls, answers, polls_lem}
use local_etl_tool.Scheduler.File.{Schedule, ScheduleFile, check, every}
use local_etl_tool.Scheduler.File.Checks.{IsNamed, Differ, check_iff}
use local_etl_tool.Scheduler.Every.Bounds.{parse_bounds}
use local_etl_tool.Scheduler.Every.Ticks.{tick, next_after-IsFirst}
use local_etl_tool.Scheduler.Every.Render.{
  Part, hours, minutes, IsPart, render, total, parse-render,
}

abbrev ninety_minutes : Interval
ninety_minutes = record { seconds = 5400; text = codes "1h 30m" }

ninety_minutes_parses : parse (codes " 1h 30m") ≡ ok ninety_minutes
unfolding parse
ninety_minutes_parses = refl

parse_bounds_example : (0 < 5400) × (5400 ≤ max_seconds) × (codes "1h 30m" ≡ trim (codes " 1h 30m"))
parse_bounds_example = parse_bounds (codes " 1h 30m") ninety_minutes ninety_minutes_parses

next_after-IsFirst_example :
    ((k : ℕ) × (next_after ninety_minutes (pos 1000) (pos 8000) ≡ tick ninety_minutes (pos 1000) k))
    × (pos 8000 <ℤ next_after ninety_minutes (pos 1000) (pos 8000))
    × ((k : ℕ)
        → pos 8000 <ℤ tick ninety_minutes (pos 1000) k
        → next_after ninety_minutes (pos 1000) (pos 8000) ≤ℤ tick ninety_minutes (pos 1000) k)
next_after-IsFirst_example = next_after-IsFirst ninety_minutes (pos 1000) (pos 8000) (omega arith)

abbrev one_hour : Part
one_hour = record { number = codes "1"; unit = hours }

abbrev half_hour : Part
half_hour = record { number = codes "30"; unit = minutes }

hour_and_half-IsPart : All IsPart (one_hour ∷ half_hour ∷ [])
unfolding is_ascii_digit
hour_and_half-IsPart = (
  record { written = ground arith; decimal = (refl, tt) },
  (record { written = ground arith; decimal = (refl, (refl, tt)) }, tt),
)

hour_and_half-total : total (one_hour ∷ half_hour ∷ []) ≡ 5400
unfolding total
hour_and_half-total = refl

parse-render_example :
    parse (render (one_hour ∷ half_hour ∷ []))
    ≡ ok (record {
      seconds = total (one_hour ∷ half_hour ∷ []);
      text = render (one_hour ∷ half_hour ∷ []);
    })
parse-render_example =
    parse-render one_hour (half_hour ∷ []) hour_and_half-IsPart
      (rw hour_and_half-total (omega arith)) (rw hour_and_half-total (omega arith))

-- The minutes 0 and 30.
abbrev half_hours : FieldSet
half_hours = record { bits = 1073741825 }

half_hours-next_from : next_from half_hours 1 ≡ some 30
unfolding next_from
half_hours-next_from = refl

abbrev stamp_at : ℕ → Stamp
stamp_at seconds = some (record { seconds = seconds; nanos = 0; size = 10 })

-- A file arrives, is written once more, and stands still.
arrival :
    answers none none (stamp_at 1 ∷ stamp_at 2 ∷ stamp_at 2 ∷ stamp_at 2 ∷ [])
    ≡ changing ∷ changing ∷ settled ∷ quiet ∷ []
unfolding answers same_stamp
arrival = refl

polls_lem_example :
    polls unwatched (none ∷ stamp_at 1 ∷ stamp_at 2 ∷ stamp_at 2 ∷ stamp_at 2 ∷ [])
    ≡ baseline ∷ answers none none (stamp_at 1 ∷ stamp_at 2 ∷ stamp_at 2 ∷ stamp_at 2 ∷ [])
polls_lem_example = polls_lem none (stamp_at 1 ∷ stamp_at 2 ∷ stamp_at 2 ∷ stamp_at 2 ∷ [])

abbrev nightly : Schedule
nightly = record {
  name = codes "nightly";
  pipeline = codes "load.json";
  trigger = every ninety_minutes;
  is_enabled = true;
  context = none;
  params = [];
  extra = [];
}

abbrev one_schedule : ScheduleFile
one_schedule = record { format_version = 1; schedules = nightly ∷ []; extra = [] }

check_iff_example :
    (check one_schedule ≡ ok tt) ↔ (All IsNamed (nightly ∷ []) × Differ [] (nightly ∷ []))
check_iff_example = check_iff one_schedule
