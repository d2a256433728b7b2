-- ===== src/Scheduler/Run/Tests.antt =====
-- An hourly schedule of crates/scheduler/src/run.rs, in a world that is a clock.
use local_etl_tool.Prelude.{
  ℕ, ◌+◌, ◌≡◌, ◌↔◌, refl, true, false, none, some, List, [], ◌∷◌, map, All, arith,
}
use local_etl_tool.Prelude.Int.{pos, ◌+ℤ◌, ◌-ℤ◌, ◌*ℤ◌, ltb_ℤ, leb_ℤ, div_euclid, tdiv}
use local_etl_tool.Prelude.Text.{codes}
use local_etl_tool.Scheduler.Every.{Interval}
use local_etl_tool.Scheduler.Watch.{missing}
use local_etl_tool.Scheduler.File.{Schedule, every}
use local_etl_tool.Scheduler.Run.{
  Entry, Outside, failed, Tick, Summary, new_scheduler, due_from, wake_at, pass,
}
use local_etl_tool.Scheduler.Run.Loop.{run}
use local_etl_tool.Scheduler.Run.Ends.{run-ends}
use local_etl_tool.Scheduler.Run.Wake.{Before, due_from-wake_at}
use local_etl_tool.Scheduler.Run.Placed.{ArePlaced, IsPositive, run-new_scheduler}
use local_etl_tool.Scheduler.Run.Fires.{Sublist, names_of, schedules_of, pass-Sublist}

abbrev hour : Interval
hour = record { seconds = 3600; text = codes "1h" }

abbrev hourly : Schedule
hourly = record {
  name = codes "hourly";
  pipeline = codes "orders.json";
  trigger = every hour;
  is_enabled = true;
  context = none;
  params = [];
  extra = [];
}

-- A reading of the clock takes ten seconds, a run more than an hour.
abbrev clockwork : Outside ℕ
clockwork = record {
  now = λ w. (pos w, w + 10);
  sleep = λ seconds w. w + seconds;
  run_pipeline = λ s w. (failed, w + 4000);
  look = λ path w. (missing, w);
  should_stop = λ w. (false, w);
}

abbrev waiting : Entry
waiting = record {
  schedule = hourly;
  next = some (pos 3600);
  last_run = none;
  missed = 0;
  behind = 0;
  watch = none;
  next_poll = pos 0;
}

abbrev fired : Entry
fired = record {
  schedule = hourly;
  next = some (pos 10800);
  last_run = some (pos 5010);
  missed = 1;
  behind = 0;
  watch = none;
  next_poll = pos 0;
}

abbrev overran : Tick
overran = record {
  name = codes "hourly";
  due = pos 3600;
  started = pos 5010;
  outcome = failed;
  took = pos 4010;
  missed = 1;
}

hourly-IsPositive : All (λ s. IsPositive s.trigger) (hourly ∷ [])
unfolding IsPositive
hourly-IsPositive = (omega arith, tt)

one_pass :
    run 1 clockwork
      (some 1)
      0
      []
      (new_scheduler (λ workspace path. path) (hourly ∷ []) [] (pos 0) (λ s. none))
      5000
    ≡ some (overran ∷ [], fired ∷ [], 9030)
unfolding run new_scheduler ltb_ℤ leb_ℤ ◌*ℤ◌ ◌+ℤ◌ ◌-ℤ◌ div_euclid tdiv
one_pass = refl

run-new_scheduler_example : ArePlaced (pos 0 ∷ []) (fired ∷ [])
run-new_scheduler_example =
    run-new_scheduler 1 clockwork (some 1) (λ workspace path. path) (hourly ∷ []) [] (pos 0)
      (λ s. none) 5000 (overran ∷ []) (fired ∷ []) 9030 hourly-IsPositive one_pass

run-ends_example :
    (result : Summary × List Entry × ℕ) × (run 3 clockwork (some 3) 0 [] (waiting ∷ []) 5000
      ≡ some result)
run-ends_example = run-ends 3 clockwork 3 0 [] (waiting ∷ []) 5000 (omega arith) (omega arith)

due_from-wake_at_example :
    ((due_from clockwork (pos 3599) 0 (waiting ∷ fired ∷ []) 0).0 ≡ [])
    ↔ Before (pos 3599) (wake_at (waiting ∷ fired ∷ []))
due_from-wake_at_example =
    due_from-wake_at clockwork (pos 3599) 0 (waiting ∷ fired ∷ []) 0 (refl, (refl, tt))

pass-Sublist_example :
    Sublist
      (map (λ t. t.name) ((pass clockwork (waiting ∷ fired ∷ []) 5000).0))
      (names_of (schedules_of (waiting ∷ fired ∷ [])))
pass-Sublist_example = pass-Sublist clockwork (waiting ∷ fired ∷ []) 5000
