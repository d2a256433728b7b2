-- ===== src/Scheduler/Run.antt =====
-- crates/scheduler/src/run.rs: what is due, what ran, what was missed. The clock, the runner, the file system and
-- the request to stop are the caller's: operations on a world of its own, which every call takes and gives back.
pub mod Loop
pub mod Ends
pub mod Wake
pub mod Placed
pub mod Fires
mod Tests
use local_etl_tool.Prelude.{
  ℕ, zero, suc, ◌+◌, ◌%◌, ◌^◌, Bool, true, false, not, Option, none, some, List, [], ◌∷◌, ◌++◌,
  if◌then◌else◌, length, map, get_elem?, set,
}
use local_etl_tool.Prelude.Int.{ℤ, pos, ◌+ℤ◌, ◌-ℤ◌, ◌*ℤ◌, pos_part, ltb_ℤ, leb_ℤ}
use local_etl_tool.Prelude.Text.{Text, codes}
use local_etl_tool.Prelude.Count.{filter}
use local_etl_tool.Scheduler.Every
use local_etl_tool.Scheduler.Every.{Interval, missed_between}
use local_etl_tool.Scheduler.Cron.{Cron}
use local_etl_tool.Scheduler.Cron.Search
use local_etl_tool.Scheduler.Watch.{
  Watch, WatchState, unwatched, Place, stamp_of, Poll, settled, quiet, changing, baseline, poll,
}
use local_etl_tool.Scheduler.File.{Schedule, Trigger, every, cron, watch}

-- How a run turned out.
pub data Outcome : Type 0 where
  succeeded failed broken : Outcome

unfoldable pub name : Outcome → Text
name succeeded = codes "ok"
name failed = codes "failed"
name broken = codes "broken"

unfoldable pub is_ok : Outcome → Bool
is_ok succeeded = true
is_ok failed = false
is_ok broken = false

-- One schedule firing.
pub record Tick : Type 0 where
  pub name : Text
  pub due : ℤ
  pub started : ℤ
  pub outcome : Outcome
  pub took : ℤ
  pub missed : ℕ

-- What the loop reports: its ticks.
abbrev pub Summary : Type 0
Summary = List Tick

unfoldable pub ran : Summary → ℕ
ran summary = length summary

unfoldable pub failed_ticks : Summary → ℕ
unfolding filter is_ok
failed_ticks summary = length (filter (λ tick. not (is_ok tick.outcome)) summary)

-- The sum of u64s, which wraps around.
unfoldable pub missed_ticks : Summary → ℕ
missed_ticks [] = 0
missed_ticks (tick ∷ ticks) = (tick.missed + missed_ticks ticks) % 2 ^ 64

-- A schedule, plus where it has got to.
pub record Entry : Type 0 where
  pub schedule : Schedule
  pub next : Option ℤ
  pub last_run : Option ℤ
  pub missed : ℕ
  pub behind : ℕ
  pub watch : Option (Text × WatchState)
  pub next_poll : ℤ

-- What the loop asks of what is around it, in a world `W`: the clock, the runner, the file system, and whether
-- to stop.
pub record Outside (W : Type 0) : Type 0 where
  pub now : W → ℤ × W
  pub sleep : ℕ → W → W
  pub run_pipeline : Schedule → W → Outcome × W
  pub look : Text → W → Place × W
  pub should_stop : W → Bool × W

-- `unwrap_or`.
abbrev pub unwrap_or {ℓ} : {A : Type ℓ} → Option A → A → A
unwrap_or none a = a
unwrap_or (some b) a = b

-- `Scheduler::new`, for one schedule; `resolve` is `Watch::resolve`, whose path operations are the standard
-- library's.
unfoldable pub entry_of : (Text → Text → Text) → Text → ℤ → Option ℤ → Schedule → Entry
unfolding missed_between Search.next_after
entry_of resolve workspace now previous schedule = elim schedule.trigger [
  | every interval ↦ record {
    schedule = schedule;
    next = some (unwrap_or previous now +ℤ pos interval.seconds);
    last_run = previous;
    missed = 0;
    behind = elim previous [
      | none ↦ 0
      | some at ↦ missed_between interval (at +ℤ pos interval.seconds) now
    ];
    watch = none;
    next_poll = pos 0;
  }
  | cron c ↦ record {
    schedule = schedule;
    next = Search.next_after c now;
    last_run = previous;
    missed = 0;
    behind = 0;
    watch = none;
    next_poll = pos 0;
  }
  | watch w ↦ record {
    schedule = schedule;
    next = none;
    last_run = previous;
    missed = 0;
    behind = 0;
    watch = some (resolve workspace w.path, unwatched);
    next_poll = now;
  }
]

unfoldable pub new_scheduler :
    (Text → Text → Text) → List Schedule → Text → ℤ → (Schedule → Option ℤ) → List Entry
unfolding entry_of
new_scheduler resolve schedules workspace now last_run =
    map (λ schedule. entry_of resolve workspace now (last_run schedule) schedule) schedules

-- When an entry needs attention.
unfoldable pub attention : Entry → Option ℤ
attention entry = elim entry.watch [ some _ ↦ some entry.next_poll | none ↦ entry.next ]

-- The lesser of two instants, either of which may be missing.
unfoldable pub earlier : Option ℤ → Option ℤ → Option ℤ
earlier none b = b
earlier (some a) none = some a
earlier (some a) (some b) = some (if leb_ℤ a b then a else b)

unfoldable pub wake_at : List Entry → Option ℤ
unfolding attention earlier
wake_at [] = none
wake_at (entry ∷ entries) = earlier (attention entry) (wake_at entries)

-- The seconds between polls of an entry that has a watch.
unfoldable pub poll_seconds_of : Trigger → ℕ
poll_seconds_of (every i) = 10
poll_seconds_of (cron c) = 10
poll_seconds_of (watch w) = w.poll_seconds

unfoldable pub is_settled : Poll → Bool
is_settled quiet = false
is_settled changing = false
is_settled settled = true
is_settled baseline = false

unfoldable pub is_due : Option ℤ → ℤ → Bool
is_due none now = false
is_due (some next) now = leb_ℤ next now

-- The body of the loop of `due_now`: whether an entry is due, and what is left of it.
unfoldable pub look_at : {W : Type 0} → Outside W → ℤ → Entry → W → Bool × Entry × W
unfolding is_due poll_seconds_of is_settled poll stamp_of
look_at outside now entry w = elim entry.watch [
  | none ↦ (is_due entry.next now, entry, w)
  | some (path, state) ↦
      if ltb_ℤ now entry.next_poll
      then (false, entry, w)
      else let (place, w1) = outside.look path w in
        let (answer, after) = poll state (stamp_of place) in
        (
          is_settled answer,
          record entry {
            next_poll = now +ℤ pos (poll_seconds_of entry.schedule.trigger);
            watch = some (path, after);
          },
          w1,
        )
]

-- `due_now`; `index` is the position of the first entry.
unfoldable pub due_from :
    {W : Type 0} → Outside W → ℤ → ℕ → List Entry → W → List ℕ × List Entry × W
unfolding look_at
due_from outside now index [] w = ([], [], w)
due_from outside now index (entry ∷ entries) w =
    let (due, after, w1) = look_at outside now entry w in
    let (indexes, rest, w2) = due_from outside now (suc index) entries w1 in
    ((if due then index ∷ indexes else indexes), after ∷ rest, w2)

abbrev pub due_now : {W : Type 0} → Outside W → ℤ → List Entry → W → List ℕ × List Entry × W
due_now outside now entries w = due_from outside now 0 entries w

-- When a trigger is next due after a run.
unfoldable pub advance : Trigger → ℤ → ℤ → Option ℤ
unfolding Every.next_after Search.next_after
advance (every interval) due finished = some (Every.next_after interval due finished)
advance (cron c) due finished = Search.next_after c finished
advance (watch w) due finished = none

-- The ticks that a run ran through.
unfoldable pub missed_by : Trigger → ℤ → ℤ → ℕ
unfolding missed_between
missed_by (every interval) started finished = missed_between interval started finished
missed_by (cron c) started finished = 0
missed_by (watch w) started finished = 0

-- The greater of an integer and zero.
abbrev pub at_least_zero : ℤ → ℤ
at_least_zero a = pos (pos_part a)

-- The body of the loop of `pass`, for one entry.
unfoldable pub fire : {W : Type 0} → Outside W → Entry → W → Tick × Entry × W
unfolding advance missed_by
fire outside entry w =
    let (started, w1) = outside.now w in
    let was_due = unwrap_or entry.next started in
    let (outcome, w2) = outside.run_pipeline entry.schedule w1 in
    let (finished, w3) = outside.now w2 in
    let missed = missed_by entry.schedule.trigger started finished in
    (
      record {
        name = entry.schedule.name;
        due = was_due;
        started = started;
        outcome = outcome;
        took = at_least_zero (finished -ℤ started);
        missed = missed;
      },
      record entry {
        missed = (entry.missed + missed) % 2 ^ 64;
        last_run = some started;
        next = advance entry.schedule.trigger was_due finished;
      },
      w3,
    )

-- The entries that are due, one at a time. An index beyond the entries, where the source would panic, is left
-- out; `due_now` gives none.
unfoldable pub fire_all :
    {W : Type 0} → Outside W → List ℕ → List Entry → W → List Tick × List Entry × W
unfolding fire
fire_all outside [] entries w = ([], entries, w)
fire_all outside (index ∷ due) entries w = elim (get_elem? entries index) [
  | none ↦ fire_all outside due entries w
  | some entry ↦
      let (tick, after, w1) = fire outside entry w in
      let (ticks, rest, w2) = fire_all outside due (set entries index after) w1 in
      (tick ∷ ticks, rest, w2)
]

unfoldable pub pass : {W : Type 0} → Outside W → List Entry → W → List Tick × List Entry × W
unfolding due_from fire_all
pass outside entries w =
    let (now, w1) = outside.now w in
    let (due, looked, w2) = due_now outside now entries w1 in fire_all outside due looked w2
