-- ===== src/Scheduler/File.antt =====
-- crates/scheduler/src/lib.rs: triggers, schedules, and the checks of a schedule file.
use local_etl_tool.Prelude.{
  ℕ, zero, suc, ◌+◌, Bool, true, false, not, ◌&&◌, ◌||◌, Option, none, some, List, [], ◌∷◌, ◌++◌,
  Result, ok, err, ◌>>=◌, if◌then◌else◌, any,
}
use local_etl_tool.Prelude.Text.{Text, codes, text_eq, trim}
use local_etl_tool.Prelude.Count.{filter}
use local_etl_tool.Metadata.{Extra}
use local_etl_tool.Scheduler.Every
use local_etl_tool.Scheduler.Every.{Interval, IntervalError}
use local_etl_tool.Scheduler.Cron.{Cron, CronError}
use local_etl_tool.Scheduler.Cron.Parse
use local_etl_tool.Scheduler.Watch.{Watch, new}
pub mod Checks

pub data TriggerError : Type 0 where
  missing : TriggerError
  several : Text → TriggerError
  timezone_refused : Text → TriggerError
  poll_without_watch : TriggerError
  bad_interval : IntervalError → TriggerError
  bad_cron : CronError → TriggerError

pub data Trigger : Type 0 where
  every : Interval → Trigger
  cron : Cron → Trigger
  watch : Watch → Trigger

-- The wire form; a field that is not there is `none`.
pub record RawTrigger : Type 0 where
  pub every_text : Option Text
  pub cron_text : Option Text
  pub watch_path : Option Text
  pub poll_seconds : Option ℕ
  pub tz : Option Text
  pub extra : Extra

abbrev pub is_some {ℓ} : {A : Type ℓ} → Option A → Bool
is_some none = false
is_some (some a) = true

-- The names of the triggers that are given.
unfoldable pub named : RawTrigger → List Text
named raw =
    (if is_some raw.every_text then codes "every" ∷ [] else [])
    ++ (if is_some raw.cron_text then codes "cron" ∷ [] else [])
    ++ (if is_some raw.watch_path then codes "watch" ∷ [] else [])

-- `join(", ")`.
unfoldable pub join : List Text → Text
join [] = []
join (s ∷ []) = s
join (s ∷ t ∷ ss) = s ++ codes ", " ++ join (t ∷ ss)

of_interval : Result IntervalError Interval → Result TriggerError Trigger
of_interval (ok i) = ok (every i)
of_interval (err e) = err (bad_interval e)

of_cron : Result CronError Cron → Result TriggerError Trigger
of_cron (ok c) = ok (cron c)
of_cron (err e) = err (bad_cron e)

-- One trigger is named. The last clause is the `expect` of the source.
only : Option Text → Option Text → Option Text → Option ℕ → Result TriggerError Trigger
unfolding of_interval of_cron Every.parse Parse.parse new
only (some text) c w seconds = of_interval (Every.parse text)
only none (some text) w seconds = of_cron (Parse.parse text)
only none none (some path) seconds = ok (watch (new path seconds))
only none none none seconds = err missing

one_named : List Text → Result TriggerError (Unit {0})
unfolding join
one_named [] = err missing
one_named (n ∷ []) = ok tt
one_named (n ∷ m ∷ ns) = err (several (join (n ∷ m ∷ ns)))

unfoldable pub try_from : RawTrigger → Result TriggerError Trigger
unfolding named one_named only
try_from raw = elim raw.tz [
  | some zone ↦ err (timezone_refused zone)
  | none ↦ one_named (named raw) >>= λ _.
      if is_some raw.poll_seconds && not (is_some raw.watch_path)
      then err poll_without_watch
      else only raw.every_text raw.cron_text raw.watch_path raw.poll_seconds
]

pub record Schedule : Type 0 where
  pub name : Text
  pub pipeline : Text
  pub trigger : Trigger
  pub is_enabled : Bool
  pub context : Option Text
  pub params : List (Text × Text)
  pub extra : Extra

pub record ScheduleFile : Type 0 where
  pub format_version : ℕ
  pub schedules : List Schedule
  pub extra : Extra

abbrev pub current_format_version : ℕ
current_format_version = 1

-- The errors of `check`; those of `load` wrap what the file system and the decoder say.
pub data ScheduleError : Type 0 where
  unnamed : ℕ → ScheduleError
  duplicate_name : Text → ScheduleError
  no_pipeline : Text → ScheduleError

unfoldable pub is_empty : Text → Bool
is_empty [] = true
is_empty (c ∷ s) = false

-- The loop of `check`; `seen` holds the names so far.
unfoldable pub check_from : ℕ → List Text → List Schedule → Result ScheduleError (Unit {0})
unfolding trim is_empty text_eq
check_from position seen [] = ok tt
check_from position seen (s ∷ ss) =
    let rest = check_from (position + 1) (s.name ∷ seen) ss in
    if is_empty (trim s.name)
    then err (unnamed position)
    else if any (text_eq s.name) seen
    then err (duplicate_name s.name)
    else if is_empty s.pipeline
    then err (no_pipeline s.name)
    else rest

unfoldable pub check : ScheduleFile → Result ScheduleError (Unit {0})
unfolding check_from
check file = check_from 0 [] file.schedules

unfoldable pub enabled : ScheduleFile → List Schedule
unfolding filter
enabled file = filter (λ s. s.is_enabled) file.schedules
