-- ===== src/State/Tests.antt =====
-- Concrete dates, keys and states for crates/state/src.
use local_etl_tool.Prelude.{some, none, [], ◌∷◌, ok, if◌then◌else◌}
use local_etl_tool.Exec.{RunReport, has_failed}
use local_etl_tool.State.Report.{remember, last_mark, last_position}
use local_etl_tool.Prelude.Text.{codes}
use local_etl_tool.Metadata.{PipelineNode, PipelineDoc}
use local_etl_tool.State.Resume.{compile_options}
use local_etl_tool.State.Resume.Fits.{
  IsDistinct, fitting_mark, fitting_position, compile_options-remember,
}
use local_etl_tool.State.Keys.{is_kept, sanitise, check_key, check_key-sanitise}
use local_etl_tool.State.Remember.{get, PipelineState, watermark, checkpoint, advance}
use local_etl_tool.Prelude.{◌≡◌, refl, arith, All}
use local_etl_tool.Prelude.Int.{
  pos, negsuc, rem_euclid, ◌+ℤ◌, ◌-ℤ◌, ◌*ℤ◌, floor_div, div_euclid, trem,
}
use local_etl_tool.State.Time.{
  DateTime, from_unix, to_unix, civil_from_days, days_from_civil, weekday, days_in_month,
  is_leap_year, is_zero, year_of_day, days_before,
}
use local_etl_tool.State.Time.Civil.{days_from_civil-civil_from_days}
use local_etl_tool.State.Time.Valid.{civil_from_days-days_from_civil}
use local_etl_tool.State.Time.Instant.{IsValid, from_unix-to_unix}

abbrev leap_day : DateTime
leap_day = record { year = pos 2024; month = 2; day = 29; hour = 23; minute = 59; second = 58 }

leap_day-from_unix : from_unix (pos 1709251198) ≡ leap_day
unfolding from_unix rem_euclid div_euclid civil_from_days ◌+ℤ◌ ◌-ℤ◌ ◌*ℤ◌ floor_div year_of_day
    days_before
leap_day-from_unix = refl

-- A Thursday.
leap_day-weekday : weekday leap_day ≡ 4
unfolding weekday rem_euclid days_from_civil ◌+ℤ◌ ◌-ℤ◌ ◌*ℤ◌ floor_div days_before
leap_day-weekday = refl

before_epoch : civil_from_days (negsuc 0) ≡ (pos 1969, 12, 31)
unfolding civil_from_days ◌+ℤ◌ ◌-ℤ◌ ◌*ℤ◌ floor_div year_of_day days_before
before_epoch = refl

february-days : days_in_month (pos 2024) 2 ≡ 29
unfolding days_in_month is_leap_year is_zero trem
february-days = refl

leap_day-IsValid : IsValid leap_day
leap_day-IsValid = record {
  month_low = omega arith;
  month_high = omega arith;
  day_low = omega arith;
  day_high = rw february-days (omega arith);
  hour_high = omega arith;
  minute_high = omega arith;
  second_high = omega arith;
}

days_from_civil-civil_from_days_example :
    (let (year, month, day) = civil_from_days (negsuc 800000) in days_from_civil year month day)
    ≡ negsuc 800000
days_from_civil-civil_from_days_example = days_from_civil-civil_from_days (negsuc 800000)

civil_from_days-days_from_civil_example :
    civil_from_days (days_from_civil (pos 2024) 2 29) ≡ (pos 2024, 2, 29)
civil_from_days-days_from_civil_example =
    civil_from_days-days_from_civil (pos 2024) 2 29 (omega arith) (omega arith) (omega arith)
      (rw february-days (omega arith))

from_unix-to_unix_example : from_unix (to_unix leap_day) ≡ leap_day
from_unix-to_unix_example = from_unix-to_unix leap_day leap_day-IsValid

hostile_key : sanitise (codes "../etc") ≡ codes ".._etc"
unfolding sanitise is_kept
hostile_key = refl

check_key-sanitise_example : check_key (sanitise (codes "../etc")) ≡ ok tt
check_key-sanitise_example = check_key-sanitise (codes "../etc")

abbrev loaded_once : PipelineState
loaded_once =
    advance (record { format_version = 1; watermarks = []; checkpoints = []; extra = [] })
      (codes "a") (codes "id") (codes "7") (codes "2024")

abbrev finished_run : RunReport
finished_run = record {
  stages = [];
  elapsed = 0;
  duckdb_bin = [];
  script = [];
  spilled = 0;
  notes = [];
  warnings = [];
  failures = [];
  watermarks =
      record { node_id = codes "orders"; column = codes "id"; value = some (codes "41") }
      ∷ record { node_id = codes "orders"; column = codes "id"; value = some (codes "42") }
      ∷ [];
  checkpoints = [];
}

abbrev watching : PipelineDoc
watching = record {
  format_version = 1;
  name = none;
  nodes =
      record {
        id = codes "orders";
        flow_type = none;
        node_data = record {
          label = codes "Orders";
          subtitle = none;
          component_id = some (codes "src.csv");
          properties = none;
          disabled = none;
          materialize = none;
          alias = none;
          policy = none;
          incremental = some (record { column = codes "id"; start = none; extra = [] });
          extra = [];
        };
        extra = [];
      }
      ∷ [];
  edges = [];
  resource_pool = [];
  parameters = [];
  extra = [];
}

abbrev empty_state : PipelineState
empty_state = record { format_version = 1; watermarks = []; checkpoints = []; extra = [] }

compile_options-remember_example :
    All
      (λ (n : PipelineNode).
        (get
            (compile_options watching
              ((remember (codes "now") finished_run empty_state).1)).options.watermarks
            n.id
          ≡ fitting_mark n (
              if has_failed finished_run
              then watermark empty_state n.id
              else last_mark
                  (codes "now")
                  n.id
                  finished_run.watermarks
                  (watermark empty_state n.id)))
        × (get
              (compile_options watching
                ((remember (codes "now") finished_run empty_state).1)).options.checkpoints
              n.id
            ≡ fitting_position n (
                if has_failed finished_run
                then checkpoint empty_state n.id
                else last_position
                    (codes "now")
                    n.id
                    finished_run.checkpoints
                    (checkpoint empty_state n.id))))
      watching.nodes
unfolding IsDistinct
compile_options-remember_example =
    compile_options-remember watching (codes "now") finished_run empty_state (tt, tt)

-- The second mark of the run is the one that is taken up.
taken_up :
    get
      (compile_options watching
        ((remember (codes "now") finished_run empty_state).1)).options.watermarks
      (codes "orders")
    ≡ some (codes "42")
unfolding compile_options remember get has_failed
taken_up = refl
