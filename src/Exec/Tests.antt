-- ===== src/Exec/Tests.antt =====
-- Runs of crates/duckdb-engine/src/exec.rs on a small plan: `orders` is read, `broken` fails and is carried on past,
-- `report` reads `broken`.
use local_etl_tool.Prelude.{
  ℕ, suc, ◌+◌, ◌≤◌, ◌≡◌, refl, inl, inr, true, false, not, Option, none, some, List, [], ◌∷◌,
  Result, ok, err, if◌then◌else◌, All, Bool-cases, map, length, min, max,
}
use local_etl_tool.Prelude.Text.{Text, codes, text_eq}
use local_etl_tool.Metadata.{
  JsonValue, number, array, object, Items, no_items, item, no_fields, field,
}
use local_etl_tool.Session.{Answer}
use local_etl_tool.Plan.{transform}
use local_etl_tool.Plan.Policy.{view, default_policy}
use local_etl_tool.Plan.Query.{Stage, Plan, is_nothing}
use local_etl_tool.Exec.{
  ExecError, no_such_node, RunOptions, RunReport, SkipReason, upstream_failed, failed, has_failed,
}
use local_etl_tool.Exec.Around.{Outside, given-ok}
use local_etl_tool.Exec.Stages.{run_stage}
use local_etl_tool.Exec.Stages.Retries.{Ending, Tries, run_stage-Tries}
use local_etl_tool.Exec.Stages.Probes.{PrintsArrays}
use local_etl_tool.Exec.Driven.{run_driven}
use local_etl_tool.Exec.Driven.Outcomes.{AllExplained, failed_ids}
use local_etl_tool.Exec.Driven.Endings.{run_driven-AllExplained}
use local_etl_tool.Exec.Driven.Skips.{run_driven-has_failed}
use local_etl_tool.Exec.Driven.Marks.{IsUnread, run_driven-watermark}
use local_etl_tool.Exec.Preview.{Preview, preview}
use local_etl_tool.Exec.Preview.Bounds.{preview_lem}
use local_etl_tool.State.Remember.{PipelineState, watermark}
use local_etl_tool.State.Report.{remember, nothing_remembered}

abbrev row : JsonValue
row = object (field (codes "n") (number (codes "3")) no_fields)

abbrev three_rows : JsonValue
three_rows = array (item row no_items)

-- A result of three rows.
abbrev table : JsonValue
table = array (item row (item row (item row no_items)))

-- A statement of the text `bad` fails; any other prints one row.
abbrev answer_to : Text → Answer
answer_to sql =
    if text_eq sql (codes "bad")
    then record { values = []; stderr = codes "no such table" }
    else record { values = three_rows ∷ []; stderr = [] }

-- A world that counts the looks at the clock and the waits.
abbrev outside : Outside ℕ
outside = record {
  prepare = λ plan w. (ok tt, w);
  stage_sources = λ stages w. (ok (record { notes = []; checkpoints = [] }), w);
  open_session = λ needed w. (ok tt, w);
  execute = λ sql w. (ok (answer_to sql), w);
  close = λ w. w;
  now = λ w. (w, suc w);
  sleep = λ ms w. w + ms;
  run_transform = λ stage w. (ok (ok []), w);
  deliver_sinks = λ stages untaken w. (ok [], w);
  withheld = λ stages. codes "withheld" ∷ [];
  acknowledge = λ w. (record { notes = []; warnings = [] }, w);
  release = λ w. (record { notes = []; warnings = [] }, w);
  clear_spills = λ spills w. (0, w);
  run_script = λ script w. (ok (ok (number (codes "1") ∷ table ∷ [])), w);
  print = λ value. [];
}

abbrev options : RunOptions
options = record {
  duckdb_bin = none;
  working_dir = none;
  counts = true;
  extension_dir = none;
  redact = [];
}

abbrev plain : Text → Text → Stage
plain id sql = record {
  node_id = id;
  component_id = codes "xf.sql";
  label = id;
  kind = transform;
  splits = false;
  sql = sql;
  counts = record { sql = sql; port = none } ∷ [];
  inputs = [];
  from = none;
  alias = none;
  sink_path = none;
  sink_mode = none;
  materialize = view;
  spill_path = none;
  requires_extensions = [];
  policy = default_policy;
  control = none;
  incremental = none;
  external = none;
  native = none;
}

abbrev orders : Stage
orders = record (plain (codes "orders") (codes "good")) {
  incremental = some (record { column = codes "ts"; since = none; probe = codes "probe" });
}

abbrev broken_stage : Stage
broken_stage = record (plain (codes "broken") (codes "bad")) {
  policy = record default_policy {
    retry_attempts = 2;
    retry_backoff_ms = 10;
    continue_on_failure = true;
  };
}

abbrev report_stage : Stage
report_stage = record (plain (codes "report") (codes "good")) {
  inputs =
      record { node_id = codes "orders"; source_handle = none; target_handle = none }
      ∷ record { node_id = codes "broken"; source_handle = none; target_handle = none }
      ∷ [];
}

abbrev plan : Plan
plan = record {
  format_version = 1;
  stages = orders ∷ broken_stage ∷ report_stage ∷ [];
  warnings = [];
}

abbrev no_report : RunReport
no_report = record {
  stages = [];
  elapsed = 0;
  duckdb_bin = [];
  script = [];
  spilled = 0;
  notes = [];
  watermarks = [];
  checkpoints = [];
  warnings = [];
  failures = [];
}

abbrev report_in : Result ExecError RunReport → RunReport
report_in (ok report) = report
report_in (err e) = no_report

ran_out : RunReport
unfolding run_driven
ran_out = report_in (run_driven outside options plan (codes "duckdb") 0).0

ran_to : ℕ
unfolding run_driven
ran_to = (run_driven outside options plan (codes "duckdb") 0).1

ran_lem : run_driven outside options plan (codes "duckdb") 0 ≡ (ok ran_out, ran_to)
unfolding run_driven ran_out ran_to
ran_lem = refl

outside-PrintsArrays : PrintsArrays outside
outside-PrintsArrays = record { arrays = λ sql w w' answer e. printed sql answer (given-ok w w' e) }
  where
    printed :
        (sql : Text) (answer : Answer)
        → answer ≡ answer_to sql
        → All (λ value. (rows : Items) × (value ≡ array rows)) answer.values
    printed sql answer e = elim (Bool-cases (text_eq sql (codes "bad"))) [
      | inl t ↦ rw (e, t) tt
      | inr t ↦ rw (e, t) ((_, refl), tt)
    ]

-- The stage that reads the broken one names it.
reasons : List (Option SkipReason)
unfolding ran_out
reasons = map (λ o. o.skipped) ran_out.stages

reasons_lem : reasons ≡ none ∷ some failed ∷ some (upstream_failed (codes "broken")) ∷ []
unfolding reasons run_driven
reasons_lem = refl

run_driven-AllExplained_example : AllExplained [] plan.stages ran_out.stages
run_driven-AllExplained_example =
    run_driven-AllExplained outside options plan (codes "duckdb") ran_out 0 ran_to ran_lem

run_driven-has_failed_example :
    (has_failed ran_out ≡ not (is_nothing (failed_ids ran_out.stages)))
    × (has_failed ran_out ≡ true
        → (ran_out.checkpoints ≡ [])
          × ((now : Text) (s : PipelineState) → remember now ran_out s ≡ (nothing_remembered, s)))
run_driven-has_failed_example =
    run_driven-has_failed outside options plan (codes "duckdb") ran_out 0 ran_to ran_lem

run_driven-watermark_example :
    All IsUnread ran_out.watermarks
    × ((now node : Text) (s : PipelineState)
        → watermark ((remember now ran_out s).1) node ≡ watermark s node)
run_driven-watermark_example =
    run_driven-watermark outside options outside-PrintsArrays plan (codes "duckdb") ran_out 0 ran_to
      ran_lem

run_stage-Tries_example :
    ((n : ℕ) × Tries outside options broken_stage 0 0 n (run_stage outside options broken_stage 0)
      × (n ≤ 3))
    × ((n : ℕ) (ending : Ending ℕ)
        → Tries outside options broken_stage 0 0 n ending
        → ending ≡ run_stage outside options broken_stage 0)
run_stage-Tries_example = run_stage-Tries outside options broken_stage 0

-- Two retries wait 10 and 20 milliseconds.
retried : run_stage outside options broken_stage 0 ≡ (ok (err (codes "no such table")), 30)
unfolding run_stage
retried = refl

-- Two of three rows.
two_rows : Preview
two_rows = record {
  node_id = codes "report";
  columns = codes "n" ∷ [];
  rows = row ∷ row ∷ [];
  truncated = true;
}

previewed : preview outside options plan (codes "report") 2 none 0 ≡ (ok two_rows, 0)
unfolding preview two_rows
previewed = refl

preview_lem_example :
    (length two_rows.rows ≤ max 2 1)
    × (length two_rows.rows ≤ 500)
    × (two_rows.truncated ≡ true → length two_rows.rows ≡ min (max 2 1) 500)
preview_lem_example =
    preview_lem outside options plan (codes "report") 2 none two_rows 0 0 previewed

-- Where no row is asked for, one is shown.
one_row :
    preview outside options plan (codes "report") 0 none 0
    ≡ (ok (record two_rows { rows = row ∷ [] }), 0)
unfolding preview two_rows
one_row = refl

not_there :
    preview outside options plan (codes "nothing") 2 none 0
    ≡ (err (no_such_node (codes "nothing")), 0)
unfolding preview
not_there = refl
