-- ===== src/Exec/OneScript/Tests.antt =====
-- The one-script path of crates/duckdb-engine/src/exec.rs on two stages, the first with a probe for each side.
use local_etl_tool.Prelude.{
  ◌+◌, ◌≤◌, ◌<◌, ◌≡◌, refl, true, none, some, List, [], ◌∷◌, ◌++◌, ok, err, length,
}
use local_etl_tool.Prelude.Text.{Text, codes, text_eq}
use local_etl_tool.Metadata.{
  JsonValue, null, string, number, array, object, no_items, item, no_fields, field,
}
use local_etl_tool.Plan.{transform}
use local_etl_tool.Plan.Policy.{view, default_policy}
use local_etl_tool.Plan.Query.{Stage, Plan, CountProbe, is_rejected, rejected_port}
use local_etl_tool.Exec.{bad_output, stage_failed, run_failed}
use local_etl_tool.Exec.OneScript.{
  value, cut_off, malformed, parse_counts, parse_watermarks, attribute_failure, outcomes,
}
use local_etl_tool.Exec.OneScript.Blame.{probes_of, attribute_failure_lem}
use local_etl_tool.Exec.OneScript.Same.{
  IsDistinct, OneEach, Fits, all_counts, driven_outcomes, outcomes-driven_outcomes,
}

abbrev row : Text → JsonValue → JsonValue
row name cell = array (item (object (field name cell no_fields)) no_items)

-- A result without a count is passed over, and a cut tail keeps what was read.
counts_read :
    parse_counts (
      value (row (codes "n") (number (codes "12")))
      ∷ value (row (codes "a") (number (codes "1")))
      ∷ value (row (codes "n") (number (codes "7")))
      ∷ cut_off
      ∷ [])
    ≡ ok (12 ∷ 7 ∷ [])
unfolding parse_counts
counts_read = refl

bad_tail :
    parse_counts (value null ∷ malformed (codes "oops") ∷ []) ≡ err (bad_output (codes "oops"))
unfolding parse_counts
bad_tail = refl

-- On this path the cell of a mark is read out of the first row.
marks_read :
    parse_watermarks
      (λ cell. codes "printed")
      (value (row (codes "w") (string (codes "2026-01-01")))
        ∷ value (row (codes "n") (number (codes "7")))
        ∷ value (row (codes "w") null)
        ∷ value (row (codes "w") (number (codes "5")))
        ∷ [])
    ≡ some (codes "2026-01-01") ∷ none ∷ some (codes "printed") ∷ []
unfolding parse_watermarks
marks_read = refl

abbrev stage_of : Text → List CountProbe → Stage
stage_of id counts = record {
  node_id = id;
  component_id = codes "xf.sql";
  label = id;
  kind = transform;
  splits = true;
  sql = [];
  counts = counts;
  inputs = [];
  from = none;
  alias = none;
  sink_path = none;
  sink_mode = none;
  materialize = view;
  spill_path = none;
  requires_extensions = [];
  policy = default_policy;
  control = none;
  incremental = none;
  external = none;
  native = none;
}

abbrev accepted : CountProbe
accepted = record { sql = []; port = none }

abbrev rejected : CountProbe
rejected = record { sql = []; port = some rejected_port }

abbrev checked_stage : Stage
checked_stage = stage_of (codes "check") (accepted ∷ rejected ∷ [])

abbrev out_stage : Stage
out_stage = stage_of (codes "out") (accepted ∷ [])

abbrev plan : Plan
plan = record { format_version = 1; stages = checked_stage ∷ out_stage ∷ []; warnings = [] }

-- Two counts arrived, so the third probe failed, which is the second stage's.
attribute_failure_lem_example :
    ((before : List Stage) (s : Stage) (after : List Stage)
      → plan.stages ≡ before ++ s ∷ after
      → probes_of before ≤ 2
      → 2 < probes_of before + length s.counts
      → attribute_failure plan true (9 ∷ 1 ∷ []) (codes "no")
        ≡ stage_failed s.node_id s.label (codes "no"))
    × (probes_of plan.stages ≤ 2
        → attribute_failure plan true (9 ∷ 1 ∷ []) (codes "no") ≡ run_failed (codes "no"))
attribute_failure_lem_example = attribute_failure_lem plan (9 ∷ 1 ∷ []) (codes "no")

outcomes-driven_outcomes_example :
    outcomes plan true (9 ∷ 1 ∷ 8 ∷ []) ≡ driven_outcomes plan.stages ((9 ∷ 1 ∷ []) ∷ (8 ∷ []) ∷ [])
unfolding all_counts IsDistinct text_eq OneEach is_rejected Fits
outcomes-driven_outcomes_example =
    outcomes-driven_outcomes plan ((9 ∷ 1 ∷ []) ∷ (8 ∷ []) ∷ []) distinct one fits
  where
    distinct : IsDistinct plan.stages
    distinct = ((refl, tt), (tt, tt))

    one : (OneEach checked_stage.counts × (OneEach out_stage.counts × Unit {0}))
    one = (((refl, tt), (tt, tt)), ((tt, tt), tt))

    fits : Fits plan.stages ((9 ∷ 1 ∷ []) ∷ (8 ∷ []) ∷ [])
    fits = (refl, (refl, tt))
