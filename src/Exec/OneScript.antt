-- ===== src/Exec/OneScript.antt =====
-- `run_one_script` of crates/duckdb-engine/src/exec.rs: a whole plan as one invocation, what is read out of its output,
-- and the stage that a failure is put down to. What the JSON reader makes of the output is a list of what it gives.
pub mod Same
pub mod Blame
mod Tests
use local_etl_tool.Prelude.{
  ℕ, ◌-◌, ◌&&◌, Bool, true, false, Option, none, some, List, [], ◌∷◌, ◌++◌, if◌then◌else◌, map,
  length, get_elem?, Result, ok, err,
}
use local_etl_tool.Prelude.Text.{Text, codes, text_eq, trim}
use local_etl_tool.Metadata.{JsonValue, null, string}
use local_etl_tool.Params.Redact.{mask_all, joined_by_comma}
use local_etl_tool.Sql.{quote_path}
use local_etl_tool.Plan.Query.{
  Stage, Plan, CountProbe, StageIncremental, is_rejected, count_probes, watermark_probes,
  extensions, has_prelude_probe, is_nothing,
}
use local_etl_tool.Plan.Query.Script.{script}
use local_etl_tool.Exec.{
  ExecError, stage_failed, run_failed, extension_load_failed, bad_output, RunOptions, StageOutcome,
  LoadedMark, same_side,
}
use local_etl_tool.Exec.Answers.{first_row, get, count_in}

-- What the reader of concatenated JSON values gives next.
pub data Printed : Type 0 where
  value : JsonValue → Printed
  cut_off : Printed
  malformed : Text → Printed

-- Puts a count in front of those that follow.
abbrev pub with_count : Option ℕ → Result ExecError (List ℕ) → Result ExecError (List ℕ)
with_count none rest = rest
with_count (some n) (ok counts) = ok (n ∷ counts)
with_count (some n) (err e) = err e

unfoldable pub parse_counts : List Printed → Result ExecError (List ℕ)
unfolding count_in
parse_counts [] = ok []
parse_counts (value v ∷ rest) = with_count (count_in v) (parse_counts rest)
parse_counts (cut_off ∷ rest) = ok []
parse_counts (malformed why ∷ rest) = err (bad_output why)

-- The cell `w` of the first row of a result.
unfoldable pub mark_cell : JsonValue → Option JsonValue
unfolding first_row get
mark_cell v = elim (first_row v) [ none ↦ none | some row ↦ get (codes "w") row ]

unfoldable pub mark_text : (JsonValue → Text) → JsonValue → Option Text
mark_text print cell = elim cell [
  | null ↦ none
  | string text ↦ some text
  | other ↦ some (print other)
]

unfoldable pub parse_watermarks : (JsonValue → Text) → List Printed → List (Option Text)
unfolding mark_cell mark_text
parse_watermarks print [] = []
parse_watermarks print (value v ∷ rest) =
    let more = parse_watermarks print rest in
    elim (mark_cell v) [ none ↦ more | some cell ↦ mark_text print cell ∷ more ]
parse_watermarks print (cut_off ∷ rest) = []
parse_watermarks print (malformed why ∷ rest) = []

abbrev pub zip {ℓ κ} : {A : Type ℓ} {B : Type κ} → List A → List B → List (A × B)
zip [] bs = []
zip (a ∷ rest) [] = []
zip (a ∷ rest) (b ∷ bs) = (a, b) ∷ zip rest bs

unfoldable pub read_watermarks : Plan → List (Option Text) → List LoadedMark
unfolding watermark_probes
read_watermarks plan values =
    map (λ pair. mark_of pair.0.0 pair.0.1 pair.1) (zip (watermark_probes plan) values)
  where
    mark_of : Stage → StageIncremental → Option Text → LoadedMark
    mark_of stage state read = record {
      node_id = stage.node_id;
      column = state.column;
      value = read;
    }

unfoldable pub attribute_failure : Plan → Bool → List ℕ → Text → ExecError
unfolding count_probes
attribute_failure plan counts_enabled counts message =
    if counts_enabled
    then elim (get_elem? (map (λ pair. pair.0) (count_probes plan)) (length counts)) [
      | some stage ↦ stage_failed stage.node_id stage.label message
      | none ↦ run_failed message
    ]
    else run_failed message

-- The counts by node and side; the last that is inserted is the one that counts.
abbrev pub ByOutput : Type 0
ByOutput = Text → Bool → Option ℕ

unfoldable pub insert : Text → Bool → ℕ → ByOutput → ByOutput
unfolding text_eq
insert id side n m other other_side =
    if text_eq id other && same_side side other_side then some n else m other other_side

unfoldable pub insert_all : List ((Stage × CountProbe) × ℕ) → ByOutput → ByOutput
unfolding insert is_rejected
insert_all [] m = m
insert_all (((stage, probe), n) ∷ rest) m =
    insert_all rest (insert stage.node_id (is_rejected probe) n m)

unfoldable pub outcome_by : ByOutput → Stage → StageOutcome
outcome_by m stage = record {
  node_id = stage.node_id;
  label = stage.label;
  component_id = stage.component_id;
  rows = m stage.node_id false;
  rejected = if stage.splits then m stage.node_id true else none;
  skipped = none;
  elapsed = none;
}

unfoldable pub outcomes : Plan → Bool → List ℕ → List StageOutcome
unfolding insert_all outcome_by count_probes
outcomes plan counts_enabled counts =
    let by_output =
      (if counts_enabled
        then insert_all (zip (count_probes plan) counts) (λ id side. none)
        else (λ id side. none)) in
    map (outcome_by by_output) plan.stages

-- `directory` is what `locate_extension_dir` found.
unfoldable pub with_extension_directory : Plan → Bool → (directory : Option Text) → Text
unfolding script extensions quote_path
with_extension_directory plan counts directory =
    let all_stages = script plan counts in
    if is_nothing (extensions plan) then all_stages else elim directory [
      | none ↦ all_stages
      | some path ↦
          codes "SET extension_directory=" ++ quote_path path ++ codes ";\n\n" ++ all_stages
    ]

-- The counts that belong to stages: the first one is the prelude's, where there is a prelude probe.
unfoldable pub stage_counts :
    Plan → RunOptions → (stderr : Text) → List ℕ → Result ExecError (List ℕ)
unfolding has_prelude_probe extensions joined_by_comma mask_all trim
stage_counts plan options stderr counts =
    if has_prelude_probe plan options.counts
    then elim counts [
      | [] ↦ err (
          extension_load_failed (joined_by_comma (extensions plan))
            (mask_all options.redact (trim stderr)))
      | n ∷ rest ↦ ok rest
    ]
    else ok counts
