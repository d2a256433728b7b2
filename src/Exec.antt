-- ===== src/Exec.antt =====
-- crates/duckdb-engine/src/exec.rs: what a run of a plan is asked for, what it reports, and how it fails. Paths and
-- the sources of I/O errors are texts, durations are numbers of nanoseconds.
pub mod Answers
pub mod Around
pub mod Stages
pub mod Control
pub mod Driven
pub mod OneScript
pub mod Preview
mod Tests
use local_etl_tool.Prelude.{
  ℕ, ◌+◌, Bool, true, false, not, Option, none, some, List, [], ◌∷◌, ◌++◌, if◌then◌else◌,
}
use local_etl_tool.Prelude.Text.{Text, codes}
use local_etl_tool.Metadata.{JsonValue}
use local_etl_tool.Session.{SessionError}
use local_etl_tool.Plan.Query.{filter_map, is_nothing}

pub data ExecError : Type 0 where
  duckdb_not_found : (looked : List Text) → ExecError
  spawn : (path : Text) (source : Text) → ExecError
  stage_failed : (node_id : Text) (label : Text) (message : Text) → ExecError
  run_failed : (message : Text) → ExecError
  extension_load_failed : (extensions : Text) (message : Text) → ExecError
  output_directory : (path : Text) (source : Text) → ExecError
  output_exists : (label : Text) (path : Text) → ExecError
  bad_output : Text → ExecError
  no_such_node : (node_id : Text) → ExecError
  cannot_preview : (node_id : Text) → ExecError
  session : SessionError → ExecError

pub record RunOptions : Type 0 where
  pub duckdb_bin : Option Text
  pub working_dir : Option Text
  pub counts : Bool
  pub extension_dir : Option Text
  pub redact : List Text

-- Why a stage did not run.
pub data SkipReason : Type 0 where
  failed : SkipReason
  upstream_failed : (node_id : Text) → SkipReason
  not_taken : (node_id : Text) → SkipReason

unfoldable pub describe : SkipReason → Text
describe failed = codes "failed"
describe (upstream_failed node_id) = codes "skipped: " ++ node_id ++ codes " failed"
describe (not_taken node_id) = codes "not taken: " ++ node_id

unfoldable pub is_failure : SkipReason → Bool
is_failure failed = true
is_failure (upstream_failed node_id) = true
is_failure (not_taken node_id) = false

-- What one stage did.
pub record StageOutcome : Type 0 where
  pub node_id : Text
  pub label : Text
  pub component_id : Text
  pub rows : Option ℕ
  pub rejected : Option ℕ
  pub skipped : Option SkipReason
  pub elapsed : Option ℕ

-- `rows_in`; the sum of two u64s is taken to fit.
unfoldable pub rows_in : StageOutcome → Option ℕ
rows_in o = elim o.rejected [
  | none ↦ o.rows
  | some rejected ↦ elim o.rows [ none ↦ some rejected | some rows ↦ some (rows + rejected) ]
]

-- A stage that failed while the run was told to carry on past it.
pub record StageFailure : Type 0 where
  pub node_id : Text
  pub label : Text
  pub message : Text

-- The high-water mark that a run read; none where it loaded nothing.
pub record LoadedMark : Type 0 where
  pub node_id : Text
  pub column : Text
  pub value : Option Text

-- Where one native source got to.
pub record SavedPosition : Type 0 where
  pub node_id : Text
  pub component_id : Text
  pub value : JsonValue

-- What a whole run did.
pub record RunReport : Type 0 where
  pub stages : List StageOutcome
  pub elapsed : ℕ
  pub duckdb_bin : Text
  pub script : Text
  pub spilled : ℕ
  pub notes : List Text
  pub watermarks : List LoadedMark
  pub checkpoints : List SavedPosition
  pub warnings : List Text
  pub failures : List StageFailure

unfoldable pub has_failed : RunReport → Bool
has_failed report = not (is_nothing report.failures)

-- `next_back`.
unfoldable pub last_of {ℓ} : {A : Type ℓ} → List A → Option A
last_of [] = none
last_of (a ∷ []) = some a
last_of (a ∷ b ∷ rest) = last_of (b ∷ rest)

unfoldable pub total_rows_written : RunReport → Option ℕ
unfolding last_of
total_rows_written report = last_of (filter_map (λ o. o.rows) report.stages)

-- `==` of two sides of a stage: the accepted and the rejected rows.
abbrev pub same_side : Bool → Bool → Bool
same_side true side = side
same_side false true = false
same_side false false = true
