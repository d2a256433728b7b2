-- ===== src/Exec/Driven.antt =====
-- `run_driven` of crates/duckdb-engine/src/exec.rs: the stages of a plan sent one at a time, and what the run reports.
-- The sets of ids are lists, to whose end an id is added.
pub mod Steps
pub mod Upstream
pub mod Outcomes
pub mod Skips
pub mod Marks
pub mod Endings
use local_etl_tool.Prelude.{
  ℕ, ◌-◌, Bool, true, false, Option, none, some, List, [], ◌∷◌, ◌++◌, if◌then◌else◌, map, Result,
  ok, err, get_elem?,
}
use local_etl_tool.Prelude.Text.{Text, codes}
use local_etl_tool.Params.Redact.{mask_all, joined_by_comma}
use local_etl_tool.Session.{SessionError, bad_output}
use local_etl_tool.Plan.Query.{
  Stage, Input, Plan, CountProbe, is_rejected, work_happens_here, is_native_transform, extensions,
  spills, contains_text, is_nothing,
}
use local_etl_tool.Exec.{
  ExecError, stage_failed, extension_load_failed, session, RunOptions, SkipReason, failed,
  upstream_failed, not_taken, StageOutcome, StageFailure, LoadedMark, RunReport, same_side,
}
use local_etl_tool.Exec.Around.{
  Staged, Settled, Outside, Effect, pure, throw, always, change, in_session, ◌>>=◌, ◌>>◌,
}
use local_etl_tool.Exec.Stages.{Readings, run_stage}
use local_etl_tool.Exec.Control.{Action, carry_on, note, do_not_take, act}

-- The upstream that a stage cannot run without.
unfoldable pub blocked_by : List Input → List Text → Option Text
blocked_by [] ids = none
blocked_by (i ∷ inputs) ids =
    if contains_text i.node_id ids then some i.node_id else blocked_by inputs ids

unfoldable pub skipped_outcome : Stage → SkipReason → StageOutcome
skipped_outcome stage reason = record {
  node_id = stage.node_id;
  label = stage.label;
  component_id = stage.component_id;
  rows = none;
  rejected = none;
  skipped = some reason;
  elapsed = none;
}

unfoldable pub timing : Stage → ℕ → Option ℕ
unfolding work_happens_here
timing stage took = if work_happens_here stage then some took else none

-- `position` of the first probe of a side, and the count at it.
unfoldable pub count_at : Bool → List CountProbe → List ℕ → Option ℕ
unfolding is_rejected
count_at side [] counts = none
count_at side (probe ∷ probes) [] = none
count_at side (probe ∷ probes) (n ∷ counts) = elim (same_side (is_rejected probe) side) [
  | true ↦ some n
  | false ↦ count_at side probes counts
]

unfoldable pub stage_outcome : Stage → List ℕ → StageOutcome
unfolding count_at
stage_outcome stage counts = record {
  node_id = stage.node_id;
  label = stage.label;
  component_id = stage.component_id;
  rows = count_at false stage.counts counts;
  rejected = if stage.splits then count_at true stage.counts counts else none;
  skipped = none;
  elapsed = none;
}

-- What the loop over the stages carries.
pub record Progress : Type 0 where
  pub outcomes : List StageOutcome
  pub failures : List StageFailure
  pub unusable : List Text
  pub untaken : List Text
  pub notes : List Text
  pub watermarks : List LoadedMark
  pub script : Text

unfoldable pub add_note : Text → Progress → Progress
add_note text p = record p { notes = p.notes ++ text ∷ [] }

-- The stage's part of the script.
unfoldable pub scripted : Stage → Progress → Progress
scripted stage p = record p {
  script =
      p.script
      ++ codes "-- "
      ++ stage.node_id
      ++ codes " ("
      ++ stage.component_id
      ++ codes ")\n"
      ++ stage.sql
      ++ codes "\n\n";
}

unfoldable pub skip_unusable : Stage → Text → Progress → Progress
unfolding skipped_outcome
skip_unusable stage missing p = record p {
  unusable = p.unusable ++ stage.node_id ∷ [];
  outcomes = p.outcomes ++ skipped_outcome stage (upstream_failed missing) ∷ [];
}

unfoldable pub skip_untaken : Stage → Text → Progress → Progress
unfolding skipped_outcome
skip_untaken stage branch p = record p {
  untaken = p.untaken ++ stage.node_id ∷ [];
  outcomes = p.outcomes ++ skipped_outcome stage (not_taken branch) ∷ [];
}

-- A failed stage: nothing can use it, it has an outcome, and its failure is kept.
unfoldable pub broken : Stage → Option ℕ → Text → Progress → Progress
unfolding skipped_outcome
broken stage elapsed message p = record p {
  unusable = p.unusable ++ stage.node_id ∷ [];
  outcomes = p.outcomes ++ record (skipped_outcome stage failed) { elapsed = elapsed } ∷ [];
  failures =
      p.failures ++ record { node_id = stage.node_id; label = stage.label; message = message } ∷ [];
}

-- The marks of a stage that ran.
unfoldable pub marks_of : Stage → Readings → List LoadedMark
marks_of stage readings = elim stage.incremental [
  | none ↦ []
  | some state ↦
      record { node_id = stage.node_id; column = state.column; value = readings.watermark } ∷ []
]

unfoldable pub completed : Stage → ℕ → Readings → Progress → Progress
unfolding stage_outcome timing marks_of
completed stage took readings p = record p {
  outcomes =
      p.outcomes
      ++ record (stage_outcome stage readings.counts) { elapsed = timing stage took } ∷ [];
  watermarks = p.watermarks ++ marks_of stage readings;
}

-- Whether the loop goes on with the stage, or with the next one.
pub data Gate : Type 0 where
  enter : Progress → Gate
  leave : Progress → Gate

-- What the decision of a control node does.
unfoldable pub acted : Stage → Action → Progress → Progress
unfolding add_note
acted stage carry_on p = p
acted stage (note text) p = add_note text p
acted stage (do_not_take text) p = record (add_note text p) {
  untaken = p.untaken ++ stage.node_id ∷ [];
}

module _ {W : Type 0} (outside : Outside W) (options : RunOptions) where
  -- A stage that failed: the end of the run, unless its policy carries on.
  unfoldable pub fail_stage :
      Stage → Option ℕ → Text → (reported : Text) → Progress → Effect W Progress
  unfolding broken
  fail_stage stage elapsed message reported p =
      if stage.policy.continue_on_failure
      then pure (broken stage elapsed message p)
      else throw (stage_failed stage.node_id stage.label reported)

  unfoldable pub after_control : Stage → Progress → Result Text Action → Effect W Gate
  unfolding acted fail_stage mask_all
  after_control stage p (ok action) = pure (enter (acted stage action p))
  after_control stage p (err message) = do
    after ← fail_stage stage none message (mask_all options.redact message) p
    pure (leave after)

  unfoldable pub control_gate : Stage → Progress → Effect W Gate
  unfolding act after_control
  control_gate stage p = elim stage.control [
    | none ↦ pure (enter p)
    | some control ↦ act outside stage control >>= after_control stage p
  ]

  -- The message of a transform is reported as it is.
  unfoldable pub after_transform : Stage → Progress → Result Text Text → Effect W Gate
  unfolding fail_stage add_note
  after_transform stage p (ok text) = pure (enter (add_note text p))
  after_transform stage p (err message) = do
    after ← fail_stage stage none message message p
    pure (leave after)

  unfoldable pub transform_gate : Stage → Gate → Effect W Gate
  unfolding after_transform
  transform_gate stage (leave p) = pure (leave p)
  transform_gate stage (enter p) =
      if is_native_transform stage
      then outside.run_transform stage >>= after_transform stage p
      else pure (enter p)

  unfoldable pub after_run : Stage → ℕ → Progress → Result Text Readings → Effect W Progress
  unfolding completed timing fail_stage mask_all
  after_run stage took p (ok readings) = pure (completed stage took readings p)
  after_run stage took p (err message) =
      fail_stage stage (timing stage took) message (mask_all options.redact message) p

  unfoldable pub run_gated : ℕ → Stage → Gate → Effect W Progress
  unfolding run_stage after_run
  run_gated started stage (leave p) = pure p
  run_gated started stage (enter p) = do
    ran ← run_stage outside options stage
    ended ← always outside.now
    after_run stage (ended - started) p ran

  -- A stage that nothing blocks.
  unfoldable pub enter_stage : Stage → Progress → Effect W Progress
  unfolding control_gate transform_gate run_gated
  enter_stage stage p = do
    started ← always outside.now
    decided ← control_gate stage p
    moved ← transform_gate stage decided
    run_gated started stage moved

  -- The body of the loop.
  unfoldable pub one_stage : Stage → Progress → Effect W Progress
  unfolding scripted blocked_by skip_unusable skip_untaken enter_stage
  one_stage stage before =
      let p = scripted stage before in
      elim (blocked_by stage.inputs p.unusable) [
        | some missing ↦ pure (skip_unusable stage missing p)
        | none ↦ elim (blocked_by stage.inputs p.untaken) [
          | some branch ↦ pure (skip_untaken stage branch p)
          | none ↦ enter_stage stage p
        ]
      ]

  unfoldable pub run_stages : List Stage → Progress → Effect W Progress
  unfolding one_stage
  run_stages [] p = pure p
  run_stages (stage ∷ stages) p = do after ← one_stage stage p; run_stages stages after

  -- Only a run without failures delivers, saves positions and acknowledges.
  unfoldable pub deliver : Plan → Staged → Progress → Effect W (Progress × Staged × Settled)
  deliver plan staged p =
      if is_nothing p.failures
      then (do
        delivered ← outside.deliver_sinks plan.stages p.untaken
        settled ← always outside.acknowledge
        pure (record p { notes = p.notes ++ delivered }, staged, settled))
      else (do
        settled ← always outside.release
        pure (
          record p { notes = p.notes ++ outside.withheld plan.stages },
          record staged { checkpoints = [] },
          settled,
        ))

  unfoldable pub masked_failure : StageFailure → StageFailure
  unfolding mask_all
  masked_failure failure = record failure { message = mask_all options.redact failure.message }

  unfoldable pub session_error : List Text → SessionError → ExecError
  unfolding joined_by_comma mask_all
  session_error [] why = session why
  session_error (first ∷ more) (bad_output message) =
      extension_load_failed (joined_by_comma (first ∷ more)) (mask_all options.redact message)
  session_error (first ∷ more) other = session other

  -- `Session::open` with its error turned into the run's.
  unfoldable pub open_driven : List Text → Effect W (Unit {0})
  unfolding session_error
  open_driven needed w =
      let (opened, after) = outside.open_session needed w in
      elim opened [ ok done ↦ (ok done, after) | err why ↦ (err (session_error needed why), after) ]

abbrev pub nothing_yet : List Text → Progress
nothing_yet notes = record {
  outcomes = [];
  failures = [];
  unusable = [];
  untaken = [];
  notes = notes;
  watermarks = [];
  script = [];
}

module _ {W : Type 0} (outside : Outside W) (options : RunOptions) where
  -- The report, at the end of the run.
  unfoldable pub report_of :
      Plan → (binary : Text) → (started : ℕ) → Progress × Staged × Settled → Effect W RunReport
  unfolding masked_failure spills mask_all
  report_of plan binary started (p, kept, settled) = do
    ended ← always outside.now
    spilled ← always (outside.clear_spills (spills plan))
    pure (record {
      stages = p.outcomes;
      elapsed = ended - started;
      duckdb_bin = binary;
      script = mask_all options.redact p.script;
      spilled = spilled;
      notes = p.notes ++ settled.notes;
      watermarks = p.watermarks;
      checkpoints = kept.checkpoints;
      warnings = settled.warnings;
      failures = map (masked_failure outside options) p.failures;
    })

  -- What comes behind the last stage.
  unfoldable pub finish_run :
      Plan → (binary : Text) → (started : ℕ) → Staged → Progress → Effect W RunReport
  unfolding deliver report_of
  finish_run plan binary started staged p = do
    change outside.close
    delivered ← deliver outside options plan staged p
    report_of plan binary started delivered

  unfoldable pub run_driven : Plan → (binary : Text) → Effect W RunReport
  unfolding run_stages finish_run open_driven extensions
  run_driven plan binary = do
    outside.prepare plan
    started ← always outside.now
    staged ← outside.stage_sources plan.stages
    open_driven outside options (extensions plan)
    ran ← run_stages outside options plan.stages (nothing_yet staged.notes)
    finish_run plan binary started staged ran
