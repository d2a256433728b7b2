-- ===== src/Exec/Driven/Skips.antt =====
-- When a run of `run_driven` of crates/duckdb-engine/src/exec.rs has failed, and what is then kept of it.
use local_etl_tool.Prelude.{
  ◌≡◌, refl, sym, ap, ◌∙◌, Bool, true, false, not, none, some, List, [], ◌∷◌, ◌++◌, map, ok,
}
use local_etl_tool.Prelude.Text.{Text}
use local_etl_tool.Plan.Query.{Plan, Stage, Input, is_nothing}
use local_etl_tool.Exec.{RunOptions, RunReport, has_failed}
use local_etl_tool.Exec.Around.{Outside}
use local_etl_tool.Exec.Driven.{
  blocked_by, Progress, nothing_yet, scripted, skip_unusable, skip_untaken, broken, completed,
  masked_failure, run_driven,
}
use local_etl_tool.Exec.Driven.Steps.{
  Step, upstream_broke, branch_untaken, broke, ran, Steps, all_done, next_stage,
}
use local_etl_tool.Exec.Driven.Outcomes.{failed_ids, nothing_yet-Agrees, Steps-AllExplained}
use local_etl_tool.Exec.Driven.Endings.{run_driven-Reports}
use local_etl_tool.State.Remember.{PipelineState}
use local_etl_tool.State.Report.{remember, nothing_remembered}

is_nothing-append : {A : Type 0} (xs : List A) (x : A) → is_nothing (xs ++ x ∷ []) ≡ false
is_nothing-append [] x = refl
is_nothing-append (y ∷ xs) x = refl

is_nothing-map : {A B : Type 0} (f : A → B) (xs : List A) → is_nothing (map f xs) ≡ is_nothing xs
is_nothing-map f [] = refl
is_nothing-map f (x ∷ xs) = refl

-- Nothing is blocked by an empty set.
blocked_by-nothing : (inputs : List Input) → blocked_by inputs [] ≡ none
unfolding blocked_by
blocked_by-nothing [] = refl
blocked_by-nothing (i ∷ inputs) = blocked_by-nothing inputs

blocked_by-is_nothing :
    (inputs : List Input) (ids : List Text) (id : Text)
    → blocked_by inputs ids ≡ some id
    → is_nothing ids ≡ false
blocked_by-is_nothing inputs [] id h = let none_blocked = blocked_by-nothing inputs in cc
blocked_by-is_nothing inputs (i ∷ ids) id h = refl

-- A run has a stage that nothing can use exactly if it has a failure.
abbrev IsTelling : Progress → Type 0
IsTelling p = is_nothing p.failures ≡ is_nothing p.unusable

module _ {W : Type 0} (outside : Outside W) (options : RunOptions) where
  Step-IsTelling :
      (stage : Stage) (p after : Progress)
      → IsTelling p
      → Step outside options stage p after
      → IsTelling after
  unfolding scripted skip_unusable skip_untaken broken completed
  Step-IsTelling stage p after h (upstream_broke {missing = missing} blocked same) =
      ap (λ q. is_nothing q.failures) same
      ∙ h
      ∙ blocked_by-is_nothing stage.inputs p.unusable missing blocked
      ∙ sym (is_nothing-append p.unusable stage.node_id)
      ∙ ap (λ q. is_nothing q.unusable) (sym same)
  Step-IsTelling stage p after h (branch_untaken usable blocked same) =
      ap (λ q. is_nothing q.failures) same ∙ h ∙ ap (λ q. is_nothing q.unusable) (sym same)
  Step-IsTelling stage p after h (broke entered elapsed message usable taken carries e same) =
      ap (λ q. is_nothing q.failures) same
      ∙ is_nothing-append entered.failures _
      ∙ sym (is_nothing-append entered.unusable stage.node_id)
      ∙ ap (λ q. is_nothing q.unusable) (sym same)
  Step-IsTelling stage p after h (ran entered took readings w w' read usable taken e same) =
      ap (λ q. is_nothing q.failures) same
      ∙ ap is_nothing e.failures_kept
      ∙ h
      ∙ ap is_nothing (sym e.unusable_kept)
      ∙ ap (λ q. is_nothing q.unusable) (sym same)

  Steps-IsTelling :
      (stages : List Stage) (p after : Progress)
      → IsTelling p
      → Steps outside options stages p after
      → IsTelling after
  Steps-IsTelling [] p after h all_done = h
  Steps-IsTelling (stage ∷ stages) p after h (next_stage {q = q} step steps) =
      Steps-IsTelling stages q after (Step-IsTelling stage p q h step) steps

  -- A driven run that gives a report has failed exactly if a stage of the report failed or was skipped for a failure.
  -- Of a failed run no position is kept, and remembering it changes nothing.
  pub run_driven-has_failed :
      (plan : Plan) (binary : Text) (report : RunReport) (w w' : W)
      → run_driven outside options plan binary w ≡ (ok report, w')
      → (has_failed report ≡ not (is_nothing (failed_ids report.stages)))
        × (has_failed report ≡ true
            → (report.checkpoints ≡ [])
              × ((now : Text) (s : PipelineState)
                  → remember now report s ≡ (nothing_remembered, s)))
  unfolding has_failed remember
  run_driven-has_failed plan binary report w w' h =
      let ran = run_driven-Reports outside options plan binary report w w' h in
      let telling =
        Steps-IsTelling plan.stages (nothing_yet ran.staged.notes) ran.last refl ran.steps in
      let (agrees, _, _, _) =
        Steps-AllExplained outside options plan.stages (nothing_yet ran.staged.notes) ran.last
          (nothing_yet-Agrees ran.staged.notes) ran.steps in
      let same_failures =
        ap is_nothing ran.failures_are
        ∙ is_nothing-map (masked_failure outside options) ran.last.failures in
      let same_ids = ap is_nothing (agrees.unusable_are ∙ ap failed_ids (sym ran.stages_are)) in
      (
        ap not (same_failures ∙ telling ∙ same_ids),
        λ e. (
          ran.checkpoints_are ∙ rw (sym same_failures ∙ flip (is_nothing report.failures) e) refl,
          λ now s. rw e refl,
        ),
      )
    where
      flip : (b : Bool) → not b ≡ true → b ≡ false
      flip true e = cc
      flip false e = refl
