-- ===== src/Exec/Driven/Endings.antt =====
-- What the report of `run_driven` of crates/duckdb-engine/src/exec.rs says of its run.
use local_etl_tool.Prelude.{
  ℕ, ◌≡◌, ap, ◌∙◌, inl, inr, List, [], ◌++◌, map, if◌then◌else◌, ok, Bool-cases,
}
use local_etl_tool.Prelude.Text.{Text}
use local_etl_tool.Plan.Query.{Plan, is_nothing, extensions}
use local_etl_tool.Exec.{RunOptions, RunReport, SavedPosition}
use local_etl_tool.Exec.Around.{
  Staged, Settled, Outside, pure, always, change, ◌>>=◌, ◌>>◌, bind-ok, pure-ok,
}
use local_etl_tool.Exec.Driven.{
  Progress, nothing_yet, run_stages, deliver, masked_failure, open_driven, report_of, finish_run,
  run_driven,
}
use local_etl_tool.Exec.Driven.Steps.{Steps, run_stages-Steps}
use local_etl_tool.Exec.Driven.Outcomes.{AllExplained, nothing_yet-Agrees, Steps-AllExplained}

-- What delivery leaves of a run, and which positions it keeps.
pub record IsDelivered (staged : Staged) (p : Progress) (q : Progress)
    (positions : List SavedPosition) : Type 0 where
  pub outcomes_kept : q.outcomes ≡ p.outcomes
  pub failures_kept : q.failures ≡ p.failures
  pub watermarks_kept : q.watermarks ≡ p.watermarks
  pub positions_are : positions ≡ (if is_nothing p.failures then staged.checkpoints else [])

module _ {W : Type 0} (outside : Outside W) (options : RunOptions) where
  deliver-IsDelivered :
      (plan : Plan) (staged kept : Staged) (settled : Settled) (p q : Progress) (w w' : W)
      → deliver outside options plan staged p w ≡ (ok (q, kept, settled), w')
      → IsDelivered staged p q kept.checkpoints
  unfolding deliver
  deliver-IsDelivered plan staged kept settled p q w w' h =
      elim (Bool-cases (is_nothing p.failures)) [
        | inl e ↦
            let here = rw (e, deliver) at h in
            let (delivered, w1, _, h1) =
              bind-ok (outside.deliver_sinks plan.stages p.untaken)
                (λ delivered. always outside.acknowledge >>= λ settled.
                  pure (record p { notes = p.notes ++ delivered }, staged, settled))
                w w' here in
            let (done, w2, _, h2) =
              bind-ok (always outside.acknowledge)
                (λ settled. pure (record p { notes = p.notes ++ delivered }, staged, settled)) w1 w'
                h1 in
            let same = pure-ok w2 w' h2 in
            record {
              outcomes_kept = ap (λ x. x.0.outcomes) same;
              failures_kept = ap (λ x. x.0.failures) same;
              watermarks_kept = ap (λ x. x.0.watermarks) same;
              positions_are = rw e (ap (λ x. x.1.checkpoints) same);
            }
        | inr e ↦
            let here = rw (e, deliver) at h in
            let (done, w1, _, h1) =
              bind-ok (always outside.release)
                (λ settled. pure (
                  record p { notes = p.notes ++ outside.withheld plan.stages },
                  record staged { checkpoints = [] },
                  settled,
                ))
                w w' here in
            let same = pure-ok w1 w' h1 in
            record {
              outcomes_kept = ap (λ x. x.0.outcomes) same;
              failures_kept = ap (λ x. x.0.failures) same;
              watermarks_kept = ap (λ x. x.0.watermarks) same;
              positions_are = rw e (ap (λ x. x.1.checkpoints) same);
            }
      ]

  -- The run behind a report: the steps of its stages, and what the report takes from them.
  pub record Reports (plan : Plan) (report : RunReport) : Type 0 where
    pub staged : Staged
    pub last : Progress
    pub steps : Steps outside options plan.stages (nothing_yet staged.notes) last
    pub stages_are : report.stages ≡ last.outcomes
    pub failures_are : report.failures ≡ map (masked_failure outside options) last.failures
    pub watermarks_are : report.watermarks ≡ last.watermarks
    pub checkpoints_are :
        report.checkpoints ≡ (if is_nothing last.failures then staged.checkpoints else [])

  finish_run-Reports :
      (plan : Plan) (binary : Text) (started : ℕ) (staged : Staged) (p : Progress)
      (report : RunReport) (w w' : W)
      → Steps outside options plan.stages (nothing_yet staged.notes) p
      → finish_run outside options plan binary started staged p w ≡ (ok report, w')
      → Reports plan report
  unfolding finish_run report_of
  finish_run-Reports plan binary started staged p report w w' steps h =
      let (_, w1, _, h1) =
        bind-ok (change outside.close)
          (λ _.
            deliver outside options plan staged p >>= report_of outside options plan binary started)
          w w' h in
      let ((q, kept, settled), w2, e2, h2) =
        bind-ok (deliver outside options plan staged p)
          (report_of outside options plan binary started) w1 w' h1 in
      let keeps = deliver-IsDelivered plan staged kept settled p q w1 w2 e2 in
      let same = pure-ok _ w' h2 in
      record {
        staged = staged;
        last = p;
        steps = steps;
        stages_are = ap (λ r. r.stages) same ∙ keeps.outcomes_kept;
        failures_are =
            ap (λ r. r.failures) same
            ∙ ap (map (masked_failure outside options)) keeps.failures_kept;
        watermarks_are = ap (λ r. r.watermarks) same ∙ keeps.watermarks_kept;
        checkpoints_are = ap (λ r. r.checkpoints) same ∙ keeps.positions_are;
      }

  pub run_driven-Reports :
      (plan : Plan) (binary : Text) (report : RunReport) (w w' : W)
      → run_driven outside options plan binary w ≡ (ok report, w')
      → Reports plan report
  unfolding run_driven
  run_driven-Reports plan binary report w w' h =
      let opened = open_driven outside options (extensions plan) in
      let running = λ (started : ℕ). λ (staged : Staged).
        run_stages outside options plan.stages (nothing_yet staged.notes)
        >>= finish_run outside options plan binary started staged in
      let (_, w1, _, h1) =
        bind-ok (outside.prepare plan)
          (λ _. always outside.now >>= λ started.
            outside.stage_sources plan.stages >>= λ staged. opened >> running started staged)
          w w' h in
      let (started, w2, _, h2) =
        bind-ok (always outside.now)
          (λ started.
            outside.stage_sources plan.stages >>= λ staged. opened >> running started staged)
          w1 w' h1 in
      let (staged, w3, _, h3) =
        bind-ok (outside.stage_sources plan.stages) (λ staged. opened >> running started staged) w2
          w' h2 in
      let (_, w4, _, h4) = bind-ok opened (λ _. running started staged) w3 w' h3 in
      let (p, w5, e5, h5) =
        bind-ok (run_stages outside options plan.stages (nothing_yet staged.notes))
          (finish_run outside options plan binary started staged) w4 w' h4 in
      let steps =
        run_stages-Steps outside options plan.stages (nothing_yet staged.notes) p w4 w5 e5 in
      finish_run-Reports plan binary started staged p report w5 w' steps h5

  -- A driven run that gives a report gives one outcome for each stage of the plan, in its order and under its names.
  -- An outcome names an upstream that failed exactly where an input of its stage is among the stages before it that
  -- failed or were skipped for a failure, and then it names the first such input.
  pub run_driven-AllExplained :
      (plan : Plan) (binary : Text) (report : RunReport) (w w' : W)
      → run_driven outside options plan binary w ≡ (ok report, w')
      → AllExplained [] plan.stages report.stages
  run_driven-AllExplained plan binary report w w' h =
      let ran = run_driven-Reports plan binary report w w' h in
      let (agrees, os, same, explained) =
        Steps-AllExplained outside options plan.stages (nothing_yet ran.staged.notes) ran.last
          (nothing_yet-Agrees ran.staged.notes) ran.steps in
      rw (ran.stages_are, same) explained
