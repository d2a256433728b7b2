-- ===== src/Exec/Driven/Marks.antt =====
-- The high-water marks of `run_driven` of crates/duckdb-engine/src/exec.rs, and what crates/duckdb-engine/src/remember.rs
-- makes of them.
use local_etl_tool.Prelude.{
  ℕ, ◌≡◌, refl, ap, ◌∙◌, inl, inr, Option, none, List, [], ◌∷◌, Result, ok, err, All, All-append,
  Option-cases, Bool-cases,
}
use local_etl_tool.Prelude.Text.{Text}
use local_etl_tool.Session.{Answer}
use local_etl_tool.Plan.Query.{Plan, Stage}
use local_etl_tool.Exec.{ExecError, RunOptions, RunReport, LoadedMark, has_failed}
use local_etl_tool.Exec.Around.{
  Outside, pure, in_session, always, ◌>>=◌, ◌>>◌, bind-ok, pure-ok, given-ok, chain-ok,
}
use local_etl_tool.Exec.Stages.{
  Readings, verdict, readings, collect_watermark, set_limit, reset_limit, attempt_stage, run_stage,
}
use local_etl_tool.Exec.Stages.Probes.{PrintsArrays, collect_watermark-none}
use local_etl_tool.Exec.Stages.Retries.{
  Ending, Tries, worked, broke, gave_up, again, run_stage-Tries,
}
use local_etl_tool.Exec.Driven.{
  Progress, nothing_yet, scripted, skip_unusable, skip_untaken, broken, completed, marks_of,
  run_driven,
}
use local_etl_tool.Exec.Driven.Steps.{
  Step, upstream_broke, branch_untaken, ran, Steps, all_done, next_stage,
}
use local_etl_tool.Exec.Driven.Endings.{run_driven-Reports}
use local_etl_tool.State.Remember.{PipelineState, Watermark, watermark}
use local_etl_tool.State.Report.{remember, last_mark, remember_lem}

-- A mark without a value.
abbrev pub IsUnread : LoadedMark → Type 0
IsUnread m = m.value ≡ none

module _ {W : Type 0} (outside : Outside W) (options : RunOptions)
    (prints : PrintsArrays outside) where
  readings-none :
      (stage : Stage) (answer : Answer) (found : Readings) (w w' : W)
      → readings outside options stage answer w ≡ (ok found, w')
      → found.watermark ≡ none
  unfolding readings
  readings-none stage answer found w w' h =
      let (counts, w1, _, h1) =
        chain-ok
          (λ counts w1.
            let (marked, w2) = collect_watermark outside stage w1 in
            elim marked [
              | err why ↦ (err why, w2)
              | ok mark ↦ (ok (record { counts = counts; watermark = mark }), w2)
            ])
          (verdict outside options stage answer w) w' h in
      let (mark, w2, e2, h2) =
        chain-ok (λ mark w2. (ok (record { counts = counts; watermark = mark }), w2))
          (collect_watermark outside stage w1) w' h1 in
      let same = given-ok {E = Text} w2 w' h2 in
      ap (λ (r : Readings). r.watermark) same
      ∙ collect_watermark-none outside prints stage w1 w2 mark e2

  attempt_stage-none :
      (stage : Stage) (found : Readings) (w w' : W)
      → attempt_stage outside options stage w ≡ (ok (ok found), w')
      → found.watermark ≡ none
  unfolding attempt_stage
  attempt_stage-none stage found w w' h =
      let reset = λ (result : Result Text Readings).
        reset_limit outside stage.policy.memory_limit_mb >> pure result in
      let (_, w1, _, h1) =
        bind-ok (set_limit outside stage.policy.memory_limit_mb)
          (λ _. in_session (outside.execute stage.sql) >>= λ answer.
            always (readings outside options stage answer) >>= reset)
          w w' h in
      let (answer, w2, _, h2) =
        bind-ok (in_session (outside.execute stage.sql))
          (λ answer. always (readings outside options stage answer) >>= reset) w1 w' h1 in
      let (result, w3, e3, h3) =
        bind-ok (always (readings outside options stage answer)) reset w2 w' h2 in
      let (_, w4, _, h4) =
        bind-ok (reset_limit outside stage.policy.memory_limit_mb) (λ _. pure result) w3 w' h3 in
      let same : ok found ≡ result = pure-ok w4 w' h4 in
      readings-none stage answer found w2 w3 (rw (← same) at (pair e3))
    where
      pair :
          {result : Result Text Readings} {step : Result Text Readings × W} {w3 : W}
          → ◌≡◌ {A = Result ExecError (Result Text Readings) × W}
              (ok step.0, step.1)
              (ok result, w3)
          → step ≡ (result, w3)
      pair {step = (got, after)} e = cc

  Tries-none :
      (stage : Stage) (attempt n : ℕ) (w w' : W) (found : Readings) (ending : Ending W)
      → Tries outside options stage attempt w n ending
      → ending ≡ (ok (ok found), w')
      → found.watermark ≡ none
  Tries-none stage attempt n w w' found ending (worked same) e =
      attempt_stage-none stage found w w' (same ∙ e)
  Tries-none stage attempt n w w' found ending (broke same) e = cc
  Tries-none stage attempt n w w' found ending (gave_up same h) e = cc
  Tries-none stage attempt n w w' found ending (again same h later) e =
      Tries-none stage _ _ _ w' found ending later e

  run_stage-none :
      (stage : Stage) (found : Readings) (w w' : W)
      → run_stage outside options stage w ≡ (ok (ok found), w')
      → found.watermark ≡ none
  run_stage-none stage found w w' h =
      let ((n, tries, _), _) = run_stage-Tries outside options stage w in
      Tries-none stage 0 n w w' found (run_stage outside options stage w) tries h

  marks_of-IsUnread :
      (stage : Stage) (found : Readings)
      → found.watermark ≡ none
      → All IsUnread (marks_of stage found)
  unfolding marks_of
  marks_of-IsUnread stage found h = elim (Option-cases stage.incremental) [
    | inl e ↦ rw (e, marks_of) tt
    | inr (state, e) ↦ rw (e, marks_of) (h, tt)
  ]

  Step-IsUnread :
      (stage : Stage) (p after : Progress)
      → All IsUnread p.watermarks
      → Step outside options stage p after
      → All IsUnread after.watermarks
  unfolding scripted skip_unusable skip_untaken broken completed
  Step-IsUnread stage p after h (upstream_broke blocked same) = rw same h
  Step-IsUnread stage p after h (branch_untaken usable blocked same) = rw same h
  Step-IsUnread stage p after h (Step.broke entered elapsed message usable taken carries e same) =
      rw (same, e.watermarks_kept) h
  Step-IsUnread stage p after h (ran entered took found w w' read usable taken e same) =
      let none_read = marks_of-IsUnread stage found (run_stage-none stage found w w' read) in
      rw (same, e.watermarks_kept)
        (All-append IsUnread p.watermarks (marks_of stage found) h none_read)

  Steps-IsUnread :
      (stages : List Stage) (p after : Progress)
      → All IsUnread p.watermarks
      → Steps outside options stages p after
      → All IsUnread after.watermarks
  Steps-IsUnread [] p after h all_done = h
  Steps-IsUnread (stage ∷ stages) p after h (next_stage {q = q} step steps) =
      Steps-IsUnread stages q after (Step-IsUnread stage p q h step) steps

last_mark-IsUnread :
    (now node : Text) (marks : List LoadedMark) (old : Option Watermark)
    → All IsUnread marks
    → last_mark now node marks old ≡ old
unfolding last_mark
last_mark-IsUnread now node [] old h = refl
last_mark-IsUnread now node (m ∷ marks) old (first, h) =
    rw (first, last_mark) (last_mark-IsUnread now node marks old h)

-- Where every value that a statement prints is an array of rows, no mark of a driven run has a value, so that
-- remembering the run leaves every stored watermark as it was.
pub run_driven-watermark :
    {W : Type 0} (outside : Outside W) (options : RunOptions) (prints : PrintsArrays outside)
    (plan : Plan) (binary : Text) (report : RunReport) (w w' : W)
    → run_driven outside options plan binary w ≡ (ok report, w')
    → All IsUnread report.watermarks
      × ((now node : Text) (s : PipelineState)
          → watermark ((remember now report s).1) node ≡ watermark s node)
run_driven-watermark outside options prints plan binary report w w' h =
    let ran = run_driven-Reports outside options plan binary report w w' h in
    let unread : All IsUnread report.watermarks = rw ran.watermarks_are (
      Steps-IsUnread outside options prints plan.stages (nothing_yet ran.staged.notes) ran.last tt
        ran.steps) in
    (unread, λ now node s. stays now node report s unread)
  where
    stays :
        (now node : Text) (report : RunReport) (s : PipelineState)
        → All IsUnread report.watermarks
        → watermark ((remember now report s).1) node ≡ watermark s node
    stays now node report s unread =
        let (kept, _) = remember_lem now node report s in
        let same = last_mark-IsUnread now node report.watermarks (watermark s node) unread in
        elim (Bool-cases (has_failed report)) [
          | inl e ↦ rw e at kept
          | inr e ↦ (rw e at kept) ∙ same
        ]
