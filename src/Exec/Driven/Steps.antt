-- ===== src/Exec/Driven/Steps.antt =====
-- The loop over the stages of `run_driven` of crates/duckdb-engine/src/exec.rs as a step relation: what a stage may do
-- to the sets, the outcomes and the failures of the run.
use local_etl_tool.Prelude.{
  ℕ, ◌-◌, ◌≡◌, refl, ◌∙◌, inl, inr, ◌⊎◌, true, Option, none, some, List, [], ◌∷◌, ◌++◌, Result, ok,
  err, Option-cases, Bool-cases,
}
use local_etl_tool.Prelude.Text.{Text}
use local_etl_tool.Plan.Query.{Stage, is_native_transform}
use local_etl_tool.Exec.{RunOptions}
use local_etl_tool.Exec.Around.{Outside, pure, always, ◌>>=◌, bind-ok, pure-ok, throw-ok}
use local_etl_tool.Exec.Stages.{Readings, run_stage}
use local_etl_tool.Exec.Control.{Action, carry_on, note, do_not_take, act}
use local_etl_tool.Exec.Driven.{
  blocked_by, timing, Progress, add_note, scripted, skip_unusable, skip_untaken, broken, completed,
  Gate, enter, leave, acted, fail_stage, after_control, after_transform, after_run, control_gate,
  transform_gate, run_gated, enter_stage, one_stage, run_stages,
}

-- What the gates before a stage leave as it was; they may add the stage to those that are not taken, and notes.
pub record IsEntered (stage : Stage) (p entered : Progress) : Type 0 where
  pub outcomes_kept : entered.outcomes ≡ p.outcomes
  pub failures_kept : entered.failures ≡ p.failures
  pub unusable_kept : entered.unusable ≡ p.unusable
  pub watermarks_kept : entered.watermarks ≡ p.watermarks
  pub untaken_kept :
      (entered.untaken ≡ p.untaken) ⊎ (entered.untaken ≡ p.untaken ++ stage.node_id ∷ [])

-- What one stage does to a run that goes on behind it.
pub data Step {W : Type 0} (outside : Outside W) (options : RunOptions) (stage : Stage)
    (p : Progress) : Progress → Type 0 where
  upstream_broke :
      {after : Progress} {missing : Text}
      → blocked_by stage.inputs p.unusable ≡ some missing
      → after ≡ skip_unusable stage missing (scripted stage p)
      → Step outside options stage p after
  branch_untaken :
      {after : Progress} {branch : Text}
      → blocked_by stage.inputs p.unusable ≡ none
      → blocked_by stage.inputs p.untaken ≡ some branch
      → after ≡ skip_untaken stage branch (scripted stage p)
      → Step outside options stage p after
  broke :
      {after : Progress} (entered : Progress) (elapsed : Option ℕ) (message : Text)
      → blocked_by stage.inputs p.unusable ≡ none
      → blocked_by stage.inputs p.untaken ≡ none
      → stage.policy.continue_on_failure ≡ true
      → IsEntered stage p entered
      → after ≡ broken stage elapsed message entered
      → Step outside options stage p after
  ran :
      {after : Progress} (entered : Progress) (took : ℕ) (readings : Readings) (w w' : W)
      → run_stage outside options stage w ≡ (ok (ok readings), w')
      → blocked_by stage.inputs p.unusable ≡ none
      → blocked_by stage.inputs p.untaken ≡ none
      → IsEntered stage p entered
      → after ≡ completed stage took readings entered
      → Step outside options stage p after

-- Steps of the stages of a plan, in their order.
pub data Steps {W : Type 0} (outside : Outside W) (options : RunOptions)
    : List Stage → Progress → Progress → Type 0 where
  all_done : {p : Progress} → Steps outside options [] p p
  next_stage :
      {stage : Stage} {stages : List Stage} {p q r : Progress}
      → Step outside options stage p q
      → Steps outside options stages q r
      → Steps outside options (stage ∷ stages) p r

acted-IsEntered :
    (stage : Stage) (action : Action) (p : Progress)
    → IsEntered stage p (acted stage action (scripted stage p))
unfolding acted add_note scripted
acted-IsEntered stage carry_on p = record {
  outcomes_kept = refl;
  failures_kept = refl;
  unusable_kept = refl;
  watermarks_kept = refl;
  untaken_kept = inl refl;
}
acted-IsEntered stage (note text) p = record {
  outcomes_kept = refl;
  failures_kept = refl;
  unusable_kept = refl;
  watermarks_kept = refl;
  untaken_kept = inl refl;
}
acted-IsEntered stage (do_not_take text) p = record {
  outcomes_kept = refl;
  failures_kept = refl;
  unusable_kept = refl;
  watermarks_kept = refl;
  untaken_kept = inr refl;
}

scripted-IsEntered : (stage : Stage) (p : Progress) → IsEntered stage p (scripted stage p)
unfolding scripted
scripted-IsEntered stage p = record {
  outcomes_kept = refl;
  failures_kept = refl;
  unusable_kept = refl;
  watermarks_kept = refl;
  untaken_kept = inl refl;
}

add_note-IsEntered :
    (stage : Stage) (text : Text) (p entered : Progress)
    → IsEntered stage p entered
    → IsEntered stage p (add_note text entered)
unfolding add_note
add_note-IsEntered stage text p entered h = record {
  outcomes_kept = h.outcomes_kept;
  failures_kept = h.failures_kept;
  unusable_kept = h.unusable_kept;
  watermarks_kept = h.watermarks_kept;
  untaken_kept = h.untaken_kept;
}

-- A gate that is passed, or one that the stage failed at under a policy that carries on.
pub data IsGated (stage : Stage) (p : Progress) : Gate → Type 0 where
  passed : {entered : Progress} → IsEntered stage p entered → IsGated stage p (enter entered)
  held :
      (entered : Progress) (message : Text) {after : Progress}
      → stage.policy.continue_on_failure ≡ true
      → IsEntered stage p entered
      → after ≡ broken stage none message entered
      → IsGated stage p (leave after)

module _ {W : Type 0} (outside : Outside W) (options : RunOptions) where
  -- A failed stage that a run goes on behind.
  fail_stage-broken :
      (stage : Stage) (elapsed : Option ℕ) (message reported : Text) (p after : Progress) (w w' : W)
      → fail_stage outside options stage elapsed message reported p w ≡ (ok after, w')
      → (stage.policy.continue_on_failure ≡ true) × (after ≡ broken stage elapsed message p)
  unfolding fail_stage
  fail_stage-broken stage elapsed message reported p after w w' h =
      elim (Bool-cases stage.policy.continue_on_failure) [
        | inl e ↦ let here = rw (e, fail_stage) at h in (e, pure-ok w w' here)
        | inr e ↦ let here = rw (e, fail_stage) at h in absurd (throw-ok _ w w' here)
      ]

  after_control-IsGated :
      (stage : Stage) (p : Progress) (decided : Result Text Action) (gate : Gate) (w w' : W)
      → after_control outside options stage (scripted stage p) decided w ≡ (ok gate, w')
      → IsGated stage p gate
  unfolding after_control
  after_control-IsGated stage p (ok action) gate w w' h =
      let same = pure-ok w w' h in rw same (passed (acted-IsEntered stage action p))
  after_control-IsGated stage p (err message) gate w w' h =
      let (after, w1, first, rest) =
        bind-ok (fail_stage outside options stage none message _ (scripted stage p))
          (λ after. pure (leave after)) w w' h in
      let (carries, same) =
        fail_stage-broken stage none message _ (scripted stage p) after w w1 first in
      let same_gate = pure-ok w1 w' rest in
      rw same_gate (held (scripted stage p) message carries (scripted-IsEntered stage p) same)

  control_gate-IsGated :
      (stage : Stage) (p : Progress) (gate : Gate) (w w' : W)
      → control_gate outside options stage (scripted stage p) w ≡ (ok gate, w')
      → IsGated stage p gate
  unfolding control_gate
  control_gate-IsGated stage p gate w w' h = elim (Option-cases stage.control) [
    | inl e ↦
        let here = rw (e, control_gate) at h in
        let same = pure-ok w w' here in rw same (passed (scripted-IsEntered stage p))
    | inr (control, e) ↦
        let here = rw (e, control_gate) at h in
        let (decided, w1, first, rest) =
          bind-ok (act outside stage control)
            (after_control outside options stage (scripted stage p)) w w' here in
        after_control-IsGated stage p decided gate w1 w' rest
  ]

  after_transform-IsGated :
      (stage : Stage) (p entered : Progress) (moved : Result Text Text) (gate : Gate) (w w' : W)
      → IsEntered stage p entered
      → after_transform outside options stage entered moved w ≡ (ok gate, w')
      → IsGated stage p gate
  unfolding after_transform
  after_transform-IsGated stage p entered (ok text) gate w w' e h =
      let same = pure-ok w w' h in rw same (passed (add_note-IsEntered stage text p entered e))
  after_transform-IsGated stage p entered (err message) gate w w' e h =
      let (after, w1, first, rest) =
        bind-ok (fail_stage outside options stage none message message entered)
          (λ after. pure (leave after)) w w' h in
      let (carries, same) = fail_stage-broken stage none message message entered after w w1 first in
      let same_gate = pure-ok w1 w' rest in rw same_gate (held entered message carries e same)

  transform_gate-IsGated :
      (stage : Stage) (p : Progress) (before gate : Gate) (w w' : W)
      → IsGated stage p before
      → transform_gate outside options stage before w ≡ (ok gate, w')
      → IsGated stage p gate
  unfolding transform_gate
  transform_gate-IsGated stage p (leave after) gate w w' g h =
      let same = pure-ok w w' h in rw same g
  transform_gate-IsGated stage p (enter entered) gate w w' (passed e) h =
      elim (Bool-cases (is_native_transform stage)) [
        | inl t ↦
            let here = rw (t, transform_gate) at h in
            let (moved, w1, first, rest) =
              bind-ok (outside.run_transform stage) (after_transform outside options stage entered)
                w w' here in
            after_transform-IsGated stage p entered moved gate w1 w' e rest
        | inr t ↦
            let here = rw (t, transform_gate) at h in
            let same = pure-ok w w' here in rw same (passed e)
      ]

  after_run-Step :
      (stage : Stage) (took : ℕ) (p entered after : Progress) (found : Result Text Readings)
      (w0 w1 w w' : W)
      → run_stage outside options stage w0 ≡ (ok found, w1)
      → blocked_by stage.inputs p.unusable ≡ none
      → blocked_by stage.inputs p.untaken ≡ none
      → IsEntered stage p entered
      → after_run outside options stage took entered found w ≡ (ok after, w')
      → Step outside options stage p after
  unfolding after_run
  after_run-Step stage took p entered after (ok readings) w0 w1 w w' read usable taken e h =
      ran entered took readings w0 w1 read usable taken e (pure-ok w w' h)
  after_run-Step stage took p entered after (err message) w0 w1 w w' read usable taken e h =
      let (carries, same) =
        fail_stage-broken stage (timing stage took) message _ entered after w w' h in
      broke entered (timing stage took) message usable taken carries e same

  run_gated-Step :
      (started : ℕ) (stage : Stage) (p after : Progress) (gate : Gate) (w w' : W)
      → blocked_by stage.inputs p.unusable ≡ none
      → blocked_by stage.inputs p.untaken ≡ none
      → IsGated stage p gate
      → run_gated outside options started stage gate w ≡ (ok after, w')
      → Step outside options stage p after
  unfolding run_gated
  run_gated-Step started stage p after (leave left) w w' usable taken
        (held entered message carries e same) h =
      broke entered none message usable taken carries e (pure-ok w w' h ∙ same)
  run_gated-Step started stage p after (enter entered) w w' usable taken (passed e) h =
      let (found, w1, first, rest) =
        bind-ok (run_stage outside options stage)
          (λ found. always outside.now >>= λ ended.
            after_run outside options stage (ended - started) entered found)
          w w' h in
      let (ended, w2, _, last) =
        bind-ok (always outside.now)
          (λ ended. after_run outside options stage (ended - started) entered found) w1 w' rest in
      after_run-Step stage (ended - started) p entered after found w w1 w2 w' first usable taken e
        last

  enter_stage-Step :
      (stage : Stage) (p after : Progress) (w w' : W)
      → blocked_by stage.inputs p.unusable ≡ none
      → blocked_by stage.inputs p.untaken ≡ none
      → enter_stage outside options stage (scripted stage p) w ≡ (ok after, w')
      → Step outside options stage p after
  unfolding enter_stage
  enter_stage-Step stage p after w w' usable taken h =
      let (started, w1, _, h1) =
        bind-ok (always outside.now)
          (λ started. control_gate outside options stage (scripted stage p) >>= λ decided.
            transform_gate outside options stage decided >>= λ moved.
            run_gated outside options started stage moved)
          w w' h in
      let (decided, w2, e2, h2) =
        bind-ok (control_gate outside options stage (scripted stage p))
          (λ decided. transform_gate outside options stage decided >>= λ moved.
            run_gated outside options started stage moved)
          w1 w' h1 in
      let (moved, w3, e3, h3) =
        bind-ok (transform_gate outside options stage decided)
          (λ moved. run_gated outside options started stage moved) w2 w' h2 in
      let first = control_gate-IsGated stage p decided w1 w2 e2 in
      let second = transform_gate-IsGated stage p decided moved w2 w3 first e3 in
      run_gated-Step started stage p after moved w3 w' usable taken second h3

  -- A stage that the run goes on behind is one step.
  one_stage-Step :
      (stage : Stage) (p after : Progress) (w w' : W)
      → one_stage outside options stage p w ≡ (ok after, w')
      → Step outside options stage p after
  unfolding one_stage
  one_stage-Step stage p after w w' h = elim (Option-cases (blocked_by stage.inputs p.unusable)) [
    | inr (missing, e) ↦ let here = rw (e, one_stage) at h in upstream_broke e (pure-ok w w' here)
    | inl e ↦ elim (Option-cases (blocked_by stage.inputs p.untaken)) [
      | inr (other, t) ↦
          let here = rw (e, t, one_stage) at h in branch_untaken e t (pure-ok w w' here)
      | inl t ↦ let here = rw (e, t, one_stage) at h in enter_stage-Step stage p after w w' e t here
    ]
  ]

  -- A run that comes to the end of its stages took a step for each of them, in their order.
  pub run_stages-Steps :
      (stages : List Stage) (p after : Progress) (w w' : W)
      → run_stages outside options stages p w ≡ (ok after, w')
      → Steps outside options stages p after
  unfolding run_stages
  run_stages-Steps [] p after w w' h = let same = pure-ok w w' h in rw same all_done
  run_stages-Steps (stage ∷ stages) p after w w' h =
      let (next, w1, first, rest) =
        bind-ok (one_stage outside options stage p) (run_stages outside options stages) w w' h in
      next_stage (one_stage-Step stage p next w w1 first)
        (run_stages-Steps stages next after w1 w' rest)
