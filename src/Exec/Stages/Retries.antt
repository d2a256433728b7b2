-- ===== src/Exec/Stages/Retries.antt =====
-- The retries of `run_stage` of crates/duckdb-engine/src/exec.rs, against the loop of the source as a relation.
use local_etl_tool.Prelude.{
  ℕ, zero, suc, ◌+◌, ◌≤◌, ◌<◌, ◌≡◌, refl, sym, ap, ◌∙◌, Result, ok, err, arith,
}
use local_etl_tool.Prelude.Text.{Text}
use local_etl_tool.Plan.Policy.{backoff_for}
use local_etl_tool.Plan.Query.{Stage}
use local_etl_tool.Exec.{ExecError, RunOptions}
use local_etl_tool.Exec.Around.{Outside, Effect, change, ◌>>=◌, ◌>>◌}
use local_etl_tool.Exec.Stages.{Readings, attempt_stage, or_again, retry, run_stage}

abbrev pub Ending : Type 0 → Type 0
Ending W = Result ExecError (Result Text Readings) × W

module _ {W : Type 0} (outside : Outside W) (options : RunOptions) (stage : Stage) where
  -- From a world, with a number of failed attempts behind it, the loop ends so after so many more attempts.
  pub data Tries : ℕ → W → ℕ → Ending W → Type 0 where
    worked :
        {attempt : ℕ} {w w' : W} {found : Readings}
        → attempt_stage outside options stage w ≡ (ok (ok found), w')
        → Tries attempt w 1 (ok (ok found), w')
    broke :
        {attempt : ℕ} {w w' : W} {e : ExecError}
        → attempt_stage outside options stage w ≡ (err e, w')
        → Tries attempt w 1 (err e, w')
    gave_up :
        {attempt : ℕ} {w w' : W} {message : Text}
        → attempt_stage outside options stage w ≡ (ok (err message), w')
        → stage.policy.retry_attempts ≤ attempt
        → Tries attempt w 1 (ok (err message), w')
    again :
        {attempt n : ℕ} {w w1 : W} {message : Text} {ending : Ending W}
        → attempt_stage outside options stage w ≡ (ok (err message), w1)
        → attempt < stage.policy.retry_attempts
        → Tries (suc attempt) (outside.sleep (backoff_for stage.policy (suc attempt)) w1) n ending
        → Tries attempt w (suc n) ending

  last_attempt :
      (attempt : ℕ) (w : W) (ending : Ending W)
      → attempt_stage outside options stage w ≡ ending
      → stage.policy.retry_attempts ≤ attempt
      → Tries attempt w 1 ending
  last_attempt attempt w (ok (ok found), w') e h = worked e
  last_attempt attempt w (ok (err message), w') e h = gave_up e h
  last_attempt attempt w (err why, w') e h = broke e

  attempt_before :
      (attempt bound : ℕ) (w : W) (next : Effect W (Result Text Readings)) (ending : Ending W)
      → attempt_stage outside options stage w ≡ ending
      → attempt < stage.policy.retry_attempts
      → ((w1 : W)
          → (n : ℕ) × Tries
              (suc attempt)
              (outside.sleep (backoff_for stage.policy (suc attempt)) w1)
              n
              (next w1)
            × (n ≤ bound))
      → (n : ℕ) × Tries attempt w n (((λ w0. ending) >>= or_again outside next) w) × (n ≤ suc bound)
  attempt_before attempt bound w next (ok (ok found), w') e h later = (1, worked e, omega arith)
  attempt_before attempt bound w next (ok (err message), w') e h later =
      let (n, tries, small) = later w' in (suc n, again e h tries, omega arith)
  attempt_before attempt bound w next (err why, w') e h later = (1, broke e, omega arith)

  retry-Tries :
      (left attempt : ℕ) (w : W)
      → attempt + left ≡ stage.policy.retry_attempts
      → (n : ℕ) × Tries attempt w n (retry outside left attempt options stage w) × (n ≤ suc left)
  unfolding retry
  retry-Tries zero attempt w e = (
    1,
    last_attempt attempt w (attempt_stage outside options stage w) refl (omega arith),
    omega arith,
  )
  retry-Tries (suc left) attempt w e =
      let slept = outside.sleep (backoff_for stage.policy (suc attempt)) in
      attempt_before attempt (suc left) w
        (change slept >> retry outside left (suc attempt) options stage)
        (attempt_stage outside options stage w) refl (omega arith)
        (λ w1. retry-Tries left (suc attempt) (slept w1) (omega arith))

  -- What an attempt gave decides how the loop goes on.
  carried :
      (left attempt : ℕ) (w : W) {ending : Ending W}
      → attempt_stage outside options stage w ≡ ending
      → ((λ w0. ending)
            >>= or_again outside (
                change (outside.sleep (backoff_for stage.policy (suc attempt)))
                >> retry outside left (suc attempt) options stage))
          w
        ≡ retry outside (suc left) attempt options stage w
  unfolding retry
  carried left attempt w same =
      ap
        (λ ending.
          ((λ w0. ending)
              >>= or_again outside (
                  change (outside.sleep (backoff_for stage.policy (suc attempt)))
                  >> retry outside left (suc attempt) options stage))
            w)
        (sym same)

  -- A stage that failed an attempt too few times is tried again.
  Tries-retry :
      (left attempt n : ℕ) (w : W) (ending : Ending W)
      → attempt + left ≡ stage.policy.retry_attempts
      → Tries attempt w n ending
      → ending ≡ retry outside left attempt options stage w
  unfolding retry
  Tries-retry zero attempt n w ending e (worked same) = sym same
  Tries-retry zero attempt n w ending e (broke same) = sym same
  Tries-retry zero attempt n w ending e (gave_up same h) = sym same
  Tries-retry zero attempt n w ending e (again same h later) = absurd (omega arith)
  Tries-retry (suc left) attempt n w ending e (worked same) = carried left attempt w same
  Tries-retry (suc left) attempt n w ending e (broke same) = carried left attempt w same
  Tries-retry (suc left) attempt n w ending e (gave_up same h) = absurd (omega arith)
  Tries-retry (suc left) attempt n w ending e (again same h later) =
      Tries-retry left (suc attempt) _ _ ending (omega arith) later ∙ carried left attempt w same

  -- A stage is run at most once more than its policy has retries, with the policy's waits between the attempts, until
  -- one works, the session breaks, or no retry is left; and no other ending is possible.
  pub run_stage-Tries :
      (w : W)
      → ((n : ℕ) × Tries 0 w n (run_stage outside options stage w)
          × (n ≤ suc stage.policy.retry_attempts))
        × ((n : ℕ) (ending : Ending W)
            → Tries 0 w n ending
            → ending ≡ run_stage outside options stage w)
  unfolding run_stage
  run_stage-Tries w = (
    retry-Tries stage.policy.retry_attempts 0 w (omega arith),
    λ n ending tries. Tries-retry stage.policy.retry_attempts 0 n w ending (omega arith) tries,
  )
