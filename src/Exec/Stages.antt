-- ===== src/Exec/Stages.antt =====
-- Running one stage, `run_stage` of crates/duckdb-engine/src/exec.rs: its statement, the probes that say whether it
-- worked, and its retries.
pub mod Retries
pub mod Probes
use local_etl_tool.Prelude.{
  ℕ, zero, suc, ◌+◌, Bool, true, false, Option, none, some, List, [], ◌∷◌, ◌++◌, if◌then◌else◌,
  Result, ok, err,
}
use local_etl_tool.Prelude.Text.{Text, codes, trim}
use local_etl_tool.Prelude.Decimal.{shown}
use local_etl_tool.Metadata.{JsonValue, null, string}
use local_etl_tool.Session.{SessionError, Answer, message_of, has_message, is_empty}
use local_etl_tool.Plan.Policy.{backoff_for}
use local_etl_tool.Plan.Query.{Stage, CountProbe, is_there}
use local_etl_tool.Exec.{RunOptions}
use local_etl_tool.Exec.Answers
use local_etl_tool.Exec.Answers.{first_of, count_in, get}
use local_etl_tool.Exec.Around.{Outside, Effect, pure, always, in_session, change, ◌>>=◌, ◌>>◌}

-- What one stage's probes reported.
pub record Readings : Type 0 where
  pub counts : List ℕ
  pub watermark : Option Text

-- The message of an answer, or a text where there is none.
abbrev pub said_or : Answer → Text → Text
said_or answer otherwise =
    let said = trim answer.stderr in if is_empty said then otherwise else said

abbrev pub map_error : {A : Type 0} → (Text → Text) → Result Text A → Result Text A
map_error f (ok a) = ok a
map_error f (err e) = err (f e)

module _ {W : Type 0} (outside : Outside W) where
  -- One probe of a stage.
  unfoldable pub probe_count : Text → Text → W → Result Text ℕ × W
  unfolding first_of count_in message_of is_empty trim
  probe_count label sql w =
      let (result, after) = outside.execute sql w in
      elim result [
        | err why ↦ (err (message_of why), after)
        | ok answer ↦ elim (Answers.◌>>=◌ (first_of answer.values) count_in) [
          | some count ↦ (ok count, after)
          | none ↦ (err (said_or answer (label ++ codes " produced no rows to count")), after)
        ]
      ]

  -- The loop of `collect_counts`.
  unfoldable pub probe_all : Text → List CountProbe → List ℕ → W → Result Text (List ℕ) × W
  unfolding probe_count
  probe_all label [] counts w = (ok counts, w)
  probe_all label (probe ∷ probes) counts w =
      let (result, after) = probe_count label probe.sql w in
      elim result [
        | err why ↦ (err why, after)
        | ok count ↦ probe_all label probes (counts ++ count ∷ []) after
      ]

  unfoldable pub collect_counts : RunOptions → Stage → W → Result Text (List ℕ) × W
  unfolding probe_all
  collect_counts options stage w =
      if options.counts then probe_all stage.label stage.counts [] w else (ok [], w)

  -- What an answer to a watermark probe says. `get` looks into the first value itself.
  unfoldable pub mark_in : Answer → Result Text (Option Text)
  unfolding first_of is_empty trim get
  mark_in answer =
      let nothing_loaded =
        (let said = trim answer.stderr in if is_empty said then ok none else err said) in
      elim (Answers.◌>>=◌ (first_of answer.values) (get (codes "w"))) [
        | none ↦ nothing_loaded
        | some cell ↦ elim cell [
          | null ↦ nothing_loaded
          | string text ↦ ok (some text)
          | other ↦ ok (some (outside.print other))
        ]
      ]

  unfoldable pub collect_watermark : Stage → W → Result Text (Option Text) × W
  unfolding mark_in message_of
  collect_watermark stage w = elim stage.incremental [
    | none ↦ (ok none, w)
    | some state ↦
        let (result, after) = outside.execute state.probe w in
        elim result [
          | err why ↦ (err (message_of why), after)
          | ok answer ↦ (mark_in answer, after)
        ]
  ]

  -- The counts, or why there are none: the statement's own message goes before a probe's.
  unfoldable pub verdict : RunOptions → Stage → Answer → W → Result Text (List ℕ) × W
  unfolding collect_counts is_empty trim has_message
  verdict options stage answer w =
      let said = trim answer.stderr in
      let (counted, after) = collect_counts options stage w in
      if options.counts
      then (map_error (λ from_probe. if is_empty said then from_probe else said) counted, after)
      else if has_message answer
      then (err said, w)
      else (ok [], w)

  -- The watermark is read only behind counts.
  unfoldable pub readings : RunOptions → Stage → Answer → W → Result Text Readings × W
  unfolding verdict collect_watermark
  readings options stage answer w =
      let (counted, w1) = verdict options stage answer w in
      elim counted [
        | err why ↦ (err why, w1)
        | ok counts ↦
            let (marked, w2) = collect_watermark stage w1 in
            elim marked [
              | err why ↦ (err why, w2)
              | ok watermark ↦ (ok (record { counts = counts; watermark = watermark }), w2)
            ]
      ]

  -- A statement whose answer is not looked at.
  unfoldable pub send : Text → Effect W (Unit {0})
  send sql = in_session (outside.execute sql) >> pure tt

  unfoldable pub set_limit : Option ℕ → Effect W (Unit {0})
  unfolding send shown
  set_limit none = pure tt
  set_limit (some limit) = send (codes "SET memory_limit='" ++ shown limit ++ codes "MB';")

  unfoldable pub reset_limit : Option ℕ → Effect W (Unit {0})
  unfolding send
  reset_limit none = pure tt
  reset_limit (some limit) = send (codes "RESET memory_limit;")

  -- One attempt at one stage.
  unfoldable pub attempt_stage : RunOptions → Stage → Effect W (Result Text Readings)
  unfolding set_limit reset_limit readings
  attempt_stage options stage = do
    set_limit stage.policy.memory_limit_mb
    answer ← in_session (outside.execute stage.sql)
    result ← always (readings options stage answer)
    reset_limit stage.policy.memory_limit_mb
    pure result

  -- What follows an attempt: nothing where it worked.
  abbrev pub or_again :
      Effect W (Result Text Readings) → Result Text Readings → Effect W (Result Text Readings)
  or_again next (ok found) = pure (ok found)
  or_again next (err message) = next

  -- The loop of `run_stage` behind a number of failed attempts; `left` counts the retries that remain, so none is left
  -- when `attempt >= retry_attempts`.
  unfoldable pub retry : ℕ → ℕ → RunOptions → Stage → Effect W (Result Text Readings)
  unfolding attempt_stage backoff_for
  retry zero attempt options stage = attempt_stage options stage
  retry (suc left) attempt options stage = do
    outcome ← attempt_stage options stage
    or_again
        (change (outside.sleep (backoff_for stage.policy (suc attempt)))
          >> retry left (suc attempt) options stage)
        outcome

  unfoldable pub run_stage : RunOptions → Stage → Effect W (Result Text Readings)
  unfolding retry
  run_stage options stage = retry stage.policy.retry_attempts 0 options stage
