-- ===== src/Exec/Stages/Probes.antt =====
-- What the probes of crates/duckdb-engine/src/exec.rs read.
use local_etl_tool.Prelude.{
  ℕ, ◌+◌, ◌≡◌, refl, ap, inl, inr, Bool, true, false, Option, none, List, [], ◌∷◌, ◌++◌, Result, ok,
  err, arith, length, length-append, Option-cases, if◌then◌else◌, All,
}
use local_etl_tool.Prelude.Text.{Text, trim}
use local_etl_tool.Metadata.{JsonValue, Items, array}
use local_etl_tool.Session.{SessionError, Answer, message_of, is_empty}
use local_etl_tool.Plan.Query.{Stage, CountProbe}
use local_etl_tool.Exec.{RunOptions}
use local_etl_tool.Exec.Answers.{get, first_of}
use local_etl_tool.Exec.Around.{Outside, chain-ok}
use local_etl_tool.Exec.Stages.{probe_count, probe_all, collect_counts, mark_in, collect_watermark}

module _ {W : Type 0} (outside : Outside W) where
  probe_all-length :
      (label : Text) (probes : List CountProbe) (counts found : List ℕ) (w w' : W)
      → probe_all outside label probes counts w ≡ (ok found, w')
      → length found ≡ length counts + length probes
  unfolding probe_all
  probe_all-length label [] counts found w w' h =
      let same : counts ≡ found = cc in rw same (omega arith)
  probe_all-length label (probe ∷ probes) counts found w w' h =
      let (count, w1, first, rest) =
        chain-ok (λ count. probe_all outside label probes (counts ++ count ∷ []))
          (probe_count outside label probe.sql w) w' h in
      let ih = probe_all-length label probes (counts ++ count ∷ []) found w1 w' rest in
      omega (arith, ih, length-append counts (count ∷ []))

  -- Counts that are collected are one for each probe of the stage, or none where a run collects none.
  pub collect_counts-length :
      (options : RunOptions) (stage : Stage) (found : List ℕ) (w w' : W)
      → collect_counts outside options stage w ≡ (ok found, w')
      → length found ≡ (if options.counts then length stage.counts else 0)
  unfolding collect_counts
  collect_counts-length options stage found w w' h = counted options.counts h
    where
      counted :
          (collects : Bool)
          → (if collects then probe_all outside stage.label stage.counts [] w else (ok [], w))
            ≡ (ok found, w')
          → length found ≡ (if collects then length stage.counts else 0)
      counted true h = omega (arith, probe_all-length stage.label stage.counts [] found w w' h)
      counted false h = let same : [] ≡ found = cc in rw (← same) refl

  -- Every value that a statement prints is the array of its rows, as the session says of its answers.
  pub record PrintsArrays : Type 0 where
    pub arrays :
        (sql : Text) (w w' : W) (answer : Answer)
        → outside.execute sql w ≡ (ok answer, w')
        → All (λ value. (rows : Items) × (value ≡ array rows)) answer.values

  mark_in-arrays :
      (answer : Answer) (found : Option Text)
      → All (λ value. (rows : Items) × (value ≡ array rows)) answer.values
      → mark_in outside answer ≡ ok found
      → found ≡ none
  unfolding mark_in get first_of
  mark_in-arrays answer found h e = from_values answer.values answer.stderr h e
    where
      nothing_loaded :
          (quiet : Bool) (said : Text)
          → (if quiet then ok none else err said) ≡ ok found
          → found ≡ none
      nothing_loaded true said e = cc
      nothing_loaded false said e = cc

      from_values :
          (values : List JsonValue) (stderr : Text)
          → All (λ value. (rows : Items) × (value ≡ array rows)) values
          → mark_in outside (record { values = values; stderr = stderr }) ≡ ok found
          → found ≡ none
      from_values [] stderr h e = nothing_loaded (is_empty (trim stderr)) (trim stderr) e
      from_values (value ∷ values) stderr ((rows, same), h) e =
          nothing_loaded (is_empty (trim stderr)) (trim stderr) (rw (same, mark_in) at e)

  -- Where every value that a statement prints is an array of rows, no watermark is read in a session.
  pub collect_watermark-none :
      PrintsArrays
      → (stage : Stage) (w w' : W) (found : Option Text)
      → collect_watermark outside stage w ≡ (ok found, w')
      → found ≡ none
  unfolding collect_watermark
  collect_watermark-none prints stage w w' found h = elim (Option-cases stage.incremental) [
    | inl e ↦ let here = rw (e, collect_watermark) at h in nothing_to_read here
    | inr (state, e) ↦
        let here = rw (e, collect_watermark) at h in
        answered state.probe (outside.execute state.probe w) refl here
  ]
    where
      nothing_to_read :
          ◌≡◌ {A = Result Text (Option Text) × W} (ok none, w) (ok found, w') → found ≡ none
      nothing_to_read e = cc

      answered :
          (sql : Text) (step : Result SessionError Answer × W)
          → outside.execute sql w ≡ step
          → ◌≡◌ {A = Result Text (Option Text) × W}
              (elim step.0 [
                | err why ↦ (err (message_of why), step.1)
                | ok answer ↦ (mark_in outside answer, step.1)
              ])
              (ok found, w')
          → found ≡ none
      answered sql (ok answer, w1) e h =
          mark_in-arrays answer found (prints.arrays sql w w1 answer e) (ap (λ x. x.0) h)
      answered sql (err why, w1) e h = cc
