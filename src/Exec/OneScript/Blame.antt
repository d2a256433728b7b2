-- ===== src/Exec/OneScript/Blame.antt =====
-- Which stage `attribute_failure` of crates/duckdb-engine/src/exec.rs names.
use local_etl_tool.Prelude.{
  ℕ, zero, suc, ◌+◌, ◌-◌, ◌≤◌, ◌<◌, ◌≡◌, refl, ◌∙◌, true, none, some, List, [], ◌∷◌, ◌++◌, map,
  length, get_elem?, arith,
}
use local_etl_tool.Prelude.Text.{Text}
use local_etl_tool.Plan.Query.{Stage, Plan, CountProbe, count_probes, flat_map}
use local_etl_tool.Exec.{stage_failed, run_failed}
use local_etl_tool.Exec.OneScript.{attribute_failure}

-- The count probes of stages.
unfoldable pub probes_of : List Stage → ℕ
probes_of [] = 0
probes_of (s ∷ stages) = length s.counts + probes_of stages

abbrev owner : Stage × CountProbe → Stage
owner pair = pair.0

abbrev owners : List Stage → List Stage
owners stages = map owner (flat_map (λ s. map (λ probe. (s, probe)) s.counts) stages)

-- Behind the probes of one stage stand those of the stages behind it.
owners-within :
    (s : Stage) (probes : List CountProbe) (rest : List (Stage × CountProbe)) (k : ℕ)
    → k < length probes
    → get_elem? (map owner (map (λ probe. (s, probe)) probes ++ rest)) k ≡ some s
owners-within s [] rest k h = absurd (omega arith)
owners-within s (probe ∷ probes) rest zero h = refl
owners-within s (probe ∷ probes) rest (suc k) h = owners-within s probes rest k (omega arith)

owners-behind :
    (s : Stage) (probes : List CountProbe) (rest : List (Stage × CountProbe)) (k : ℕ)
    → get_elem? (map owner (map (λ probe. (s, probe)) probes ++ rest)) (length probes + k)
      ≡ get_elem? (map owner rest) k
owners-behind s [] rest k = let same : 0 + k ≡ k = omega arith in rw same refl
owners-behind s (probe ∷ probes) rest k =
    let same : suc (length probes) + k ≡ suc (length probes + k) = omega arith in
    rw same (owners-behind s probes rest k)

owner_at :
    (before : List Stage) (s : Stage) (after : List Stage) (k : ℕ)
    → k < length s.counts
    → get_elem? (owners (before ++ s ∷ after)) (probes_of before + k) ≡ some s
unfolding probes_of
owner_at [] s after k h =
    let same : 0 + k ≡ k = omega arith in rw same (owners-within s s.counts _ k h)
owner_at (b ∷ before) s after k h =
    let same : length b.counts + probes_of before + k ≡ length b.counts + (probes_of before + k) =
      omega arith in
    rw same (owners-behind b b.counts _ (probes_of before + k) ∙ owner_at before s after k h)

owner_beyond :
    (stages : List Stage) (k : ℕ) → get_elem? (owners stages) (probes_of stages + k) ≡ none
unfolding probes_of
owner_beyond [] k = refl
owner_beyond (b ∷ stages) k =
    let same : length b.counts + probes_of stages + k ≡ length b.counts + (probes_of stages + k) =
      omega arith in
    rw same (owners-behind b b.counts _ (probes_of stages + k) ∙ owner_beyond stages k)

-- With counts on, a failure is put down to a stage where the counts that arrived cover all the probes of the stages
-- before it and not all of its own; where they cover every probe of the plan, to no stage.
pub attribute_failure_lem :
    (plan : Plan) (counts : List ℕ) (message : Text)
    → ((before : List Stage) (s : Stage) (after : List Stage)
        → plan.stages ≡ before ++ s ∷ after
        → probes_of before ≤ length counts
        → length counts < probes_of before + length s.counts
        → attribute_failure plan true counts message ≡ stage_failed s.node_id s.label message)
      × (probes_of plan.stages ≤ length counts
          → attribute_failure plan true counts message ≡ run_failed message)
unfolding attribute_failure count_probes
attribute_failure_lem plan counts message = (
  (λ before s after e low high.
      let k = length counts - probes_of before in
      let split : probes_of before + k ≡ length counts = omega arith in
      let found = owner_at before s after k (omega arith) in
      let here : get_elem? (owners plan.stages) (length counts) ≡ some s =
        rw e (rw split at found) in
      rw (here, attribute_failure) refl),
  (λ high.
      let k = length counts - probes_of plan.stages in
      let split : probes_of plan.stages + k ≡ length counts = omega arith in
      let found = owner_beyond plan.stages k in
      let here = rw split at found in rw (here, attribute_failure) refl),
)
