-- ===== src/Exec/Driven/Outcomes.antt =====
-- What the outcomes of `run_driven` of crates/duckdb-engine/src/exec.rs say of the stages of the plan.
use mathlib.Core.Path.{subst}
use mathlib.Core.List.{map-append}
use local_etl_tool.Prelude.{
  ◌≡◌, refl, sym, ap, ◌∙◌, inl, inr, Option, none, some, List, [], ◌∷◌, ◌++◌, append_assoc,
  append-nil, map, if◌then◌else◌, Option-cases,
}
use local_etl_tool.Prelude.Text.{Text}
use local_etl_tool.Plan.Query.{Stage, filter_map}
use local_etl_tool.Exec.Around.{Outside}
use local_etl_tool.Exec.{
  RunOptions, failed, upstream_failed, not_taken, is_failure, StageOutcome, StageFailure,
}
use local_etl_tool.Exec.Driven.{
  blocked_by, skipped_outcome, timing, stage_outcome, Progress, nothing_yet, scripted,
  skip_unusable, skip_untaken, broken, completed,
}
use local_etl_tool.Exec.Driven.Upstream.{IsFirstMissing, blocked_by-IsFirstMissing}
use local_etl_tool.Exec.Driven.Steps.{
  Step, upstream_broke, branch_untaken, broke, ran, Steps, all_done, next_stage,
}

-- The id of a stage whose absence is a failure, and of one that failed by itself.
unfoldable pub failed_id : StageOutcome → Option Text
unfolding is_failure
failed_id o = elim o.skipped [
  | none ↦ none
  | some reason ↦ if is_failure reason then some o.node_id else none
]

unfoldable pub broken_id : StageOutcome → Option Text
broken_id o = elim o.skipped [
  | none ↦ none
  | some reason ↦ elim reason [
    | failed ↦ some o.node_id
    | upstream_failed _ ↦ none
    | not_taken _ ↦ none
  ]
]

unfoldable pub failed_ids : List StageOutcome → List Text
unfolding failed_id
failed_ids outcomes = filter_map failed_id outcomes

unfoldable pub broken_ids : List StageOutcome → List Text
unfolding broken_id
broken_ids outcomes = filter_map broken_id outcomes

-- The upstream that a skipped stage names as failed.
unfoldable pub upstream_of : StageOutcome → Option Text
upstream_of o = elim o.skipped [
  | none ↦ none
  | some reason ↦ elim reason [
    | failed ↦ none
    | upstream_failed missing ↦ some missing
    | not_taken _ ↦ none
  ]
]

-- The names that an outcome takes from its stage.
unfoldable pub names_of : StageOutcome → Text × Text × Text
names_of o = (o.node_id, o.label, o.component_id)

unfoldable pub stage_names : Stage → Text × Text × Text
stage_names s = (s.node_id, s.label, s.component_id)

abbrev pub failure_id : StageFailure → Text
failure_id f = f.node_id

filter_map-append :
    {A B : Type 0} (f : A → Option B) (xs : List A) (x : A)
    → filter_map f (xs ++ x ∷ []) ≡ filter_map f xs ++ filter_map f (x ∷ [])
filter_map-append f [] x = refl
filter_map-append f (y ∷ xs) x =
    let rest = filter_map-append f xs x in
    elim (Option-cases (f y)) [
      | inl e ↦ rw (e, filter_map) rest
      | inr (b, e) ↦ rw (e, filter_map) (ap (λ bs. b ∷ bs) rest)
    ]

-- What the loop keeps of its outcomes: which stages nothing can use, and which failed.
pub record Agrees (p : Progress) : Type 0 where
  pub unusable_are : p.unusable ≡ failed_ids p.outcomes
  pub failures_are : map failure_id p.failures ≡ broken_ids p.outcomes

pub nothing_yet-Agrees : (notes : List Text) → Agrees (nothing_yet notes)
unfolding failed_ids broken_ids
nothing_yet-Agrees notes = record { unusable_are = refl; failures_are = refl }

-- The outcome of a stage behind the outcomes of the stages before it.
pub record Explains (stage : Stage) (before : List StageOutcome) (o : StageOutcome) : Type 0 where
  pub names : names_of o ≡ stage_names stage
  pub upstream : IsFirstMissing stage.inputs (failed_ids before) (upstream_of o)

pub record Added (stage : Stage) (p after : Progress) : Type 0 where
  pub outcome : StageOutcome
  pub appended : after.outcomes ≡ p.outcomes ++ outcome ∷ []
  pub explained : Explains stage p.outcomes outcome
  pub agrees : Agrees after

add_outcome :
    (stage : Stage) (p after : Progress) (o : StageOutcome)
    → Agrees p
    → after.outcomes ≡ p.outcomes ++ o ∷ []
    → after.unusable ≡ p.unusable ++ filter_map failed_id (o ∷ [])
    → map failure_id after.failures ≡ map failure_id p.failures ++ filter_map broken_id (o ∷ [])
    → Explains stage p.outcomes o
    → Added stage p after
unfolding failed_ids broken_ids
add_outcome stage p after o agrees appended unusable failures explained = record {
  outcome = o;
  appended = appended;
  explained = explained;
  agrees = record {
    unusable_are =
        unusable
        ∙ ap (λ ids. ids ++ filter_map failed_id (o ∷ [])) agrees.unusable_are
        ∙ sym (filter_map-append failed_id p.outcomes o)
        ∙ ap (filter_map failed_id) (sym appended);
    failures_are =
        failures
        ∙ ap (λ ids. ids ++ filter_map broken_id (o ∷ [])) agrees.failures_are
        ∙ sym (filter_map-append broken_id p.outcomes o)
        ∙ ap (filter_map broken_id) (sym appended);
  };
}

explain :
    (stage : Stage) (p : Progress) (o : StageOutcome)
    → Agrees p
    → names_of o ≡ stage_names stage
    → blocked_by stage.inputs p.unusable ≡ upstream_of o
    → Explains stage p.outcomes o
explain stage p o agrees names blocked = record {
  names = names;
  upstream =
      subst (IsFirstMissing stage.inputs (failed_ids p.outcomes))
        (ap (blocked_by stage.inputs) (sym agrees.unusable_are) ∙ blocked)
        (blocked_by-IsFirstMissing stage.inputs (failed_ids p.outcomes));
}

-- Every step adds one outcome, which says of its stage what the outcomes before it make of it.
Step-Added :
    {W : Type 0} (outside : Outside W) (options : RunOptions) (stage : Stage) (p after : Progress)
    → Agrees p
    → Step outside options stage p after
    → Added stage p after
unfolding scripted skip_unusable skip_untaken skipped_outcome failed_id broken_id is_failure
    upstream_of names_of stage_names broken completed
Step-Added outside options stage p after agrees (upstream_broke {missing = missing} blocked same) =
    let o = skipped_outcome stage (upstream_failed missing) in
    add_outcome stage p after o agrees (ap (λ q. q.outcomes) same) (ap (λ q. q.unusable) same)
      (ap (λ q. map failure_id q.failures) same ∙ sym (append-nil _))
      (explain stage p o agrees refl blocked)
Step-Added outside options stage p after agrees
      (branch_untaken {branch = branch} usable blocked same) =
    let o = skipped_outcome stage (not_taken branch) in
    add_outcome stage p after o agrees (ap (λ q. q.outcomes) same)
      (ap (λ q. q.unusable) same ∙ sym (append-nil _))
      (ap (λ q. map failure_id q.failures) same ∙ sym (append-nil _))
      (explain stage p o agrees refl usable)
Step-Added outside options stage p after agrees
      (broke entered elapsed message usable taken carries e same) =
    let o = record (skipped_outcome stage failed) { elapsed = elapsed } in
    add_outcome stage p after o agrees
      (ap (λ q. q.outcomes) same ∙ ap (λ os. os ++ o ∷ []) e.outcomes_kept)
      (ap (λ q. q.unusable) same ∙ ap (λ ids. ids ++ stage.node_id ∷ []) e.unusable_kept)
      (ap (λ q. map failure_id q.failures) same
        ∙ map-append failure_id entered.failures (_ ∷ [])
        ∙ ap (λ fs. map failure_id fs ++ stage.node_id ∷ []) e.failures_kept)
      (explain stage p o agrees refl usable)
Step-Added outside options stage p after agrees
      (ran entered took readings _ _ _ usable taken e same) =
    let o = record (stage_outcome stage readings.counts) { elapsed = timing stage took } in
    add_outcome stage p after o agrees
      (ap (λ q. q.outcomes) same ∙ ap (λ os. os ++ o ∷ []) e.outcomes_kept)
      (ap (λ q. q.unusable) same ∙ e.unusable_kept ∙ sym (append-nil _))
      (ap (λ q. map failure_id q.failures) same
        ∙ ap (map failure_id) e.failures_kept
        ∙ sym (append-nil _))
      (explain stage p o agrees refl usable)

-- The outcomes of stages, each explained by those before it.
unfoldable pub AllExplained : List StageOutcome → List Stage → List StageOutcome → Type 0
AllExplained before [] [] = Unit
AllExplained before (stage ∷ stages) (o ∷ os) =
    Explains stage before o × AllExplained (before ++ o ∷ []) stages os
AllExplained before [] (o ∷ os) = ⊥
AllExplained before (stage ∷ stages) [] = ⊥

pub Steps-AllExplained :
    {W : Type 0} (outside : Outside W) (options : RunOptions) (stages : List Stage)
    (p after : Progress)
    → Agrees p
    → Steps outside options stages p after
    → Agrees after
      × (os : List StageOutcome) × (after.outcomes ≡ p.outcomes ++ os)
      × AllExplained p.outcomes stages os
unfolding AllExplained
Steps-AllExplained outside options [] p after agrees all_done = (agrees, [], sym (append-nil _), tt)
Steps-AllExplained outside options (stage ∷ stages) p after agrees (next_stage {q = q} step steps) =
    let added = Step-Added outside options stage p q agrees step in
    let (last, os, same, explained) =
      Steps-AllExplained outside options stages q after added.agrees steps in
    (
      last,
      added.outcome ∷ os,
      same ∙ ap (λ xs. xs ++ os) added.appended ∙ append_assoc p.outcomes (added.outcome ∷ []) os,
      (added.explained, rw added.appended at explained),
    )
