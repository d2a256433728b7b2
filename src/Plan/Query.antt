-- ===== src/Plan/Query.antt =====
-- crates/duckdb-engine/src/plan/mod.rs: the stages of a plan, and what is asked of it.
pub mod Upto
pub mod Script
mod Tests
use local_etl_tool.Prelude.{
  ℕ, zero, suc, ◌+◌, Bool, true, false, not, ◌&&◌, ◌||◌, Option, none, some, List, [], ◌∷◌, ◌++◌,
  if◌then◌else◌, any, map, length,
}
use local_etl_tool.Prelude.Text.{Text, codes, text_eq}
use local_etl_tool.Prelude.Count.{filter}
use local_etl_tool.Prelude.Sorted.{add_all, add}
use local_etl_tool.Metadata.{JsonValue}
use local_etl_tool.Plan.{StageKind, source, transform, sink, quality, control, Warning}
use local_etl_tool.Plan.Policy.{Materialize, is_materialised, StagePolicy, needs_session}
use local_etl_tool.Plan.Front.{reject_relation}

-- Which side of a pipeline a native step is on.
pub data Direction : Type 0 where
  ingest egress transform_step : Direction

pub record NativeStep : Type 0 where
  pub direction : Direction
  pub properties : JsonValue
  pub staging : Text
  pub checkpoint : Option JsonValue
  pub input : Option Text
  pub feed : Option Text

unfoldable pub is_transform : NativeStep → Bool
is_transform step = elim step.direction [ ingest ↦ false | egress ↦ false | transform_step ↦ true ]

pub record Input : Type 0 where
  pub node_id : Text
  pub source_handle : Option Text
  pub target_handle : Option Text

abbrev pub rejected_port : Text
rejected_port = codes "rejected"

-- Whether an input comes from a dead-letter port.
unfoldable pub from_rejected : Input → Bool
unfolding text_eq
from_rejected i = elim i.source_handle [ none ↦ false | some port ↦ text_eq port rejected_port ]

-- The relation that an input reads.
unfoldable pub relation : Input → Text
unfolding from_rejected reject_relation
relation i = if from_rejected i then reject_relation i.node_id else i.node_id

pub data ControlKind : Type 0 where
  wait log fail branch sequence assert : ControlKind

pub record Control : Type 0 where
  pub kind : ControlKind
  pub probe : Option Text
  pub message : Option Text
  pub wait_ms : Option ℕ

pub record CountProbe : Type 0 where
  pub sql : Text
  pub port : Option Text

unfoldable pub is_rejected : CountProbe → Bool
unfolding text_eq
is_rejected probe = elim probe.port [ none ↦ false | some port ↦ text_eq port rejected_port ]

pub record StageIncremental : Type 0 where
  pub column : Text
  pub since : Option Text
  pub probe : Text

pub record Stage : Type 0 where
  pub node_id : Text
  pub component_id : Text
  pub label : Text
  pub kind : StageKind
  pub splits : Bool
  pub sql : Text
  pub counts : List CountProbe
  pub inputs : List Input
  pub from : Option Text
  pub alias : Option Text
  pub sink_path : Option Text
  pub sink_mode : Option Text
  pub materialize : Materialize
  pub spill_path : Option Text
  pub requires_extensions : List Text
  pub policy : StagePolicy
  pub control : Option Control
  pub incremental : Option StageIncremental
  pub external : Option Text
  pub native : Option NativeStep

unfoldable pub is_sink : StageKind → Bool
is_sink source = false
is_sink transform = false
is_sink sink = true
is_sink quality = false
is_sink control = false

unfoldable pub is_control : StageKind → Bool
is_control source = false
is_control transform = false
is_control sink = false
is_control quality = false
is_control control = true

abbrev pub is_native_transform : Stage → Bool
is_native_transform s = elim s.native [ none ↦ false | some step ↦ is_transform step ]

abbrev pub is_there {ℓ} : {A : Type ℓ} → Option A → Bool
is_there none = false
is_there (some a) = true

unfoldable pub work_happens_here : Stage → Bool
unfolding is_sink is_control is_materialised is_transform
work_happens_here s =
    is_sink s.kind || is_control s.kind || is_materialised s.materialize || is_native_transform s

unfoldable pub stage_needs_session : Stage → Bool
unfolding needs_session is_transform
stage_needs_session s = is_there s.control || needs_session s.policy || is_native_transform s

unfoldable pub reject_relation_name : Stage → Option Text
unfolding reject_relation
reject_relation_name s = if s.splits then some (reject_relation s.node_id) else none

pub record Plan : Type 0 where
  pub format_version : ℕ
  pub stages : List Stage
  pub warnings : List Warning

-- `iter().find` on the ids.
unfoldable pub find_stage : Text → List Stage → Option Stage
unfolding text_eq
find_stage id [] = none
find_stage id (s ∷ ss) = if text_eq s.node_id id then some s else find_stage id ss

unfoldable pub stage : Plan → Text → Option Stage
unfolding find_stage
stage plan id = find_stage id plan.stages

-- `filter_map`.
abbrev pub filter_map {ℓ κ} : {A : Type ℓ} {B : Type κ} → (A → Option B) → List A → List B
filter_map f [] = []
filter_map f (a ∷ rest) = elim (f a) [ none ↦ filter_map f rest | some b ↦ b ∷ filter_map f rest ]

unfoldable pub spills : Plan → List Text
spills plan = filter_map (λ s. s.spill_path) plan.stages

unfoldable pub sinks : Plan → List Stage
unfolding filter is_sink
sinks plan = filter (λ s. is_sink s.kind) plan.stages

abbrev pub flat_map {ℓ κ} : {A : Type ℓ} {B : Type κ} → (A → List B) → List A → List B
flat_map f [] = []
flat_map f (a ∷ rest) = f a ++ flat_map f rest

-- `sort_unstable` and `dedup` of texts: an ascending list, each text once.
unfoldable pub extensions : Plan → List Text
unfolding add
extensions plan = add_all [] (flat_map (λ s. s.requires_extensions) plan.stages)

unfoldable pub stages_needing : Plan → Text → List Stage
unfolding filter text_eq
stages_needing plan extension =
    filter (λ s. any (λ e. text_eq e extension) s.requires_extensions) plan.stages

abbrev pub is_nothing {ℓ} : {A : Type ℓ} → List A → Bool
is_nothing [] = true
is_nothing (a ∷ rest) = false

unfoldable pub has_prelude_probe : Plan → Bool → Bool
unfolding extensions
has_prelude_probe plan counts = counts && not (is_nothing (extensions plan))

unfoldable pub plan_needs_session : Plan → Bool
unfolding stage_needs_session
plan_needs_session plan = any stage_needs_session plan.stages

unfoldable pub session_reasons : Plan → List Text
unfolding filter stage_needs_session
session_reasons plan = map (λ s. s.node_id) (filter stage_needs_session plan.stages)

unfoldable pub order : Plan → List Text
order plan = map (λ s. s.node_id) plan.stages

unfoldable pub count_probes : Plan → List (Stage × CountProbe)
count_probes plan = flat_map (λ s. map (λ probe. (s, probe)) s.counts) plan.stages

unfoldable pub watermark_probes : Plan → List (Stage × StageIncremental)
watermark_probes plan =
    filter_map (λ s. elim s.incremental [ none ↦ none | some state ↦ some (s, state) ]) plan.stages

unfoldable pub is_incremental : Plan → Bool
is_incremental plan = any (λ s. is_there s.incremental) plan.stages

abbrev pub contains_text : Text → List Text → Bool
contains_text id needed = any (text_eq id) needed

-- The inputs of the stage of an id; none where the plan has no such stage.
unfoldable pub inputs_of : List Stage → Text → List Text
unfolding find_stage
inputs_of stages id = elim (find_stage id stages) [
  | none ↦ []
  | some s ↦ map (λ i. i.node_id) s.inputs
]

-- The frontier is a stack: the last that is pushed is its head.
abbrev pub push_all : List Text → List Text → List Text
push_all [] frontier = frontier
push_all (id ∷ ids) frontier = push_all ids (id ∷ frontier)

-- `while let Some(current) = frontier.pop()`, on fuel.
unfoldable pub walk_back : ℕ → List Stage → List Text → List Text → List Text
unfolding text_eq inputs_of
walk_back zero stages needed frontier = needed
walk_back (suc fuel) stages needed [] = needed
walk_back (suc fuel) stages needed (current ∷ frontier) =
    walk_back fuel stages (if contains_text current needed then needed else current ∷ needed) (
      if contains_text current needed
      then frontier
      else push_all (inputs_of stages current) frontier)

-- Each round takes an id from the frontier, which the first id and the inputs of each stage enter once.
abbrev pub pushes : List Stage → ℕ
pushes [] = 0
pushes (s ∷ ss) = length s.inputs + pushes ss

unfoldable pub upto : Plan → Text → Option (List Stage)
unfolding stage walk_back filter text_eq is_sink
upto plan id = elim (stage plan id) [
  | none ↦ none
  | some _ ↦
      let needed = walk_back (suc (pushes plan.stages)) plan.stages [] (id ∷ []) in
      some (
        filter (λ s. not (is_sink s.kind))
          (filter (λ s. contains_text s.node_id needed) plan.stages))
]
