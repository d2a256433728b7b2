-- ===== src/Plan/Query/Tests.antt =====
-- A plan of three stages for crates/duckdb-engine/src/plan/mod.rs.
use local_etl_tool.Prelude.{◌≡◌, ◌↔◌, refl, true, false, not, none, some, List, [], ◌∷◌}
use local_etl_tool.Prelude.Text.{Text, codes, text_eq}
use local_etl_tool.Prelude.Count.{filter}
use local_etl_tool.Plan.{StageKind, source, transform, sink}
use local_etl_tool.Plan.Policy.{auto, default_policy}
use local_etl_tool.Plan.Query.{Input, Stage, Plan, stage, is_sink, contains_text, upto, extensions}
use local_etl_tool.Plan.Query.Script.{script}
use local_etl_tool.Plan.Query.Upto.{Reach, upto-Reach}

abbrev small_stage : Text → StageKind → List Input → Stage
small_stage id kind inputs = record {
  node_id = id;
  component_id = codes "xf.sql";
  label = id;
  kind = kind;
  splits = false;
  sql = codes "SELECT 1;";
  counts = [];
  inputs = inputs;
  from = none;
  alias = none;
  sink_path = none;
  sink_mode = none;
  materialize = auto;
  spill_path = none;
  requires_extensions = codes "json" ∷ [];
  policy = default_policy;
  control = none;
  incremental = none;
  external = none;
  native = none;
}

abbrev from_node_of : Text → Input
from_node_of id = record { node_id = id; source_handle = none; target_handle = none }

abbrev middle : Stage
middle = small_stage (codes "b") transform (from_node_of (codes "a") ∷ [])

abbrev chain : Plan
chain = record {
  format_version = 1;
  stages =
      small_stage (codes "a") source []
      ∷ small_stage (codes "x") source []
      ∷ middle
      ∷ small_stage (codes "c") sink (from_node_of (codes "b") ∷ [])
      ∷ [];
  warnings = [];
}

middle-stage : stage chain (codes "b") ≡ some middle
unfolding stage
middle-stage = refl

-- Neither the source beside it nor the sink behind it.
middle-upto : upto chain (codes "b") ≡ some (small_stage (codes "a") source [] ∷ middle ∷ [])
unfolding upto
middle-upto = refl

chain-extensions : extensions chain ≡ codes "json" ∷ []
unfolding extensions text_eq
chain-extensions = refl

one_script :
    script (record { format_version = 1; stages = middle ∷ []; warnings = [] }) true
    ≡ codes "-- extensions\nLOAD json;\nSELECT 0 AS n;\n\n-- b (xf.sql)\nSELECT 1;\n\n"
unfolding script
one_script = refl

upto-Reach_example :
    (needed : List Text) × ((y : Text)
      → (contains_text y needed ≡ true) ↔ Reach chain.stages (codes "b") y)
    × (upto chain (codes "b")
        ≡ some (
            filter
              (λ t. not (is_sink t.kind))
              (filter (λ t. contains_text t.node_id needed) chain.stages)))
upto-Reach_example = upto-Reach chain (codes "b") middle middle-stage
