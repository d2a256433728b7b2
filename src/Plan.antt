-- ===== src/Plan.antt =====
-- The compiler's vocabulary (crates/duckdb-engine/src/lib.rs and plan/mod.rs): the errors that stop
-- a compilation, the warnings that do not, and an edge between node positions.
pub mod Front
pub mod Order
pub mod Dropped
pub mod Policy
pub mod Query
pub mod Compile
mod Tests
use local_etl_tool.Prelude.{ℕ, Option, List}
use local_etl_tool.Prelude.Text.{Text}

pub data StageKind : Type 0 where
  source transform sink quality control : StageKind

pub data EngineError : Type 0 where
  empty_pipeline : EngineError
  duplicate_node_id : Text → EngineError
  unknown_edge_endpoint : (edge_id node_id : Text) → EngineError
  self_edge : (edge_id node_id : Text) → EngineError
  missing_component_id : Text → EngineError
  unknown_namespace : (id component_id namespace : Text) → EngineError
  cycle : List Text → EngineError
  missing_property : (id component_id property : Text) → EngineError
  invalid_property : (id property reason : Text) → EngineError
  unsupported_component : (id component_id : Text) → EngineError
  raw_install : Text → EngineError
  wrong_input_count : (id component_id : Text) (expected actual : ℕ) → EngineError
  unknown_port : (id component_id port : Text) (known : List Text) → EngineError
  reserved_node_id : (id suffix : Text) → EngineError

pub data Warning : Type 0 where
  disabled_skipped : Text → Warning
  dropped_downstream_of_disabled : (id disabled : Text) → Warning
  orphan : Text → Warning
  unknown_property : (id property : Text) → Warning
  unknown_materialize : (id value : Text) → Warning
  no_sink : Warning
  incremental_ignored : (id component_id : Text) → Warning

pub record ResolvedEdge : Type 0 where
  pub source : ℕ
  pub target : ℕ
  pub source_handle : Option Text
  pub target_handle : Option Text
