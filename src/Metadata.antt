-- ===== src/Metadata.antt =====
-- The pipeline document of crates/metadata/src/lib.rs: nodes, edges, policies and the document.
-- Canvas coordinates are floats that nothing here reads, and are left out of a node; column lists
-- and sample rows, which the compiler carries untouched, are left out too.
use local_etl_tool.Prelude.{ℕ, Bool, false, not, Option, none, some, List, [], ◌∷◌, if◌then◌else◌}
use local_etl_tool.Prelude.Text.{Text, text_eq}
use local_etl_tool.Prelude.Count.{filter}

-- A JSON value; a number is kept as its printed form.
mutual
  pub data JsonValue : Type 0 where
    null : JsonValue
    boolean : Bool → JsonValue
    number : Text → JsonValue
    string : Text → JsonValue
    array : Items → JsonValue
    object : Fields → JsonValue

  pub data Items : Type 0 where
    no_items : Items
    item : JsonValue → Items → Items

  pub data Fields : Type 0 where
    no_fields : Fields
    field : Text → JsonValue → Fields → Fields

abbrev pub Extra : Type 0
Extra = List (Text × JsonValue)

pub data DataType : Type 0 where
  string int32 int64 float32 float64 bool date timestamp time decimal json binary geometry :
      DataType

pub record Incremental : Type 0 where
  pub column : Text
  pub start : Option Text
  pub extra : Extra

pub record NodePolicy : Type 0 where
  pub retry_attempts : Option ℕ
  pub retry_backoff_ms : Option ℕ
  pub continue_on_failure : Option Bool
  pub memory_limit_mb : Option ℕ

pub record NodeData : Type 0 where
  pub label : Text
  pub subtitle : Option Text
  pub component_id : Option Text
  pub properties : Option JsonValue
  pub disabled : Option Bool
  pub materialize : Option Text
  pub alias : Option Text
  pub policy : Option NodePolicy
  pub incremental : Option Incremental
  pub extra : Extra

unfoldable pub is_disabled : NodeData → Bool
is_disabled d = elim d.disabled [ none ↦ false | some b ↦ b ]

unfoldable pub properties_or_null : NodeData → JsonValue
properties_or_null d = elim d.properties [ none ↦ null | some p ↦ p ]

pub record PipelineNode : Type 0 where
  pub id : Text
  pub flow_type : Option Text
  pub node_data : NodeData
  pub extra : Extra

pub record PipelineEdge : Type 0 where
  pub id : Text
  pub source : Text
  pub target : Text
  pub source_handle : Option Text
  pub target_handle : Option Text
  pub edge_type : Option Text
  pub extra : Extra

pub record ParameterSpec : Type 0 where
  pub param_type : Option Text
  pub required : Option Bool
  pub default : Option JsonValue
  pub description : Option Text
  pub extra : Extra

pub record PipelineDoc : Type 0 where
  pub format_version : ℕ
  pub name : Option Text
  pub nodes : List PipelineNode
  pub edges : List PipelineEdge
  pub resource_pool : Text
  pub parameters : List (Text × ParameterSpec)
  pub extra : Extra

-- `iter().find` on the ids.
find_node : Text → List PipelineNode → Option PipelineNode
find_node i [] = none
find_node i (n ∷ ns) = if text_eq n.id i then some n else find_node i ns

unfoldable pub node : PipelineDoc → Text → Option PipelineNode
unfolding find_node
node doc i = find_node i doc.nodes

unfoldable pub enabled_nodes : PipelineDoc → List PipelineNode
enabled_nodes doc = filter (λ n. not (is_disabled n.node_data)) doc.nodes
