-- ===== src/Plan/Front.antt =====
-- The front of `compile_with` in crates/duckdb-engine/src/plan/mod.rs: the reserved suffix, the index
-- of node ids, the classification of components, and the edges resolved to positions.
pub mod Index
pub mod Edges
use local_etl_tool.Prelude.{
  ℕ, zero, suc, ◌+◌, Bool, true, false, Option, none, some, List, [], ◌∷◌, ◌++◌, map, Result, ok,
  err, ◌>>=◌, ◌==◌, if◌then◌else◌,
}
use local_etl_tool.Prelude.Text.{Text, codes, text_eq}
use local_etl_tool.Metadata.{PipelineNode, PipelineEdge, PipelineDoc}
use local_etl_tool.Plan.{
  StageKind, source, transform, sink, quality, control, EngineError, duplicate_node_id,
  unknown_edge_endpoint, self_edge, missing_component_id, unknown_namespace, reserved_node_id,
  ResolvedEdge,
}

-- The text before the first `.`: `split('.').next()`.
unfoldable pub before_dot : Text → Text
before_dot [] = []
before_dot (c ∷ s) = if c == b'.' then [] else c ∷ before_dot s

unfoldable pub from_component_id : Text → Text → Result EngineError StageKind
unfolding before_dot text_eq
from_component_id node_id component_id =
    let namespace = before_dot component_id in
    if text_eq namespace (codes "src")
    then ok source
    else if text_eq namespace (codes "xf")
    then ok transform
    else if text_eq namespace (codes "code")
    then ok transform
    else if text_eq namespace (codes "snk")
    then ok sink
    else if text_eq namespace (codes "qa")
    then ok quality
    else if text_eq namespace (codes "ctl")
    then ok control
    else err (unknown_namespace node_id component_id namespace)

unfoldable pub produces_relation : StageKind → Bool
produces_relation sink = false
produces_relation _ = true

abbrev pub reject_suffix : Text
reject_suffix = codes "__rejected"

unfoldable pub reject_relation : Text → Text
reject_relation node_id = node_id ++ reject_suffix

-- `ends_with`: one of the suffixes of the text is the given one.
unfoldable pub ends_with : Text → Text → Bool
ends_with [] suffix = text_eq [] suffix
ends_with (c ∷ s) suffix = if text_eq (c ∷ s) suffix then true else ends_with s suffix

unfoldable pub reserve_suffix : List PipelineNode → Result EngineError (Unit {0})
unfolding ends_with text_eq
reserve_suffix [] = ok tt
reserve_suffix (n ∷ ns) =
    if ends_with n.id reject_suffix
    then err (reserved_node_id n.id reject_suffix)
    else reserve_suffix ns

-- The map from node ids to positions.
abbrev pub Index : Type 0
Index = List (Text × ℕ)

unfoldable pub get : Index → Text → Option ℕ
get [] k = none
get ((j, p) ∷ m) k = if text_eq j k then some p else get m k

-- `insert` returns the position that was there before, which ends the loop.
index_from : ℕ → List PipelineNode → Index → Result EngineError Index
index_from position [] index = ok index
index_from position (n ∷ ns) index =
    let rest = index_from (position + 1) ns ((n.id, position) ∷ index) in
    elim (get index n.id) [ none ↦ rest | some _ ↦ err (duplicate_node_id n.id) ]

unfoldable pub build_index : List PipelineNode → Result EngineError Index
unfolding index_from get text_eq
build_index nodes = index_from 0 nodes []

classify_node : PipelineNode → Result EngineError StageKind
classify_node n = elim n.node_data.component_id [
  | none ↦ err (missing_component_id n.id)
  | some component_id ↦ from_component_id n.id component_id
]

unfoldable pub classify : List PipelineNode → Result EngineError (List StageKind)
unfolding classify_node from_component_id
classify [] = ok []
classify (n ∷ ns) = do kind ← classify_node n; kinds ← classify ns; ok (kind ∷ kinds)

endpoint : Index → Text → Text → Result EngineError ℕ
endpoint index edge_id node_id = elim (get index node_id) [
  | none ↦ err (unknown_edge_endpoint edge_id node_id)
  | some p ↦ ok p
]

-- An edge from a node to itself is refused.
joined : PipelineEdge → ℕ → ℕ → Result EngineError ResolvedEdge
joined e from to =
    if from == to
    then err (self_edge e.id e.source)
    else ok (record {
      source = from;
      target = to;
      source_handle = e.source_handle;
      target_handle = e.target_handle;
    })

resolve_edge : Index → PipelineEdge → Result EngineError ResolvedEdge
unfolding endpoint get text_eq joined
resolve_edge index e = do
  from ← endpoint index e.id e.source
  to ← endpoint index e.id e.target
  joined e from to

unfoldable pub resolve_edges : List PipelineEdge → Index → Result EngineError (List ResolvedEdge)
unfolding resolve_edge
resolve_edges [] index = ok []
resolve_edges (e ∷ es) index = do r ← resolve_edge index e; rs ← resolve_edges es index; ok (r ∷ rs)
