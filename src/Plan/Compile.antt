-- ===== src/Plan/Compile.antt =====
-- `compile_with` of crates/duckdb-engine/src/plan/mod.rs up to the lowering of the stages: the checks,
-- the edges, what is dropped, and the order.
pub mod Sound
use local_etl_tool.Prelude.{
  ℕ, ◌≡◌, ◌↔◌, Bool, true, false, List, [], ◌∷◌, map, Result, ok, err, ◌>>=◌, ◌>>◌, if◌then◌else◌,
  length, get_or, Result-cases, inl, inr, ◌<◌, All,
}
use local_etl_tool.Prelude.Text.{Text}
use local_etl_tool.Metadata.{PipelineDoc, PipelineNode}
use local_etl_tool.Plan.{EngineError, empty_pipeline, Warning, ResolvedEdge, StageKind}
use local_etl_tool.Plan.Front.{reserve_suffix, build_index, classify, resolve_edges}
use local_etl_tool.Plan.Dropped.{drop_disabled}
use local_etl_tool.Plan.Order.{topological_order, kept, live_edges}

-- What the stages are built from.
pub record Compiled : Type 0 where
  pub kinds : List StageKind
  pub edges : List ResolvedEdge
  pub dropped : List Bool
  pub order : List ℕ
  pub warnings : List Warning

ordered : PipelineDoc → List StageKind → List ResolvedEdge → Result EngineError Compiled
ordered doc kinds edges =
    let (dropped, warnings) = drop_disabled doc.nodes edges [] in
    do
      order ← topological_order (map (λ n. n.id) doc.nodes) edges dropped
      ok (record {
        kinds = kinds;
        edges = edges;
        dropped = dropped;
        order = order;
        warnings = warnings;
      })

checked : PipelineDoc → Result EngineError Compiled
unfolding ordered
checked doc = do
  _ ← reserve_suffix doc.nodes
  index ← build_index doc.nodes
  kinds ← classify doc.nodes
  edges ← resolve_edges doc.edges index
  ordered doc kinds edges

unfoldable pub compile_with : PipelineDoc → Result EngineError Compiled
unfolding checked
compile_with doc = elim doc.nodes [ [] ↦ err empty_pipeline | _ ∷ _ ↦ checked doc ]
