-- ===== src/Plan/Tests.antt =====
-- Concrete documents for the compiler of crates/duckdb-engine/src/plan/mod.rs.
use local_etl_tool.Prelude.{
  ℕ, ◌≡◌, ◌≢◌, ◌↔◌, refl, Bool, true, false, Option, none, some, List, [], ◌∷◌, map, ok, err,
  if◌then◌else◌, get_or, ◌+◌, ◌*◌, ◌<◌, ◌≤◌, All, arith,
}
use local_etl_tool.Prelude.Text.{Text, codes}
use local_etl_tool.Prelude.Count.{count, filter}
use local_etl_tool.Metadata.{PipelineNode, PipelineEdge, PipelineDoc}
use local_etl_tool.Plan.{
  cycle, ResolvedEdge, disabled_skipped, dropped_downstream_of_disabled, source, transform, sink,
}
use local_etl_tool.Plan.Front.{Index, reserve_suffix, build_index, classify, resolve_edges}
use local_etl_tool.Plan.Front.Index.{ids_of}
use local_etl_tool.Plan.Front.Edges.{AllResolved, resolve_edges-AllResolved}
use local_etl_tool.Plan.Dropped.{drop_disabled}
use local_etl_tool.Plan.Dropped.Cascade.{Depends}
use local_etl_tool.Plan.Dropped.Exact.{drop_disabled_iff}
use local_etl_tool.Plan.Order.{topological_order, kept, live_edges}
use local_etl_tool.Plan.Order.Loop.{IsSchedule}
use local_etl_tool.Plan.Order.Schedule.{
  topological_order-IsSchedule, topological_order-cycle, topological_order_total, IsBlocked,
  HasNoLoop, IsRanked,
}
use local_etl_tool.Plan.Compile.{Compiled, compile_with}
use local_etl_tool.Plan.Compile.Sound.{IsCompiled, compile_with-IsCompiled}
use local_etl_tool.Plan.Policy.{StagePolicy, backoff_for, saturate, backoff_for_doubles}

abbrev plain_node : Text → Text → Option Bool → PipelineNode
plain_node id component switched = record {
  id = id;
  flow_type = none;
  node_data = record {
    label = id;
    subtitle = none;
    component_id = some component;
    properties = none;
    disabled = switched;
    materialize = none;
    alias = none;
    policy = none;
    incremental = none;
    extra = [];
  };
  extra = [];
}

abbrev plain_edge : Text → Text → Text → PipelineEdge
plain_edge id from to = record {
  id = id;
  source = from;
  target = to;
  source_handle = none;
  target_handle = none;
  edge_type = none;
  extra = [];
}

-- A sink before the nodes that it reads from, and a switched-off source with a sink behind it.
abbrev sample_nodes : List PipelineNode
sample_nodes =
    plain_node (codes "out") (codes "snk.parquet") none
    ∷ plain_node (codes "in") (codes "src.csv") none
    ∷ plain_node (codes "clean") (codes "xf.filter") (some false)
    ∷ plain_node (codes "off") (codes "src.csv") (some true)
    ∷ plain_node (codes "late") (codes "snk.csv") none
    ∷ []

abbrev sample_doc : PipelineDoc
sample_doc = record {
  format_version = 1;
  name = none;
  nodes = sample_nodes;
  edges =
      plain_edge (codes "1") (codes "in") (codes "clean")
      ∷ plain_edge (codes "2") (codes "clean") (codes "out")
      ∷ plain_edge (codes "3") (codes "off") (codes "late")
      ∷ [];
  resource_pool = [];
  parameters = [];
  extra = [];
}

abbrev join : ℕ → ℕ → ResolvedEdge
join from to = record { source = from; target = to; source_handle = none; target_handle = none }

abbrev sample_edges : List ResolvedEdge
sample_edges = join 1 2 ∷ join 2 0 ∷ join 3 4 ∷ []

abbrev sample_dropped : List Bool
sample_dropped = false ∷ false ∷ false ∷ true ∷ true ∷ []

abbrev sample_compiled : Compiled
sample_compiled = record {
  kinds = sink ∷ source ∷ transform ∷ source ∷ sink ∷ [];
  edges = sample_edges;
  dropped = sample_dropped;
  order = 1 ∷ 2 ∷ 0 ∷ [];
  warnings =
      disabled_skipped (codes "off")
      ∷ dropped_downstream_of_disabled (codes "late") (codes "off")
      ∷ [];
}

sample_compiles : compile_with sample_doc ≡ ok sample_compiled
unfolding compile_with reserve_suffix build_index classify resolve_edges topological_order
    drop_disabled
sample_compiles = refl

abbrev sample_index : Index
sample_index =
    (codes "late", 4)
    ∷ (codes "off", 3)
    ∷ (codes "clean", 2)
    ∷ (codes "in", 1)
    ∷ (codes "out", 0)
    ∷ []

sample_indexed : build_index sample_nodes ≡ ok sample_index
unfolding build_index
sample_indexed = refl

sample_resolved : resolve_edges sample_doc.edges sample_index ≡ ok sample_edges
unfolding resolve_edges
sample_resolved = refl

sample_ordered :
    topological_order (ids_of sample_nodes) sample_edges sample_dropped ≡ ok (1 ∷ 2 ∷ 0 ∷ [])
unfolding topological_order
sample_ordered = refl

-- Two nodes that wait for one another, and one behind them that is on no cycle and is named all the same.
abbrev loop_edges : List ResolvedEdge
loop_edges = join 0 1 ∷ join 1 2 ∷ join 2 1 ∷ join 2 3 ∷ []

abbrev loop_ids : List Text
loop_ids = codes "a" ∷ codes "b" ∷ codes "c" ∷ codes "d" ∷ []

abbrev all_kept : List Bool
all_kept = false ∷ false ∷ false ∷ false ∷ []

loop_refused :
    topological_order loop_ids loop_edges all_kept
    ≡ err (cycle (codes "b" ∷ codes "c" ∷ codes "d" ∷ []))
unfolding topological_order
loop_refused = refl

sample_ends : All (λ e. (e.source < 5) × (e.target < 5)) sample_edges
sample_ends =
    ((omega arith, omega arith), ((omega arith, omega arith), ((omega arith, omega arith), tt)))

loop_ends : All (λ e. (e.source < 4) × (e.target < 4)) loop_edges
loop_ends = (
  (omega arith, omega arith),
  ((omega arith, omega arith), ((omega arith, omega arith), ((omega arith, omega arith), tt))),
)

loop-HasNoLoop : HasNoLoop (live_edges loop_edges all_kept)
unfolding live_edges filter
loop-HasNoLoop =
    ((λ e. omega arith), ((λ e. omega arith), ((λ e. omega arith), ((λ e. omega arith), tt))))

compile_with-IsCompiled_example : IsCompiled sample_doc sample_compiled
compile_with-IsCompiled_example = compile_with-IsCompiled sample_doc sample_compiled sample_compiles

topological_order-IsSchedule_example :
    ((v : ℕ) → v < 5 → count v (1 ∷ 2 ∷ 0 ∷ []) ≡ (if kept sample_dropped v then 1 else 0))
    × IsSchedule 5
        (kept sample_dropped)
        (live_edges sample_edges sample_dropped)
        []
        (1 ∷ 2 ∷ 0 ∷ [])
topological_order-IsSchedule_example =
    topological_order-IsSchedule (ids_of sample_nodes) sample_edges sample_dropped (1 ∷ 2 ∷ 0 ∷ [])
      sample_ends sample_ordered

topological_order-cycle_example :
    (stuck order : List ℕ) × (cycle (codes "b" ∷ codes "c" ∷ codes "d" ∷ [])
      ≡ cycle (map (λ p. get_or loop_ids p []) stuck))
    × (stuck ≢ [])
    × ((v : ℕ) → v < 4 → count v order + count v stuck ≡ (if kept all_kept v then 1 else 0))
    × IsSchedule 4 (kept all_kept) (live_edges loop_edges all_kept) [] order
    × ((v : ℕ) → 0 < count v stuck → IsBlocked 4 all_kept loop_edges stuck v)
topological_order-cycle_example =
    topological_order-cycle loop_ids loop_edges all_kept
      (cycle (codes "b" ∷ codes "c" ∷ codes "d" ∷ [])) loop_ends loop-HasNoLoop loop_refused

abbrev all_on : List Bool
all_on = false ∷ all_kept

abbrev sample_rank : ℕ → ℕ
sample_rank p = get_or (2 ∷ 0 ∷ 1 ∷ 0 ∷ 1 ∷ []) p 0

sample-IsRanked : IsRanked sample_rank (live_edges sample_edges all_on)
unfolding live_edges filter
sample-IsRanked = (omega arith, (omega arith, (omega arith, tt)))

topological_order_total_example :
    (order : List ℕ) × (topological_order (ids_of sample_nodes) sample_edges all_on ≡ ok order)
topological_order_total_example =
    topological_order_total (ids_of sample_nodes) sample_edges all_on sample_rank sample_ends
      sample-IsRanked

drop_disabled_iff_example :
    (get_or (drop_disabled sample_nodes sample_edges []).0 4 false ≡ true)
    ↔ Depends sample_nodes sample_edges 4
drop_disabled_iff_example =
    drop_disabled_iff sample_nodes sample_edges [] 4 (omega arith, (omega arith, (omega arith, tt)))

resolve_edges-AllResolved_example : AllResolved (ids_of sample_nodes) sample_doc.edges sample_edges
resolve_edges-AllResolved_example =
    resolve_edges-AllResolved sample_nodes sample_doc.edges sample_index sample_edges sample_indexed
      sample_resolved

abbrev patient : StagePolicy
patient = record {
  retry_attempts = 3;
  retry_backoff_ms = 250;
  continue_on_failure = false;
  memory_limit_mb = none;
}

backoff_for_doubles_example :
    ((1 < 16 → backoff_for patient 3 ≡ saturate (backoff_for patient 2 * 2))
      × (16 ≤ 1 → backoff_for patient 2 ≡ backoff_for patient 17))
    × (backoff_for patient 1 ≡ saturate 250)
backoff_for_doubles_example = backoff_for_doubles patient 1
