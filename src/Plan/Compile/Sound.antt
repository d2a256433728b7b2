-- ===== src/Plan/Compile/Sound.antt =====
-- What `compile_with` of crates/duckdb-engine/src/plan/mod.rs makes of a document.
use mathlib.Core.Path.{subst}
use local_etl_tool.Plan.Order.Correct.{List-cases}
use local_etl_tool.Prelude.{
  inl, inr, ℕ, suc, ◌≡◌, ◌↔◌, refl, ap, true, false, List, [], ◌∷◌, ok, if◌then◌else◌, length,
  get_or, bind-ok, ◌<◌, All, arith,
}
use local_etl_tool.Prelude.Count.{count}
use local_etl_tool.Metadata.{PipelineDoc, PipelineNode}
use local_etl_tool.Plan.{ResolvedEdge, StageKind}
use local_etl_tool.Plan.Front.{reserve_suffix, build_index, classify, resolve_edges}
use local_etl_tool.Plan.Front.Index.{ids_of, Distinct, build_index_iff}
use local_etl_tool.Plan.Front.Edges.{AllResolved, AllResolved-ends, resolve_edges-AllResolved}
use local_etl_tool.Plan.Dropped.{drop_disabled}
use local_etl_tool.Plan.Dropped.Cascade.{Depends}
use local_etl_tool.Plan.Dropped.Exact.{drop_disabled_iff}
use local_etl_tool.Plan.Order.{topological_order, kept, live_edges}
use local_etl_tool.Plan.Order.Loop.{IsSchedule}
use local_etl_tool.Plan.Order.Schedule.{topological_order-IsSchedule}
use local_etl_tool.Plan.Compile.{Compiled, ordered, checked, compile_with}

-- The specification of the compiler's front.
pub record IsCompiled (doc : PipelineDoc) (c : Compiled) : Type 0 where
  pub distinct : Distinct (ids_of doc.nodes)
  pub resolved : AllResolved (ids_of doc.nodes) doc.edges c.edges
  pub dropped_iff : (v : ℕ) → (get_or c.dropped v false ≡ true) ↔ Depends doc.nodes c.edges v
  pub once : (v : ℕ) → v < length doc.nodes → count v c.order ≡ (if kept c.dropped v then 1 else 0)
  pub schedule :
      IsSchedule (length doc.nodes) (kept c.dropped) (live_edges c.edges c.dropped) [] c.order

length-ids : (nodes : List PipelineNode) → length (ids_of nodes) ≡ length nodes
length-ids [] = refl
length-ids (n ∷ ns) = ap suc (length-ids ns)

targets :
    (k : ℕ) (rs : List ResolvedEdge)
    → All (λ r. (r.source < k) × (r.target < k)) rs
    → All (λ r. r.target < k) rs
targets k [] h = h
targets k (r ∷ rs) ((_, below), h) = (below, targets k rs h)

-- The last steps of a compilation, from the edges on.
ordered-IsCompiled :
    (doc : PipelineDoc) (kinds : List StageKind) (edges : List ResolvedEdge) (c : Compiled)
    → Distinct (ids_of doc.nodes)
    → AllResolved (ids_of doc.nodes) doc.edges edges
    → ordered doc kinds edges ≡ ok c
    → IsCompiled doc c
unfolding ordered
ordered-IsCompiled doc kinds edges c distinct resolved h =
    let (dropped, warnings) = drop_disabled doc.nodes edges [] in
    let (order, found, same) = bind-ok (topological_order (ids_of doc.nodes) edges dropped) _ h in
    let ends = AllResolved-ends (ids_of doc.nodes) doc.edges edges resolved in
    let size = length-ids doc.nodes in
    let (once, schedule) =
      topological_order-IsSchedule (ids_of doc.nodes) edges dropped order ends found in
    let below = targets (length (ids_of doc.nodes)) edges ends in
    let equal : record {
      kinds = kinds;
      edges = edges;
      dropped = dropped;
      order = order;
      warnings = warnings;
    }
        ≡ c =
      ground arith in
    subst (λ c. IsCompiled doc c) equal
      (record {
        distinct = distinct;
        resolved = resolved;
        dropped_iff = λ v. drop_disabled_iff doc.nodes edges [] v (rw size at below);
        once = rw size at once;
        schedule = rw size at schedule;
      })

nonempty : (doc : PipelineDoc) (c : Compiled) → compile_with doc ≡ ok c → checked doc ≡ ok c
nonempty doc c h = elim (List-cases doc.nodes) [
  | inl e ↦ absurd (unfold compile_with in ground arith)
  | inr (n, ns, e) ↦ unfold compile_with in ground arith
]

-- A document that compiles has nodes with different ids; its edges are resolved; the dropped nodes are
-- those that are switched off or depend on one that is; and the order runs every other node once, each
-- after all the nodes that it reads from and the lowest position first.
pub compile_with-IsCompiled :
    (doc : PipelineDoc) (c : Compiled) → compile_with doc ≡ ok c → IsCompiled doc c
compile_with-IsCompiled doc c h =
    let nodes = doc.nodes in
    unfold checked in
    let (_, _, h1) = bind-ok (reserve_suffix nodes) _ (nonempty doc c h) in
    let (index, built, h2) = bind-ok (build_index nodes) _ h1 in
    let (kinds, _, h3) = bind-ok (classify nodes) _ h2 in
    let (edges, resolved, h4) = bind-ok (resolve_edges doc.edges index) _ h3 in
    ordered-IsCompiled doc kinds edges c ((build_index_iff nodes).0 (index, built))
      (resolve_edges-AllResolved nodes doc.edges index edges built resolved) h4
