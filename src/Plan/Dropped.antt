-- ===== src/Plan/Dropped.antt =====
-- `drop_disabled` of crates/duckdb-engine/src/plan/mod.rs: the switched-off nodes, and by a
-- breadth-first walk everything that depends on one.
pub mod Cascade
pub mod Exact
use local_etl_tool.Prelude.{
  ℕ, zero, suc, ◌+◌, Bool, true, false, List, [], ◌∷◌, ◌++◌, ◌==◌, if◌then◌else◌, get_or, set,
  replicate, length,
}
use local_etl_tool.Prelude.Text.{Text}
use local_etl_tool.Metadata.{PipelineNode, is_disabled}
use local_etl_tool.Plan.{Warning, disabled_skipped, dropped_downstream_of_disabled, ResolvedEdge}

-- The variables of the two loops; the queue's front is the list's head.
pub record Walk : Type 0 where
  pub dropped : List Bool
  pub queue : List ℕ
  pub warnings : List Warning

-- The body of the first loop, at a disabled node.
abbrev pub mark : ℕ → PipelineNode → Walk → Walk
mark position n w = record {
  dropped = set w.dropped position true;
  queue = w.queue ++ position ∷ [];
  warnings = w.warnings ++ disabled_skipped n.id ∷ [];
}

unfoldable pub mark_disabled : ℕ → List PipelineNode → Walk → Walk
unfolding is_disabled
mark_disabled position [] w = w
mark_disabled position (n ∷ ns) w =
    mark_disabled (position + 1) ns (if is_disabled n.node_data then mark position n w else w)

abbrev pub id_at : List PipelineNode → ℕ → Text
id_at [] p = []
id_at (n ∷ ns) zero = n.id
id_at (n ∷ ns) (suc p) = id_at ns p

-- What the inner loop does at an edge that leaves `current`.
abbrev pub reach : List PipelineNode → ℕ → ℕ → Walk → Walk
reach nodes current target w = if get_or w.dropped target false then w else record {
  dropped = set w.dropped target true;
  queue = w.queue ++ target ∷ [];
  warnings =
      w.warnings ++ dropped_downstream_of_disabled (id_at nodes target) (id_at nodes current) ∷ [];
}

unfoldable pub spread : List PipelineNode → List ResolvedEdge → ℕ → Walk → Walk
spread nodes [] current w = w
spread nodes (e ∷ es) current w =
    spread nodes es current (if e.source == current then reach nodes current e.target w else w)

-- `while let Some(current) = queue.pop_front()`, on fuel: a node enters the queue once at most.
unfoldable pub cascade : ℕ → List PipelineNode → List ResolvedEdge → Walk → Walk
cascade zero nodes edges w = w
cascade (suc fuel) nodes edges w = elim w.queue [
  | [] ↦ w
  | current ∷ rest ↦
      cascade fuel nodes edges (spread nodes edges current (record w { queue = rest }))
]

unfoldable pub drop_disabled :
    List PipelineNode → List ResolvedEdge → List Warning → List Bool × List Warning
unfolding mark_disabled cascade spread
drop_disabled nodes edges warnings =
    let n = length nodes in
    let marked =
      mark_disabled 0 nodes
        (record { dropped = replicate n false; queue = []; warnings = warnings }) in
    let done = cascade n nodes edges marked in (done.dropped, done.warnings)
