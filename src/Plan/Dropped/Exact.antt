-- ===== src/Plan/Dropped/Exact.antt =====
-- The flags that `drop_disabled` of crates/duckdb-engine/src/plan/mod.rs returns.
use mathlib.Core.Path.{subst}
use local_etl_tool.Prelude.{
  ℕ, zero, suc, ◌+◌, ◌≤◌, ◌<◌, ◌≡◌, refl, ap, inl, inr, ◌↔◌, true, false, List, [], ◌∷◌, arith, ltb,
  ◌==◌, ◌&&◌, if◌then◌else◌, get_or, replicate, length, length-append, length-set, length-replicate,
  get_or-replicate, All, Bool-cases,
}
use local_etl_tool.Prelude.Count.{count, count-append}
use local_etl_tool.Metadata.{PipelineNode, is_disabled}
use local_etl_tool.Plan.{Warning, ResolvedEdge}
use local_etl_tool.Plan.Order.Correct.{List-cases}
use local_etl_tool.Plan.Dropped.{Walk, mark, mark_disabled, spread, cascade, drop_disabled}
use local_etl_tool.Plan.Dropped.Cascade.{
  disabled_at, HasEdge, Depends, off, below, is_dropped, nat_cases, free-set, free-replicate,
  dropped-set, measure, Spreads, spread_lem,
}

abbrev TargetsBelow : ℕ → List ResolvedEdge → Type 0
TargetsBelow n = All (λ e. e.target < n)

module _ (nodes : List PipelineNode) (edges : List ResolvedEdge) where
  abbrev n : ℕ
  n = length nodes

  -- Between two rounds: what is dropped depends on a switched-off node, what is queued is dropped,
  -- every switched-off node is dropped, and so is each node below one that has left the queue.
  record Inv (w : Walk) : Type 0 where
    entries : length w.dropped ≡ n
    sound : (v : ℕ) → is_dropped w v ≡ true → Depends nodes edges v
    queued : (v : ℕ) → 0 < count v w.queue → is_dropped w v ≡ true
    off_dropped : (v : ℕ) → disabled_at nodes v ≡ true → is_dropped w v ≡ true
    closed :
        (u v : ℕ)
        → is_dropped w u ≡ true
        → count u w.queue ≡ 0
        → HasEdge edges u v
        → is_dropped w v ≡ true

  module _ (ends : TargetsBelow n edges) (w : Walk) (inv : Inv w) (c : ℕ) (rest : List ℕ)
      (q : w.queue ≡ c ∷ rest) where
    abbrev popped : Walk
    popped = record w { queue = rest }

    abbrev after : Walk
    after = spread nodes edges c popped

    spreads : Spreads nodes edges c edges popped after
    spreads = spread_lem nodes edges edges c popped (rw inv.entries ends)

    count-queue : (v : ℕ) → count v w.queue ≡ (if v == c then 1 else 0) + count v rest
    count-queue v = rw q

    c_dropped : is_dropped w c ≡ true
    c_dropped = inv.queued c (let h = count-queue c in ground arith)

    round-Inv : Inv after
    round-Inv = record {
      entries = omega (arith, spreads.entries, inv.entries);
      sound = λ v d. elim (Bool-cases (is_dropped w v)) [
        | inl old ↦ inv.sound v old
        | inr new ↦ below (inv.sound c c_dropped) (spreads.new v d new)
      ];
      queued = λ v h.
          let k = spreads.queues v in
          let old = inv.queued v in
          let cq = count-queue v in let up = spreads.grows v in ground arith;
      off_dropped = λ v h. spreads.grows v (inv.off_dropped v h);
      closed = λ u v d k e. elim (nat_cases u c) [
        | inl same ↦ spreads.reached v (subst (λ x. HasEdge edges x v) same e)
        | inr ne ↦
            let ku = spreads.queues u in
            let cq = count-queue u in
            spreads.grows v (inv.closed u v (ground arith) (ground arith) e)
      ];
    }

    round-measure : measure nodes edges after + 1 ≡ measure nodes edges w
    round-measure = omega (arith, spreads.measure_kept, ap length q)

  cascade_lem :
      TargetsBelow n edges
      → (fuel : ℕ) (w : Walk) → Inv w
      → measure nodes edges w ≤ fuel
      → Inv (cascade fuel nodes edges w) × ((cascade fuel nodes edges w).queue ≡ [])
  unfolding cascade
  cascade_lem ends zero w inv h = elim (List-cases w.queue) [
    | inl e ↦ (inv, e)
    | inr (c, rest, e) ↦ absurd (omega (arith, ap length e))
  ]
  cascade_lem ends (suc fuel) w inv h = elim (List-cases w.queue) [
    | inl e ↦ rw (e, cascade) (inv, e)
    | inr (c, rest, e) ↦
        let rec =
          cascade_lem ends fuel (spread nodes edges c (record w { queue = rest }))
            (round-Inv ends w inv c rest e) (omega (arith, round-measure ends w inv c rest e)) in
        rw (e, cascade) rec
  ]

  -- While the switched-off nodes are marked: those before `position` are dropped and queued.
  record Marks (position : ℕ) (w : Walk) : Type 0 where
    entries : length w.dropped ≡ n
    exact : (v : ℕ) → is_dropped w v ≡ (ltb v position && disabled_at nodes v)
    queues : (v : ℕ) → count v w.queue ≡ (if is_dropped w v then 1 else 0)
    measured : measure nodes edges w ≡ n

  module _ (node : PipelineNode) (position : ℕ) (w : Walk) (marks : Marks position w)
      (fits : position < n) (here : disabled_at nodes position ≡ is_disabled node.node_data) where
    marked-Marks : is_disabled node.node_data ≡ true → Marks (position + 1) (mark position node w)
    marked-Marks d =
        let lt : position < length w.dropped = omega (arith, marks.entries) in
        let was = marks.exact position in
        let free_here : get_or w.dropped position false ≡ false = ground arith in
        record {
          entries = omega (arith, marks.entries, length-set w.dropped position true);
          exact = λ v.
              let s = dropped-set w.dropped position v lt in
              let e = marks.exact v in
              elim (nat_cases position v) [
                | inl same ↦
                    let at : disabled_at nodes position ≡ disabled_at nodes v = cc in ground arith
                | inr ne ↦ ground arith
              ];
          queues = λ v.
              let s = dropped-set w.dropped position v lt in
              let k = marks.queues v in
              let c = count-append v w.queue (position ∷ []) in
              elim (nat_cases position v) [
                | inl same ↦
                    let at : get_or w.dropped position false ≡ get_or w.dropped v false = cc in
                    ground arith
                | inr ne ↦ ground arith
              ];
          measured = omega (
            arith,
            marks.measured,
            free-set w.dropped position lt free_here,
            length-append w.queue (position ∷ []),
          );
        }

    unmarked-Marks : is_disabled node.node_data ≡ false → Marks (position + 1) w
    unmarked-Marks d = record {
      entries = marks.entries;
      exact = λ v.
          let e = marks.exact v in
          elim (nat_cases position v) [
            | inl same ↦
                let at : disabled_at nodes position ≡ disabled_at nodes v = cc in ground arith
            | inr ne ↦ ground arith
          ];
      queues = marks.queues;
      measured = marks.measured;
    }

  mark_on :
      (position : ℕ) (node : PipelineNode) (rest : List PipelineNode) (w : Walk)
      → is_disabled node.node_data ≡ true
      → mark_disabled position (node ∷ rest) w
        ≡ mark_disabled (position + 1) rest (mark position node w)
  mark_on position node rest w d = unfold mark_disabled in rw d

  mark_off :
      (position : ℕ) (node : PipelineNode) (rest : List PipelineNode) (w : Walk)
      → is_disabled node.node_data ≡ false
      → mark_disabled position (node ∷ rest) w ≡ mark_disabled (position + 1) rest w
  mark_off position node rest w d = unfold mark_disabled in rw d

  mark_disabled-Marks :
      (position : ℕ) (rest : List PipelineNode) (w : Walk)
      → position + length rest ≡ n
      → ((i : ℕ) → disabled_at nodes (position + i) ≡ disabled_at rest i)
      → Marks position w
      → Marks n (mark_disabled position rest w)
  mark_disabled-Marks position [] w len at marks =
      unfold mark_disabled in
      let same : position ≡ n = omega arith in subst (λ k. Marks k w) same marks
  mark_disabled-Marks position (node ∷ rest) w len at marks =
      let here : disabled_at nodes position ≡ is_disabled node.node_data =
        subst (λ k. disabled_at nodes k ≡ is_disabled node.node_data) (omega arith) (at 0) in
      let further : (i : ℕ) → disabled_at nodes (position + 1 + i) ≡ disabled_at rest i =
        λ i. subst (λ k. disabled_at nodes k ≡ disabled_at rest i) (omega arith) (at (suc i)) in
      elim (Bool-cases (is_disabled node.node_data)) [
        | inl d ↦ rw (mark_on position node rest w d) (
            mark_disabled-Marks (position + 1) rest (mark position node w) (omega arith) further
              (marked-Marks node position w marks (omega arith) here d))
        | inr d ↦ rw (mark_off position node rest w d) (
            mark_disabled-Marks (position + 1) rest w (omega arith) further
              (unmarked-Marks node position w marks (omega arith) here d))
      ]

disabled_at-lt : (nodes : List PipelineNode) (v : ℕ) → disabled_at nodes v ≡ true → v < length nodes
disabled_at-lt [] v h = absurd (ground arith)
disabled_at-lt (n ∷ ns) zero h = omega arith
disabled_at-lt (n ∷ ns) (suc v) h = omega (arith, disabled_at-lt ns v h)

Marks-Inv :
    (nodes : List PipelineNode) (edges : List ResolvedEdge) (w : Walk)
    → Marks nodes edges (length nodes) w
    → Inv nodes edges w
Marks-Inv nodes edges w m = record {
  entries = m.entries;
  sound = λ v d. off (let e = m.exact v in ground arith);
  queued = λ v h. let k = m.queues v in ground arith;
  off_dropped = λ v d. let lt = disabled_at-lt nodes v d in let e = m.exact v in ground arith;
  closed = λ u v d k e. absurd (let q = m.queues u in ground arith);
}

-- Where the edges lead to positions of nodes, `drop_disabled` marks a node as dropped exactly when the node is switched off or depends, through
-- edges of the document, on a node that is.
pub drop_disabled_iff :
    (nodes : List PipelineNode) (edges : List ResolvedEdge) (warnings : List Warning) (v : ℕ)
    → TargetsBelow (length nodes) edges
    → (get_or (drop_disabled nodes edges warnings).0 v false ≡ true) ↔ Depends nodes edges v
drop_disabled_iff nodes edges warnings v ends =
    unfold drop_disabled in ((λ d. inv.sound v d), complete)
  where
    blank : Walk
    blank = record { dropped = replicate (length nodes) false; queue = []; warnings = warnings }

    marked : Walk
    marked = mark_disabled 0 nodes blank

    marks : Marks nodes edges (length nodes) marked
    marks =
        mark_disabled-Marks nodes edges 0 nodes blank (omega arith)
          (λ i. ap (disabled_at nodes) (omega arith))
          (record {
            entries = length-replicate (length nodes) false;
            exact = λ u. let g = get_or-replicate (length nodes) u false in ground arith;
            queues = λ u. let g = get_or-replicate (length nodes) u false in ground arith;
            measured = omega (arith, free-replicate (length nodes));
          })

    done : Walk
    done = cascade (length nodes) nodes edges marked

    finished : Inv nodes edges done × (done.queue ≡ [])
    finished =
        cascade_lem nodes edges ends (length nodes) marked (Marks-Inv nodes edges marked marks)
          (omega (arith, marks.measured))

    inv : Inv nodes edges done
    inv = finished.0

    complete : {u : ℕ} → Depends nodes edges u → is_dropped done u ≡ true
    complete (off d) = inv.off_dropped _ d
    complete (below {u = x} p e) = inv.closed x _ (complete p) (rw finished.1 refl) e
