-- ===== src/Plan/Order/Schedule.antt =====
-- What `topological_order` promises: the lowest-first schedule of the kept nodes, or a set of nodes
-- that wait for one another.
use mathlib.Core.List.{Memᴰ}
use local_etl_tool.Prelude.{
  ℕ, zero, suc, ◌+◌, ◌≤◌, ◌<◌, ◌≡◌, ◌≢◌, refl, ap, inl, inr, Bool, true, not, ◌&&◌, List, [], ◌∷◌,
  map, arith, ok, err, Result-cases, ltb, ◌==◌, if◌then◌else◌, length, get_or, All, Bool-cases,
}
use local_etl_tool.Prelude.Text.{Text}
use local_etl_tool.Prelude.Count.{
  count, filter, range, count-filter, count-range, sum_below, sum_below-le, sum_below-count,
  sum_below_tight, All-range, All-filter,
}
use local_etl_tool.Plan.{EngineError, cycle, ResolvedEdge}
use local_etl_tool.Plan.Order.{kept, live_edges, Kahn, kahn, start, contains, topological_order}
use local_etl_tool.Plan.Order.Pending.{Edges, nat_cases}
use local_etl_tool.Plan.Order.Loop.{IsKept, Joins, IsSchedule, Inv}
use local_etl_tool.Plan.Order.Correct.{
  kahn_lem, start-Inv, EndsBelow, live-Joins, All-count, contains-count, pending_edge, All-Memᴰ,
  All-below,
}

-- A node that waits for a stuck one: it is kept, and a live edge into it comes from another node, which is stuck.
pub record IsBlocked (n : ℕ) (dropped : List Bool) (edges : Edges) (stuck : List ℕ) (v : ℕ)
    : Type 0 where
  pub kept_node : IsKept n (kept dropped) v
  pub edge : ResolvedEdge
  pub is_edge : Memᴰ edge (live_edges edges dropped)
  pub enters : edge.target ≡ v
  pub from_stuck : 0 < count edge.source stuck
  pub from_other : edge.source ≢ v

-- No edge leads from a node to itself; `resolve_edges` refuses one that does.
abbrev pub HasNoLoop : Edges → Type 0
HasNoLoop = All (λ e. e.source ≢ e.target)

module _ (n : ℕ) (edges : Edges) (dropped : List Bool) (ends : EndsBelow n edges) where
  abbrev live : Edges
  live = live_edges edges dropped

  abbrev keep : ℕ → Bool
  keep = kept dropped

  abbrev final : Kahn
  final = kahn n live (start n live dropped)

  abbrev placed : List ℕ
  placed = final.order

  abbrev all_kept : List ℕ
  all_kept = filter keep (range 0 n)

  joins : Joins n keep live
  joins = live-Joins n dropped edges ends

  run : Inv n keep live final × (final.ready ≡ [])
  run =
      kahn_lem n keep live joins n (start n live dropped) (start-Inv n dropped live joins)
        (omega arith)

  kept_placed : (v : ℕ) → 0 < count v placed → IsKept n keep v
  kept_placed v =
      All-count (IsKept n keep) placed v (λ a b e k. (omega (arith, k.0), moved a b e k.1))
        run.0.placed
    where
      moved : (a b : ℕ) → a ≡ b → keep a ≡ true → keep b ≡ true
      moved a b e h = cc

  count-all_kept : (v : ℕ) → count v all_kept ≡ (if keep v && ltb v n then 1 else 0)
  count-all_kept v =
      let f = count-filter keep v (range 0 n) in let r = count-range v 0 n in ground arith

  placed-le : (v : ℕ) → count v placed ≤ count v all_kept
  placed-le v = elim (nat_cases (count v placed) 0) [
    | inl e ↦ omega arith
    | inr ne ↦
        let k = kept_placed v (omega arith) in
        let c = count-all_kept v in let d = run.0.distinct v in ground arith
  ]

  all_kept-below : All (λ v. v < n) all_kept
  all_kept-below = All-filter (λ v. v < n) keep (range 0 n) (All-range 0 n n (omega arith))

  sum_placed : sum_below n (λ v. count v placed) ≡ length placed
  sum_placed = sum_below-count n placed (All-below n keep live joins placed run.0.placed)

  sum_kept : sum_below n (λ v. count v all_kept) ≡ length all_kept
  sum_kept = sum_below-count n all_kept all_kept-below

  -- As many nodes placed as there are kept means that each kept node was placed.
  complete :
      length placed ≡ length all_kept → (v : ℕ) → v < n → count v placed ≡ (if keep v then 1 else 0)
  complete e v lt =
      let t =
        sum_below_tight n (λ v. count v placed) (λ v. count v all_kept) (λ i _. placed-le i)
          (omega (arith, sum_placed, sum_kept)) v lt in
      let c = count-all_kept v in ground arith

  abbrev unplaced : List ℕ
  unplaced = filter (λ p. keep p && not (contains p placed)) (range 0 n)

  count-unplaced :
      (v : ℕ) → count v unplaced ≡ (if keep v && (count v placed == 0 && ltb v n) then 1 else 0)
  count-unplaced v =
      let f = count-filter (λ p. keep p && not (contains p placed)) v (range 0 n) in
      let r = count-range v 0 n in let c = contains-count v placed in ground arith

  blocked : HasNoLoop live → (v : ℕ) → 0 < count v unplaced → IsBlocked n dropped edges unplaced v
  blocked no_loop v h =
      let c = count-unplaced v in
      let waiting : count v [] ≡ _ = rw run.1 at (run.0.heap v) in
      let (e, m, t, free) = pending_edge live placed v (ground arith) in
      let j = All-Memᴰ (λ e. IsKept n keep e.source × IsKept n keep e.target) live e joins m in
      let cs = count-unplaced e.source in
      record {
        kept_node = ground arith;
        edge = e;
        is_edge = m;
        enters = t;
        from_stuck = ground arith;
        from_other =
            λ same. All-Memᴰ (λ e. e.source ≢ e.target) live e no_loop m (omega (arith, same, t));
      }

  -- Each kept node was placed or is left over.
  placed_or_not : (v : ℕ) → v < n → count v placed + count v unplaced ≡ (if keep v then 1 else 0)
  placed_or_not v lt =
      let u = count-unplaced v in
      let low = placed-le v in let c = count-all_kept v in let d = run.0.distinct v in ground arith

  -- If nothing is left over, every kept node was placed.
  none_unplaced : unplaced ≡ [] → length placed ≡ length all_kept
  none_unplaced e =
      let low = sum_below-le n (λ v. count v placed) (λ v. count v all_kept) (λ i _. placed-le i) in
      let high =
        sum_below-le n (λ v. count v all_kept) (λ v. count v placed)
          (λ v _.
            let c = count-unplaced v in
            let none_here : count v unplaced ≡ 0 = rw e refl in
            let k = count-all_kept v in ground arith) in
      omega (arith, sum_placed, sum_kept, low, high)

-- Where the edges join positions of nodes, the order that `topological_order` returns holds each kept
-- node exactly once and no other node, and each node of it is, after those before it, the lowest kept node that has not run and whose live
-- edges all come from nodes that have run.
pub topological_order-IsSchedule :
    (ids : List Text) (edges : Edges) (dropped : List Bool) (order : List ℕ)
    → EndsBelow (length ids) edges
    → topological_order ids edges dropped ≡ ok order
    → ((v : ℕ) → v < length ids → count v order ≡ (if kept dropped v then 1 else 0))
      × IsSchedule (length ids) (kept dropped) (live_edges edges dropped) [] order
unfolding topological_order
topological_order-IsSchedule ids edges dropped order ends h =
    let n = length ids in
    elim (Bool-cases
      (length (placed n edges dropped ends) == length (all_kept n edges dropped ends))) [
        | inl t ↦
            let e : placed n edges dropped ends ≡ order = ground arith in
            rw (← e)
              (complete n edges dropped ends (ground arith), (run n edges dropped ends).0.schedule)
        | inr f ↦ absurd (ground arith)
      ]

-- Where the edges join positions of nodes, no live one from a node to itself, and `topological_order` fails, its error
-- names at least one node; the kept nodes that it does not name have a lowest-first schedule, in which each of them is
-- once, and each node that it names is kept and has a live edge from another node that it names.
pub topological_order-cycle :
    (ids : List Text) (edges : Edges) (dropped : List Bool) (x : EngineError)
    → EndsBelow (length ids) edges
    → HasNoLoop (live_edges edges dropped)
    → topological_order ids edges dropped ≡ err x
    → (stuck order : List ℕ) × (x ≡ cycle (map (λ p. get_or ids p []) stuck))
      × (stuck ≢ [])
      × ((v : ℕ)
          → v < length ids
          → count v order + count v stuck ≡ (if kept dropped v then 1 else 0))
      × IsSchedule (length ids) (kept dropped) (live_edges edges dropped) [] order
      × ((v : ℕ) → 0 < count v stuck → IsBlocked (length ids) dropped edges stuck v)
unfolding topological_order
topological_order-cycle ids edges dropped x ends no_loop h =
    let n = length ids in
    elim (Bool-cases
      (length (placed n edges dropped ends) == length (all_kept n edges dropped ends))) [
        | inl t ↦ absurd (ground arith)
        | inr f ↦ (
          unplaced n edges dropped ends,
          placed n edges dropped ends,
          ground arith,
          (λ e. let q = none_unplaced n edges dropped ends e in ground arith),
          placed_or_not n edges dropped ends,
          (run n edges dropped ends).0.schedule,
          blocked n edges dropped ends no_loop,
        )
      ]

-- `rank` puts the source of every live edge below its target, so the live edges have no cycle.
abbrev pub IsRanked : (ℕ → ℕ) → Edges → Type 0
IsRanked rank = All (λ e. rank e.source < rank e.target)

none_blocked :
    (n : ℕ) (dropped : List Bool) (edges : Edges) (stuck : List ℕ) (rank : ℕ → ℕ)
    → IsRanked rank (live_edges edges dropped)
    → ((v : ℕ) → 0 < count v stuck → IsBlocked n dropped edges stuck v)
    → (k v : ℕ) → rank v < k
    → 0 < count v stuck
    → ⊥
none_blocked n dropped edges stuck rank ranked b zero v lt h = elim lt [ ]
none_blocked n dropped edges stuck rank ranked b (suc k) v lt h =
    let w = b v h in
    let up =
      All-Memᴰ (λ e. rank e.source < rank e.target) (live_edges edges dropped) w.edge ranked
        w.is_edge in
    let same : rank w.edge.target ≡ rank v = ap rank w.enters in
    none_blocked n dropped edges stuck rank ranked b k w.edge.source (omega arith) w.from_stuck

ranked-HasNoLoop : (rank : ℕ → ℕ) (es : Edges) → IsRanked rank es → HasNoLoop es
ranked-HasNoLoop rank [] h = tt
ranked-HasNoLoop rank (e ∷ es) (below, h) = (
  (λ same. let level : rank e.source ≡ rank e.target = ap rank same in omega (arith, below, level)),
  ranked-HasNoLoop rank es h,
)

head_count : (xs : List ℕ) → xs ≢ [] → (v : ℕ) × (0 < count v xs)
head_count [] h = absurd (h refl)
head_count (x ∷ xs) h = (x, ground arith)

-- Where the edges join positions of nodes and a rank rises along every live edge, so that these have no
-- cycle, `topological_order` returns an order.
pub topological_order_total :
    (ids : List Text) (edges : Edges) (dropped : List Bool) (rank : ℕ → ℕ)
    → EndsBelow (length ids) edges
    → IsRanked rank (live_edges edges dropped)
    → (order : List ℕ) × (topological_order ids edges dropped ≡ ok order)
topological_order_total ids edges dropped rank ends ranked =
    elim (Result-cases (topological_order ids edges dropped)) [
      | inl o ↦ o
      | inr (x, e) ↦
          let no_loop = ranked-HasNoLoop rank (live_edges edges dropped) ranked in
          let (stuck, _, _, some_, _, _, b) =
            topological_order-cycle ids edges dropped x ends no_loop e in
          let (v, m) = head_count stuck some_ in
          absurd (
            none_blocked (length ids) dropped edges stuck rank ranked b (suc (rank v)) v
              (omega arith) m)
    ]
