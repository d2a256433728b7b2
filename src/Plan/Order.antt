-- ===== src/Plan/Order.antt =====
-- `topological_order` of crates/duckdb-engine/src/plan/mod.rs: Kahn's algorithm, with the ready
-- positions in a min-heap so that the lowest document position goes first.
-- The heap is kept as an ascending list, whose head is what `pop` returns.
pub mod Pending
pub mod Relax
pub mod Loop
pub mod Correct
pub mod Schedule
use local_etl_tool.Prelude.{
  ℕ, zero, suc, ◌-◌, Bool, true, false, not, ◌&&◌, List, [], ◌∷◌, ◌++◌, map, Result, ok, err, ltb,
  leb, ◌==◌, if◌then◌else◌, length, get_or, set, replicate, any,
}
use local_etl_tool.Prelude.Text.{Text}
use local_etl_tool.Prelude.Count.{filter, range}
use local_etl_tool.Plan.{EngineError, cycle, ResolvedEdge}

-- Whether a position is kept; `dropped` has one entry for each node.
abbrev pub kept : List Bool → ℕ → Bool
kept dropped p = not (get_or dropped p true)

-- The edges between two kept nodes.
unfoldable pub live_edges : List ResolvedEdge → List Bool → List ResolvedEdge
live_edges edges dropped = filter (λ e. kept dropped e.source && kept dropped e.target) edges

-- `for edge in &live { in_degree[edge.target] += 1 }`.
unfoldable pub count_in : List ResolvedEdge → List ℕ → List ℕ
count_in [] deg = deg
count_in (e ∷ es) deg = count_in es (set deg e.target (suc (get_or deg e.target 0)))

-- `push` of the heap.
unfoldable pub push : ℕ → List ℕ → List ℕ
push x [] = x ∷ []
push x (y ∷ ys) = if leb x y then x ∷ y ∷ ys else y ∷ push x ys

-- A heap that is collected from an iterator.
unfoldable pub heap_of : List ℕ → List ℕ
heap_of [] = []
heap_of (x ∷ xs) = push x (heap_of xs)

-- The loop's variables.
pub record Kahn : Type 0 where
  pub in_degree : List ℕ
  pub ready : List ℕ
  pub order : List ℕ

-- The `for` loop over the edges that leave `current`. `in_degree[edge.target] -= 1` never goes below
-- zero (Relax), so the truncated subtraction is exact.
unfoldable pub relax : ℕ → List ResolvedEdge → List ℕ → List ℕ → List ℕ × List ℕ
relax current [] deg ready = (deg, ready)
relax current (e ∷ es) deg ready =
    let d = get_or deg e.target 0 - 1 in
    let hit =
      relax current es (set deg e.target d) (if d == 0 then push e.target ready else ready) in
    let miss = relax current es deg ready in if e.source == current then hit else miss

-- The body of the `while` loop, after `current` was popped off the heap.
unfoldable pub step : List ResolvedEdge → ℕ → List ℕ → Kahn → Kahn
step live current rest s =
    let (deg, ready) = relax current live s.in_degree rest in
    record { in_degree = deg; ready = ready; order = s.order ++ current ∷ [] }

-- `while let Some(Reverse(current)) = ready.pop()`, on fuel.
unfoldable pub kahn : ℕ → List ResolvedEdge → Kahn → Kahn
kahn zero live s = s
kahn (suc fuel) live s = elim s.ready [
  | [] ↦ s
  | current ∷ rest ↦ kahn fuel live (step live current rest s)
]

-- Order contains the position (`order.contains(&p)`).
abbrev pub contains : ℕ → List ℕ → Bool
contains p = any (λ x. p == x)

-- The state that the loop starts from.
unfoldable pub start : ℕ → List ResolvedEdge → List Bool → Kahn
unfolding count_in heap_of push filter range
start n live dropped =
    let in_degree = count_in live (replicate n 0) in
    record {
      in_degree = in_degree;
      ready = heap_of (filter (λ p. kept dropped p && get_or in_degree p 0 == 0) (range 0 n));
      order = [];
    }

-- `ids` are the node ids in document order. A node is popped once at most, so as many rounds as
-- there are nodes are enough (Loop).
unfoldable pub topological_order :
    List Text → List ResolvedEdge → List Bool → Result EngineError (List ℕ)
unfolding live_edges start kahn step relax push
topological_order ids edges dropped =
    let n = length ids in
    let live = live_edges edges dropped in
    let expected = length (filter (kept dropped) (range 0 n)) in
    let order = (kahn n live (start n live dropped)).order in
    if length order == expected
    then ok order
    else err (
        cycle (
          map (λ p. get_or ids p [])
            (filter (λ p. kept dropped p && not (contains p order)) (range 0 n))))
