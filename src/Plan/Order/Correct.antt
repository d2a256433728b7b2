-- ===== src/Plan/Order/Correct.antt =====
-- What `topological_order` returns: the schedule that the specification names, or the nodes that no
-- schedule can place.
use mathlib.Core.Path.{subst}
use mathlib.Core.List.{Memᴰ}
use local_etl_tool.Prelude.{
  ℕ, zero, suc, ◌+◌, ◌≤◌, ◌<◌, ◌≡◌, refl, sym, ◌⊎◌, inl, inr, Bool, not, ◌&&◌, List, [], ◌∷◌, arith,
  ◌==◌, length, get_or, length-replicate, get_or-replicate, All, Bool-cases, replicate,
}
use local_etl_tool.Prelude.Count.{
  count, filter, range, count-filter, count-range, length-le_of_distinct,
}
use local_etl_tool.Plan.{ResolvedEdge}
use local_etl_tool.Plan.Order.{kept, live_edges, count_in, Kahn, step, kahn, start, contains}
use local_etl_tool.Plan.Order.Pending.{Edges, pending, nat_cases, length-count_in, get_or-count_in}
use local_etl_tool.Plan.Order.Relax.{count-heap_of, heap_of-IsSorted}
use local_etl_tool.Plan.Order.Loop.{IsKept, Joins, Inv, targets_below, step-Inv, length-step}

pub List-cases {ℓ} :
    {A : Type ℓ} (xs : List A) → (xs ≡ []) ⊎ ((x : A) × (rest : List A) × (xs ≡ x ∷ rest))
List-cases [] = inl refl
List-cases (x ∷ xs) = inr (x, xs, refl)

module _ (n : ℕ) (keep : ℕ → Bool) (es : Edges) (joins : Joins n keep es) where
  pub All-below : (xs : List ℕ) → All (λ v. IsKept n keep v) xs → All (λ v. v < n) xs
  All-below [] h = tt
  All-below (x ∷ xs) (h, hs) = (h.0, All-below xs hs)

  pub order_bound : (s : Kahn) → Inv n keep es s → length s.order ≤ n
  order_bound s inv = length-le_of_distinct n s.order (All-below s.order inv.placed) inv.distinct

  pub kahn_lem :
      (fuel : ℕ) (s : Kahn)
      → Inv n keep es s
      → n ≤ fuel + length s.order
      → Inv n keep es (kahn fuel es s) × ((kahn fuel es s).ready ≡ [])
  unfolding kahn
  kahn_lem zero s inv h = elim (List-cases s.ready) [
    | inl e ↦ (inv, e)
    | inr (c, rest, e) ↦ absurd (
        omega (
          arith,
          order_bound (step es c rest s) (step-Inv n keep es joins s inv c rest e),
          length-step es c rest s,
        ))
  ]
  kahn_lem (suc fuel) s inv h = elim (List-cases s.ready) [
    | inl e ↦ rw (e, kahn) (inv, e)
    | inr (c, rest, e) ↦
        let rec =
          kahn_lem fuel (step es c rest s) (step-Inv n keep es joins s inv c rest e)
            (omega (arith, length-step es c rest s)) in
        rw (e, kahn) rec
  ]

-- The loop starts in the invariant.
pub start-Inv :
    (n : ℕ) (dropped : List Bool) (es : Edges)
    → Joins n (kept dropped) es
    → Inv n (kept dropped) es (start n es dropped)
unfolding start
start-Inv n dropped es joins =
    let zero_ : ℕ = 0 in
    let len = length-replicate n zero_ in
    let degrees : (v : ℕ) → get_or (count_in es (replicate n 0)) v 0 ≡ pending es [] v = λ v.
      omega (
        arith,
        get_or-count_in es (replicate n 0) v
            (rw len (targets_below n (kept dropped) es joins es joins)),
        get_or-replicate n v zero_,
      ) in
    record {
      entries = omega (arith, length-count_in es (replicate n 0), len);
      degrees = degrees;
      heap = λ v.
          let d = degrees v in
          let free = λ (p : ℕ). kept dropped p && get_or (count_in es (replicate n 0)) p 0 == 0 in
          let h = count-heap_of v (filter free (range 0 n)) in
          let f = count-filter free v (range 0 n) in let r = count-range v 0 n in ground arith;
      sorted = heap_of-IsSorted (
          filter (λ p. kept dropped p && get_or (count_in es (replicate n 0)) p 0 == 0)
            (range 0 n));
      placed = tt;
      distinct = λ v. omega arith;
      closed = λ v h. omega arith;
      schedule = tt;
    }

-- The endpoints of the edges are positions of nodes.
abbrev pub EndsBelow : ℕ → Edges → Type 0
EndsBelow n = All (λ e. (e.source < n) × (e.target < n))

pub live-Joins :
    (n : ℕ) (dropped : List Bool) (es : Edges)
    → EndsBelow n es
    → Joins n (kept dropped) (live_edges es dropped)
unfolding live_edges filter
live-Joins n dropped [] h = tt
live-Joins n dropped (e ∷ es) ((hs, ht), hrest) = elim (Bool-cases (kept dropped e.source)) [
  | inl s ↦ elim (Bool-cases (kept dropped e.target)) [
    | inl t ↦ rw (s, t) (((hs, s), (ht, t)), live-Joins n dropped es hrest)
    | inr t ↦ rw (s, t) (live-Joins n dropped es hrest)
  ]
  | inr s ↦ rw s (live-Joins n dropped es hrest)
]

pub All-count {κ} :
    (P : ℕ → Type κ) (xs : List ℕ) (v : ℕ)
    → ((a b : ℕ) → a ≡ b → P a → P b)
    → All P xs
    → 0 < count v xs
    → P v
All-count P [] v move h p = elim p [ ]
All-count P (x ∷ xs) v move (h, hs) p = elim (nat_cases x v) [
  | inl e ↦ move x v e h
  | inr ne ↦ All-count P xs v move hs (ground arith)
]

pub contains-count : (p : ℕ) (xs : List ℕ) → contains p xs ≡ not (count p xs == 0)
contains-count p [] = ground arith
contains-count p (x ∷ xs) = ground (arith, contains-count p xs)

-- A pending edge into `v`.
pub pending_edge :
    (es : Edges) (done : List ℕ) (v : ℕ)
    → 0 < pending es done v
    → (e : ResolvedEdge) × Memᴰ e es × (e.target ≡ v) × (count e.source done ≡ 0)
pending_edge [] done v h = elim h [ ]
pending_edge (e ∷ es) done v h = elim (Bool-cases (e.target == v && count e.source done == 0)) [
  | inl t ↦ (e, Memᴰ.head refl, ground arith, ground arith)
  | inr f ↦ let (e', m, t, c) = pending_edge es done v (ground arith) in (e', Memᴰ.tail m, t, c)
]

pub All-Memᴰ {ℓ κ} :
    {A : Type ℓ} (P : A → Type κ) (xs : List A) (x : A) → All P xs → Memᴰ x xs → P x
All-Memᴰ P [] x h m = elim m [ ]
All-Memᴰ P (y ∷ ys) x (h, hs) (Memᴰ.head e) = subst P (sym e) h
All-Memᴰ P (y ∷ ys) x (h, hs) (Memᴰ.tail m) = All-Memᴰ P ys x hs m
