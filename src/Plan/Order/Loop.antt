-- ===== src/Plan/Order/Loop.antt =====
-- The invariant of the `while` loop of `topological_order`, kept by every round, and its end.
use local_etl_tool.Prelude.{
  ℕ, ◌+◌, ◌≤◌, ◌<◌, ◌≡◌, inl, inr, Bool, true, ◌&&◌, List, [], ◌∷◌, ◌++◌, append_assoc, append-nil,
  arith, ltb, ◌==◌, if◌then◌else◌, length, get_or, length-append, All, All-append,
}
use local_etl_tool.Prelude.Count.{count, count-append}
use local_etl_tool.Plan.Order.{Kahn, relax, step}
use local_etl_tool.Plan.Order.Pending.{
  Edges, pending, between, TargetsBelow, nat_cases, pending-append, Runnable, pending-Runnable,
  Runnable-pending,
}
use local_etl_tool.Plan.Order.Relax.{
  IsSorted, head_le, Enough, length-relax, relax-IsSorted, get_or-relax, count-relax,
}

-- A kept position.
abbrev pub IsKept : ℕ → (ℕ → Bool) → ℕ → Type 0
IsKept n keep v = (v < n) × (keep v ≡ true)

-- The edges join kept positions.
abbrev pub Joins : ℕ → (ℕ → Bool) → Edges → Type 0
Joins n keep = All (λ e. IsKept n keep e.source × IsKept n keep e.target)

-- `v` is the right choice after `seen`: a kept position that has not run, that can run, and the
-- lowest such position.
pub record IsNext (n : ℕ) (keep : ℕ → Bool) (es : Edges) (seen : List ℕ) (v : ℕ) : Type 0 where
  pub kept : IsKept n keep v
  pub fresh : count v seen ≡ 0
  pub runnable : Runnable es seen v
  pub lowest : (w : ℕ) → IsKept n keep w → count w seen ≡ 0 → Runnable es seen w → v ≤ w

-- Each position is the right choice after those before it.
abbrev pub IsSchedule : ℕ → (ℕ → Bool) → Edges → List ℕ → List ℕ → Type 0
IsSchedule n keep es seen [] = Unit
IsSchedule n keep es seen (v ∷ vs) =
    IsNext n keep es seen v × IsSchedule n keep es (seen ++ v ∷ []) vs

module _ (n : ℕ) (keep : ℕ → Bool) (es : Edges) where
  IsSchedule-append :
      (seen vs : List ℕ) (v : ℕ)
      → IsSchedule n keep es seen vs
      → IsNext n keep es (seen ++ vs) v
      → IsSchedule n keep es seen (vs ++ v ∷ [])
  IsSchedule-append seen [] v h next = (rw append-nil at next, tt)
  IsSchedule-append seen (w ∷ vs) v (hw, h) next =
      (hw, IsSchedule-append (seen ++ w ∷ []) vs v h (rw append_assoc next))

  -- A position waits on the heap just when it is kept, can run, and has not run.
  abbrev waits : List ℕ → ℕ → ℕ
  waits order v =
      if ltb v n && (keep v && (pending es order v == 0 && count v order == 0)) then 1 else 0

  pub record Inv (s : Kahn) : Type 0 where
    pub entries : length s.in_degree ≡ n
    pub degrees : (v : ℕ) → get_or s.in_degree v 0 ≡ pending es s.order v
    pub heap : (v : ℕ) → count v s.ready ≡ waits s.order v
    pub sorted : IsSorted s.ready
    pub placed : All (λ v. IsKept n keep v) s.order
    pub distinct : (v : ℕ) → count v s.order ≤ 1
    pub closed : (v : ℕ) → 0 < count v s.order → pending es s.order v ≡ 0
    pub schedule : IsSchedule n keep es [] s.order

between-IsKept :
    (n : ℕ) (keep : ℕ → Bool) (es : Edges) (c v : ℕ)
    → Joins n keep es
    → 0 < between es c v
    → IsKept n keep v
between-IsKept n keep [] c v h p = elim p [ ]
between-IsKept n keep (e ∷ es) c v (h, hs) p = elim (nat_cases e.target v) [
  | inl q ↦ (omega (arith, h.1.0), (let k : keep e.target ≡ keep v = cc in k' k h.1.1))
  | inr ne ↦ between-IsKept n keep es c v hs (ground arith)
]
  where
    k' : {a b : Bool} → a ≡ b → a ≡ true → b ≡ true
    k' p q = cc

IsSorted-head : {x : ℕ} {xs ys : List ℕ} → ys ≡ x ∷ xs → IsSorted ys → IsSorted (x ∷ xs)
IsSorted-head e h = rw e at h

module _ (n : ℕ) (keep : ℕ → Bool) (es : Edges) (joins : Joins n keep es) where
  pub targets_below : (fs : Edges) → Joins n keep fs → TargetsBelow n fs
  targets_below [] h = tt
  targets_below (e ∷ fs) (h, hs) = (h.1.0, targets_below fs hs)

  module _ (s : Kahn) (inv : Inv n keep es s) (c : ℕ) (rest : List ℕ) (r : s.ready ≡ c ∷ rest) where
    count-ready : (v : ℕ) → count v (c ∷ rest) ≡ waits n keep es s.order v
    count-ready v = rw r at (inv.heap v)

    popped : IsKept n keep c × (pending es s.order c ≡ 0) × (count c s.order ≡ 0)
    popped = let h = count-ready c in ground arith

    next : IsNext n keep es s.order c
    next = record {
      kept = popped.0;
      fresh = popped.2;
      runnable = pending-Runnable es s.order c popped.1;
      lowest = λ w k f run.
          let p = Runnable-pending es s.order w run in
          let h = count-ready w in head_le c w rest (IsSorted-head r inv.sorted).0 (ground arith);
    }

    enough : Enough c es s.in_degree
    enough v = omega (arith, inv.degrees v, pending-append es s.order c v popped.2)

    below : TargetsBelow (length s.in_degree) es
    below = rw inv.entries (targets_below es joins)

    abbrev order' : List ℕ
    order' = s.order ++ c ∷ []

    degrees' : (v : ℕ) → get_or (relax c es s.in_degree rest).0 v 0 ≡ pending es order' v
    degrees' v = omega (
      arith,
      get_or-relax c es s.in_degree rest v below enough,
      inv.degrees v,
      pending-append es s.order c v popped.2,
    )

    heap' : (v : ℕ) → count v (relax c es s.in_degree rest).1 ≡ waits n keep es order' v
    heap' v =
        let after = count-relax c es s.in_degree rest v below enough in
        let deg = inv.degrees v in
        let take = pending-append es s.order c v popped.2 in
        let placed = count-append v s.order (c ∷ []) in
        let before = count-ready v in
        let shut = inv.closed v in
        let once = inv.distinct v in
        let here = popped in
        elim (nat_cases (between es c v) 0) [
          | inl none_ ↦ elim (nat_cases v c) [ inl q ↦ ground arith | inr ne ↦ ground arith ]
          | inr some_ ↦ let k = between-IsKept n keep es c v joins (omega arith) in ground arith
        ]

    pub step-Inv : Inv n keep es (step es c rest s)
    unfolding step
    step-Inv = record {
      entries = omega (arith, length-relax c es s.in_degree rest, inv.entries);
      degrees = degrees';
      heap = heap';
      sorted = relax-IsSorted c es s.in_degree rest (IsSorted-head r inv.sorted).1;
      placed = All-append (λ v. IsKept n keep v) s.order (c ∷ []) inv.placed (popped.0, tt);
      distinct = λ v.
          let placed = count-append v s.order (c ∷ []) in
          let once = inv.distinct v in let here = popped in ground arith;
      closed = λ v h.
          let placed = count-append v s.order (c ∷ []) in
          let take = pending-append es s.order c v popped.2 in
          let shut = inv.closed v in let here = popped in ground arith;
      schedule = IsSchedule-append n keep es [] s.order c inv.schedule next;
    }

pub length-step :
    (es : Edges) (c : ℕ) (rest : List ℕ) (s : Kahn)
    → length (step es c rest s).order ≡ length s.order + 1
unfolding step
length-step es c rest s = omega (arith, length-append s.order (c ∷ []))
