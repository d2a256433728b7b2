-- ===== src/Plan/Order/Pending.antt =====
-- The edges into a node that are still to be relaxed, and how the in-degrees count them.
use local_etl_tool.Prelude.{
  ℕ, suc, ◌+◌, ◌<◌, ◌≡◌, ◌≢◌, refl, ◌⊎◌, inl, inr, ◌&&◌, List, [], ◌∷◌, ◌++◌, arith, ◌==◌,
  if◌then◌else◌, length, get_or, set, length-set, get_or-set_self, get_or-set_ne, All,
}
use local_etl_tool.Prelude.Count.{count, count-append}
use local_etl_tool.Plan.{ResolvedEdge}
use local_etl_tool.Plan.Order.{count_in}

abbrev pub Edges : Type 0
Edges = List ResolvedEdge

-- How many edges enter `v` from a node that is not in `done`.
abbrev pub pending : Edges → List ℕ → ℕ → ℕ
pending [] done v = 0
pending (e ∷ es) done v =
    (if e.target == v && count e.source done == 0 then 1 else 0) + pending es done v

-- How many edges go from `c` to `v`.
abbrev pub between : Edges → ℕ → ℕ → ℕ
between [] c v = 0
between (e ∷ es) c v = (if e.source == c && e.target == v then 1 else 0) + between es c v

-- `in_degree` has an entry for the target of every edge.
abbrev pub TargetsBelow : ℕ → Edges → Type 0
TargetsBelow n = All (λ e. e.target < n)

pub nat_cases : (a b : ℕ) → (a ≡ b) ⊎ (a ≢ b)
nat_cases a b = omega arith

pub get_or-set :
    (xs : List ℕ) (i j v d : ℕ)
    → i < length xs
    → get_or (set xs i v) j d ≡ (if i == j then v else get_or xs j d)
get_or-set xs i j v d h = elim (nat_cases i j) [
  | inl e ↦
      let same = get_or-set_self xs i v d h in
      let at_j : get_or (set xs i v) j d ≡ get_or (set xs i v) i d = cc in ground arith
  | inr ne ↦ let other = get_or-set_ne xs i j v d ne in ground arith
]

pub length-count_in : (es : Edges) (deg : List ℕ) → length (count_in es deg) ≡ length deg
unfolding count_in
length-count_in [] deg = refl
length-count_in (e ∷ es) deg = omega (
  arith,
  length-count_in es (set deg e.target (suc (get_or deg e.target 0))),
  length-set deg e.target (suc (get_or deg e.target 0)),
)

pub get_or-count_in :
    (es : Edges) (deg : List ℕ) (v : ℕ)
    → TargetsBelow (length deg) es
    → get_or (count_in es deg) v 0 ≡ get_or deg v 0 + pending es [] v
unfolding count_in
get_or-count_in [] deg v h = omega arith
get_or-count_in (e ∷ es) deg v (h, hs) =
    let d = suc (get_or deg e.target 0) in
    let len = length-set deg e.target d in
    let ih = get_or-count_in es (set deg e.target d) v (rw len hs) in
    let here = get_or-set deg e.target v d 0 h in
    elim (nat_cases e.target v) [
      | inl q ↦ let same : get_or deg e.target 0 ≡ get_or deg v 0 = cc in ground arith
      | inr ne ↦ ground arith
    ]

-- One more finished node takes its edges off.
pub pending-append :
    (es : Edges) (done : List ℕ) (c v : ℕ)
    → count c done ≡ 0
    → pending es done v ≡ pending es (done ++ c ∷ []) v + between es c v
pending-append [] done c v h = omega arith
pending-append (e ∷ es) done c v h =
    let ih = pending-append es done c v h in
    let here = count-append e.source done (c ∷ []) in
    elim (nat_cases e.source c) [
      | inl q ↦ let same : count e.source done ≡ count c done = cc in ground arith
      | inr ne ↦ ground arith
    ]

-- `v` can run after `done`: every edge into it comes from there.
abbrev pub Runnable : Edges → List ℕ → ℕ → Type 0
Runnable es done v = All (λ e. e.target ≡ v → 0 < count e.source done) es

pub pending-Runnable :
    (es : Edges) (done : List ℕ) (v : ℕ) → pending es done v ≡ 0 → Runnable es done v
pending-Runnable [] done v h = tt
pending-Runnable (e ∷ es) done v h = ((λ t. ground arith), pending-Runnable es done v (omega arith))

pub Runnable-pending :
    (es : Edges) (done : List ℕ) (v : ℕ) → Runnable es done v → pending es done v ≡ 0
Runnable-pending [] done v h = refl
Runnable-pending (e ∷ es) done v (h, hs) =
    let ih = Runnable-pending es done v hs in
    elim (nat_cases e.target v) [ inl q ↦ let p = h q in ground arith | inr ne ↦ ground arith ]
