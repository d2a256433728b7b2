-- ===== src/Plan/Order/Relax.antt =====
-- One round of the loop: what relaxing the edges of a node does to the in-degrees and the heap.
use local_etl_tool.Prelude.{
  ℕ, ◌+◌, ◌-◌, ◌≤◌, ◌<◌, ◌≡◌, ◌≢◌, refl, inl, inr, Bool, true, false, ◌&&◌, List, [], ◌∷◌, arith,
  ltb, leb, ◌==◌, if◌then◌else◌, length, get_or, set, length-set, All, Bool-cases,
}
use local_etl_tool.Prelude.Count.{count}
use local_etl_tool.Plan.{ResolvedEdge}
use local_etl_tool.Plan.Order.{push, heap_of, relax}
use local_etl_tool.Plan.Order.Pending.{Edges, between, TargetsBelow, nat_cases, get_or-set}

pub count-push : (v x : ℕ) (xs : List ℕ) → count v (push x xs) ≡ count v (x ∷ xs)
unfolding push
count-push v x [] = refl
count-push v x (y ∷ ys) = ground (arith, count-push v x ys)

pub count-heap_of : (v : ℕ) (xs : List ℕ) → count v (heap_of xs) ≡ count v xs
unfolding heap_of
count-heap_of v [] = refl
count-heap_of v (x ∷ xs) = omega (arith, count-push v x (heap_of xs), count-heap_of v xs)

-- The heap's list is ascending.
abbrev pub IsSorted : List ℕ → Type 0
IsSorted [] = Unit
IsSorted (x ∷ xs) = All (λ y. x ≤ y) xs × IsSorted xs

All-push : (b x : ℕ) (xs : List ℕ) → b ≤ x → All (λ y. b ≤ y) xs → All (λ y. b ≤ y) (push x xs)
unfolding push
All-push b x [] h hs = (h, tt)
All-push b x (y ∷ ys) h (hy, hys) = elim (Bool-cases (leb x y)) [
  | inl e ↦ rw e (h, (hy, hys))
  | inr e ↦ rw e (hy, All-push b x ys h hys)
]

All-le : (a b : ℕ) (xs : List ℕ) → a ≤ b → All (λ y. b ≤ y) xs → All (λ y. a ≤ y) xs
All-le a b [] h hs = tt
All-le a b (x ∷ xs) h (hx, hs) = (omega arith, All-le a b xs h hs)

pub push-IsSorted : (x : ℕ) (xs : List ℕ) → IsSorted xs → IsSorted (push x xs)
unfolding push
push-IsSorted x [] h = (tt, tt)
push-IsSorted x (y ∷ ys) (hy, hs) = elim (Bool-cases (leb x y)) [
  | inl e ↦ let le : x ≤ y = ground arith in rw e ((le, All-le x y ys le hy), (hy, hs))
  | inr e ↦ rw e (All-push y x ys (ground arith) hy, push-IsSorted x ys hs)
]

pub heap_of-IsSorted : (xs : List ℕ) → IsSorted (heap_of xs)
unfolding heap_of
heap_of-IsSorted [] = tt
heap_of-IsSorted (x ∷ xs) = push-IsSorted x (heap_of xs) (heap_of-IsSorted xs)

-- The head of the heap is its least element.
pub head_le : (x v : ℕ) (xs : List ℕ) → All (λ y. x ≤ y) xs → 0 < count v (x ∷ xs) → x ≤ v
head_le x v [] h p = ground arith
head_le x v (y ∷ ys) (hy, hs) p = elim (nat_cases v y) [
  | inl e ↦ omega arith
  | inr ne ↦ head_le x v ys hs (ground arith)
]

-- What `relax` leaves: each degree less the edges from `current`, and on the heap, once, each node
-- whose degree has come down to zero.
abbrev pub pushed : ℕ → ℕ → ℕ
pushed k d = if ltb 0 k && k == d then 1 else 0

-- The degrees and the heap after a relaxed edge.
abbrev lower : ResolvedEdge → List ℕ → List ℕ
lower e deg = set deg e.target (get_or deg e.target 0 - 1)

abbrev raise : ResolvedEdge → List ℕ → List ℕ → List ℕ
raise e deg ready = if get_or deg e.target 0 - 1 == 0 then push e.target ready else ready

relax_hit :
    (c : ℕ) (e : ResolvedEdge) (es : Edges) (deg ready : List ℕ)
    → e.source ≡ c
    → relax c (e ∷ es) deg ready ≡ relax c es (lower e deg) (raise e deg ready)
unfolding relax
relax_hit c e es deg ready h = let t : (e.source == c) ≡ true = ground arith in rw t

relax_miss :
    (c : ℕ) (e : ResolvedEdge) (es : Edges) (deg ready : List ℕ)
    → e.source ≢ c
    → relax c (e ∷ es) deg ready ≡ relax c es deg ready
unfolding relax
relax_miss c e es deg ready h = let t : (e.source == c) ≡ false = ground arith in rw t

pub length-relax :
    (c : ℕ) (es : Edges) (deg ready : List ℕ) → length (relax c es deg ready).0 ≡ length deg
length-relax c [] deg ready = unfold relax in refl
length-relax c (e ∷ es) deg ready = elim (nat_cases e.source c) [
  | inl q ↦ rw (relax_hit c e es deg ready q) (
      omega (
        arith,
        length-relax c es (lower e deg) (raise e deg ready),
        length-set deg e.target (get_or deg e.target 0 - 1),
      ))
  | inr q ↦ rw (relax_miss c e es deg ready q) (length-relax c es deg ready)
]

pub relax-IsSorted :
    (c : ℕ) (es : Edges) (deg ready : List ℕ) → IsSorted ready → IsSorted (relax c es deg ready).1
relax-IsSorted c [] deg ready h = unfold relax in h
relax-IsSorted c (e ∷ es) deg ready h = elim (nat_cases e.source c) [
  | inl q ↦ rw (relax_hit c e es deg ready q) (
      relax-IsSorted c es (lower e deg) (raise e deg ready)
        (raised (get_or deg e.target 0 - 1 == 0)))
  | inr q ↦ rw (relax_miss c e es deg ready q) (relax-IsSorted c es deg ready h)
]
  where
    raised : (b : Bool) → IsSorted (if b then push e.target ready else ready)
    raised true = push-IsSorted e.target ready h
    raised false = h

-- What holds before the loop: no degree is below the edges that `current` is about to take off.
abbrev pub Enough : ℕ → Edges → List ℕ → Type 0
Enough c es deg = (v : ℕ) → between es c v ≤ get_or deg v 0

lower_at :
    (e : ResolvedEdge) (deg : List ℕ) (v : ℕ)
    → e.target < length deg
    → get_or (lower e deg) v 0 ≡ (if e.target == v then get_or deg v 0 - 1 else get_or deg v 0)
lower_at e deg v h =
    let at = get_or-set deg e.target v (get_or deg e.target 0 - 1) 0 h in
    elim (nat_cases e.target v) [
      | inl q ↦ let same : get_or deg e.target 0 ≡ get_or deg v 0 = cc in ground arith
      | inr ne ↦ ground arith
    ]

module _ (c : ℕ) (e : ResolvedEdge) (es : Edges) (deg : List ℕ) (q : e.source ≡ c)
    (h : e.target < length deg) (enough : Enough c (e ∷ es) deg) where
  Enough-lower : Enough c es (lower e deg)
  Enough-lower v = let n = enough v in let at = lower_at e deg v h in ground arith

Enough-tail :
    (c : ℕ) (e : ResolvedEdge) (es : Edges) (deg : List ℕ) → Enough c (e ∷ es) deg → Enough c es deg
Enough-tail c e es deg h v = omega (arith, h v)

pub get_or-relax :
    (c : ℕ) (es : Edges) (deg ready : List ℕ) (v : ℕ)
    → TargetsBelow (length deg) es
    → Enough c es deg
    → get_or (relax c es deg ready).0 v 0 + between es c v ≡ get_or deg v 0
get_or-relax c [] deg ready v b h = unfold relax in omega arith
get_or-relax c (e ∷ es) deg ready v (b, bs) h = elim (nat_cases e.source c) [
  | inl q ↦
      let len = length-set deg e.target (get_or deg e.target 0 - 1) in
      let ih =
        get_or-relax c es (lower e deg) (raise e deg ready) v (rw len bs)
          (Enough-lower c e es deg q b h) in
      let at = lower_at e deg v b in let n = h v in rw (relax_hit c e es deg ready q) (ground arith)
  | inr q ↦
      let ih = get_or-relax c es deg ready v bs (Enough-tail c e es deg h) in
      rw (relax_miss c e es deg ready q) (ground arith)
]

raise_at :
    (e : ResolvedEdge) (deg ready : List ℕ) (v : ℕ)
    → count v (raise e deg ready)
      ≡ count v ready + (if e.target == v && get_or deg v 0 - 1 == 0 then 1 else 0)
raise_at e deg ready v = elim (nat_cases e.target v) [
  | inl q ↦
      let same : get_or deg e.target 0 ≡ get_or deg v 0 = cc in
      let p = count-push v e.target ready in ground arith
  | inr ne ↦ let p = count-push v e.target ready in ground arith
]

pub count-relax :
    (c : ℕ) (es : Edges) (deg ready : List ℕ) (v : ℕ)
    → TargetsBelow (length deg) es
    → Enough c es deg
    → count v (relax c es deg ready).1 ≡ count v ready + pushed (between es c v) (get_or deg v 0)
count-relax c [] deg ready v b h = unfold relax in ground arith
count-relax c (e ∷ es) deg ready v (b, bs) h = elim (nat_cases e.source c) [
  | inl q ↦
      let len = length-set deg e.target (get_or deg e.target 0 - 1) in
      let enough = Enough-lower c e es deg q b h in
      let ih = count-relax c es (lower e deg) (raise e deg ready) v (rw len bs) enough in
      let at = lower_at e deg v b in
      let n = h v in
      let m = enough v in
      let r = raise_at e deg ready v in rw (relax_hit c e es deg ready q) (ground arith)
  | inr q ↦
      let ih = count-relax c es deg ready v bs (Enough-tail c e es deg h) in
      rw (relax_miss c e es deg ready q) (ground arith)
]
