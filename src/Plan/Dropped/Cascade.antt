-- ===== src/Plan/Dropped/Cascade.antt =====
-- The walk of `drop_disabled` (crates/duckdb-engine/src/plan/mod.rs): the relation of dependence, and what
-- one round does to the loop's variables.
use local_etl_tool.Prelude.{
  ℕ, zero, suc, ◌+◌, ◌<◌, ◌≡◌, ◌≢◌, refl, ap, ◌⊎◌, inl, inr, Bool, true, false, List, [], ◌∷◌,
  arith, ◌==◌, if◌then◌else◌, get_or, set, replicate, length, length-append, length-set,
  get_or-set_self, get_or-set_ne, All, Bool-cases,
}
use local_etl_tool.Prelude.Count.{count, count-append}
use local_etl_tool.Metadata.{PipelineNode, is_disabled}
use local_etl_tool.Plan.{ResolvedEdge}
use local_etl_tool.Plan.Dropped.{Walk, reach, spread}

-- Whether the node at a position is switched off.
abbrev pub disabled_at : List PipelineNode → ℕ → Bool
disabled_at [] p = false
disabled_at (n ∷ ns) zero = is_disabled n.node_data
disabled_at (n ∷ ns) (suc p) = disabled_at ns p

-- There is an edge from `u` to `v`.
abbrev pub HasEdge : List ResolvedEdge → ℕ → ℕ → Type 0
HasEdge [] u v = ⊥
HasEdge (e ∷ es) u v = ((e.source ≡ u) × (e.target ≡ v)) ⊎ HasEdge es u v

-- A node that is switched off, or that depends on such a node.
pub data Depends (nodes : List PipelineNode) (edges : List ResolvedEdge) : ℕ → Type 0 where
  off : {v : ℕ} → disabled_at nodes v ≡ true → Depends nodes edges v
  below : {u v : ℕ} → Depends nodes edges u → HasEdge edges u v → Depends nodes edges v

abbrev pub is_dropped : Walk → ℕ → Bool
is_dropped w v = get_or w.dropped v false

pub nat_cases : (a b : ℕ) → (a ≡ b) ⊎ (a ≢ b)
nat_cases a b = omega arith

-- The entries that are not dropped yet.
pub free : List Bool → ℕ
free [] = 0
free (true ∷ bs) = free bs
free (false ∷ bs) = suc (free bs)

pub free-set :
    (bs : List Bool) (i : ℕ)
    → i < length bs
    → get_or bs i false ≡ false
    → free (set bs i true) + 1 ≡ free bs
unfolding free
free-set [] i h e = elim h [ ]
free-set (true ∷ bs) zero h e = absurd (ground arith)
free-set (false ∷ bs) zero h e = omega arith
free-set (true ∷ bs) (suc i) h e = free-set bs i (omega arith) e
free-set (false ∷ bs) (suc i) h e = omega (arith, free-set bs i (omega arith) e)

pub free-replicate : (n : ℕ) → free (replicate n false) ≡ n
unfolding free
free-replicate zero = refl
free-replicate (suc n) = ap suc (free-replicate n)

pub dropped-set :
    (bs : List Bool) (i v : ℕ)
    → i < length bs
    → get_or (set bs i true) v false ≡ (if i == v then true else get_or bs v false)
dropped-set bs i v h = elim (nat_cases i v) [
  | inl e ↦
      let self = get_or-set_self bs i true false h in
      let at : get_or (set bs i true) v false ≡ get_or (set bs i true) i false = cc in ground arith
  | inr ne ↦ let other = get_or-set_ne bs i v true false ne in ground arith
]

module _ (nodes : List PipelineNode) (edges : List ResolvedEdge) where
  abbrev pub measure : Walk → ℕ
  measure w = free w.dropped + length w.queue

  -- What the inner loop over the edges `es` of `current` does to a walk `w`.
  pub record Spreads (current : ℕ) (es : List ResolvedEdge) (w w' : Walk) : Type 0 where
    pub entries : length w'.dropped ≡ length w.dropped
    pub measure_kept : measure w' ≡ measure w
    pub grows : (v : ℕ) → is_dropped w v ≡ true → is_dropped w' v ≡ true
    pub new : (v : ℕ) → is_dropped w' v ≡ true → is_dropped w v ≡ false → HasEdge es current v
    pub reached : (v : ℕ) → HasEdge es current v → is_dropped w' v ≡ true
    pub queues :
        (v : ℕ)
        → count v w'.queue
          ≡ count v w.queue + (if is_dropped w v then 0 else if is_dropped w' v then 1 else 0)

  reach_lem :
      (current target : ℕ) (w : Walk)
      → target < length w.dropped
      → let w' = reach nodes current target w in
        (length w'.dropped ≡ length w.dropped)
        × (measure w' ≡ measure w)
        × ((v : ℕ) → is_dropped w' v ≡ (if target == v then true else is_dropped w v))
        × ((v : ℕ)
            → count v w'.queue
              ≡ count v w.queue + (if target == v then (if is_dropped w v then 0 else 1) else 0))
  reach_lem current target w h = elim (Bool-cases (is_dropped w target)) [
    | inl t ↦ rw t (
      refl,
      refl,
      (λ v. elim (nat_cases target v) [
        | inl e ↦ let at : is_dropped w target ≡ is_dropped w v = cc in ground arith
        | inr ne ↦ ground arith
      ]),
      (λ v. elim (nat_cases target v) [
        | inl e ↦ let at : is_dropped w target ≡ is_dropped w v = cc in ground arith
        | inr ne ↦ ground arith
      ]),
    )
    | inr f ↦ rw f (
      length-set w.dropped target true,
      omega (arith, free-set w.dropped target h f, length-append w.queue (target ∷ [])),
      (λ v. dropped-set w.dropped target v h),
      (λ v.
          let c = count-append v w.queue (target ∷ []) in
          elim (nat_cases target v) [
            | inl e ↦ let at : is_dropped w target ≡ is_dropped w v = cc in ground arith
            | inr ne ↦ ground arith
          ]),
    )
  ]

  spread_hit :
      (e : ResolvedEdge) (es : List ResolvedEdge) (c : ℕ) (w : Walk)
      → e.source ≡ c
      → spread nodes (e ∷ es) c w ≡ spread nodes es c (reach nodes c e.target w)
  unfolding spread
  spread_hit e es c w h = let t : (e.source == c) ≡ true = ground arith in rw t

  spread_miss :
      (e : ResolvedEdge) (es : List ResolvedEdge) (c : ℕ) (w : Walk)
      → e.source ≢ c
      → spread nodes (e ∷ es) c w ≡ spread nodes es c w
  unfolding spread
  spread_miss e es c w h = let t : (e.source == c) ≡ false = ground arith in rw t

  module _ (e : ResolvedEdge) (es : List ResolvedEdge) (c : ℕ) (w : Walk) (q : e.source ≡ c)
      (b : e.target < length w.dropped) where
    abbrev after : Walk
    after = reach nodes c e.target w

    Spreads-hit : {w' : Walk} → Spreads c es after w' → Spreads c (e ∷ es) w w'
    Spreads-hit s =
        let r = reach_lem c e.target w b in
        record {
          entries = omega (arith, s.entries, r.0);
          measure_kept = omega (arith, s.measure_kept, r.1);
          grows = λ v d. let at = r.2 v in s.grows v (ground arith);
          new = λ v d f. elim (nat_cases e.target v) [
            | inl t ↦ inl (q, t)
            | inr ne ↦ let at = r.2 v in inr (s.new v d (ground arith))
          ];
          reached = λ v h. elim h [
            | inl (_, t) ↦ let at = r.2 v in s.grows v (ground arith)
            | inr m ↦ s.reached v m
          ];
          queues = λ v.
              let at = r.2 v in
              let more = r.3 v in let rest = s.queues v in let up = s.grows v in ground arith;
        }

  Spreads-skip :
      (e : ResolvedEdge) (es : List ResolvedEdge) (c : ℕ) (w w' : Walk)
      → e.source ≢ c
      → Spreads c es w w'
      → Spreads c (e ∷ es) w w'
  Spreads-skip e es c w w' ne s = record {
    entries = s.entries;
    measure_kept = s.measure_kept;
    grows = s.grows;
    new = λ v d f. inr (s.new v d f);
    reached = λ v h. elim h [ inl (q, t) ↦ absurd (ne q) | inr m ↦ s.reached v m ];
    queues = s.queues;
  }

  pub spread_lem :
      (es : List ResolvedEdge) (c : ℕ) (w : Walk)
      → All (λ e. e.target < length w.dropped) es
      → Spreads c es w (spread nodes es c w)
  spread_lem [] c w b =
      unfold spread in
      record {
        entries = refl;
        measure_kept = refl;
        grows = λ v d. d;
        new = λ v d f. cc;
        reached = λ v h. absurd h;
        queues = λ v. ground arith;
      }
  spread_lem (e ∷ es) c w (b, bs) = elim (nat_cases e.source c) [
    | inl q ↦ rw (spread_hit e es c w q) (
        Spreads-hit e es c w q b
          (spread_lem es c (reach nodes c e.target w) (rw (reach_lem c e.target w b).0 bs)))
    | inr ne ↦
        rw (spread_miss e es c w ne)
          (Spreads-skip e es c w (spread nodes es c w) ne (spread_lem es c w bs))
  ]
