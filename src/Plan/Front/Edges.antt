-- ===== src/Plan/Front/Edges.antt =====
-- The edges that `resolve_edges` of crates/duckdb-engine/src/plan/mod.rs returns.
use local_etl_tool.Prelude.{
  ℕ, zero, suc, ◌+◌, ◌<◌, ◌≡◌, ◌≢◌, refl, inl, inr, some, List, [], ◌∷◌, ◌++◌, append_assoc, ok,
  Result-cases, arith, get_elem?, length, length-append, All, Bool-cases, Option-cases,
}
use local_etl_tool.Prelude.Text.{Text, text_eq, text_eq_iff}
use local_etl_tool.Metadata.{PipelineNode, PipelineEdge}
use local_etl_tool.Plan.{ResolvedEdge}
use local_etl_tool.Plan.Front.{
  Index, get, index_from, build_index, endpoint, resolve_edge, resolve_edges,
}
use local_etl_tool.Plan.Front.Index.{ids_of}

get_elem?-append : (xs ys : List Text) (y : Text) → get_elem? (xs ++ y ∷ ys) (length xs) ≡ some y
get_elem?-append [] ys y = refl
get_elem?-append (x ∷ xs) ys y = get_elem?-append xs ys y

get_elem?-lt : (xs : List Text) (p : ℕ) {x : Text} → get_elem? xs p ≡ some x → p < length xs
get_elem?-lt [] p h = absurd (ground arith)
get_elem?-lt (y ∷ ys) zero h = omega arith
get_elem?-lt (y ∷ ys) (suc p) h = omega (arith, get_elem?-lt ys p h)

-- Each entry of the index is the position of a node with its id.
abbrev pub IsSound : List Text → Index → Type 0
IsSound ids m = (k : Text) (p : ℕ) → get m k ≡ some p → get_elem? ids p ≡ some k

IsSound-cons :
    (ids : List Text) (m : Index) (j : Text) (q : ℕ)
    → get_elem? ids q ≡ some j
    → IsSound ids m
    → IsSound ids ((j, q) ∷ m)
unfolding get
IsSound-cons ids m j q h sound k p e = elim (Bool-cases (text_eq j k)) [
  | inl t ↦ let same : j ≡ k = (text_eq_iff j k).0 t in let at : q ≡ p = ground arith in cc
  | inr f ↦ sound k p (ground arith)
]

index_from-IsSound :
    (before : List Text) (position : ℕ) (nodes : List PipelineNode) (index : Index) {m : Index}
    → length before ≡ position
    → IsSound (before ++ ids_of nodes) index
    → index_from position nodes index ≡ ok m
    → IsSound (before ++ ids_of nodes) m
unfolding index_from
index_from-IsSound before position [] index len sound h = λ k p e. sound k p (ground arith)
index_from-IsSound before position (n ∷ ns) index len sound h =
    let here : get_elem? (before ++ n.id ∷ ids_of ns) position ≡ some n.id =
      rw (← len) (get_elem?-append before (ids_of ns) n.id) in
    let sound' = IsSound-cons (before ++ n.id ∷ ids_of ns) index n.id position here sound in
    let ih =
      index_from-IsSound (before ++ n.id ∷ []) (position + 1) ns ((n.id, position) ∷ index)
        (omega (arith, length-append before (n.id ∷ []))) in
    elim (Option-cases (get index n.id)) [
      | inl e ↦ rw append_assoc at (ih (rw append_assoc sound') (rw (e, index_from) at h))
      | inr (p, e) ↦ absurd (ground arith)
    ]

pub build_index-IsSound :
    (nodes : List PipelineNode) {m : Index} → build_index nodes ≡ ok m → IsSound (ids_of nodes) m
unfolding build_index
build_index-IsSound nodes h = index_from-IsSound [] 0 nodes [] refl (λ k p e. unfold get in cc) h

-- `r` is the edge `e` with its endpoints resolved to the positions of two different nodes.
pub record IsResolved (ids : List Text) (e : PipelineEdge) (r : ResolvedEdge) : Type 0 where
  pub source_at : get_elem? ids r.source ≡ some e.source
  pub target_at : get_elem? ids r.target ≡ some e.target
  pub apart : r.source ≢ r.target
  pub source_port : r.source_handle ≡ e.source_handle
  pub target_port : r.target_handle ≡ e.target_handle

abbrev pub AllResolved : List Text → List PipelineEdge → List ResolvedEdge → Type 0
AllResolved ids [] [] = Unit
AllResolved ids [] (r ∷ rs) = ⊥
AllResolved ids (e ∷ es) [] = ⊥
AllResolved ids (e ∷ es) (r ∷ rs) = IsResolved ids e r × AllResolved ids es rs

resolve_edge-IsResolved :
    (ids : List Text) (m : Index) (e : PipelineEdge) {r : ResolvedEdge}
    → IsSound ids m
    → resolve_edge m e ≡ ok r
    → IsResolved ids e r
unfolding resolve_edge
resolve_edge-IsResolved ids m e sound h = elim (Option-cases (get m e.source)) [
  | inl s ↦ absurd (unfold endpoint in ground arith)
  | inr (p, s) ↦ elim (Option-cases (get m e.target)) [
    | inl t ↦ absurd (unfold endpoint in ground arith)
    | inr (q, t) ↦ let at_p = sound e.source p s in let at_q = sound e.target q t in ground arith
  ]
]

resolve_from :
    (ids : List Text) (m : Index) (es : List PipelineEdge) (rs : List ResolvedEdge)
    → IsSound ids m
    → resolve_edges es m ≡ ok rs
    → AllResolved ids es rs
unfolding resolve_edges
resolve_from ids m [] [] sound h = tt
resolve_from ids m [] (r ∷ rs) sound h = cc
resolve_from ids m (e ∷ es) rs sound h = elim (Result-cases (resolve_edge m e)) [
  | inl (r, one) ↦ elim (Result-cases (resolve_edges es m)) [
    | inl (rest, more) ↦
        let eq : r ∷ rest ≡ rs = ground arith in
        rw (← eq) (resolve_edge-IsResolved ids m e sound one, resolve_from ids m es rest sound more)
    | inr (x, bad) ↦ absurd (ground arith)
  ]
  | inr (x, bad) ↦ absurd (ground arith)
]

-- Whenever the index and the edges of a document resolve, the result has one edge for each edge of the
-- document, in order, between the two different positions of the nodes that it names, with its ports.
pub resolve_edges-AllResolved :
    (nodes : List PipelineNode) (es : List PipelineEdge) (m : Index) (rs : List ResolvedEdge)
    → build_index nodes ≡ ok m
    → resolve_edges es m ≡ ok rs
    → AllResolved (ids_of nodes) es rs
resolve_edges-AllResolved nodes es m rs h =
    resolve_from (ids_of nodes) m es rs (build_index-IsSound nodes h)

-- The endpoints of resolved edges are positions of nodes.
pub AllResolved-ends :
    (ids : List Text) (es : List PipelineEdge) (rs : List ResolvedEdge)
    → AllResolved ids es rs
    → All (λ r. (r.source < length ids) × (r.target < length ids)) rs
AllResolved-ends ids [] [] h = tt
AllResolved-ends ids [] (r ∷ rs) h = absurd h
AllResolved-ends ids (e ∷ es) [] h = absurd h
AllResolved-ends ids (e ∷ es) (r ∷ rs) (h, hs) = (
  (get_elem?-lt ids r.source h.source_at, get_elem?-lt ids r.target h.target_at),
  AllResolved-ends ids es rs hs,
)
