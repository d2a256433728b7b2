-- ===== src/Plan/Front/Index.antt =====
-- The index of node ids: `build_index` of crates/duckdb-engine/src/plan/mod.rs.
use local_etl_tool.Prelude.{
  ℕ, ◌+◌, ◌≡◌, ◌≢◌, refl, inl, inr, ◌↔◌, true, false, none, some, List, [], ◌∷◌, map, ok, arith,
  if◌then◌else◌, All, Bool-cases, Option-cases,
}
use local_etl_tool.Prelude.Text.{Text, text_eq, text_eq_iff}
use local_etl_tool.Metadata.{PipelineNode}
use local_etl_tool.Plan.Front.{Index, get, index_from, build_index}

abbrev pub ids_of : List PipelineNode → List Text
ids_of = map (λ n. n.id)

-- The ids are pairwise different.
abbrev pub Distinct : List Text → Type 0
Distinct [] = Unit
Distinct (x ∷ xs) = All (λ y. x ≢ y) xs × Distinct xs

-- No id of the list is in the index yet.
abbrev Fresh : Index → List Text → Type 0
Fresh index = All (λ x. get index x ≡ none)

get-cons :
    (j k : Text) (p : ℕ) (m : Index)
    → get ((j, p) ∷ m) k ≡ (if text_eq j k then some p else get m k)
unfolding get
get-cons j k p m = refl

text_ne : (j k : Text) → j ≢ k → text_eq j k ≡ false
text_ne j k h = ground (arith, text_eq_iff j k)

text_refl : (j : Text) → text_eq j j ≡ true
text_refl j = (text_eq_iff j j).1 refl

Fresh-cons :
    (j : Text) (p : ℕ) (m : Index) (xs : List Text)
    → Fresh m xs
    → All (λ y. j ≢ y) xs
    → Fresh ((j, p) ∷ m) xs
Fresh-cons j p m [] f d = tt
Fresh-cons j p m (x ∷ xs) (f, fs) (d, ds) =
    (rw (get-cons j x p m, text_ne j x d) f, Fresh-cons j p m xs fs ds)

Fresh-uncons :
    (j : Text) (p : ℕ) (m : Index) (xs : List Text)
    → Fresh ((j, p) ∷ m) xs
    → Fresh m xs × All (λ y. j ≢ y) xs
Fresh-uncons j p m [] f = (tt, tt)
Fresh-uncons j p m (x ∷ xs) (f, fs) =
    let rest = Fresh-uncons j p m xs fs in
    let g = get-cons j x p m in
    elim (Bool-cases (text_eq j x)) [
      | inl e ↦ absurd (ground arith)
      | inr e ↦ ((ground arith, rest.0), ((λ q. ground (arith, text_eq_iff j x)), rest.1))
    ]

-- The loop succeeds exactly when the ids left are new and differ from one another.
index_from_iff :
    (position : ℕ) (nodes : List PipelineNode) (index : Index)
    → ((m : Index) × (index_from position nodes index ≡ ok m))
      ↔ (Fresh index (ids_of nodes) × Distinct (ids_of nodes))
unfolding index_from
index_from_iff position [] index = ((λ h. (tt, tt)), (λ h. (index, refl)))
index_from_iff position (n ∷ ns) index =
    let ih = index_from_iff (position + 1) ns ((n.id, position) ∷ index) in
    elim (Option-cases (get index n.id)) [
      | inl e ↦ (
        (λ h.
            let (f, d) = ih.0 (rw (e, index_from) at h) in
            let (g, a) = Fresh-uncons n.id position index (ids_of ns) f in ((e, g), (a, d))),
        (λ h.
            rw (e, index_from)
              (ih.1 (Fresh-cons n.id position index (ids_of ns) h.0.1 h.1.0, h.1.1))),
      )
      | inr (p, e) ↦ ((λ h. absurd (let (m, q) = h in ground arith)), (λ h. absurd (ground arith)))
    ]

Fresh-nil : (xs : List Text) → Fresh [] xs
unfolding get
Fresh-nil [] = tt
Fresh-nil (x ∷ xs) = (refl, Fresh-nil xs)

-- `build_index` succeeds exactly when no two nodes share an id.
pub build_index_iff :
    (nodes : List PipelineNode)
    → ((m : Index) × (build_index nodes ≡ ok m)) ↔ Distinct (ids_of nodes)
unfolding build_index
build_index_iff nodes =
    let both = index_from_iff 0 nodes [] in
    ((λ h. (both.0 h).1), (λ d. both.1 (Fresh-nil (ids_of nodes), d)))
