-- ===== src/Exec/Driven/Upstream.antt =====
-- The upstream that `blocked_by` of crates/duckdb-engine/src/exec.rs finds.
use local_etl_tool.Prelude.{
  ◌≡◌, refl, ap, true, false, Option, none, some, List, [], ◌∷◌, ◌++◌, All, inl, inr, Bool-cases,
}
use local_etl_tool.Prelude.Text.{Text}
use local_etl_tool.Plan.Query.{Input, contains_text}
use local_etl_tool.Exec.Driven.{blocked_by}

abbrev pub AreAllUsable : List Input → List Text → Type 0
AreAllUsable inputs ids = All (λ (i : Input). contains_text i.node_id ids ≡ false) inputs

-- No input is among the ids, or `missing` is the first input that is.
unfoldable pub IsFirstMissing : List Input → List Text → Option Text → Type 0
IsFirstMissing inputs ids none = AreAllUsable inputs ids
IsFirstMissing inputs ids (some missing) =
    (earlier : List Input) × (i : Input) × (later : List Input) × (inputs ≡ earlier ++ i ∷ later)
    × AreAllUsable earlier ids
    × (contains_text i.node_id ids ≡ true)
    × (missing ≡ i.node_id)

behind_usable :
    (i : Input) (inputs : List Input) (ids : List Text) (found : Option Text)
    → contains_text i.node_id ids ≡ false
    → IsFirstMissing inputs ids found
    → IsFirstMissing (i ∷ inputs) ids found
unfolding IsFirstMissing
behind_usable i inputs ids none usable h = (usable, h)
behind_usable i inputs ids (some missing) usable (earlier, j, later, split, before, here, same) =
    (i ∷ earlier, j, later, ap (λ l. i ∷ l) split, (usable, before), here, same)

pub blocked_by-IsFirstMissing :
    (inputs : List Input) (ids : List Text) → IsFirstMissing inputs ids (blocked_by inputs ids)
unfolding blocked_by
blocked_by-IsFirstMissing [] ids = unfold IsFirstMissing in tt
blocked_by-IsFirstMissing (i ∷ inputs) ids = elim (Bool-cases (contains_text i.node_id ids)) [
  | inl e ↦ rw e (unfold IsFirstMissing in ([], i, inputs, refl, tt, e, refl))
  | inr e ↦ rw e (behind_usable i inputs ids _ e (blocked_by-IsFirstMissing inputs ids))
]
