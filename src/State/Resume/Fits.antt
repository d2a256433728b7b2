-- ===== src/State/Resume/Fits.antt =====
-- Which stored values `compile_options` of crates/duckdb-engine/src/remember.rs takes up, behind a run that
-- `remember` folded in.
use local_etl_tool.Prelude.{
  ◌≡◌, refl, ap, ◌∙◌, inl, inr, Bool, true, false, Option, none, some, List, [], ◌∷◌, if◌then◌else◌,
  All, Bool-cases, Option-cases,
}
use local_etl_tool.Prelude.Text.{Text, text_eq, text_eq_iff, text_eq_swap}
use local_etl_tool.Metadata.{JsonValue, PipelineNode, PipelineDoc}
use local_etl_tool.Exec.{RunReport, has_failed}
use local_etl_tool.State.Remember.{
  Watermark, Checkpoint, PipelineState, watermark, checkpoint, get, get-insert,
}
use local_etl_tool.State.Report.{remember, last_mark, last_position, remember_lem}
use local_etl_tool.State.Resume.{
  Remembering, matches_column, component_or_default, resume_mark, resume_position, resume_marks,
  resume_positions, resume_all, nothing_stored, compile_options,
}

-- The stored values that fit a node: the mark of the column that it declares, the position of its component.
unfoldable pub fitting_mark : PipelineNode → Option Watermark → Option Text
unfolding matches_column
fitting_mark n stored = elim n.node_data.incremental [
  | none ↦ none
  | some declared ↦ elim stored [
    | none ↦ none
    | some mark ↦ if matches_column mark declared.column then some mark.value else none
  ]
]

unfoldable pub fitting_position : PipelineNode → Option Checkpoint → Option JsonValue
unfolding text_eq
fitting_position n stored = elim stored [
  | none ↦ none
  | some position ↦
      if text_eq position.component (component_or_default n) then some position.value else none
]

unfoldable pub IsDistinct : List PipelineNode → Type 0
IsDistinct [] = Unit
IsDistinct (n ∷ nodes) =
    All (λ (m : PipelineNode). text_eq n.id m.id ≡ false) nodes × IsDistinct nodes

abbrev mark_of : Remembering → Text → Option Text
mark_of r id = get r.options.watermarks id

abbrev position_of : Remembering → Text → Option JsonValue
position_of r id = get r.options.checkpoints id

-- The value of a node, or the one that was there.
abbrev or_old {ℓ} : {A : Type ℓ} → Option A → Option A → Option A
or_old none old = old
or_old (some a) old = some a

same_if : {A : Type 0} (b : Bool) (o : A) → o ≡ (if b then o else o)
same_if true o = refl
same_if false o = refl

resume_marks-get :
    (s : PipelineState) (n : PipelineNode) (r : Remembering) (j : Text)
    → (mark_of (resume_marks s n r) j ≡ (
        if text_eq n.id j
        then or_old (fitting_mark n (watermark s n.id)) (mark_of r j)
        else mark_of r j))
      × (position_of (resume_marks s n r) j ≡ position_of r j)
unfolding resume_marks fitting_mark resume_mark
resume_marks-get s n r j = elim (Option-cases n.node_data.incremental) [
  | inl e ↦ rw (e, resume_marks, fitting_mark) (same_if (text_eq n.id j) (mark_of r j), refl)
  | inr (declared, e) ↦ elim (Option-cases (watermark s n.id)) [
    | inl w ↦ rw (e, w, resume_marks, fitting_mark) (same_if (text_eq n.id j) (mark_of r j), refl)
    | inr (mark, w) ↦ elim (Bool-cases (matches_column mark declared.column)) [
      | inl t ↦
          rw (e, w, t, resume_marks, resume_mark, fitting_mark)
            (get-insert r.options.watermarks n.id j mark.value, refl)
      | inr t ↦
          rw (e, w, t, resume_marks, resume_mark, fitting_mark)
            (same_if (text_eq n.id j) (mark_of r j), refl)
    ]
  ]
]

resume_positions-get :
    (s : PipelineState) (n : PipelineNode) (r : Remembering) (j : Text)
    → (position_of (resume_positions s n r) j ≡ (
        if text_eq n.id j
        then or_old (fitting_position n (checkpoint s n.id)) (position_of r j)
        else position_of r j))
      × (mark_of (resume_positions s n r) j ≡ mark_of r j)
unfolding resume_positions fitting_position resume_position
resume_positions-get s n r j = elim (Option-cases (checkpoint s n.id)) [
  | inl w ↦
      rw (w, resume_positions, fitting_position) (same_if (text_eq n.id j) (position_of r j), refl)
  | inr (position, w) ↦ elim (Bool-cases (text_eq position.component (component_or_default n))) [
    | inl t ↦
        rw (w, t, resume_positions, resume_position, fitting_position)
          (get-insert r.options.checkpoints n.id j position.value, refl)
    | inr t ↦
        rw (w, t, resume_positions, resume_position, fitting_position)
          (same_if (text_eq n.id j) (position_of r j), refl)
  ]
]

-- One node's turn.
abbrev turn : PipelineState → PipelineNode → Remembering → Remembering
turn s n r = resume_positions s n (resume_marks s n r)

turn-other :
    (s : PipelineState) (n : PipelineNode) (r : Remembering) (j : Text)
    → text_eq n.id j ≡ false
    → (mark_of (turn s n r) j ≡ mark_of r j) × (position_of (turn s n r) j ≡ position_of r j)
turn-other s n r j h =
    let (mark, kept) = resume_marks-get s n r j in
    let (position, same) = resume_positions-get s n (resume_marks s n r) j in
    (same ∙ (rw h at mark), (rw h at position) ∙ kept)

turn-own :
    (s : PipelineState) (n : PipelineNode) (r : Remembering)
    → mark_of r n.id ≡ none
    → position_of r n.id ≡ none
    → (mark_of (turn s n r) n.id ≡ fitting_mark n (watermark s n.id))
      × (position_of (turn s n r) n.id ≡ fitting_position n (checkpoint s n.id))
turn-own s n r no_mark no_position =
    let yes : text_eq n.id n.id ≡ true = (text_eq_iff n.id n.id).1 refl in
    let (mark, kept) = resume_marks-get s n r n.id in
    let (position, same) = resume_positions-get s n (resume_marks s n r) n.id in
    (
      same ∙ (rw yes at mark) ∙ ap (or_old (fitting_mark n (watermark s n.id))) no_mark ∙ or_none _,
      (rw yes at position)
          ∙ ap (or_old (fitting_position n (checkpoint s n.id))) (kept ∙ no_position)
          ∙ or_none _,
    )
  where
    or_none : {A : Type 0} (o : Option A) → or_old o none ≡ o
    or_none none = refl
    or_none (some a) = refl

resume_all-other :
    (s : PipelineState) (nodes : List PipelineNode) (r : Remembering) (j : Text)
    → All (λ (m : PipelineNode). text_eq j m.id ≡ false) nodes
    → (mark_of (resume_all s nodes r) j ≡ mark_of r j)
      × (position_of (resume_all s nodes r) j ≡ position_of r j)
unfolding resume_all
resume_all-other s [] r j h = (refl, refl)
resume_all-other s (n ∷ nodes) r j (h, hs) =
    let (mark, position) = turn-other s n r j (text_eq_swap j n.id h) in
    let (marks, positions) = resume_all-other s nodes (turn s n r) j hs in
    (marks ∙ mark, positions ∙ position)

abbrev IsTakenUp : PipelineState → Remembering → PipelineNode → Type 0
IsTakenUp s r n =
    (mark_of r n.id ≡ fitting_mark n (watermark s n.id))
    × (position_of r n.id ≡ fitting_position n (checkpoint s n.id))

abbrev IsNew : Remembering → PipelineNode → Type 0
IsNew r n = (mark_of r n.id ≡ none) × (position_of r n.id ≡ none)

turn-IsNew :
    (s : PipelineState) (n : PipelineNode) (nodes : List PipelineNode) (r : Remembering)
    → All (λ (m : PipelineNode). text_eq n.id m.id ≡ false) nodes
    → All (IsNew r) nodes
    → All (IsNew (turn s n r)) nodes
turn-IsNew s n [] r others new = tt
turn-IsNew s n (m ∷ nodes) r (other, others) (new, more) =
    let (mark, position) = turn-other s n r m.id other in
    ((mark ∙ new.0, position ∙ new.1), turn-IsNew s n nodes r others more)

resume_all-IsTakenUp :
    (s : PipelineState) (nodes : List PipelineNode) (r : Remembering)
    → IsDistinct nodes
    → All (IsNew r) nodes
    → All (IsTakenUp s (resume_all s nodes r)) nodes
unfolding resume_all IsDistinct
resume_all-IsTakenUp s [] r distinct new = tt
resume_all-IsTakenUp s (n ∷ nodes) r (others, distinct) (new, more) =
    let (mark, position) = turn-own s n r new.0 new.1 in
    let (marks, positions) = resume_all-other s nodes (turn s n r) n.id others in
    (
      (marks ∙ mark, positions ∙ position),
      resume_all-IsTakenUp s nodes (turn s n r) distinct (turn-IsNew s n nodes r others more),
    )

nothing_stored-IsNew : (nodes : List PipelineNode) → All (IsNew nothing_stored) nodes
unfolding get
nothing_stored-IsNew [] = tt
nothing_stored-IsNew (n ∷ nodes) = ((refl, refl), nothing_stored-IsNew nodes)

-- After a run is remembered, a document whose nodes have different ids is compiled with these values for each node:
-- the last mark that the run read for it, or, where it read none or failed, the stored one, if it was taken from the
-- column that the node declares; and the position that is kept in the same way, if it came from the node's component.
pub compile_options-remember :
    (document : PipelineDoc) (now : Text) (report : RunReport) (s : PipelineState)
    → IsDistinct document.nodes
    → All
        (λ (n : PipelineNode).
          (get (compile_options document ((remember now report s).1)).options.watermarks n.id
            ≡ fitting_mark n (
                if has_failed report
                then watermark s n.id
                else last_mark now n.id report.watermarks (watermark s n.id)))
          × (get (compile_options document ((remember now report s).1)).options.checkpoints n.id
              ≡ fitting_position n (
                  if has_failed report
                  then checkpoint s n.id
                  else last_position now n.id report.checkpoints (checkpoint s n.id))))
        document.nodes
unfolding compile_options
compile_options-remember document now report s distinct =
    let after = (remember now report s).1 in
    each document.nodes (resume_all after document.nodes nothing_stored) (
      resume_all-IsTakenUp after document.nodes nothing_stored distinct
        (nothing_stored-IsNew document.nodes))
  where
    each :
        (nodes : List PipelineNode) (r : Remembering)
        → All (IsTakenUp ((remember now report s).1) r) nodes
        → All
            (λ (n : PipelineNode).
              (mark_of r n.id
                ≡ fitting_mark n (
                    if has_failed report
                    then watermark s n.id
                    else last_mark now n.id report.watermarks (watermark s n.id)))
              × (position_of r n.id
                  ≡ fitting_position n (
                      if has_failed report
                      then checkpoint s n.id
                      else last_position now n.id report.checkpoints (checkpoint s n.id))))
            nodes
    each [] r h = tt
    each (n ∷ nodes) r ((mark, position), h) =
        let (marks, positions) = remember_lem now n.id report s in
        (
          (mark ∙ ap (fitting_mark n) marks, position ∙ ap (fitting_position n) positions),
          each nodes r h,
        )
