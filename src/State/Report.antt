-- ===== src/State/Report.antt =====
-- crates/duckdb-engine/src/remember.rs: a finished run, folded into what the workspace remembers. The time of a record is an argument, since the source reads the clock for it.
use local_etl_tool.Prelude.{
  ◌≡◌, refl, ap, ◌∙◌, inl, inr, Bool, true, false, ◌||◌, Option, none, some, List, [], ◌∷◌, ◌++◌,
  if◌then◌else◌, Bool-cases, Option-cases,
}
use local_etl_tool.Prelude.Text.{Text, text_eq}
use local_etl_tool.Exec.{LoadedMark, SavedPosition, RunReport, has_failed}
use local_etl_tool.State.Remember.{
  Watermark, Checkpoint, PipelineState, watermark, checkpoint, advance, record_checkpoint,
  watermark-advance, checkpoint-record_checkpoint,
}

abbrev pub has_any {ℓ} : {A : Type ℓ} → List A → Bool
has_any [] = false
has_any (a ∷ rest) = true

pub record Remembered : Type 0 where
  pub advanced : List (Text × Text)
  pub nothing_new : List Text
  pub positions : List Text

abbrev pub nothing_remembered : Remembered
nothing_remembered = record { advanced = []; nothing_new = []; positions = [] }

unfoldable pub has_changed : Remembered → Bool
has_changed r = has_any r.advanced || has_any r.positions

-- The first loop.
unfoldable pub fold_marks :
    Text → List LoadedMark → Remembered → PipelineState → Remembered × PipelineState
unfolding advance
fold_marks now [] r s = (r, s)
fold_marks now (mark ∷ marks) r s = elim mark.value [
  | none ↦ fold_marks now marks (record r { nothing_new = r.nothing_new ++ mark.node_id ∷ [] }) s
  | some value ↦
      fold_marks now marks (record r { advanced = r.advanced ++ (mark.node_id, value) ∷ [] })
        (advance s mark.node_id mark.column value now)
]

-- The second loop.
unfoldable pub fold_positions :
    Text → List SavedPosition → Remembered → PipelineState → Remembered × PipelineState
unfolding record_checkpoint
fold_positions now [] r s = (r, s)
fold_positions now (p ∷ ps) r s =
    fold_positions now ps (record r { positions = r.positions ++ p.node_id ∷ [] })
      (record_checkpoint s p.node_id p.component_id p.value now)

unfoldable pub remember : Text → RunReport → PipelineState → Remembered × PipelineState
unfolding has_failed fold_marks fold_positions
remember now report s =
    if has_failed report
    then (nothing_remembered, s)
    else let (r, marked) = fold_marks now report.watermarks nothing_remembered s in
      fold_positions now report.checkpoints r marked

-- The last mark of a node that has a value, as it is kept.
unfoldable pub last_mark : Text → Text → List LoadedMark → Option Watermark → Option Watermark
unfolding text_eq
last_mark now node [] old = old
last_mark now node (mark ∷ marks) old = last_mark now node marks (elim mark.value [
  | none ↦ old
  | some value ↦
      if text_eq mark.node_id node
      then some (record { value = value; column = mark.column; at_time = now; extra = [] })
      else old
])

-- The last position of a node, as it is kept.
unfoldable pub last_position :
    Text → Text → List SavedPosition → Option Checkpoint → Option Checkpoint
unfolding text_eq
last_position now node [] old = old
last_position now node (p ∷ ps) old = last_position now node ps (
    if text_eq p.node_id node
    then some (record { component = p.component_id; value = p.value; at_time = now; extra = [] })
    else old)

fold_marks-watermark :
    (now node : Text) (marks : List LoadedMark) (r : Remembered) (s : PipelineState)
    → (watermark ((fold_marks now marks r s).1) node ≡ last_mark now node marks (watermark s node))
      × (checkpoint ((fold_marks now marks r s).1) node ≡ checkpoint s node)
unfolding fold_marks last_mark
fold_marks-watermark now node [] r s = (refl, refl)
fold_marks-watermark now node (mark ∷ marks) r s = elim (Option-cases mark.value) [
  | inl e ↦
      let rest =
        fold_marks-watermark now node marks
          (record r { nothing_new = r.nothing_new ++ mark.node_id ∷ [] }) s in
      rw (e, fold_marks, last_mark) rest
  | inr (value, e) ↦
      let (first, same) = watermark-advance s mark.node_id mark.column value now node in
      let (rest, kept) =
        fold_marks-watermark now node marks
          (record r { advanced = r.advanced ++ (mark.node_id, value) ∷ [] })
          (advance s mark.node_id mark.column value now) in
      rw (e, fold_marks, last_mark) (rest ∙ ap (last_mark now node marks) first, kept ∙ same)
]

fold_positions-checkpoint :
    (now node : Text) (ps : List SavedPosition) (r : Remembered) (s : PipelineState)
    → (watermark ((fold_positions now ps r s).1) node ≡ watermark s node)
      × (checkpoint ((fold_positions now ps r s).1) node
          ≡ last_position now node ps (checkpoint s node))
unfolding fold_positions last_position
fold_positions-checkpoint now node [] r s = (refl, refl)
fold_positions-checkpoint now node (p ∷ ps) r s =
    let (same, first) = checkpoint-record_checkpoint s p.node_id p.component_id p.value now node in
    let (kept, rest) =
      fold_positions-checkpoint now node ps (record r { positions = r.positions ++ p.node_id ∷ [] })
        (record_checkpoint s p.node_id p.component_id p.value now) in
    (kept ∙ same, rest ∙ ap (last_position now node ps) first)

-- A run that failed changes nothing. After one that did not, a node's watermark is the last one of the report that
-- has a value, and its checkpoint the last one of the report; without one, each is what it was.
pub remember_lem :
    (now node : Text) (report : RunReport) (s : PipelineState)
    → (watermark ((remember now report s).1) node ≡ (
        if has_failed report
        then watermark s node
        else last_mark now node report.watermarks (watermark s node)))
      × (checkpoint ((remember now report s).1) node ≡ (
          if has_failed report
          then checkpoint s node
          else last_position now node report.checkpoints (checkpoint s node)))
unfolding remember
remember_lem now node report s = elim (Bool-cases (has_failed report)) [
  | inl e ↦ rw e (refl, refl)
  | inr e ↦
      let (marks, kept) = fold_marks-watermark now node report.watermarks nothing_remembered s in
      let (r, marked) = fold_marks now report.watermarks nothing_remembered s in
      let (same, positions) = fold_positions-checkpoint now node report.checkpoints r marked in
      rw e (same ∙ marks, positions ∙ ap (last_position now node report.checkpoints) kept)
]
