-- ===== src/State/Resume.antt =====
-- `compile_options` of crates/duckdb-engine/src/remember.rs: what a stored state means for compiling a document.
pub mod Fits
use local_etl_tool.Prelude.{
  Bool, true, false, Option, none, some, List, [], ◌∷◌, ◌++◌, if◌then◌else◌,
}
use local_etl_tool.Prelude.Text.{Text, codes, text_eq}
use local_etl_tool.Metadata.{JsonValue, PipelineNode, PipelineDoc}
use local_etl_tool.State.Remember.{
  Watermark, Checkpoint, PipelineState, watermark, checkpoint, insert,
}

pub record CompileOptions : Type 0 where
  pub watermarks : List (Text × Text)
  pub checkpoints : List (Text × JsonValue)

pub record Remembering : Type 0 where
  pub options : CompileOptions
  pub warnings : List Text

unfoldable pub matches_column : Watermark → Text → Bool
unfolding text_eq
matches_column mark column = text_eq mark.column column

abbrev pub component_or_default : PipelineNode → Text
component_or_default n = elim n.node_data.component_id [ none ↦ [] | some component ↦ component ]

abbrev pub with_mark : Text → Text → Remembering → Remembering
with_mark id value r = record r {
  options = record r.options { watermarks = insert r.options.watermarks id value };
}

abbrev pub with_position : Text → JsonValue → Remembering → Remembering
with_position id value r = record r {
  options = record r.options { checkpoints = insert r.options.checkpoints id value };
}

abbrev pub warned : Text → Remembering → Remembering
warned text r = record r { warnings = r.warnings ++ text ∷ [] }

-- The first half of the body of the loop, for a watermark that is stored.
unfoldable pub resume_mark : Text → Text → Watermark → Remembering → Remembering
unfolding matches_column insert
resume_mark id column mark r =
    if matches_column mark column
    then with_mark id mark.value r
    else warned
        (codes "'"
          ++ id
          ++ codes "' now watches '"
          ++ column
          ++ codes "' but its watermark was taken from '"
          ++ mark.column
          ++ codes "'; reading from the start")
        r

-- The second half, for a checkpoint that is stored.
unfoldable pub resume_position : Text → Text → Checkpoint → Remembering → Remembering
unfolding text_eq insert
resume_position id component position r =
    if text_eq position.component component
    then with_position id position.value r
    else warned
        (codes "'"
          ++ id
          ++ codes "' is now '"
          ++ component
          ++ codes "' but its saved position came from '"
          ++ position.component
          ++ codes "'; reading from the start")
        r

unfoldable pub resume_marks : PipelineState → PipelineNode → Remembering → Remembering
unfolding resume_mark watermark
resume_marks stored n r = elim n.node_data.incremental [
  | none ↦ r
  | some declared ↦ elim (watermark stored n.id) [
    | none ↦ r
    | some mark ↦ resume_mark n.id declared.column mark r
  ]
]

unfoldable pub resume_positions : PipelineState → PipelineNode → Remembering → Remembering
unfolding resume_position checkpoint
resume_positions stored n r = elim (checkpoint stored n.id) [
  | none ↦ r
  | some position ↦ resume_position n.id (component_or_default n) position r
]

unfoldable pub resume_all : PipelineState → List PipelineNode → Remembering → Remembering
unfolding resume_marks resume_positions
resume_all stored [] r = r
resume_all stored (n ∷ nodes) r =
    resume_all stored nodes (resume_positions stored n (resume_marks stored n r))

abbrev pub nothing_stored : Remembering
nothing_stored = record { options = record { watermarks = []; checkpoints = [] }; warnings = [] }

unfoldable pub compile_options : PipelineDoc → PipelineState → Remembering
unfolding resume_all
compile_options document stored = resume_all stored document.nodes nothing_stored
