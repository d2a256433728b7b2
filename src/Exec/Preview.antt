-- ===== src/Exec/Preview.antt =====
-- `preview` of crates/duckdb-engine/src/exec.rs: the rows of one node, read without its sinks.
pub mod Bounds
use local_etl_tool.Prelude.{
  ℕ, zero, suc, ◌+◌, ◌≤◌, ◌≡◌, refl, ap, ◌∙◌, inl, inr, Bool, true, false, Option, none, some, List,
  [], ◌∷◌, ◌++◌, if◌then◌else◌, Result, ok, err, arith, ltb, min, max, any, length, Option-cases,
  Bool-cases,
}
use local_etl_tool.Prelude.Text.{Text, codes, text_eq, trim}
use local_etl_tool.Prelude.Decimal.{shown}
use local_etl_tool.Params.Redact.{mask_all}
use local_etl_tool.Metadata.{
  JsonValue, array, object, Items, no_items, item, Fields, no_fields, field,
}
use local_etl_tool.Session.{Answer, has_message}
use local_etl_tool.Sql.{quote_path, quote_identifier}
use local_etl_tool.Plan.Query.{
  Stage, Plan, upto, extensions, spills, is_native_transform, is_nothing,
}
use local_etl_tool.Exec.{
  ExecError, stage_failed, run_failed, no_such_node, cannot_preview, RunOptions, last_of,
}
use local_etl_tool.Exec.Around.{
  Outside, Effect, pure, throw, always, change, in_session, ◌>>=◌, ◌>>◌, bind-ok, pure-ok, throw-ok,
}
use local_etl_tool.Exec.Driven.{open_driven}

pub record Preview : Type 0 where
  pub node_id : Text
  pub columns : List Text
  pub rows : List JsonValue
  pub truncated : Bool

abbrev pub preview_limit_max : ℕ
preview_limit_max = 500

-- `clamp(1, PREVIEW_LIMIT_MAX)`.
unfoldable pub clamped : ℕ → ℕ
clamped limit = min (max limit 1) preview_limit_max

unfoldable pub limit_query : Text → ℕ → Text
unfolding quote_identifier shown
limit_query node_id limit =
    codes "SELECT * FROM "
    ++ quote_identifier node_id
    ++ codes " LIMIT "
    ++ shown (limit + 1)
    ++ codes ";"

abbrev pub items_list : Items → List JsonValue
items_list no_items = []
items_list (item value rest) = value ∷ items_list rest

-- The rows of the last value; none where it is no array.
unfoldable pub rows_in_last : List JsonValue → List JsonValue
unfolding last_of
rows_in_last values = elim (last_of values) [
  | none ↦ []
  | some value ↦ elim value [ array items ↦ items_list items | _ ↦ [] ]
]

abbrev pub keys_of : Fields → List Text
keys_of no_fields = []
keys_of (field key value rest) = key ∷ keys_of rest

unfoldable pub columns_of : List JsonValue → List Text
columns_of [] = []
columns_of (row ∷ rows) = elim row [ object members ↦ keys_of members | _ ↦ [] ]

-- `truncate`.
unfoldable pub take : ℕ → List JsonValue → List JsonValue
take zero rows = []
take (suc n) [] = []
take (suc n) (row ∷ rows) = row ∷ take n rows

-- The script of an ordinary preview; `directory` is what `locate_extension_dir` found.
unfoldable pub preview_script : Plan → List Stage → (directory : Option Text) → Text → Text
unfolding extensions quote_path
preview_script plan stages directory query =
    (elim directory [
      | none ↦ []
      | some path ↦
          if is_nothing (extensions plan)
          then []
          else codes "SET extension_directory=" ++ quote_path path ++ codes ";\n"
    ])
    ++ loads (extensions plan)
    ++ statements stages
    ++ query
    ++ codes "\n"
  where
    loads : List Text → Text
    loads [] = []
    loads (extension ∷ rest) = codes "LOAD " ++ extension ++ codes ";\n" ++ loads rest

    statements : List Stage → Text
    statements [] = []
    statements (s ∷ stages) = s.sql ++ codes "\n" ++ statements stages

module _ {W : Type 0} (outside : Outside W) (options : RunOptions) where
  unfoldable pub stage_failure : {A : Type 0} → Stage → Text → Effect W A
  unfolding mask_all
  stage_failure s message = throw (stage_failed s.node_id s.label (mask_all options.redact message))

  -- The Rust half of a transform.
  unfoldable pub preview_transform : Stage → Effect W (Unit {0})
  unfolding stage_failure
  preview_transform s =
      if is_native_transform s
      then (do
        moved ← outside.run_transform s
        elim moved [ ok text ↦ pure tt | err message ↦ stage_failure s message ])
      else pure tt

  unfoldable pub preview_stage : Stage → Effect W (Unit {0})
  unfolding preview_transform stage_failure has_message trim
  preview_stage s = do
    preview_transform s
    answer ← in_session (outside.execute s.sql)
    if has_message answer then stage_failure s (trim answer.stderr) else pure tt

  unfoldable pub preview_stages : List Stage → Effect W (Unit {0})
  unfolding preview_stage
  preview_stages [] = pure tt
  preview_stages (s ∷ stages) = preview_stage s >> preview_stages stages

  unfoldable pub preview_in_session : Plan → List Stage → Text → Effect W (List JsonValue)
  unfolding open_driven preview_stages has_message mask_all trim rows_in_last extensions spills
  preview_in_session plan stages query = do
    open_driven outside options (extensions plan)
    preview_stages stages
    answer ← in_session (outside.execute query)
    change outside.close
    always (outside.clear_spills (spills plan))
    if has_message answer
        then throw (run_failed (mask_all options.redact (trim answer.stderr)))
        else pure (rows_in_last answer.values)

  -- The child's own message is an inner error.
  unfoldable pub preview_in_one_script :
      Plan → List Stage → (directory : Option Text) → Text → Effect W (List JsonValue)
  unfolding preview_script rows_in_last mask_all trim spills
  preview_in_one_script plan stages directory query = do
    output ← outside.run_script (preview_script plan stages directory query)
    always (outside.clear_spills (spills plan))
    elim output [
      | err stderr ↦ throw (run_failed (mask_all options.redact (trim stderr)))
      | ok values ↦ pure (rows_in_last values)
    ]

  unfoldable pub preview_rows :
      Plan → List Stage → (directory : Option Text) → Text → Effect W (List JsonValue)
  unfolding preview_in_session preview_in_one_script
  preview_rows plan stages directory query =
      if any is_native_transform stages
      then preview_in_session plan stages query
      else preview_in_one_script plan stages directory query

  unfoldable pub shown_rows : Text → ℕ → List JsonValue → Preview
  unfolding take columns_of
  shown_rows node_id limit rows =
      let kept = take limit rows in
      record {
        node_id = node_id;
        columns = columns_of kept;
        rows = kept;
        truncated = ltb limit (length rows);
      }

  unfoldable pub preview_of :
      Plan → Text → ℕ → (directory : Option Text) → List Stage → Effect W Preview
  unfolding preview_rows limit_query shown_rows clamped text_eq
  preview_of plan node_id limit directory stages =
      if any (λ s. text_eq s.node_id node_id) stages
      then (do
        outside.stage_sources stages
        rows ← preview_rows plan stages directory (limit_query node_id (clamped limit))
        pure (shown_rows node_id (clamped limit) rows))
      else throw (cannot_preview node_id)

  unfoldable pub preview : Plan → Text → ℕ → (directory : Option Text) → Effect W Preview
  unfolding upto preview_of
  preview plan node_id limit directory = elim (upto plan node_id) [
    | none ↦ throw (no_such_node node_id)
    | some stages ↦ preview_of plan node_id limit directory stages
  ]
