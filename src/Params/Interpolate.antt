-- ===== src/Params/Interpolate.antt =====
-- The interpolation of crates/duckdb-engine/src/params.rs: `resolve_one`, `interpolate`, `walk` and `resolve`. The
-- source reads bytes; it stops at `$` and `}` only, which are characters of one byte.
pub mod Exact
pub mod Recorded
mod Tests
use local_etl_tool.Prelude.{
  ℕ, zero, suc, Bool, true, false, ◌||◌, Option, none, some, List, [], ◌∷◌, ◌++◌, ◌==◌, Result, ok,
  err, ◌>>=◌, if◌then◌else◌, any, length,
}
use local_etl_tool.Prelude.Text.{Text, codes, text_eq, trim, strip_prefix}
use local_etl_tool.Prelude.Split.{split_once}
use local_etl_tool.Prelude.Sorted.{Map, value_of, put, keys, add}
use local_etl_tool.Metadata.{
  JsonValue, null, boolean, number, string, array, object, Items, no_items, item, Fields, no_fields,
  field, NodeData, PipelineNode, PipelineDoc, ParameterSpec,
}
use local_etl_tool.Params.{
  Calls, Resolver, SecretStore, ParamError, unresolved, unterminated, empty_reference,
  unknown_context, missing_environment, no_secret_store, missing_secret, unreadable_secret,
  ParamWarning, redacted, lookup, known,
}
use local_etl_tool.Params.Contract.{is_empty, check_contract}

pub record Trace : Type 0 where
  pub used : Map Text
  pub secrets : List Text

-- Where a text stands.
pub record Spot : Type 0 where
  pub node : Text
  pub property : Text

-- What the interpolation of a document is given.
pub record Given : Type 0 where
  pub calls : Calls
  pub resolver : Resolver
  pub declared : Map ParameterSpec

-- `${SECRET:name}`.
unfoldable pub secret_of_name : Given → Spot → Text → Trace → Result ParamError (Text × Trace)
unfolding add
secret_of_name given spot name trace = elim given.resolver.secrets [
  | none ↦ err (no_secret_store spot.node spot.property name)
  | some store ↦ elim (store.secret_of name) [
    | err reason ↦ err (unreadable_secret spot.node spot.property name reason)
    | ok found ↦ elim found [
      | none ↦ err (missing_secret spot.node spot.property name store.names)
      | some value ↦ ok (value, record trace { secrets = add trace.secrets value })
    ]
  ]
]

-- `${ENV:key}`.
unfoldable pub environment_of : Given → Spot → Text → Result ParamError Text
environment_of given spot key = elim (given.calls.environment key) [
  | none ↦ err (missing_environment spot.node spot.property key)
  | some value ↦ ok value
]

-- `${context.variable}`.
unfoldable pub variable_of : Given → Spot → Text → Text → Text → Result ParamError Text
unfolding value_of
variable_of given spot reference context variable =
    elim (value_of given.resolver.contexts context) [
      | none ↦ err (unknown_context spot.node spot.property context (keys given.resolver.contexts))
      | some variables ↦ elim (value_of variables variable) [
        | none ↦ err (unresolved spot.node spot.property reference (keys variables))
        | some value ↦ ok value
      ]
    ]

unfoldable pub value_of_name : Given → Spot → Text → Result ParamError Text
unfolding lookup known
value_of_name given spot reference =
    elim (lookup given.calls given.resolver reference given.declared) [
      | none ↦
          err (unresolved spot.node spot.property reference (known given.resolver given.declared))
      | some value ↦ ok value
    ]

-- A reference that is no secret, which leaves the trace alone.
unfoldable pub plain_value : Given → Spot → Text → Result ParamError Text
unfolding environment_of variable_of value_of_name strip_prefix split_once trim
plain_value given spot reference = elim (strip_prefix (codes "ENV:") reference) [
  | some key ↦ environment_of given spot (trim key)
  | none ↦ elim (split_once b'.' reference) [
    | some (context, variable) ↦ variable_of given spot reference context variable
    | none ↦ value_of_name given spot reference
  ]
]

-- The text between `${` and `}`, trimmed.
unfoldable pub resolve_trimmed : Given → Spot → Text → Trace → Result ParamError (Text × Trace)
unfolding is_empty secret_of_name plain_value strip_prefix trim
resolve_trimmed given spot reference trace =
    if is_empty reference
    then err (empty_reference spot.node spot.property)
    else elim (strip_prefix (codes "SECRET:") reference) [
      | some name ↦ secret_of_name given spot (trim name) trace
      | none ↦ plain_value given spot reference >>= λ value. ok (value, trace)
    ]

unfoldable pub resolve_one : Given → Spot → Text → Trace → Result ParamError (Text × Trace)
unfolding resolve_trimmed trim
resolve_one given spot reference trace = resolve_trimmed given spot (trim reference) trace

-- What is recorded of a value.
unfoldable pub recorded : Text → Trace → Text
unfolding text_eq
recorded value trace = if any (text_eq value) trace.secrets then redacted else value

unfoldable pub use_recorded : Text → Text → Trace → Trace
unfolding put recorded
use_recorded reference value trace = record trace {
  used = put trace.used reference (recorded value trace);
}

-- What the text at a position begins with: a text to write, a reference, or a reference that is never closed.
pub data Part : Type 0 where
  text_part : (shown rest : Text) → Part
  reference_part : (reference rest : Text) → Part
  open_part : Part

-- Behind a `$`.
unfoldable pub after_dollar : Text → Part
unfolding split_once
after_dollar [] = text_part (b'$' ∷ []) []
after_dollar (d ∷ rest) =
    if d == b'$'
    then text_part (b'$' ∷ []) rest
    else if d == b'{'
    then elim (split_once b'}' rest) [
      | none ↦ open_part
      | some (reference, after) ↦ reference_part reference after
    ]
    else text_part (b'$' ∷ []) (d ∷ rest)

unfoldable pub part_at : ℕ → Text → Part
unfolding after_dollar
part_at c s = if c == b'$' then after_dollar s else text_part (c ∷ []) s

-- The loop of `interpolate`, from a position on, with what is written so far; each round takes a character at least,
-- so the length of the text is fuel enough. `whole` is the text itself, for the error.
unfoldable pub interpolate_from :
    ℕ → Given → Spot → Text → Text → Text → Trace → Result ParamError (Text × Trace)
unfolding part_at resolve_one use_recorded
interpolate_from zero given spot whole s out trace = ok (out, trace)
interpolate_from (suc fuel) given spot whole [] out trace = ok (out, trace)
interpolate_from (suc fuel) given spot whole (c ∷ s) out trace = elim (part_at c s) [
  | text_part shown rest ↦ interpolate_from fuel given spot whole rest (out ++ shown) trace
  | reference_part reference rest ↦ resolve_one given spot reference trace >>= λ found.
      interpolate_from fuel given spot whole rest (out ++ found.0)
        (use_recorded reference (found.0) (found.1))
  | open_part ↦ err (unterminated spot.node spot.property whole)
]

unfoldable pub interpolate : Given → Spot → Text → Trace → Result ParamError (Text × Trace)
unfolding interpolate_from
interpolate given spot text trace = interpolate_from (length text) given spot text text [] trace

unfoldable mutual
  unfolding interpolate

  pub walk : Given → Spot → JsonValue → Trace → Result ParamError (JsonValue × Trace)
  walk given spot null trace = ok (null, trace)
  walk given spot (boolean b) trace = ok (boolean b, trace)
  walk given spot (number n) trace = ok (number n, trace)
  walk given spot (string text) trace =
      interpolate given spot text trace >>= λ written. ok (string (written.0), written.1)
  walk given spot (array items) trace =
      walk_items given spot items trace >>= λ walked. ok (array (walked.0), walked.1)
  walk given spot (object fields) trace =
      walk_fields given spot.node fields trace >>= λ walked. ok (object (walked.0), walked.1)

  pub walk_items : Given → Spot → Items → Trace → Result ParamError (Items × Trace)
  walk_items given spot no_items trace = ok (no_items, trace)
  walk_items given spot (item value items) trace = walk given spot value trace >>= λ first.
      walk_items given spot items (first.1) >>= λ rest. ok (item (first.0) (rest.0), rest.1)

  -- The key names the property.
  pub walk_fields : Given → Text → Fields → Trace → Result ParamError (Fields × Trace)
  walk_fields given node no_fields trace = ok (no_fields, trace)
  walk_fields given node (field key value fields) trace =
      walk given (record { node = node; property = key }) value trace >>= λ first.
      walk_fields given node fields (first.1) >>= λ rest. ok (field key (first.0) (rest.0), rest.1)

unfoldable pub resolve_node :
    Given → PipelineNode → Trace → Result ParamError (PipelineNode × Trace)
unfolding walk
resolve_node given node trace = elim node.node_data.properties [
  | none ↦ ok (node, trace)
  | some properties ↦
      walk given (record { node = node.id; property = codes "properties" }) properties trace
      >>= λ walked. ok (
        record node { node_data = record (node.node_data) { properties = some (walked.0) } },
        walked.1,
      )
]

-- The loop over the nodes.
unfoldable pub resolve_nodes :
    Given → List PipelineNode → Trace → Result ParamError (List PipelineNode × Trace)
unfolding resolve_node
resolve_nodes given [] trace = ok ([], trace)
resolve_nodes given (node ∷ nodes) trace = resolve_node given node trace >>= λ first.
    resolve_nodes given nodes (first.1) >>= λ rest. ok (first.0 ∷ rest.0, rest.1)

pub record Resolved : Type 0 where
  pub document : PipelineDoc
  pub warnings : List ParamWarning
  pub used : Map Text
  pub secrets : List Text

abbrev pub no_trace : Trace
no_trace = record { used = []; secrets = [] }

unfoldable pub resolve : Calls → PipelineDoc → Resolver → Result ParamError Resolved
unfolding check_contract resolve_nodes
resolve calls doc r = check_contract calls doc.parameters r >>= λ warnings.
    resolve_nodes (record { calls = calls; resolver = r; declared = doc.parameters }) doc.nodes
      no_trace
    >>= λ walked. ok (record {
      document = record doc { nodes = walked.0 };
      warnings = warnings;
      used = walked.1.used;
      secrets = walked.1.secrets;
    })
