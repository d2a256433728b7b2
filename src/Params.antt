-- ===== src/Params.antt =====
-- crates/duckdb-engine/src/params.rs: the values behind `${...}`, in their order. The environment, the store of
-- secrets (crates/secrets), the printing of JSON and the reading of a float are the caller's.
pub mod Contract
pub mod Interpolate
pub mod Redact
use local_etl_tool.Prelude.{
  ℕ, Bool, true, false, not, ◌&&◌, ◌||◌, Option, none, some, List, [], ◌∷◌, ◌++◌, ◌==◌, Result, ok,
  err, ◌>>=◌, if◌then◌else◌, any, map,
}
use local_etl_tool.Prelude.Text.{Text, codes, text_eq}
use local_etl_tool.Prelude.Sorted.{Map, value_of, put, keys, has_key, add, add_all}
use local_etl_tool.Metadata.{JsonValue, null, boolean, number, string, array, object, ParameterSpec}

pub data ParamError : Type 0 where
  unresolved : (node property reference : Text) (known : List Text) → ParamError
  unterminated : (node property text : Text) → ParamError
  empty_reference : (node property : Text) → ParamError
  missing_required : (name : Text) → ParamError
  empty_required : (name : Text) → ParamError
  wrong_type : (name declared value article : Text) → ParamError
  unknown_context : (node property name : Text) (known : List Text) → ParamError
  missing_environment : (node property name : Text) → ParamError
  no_secret_store : (node property name : Text) → ParamError
  missing_secret : (node property name : Text) (known : List Text) → ParamError
  unreadable_secret : (node property name reason : Text) → ParamError

-- The node that an error is about.
unfoldable pub node_id : ParamError → Option Text
node_id (unresolved node property reference known) = some node
node_id (unterminated node property text) = some node
node_id (empty_reference node property) = some node
node_id (missing_required name) = none
node_id (empty_required name) = none
node_id (wrong_type name declared value article) = none
node_id (unknown_context node property name known) = some node
node_id (missing_environment node property name) = some node
node_id (no_secret_store node property name) = some node
node_id (missing_secret node property name known) = some node
node_id (unreadable_secret node property name reason) = some node

pub data ParamWarning : Type 0 where
  undeclared : (name : Text) → ParamWarning
  shadows_built_in : (name : Text) → ParamWarning

-- A store of secrets: the value of a name, if it has one, or the reason why it cannot be read.
pub record SecretStore : Type 0 where
  pub secret_of : Text → Result Text (Option Text)
  pub names : List Text

-- What the module calls.
pub record Calls : Type 0 where
  pub environment : Text → Option Text
  pub to_string : JsonValue → Text
  pub parses_as_f64 : Text → Bool

abbrev pub built_ins : List Text
built_ins = codes "workspace" ∷ codes "date" ∷ []

abbrev pub redacted : Text
redacted = codes "********"

-- `workspace` is the text of the path.
pub record Resolver : Type 0 where
  pub explicit : Map Text
  pub contexts : Map (Map Text)
  pub active : Option Text
  pub workspace : Text
  pub today : Text
  pub secrets : Option SecretStore
  pub defer_built_ins : Bool

-- `Resolver::new`; the day is what the clock says.
unfoldable pub new_resolver : Text → Text → Resolver
new_resolver workspace today = record {
  explicit = [];
  contexts = [];
  active = none;
  workspace = workspace;
  today = today;
  secrets = none;
  defer_built_ins = false;
}

unfoldable pub bind : Resolver → Text → Text → Resolver
unfolding put
bind r name value = record r { explicit = put r.explicit name value }

unfoldable pub deferring : Resolver → Resolver
deferring r = record r { defer_built_ins = true }

unfoldable pub context : Resolver → Text → Map Text → Resolver
unfolding put
context r name variables = record r { contexts = put r.contexts name variables }

unfoldable pub activate : Resolver → Option Text → Resolver
activate r name = record r { active = name }

unfoldable pub with_secrets : Resolver → SecretStore → Resolver
with_secrets r store = record r { secrets = some store }

unfoldable pub with_today : Resolver → Text → Resolver
with_today r today = record r { today = today }

unfoldable pub knows_context : Resolver → Text → Bool
unfolding value_of
knows_context r name = has_key r.contexts name

-- `replace('\\', "/")`.
unfoldable pub to_forward : Text → Text
to_forward path = map (λ c. if c == b'\x5c' then b'/' else c) path

unfoldable pub is_built_in : Text → Bool
unfolding text_eq
is_built_in name = any (text_eq name) built_ins

-- `${name}`.
abbrev pub reference_to : Text → Text
reference_to name = b'$' ∷ b'{' ∷ name ++ b'}' ∷ []

unfoldable pub built_in : Resolver → Text → Option Text
unfolding is_built_in to_forward text_eq
built_in r name =
    if not (is_built_in name)
    then none
    else if r.defer_built_ins
    then some (reference_to name)
    else if text_eq name (codes "workspace")
    then some (to_forward r.workspace)
    else if text_eq name (codes "date")
    then some r.today
    else none

unfoldable pub scalar : Calls → JsonValue → Text
scalar calls null = []
scalar calls (boolean b) = calls.to_string (boolean b)
scalar calls (number s) = calls.to_string (number s)
scalar calls (string s) = s
scalar calls (array items) = calls.to_string (array items)
scalar calls (object fields) = calls.to_string (object fields)

-- The variables of the active context.
unfoldable pub active_variables : Resolver → Option (Map Text)
unfolding value_of
active_variables r = elim r.active [ none ↦ none | some name ↦ value_of r.contexts name ]

-- The value of a parameter's default.
unfoldable pub default_of : Calls → Map ParameterSpec → Text → Option Text
unfolding value_of scalar
default_of calls declared name = elim (value_of declared name) [
  | none ↦ none
  | some spec ↦ elim spec.default [ none ↦ none | some value ↦ some (scalar calls value) ]
]

-- The first of two values that is there.
abbrev pub or_else {ℓ} : {A : Type ℓ} → Option A → Option A → Option A
or_else none b = b
or_else (some a) b = some a

abbrev pub in_variables : Option (Map Text) → Text → Option Text
in_variables none name = none
in_variables (some variables) name = value_of variables name

unfoldable pub lookup : Calls → Resolver → Text → Map ParameterSpec → Option Text
unfolding value_of active_variables default_of built_in
lookup calls r name declared = or_else (value_of r.explicit name) (
    or_else (in_variables (active_variables r) name)
      (or_else (default_of calls declared name) (built_in r name)))

abbrev pub names_in : Option (Map Text) → List Text
names_in none = []
names_in (some variables) = keys variables

unfoldable pub known : Resolver → Map ParameterSpec → List Text
unfolding add active_variables
known r declared =
    add_all (add_all (add_all (add_all [] (keys r.explicit)) (keys declared)) built_ins)
      (names_in (active_variables r))
