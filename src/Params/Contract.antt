-- ===== src/Params/Contract.antt =====
-- The contract of crates/duckdb-engine/src/params.rs: the declared parameters, before anything is substituted.
pub mod Sources
pub mod Met
use local_etl_tool.Prelude.{
  ℕ, Bool, true, false, not, ◌&&◌, ◌||◌, Option, none, some, List, [], ◌∷◌, ◌++◌, ◌==◌, Result, ok,
  err, ◌>>=◌, if◌then◌else◌, any, all, length,
}
use local_etl_tool.Prelude.Text.{Text, codes, text_eq, trim, is_ascii_digit}
use local_etl_tool.Prelude.Split.{split, parse_i64}
use local_etl_tool.Prelude.Sorted.{Map, value_of, has_key}
use local_etl_tool.Metadata.{ParameterSpec}
use local_etl_tool.Params.{
  Calls, Resolver, ParamError, missing_required, empty_required, wrong_type, ParamWarning,
  undeclared, shadows_built_in, is_built_in, lookup,
}

-- The text before the first `T` or space: what `split` gives first.
unfoldable pub before_time : Text → Text
before_time [] = []
before_time (c ∷ s) = if c == b'T' || c == b' ' then [] else c ∷ before_time s

unfoldable pub is_empty : Text → Bool
is_empty [] = true
is_empty (c ∷ s) = false

-- One digit or more.
unfoldable pub is_number : Text → Bool
unfolding is_empty is_ascii_digit
is_number part = not (is_empty part) && all is_ascii_digit part

unfoldable pub is_date : List Text → Bool
unfolding is_number
is_date [] = false
is_date (year ∷ rest) =
    length (year ∷ rest) == 3 && (length year == 4 && all is_number (year ∷ rest))

unfoldable pub looks_like_a_date : Text → Bool
unfolding before_time split is_date
looks_like_a_date value = is_date (split b'-' (before_time value))

abbrev pub is_some {ℓ} : {A : Type ℓ} → Option A → Bool
is_some none = false
is_some (some a) = true

-- Whether a value is of a declared type; a type that is not known is not checked.
unfoldable pub acceptable : Calls → Text → Text → Bool
unfolding text_eq trim parse_i64 looks_like_a_date
acceptable calls declared value =
    if text_eq declared (codes "string") || text_eq declared (codes "text")
    then true
    else if text_eq declared (codes "integer") || text_eq declared (codes "int")
    then is_some (parse_i64 (trim value))
    else if text_eq declared (codes "number") || text_eq declared (codes "float")
    then calls.parses_as_f64 (trim value)
    else if text_eq declared (codes "boolean") || text_eq declared (codes "bool")
    then text_eq (trim value) (codes "true") || text_eq (trim value) (codes "false")
    else if text_eq declared (codes "date")
    then looks_like_a_date (trim value)
    else true

-- `a` or `an`.
unfoldable pub article_of : Text → Text
article_of [] = codes "a"
article_of (c ∷ s) = if any (λ vowel. c == vowel) (codes "aeiou") then codes "an" else codes "a"

unfoldable pub check_type : Calls → Text → ParameterSpec → Text → Result ParamError (Unit {0})
unfolding acceptable article_of
check_type calls name spec value = elim spec.param_type [
  | none ↦ ok tt
  | some declared ↦
      if acceptable calls declared value
      then ok tt
      else err (wrong_type name declared value (article_of declared))
]

-- `unwrap_or(false)`.
abbrev pub is_required : ParameterSpec → Bool
is_required spec = elim spec.required [ none ↦ false | some b ↦ b ]

-- The `match` on the value of a parameter.
unfoldable pub check_value :
    Calls → Text → ParameterSpec → Option Text → Result ParamError (Unit {0})
unfolding trim is_empty check_type
check_value calls name spec none = if is_required spec then err (missing_required name) else ok tt
check_value calls name spec (some value) =
    if is_required spec && is_empty (trim value)
    then err (empty_required name)
    else check_type calls name spec value

-- The first loop; `declared` holds all the parameters.
unfoldable pub check_parameters :
    Calls
    → Resolver
    → Map ParameterSpec
    → Map ParameterSpec
    → List ParamWarning
    → Result ParamError (List ParamWarning)
unfolding is_built_in lookup check_value
check_parameters calls r declared [] warnings = ok warnings
check_parameters calls r declared ((name, spec) ∷ parameters) warnings =
    let warned = warnings ++ (if is_built_in name then shadows_built_in name ∷ [] else []) in
    check_value calls name spec (lookup calls r name declared) >>= λ _.
    check_parameters calls r declared parameters warned

-- The second loop.
unfoldable pub undeclared_names : Map ParameterSpec → Map Text → List ParamWarning
unfolding value_of
undeclared_names declared [] = []
undeclared_names declared ((name, value) ∷ explicit) =
    let rest = undeclared_names declared explicit in
    if has_key declared name then rest else undeclared name ∷ rest

unfoldable pub check_contract :
    Calls → Map ParameterSpec → Resolver → Result ParamError (List ParamWarning)
unfolding check_parameters undeclared_names
check_contract calls declared r = check_parameters calls r declared declared [] >>= λ warnings.
    ok (warnings ++ undeclared_names declared r.explicit)
