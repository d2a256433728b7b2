-- ===== src/Params/Contract/Sources.antt =====
-- Where `lookup` of crates/duckdb-engine/src/params.rs finds the value of a name.
use local_etl_tool.Prelude.{
  ◌≡◌, refl, sym, ◌∙◌, ◌⊎◌, arith, Option, none, some, inl, inr, Option-cases,
}
use local_etl_tool.Prelude.Text.{Text}
use local_etl_tool.Prelude.Sorted.{Map, value_of}
use local_etl_tool.Metadata.{ParameterSpec, JsonValue}
use local_etl_tool.Params.{
  Calls, Resolver, lookup, scalar, built_in, active_variables, default_of, in_variables,
}

-- The active context has the variable.
pub data InContext (r : Resolver) (name : Text) : Text → Type 0 where
  in_context :
      {context : Text} {variables : Map Text} {value : Text}
      → r.active ≡ some context
      → value_of r.contexts context ≡ some variables
      → value_of variables name ≡ some value
      → InContext r name value

-- The parameter is declared with a default, which is written so.
pub data IsDefault (calls : Calls) (declared : Map ParameterSpec) (name : Text)
    : Text → Type 0 where
  has_default :
      {spec : ParameterSpec} {value : JsonValue}
      → value_of declared name ≡ some spec
      → spec.default ≡ some value
      → IsDefault calls declared name (scalar calls value)

abbrev pub IsNowhere : (Text → Type 0) → Type 0
IsNowhere P = (value : Text) → ¬ P value

-- A value that was given comes before one of the active context, that before a default, and that before a built-in.
pub data Resolves (calls : Calls) (r : Resolver) (declared : Map ParameterSpec) (name : Text)
    : Option Text → Type 0 where
  given :
      {value : Text}
      → value_of r.explicit name ≡ some value
      → Resolves calls r declared name (some value)
  of_context :
      {value : Text}
      → value_of r.explicit name ≡ none
      → InContext r name value
      → Resolves calls r declared name (some value)
  of_default :
      {value : Text}
      → value_of r.explicit name ≡ none
      → IsNowhere (InContext r name)
      → IsDefault calls declared name value
      → Resolves calls r declared name (some value)
  of_built_in :
      value_of r.explicit name ≡ none
      → IsNowhere (InContext r name)
      → IsNowhere (IsDefault calls declared name)
      → Resolves calls r declared name (built_in r name)

some-none : {A : Type 0} (a : A) → ¬ (none ≡ some a)
some-none a h = ground arith

InContext-found :
    (r : Resolver) (name value : Text)
    → InContext r name value
    → in_variables (active_variables r) name ≡ some value
unfolding active_variables
InContext-found r name value (in_context on there here) = rw (on, there) here

found-InContext :
    (r : Resolver) (name value : Text)
    → in_variables (active_variables r) name ≡ some value
    → InContext r name value
unfolding active_variables
found-InContext r name value h = elim (Option-cases r.active) [
  | inl off ↦ absurd (some-none value ((rw (off, active_variables) at h)))
  | inr (context, on) ↦ elim (Option-cases (value_of r.contexts context)) [
    | inl lost ↦ absurd (some-none value ((rw (on, lost, active_variables) at h)))
    | inr (variables, there) ↦ in_context on there (rw (on, there, active_variables) at h)
  ]
]

IsDefault-found :
    (calls : Calls) (declared : Map ParameterSpec) (name value : Text)
    → IsDefault calls declared name value
    → default_of calls declared name ≡ some value
unfolding default_of
IsDefault-found calls declared name value (has_default there has) = rw (there, has, default_of) refl

found-IsDefault :
    (calls : Calls) (declared : Map ParameterSpec) (name : Text)
    → (default_of calls declared name ≡ none)
      ⊎ ((value : Text) × (default_of calls declared name ≡ some value)
          × IsDefault calls declared name value)
unfolding default_of
found-IsDefault calls declared name = elim (Option-cases (value_of declared name)) [
  | inl lost ↦ inl (rw (lost, default_of) refl)
  | inr (spec, there) ↦ elim (Option-cases spec.default) [
    | inl unset ↦ inl (rw (there, unset, default_of) refl)
    | inr (value, has) ↦
        inr (scalar calls value, rw (there, has, default_of) refl, has_default there has)
  ]
]

-- `lookup` looks in the four places in their order.
pub lookup-Resolves :
    (calls : Calls) (r : Resolver) (declared : Map ParameterSpec) (name : Text)
    → Resolves calls r declared name (lookup calls r name declared)
unfolding lookup
lookup-Resolves calls r declared name = elim (Option-cases (value_of r.explicit name)) [
  | inr (value, e) ↦ rw e (given e)
  | inl e ↦ elim (Option-cases (in_variables (active_variables r) name)) [
    | inr (value, f) ↦ rw (e, f) (of_context e (found-InContext r name value f))
    | inl f ↦
        let nowhere : IsNowhere (InContext r name) =
          λ value c. some-none value (sym f ∙ InContext-found r name value c) in
        elim (found-IsDefault calls declared name) [
          | inr (value, d, has) ↦ rw (e, f, d) (of_default e nowhere has)
          | inl d ↦
              rw (e, f, d)
                (of_built_in e nowhere (λ value has.
                  some-none value (sym d ∙ IsDefault-found calls declared name value has)))
        ]
  ]
]
