-- ===== src/Params/Contract/Met.antt =====
-- When the contract of crates/duckdb-engine/src/params.rs is met.
use local_etl_tool.Prelude.{
  ◌≡◌, ◌↔◌, refl, inl, inr, true, false, ◌&&◌, Option, none, some, List, [], ◌∷◌, ◌++◌, Result, ok,
  if◌then◌else◌, All, arith, bind-ok, Bool-cases, Option-cases,
}
use local_etl_tool.Prelude.Text.{Text, trim}
use local_etl_tool.Prelude.Sorted.{Map}
use local_etl_tool.Metadata.{ParameterSpec}
use local_etl_tool.Params.{
  Calls, Resolver, ParamError, ParamWarning, lookup, is_built_in, shadows_built_in,
}
use local_etl_tool.Params.Contract.Sources.{Resolves, lookup-Resolves}
use local_etl_tool.Params.Contract.{
  is_empty, acceptable, check_type, is_required, check_value, check_parameters, undeclared_names,
  check_contract,
}

-- A value is of the type that is declared for it, if one is.
pub IsOfType : Calls → Option Text → Text → Type 0
IsOfType calls none value = Unit
IsOfType calls (some declared) value = acceptable calls declared value ≡ true

-- A parameter that is required has a value that is not blank, and a value is of the declared type.
pub IsMet : Calls → ParameterSpec → Option Text → Type 0
IsMet calls spec none = is_required spec ≡ false
IsMet calls spec (some value) =
    ((is_required spec && is_empty (trim value)) ≡ false) × IsOfType calls spec.param_type value

check_type-IsOfType :
    (calls : Calls) (name value : Text) (spec : ParameterSpec)
    → (check_type calls name spec value ≡ ok tt) ↔ IsOfType calls spec.param_type value
unfolding check_type IsOfType
check_type-IsOfType calls name value spec = elim (Option-cases spec.param_type) [
  | inl e ↦ rw e ((λ _. tt), (λ _. refl))
  | inr (declared, e) ↦ elim (Bool-cases (acceptable calls declared value)) [
    | inl g ↦ rw (e, g) ((λ _. refl), (λ _. refl))
    | inr g ↦ rw (e, g) ((λ h. absurd (ground arith)), (λ h. absurd (ground arith)))
  ]
]

check_value-IsMet :
    (calls : Calls) (name : Text) (spec : ParameterSpec) (value : Option Text)
    → (check_value calls name spec value ≡ ok tt) ↔ IsMet calls spec value
unfolding check_value IsMet
check_value-IsMet calls name spec none = elim (Bool-cases (is_required spec)) [
  | inl e ↦ rw e ((λ h. absurd (ground arith)), (λ h. absurd (ground arith)))
  | inr e ↦ rw e ((λ _. refl), (λ _. refl))
]
check_value-IsMet calls name spec (some value) =
    let typed = check_type-IsOfType calls name value spec in
    elim (Bool-cases (is_required spec && is_empty (trim value))) [
      | inl e ↦ rw e ((λ h. absurd (ground arith)), (λ h. absurd (ground arith)))
      | inr e ↦ rw e ((λ h. (refl, typed.0 h)), (λ h. typed.1 (h.1)))
    ]

unit_ok : (r : Result ParamError (Unit {0})) (u : Unit {0}) → r ≡ ok u → r ≡ ok tt
unit_ok r tt h = h

check_parameters-IsMet :
    (calls : Calls) (r : Resolver) (declared parameters : Map ParameterSpec)
    (warnings : List ParamWarning)
    → ((w : List ParamWarning) × (check_parameters calls r declared parameters warnings ≡ ok w))
      ↔ All (λ p. IsMet calls (p.1) (lookup calls r (p.0) declared)) parameters
unfolding check_parameters
check_parameters-IsMet calls r declared [] warnings = ((λ _. tt), (λ _. (warnings, refl)))
check_parameters-IsMet calls r declared ((name, spec) ∷ parameters) warnings =
    let value = lookup calls r name declared in
    let warned = warnings ++ (if is_built_in name then shadows_built_in name ∷ [] else []) in
    let first = check_value-IsMet calls name spec value in
    let others = check_parameters-IsMet calls r declared parameters warned in
    (
      (λ (w, h).
          let (u, checked, rest) = bind-ok (check_value calls name spec value) _ h in
          (first.0 (unit_ok (check_value calls name spec value) u checked), others.0 (w, rest))),
      (λ (met, rest). let checked = first.1 met in let (w, h) = others.1 rest in (w, rw checked h)),
    )

-- The contract is accepted exactly when every declared parameter is met by what its name resolves to: one that is
-- required has a value, which is not blank, and a value that there is is of the declared type. And a name resolves to
-- the value that was given for it, without one to that of the active context, then to the default of the declared
-- parameter, and then to the built-in.
pub check_contract-IsMet :
    (calls : Calls) (declared : Map ParameterSpec) (r : Resolver)
    → (((w : List ParamWarning) × (check_contract calls declared r ≡ ok w))
        ↔ All (λ p. IsMet calls (p.1) (lookup calls r (p.0) declared)) declared)
      × ((name : Text) → Resolves calls r declared name (lookup calls r name declared))
unfolding check_contract
check_contract-IsMet calls declared r =
    let all_ = check_parameters-IsMet calls r declared declared [] in
    (
      (
        (λ (w, h).
            let (warnings, checked, _) =
              bind-ok (check_parameters calls r declared declared []) _ h in
            all_.0 (warnings, checked)),
        (λ met.
            let (warnings, checked) = all_.1 met in
            (warnings ++ undeclared_names declared r.explicit, rw checked refl)),
      ),
      lookup-Resolves calls r declared,
    )
