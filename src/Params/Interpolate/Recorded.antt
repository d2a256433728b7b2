-- ===== src/Params/Interpolate/Recorded.antt =====
-- What crates/duckdb-engine/src/params.rs records of the values that it substitutes.
use local_etl_tool.Prelude.{
  ◌≡◌, refl, inl, inr, true, some, List, [], ◌∷◌, ok, if◌then◌else◌, any, arith, Bool-cases,
  Option-cases, Result-cases,
}
use local_etl_tool.Prelude.Text.{Text, codes, text_eq, text_eq_iff, trim, strip_prefix}
use local_etl_tool.Prelude.Sorted.{Map, value_of, add, text_ltb, value_of-put}
use local_etl_tool.Metadata.{ParameterSpec}
use local_etl_tool.Params.{Calls, Resolver, redacted, bind, lookup}
use local_etl_tool.Params.Contract.{is_empty}
use local_etl_tool.Params.Interpolate.{
  Given, Spot, Trace, secret_of_name, resolve_trimmed, resolve_one, recorded, use_recorded,
}

text_eq_refl : (s : Text) → text_eq s s ≡ true
text_eq_refl s = (text_eq_iff s s).1 refl

any-add : (set_ : List Text) (s : Text) → any (text_eq s) (add set_ s) ≡ true
unfolding add
any-add [] s = let same = text_eq_refl s in rw same refl
any-add (t ∷ ts) s = elim (Bool-cases (text_eq t s)) [
  | inl e ↦
      let same : t ≡ s = (text_eq_iff t s).0 e in
      let equal = text_eq_refl s in rw (same, equal) (ground arith)
  | inr e ↦ elim (Bool-cases (text_ltb s t)) [
    | inl low ↦ let equal = text_eq_refl s in rw (e, low, equal) refl
    | inr high ↦ let rest = any-add ts s in rw (e, high, rest) (ground arith)
  ]
]

secret_of_name-any :
    (given : Given) (spot : Spot) (name value : Text) (trace after : Trace)
    → secret_of_name given spot name trace ≡ ok (value, after)
    → any (text_eq value) after.secrets ≡ true
unfolding secret_of_name
secret_of_name-any given spot name value trace after h =
    elim (Option-cases given.resolver.secrets) [
      | inl e ↦ let bad = rw e at h in absurd (ground arith)
      | inr (store, e) ↦ elim (Result-cases (store.secret_of name)) [
        | inr (reason, f) ↦ let bad = rw (e, f) at h in absurd (ground arith)
        | inl (found, f) ↦ elim (Option-cases found) [
          | inl g ↦ let bad = rw (e, f, g) at h in absurd (ground arith)
          | inr (v, g) ↦
              let shown = rw (e, f, g) at h in
              let same : v ≡ value = ground arith in
              let kept : add trace.secrets v ≡ after.secrets = ground arith in
              rw (← kept, ← same) (any-add trace.secrets v)
        ]
      ]
    ]

-- Where a reference, trimmed, begins with `SECRET:` and is resolved, what is recorded under it is the mask, never
-- the value.
pub use_recorded-redacted :
    (given : Given) (spot : Spot) (reference name value : Text) (trace after : Trace)
    → strip_prefix (codes "SECRET:") (trim reference) ≡ some name
    → resolve_one given spot reference trace ≡ ok (value, after)
    → value_of (use_recorded reference value after).used reference ≡ some redacted
unfolding resolve_one resolve_trimmed use_recorded recorded
use_recorded-redacted given spot reference name value trace after is_secret h =
    elim (Bool-cases (is_empty (trim reference))) [
      | inl blank ↦ let bad = rw blank at h in absurd (ground arith)
      | inr some_ ↦
          let masked =
            secret_of_name-any given spot (trim name) value trace after
              (rw (some_, is_secret) at h) in
          let equal = text_eq_refl reference in
          rw (masked, value_of-put after.used reference reference redacted, equal) refl
    ]

-- A value that is bound is what its name resolves to, whatever the contexts, the defaults and the built-ins say; and
-- what every other name resolves to stays the same.
pub lookup-bind :
    (calls : Calls) (r : Resolver) (name other value : Text) (declared : Map ParameterSpec)
    → lookup calls (bind r name value) other declared
      ≡ (if text_eq name other then some value else lookup calls r other declared)
unfolding lookup bind
lookup-bind calls r name other value declared =
    let explicit = value_of-put r.explicit name other value in
    elim (Bool-cases (text_eq name other)) [
      | inl e ↦ let bound = rw e at explicit in rw (e, bound) refl
      | inr e ↦ let bound = rw e at explicit in rw (e, bound) refl
    ]
