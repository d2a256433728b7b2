-- ===== src/Params/Interpolate/Exact.antt =====
-- The texts that crates/duckdb-engine/src/params.rs interpolates, as what they are made of.
use local_etl_tool.Prelude.{
  ℕ, zero, suc, ◌≤◌, ◌≡◌, refl, sym, ap, ◌∙◌, inl, inr, true, false, some, List, [], ◌∷◌, ◌++◌,
  ◌==◌, Result, ok, ◌>>=◌, if◌then◌else◌, length, arith, append_assoc, append-nil, all, All, not,
  Bool-cases, Result-cases,
}
use local_etl_tool.Prelude.Text.{Text}
use local_etl_tool.Prelude.Split.{split_once}
use local_etl_tool.Params.{ParamError}
use local_etl_tool.Params.Interpolate.{
  Given, Spot, Trace, resolve_one, use_recorded, part_at, after_dollar, interpolate_from,
  interpolate,
}

-- A text, or a reference by its name.
pub data Piece : Type 0 where
  literal : Text → Piece
  reference : Text → Piece

-- Every `$` doubled.
unfoldable pub escape : Text → Text
escape [] = []
escape (c ∷ s) = if c == b'$' then b'$' ∷ b'$' ∷ escape s else c ∷ escape s

-- How the pieces are written.
unfoldable pub written : List Piece → Text
unfolding escape
written [] = []
written (literal t ∷ pieces) = escape t ++ written pieces
written (reference name ∷ pieces) = b'$' ∷ b'{' ∷ (name ++ b'}' ∷ written pieces)

-- A name is closed by the first `}`.
unfoldable pub IsName : Piece → Type 0
IsName (literal t) = Unit
IsName (reference name) = all (λ c. not (c == b'}')) name ≡ true

-- What the pieces stand for, one after another: a text for itself, and a reference for its value, whatever that
-- holds.
unfoldable pub expand : Given → Spot → List Piece → Text → Trace → Result ParamError (Text × Trace)
unfolding resolve_one use_recorded
expand given spot [] out trace = ok (out, trace)
expand given spot (literal t ∷ pieces) out trace = expand given spot pieces (out ++ t) trace
expand given spot (reference name ∷ pieces) out trace =
    resolve_one given spot name trace >>= λ found.
    expand given spot pieces (out ++ found.0) (use_recorded name (found.0) (found.1))

split_once-name :
    (name s : Text)
    → all (λ c. not (c == b'}')) name ≡ true
    → split_once b'}' (name ++ b'}' ∷ s) ≡ some (name, s)
unfolding split_once
split_once-name [] s h = refl
split_once-name (c ∷ name) s h =
    let first : c == b'}' ≡ false = ground arith in
    let others : all (λ d. not (d == b'}')) name ≡ true = ground arith in
    rw (first, split_once-name name s others) refl

longer : (c : ℕ) (t s : Text) → suc (length (escape t ++ s)) ≤ length (escape (c ∷ t) ++ s)
unfolding escape
longer c t s = elim (Bool-cases (c == b'$')) [
  | inl e ↦ rw e (omega arith)
  | inr e ↦ rw e (omega arith)
]

-- A text in front of what is read as `rest` says.
literal_lem :
    (given : Given) (spot : Spot) (whole t s : Text) (trace : Trace)
    (rest : Text → Result ParamError (Text × Trace))
    → ((fuel : ℕ) (out : Text)
        → length s ≤ fuel
        → interpolate_from fuel given spot whole s out trace ≡ rest out)
    → (fuel : ℕ) (out : Text) → length (escape t ++ s) ≤ fuel
    → interpolate_from fuel given spot whole (escape t ++ s) out trace ≡ rest (out ++ t)
unfolding escape interpolate_from part_at after_dollar
literal_lem given spot whole [] s trace rest h fuel out enough =
    h fuel out enough ∙ ap rest (sym (append-nil out))
literal_lem given spot whole (c ∷ t) s trace rest h zero out enough =
    absurd (let more = longer c t s in omega arith)
literal_lem given spot whole (c ∷ t) s trace rest h (suc fuel) out enough =
    elim (Bool-cases (c == b'$')) [
      | inl e ↦
          let same : c ≡ b'$' = ground arith in
          let later =
            literal_lem given spot whole t s trace rest h fuel (out ++ b'$' ∷ [])
              (let more = longer c t s in omega arith) in
          rw same (later ∙ ap rest (append_assoc out (b'$' ∷ []) t))
      | inr e ↦
          let later =
            literal_lem given spot whole t s trace rest h fuel (out ++ c ∷ [])
              (let more = longer c t s in omega arith) in
          rw (e, e, interpolate_from) (later ∙ ap rest (append_assoc out (c ∷ []) t))
    ]

length-name : (name s : Text) → length s ≤ length (name ++ b'}' ∷ s)
length-name [] s = omega arith
length-name (c ∷ name) s = let rest = length-name name s in omega arith

interpolate_from-written :
    (given : Given) (spot : Spot) (whole : Text) (pieces : List Piece) (trace : Trace) (fuel : ℕ)
    (out : Text)
    → All IsName pieces
    → length (written pieces) ≤ fuel
    → interpolate_from fuel given spot whole (written pieces) out trace
      ≡ expand given spot pieces out trace
unfolding interpolate_from part_at after_dollar written expand IsName
interpolate_from-written given spot whole [] trace zero out names enough = refl
interpolate_from-written given spot whole [] trace (suc fuel) out names enough = refl
interpolate_from-written given spot whole (literal t ∷ pieces) trace fuel out (_, names) enough =
    literal_lem given spot whole t (written pieces) trace (λ o. expand given spot pieces o trace)
      (λ f o fits. interpolate_from-written given spot whole pieces trace f o names fits) fuel out
      enough
interpolate_from-written given spot whole (reference name ∷ pieces) trace zero out (_, names)
      enough =
    absurd (omega arith)
interpolate_from-written given spot whole (reference name ∷ pieces) trace (suc fuel) out
      (is_name, names) enough =
    let shorter = length-name name (written pieces) in
    let closes = split_once-name name (written pieces) is_name in
    elim (Result-cases (resolve_one given spot name trace)) [
      | inr (e, failed) ↦ rw (closes, failed, interpolate_from) refl
      | inl ((value, after), found) ↦
          rw (closes, found, interpolate_from)
            (interpolate_from-written given spot whole pieces (use_recorded name value after) fuel
              (out ++ value) names (omega arith))
    ]

-- Where no name holds a `}`: a text that is written from pieces, its own `$` doubled and each reference as
-- `${name}`, becomes what the pieces stand for, one after another, each reference resolved once and its value put
-- in as it is, whatever that holds; and it fails with the first reference that fails, and with no other error.
pub interpolate-written :
    (given : Given) (spot : Spot) (pieces : List Piece) (trace : Trace)
    → All IsName pieces
    → interpolate given spot (written pieces) trace ≡ expand given spot pieces [] trace
unfolding interpolate
interpolate-written given spot pieces trace names =
    interpolate_from-written given spot (written pieces) pieces trace (length (written pieces)) []
      names (omega arith)
