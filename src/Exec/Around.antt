-- ===== src/Exec/Around.antt =====
-- What a run of crates/duckdb-engine/src/exec.rs asks of what is around it, in a world `W`, and the effects that it is
-- made of.
use local_etl_tool.Prelude.{ℕ, ◌≡◌, refl, List, Result, ok, err}
use local_etl_tool.Prelude.Text.{Text}
use local_etl_tool.Metadata.{JsonValue}
use local_etl_tool.Session.{SessionError, Answer}
use local_etl_tool.Plan.Query.{Stage, Plan}
use local_etl_tool.Exec.{ExecError, session, SavedPosition}

-- What reading the native sources left: notes, and where each source got to.
pub record Staged : Type 0 where
  pub notes : List Text
  pub checkpoints : List SavedPosition

-- What came of acknowledging or releasing what the queue sources held.
pub record Settled : Type 0 where
  pub notes : List Text
  pub warnings : List Text

-- The session, the clock (nanoseconds), the file system, the native steps of crates/duckdb-engine/src/native.rs, and
-- the printed form of a JSON value.
pub record Outside (W : Type 0) : Type 0 where
  pub prepare : Plan → W → Result ExecError (Unit {0}) × W
  pub stage_sources : List Stage → W → Result ExecError Staged × W
  pub open_session : List Text → W → Result SessionError (Unit {0}) × W
  pub execute : Text → W → Result SessionError Answer × W
  pub close : W → W
  pub now : W → ℕ × W
  pub sleep : ℕ → W → W
  pub run_transform : Stage → W → Result ExecError (Result Text Text) × W
  pub deliver_sinks : List Stage → List Text → W → Result ExecError (List Text) × W
  pub withheld : List Stage → List Text
  pub acknowledge : W → Settled × W
  pub release : W → Settled × W
  pub clear_spills : List Text → W → ℕ × W
  pub run_script : Text → W → Result ExecError (Result Text (List JsonValue)) × W
  pub print : JsonValue → Text

-- A step of a run that may end it.
abbrev pub Effect : Type 0 → Type 0 → Type 0
Effect W A = W → Result ExecError A × W

module _ {W : Type 0} where
  abbrev pub pure : {A : Type 0} → A → Effect W A
  pure a w = (ok a, w)

  abbrev pub throw : {A : Type 0} → ExecError → Effect W A
  throw e w = (err e, w)

  infixl 5 ◌>>=◌
  abbrev pub ◌>>=◌ : {A B : Type 0} → Effect W A → (A → Effect W B) → Effect W B
  ◌>>=◌ m f w =
      let (result, after) = m w in elim result [ ok a ↦ f a after | err e ↦ (err e, after) ]

  infixl 5 ◌>>◌
  abbrev pub ◌>>◌ : {A B : Type 0} → Effect W A → Effect W B → Effect W B
  m >> k = m >>= λ _. k

  -- A step that cannot fail.
  abbrev pub always : {A : Type 0} → (W → A × W) → Effect W A
  always m w = let (a, after) = m w in (ok a, after)

  abbrev pub change : (W → W) → Effect W (Unit {0})
  change f w = (ok tt, f w)

  -- `map_err(ExecError::Session)` and `?`.
  abbrev pub in_session : {A : Type 0} → (W → Result SessionError A × W) → Effect W A
  in_session m w =
      let (result, after) = m w in
      elim result [ ok a ↦ (ok a, after) | err why ↦ (err (session why), after) ]

  -- A chain of two that gave a value gave one at its first link.
  pub chain-ok :
      {E A B : Type 0} (f : A → W → Result E B × W) (step : Result E A × W) (w' : W) {b : B}
      → (elim step.0 [ ok a ↦ f a step.1 | err e ↦ (err e, step.1) ]) ≡ (ok b, w')
      → (a : A) × (w1 : W) × (step ≡ (ok a, w1)) × (f a w1 ≡ (ok b, w'))
  chain-ok f (ok a, w1) w' h = (a, w1, refl, h)
  chain-ok f (err e, w1) w' h = cc

  pub bind-ok :
      {A B : Type 0} (m : Effect W A) (f : A → Effect W B) (w w' : W) {b : B}
      → (m >>= f) w ≡ (ok b, w')
      → (a : A) × (w1 : W) × (m w ≡ (ok a, w1)) × (f a w1 ≡ (ok b, w'))
  bind-ok m f w w' h = chain-ok f (m w) w' h

  pub pure-ok : {A : Type 0} {a b : A} (w w' : W) → pure a w ≡ (ok b, w') → b ≡ a
  pure-ok w w' h = cc

  pub throw-ok : {A : Type 0} {b : A} (e : ExecError) (w w' : W) → throw e w ≡ (ok b, w') → ⊥
  throw-ok e w w' h = cc

  pub given-ok :
      {E A : Type 0} {a b : A} (w w' : W) → ◌≡◌ {A = Result E A × W} (ok a, w) (ok b, w') → b ≡ a
  given-ok w w' h = cc
