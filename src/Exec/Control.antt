-- ===== src/Exec/Control.antt =====
-- What a control node does before its rows are let past: `act` of crates/duckdb-engine/src/exec.rs.
use local_etl_tool.Prelude.{
  ℕ, zero, suc, Bool, true, false, Option, none, some, [], ◌++◌, if◌then◌else◌, Result, ok, err,
  ◌==◌,
}
use local_etl_tool.Prelude.Text.{Text, codes, trim}
use local_etl_tool.Prelude.Decimal.{shown}
use local_etl_tool.Session.{Answer, is_empty}
use local_etl_tool.Plan.Query.{
  Stage, Control, ControlKind, wait, log, fail, branch, sequence, assert,
}
use local_etl_tool.Exec.Answers
use local_etl_tool.Exec.Answers.{first_of, first_number}
use local_etl_tool.Exec.Around.{Outside, Effect, pure, in_session, change, ◌>>=◌, ◌>>◌}

-- What a control node decided.
pub data Action : Type 0 where
  carry_on : Action
  note : Text → Action
  do_not_take : Text → Action

-- Why a probe that gave no number fails its stage: the node's own message goes in front.
unfoldable pub complaint : Stage → Control → Answer → Text
unfolding is_empty trim
complaint stage control answer =
    let said = trim answer.stderr in
    let detail = (if is_empty said then stage.label ++ codes " produced no answer" else said) in
    elim control.message [
      | none ↦ detail
      | some own ↦ if is_empty own then detail else own ++ codes ". " ++ detail
    ]

abbrev pub own_message : Control → Text
own_message control = elim control.message [ none ↦ [] | some message ↦ message ]

abbrev pub wait_of : Control → ℕ
wait_of control = elim control.wait_ms [ none ↦ 0 | some ms ↦ ms ]

unfoldable pub wait_note : Stage → Control → Text
unfolding shown
wait_note stage control =
    let waited = stage.label ++ codes " — waited " ++ shown (wait_of control) ++ codes "ms" in
    elim control.message [ none ↦ waited | some own ↦ waited ++ codes ": " ++ own ]

unfoldable pub branch_note : Stage → Control → Text
branch_note stage control = elim control.message [
  | none ↦ stage.label ++ codes " — not taken, nothing downstream ran"
  | some own ↦ stage.label ++ codes " — not taken: " ++ own
]

-- The decision on the answer of the probe, for the kinds that do not wait.
unfoldable pub decide : Stage → Control → ControlKind → Option ℕ → Result Text Action
unfolding wait_note branch_note shown
decide stage control wait answered = ok (note (wait_note stage control))
decide stage control log answered = elim control.message [
  | none ↦ ok carry_on
  | some said ↦ ok (note (stage.label ++ codes " — " ++ said))
]
decide stage control fail none = err (own_message control)
decide stage control fail (some zero) = ok carry_on
decide stage control fail (some (suc n)) =
    err (own_message control ++ codes " (" ++ shown (suc n) ++ codes " row(s) matched)")
decide stage control branch none = ok (do_not_take (branch_note stage control))
decide stage control branch (some zero) = ok (do_not_take (branch_note stage control))
decide stage control branch (some (suc n)) =
    ok (note (stage.label ++ codes " — taken (" ++ shown (suc n) ++ codes " row(s))"))
decide stage control sequence answered = ok carry_on
decide stage control assert none = err (own_message control)
decide stage control assert (some n) = if n == 1 then ok carry_on else err (own_message control)

abbrev pub waits : ControlKind → Bool
waits wait = true
waits log = false
waits fail = false
waits branch = false
waits sequence = false
waits assert = false

module _ {W : Type 0} (outside : Outside W) where
  -- The answer of the probe, where there is one, or why it gave none.
  unfoldable pub ask : Stage → Control → Effect W (Result Text (Option ℕ))
  unfolding first_of complaint first_number
  ask stage control = elim control.probe [
    | none ↦ pure (ok none)
    | some probe ↦ do
      answer ← in_session (outside.execute probe)
      elim (Answers.◌>>=◌ (first_of answer.values) first_number) [
        | some number ↦ pure (ok (some number))
        | none ↦ pure (err (complaint stage control answer))
      ]
  ]

  unfoldable pub hold : Control → Effect W (Unit {0})
  hold control = if waits control.kind then change (outside.sleep (wait_of control)) else pure tt

  unfoldable pub act : Stage → Control → Effect W (Result Text Action)
  unfolding ask hold decide
  act stage control = do
    asked ← ask stage control
    elim asked [
      | err why ↦ pure (err why)
      | ok answered ↦ do hold control; pure (decide stage control control.kind answered)
    ]
