-- ===== src/Session/Opening.antt =====
-- `Session::open` and `run_prelude` of crates/duckdb-engine/src/session.rs: what is sent to a process before the
-- first stage.
use local_etl_tool.Prelude.{
  ℕ, true, false, Option, none, some, List, [], ◌∷◌, ◌++◌, if◌then◌else◌, Result, ok, err, ◌>>=◌,
}
use local_etl_tool.Prelude.Text.{Text, codes, trim}
use local_etl_tool.Sql.{quote_path}
use local_etl_tool.Session.{
  SessionError, spawn, bad_output, has_message, Child, Session, send_raw, execute,
}

-- In seconds.
abbrev pub default_timeout : ℕ
default_timeout = 600

unfoldable pub with_timeout : {P : Type 0} → Session P → ℕ → Session P
with_timeout s seconds = record s { timeout = seconds }

module _ {P : Type 0} (child : Child P) where
  -- `LOAD` of each extension.
  unfoldable pub load_all : List Text → Session P → Result SessionError (Session P)
  unfolding send_raw
  load_all [] s = ok s
  load_all (extension ∷ extensions) s =
      elim (send_raw child (codes "LOAD " ++ extension ++ codes ";\n") s) [
        | err why ↦ err why
        | ok sent ↦ load_all extensions sent
      ]

  unfoldable pub point_at : Option Text → Session P → Result SessionError (Session P)
  unfolding send_raw quote_path
  point_at none s = ok s
  point_at (some directory) s =
      send_raw child (codes "SET extension_directory=" ++ quote_path directory ++ codes ";\n") s

  -- One statement shows that what went before it was taken.
  unfoldable pub prove_prelude : Session P → Result SessionError (Session P)
  unfolding execute has_message trim
  prove_prelude s =
      let (result, after) = execute child (codes "SELECT 1 AS ok;") s in
      elim result [
        | err why ↦ err why
        | ok answer ↦
            let prelude_failed : SessionError =
              bad_output
                (codes "the session prelude failed. DuckDB said: " ++ trim answer.stderr) in
            elim answer.values [
              | [] ↦ err prelude_failed
              | value ∷ values ↦ if has_message answer then err prelude_failed else ok after
            ]
      ]

  unfoldable pub run_prelude : Option Text → List Text → Session P → Result SessionError (Session P)
  unfolding send_raw point_at load_all prove_prelude
  run_prelude extension_dir extensions s = do
    opened ← send_raw child (codes ".bail off\n") s
    pointed ← point_at extension_dir opened
    loaded ← load_all extensions pointed
    prove_prelude loaded

  -- `open`; the process that was started is an argument, or the message of the failure to start it.
  unfoldable pub open_session :
      Text → Result Text P → Option Text → List Text → Result SessionError (Session P)
  unfolding run_prelude
  open_session binary (err source) extension_dir extensions = err (spawn binary source)
  open_session binary (ok process) extension_dir extensions =
      run_prelude extension_dir extensions (record {
        process = process;
        stdin = true;
        lines = [];
        errors = [];
        sequence = 0;
        timeout = default_timeout;
        killed = false;
      })
