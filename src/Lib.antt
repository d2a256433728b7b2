-- ===== src/Lib.antt =====
-- local_etl_tool: pipelines drawn as documents, compiled to a plan of DuckDB stages, and run on schedules.
--
-- The parts of the program and the files that model them:
--   * crates/metadata/src/lib.rs, the pipeline document: Metadata.
--   * crates/duckdb-engine/src/plan/mod.rs, the compiler. `compile_with` checks the document, numbers its
--     nodes, resolves its edges, drops what is switched off, and orders the rest: Plan.Compile composes
--     Plan.Front (reserve_suffix, build_index, classify, resolve_edges), Plan.Dropped (drop_disabled) and
--     Plan.Order (topological_order). Plan holds the errors and warnings, Plan.Policy the retry policy and
--     the materialisation modes, Plan.Query the stages of a plan and what is asked of it, its script among that.
--   * crates/scheduler/src: every.rs, intervals: Scheduler.Every; cron.rs, cron expressions: Scheduler.Cron
--     (the grammar, Parse, and Search for the next match); watch.rs, watched paths: Scheduler.Watch; lib.rs,
--     the schedule file, whose triggers are made of these three: Scheduler.File; run.rs, the loop that asks the
--     triggers when they are due, runs what is, and sleeps: Scheduler.Run and Scheduler.Run.Loop.
--   * crates/duckdb-engine/src/sql.rs, the quoting of what goes into SQL and the scanner that refuses INSTALL: Sql.
--   * crates/duckdb-engine/src/params.rs, which fills in the references of a document before it is compiled: Params,
--     the resolver and the order of its sources; Params.Contract, the declared parameters; Params.Interpolate, the
--     references; Params.Redact, what is shown.
--   * crates/state/src: time.rs, civil dates in UTC, which the cron search uses: State.Time;
--     lib.rs, the keys of its files and what a pipeline remembers of its nodes: State.Keys and
--     State.Remember; runs.rs, the history of runs: State.Runs. crates/duckdb-engine/src/remember.rs, which reads
--     it for the next run and folds a finished run into it: State.Resume and State.Report.
--   * crates/duckdb-engine/src/session.rs, the protocol by which statements and answers pass through the pipes of a
--     DuckDB process: Session, Session.Opening its prelude.
--   * crates/duckdb-engine/src/exec.rs, the run of a plan: Exec, its results and errors; Exec.Answers, what is read
--     out of an answer; Exec.Stages, one stage with its retries and probes; Exec.Control, the control nodes;
--     Exec.Driven, the run stage by stage (`run_driven`); Exec.OneScript, what is read out of the output of a plan
--     that runs as one script; Exec.Preview, previews.
-- Prelude holds what these share: Boolean tests, results that may fail, lists, text, counting and integers.
--
-- How the code corresponds: a struct is a record and an enum a data type with the source's names. A
-- `HashMap` from ids to positions is an association list, a `Vec<bool>` a list read and written by
-- position, a `BTreeMap` or `BTreeSet` of texts in Params an ascending list, the `BinaryHeap` of `Reverse` positions an ascending list, and a `VecDeque` a list whose head
-- is its front. `Result` is a data type of the model's own. A text is the list of its code points. Where a
-- function of the source takes the whole document, its model takes the nodes, the edges or the ids that it
-- reads.
--
-- Bounds and fuel: the loops of `drop_disabled` and `topological_order` run on fuel, the number of nodes,
-- which is enough because a node enters the queue or the heap once at most; the results below that speak
-- of their values rest on that and have no hypothesis on fuel. The search for the next cron match runs
-- on fuel, one round for each minute of its five years. The fill of a cron field runs on fuel 65, more than
-- the values of a field. A u64 of an interval keeps its checks against 2 ^ 64. An i64 is an integer without
-- bounds, and so is a u64 that is cast to one, such as `pollSeconds`: the dates that would overflow it, more than 10 ^ 11 years away, are out of the model. A count of nodes is never near the bound of a `usize`.
--
-- The loop of the scheduler runs on fuel too, one round for each pass. The scanner of SQL runs on fuel the length
-- of the text, of which each round takes a character at least, and so does the loop of `interpolate`.
-- The retries of a stage count down from the attempts of its policy, and a number is shown in decimal on fuel one
-- more than the number, which has no more digits than that.
-- `upto` walks back on fuel one more than the inputs of all stages, each of which enters the frontier once at most.
--
-- The file system is a parameter: a poll of a watched path takes what is there as data. So are the clock, the
-- runner and the request to stop: Scheduler.Run.Outside holds what the loop asks of them, as operations on a world
-- that the calls pass on. Params.Calls holds the environment and the functions of other crates that the
-- parameters use, and Params.SecretStore what they ask of the store of secrets. Session.Child is the DuckDB process
-- with its pipes and the JSON reader; Exec.Around.Outside holds what a run asks of the session, the clock, the native
-- steps and the printing of JSON, as operations on a world; State.Runs.Json is the JSON form of a record.
--
-- Not modelled: the lock of the scheduler, the lowering of stages to SQL, the native steps, the starting and ending of
-- the DuckDB process and its reader threads, the search for its binaries, the preparing of sinks and spills, the order
-- of the calls in `run_one_script`, the reading and writing of files and of JSON, the connectors, and the front ends
-- (crates/cli, crates/console, crates/mcp, crates/assistant, apps, frontend). Floats on the canvas, column lists and
-- sample rows of a node are carried untouched by the code modelled here and are left out of its records.
pub mod Exec
pub mod Metadata
pub mod Params
pub mod Plan
pub mod Prelude
pub mod Scheduler
pub mod Session
pub mod Sql
pub mod State
