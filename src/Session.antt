-- ===== src/Session.antt =====
-- crates/duckdb-engine/src/session.rs: statements sent to a DuckDB process one at a time, each followed by two
-- markers, and what is read back up to them. A pipe is what its receiver gives, in order; behind its last line it is
-- disconnected. How DuckDB answers is a parameter.
pub mod Frames
pub mod Marks
pub mod Opening
mod Tests
use local_etl_tool.Prelude.{
  ℕ, zero, suc, ◌+◌, Bool, true, false, not, ◌||◌, Option, none, some, List, [], ◌∷◌, ◌++◌,
  if◌then◌else◌, Result, ok, err, ◌==◌,
}
use local_etl_tool.Prelude.Text.{Text, codes, trim, strip_prefix}
use local_etl_tool.Prelude.Split.{parse_u64}
use local_etl_tool.Prelude.Decimal.{shown}
use local_etl_tool.Metadata.{JsonValue}

-- The source of an I/O error is kept as its message, a time in seconds.
pub data SessionError : Type 0 where
  spawn : (path : Text) (source : Text) → SessionError
  closed : (sql : Text) → SessionError
  timeout : (seconds : ℕ) (sql : Text) → SessionError
  write : (source : Text) → SessionError
  bad_output : Text → SessionError
  out_of_step : (expected : ℕ) (seen : ℕ) → SessionError

-- `to_string`.
unfoldable pub message_of : SessionError → Text
unfolding shown
message_of (spawn path source) =
    codes "could not start the DuckDB binary at " ++ path ++ codes ": " ++ source
message_of (closed sql) = codes "lost contact with DuckDB while running: " ++ sql
message_of (timeout seconds sql) =
    codes "DuckDB did not answer within " ++ shown seconds ++ codes "s. The statement was: " ++ sql
message_of (write source) = codes "could not send a statement to DuckDB: " ++ source
message_of (bad_output why) = codes "DuckDB's output could not be read as JSON: " ++ why
message_of (out_of_step expected seen) =
    codes "the session lost its place: expected marker "
    ++ shown expected
    ++ codes " but saw "
    ++ shown seen
    ++ codes ". This is a bug in the session protocol, not in the pipeline."

-- What one statement did.
pub record Answer : Type 0 where
  pub values : List JsonValue
  pub stderr : Text

unfoldable pub is_empty : Text → Bool
is_empty [] = true
is_empty (c ∷ s) = false

unfoldable pub has_message : Answer → Bool
unfolding is_empty trim
has_message answer = not (is_empty (trim answer.stderr))

abbrev pub mark : Text
mark = codes "__etl_mark_"

abbrev pub error_mark : Text
error_mark = codes "__etl_errmark_"

unfoldable pub marker_for : ℕ → Text
unfolding shown
marker_for sequence = mark ++ shown sequence ++ codes "__"

unfoldable pub error_marker_for : ℕ → Text
unfolding shown
error_marker_for sequence = error_mark ++ shown sequence ++ codes "__"

-- What stands before the first occurrence of a text, and what stands behind it.
unfoldable pub cut : Text → Text → Option (Text × Text)
unfolding strip_prefix
cut sought [] = elim (strip_prefix sought []) [ none ↦ none | some rest ↦ some ([], rest) ]
cut sought (c ∷ s) =
    let further = cut sought s in
    elim (strip_prefix sought (c ∷ s)) [
      | some rest ↦ some ([], rest)
      | none ↦ elim further [ none ↦ none | some (before, rest) ↦ some (c ∷ before, rest) ]
    ]

unfoldable pub sequence_after : Text → Text → Option ℕ
unfolding cut parse_u64
sequence_after line prefix = elim (cut prefix line) [
  | none ↦ none
  | some (_, rest) ↦ elim (cut (codes "__") rest) [
    | none ↦ none
    | some (number, _) ↦ parse_u64 number
  ]
]

unfoldable pub marker_sequence : Text → Option ℕ
unfolding sequence_after
marker_sequence line = sequence_after line mark

unfoldable pub error_marker_sequence : Text → Option ℕ
unfolding sequence_after
error_marker_sequence line = sequence_after line error_mark

-- Why a statement's answer could not be read.
pub data Wait : Type 0 where
  timed_out closed : Wait
  out_of_step : ℕ → Wait

-- What `recv_timeout` gives, but for the disconnection.
pub data Received : Type 0 where
  line : Text → Received
  silence : Received

abbrev pub Pipe : Type 0
Pipe = List Received

-- `trim_end_matches('\r')`.
unfoldable pub trim_returns : Text → Text
trim_returns [] = []
trim_returns (c ∷ s) =
    let rest = trim_returns s in
    elim rest [ [] ↦ (if c == 13 then [] else c ∷ []) | d ∷ t ↦ c ∷ d ∷ t ]

-- The lines before the marker of a sequence number, and what is left in the pipe.
unfoldable pub read_until :
    (Text → Option ℕ) → ℕ → List Text → Pipe → Result Wait (List Text) × Pipe
unfolding trim_returns
read_until marker sequence collected [] = (err Wait.closed, [])
read_until marker sequence collected (silence ∷ rest) = (err timed_out, rest)
read_until marker sequence collected (line text ∷ rest) = elim (marker text) [
  | some seen ↦ ((if seen == sequence then ok collected else err (out_of_step seen)), rest)
  | none ↦ read_until marker sequence (collected ++ trim_returns text ∷ []) rest
]

-- `join("\n")`.
unfoldable pub join_lines : List Text → Text
join_lines [] = []
join_lines (s ∷ []) = s
join_lines (s ∷ t ∷ ss) = s ++ 10 ∷ join_lines (t ∷ ss)

-- The output up to its marker, then the messages up to theirs; the second pipe is left alone where the first fails.
unfoldable pub read_answer : Pipe → Pipe → ℕ → Result Wait (Text × Text) × Pipe × Pipe
unfolding read_until join_lines marker_sequence error_marker_sequence
read_answer lines errors sequence =
    let (output, lines_left) = read_until marker_sequence sequence [] lines in
    elim output [
      | err why ↦ (err why, lines_left, errors)
      | ok stdout ↦
          let (messages, errors_left) = read_until error_marker_sequence sequence [] errors in
          elim messages [
            | err why ↦ (err why, lines_left, errors_left)
            | ok stderr ↦
                (ok (join_lines stdout ++ 10 ∷ [], join_lines stderr), lines_left, errors_left)
          ]
    ]

-- A statement and its two markers.
unfoldable pub framed : Text → ℕ → Text
unfolding marker_for error_marker_for
framed sql sequence =
    sql
    ++ codes "\nSELECT '"
    ++ marker_for sequence
    ++ codes "' AS __etl_mark;\nSELECT error('"
    ++ error_marker_for sequence
    ++ codes "');\n"

-- How a DuckDB process in a state of `P` takes what is written to it, with the lines that it prints in answer, and
-- what the JSON reader makes of a text. A write that fails gives its message.
pub record Child (P : Type 0) : Type 0 where
  pub write : Text → P → Result Text (Pipe × Pipe × P)
  pub parse_values : Text → Result SessionError (List JsonValue)

pub record Session (P : Type 0) : Type 0 where
  pub process : P
  pub stdin : Bool
  pub lines : Pipe
  pub errors : Pipe
  pub sequence : ℕ
  pub timeout : ℕ
  pub killed : Bool

module _ {P : Type 0} (child : Child P) where
  unfoldable pub send_raw : Text → Session P → Result SessionError (Session P)
  send_raw text s =
      if s.stdin
      then elim (child.write text s.process) [
        | err source ↦ err (write source)
        | ok (printed, said, after) ↦
            ok (record s { process = after; lines = s.lines ++ printed; errors = s.errors ++ said })
      ]
      else err (closed text)

  -- What is made of the lines that were read, or of the failure to read them.
  unfoldable pub conclude :
      Text
      → Session P
      → Result Wait (Text × Text) × Pipe × Pipe
      → Result SessionError Answer × Session P
  conclude sql sent (answer, lines_left, errors_left) =
      let read = record sent { lines = lines_left; errors = errors_left } in
      elim answer [
        | ok (stdout, stderr) ↦ elim (child.parse_values stdout) [
          | err why ↦ (err why, read)
          | ok values ↦ (ok (record { values = values; stderr = stderr }), read)
        ]
        | err timed_out ↦ (err (timeout read.timeout sql), record read { killed = true })
        | err Wait.closed ↦ (err (closed sql), read)
        | err (out_of_step seen) ↦ (err (out_of_step read.sequence seen), read)
      ]

  -- The session after a failed write is the one before it, with its number raised.
  unfoldable pub execute : Text → Session P → Result SessionError Answer × Session P
  unfolding send_raw framed read_answer conclude
  execute sql s =
      let numbered = record s { sequence = suc s.sequence } in
      elim (send_raw (framed sql numbered.sequence) numbered) [
        | err why ↦ (err why, numbered)
        | ok sent ↦ conclude sql sent (read_answer sent.lines sent.errors sent.sequence)
      ]
