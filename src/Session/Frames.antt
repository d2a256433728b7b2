-- ===== src/Session/Frames.antt =====
-- The protocol of crates/duckdb-engine/src/session.rs with a process that prints each marker behind what the
-- statement itself printed: which lines an answer is made of.
use local_etl_tool.Prelude.{
  ℕ, suc, ◌+◌, ◌^◌, ◌<◌, ◌≡◌, refl, ap, ◌∙◌, true, false, Option, none, some, List, [], ◌∷◌, ◌++◌,
  append_assoc, append-nil, sym, map, length, Result, ok, err, Result-cases, ◌⊎◌, inl, inr, arith,
  ◌==◌, All,
}
use local_etl_tool.Prelude.Text.{Text}
use local_etl_tool.Metadata.{JsonValue}
use local_etl_tool.Session.{
  SessionError, Answer, line, Pipe, trim_returns, read_until, join_lines, read_answer, framed,
  Child, Session, send_raw, conclude, execute, marker_sequence, error_marker_sequence,
}
use local_etl_tool.Session.Marks.{marker_line, error_marker_line, marker_sequence-marker_line}

-- What a statement prints and says by itself, and the state of the process behind it.
pub record Engine (P : Type 0) : Type 0 where
  pub output : Text → P → List Text
  pub messages : Text → P → List Text
  pub next : Text → P → P

abbrev pub lines_of : List Text → Pipe
lines_of texts = map line texts

-- For the statements of a kind, DuckDB prints a statement's own lines in front of its marker, in each pipe, and no
-- line of its own reads as a marker.
pub record Keeps {P : Type 0} (child : Child P) (engine : Engine P) (Sendable : Text → Type 0)
    : Type 0 where
  pub frames :
      (sql : Text) (n : ℕ) (p : P)
      → Sendable sql
      → n < 2 ^ 64
      → child.write (framed sql n) p
        ≡ ok (
          lines_of (engine.output sql p) ++ line (marker_line n) ∷ [],
          lines_of (engine.messages sql p) ++ line (error_marker_line n) ∷ [],
          engine.next sql p,
        )
  pub plain_output :
      (sql : Text) (p : P)
      → Sendable sql
      → All (λ t. marker_sequence t ≡ none) (engine.output sql p)
  pub plain_messages :
      (sql : Text) (p : P)
      → Sendable sql
      → All (λ t. error_marker_sequence t ≡ none) (engine.messages sql p)

-- The lines before a marker of the awaited number are collected.
read_until-lines_of :
    (marker : Text → Option ℕ) (n : ℕ) (collected texts : List Text) (last : Text)
    → All (λ t. marker t ≡ none) texts
    → marker last ≡ some n
    → read_until marker n collected (lines_of texts ++ line last ∷ [])
      ≡ (ok (collected ++ map trim_returns texts), [])
unfolding read_until
read_until-lines_of marker n collected [] last h e =
    let same : (n == n) ≡ true = ground arith in
    rw (e, same) (ap (λ c. (ok c, [])) (sym (append-nil collected)))
read_until-lines_of marker n collected (t ∷ texts) last (h, hs) e =
    rw (h, read_until)
      (read_until-lines_of marker n (collected ++ trim_returns t ∷ []) texts last hs e
        ∙ ap (λ c. (ok c, []))
            (append_assoc collected (trim_returns t ∷ []) (map trim_returns texts)))

module _ {P : Type 0} (child : Child P) (engine : Engine P) where
  -- The answer that is made of a statement's own lines.
  unfoldable pub own_answer : Text → P → Result SessionError Answer
  unfolding join_lines trim_returns
  own_answer sql p =
      elim (child.parse_values (join_lines (map trim_returns (engine.output sql p)) ++ 10 ∷ [])) [
        | err why ↦ err why
        | ok values ↦ ok (record {
          values = values;
          stderr = join_lines (map trim_returns (engine.messages sql p));
        })
      ]

  unfoldable pub own_answers : List Text → P → List (Result SessionError Answer)
  unfolding own_answer
  own_answers [] p = []
  own_answers (sql ∷ sqls) p = own_answer sql p ∷ own_answers sqls (engine.next sql p)

  unfoldable pub after_all : List Text → P → P
  after_all [] p = p
  after_all (sql ∷ sqls) p = after_all sqls (engine.next sql p)

-- Statements sent one after another, whatever each of them gives.
unfoldable pub execute_all :
    {P : Type 0} → Child P → List Text → Session P → List (Result SessionError Answer) × Session P
unfolding execute
execute_all child [] s = ([], s)
execute_all child (sql ∷ sqls) s =
    let (answer, after) = execute child sql s in
    let (answers, last) = execute_all child sqls after in (answer ∷ answers, last)

-- An open session at a statement boundary: nothing is left in its pipes.
unfoldable pub at_boundary : {P : Type 0} → P → ℕ → ℕ → Session P
at_boundary p sequence seconds = record {
  process = p;
  stdin = true;
  lines = [];
  errors = [];
  sequence = sequence;
  timeout = seconds;
  killed = false;
}

read_answer-lines_of :
    (output messages : List Text) (n : ℕ)
    → n < 2 ^ 64
    → All (λ t. marker_sequence t ≡ none) output
    → All (λ t. error_marker_sequence t ≡ none) messages
    → read_answer
        (lines_of output ++ line (marker_line n) ∷ [])
        (lines_of messages ++ line (error_marker_line n) ∷ [])
        n
      ≡ (
        ok (
          join_lines (map trim_returns output) ++ 10 ∷ [],
          join_lines (map trim_returns messages),
        ),
        [],
        [],
      )
unfolding read_answer
read_answer-lines_of output messages n small plain plain_messages =
    let (mark, error_mark) = marker_sequence-marker_line n small in
    let first = read_until-lines_of marker_sequence n [] output (marker_line n) plain mark in
    let second =
      read_until-lines_of error_marker_sequence n [] messages (error_marker_line n) plain_messages
        error_mark in
    rw (read_answer, first, second) (rw (first, second) refl)

execute-at_boundary :
    {P : Type 0} (child : Child P) (engine : Engine P) (Sendable : Text → Type 0)
    (keeps : Keeps child engine Sendable) (sql : Text) (p : P) (n seconds : ℕ)
    → Sendable sql
    → suc n < 2 ^ 64
    → execute child sql (at_boundary p n seconds)
      ≡ (own_answer child engine sql p, at_boundary (engine.next sql p) (suc n) seconds)
unfolding execute at_boundary send_raw own_answer
execute-at_boundary {P = P} child engine Sendable keeps sql p n seconds sendable small =
    let written = keeps.frames sql (suc n) p sendable small in
    let answered =
      read_answer-lines_of (engine.output sql p) (engine.messages sql p) (suc n) small
        (keeps.plain_output sql p sendable) (keeps.plain_messages sql p sendable) in
    rw (written, execute, send_raw, answered) (concluded (Result-cases (child.parse_values stdout)))
  where
    stdout : Text
    stdout = join_lines (map trim_returns (engine.output sql p)) ++ 10 ∷ []

    stderr : Text
    stderr = join_lines (map trim_returns (engine.messages sql p))

    sent : Session P
    sent = record (at_boundary (engine.next sql p) (suc n) seconds) {
      lines = lines_of (engine.output sql p) ++ line (marker_line (suc n)) ∷ [];
      errors = lines_of (engine.messages sql p) ++ line (error_marker_line (suc n)) ∷ [];
    }

    concluded :
        ((a : List JsonValue) × (child.parse_values stdout ≡ ok a))
          ⊎ ((e : SessionError) × (child.parse_values stdout ≡ err e))
        → conclude child sql sent (ok (stdout, stderr), [], [])
          ≡ (own_answer child engine sql p, at_boundary (engine.next sql p) (suc n) seconds)
    concluded (inl (values, e)) = rw (e, conclude, own_answer) refl
    concluded (inr (why, e)) = rw (e, conclude, own_answer) refl

-- Statements of that kind are sent one after another in a session at a boundary, to a process that prints each marker behind a
-- statement's own lines. As long as the numbers are u64s, every answer is made of the lines that its own statement
-- printed and said, and the session is at a boundary again.
pub execute_all-own_answers :
    {P : Type 0} (child : Child P) (engine : Engine P) (Sendable : Text → Type 0)
    (keeps : Keeps child engine Sendable) (sqls : List Text) (p : P) (n seconds : ℕ)
    → All Sendable sqls
    → n + length sqls < 2 ^ 64
    → execute_all child sqls (at_boundary p n seconds) ≡ (
      own_answers child engine sqls p,
      at_boundary (after_all child engine sqls p) (n + length sqls) seconds,
    )
unfolding execute_all own_answers after_all
execute_all-own_answers child engine Sendable keeps [] p n seconds sendable small =
    let same : n + 0 ≡ n = omega arith in rw same refl
execute_all-own_answers child engine Sendable keeps (sql ∷ sqls) p n seconds (sendable, more)
      small =
    let first =
      execute-at_boundary child engine Sendable keeps sql p n seconds sendable (omega arith) in
    let rest =
      execute_all-own_answers child engine Sendable keeps sqls (engine.next sql p) (suc n) seconds
        more (omega arith) in
    let count : suc n + length sqls ≡ n + suc (length sqls) = omega arith in
    let moved = rw count at rest in rw (first, execute_all) (rw moved refl)
