-- ===== src/Session/Tests.antt =====
-- The session of crates/duckdb-engine/src/session.rs on concrete statements.
use local_etl_tool.Prelude.{
  ℕ, suc, ◌≡◌, ◌<◌, ◌^◌, refl, ap, ◌∙◌, append_assoc, none, some, List, [], ◌∷◌, ◌++◌, ok, err,
  arith,
}
use local_etl_tool.Prelude.Text.{Text, codes}
use local_etl_tool.Prelude.Decimal.{shown}
use local_etl_tool.Metadata.{JsonValue}
use local_etl_tool.Session.{
  SessionError, line, silence, Wait, read_until, read_answer, framed, Child, marker_sequence,
  error_marker_sequence, sequence_after, marker_for, error_marker_for, mark, cut,
}
use local_etl_tool.Session.Opening.{prove_prelude}
use local_etl_tool.Session.Marks.{
  marker_line, error_marker_line, marker_sequence-marker_line, read_number,
}
use local_etl_tool.Session.Frames.{
  Engine, Keeps, lines_of, own_answers, after_all, execute_all, at_boundary,
  execute_all-own_answers,
}

abbrev select : Text
select = codes "SELECT 3 AS n;"

abbrev rows : List Text
rows = codes "[{\"n\":3}]" ∷ []

abbrev warning : List Text
warning = codes "a warning" ∷ []

-- A process that counts the statements it answered, and prints the same for each.
abbrev engine : Engine ℕ
engine = record { output = λ sql p. rows; messages = λ sql p. warning; next = λ sql p. suc p }

abbrev child : Child ℕ
child = record {
  write = λ text p. elim (marker_sequence text) [
    | none ↦ ok ([], [], p)
    | some n ↦ ok (
      lines_of rows ++ line (marker_line n) ∷ [],
      lines_of warning ++ line (error_marker_line n) ∷ [],
      suc p,
    )
  ];
  parse_values = λ text. ok (JsonValue.string text ∷ []);
}

select_number : (n : ℕ) → n < 2 ^ 64 → marker_sequence (framed select n) ≡ some n
unfolding marker_sequence framed marker_for
select_number n small =
    let numbered = shown n ++ codes "__" in
    let behind = codes "' AS __etl_mark;\nSELECT error('" in
    let ending = codes "');\n" in
    read_number mark (framed select n) (behind ++ (error_marker_for n ++ ending))
      (codes "SELECT 3 AS n;\nSELECT '") n small
      (ap (λ s. some (codes "SELECT 3 AS n;\nSELECT '", s))
        (ap (λ s. s ++ ending) (append_assoc numbered behind (error_marker_for n))
          ∙ append_assoc numbered (behind ++ error_marker_for n) ending
          ∙ ap (λ s. numbered ++ s) (append_assoc behind (error_marker_for n) ending)))

child-Keeps : Keeps child engine (λ sql. sql ≡ select)
unfolding marker_sequence error_marker_sequence sequence_after cut
child-Keeps = record {
  frames = λ sql n p e small. let number = select_number n small in rw (e, child, number) refl;
  plain_output = λ sql p e. (refl, tt);
  plain_messages = λ sql p e. (refl, tt);
}

-- Two statements, the second with the messages that were said for it.
execute_all-own_answers_example :
    execute_all child (select ∷ select ∷ []) (at_boundary 0 7 600)
    ≡ (own_answers child engine (select ∷ select ∷ []) 0, at_boundary 2 9 600)
unfolding after_all
execute_all-own_answers_example =
    execute_all-own_answers child engine (λ sql. sql ≡ select) child-Keeps (select ∷ select ∷ []) 0
      7 600 (refl, (refl, tt)) (omega arith)

marker_sequence-marker_line_example :
    (marker_sequence (marker_line 42) ≡ some 42)
    × (error_marker_sequence (error_marker_line 42) ≡ some 42)
marker_sequence-marker_line_example = marker_sequence-marker_line 42 (omega arith)

-- The marker of an earlier statement, a pipe that falls silent, and one that ends.
late_marker :
    read_until marker_sequence 3 [] (line (codes "a\r") ∷ line (marker_line 2) ∷ silence ∷ [])
    ≡ (err (Wait.out_of_step 2), silence ∷ [])
unfolding read_until marker_sequence marker_line
late_marker = refl

no_answer :
    read_answer (line (codes "a") ∷ silence ∷ []) (line (codes "b") ∷ []) 3
    ≡ (err Wait.timed_out, [], line (codes "b") ∷ [])
unfolding read_answer
no_answer = refl

no_message :
    read_answer (line (marker_line 3) ∷ []) (line (codes "b") ∷ []) 3 ≡ (err Wait.closed, [], [])
unfolding read_answer marker_line
no_message = refl

-- A message fails the prelude, whatever the rows.
prelude_said_something :
    prove_prelude child (at_boundary 0 0 600)
    ≡ err (SessionError.bad_output (codes "the session prelude failed. DuckDB said: a warning"))
unfolding prove_prelude at_boundary marker_line error_marker_line
prelude_said_something = refl
