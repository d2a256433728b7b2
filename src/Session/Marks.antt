-- ===== src/Session/Marks.antt =====
-- The markers of crates/duckdb-engine/src/session.rs, as DuckDB prints them.
use local_etl_tool.Prelude.{
  ℕ, ◌^◌, ◌<◌, ◌≡◌, refl, ap, true, false, some, [], ◌∷◌, ◌++◌, append-nil, sym, arith, ◌==◌, all,
  if◌then◌else◌,
}
use local_etl_tool.Prelude.Text.{Text, codes, strip_prefix, is_ascii_digit}
use local_etl_tool.Prelude.Decimal.{shown, shown-all_digits, parse_u64-shown}
use local_etl_tool.Session.{
  mark, error_mark, marker_for, error_marker_for, cut, sequence_after, marker_sequence,
  error_marker_sequence,
}

-- The row of `SELECT '<marker>' AS __etl_mark;` under `-json`.
unfoldable pub marker_line : ℕ → Text
unfolding marker_for
marker_line n = codes "[{\"__etl_mark\":\"" ++ marker_for n ++ codes "\"}]"

-- The message of `SELECT error('<marker>');`.
unfoldable pub error_marker_line : ℕ → Text
unfolding error_marker_for
error_marker_line n = codes "Invalid Input Error: " ++ error_marker_for n

digits_end :
    (ds rest : Text)
    → all is_ascii_digit ds ≡ true
    → cut (codes "__") (ds ++ codes "__" ++ rest) ≡ some (ds, rest)
unfolding cut strip_prefix is_ascii_digit
digits_end [] [] h = refl
digits_end [] (c ∷ rest) h = refl
digits_end (d ∷ ds) rest h =
    let (here, there) : ((b'_' == d) ≡ false) × (all is_ascii_digit ds ≡ true) = ground arith in
    rw (cut, strip_prefix, here, digits_end ds rest there, if◌then◌else◌) refl

pub read_number :
    (prefix line rest before : Text) (n : ℕ)
    → n < 2 ^ 64
    → cut prefix line ≡ some (before, shown n ++ codes "__" ++ rest)
    → sequence_after line prefix ≡ some n
unfolding sequence_after
read_number prefix line rest before n h e =
    let number = digits_end (shown n) rest (shown-all_digits n) in
    let value = parse_u64-shown n h in rw (e, sequence_after, number) value

-- What is read back from the marker of a statement, in either pipe, is the number of the statement, as long as it is a u64.
pub marker_sequence-marker_line :
    (n : ℕ)
    → n < 2 ^ 64
    → (marker_sequence (marker_line n) ≡ some n)
      × (error_marker_sequence (error_marker_line n) ≡ some n)
unfolding marker_sequence error_marker_sequence marker_line error_marker_line marker_for
    error_marker_for
marker_sequence-marker_line n h = (
  read_number mark (marker_line n) (codes "\"}]") (codes "[{\"__etl_mark\":\"") n h refl,
  read_number error_mark (error_marker_line n) [] (codes "Invalid Input Error: ") n h
      (ap (λ s. some (codes "Invalid Input Error: ", s)) (sym (append-nil _))),
)
