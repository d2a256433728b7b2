-- ===== src/Sql/Tests.antt =====
-- Hostile texts for crates/duckdb-engine/src/sql.rs.
use local_etl_tool.Prelude.{◌≡◌, refl, true, false, some, ◌∷◌, ◌++◌}
use local_etl_tool.Prelude.Text.{Text, codes}
use local_etl_tool.Sql.{
  quote_literal, quote_path, contains_install, heads, starts_word, is_word, is_install,
}
use local_etl_tool.Sql.Quote.{
  unquote, any_word, unquote-quote_literal, contains_install-quote_literal,
  contains_install-keyword,
}

abbrev hostile : Text
hostile = codes "x'; INSTALL httpfs; --"

hostile_quoted : quote_literal hostile ≡ codes "'x''; INSTALL httpfs; --'"
unfolding quote_literal
hostile_quoted = refl

path_quoted : quote_path (codes "D:\\Bob's Files\\x.csv") ≡ codes "'D:/Bob''s Files/x.csv'"
unfolding quote_path
path_quoted = refl

unquote-quote_literal_example :
    (body : Text) × (quote_literal hostile ++ codes ", 1" ≡ b'\x27' ∷ body)
    × (unquote b'\x27' body ≡ some (hostile, codes ", 1"))
unfolding heads
unquote-quote_literal_example = unquote-quote_literal hostile (codes ", 1") refl

contains_install-quote_literal_example :
    contains_install (quote_literal hostile ++ codes " AS stage")
    ≡ contains_install (codes " AS stage")
contains_install-quote_literal_example = contains_install-quote_literal hostile (codes " AS stage")

contains_install-keyword_example :
    contains_install (quote_literal hostile ++ (b'I' ∷ (codes "nstall" ++ codes " httpfs"))) ≡ true
unfolding starts_word is_word is_install any_word
contains_install-keyword_example =
    contains_install-keyword hostile b'I' (codes "nstall") (codes " httpfs") refl refl refl refl

-- What looks like a parameter between two `$` opens a block, and hides what follows.
parameter_block : contains_install (codes "$1$ INSTALL httpfs") ≡ false
unfolding contains_install
parameter_block = refl

-- A quote behind a backslash closes the literal for the scanner.
escape_string : contains_install (codes "SELECT E'\\''; INSTALL httpfs; --'") ≡ false
unfolding contains_install
escape_string = refl
