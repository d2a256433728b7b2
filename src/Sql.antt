-- ===== src/Sql.antt =====
-- crates/duckdb-engine/src/sql.rs: quoting, and the scanner that refuses INSTALL. The scanner of the source reads
-- bytes; it tests ASCII characters only, so a byte of any other character falls where its code point does.
pub mod Scan
pub mod Quote
mod Tests
use local_etl_tool.Prelude.{
  ℕ, zero, suc, Bool, true, false, ◌&&◌, ◌||◌, Option, none, some, List, [], ◌∷◌, ◌++◌, ◌==◌,
  if◌then◌else◌, length, map,
}
use local_etl_tool.Prelude.Text.{
  Text, codes, text_eq, is_ascii_digit, to_ascii_lowercase, strip_prefix,
}
use local_etl_tool.Prelude.Split.{is_ascii_alphabetic}

-- The characters with every `quote` doubled.
unfoldable pub doubled : ℕ → Text → Text
doubled quote [] = []
doubled quote (c ∷ s) = if c == quote then quote ∷ c ∷ doubled quote s else c ∷ doubled quote s

unfoldable pub quote_identifier : Text → Text
unfolding doubled
quote_identifier name = b'"' ∷ doubled b'"' name ++ b'"' ∷ []

unfoldable pub quote_literal : Text → Text
unfolding doubled
quote_literal value = b'\x27' ∷ doubled b'\x27' value ++ b'\x27' ∷ []

-- `replace('\\', "/")`.
unfoldable pub forward : Text → Text
forward path = map (λ c. if c == b'\x5c' then b'/' else c) path

unfoldable pub quote_path : Text → Text
unfolding quote_literal forward
quote_path path = quote_literal (forward path)

-- A letter, a digit or `_`.
unfoldable pub is_word : ℕ → Bool
unfolding is_ascii_alphabetic is_ascii_digit
is_word c = is_ascii_alphabetic c || is_ascii_digit c || c == b'_'

-- A letter or `_`.
unfoldable pub starts_word : ℕ → Bool
unfolding is_ascii_alphabetic
starts_word c = is_ascii_alphabetic c || c == b'_'

-- The characters behind the next `quote`, which closes what is quoted.
unfoldable pub past : ℕ → Text → Text
past quote [] = []
past quote (c ∷ s) = if c == quote then s else past quote s

-- The text from the end of the line on.
unfoldable pub line_end : Text → Text
line_end [] = []
line_end (c ∷ s) = if c == 10 then c ∷ s else line_end s

-- The text behind the next occurrence of a tag.
unfoldable pub past_tag : Text → Text → Text
unfolding strip_prefix
past_tag tag [] = []
past_tag tag (c ∷ s) = elim (strip_prefix tag (c ∷ s)) [ some rest ↦ rest | none ↦ past_tag tag s ]

-- The word that a text begins with, and what is behind it.
unfoldable pub take_word : Text → Text × Text
unfolding is_word
take_word [] = ([], [])
take_word (c ∷ s) =
    let (word, rest) = take_word s in if is_word c then (c ∷ word, rest) else ([], c ∷ s)

-- `dollar_tag`, of the text behind a `$`: the tag, with both its `$`, and the text behind it.
unfoldable pub closed : Text → Text → Option (Text × Text)
closed word [] = none
closed word (c ∷ s) = if c == b'$' then some (b'$' ∷ word ++ b'$' ∷ [], s) else none

unfoldable pub dollar_tag : Text → Option (Text × Text)
unfolding take_word closed
dollar_tag s = let (word, rest) = take_word s in closed word rest

-- Whether a text begins with a character.
unfoldable pub heads : ℕ → Text → Bool
heads c [] = false
heads c (d ∷ s) = d == c

-- The text without its first character.
unfoldable pub tail : Text → Text
tail [] = []
tail (c ∷ s) = s

-- `eq_ignore_ascii_case` with the keyword.
unfoldable pub is_install : Text → Bool
unfolding text_eq to_ascii_lowercase
is_install word = text_eq (map to_ascii_lowercase word) (codes "install")

-- At a word: the keyword is refused.
unfoldable pub at_word : ℕ → Text → Option Text
unfolding take_word is_install
at_word c s = let (word, rest) = take_word s in if is_install (c ∷ word) then none else some rest

-- One round of the loop, at a character: the text is refused, or there is a text to go on with.
unfoldable pub after : ℕ → Text → Option Text
unfolding past past_tag dollar_tag heads tail line_end starts_word at_word
after c s =
    if c == b'\x27'
    then some (past b'\x27' s)
    else if c == b'"'
    then some (past b'"' s)
    else if c == b'$'
    then elim (dollar_tag s) [ none ↦ some s | some (tag, rest) ↦ some (past_tag tag rest) ]
    else if c == b'-' && heads b'-' s
    then some (line_end s)
    else if c == b'/' && heads b'*' s
    then some (past_tag (codes "*/") (tail s))
    else if starts_word c
    then at_word c s
    else some s

-- The loop, on fuel: each round takes a character at least.
unfoldable pub scan : ℕ → Text → Bool
unfolding after
scan zero s = false
scan (suc fuel) [] = false
scan (suc fuel) (c ∷ s) = elim (after c s) [ none ↦ true | some rest ↦ scan fuel rest ]

unfoldable pub contains_install : Text → Bool
unfolding scan
contains_install sql = scan (length sql) sql
