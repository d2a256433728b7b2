-- ===== src/Sql/Quote.antt =====
-- Quoted text, as crates/duckdb-engine/src/sql.rs writes it, and what its scanner sees of it.
use local_etl_tool.Prelude.{
  ℕ, ◌≡◌, refl, sym, ap, ◌∙◌, inl, inr, Bool, true, false, Option, none, some, [], ◌∷◌, ◌++◌, ◌==◌,
  if◌then◌else◌, arith, all, append_assoc, Bool-cases,
}
use local_etl_tool.Prelude.Text.{Text}
use local_etl_tool.Prelude.Split.{is_ascii_alphabetic}
use local_etl_tool.Sql.{
  doubled, quote_identifier, quote_literal, is_word, starts_word, past, take_word, heads,
  is_install, at_word, after, contains_install,
}
use local_etl_tool.Sql.Scan.{contains_install-after, contains_install-refused}

-- How SQL reads what is quoted, from behind its opening quote: a doubled quote stands for one, a single one ends
-- it, and a text that does not end is no literal.
unfoldable pub unquote : ℕ → Text → Option (Text × Text)
unquote quote [] = none
unquote quote (c ∷ []) = if c == quote then some ([], []) else none
unquote quote (c ∷ d ∷ s) =
    let inner = unquote quote s in
    let next = unquote quote (d ∷ s) in
    if c == quote
    then if d == quote
      then elim inner [ none ↦ none | some (v, rest) ↦ some (quote ∷ v, rest) ]
      else some ([], d ∷ s)
    else elim next [ none ↦ none | some (v, rest) ↦ some (c ∷ v, rest) ]

-- Whether a text goes on with a letter, a digit or `_`.
unfoldable pub any_word : Text → Bool
unfolding is_word
any_word [] = false
any_word (c ∷ s) = is_word c

ended :
    (quote : ℕ) (rest : Text)
    → heads quote rest ≡ false
    → unquote quote (quote ∷ rest) ≡ some ([], rest)
unfolding unquote heads
ended quote [] h = let same : quote == quote ≡ true = ground arith in rw same refl
ended quote (c ∷ s) h = let same : quote == quote ≡ true = ground arith in rw (same, h) refl

unquote-ordinary :
    (quote c : ℕ) (s v rest : Text)
    → c == quote ≡ false
    → unquote quote s ≡ some (v, rest)
    → unquote quote (c ∷ s) ≡ some (c ∷ v, rest)
unfolding unquote
unquote-ordinary quote c [] v rest h e = absurd (ground arith)
unquote-ordinary quote c (d ∷ s) v rest h e = rw (h, e) refl

unquote-pair :
    (quote : ℕ) (s v rest : Text)
    → unquote quote s ≡ some (v, rest)
    → unquote quote (quote ∷ quote ∷ s) ≡ some (quote ∷ v, rest)
unfolding unquote
unquote-pair quote s v rest e =
    let equal : quote == quote ≡ true = ground arith in rw (equal, e) refl

unquote-doubled :
    (quote : ℕ) (v rest : Text)
    → heads quote rest ≡ false
    → unquote quote (doubled quote v ++ quote ∷ rest) ≡ some (v, rest)
unfolding doubled
unquote-doubled quote [] rest h = ended quote rest h
unquote-doubled quote (c ∷ v) rest h = elim (Bool-cases (c == quote)) [
  | inl e ↦
      let same : c ≡ quote = ground arith in
      let equal : quote == quote ≡ true = ground arith in
      let inner = unquote-doubled quote v rest h in
      rw (same, equal) (unquote-pair quote (doubled quote v ++ quote ∷ rest) v rest inner)
  | inr e ↦ rw e (
      unquote-ordinary quote c (doubled quote v ++ quote ∷ rest) v rest e
        (unquote-doubled quote v rest h))
]

-- Where the text behind a quoted literal does not begin with a quote, SQL reads the literal back: its value is
-- the one that was quoted, whatever it holds, and what follows is left alone.
pub unquote-quote_literal :
    (value rest : Text)
    → heads b'\x27' rest ≡ false
    → (body : Text) × (quote_literal value ++ rest ≡ b'\x27' ∷ body)
      × (unquote b'\x27' body ≡ some (value, rest))
unquote-quote_literal value rest h = (
  doubled b'\x27' value ++ b'\x27' ∷ rest,
  (unfold quote_literal in
      ap (λ s. b'\x27' ∷ s) (append_assoc (doubled b'\x27' value) (b'\x27' ∷ []) rest)),
  unquote-doubled b'\x27' value rest h,
)

-- The same of an identifier and double quotes.
pub unquote-quote_identifier :
    (name rest : Text)
    → heads b'"' rest ≡ false
    → (body : Text) × (quote_identifier name ++ rest ≡ b'"' ∷ body)
      × (unquote b'"' body ≡ some (name, rest))
unquote-quote_identifier name rest h = (
  doubled b'"' name ++ b'"' ∷ rest,
  (unfold quote_identifier in
      ap (λ s. b'"' ∷ s) (append_assoc (doubled b'"' name) (b'"' ∷ []) rest)),
  unquote-doubled b'"' name rest h,
)

past-doubled :
    (quote : ℕ) (v rest : Text)
    → ((s : Text) → after quote s ≡ some (past quote s))
    → contains_install (past quote (doubled quote v ++ quote ∷ rest)) ≡ contains_install rest
unfolding past doubled
past-doubled quote [] rest opens = let same : quote == quote ≡ true = ground arith in rw same refl
past-doubled quote (c ∷ v) rest opens = elim (Bool-cases (c == quote)) [
  | inl e ↦
      let same : c ≡ quote = ground arith in
      let equal : quote == quote ≡ true = ground arith in
      let tail_ = doubled quote v ++ quote ∷ rest in
      rw (same, equal, equal)
        (contains_install-after quote tail_ (past quote tail_) (opens tail_)
          ∙ past-doubled quote v rest opens)
  | inr e ↦ rw (e, e) (past-doubled quote v rest opens)
]

-- The scanner passes over a quoted literal as if it were not there: a literal neither makes it refuse a text nor
-- hides what follows from it, whatever was quoted.
pub contains_install-quote_literal :
    (value rest : Text) → contains_install (quote_literal value ++ rest) ≡ contains_install rest
contains_install-quote_literal value rest =
    let opens : (s : Text) → after b'\x27' s ≡ some (past b'\x27' s) = λ s. unfold after in refl in
    let body = doubled b'\x27' value ++ b'\x27' ∷ rest in
    unfold quote_literal in
    rw (append_assoc (doubled b'\x27' value) (b'\x27' ∷ []) rest) (
      contains_install-after b'\x27' body (past b'\x27' body) (opens body)
      ∙ past-doubled b'\x27' value rest opens)

take_word-word :
    (w rest : Text)
    → all is_word w ≡ true
    → any_word rest ≡ false
    → take_word (w ++ rest) ≡ (w, rest)
unfolding take_word any_word
take_word-word [] [] h none_ = refl
take_word-word [] (c ∷ s) h none_ = rw none_ refl
take_word-word (c ∷ w) rest h none_ =
    let first : is_word c ≡ true = ground arith in
    let others : all is_word w ≡ true = ground arith in
    rw (first, take_word-word w rest others none_) refl

at_keyword :
    (c : ℕ) (w rest : Text)
    → is_install (c ∷ w) ≡ true
    → all is_word w ≡ true
    → any_word rest ≡ false
    → at_word c (w ++ rest) ≡ none
unfolding at_word
at_keyword c w rest h word end = rw (take_word-word w rest word end, h) refl

-- A letter or `_` is none of the characters that the scanner tests for first.
ordinary : (c quote : ℕ) → starts_word c ≡ true → starts_word quote ≡ false → c == quote ≡ false
ordinary c quote h other = elim (Bool-cases (c == quote)) [
  | inl e ↦
      let same : c ≡ quote = ground arith in
      let bad : true ≡ false = sym (rw same at h) ∙ other in absurd (ground arith)
  | inr e ↦ e
]

refused : (c : ℕ) (s : Text) → starts_word c ≡ true → at_word c s ≡ none → after c s ≡ none
unfolding after
refused c s h e =
    let a = ordinary c b'\x27' h (unfold starts_word is_ascii_alphabetic in refl) in
    let b = ordinary c b'"' h (unfold starts_word is_ascii_alphabetic in refl) in
    let d = ordinary c b'$' h (unfold starts_word is_ascii_alphabetic in refl) in
    let f = ordinary c b'-' h (unfold starts_word is_ascii_alphabetic in refl) in
    let g = ordinary c b'/' h (unfold starts_word is_ascii_alphabetic in refl) in
    rw (a, b, d, f, g, h, e) refl

-- A text is refused when, behind any quoted literal, it goes on with the keyword in any case, and no letter, digit
-- or `_` follows.
pub contains_install-keyword :
    (value : Text) (c : ℕ) (w rest : Text)
    → starts_word c ≡ true
    → all is_word w ≡ true
    → is_install (c ∷ w) ≡ true
    → any_word rest ≡ false
    → contains_install (quote_literal value ++ (c ∷ (w ++ rest))) ≡ true
contains_install-keyword value c w rest letter word h end =
    contains_install-quote_literal value (c ∷ (w ++ rest))
    ∙ contains_install-refused c (w ++ rest)
        (refused c (w ++ rest) letter (at_keyword c w rest h word end))
