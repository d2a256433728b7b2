-- ===== src/Sql/Scan.antt =====
-- The rounds of the scanner of crates/duckdb-engine/src/sql.rs, and their number.
use local_etl_tool.Prelude.{
  ℕ, zero, suc, ◌≤◌, ◌≡◌, refl, inl, inr, Bool, true, false, Option, none, some, [], ◌∷◌, ◌==◌,
  if◌then◌else◌, length, arith, Bool-cases, Option-cases,
}
use local_etl_tool.Prelude.Text.{Text, codes, strip_prefix}
use local_etl_tool.Sql.{
  past, line_end, past_tag, take_word, closed, dollar_tag, tail, is_install, at_word, after, scan,
  contains_install,
}

past-le : (quote : ℕ) (s : Text) → length (past quote s) ≤ length s
unfolding past
past-le quote [] = omega arith
past-le quote (c ∷ s) = let rest = past-le quote s in ground arith

line_end-le : (s : Text) → length (line_end s) ≤ length s
unfolding line_end
line_end-le [] = omega arith
line_end-le (c ∷ s) = let rest = line_end-le s in ground arith

strip_prefix-le : (p s r : Text) → strip_prefix p s ≡ some r → length r ≤ length s
unfolding strip_prefix
strip_prefix-le [] s r h = let same : s ≡ r = ground arith in rw same (omega arith)
strip_prefix-le (p ∷ ps) [] r h = absurd (ground arith)
strip_prefix-le (p ∷ ps) (c ∷ s) r h = elim (Bool-cases (p == c)) [
  | inl e ↦ let rest = strip_prefix-le ps s r (rw e at h) in omega arith
  | inr e ↦ let bad = rw e at h in absurd (ground arith)
]

past_tag-le : (tag s : Text) → length (past_tag tag s) ≤ length s
unfolding past_tag
past_tag-le tag [] = omega arith
past_tag-le tag (c ∷ s) = elim (Option-cases (strip_prefix tag (c ∷ s))) [
  | inl e ↦ let rest = past_tag-le tag s in rw (e, past_tag) (omega arith)
  | inr (r, e) ↦ let less = strip_prefix-le tag (c ∷ s) r e in rw (e, past_tag) less
]

take_word-le : (s : Text) → length ((take_word s).1) ≤ length s
unfolding take_word
take_word-le [] = omega arith
take_word-le (c ∷ s) = let rest = take_word-le s in ground arith

closed-le : (word s tag rest : Text) → closed word s ≡ some (tag, rest) → length rest ≤ length s
unfolding closed
closed-le word [] tag rest h = absurd (ground arith)
closed-le word (c ∷ s) tag rest h = elim (Bool-cases (c == b'$')) [
  | inl e ↦ let same : s ≡ rest = let shown = rw e at h in ground arith in rw same (omega arith)
  | inr e ↦ let bad = rw e at h in absurd (ground arith)
]

dollar_tag-le : (s tag rest : Text) → dollar_tag s ≡ some (tag, rest) → length rest ≤ length s
unfolding dollar_tag
dollar_tag-le s tag rest h =
    let word = take_word-le s in
    let less = closed-le ((take_word s).0) ((take_word s).1) tag rest h in omega arith

tail-le : (s : Text) → length (tail s) ≤ length s
unfolding tail
tail-le [] = omega arith
tail-le (c ∷ s) = omega arith

at_word-le : (c : ℕ) (s r : Text) → at_word c s ≡ some r → length r ≤ length s
unfolding at_word
at_word-le c s r h =
    let word = take_word-le s in
    elim (Bool-cases (is_install (c ∷ (take_word s).0))) [
      | inl e ↦ let bad = rw e at h in absurd (ground arith)
      | inr e ↦
          let same : (take_word s).1 ≡ r = let shown = rw e at h in ground arith in rw same at word
    ]

-- What is left, if anything is, is no longer than a bound.
IsWithin : ℕ → Option Text → Type 0
IsWithin n o = (r : Text) → o ≡ some r → length r ≤ n

IsWithin-some : (n : ℕ) (s : Text) → length s ≤ n → IsWithin n (some s)
unfolding IsWithin
IsWithin-some n s h r e = let same : s ≡ r = ground arith in rw same at h

IsWithin-if :
    (n : ℕ) (b : Bool) (x y : Option Text)
    → IsWithin n x
    → IsWithin n y
    → IsWithin n (if b then x else y)
IsWithin-if n true x y hx hy = hx
IsWithin-if n false x y hx hy = hy

IsWithin-dollar :
    (s : Text)
    → IsWithin
        (length s)
        (elim (dollar_tag s) [ none ↦ some s | some (tag, rest) ↦ some (past_tag tag rest) ])
IsWithin-dollar s = elim (Option-cases (dollar_tag s)) [
  | inl e ↦ rw e (IsWithin-some (length s) s (omega arith))
  | inr ((tag, rest), e) ↦
      let less = dollar_tag-le s tag rest e in
      let least = past_tag-le tag rest in
      rw e (IsWithin-some (length s) (past_tag tag rest) (omega arith))
]

IsWithin-at_word : (c : ℕ) (s : Text) → IsWithin (length s) (at_word c s)
unfolding IsWithin
IsWithin-at_word c s = at_word-le c s

after-IsWithin : (c : ℕ) (s : Text) → IsWithin (length s) (after c s)
unfolding after
after-IsWithin c s =
    let n = length s in
    let behind_comment : length (past_tag (codes "*/") (tail s)) ≤ n =
      let less = past_tag-le (codes "*/") (tail s) in let least = tail-le s in omega arith in
    let at_keyword : IsWithin n (at_word c s) = IsWithin-at_word c s in
    IsWithin-if n _ _ _ (IsWithin-some n _ (past-le b'\x27' s)) (
      IsWithin-if n _ _ _ (IsWithin-some n _ (past-le b'"' s)) (
        IsWithin-if n _ _ _ (IsWithin-dollar s) (
          IsWithin-if n _ _ _ (IsWithin-some n _ (line_end-le s)) (
            IsWithin-if n _ _ _ (IsWithin-some n _ behind_comment)
              (IsWithin-if n _ _ _ at_keyword (IsWithin-some n s (omega arith)))))))

after-le : (c : ℕ) (s r : Text) → after c s ≡ some r → length r ≤ length s
unfolding IsWithin
after-le c s r h = after-IsWithin c s r h

-- Any fuel from the length of the text on gives the same answer.
scan_enough : (m n : ℕ) (s : Text) → length s ≤ m → length s ≤ n → scan m s ≡ scan n s
unfolding scan
scan_enough zero zero [] hm hn = refl
scan_enough zero (suc n) [] hm hn = refl
scan_enough (suc m) zero [] hm hn = refl
scan_enough (suc m) (suc n) [] hm hn = refl
scan_enough zero n (c ∷ s) hm hn = absurd (omega arith)
scan_enough (suc m) zero (c ∷ s) hm hn = absurd (omega arith)
scan_enough (suc m) (suc n) (c ∷ s) hm hn = elim (Option-cases (after c s)) [
  | inl e ↦ rw (e, scan) refl
  | inr (r, e) ↦
      let less = after-le c s r e in rw (e, scan) (scan_enough m n r (omega arith) (omega arith))
]

-- A round that goes on.
pub contains_install-after :
    (c : ℕ) (s r : Text) → after c s ≡ some r → contains_install (c ∷ s) ≡ contains_install r
unfolding contains_install scan
contains_install-after c s r e =
    let less = after-le c s r e in
    rw (e, scan) (scan_enough (length s) (length r) r less (omega arith))

-- A round that refuses.
pub contains_install-refused :
    (c : ℕ) (s : Text) → after c s ≡ none → contains_install (c ∷ s) ≡ true
unfolding contains_install scan
contains_install-refused c s e = rw (e, scan) refl
