-- ===== src/State/Runs/Lines.antt =====
-- crates/state/src/runs.rs: what `read` finds in a history after `append` and `prune`.
use local_etl_tool.Prelude.{
  ℕ, zero, suc, ◌-◌, ◌≡◌, refl, ap, sym, ◌∙◌, inl, inr, false, Option, none, some, List, [], ◌∷◌,
  map, append_assoc, ◌++◌, All, Bool-cases, Option-cases, append-nil, ok, leb, length, ◌==◌, arith,
}
use local_etl_tool.Prelude.Text.{Text, trim}
use local_etl_tool.Plan.Query.{filter_map}
use local_etl_tool.Session.{is_empty}
use local_etl_tool.State.Keys.{check_key}
use local_etl_tool.State.Runs.{
  RunRecord, Json, strip_return, lines_from, parse_line, records_in, append_all, read, line_of,
  versioned, contents, append, drop, all_lines, prune,
}

-- The record is written as one line that is read back as the record.
abbrev pub IsLine : Json → RunRecord → Type 0
IsLine json r =
    All (λ (c : ℕ). (c == 10) ≡ false) (json.to_string r)
    × (strip_return (json.to_string r) ≡ json.to_string r)
    × (is_empty (trim (json.to_string r)) ≡ false)
    × (json.from_str (json.to_string r) ≡ some r)

-- Lines behind a line end are read by themselves.
lines_from-++ :
    (line text more : Text)
    → lines_from line (text ++ 10 ∷ more) ≡ lines_from line (text ++ 10 ∷ []) ++ lines_from [] more
unfolding lines_from
lines_from-++ line [] more = refl
lines_from-++ line (c ∷ text) more = elim (Bool-cases (c == 10)) [
  | inl e ↦ rw (e, lines_from) (ap (λ ls. strip_return line ∷ ls) (lines_from-++ [] text more))
  | inr e ↦ rw (e, lines_from) (lines_from-++ (line ++ c ∷ []) text more)
]

filter_map-++ :
    {A B : Type 0} (f : A → Option B) (xs ys : List A)
    → filter_map f (xs ++ ys) ≡ filter_map f xs ++ filter_map f ys
filter_map-++ f [] ys = refl
filter_map-++ f (x ∷ xs) ys = elim (Option-cases (f x)) [
  | inl e ↦ rw (e, filter_map) (filter_map-++ f xs ys)
  | inr (y, e) ↦ rw (e, filter_map) (ap (λ l. y ∷ l) (filter_map-++ f xs ys))
]

-- A line without a newline in it.
lines_from-line :
    (line s : Text)
    → All (λ (c : ℕ). (c == 10) ≡ false) s
    → lines_from line (s ++ 10 ∷ []) ≡ strip_return (line ++ s) ∷ []
unfolding lines_from
lines_from-line line [] h = ap (λ l. strip_return l ∷ []) (sym (append-nil line))
lines_from-line line (c ∷ s) (e, h) =
    rw (e, lines_from)
      (lines_from-line (line ++ c ∷ []) s h
        ∙ ap (λ l. strip_return l ∷ []) (append_assoc line (c ∷ []) s))

parse_line-full :
    (json : Json) (line : Text)
    → is_empty (trim line) ≡ false
    → parse_line json line ≡ json.from_str line
unfolding parse_line
parse_line-full json line full = rw full refl

records_in-line_of :
    (json : Json) (r : RunRecord) → IsLine json r → records_in json (line_of json r) ≡ r ∷ []
unfolding records_in
records_in-line_of json r (whole, bare, full, back) =
    ap (filter_map (parse_line json))
      (lines_from-line [] (json.to_string r) whole ∙ ap (λ l. l ∷ []) bare)
    ∙ rw (parse_line-full json (json.to_string r) full ∙ back, filter_map) refl

records_in-++ :
    (json : Json) (text more : Text)
    → records_in json (text ++ 10 ∷ more)
      ≡ records_in json (text ++ 10 ∷ []) ++ records_in json more
unfolding records_in
records_in-++ json text more =
    ap (filter_map (parse_line json)) (lines_from-++ [] text more)
    ∙ filter_map-++ (parse_line json) (lines_from [] (text ++ 10 ∷ [])) (lines_from [] more)

records_in-all_lines :
    (json : Json) (rs : List RunRecord)
    → All (IsLine json) rs
    → records_in json (all_lines json rs) ≡ rs
unfolding all_lines
records_in-all_lines json [] h = unfold records_in in unfold lines_from in refl
records_in-all_lines json (r ∷ rs) (e, h) =
    ap (records_in json) (append_assoc (json.to_string r) (10 ∷ []) (all_lines json rs))
    ∙ records_in-++ json (json.to_string r) (all_lines json rs)
    ∙ ap (λ l. l ++ records_in json (all_lines json rs)) (records_in-line_of json r e)
    ∙ ap (λ l. r ∷ l) (records_in-all_lines json rs h)

read-contents :
    (json : Json) (key : Text) (file : Option Text)
    → check_key key ≡ ok tt
    → read json key file ≡ ok (records_in json (contents file))
unfolding read
read-contents json key none fits = rw fits (unfold records_in in unfold lines_from in refl)
read-contents json key (some text) fits = rw fits refl

-- The file behind the records that are added to it.
append_all-contents :
    (json : Json) (key : Text) (rs : List RunRecord) (file : Option Text)
    → check_key key ≡ ok tt
    → (f : Option Text) × (append_all json key rs file ≡ ok f)
      × (contents f ≡ contents file ++ all_lines json (map versioned rs))
unfolding append_all append all_lines
append_all-contents json key [] file fits = (file, refl, sym (append-nil (contents file)))
append_all-contents json key (r ∷ rs) file fits =
    let text = contents file ++ line_of json (versioned r) in
    let (f, added, held) = append_all-contents json key rs (some text) fits in
    (
      f,
      rw fits added,
      held
          ∙ append_assoc (contents file) (line_of json (versioned r))
              (all_lines json (map versioned rs)),
    )

drop-IsLine :
    (json : Json) (n : ℕ) (rs : List RunRecord)
    → All (IsLine json) rs
    → All (IsLine json) (drop n rs)
unfolding drop
drop-IsLine json zero rs h = h
drop-IsLine json (suc n) [] h = tt
drop-IsLine json (suc n) (r ∷ rs) (e, h) = drop-IsLine json n rs h

-- What is read behind a `prune` is the end of what was read before it.
prune-read :
    (json : Json) (key : Text) (keep : ℕ) (rs : List RunRecord) (file : Option Text)
    → check_key key ≡ ok tt
    → All (IsLine json) rs
    → read json key file ≡ ok rs
    → (g : Option Text) × (prune json key keep file ≡ ok (length rs - keep, g))
      × (read json key g ≡ ok (drop (length rs - keep) rs))
unfolding prune
prune-read json key keep rs file fits fine found = elim (Bool-cases (leb (length rs) keep)) [
  | inl e ↦
      let none_dropped : length rs - keep ≡ 0 = ground arith in
      (file, rw (found, e) (rw none_dropped refl), rw none_dropped (unfold drop in found))
  | inr e ↦ (
    some (all_lines json (drop (length rs - keep) rs)),
    rw (found, e) refl,
    read-contents json key (some (all_lines json (drop (length rs - keep) rs))) fits
        ∙ ap ok (
            records_in-all_lines json (drop (length rs - keep) rs)
              (drop-IsLine json (length rs - keep) rs fine)),
  )
]

-- Runs whose records are written as lines that are read back as the records, added one after another to a history
-- that has no file yet, under a key that is accepted, are read back in that order with the version of the format set;
-- and a `prune` drops those that are more than it keeps, of which the later ones are read back then.
pub append_all-read :
    (json : Json) (key : Text) (rs : List RunRecord) (keep : ℕ)
    → check_key key ≡ ok tt
    → All (IsLine json) (map versioned rs)
    → (f : Option Text) × (append_all json key rs none ≡ ok f)
      × (read json key f ≡ ok (map versioned rs))
      × ((g : Option Text) × (prune json key keep f ≡ ok (length (map versioned rs) - keep, g))
          × (read json key g ≡ ok (drop (length (map versioned rs) - keep) (map versioned rs))))
append_all-read json key rs keep fits fine =
    let (f, added, held) = append_all-contents json key rs none fits in
    let found : read json key f ≡ ok (map versioned rs) =
      read-contents json key f fits
      ∙ ap (λ text. ok (records_in json text)) held
      ∙ ap ok (records_in-all_lines json (map versioned rs) fine) in
    (f, added, found, prune-read json key keep (map versioned rs) f fits fine found)
