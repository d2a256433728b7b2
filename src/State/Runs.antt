-- ===== src/State/Runs.antt =====
-- crates/state/src/runs.rs: the records of runs, one JSON text for each line of a pipeline's history. A history is the
-- contents of its file, or none where there is no file; writing and reading a record as JSON are parameters.
pub mod Lines
mod Tests
use local_etl_tool.Prelude.{
  ℕ, zero, suc, ◌+◌, ◌-◌, ◌%◌, ◌/◌, Bool, true, false, Option, none, some, List, [], ◌∷◌, ◌++◌,
  if◌then◌else◌, length, Result, ok, err, ◌>>=◌, ◌>>◌, leb, ltb, ◌==◌,
}
use mathlib.Core.List.{reverse}
use local_etl_tool.Prelude.Text.{Text, codes, text_eq, trim, is_ascii_digit}
use local_etl_tool.Prelude.Count.{filter}
use local_etl_tool.Metadata.{Extra}
use local_etl_tool.Plan.Query.{filter_map}
use local_etl_tool.Session.{is_empty}
use local_etl_tool.Exec.{last_of}
use local_etl_tool.State.Keys.{KeyError, check_key}

pub data Outcome : Type 0 where
  succeeded failed : Outcome

unfoldable pub name : Outcome → Text
name succeeded = codes "succeeded"
name failed = codes "failed"

pub record StageRecord : Type 0 where
  pub node_id : Text
  pub label : Text
  pub component_id : Text
  pub rows : Option ℕ
  pub rejected : Option ℕ
  pub skipped : Option Text
  pub elapsed_ms : Option ℕ

pub record WatermarkRecord : Type 0 where
  pub node_id : Text
  pub column : Text
  pub value : Option Text

pub record RunRecord : Type 0 where
  pub format_version : ℕ
  pub id : Text
  pub pipeline : Text
  pub path : Option Text
  pub started : Text
  pub elapsed_ms : ℕ
  pub outcome : Outcome
  pub stages : List StageRecord
  pub notes : List Text
  pub warnings : List Text
  pub failures : List Text
  pub watermarks : List WatermarkRecord
  pub extra : Extra

abbrev pub current_format_version : ℕ
current_format_version = 1

unfoldable pub rows_written : RunRecord → Option ℕ
unfolding last_of
rows_written record_of_run = last_of (filter_map (λ s. s.rows) record_of_run.stages)

abbrev hex_digit : ℕ → ℕ
hex_digit d = if ltb d 10 then b'0' + d else b'a' + (d - 10)

-- `{:04x}` of a number below 0x10000.
unfoldable pub hex4 : ℕ → Text
hex4 n =
    hex_digit (n / 4096)
    ∷ hex_digit (n / 256 % 16)
    ∷ hex_digit (n / 16 % 16)
    ∷ hex_digit (n % 16)
    ∷ []

unfoldable pub new_id : Text → ℕ → Text
unfolding filter is_ascii_digit hex4
new_id started suffix = filter is_ascii_digit started ++ codes "-" ++ hex4 (suffix % 0x10000)

-- A record as one JSON text, and a JSON text as a record, where it is one.
pub record Json : Type 0 where
  pub to_string : RunRecord → Text
  pub from_str : Text → Option RunRecord

-- A line that ended in a newline loses a carriage return before it.
unfoldable pub strip_return : Text → Text
strip_return [] = []
strip_return (c ∷ []) = if c == 13 then [] else c ∷ []
strip_return (c ∷ d ∷ s) = c ∷ strip_return (d ∷ s)

-- `BufRead::lines`; `line` is what was read of the current line.
unfoldable pub lines_from : Text → Text → List Text
unfolding strip_return
lines_from line [] = elim line [ [] ↦ [] | c ∷ s ↦ (c ∷ s) ∷ [] ]
lines_from line (c ∷ text) =
    let ended = lines_from [] text in
    let further = lines_from (line ++ c ∷ []) text in
    elim (c == 10) [ true ↦ strip_return line ∷ ended | false ↦ further ]

unfoldable pub parse_line : Json → Text → Option RunRecord
unfolding is_empty trim
parse_line json line = if is_empty (trim line) then none else json.from_str line

unfoldable pub records_in : Json → Text → List RunRecord
unfolding lines_from parse_line
records_in json text = filter_map (parse_line json) (lines_from [] text)

unfoldable pub read : Json → Text → Option Text → Result KeyError (List RunRecord)
unfolding check_key records_in
read json key file = do
  check_key key
  ok (elim file [ none ↦ [] | some text ↦ records_in json text ])

unfoldable pub take : ℕ → List RunRecord → List RunRecord
take zero rs = []
take (suc n) [] = []
take (suc n) (r ∷ rs) = r ∷ take n rs

unfoldable pub recent : Json → Text → ℕ → Option Text → Result KeyError (List RunRecord)
unfolding read take
recent json key limit file = do records ← read json key file; ok (take limit (reverse records))

-- A record with its line end.
abbrev pub line_of : Json → RunRecord → Text
line_of json r = json.to_string r ++ 10 ∷ []

abbrev pub versioned : RunRecord → RunRecord
versioned r = record r { format_version = current_format_version }

abbrev pub contents : Option Text → Text
contents none = []
contents (some text) = text

unfoldable pub append : Json → Text → RunRecord → Option Text → Result KeyError Text
unfolding check_key
append json key r file = do check_key key; ok (contents file ++ line_of json (versioned r))

-- `&records[dropped..]`.
unfoldable pub drop : ℕ → List RunRecord → List RunRecord
drop zero rs = rs
drop (suc n) [] = []
drop (suc n) (r ∷ rs) = drop n rs

unfoldable pub all_lines : Json → List RunRecord → Text
all_lines json [] = []
all_lines json (r ∷ rs) = line_of json r ++ all_lines json rs

-- How many records were dropped, and the file behind it.
unfoldable pub prune : Json → Text → ℕ → Option Text → Result KeyError (ℕ × Option Text)
unfolding read drop all_lines
prune json key keep file = do
  records ← read json key file
  let dropped = length records - keep
  if leb (length records) keep
      then ok (0, file)
      else ok (dropped, some (all_lines json (drop dropped records)))

-- The first record with the id.
unfoldable pub with_id : Text → List RunRecord → Option RunRecord
unfolding text_eq
with_id id [] = none
with_id id (r ∷ rs) = let rest = with_id id rs in if text_eq r.id id then some r else rest

-- The loop of `find`; `files` is what the history file of a key holds.
unfoldable pub find_in :
    Json → (Text → Option Text) → Text → List Text → Result KeyError (Option RunRecord)
unfolding read with_id
find_in json files id [] = ok none
find_in json files id (key ∷ keys) =
    let rest = find_in json files id keys in
    do
      records ← read json key (files key)
      elim (with_id id records) [ some found ↦ ok (some found) | none ↦ rest ]

-- `listed` is what `keys` gives.
unfoldable pub find :
    Json
    → (Text → Option Text)
    → Result KeyError (List Text)
    → Option Text
    → Text
    → Result KeyError (Option RunRecord)
unfolding find_in
find json files listed (some key) id = find_in json files id (key ∷ [])
find json files listed none id = do keys ← listed; find_in json files id keys

-- Runs added one after another, the first of the list first.
unfoldable pub append_all :
    Json → Text → List RunRecord → Option Text → Result KeyError (Option Text)
unfolding append
append_all json key [] file = ok file
append_all json key (r ∷ rs) file = do
  text ← append json key r file
  append_all json key rs (some text)
