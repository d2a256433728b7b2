-- ===== src/State/Runs/Tests.antt =====
-- The history of two runs.
use local_etl_tool.Prelude.{Option, none, some, List, [], ◌∷◌, ◌≡◌, refl, ok, length, ◌-◌, map}
use local_etl_tool.Prelude.Text.{Text, codes, trim}
use local_etl_tool.Session.{is_empty}
use local_etl_tool.State.Keys.{check_key}
use local_etl_tool.State.Runs.{
  RunRecord, Json, all_lines, find, succeeded, strip_return, read, drop, append_all, prune,
  versioned, new_id,
}
use local_etl_tool.State.Runs.Lines.{append_all-read}

abbrev run : Text → RunRecord
run id = record {
  format_version = 0;
  id = id;
  pipeline = codes "orders";
  path = none;
  started = [];
  elapsed_ms = 0;
  outcome = succeeded;
  stages = [];
  notes = [];
  warnings = [];
  failures = [];
  watermarks = [];
  extra = [];
}

abbrev by_id : Json
by_id = record { to_string = λ r. r.id; from_str = λ line. some (versioned (run line)) }

abbrev two_runs : List RunRecord
two_runs = run (codes "first") ∷ run (codes "second") ∷ []

new_id_example : new_id (codes "2026-08-02T09:15:00Z") 0x1a2b3 ≡ codes "20260802091500-a2b3"
unfolding new_id
new_id_example = refl

append_all-read_example :
    (f : Option Text) × (append_all by_id (codes "orders") two_runs none ≡ ok f)
    × (read by_id (codes "orders") f ≡ ok (map versioned two_runs))
    × ((g : Option Text) × (prune by_id (codes "orders") 1 f
          ≡ ok (length (map versioned two_runs) - 1, g))
        × (read by_id (codes "orders") g
            ≡ ok (drop (length (map versioned two_runs) - 1) (map versioned two_runs))))
unfolding check_key is_empty trim strip_return
append_all-read_example = append_all-read by_id (codes "orders") two_runs 1 refl (
  ((refl, (refl, (refl, (refl, (refl, tt))))), refl, refl, refl),
  (((refl, (refl, (refl, (refl, (refl, (refl, tt)))))), refl, refl, refl), tt),
)

-- The second key holds the run.
find_example :
    find by_id
      (λ key. some (all_lines by_id (run key ∷ [])))
      (ok (codes "a" ∷ codes "b" ∷ []))
      none
      (codes "b")
    ≡ ok (some (versioned (run (codes "b"))))
unfolding find all_lines
find_example = refl
