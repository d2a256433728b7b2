-- ===== src/Plan/Query/Script.antt =====
-- `Plan::script` of crates/duckdb-engine/src/plan/mod.rs.
use local_etl_tool.Prelude.{Bool, Option, none, some, List, [], ◌∷◌, ◌++◌, if◌then◌else◌}
use local_etl_tool.Prelude.Text.{Text, codes}
use local_etl_tool.Plan.Query.{is_transform, CountProbe, Stage, Plan, extensions}

abbrev pub prelude_probe : Text
prelude_probe = codes "SELECT 0 AS n;"

-- A line and its end.
abbrev pub line : Text → Text
line s = s ++ 10 ∷ []

unfoldable pub loads : List Text → Text
loads [] = []
loads (extension ∷ rest) = line (codes "LOAD " ++ extension ++ codes ";") ++ loads rest

unfoldable pub extension_part : List Text → Bool → Text
unfolding loads
extension_part [] counts = []
extension_part (e ∷ rest) counts =
    line (codes "-- extensions")
    ++ loads (e ∷ rest)
    ++ (if counts then line prelude_probe else [])
    ++ line []

abbrev pub text_or_empty : Option Text → Text
text_or_empty none = []
text_or_empty (some s) = s

-- What a native transform adds in front of its stage.
unfoldable pub native_part : Stage → Text
unfolding is_transform
native_part s = elim s.native [
  | none ↦ []
  | some step ↦
      if is_transform step
      then (elim step.feed [ none ↦ [] | some feed ↦ line feed ])
        ++ line (
            codes "-- "
            ++ s.component_id
            ++ codes " runs here, in Rust: "
            ++ text_or_empty step.input
            ++ codes " to "
            ++ step.staging)
      else []
]

unfoldable pub probe_lines : List CountProbe → Text
probe_lines [] = []
probe_lines (probe ∷ rest) = line probe.sql ++ probe_lines rest

-- The body of the loop over the stages.
unfoldable pub stage_part : Bool → Stage → Text
unfolding native_part probe_lines
stage_part counts s =
    line (codes "-- " ++ s.node_id ++ codes " (" ++ s.component_id ++ codes ")")
    ++ native_part s
    ++ line s.sql
    ++ (if counts then probe_lines s.counts else [])
    ++ (elim s.incremental [ none ↦ [] | some incremental ↦ line incremental.probe ])
    ++ line []

unfoldable pub stage_parts : Bool → List Stage → Text
unfolding stage_part
stage_parts counts [] = []
stage_parts counts (s ∷ ss) = stage_part counts s ++ stage_parts counts ss

unfoldable pub script : Plan → Bool → Text
unfolding extensions extension_part stage_parts
script plan counts = extension_part (extensions plan) counts ++ stage_parts counts plan.stages
