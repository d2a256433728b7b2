-- ===== src/Exec/Preview/Bounds.antt =====
-- How much a `preview` of crates/duckdb-engine/src/exec.rs shows.
use local_etl_tool.Prelude.{
  ℕ, zero, suc, ◌≤◌, ◌≡◌, inl, inr, true, Option, List, [], ◌∷◌, ok, arith, min, max, any, length,
  Option-cases, Bool-cases,
}
use local_etl_tool.Prelude.Text.{Text, text_eq}
use local_etl_tool.Metadata.{JsonValue}
use local_etl_tool.Plan.Query.{Stage, Plan, upto}
use local_etl_tool.Exec.{RunOptions}
use local_etl_tool.Exec.Around.{Outside, pure, ◌>>=◌, bind-ok, pure-ok, throw-ok}
use local_etl_tool.Exec.Preview.{
  Preview, clamped, limit_query, take, preview_rows, shown_rows, preview_of, preview,
}

module _ {W : Type 0} (outside : Outside W) (options : RunOptions) where
  length-take : (n : ℕ) (rows : List JsonValue) → length (take n rows) ≡ min n (length rows)
  unfolding take
  length-take zero rows = omega arith
  length-take (suc n) [] = omega arith
  length-take (suc n) (row ∷ rows) = omega (arith, length-take n rows)

  preview_of-bounded :
      (plan : Plan) (node_id : Text) (limit : ℕ) (directory : Option Text) (stages : List Stage)
      (shown_part : Preview) (w w' : W)
      → preview_of outside options plan node_id limit directory stages w ≡ (ok shown_part, w')
      → (rows : List JsonValue) × (shown_part
          ≡ shown_rows outside options node_id (clamped limit) rows)
  unfolding preview_of
  preview_of-bounded plan node_id limit directory stages shown_part w w' h =
      elim (Bool-cases (any (λ s. text_eq s.node_id node_id) stages)) [
        | inl e ↦
            let here = rw (e, preview_of) at h in
            let (_, w1, _, h1) =
              bind-ok (outside.stage_sources stages)
                (λ _.
                  preview_rows outside options plan stages directory
                    (limit_query node_id (clamped limit))
                  >>= λ rows. pure (shown_rows outside options node_id (clamped limit) rows))
                w w' here in
            let (rows, w2, _, h2) =
              bind-ok
                (preview_rows outside options plan stages directory
                  (limit_query node_id (clamped limit)))
                (λ rows. pure (shown_rows outside options node_id (clamped limit) rows)) w1 w' h1 in
            (rows, pure-ok w2 w' h2)
        | inr e ↦ let here = rw (e, preview_of) at h in absurd (throw-ok _ w w' here)
      ]

  -- A preview that works has at most as many rows as were asked for, or one where none were, and never more than 500;
  -- where it says that there are more, it has the lesser of the two.
  pub preview_lem :
      (plan : Plan) (node_id : Text) (limit : ℕ) (directory : Option Text) (found : Preview)
      (w w' : W)
      → preview outside options plan node_id limit directory w ≡ (ok found, w')
      → (length found.rows ≤ max limit 1)
        × (length found.rows ≤ 500)
        × (found.truncated ≡ true → length found.rows ≡ min (max limit 1) 500)
  unfolding preview clamped
  preview_lem plan node_id limit directory found w w' h = elim (Option-cases (upto plan node_id)) [
    | inl e ↦ let here = rw (e, preview) at h in absurd (throw-ok _ w w' here)
    | inr (stages, e) ↦
        let here = rw (e, preview) at h in
        let (rows, same) = preview_of-bounded plan node_id limit directory stages found w w' here in
        let count = length-take (clamped limit) rows in
        rw (same, shown_rows) (omega arith, omega arith, λ t. ground arith)
  ]
