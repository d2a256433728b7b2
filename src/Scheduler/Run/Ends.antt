-- ===== src/Scheduler/Run/Ends.antt =====
-- The end of the loop of crates/scheduler/src/run.rs.
use local_etl_tool.Prelude.{
  ℕ, zero, suc, ◌+◌, ◌≤◌, ◌<◌, ◌≡◌, refl, ◌⊎◌, inl, inr, some, List, ◌++◌, leb, arith, Bool-cases,
}
use local_etl_tool.Scheduler.Run.{Summary, Entry, Outside, pass}
use local_etl_tool.Scheduler.Run.Loop.{Turn, stop, go_on, turn, reached, run}

pub Turn-cases : {W : Type 0} (t : Turn W) → ((w : W) × (t ≡ stop w)) ⊎ ((w : W) × (t ≡ go_on w))
Turn-cases (stop w) = inl (w, refl)
Turn-cases (go_on w) = inr (w, refl)

-- The loop goes on only below its limit.
go_on-below :
    {W : Type 0} (outside : Outside W) (limit passes : ℕ) (entries : List Entry) (w w1 : W)
    → turn outside (some limit) passes entries w ≡ go_on w1
    → passes < limit
unfolding turn reached
go_on-below outside limit passes entries w w1 h = elim (Bool-cases (leb limit passes)) [
  | inl over ↦ absurd (ground arith)
  | inr below ↦ ground arith
]

-- Where a limit on the passes is given, as much fuel as the passes that are left, and one round at least, is
-- enough: the loop ends, whatever the clock, the runner and the file system answer.
pub run-ends :
    {W : Type 0} (fuel : ℕ) (outside : Outside W) (limit passes : ℕ) (summary : Summary)
    (entries : List Entry) (w : W)
    → 1 ≤ fuel
    → limit ≤ passes + fuel
    → (result : Summary × List Entry × W) × (run fuel outside (some limit) passes summary entries w
        ≡ some result)
unfolding run
run-ends zero outside limit passes summary entries w some_ enough = absurd (omega arith)
run-ends (suc fuel) outside limit passes summary entries w some_ enough =
    let (stopped, w1) = outside.should_stop w in
    let (ticks, after, w2) = pass outside entries w1 in
    elim (Bool-cases stopped) [
      | inl e ↦ rw e ((summary, entries, w1), refl)
      | inr e ↦ elim (Turn-cases (turn outside (some limit) (suc passes) after w2)) [
        | inl (w3, at) ↦ rw (e, at) ((summary ++ ticks, after, w3), refl)
        | inr (w3, at) ↦
            let below = go_on-below outside limit (suc passes) after w2 w3 at in
            let rest =
              run-ends fuel outside limit (suc passes) (summary ++ ticks) after w3 (omega arith)
                (omega arith) in
            rw (e, at) rest
      ]
    ]
