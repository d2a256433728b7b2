-- ===== src/Scheduler/Run/Loop.antt =====
-- `Scheduler::run` of crates/scheduler/src/run.rs.
use local_etl_tool.Prelude.{
  ℕ, zero, suc, Bool, false, Option, none, some, List, ◌++◌, leb, if◌then◌else◌, min,
}
use local_etl_tool.Prelude.Int.{ℤ, pos_part, ◌-ℤ◌, ltb_ℤ}
use local_etl_tool.Scheduler.Run.{Summary, Entry, Outside, pass, wake_at}

abbrev pub max_sleep_seconds : ℕ
max_sleep_seconds = 30

unfoldable pub reached : Option ℕ → ℕ → Bool
reached none passes = false
reached (some limit) passes = leb limit passes

-- The wait before the next pass.
unfoldable pub wait : {W : Type 0} → Outside W → ℤ → W → W
wait outside wake w =
    let (now, w1) = outside.now w in
    if ltb_ℤ now wake then outside.sleep (min (pos_part (wake -ℤ now)) max_sleep_seconds) w1 else w1

-- What comes after a pass: the loop ends, or it goes on from a world.
pub data Turn (W : Type 0) : Type 0 where
  stop : W → Turn W
  go_on : W → Turn W

-- The tests behind a pass.
unfoldable pub turn : {W : Type 0} → Outside W → Option ℕ → ℕ → List Entry → W → Turn W
unfolding reached wait wake_at
turn outside max_passes passes entries w =
    if reached max_passes passes
    then stop w
    else let (stopped, w1) = outside.should_stop w in
      if stopped
      then stop w1
      else elim (wake_at entries) [ none ↦ stop w1 | some wake ↦ go_on (wait outside wake w1) ]

-- `run`, on fuel: none when the fuel is used up before the loop ends.
unfoldable pub run :
    {W : Type 0}
    → ℕ
    → Outside W
    → Option ℕ
    → ℕ
    → Summary
    → List Entry
    → W
    → Option (Summary × List Entry × W)
unfolding pass turn
run zero outside max_passes passes summary entries w = none
run (suc fuel) outside max_passes passes summary entries w =
    let (stopped, w1) = outside.should_stop w in
    let (ticks, after, w2) = pass outside entries w1 in
    if stopped
    then some (summary, entries, w1)
    else elim (turn outside max_passes (suc passes) after w2) [
      | stop w3 ↦ some (summary ++ ticks, after, w3)
      | go_on w3 ↦ run fuel outside max_passes (suc passes) (summary ++ ticks) after w3
    ]
