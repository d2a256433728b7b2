-- ===== src/Scheduler/Watch/Settling.antt =====
-- Runs of polls of a watched path (crates/scheduler/src/watch.rs).
use local_etl_tool.Prelude.{
  ◌≡◌, refl, true, not, none, some, List, [], ◌∷◌, if◌then◌else◌, arith, Bool-cases, inl, inr, ap,
}
use local_etl_tool.Scheduler.Watch.{
  Stamp, WatchState, unwatched, Poll, quiet, changing, settled, baseline, same_stamp, poll,
}

same_stamp-eq : (a b : Stamp) → same_stamp a b ≡ true → a ≡ b
unfolding same_stamp
same_stamp-eq none none h = refl
same_stamp-eq none (some b) h = absurd (ground arith)
same_stamp-eq (some a) none h = absurd (ground arith)
same_stamp-eq (some a) (some b) h =
    let seconds_same : a.seconds ≡ b.seconds = ground arith in
    let nanos_same : a.nanos ≡ b.nanos = ground arith in
    let size_same : a.size ≡ b.size = ground arith in
    λ i. some (record { seconds = seconds_same i; nanos = nanos_same i; size = size_same i })

same_stamp_refl : (a : Stamp) → same_stamp a a ≡ true
unfolding same_stamp
same_stamp_refl none = refl
same_stamp_refl (some a) = ground arith

-- What the polls of a sequence of stamps answer, one after another.
unfoldable pub polls : WatchState → List Stamp → List Poll
unfolding poll
polls s [] = []
polls s (stamp ∷ stamps) = let (p, t) = poll s stamp in p ∷ polls t stamps

-- The answers that the last two stamps call for: a stamp that moved is a change, one that stands still
-- for the first time after a change settles it, and any other is quiet.
unfoldable pub answers : Stamp → Stamp → List Stamp → List Poll
answers before last [] = []
answers before last (stamp ∷ stamps) =
    (if same_stamp stamp last then if same_stamp last before then quiet else settled else changing)
    ∷ answers last stamp stamps

polls-answers :
    (before last : Stamp) (stamps : List Stamp)
    → polls
        (record { seen = last; started = true; unsettled = not (same_stamp last before) })
        stamps
      ≡ answers before last stamps
unfolding polls answers
polls-answers before last [] = refl
polls-answers before last (stamp ∷ stamps) = elim (Bool-cases (same_stamp stamp last)) [
  | inl t ↦
      let same = same_stamp-eq stamp last t in
      let rest = polls-answers last last stamps in
      let still = same_stamp_refl last in
      let again = rw still at rest in
      elim (Bool-cases (same_stamp last before)) [
        | inl g ↦ rw (t, g, same) (ap (λ xs. quiet ∷ xs) again)
        | inr g ↦ rw (t, g, same) (ap (λ xs. settled ∷ xs) again)
      ]
  | inr f ↦
      let rest = polls-answers last stamp stamps in rw f (ap (λ xs. changing ∷ xs) (rw f at rest))
]

-- From the start of a watch, the first poll takes the baseline whatever it sees, and each later poll
-- answers by the last three stamps alone: it is changing when its stamp differs from the one before,
-- settled when its stamp is the one before and that one was a change, and quiet otherwise.
pub polls_lem :
    (first : Stamp) (stamps : List Stamp)
    → polls unwatched (first ∷ stamps) ≡ baseline ∷ answers first first stamps
unfolding polls
polls_lem first stamps =
    let still = same_stamp_refl first in
    let rest = polls-answers first first stamps in ap (λ xs. baseline ∷ xs) (rw still at rest)
