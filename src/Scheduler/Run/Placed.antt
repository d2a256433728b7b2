-- ===== src/Scheduler/Run/Placed.antt =====
-- The shape of the entries of crates/scheduler/src/run.rs, and the ticks that an interval keeps to.
use local_etl_tool.Prelude.{
  ℕ, zero, suc, ◌+◌, ◌<◌, ◌≡◌, refl, ap, ◌∙◌, inl, inr, Option, none, some, List, [], ◌∷◌, ◌++◌,
  map, get_elem?, set, All, arith, Bool-cases, Option-cases,
}
use mathlib.Core.Path.{subst}
use local_etl_tool.Prelude.Int.{ℤ, ltb_ℤ, int_laws}
use local_etl_tool.Prelude.Text.{Text}
use local_etl_tool.Scheduler.Every.{Interval}
use local_etl_tool.Scheduler.Every.Ticks.{tick, next_after-IsFirst}
use local_etl_tool.Scheduler.Watch.{WatchState, unwatched}
use local_etl_tool.Scheduler.File.{Schedule, Trigger, every, cron, watch}
use local_etl_tool.Scheduler.Run.{
  Entry, Outside, Summary, entry_of, new_scheduler, unwrap_or, look_at, due_from, advance, fire,
  fire_all, pass,
}
use local_etl_tool.Scheduler.Run.Loop.{run, turn}
use local_etl_tool.Scheduler.Run.Ends.{Turn-cases}

-- What the fields of an entry are: an interval is next due at one of its ticks from the anchor, and only a watch
-- watches a path and has no next instant.
pub Placed : ℤ → Trigger → Option ℤ → Option (Text × WatchState) → Type 0
Placed anchor (every i) next watched =
    (0 < i.seconds) × (watched ≡ none) × ((k : ℕ) × (next ≡ some (tick i anchor k)))
Placed anchor (cron c) next watched = watched ≡ none
Placed anchor (watch w) next watched =
    (next ≡ none) × ((p : Text × WatchState) × (watched ≡ some p))

abbrev pub IsPlaced : ℤ → Entry → Type 0
IsPlaced anchor e = Placed anchor e.schedule.trigger e.next e.watch

-- Entry by entry, with an anchor for each.
pub ArePlaced : List ℤ → List Entry → Type 0
ArePlaced [] [] = Unit
ArePlaced [] (e ∷ es) = ⊥
ArePlaced (a ∷ more) [] = ⊥
ArePlaced (a ∷ more) (e ∷ es) = IsPlaced a e × ArePlaced more es

Placed-watch :
    (anchor : ℤ) (t : Trigger) (next : Option ℤ) (p q : Text × WatchState)
    → Placed anchor t next (some p)
    → Placed anchor t next (some q)
unfolding Placed
Placed-watch anchor (every i) next p q (_, h, _) = absurd (ground arith)
Placed-watch anchor (cron c) next p q h = absurd (ground arith)
Placed-watch anchor (watch w) next p q (h, _) = (h, (q, refl))

tick_of_tick :
    (i : Interval) (anchor : ℤ) (k j : ℕ) → tick i (tick i anchor k) j ≡ tick i anchor (k + j)
tick_of_tick i anchor k j = omega int_laws

Placed-advance :
    (anchor : ℤ) (t : Trigger) (next : Option ℤ) (watched : Option (Text × WatchState))
    (started finished : ℤ)
    → Placed anchor t next watched
    → Placed anchor t (advance t (unwrap_or next started) finished) watched
unfolding Placed advance
Placed-advance anchor (every i) next watched started finished (some_, free, (k, at)) =
    let ((j, first), _, _) = next_after-IsFirst i (tick i anchor k) finished some_ in
    (some_, free, (k + j, rw at (ap some (first ∙ tick_of_tick i anchor k j))))
Placed-advance anchor (cron c) next watched started finished h = h
Placed-advance anchor (watch w) next watched started finished (h, p) = (refl, p)

look_at-IsPlaced :
    {W : Type 0} (outside : Outside W) (now anchor : ℤ) (e : Entry) (w : W)
    → IsPlaced anchor e
    → IsPlaced anchor ((look_at outside now e w).1)
unfolding look_at
look_at-IsPlaced outside now anchor e w h = elim (Option-cases e.watch) [
  | inl free ↦ rw free (rw free at h)
  | inr ((path, state), at) ↦ elim (Bool-cases (ltb_ℤ now e.next_poll)) [
    | inl early ↦ rw (at, early) (rw at at h)
    | inr late ↦
        rw (at, late) (Placed-watch anchor e.schedule.trigger e.next (path, state) _ (rw at at h))
  ]
]

fire-IsPlaced :
    {W : Type 0} (outside : Outside W) (anchor : ℤ) (e : Entry) (w : W)
    → IsPlaced anchor e
    → IsPlaced anchor ((fire outside e w).1)
unfolding fire
fire-IsPlaced outside anchor e w h = Placed-advance anchor e.schedule.trigger e.next e.watch _ _ h

due_from-ArePlaced :
    {W : Type 0} (outside : Outside W) (now : ℤ) (index : ℕ) (anchors : List ℤ) (es : List Entry)
    (w : W)
    → ArePlaced anchors es
    → ArePlaced anchors ((due_from outside now index es w).1)
unfolding due_from ArePlaced
due_from-ArePlaced outside now index [] [] w h = tt
due_from-ArePlaced outside now index [] (e ∷ es) w h = absurd h
due_from-ArePlaced outside now index (a ∷ more) [] w h = absurd h
due_from-ArePlaced outside now index (a ∷ more) (e ∷ es) w (first, rest) = (
  look_at-IsPlaced outside now a e w first,
  due_from-ArePlaced outside now (suc index) more es ((look_at outside now e w).2) rest,
)

ArePlaced-set :
    (n : ℕ) (anchors : List ℤ) (es : List Entry) (e after : Entry)
    → ArePlaced anchors es
    → get_elem? es n ≡ some e
    → ((a : ℤ) → IsPlaced a e → IsPlaced a after)
    → ArePlaced anchors (set es n after)
unfolding ArePlaced
ArePlaced-set n [] [] e after h at keeps = tt
ArePlaced-set n [] (x ∷ xs) e after h at keeps = absurd h
ArePlaced-set n (a ∷ more) [] e after h at keeps = absurd h
ArePlaced-set zero (a ∷ more) (x ∷ xs) e after (first, rest) at keeps =
    let same : x ≡ e = ground arith in (keeps a (subst (λ y. IsPlaced a y) same first), rest)
ArePlaced-set (suc n) (a ∷ more) (x ∷ xs) e after (first, rest) at keeps =
    (first, ArePlaced-set n more xs e after rest at keeps)

fire_all-ArePlaced :
    {W : Type 0} (outside : Outside W) (due : List ℕ) (anchors : List ℤ) (es : List Entry) (w : W)
    → ArePlaced anchors es
    → ArePlaced anchors ((fire_all outside due es w).1)
unfolding fire_all
fire_all-ArePlaced outside [] anchors es w h = h
fire_all-ArePlaced outside (n ∷ due) anchors es w h = elim (Option-cases (get_elem? es n)) [
  | inl e ↦ rw (e, fire_all) (fire_all-ArePlaced outside due anchors es w h)
  | inr (entry, at) ↦
      let kept =
        ArePlaced-set n anchors es entry ((fire outside entry w).1) h at
          (λ a. fire-IsPlaced outside a entry w) in
      rw (at, fire_all)
        (fire_all-ArePlaced outside due anchors (set es n ((fire outside entry w).1))
          ((fire outside entry w).2) kept)
]

pass-ArePlaced :
    {W : Type 0} (outside : Outside W) (anchors : List ℤ) (es : List Entry) (w : W)
    → ArePlaced anchors es
    → ArePlaced anchors ((pass outside es w).1)
unfolding pass
pass-ArePlaced outside anchors es w h =
    let (now, w1) = outside.now w in
    let (due, looked, w2) = due_from outside now 0 es w1 in
    fire_all-ArePlaced outside due anchors looked w2
      (due_from-ArePlaced outside now 0 anchors es w1 h)

run-ArePlaced :
    {W : Type 0} (fuel : ℕ) (outside : Outside W) (limit : Option ℕ) (passes : ℕ)
    (summary : Summary) (anchors : List ℤ) (es : List Entry) (w : W) (ticks : Summary)
    (after : List Entry) (w1 : W)
    → ArePlaced anchors es
    → run fuel outside limit passes summary es w ≡ some (ticks, after, w1)
    → ArePlaced anchors after
unfolding run
run-ArePlaced zero outside limit passes summary anchors es w ticks after w1 h ends =
    absurd (ground arith)
run-ArePlaced {W} (suc fuel) outside limit passes summary anchors es w ticks after w1 h ends =
    let (stopped, w2) = outside.should_stop w in
    let (fired, next, w3) = pass outside es w2 in
    let kept : ArePlaced anchors next = pass-ArePlaced outside anchors es w2 h in
    elim (Bool-cases stopped) [
      | inl e ↦
          let same : es ≡ after = let shown = rw e at ends in ground arith in
          subst (λ x. ArePlaced anchors x) same h
      | inr e ↦ elim (Turn-cases (turn outside limit (suc passes) next w3)) [
        | inl (w4, at) ↦
            let same : next ≡ after = let shown = rw (e, at) at ends in ground arith in
            subst (λ x. ArePlaced anchors x) same kept
        | inr (w4, at) ↦
            run-ArePlaced fuel outside limit (suc passes) (summary ++ fired) anchors next w4 ticks
              after w1 kept (rw (e, at) at ends)
      ]
    ]

-- What an interval counts from: the last run, or the start of the scheduler.
abbrev pub anchor_of : ℤ → (Schedule → Option ℤ) → Schedule → ℤ
anchor_of now last_run s = unwrap_or (last_run s) now

-- The interval of a trigger is not zero.
unfoldable pub IsPositive : Trigger → Type 0
IsPositive (every i) = 0 < i.seconds
IsPositive (cron c) = Unit
IsPositive (watch w) = Unit

IsPlaced-entry_of :
    (resolve : Text → Text → Text) (workspace : Text) (now : ℤ) (previous : Option ℤ) (s : Schedule)
    (t : Trigger)
    → s.trigger ≡ t
    → IsPositive t
    → IsPlaced (unwrap_or previous now) (entry_of resolve workspace now previous s)
unfolding entry_of Placed IsPositive
IsPlaced-entry_of resolve workspace now previous s (every i) at positive =
    rw at (positive, refl, (1, ap some (omega int_laws)))
IsPlaced-entry_of resolve workspace now previous s (cron c) at positive = rw at refl
IsPlaced-entry_of resolve workspace now previous s (watch p) at positive =
    rw at (refl, ((resolve workspace p.path, unwatched), refl))

IsPlaced-entry :
    (resolve : Text → Text → Text) (workspace : Text) (now : ℤ) (previous : Option ℤ) (s : Schedule)
    → IsPositive s.trigger
    → IsPlaced (unwrap_or previous now) (entry_of resolve workspace now previous s)
IsPlaced-entry resolve workspace now previous s positive =
    IsPlaced-entry_of resolve workspace now previous s s.trigger refl positive

new_scheduler-ArePlaced :
    (resolve : Text → Text → Text) (schedules : List Schedule) (workspace : Text) (now : ℤ)
    (last_run : Schedule → Option ℤ)
    → All (λ s. IsPositive s.trigger) schedules
    → ArePlaced
        (map (anchor_of now last_run) schedules)
        (new_scheduler resolve schedules workspace now last_run)
unfolding new_scheduler ArePlaced
new_scheduler-ArePlaced resolve [] workspace now last_run h = tt
new_scheduler-ArePlaced resolve (s ∷ ss) workspace now last_run (positive, rest) = (
  IsPlaced-entry resolve workspace now (last_run s) s positive,
  new_scheduler-ArePlaced resolve ss workspace now last_run rest,
)

-- Where no interval is zero and the loop, begun from a new scheduler, has ended: however long it has run, and
-- whatever the clock, the runner and the file system answered, each interval is next due at one of its ticks,
-- counted from its last run before the start, or from the start when there is none; and the entries that watch a
-- path are those of the watches, which have no next instant.
pub run-new_scheduler :
    {W : Type 0} (fuel : ℕ) (outside : Outside W) (limit : Option ℕ) (resolve : Text → Text → Text)
    (schedules : List Schedule) (workspace : Text) (now : ℤ) (last_run : Schedule → Option ℤ)
    (w : W) (ticks : Summary) (after : List Entry) (w1 : W)
    → All (λ s. IsPositive s.trigger) schedules
    → run fuel outside limit 0 [] (new_scheduler resolve schedules workspace now last_run) w
      ≡ some (ticks, after, w1)
    → ArePlaced (map (anchor_of now last_run) schedules) after
run-new_scheduler fuel outside limit resolve schedules workspace now last_run w ticks after w1
      positive ends =
    run-ArePlaced fuel outside limit 0 [] (map (anchor_of now last_run) schedules)
      (new_scheduler resolve schedules workspace now last_run) w ticks after w1
      (new_scheduler-ArePlaced resolve schedules workspace now last_run positive) ends
