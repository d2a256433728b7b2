-- ===== src/Scheduler/Run/Fires.antt =====
-- What a pass of crates/scheduler/src/run.rs fires.
use mathlib.Core.Path.{subst}
use local_etl_tool.Prelude.{
  ℕ, zero, suc, ◌≤◌, ◌≡◌, refl, sym, ap, ◌∙◌, inl, inr, Bool, true, false, some, List, [], ◌∷◌, map,
  get_elem?, set, if◌then◌else◌, arith, Bool-cases, Option-cases,
}
use local_etl_tool.Prelude.Int.{ℤ, ltb_ℤ}
use local_etl_tool.Prelude.Text.{Text}
use local_etl_tool.Scheduler.File.{Schedule}
use local_etl_tool.Scheduler.Run.{Entry, Outside, look_at, due_from, fire, fire_all, pass}

-- What is left of a list when some of it is taken out.
pub data Sublist {ℓ} {A : Type ℓ} : List A → List A → Type ℓ where
  nothing : Sublist [] []
  keep : {a : A} {as_ bs : List A} → Sublist as_ bs → Sublist (a ∷ as_) (a ∷ bs)
  skip : {b : A} {as_ bs : List A} → Sublist as_ bs → Sublist as_ (b ∷ bs)

abbrev pub schedules_of : List Entry → List Schedule
schedules_of entries = map (λ e. e.schedule) entries

abbrev pub names_of : List Schedule → List Text
names_of schedules = map (λ s. s.name) schedules

drop : {A : Type 0} → ℕ → List A → List A
drop zero xs = xs
drop (suc n) [] = []
drop (suc n) (x ∷ xs) = drop n xs

-- The indexes are those of entries from `low` on, each later than the one before.
IsAscending : ℕ → List ℕ → Type 0
IsAscending low [] = Unit
IsAscending low (n ∷ ns) = (low ≤ n) × IsAscending (suc n) ns

IsAscending-le :
    (low high : ℕ) (ns : List ℕ) → low ≤ high → IsAscending high ns → IsAscending low ns
unfolding IsAscending
IsAscending-le low high [] h up = tt
IsAscending-le low high (n ∷ ns) h (first, rest) = (omega arith, rest)

look_at-schedule :
    {W : Type 0} (outside : Outside W) (now : ℤ) (e : Entry) (w : W)
    → (look_at outside now e w).1.schedule ≡ e.schedule
unfolding look_at
look_at-schedule outside now e w = elim (Option-cases e.watch) [
  | inl free ↦ rw free refl
  | inr ((path, state), at) ↦ elim (Bool-cases (ltb_ℤ now e.next_poll)) [
    | inl early ↦ rw (at, early) refl
    | inr late ↦ rw (at, late) refl
  ]
]

due_from-schedules :
    {W : Type 0} (outside : Outside W) (now : ℤ) (index : ℕ) (es : List Entry) (w : W)
    → schedules_of ((due_from outside now index es w).1) ≡ schedules_of es
unfolding due_from
due_from-schedules outside now index [] w = refl
due_from-schedules outside now index (e ∷ es) w =
    let first = look_at-schedule outside now e w in
    let rest = due_from-schedules outside now (suc index) es ((look_at outside now e w).2) in
    λ i. first i ∷ rest i

IsAscending-if :
    (due : Bool) (index : ℕ) (rest : List ℕ)
    → IsAscending (suc index) rest
    → IsAscending index (if due then index ∷ rest else rest)
unfolding IsAscending
IsAscending-if true index rest h = (omega arith, h)
IsAscending-if false index rest h = IsAscending-le index (suc index) rest (omega arith) h

due_from-IsAscending :
    {W : Type 0} (outside : Outside W) (now : ℤ) (index : ℕ) (es : List Entry) (w : W)
    → IsAscending index ((due_from outside now index es w).0)
unfolding due_from IsAscending
due_from-IsAscending outside now index [] w = tt
due_from-IsAscending outside now index (e ∷ es) w =
    let (due, after, w1) = look_at outside now e w in
    IsAscending-if due index ((due_from outside now (suc index) es w1).0)
      (due_from-IsAscending outside now (suc index) es w1)

fire-schedule :
    {W : Type 0} (outside : Outside W) (e : Entry) (w : W)
    → ((fire outside e w).1.schedule ≡ e.schedule) × ((fire outside e w).0.name ≡ e.schedule.name)
unfolding fire
fire-schedule outside e w = (refl, refl)

set-schedules :
    (n : ℕ) (es : List Entry) (e after : Entry)
    → get_elem? es n ≡ some e
    → after.schedule ≡ e.schedule
    → schedules_of (set es n after) ≡ schedules_of es
set-schedules n [] e after at same = refl
set-schedules zero (x ∷ xs) e after at same =
    let here : x ≡ e = ground arith in
    let schedule_is : after.schedule ≡ x.schedule = same ∙ ap (λ y. y.schedule) (sym here) in
    λ i. schedule_is i ∷ schedules_of xs
set-schedules (suc n) (x ∷ xs) e after at same =
    let rest = set-schedules n xs e after at same in λ i. x.schedule ∷ rest i

skip_to :
    {A : Type 0} (low high : ℕ) (as_ xs : List A)
    → low ≤ high
    → Sublist as_ (drop high xs)
    → Sublist as_ (drop low xs)
unfolding drop
skip_to zero zero as_ xs h s = s
skip_to zero (suc high) as_ [] h s = s
skip_to zero (suc high) as_ (x ∷ xs) h s = skip (skip_to zero high as_ xs (omega arith) s)
skip_to (suc low) zero as_ xs h s = absurd (omega arith)
skip_to (suc low) (suc high) as_ [] h s = s
skip_to (suc low) (suc high) as_ (x ∷ xs) h s = skip_to low high as_ xs (omega arith) s

drop_at :
    (n : ℕ) (es : List Entry) (e : Entry)
    → get_elem? es n ≡ some e
    → drop n (names_of (schedules_of es))
      ≡ e.schedule.name ∷ drop (suc n) (names_of (schedules_of es))
unfolding drop
drop_at n [] e at = absurd (ground arith)
drop_at zero (x ∷ xs) e at =
    let here : x ≡ e = ground arith in λ i. (here i).schedule.name ∷ names_of (schedules_of xs)
drop_at (suc n) (x ∷ xs) e at = drop_at n xs e at

no_more : {A : Type 0} (n : ℕ) (xs : List A) → Sublist [] (drop n xs)
unfolding drop
no_more zero [] = nothing
no_more zero (x ∷ xs) = skip (no_more zero xs)
no_more (suc n) [] = nothing
no_more (suc n) (x ∷ xs) = no_more n xs

fire_all-Sublist :
    {W : Type 0} (outside : Outside W) (low : ℕ) (due : List ℕ) (es : List Entry) (w : W)
    → IsAscending low due
    → Sublist
        (map (λ t. t.name) ((fire_all outside due es w).0))
        (drop low (names_of (schedules_of es)))
unfolding fire_all IsAscending
fire_all-Sublist outside low [] es w up = no_more low (names_of (schedules_of es))
fire_all-Sublist outside low (n ∷ due) es w (first, rest) = elim (Option-cases (get_elem? es n)) [
  | inl e ↦
      rw (e, fire_all)
        (fire_all-Sublist outside low due es w (IsAscending-le low (suc n) due (omega arith) rest))
  | inr (entry, at) ↦
      let (schedule_is, name_is) = fire-schedule outside entry w in
      let after : Entry = (fire outside entry w).1 in
      let same = set-schedules n es entry after at schedule_is in
      let others =
        rw same at
          (fire_all-Sublist outside (suc n) due (set es n after) ((fire outside entry w).2) rest) in
      let later : List Text =
        map (λ t. t.name) ((fire_all outside due (set es n after) ((fire outside entry w).2)).0) in
      let all_ : Sublist (entry.schedule.name ∷ later) (drop n (names_of (schedules_of es))) =
        rw (drop_at n es entry at) (keep others) in
      rw (at, fire_all)
        (skip_to low n ((fire outside entry w).0.name ∷ later) (names_of (schedules_of es)) first
          (rw name_is all_))
]

-- A pass fires each schedule once at most, in the order of the file: the names on its ticks are those of the
-- schedules with some left out, whatever the clock, the runner and the file system answer.
pub pass-Sublist :
    {W : Type 0} (outside : Outside W) (es : List Entry) (w : W)
    → Sublist (map (λ t. t.name) ((pass outside es w).0)) (names_of (schedules_of es))
unfolding pass
pass-Sublist outside es w =
    let (now, w1) = outside.now w in
    let (due, looked, w2) = due_from outside now 0 es w1 in
    let same = due_from-schedules outside now 0 es w1 in
    unfold drop in
    subst (λ s. Sublist (map (λ t. t.name) ((fire_all outside due looked w2).0)) (names_of s)) same
      (fire_all-Sublist outside 0 due looked w2 (due_from-IsAscending outside now 0 es w1))
