-- ===== src/Scheduler/Run/Wake.antt =====
-- When the loop of crates/scheduler/src/run.rs wakes, and what is due then.
use local_etl_tool.Prelude.{
  ℕ, suc, ◌≡◌, refl, ◌↔◌, inl, inr, Bool, true, false, Option, none, some, List, [], ◌∷◌,
  if◌then◌else◌, All, arith, Bool-cases,
}
use local_etl_tool.Prelude.Int.{ℤ, ◌<ℤ◌, leb_ℤ, leb_ℤ→le, leb_ℤ→lt}
use local_etl_tool.Scheduler.Run.{
  Entry, Outside, attention, earlier, wake_at, is_due, look_at, due_from,
}

-- An instant is before another one, which may be missing.
pub Before : ℤ → Option ℤ → Type 0
Before now none = Unit
Before now (some t) = now <ℤ t

Before-earlier :
    (now : ℤ) (a b : Option ℤ) → Before now (earlier a b) ↔ (Before now a × Before now b)
unfolding Before earlier
Before-earlier now none b = ((λ h. (tt, h)), (λ h. h.1))
Before-earlier now (some a) none = ((λ h. (h, tt)), (λ h. h.0))
Before-earlier now (some a) (some b) = elim (Bool-cases (leb_ℤ a b)) [
  | inl e ↦ let order = leb_ℤ→le a b e in rw e ((λ h. (h, omega arith)), (λ h. h.0))
  | inr e ↦ let order = leb_ℤ→lt a b e in rw e ((λ h. (omega arith, h)), (λ h. h.1))
]

is_due-Before : (next : Option ℤ) (now : ℤ) → (is_due next now ≡ false) ↔ Before now next
unfolding is_due Before
is_due-Before none now = ((λ _. tt), (λ _. refl))
is_due-Before (some t) now = elim (Bool-cases (leb_ℤ t now)) [
  | inl e ↦
      let order = leb_ℤ→le t now e in ((λ h. absurd (ground arith)), (λ h. absurd (omega arith)))
  | inr e ↦ let order = leb_ℤ→lt t now e in ((λ _. order), (λ _. e))
]

joined :
    {A B C : Type 0} (due : Bool) (index : ℕ) (rest : List ℕ)
    → (due ≡ false) ↔ A
    → (rest ≡ []) ↔ B
    → C ↔ (A × B)
    → ((if due then index ∷ rest else rest) ≡ []) ↔ C
joined true index rest first others both =
    ((λ h. absurd (ground arith)), (λ c. let bad = first.1 ((both.0 c).0) in absurd (ground arith)))
joined false index rest first others both =
    ((λ h. both.1 (first.0 refl, others.0 h)), (λ c. others.1 ((both.0 c).1)))

-- Where no entry has a watch: at an instant nothing is due exactly when `wake_at` names no instant, or a later
-- one. So a loop that sleeps until the instant that `wake_at` names finds something due, and misses nothing
-- before.
pub due_from-wake_at :
    {W : Type 0} (outside : Outside W) (now : ℤ) (index : ℕ) (entries : List Entry) (w : W)
    → All (λ entry. entry.watch ≡ none) entries
    → ((due_from outside now index entries w).0 ≡ []) ↔ Before now (wake_at entries)
unfolding due_from wake_at
due_from-wake_at outside now index [] w timed = ((λ _. unfold Before in tt), (λ _. refl))
due_from-wake_at outside now index (entry ∷ entries) w (timed, rest_timed) =
    let rest = due_from-wake_at outside now (suc index) entries w rest_timed in
    let first = is_due-Before entry.next now in
    let both = Before-earlier now entry.next (wake_at entries) in
    let at : attention entry ≡ entry.next = unfold attention in rw timed refl in
    let looked : look_at outside now entry w ≡ (is_due entry.next now, entry, w) =
      unfold look_at in rw timed refl in
    rw (at, looked)
      (joined (is_due entry.next now) index ((due_from outside now (suc index) entries w).0) first
        rest both)
