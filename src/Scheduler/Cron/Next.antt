-- ===== src/Scheduler/Cron/Next.antt =====
-- The rounds of `Cron::next_after` in crates/scheduler/src/cron.rs, one after another.
use local_etl_tool.Prelude.{
  ℕ, zero, suc, ◌*◌, ◌≡◌, refl, inl, inr, true, Option, none, some, arith, Bool-cases,
}
use local_etl_tool.Prelude.Int.{
  ℤ, pos, ◌+ℤ◌, ◌*ℤ◌, ◌≤ℤ◌, ◌<ℤ◌, ltb_ℤ, ltb_ℤ→lt, ltb_ℤ→le, div_euclid, euclid_split, euclid_parts,
  int_laws,
}
use local_etl_tool.State.Time.{from_unix}
use local_etl_tool.Scheduler.Cron.{Cron}
use local_etl_tool.Scheduler.Cron.Search.{matches, visit, search, next_after}
use local_etl_tool.Scheduler.Cron.Sound.{IsClock, next_after-matches, Probe-cases}
use local_etl_tool.Scheduler.Cron.Rounds.{IsMinute, NoMatch, Advances, Round, visit_lem}

-- What the search says: the first match, or that there is none before the limit.
Searched : Cron → ℤ → ℤ → Option ℤ → Type 0
Searched c limit p none = NoMatch c p limit
Searched c limit p (some t) = (p ≤ℤ t) × IsMinute t × NoMatch c p t

join : (c : Cron) (p q r : ℤ) → NoMatch c p q → NoMatch c q r → NoMatch c p r
join c p q r first second u low high = elim (Bool-cases (ltb_ℤ u q)) [
  | inl e ↦ first u low (ltb_ℤ→lt u q e)
  | inr e ↦ second u (ltb_ℤ→le u q e) high
]

extend :
    (c : Cron) (limit p q : ℤ) (r : Option ℤ)
    → Advances c p q
    → Searched c limit q r
    → Searched c limit p r
unfolding Searched
extend c limit p q none step none_ = join c p q limit step.none_between none_
extend c limit p q (some t) step (low, whole, none_) =
    let later = step.later in (omega arith, whole, join c p q t step.none_between none_)

-- From a whole minute to a later one it is a minute at least.
a_minute :
    (limit p q : ℤ) (rest : ℕ)
    → IsMinute p
    → IsMinute q
    → p <ℤ q
    → limit ≤ℤ p +ℤ pos (suc rest * 60)
    → limit ≤ℤ q +ℤ pos (rest * 60)
a_minute limit p q rest (k, at_p) (j, at_q) later enough =
    let apart = rw (at_p, at_q) at later in
    let whole : p +ℤ pos 60 ≤ℤ q = rw (at_p, at_q) (omega (int_laws, apart)) in omega int_laws

no_room : (c : Cron) (limit p : ℤ) → limit ≤ℤ p → NoMatch c p limit
no_room c limit p h u low high = absurd (omega arith)

search_lem :
    (fuel : ℕ) (c : Cron) (limit p : ℤ)
    → IsClock c
    → IsMinute p
    → limit ≤ℤ p +ℤ pos (fuel * 60)
    → Searched c limit p (search fuel c limit p)
unfolding search Searched
search_lem zero c limit p clock whole enough = no_room c limit p (omega int_laws)
search_lem (suc fuel) c limit p clock whole enough = elim (Bool-cases (ltb_ℤ p limit)) [
  | inr e ↦ rw e (no_room c limit p (ltb_ℤ→le p limit e))
  | inl e ↦ elim (Probe-cases (visit c p)) [
    | inl (t, at_t) ↦ rw (e, at_t) (unfold Round in rw at_t at (visit_lem c p clock whole))
    | inr (q, moved) ↦
        let step : Advances c p q = unfold Round in rw moved at (visit_lem c p clock whole) in
        rw (e, moved)
          (extend c limit p q (search fuel c limit q) step (
            search_lem fuel c limit q clock step.minute
              (a_minute limit p q fuel whole step.minute step.later enough)))
  ]
]

-- The first whole minute after an instant.
abbrev pub next_minute : ℤ → ℤ
next_minute after = (div_euclid after 60 +ℤ pos 1) *ℤ 60

-- What `next_after` promises: the next match, or that there is none in five years of 366 days.
pub IsNextMatch : Cron → ℤ → Option ℤ → Type 0
IsNextMatch c after none =
    NoMatch c (next_minute after) (next_minute after +ℤ pos (5 * 366 * 86400))
IsNextMatch c after (some t) =
    (after <ℤ t) × IsMinute t × (matches c (from_unix t) ≡ true) × NoMatch c (next_minute after) t

after_next_minute : (after : ℤ) → after <ℤ next_minute after
after_next_minute after =
    let parts = euclid_parts after 60 (omega arith) in
    let (_, below) = euclid_split after 60 (omega arith) in omega (int_laws, parts)

next_match :
    (c : Cron) (after : ℤ) (r : Option ℤ)
    → IsClock c
    → next_after c after ≡ r
    → Searched c (next_minute after +ℤ pos 158112000) (next_minute after) r
    → IsNextMatch c after r
unfolding Searched IsNextMatch
next_match c after none clock h searched = searched
next_match c after (some t) clock h (low, whole, none_) =
    let start = after_next_minute after in
    (omega arith, whole, next_after-matches c after t clock h, none_)

pub next_after-IsNextMatch :
    (c : Cron) (after : ℤ) → IsClock c → IsNextMatch c after (next_after c after)
next_after-IsNextMatch c after clock =
    let searched =
      search_lem 2635200 c (next_minute after +ℤ pos 158112000) (next_minute after) clock
        (div_euclid after 60 +ℤ pos 1, refl) (omega arith) in
    next_match c after (next_after c after) clock refl (unfold next_after in searched)
