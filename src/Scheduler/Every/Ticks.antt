-- ===== src/Scheduler/Every/Ticks.antt =====
-- The ticks of an interval of crates/scheduler/src/every.rs.
use local_etl_tool.Prelude.{
  ℕ, ◌+◌, ◌-◌, ◌*◌, ◌/◌, ◌≤◌, ◌<◌, ◌≡◌, refl, ap, inl, inr, arith, Bool-cases,
}
use local_etl_tool.Prelude.Int.{
  ℤ, pos, pos_part, neg_part, ◌+ℤ◌, ◌-ℤ◌, ◌*ℤ◌, ◌≤ℤ◌, ◌<ℤ◌, ltb_ℤ, leb_ℤ, div_euclid, tdiv,
  -ℤ_parts, eq_of_parts, int_laws, ltb_ℤ→lt, ltb_ℤ→le, leb_ℤ→le, leb_ℤ→lt, le→ltb_ℤ,
}
use local_etl_tool.Scheduler.Every.{Interval, next_after, missed_between}

-- The k-th tick counting from `anchor`.
abbrev pub tick : Interval → ℤ → ℕ → ℤ
tick i anchor k = anchor +ℤ pos k *ℤ i.seconds

pub tick_parts :
    (i : Interval) (anchor : ℤ) (k : ℕ)
    → pos_part (tick i anchor k) + neg_part anchor
      ≡ neg_part (tick i anchor k) + pos_part anchor + k * i.seconds
tick_parts i anchor k = omega int_laws

-- A difference that is not negative.
pub diff_pos : (a b : ℤ) → b ≤ℤ a → (e : ℕ) × (a -ℤ b ≡ pos e)
unfolding ◌-ℤ◌
diff_pos a b h =
    (pos_part a + neg_part b - (pos_part b + neg_part a), eq_of_parts _ _ (ground arith))

diff_parts :
    (a b : ℤ) (e : ℕ) → a -ℤ b ≡ pos e → pos_part a + neg_part b ≡ neg_part a + pos_part b + e
diff_parts a b e d =
    let p = -ℤ_parts a b in
    let x : pos_part (a -ℤ b) ≡ e = ap pos_part d in
    let y : neg_part (a -ℤ b) ≡ 0 = ap neg_part d in omega arith

between_lem : (e step q k : ℕ) → 0 < step → q ≡ e / step → e < k * step → (q + 1) * step ≤ k * step
between_lem e step q k h d lt = grind arith

beyond : (e step : ℕ) → 0 < step → (e / step * step ≤ e) × (e < (e / step + 1) * step)
beyond e step h = grind arith

add_one : (a : ℕ) → pos a +ℤ pos 1 ≡ pos (a + 1)
add_one a = omega int_laws

next_after-tick :
    (i : Interval) (anchor after : ℤ) (e : ℕ)
    → anchor ≤ℤ after
    → after -ℤ anchor ≡ pos e
    → next_after i anchor after ≡ tick i anchor (e / i.seconds + 1)
unfolding next_after div_euclid
next_after-tick i anchor after e h d = rw (le→ltb_ℤ after anchor h, d, add_one)

-- Where an interval is positive, the instant that its `next_after` returns is a tick counting from the anchor, it is strictly after
-- `after`, and no tick strictly after `after` comes before it.
pub next_after-IsFirst :
    (i : Interval) (anchor after : ℤ)
    → 0 < i.seconds
    → ((k : ℕ) × (next_after i anchor after ≡ tick i anchor k))
      × (after <ℤ next_after i anchor after)
      × ((k : ℕ) → after <ℤ tick i anchor k → next_after i anchor after ≤ℤ tick i anchor k)
next_after-IsFirst i anchor after h = elim (Bool-cases (ltb_ℤ after anchor)) [
  | inl t ↦
      let same : next_after i anchor after ≡ anchor = unfold next_after in rw t in
      let start : anchor ≡ tick i anchor 0 = omega (int_laws, tick_parts i anchor 0) in
      rw same ((0, start), ltb_ℤ→lt after anchor t, (λ k lt. omega (arith, tick_parts i anchor k)))
  | inr f ↦
      let le = ltb_ℤ→le after anchor f in
      let (e, d) = diff_pos after anchor le in
      let shift = diff_parts after anchor e d in
      rw (next_after-tick i anchor after e le d) (
        (e / i.seconds + 1, refl),
        omega (arith, tick_parts i anchor (e / i.seconds + 1), beyond e i.seconds h),
        λ k lt. omega (
          arith,
          tick_parts i anchor (e / i.seconds + 1),
          tick_parts i anchor k,
          between_lem e i.seconds (e / i.seconds) k h refl (omega (arith, tick_parts i anchor k)),
        ),
      )
]

-- Where an interval is positive, `missed_between` is zero when `now` is not after `scheduled`, and
-- otherwise counts the ticks from `scheduled` up to `now`, the scheduled one left out.
pub missed_between_lem :
    (i : Interval) (scheduled now : ℤ)
    → 0 < i.seconds
    → (now ≤ℤ scheduled → missed_between i scheduled now ≡ 0)
      × (scheduled <ℤ now
          → (tick i scheduled (missed_between i scheduled now) ≤ℤ now)
            × (now <ℤ tick i scheduled (missed_between i scheduled now + 1)))
missed_between_lem i scheduled now h = elim (Bool-cases (leb_ℤ now scheduled)) [
  | inl t ↦ (
    (λ _. unfold missed_between in rw t),
    (λ lt. absurd (omega (arith, leb_ℤ→le now scheduled t))),
  )
  | inr f ↦
      let lt = leb_ℤ→lt now scheduled f in
      let (e, d) = diff_pos now scheduled (omega arith) in
      let shift = diff_parts now scheduled e d in
      let value : missed_between i scheduled now ≡ e / i.seconds =
        unfold missed_between tdiv in rw (f, d) in
      let between = beyond e i.seconds h in
      (
        (λ le. absurd (omega arith)),
        λ _. rw value (
          omega (arith, tick_parts i scheduled (e / i.seconds)),
          omega (arith, tick_parts i scheduled (e / i.seconds + 1)),
        ),
      )
]
