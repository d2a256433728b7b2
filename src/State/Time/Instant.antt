-- ===== src/State/Time/Instant.antt =====
-- crates/state/src/time.rs: Unix timestamps and their civil parts.
use local_etl_tool.Prelude.{ℕ, ◌+◌, ◌*◌, ◌/◌, ◌%◌, ◌≤◌, ◌<◌, ◌≡◌, refl, ◌∙◌, arith}
use local_etl_tool.Prelude.Int.{
  ℤ, pos, ◌+ℤ◌, ◌*ℤ◌, div_euclid, rem_euclid, euclid_unique, euclid_split, add_cancel, int_laws,
}
use local_etl_tool.State.Time.{DateTime, from_unix, to_unix, days_from_civil, days_in_month}
use local_etl_tool.State.Time.Civil.{days_from_civil-civil_from_days}
use local_etl_tool.State.Time.Valid.{civil_from_days-days_from_civil}

clock_sum : (w : ℕ) → w / 3600 * 3600 + w % 3600 / 60 * 60 + w % 60 ≡ w
clock_sum w = omega arith

clock_parts :
    (days : ℤ) (h m s : ℕ)
    → days *ℤ 86400 +ℤ pos (h * 3600) +ℤ pos (m * 60) +ℤ pos s
      ≡ days *ℤ 86400 +ℤ pos (h * 3600 + m * 60 + s)
clock_parts days h m s = omega int_laws

pub within_day :
    (days : ℤ) (w : ℕ)
    → w < 86400
    → (div_euclid (days *ℤ 86400 +ℤ pos w) 86400 ≡ days)
      × (rem_euclid (days *ℤ 86400 +ℤ pos w) 86400 ≡ w)
within_day days w h =
    let quotient : div_euclid (days *ℤ 86400 +ℤ pos w) 86400 ≡ days =
      euclid_unique (days *ℤ 86400 +ℤ pos w) days 86400 w h (omega int_laws) in
    let (split, below) = euclid_split (days *ℤ 86400 +ℤ pos w) 86400 (omega arith) in
    (
      quotient,
      add_cancel (days *ℤ 86400) (rem_euclid (days *ℤ 86400 +ℤ pos w) 86400) w
          (rw quotient at split),
    )

-- The civil parts of every instant are those of one instant only: they lead back to it.
pub to_unix-from_unix : (seconds : ℤ) → to_unix (from_unix seconds) ≡ seconds
to_unix-from_unix seconds =
    let (split, below) = euclid_split seconds 86400 (omega arith) in
    let days : ℤ = div_euclid seconds 86400 in
    let w : ℕ = rem_euclid seconds 86400 in
    let same = days_from_civil-civil_from_days days in
    unfold from_unix to_unix in
    rw same (clock_parts days (w / 3600) (w % 3600 / 60) (w % 60) ∙ rw (clock_sum w) split)

-- The date is one that the calendar has, and the clock is a time of day.
pub record IsValid (when : DateTime) : Type 0 where
  pub month_low : 1 ≤ when.month
  pub month_high : when.month ≤ 12
  pub day_low : 1 ≤ when.day
  pub day_high : when.day ≤ days_in_month when.year when.month
  pub hour_high : when.hour < 24
  pub minute_high : when.minute < 60
  pub second_high : when.second < 60

-- The civil parts of the instant that a valid date and time stand for are that date and time.
pub from_unix-to_unix : (when : DateTime) → IsValid when → from_unix (to_unix when) ≡ when
from_unix-to_unix when valid =
    let days : ℤ = days_from_civil when.year when.month when.day in
    let w : ℕ = when.hour * 3600 + when.minute * 60 + when.second in
    let below : w < 86400 = omega arith in
    let (quotient, remainder) = within_day days w below in
    let date =
      civil_from_days-days_from_civil when.year when.month when.day valid.month_low valid.month_high
        valid.day_low valid.day_high in
    let hour_is : w / 3600 ≡ when.hour = omega arith in
    let minute_is : w % 3600 / 60 ≡ when.minute = omega arith in
    let second_is : w % 60 ≡ when.second = omega arith in
    let parts = clock_parts days when.hour when.minute when.second in
    unfold from_unix to_unix in
    rw (parts, quotient, remainder, date, hour_is, minute_is, second_is) refl

-- Another time on the day of an instant.
pub from_unix-same_day :
    (t : ℤ) (h m s : ℕ)
    → h < 24
    → m < 60
    → s < 60
    → from_unix (to_unix (record (from_unix t) { hour = h; minute = m; second = s }))
      ≡ record (from_unix t) { hour = h; minute = m; second = s }
from_unix-same_day t h m s h_low m_low s_low =
    let days : ℤ = div_euclid t 86400 in
    let w : ℕ = h * 3600 + m * 60 + s in
    let (quotient, remainder) = within_day days w (omega arith) in
    let hour_is : w / 3600 ≡ h = omega arith in
    let minute_is : w % 3600 / 60 ≡ m = omega arith in
    let second_is : w % 60 ≡ s = omega arith in
    let parts = clock_parts days h m s in
    let same = days_from_civil-civil_from_days days in
    unfold from_unix to_unix in
    rw (same, parts, quotient, remainder, hour_is, minute_is, second_is) refl
