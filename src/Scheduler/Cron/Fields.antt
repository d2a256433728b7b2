-- ===== src/Scheduler/Cron/Fields.antt =====
-- The bit masks of crates/scheduler/src/cron.rs.
use native.Mathlib.Nat.{pow-suc}
use local_etl_tool.Prelude.{
  ℕ, zero, suc, ◌+◌, ◌-◌, ◌*◌, ◌/◌, ◌%◌, ◌^◌, ◌≤◌, ◌<◌, ◌≡◌, ◌≢◌, inl, inr, refl, sym, ap, ◌∙◌,
  true, false, none, some, leb, ◌==◌, arith, Bool-cases,
}
use local_etl_tool.Prelude.Int.{pos, pos_part, div_euclid, euclid_unique}
use local_etl_tool.Scheduler.Cron.{FieldSet, bit, contains, trailing_zeros, next_from}

half_div : (n m : ℕ) → 0 < m → n / (2 * m) ≡ n / 2 / m
half_div n m h =
    let q : ℕ = n / 2 / m in
    let r : ℕ = n / 2 % m in
    let split : n / 2 ≡ q * m + r = grind arith in
    let below : r < m = grind arith in
    let whole : n ≡ q * (2 * m) + (2 * r + n % 2) = grind arith in
    let equal : div_euclid (pos n) (2 * m) ≡ pos q =
      euclid_unique (pos n) (pos q) (2 * m) (2 * r + n % 2) (omega arith) (omega arith) in
    let shown : pos (n / (2 * m)) ≡ pos q = unfold div_euclid in equal in ap pos_part shown

two_pow_pos : (k : ℕ) → 0 < 2 ^ k
two_pow_pos zero = omega arith
two_pow_pos (suc k) = let rest = two_pow_pos k in let double = pow-suc 2 k in omega arith

pub bit-suc : (n k : ℕ) → bit n (suc k) ≡ bit (n / 2) k
bit-suc n k =
    let double : 2 ^ suc k ≡ 2 * 2 ^ k = grind (arith, pow-suc 2 k) in
    let positive : 0 < 2 ^ k = two_pow_pos k in rw (double, half_div n (2 ^ k) positive) refl

zeros_below :
    (n t : ℕ)
    → n % 2 == 1 ≡ false
    → ((k : ℕ) → k < t → bit (n / 2) k ≡ false)
    → (k : ℕ) → k < suc t
    → bit n k ≡ false
zeros_below n t even zeros zero lt = ground arith
zeros_below n t even zeros (suc k) lt = bit-suc n k ∙ zeros k (omega arith)

-- The zeros below the lowest bit that is set.
trailing_zeros_lem :
    (fuel n : ℕ)
    → n ≢ 0
    → n < 2 ^ fuel
    → (bit n (trailing_zeros fuel n) ≡ true)
      × ((k : ℕ) → k < trailing_zeros fuel n → bit n k ≡ false)
unfolding trailing_zeros
trailing_zeros_lem zero n some_ small = absurd (omega arith)
trailing_zeros_lem (suc fuel) n some_ small = elim (Bool-cases (n % 2 == 1)) [
  | inl odd ↦ rw odd (ground arith, λ k h. absurd (omega arith))
  | inr even ↦
      let (hit, zeros) =
        trailing_zeros_lem fuel (n / 2) (ground arith)
          (let double = pow-suc 2 fuel in omega arith) in
      rw even (
        bit-suc n (trailing_zeros fuel (n / 2)) ∙ hit,
        zeros_below n (trailing_zeros fuel (n / 2)) even zeros,
      )
]

bit-zero : (k : ℕ) → bit 0 k ≡ false
bit-zero zero = refl
bit-zero (suc k) = bit-suc 0 k ∙ bit-zero k

bit_shift : (n from k : ℕ) → bit (n / 2 ^ from) k ≡ bit n (from + k)
bit_shift n zero k =
    let same : 0 + k ≡ k = omega arith in
    let whole : n / 2 ^ 0 ≡ n = omega arith in rw (whole, same) refl
bit_shift n (suc from) k =
    let double : 2 ^ suc from ≡ 2 * 2 ^ from = grind (arith, pow-suc 2 from) in
    let next : suc from + k ≡ suc (from + k) = omega arith in
    rw (double, half_div n (2 ^ from) (two_pow_pos from), next)
      (bit_shift (n / 2) from k ∙ sym (bit-suc n (from + k)))

-- A number below a power of two has no bit at the power or above.
pub bit_below : (fuel n k : ℕ) → n < 2 ^ fuel → bit n k ≡ true → k < fuel
bit_below zero n k small h =
    let none_ : n ≡ 0 = omega arith in
    let set_ : bit 0 k ≡ true = rw none_ at h in
    let bad : true ≡ false = sym set_ ∙ bit-zero k in absurd (ground arith)
bit_below (suc fuel) n zero small h = omega arith
bit_below (suc fuel) n (suc k) small h =
    let double = pow-suc 2 fuel in
    let rest = bit_below fuel (n / 2) k (omega arith) (sym (bit-suc n k) ∙ h) in omega arith

bit_from : (n from w : ℕ) → from ≤ w → bit n w ≡ bit (n / 2 ^ from) (w - from)
bit_from n from w up =
    let back : from + (w - from) ≡ w = omega arith in rw back at (sym (bit_shift n from (w - from)))

quotient_le : (n m : ℕ) → 0 < m → n / m ≤ n
quotient_le n m h = grind arith

-- The position of the lowest bit that is set at `from` or above.
lowest :
    (n from : ℕ)
    → n < 2 ^ 64
    → n / 2 ^ from ≢ 0
    → (v : ℕ) → v ≡ from + trailing_zeros 64 (n / 2 ^ from)
    → (bit n v ≡ true) × (v < 64) × ((w : ℕ) → from ≤ w → w < v → bit n w ≡ false)
lowest n from small some_ v at_v =
    let rest = n / 2 ^ from in
    let smaller = quotient_le n (2 ^ from) (two_pow_pos from) in
    let (hit, zeros) = trailing_zeros_lem 64 rest some_ (omega arith) in
    let t : v - from ≡ trailing_zeros 64 rest = omega arith in
    let set_ : bit n v ≡ true = bit_from n from v (omega arith) ∙ (rw t hit) in
    (
      set_,
      bit_below 64 n v small set_,
      (λ w up lt. bit_from n from w up ∙ zeros (w - from) (omega arith)),
    )

-- Where the set is a u64, the value that `next_from` returns is in the set and not below `from`, and no
-- value between the two is in the set; and when it returns none, no value from `from` on is in the set.
pub next_from-IsLeast :
    (s : FieldSet) (from : ℕ)
    → s.bits < 2 ^ 64
    → ((v : ℕ)
        → next_from s from ≡ some v
        → (contains s v ≡ true) × (from ≤ v) × ((w : ℕ) → from ≤ w → w < v → contains s w ≡ false))
      × (next_from s from ≡ none → (w : ℕ) → from ≤ w → contains s w ≡ false)
unfolding next_from contains
next_from-IsLeast s from small = elim (Bool-cases (leb 64 from)) [
  | inl past ↦ ((λ v h. absurd (ground arith)), (λ h w up. ground arith))
  | inr inside ↦ elim (Bool-cases (s.bits / 2 ^ from == 0)) [
    | inl empty_ ↦ (
      (λ v h. absurd (ground arith)),
      (λ h w up.
          let gone : s.bits / 2 ^ from ≡ 0 = ground arith in
          let unset : bit s.bits w ≡ false =
            bit_from s.bits from w up ∙ (rw gone (bit-zero (w - from))) in
          ground arith),
    )
    | inr some_ ↦ (
      (λ v h.
          let (set_, below, unset) = lowest s.bits from small (ground arith) v (ground arith) in
          ((ground arith), (ground arith), (λ w up lt. let z = unset w up lt in ground arith))),
      (λ h w up. absurd (ground arith)),
    )
  ]
]

pub contains-bit : (s : FieldSet) (v : ℕ) → contains s v ≡ true → bit s.bits v ≡ true
unfolding contains
contains-bit s v h = ground arith
