-- ===== src/Plan/Policy.antt =====
-- `StagePolicy` and `Materialize` of crates/duckdb-engine/src/plan/mod.rs: how often a failed stage is
-- run again, and how long the run waits before it.
use native.Mathlib.Nat.{pow-suc, mul_assoc}
use local_etl_tool.Prelude.{
  ℕ, suc, ◌+◌, ◌-◌, ◌*◌, ◌^◌, ◌≤◌, ◌<◌, min, ◌≡◌, refl, ap, Bool, true, false, ◌||◌, Option, none,
  some, arith, ltb, if◌then◌else◌,
}
use local_etl_tool.Prelude.Text.{Text, codes, text_eq, trim}
use local_etl_tool.Metadata.{NodePolicy}

pub data Materialize : Type 0 where
  auto view memory disk : Materialize

unfoldable pub parse : Text → Option Materialize
unfolding trim text_eq
parse token =
    let t = trim token in
    if text_eq t (codes "auto")
    then some auto
    else if text_eq t (codes "view")
    then some view
    else if text_eq t (codes "memory")
    then some memory
    else if text_eq t (codes "disk")
    then some disk
    else none

unfoldable pub name : Materialize → Text
name auto = codes "auto"
name view = codes "view"
name memory = codes "memory"
name disk = codes "disk"

-- `parse` reads back what `name` writes, for every mode.
pub parse-name : (m : Materialize) → parse (name m) ≡ some m
unfolding parse name
parse-name auto = refl
parse-name view = refl
parse-name memory = refl
parse-name disk = refl

unfoldable pub is_materialised : Materialize → Bool
is_materialised memory = true
is_materialised disk = true
is_materialised _ = false

pub record StagePolicy : Type 0 where
  pub retry_attempts : ℕ
  pub retry_backoff_ms : ℕ
  pub continue_on_failure : Bool
  pub memory_limit_mb : Option ℕ

abbrev pub default_policy : StagePolicy
default_policy = record {
  retry_attempts = 0;
  retry_backoff_ms = 0;
  continue_on_failure = false;
  memory_limit_mb = none;
}

abbrev pub default_retry_backoff_ms : ℕ
default_retry_backoff_ms = 250

abbrev unwrap_or {ℓ} : {A : Type ℓ} → Option A → A → A
unwrap_or none d = d
unwrap_or (some a) d = a

unfoldable pub from_node : Option NodePolicy → StagePolicy
from_node none = default_policy
from_node (some p) =
    let attempts = unwrap_or p.retry_attempts 0 in
    record {
      retry_attempts = attempts;
      retry_backoff_ms =
          unwrap_or p.retry_backoff_ms (if ltb 0 attempts then default_retry_backoff_ms else 0);
      continue_on_failure = unwrap_or p.continue_on_failure false;
      memory_limit_mb = p.memory_limit_mb;
    }

unfoldable pub needs_session : StagePolicy → Bool
needs_session p =
    ltb 0 p.retry_attempts
    || p.continue_on_failure
    || (elim p.memory_limit_mb [ none ↦ false | some _ ↦ true ])

abbrev pub u64_max : ℕ
u64_max = 18446744073709551615

-- `saturating_mul` on u64 stops at its greatest value.
abbrev pub saturate : ℕ → ℕ
saturate x = if ltb u64_max x then u64_max else x

-- In milliseconds; `attempt.saturating_sub(1)` is the truncated subtraction.
unfoldable pub backoff_for : StagePolicy → ℕ → ℕ
backoff_for p attempt = saturate (p.retry_backoff_ms * 2 ^ min (attempt - 1) 16)

saturate_double : (x : ℕ) → saturate (x * 2) ≡ saturate (saturate x * 2)
saturate_double x = ground arith

-- From the first retry to the sixteenth the wait doubles with each attempt, up to the greatest u64;
-- from the seventeenth on it stays the same.
pub backoff_for_doubles :
    (p : StagePolicy) (attempt : ℕ)
    → ((attempt < 16 → backoff_for p (attempt + 2) ≡ saturate (backoff_for p (attempt + 1) * 2))
        × (16 ≤ attempt → backoff_for p (attempt + 1) ≡ backoff_for p 17))
      × (backoff_for p 1 ≡ saturate p.retry_backoff_ms)
unfolding backoff_for
backoff_for_doubles p a =
    (((λ h. doubled h), (λ h. steady h)), (let one : b * 1 ≡ b = omega arith in ap saturate one))
  where
    b : ℕ
    b = p.retry_backoff_ms

    doubled :
        a < 16
        → saturate (b * 2 ^ min (a + 2 - 1) 16)
          ≡ saturate (saturate (b * 2 ^ min (a + 1 - 1) 16) * 2)
    doubled h =
        let e : min (a + 2 - 1) 16 ≡ suc a = omega arith in
        let f : min (a + 1 - 1) 16 ≡ a = omega arith in
        rw (e, f, pow-suc, ← mul_assoc) (saturate_double (b * 2 ^ a))

    steady : 16 ≤ a → saturate (b * 2 ^ min (a + 1 - 1) 16) ≡ saturate (b * 2 ^ 16)
    steady h = let e : min (a + 1 - 1) 16 ≡ 16 = omega arith in rw e
