-- ===== src/Scheduler/File/Checks.antt =====
-- What the checks of crates/scheduler/src/lib.rs accept.
use local_etl_tool.Prelude.{
  ℕ, ◌+◌, ◌≡◌, ◌↔◌, refl, inl, inr, false, List, [], ◌∷◌, ok, any, All, arith, Bool-cases,
}
use local_etl_tool.Prelude.Text.{Text, trim, text_eq}
use local_etl_tool.Scheduler.File.{Schedule, ScheduleFile, is_empty, check_from, check}

-- A schedule that can be run and reported: a name that is not blank, and a pipeline.
pub record IsNamed (s : Schedule) : Type 0 where
  pub has_name : is_empty (trim s.name) ≡ false
  pub has_pipeline : is_empty s.pipeline ≡ false

-- No two schedules share a name, and none has a name of the list.
abbrev pub Differ : List Text → List Schedule → Type 0
Differ seen [] = Unit
Differ seen (s ∷ ss) = (any (text_eq s.name) seen ≡ false) × Differ (s.name ∷ seen) ss

check_from_iff :
    (position : ℕ) (seen : List Text) (ss : List Schedule)
    → (check_from position seen ss ≡ ok tt) ↔ (All IsNamed ss × Differ seen ss)
unfolding check_from
check_from_iff position seen [] = ((λ _. (tt, tt)), (λ _. refl))
check_from_iff position seen (s ∷ ss) =
    let (there, back) = check_from_iff (position + 1) (s.name ∷ seen) ss in
    elim (Bool-cases (is_empty (trim s.name))) [
      | inl e ↦ (
        (λ h. absurd (ground arith)),
        (λ (all, _). absurd (let x = all.0.has_name in ground arith)),
      )
      | inr named_ ↦ elim (Bool-cases (any (text_eq s.name) seen)) [
        | inl e ↦ ((λ h. absurd (ground arith)), (λ (_, d). absurd (let x = d.0 in ground arith)))
        | inr new_ ↦ elim (Bool-cases (is_empty s.pipeline)) [
          | inl e ↦ (
            (λ h. absurd (ground arith)),
            (λ (all, _). absurd (let x = all.0.has_pipeline in ground arith)),
          )
          | inr given ↦ (
            (λ h.
                let (all, differ) = there (rw (named_, new_, given) at h) in
                ((record { has_name = named_; has_pipeline = given }, all), (new_, differ))),
            (λ (all, differ). rw (named_, new_, given) (back (all.1, differ.1))),
          )
        ]
      ]
    ]

-- `check` accepts a schedule file exactly when every schedule has a name that is not blank and a
-- pipeline, and no name is that of an earlier schedule.
pub check_iff :
    (file : ScheduleFile)
    → (check file ≡ ok tt) ↔ (All IsNamed file.schedules × Differ [] file.schedules)
unfolding check
check_iff file = check_from_iff 0 [] file.schedules
