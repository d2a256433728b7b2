-- ===== src/Exec/OneScript/Same.antt =====
-- The outcomes of `run_one_script` and those of `run_driven` of crates/duckdb-engine/src/exec.rs, from the same counts.
use local_etl_tool.Prelude.{
  ℕ, suc, ◌≡◌, refl, sym, ap, ◌∙◌, inl, inr, Bool, true, false, Option, none, some, List, [], ◌∷◌,
  ◌++◌, map, length, arith, if◌then◌else◌, All, Bool-cases,
}
use local_etl_tool.Prelude.Text.{Text, text_eq, text_eq_iff, text_eq_swap}
use local_etl_tool.Plan.Query.{Stage, Plan, CountProbe, is_rejected, count_probes, flat_map}
use local_etl_tool.Exec.{StageOutcome, same_side}
use local_etl_tool.Exec.Driven.{count_at, stage_outcome}
use local_etl_tool.Exec.OneScript.{zip, ByOutput, insert, insert_all, outcome_by, outcomes}

-- No two stages have one id, and no two probes of a stage are of one side.
unfoldable pub IsDistinct : List Stage → Type 0
IsDistinct [] = Unit
IsDistinct (s ∷ stages) = All (λ t. text_eq s.node_id t.node_id ≡ false) stages × IsDistinct stages

unfoldable pub OneEach : List CountProbe → Type 0
OneEach [] = Unit
OneEach (probe ∷ probes) =
    All (λ q. same_side (is_rejected q) (is_rejected probe) ≡ false) probes × OneEach probes

-- The counts that the stages' own probes gave, one list for each stage and one count for each probe.
unfoldable pub Fits : List Stage → List (List ℕ) → Type 0
Fits [] [] = Unit
Fits (s ∷ stages) (counts ∷ more) = (length counts ≡ length s.counts) × Fits stages more
Fits [] (counts ∷ more) = ⊥
Fits (s ∷ stages) [] = ⊥

unfoldable pub all_counts : List (List ℕ) → List ℕ
all_counts [] = []
all_counts (counts ∷ more) = counts ++ all_counts more

-- The outcomes that the driven path gives for counts, but for the times.
unfoldable pub driven_outcomes : List Stage → List (List ℕ) → List StageOutcome
unfolding stage_outcome
driven_outcomes [] more = []
driven_outcomes (s ∷ stages) [] = []
driven_outcomes (s ∷ stages) (counts ∷ more) = stage_outcome s counts ∷ driven_outcomes stages more

abbrev entries : Stage → List CountProbe → List (Stage × CountProbe)
entries s probes = map (λ probe. (s, probe)) probes

-- A stage's counts change nothing under another id.
insert_all-other :
    (s : Stage) (probes : List CountProbe) (counts : List ℕ) (m : ByOutput) (id : Text)
    (side : Bool)
    → text_eq s.node_id id ≡ false
    → insert_all (zip (entries s probes) counts) m id side ≡ m id side
unfolding insert_all insert
insert_all-other s [] counts m id side h = refl
insert_all-other s (probe ∷ probes) [] m id side h = refl
insert_all-other s (probe ∷ probes) (n ∷ counts) m id side h =
    insert_all-other s probes counts (insert s.node_id (is_rejected probe) n m) id side h
    ∙ rw (h, insert) refl

text_eq_refl : (t : Text) → text_eq t t ≡ true
text_eq_refl t = (text_eq_iff t t).1 refl

same_side-eq : (b c : Bool) → same_side b c ≡ true → b ≡ c
same_side-eq true true h = refl
same_side-eq true false h = cc
same_side-eq false true h = cc
same_side-eq false false h = refl

insert-own :
    (id : Text) (b : Bool) (n : ℕ) (m : ByOutput) (side : Bool)
    → insert id b n m id side ≡ (if same_side b side then some n else m id side)
unfolding insert
insert-own id b n m side = rw (text_eq_refl id) refl

-- Under its own id, where no probe is of the side, what was there stays.
insert_all-absent :
    (s : Stage) (probes : List CountProbe) (counts : List ℕ) (m : ByOutput) (side : Bool)
    → All (λ q. same_side (is_rejected q) side ≡ false) probes
    → insert_all (zip (entries s probes) counts) m s.node_id side ≡ m s.node_id side
unfolding insert_all
insert_all-absent s [] counts m side h = refl
insert_all-absent s (probe ∷ probes) [] m side h = refl
insert_all-absent s (probe ∷ probes) (n ∷ counts) m side (h, hs) =
    insert_all-absent s probes counts (insert s.node_id (is_rejected probe) n m) side hs
    ∙ insert-own s.node_id (is_rejected probe) n m side
    ∙ rw h refl

-- Under its own id a side has the count of the first probe of that side.
insert_all-own :
    (s : Stage) (probes : List CountProbe) (counts : List ℕ) (m : ByOutput) (side : Bool)
    → OneEach probes
    → m s.node_id side ≡ none
    → insert_all (zip (entries s probes) counts) m s.node_id side ≡ count_at side probes counts
unfolding insert_all count_at OneEach
insert_all-own s [] counts m side one h = h
insert_all-own s (probe ∷ probes) [] m side one h = h
insert_all-own s (probe ∷ probes) (n ∷ counts) m side (none_alike, one) h =
    let own = insert-own s.node_id (is_rejected probe) n m side in
    elim (Bool-cases (same_side (is_rejected probe) side)) [
      | inl e ↦
          let same = same_side-eq (is_rejected probe) side e in
          rw (e, count_at)
            (insert_all-absent s probes counts (insert s.node_id (is_rejected probe) n m) side
                (rw same at none_alike)
              ∙ own
              ∙ rw e refl)
      | inr e ↦
          rw (e, count_at)
            (insert_all-own s probes counts (insert s.node_id (is_rejected probe) n m) side one
              (own ∙ rw e h))
    ]

zip-append :
    {A B : Type 0} (xs ys : List A) (us vs : List B)
    → length us ≡ length xs
    → zip (xs ++ ys) (us ++ vs) ≡ zip xs us ++ zip ys vs
zip-append [] ys [] vs h = refl
zip-append [] ys (u ∷ us) vs h = absurd (omega arith)
zip-append (x ∷ xs) ys [] vs h = absurd (omega arith)
zip-append (x ∷ xs) ys (u ∷ us) vs h = ap (λ r. (x, u) ∷ r) (zip-append xs ys us vs (omega arith))

insert_all-append :
    (es fs : List ((Stage × CountProbe) × ℕ)) (m : ByOutput)
    → insert_all (es ++ fs) m ≡ insert_all fs (insert_all es m)
unfolding insert_all
insert_all-append [] fs m = refl
insert_all-append (((s, probe), n) ∷ es) fs m =
    insert_all-append es fs (insert s.node_id (is_rejected probe) n m)

length-entries : (s : Stage) (probes : List CountProbe) → length (entries s probes) ≡ length probes
length-entries s [] = refl
length-entries s (probe ∷ probes) = ap suc (length-entries s probes)

abbrev probes_in : List Stage → List (Stage × CountProbe)
probes_in stages = flat_map (λ s. map (λ probe. (s, probe)) s.counts) stages

-- The counts of a stage, then those of the stages behind it.
insert_all-cons :
    (s : Stage) (stages : List Stage) (counts : List ℕ) (more : List (List ℕ)) (m : ByOutput)
    → length counts ≡ length s.counts
    → insert_all (zip (probes_in (s ∷ stages)) (counts ++ all_counts more)) m
      ≡ insert_all
          (zip (probes_in stages) (all_counts more))
          (insert_all (zip (entries s s.counts) counts) m)
insert_all-cons s stages counts more m h =
    ap (λ es. insert_all es m)
      (zip-append (entries s s.counts) (probes_in stages) counts (all_counts more)
        (h ∙ sym (length-entries s s.counts)))
    ∙ insert_all-append (zip (entries s s.counts) counts) (zip (probes_in stages) (all_counts more))
        m

insert_all-others :
    (stages : List Stage) (more : List (List ℕ)) (m : ByOutput) (id : Text) (side : Bool)
    → Fits stages more
    → All (λ t. text_eq id t.node_id ≡ false) stages
    → insert_all (zip (probes_in stages) (all_counts more)) m id side ≡ m id side
unfolding Fits all_counts insert_all
insert_all-others [] more m id side fits h = refl
insert_all-others (s ∷ stages) [] m id side fits h = absurd fits
insert_all-others (s ∷ stages) (counts ∷ more) m id side (fit, fits) (h, hs) =
    ap (λ (f : ByOutput). f id side) (insert_all-cons s stages counts more m fit)
    ∙ insert_all-others stages more (insert_all (zip (entries s s.counts) counts) m) id side fits hs
    ∙ insert_all-other s s.counts counts m id side (text_eq_swap id s.node_id h)

outcome_by-stage_outcome :
    (s : Stage) (counts : List ℕ) (m : ByOutput)
    → ((side : Bool) → m s.node_id side ≡ count_at side s.counts counts)
    → outcome_by m s ≡ stage_outcome s counts
unfolding outcome_by stage_outcome
outcome_by-stage_outcome s counts m h = rw (h false, h true) refl

-- The ids of the stages behind are as new as they were.
still_new :
    (s : Stage) (stages : List Stage) (counts : List ℕ) (m : ByOutput)
    → All (λ t. text_eq s.node_id t.node_id ≡ false) stages
    → All (λ t. (side : Bool) → m t.node_id side ≡ none) stages
    → All
        (λ t. (side : Bool) → insert_all (zip (entries s s.counts) counts) m t.node_id side ≡ none)
        stages
still_new s [] counts m others new = tt
still_new s (t ∷ stages) counts m (other, others) (new, more) = (
  (λ side. insert_all-other s s.counts counts m t.node_id side other ∙ new side),
  still_new s stages counts m others more,
)

outcomes_by-driven_outcomes :
    (stages : List Stage) (more : List (List ℕ)) (m : ByOutput)
    → IsDistinct stages
    → All (λ s. OneEach s.counts) stages
    → Fits stages more
    → All (λ t. (side : Bool) → m t.node_id side ≡ none) stages
    → map (outcome_by (insert_all (zip (probes_in stages) (all_counts more)) m)) stages
      ≡ driven_outcomes stages more
unfolding IsDistinct Fits all_counts driven_outcomes
outcomes_by-driven_outcomes [] more m distinct one fits fresh = refl
outcomes_by-driven_outcomes (s ∷ stages) [] m distinct one fits fresh = absurd fits
outcomes_by-driven_outcomes (s ∷ stages) (counts ∷ more) m (others, distinct) (one, ones)
      (fit, fits) (new, fresh) =
    let own = insert_all (zip (entries s s.counts) counts) m in
    let split = insert_all-cons s stages counts more m fit in
    let count_of : (side : Bool)
        → insert_all (zip (probes_in stages) (all_counts more)) own s.node_id side
          ≡ count_at side s.counts counts =
      λ side.
        insert_all-others stages more own s.node_id side fits others
        ∙ insert_all-own s s.counts counts m side one (new side) in
    let rest =
      outcomes_by-driven_outcomes stages more own distinct ones fits
        (still_new s stages counts m others fresh) in
    let after = insert_all (zip (probes_in stages) (all_counts more)) own in
    ap (λ (f : ByOutput). map (outcome_by f) (s ∷ stages)) split
    ∙ ap (λ o. o ∷ map (outcome_by after) stages) (outcome_by-stage_outcome s counts after count_of)
    ∙ ap (λ os. stage_outcome s counts ∷ os) rest

nothing_inserted :
    (stages : List Stage) → All (λ t. (side : Bool) → ◌≡◌ {A = Option ℕ} none none) stages
nothing_inserted [] = tt
nothing_inserted (s ∷ stages) = ((λ side. refl), nothing_inserted stages)

-- Where no two stages have one id and no stage has two probes of a side, the one-script path gives each stage the
-- outcome that the driven path gives it from the same counts, but for the time.
pub outcomes-driven_outcomes :
    (plan : Plan) (more : List (List ℕ))
    → IsDistinct plan.stages
    → All (λ s. OneEach s.counts) plan.stages
    → Fits plan.stages more
    → outcomes plan true (all_counts more) ≡ driven_outcomes plan.stages more
unfolding outcomes count_probes
outcomes-driven_outcomes plan more distinct one fits =
    outcomes_by-driven_outcomes plan.stages more (λ id side. none) distinct one fits
      (nothing_inserted plan.stages)
