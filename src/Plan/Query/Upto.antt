-- ===== src/Plan/Query/Upto.antt =====
-- The stages behind one stage, in crates/duckdb-engine/src/plan/mod.rs.
use mathlib.Core.Path.{subst}
use local_etl_tool.Prelude.{
  ℕ, zero, suc, ◌+◌, ◌≤◌, ◌≡◌, ◌↔◌, refl, sym, inl, inr, true, false, not, ◌||◌, some, List, [],
  ◌∷◌, if◌then◌else◌, map, length, arith, Bool-cases, Option-cases,
}
use local_etl_tool.Prelude.Text.{Text, text_eq, text_eq_iff}
use local_etl_tool.Prelude.Count.{filter}
use local_etl_tool.Plan.Query.{
  Input, Stage, Plan, find_stage, stage, is_sink, contains_text, inputs_of, push_all, walk_back,
  pushes, upto,
}

-- The stages that a stage depends on, itself among them.
pub data Reach (stages : List Stage) (id : Text) : Text → Type 0 where
  here : Reach stages id id
  back :
      {x y : Text}
      → Reach stages id x
      → contains_text y (inputs_of stages x) ≡ true
      → Reach stages id y

contains-push_all :
    (y : Text) (ids frontier : List Text)
    → contains_text y (push_all ids frontier) ≡ (contains_text y ids || contains_text y frontier)
contains-push_all y [] frontier = refl
contains-push_all y (i ∷ ids) frontier =
    let rest = contains-push_all y ids (i ∷ frontier) in ground (arith, rest)

length-push_all :
    (ids frontier : List Text) → length (push_all ids frontier) ≡ length ids + length frontier
length-push_all [] frontier = omega arith
length-push_all (i ∷ ids) frontier = let rest = length-push_all ids (i ∷ frontier) in omega arith

length-ids : (inputs : List Input) → length (map (λ i. i.node_id) inputs) ≡ length inputs
length-ids [] = refl
length-ids (i ∷ inputs) = let rest = length-ids inputs in omega arith

same_text : (x c : Text) → text_eq x c ≡ true → x ≡ c
same_text x c h = (text_eq_iff x c).0 h

-- The inputs of the stages that are not walked yet.
remaining : List Stage → List Text → ℕ
remaining [] needed = 0
remaining (s ∷ ss) needed =
    (if contains_text s.node_id needed then 0 else length s.inputs) + remaining ss needed

remaining-le :
    (ss : List Stage) (c : Text) (needed : List Text)
    → remaining ss (c ∷ needed) ≤ remaining ss needed
unfolding remaining
remaining-le [] c needed = omega arith
remaining-le (s ∷ ss) c needed = let rest = remaining-le ss c needed in ground arith

remaining-pushes : (ss : List Stage) → remaining ss [] ≡ pushes ss
unfolding remaining
remaining-pushes [] = refl
remaining-pushes (s ∷ ss) = let rest = remaining-pushes ss in omega arith

remaining-found :
    (ss : List Stage) (c : Text) (needed : List Text) (s : Stage)
    → contains_text c needed ≡ false
    → find_stage c ss ≡ some s
    → remaining ss (c ∷ needed) + length s.inputs ≤ remaining ss needed
unfolding remaining find_stage
remaining-found [] c needed s new h = absurd (ground arith)
remaining-found (t ∷ ss) c needed s new h = elim (Bool-cases (text_eq t.node_id c)) [
  | inl e ↦
      let at : t.node_id ≡ c = same_text t.node_id c e in
      let same : t ≡ s = let shown = rw e at h in ground arith in
      let unseen : contains_text t.node_id needed ≡ false = rw at new in
      let rest = remaining-le ss c needed in rw (← same, e, unseen) (omega arith)
  | inr e ↦ let rest = remaining-found ss c needed s new (rw e at h) in rw e (omega arith)
]

remaining-inputs_of :
    (ss : List Stage) (c : Text) (needed : List Text)
    → contains_text c needed ≡ false
    → remaining ss (c ∷ needed) + length (inputs_of ss c) ≤ remaining ss needed
unfolding inputs_of
remaining-inputs_of ss c needed new = elim (Option-cases (find_stage c ss)) [
  | inl e ↦ let rest = remaining-le ss c needed in rw (e, inputs_of) (omega arith)
  | inr (s, e) ↦
      let rest = remaining-found ss c needed s new e in
      let count = length-ids s.inputs in rw (e, inputs_of) (omega arith)
]

IsSound : List Stage → Text → List Text → Type 0
IsSound stages id ids = (y : Text) → contains_text y ids ≡ true → Reach stages id y

walk_back-IsSound :
    (fuel : ℕ) (stages : List Stage) (id : Text) (needed frontier : List Text)
    → IsSound stages id needed
    → IsSound stages id frontier
    → IsSound stages id (walk_back fuel stages needed frontier)
unfolding walk_back IsSound
walk_back-IsSound zero stages id needed frontier hn hf = hn
walk_back-IsSound (suc fuel) stages id needed [] hn hf = hn
walk_back-IsSound (suc fuel) stages id needed (c ∷ frontier) hn hf =
    let later : IsSound stages id frontier = λ y h. hf y (ground arith) in
    elim (Bool-cases (contains_text c needed)) [
      | inl seen ↦ rw seen (walk_back-IsSound fuel stages id needed frontier hn later)
      | inr new ↦
          let equal : text_eq c c ≡ true = (text_eq_iff c c).1 refl in
          let reached : Reach stages id c = hf c (ground arith) in
          let more : IsSound stages id (c ∷ needed) = λ y h. elim (Bool-cases (text_eq y c)) [
            | inl e ↦ subst (λ t. Reach stages id t) (sym (same_text y c e)) reached
            | inr e ↦ hn y (ground arith)
          ] in
          let pushed : IsSound stages id (push_all (inputs_of stages c) frontier) = λ y h.
            let split = contains-push_all y (inputs_of stages c) frontier in
            elim (Bool-cases (contains_text y (inputs_of stages c))) [
              | inl e ↦ back reached e
              | inr e ↦ later y (ground arith)
            ] in
          rw new (
            walk_back-IsSound fuel stages id (c ∷ needed) (push_all (inputs_of stages c) frontier)
              more pushed)
    ]

-- What is needed or waits in the frontier: the first id, and the inputs of what is needed.
record Covers (stages : List Stage) (id : Text) (needed frontier : List Text) : Type 0 where
  first : (contains_text id needed || contains_text id frontier) ≡ true
  closed :
      (x y : Text)
      → contains_text x needed ≡ true
      → contains_text y (inputs_of stages x) ≡ true
      → (contains_text y needed || contains_text y frontier) ≡ true

walk_back-Covers :
    (fuel : ℕ) (stages : List Stage) (id : Text) (needed frontier : List Text)
    → length frontier + remaining stages needed ≤ fuel
    → Covers stages id needed frontier
    → Covers stages id (walk_back fuel stages needed frontier) []
unfolding walk_back
walk_back-Covers zero stages id needed [] enough h = h
walk_back-Covers zero stages id needed (c ∷ frontier) enough h = absurd (omega arith)
walk_back-Covers (suc fuel) stages id needed [] enough h = h
walk_back-Covers (suc fuel) stages id needed (c ∷ frontier) enough h =
    elim (Bool-cases (contains_text c needed)) [
      | inl seen ↦
          let was : (y : Text)
              → (contains_text y needed || contains_text y (c ∷ frontier)) ≡ true
              → (contains_text y needed || contains_text y frontier) ≡ true =
            λ y g. elim (Bool-cases (text_eq y c)) [
              | inl e ↦ rw (same_text y c e) (rw seen refl)
              | inr e ↦ rw e at g
            ] in
          rw seen (
            walk_back-Covers fuel stages id needed frontier (omega arith)
              (record { first = was id h.first; closed = λ x y hx hy. was y (h.closed x y hx hy) }))
      | inr new ↦
          let inputs = inputs_of stages c in
          let less = remaining-inputs_of stages c needed new in
          let size = length-push_all inputs frontier in
          let was : (y : Text)
              → (contains_text y needed || contains_text y (c ∷ frontier)) ≡ true
              → (contains_text y (c ∷ needed) || contains_text y (push_all inputs frontier))
                ≡ true =
            λ y g. let split = contains-push_all y inputs frontier in ground arith in
          rw new (
            walk_back-Covers fuel stages id (c ∷ needed) (push_all inputs frontier) (omega arith)
              (record {
                first = was id h.first;
                closed = λ x y hx hy. elim (Bool-cases (text_eq x c)) [
                  | inl e ↦
                      let input : contains_text y inputs ≡ true =
                        subst (λ t. contains_text y (inputs_of stages t) ≡ true) (same_text x c e)
                          hy in
                      let split = contains-push_all y inputs frontier in ground arith
                  | inr e ↦ was y (h.closed x y (ground arith) hy)
                ];
              }))
    ]

covered :
    (stages : List Stage) (id : Text) (needed : List Text) (y : Text)
    → Covers stages id needed []
    → Reach stages id y
    → contains_text y needed ≡ true
covered stages id needed y h here = let first = h.first in ground arith
covered stages id needed y h (back {x} r input) =
    let found = h.closed x y (covered stages id needed x h r) input in ground arith

returned :
    (plan : Plan) (id : Text) (s : Stage)
    → stage plan id ≡ some s
    → upto plan id
      ≡ some (
          filter
            (λ t. not (is_sink t.kind))
            (filter
              (λ t.
                contains_text t.node_id
                  (walk_back (suc (pushes plan.stages)) plan.stages [] (id ∷ [])))
              plan.stages))
unfolding upto stage
returned plan id s h = rw (h, upto) refl

-- Where the plan has a stage of an id, `upto` returns stages, in the order of the plan: those that are no sinks and
-- that the stage depends on, through its inputs, their inputs and so on, itself among them.
pub upto-Reach :
    (plan : Plan) (id : Text) (s : Stage)
    → stage plan id ≡ some s
    → (needed : List Text) × ((y : Text) → (contains_text y needed ≡ true) ↔ Reach plan.stages id y)
      × (upto plan id
          ≡ some (
              filter
                (λ t. not (is_sink t.kind))
                (filter (λ t. contains_text t.node_id needed) plan.stages)))
upto-Reach plan id s h =
    let fuel = suc (pushes plan.stages) in
    let equal : text_eq id id ≡ true = (text_eq_iff id id).1 refl in
    let total = remaining-pushes plan.stages in
    let sound =
      walk_back-IsSound fuel plan.stages id [] (id ∷ [])
        (unfold IsSound in λ y g. absurd (ground arith))
        (unfold IsSound in
          λ y g. subst (λ t. Reach plan.stages id t) (sym (same_text y id (ground arith))) here) in
    let covers =
      walk_back-Covers fuel plan.stages id [] (id ∷ []) (omega arith)
        (record { first = ground arith; closed = λ x y hx hy. absurd (ground arith) }) in
    let needed = walk_back fuel plan.stages [] (id ∷ []) in
    (
      needed,
      (λ y.
          ((λ g. (unfold IsSound in sound y g)), (λ r. covered plan.stages id needed y covers r))),
      returned plan id s h,
    )
