-- ===== src/State/Remember.antt =====
-- crates/state/src/lib.rs: what one pipeline remembers of its nodes. The time stamp of a record is an
-- argument, since the source reads the clock for it.
use local_etl_tool.Prelude.{
  ℕ, Bool, true, false, ◌||◌, ◌≡◌, refl, sym, ◌∙◌, inl, inr, Option, none, some, List, [], ◌∷◌,
  if◌then◌else◌, arith, Bool-cases,
}
use local_etl_tool.Prelude.Text.{Text, text_eq, text_eq_iff}
use local_etl_tool.Metadata.{JsonValue, Extra}

pub record Watermark : Type 0 where
  pub value : Text
  pub column : Text
  pub at_time : Text
  pub extra : Extra

pub record Checkpoint : Type 0 where
  pub component : Text
  pub value : JsonValue
  pub at_time : Text
  pub extra : Extra

-- A `BTreeMap` from node ids, which holds each id once at most.
module _ {ℓ} {A : Type ℓ} where
  unfoldable pub get : List (Text × A) → Text → Option A
  get [] k = none
  get ((j, a) ∷ m) k = if text_eq j k then some a else get m k

  unfoldable pub remove : List (Text × A) → Text → List (Text × A)
  remove [] k = []
  remove ((j, a) ∷ m) k = if text_eq j k then remove m k else (j, a) ∷ remove m k

  unfoldable pub insert : List (Text × A) → Text → A → List (Text × A)
  unfolding remove
  insert m k a = (k, a) ∷ remove m k

  abbrev pub has : List (Text × A) → Text → Bool
  has m k = elim (get m k) [ none ↦ false | some _ ↦ true ]

  overwritten :
      (b : Bool) (o : Option A) (a : A)
      → (if b then none else o) ≡ (if b then none else if b then some a else o)
  overwritten true o a = refl
  overwritten false o a = refl

  apart :
      (b c : Bool) (o : Option A) (a : A)
      → (b ≡ true → c ≡ true → ⊥)
      → (if c then some a else if b then none else o)
        ≡ (if b then none else if c then some a else o)
  apart true true o a h = absurd (h refl refl)
  apart true false o a h = refl
  apart false c o a h = refl

  get-remove :
      (m : List (Text × A)) (k j : Text)
      → get (remove m k) j ≡ (if text_eq k j then none else get m j)
  unfolding get remove
  get-remove [] k j = ground arith
  get-remove ((i, a) ∷ m) k j =
      let ih = get-remove m k j in
      elim (Bool-cases (text_eq i k)) [
        | inl t ↦
            let same : i ≡ k = (text_eq_iff i k).0 t in
            let tests : text_eq i j ≡ text_eq k j = rw same refl in
            rw (t, tests) (ih ∙ overwritten (text_eq k j) (get m j) a)
        | inr f ↦ rw f (
            unfold get in
            rw ih (
              apart (text_eq k j) (text_eq i j) (get m j) a (λ kj ij.
                let k_is : k ≡ j = (text_eq_iff k j).0 kj in
                let i_is : i ≡ j = (text_eq_iff i j).0 ij in
                let both : text_eq i k ≡ true = (text_eq_iff i k).1 (i_is ∙ sym k_is) in
                ground arith)))
      ]

  pub get-insert :
      (m : List (Text × A)) (k j : Text) (a : A)
      → get (insert m k a) j ≡ (if text_eq k j then some a else get m j)
  unfolding get insert
  get-insert m k j a = let rest = get-remove m k j in ground arith

pub record PipelineState : Type 0 where
  pub format_version : ℕ
  pub watermarks : List (Text × Watermark)
  pub checkpoints : List (Text × Checkpoint)
  pub extra : Extra

unfoldable pub watermark : PipelineState → Text → Option Watermark
watermark s node_id = get s.watermarks node_id

unfoldable pub advance : PipelineState → Text → Text → Text → Text → PipelineState
advance s node_id column value now = record s {
  watermarks =
      insert s.watermarks node_id
        (record { value = value; column = column; at_time = now; extra = [] });
}

unfoldable pub checkpoint : PipelineState → Text → Option Checkpoint
checkpoint s node_id = get s.checkpoints node_id

unfoldable pub record_checkpoint : PipelineState → Text → Text → JsonValue → Text → PipelineState
record_checkpoint s node_id component value now = record s {
  checkpoints =
      insert s.checkpoints node_id
        (record { component = component; value = value; at_time = now; extra = [] });
}

unfoldable pub forget : PipelineState → Text → Bool × PipelineState
forget s node_id = (
  has s.watermarks node_id || has s.checkpoints node_id,
  record s { watermarks = remove s.watermarks node_id; checkpoints = remove s.checkpoints node_id },
)

unfoldable pub forget_all : PipelineState → PipelineState
forget_all s = record s { watermarks = []; checkpoints = [] }

-- After a node advances, its watermark is the new value with its column, every other node keeps its
-- watermark, and all checkpoints are as they were.
pub watermark-advance :
    (s : PipelineState) (n column value now m : Text)
    → (watermark (advance s n column value now) m ≡ (
        if text_eq n m
        then some (record { value = value; column = column; at_time = now; extra = [] })
        else watermark s m))
      × (checkpoint (advance s n column value now) m ≡ checkpoint s m)
unfolding watermark advance checkpoint
watermark-advance s n column value now m = (get-insert s.watermarks n m _, refl)

-- After a node is forgotten it has neither watermark nor checkpoint, and every other node keeps both.
pub forget_lem :
    (s : PipelineState) (n m : Text)
    → (watermark (forget s n).1 m ≡ (if text_eq n m then none else watermark s m))
      × (checkpoint (forget s n).1 m ≡ (if text_eq n m then none else checkpoint s m))
unfolding watermark checkpoint forget
forget_lem s n m = (get-remove s.watermarks n m, get-remove s.checkpoints n m)

-- After a position is recorded, the node's checkpoint is it, every other node keeps its own, and all watermarks are
-- as they were.
pub checkpoint-record_checkpoint :
    (s : PipelineState) (n component : Text) (value : JsonValue) (now m : Text)
    → (watermark (record_checkpoint s n component value now) m ≡ watermark s m)
      × (checkpoint (record_checkpoint s n component value now) m ≡ (
          if text_eq n m
          then some (record { component = component; value = value; at_time = now; extra = [] })
          else checkpoint s m))
unfolding watermark checkpoint record_checkpoint
checkpoint-record_checkpoint s n component value now m = (refl, get-insert s.checkpoints n m _)
