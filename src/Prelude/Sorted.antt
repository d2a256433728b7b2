-- ===== src/Prelude/Sorted.antt =====
-- Rust's `BTreeMap` and `BTreeSet` of texts, as ascending lists.
use mathlib.Core.Path.{◌≡◌, refl, sym, ◌∙◌}
use mathlib.Core.Logic.{inl, inr}
use mathlib.Core.Bool.{Bool, true, false, ◌&&◌, ◌||◌}
use mathlib.Core.Option.{Option, none, some}
use mathlib.Core.List.{List, [], ◌∷◌, map}
use native.Mathlib.Omega.{arith}
use local_etl_tool.Prelude.Tests.{ltb, ◌==◌, if◌then◌else◌, Bool-cases}
use local_etl_tool.Prelude.Text.{Text, text_eq, text_eq_iff}

-- The order of two texts: that of their code points, which is that of their bytes.
unfoldable pub text_ltb : Text → Text → Bool
text_ltb s [] = false
text_ltb [] (d ∷ t) = true
text_ltb (c ∷ s) (d ∷ t) = ltb c d || (c == d && text_ltb s t)

abbrev pub Map {ℓ} : Type ℓ → Type ℓ
Map A = List (Text × A)

different : (i k j : Text) → text_eq i k ≡ false → text_eq k j ≡ true → text_eq i j ≡ false
different i k j apart e = elim (Bool-cases (text_eq i j)) [
  | inl bad ↦
      let same : i ≡ k = (text_eq_iff i j).0 bad ∙ sym ((text_eq_iff k j).0 e) in
      let both : text_eq i k ≡ true = (text_eq_iff i k).1 same in absurd (ground arith)
  | inr f ↦ f
]

module _ {ℓ} {A : Type ℓ} where
  unfoldable pub value_of : Map A → Text → Option A
  value_of [] k = none
  value_of ((j, a) ∷ m) k = if text_eq j k then some a else value_of m k

  unfoldable pub put : Map A → Text → A → Map A
  unfolding text_ltb
  put [] k a = (k, a) ∷ []
  put ((j, b) ∷ m) k a =
      if text_eq j k
      then (k, a) ∷ m
      else if text_ltb k j
      then (k, a) ∷ (j, b) ∷ m
      else (j, b) ∷ put m k a

  abbrev pub keys : Map A → List Text
  keys m = map (λ entry. entry.0) m

  abbrev pub has_key : Map A → Text → Bool
  has_key m k = elim (value_of m k) [ none ↦ false | some _ ↦ true ]

  put_first :
      (m : Map A) (k j : Text) (a : A)
      → value_of ((k, a) ∷ m) j ≡ (if text_eq k j then some a else value_of m j)
  unfolding value_of
  put_first m k j a = refl

  passed :
      (m r : Map A) (i k j : Text) (a b : A)
      → text_eq i k ≡ false
      → value_of r j ≡ (if text_eq k j then some a else value_of m j)
      → value_of ((i, b) ∷ r) j ≡ (if text_eq k j then some a else value_of ((i, b) ∷ m) j)
  unfolding value_of
  passed m r i k j a b apart rest = elim (Bool-cases (text_eq k j)) [
    | inl e ↦ let gone = different i k j apart e in rw (e, gone) (rw e at rest)
    | inr e ↦ let shown = rw e at rest in rw (e, shown) refl
  ]

  replaced :
      (m : Map A) (i k j : Text) (a b : A)
      → text_eq i k ≡ true
      → value_of ((k, a) ∷ m) j ≡ (if text_eq k j then some a else value_of ((i, b) ∷ m) j)
  unfolding value_of
  replaced m i k j a b same =
      let equal : i ≡ k = (text_eq_iff i k).0 same in
      elim (Bool-cases (text_eq k j)) [ inl e ↦ rw e refl | inr e ↦ rw (equal, e) refl ]

  -- A key that is put has its value, and every other key the one it had.
  pub value_of-put :
      (m : Map A) (k j : Text) (a : A)
      → value_of (put m k a) j ≡ (if text_eq k j then some a else value_of m j)
  unfolding put
  value_of-put [] k j a = unfold value_of in refl
  value_of-put ((i, b) ∷ m) k j a =
      let rest = passed m (put m k a) i k j a b in
      let later = value_of-put m k j a in
      elim (Bool-cases (text_eq i k)) [
        | inl same ↦ rw same (replaced m i k j a b same)
        | inr apart ↦ elim (Bool-cases (text_ltb k i)) [
          | inl low ↦ rw (apart, low) (put_first ((i, b) ∷ m) k j a)
          | inr high ↦ rw (apart, high) (rest apart later)
        ]
      ]

-- A set with one more element.
unfoldable pub add : List Text → Text → List Text
unfolding text_ltb
add [] s = s ∷ []
add (t ∷ ts) s = if text_eq t s then t ∷ ts else if text_ltb s t then s ∷ t ∷ ts else t ∷ add ts s

abbrev pub add_all : List Text → List Text → List Text
add_all set_ [] = set_
add_all set_ (s ∷ ss) = add_all (add set_ s) ss
