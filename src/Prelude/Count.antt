-- ===== src/Prelude/Count.antt =====
-- Counting: how often a number occurs, sums over the numbers below a bound, and ranges.
use local_etl_tool.Prelude.{
  ℕ, zero, suc, ◌+◌, ◌≤◌, ◌<◌, ◌≡◌, ◌≢◌, refl, ◌⊎◌, inl, inr, Bool, true, false, List, [], ◌∷◌,
  ◌++◌, arith, ltb, ◌==◌, if◌then◌else◌, length, All,
}

-- How often `a` occurs.
abbrev pub count : ℕ → List ℕ → ℕ
count a [] = 0
count a (x ∷ xs) = (if a == x then 1 else 0) + count a xs

-- Rust's `filter` on an iterator.
unfoldable pub filter {ℓ} : {A : Type ℓ} → (A → Bool) → List A → List A
filter p [] = []
filter p (x ∷ xs) = if p x then x ∷ filter p xs else filter p xs

-- The `n` numbers from `i` on; `0..n` is `range 0 n`.
unfoldable pub range : ℕ → ℕ → List ℕ
range i zero = []
range i (suc n) = i ∷ range (i + 1) n

-- The sum of `f` over the numbers below `n`.
pub sum_below : ℕ → (ℕ → ℕ) → ℕ
sum_below zero f = 0
sum_below (suc n) f = f n + sum_below n f

pub count-append : (v : ℕ) (us ws : List ℕ) → count v (us ++ ws) ≡ count v us + count v ws
count-append v [] ws = ground arith
count-append v (u ∷ us) ws =
    let rest : count v (us ++ ws) ≡ count v us + count v ws = count-append v us ws in omega arith

pub sum_below-le :
    (n : ℕ) (f g : ℕ → ℕ) → ((i : ℕ) → i < n → f i ≤ g i) → sum_below n f ≤ sum_below n g
unfolding sum_below
sum_below-le zero f g h = omega arith
sum_below-le (suc n) f g h =
    omega (arith, h n (omega arith), sum_below-le n f g (λ i lt. h i (omega arith)))

-- Two functions that are ordered everywhere and have equal sums agree everywhere.
pub sum_below_tight :
    (n : ℕ) (f g : ℕ → ℕ)
    → ((i : ℕ) → i < n → f i ≤ g i)
    → sum_below n g ≤ sum_below n f
    → (i : ℕ) → i < n
    → f i ≡ g i
unfolding sum_below
sum_below_tight zero f g h e i lt = elim lt [ ]
sum_below_tight (suc n) f g h e i lt =
    let below : (j : ℕ) → j < n → f j ≤ g j = λ j lj. h j (omega arith) in
    let last = h n (omega arith) in
    let rest = sum_below-le n f g below in
    elim (i_cases i n (omega arith)) [
      | inl q ↦ omega (arith, eq_at f g i n q (omega arith))
      | inr q ↦ sum_below_tight n f g below (omega arith) i q
    ]
  where
    i_cases : (i n : ℕ) → i ≤ n → (i ≡ n) ⊎ (i < n)
    i_cases i n le = omega arith

    eq_at : (f g : ℕ → ℕ) (i n : ℕ) → i ≡ n → f n ≡ g n → f i ≡ g i
    eq_at f g i n q eq = cc

sum_below-zero : (n : ℕ) (f : ℕ → ℕ) → ((i : ℕ) → i < n → f i ≡ 0) → sum_below n f ≡ 0
unfolding sum_below
sum_below-zero zero f h = refl
sum_below-zero (suc n) f h =
    omega (arith, h n (omega arith), sum_below-zero n f (λ i lt. h i (omega arith)))

sum_below-add :
    (n : ℕ) (f g h : ℕ → ℕ)
    → ((i : ℕ) → h i ≡ f i + g i)
    → sum_below n h ≡ sum_below n f + sum_below n g
unfolding sum_below
sum_below-add zero f g h e = refl
sum_below-add (suc n) f g h e = omega (arith, e n, sum_below-add n f g h e)

sum_below-one : (n x : ℕ) → x < n → sum_below n (λ i. if i == x then 1 else 0) ≡ 1
unfolding sum_below
sum_below-one zero x h = elim h [ ]
sum_below-one (suc n) x h = elim (cases n x (omega arith)) [
  | inl e ↦
      let none_below = sum_below-zero n (λ i. if i == x then 1 else 0) (λ i lt. ground arith) in
      ground arith
  | inr lt ↦ let ih = sum_below-one n x lt in ground arith
]
  where
    cases : (n x : ℕ) → x ≤ n → (n ≡ x) ⊎ (x < n)
    cases n x le = omega arith

-- The occurrences of all numbers below the bound make up the list.
pub sum_below-count :
    (n : ℕ) (xs : List ℕ) → All (λ x. x < n) xs → sum_below n (λ a. count a xs) ≡ length xs
sum_below-count n [] h = sum_below-zero n (λ a. 0) (λ i lt. refl)
sum_below-count n (x ∷ xs) (hx, hxs) = omega (
  arith,
  sum_below-add n (λ a. if a == x then 1 else 0) (λ a. count a xs) (λ a. count a (x ∷ xs))
      (λ i. refl),
  sum_below-one n x hx,
  sum_below-count n xs hxs,
)

pub sum_below-const : (n k : ℕ) → sum_below n (λ a. 1) ≡ n
unfolding sum_below
sum_below-const zero k = refl
sum_below-const (suc n) k = omega (arith, sum_below-const n k)

-- A list of numbers below `n` with no number twice is no longer than `n`.
pub length-le_of_distinct :
    (n : ℕ) (xs : List ℕ) → All (λ x. x < n) xs → ((a : ℕ) → count a xs ≤ 1) → length xs ≤ n
length-le_of_distinct n xs h d = omega (
  arith,
  sum_below-count n xs h,
  sum_below-le n (λ a. count a xs) (λ a. 1) (λ i lt. d i),
  sum_below-const n 0,
)

pub count-range :
    (a i n : ℕ) → count a (range i n) ≡ (if ltb a i then 0 else if ltb a (i + n) then 1 else 0)
unfolding range
count-range a i zero = ground arith
count-range a i (suc n) = ground (arith, count-range a (i + 1) n)

pub count-filter :
    (p : ℕ → Bool) (a : ℕ) (xs : List ℕ) → count a (filter p xs) ≡ (if p a then count a xs else 0)
unfolding filter
count-filter p a [] = ground arith
count-filter p a (x ∷ xs) = elim (eq_cases a x) [
  | inl e ↦ let ih = count-filter p a xs in let pe : p a ≡ p x = cc in ground arith
  | inr ne ↦ let ih = count-filter p a xs in ground arith
]
  where
    eq_cases : (a x : ℕ) → (a ≡ x) ⊎ (a ≢ x)
    eq_cases a x = omega arith

pub All-range : (i n b : ℕ) → i + n ≤ b → All (λ x. x < b) (range i n)
unfolding range
All-range i zero b h = tt
All-range i (suc n) b h = (omega arith, All-range (i + 1) n b (omega arith))

All-if {κ} :
    (P : ℕ → Type κ) (b : Bool) (x : ℕ) (xs : List ℕ)
    → P x
    → All P xs
    → All P (if b then x ∷ xs else xs)
All-if P true x xs hx h = (hx, h)
All-if P false x xs hx h = h

pub All-filter {κ} : (P : ℕ → Type κ) (p : ℕ → Bool) (xs : List ℕ) → All P xs → All P (filter p xs)
unfolding filter
All-filter P p [] h = h
All-filter P p (x ∷ xs) h = All-if P (p x) x (filter p xs) h.0 (All-filter P p xs h.1)
