-- ===== src/Prelude/Int.antt =====
-- Signed integers over the native numbers, under the library's names (its ℤ stands on the unary ℕ).
-- An i64 of the source is such an integer; sums and orders go through its two parts.
use Prim.Native.Nat.{ℕ, suc, ◌+◌, ◌-◌, ◌*◌, ◌/◌, ◌%◌, ◌≤◌, ◌<◌}
use mathlib.Core.Path.{◌≡◌, ◌∙◌, refl, sym}
use mathlib.Core.Logic.{◌⊎◌}
use mathlib.Core.Bool.{Bool, true, false}
use native.Mathlib.Omega.{arith}
use local_etl_tool.Prelude.Tests.{ltb, leb, if◌then◌else◌}

-- `negsuc n` is -(n + 1).
pub data ℤ : Type 0 where
  pos : ℕ → ℤ
  negsuc : ℕ → ℤ

abbrev pub pos_part : ℤ → ℕ
pos_part (pos n) = n
pos_part (negsuc n) = 0

abbrev pub neg_part : ℤ → ℕ
neg_part (pos n) = 0
neg_part (negsuc n) = suc n

-- a - b, as an integer.
abbrev pub sub_ℕ : ℕ → ℕ → ℤ
sub_ℕ a b = if leb b a then pos (a - b) else negsuc (b - a - 1)

infixl 65 ◌+ℤ◌ ◌-ℤ◌
infixl 70 ◌*ℤ◌
infix 50 ◌≤ℤ◌ ◌<ℤ◌
unfoldable pub ◌+ℤ◌ : ℤ → ℤ → ℤ
a +ℤ b = sub_ℕ (pos_part a + pos_part b) (neg_part a + neg_part b)

unfoldable pub ◌-ℤ◌ : ℤ → ℤ → ℤ
a -ℤ b = sub_ℕ (pos_part a + neg_part b) (neg_part a + pos_part b)

-- The product of an integer and a natural number.
unfoldable pub ◌*ℤ◌ : ℤ → ℕ → ℤ
a *ℤ k = sub_ℕ (pos_part a * k) (neg_part a * k)

abbrev pub ◌≤ℤ◌ : ℤ → ℤ → Type 0
a ≤ℤ b = pos_part a + neg_part b ≤ pos_part b + neg_part a

abbrev pub ◌<ℤ◌ : ℤ → ℤ → Type 0
a <ℤ b = pos_part a + neg_part b < pos_part b + neg_part a

unfoldable pub ltb_ℤ : ℤ → ℤ → Bool
ltb_ℤ a b = ltb (pos_part a + neg_part b) (pos_part b + neg_part a)

unfoldable pub leb_ℤ : ℤ → ℤ → Bool
leb_ℤ a b = leb (pos_part a + neg_part b) (pos_part b + neg_part a)

-- Rust's `/` by a positive number: towards zero.
unfoldable pub tdiv : ℤ → ℕ → ℤ
tdiv (pos n) k = pos (n / k)
tdiv (negsuc n) k = sub_ℕ 0 (suc n / k)

-- `div_euclid` and `rem_euclid` by a positive number.
unfoldable pub div_euclid : ℤ → ℕ → ℤ
div_euclid (pos n) k = pos (n / k)
div_euclid (negsuc n) k = negsuc (n / k)

unfoldable pub rem_euclid : ℤ → ℕ → ℕ
rem_euclid (pos n) k = n % k
rem_euclid (negsuc n) k = k - 1 - n % k

pub +ℤ_parts :
    (a b : ℤ)
    → pos_part (a +ℤ b) + neg_part a + neg_part b ≡ neg_part (a +ℤ b) + pos_part a + pos_part b
unfolding ◌+ℤ◌
+ℤ_parts a b = ground arith

pub -ℤ_parts :
    (a b : ℤ)
    → pos_part (a -ℤ b) + neg_part a + pos_part b ≡ neg_part (a -ℤ b) + pos_part a + neg_part b
unfolding ◌-ℤ◌
-ℤ_parts a b = ground arith

sub_ℕ_parts : (a b : ℕ) → pos_part (sub_ℕ a b) + b ≡ neg_part (sub_ℕ a b) + a
sub_ℕ_parts a b = ground arith

pub *ℤ_parts :
    (a : ℤ) (k : ℕ) → pos_part (a *ℤ k) + neg_part a * k ≡ neg_part (a *ℤ k) + pos_part a * k
unfolding ◌*ℤ◌
*ℤ_parts a k = sub_ℕ_parts (pos_part a * k) (neg_part a * k)

-- A value has one part that is zero.
pub part_zero : (a : ℤ) → (pos_part a ≡ 0) ⊎ (neg_part a ≡ 0)
part_zero a = ground arith

pub eq_of_parts : (a b : ℤ) → pos_part a + neg_part b ≡ pos_part b + neg_part a → a ≡ b
eq_of_parts a b h = ground arith

pub ruleset int_laws = (arith, +ℤ_parts, -ℤ_parts, *ℤ_parts, eq_of_parts)

pub ltb_ℤ→lt : (a b : ℤ) → ltb_ℤ a b ≡ true → a <ℤ b
unfolding ltb_ℤ
ltb_ℤ→lt a b h = ground arith

pub ltb_ℤ→le : (a b : ℤ) → ltb_ℤ a b ≡ false → b ≤ℤ a
unfolding ltb_ℤ
ltb_ℤ→le a b h = ground arith

pub lt→ltb_ℤ : (a b : ℤ) → a <ℤ b → ltb_ℤ a b ≡ true
unfolding ltb_ℤ
lt→ltb_ℤ a b h = ground arith

pub le→ltb_ℤ : (a b : ℤ) → b ≤ℤ a → ltb_ℤ a b ≡ false
unfolding ltb_ℤ
le→ltb_ℤ a b h = ground arith

pub leb_ℤ→le : (a b : ℤ) → leb_ℤ a b ≡ true → a ≤ℤ b
unfolding leb_ℤ
leb_ℤ→le a b h = ground arith

pub leb_ℤ→lt : (a b : ℤ) → leb_ℤ a b ≡ false → b <ℤ a
unfolding leb_ℤ
leb_ℤ→lt a b h = ground arith

-- The quotient and the remainder of a Euclidean division, whose remainder is never negative.
pub euclid_parts :
    (a : ℤ) (k : ℕ)
    → 0 < k
    → (pos_part a + neg_part (div_euclid a k) * k
        ≡ pos_part (div_euclid a k) * k + rem_euclid a k + neg_part a)
      × (rem_euclid a k < k)
unfolding div_euclid rem_euclid
euclid_parts (pos n) k h = ground arith
euclid_parts (negsuc n) k h = ground arith

-- `if a >= 0 { a } else { a - (k - 1) } / k` rounds down; the source writes it where it wants an era.
unfoldable pub floor_div : ℤ → ℕ → ℤ
unfolding tdiv leb_ℤ ◌-ℤ◌
floor_div a k = tdiv (if leb_ℤ (pos 0) a then a else a -ℤ pos (k - 1)) k

-- Rust's `%` by a positive number, whose sign is the dividend's.
unfoldable pub trem : ℤ → ℕ → ℤ
trem (pos n) k = pos (n % k)
trem (negsuc n) k = sub_ℕ 0 (suc n % k)

negsuc-sub : (n k : ℕ) → negsuc n -ℤ pos k ≡ negsuc (n + k)
negsuc-sub n k = omega int_laws

floor_div_neg : (n k : ℕ) → floor_div (negsuc n) k ≡ tdiv (negsuc (n + (k - 1))) k
floor_div_neg n k =
    let below : leb_ℤ (pos 0) (negsuc n) ≡ false = unfold leb_ℤ in ground arith in
    unfold floor_div in rw (below, negsuc-sub n (k - 1)) cc

tdiv_neg : (n k : ℕ) → 0 < k → tdiv (negsuc (n + (k - 1))) k ≡ negsuc (n / k)
tdiv_neg n k h =
    let up : suc (n + (k - 1)) / k ≡ n / k + 1 = grind arith in unfold tdiv in rw up (ground arith)

-- `floor_div` is the Euclidean quotient.
pub floor_div-euclid : (a : ℤ) (k : ℕ) → 0 < k → floor_div a k ≡ div_euclid a k
floor_div-euclid (pos n) k h = unfold floor_div div_euclid leb_ℤ tdiv in ground arith
floor_div-euclid (negsuc n) k h = unfold div_euclid in floor_div_neg n k ∙ tdiv_neg n k h

-- A Euclidean quotient is determined by its equation.
pub euclid_unique :
    (a q : ℤ) (k r : ℕ)
    → r < k
    → pos_part a + neg_part q * k ≡ pos_part q * k + r + neg_part a
    → div_euclid a k ≡ q
unfolding div_euclid
euclid_unique (pos n) (pos m) k r h e = grind arith
euclid_unique (pos n) (negsuc m) k r h e = grind arith
euclid_unique (negsuc n) (pos m) k r h e = grind arith
euclid_unique (negsuc n) (negsuc m) k r h e = grind arith

-- A quotient and a remainder that fit determine `floor_div`.
pub floor_div_unique : (q : ℤ) (k r : ℕ) → r < k → floor_div (q *ℤ k +ℤ pos r) k ≡ q
floor_div_unique q k r h =
    floor_div-euclid (q *ℤ k +ℤ pos r) k (omega arith)
    ∙ euclid_unique (q *ℤ k +ℤ pos r) q k r h (omega int_laws)

-- What `floor_div` leaves is the remainder.
pub floor_div-split :
    (a : ℤ) (k : ℕ)
    → 0 < k
    → (floor_div a k *ℤ k +ℤ pos (rem_euclid a k) ≡ a) × (rem_euclid a k < k)
floor_div-split a k h =
    let (equation, below) = euclid_parts a k h in
    let same : floor_div a k ≡ div_euclid a k = floor_div-euclid a k h in
    (rw same (omega int_laws), below)

pub add_sub_cancel : (q : ℤ) (r : ℕ) → pos_part (q +ℤ pos r -ℤ q) ≡ r
add_sub_cancel q r = let same : q +ℤ pos r -ℤ q ≡ pos r = omega int_laws in rw same refl

pub sub_of_split : (a q : ℤ) (r : ℕ) → q +ℤ pos r ≡ a → pos_part (a -ℤ q) ≡ r
sub_of_split a q r h = rw (sym h) (add_sub_cancel q r)

pub add_sub_int : (a b : ℤ) → a +ℤ b -ℤ b ≡ a
add_sub_int a b = omega int_laws

pub euclid_split :
    (a : ℤ) (k : ℕ)
    → 0 < k
    → (div_euclid a k *ℤ k +ℤ pos (rem_euclid a k) ≡ a) × (rem_euclid a k < k)
euclid_split a k h = rw (floor_div-euclid a k h) at (floor_div-split a k h)

pub add_cancel : (q : ℤ) (m n : ℕ) → q +ℤ pos m ≡ q +ℤ pos n → m ≡ n
add_cancel q m n h = sym (sub_of_split (q +ℤ pos n) q m h) ∙ add_sub_cancel q n

-- The negative of a natural number.
unfoldable pub neg_of : ℕ → ℤ
neg_of n = sub_ℕ 0 n

pub add_pos : (a : ℤ) (m n : ℕ) → a +ℤ pos (m + n) ≡ a +ℤ pos m +ℤ pos n
add_pos a m n = omega int_laws

pub add_diff : (a b : ℤ) → b ≤ℤ a → a ≡ b +ℤ pos (pos_part (a -ℤ b))
add_diff a b h =
    let one_part = part_zero (a -ℤ b) in
    let parts = -ℤ_parts a b in let neg_zero : neg_part (a -ℤ b) ≡ 0 = omega arith in omega int_laws

pub add_parts :
    (a b : ℤ) (k : ℕ) → a ≡ b +ℤ pos k → pos_part a + neg_part b ≡ neg_part a + pos_part b + k
add_parts a b k h = rw h (omega int_laws)
