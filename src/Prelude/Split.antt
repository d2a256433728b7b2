-- ===== src/Prelude/Split.antt =====
-- What the program uses of Rust's `str` to take a text apart and to read numbers from it.
use Prim.Native.Nat.{ℕ, ◌+◌, ◌-◌, ◌*◌, ◌^◌}
use mathlib.Core.Bool.{Bool, true, false, ◌&&◌, ◌||◌}
use mathlib.Core.Option.{Option, none, some}
use mathlib.Core.List.{List, [], ◌∷◌}
use local_etl_tool.Prelude.Tests.{ltb, leb, ◌==◌, if◌then◌else◌}
use local_etl_tool.Prelude.Lists.{all}
use local_etl_tool.Prelude.Text.{Text, is_whitespace, is_ascii_digit}
use local_etl_tool.Prelude.Int.{ℤ, pos, neg_of}

-- Puts a character in front of the first piece.
glue : ℕ → List Text → List Text
glue c [] = (c ∷ []) ∷ []
glue c (s ∷ ss) = (c ∷ s) ∷ ss

-- `split` at a character.
unfoldable pub split : ℕ → Text → List Text
unfolding glue
split d [] = [] ∷ []
split d (c ∷ s) = let rest = split d s in if c == d then [] ∷ rest else glue c rest

-- `split_once` at a character.
unfoldable pub split_once : ℕ → Text → Option (Text × Text)
split_once d [] = none
split_once d (c ∷ s) =
    let rest = split_once d s in
    if c == d then some ([], s) else elim rest [ none ↦ none | some (a, b) ↦ some (c ∷ a, b) ]

is_blank : Text → Bool
is_blank [] = true
is_blank (c ∷ s) = false

unfoldable pub drop_blank : List Text → List Text
unfolding is_blank
drop_blank [] = []
drop_blank (s ∷ ss) = if is_blank s then drop_blank ss else s ∷ drop_blank ss

pieces : Text → List Text
unfolding glue
pieces [] = [] ∷ []
pieces (c ∷ s) = let rest = pieces s in if is_whitespace c then [] ∷ rest else glue c rest

-- `split_whitespace`: the pieces that are not empty.
unfoldable pub split_whitespace : Text → List Text
unfolding pieces drop_blank is_whitespace
split_whitespace s = drop_blank (pieces s)

unfoldable pub starts_with : Text → Text → Bool
starts_with s [] = true
starts_with [] (p ∷ ps) = false
starts_with (c ∷ s) (p ∷ ps) = c == p && starts_with s ps

unfoldable pub is_ascii_alphabetic : ℕ → Bool
is_ascii_alphabetic c = (leb b'a' c && leb c b'z') || (leb b'A' c && leb c b'Z')

unfoldable pub decimal : ℕ → Text → ℕ
decimal n [] = n
decimal n (c ∷ s) = decimal (n * 10 + (c - b'0')) s

-- One digit or more.
unfoldable pub digits : Text → Option ℕ
unfolding decimal is_ascii_digit
digits [] = none
digits (c ∷ s) = if all is_ascii_digit (c ∷ s) then some (decimal 0 (c ∷ s)) else none

-- A number below a bound.
unfoldable pub below : ℕ → Option ℕ → Option ℕ
below bound none = none
below bound (some n) = if ltb n bound then some n else none

-- `parse::<u32>`: an optional `+` and digits.
unfoldable pub parse_u32 : Text → Option ℕ
unfolding digits below
parse_u32 [] = none
parse_u32 (c ∷ s) = below (2 ^ 32) (if c == b'+' then digits s else digits (c ∷ s))

-- `parse::<u64>`: an optional `+` and digits.
unfoldable pub parse_u64 : Text → Option ℕ
unfolding digits below
parse_u64 [] = none
parse_u64 (c ∷ s) = below (2 ^ 64) (if c == b'+' then digits s else digits (c ∷ s))

-- `parse::<i64>`: an optional sign and digits.
unfoldable pub parse_i64 : Text → Option ℤ
unfolding digits below neg_of
parse_i64 [] = none
parse_i64 (c ∷ s) =
    if c == b'-'
    then elim (below (2 ^ 63 + 1) (digits s)) [ none ↦ none | some n ↦ some (neg_of n) ]
    else elim (below (2 ^ 63) (if c == b'+' then digits s else digits (c ∷ s))) [
      | none ↦ none
      | some n ↦ some (pos n)
    ]
