-- ===== src/Prelude/Text.antt =====
-- Text as the list of its Unicode code points, and what the program uses of Rust's `str`.
use Prim.Native.Nat.{ℕ, ◌+◌}
use Prim.Native.Char.{code}
use Prim.Native.String.{String}
use mathlib.Core.Path.{◌≡◌, sym, ap, ◌∙◌}
use mathlib.Core.Logic.{◌↔◌, inl, inr}
use mathlib.Core.Bool.{Bool, true, false, ◌&&◌, ◌||◌}
use mathlib.Core.Option.{Option, none, some}
use mathlib.Core.List.{List, [], ◌∷◌, ◌++◌, reverse, reverse-append, reverse-reverse}
use native.Mathlib.Omega.{arith}
use local_etl_tool.Prelude.Tests.{Bool-cases, leb, ◌==◌, if◌then◌else◌}

abbrev pub Text : Type 0
Text = List ℕ

abbrev pub codes : String → Text
codes String.[] = []
codes (String.◌∷◌ c s) = code c ∷ codes s

-- `==` of two strings.
unfoldable pub text_eq : Text → Text → Bool
text_eq [] [] = true
text_eq [] (d ∷ t) = false
text_eq (c ∷ s) [] = false
text_eq (c ∷ s) (d ∷ t) = c == d && text_eq s t

pub text_eq_iff : (s t : Text) → (text_eq s t ≡ true) ↔ (s ≡ t)
unfolding text_eq
text_eq_iff [] [] = ground arith
text_eq_iff [] (d ∷ t) = ground arith
text_eq_iff (c ∷ s) [] = ground arith
text_eq_iff (c ∷ s) (d ∷ t) = ground (arith, text_eq_iff s t)

pub text_eq_swap : (s t : Text) → text_eq s t ≡ false → text_eq t s ≡ false
text_eq_swap s t h = elim (Bool-cases (text_eq t s)) [
  | inl e ↦
      let same : s ≡ t = sym ((text_eq_iff t s).0 e) in let yes = (text_eq_iff s t).1 same in cc
  | inr e ↦ e
]

-- `char::is_whitespace`: the code points with the White_Space property.
unfoldable pub is_whitespace : ℕ → Bool
is_whitespace c =
    (leb 9 c && leb c 13)
    || c == 32
    || c == 0x85
    || c == 0xA0
    || c == 0x1680
    || (leb 0x2000 c && leb c 0x200A)
    || c == 0x2028
    || c == 0x2029
    || c == 0x202F
    || c == 0x205F
    || c == 0x3000

-- `trim`, from the left, and from both ends.
pub trim_start : Text → Text
trim_start [] = []
trim_start (c ∷ s) = if is_whitespace c then trim_start s else c ∷ s

unfoldable pub trim : Text → Text
unfolding trim_start is_whitespace
trim s = reverse (trim_start (reverse (trim_start s)))

unfoldable pub is_ascii_digit : ℕ → Bool
is_ascii_digit c = leb b'0' c && leb c b'9'

unfoldable pub to_ascii_lowercase : ℕ → ℕ
to_ascii_lowercase c = if leb b'A' c && leb c b'Z' then c + 32 else c

-- `strip_prefix`.
unfoldable pub strip_prefix : Text → Text → Option Text
strip_prefix [] s = some s
strip_prefix (p ∷ ps) [] = none
strip_prefix (p ∷ ps) (c ∷ s) = if p == c then strip_prefix ps s else none

trim_start_id : (c : ℕ) (s : Text) → is_whitespace c ≡ false → trim_start (c ∷ s) ≡ c ∷ s
unfolding trim_start
trim_start_id c s h = rw h

-- A text that neither begins nor ends with white space is left alone.
pub trim_id :
    (c u : ℕ) (s t : Text)
    → c ∷ s ≡ t ++ u ∷ []
    → is_whitespace c ≡ false
    → is_whitespace u ≡ false
    → trim (c ∷ s) ≡ c ∷ s
trim_id c u s t e hc hu =
    unfold trim in
    ap (λ x. reverse (trim_start (reverse x))) (trim_start_id c s hc)
    ∙ ap (λ x. reverse (trim_start (reverse x))) e
    ∙ ap (λ x. reverse (trim_start x)) (reverse-append t (u ∷ []))
    ∙ ap reverse (trim_start_id u (reverse t) hu)
    ∙ reverse-append (u ∷ []) (reverse t)
    ∙ ap (λ x. x ++ u ∷ []) (reverse-reverse t)
    ∙ sym e
