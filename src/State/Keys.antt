-- ===== src/State/Keys.antt =====
-- crates/state/src/lib.rs: the keys that name the files of a workspace's state.
use local_etl_tool.Prelude.{
  ℕ, Bool, true, false, ◌&&◌, ◌||◌, ◌≡◌, refl, inl, inr, Option, none, some, [], ◌∷◌, map, Result,
  ok, err, leb, ◌==◌, if◌then◌else◌, any, all, arith, Bool-cases,
}
use local_etl_tool.Prelude.Text.{Text, codes, trim}

-- What `check_key` answers; the other errors of the store wrap what the file system says.
pub data KeyError : Type 0 where
  bad_key : (key reason : Text) → KeyError

-- The characters that a file name keeps.
unfoldable pub is_kept : ℕ → Bool
is_kept c =
    (leb b'a' c && leb c b'z')
    || (leb b'A' c && leb c b'Z')
    || (leb b'0' c && leb c b'9')
    || c == b'-'
    || c == b'_'
    || c == b'.'

abbrev pub clean : ℕ → ℕ
clean c = if is_kept c then c else b'_'

abbrev pub is_dot : ℕ → Bool
is_dot c = c == b'.'

unfoldable pub sanitise : Text → Text
sanitise key =
    let cleaned = map clean key in if all is_dot cleaned then codes "pipeline" else cleaned

unfoldable pub has_no_character : Text → Bool
has_no_character [] = true
has_no_character (c ∷ s) = false

-- A name that says something, without the spaces around it.
unfoldable pub from_name : Option Text → Option Text
unfolding trim has_no_character
from_name none = none
from_name (some name) = if has_no_character (trim name) then none else some (trim name)

-- The key of a pipeline; `stem` is the stem of its file's name, where it has one that is a text.
unfoldable pub key_for : Option Text → Option Text → Text
unfolding from_name sanitise
key_for name stem = sanitise (elim (from_name name) [
  | some said ↦ said
  | none ↦ elim stem [ some word ↦ word | none ↦ codes "pipeline" ]
])

abbrev pub is_separator : ℕ → Bool
is_separator c = c == b'/' || c == 92

unfoldable pub check_key : Text → Result KeyError (Unit {0})
unfolding has_no_character
check_key key =
    if has_no_character key
    then err (bad_key key (codes "it is empty"))
    else if any is_separator key
    then err (bad_key key (codes "it contains a path separator"))
    else if all is_dot key
    then err (bad_key key (codes "it names a directory rather than a file"))
    else ok tt

clean-is_separator : (c : ℕ) → is_separator (clean c) ≡ false
unfolding is_kept
clean-is_separator c = ground arith

no_separator : (key : Text) → any is_separator (map clean key) ≡ false
no_separator [] = refl
no_separator (c ∷ s) = rw (clean-is_separator c) (no_separator s)

not_dots : (s : Text) → all is_dot s ≡ false → has_no_character s ≡ false
unfolding has_no_character
not_dots [] h = absurd (ground arith)
not_dots (c ∷ s) h = refl

-- Whatever the text, `check_key` accepts the key that `sanitise` makes of it.
pub check_key-sanitise : (key : Text) → check_key (sanitise key) ≡ ok tt
check_key-sanitise key = elim (Bool-cases (all is_dot (map clean key))) [
  | inl dots ↦ unfold sanitise in rw dots (unfold check_key in refl)
  | inr other ↦
      let parted = no_separator key in
      let some_ = not_dots (map clean key) other in
      unfold sanitise in rw other (unfold check_key in rw (some_, parted, other) refl)
]

-- `check_key` accepts the key of every pipeline.
pub check_key-key_for : (name stem : Option Text) → check_key (key_for name stem) ≡ ok tt
unfolding key_for
check_key-key_for name stem = check_key-sanitise _
