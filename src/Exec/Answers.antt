-- ===== src/Exec/Answers.antt =====
-- What crates/duckdb-engine/src/exec.rs reads out of the values that DuckDB printed.
use local_etl_tool.Prelude.{ℕ, true, false, Option, none, some, List, [], ◌∷◌, if◌then◌else◌, all}
use local_etl_tool.Prelude.Text.{Text, codes, text_eq, is_ascii_digit}
use local_etl_tool.Prelude.Split.{parse_u64}
use local_etl_tool.Metadata.{JsonValue, Items, Fields}

-- `as_u64`: a number that is printed as digits alone is an unsigned integer.
unfoldable pub as_u64 : JsonValue → Option ℕ
unfolding parse_u64 is_ascii_digit
as_u64 (JsonValue.number printed) = if all is_ascii_digit printed then parse_u64 printed else none
as_u64 JsonValue.null = none
as_u64 (JsonValue.boolean b) = none
as_u64 (JsonValue.string s) = none
as_u64 (JsonValue.array items) = none
as_u64 (JsonValue.object members) = none

unfoldable pub field_of : Text → Fields → Option JsonValue
unfolding text_eq
field_of name Fields.no_fields = none
field_of name (Fields.field key value rest) =
    if text_eq key name then some value else field_of name rest

-- `get` of a name: none where the value is no object.
unfoldable pub get : Text → JsonValue → Option JsonValue
unfolding field_of
get name (JsonValue.object members) = field_of name members
get name JsonValue.null = none
get name (JsonValue.boolean b) = none
get name (JsonValue.number n) = none
get name (JsonValue.string s) = none
get name (JsonValue.array items) = none

-- `as_array` and `first`.
unfoldable pub first_row : JsonValue → Option JsonValue
first_row (JsonValue.array Items.no_items) = none
first_row (JsonValue.array (Items.item value rest)) = some value
first_row JsonValue.null = none
first_row (JsonValue.boolean b) = none
first_row (JsonValue.number n) = none
first_row (JsonValue.string s) = none
first_row (JsonValue.object members) = none

infixl 5 ◌>>=◌
abbrev pub ◌>>=◌ {ℓ κ} : {A : Type ℓ} {B : Type κ} → Option A → (A → Option B) → Option B
none >>= k = none
some a >>= k = k a

-- `as_object` and the first of its `values`.
unfoldable pub first_value : JsonValue → Option JsonValue
first_value (JsonValue.object Fields.no_fields) = none
first_value (JsonValue.object (Fields.field key value rest)) = some value
first_value JsonValue.null = none
first_value (JsonValue.boolean b) = none
first_value (JsonValue.number n) = none
first_value (JsonValue.string s) = none
first_value (JsonValue.array items) = none

-- Booleans count as 1 and 0.
unfoldable pub number_in : JsonValue → Option ℕ
unfolding as_u64
number_in (JsonValue.boolean true) = some 1
number_in (JsonValue.boolean false) = some 0
number_in JsonValue.null = none
number_in (JsonValue.number n) = as_u64 (JsonValue.number n)
number_in (JsonValue.string s) = none
number_in (JsonValue.array items) = none
number_in (JsonValue.object members) = none

unfoldable pub first_number : JsonValue → Option ℕ
unfolding first_row first_value number_in
first_number value = do row ← first_row value; first ← first_value row; number_in first

unfoldable pub count_in : JsonValue → Option ℕ
unfolding first_row get as_u64
count_in value = do row ← first_row value; n ← get (codes "n") row; as_u64 n

unfoldable pub first_of : List JsonValue → Option JsonValue
first_of [] = none
first_of (value ∷ rest) = some value
