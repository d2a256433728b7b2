-- ===== src/Params/Redact.antt =====
-- What crates/duckdb-engine/src/params.rs shows of a resolution: errors with their suggestions, and the mask over the
-- secrets.
use local_etl_tool.Prelude.{
  ℕ, zero, suc, Bool, true, false, none, some, List, [], ◌∷◌, ◌++◌, if◌then◌else◌, length,
}
use local_etl_tool.Prelude.Text.{Text, codes, strip_prefix}
use local_etl_tool.Params.{redacted}
use local_etl_tool.Params.Contract.{is_empty}
use local_etl_tool.Params.Interpolate.{Resolved}

-- `join(", ")`.
unfoldable pub joined_by_comma : List Text → Text
joined_by_comma [] = []
joined_by_comma (s ∷ []) = s
joined_by_comma (s ∷ t ∷ ss) = s ++ codes ", " ++ joined_by_comma (t ∷ ss)

unfoldable pub suggestion : List Text → Text
unfolding joined_by_comma
suggestion [] = []
suggestion (s ∷ ss) = codes ". Known: " ++ joined_by_comma (s ∷ ss)

-- `replace`, of a text that is not empty, from the left; on fuel the length of the text.
unfoldable pub replace_from : ℕ → Text → Text → Text → Text
unfolding strip_prefix
replace_from zero from to s = s
replace_from (suc fuel) from to [] = []
replace_from (suc fuel) from to (c ∷ s) = elim (strip_prefix from (c ∷ s)) [
  | some rest ↦ to ++ replace_from fuel from to rest
  | none ↦ c ∷ replace_from fuel from to s
]

unfoldable pub mask : Text → Text → Text
unfolding is_empty replace_from
mask secret text = if is_empty secret then text else replace_from (length text) secret redacted text

-- The loop over the secrets, in their order.
unfoldable pub mask_all : List Text → Text → Text
unfolding mask
mask_all [] text = text
mask_all (secret ∷ secrets) text = mask_all secrets (mask secret text)

unfoldable pub redact : Resolved → Text → Text
unfolding mask_all
redact r text = mask_all r.secrets text

unfoldable pub uses_secrets : Resolved → Bool
uses_secrets r = elim r.secrets [ [] ↦ false | _ ∷ _ ↦ true ]

unfoldable pub secret_values : Resolved → List Text
secret_values r = r.secrets
