-- ===== src/Params/Interpolate/Tests.antt =====
-- Concrete parameters for crates/duckdb-engine/src/params.rs.
use local_etl_tool.Prelude.{◌≡◌, ◌↔◌, refl, true, false, none, some, List, [], ◌∷◌, ok, All}
use local_etl_tool.Prelude.Text.{Text, codes, trim, strip_prefix}
use local_etl_tool.Prelude.Sorted.{value_of}
use local_etl_tool.Metadata.{ParameterSpec}
use local_etl_tool.Params.{Calls, Resolver, SecretStore, ParamWarning, redacted, lookup}
use local_etl_tool.Params.Contract.{check_contract}
use local_etl_tool.Params.Contract.Sources.{Resolves}
use local_etl_tool.Params.Contract.Met.{IsMet, check_contract-IsMet}
use local_etl_tool.Params.Interpolate.{
  Given, Spot, Trace, no_trace, resolve_one, use_recorded, interpolate,
}
use local_etl_tool.Params.Interpolate.Exact.{
  Piece, literal, reference, written, expand, IsName, interpolate-written,
}
use local_etl_tool.Params.Redact.{mask_all}
use local_etl_tool.Params.Interpolate.Recorded.{use_recorded-redacted}

abbrev calls : Calls
calls = record { environment = λ key. none; to_string = λ value. []; parses_as_f64 = λ s. false }

abbrev vault : SecretStore
vault = record { secret_of = λ name. ok (some (codes "hunter2")); names = codes "db" ∷ [] }

abbrev resolver : Resolver
resolver = record {
  explicit = (codes "table", codes "${ENV:HOME}") ∷ [];
  contexts = [];
  active = none;
  workspace = codes "D:\\work";
  today = codes "2024-02-29";
  secrets = some vault;
  defer_built_ins = false;
}

abbrev given : Given
given = record { calls = calls; resolver = resolver; declared = [] }

abbrev spot : Spot
spot = record { node = codes "n1"; property = codes "path" }

abbrev pieces : List Piece
pieces =
    literal (codes "$1 ")
    ∷ reference (codes "table")
    ∷ literal (codes "/")
    ∷ reference (codes "date")
    ∷ []

pieces-written : written pieces ≡ codes "$$1 ${table}/${date}"
unfolding written
pieces-written = refl

-- The value of `table` is put in as it is.
pieces-interpolate :
    interpolate given spot (codes "$$1 ${table}/${date}") no_trace
    ≡ ok (
      codes "$1 ${ENV:HOME}/2024-02-29",
      record {
        used = (codes "date", codes "2024-02-29") ∷ (codes "table", codes "${ENV:HOME}") ∷ [];
        secrets = [];
      },
    )
unfolding interpolate
pieces-interpolate = refl

interpolate-written_example :
    interpolate given spot (written pieces) no_trace ≡ expand given spot pieces [] no_trace
unfolding IsName
interpolate-written_example =
    interpolate-written given spot pieces no_trace (tt, (refl, (tt, (refl, tt))))

abbrev told : Trace
told = record { used = []; secrets = codes "hunter2" ∷ [] }

use_recorded-redacted_example :
    value_of (use_recorded (codes " SECRET:db") (codes "hunter2") told).used (codes " SECRET:db")
    ≡ some redacted
unfolding strip_prefix trim resolve_one
use_recorded-redacted_example =
    use_recorded-redacted given spot (codes " SECRET:db") (codes "db") (codes "hunter2") no_trace
      told refl refl

abbrev since : ParameterSpec
since = record {
  param_type = some (codes "date");
  required = some true;
  default = none;
  description = none;
  extra = [];
}

check_contract-IsMet_example :
    (((w : List ParamWarning) × (check_contract calls ((codes "date", since) ∷ []) resolver ≡ ok w))
      ↔ All {A = Text × ParameterSpec}
          (λ p. IsMet calls (p.1) (lookup calls resolver (p.0) ((codes "date", since) ∷ [])))
          ((codes "date", since) ∷ []))
    × ((name : Text)
        → Resolves calls resolver
            ((codes "date", since) ∷ [])
            name
            (lookup calls resolver name ((codes "date", since) ∷ [])))
check_contract-IsMet_example = check_contract-IsMet calls ((codes "date", since) ∷ []) resolver

-- The shorter secret is masked first, and the end of the longer one is left.
prefix_of_a_secret :
    mask_all (codes "pass" ∷ codes "password" ∷ []) (codes "password") ≡ codes "********word"
unfolding mask_all
prefix_of_a_secret = refl
