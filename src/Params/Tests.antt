-- ===== src/Params/Tests.antt =====
-- The theorems on parameters and bodies at concrete arguments.
use hyperfastapi.Prelude.{◌≡◌, refl, ◌↔◌, true, some}
use hyperfastapi.Prelude.Int.{pos, negsuc, fits_i64}
use hyperfastapi.Prelude.Text.{bytes, str_eq}
use hyperfastapi.Value.{int}
use hyperfastapi.Route.{Validators}
use hyperfastapi.Params.Errors.{Checked, ValidationErrorEntry, generic, validator_source}
use hyperfastapi.Params.Parse.{parse_i64}
use hyperfastapi.Params.Parse.Laws.{Spells, parse_i64_iff}
use hyperfastapi.Params.Validate.{run_validators}
use hyperfastapi.Params.Validate.Laws.{Meets, run_validators_iff}
use hyperfastapi.Samples.{host, coercions, no_validators}

parse_i64_iff_example :
    (parse_i64 (bytes "-5") ≡ some (negsuc 4))
    ↔ (Spells (bytes "-5") (negsuc 4) × (fits_i64 (negsuc 4) ≡ true))
parse_i64_iff_example = parse_i64_iff (bytes "-5") (negsuc 4)

abbrev above_3 : Validators host
above_3 = record no_validators { gt = some 3 }

run_validators_iff_example :
    (run_validators coercions (int (pos 7)) above_3 (bytes "query") (bytes "n") (bytes "7")
      ≡ Checked.ok tt)
    ↔ Meets coercions (int (pos 7)) above_3
run_validators_iff_example =
    run_validators_iff coercions (int (pos 7)) above_3 (bytes "query") (bytes "n") (bytes "7")

abbrev too_small : ValidationErrorEntry
too_small =
    generic (bytes "query") (bytes "n") (bytes "2") (bytes "greater_than")
      (bytes "Input should be greater than the configured threshold")

refused_at_query :
    run_validators coercions (int (pos 2)) above_3 (bytes "body") (bytes "n") (bytes "2")
    ≡ Checked.err too_small
unfolding run_validators bytes validator_source str_eq
refused_at_query = refl
