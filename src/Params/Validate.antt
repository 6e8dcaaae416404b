-- ===== src/Params/Validate.antt =====
-- crates/fr-pyiface/src/app.rs: `run_validators`, and what it establishes.
pub mod Laws
use hyperfastapi.Prelude.{
  ℕ, ◌≡◌, refl, ◌↔◌, Bool, true, false, not, Option, none, some, List, [], ◌∷◌, arith, ltb, leb,
  if◌then◌else◌,
}
use hyperfastapi.Prelude.Text.{Str, bytes, chars_count}
use hyperfastapi.Value.{Host, Value}
use hyperfastapi.Route.{Validators}
use hyperfastapi.Route.Decorator.{as_text}
use hyperfastapi.Params.Errors.{
  ValidationErrorEntry, validator_source, generic, Checked, ok, err, ◌>>=◌, ◌>>◌,
}
use hyperfastapi.Params.Cast.{Coercions}

-- A constraint that is set, on a value of the kind that it speaks of, must pass its test.
unfoldable pub require {ℓ κ} :
    {A : Type ℓ} {B : Type κ}
    → Option A
    → Option B
    → (A → B → Bool)
    → ValidationErrorEntry
    → Checked (Unit {0})
require (some bound) (some v) test e = if test bound v then ok tt else err e
require none _ test e = ok tt
require (some bound) none test e = ok tt

-- `fullmatch` decides only where it returns.
abbrev pub matches : Option Bool → Bool
matches none = true
matches (some b) = b

module _ {h : Host} (py : Coercions h) where
  open py use {lt_f64, le_f64, to_f64, fullmatch}

  unfoldable pub run_validators : Value h → Validators h → Str → Str → Str → Checked (Unit {0})
  unfolding require bytes
  run_validators value v source name raw =
      let fail : Str → Str → ValidationErrorEntry =
        λ err_type msg. generic (validator_source source) name raw err_type msg in
      let n = to_f64 value in
      let s = as_text value in
      require v.gt n (λ gt x. lt_f64 gt x)
        (fail (bytes "greater_than")
          (bytes "Input should be greater than the configured threshold"))
      >> require v.ge n (λ ge x. le_f64 ge x)
          (fail (bytes "greater_than_equal")
            (bytes "Input should be greater than or equal to the configured threshold"))
      >> require v.lt n (λ lt x. lt_f64 x lt)
          (fail (bytes "less_than") (bytes "Input should be less than the configured threshold"))
      >> require v.le n (λ le x. le_f64 x le)
          (fail (bytes "less_than_equal")
            (bytes "Input should be less than or equal to the configured threshold"))
      >> require v.min_length s (λ min_len t. not (ltb (chars_count t) min_len))
          (fail (bytes "string_too_short")
            (bytes "Input should have at least the configured minimum length"))
      >> require v.max_length s (λ max_len t. not (ltb max_len (chars_count t)))
          (fail (bytes "string_too_long")
            (bytes "Input should have at most the configured maximum length"))
      >> require v.pattern s (λ pattern t. matches (fullmatch pattern t))
          (fail (bytes "string_pattern_mismatch")
            (bytes "String should match the configured pattern"))
