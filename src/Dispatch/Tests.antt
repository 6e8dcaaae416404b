-- ===== src/Dispatch/Tests.antt =====
-- A request with a query parameter, a cookie and a body.
use hyperfastapi.Prelude.{
  ◌≡◌, refl, true, false, none, some, List, [], ◌∷◌, All, Memᴰ, some-ne-none,
}
use hyperfastapi.Prelude.Text.{Str, bytes, str_eq, starts_with, ends_with}
use hyperfastapi.Value.{Kwargs, int, str, set_item, get_item}
use hyperfastapi.Value.Dicts.{has}
use hyperfastapi.Route.{ParamSpec, Plan, nil, cons, spec}
use hyperfastapi.Prelude.Int.{pos, fits_i64}
use hyperfastapi.Params.Parse.{parse_i64}
use hyperfastapi.Params.Validate.{run_validators}
use hyperfastapi.Params.Extract.{
  Request, filled_elsewhere, extract_one_param, cast_param, raw_texts, lookup_key,
}
use hyperfastapi.Params.Cast.{cast_scalar}
use hyperfastapi.Body.{body_entries, settle, settle_raw}
use hyperfastapi.Body.Laws.Answers.{HasModel}
use hyperfastapi.Dispatch.Request.{Headers, header_lookup, content_type, has_json_body}
use hyperfastapi.Dispatch.Request.Laws.{values_of, extended, header_lookup_lem}
use hyperfastapi.Dispatch.Arguments.{arguments, bind_arguments}
use hyperfastapi.Dispatch.Arguments.Laws.{specs}
use hyperfastapi.Dispatch.Arguments.Typed.{IsDeclared, bind_arguments-Typed}
use hyperfastapi.Dispatch.Arguments.Required.{bind_arguments-required}
use hyperfastapi.Samples.{host, coercions, validation, reporting, no_validators, param, request}

abbrev tags : Headers
tags = (bytes "X-Tag", bytes "a") ∷ (bytes "x-tag", bytes "b") ∷ []

header_lookup_lem_example :
    get_item (bytes "x-tag") (header_lookup (some tags))
    ≡ extended none (values_of (bytes "x-tag") tags)
header_lookup_lem_example = header_lookup_lem tags (bytes "x-tag")

abbrev chunks : List Str
chunks = bytes "a=1" ∷ bytes " b=2" ∷ bytes "a=3" ∷ []

abbrev q_param : ParamSpec host
q_param = param (bytes "q") (bytes "query")

abbrev item_param : ParamSpec host
item_param = param (bytes "item") (bytes "body")

abbrev both : Plan host
both = cons (spec q_param nil) (cons (spec item_param nil) nil)

abbrev both_given : Kwargs host
both_given = (bytes "q", str (bytes "a")) ∷ (bytes "item", str (bytes "{}")) ∷ []

both_bound : bind_arguments coercions validation both (bytes "{}") request ≡ arguments both_given
unfolding bind_arguments extract_one_param raw_texts lookup_key cast_param cast_scalar bytes str_eq
    starts_with ends_with settle settle_raw set_item get_item content_type has_json_body
both_bound = refl

only_body : body_entries both ≡ item_param ∷ []
unfolding body_entries bytes str_eq
only_body = refl

body-HasModel : All HasModel (body_entries both)
body-HasModel = rw only_body (some-ne-none, tt)

q_listed : Memᴰ q_param (specs both)
unfolding specs
q_listed = Memᴰ.head refl

query_is_here : filled_elsewhere (bytes "query") ≡ false
unfolding bytes str_eq
query_is_here = refl

bind_arguments-required_example : has (bytes "q") both_given ≡ true
bind_arguments-required_example =
    bind_arguments-required coercions validation reporting both (bytes "{}") request both_given
      q_param (some (bytes "q")) body-HasModel both_bound q_listed refl query_is_here refl

-- An integer above 3 from the query, and a model from the body.
abbrev n_param : ParamSpec host
n_param = record (param (bytes "n") (bytes "query")) {
  type_kind = some (bytes "int");
  validators = some (record no_validators { gt = some 3 });
}

abbrev counted : Plan host
counted = cons (spec n_param nil) (cons (spec item_param nil) nil)

abbrev n_request : Request host
n_request = record request { query = (bytes "n", bytes "7" ∷ []) ∷ [] }

abbrev counted_given : Kwargs host
counted_given = (bytes "n", int (pos 7)) ∷ (bytes "item", str (bytes "{}")) ∷ []

counted_bound :
    bind_arguments coercions validation counted (bytes "{}") n_request ≡ arguments counted_given
unfolding bind_arguments extract_one_param raw_texts lookup_key cast_param cast_scalar bytes str_eq
    starts_with ends_with settle settle_raw set_item get_item content_type has_json_body parse_i64
    run_validators fits_i64
counted_bound = refl

bind_arguments-Typed_example :
    All (IsDeclared coercions validation (bytes "{}") n_request counted) counted_given
bind_arguments-Typed_example =
    bind_arguments-Typed coercions validation (bytes "{}") n_request counted counted_given
      counted_bound

item_listed : Memᴰ item_param (body_entries both)
item_listed = rw only_body (Memᴰ.head refl)
