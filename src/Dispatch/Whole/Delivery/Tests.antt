-- ===== src/Dispatch/Whole/Delivery/Tests.antt =====
-- A path with an integer and a text in it, behind another route of the same method.
use hyperfastapi.Path.{is_catch_all, match_path_template, placeholder}
use hyperfastapi.Prelude.{◌≡◌, refl, false, none, some, [], ◌∷◌, map}
use hyperfastapi.Prelude.Int.{pos, negsuc, fits_i64, show_int}
use hyperfastapi.Prelude.Text.{
  Str, bytes, contains, ends_with, join, split, split_once, starts_with, str_eq,
}
use hyperfastapi.Value.{int, other}
use hyperfastapi.Path.Spec.{fill, names}
use hyperfastapi.Path.Filling.{IsPlain}
use hyperfastapi.Route.{Route, ParamSpec, nil, cons, spec}
use hyperfastapi.App.{FastApi, plain_route}
use hyperfastapi.Dispatch.Select.Spec.{candidates}
use hyperfastapi.Dispatch.Handle.{calling, draining, needs_deps}
use hyperfastapi.Dispatch.Docs.{auto_served}
use hyperfastapi.Dispatch.Arguments.{Incoming, query_dict}
use hyperfastapi.Dispatch.Arguments.Placeholders.{
  PathValues, whole, text, AllWritable, AreDistinct, Declares, Declared, as_kwargs,
}
use hyperfastapi.Dispatch.Respond.{respond, effective_class}
use hyperfastapi.Dispatch.Whole.{dispatch}
use hyperfastapi.Dispatch.Whole.Delivery.{filled, is_head, dispatch-delivered}
use hyperfastapi.Samples.{host, app, param, platform, route}

abbrev pub get : Str
get = bytes "GET"

abbrev pub typed : Str → Str → ParamSpec host
typed name type_kind = record (param name (bytes "path")) { type_kind = some type_kind }

abbrev pub tag_route : Route host
tag_route =
    plain_route get (bytes "/items/{id}/tags/{tag}") (other 5)
      (cons (spec (typed (bytes "id") (bytes "int")) nil)
        (cons (spec (typed (bytes "tag") (bytes "str")) nil) nil))
      none false

abbrev pub items_route : Route host
items_route = route get (bytes "/items")

abbrev pub tag_app : FastApi host
tag_app = record app { routes = items_route ∷ tag_route ∷ [] }

abbrev bare : Incoming
bare = record { query_string = none; headers = none; body = none }

-- -42 and "new"
abbrev pub values : PathValues
values = (bytes "id", whole (negsuc 41)) ∷ (bytes "tag", text (bytes "new")) ∷ []

tag_path : filled tag_route values ≡ bytes "/items/-42/tags/new"
unfolding bytes join fill split placeholder starts_with ends_with is_catch_all split_once show_int
tag_path = refl

pub no_earlier : candidates (items_route ∷ []) get (filled tag_route values) ≡ []
unfolding candidates str_eq bytes match_path_template contains join fill split placeholder
    starts_with ends_with
no_earlier = refl

pub no_page :
    auto_served platform.formats platform.runtime platform.to_lowercase tag_app get
      (filled tag_route values)
    ≡ none
unfolding auto_served
no_page = refl

pub tag_names : map (λ v. v.0) values ≡ names (split b'/' tag_route.path)
unfolding names split bytes placeholder starts_with ends_with split_once is_catch_all
tag_names = refl

pub tag-IsPlain : IsPlain (split b'/' tag_route.path)
unfolding split bytes placeholder starts_with ends_with is_catch_all split_once
tag-IsPlain = (refl, (refl, (refl, (refl, (refl, tt)))))

pub tag-Declared : Declared tag_route.param_plan values
tag-Declared =
    let id : Declares (typed (bytes "id") (bytes "int")) (bytes "id", whole (negsuc 41)) = record {
      named = refl;
      sourced = refl;
      kinded = refl;
      unconstrained = refl;
    } in
    let tag : Declares (typed (bytes "tag") (bytes "str")) (bytes "tag", text (bytes "new")) =
      record { named = refl; sourced = refl; kinded = refl; unconstrained = refl } in
    (id, (tag, tt))

pub tag-AllWritable : AllWritable values
unfolding fits_i64 contains bytes
tag-AllWritable = (refl, (refl, tt))

pub tag-AreDistinct : AreDistinct values
unfolding str_eq bytes
tag-AreDistinct = ((refl, tt), (tt, tt))

pub tag_alone : needs_deps tag_app tag_route ≡ false
unfolding needs_deps str_eq bytes
tag_alone = refl

tag_parsed : query_dict platform.parsers bare.query_string ≡ some []
unfolding query_dict
tag_parsed = refl

dispatch-delivered_example :
    dispatch platform tag_app tag_route.method (filled tag_route values) bare ≡ record {
      events = calling (other 5) (as_kwargs values) ∷ draining none ∷ [];
      answer =
          respond platform.formats platform.runtime platform.rendering tag_route
            (effective_class tag_app tag_route)
            (is_head tag_route)
            (int (pos 7));
    }
dispatch-delivered_example =
    dispatch-delivered platform tag_app tag_route values bare (items_route ∷ []) [] [] (int (pos 7))
      refl no_earlier no_page tag_names refl tag-IsPlain tag-Declared tag-AllWritable
      tag-AreDistinct tag_alone tag_parsed refl
