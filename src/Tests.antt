-- ===== src/Tests.antt =====
-- The theorems at concrete arguments, and a few runs of the code.
use hyperfastapi.Prelude.{◌≡◌, ◌≢◌, refl, ◌↔◌, ◌⊎◌, true, none, some, [], ◌∷◌, ◌++◌, map, All}
use hyperfastapi.Prelude.Int.{pos}
use hyperfastapi.Prelude.Text.{
  Str, bytes, str_eq, split, join, split_once, starts_with, ends_with, contains, trim_end_matches,
}
use hyperfastapi.Value.{Value, int, bool, list, dict, other, items, entries}
use hyperfastapi.Path.{match_path_template, placeholder, is_catch_all, Params}
use hyperfastapi.Json.{write_str, encode}
use hyperfastapi.Json.Literal.{read_literal, read_literal-write_str}
use hyperfastapi.Json.Render.{render, encode-render}
use hyperfastapi.Route.{Route}
use hyperfastapi.Route.Decorator.{RouteDecorator, RegisterError, err, call}
use hyperfastapi.App.Methods as AppM
use hyperfastapi.Router.{ApiRouter, include_router, nest_router}
use hyperfastapi.Router.Nesting.{guarded, through, include_router-nest_router}
use hyperfastapi.Registration.Refusals.{Bodiless, NotNone, call-rejects_iff}
use hyperfastapi.Dispatch.Select.{select, matched, redirect, not_found, other_slash}
use hyperfastapi.Dispatch.Select.Spec.{candidates, choice}
use hyperfastapi.Dispatch.Select.Laws.{select-choice, select-redirect}
use hyperfastapi.Dispatch.Select.Refusals.{select-not_found_iff}
use hyperfastapi.Samples.{host, formats, reflection, method_kwargs, get_item_route, app, router}

abbrev get : Str
get = bytes "GET"

abbrev item_42 : Str
item_42 = bytes "/items/42"

runs : Unit {0}
unfolding match_path_template placeholder is_catch_all contains split split_once str_eq starts_with
    ends_with bytes join trim_end_matches select other_slash candidates
runs = tt

select-choice_example : select app.routes get item_42 ≡ choice app.routes get item_42
select-choice_example = select-choice app.routes get item_42

item_selected :
    select app.routes get item_42 ≡ matched get_item_route ((bytes "id", bytes "42") ∷ [])
unfolding runs
item_selected = refl

slash_redirected : select app.routes get (bytes "/items/42/") ≡ redirect item_42
unfolding runs
slash_redirected = refl

select-redirect_example :
    (item_42 ≡ other_slash (bytes "/items/42/"))
    × ((r : Route host) × (vs : Params) × (select app.routes get item_42 ≡ matched r vs))
select-redirect_example =
    select-redirect app.routes get (bytes "/items/42/") item_42 slash_redirected

select-not_found_iff_example : (select app.routes get (bytes "/missing") ≡ not_found) ↔ (
    All (λ r. match_path_template r.path (bytes "/missing") ≡ none) app.routes
    × ((bytes "/missing" ≡ b'/' ∷ [])
        ⊎ All
            (λ r.
              r.method ≡ get → match_path_template r.path (other_slash (bytes "/missing")) ≡ none)
            app.routes))
select-not_found_iff_example = select-not_found_iff app.routes get (bytes "/missing")

get-ne-head : get ≢ bytes "HEAD"
unfolding bytes
get-ne-head e = cc

no_candidates : candidates app.routes get (bytes "/health") ≡ []
unfolding runs
no_candidates = refl

health_matches : match_path_template (bytes "/health") (bytes "/health") ≡ some []
unfolding runs
health_matches = refl

abbrev quoted : Str
quoted = bytes "a\"b"

read_literal-write_str_example :
    read_literal (write_str quoted [] ++ bytes ",1]") ≡ some (quoted, bytes ",1]")
read_literal-write_str_example = read_literal-write_str quoted (bytes ",1]")

abbrev document : Value host
document = dict (entries ((bytes "a", list (items (int (pos 7) ∷ bool true ∷ []))) ∷ []))

encode-render_example : encode formats document ≡ render formats document
encode-render_example = encode-render formats document

include_router-nest_router_example :
    map guarded
      (include_router app
        (nest_router router router (bytes "/v1") none)
        (bytes "/api")
        none
        true
        none).routes
    ≡ map guarded (include_router app router (bytes "/api") none true none).routes
      ++ map (through router router (bytes "/api") (bytes "/v1") none none true) router.routes
include_router-nest_router_example =
    include_router-nest_router router router (bytes "/api") (bytes "/v1") none none app true none

abbrev with_class : ApiRouter host
with_class = record router { default_response_class = some (other 3) }

abbrev no_content : RouteDecorator host
no_content = AppM.get app (bytes "/x") (method_kwargs (some (pos 204)))

call-rejects_iff_example :
    (call reflection no_content (other 5) app.routes
      ≡ err (RegisterError.non_none_annotation (pos 204)))
    ↔ ((no_content.status_code ≡ some (pos 204))
        × Bodiless (pos 204)
        × ((ann : Value host) × (reflection.return_hint (other 5) ≡ some ann)
            × NotNone reflection ann))
call-rejects_iff_example = call-rejects_iff reflection no_content (other 5) app.routes (pos 204)
