-- ===== src/Dispatch/Whole/Tests.antt =====
-- A search with a required query parameter, in an application with a dependency.
use hyperfastapi.Prelude.{◌≡◌, ◌≢◌, refl, true, false, none, some, List, [], ◌∷◌}
use hyperfastapi.Prelude.Text.{
  Str, bytes, contains, ends_with, split, split_once, starts_with, str_eq,
}
use hyperfastapi.Value.{Kwargs, str, other}
use hyperfastapi.Dispatch.Docs.{auto_served}
use hyperfastapi.Dispatch.Select.{select, matched}
use hyperfastapi.Path.{is_catch_all, match_path_template, placeholder}
use hyperfastapi.Route.{Route, nil, cons, spec}
use hyperfastapi.App.{FastApi, plain_route}
use hyperfastapi.Dispatch.Handle.{Event, resolving, calling, draining}
use hyperfastapi.Dispatch.Arguments.{Incoming}
use hyperfastapi.Dispatch.Whole.{Background, reset, dispatch, dispatch_native_bg}
use hyperfastapi.Dispatch.Whole.Reset.{dispatch_native-reset}
use hyperfastapi.App.Hooks.{middleware}
use hyperfastapi.App.Evolution.{Reach, here, next, routed, hooked_middleware, Reach-dispatch}
use hyperfastapi.Router.{include_router}
use hyperfastapi.Samples.{get_item_route, reflection, router, host, app, param, platform}

abbrev get : Str
get = bytes "GET"

abbrev search : Str
search = bytes "/search"

abbrev search_route : Route host
search_route =
    plain_route get search (other 5) (cons (spec (param (bytes "q") (bytes "query")) nil) nil) none
      false

abbrev search_app : FastApi host
search_app = record app { routes = search_route ∷ []; dependencies = other 9 ∷ [] }

abbrev searching : Incoming
searching = record { query_string = some (bytes "q=a"); headers = none; body = none }

abbrev q_given : Kwargs host
q_given = (bytes "q", str (bytes "a")) ∷ []

abbrev trace : List (Event host)
trace = resolving search_route.param_plan ∷ calling (other 5) q_given ∷ draining none ∷ []

no_search_page :
    auto_served platform.formats platform.runtime platform.to_lowercase search_app get search ≡ none
unfolding auto_served
no_search_page = refl

search_selected : select search_app.routes get search ≡ matched search_route []
unfolding select match_path_template contains bytes str_eq
search_selected = refl

-- Further routes, and a middleware that is dropped.
abbrev search_grown : FastApi host
search_grown =
    (middleware (include_router search_app router (bytes "/api") none true none) (bytes "http")).0

search_reach : Reach reflection search_app search_grown
search_reach =
    next (next here (routed router (bytes "/api") none true none))
      (hooked_middleware (bytes "http"))

get-ne-head : get ≢ bytes "HEAD"
unfolding bytes
get-ne-head e = cc

Reach-dispatch_example :
    dispatch platform search_grown get search searching
    ≡ dispatch platform search_app get search searching
Reach-dispatch_example =
    Reach-dispatch platform reflection search_app search_grown get search searching search_route []
      search_reach get-ne-head no_search_page search_selected

-- What an earlier request has left behind.
abbrev left_behind : Background host
left_behind = record {
  current_tasks = none;
  current_request = some (other 8);
  current_raw_response = none;
  current_yield_gens = [];
}

dispatch_native-reset_example : dispatch_native_bg search_app get search left_behind ≡ reset
dispatch_native-reset_example =
    dispatch_native-reset search_app get search search_route [] left_behind get-ne-head
      search_selected refl

-- A route with a parameter before a static one that has none: the first is selected, and the state
-- is kept for it.
abbrev me : Str
me = bytes "/items/me"

abbrev overtaken_app : FastApi host
overtaken_app = record app {
  routes = get_item_route ∷ plain_route get me (other 5) nil none false ∷ [];
}

overtaken_selected :
    select overtaken_app.routes get me ≡ matched get_item_route ((bytes "id", bytes "me") ∷ [])
unfolding select match_path_template contains bytes str_eq split placeholder starts_with ends_with
    is_catch_all split_once
overtaken_selected = refl

overtaken_kept : dispatch_native_bg overtaken_app get me left_behind ≡ left_behind
unfolding dispatch_native_bg bytes str_eq
overtaken_kept = refl
