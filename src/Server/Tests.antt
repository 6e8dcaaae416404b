-- ===== src/Server/Tests.antt =====
-- The snapshot of an application with a static route behind a parameterised one.
use hyperfastapi.Prelude.{
  ◌≡◌, ◌≢◌, refl, false, none, some, [], ◌∷◌, if◌then◌else◌, leb, ltb, ◌&&◌, true, is_empty,
  is_none,
}
use hyperfastapi.Prelude.Text.{
  Str, bytes, str_eq, split, split_once, starts_with, ends_with, contains, join,
}
use hyperfastapi.Path.{match_path_template, placeholder, is_catch_all}
use hyperfastapi.Route.{Route}
use hyperfastapi.App.{FastApi}
use hyperfastapi.Dispatch.Select.{select, matched}
use hyperfastapi.Dispatch.Select.Spec.{candidates}
use hyperfastapi.Server.{trivial_of, lookup_trivial, snapshot_trivial_routes}
use hyperfastapi.Server.Snapshot.{serves, last_serving, snapshot-lookup, snapshot-overtakes}
use hyperfastapi.Server.Default.{snapshot-is_fast}
use hyperfastapi.Prelude.Int.{pos, fits_i64}
use hyperfastapi.Value.{Value, int}
use hyperfastapi.Json.{encode, write_value, write_int}
use hyperfastapi.Dispatch.Fast.{
  is_fast, Response, response, json_headers, fast_path, is_no_content_status,
  serialize_value_to_json, status_of,
}
use hyperfastapi.Server.Status.{to_u16}
use hyperfastapi.Samples.{formats, runtime, host, route, get_item_route, app}

abbrev get : Str
get = bytes "GET"

abbrev me : Str
me = bytes "/items/me"

abbrev me_route : Route host
me_route = route get me

abbrev app_with_me : FastApi host
app_with_me = record app { routes = get_item_route ∷ me_route ∷ [] }

abbrev health_route : Route host
health_route = route get (bytes "/health")

abbrev app_with_health : FastApi host
app_with_health = record app { routes = get_item_route ∷ health_route ∷ [] }

runs : Unit {0}
unfolding match_path_template placeholder is_catch_all contains split split_once str_eq starts_with
    ends_with bytes join select candidates snapshot_trivial_routes lookup_trivial serves
    last_serving
runs = tt

snapshot-lookup_example :
    lookup_trivial (snapshot_trivial_routes app_with_me) get me
    ≡ (if is_empty app_with_me.dependencies then last_serving app_with_me.routes get me else none)
snapshot-lookup_example = snapshot-lookup app_with_me get me

get-ne-head : get ≢ bytes "HEAD"
unfolding bytes
get-ne-head e = cc

item_chosen :
    select (get_item_route ∷ []) get me ≡ matched get_item_route ((bytes "id", bytes "me") ∷ [])
unfolding runs
item_chosen = refl

no_brace : contains b'{' me ≡ false
unfolding runs
no_brace = refl

snapshot-overtakes_example :
    (select app_with_me.routes get me ≡ matched get_item_route ((bytes "id", bytes "me") ∷ []))
    × (lookup_trivial (snapshot_trivial_routes app_with_me) get me
        ≡ some (trivial_of me_route false))
snapshot-overtakes_example =
    snapshot-overtakes app_with_me (get_item_route ∷ []) me_route get_item_route
      ((bytes "id", bytes "me") ∷ []) refl refl no_brace refl get-ne-head item_chosen

health_alone : candidates app_with_health.routes get (bytes "/health") ≡ (health_route, []) ∷ []
unfolding runs
health_alone = refl

health_found :
    lookup_trivial (snapshot_trivial_routes app_with_health) get (bytes "/health")
    ≡ some (trivial_of health_route false)
unfolding runs
health_found = refl

abbrev seven : Value host
seven = int (pos 7)

abbrev seven_answer : Response
seven_answer = record { status = 200; headers = json_headers; body = bytes "7" }

abbrev gone_route : Route host
gone_route = record health_route { status_code = some (pos 204) }

answers : Unit {0}
unfolding fast_path is_no_content_status serialize_value_to_json encode write_value write_int bytes
    fits_i64 str_eq to_u16
answers = tt

seven_allows_content : is_no_content_status (status_of health_route) ≡ false
unfolding answers
seven_allows_content = refl

seven_in_range : (leb 100 (status_of health_route) && ltb (status_of health_route) 1000) ≡ true
unfolding answers
seven_in_range = refl

seven_answered : fast_path formats runtime health_route get ≡ response seven_answer
unfolding answers
seven_answered = refl

seven_not_empty : is_empty seven_answer.body ≡ false
unfolding answers
seven_not_empty = refl

gone_forbids_content : is_no_content_status (status_of gone_route) ≡ true
unfolding answers
gone_forbids_content = refl

seven_encoded : serialize_value_to_json formats runtime seven ≡ some (bytes "7")
unfolding answers
seven_encoded = refl

snapshot-is_fast_example :
    is_fast app_with_health health_route [] ≡ is_none app_with_health.default_response_class
snapshot-is_fast_example =
    snapshot-is_fast app_with_health get (bytes "/health") health_route []
      (trivial_of health_route false) get-ne-head health_alone health_found
