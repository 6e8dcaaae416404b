-- ===== src/Server/Native/Tests.antt =====
-- GET /health in an application with that one route, over TCP and over HTTP/3.
use hyperfastapi.Prelude.Text.Trim.{trim}
use hyperfastapi.Json.{encode, write_value}
use hyperfastapi.Server.Status.{to_u16}
use hyperfastapi.Path.{match_path_template}
use hyperfastapi.Prelude.{◌≡◌, ◌≢◌, refl, true, false, none, some, [], ◌∷◌, ◌&&◌, leb, ltb}
use hyperfastapi.Prelude.Text.{
  Str, bytes, contains, split, str_eq, to_ascii_lowercase, to_ascii_uppercase,
}
use hyperfastapi.Value.{get_item, int, other}
use hyperfastapi.Prelude.Int.{fits_i64, pos}
use hyperfastapi.Route.{Route}
use hyperfastapi.App.{FastApi}
use hyperfastapi.Dispatch.Select.Spec.{candidates}
use hyperfastapi.Dispatch.Fast.{
  Response, response, streamed, json_headers, is_no_content_status, status_of,
}
use hyperfastapi.Dispatch.Docs.{auto_served}
use hyperfastapi.Dispatch.Whole.{Platform, dispatch}
use hyperfastapi.Server.{trivial_of, lookup_trivial, snapshot_trivial_routes}
use hyperfastapi.Server.Native.{
  HttpRequest, Library, all_headers, dispatched, handle_http3, handle_request, handshaking, head,
  incoming_of, python_dispatch,
}
use hyperfastapi.Server.Native.Upgrades.{Upgraded, handle_request-Upgraded}
use hyperfastapi.Server.Native.Laws.{handle_request-http3, handle_request-dispatch}
use hyperfastapi.Websocket.{is_websocket_upgrade}
use hyperfastapi.Samples.{host, app, platform, runtime, route}

abbrev pub library : Library
library = record {
  to_str = λ v. some v;
  is_header = λ kv. true;
  sha1 = λ s. s;
  base64 = λ s. s;
  debug_error = λ req. bytes "\"KeyError\"";
}

abbrev pub get : Str
get = bytes "GET"

abbrev pub health : Str
health = bytes "/health"

abbrev pub health_route : Route host
health_route = route get health

abbrev pub health_app : FastApi host
health_app = record app { routes = health_route ∷ [] }

abbrev pub health_request : HttpRequest
health_request = record { method = get; path = health; query = none; headers = []; body = some [] }

abbrev seven : Response
seven = record { status = 200; headers = json_headers; body = bytes "7" }

-- A platform on which every value is a streaming response.
abbrev streaming : Platform host
streaming = record platform {
  runtime = record runtime { is_response = λ v. true; is_streamed = λ v. true };
}

no_upgrade :
    is_websocket_upgrade
      (handshaking library platform health_app)
      (head library platform health_request)
    ≡ false
unfolding is_websocket_upgrade str_eq bytes get_item
no_upgrade = refl

no_upgrade_streaming :
    is_websocket_upgrade
      (handshaking library streaming health_app)
      (head library streaming health_request)
    ≡ false
unfolding is_websocket_upgrade str_eq bytes get_item
no_upgrade_streaming = refl

upper : to_ascii_uppercase get ≡ get
unfolding to_ascii_uppercase bytes
upper = refl

health_dispatched : dispatched library platform health_app health_request ≡ some seven
unfolding dispatch python_dispatch match_path_template contains bytes str_eq to_u16 encode
    write_value fits_i64
health_dispatched = refl

seven_headers : all_headers library.is_header seven.headers ≡ true
unfolding all_headers
seven_headers = refl

handle_request-http3_example :
    handle_http3 library platform health_app health_request
    ≡ some (handle_request library platform health_app [] health_request).response
unfolding lookup_trivial
handle_request-http3_example =
    handle_request-http3 library platform health_app [] health_request seven no_upgrade refl upper
      health_dispatched seven_headers

health_streams :
    (dispatch streaming health_app get health (incoming_of library health_request)).answer
    ≡ streamed (int (pos 7))
unfolding dispatch match_path_template contains bytes str_eq to_u16
health_streams = refl

no_head : get ≢ bytes "HEAD"
unfolding bytes
no_head e = cc

no_health_page :
    auto_served platform.formats platform.runtime platform.to_lowercase health_app get health ≡ none
unfolding auto_served
no_health_page = refl

one_candidate : candidates health_app.routes get health ≡ (health_route, []) ∷ []
unfolding candidates str_eq bytes match_path_template contains
one_candidate = refl

health_found :
    lookup_trivial (snapshot_trivial_routes health_app) get health
    ≡ some (trivial_of health_route false)
unfolding lookup_trivial snapshot_trivial_routes contains bytes str_eq
health_found = refl

health_allows : is_no_content_status (status_of health_route) ≡ false
unfolding is_no_content_status to_u16
health_allows = refl

health_three : (leb 100 (status_of health_route) && ltb (status_of health_route) 1000) ≡ true
unfolding to_u16
health_three = refl

health_answered :
    (dispatch platform health_app get health (incoming_of library health_request)).answer
    ≡ response seven
unfolding dispatch match_path_template contains bytes str_eq to_u16 encode write_value fits_i64
health_answered = refl

handle_request-dispatch_example :
    (handle_request library platform health_app
      (snapshot_trivial_routes health_app)
      health_request).response
    ≡ seven
unfolding bytes
handle_request-dispatch_example =
    handle_request-dispatch library platform health_app health_request health_route []
      (trivial_of health_route false) (int (pos 7)) seven no_upgrade no_head no_health_page
      one_candidate health_found refl refl refl refl health_allows health_three health_answered refl

abbrev echo_app : FastApi host
echo_app = record app { routes = route (bytes "WEBSOCKET") (bytes "/echo") ∷ [] }

abbrev echo_request : HttpRequest
echo_request = record {
  method = get;
  path = bytes "/echo";
  query = none;
  headers =
      (bytes "upgrade", bytes "WebSocket")
      ∷ (bytes "connection", bytes "keep-alive, Upgrade")
      ∷ (bytes "sec-websocket-version", bytes "13")
      ∷ (bytes "sec-websocket-key", bytes "abc")
      ∷ [];
  body = some [];
}

echo_driven : (handle_request library platform echo_app [] echo_request).driven ≡ some (other 5)
unfolding handle_request str_eq bytes get_item to_ascii_lowercase split trim
echo_driven = refl

handle_request-Upgraded_example :
    Upgraded library platform echo_app echo_request
      (other 5)
      (handle_request library platform echo_app [] echo_request)
handle_request-Upgraded_example =
    handle_request-Upgraded library platform echo_app [] echo_request (other 5) echo_driven
