-- ===== src/Server/Native/Delivery/Tests.antt =====
-- GET /items/-42/tags/new over TCP.
use hyperfastapi.Json.{encode, write_value}
use hyperfastapi.Path.{is_catch_all, placeholder}
use hyperfastapi.Path.Spec.{fill}
use hyperfastapi.Prelude.{◌≡◌, refl, true, false, none, some, [], ◌∷◌}
use hyperfastapi.Prelude.Int.{fits_i64, pos, show_int}
use hyperfastapi.Prelude.Text.{
  bytes, contains, ends_with, join, split, split_once, starts_with, str_eq,
}
use hyperfastapi.Value.{get_item, int}
use hyperfastapi.Dispatch.Arguments.{query_dict}
use hyperfastapi.Dispatch.Fast.{
  json_headers, is_no_content_status, serialize_value_to_json, status_of,
}
use hyperfastapi.Dispatch.Whole.Delivery.{filled, is_head}
use hyperfastapi.Dispatch.Whole.Delivery.Tests.{
  tag_route, items_route, tag_app, values, no_earlier, no_page, tag_names, tag-IsPlain,
  tag-Declared, tag-AllWritable, tag-AreDistinct, tag_alone,
}
use hyperfastapi.Server.{lookup_trivial, snapshot_trivial_routes}
use hyperfastapi.Server.Status.{status_or_ok, to_u16}
use hyperfastapi.Server.Native.{
  HttpRequest, all_headers, handle_request, handshaking, head, incoming_of,
}
use hyperfastapi.Server.Native.Delivery.{handle_request-delivered}
use hyperfastapi.Server.Native.Tests.{library}
use hyperfastapi.Websocket.{is_websocket_upgrade}
use hyperfastapi.Samples.{platform}

abbrev tag_request : HttpRequest
tag_request = record {
  method = bytes "GET";
  path = bytes "/items/-42/tags/new";
  query = none;
  headers = [];
  body = some [];
}

no_upgrade :
    is_websocket_upgrade (handshaking library platform tag_app) (head library platform tag_request)
    ≡ false
unfolding is_websocket_upgrade str_eq bytes get_item
no_upgrade = refl

no_snapshot :
    lookup_trivial (snapshot_trivial_routes tag_app) tag_request.method tag_request.path ≡ none
unfolding lookup_trivial snapshot_trivial_routes contains bytes str_eq
no_snapshot = refl

at_path : tag_request.path ≡ filled tag_route values
unfolding join bytes fill split placeholder starts_with ends_with is_catch_all split_once show_int
at_path = refl

no_query : query_dict platform.parsers (incoming_of library tag_request).query_string ≡ some []
unfolding query_dict
no_query = refl

no_head : is_head tag_route ≡ false
unfolding str_eq bytes
no_head = refl

allows : is_no_content_status (status_of tag_route) ≡ false
unfolding is_no_content_status to_u16
allows = refl

seven : serialize_value_to_json platform.formats platform.runtime (int (pos 7)) ≡ some (bytes "7")
unfolding serialize_value_to_json encode write_value fits_i64
seven = refl

three : status_or_ok (status_of tag_route) ≡ status_of tag_route
unfolding to_u16 status_or_ok
three = refl

accepted : all_headers library.is_header json_headers ≡ true
unfolding all_headers
accepted = refl

handle_request-delivered_example :
    (handle_request library platform tag_app (snapshot_trivial_routes tag_app) tag_request).response
    ≡ record { status = status_of tag_route; headers = json_headers; body = bytes "7" }
handle_request-delivered_example =
    handle_request-delivered library platform tag_app tag_route values
      (snapshot_trivial_routes tag_app) tag_request (items_route ∷ []) [] [] (int (pos 7))
      (bytes "7") refl at_path no_upgrade no_snapshot refl no_earlier no_page tag_names refl
      tag-IsPlain tag-Declared tag-AllWritable tag-AreDistinct tag_alone no_query refl no_head refl
      allows refl refl seven three accepted
