-- ===== src/Server/Native.antt =====
-- crates/fr-pyiface/src/server.rs: `handle_request`, `python_dispatch`, and the answer to one request of
-- `run_http3_server`.
pub mod Laws
pub mod Upgrades
pub mod Delivery
pub mod Tests
use hyperfastapi.Prelude.{
  Bool, true, false, ◌&&◌, Option, none, some, List, [], ◌∷◌, ◌++◌, map, if◌then◌else◌, unwrap_or,
}
use hyperfastapi.Prelude.Text.{Str, bytes, to_ascii_uppercase}
use hyperfastapi.Value.{Host, Value}
use hyperfastapi.App.{FastApi, lookup_websocket}
use hyperfastapi.Dispatch.Fast.{Response, Answer, response, streamed, raised, json_headers}
use hyperfastapi.Dispatch.Arguments.{Incoming}
use hyperfastapi.Dispatch.Whole.{Platform, dispatch}
use hyperfastapi.Server.{TrivialRoute, TrivialRoutes, lookup_trivial}
use hyperfastapi.Server.Status.{status_or_ok}
use hyperfastapi.Server.Trivial.{internal_error, dispatch_trivial}
use hyperfastapi.Websocket.{Head, Handshaking, Reply, is_websocket_upgrade, handle_websocket}

-- A request as hyper or h3 gives it; `body` is `none` where its collection fails.
pub record HttpRequest : Type 0 where
  pub method : Str
  pub path : Str
  pub query : Option Str
  pub headers : List (Str × Str)
  pub body : Option Str

-- The libraries of the server: `HeaderValue::to_str`, the headers that a response may carry, the digests
-- of the handshake, and the text `{:?}` of the exception that a request raises.
pub record Library : Type 0 where
  pub to_str : Str → Option Str
  pub is_header : Str × Str → Bool
  pub sha1 : Str → Str
  pub base64 : Str → Str
  pub debug_error : HttpRequest → Str

abbrev keep_readable : Str → Option Str → List (Str × Str) → List (Str × Str)
keep_readable k none rest = rest
keep_readable k (some v) rest = (k, v) ∷ rest

-- The headers whose values are text.
unfoldable pub readable_headers : (Str → Option Str) → List (Str × Str) → List (Str × Str)
readable_headers to_str [] = []
readable_headers to_str ((k, v) ∷ hs) = keep_readable k (to_str v) (readable_headers to_str hs)

unfoldable pub all_headers : (Str × Str → Bool) → List (Str × Str) → Bool
all_headers is_header [] = true
all_headers is_header (kv ∷ kvs) = is_header kv && all_headers is_header kvs

-- What `_dispatch_native` returns to Rust: `none` where it raises.
abbrev pub extracted : {h : Host} → Answer h → Option Response
extracted (response r) = some r
extracted (streamed v) = some (record { status = 0; headers = []; body = [] })
extracted raised = none

abbrev incoming : Str → List (Str × Str) → Str → Incoming
incoming query headers body_bytes = record {
  query_string = some query;
  headers = some headers;
  body = some body_bytes;
}

-- What the dispatcher is given of a request.
abbrev pub incoming_of : Library → HttpRequest → Incoming
incoming_of lib req =
    incoming (unwrap_or req.query []) (readable_headers lib.to_str req.headers)
      (unwrap_or req.body [])

module _ {h : Host} (lib : Library) (p : Platform h) where
  unfoldable pub python_dispatch :
      FastApi h → Str → Str → Str → List (Str × Str) → Str → Option Response
  unfolding dispatch
  python_dispatch app method path query headers body_bytes =
      let run = dispatch p app method path (incoming query headers body_bytes) in
      extracted run.answer

  abbrev pub sent : Response → Response
  sent r =
      if all_headers lib.is_header r.headers
      then record { status = status_or_ok r.status; headers = r.headers; body = r.body }
      else record { status = 500; headers = []; body = [] }

  -- The answer of the slow path; an exception's text is part of it.
  abbrev pub answered : HttpRequest → Option Response → Response
  answered req none = record {
    status = 500;
    headers = json_headers;
    body =
        bytes "{\"detail\":\"Internal Server Error\",\"error\":"
        ++ lib.debug_error req
        ++ bytes "}";
  }
  answered req (some r) = sent r

  abbrev pub dispatched : FastApi h → HttpRequest → Option Response
  dispatched app req =
      python_dispatch app req.method req.path (unwrap_or req.query [])
        (readable_headers lib.to_str req.headers) (unwrap_or req.body [])

  abbrev pub or_dispatched : FastApi h → HttpRequest → Option (TrivialRoute h) → Response
  or_dispatched app req (some trivial) = dispatch_trivial p.formats p.runtime trivial
  or_dispatched app req none = answered req (dispatched app req)

  abbrev pub handshaking : FastApi h → Handshaking h
  handshaking app = record {
    to_str = lib.to_str;
    sha1 = lib.sha1;
    base64 = lib.base64;
    lookup_websocket = lookup_websocket app;
  }

  abbrev pub head : HttpRequest → Head
  head req = record { method = req.method; headers = req.headers }

  -- The handshake, the snapshot, or the dispatcher.
  unfoldable pub handle_request : FastApi h → TrivialRoutes h → HttpRequest → Reply h
  unfolding is_websocket_upgrade handle_websocket lookup_trivial dispatch_trivial python_dispatch
      status_or_ok all_headers readable_headers lookup_websocket
  handle_request app trivial_routes req =
      if is_websocket_upgrade (handshaking app) (head req)
      then handle_websocket (handshaking app) (head req) req.path
      else record {
        response = or_dispatched app req (lookup_trivial trivial_routes req.method req.path);
        driven = none;
      }

  abbrev pub http3_answer : Option Response → Option Response
  http3_answer none =
      some (record {
        status = 500;
        headers = [];
        body = bytes "{\"detail\":\"Internal Server Error\"}";
      })
  http3_answer (some r) =
      if all_headers lib.is_header r.headers
      then some (record { status = status_or_ok r.status; headers = r.headers; body = r.body })
      else none

  -- One request over HTTP/3, its body being what could be read: `none` where nothing is sent.
  unfoldable pub handle_http3 : FastApi h → HttpRequest → Option Response
  unfolding python_dispatch status_or_ok all_headers readable_headers to_ascii_uppercase
  handle_http3 app req = http3_answer (
      python_dispatch app (to_ascii_uppercase req.method) req.path (unwrap_or req.query [])
        (readable_headers lib.to_str req.headers) (unwrap_or req.body []))
