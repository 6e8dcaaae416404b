-- ===== src/Server/Tasks.antt =====
-- crates/fr-pyiface/src/server.rs: the service of one TCP connection and its task, and the tasks of
-- `run_http3_server` for one connection and for one request. What the peer and the transport do comes
-- as a sequence of events; an event that a task does not wait for changes nothing.
use hyperfastapi.Prelude.{
  ℕ, Bool, false, Option, none, some, List, [], ◌∷◌, ◌++◌, modify, if◌then◌else◌, any, is_some,
}
use hyperfastapi.Prelude.Text.{Str, bytes, str_eq, to_ascii_lowercase}
use hyperfastapi.Value.{Host}
use hyperfastapi.App.{FastApi}
use hyperfastapi.Dispatch.Fast.{Response}
use hyperfastapi.Dispatch.Whole.{Platform}
use hyperfastapi.Server.{TrivialRoutes}
use hyperfastapi.Server.Native.{HttpRequest, Library, handle_request}
use hyperfastapi.Websocket.{Reply}

-- `HeaderMap::insert`: the earlier values of the name are removed.
unfoldable pub remove_header : Str → List (Str × Str) → List (Str × Str)
remove_header name [] = []
remove_header name ((k, v) ∷ hs) =
    if str_eq (to_ascii_lowercase k) name
    then remove_header name hs
    else (k, v) ∷ remove_header name hs

unfoldable pub insert_header : Str → Str → List (Str × Str) → List (Str × Str)
unfolding remove_header
insert_header name v hs = remove_header name hs ++ (name, v) ∷ []

abbrev pub with_header : {h : Host} → Str → Str → Reply h → Reply h
with_header name v r = record {
  response = record {
    status = r.response.status;
    headers = insert_header name v r.response.headers;
    body = r.response.body;
  };
  driven = r.driven;
}

module _ {h : Host} (lib : Library) (p : Platform h) (app : FastApi h)
    (trivial_routes : TrivialRoutes h) (alt_svc : Option Str) where
  abbrev pub announce : Option Str → Reply h → Reply h
  announce none resp = resp
  announce (some av) resp =
      if lib.is_header (bytes "alt-svc", av) then with_header (bytes "alt-svc") av resp else resp

  -- The service function of a TCP connection.
  unfoldable pub service : HttpRequest → Reply h
  unfolding handle_request insert_header
  service req = announce alt_svc (handle_request lib p app trivial_routes req)

pub data Phase : Type 0 where
  handshaking open_ upgraded closed : Phase

-- One call of the service, which is awaited on its own.
pub data Call (h : Host) : Type 0 where
  running : HttpRequest → Call h
  done : Reply h → Call h

-- One TCP connection, with the calls of the service that hyper has made for it.
pub record Connection (h : Host) : Type 0 where
  pub phase : Phase
  pub calls : List (Call h)

-- The TLS handshake succeeds or fails, a request arrives, the `i`th call is ready, in whatever order
-- the streams of HTTP/2 allow, the connection ends.
pub data ConnectionEvent : Type 0 where
  secured unsecured : ConnectionEvent
  request : HttpRequest → ConnectionEvent
  completed : ℕ → ConnectionEvent
  ended : ConnectionEvent

module _ {h : Host} where
  -- The answer hands the connection over, and hyper serves it no more.
  abbrev hands_over : Call h → Bool
  hands_over (running req) = false
  hands_over (done r) = is_some r.driven

module _ {h : Host} (serve : HttpRequest → Reply h) where
  abbrev complete : Call h → Call h
  complete (running req) = done (serve req)
  complete (done r) = done r

  abbrev with_calls : List (Call h) → Connection h
  with_calls calls = record {
    phase = if any hands_over calls then upgraded else open_;
    calls = calls;
  }

  abbrev pub at_phase : Phase → ConnectionEvent → Connection h → Connection h
  at_phase handshaking secured c = record c { phase = open_ }
  at_phase handshaking unsecured c = record c { phase = closed }
  at_phase open_ (request req) c = record c { calls = c.calls ++ running req ∷ [] }
  at_phase open_ (completed i) c = with_calls (modify i complete c.calls)
  at_phase open_ ended c = record c { phase = closed }
  at_phase _ _ c = c

  unfoldable pub connection_step : ConnectionEvent → Connection h → Connection h
  connection_step e c = at_phase c.phase e c

-- What `stream.recv_data()` gives: bytes, the end, or a failure.
pub data Received : Type 0 where
  chunk : Str → Received
  finished failed : Received

-- One spawned HTTP/3 request: its head is awaited, then its body is drained; `answered none` where the
-- response cannot be built.
pub data RequestTask : Type 0 where
  resolving gone : RequestTask
  draining : HttpRequest → Str → RequestTask
  answered : Option Response → RequestTask

pub data RequestEvent : Type 0 where
  resolved : HttpRequest → RequestEvent
  unresolved : RequestEvent
  received : Received → RequestEvent

pub data QuicPhase : Type 0 where
  connecting establishing accepting left : QuicPhase

pub record QuicConnection : Type 0 where
  pub phase : QuicPhase
  pub tasks : List RequestTask

pub data QuicEvent : Type 0 where
  -- the QUIC connection, then the HTTP/3 connection on it
  connected refused : QuicEvent
  -- `h3_conn.accept()`: a request, the end, or an error
  accepted no_more accept_failed : QuicEvent
  -- progress of a spawned request
  progress : ℕ → RequestEvent → QuicEvent

-- `req_head` with the drained body.
abbrev with_body : HttpRequest → Str → HttpRequest
with_body req_head body = record {
  method = req_head.method;
  path = req_head.path;
  query = req_head.query;
  headers = req_head.headers;
  body = some body;
}

module _ (answer : HttpRequest → Option Response) where
  unfoldable pub request_step : RequestEvent → RequestTask → RequestTask
  request_step (resolved req_head) resolving = draining req_head []
  request_step unresolved resolving = gone
  request_step (received (chunk buf)) (draining req_head body) = draining req_head (body ++ buf)
  request_step (received finished) (draining req_head body) =
      answered (answer (with_body req_head body))
  request_step (received failed) (draining req_head body) =
      answered (answer (with_body req_head body))
  request_step e t = t

  abbrev pub at_quic_phase : QuicPhase → QuicEvent → QuicConnection → QuicConnection
  at_quic_phase connecting connected c = record c { phase = establishing }
  at_quic_phase connecting refused c = record c { phase = left }
  at_quic_phase establishing connected c = record c { phase = accepting }
  at_quic_phase establishing refused c = record c { phase = left }
  at_quic_phase accepting accepted c = record c { tasks = c.tasks ++ resolving ∷ [] }
  at_quic_phase accepting no_more c = record c { phase = left }
  at_quic_phase accepting accept_failed c = record c { phase = left }
  at_quic_phase _ (progress i e) c = record c { tasks = modify i (request_step e) c.tasks }
  at_quic_phase _ _ c = c

  unfoldable pub quic_step : QuicEvent → QuicConnection → QuicConnection
  unfolding request_step
  quic_step e c = at_quic_phase c.phase e c
