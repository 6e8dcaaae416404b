-- ===== src/Server/Net/Whole.antt =====
-- The server that `run_native` starts, with its services in place.
use hyperfastapi.Prelude.{
  ℕ, ◌≡◌, refl, ap, ◌∙◌, Bool, true, false, ◌&&◌, Option, none, some, List, [], ◌∷◌, arith,
  get_elem?, length, is_some, Bool-cases, inl, inr,
}
use hyperfastapi.Prelude.Text.{Str, bytes, str_eq, str_eq_refl, to_ascii_lowercase}
use hyperfastapi.Value.{Host}
use hyperfastapi.App.{FastApi}
use hyperfastapi.Dispatch.Fast.{Response}
use hyperfastapi.Dispatch.Whole.{Platform}
use hyperfastapi.Server.{snapshot_trivial_routes}
use hyperfastapi.Server.Config.{Tls, ServerConfig, Serving}
use hyperfastapi.Server.Native.{HttpRequest, Library, handle_request, handle_http3}
use hyperfastapi.Server.Tasks.{
  QuicConnection, RequestEvent, Received, accepting, accepted, resolving, resolved, answered,
  remove_header, insert_header, service,
}
use hyperfastapi.Server.Net.{
  Net, NetEvent, accept, accept_error, on, quic_accept, quic_closed, on_quic, Binding, h3_config,
  launch, run,
}
use hyperfastapi.Server.Net.Requests.{
  own_request, request_alone, whole, arrives, Ends, carrying, request_alone-arrives,
}
use hyperfastapi.Server.Net.Quic.{own_quic, quic_connections, run-quic_request}
use hyperfastapi.Websocket.{Reply}

-- The values of a header.
abbrev header_values_step : Bool → Str → List Str → List Str
header_values_step true v rest = v ∷ rest
header_values_step false v rest = rest

unfoldable pub header_values : Str → List (Str × Str) → List Str
header_values name [] = []
header_values name ((k, v) ∷ hs) =
    header_values_step (str_eq (to_ascii_lowercase k) name) v (header_values name hs)

insert_header_lem :
    (name v : Str) (hs : List (Str × Str))
    → to_ascii_lowercase name ≡ name
    → header_values name (insert_header name v hs) ≡ v ∷ []
unfolding insert_header remove_header header_values
insert_header_lem name v [] lower = rw (lower, str_eq_refl name) refl
insert_header_lem name v ((k, w) ∷ hs) lower =
    elim (Bool-cases (str_eq (to_ascii_lowercase k) name)) [
      | inl same ↦ rw same (insert_header_lem name v hs lower)
      | inr other ↦ rw (other, other) (insert_header_lem name v hs lower)
    ]

module _ {h : Host} (lib : Library) (p : Platform h) (app : FastApi h) (tls : Tls)
    (s : Serving tls) where
  -- The service of the TCP connections, with the snapshot that was taken at the start.
  abbrev pub serve : HttpRequest → Reply h
  serve = service lib p app (snapshot_trivial_routes app) s.alt_svc

  abbrev pub answer : HttpRequest → Option Response
  answer = handle_http3 lib p app

  abbrev pub network : List NetEvent → Net h → Net h
  network = run (is_some s.config) serve answer

  -- An HTTP/3 request that is accepted on a connection, whose head is resolved and whose body arrives
  -- in pieces until its end or a failure, is answered by `handle_http3` as the request with all pieces put together,
  -- whatever other requests, connections and listeners do meanwhile, also after the connection was left.
  pub network-http3 :
      (net : Net h) (n : ℕ) (c : QuicConnection) (es : List NetEvent) (req_head : HttpRequest)
      (bufs : List Str) (last : Received) (rest : List RequestEvent)
      → get_elem? (quic_connections net.endpoint) n ≡ some c
      → c.phase ≡ accepting
      → own_request (length c.tasks) (own_quic n es) ≡ resolved req_head ∷ arrives bufs last rest
      → Ends last
      → (d : QuicConnection) × (get_elem?
            (quic_connections (network (on_quic n accepted ∷ es) net).endpoint)
            n
          ≡ some d)
        × (get_elem? d.tasks (length c.tasks)
            ≡ some (answered (handle_http3 lib p app (carrying req_head (whole bufs)))))
  network-http3 net n c es req_head bufs last rest there phase own over =
      let (d, at, task) = run-quic_request (is_some s.config) serve answer net n c es there phase in
      (
        d,
        at,
        task
            ∙ ap (λ events. some (request_alone answer resolving events)) own
            ∙ ap some (request_alone-arrives answer req_head bufs last rest over),
      )

  service-alt_svc :
      (av : Str) (req : HttpRequest)
      → s.alt_svc ≡ some av
      → lib.is_header (bytes "alt-svc", av) ≡ true
      → header_values (bytes "alt-svc") (serve req).response.headers ≡ av ∷ []
  unfolding service to_ascii_lowercase bytes
  service-alt_svc av req announced valid =
      rw (announced, valid)
        (insert_header_lem (bytes "alt-svc") av
          (handle_request lib p app (snapshot_trivial_routes app) req).response.headers refl)

  network-no_endpoint :
      (es : List NetEvent) (net : Net h) → net.endpoint ≡ none → (network es net).endpoint ≡ none
  unfolding run
  network-no_endpoint [] net e = e
  network-no_endpoint (accept ∷ es) net e = network-no_endpoint es _ e
  network-no_endpoint (accept_error ∷ es) net e = network-no_endpoint es _ e
  network-no_endpoint (on i ev ∷ es) net e = network-no_endpoint es _ e
  network-no_endpoint (quic_accept ∷ es) net e = network-no_endpoint es _ (rw e refl)
  network-no_endpoint (quic_closed ∷ es) net e = network-no_endpoint es _ (rw e refl)
  network-no_endpoint (on_quic i ev ∷ es) net e = network-no_endpoint es _ (rw e refl)

  launched_without :
      (b : Binding tls) (net : Net h) (cfg : ServerConfig tls)
      → launch tls b s ≡ some net
      → s.config ≡ some cfg
      → (b.quic_crypto (h3_config tls cfg) && b.udp) ≡ false
      → net.endpoint ≡ none
  unfolding launch
  launched_without b net cfg up configured off = ground (arith, up, configured, off)

  -- If the HTTP/3 endpoint of a server that is to serve HTTP/3 cannot be started, the server runs
  -- without it: there is never a QUIC connection, and yet every answer over TCP announces HTTP/3, just
  -- once. The announcement is a valid header.
  pub launch-announced :
      (b : Binding tls) (net : Net h) (cfg : ServerConfig tls) (av : Str) (es : List NetEvent)
      (req : HttpRequest)
      → launch tls b s ≡ some net
      → s.config ≡ some cfg
      → (b.quic_crypto (h3_config tls cfg) && b.udp) ≡ false
      → s.alt_svc ≡ some av
      → lib.is_header (bytes "alt-svc", av) ≡ true
      → (quic_connections (network es net).endpoint ≡ [])
        × (header_values (bytes "alt-svc") (serve req).response.headers ≡ av ∷ [])
  launch-announced b net cfg av es req up configured off announced valid = (
    ap quic_connections (network-no_endpoint es net (launched_without b net cfg up configured off)),
    service-alt_svc av req announced valid,
  )
