-- ===== src/Server/Net/Tests.antt =====
-- A server with TLS and HTTP/3: a request over HTTP/3, and an endpoint that cannot be started.
use hyperfastapi.Prelude.{◌≡◌, refl, true, false, none, some, List, [], ◌∷◌, get_elem?}
use hyperfastapi.Prelude.Text.{Str, bytes}
use hyperfastapi.Server.Config.{alt_svc_of}
use hyperfastapi.Server.Config.Tests.{tls, config, with_http3}
use hyperfastapi.Server.Native.Tests.{library, health_app, health_request}
use hyperfastapi.Server.Native.{handle_http3}
use hyperfastapi.Server.Tasks.{
  QuicConnection, accepting, accepted, progress, resolved, received, answered, chunk, failed,
}
use hyperfastapi.Server.Net.{Net, NetEvent, quic_accept, quic_closed, on_quic, Binding, launch}
use hyperfastapi.Server.Net.Requests.{own_request, arrives, carrying, whole}
use hyperfastapi.Server.Net.Quic.{own_quic, quic_connections}
use hyperfastapi.Server.Net.Whole.{serve, network, header_values, network-http3, launch-announced}
use hyperfastapi.Samples.{host, platform}

abbrev binding : Binding tls
binding = record { tcp = true; udp = false; quic_crypto = λ cfg. true }

abbrev started : Net host
started = record { connections = []; accept_errors = 0; endpoint = none }

started_launched : launch tls binding with_http3 ≡ some started
unfolding launch
started_launched = refl

abbrev quic : QuicConnection
quic = record { phase = accepting; tasks = [] }

abbrev with_quic : Net host
with_quic = record {
  connections = [];
  accept_errors = 0;
  endpoint = some (record { listening = true; connections = quic ∷ [] });
}

-- The body comes in two pieces and breaks off, while another request comes in and the endpoint closes.
abbrev quic_traffic : List NetEvent
quic_traffic =
    on_quic 0 (progress 0 (resolved health_request))
    ∷ on_quic 0 accepted
    ∷ on_quic 0 (progress 0 (received (chunk (bytes "{"))))
    ∷ on_quic 0 (progress 1 (resolved health_request))
    ∷ quic_closed
    ∷ on_quic 0 (progress 1 (received (chunk (bytes "x"))))
    ∷ on_quic 0 (progress 0 (received (chunk (bytes "}"))))
    ∷ on_quic 0 (progress 0 (received failed))
    ∷ []

abbrev pieces : List Str
pieces = bytes "{" ∷ bytes "}" ∷ []

its_events :
    own_request 0 (own_quic 0 quic_traffic) ≡ resolved health_request ∷ arrives pieces failed []
unfolding own_request own_quic arrives
its_events = refl

network-http3_example :
    (d : QuicConnection) × (get_elem?
        (quic_connections
          (network library platform health_app tls with_http3
            (on_quic 0 accepted ∷ quic_traffic)
            with_quic).endpoint)
        0
      ≡ some d)
    × (get_elem? d.tasks 0
        ≡ some (
            answered
              (handle_http3 library platform health_app (carrying health_request (whole pieces)))))
network-http3_example =
    network-http3 library platform health_app tls with_http3 with_quic 0 quic quic_traffic
      health_request pieces failed [] refl refl its_events tt

abbrev announcement : Str
announcement = bytes "h3=\":8443\"; ma=86400"

announcement_of : with_http3.alt_svc ≡ some announcement
unfolding alt_svc_of bytes
announcement_of = refl

launch-announced_example :
    (quic_connections
        (network library platform health_app tls with_http3 (quic_accept ∷ []) started).endpoint
      ≡ [])
    × (header_values
          (bytes "alt-svc")
          (serve library platform health_app tls with_http3 health_request).response.headers
        ≡ announcement ∷ [])
launch-announced_example =
    launch-announced library platform health_app tls with_http3 binding started config announcement
      (quic_accept ∷ []) health_request started_launched refl refl announcement_of refl
