-- ===== src/Server/Net.antt =====
-- crates/fr-pyiface/src/server.rs: `run_native` once it is configured, and `run_http3_server`: the
-- listeners, and the tasks that they spawn, under every order of events.
pub mod Requests
pub mod Quic
pub mod Whole
pub mod Tests
use hyperfastapi.Prelude.{
  ℕ, suc, Bool, true, false, ◌&&◌, ◌==◌, Option, none, some, List, [], ◌∷◌, ◌++◌, modify, is_some,
  if◌then◌else◌,
}
use hyperfastapi.Prelude.Text.{Str, bytes}
use hyperfastapi.Value.{Host}
use hyperfastapi.Dispatch.Fast.{Response}
use hyperfastapi.Server.Config.{Tls, ServerConfig, Serving}
use hyperfastapi.Server.Native.{HttpRequest}
use hyperfastapi.Server.Tasks.{
  Phase, handshaking, open_, Connection, ConnectionEvent, connection_step, QuicConnection,
  QuicEvent, connecting, quic_step,
}
use hyperfastapi.Websocket.{Reply}

-- The endpoint of HTTP/3, and whether it still accepts.
pub record Endpoint : Type 0 where
  pub listening : Bool
  pub connections : List QuicConnection

pub record Net (h : Host) : Type 0 where
  pub connections : List (Connection h)
  pub accept_errors : ℕ
  pub endpoint : Option Endpoint

-- `listener.accept()` gives a stream or an error; `endpoint.accept()` a connection or `None`; and the
-- tasks go on.
pub data NetEvent : Type 0 where
  accept accept_error : NetEvent
  on : ℕ → ConnectionEvent → NetEvent
  quic_accept quic_closed : NetEvent
  on_quic : ℕ → QuicEvent → NetEvent

-- What the operating system and rustls answer: whether the TCP listener and the UDP endpoint are
-- bound, and whether a configuration serves QUIC.
pub record Binding (tls : Tls) : Type 0 where
  pub tcp : Bool
  pub udp : Bool
  pub quic_crypto : ServerConfig tls → Bool

module _ (tls : Tls) where
  -- The configuration with HTTP/3's own protocol.
  unfoldable pub h3_config : ServerConfig tls → ServerConfig tls
  h3_config cfg = record cfg { alpn_protocols = bytes "h3" ∷ [] }

  -- `run_http3_server` before its loop: `none` where it returns an error, which only stops HTTP/3.
  abbrev pub start_endpoint : Binding tls → Option (ServerConfig tls) → Option Endpoint
  start_endpoint b none = none
  start_endpoint b (some cfg) =
      if b.quic_crypto (h3_config cfg) && b.udp
      then some (record { listening = true; connections = [] })
      else none

  -- `none` where the address cannot be bound, which `run_native` raises.
  unfoldable pub launch : {h : Host} → Binding tls → Serving tls → Option (Net h)
  unfolding h3_config
  launch b s =
      if b.tcp
      then some (record {
        connections = [];
        accept_errors = 0;
        endpoint = if s.http3 then start_endpoint b s.config else none;
      })
      else none

module _ {h : Host} (encrypted : Bool) (serve : HttpRequest → Reply h)
    (answer : HttpRequest → Option Response) where
  -- The task of an accepted stream, with an acceptor or without.
  abbrev pub fresh : Connection h
  fresh = record { phase = if encrypted then handshaking else open_; calls = [] }

  abbrev pub fresh_quic : QuicConnection
  fresh_quic = record { phase = connecting; tasks = [] }

  abbrev pub endpoint_accept : Option Endpoint → Option Endpoint
  endpoint_accept none = none
  endpoint_accept (some q) =
      some (if q.listening then record q { connections = q.connections ++ fresh_quic ∷ [] } else q)

  abbrev pub endpoint_closed : Option Endpoint → Option Endpoint
  endpoint_closed none = none
  endpoint_closed (some q) = some (record q { listening = false })

  abbrev pub endpoint_on : ℕ → QuicEvent → Option Endpoint → Option Endpoint
  endpoint_on i e none = none
  endpoint_on i e (some q) =
      some (record q { connections = modify i (quic_step answer e) q.connections })

  -- One turn of a loop, or one event of a spawned task.
  unfoldable pub net_step : NetEvent → Net h → Net h
  unfolding connection_step quic_step
  net_step accept n = record n { connections = n.connections ++ fresh ∷ [] }
  net_step accept_error n = record n { accept_errors = suc n.accept_errors }
  net_step (on i e) n = record n { connections = modify i (connection_step serve e) n.connections }
  net_step quic_accept n = record n { endpoint = endpoint_accept n.endpoint }
  net_step quic_closed n = record n { endpoint = endpoint_closed n.endpoint }
  net_step (on_quic i e) n = record n { endpoint = endpoint_on i e n.endpoint }

  unfoldable pub run : List NetEvent → Net h → Net h
  unfolding net_step
  run [] n = n
  run (e ∷ es) n = run es (net_step e n)
