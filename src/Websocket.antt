-- ===== src/Websocket.antt =====
-- crates/fr-pyiface/src/ws.rs: the test for an upgrade request and the handshake; the connection that
-- follows is in the children. `HeaderValue::to_str`, SHA-1 and Base64 are parameters.
pub mod Connection
pub mod Handshake
pub mod Order
pub mod Outbound
pub mod Ending
pub mod Tests
use hyperfastapi.Prelude.{
  ℕ, Bool, true, false, ◌&&◌, Option, none, some, List, [], ◌∷◌, ◌++◌, if◌then◌else◌, any, is_some,
  unwrap_or, map,
}
use hyperfastapi.Prelude.Text.{Str, bytes, str_eq, split, to_ascii_lowercase}
use hyperfastapi.Prelude.Text.Trim.{trim}
use hyperfastapi.Value.{Host, Value, get_item}
use hyperfastapi.Dispatch.Fast.{Response}

-- The head of an HTTP request: its header names are in lower case, and `get` reads the first of a name.
pub record Head : Type 0 where
  pub method : Str
  pub headers : List (Str × Str)

-- `none` where `to_str` fails, where the lookup of the handler raises, and where it finds none.
pub record Handshaking (h : Host) : Type 0 where
  pub to_str : Str → Option Str
  pub sha1 : Str → Str
  pub base64 : Str → Str
  pub lookup_websocket : Str → Option (Value h)

abbrev pub ws_guid : Str
ws_guid = bytes "258EAFA5-E914-47DA-95CA-C5AB0DC85B11"

-- The answer, and the handler that is to drive the upgraded connection.
pub record Reply (h : Host) : Type 0 where
  pub response : Response
  pub driven : Option (Value h)

module _ {h : Host} (hs : Handshaking h) where
  abbrev pub then_str : Option Str → Option Str
  then_str none = none
  then_str (some v) = hs.to_str v

  -- `headers.get(name).and_then(|v| v.to_str().ok())`
  unfoldable pub header_str : Head → Str → Option Str
  header_str req name = then_str (get_item name req.headers)

  abbrev pub holds : (Str → Bool) → Option Str → Bool
  holds test none = false
  holds test (some s) = test s

  abbrev pub is_websocket_token : Str → Bool
  is_websocket_token s = str_eq (to_ascii_lowercase s) (bytes "websocket")

  abbrev pub names_upgrade : Str → Bool
  names_upgrade s =
      any (λ part. str_eq (trim part) (bytes "upgrade")) (split b',' (to_ascii_lowercase s))

  abbrev pub is_version : Str → Bool
  is_version s = str_eq (trim s) (bytes "13")

  unfoldable pub is_websocket_upgrade : Head → Bool
  unfolding header_str
  is_websocket_upgrade req =
      if str_eq req.method (bytes "GET")
      then holds is_websocket_token (header_str req (bytes "upgrade"))
        && holds names_upgrade (header_str req (bytes "connection"))
        && holds is_version (header_str req (bytes "sec-websocket-version"))
        && is_some (get_item (bytes "sec-websocket-key") req.headers)
      else false

  unfoldable pub ws_accept_key : Str → Str
  ws_accept_key client_key = hs.base64 (hs.sha1 (client_key ++ ws_guid))

  abbrev pub rejected : ℕ → Str → Reply h
  rejected status body = record {
    response = record { status = status; headers = []; body = body };
    driven = none;
  }

  abbrev pub switched : Str → Value h → Reply h
  switched accept handler = record {
    response = record {
      status = 101;
      headers =
          (bytes "upgrade", bytes "websocket")
          ∷ (bytes "connection", bytes "Upgrade")
          ∷ (bytes "sec-websocket-accept", accept)
          ∷ [];
      body = [];
    };
    driven = some handler;
  }

  abbrev pub looked_up : Str → Option (Value h) → Reply h
  looked_up accept none = rejected 404 (bytes "no websocket route")
  looked_up accept (some handler) = switched accept handler

  abbrev pub keyed : Str → Option Str → Reply h
  keyed path none = rejected 400 (bytes "missing Sec-WebSocket-Key")
  keyed path (some key) = looked_up (ws_accept_key key) (hs.lookup_websocket path)

  unfoldable pub handle_websocket : Head → Str → Reply h
  unfolding header_str ws_accept_key
  handle_websocket req path = keyed path (header_str req (bytes "sec-websocket-key"))
