-- ===== src/Server/Native/Upgrades.antt =====
-- Which connections are handed to a handler.
use hyperfastapi.Prelude.{
  ◌≡◌, refl, Bool, true, false, ◌&&◌, none, some, List, [], ◌∷◌, Memᴰ, Bool-cases, inl, inr,
}
use hyperfastapi.Prelude.Text.{Str, bytes, str_eq, str_eq_iff}
use hyperfastapi.Value.{Host, Value}
use hyperfastapi.Route.{Route}
use hyperfastapi.App.{FastApi, lookup_websocket, lookup_websocket_in}
use hyperfastapi.Dispatch.Whole.{Platform}
use hyperfastapi.Server.{TrivialRoutes}
use hyperfastapi.Websocket.{Reply, is_websocket_upgrade, handle_websocket}
use hyperfastapi.Websocket.Handshake.{
  Asks, Granted, is_websocket_upgrade_iff, handle_websocket-Granted,
}
use hyperfastapi.Server.Native.{HttpRequest, Library, handshaking, head, handle_request}

both : (a b : Bool) → (a && b) ≡ true → (a ≡ true) × (b ≡ true)
both true true e = (refl, refl)
both true false e = absurd cc
both false b e = absurd cc

module _ {h : Host} where
  -- A WebSocket route of the table.
  pub record Registered (routes : List (Route h)) (path : Str) (f : Value h) : Type 0 where
    pub route : Route h
    pub listed : Memᴰ route routes
    pub is_websocket : route.method ≡ bytes "WEBSOCKET"
    pub same_path : route.path ≡ path
    pub its_handler : route.handler ≡ f

  later :
      {r : Route h} {rs : List (Route h)} {path : Str} {f : Value h}
      → Registered rs path f
      → Registered (r ∷ rs) path f
  later g = record {
    route = g.route;
    listed = Memᴰ.tail g.listed;
    is_websocket = g.is_websocket;
    same_path = g.same_path;
    its_handler = g.its_handler;
  }

  lookup_websocket_in-Registered :
      (routes : List (Route h)) (path : Str) (f : Value h)
      → lookup_websocket_in routes path ≡ some f
      → Registered routes path f
  unfolding lookup_websocket_in
  lookup_websocket_in-Registered [] path f e = absurd cc
  lookup_websocket_in-Registered (r ∷ rs) path f e =
      elim (Bool-cases (str_eq r.method (bytes "WEBSOCKET") && str_eq r.path path)) [
        | inl here ↦
            let (m, p) = both (str_eq r.method (bytes "WEBSOCKET")) (str_eq r.path path) here in
            record {
              route = r;
              listed = Memᴰ.head refl;
              is_websocket = (str_eq_iff r.method (bytes "WEBSOCKET")).0 m;
              same_path = (str_eq_iff r.path path).0 p;
              its_handler = same (rw here at e);
            }
        | inr there ↦ later (lookup_websocket_in-Registered rs path f (rw there at e))
      ]
    where
      same : {a b : Value h} → some a ≡ some b → a ≡ b
      same e = cc

module _ {h : Host} (lib : Library) (p : Platform h) (app : FastApi h) where
  -- What is known when the connection of a request is handed to a handler.
  pub record Upgraded (req : HttpRequest) (f : Value h) (reply : Reply h) : Type 0 where
    pub asked : Asks (handshaking lib p app) (head lib p req)
    pub granted : Granted (handshaking lib p app) (head lib p req) req.path f reply
    pub registered : Registered app.routes req.path f

  handed :
      (req : HttpRequest) (f : Value h)
      → is_websocket_upgrade (handshaking lib p app) (head lib p req) ≡ true
      → (handle_websocket (handshaking lib p app) (head lib p req) req.path).driven ≡ some f
      → Upgraded req f (handle_websocket (handshaking lib p app) (head lib p req) req.path)
  unfolding Granted lookup_websocket
  handed req f up e =
      let hs = handshaking lib p app in
      let granted = handle_websocket-Granted hs (head lib p req) req.path f e in
      record {
        asked = (is_websocket_upgrade_iff hs (head lib p req)).0 up;
        granted = granted;
        registered = lookup_websocket_in-Registered app.routes req.path f granted.2;
      }

  -- The server hands the connection of a request to a handler only if the request is a GET request
  -- with the headers `Upgrade: websocket`, `Connection` with the item `upgrade`,
  -- `Sec-WebSocket-Version: 13` and any `Sec-WebSocket-Key`, and the handler is that of a WebSocket
  -- route of the table with the request's path; the answer is then 101, with the accept key that
  -- belongs to the key read from the request.
  pub handle_request-Upgraded :
      (trivial_routes : TrivialRoutes h) (req : HttpRequest) (f : Value h)
      → (handle_request lib p app trivial_routes req).driven ≡ some f
      → Upgraded req f (handle_request lib p app trivial_routes req)
  unfolding handle_request
  handle_request-Upgraded trivial_routes req f =
      elim (Bool-cases (is_websocket_upgrade (handshaking lib p app) (head lib p req))) [
        | inl up ↦ rw up (handed req f up)
        | inr plain ↦ rw plain (λ e. absurd (nothing e))
      ]
    where
      nothing : none ≡ some f → ⊥
      nothing e = cc
