-- ===== src/Server/Native/Laws.antt =====
-- One request, whichever way it takes through the server.
use hyperfastapi.Prelude.{
  ◌≡◌, ◌≢◌, refl, sym, ap, ◌∙◌, true, false, ◌&&◌, Option, none, some, [], ◌∷◌, is_empty, is_none,
  leb, ltb,
}
use hyperfastapi.Prelude.Text.{Str, bytes, to_ascii_uppercase}
use hyperfastapi.Value.{Host, Value}
use hyperfastapi.Path.{Params}
use hyperfastapi.Route.{Route}
use hyperfastapi.App.{FastApi}
use hyperfastapi.Dispatch.Select.{select, matched}
use hyperfastapi.Dispatch.Select.Spec.{candidates}
use hyperfastapi.Dispatch.Fast.{
  Response, response, streamed, is_no_content_status, status_of, is_fast, fast_path,
}
use hyperfastapi.Dispatch.Arguments.{Incoming}
use hyperfastapi.Dispatch.Docs.{auto_served}
use hyperfastapi.Dispatch.Whole.{Platform, run_route, dispatch}
use hyperfastapi.Server.{TrivialRoute, TrivialRoutes, lookup_trivial, snapshot_trivial_routes}
use hyperfastapi.Server.Agreement.{snapshot-select}
use hyperfastapi.Server.Default.{snapshot-is_fast}
use hyperfastapi.Server.Status.{status_or_ok}
use hyperfastapi.Server.Trivial.{dispatch_trivial-fast_path}
use hyperfastapi.Websocket.{is_websocket_upgrade}
use hyperfastapi.Server.Native.{
  HttpRequest, Library, incoming_of, all_headers, python_dispatch, dispatched, answered,
  handshaking, head, handle_request, http3_answer, handle_http3,
}

module _ {h : Host} (lib : Library) (p : Platform h) where
  answered-http3 :
      (req : HttpRequest) (o : Option Response) (r : Response)
      → o ≡ some r
      → all_headers lib.is_header r.headers ≡ true
      → http3_answer lib p o ≡ some (answered lib p req o)
  answered-http3 req none r e ok = absurd cc
  answered-http3 req (some q) r e ok =
      rw (ap (λ (x : Response). all_headers lib.is_header x.headers) (same e) ∙ ok) refl
    where
      same : {a b : Response} → some a ≡ some b → a ≡ b
      same e = cc

  -- A request that is no upgrade and that the snapshot does not answer, with a method in upper case, is
  -- answered over HTTP/3 as over TCP, if the dispatcher does not raise and its headers can be sent.
  pub handle_request-http3 :
      (app : FastApi h) (trivial_routes : TrivialRoutes h) (req : HttpRequest) (r : Response)
      → is_websocket_upgrade (handshaking lib p app) (head lib p req) ≡ false
      → lookup_trivial trivial_routes req.method req.path ≡ none
      → to_ascii_uppercase req.method ≡ req.method
      → dispatched lib p app req ≡ some r
      → all_headers lib.is_header r.headers ≡ true
      → handle_http3 lib p app req ≡ some (handle_request lib p app trivial_routes req).response
  unfolding handle_request handle_http3
  handle_request-http3 app trivial_routes req r plain slow upper ok headers =
      rw (plain, slow, upper) (answered-http3 req (dispatched lib p app req) r ok headers)

  -- A request whose answer is streamed is answered with the status 200 and nothing else.
  pub handle_request-streamed :
      (app : FastApi h) (trivial_routes : TrivialRoutes h) (req : HttpRequest) (v : Value h)
      → is_websocket_upgrade (handshaking lib p app) (head lib p req) ≡ false
      → lookup_trivial trivial_routes req.method req.path ≡ none
      → (dispatch p app req.method req.path (incoming_of lib req)).answer ≡ streamed v
      → (handle_request lib p app trivial_routes req).response
        ≡ record { status = 200; headers = []; body = [] }
  unfolding handle_request python_dispatch status_or_ok all_headers
  handle_request-streamed app trivial_routes req v plain slow e = rw (plain, slow, e) refl

  dispatch-fast_path :
      (app : FastApi h) (method path : Str) (i : Incoming) (r : Route h) (params : Params)
      → auto_served p.formats p.runtime p.to_lowercase app method path ≡ none
      → select app.routes method path ≡ matched r params
      → is_fast app r params ≡ true
      → (dispatch p app method path i).answer ≡ fast_path p.formats p.runtime r method
  unfolding dispatch run_route
  dispatch-fast_path app method path i r params no_page selected fast =
      rw (no_page, selected, fast) refl

  -- The shortcut of the snapshot is sound. A request that is no HEAD and no upgrade request, that no page
  -- answers, whose path and method one route matches and the snapshot has, in an application without a
  -- default response class, is answered as the dispatcher answers it, if that has a body. The route's
  -- handler is a plain function, its value no Starlette response, and its status has three digits and
  -- allows content.
  pub handle_request-dispatch :
      (app : FastApi h) (req : HttpRequest) (r : Route h) (params : Params) (t : TrivialRoute h)
      (v : Value h) (answer : Response)
      → is_websocket_upgrade (handshaking lib p app) (head lib p req) ≡ false
      → req.method ≢ bytes "HEAD"
      → auto_served p.formats p.runtime p.to_lowercase app req.method req.path ≡ none
      → candidates app.routes req.method req.path ≡ (r, params) ∷ []
      → lookup_trivial (snapshot_trivial_routes app) req.method req.path ≡ some t
      → app.default_response_class ≡ none
      → r.is_async ≡ false
      → p.runtime.call0 r.handler ≡ some v
      → p.runtime.is_response v ≡ false
      → is_no_content_status (status_of r) ≡ false
      → (leb 100 (status_of r) && ltb (status_of r) 1000) ≡ true
      → (dispatch p app req.method req.path (incoming_of lib req)).answer ≡ response answer
      → is_empty answer.body ≡ false
      → (handle_request lib p app (snapshot_trivial_routes app) req).response ≡ answer
  unfolding handle_request
  handle_request-dispatch app req r params t v answer plain other no_page one found no_default sync
        called no_response content three dispatched full =
      let (selected, of_r) = snapshot-select app req.method req.path r params t other one found in
      let fast =
        snapshot-is_fast app req.method req.path r params t other one found
        ∙ ap is_none no_default in
      rw (plain, found, of_r)
        (dispatch_trivial-fast_path p.formats p.runtime r req.method v answer other sync called
          no_response content three
          (sym (
              dispatch-fast_path app req.method req.path (incoming_of lib req) r params no_page
                selected fast)
            ∙ dispatched)
          full)
