-- ===== src/Server/Native/Delivery.antt =====
-- A request over TCP for a path with values in it, from the socket to the handler and back.
pub mod Tests
use hyperfastapi.Prelude.{
  ℕ, ◌≡◌, refl, sym, ap, ap₂, ◌∙◌, Bool, true, false, ◌&&◌, Option, none, some, List, [], ◌∷◌, ◌++◌,
  map, arith, is_empty, leb, ltb, if◌then◌else◌,
}
use hyperfastapi.Prelude.Text.{Str, bytes, str_eq, split}
use hyperfastapi.Value.{Host, Value}
use hyperfastapi.Path.Spec.{names}
use hyperfastapi.Path.Filling.{IsPlain}
use hyperfastapi.Route.{Route}
use hyperfastapi.App.{FastApi}
use hyperfastapi.Dispatch.Select.Spec.{candidates}
use hyperfastapi.Dispatch.Fast.{
  Response, response, is_no_content_status, status_of, json_headers, serialize_value_to_json,
}
use hyperfastapi.Dispatch.Arguments.{query_dict}
use hyperfastapi.Dispatch.Arguments.Placeholders.{
  PathValues, AllWritable, AreDistinct, Declared, as_kwargs,
}
use hyperfastapi.Dispatch.Respond.{effective_class, respond, payload}
use hyperfastapi.Dispatch.Docs.{auto_served}
use hyperfastapi.Dispatch.Handle.{Called, Run, needs_deps}
use hyperfastapi.Dispatch.Whole.{Platform, dispatch}
use hyperfastapi.Dispatch.Whole.Delivery.{is_head, filled, dispatch-delivered}
use hyperfastapi.Server.{TrivialRoutes, lookup_trivial}
use hyperfastapi.Server.Status.{status_or_ok}
use hyperfastapi.Server.Native.{
  HttpRequest, Library, incoming_of, all_headers, python_dispatch, handshaking, head,
  handle_request,
}
use hyperfastapi.Websocket.{is_websocket_upgrade}

module _ {h : Host} (lib : Library) (p : Platform h) (app : FastApi h) (r : Route h)
    (values : PathValues) where
  payload-plain :
      (v : Value h) → r.response_model ≡ none → payload p.formats p.runtime p.rendering r v ≡ some v
  unfolding payload
  payload-plain v no_model = ground (arith, no_model)

  respond-plain :
      (v : Value h) (body : Str)
      → is_head r ≡ false
      → p.runtime.is_response v ≡ false
      → is_no_content_status (status_of r) ≡ false
      → r.response_model ≡ none
      → effective_class app r ≡ none
      → serialize_value_to_json p.formats p.runtime v ≡ some body
      → respond p.formats p.runtime p.rendering r (effective_class app r) (is_head r) v
        ≡ response (record { status = status_of r; headers = json_headers; body = body })
  unfolding respond
  respond-plain v body get plain content no_model no_class json =
      simp (get, plain, content, payload-plain v no_model, no_class, json)

  -- A request over TCP that is no upgrade and that the snapshot does not answer, for the path that a
  -- route's template becomes when its placeholders are filled with integers of an i64's range, in
  -- decimal, and with texts without a slash, is answered with the route's status and, as JSON, what the
  -- route's handler returns when it is called with exactly these values. The conditions are those under
  -- which the handler is called so; the method is not HEAD; the value is encoded and no Starlette
  -- response; the status has three digits and allows content; there is no response model and no
  -- response class; and the library accepts the content type.
  pub handle_request-delivered :
      (trivial_routes : TrivialRoutes h) (req : HttpRequest) (before after : List (Route h))
      (query : List (Str × List Str)) (v : Value h) (body : Str)
      → req.method ≡ r.method
      → req.path ≡ filled r values
      → is_websocket_upgrade (handshaking lib p app) (head lib p req) ≡ false
      → lookup_trivial trivial_routes req.method req.path ≡ none
      → app.routes ≡ before ++ r ∷ after
      → candidates before r.method (filled r values) ≡ []
      → auto_served p.formats p.runtime p.to_lowercase app r.method (filled r values) ≡ none
      → map (λ v. v.0) values ≡ names (split b'/' r.path)
      → is_empty values ≡ false
      → IsPlain (split b'/' r.path)
      → Declared r.param_plan values
      → AllWritable values
      → AreDistinct values
      → needs_deps app r ≡ false
      → query_dict p.parsers (incoming_of lib req).query_string ≡ some query
      → p.framework.call r.handler (as_kwargs values) ≡ Called.returned v
      → is_head r ≡ false
      → p.runtime.is_response v ≡ false
      → is_no_content_status (status_of r) ≡ false
      → r.response_model ≡ none
      → effective_class app r ≡ none
      → serialize_value_to_json p.formats p.runtime v ≡ some body
      → status_or_ok (status_of r) ≡ status_of r
      → all_headers lib.is_header json_headers ≡ true
      → (handle_request lib p app trivial_routes req).response
        ≡ record { status = status_of r; headers = json_headers; body = body }
  unfolding handle_request python_dispatch
  handle_request-delivered trivial_routes req before after query v body m at plain slow table
        earlier no_page named full one declared w distinct alone parsed called get no_response
        content no_model no_class json three accepted =
      let done =
        dispatch-delivered p app r values (incoming_of lib req) before after query v table earlier
          no_page named full one declared w distinct alone parsed called in
      let answer = respond-plain v body get no_response content no_model no_class json in
      let reached = ap₂ (λ a b. (dispatch p app a b (incoming_of lib req)).answer) m at in
      let run = reached ∙ ap (λ (run : Run h). run.answer) done ∙ answer in
      rw (plain, slow, run, accepted, three) refl
