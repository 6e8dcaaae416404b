-- ===== src/Server/Trivial.antt =====
-- crates/fr-pyiface/src/server.rs, `dispatch_trivial`, and how it stands to the fast path of
-- `_dispatch`.
use hyperfastapi.Prelude.{
  ℕ, ◌≡◌, ◌≢◌, refl, ap, ◌∙◌, Bool, true, false, Option, none, some, [], arith, leb, ltb, ◌&&◌,
  if◌then◌else◌, or_option, is_empty,
}
use hyperfastapi.Prelude.Text.{Str, bytes, str_eq, str_eq_iff}
use hyperfastapi.Value.{Host, Value}
use hyperfastapi.Json.{Formats, encode}
use hyperfastapi.Route.{Route}
use hyperfastapi.Dispatch.Fast.{
  Runtime, Response, Answer, response, is_no_content_status, json_headers, serialize_value_to_json,
  status_of, encoded, fast_path,
}
use hyperfastapi.Server.{TrivialRoute, trivial_of}
use hyperfastapi.Server.Status.{status_or_ok}

-- The answer to a handler that raises, or to a value that has no JSON form.
unfoldable pub internal_error : Response
internal_error = record {
  status = 500;
  headers = json_headers;
  body = bytes "{\"detail\":\"Internal Server Error\"}";
}

module _ {h : Host} (fmt : Formats h) (rt : Runtime h) where
  abbrev trivial_body : Bool → Option (Value h) → Option Str
  trivial_body is_head none = none
  trivial_body is_head (some v) =
      if is_head then some [] else or_option (encode fmt v) (serialize_value_to_json fmt rt v)

  abbrev built : ℕ → Option Str → Response
  built status none = internal_error
  built status (some body) = record {
    status = status_or_ok status;
    headers = if is_empty body then [] else json_headers;
    body = body;
  }

  unfoldable pub dispatch_trivial : TrivialRoute h → Response
  unfolding internal_error status_or_ok serialize_value_to_json
  dispatch_trivial t =
      built t.status_code (
        trivial_body t.is_head
          (if t.is_async then rt.drive_async t.handler else rt.call0 t.handler))

  or_same : (a b : Option Str) → or_option a (or_option a b) ≡ or_option a b
  or_same none b = refl
  or_same (some s) b = refl

  built-some :
      (status : ℕ) (body : Str)
      → (leb 100 status && ltb status 1000) ≡ true
      → is_empty body ≡ false
      → built status (some body) ≡ record { status = status; headers = json_headers; body = body }
  unfolding status_or_ok
  built-some status body three full = rw (three, full) refl

  response_same : {a b : Response} → ◌≡◌ {A = Answer h} (response a) (response b) → a ≡ b
  response_same e = cc

  built-encoded :
      (status : ℕ)
      → (leb 100 status && ltb status 1000) ≡ true
      → (o : Option Str) (answer : Response) → is_empty answer.body ≡ false
      → encoded fmt rt status false o ≡ response answer
      → built status o ≡ answer
  built-encoded status three none answer full e = cc
  built-encoded status three (some body) answer full e =
      built-some status body three (ap (λ (a : Response). is_empty a.body) (response_same e) ∙ full)
      ∙ response_same e

  -- For a plain handler whose value is no Starlette response, and a three-digit status that allows
  -- content, `dispatch_trivial` answers a request that is no HEAD request as the fast path of
  -- `_dispatch` does, if that has a body.
  pub dispatch_trivial-fast_path :
      (r : Route h) (method : Str) (v : Value h) (answer : Response)
      → method ≢ bytes "HEAD"
      → r.is_async ≡ false
      → rt.call0 r.handler ≡ some v
      → rt.is_response v ≡ false
      → is_no_content_status (status_of r) ≡ false
      → (leb 100 (status_of r) && ltb (status_of r) 1000) ≡ true
      → fast_path fmt rt r method ≡ response answer
      → is_empty answer.body ≡ false
      → dispatch_trivial (trivial_of r false) ≡ answer
  unfolding dispatch_trivial fast_path serialize_value_to_json status_or_ok
  dispatch_trivial-fast_path r method v answer other plain called no_response content three fast
        full =
      rw (plain, called, or_same (encode fmt v) (rt.dumps v))
        (built-encoded (status_of r) three (or_option (encode fmt v) (rt.dumps v)) answer full
          (rw (plain, called, content, no_response, not_head) at fast))
    where
      not_head : str_eq method (bytes "HEAD") ≡ false
      not_head = ground (arith, str_eq_iff method (bytes "HEAD"))

  -- For a status that forbids content, the fast path of `_dispatch` answers with no body, and
  -- `dispatch_trivial` with the JSON of the handler's value.
  pub no_content_body :
      (r : Route h) (method : Str) (v : Value h) (body : Str)
      → r.is_async ≡ false
      → rt.call0 r.handler ≡ some v
      → is_no_content_status (status_of r) ≡ true
      → serialize_value_to_json fmt rt v ≡ some body
      → (fast_path fmt rt r method
          ≡ response (record { status = status_of r; headers = []; body = [] }))
        × ((dispatch_trivial (trivial_of r false)).body ≡ body)
  unfolding dispatch_trivial fast_path serialize_value_to_json
  no_content_body r method v body plain called forbidden encoded = (
    rw (plain, called, forbidden) refl,
    rw (plain, called, or_same (encode fmt v) (rt.dumps v), encoded) refl,
  )
