-- ===== src/Dispatch/Respond/Laws.antt =====
-- What an answer never carries.
use hyperfastapi.Prelude.{
  ℕ, ◌≡◌, refl, Bool, true, false, ◌||◌, ◌&&◌, not, Option, none, some, List, [], arith,
  if◌then◌else◌,
}
use hyperfastapi.Prelude.Text.{Str, bytes, str_eq}
use hyperfastapi.Value.{Host, Value}
use hyperfastapi.Json.{Formats}
use hyperfastapi.Route.{Route}
use hyperfastapi.Dispatch.Fast.{
  Runtime, Response, Answer, response, streamed, raised, is_no_content_status, encoded, status_of,
  serialize_value_to_json, unpacked, extract_response_object, answered, fast_path,
}
use hyperfastapi.Dispatch.Respond.{
  Rendering, is_json_response_class, payload, constructed, wrapped, wrapped_payload, respond,
}

-- No body is sent to a HEAD request, nor with a status that forbids one.
pub data Bodied {h : Host} (is_head : Bool) : Answer h → Type 0 where
  sent :
      {r : Response}
      → ((is_head || is_no_content_status r.status) ≡ true → r.body ≡ [])
      → Bodied is_head (response r)
  left : {v : Value h} → Bodied is_head (streamed v)
  failed : Bodied is_head raised

module _ {h : Host} where
  if-Bodied :
      (c is_head : Bool) (x y : Answer h)
      → (c ≡ true → Bodied is_head x)
      → (c ≡ false → Bodied is_head y)
      → Bodied is_head (if c then x else y)
  if-Bodied true is_head x y p q = p refl
  if-Bodied false is_head x y p q = q refl

module _ {h : Host} (fmt : Formats h) (rt : Runtime h) where
  encoded-Bodied :
      (status : ℕ) (is_head : Bool) (o : Option Str)
      → is_no_content_status status ≡ false
      → Bodied is_head (encoded fmt rt status is_head o)
  encoded-Bodied status is_head none content = failed
  encoded-Bodied status true (some body) content = sent (λ e. refl)
  encoded-Bodied status false (some body) content = sent (λ e. absurd (cc))

  unpacked-Bodied :
      (is_head : Bool) (status : Option ℕ) (content : Option (Option Str))
      (headers : Option (List (Str × Str)))
      → Bodied is_head (unpacked fmt rt is_head status content headers)
  unpacked-Bodied is_head (some s) (some c) (some hs) = sent (λ e. rw e refl)
  unpacked-Bodied is_head (some s) (some c) none = failed
  unpacked-Bodied is_head (some s) none hs = failed
  unpacked-Bodied is_head none c hs = failed

  pub extract_response_object-Bodied :
      (v : Value h) (is_head : Bool) → Bodied is_head (extract_response_object fmt rt v is_head)
  unfolding extract_response_object
  extract_response_object-Bodied v is_head = unpacked-Bodied is_head _ _ _

  -- The fast path too sends no body to a HEAD request, nor with a status that forbids one.
  pub fast_path-Bodied :
      (r : Route h) (method : Str)
      → Bodied (str_eq method (bytes "HEAD")) (fast_path fmt rt r method)
  unfolding fast_path
  fast_path-Bodied r method =
      go (if r.is_async then rt.call_async r.handler else rt.call0 r.handler)
    where
      go :
          (o : Option (Value h))
          → Bodied
              (str_eq method (bytes "HEAD"))
              (answered fmt rt (status_of r) (str_eq method (bytes "HEAD")) o)
      go none = failed
      go (some v) =
          if-Bodied (is_no_content_status (status_of r)) _ _ _ (λ e. sent (λ _. refl))
            (λ content.
              if-Bodied (rt.is_response v) _ _ _
                (λ e.
                  if-Bodied (rt.is_streamed v) _ _ _ (λ _. left)
                    (λ _. extract_response_object-Bodied v _))
                (λ e. encoded-Bodied (status_of r) _ _ content))

module _ {h : Host} (fmt : Formats h) (rt : Runtime h) (py : Rendering h) where
  constructed-Bodied :
      (is_head : Bool) (o : Option (Value h)) → Bodied is_head (constructed fmt rt py is_head o)
  constructed-Bodied is_head none = failed
  constructed-Bodied is_head (some v) = extract_response_object-Bodied fmt rt v is_head

  wrapped-Bodied :
      (rc : Option (Value h)) (status : ℕ) (is_head : Bool) (v : Value h)
      → is_no_content_status status ≡ false
      → Bodied is_head (wrapped fmt rt py rc status is_head v)
  wrapped-Bodied none status is_head v content = encoded-Bodied fmt rt status is_head _ content
  wrapped-Bodied (some rc) status is_head v content =
      if-Bodied (not (is_json_response_class fmt rt py rc)) is_head
        (constructed fmt rt py is_head (py.construct rc v status))
        (encoded fmt rt status is_head (serialize_value_to_json fmt rt v))
        (λ _. constructed-Bodied is_head (py.construct rc v status))
        (λ _. encoded-Bodied fmt rt status is_head (serialize_value_to_json fmt rt v) content)

  wrapped_payload-Bodied :
      (rc : Option (Value h)) (status : ℕ) (is_head : Bool) (o : Option (Value h))
      → is_no_content_status status ≡ false
      → Bodied is_head (wrapped_payload fmt rt py rc status is_head o)
  wrapped_payload-Bodied rc status is_head none content = failed
  wrapped_payload-Bodied rc status is_head (some v) content =
      wrapped-Bodied rc status is_head v content

  -- Whatever the handler returns, no body is sent to a HEAD request, nor with a status that forbids
  -- one, be it the route's or that of a response object.
  pub respond-Bodied :
      (r : Route h) (rc : Option (Value h)) (is_head : Bool) (v : Value h)
      → Bodied is_head (respond fmt rt py r rc is_head v)
  unfolding respond
  respond-Bodied r rc is_head v =
      if-Bodied (rt.is_response v) is_head _ _
        (λ _.
          if-Bodied (rt.is_streamed v) is_head _ _ (λ _. left)
            (λ _. extract_response_object-Bodied fmt rt v is_head))
        (λ _.
          if-Bodied (is_no_content_status (status_of r)) is_head _ _ (λ _. sent (λ _. refl))
            (λ content.
              wrapped_payload-Bodied rc (status_of r) is_head (payload fmt rt py r v) content))

  -- On a route without a response model and a response class, the fast path answers a handler's value
  -- as the general path does, unless the value is a Starlette response and the route's status forbids
  -- content.
  pub answered-respond :
      (r : Route h) (is_head : Bool) (v : Value h)
      → r.response_model ≡ none
      → (rt.is_response v && is_no_content_status (status_of r)) ≡ false
      → answered fmt rt (status_of r) is_head (some v) ≡ respond fmt rt py r none is_head v
  unfolding respond payload
  answered-respond r is_head v plain apart = ground (arith, plain, apart)

  -- In that case the fast path drops the response's status, headers and body, and the general path
  -- passes them on.
  pub fast_path_drops :
      (r : Route h) (is_head : Bool) (v : Value h)
      → rt.is_response v ≡ true
      → rt.is_streamed v ≡ false
      → is_no_content_status (status_of r) ≡ true
      → (answered fmt rt (status_of r) is_head (some v)
          ≡ response (record { status = status_of r; headers = []; body = [] }))
        × (respond fmt rt py r none is_head v ≡ extract_response_object fmt rt v is_head)
  unfolding respond
  fast_path_drops r is_head v object whole forbidden = (rw forbidden refl, rw (object, whole) refl)
