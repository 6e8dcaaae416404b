-- ===== src/Dispatch/Fast.antt =====
-- crates/fr-pyiface/src/app.rs: the trivial fast path of `_dispatch`, `is_no_content_status`,
-- `extract_response_object` and `serialize_value_to_json`.
use hyperfastapi.Prelude.{
  ℕ, Bool, ◌&&◌, ◌||◌, Option, none, some, List, [], ◌∷◌, map, ltb, leb, ◌==◌, if◌then◌else◌,
  unwrap_or, or_option, is_empty, is_none,
}
use hyperfastapi.Prelude.Int.{pos}
use hyperfastapi.Prelude.Text.{Str, bytes, str_eq}
use hyperfastapi.Value.{Host, Value}
use hyperfastapi.Json.{Formats, encode}
use hyperfastapi.Path.{Params}
use hyperfastapi.Route.{Route}
use hyperfastapi.App.{FastApi, is_empty_plan}
use hyperfastapi.Server.Status.{to_u16}

-- Python's side of a call: `none` where it raises.
pub record Runtime (h : Host) : Type 0 where
  -- `handler()`, `call_with_async_handling(handler, {})`, and `try_drive_async` on `handler()`
  pub call0 : Value h → Option (Value h)
  pub call_async : Value h → Option (Value h)
  pub drive_async : Value h → Option (Value h)
  -- `isinstance` of Starlette's Response, and of its streaming and file responses
  pub is_response : Value h → Bool
  pub is_streamed : Value h → Bool
  -- attributes of a Response; the inner `none` of `body` where it is no byte string, and `none` of
  -- `raw_headers` where it is no list of pairs of byte strings
  pub status_code : Value h → Option ℕ
  pub body : Value h → Option (Option Str)
  pub raw_headers : Value h → Option (List (Str × Str))
  pub header_items : Value h → Option (List (Str × Str))
  -- `String::from_utf8_lossy`
  pub from_utf8_lossy : Str → Str
  -- `json.dumps(value, default=jsonable_encoder, ...)`
  pub dumps : Value h → Option Str

pub record Response : Type 0 where
  pub status : ℕ
  pub headers : List (Str × Str)
  pub body : Str

-- A streamed response is left to the ASGI layer.
pub data Answer (h : Host) : Type 0 where
  response : Response → Answer h
  streamed : Value h → Answer h
  raised : Answer h

unfoldable pub is_no_content_status : ℕ → Bool
is_no_content_status s = s == 204 || s == 304 || leb 100 s && ltb s 200

abbrev pub json_headers : List (Str × Str)
json_headers = (bytes "content-type", bytes "application/json") ∷ []

abbrev pub status_of : {h : Host} → Route h → ℕ
status_of r = to_u16 (unwrap_or r.status_code (pos 200))

-- The condition of the fast path, with the response class as the selection has it.
unfoldable pub is_fast : {h : Host} → FastApi h → Route h → Params → Bool
is_fast app r path_params =
    is_empty_plan r.param_plan
    && is_empty r.dependencies
    && is_empty app.dependencies
    && is_none r.response_model
    && is_none (or_option r.response_class app.default_response_class)
    && is_empty path_params

module _ {h : Host} (fmt : Formats h) (rt : Runtime h) where
  open rt use {call0, call_async, is_response, is_streamed, from_utf8_lossy}

  unfoldable pub serialize_value_to_json : Value h → Option Str
  serialize_value_to_json v = or_option (encode fmt v) (rt.dumps v)

  abbrev pub decoded : Option (List (Str × Str)) → List (Str × Str)
  decoded none = []
  decoded (some items) = map (λ kv. (from_utf8_lossy kv.0, from_utf8_lossy kv.1)) items

  abbrev pub or_items : List (Str × Str) → Option (List (Str × Str)) → Option (List (Str × Str))
  or_items [] items = items
  or_items (kv ∷ kvs) items = some (kv ∷ kvs)

  abbrev pub unpacked : Bool → Option ℕ → Option (Option Str) → Option (List (Str × Str)) → Answer h
  unpacked is_head (some status) (some content) (some headers) = response (record {
    status = status;
    headers = headers;
    body = if is_head || is_no_content_status status then [] else unwrap_or content [];
  })
  unpacked is_head _ _ _ = raised

  unfoldable pub extract_response_object : Value h → Bool → Answer h
  unfolding is_no_content_status
  extract_response_object v is_head =
      unpacked is_head (rt.status_code v) (rt.body v)
        (or_items (decoded (rt.raw_headers v)) (rt.header_items v))

  abbrev pub encoded : ℕ → Bool → Option Str → Answer h
  encoded status is_head none = raised
  encoded status is_head (some body) =
      response
        (record { status = status; headers = json_headers; body = if is_head then [] else body })

  -- What becomes of the handler's value.
  abbrev pub answered : ℕ → Bool → Option (Value h) → Answer h
  answered status is_head none = raised
  answered status is_head (some v) =
      if is_no_content_status status
      then response (record { status = status; headers = []; body = [] })
      else if is_response v
      then (if is_streamed v then streamed v else extract_response_object v is_head)
      else encoded status is_head (serialize_value_to_json v)

  unfoldable pub fast_path : Route h → Str → Answer h
  unfolding is_no_content_status extract_response_object serialize_value_to_json
  fast_path r method =
      answered (status_of r) (str_eq method (bytes "HEAD"))
        (if r.is_async then call_async r.handler else call0 r.handler)
