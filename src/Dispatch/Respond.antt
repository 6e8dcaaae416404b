-- ===== src/Dispatch/Respond.antt =====
-- crates/fr-pyiface/src/app.rs, `_dispatch`: from the handler's value to the answer, behind the fast
-- path, and `is_json_response_class`.
pub mod Laws
pub mod Tests
use hyperfastapi.Prelude.{
  ℕ, Bool, true, false, ◌&&◌, ◌||◌, not, Option, none, some, List, [], ◌∷◌, if◌then◌else◌,
  unwrap_or, or_option,
}
use hyperfastapi.Prelude.Int.{pos}
use hyperfastapi.Prelude.Text.{Str, bytes}
use hyperfastapi.Value.{Host, Value, Kwargs, bool, int}
use hyperfastapi.Json.{Formats}
use hyperfastapi.Route.{Route}
use hyperfastapi.App.{FastApi}
use hyperfastapi.Dispatch.Fast.{
  Runtime, Response, Answer, response, streamed, raised, is_no_content_status, json_headers,
  encoded, status_of, serialize_value_to_json, extract_response_object,
}

-- Python's side of an answer: `none` where it raises.
pub record Rendering (h : Host) : Type 0 where
  -- `model.model_validate(value)` and `validated.model_dump(**kwargs)`
  pub model_validate : Value h → Value h → Option (Value h)
  pub model_dump : Value h → Kwargs h → Option (Value h)
  -- `response_class(content, status_code=status)`
  pub construct : Value h → Value h → ℕ → Option (Value h)
  -- whether Starlette's JSONResponse can be read, and `cls is JSONResponse`
  pub json_response : Bool
  pub is_json_response : Value h → Bool
  -- whether `issubclass` can be read, and `issubclass(cls, JSONResponse)`
  pub builtins : Bool
  pub issubclass : Value h → Option Bool

module _ {h : Host} where
  abbrev set_true : Bool → Str → Kwargs h → Kwargs h
  set_true test k rest = if test then (k, bool true) ∷ rest else rest

  abbrev set_value : Str → Option (Value h) → Kwargs h → Kwargs h
  set_value k none rest = rest
  set_value k (some v) rest = (k, v) ∷ rest

  -- The keyword arguments of `model_dump`.
  unfoldable pub dump_kwargs : Route h → Kwargs h
  dump_kwargs r =
      (bytes "by_alias", bool r.response_model_by_alias)
      ∷ set_true r.response_model_exclude_unset (bytes "exclude_unset") (
          set_true r.response_model_exclude_none (bytes "exclude_none") (
            set_true r.response_model_exclude_defaults (bytes "exclude_defaults") (
              set_value (bytes "include") r.response_model_include
                (set_value (bytes "exclude") r.response_model_exclude []))))

  -- The response class of the matched route, or else the application's.
  abbrev pub effective_class : FastApi h → Route h → Option (Value h)
  effective_class app r = or_option r.response_class app.default_response_class

module _ {h : Host} (fmt : Formats h) (rt : Runtime h) (py : Rendering h) where
  open py use {
    model_validate, model_dump, construct, json_response, is_json_response, builtins, issubclass,
  }

  unfoldable pub is_json_response_class : Value h → Bool
  is_json_response_class cls =
      if not json_response
      then false
      else if is_json_response cls
      then true
      else if not builtins
      then false
      else unwrap_or (issubclass cls) false

  abbrev dumped : Route h → Option (Value h) → Option (Value h)
  dumped r none = none
  dumped r (some validated) = model_dump validated (dump_kwargs r)

  -- Validated by the response model, and dumped.
  unfoldable pub payload : Route h → Value h → Option (Value h)
  unfolding dump_kwargs
  payload r v = elim r.response_model [
    | none ↦ some v
    | some model ↦ dumped r (model_validate model v)
  ]

  abbrev pub constructed : Bool → Option (Value h) → Answer h
  constructed is_head none = raised
  constructed is_head (some v) = extract_response_object fmt rt v is_head

  abbrev pub wrapped : Option (Value h) → ℕ → Bool → Value h → Answer h
  wrapped none status is_head v = encoded fmt rt status is_head (serialize_value_to_json fmt rt v)
  wrapped (some rc) status is_head v =
      if not (is_json_response_class rc)
      then constructed is_head (construct rc v status)
      else encoded fmt rt status is_head (serialize_value_to_json fmt rt v)

  abbrev pub wrapped_payload : Option (Value h) → ℕ → Bool → Option (Value h) → Answer h
  wrapped_payload rc status is_head none = raised
  wrapped_payload rc status is_head (some v) = wrapped rc status is_head v

  -- A Starlette response is passed on, a status without content answered at once.
  unfoldable pub respond : Route h → Option (Value h) → Bool → Value h → Answer h
  unfolding payload is_json_response_class serialize_value_to_json extract_response_object
      is_no_content_status
  respond r rc is_head v =
      if rt.is_response v
      then (if rt.is_streamed v then streamed v else extract_response_object fmt rt v is_head)
      else if is_no_content_status (status_of r)
      then response (record { status = status_of r; headers = []; body = [] })
      else wrapped_payload rc (status_of r) is_head (payload r v)
