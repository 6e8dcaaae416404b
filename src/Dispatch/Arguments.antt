-- ===== src/Dispatch/Arguments.antt =====
-- crates/fr-pyiface/src/app.rs, `_dispatch`: from a matched route's plan and the request to the
-- keyword arguments, or to the 422 answer.
pub mod Laws
pub mod Required
pub mod Placeholders
pub mod Typed
use hyperfastapi.Prelude.{
  Bool, true, false, ◌&&◌, not, Option, none, some, List, [], ◌∷◌, ◌++◌, if◌then◌else◌, unwrap_or,
  is_empty,
}
use hyperfastapi.Prelude.Text.{Str, bytes}
use hyperfastapi.Value.{Host, Value, Kwargs, set_item}
use hyperfastapi.Path.{Params}
use hyperfastapi.Route.{ParamSpec, Plan, PlanEntry, nil, cons, not_dict, spec}
use hyperfastapi.Params.Errors.{ValidationErrorEntry, Checked, ok, err, validation_detail}
use hyperfastapi.Params.Cast.{Coercions}
use hyperfastapi.Params.Extract.{Extraction, value, use_default, Request, extract_one_param}
use hyperfastapi.Body.{Validation, BodyState, push, extract_body_params}
use hyperfastapi.Dispatch.Request.{
  Headers, HeaderLookup, header_lookup, cookie_dict, content_type, any_has_form,
  content_type_errors,
}

-- `urllib.parse.parse_qs` with blank values kept, and `parse_form_body` of the Python layer; `none`
-- where they raise.
pub record Parsers (h : Host) : Type 0 where
  pub parse_qs : Str → Option (List (Str × List Str))
  pub parse_form_body : Str → Str → Option (List (Str × Value h))

-- A request as `_dispatch` receives it.
pub record Incoming : Type 0 where
  pub query_string : Option Str
  pub headers : Option Headers
  pub body : Option Str

pub record Bindings (h : Host) : Type 0 where
  pub kwargs : Kwargs h
  pub errors : List ValidationErrorEntry

-- The arguments, or the 422 answer's body; `raised` is an exception.
pub data Bound (h : Host) : Type 0 where
  arguments : Kwargs h → Bound h
  invalid : Value h → Bound h
  raised : Bound h

module _ {h : Host} where
  abbrev collected : Bindings h → Checked (Extraction h) → Bindings h
  collected b (ok (value name v)) = record b { kwargs = set_item name v b.kwargs }
  collected b (ok use_default) = b
  collected b (err e) = record b { errors = b.errors ++ e ∷ [] }

  -- The answer after both stages.
  abbrev pub settled : List ValidationErrorEntry → Option (BodyState h) → Bound h
  settled errors none = raised
  settled errors (some s) =
      if not (is_empty errors)
      then invalid (validation_detail errors s.error_dicts)
      else if not (is_empty s.error_dicts)
      then invalid (validation_detail errors s.error_dicts)
      else arguments s.kwargs

module _ {h : Host} (py : Coercions h) where
  -- The loop over the plan.
  unfoldable pub collect_params : Request h → Plan h → Bindings h → Bindings h
  collect_params req nil b = b
  collect_params req (cons (not_dict v) plan) b = collect_params req plan b
  collect_params req (cons (spec s dep_plan) plan) b =
      collect_params req plan (collected b (extract_one_param py req s))

module _ {h : Host} (parsers : Parsers h) where
  unfoldable pub query_dict : Option Str → Option (List (Str × List Str))
  query_dict none = some []
  query_dict (some qs) = if is_empty qs then some [] else parsers.parse_qs qs

  unfoldable pub form_dict : Plan h → Str → HeaderLookup → Option (List (Str × Value h))
  unfolding any_has_form content_type
  form_dict plan body_bytes m =
      if any_has_form plan then parsers.parse_form_body body_bytes (content_type m) else some []

  abbrev request_of :
      Params
      → HeaderLookup
      → Option (List (Str × List Str))
      → Option (List (Str × Value h))
      → Option (Request h)
  request_of path_params m (some query) (some form) = some (record {
    path_params = path_params;
    query = query;
    headers = m;
    cookies = cookie_dict m;
    form = form;
  })
  request_of path_params m _ _ = none

  -- What is parsed of the request.
  unfoldable pub parse_request : Plan h → Params → Incoming → Option (Request h)
  unfolding query_dict form_dict header_lookup
  parse_request plan path_params i =
      let m = header_lookup i.headers in
      request_of path_params m (query_dict i.query_string) (form_dict plan (unwrap_or i.body []) m)

module _ {h : Host} (py : Coercions h) (pydantic : Validation h) where
  -- Parameters, content type, body.
  unfoldable pub bind_arguments : Plan h → Str → Request h → Bound h
  unfolding collect_params content_type_errors extract_body_params
  bind_arguments plan body_bytes req =
      let b = collect_params py req plan (record { kwargs = []; errors = [] }) in
      settled b.errors (
        extract_body_params pydantic plan body_bytes (record {
          kwargs = b.kwargs;
          error_dicts = content_type_errors plan body_bytes req.headers;
        }))

  abbrev pub bind_parsed : Plan h → Str → Option (Request h) → Bound h
  bind_parsed plan body_bytes none = raised
  bind_parsed plan body_bytes (some req) = bind_arguments plan body_bytes req

  -- From the selection of a route to the keyword arguments that its plan reads from the request.
  unfoldable pub bind : Parsers h → Plan h → Params → Incoming → Bound h
  unfolding bind_arguments parse_request
  bind parsers plan path_params i =
      bind_parsed plan (unwrap_or i.body []) (parse_request parsers plan path_params i)
