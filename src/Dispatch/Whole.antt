-- ===== src/Dispatch/Whole.antt =====
-- crates/fr-pyiface/src/app.rs: `FastAPI._dispatch` from the request to the answer, and
-- `_dispatch_native`.
pub mod Stages
pub mod Laws
pub mod Delivery
pub mod Reset
pub mod Tests
use hyperfastapi.Prelude.{
  Bool, true, false, Option, none, some, List, [], ◌∷◌, if◌then◌else◌, unwrap_or,
}
use hyperfastapi.Prelude.Text.{Str, bytes, str_eq}
use hyperfastapi.Value.{Host, Value, Kwargs}
use hyperfastapi.Json.{Formats}
use hyperfastapi.Path.{Params}
use hyperfastapi.Route.{Route}
use hyperfastapi.App.{FastApi, is_trivial_route}
use hyperfastapi.Params.Cast.{Coercions}
use hyperfastapi.Params.Extract.{Request}
use hyperfastapi.Body.{Validation}
use hyperfastapi.Dispatch.Select.{
  Selection, matched, redirect, method_not_allowed, not_found, location, select,
}
use hyperfastapi.Dispatch.Fast.{
  Runtime, Answer, response, raised, json_headers, serialize_value_to_json, is_fast, fast_path,
}
use hyperfastapi.Dispatch.Arguments.{
  Parsers, Incoming, Bound, arguments, invalid, bind_arguments, parse_request,
}
use hyperfastapi.Dispatch.Respond.{Rendering}
use hyperfastapi.Dispatch.Docs.{auto_served}
use hyperfastapi.Dispatch.Handle.{Framework, Run, calling, quiet, error_answer, handle}

-- All that Python and its libraries supply to `_dispatch`.
pub record Platform (h : Host) : Type 0 where
  pub formats : Formats h
  pub runtime : Runtime h
  pub rendering : Rendering h
  pub framework : Framework h
  pub coercions : Coercions h
  pub validation : Validation h
  pub parsers : Parsers h
  pub to_lowercase : Str → Str

module _ {h : Host} where
  abbrev refused : Bool → Str → Run h
  refused exists detail = quiet (
      response
        (record { status = if exists then 405 else 404; headers = json_headers; body = detail }))

module _ {h : Host} (p : Platform h) where
  -- The 422 answer, and the exceptions of the binding.
  abbrev pub bound_run : FastApi h → Route h → Bool → Request h → Str → Bound h → Run h
  bound_run app r is_head req body (arguments kwargs) =
      handle p.formats p.runtime p.rendering p.framework app r is_head req body kwargs
  bound_run app r is_head req body (invalid detail) =
      quiet (
        error_answer p.formats p.runtime 422 []
          (serialize_value_to_json p.formats p.runtime detail))
  bound_run app r is_head req body Bound.raised = quiet Answer.raised

  abbrev pub parsed_run : FastApi h → Route h → Bool → Str → Option (Request h) → Run h
  parsed_run app r is_head body none = quiet Answer.raised
  parsed_run app r is_head body (some req) =
      bound_run app r is_head req body
        (bind_arguments p.coercions p.validation r.param_plan body req)

  -- A matched route, on the fast path or the general one.
  unfoldable pub run_route : FastApi h → Route h → Params → Str → Incoming → Run h
  unfolding is_fast fast_path parse_request bind_arguments handle serialize_value_to_json
  run_route app r path_params method i =
      if is_fast app r path_params
      then record {
        events = calling r.handler [] ∷ [];
        answer = fast_path p.formats p.runtime r method;
      }
      else parsed_run app r (str_eq method (bytes "HEAD")) (unwrap_or i.body [])
          (parse_request p.parsers r.param_plan path_params i)

  abbrev pub run_selected : FastApi h → Str → Incoming → Selection h → Run h
  run_selected app method i (matched r path_params) = run_route app r path_params method i
  run_selected app method i (redirect alt) = quiet (
      response (record {
        status = 307;
        headers = (bytes "location", location alt i.query_string) ∷ [];
        body = [];
      }))
  run_selected app method i method_not_allowed =
      refused true (bytes "{\"detail\":\"Method Not Allowed\"}")
  run_selected app method i not_found = refused false (bytes "{\"detail\":\"Not Found\"}")

  abbrev pub or_selected : FastApi h → Str → Str → Incoming → Option (Answer h) → Run h
  or_selected app method path i (some page) = quiet page
  or_selected app method path i none = run_selected app method i (select app.routes method path)

  unfoldable pub dispatch : FastApi h → Str → Str → Incoming → Run h
  unfolding auto_served select location run_route
  dispatch app method path i =
      or_selected app method path i (auto_served p.formats p.runtime p.to_lowercase app method path)

-- The module `_bg`, which the Python layer's helpers read: `none` for `None`.
pub record Background (h : Host) : Type 0 where
  pub current_tasks : Option (Value h)
  pub current_request : Option (Value h)
  pub current_raw_response : Option (Value h)
  pub current_yield_gens : List (Value h)

module _ {h : Host} where
  abbrev pub reset : Background h
  reset = record {
    current_tasks = none;
    current_request = none;
    current_raw_response = none;
    current_yield_gens = [];
  }

  -- The state of `_bg` with which `_dispatch_native` enters `_dispatch`.
  unfoldable pub dispatch_native_bg : FastApi h → Str → Str → Background h → Background h
  unfolding is_trivial_route
  dispatch_native_bg app method path bg = if is_trivial_route app method path then bg else reset
