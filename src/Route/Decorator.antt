-- ===== src/Route/Decorator.antt =====
-- crates/fr-pyiface/src/app.rs: `RouteDecorator` and its `__call__`. The route table that the
-- decorator shares with its application is passed in and returned. The Python helpers and
-- reflection that it calls are a record of parameters.

use hyperfastapi.Prelude.{
  Bool, true, false, ◌&&◌, ◌||◌, not, Option, none, some, List, [], ◌∷◌, ◌++◌, leb, ltb, ◌==◌,
  if◌then◌else◌, unwrap_or,
}
use hyperfastapi.Prelude.Int.{ℤ, pos, negsuc}
use hyperfastapi.Prelude.Text.{Str, bytes, str_eq}
use hyperfastapi.Value.{Host, Value, null, str, Kwargs, get_item}
use hyperfastapi.Route.{Plan, nil, SecurityEntry, Route, DecoratorOpts}

-- `hyperfastapi._routing.{compile_route_plan, extract_security_info}`, `inspect`, `typing`. `none`
-- is an exception (or, for the predicates of `inspect`, a result that is no bool).
pub record Reflection (h : Host) : Type 0 where
  pub compile_route_plan : Value h → Str → Option (Plan h)
  pub extract_security_info : Plan h → List (Value h) → Option (List (SecurityEntry h))
  pub import_inspect : Bool
  pub iscoroutinefunction : Value h → Option Bool
  pub isasyncgenfunction : Value h → Option Bool
  pub isgeneratorfunction : Value h → Option Bool
  -- `get_type_hints(func).get("return")`; `none` also where there is none
  pub return_hint : Value h → Option (Value h)
  pub eq_none : Value h → Option Bool
  pub repr : Value h → Option Str

pub data RegisterError : Type 0 where
  -- `PyAssertionError`, with the status code of its message
  non_none_annotation : ℤ → RegisterError
  raised : RegisterError

pub data Registered {ℓ} (A : Type ℓ) : Type ℓ where
  ok : A → Registered A
  err : RegisterError → Registered A

pub record RouteDecorator (h : Host) : Type 0 where
  pub method : Str
  pub path : Str
  pub status_code : Option ℤ
  pub response_model : Option (Value h)
  pub tags : List Str
  pub deprecated : Bool
  pub include_in_schema : Bool
  pub summary : Option Str
  pub description : Option Str
  pub response_class : Option (Value h)
  pub response_model_exclude_unset : Bool
  pub response_model_exclude_none : Bool
  pub response_model_exclude_defaults : Bool
  pub response_model_by_alias : Bool
  pub response_model_include : Option (Value h)
  pub response_model_exclude : Option (Value h)
  pub dependencies : List (Value h)
  pub operation_id : Option Str
  pub responses : Option (Value h)
  pub response_description : Option Str

-- `sc == 204 || sc == 304 || (100..200).contains(&sc)`
unfoldable pub forbids_content : ℤ → Bool
forbids_content (pos n) = n == 204 || n == 304 || leb 100 n && ltb n 200
forbids_content (negsuc n) = false

abbrev pub require_none : ℤ → Registered Bool → Registered (Unit {0})
require_none sc (err e) = err e
require_none sc (ok true) = ok tt
require_none sc (ok false) = err (non_none_annotation sc)

module _ {h : Host} where
  -- `FastAPI::make_decorator`
  unfoldable pub make_decorator : DecoratorOpts h → RouteDecorator h
  make_decorator opts = record {
    method = opts.method;
    path = opts.path;
    status_code = opts.status_code;
    response_model = opts.response_model;
    tags = unwrap_or opts.tags [];
    deprecated = opts.deprecated;
    include_in_schema = opts.include_in_schema;
    summary = opts.summary;
    description = opts.description;
    response_class = opts.response_class;
    response_model_exclude_unset = opts.response_model_exclude_unset;
    response_model_exclude_none = opts.response_model_exclude_none;
    response_model_exclude_defaults = opts.response_model_exclude_defaults;
    response_model_by_alias = opts.response_model_by_alias;
    response_model_include = opts.response_model_include;
    response_model_exclude = opts.response_model_exclude;
    dependencies = opts.dependencies;
    operation_id = opts.operation_id;
    responses = opts.responses;
    response_description = opts.response_description;
  }

  -- `v.extract::<String>().ok()`
  abbrev pub as_text : Value h → Option Str
  as_text (str s) = some s
  as_text _ = none

  abbrev text_item : Option (Value h) → Option Str
  text_item none = none
  text_item (some v) = as_text v

  abbrev kwarg : Str → Option (Kwargs h) → Option (Value h)
  kwarg k none = none
  kwarg k (some kw) = get_item k kw

  unfoldable pub opex_oid : Option (Kwargs h) → Option Str
  opex_oid kw = text_item (kwarg (bytes "operation_id") kw)

  unfoldable pub opex_resp : Option (Kwargs h) → Option (Value h)
  opex_resp kw = kwarg (bytes "responses") kw

  unfoldable pub opex_rdesc : Option (Kwargs h) → Option Str
  opex_rdesc kw = text_item (kwarg (bytes "response_description") kw)

  abbrev pub push_route :
      List (Route h)
      → Value h
      → Route h
      → Registered (Unit {0})
      → Registered (List (Route h) × Value h)
  push_route routes func r (err e) = err e
  push_route routes func r (ok _) = ok (routes ++ r ∷ [], func)

module _ {h : Host} (py : Reflection h) where
  open py use {
    compile_route_plan, extract_security_info, import_inspect, iscoroutinefunction,
    isasyncgenfunction, isgeneratorfunction, return_hint, eq_none, repr,
  }

  unfoldable pub detect_handler_is_async : Value h → Bool
  detect_handler_is_async func =
      if not import_inspect
      then false
      else if unwrap_or (isasyncgenfunction func) false
      then false
      else if unwrap_or (isgeneratorfunction func) false
      then false
      else unwrap_or (iscoroutinefunction func) false

  abbrev is_null : Value h → Bool
  is_null null = true
  is_null _ = false

  abbrev pub names_none : Option Str → Bool
  names_none none = false
  names_none (some s) = str_eq s (bytes "<class 'NoneType'>") || str_eq s (bytes "None")

  -- `is_none_type`; the comparison with `None` may raise.
  unfoldable pub is_none_type : Value h → Registered Bool
  is_none_type ann = elim (is_null ann) [
    | true ↦ ok true
    | false ↦ elim (eq_none ann) [ none ↦ err raised | some b ↦ ok (b || names_none (repr ann)) ]
  ]

  abbrev pub check_hint : ℤ → Option (Value h) → Registered (Unit {0})
  check_hint sc none = ok tt
  check_hint sc (some ann) = require_none sc (is_none_type ann)

  -- The check that `__call__` makes before it registers.
  unfoldable pub check_annotation : Option ℤ → Value h → Registered (Unit {0})
  check_annotation none func = ok tt
  check_annotation (some sc) func =
      if forbids_content sc then check_hint sc (return_hint func) else ok tt

  unfoldable pub route_of : RouteDecorator h → Value h → Route h
  unfolding detect_handler_is_async
  route_of d func =
      let plan = unwrap_or (compile_route_plan func d.path) nil in
      record {
        method = d.method;
        path = d.path;
        handler = func;
        status_code = d.status_code;
        response_model = d.response_model;
        tags = d.tags;
        deprecated = d.deprecated;
        include_in_schema = d.include_in_schema;
        summary = d.summary;
        description = d.description;
        param_plan = plan;
        response_class = d.response_class;
        response_model_exclude_unset = d.response_model_exclude_unset;
        response_model_exclude_none = d.response_model_exclude_none;
        response_model_exclude_defaults = d.response_model_exclude_defaults;
        response_model_by_alias = d.response_model_by_alias;
        response_model_include = d.response_model_include;
        response_model_exclude = d.response_model_exclude;
        dependencies = d.dependencies;
        operation_id = d.operation_id;
        responses = d.responses;
        response_description = d.response_description;
        security = unwrap_or (extract_security_info plan d.dependencies) [];
        is_async = detect_handler_is_async func;
      }

  -- `RouteDecorator.__call__`: the new route table and the handler.
  unfoldable pub call :
      RouteDecorator h → Value h → List (Route h) → Registered (List (Route h) × Value h)
  unfolding check_annotation route_of
  call d func routes =
      push_route routes func (route_of d func) (check_annotation d.status_code func)
