-- ===== src/App.antt =====
-- crates/fr-pyiface/src/app.rs: the `FastAPI` object (its mutexes are locked for the length of one
-- call, so a method is a function of the state), its constructor, the route registrations that do
-- not go through `RouteDecorator`, and the lookups on the route table.
pub mod Methods
pub mod Openapi
pub mod Summary
pub mod Security
pub mod Hooks
pub mod Evolution
use hyperfastapi.Prelude.{
  ℕ, Bool, true, false, ◌&&◌, not, Option, none, some, List, [], ◌∷◌, ◌++◌, if◌then◌else◌,
  unwrap_or, is_empty, is_none,
}
use hyperfastapi.Prelude.Text.{Str, bytes, str_eq}
use hyperfastapi.Value.{Host, Value, Items, dict, list, end}
use hyperfastapi.Route.{Plan, nil, Route}
use hyperfastapi.Route.Decorator.{Reflection, RouteDecorator, detect_handler_is_async}

pub record FastApi (h : Host) : Type 0 where
  pub title : Str
  pub version : Str
  pub description : Str
  pub summary : Option Str
  pub debug : Bool
  pub docs_url : Option Str
  pub redoc_url : Option Str
  pub openapi_url : Option Str
  pub root_path : Str
  pub terms_of_service : Option Str
  pub routes : List (Route h)
  -- Python holds references to the next three, and may change them.
  pub dependency_overrides : Value h
  pub exception_handlers : Value h
  pub user_middleware : Value h
  pub default_response_class : Option (Value h)
  pub dependencies : List (Value h)

-- The keyword arguments of `FastAPI(...)`: `none` where the caller leaves one out.
pub record AppOptions (h : Host) : Type 0 where
  pub debug : Option Bool
  pub title : Option Str
  pub version : Option Str
  pub description : Option Str
  pub summary : Option Str
  pub docs_url : Option (Option Str)
  pub redoc_url : Option (Option Str)
  pub openapi_url : Option (Option Str)
  pub root_path : Option Str
  pub terms_of_service : Option Str
  pub default_response_class : Option (Value h)
  pub dependencies : Option (List (Value h))

-- The routes that `api_route` and `add_api_route` make differ from one another in these only.
pub record ApiRouteDecorator : Type 0 where
  pub methods : List Str
  pub path : Str

module _ {h : Host} where
  unfoldable pub new : AppOptions h → FastApi h
  unfolding bytes
  new o = record {
    title = unwrap_or o.title (bytes "FastAPI");
    version = unwrap_or o.version (bytes "0.1.0");
    description = unwrap_or o.description [];
    summary = o.summary;
    debug = unwrap_or o.debug false;
    docs_url = unwrap_or o.docs_url (some (bytes "/docs"));
    redoc_url = unwrap_or o.redoc_url (some (bytes "/redoc"));
    openapi_url = unwrap_or o.openapi_url (some (bytes "/openapi.json"));
    root_path = unwrap_or o.root_path [];
    terms_of_service = o.terms_of_service;
    routes = [];
    dependency_overrides = dict end;
    exception_handlers = dict end;
    user_middleware = list Items.nil;
    default_response_class = o.default_response_class;
    dependencies = unwrap_or o.dependencies [];
  }

  unfoldable pub websocket : FastApi h → Str → RouteDecorator h
  websocket app path = record {
    method = bytes "WEBSOCKET";
    path = path;
    status_code = none;
    response_model = none;
    tags = [];
    deprecated = false;
    include_in_schema = false;
    summary = none;
    description = none;
    response_class = none;
    response_model_exclude_unset = false;
    response_model_exclude_none = false;
    response_model_exclude_defaults = false;
    response_model_by_alias = true;
    response_model_include = none;
    response_model_exclude = none;
    dependencies = [];
    operation_id = none;
    responses = none;
    response_description = none;
  }

  -- The record that `ApiRouteDecorator.__call__` and `add_api_route` push for one method.
  abbrev pub plain_route : Str → Str → Value h → Plan h → Option (Value h) → Bool → Route h
  plain_route method path handler plan response_class is_async = record {
    method = method;
    path = path;
    handler = handler;
    status_code = none;
    response_model = none;
    tags = [];
    deprecated = false;
    include_in_schema = true;
    summary = none;
    description = none;
    param_plan = plan;
    response_class = response_class;
    response_model_exclude_unset = false;
    response_model_exclude_none = false;
    response_model_exclude_defaults = false;
    response_model_by_alias = true;
    response_model_include = none;
    response_model_exclude = none;
    dependencies = [];
    operation_id = none;
    responses = none;
    response_description = none;
    security = [];
    is_async = is_async;
  }

  abbrev pub push_methods : List Str → (Str → Route h) → List (Route h) → List (Route h)
  push_methods [] make routes = routes
  push_methods (m ∷ ms) make routes = push_methods ms make (routes ++ make m ∷ [])

  unfoldable pub api_route : FastApi h → Str → Option (List Str) → ApiRouteDecorator
  api_route app path methods = record {
    methods = unwrap_or methods (bytes "GET" ∷ []);
    path = path;
  }

  -- `ApiRouteDecorator.__call__`
  unfoldable pub call_api_route :
      Reflection h → ApiRouteDecorator → Value h → List (Route h) → List (Route h) × Value h
  unfolding detect_handler_is_async
  call_api_route py d func routes =
      let plan = unwrap_or (py.compile_route_plan func d.path) nil in
      let is_async = detect_handler_is_async py func in
      (push_methods d.methods (λ m. plain_route m d.path func plan none is_async) routes, func)

  unfoldable pub add_api_route :
      Reflection h → FastApi h → Str → Value h → Option (List Str) → Option (Value h) → FastApi h
  unfolding detect_handler_is_async
  add_api_route py app path endpoint methods response_class =
      let plan = unwrap_or (py.compile_route_plan endpoint path) nil in
      let is_async = detect_handler_is_async py endpoint in
      record app {
        routes =
            push_methods (unwrap_or methods (bytes "GET" ∷ []))
              (λ m. plain_route m path endpoint plan response_class is_async) app.routes;
      }

  -- `_lookup_websocket`
  unfoldable pub lookup_websocket_in : List (Route h) → Str → Option (Value h)
  lookup_websocket_in [] path = none
  lookup_websocket_in (r ∷ rs) path =
      if str_eq r.method (bytes "WEBSOCKET") && str_eq r.path path
      then some r.handler
      else lookup_websocket_in rs path

  unfoldable pub lookup_websocket : FastApi h → Str → Option (Value h)
  unfolding lookup_websocket_in
  lookup_websocket app path = lookup_websocket_in app.routes path

  abbrev pub is_empty_plan : Plan h → Bool
  is_empty_plan nil = true
  is_empty_plan _ = false

  -- The predicate of the trivial fast path, on a route alone.
  abbrev pub is_bare : Route h → Bool
  is_bare r =
      is_empty_plan r.param_plan
      && is_empty r.dependencies
      && is_none r.response_model
      && is_none r.response_class

  unfoldable pub is_trivial_in : List (Route h) → Str → Str → Bool
  is_trivial_in [] method path = false
  is_trivial_in (r ∷ rs) method path =
      if not (str_eq r.method method)
      then is_trivial_in rs method path
      else if not (str_eq r.path path)
      then is_trivial_in rs method path
      else is_bare r

  unfoldable pub is_trivial_route : FastApi h → Str → Str → Bool
  unfolding is_trivial_in
  is_trivial_route app method path =
      if not (is_empty app.dependencies) then false else is_trivial_in app.routes method path
