-- ===== src/App/Hooks.antt =====
-- crates/fr-pyiface/src/app.rs: the registrations of the Rust class that keep nothing, which the Python
-- layer overrides, `IdentityDecorator`, and the getters of `FastAPI` and `APIRouter`.
use hyperfastapi.Prelude.{Bool, Option, List}
use hyperfastapi.Prelude.Text.{Str}
use hyperfastapi.Value.{Host, Value, Kwargs, nil, list}
use hyperfastapi.App.{FastApi}
use hyperfastapi.Router.{ApiRouter}

pub data IdentityDecorator : Type 0 where
  identity_decorator : IdentityDecorator

-- The getters of `FastAPI` that give back a field of their name.
pub record Attributes : Type 0 where
  pub title : Str
  pub version : Str
  pub description : Str
  pub summary : Option Str
  pub debug : Bool
  pub root_path : Str
  pub terms_of_service : Option Str
  pub docs_url : Option Str
  pub redoc_url : Option Str
  pub openapi_url : Option Str

module _ {h : Host} where
  -- `IdentityDecorator.__call__`
  unfoldable pub call_identity : IdentityDecorator → Value h → Value h
  call_identity d func = func

  unfoldable pub middleware : FastApi h → Str → FastApi h × IdentityDecorator
  middleware app kind = (app, identity_decorator)

  unfoldable pub exception_handler : FastApi h → Value h → FastApi h × IdentityDecorator
  exception_handler app exc = (app, identity_decorator)

  unfoldable pub on_event : FastApi h → Str → FastApi h × IdentityDecorator
  on_event app event = (app, identity_decorator)

  unfoldable pub add_middleware : FastApi h → Value h → Option (Kwargs h) → FastApi h
  add_middleware app middleware_class kwargs = app

  unfoldable pub attributes : FastApi h → Attributes
  attributes app = record {
    title = app.title;
    version = app.version;
    description = app.description;
    summary = app.summary;
    debug = app.debug;
    root_path = app.root_path;
    terms_of_service = app.terms_of_service;
    docs_url = app.docs_url;
    redoc_url = app.redoc_url;
    openapi_url = app.openapi_url;
  }

  -- The getters that give out a reference to a dict or a list of Python's.
  unfoldable pub python_state : FastApi h → Value h × Value h × Value h
  python_state app = (app.dependency_overrides, app.exception_handlers, app.user_middleware)

  -- The getters of `APIRouter`; that of the routes is empty whatever is registered.
  unfoldable pub router_attributes : ApiRouter h → Str × List Str
  router_attributes router = (router.prefix, router.tags)

  unfoldable pub router_routes : ApiRouter h → Value h
  router_routes router = list nil
