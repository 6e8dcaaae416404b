-- ===== src/Router/Methods.antt =====
-- crates/fr-pyiface/src/app.rs: `APIRouter.get` to `APIRouter.head`.
use hyperfastapi.Prelude.Text.{Str, bytes}
use hyperfastapi.Value.{Host}
use hyperfastapi.Prelude.{unwrap_or, []}
use hyperfastapi.Route.{DecoratorOpts}
use hyperfastapi.Route.Decorator.{RouteDecorator}
use hyperfastapi.Route.Options.{MethodKwargs, options_of}
use hyperfastapi.Router.{ApiRouter}

module _ {h : Host} where
  -- `APIRouter::make_decorator`
  unfoldable pub make_decorator : DecoratorOpts h → RouteDecorator h
  make_decorator opts = record {
    method = opts.method;
    path = opts.path;
    status_code = opts.status_code;
    response_model = opts.response_model;
    tags = unwrap_or opts.tags [];
    deprecated = opts.deprecated;
    include_in_schema = opts.include_in_schema;
    summary = opts.summary;
    description = opts.description;
    response_class = opts.response_class;
    response_model_exclude_unset = opts.response_model_exclude_unset;
    response_model_exclude_none = opts.response_model_exclude_none;
    response_model_exclude_defaults = opts.response_model_exclude_defaults;
    response_model_by_alias = opts.response_model_by_alias;
    response_model_include = opts.response_model_include;
    response_model_exclude = opts.response_model_exclude;
    dependencies = opts.dependencies;
    operation_id = opts.operation_id;
    responses = opts.responses;
    response_description = opts.response_description;
  }

  unfoldable pub get : ApiRouter h → Str → MethodKwargs h → RouteDecorator h
  unfolding make_decorator options_of
  get router path kw = make_decorator (options_of (bytes "GET") path kw)

  unfoldable pub post : ApiRouter h → Str → MethodKwargs h → RouteDecorator h
  unfolding make_decorator options_of
  post router path kw = make_decorator (options_of (bytes "POST") path kw)

  unfoldable pub put : ApiRouter h → Str → MethodKwargs h → RouteDecorator h
  unfolding make_decorator options_of
  put router path kw = make_decorator (options_of (bytes "PUT") path kw)

  unfoldable pub delete : ApiRouter h → Str → MethodKwargs h → RouteDecorator h
  unfolding make_decorator options_of
  delete router path kw = make_decorator (options_of (bytes "DELETE") path kw)

  unfoldable pub patch : ApiRouter h → Str → MethodKwargs h → RouteDecorator h
  unfolding make_decorator options_of
  patch router path kw = make_decorator (options_of (bytes "PATCH") path kw)

  unfoldable pub options : ApiRouter h → Str → MethodKwargs h → RouteDecorator h
  unfolding make_decorator options_of
  options router path kw = make_decorator (options_of (bytes "OPTIONS") path kw)

  unfoldable pub head : ApiRouter h → Str → MethodKwargs h → RouteDecorator h
  unfolding make_decorator options_of
  head router path kw = make_decorator (options_of (bytes "HEAD") path kw)
