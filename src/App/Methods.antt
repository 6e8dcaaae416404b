-- ===== src/App/Methods.antt =====
-- crates/fr-pyiface/src/app.rs: `FastAPI.get` to `FastAPI.trace`. The decorator that each makes
-- shares the route table of `app`.
use hyperfastapi.Prelude.Text.{Str, bytes}
use hyperfastapi.Value.{Host}
use hyperfastapi.Route.Decorator.{RouteDecorator, make_decorator}
use hyperfastapi.Route.Options.{MethodKwargs, options_of}
use hyperfastapi.App.{FastApi}

module _ {h : Host} where
  unfoldable pub get : FastApi h → Str → MethodKwargs h → RouteDecorator h
  unfolding make_decorator options_of
  get app path kw = make_decorator (options_of (bytes "GET") path kw)

  unfoldable pub post : FastApi h → Str → MethodKwargs h → RouteDecorator h
  unfolding make_decorator options_of
  post app path kw = make_decorator (options_of (bytes "POST") path kw)

  unfoldable pub put : FastApi h → Str → MethodKwargs h → RouteDecorator h
  unfolding make_decorator options_of
  put app path kw = make_decorator (options_of (bytes "PUT") path kw)

  unfoldable pub delete : FastApi h → Str → MethodKwargs h → RouteDecorator h
  unfolding make_decorator options_of
  delete app path kw = make_decorator (options_of (bytes "DELETE") path kw)

  unfoldable pub patch : FastApi h → Str → MethodKwargs h → RouteDecorator h
  unfolding make_decorator options_of
  patch app path kw = make_decorator (options_of (bytes "PATCH") path kw)

  unfoldable pub options : FastApi h → Str → MethodKwargs h → RouteDecorator h
  unfolding make_decorator options_of
  options app path kw = make_decorator (options_of (bytes "OPTIONS") path kw)

  unfoldable pub head : FastApi h → Str → MethodKwargs h → RouteDecorator h
  unfolding make_decorator options_of
  head app path kw = make_decorator (options_of (bytes "HEAD") path kw)

  unfoldable pub trace : FastApi h → Str → MethodKwargs h → RouteDecorator h
  unfolding make_decorator options_of
  trace app path kw = make_decorator (options_of (bytes "TRACE") path kw)
