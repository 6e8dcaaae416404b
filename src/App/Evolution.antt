-- ===== src/App/Evolution.antt =====
-- All that may happen to a `FastAPI` object once it is made, in any order: its table only grows, and
-- requests that it answers keep their answers.
use hyperfastapi.Prelude.{
  ◌≡◌, ◌≢◌, refl, sym, ap, ◌∙◌, subst, Bool, Option, none, List, [], ◌∷◌, ◌++◌, map, append_assoc,
  append-nil, arith, unwrap_or, or_option,
}
use hyperfastapi.Prelude.Text.{Str, bytes}
use hyperfastapi.Value.{Host, Value, Kwargs}
use hyperfastapi.Path.{Params}
use hyperfastapi.Route.{Route, nil}
use hyperfastapi.Route.Decorator.{
  Reflection, RouteDecorator, Registered, ok, err, call, push_route, route_of, check_annotation,
  detect_handler_is_async,
}
use hyperfastapi.App.{
  FastApi, ApiRouteDecorator, plain_route, push_methods, call_api_route, add_api_route,
}
use hyperfastapi.App.Hooks.{middleware, exception_handler, on_event, add_middleware}
use hyperfastapi.Router.{ApiRouter, app_included, include_router}
use hyperfastapi.Router.Merging.{push_all-map}
use hyperfastapi.Dispatch.Select.{matched, select}
use hyperfastapi.Dispatch.Select.Refusals.{select-append}
use hyperfastapi.Dispatch.Arguments.{Incoming}
use hyperfastapi.Dispatch.Docs.{auto_served}
use hyperfastapi.Dispatch.Whole.{Platform, run_route, dispatch}

module _ {h : Host} where
  -- The application with further routes behind its own.
  abbrev pub extended : FastApi h → List (Route h) → FastApi h
  extended app more = record app { routes = app.routes ++ more }

  -- The table that a decorator's call leaves; an exception leaves the old one.
  abbrev pub table_after : List (Route h) → Registered (List (Route h) × Value h) → List (Route h)
  table_after routes (ok (routes', func)) = routes'
  table_after routes (err e) = routes

  -- One call of a method of `FastAPI`, or of a decorator that one gave.
  pub data Step (py : Reflection h) (app : FastApi h) : FastApi h → Type 0 where
    decorated :
        (d : RouteDecorator h) (func : Value h)
        → Step py app (record app { routes = table_after app.routes (call py d func app.routes) })
    api_routed :
        (d : ApiRouteDecorator) (func : Value h)
        → Step py app (record app { routes = (call_api_route py d func app.routes).0 })
    added :
        (path : Str) (endpoint : Value h) (methods : Option (List Str)) (rc : Option (Value h))
        → Step py app (add_api_route py app path endpoint methods rc)
    routed :
        (router : ApiRouter h) (prefix : Str) (tags : Option (List Str)) (in_schema : Bool)
        (rc : Option (Value h))
        → Step py app (include_router app router prefix tags in_schema rc)
    hooked_middleware : (kind : Str) → Step py app (middleware app kind).0
    hooked_exception : (exc : Value h) → Step py app (exception_handler app exc).0
    hooked_event : (event : Str) → Step py app (on_event app event).0
    with_middleware :
        (cls : Value h) (kwargs : Option (Kwargs h)) → Step py app (add_middleware app cls kwargs)

  pub data Reach (py : Reflection h) (app : FastApi h) : FastApi h → Type 0 where
    here : Reach py app app
    next : {b c : FastApi h} → Reach py app b → Step py b c → Reach py app c

  push_methods-map :
      (ms : List Str) (make : Str → Route h) (routes : List (Route h))
      → push_methods ms make routes ≡ routes ++ map make ms
  push_methods-map [] make routes = sym (append-nil routes)
  push_methods-map (m ∷ ms) make routes =
      push_methods-map ms make (routes ++ make m ∷ [])
      ∙ append_assoc routes (make m ∷ []) (map make ms)

  table_after-append :
      (routes : List (Route h)) (func : Value h) (r : Route h) (checked : Registered (Unit {0}))
      → (more : List (Route h)) × (table_after routes (push_route routes func r checked)
          ≡ routes ++ more)
  table_after-append routes func r (ok _) = (r ∷ [], refl)
  table_after-append routes func r (err e) = ([], sym (append-nil routes))

module _ {h : Host} (py : Reflection h) where
  abbrev Extends : FastApi h → FastApi h → Type 0
  Extends app b = (more : List (Route h)) × (b ≡ extended app more)

  with_table :
      (app : FastApi h) (routes more : List (Route h))
      → routes ≡ app.routes ++ more
      → Extends app (record app { routes = routes })
  with_table app routes more e = (more, ap (λ rs. record app { routes = rs }) e)

  unchanged : (app : FastApi h) → Extends app app
  unchanged app = with_table app app.routes [] (sym (append-nil app.routes))

  Step-Extends : {app b : FastApi h} → Step py app b → Extends app b
  unfolding call call_api_route add_api_route include_router middleware exception_handler on_event
      add_middleware
  Step-Extends {app} (decorated d func) =
      let (more, e) =
        table_after-append app.routes func (route_of py d func)
          (check_annotation py d.status_code func) in
      with_table app _ more e
  Step-Extends {app} (api_routed d func) =
      let make = λ (m : Str).
        plain_route m d.path func (unwrap_or (py.compile_route_plan func d.path) nil) none
          (detect_handler_is_async py func) in
      with_table app _ _ (push_methods-map d.methods make app.routes)
  Step-Extends {app} (added path endpoint methods rc) =
      let make = λ (m : Str).
        plain_route m path endpoint (unwrap_or (py.compile_route_plan endpoint path) nil) rc
          (detect_handler_is_async py endpoint) in
      with_table app _ _ (push_methods-map (unwrap_or methods (bytes "GET" ∷ [])) make app.routes)
  Step-Extends {app} (routed router prefix tags in_schema rc) = with_table app _ _ (
      push_all-map
        (app_included prefix router (unwrap_or tags []) in_schema
          (or_option rc router.default_response_class))
        router.routes app.routes)
  Step-Extends {app} (hooked_middleware kind) = unchanged app
  Step-Extends {app} (hooked_exception exc) = unchanged app
  Step-Extends {app} (hooked_event event) = unchanged app
  Step-Extends {app} (with_middleware cls kwargs) = unchanged app

  -- Whatever is called on an application, its table keeps its routes, in their order and in front, and
  -- nothing else of it changes.
  pub Reach-extended :
      {app b : FastApi h} → Reach py app b → (more : List (Route h)) × (b ≡ extended app more)
  Reach-extended {app} here = unchanged app
  Reach-extended {app} (next r st) =
      let (more, e) = Reach-extended r in
      let (again, f) = Step-Extends st in
      (
        more ++ again,
        f
            ∙ ap (λ b. extended b again) e
            ∙ ap (λ rs. record app { routes = rs }) (append_assoc app.routes more again),
      )

module _ {h : Host} (p : Platform h) where
  auto_served-extended :
      (app : FastApi h) (more : List (Route h)) (method path : Str)
      → auto_served p.formats p.runtime p.to_lowercase app method path ≡ none
      → auto_served p.formats p.runtime p.to_lowercase (extended app more) method path ≡ none
  unfolding auto_served
  auto_served-extended app more method path e = ground (arith, e)

  dispatch-extended :
      (app : FastApi h) (more : List (Route h)) (method path : Str) (i : Incoming) (r : Route h)
      (params : Params)
      → method ≢ bytes "HEAD"
      → auto_served p.formats p.runtime p.to_lowercase app method path ≡ none
      → select app.routes method path ≡ matched r params
      → dispatch p (extended app more) method path i ≡ dispatch p app method path i
  unfolding dispatch run_route
  dispatch-extended app more method path i r params other no_page selected = simp (
    no_page,
    selected,
    auto_served-extended app more method path no_page,
    select-append app.routes more method path r params other selected,
  )

  -- A request that is no HEAD request, that no page answers and that a route answers leaves the same
  -- trace and gets the same answer after any further registrations.
  pub Reach-dispatch :
      (py : Reflection h) (app b : FastApi h) (method path : Str) (i : Incoming) (r : Route h)
      (params : Params)
      → Reach py app b
      → method ≢ bytes "HEAD"
      → auto_served p.formats p.runtime p.to_lowercase app method path ≡ none
      → select app.routes method path ≡ matched r params
      → dispatch p b method path i ≡ dispatch p app method path i
  Reach-dispatch py app b method path i r params reach other no_page selected =
      let (more, e) = Reach-extended py reach in
      subst (λ c. dispatch p c method path i ≡ dispatch p app method path i) (sym e)
        (dispatch-extended app more method path i r params other no_page selected)
