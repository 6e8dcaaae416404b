-- ===== src/Registration.antt =====
-- The method decorators of `FastAPI` and `APIRouter`, called with a handler: what they register.
pub mod Refusals
use hyperfastapi.Prelude.{
  ◌≡◌, ◌≢◌, ◌≤◌, ◌<◌, ◌⊎◌, ℕ, ◌==◌, ==_iff, refl, sym, ap, ◌∙◌, ◌||◌, some_eq, ◌↔◌, Bool, true,
  false, Option, none, some, List, [], ◌∷◌, ◌++◌, arith, All, Bool-cases, inl, inr,
}
use hyperfastapi.Prelude.Int.{ℤ, pos, negsuc}
use hyperfastapi.Prelude.Text.{Str, bytes, str_eq, str_eq_iff}
use hyperfastapi.Value.{
  Host, Value, null, bool, int, float, str, surrogates, dict, list, tuple, other,
}
use hyperfastapi.Route.{Route}
use hyperfastapi.Route.Decorator.{
  Reflection, RouteDecorator, Registered, ok, err, RegisterError, call, forbids_content,
  check_annotation, names_none, is_none_type, route_of, check_hint, require_none, push_route,
}
use hyperfastapi.Route.Options.{MethodKwargs}
use hyperfastapi.App.{FastApi}
use hyperfastapi.Router.{ApiRouter}
use hyperfastapi.App.Methods as AppM
use hyperfastapi.Router.Methods as RouterM

abbrev pub Decorate : Host → Type 0
Decorate h = Str → MethodKwargs h → RouteDecorator h

-- Each decorator beside the method that it stands for.
abbrev pub app_methods : {h : Host} → FastApi h → List (Str × Decorate h)
app_methods app =
    (bytes "GET", AppM.get app)
    ∷ (bytes "POST", AppM.post app)
    ∷ (bytes "PUT", AppM.put app)
    ∷ (bytes "DELETE", AppM.delete app)
    ∷ (bytes "PATCH", AppM.patch app)
    ∷ (bytes "OPTIONS", AppM.options app)
    ∷ (bytes "HEAD", AppM.head app)
    ∷ (bytes "TRACE", AppM.trace app)
    ∷ []

-- The status of the arguments forbids no content.
abbrev pub AllowsContent : Option ℤ → Type 0
AllowsContent none = Unit
AllowsContent (some sc) = forbids_content sc ≡ false

-- Calling the decorator appends one route with that method, path and handler, and the arguments'
-- status code and dependencies, and gives the handler back.
abbrev pub Registers :
    {h : Host}
    → Reflection h
    → Str
    → MethodKwargs h
    → Value h
    → List (Route h)
    → Str × Decorate h
    → Type 0
Registers py path kw func routes (method, decorate) =
    (call py (decorate path kw) func routes
      ≡ ok (routes ++ route_of py (decorate path kw) func ∷ [], func))
    × ((route_of py (decorate path kw) func).method ≡ method)
    × ((route_of py (decorate path kw) func).path ≡ path)
    × ((route_of py (decorate path kw) func).handler ≡ func)
    × ((route_of py (decorate path kw) func).status_code ≡ kw.status_code)

module _ {h : Host} (py : Reflection h) where
  call_allowed :
      (d : RouteDecorator h) (func : Value h) (routes : List (Route h))
      → AllowsContent d.status_code
      → call py d func routes ≡ ok (routes ++ route_of py d func ∷ [], func)
  call_allowed d func routes a = go d.status_code refl a
    where
      go :
          (sc : Option ℤ)
          → d.status_code ≡ sc
          → AllowsContent sc
          → call py d func routes ≡ ok (routes ++ route_of py d func ∷ [], func)
      go none e a = unfold call check_annotation in rw e
      go (some sc) e a = unfold call check_annotation in rw (e, a)

  -- Each of the eight decorators of an application registers its own method.
  pub methods-register :
      (app : FastApi h) (path : Str) (kw : MethodKwargs h) (func : Value h)
      (routes : List (Route h))
      → AllowsContent kw.status_code
      → All (Registers py path kw func routes) (app_methods app)
  unfolding AppM.get AppM.post AppM.put AppM.delete AppM.patch AppM.options AppM.head AppM.trace
      route_of
  methods-register app path kw func routes a = (
    (call_allowed (AppM.get app path kw) func routes a, refl, refl, refl, refl),
    (
      (call_allowed (AppM.post app path kw) func routes a, refl, refl, refl, refl),
      (
        (call_allowed (AppM.put app path kw) func routes a, refl, refl, refl, refl),
        (
          (call_allowed (AppM.delete app path kw) func routes a, refl, refl, refl, refl),
          (
            (call_allowed (AppM.patch app path kw) func routes a, refl, refl, refl, refl),
            (
              (call_allowed (AppM.options app path kw) func routes a, refl, refl, refl, refl),
              (
                (call_allowed (AppM.head app path kw) func routes a, refl, refl, refl, refl),
                ((call_allowed (AppM.trace app path kw) func routes a, refl, refl, refl, refl), tt),
              ),
            ),
          ),
        ),
      ),
    ),
  )

-- An application and a router make the same decorators: the seven methods that both have.
pub app-router_methods :
    {h : Host} (app : FastApi h) (router : ApiRouter h) (path : Str) (kw : MethodKwargs h)
    → (AppM.get app path kw ≡ RouterM.get router path kw)
      × (AppM.post app path kw ≡ RouterM.post router path kw)
      × (AppM.put app path kw ≡ RouterM.put router path kw)
      × (AppM.delete app path kw ≡ RouterM.delete router path kw)
      × (AppM.patch app path kw ≡ RouterM.patch router path kw)
      × (AppM.options app path kw ≡ RouterM.options router path kw)
      × (AppM.head app path kw ≡ RouterM.head router path kw)
unfolding AppM.get AppM.post AppM.put AppM.delete AppM.patch AppM.options AppM.head RouterM.get
    RouterM.post RouterM.put RouterM.delete RouterM.patch RouterM.options RouterM.head
app-router_methods app router path kw = (refl, refl, refl, refl, refl, refl, refl)
