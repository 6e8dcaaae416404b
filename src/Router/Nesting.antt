-- ===== src/Router/Nesting.antt =====
-- A router inside a router inside an application.
use hyperfastapi.Prelude.{
  ◌≡◌, refl, sym, ap, ◌∙◌, Bool, true, ◌&&◌, Option, none, some, List, [], ◌∷◌, ◌++◌, map,
  append_assoc, unwrap_or, or_option,
}
use hyperfastapi.Prelude.Text.{Str}
use hyperfastapi.Value.{Host, Value}
use hyperfastapi.Route.{Route}
use hyperfastapi.App.{FastApi}
use hyperfastapi.Router.{ApiRouter, app_included, router_included, include_router, nest_router}
use hyperfastapi.Router.Merging.{push_all-map, include_router-routes}

map_append {ℓ κ} :
    {A : Type ℓ} {B : Type κ} (f : A → B) (xs ys : List A) → map f (xs ++ ys) ≡ map f xs ++ map f ys
map_append f [] ys = refl
map_append f (x ∷ xs) ys = ap (λ r. f x ∷ r) (map_append f xs ys)

-- What decides how a route is reached and guarded: method, path, handler, dependencies in the
-- order in which they run, and whether the schema shows it.
abbrev pub Guarded : Host → Type 0
Guarded h = Str × Str × Value h × List (Value h) × Bool

module _ {h : Host} where
  abbrev pub guarded : Route h → Guarded h
  guarded r = (r.method, r.path, r.handler, r.dependencies, r.include_in_schema)

module _ {h : Host} (outer inner : ApiRouter h) (p q : Str)
    (outer_tags inner_tags : Option (List Str)) where
  -- The path and the dependencies of a route of `inner`, reached through `outer`.
  abbrev pub through : Bool → Route h → Guarded h
  through in_schema r = (
    r.method,
    p ++ (outer.prefix ++ (q ++ (inner.prefix ++ r.path))),
    r.handler,
    outer.dependencies ++ (inner.dependencies ++ r.dependencies),
    r.include_in_schema && in_schema,
  )

  twice :
      (in_schema : Bool) (rc : Option (Value h)) (rs : List (Route h))
      → map guarded (
          map
            (app_included p outer (unwrap_or outer_tags []) in_schema rc)
            (map (router_included q inner (unwrap_or inner_tags [])) rs))
        ≡ map (through in_schema) rs
  unfolding app_included router_included
  twice in_schema rc [] = refl
  twice in_schema rc (r ∷ rs) = ap (λ l. through in_schema r ∷ l) (twice in_schema rc rs)

  nested_routes :
      (nest_router outer inner q inner_tags).routes
      ≡ outer.routes ++ map (router_included q inner (unwrap_or inner_tags [])) inner.routes
  unfolding nest_router
  nested_routes = push_all-map _ inner.routes outer.routes

  include_guarded :
      (app : FastApi h) (router : ApiRouter h) (in_schema : Bool) (rc : Option (Value h))
      → map guarded (include_router app router p outer_tags in_schema rc).routes
        ≡ map guarded app.routes
          ++ map guarded (
              map
                (app_included p router
                  (unwrap_or outer_tags [])
                  in_schema
                  (or_option rc router.default_response_class))
                router.routes)
  include_guarded app router in_schema rc =
      ap (λ a. map guarded a.routes) (include_router-routes app router p outer_tags in_schema rc)
      ∙ map_append guarded app.routes _

  nested_make :
      (in_schema : Bool) (rc : Option (Value h))
      → map
          (app_included p
            (nest_router outer inner q inner_tags)
            (unwrap_or outer_tags [])
            in_schema
            (or_option rc (nest_router outer inner q inner_tags).default_response_class))
          (nest_router outer inner q inner_tags).routes
        ≡ map
            (app_included p outer
              (unwrap_or outer_tags [])
              in_schema
              (or_option rc outer.default_response_class))
            (outer.routes ++ map (router_included q inner (unwrap_or inner_tags [])) inner.routes)
  unfolding nest_router app_included
  nested_make in_schema rc =
      ap
        (map (
          app_included p outer (unwrap_or outer_tags []) in_schema
            (or_option rc outer.default_response_class)))
        nested_routes

  -- Nesting `inner` in `outer` and including `outer` adds to what including `outer` alone adds one
  -- route for each route of `inner`: its path has the four prefixes from the outside in, and the
  -- dependencies run from the outside in.
  pub include_router-nest_router :
      (app : FastApi h) (in_schema : Bool) (rc : Option (Value h))
      → map guarded
          (include_router app
            (nest_router outer inner q inner_tags)
            p
            outer_tags
            in_schema
            rc).routes
        ≡ map guarded (include_router app outer p outer_tags in_schema rc).routes
          ++ map (through in_schema) inner.routes
  include_router-nest_router app in_schema rc =
      let effective = or_option rc outer.default_response_class in
      let make = app_included p outer (unwrap_or outer_tags []) in_schema effective in
      let nested = map (router_included q inner (unwrap_or inner_tags [])) inner.routes in
      include_guarded app (nest_router outer inner q inner_tags) in_schema rc
      ∙ ap (λ rs. map guarded app.routes ++ map guarded rs) (nested_make in_schema rc)
      ∙ ap (λ rs. map guarded app.routes ++ map guarded rs) (map_append make outer.routes nested)
      ∙ ap (λ gs. map guarded app.routes ++ gs)
          (map_append guarded (map make outer.routes) (map make nested)
            ∙ ap (λ gs. map guarded (map make outer.routes) ++ gs)
                (twice in_schema effective inner.routes))
      ∙ sym (append_assoc (map guarded app.routes) _ _)
      ∙ ap (λ gs. gs ++ map (through in_schema) inner.routes)
          (sym (include_guarded app outer in_schema rc))

-- What `APIRouter.include_router` takes over from the nested router does not depend on that
-- router's default response class, though `FastAPI.include_router` gives this class to every route
-- of the router that has none.
pub nested_default_ignored :
    {h : Host} (outer inner : ApiRouter h) (q : Str) (tags : Option (List Str)) (rc : Value h)
    (app : FastApi h) (p : Str) (r : Route h)
    → r.response_class ≡ none
    → (nest_router outer (record inner { default_response_class = some rc }) q tags
        ≡ nest_router outer inner q tags)
      × ((router_included q
            (record inner { default_response_class = some rc })
            (unwrap_or tags [])
            r).response_class
          ≡ none)
      × ((app_included p
            (record inner { default_response_class = some rc })
            (unwrap_or tags [])
            true
            (or_option none (some rc))
            r).response_class
          ≡ some rc)
unfolding nest_router router_included app_included
nested_default_ignored outer inner q tags rc app p r e = (refl, e, rw e)
