-- ===== src/App/Openapi.antt =====
-- crates/fr-pyiface/src/app.rs: `FastAPI::openapi`, `_routes_summary` and the `routes` getter.
-- `to_lowercase` is `str::to_lowercase`, whose table of Unicode letters is a parameter.
pub mod Laws
pub mod Document
pub mod Tests
use hyperfastapi.Prelude.{
  ℕ, Bool, true, false, ◌&&◌, ◌||◌, not, Option, none, some, List, [], ◌∷◌, ◌++◌, map,
  if◌then◌else◌, unwrap_or, is_empty, is_none,
}
use hyperfastapi.Prelude.Int.{ℤ, pos, show_int}
use hyperfastapi.Prelude.Text.{Str, bytes, str_eq}
use hyperfastapi.Value.{
  Host, Value, Items, Kwargs, null, bool, int, str, dict, list, items, entries, set_item, get_item,
}
use hyperfastapi.Route.{SecurityEntry, Route, Plan, PlanEntry, nil, cons, not_dict, spec}
use hyperfastapi.App.{FastApi}

module _ {h : Host} where
  -- A key that is set only where a value is there.
  abbrev pub set_when : Bool → Str → Value h → List (Str × Value h) → List (Str × Value h)
  set_when test k v rest = if test then (k, v) ∷ rest else rest

  abbrev pub set_some : Str → Option Str → List (Str × Value h) → List (Str × Value h)
  set_some k none rest = rest
  set_some k (some s) rest = (k, str s) ∷ rest

  abbrev pub text_list : List Str → Value h
  text_list ss = list (items (map (λ s. str s) ss))

  -- A route that the schema shows.
  unfoldable pub listed : Route h → Bool
  listed r = not (not r.include_in_schema || str_eq r.method (bytes "WEBSOCKET"))

  unfoldable pub security_item : SecurityEntry h → Value h
  unfolding items entries
  security_item s = dict (entries ((s.scheme_name, text_list s.scopes) ∷ []))

  unfoldable pub responses_of : Route h → Value h
  unfolding entries show_int
  responses_of r = dict (
      entries (
        (
          show_int (unwrap_or r.status_code (pos 200)),
          dict (entries ((bytes "description", str (bytes "Successful Response")) ∷ [])),
        )
        ∷ []))

  -- The operation object of a route.
  unfoldable pub operation : Route h → Value h
  unfolding items entries responses_of security_item
  operation r = dict (
      entries (
        set_when (not (is_empty r.tags)) (bytes "tags") (text_list r.tags) (
          set_when r.deprecated (bytes "deprecated") (bool true) (
            set_some (bytes "summary") r.summary (
              set_some (bytes "description") r.description (
                (bytes "responses", responses_of r)
                ∷ set_when (not (is_empty r.security)) (bytes "security")
                    (list (items (map security_item r.security))) []))))))

  -- The first scheme of a name wins.
  unfoldable pub add_scheme : Kwargs h → SecurityEntry h → Kwargs h
  add_scheme schemes s =
      if is_none (get_item s.scheme_name schemes)
      then set_item s.scheme_name s.model schemes
      else schemes

  unfoldable pub add_schemes : List (SecurityEntry h) → Kwargs h → Kwargs h
  unfolding add_scheme
  add_schemes [] schemes = schemes
  add_schemes (s ∷ ss) schemes = add_schemes ss (add_scheme schemes s)

-- A path item is kept as its operations by method.
abbrev pub PathItems : Host → Type 0
PathItems h = List (Str × Kwargs h)

module _ {h : Host} where
  abbrev pub object : Kwargs h → Value h
  object kvs = dict (entries kvs)

  abbrev pub object_item : Str × Kwargs h → Str × Value h
  object_item item = (item.0, object item.1)

module _ {h : Host} (to_lowercase : Str → Str) where
  -- What one route does to the paths.
  unfoldable pub add_path : PathItems h → Route h → PathItems h
  unfolding operation
  add_path paths r =
      let path_item : Kwargs h = unwrap_or (get_item r.path paths) [] in
      set_item r.path (set_item (to_lowercase r.method) (operation r) path_item) paths

  -- The loop over the routes: the security schemes and the paths.
  unfoldable pub collect_routes : List (Route h) → Kwargs h × PathItems h → Kwargs h × PathItems h
  unfolding listed add_schemes add_path
  collect_routes [] out = out
  collect_routes (r ∷ rs) (schemes, paths) =
      collect_routes rs
        (if listed r then (add_schemes r.security schemes, add_path paths r) else (schemes, paths))

  unfoldable pub openapi : FastApi h → Value h
  unfolding entries collect_routes
  openapi app =
      let (schemes, paths) = collect_routes app.routes ([], []) in
      object (
        (bytes "openapi", str (bytes "3.1.0"))
        ∷ (
          bytes "info",
          object (
              (bytes "title", str app.title)
              ∷ (bytes "version", str app.version)
              ∷ set_when (not (is_empty app.description)) (bytes "description")
                  (str app.description)
                  (set_some (bytes "summary") app.summary
                    (set_some (bytes "termsOfService") app.terms_of_service []))),
        )
        ∷ (bytes "paths", object (map object_item paths))
        ∷ (
          bytes "components",
          object (
              (bytes "schemas", object [])
              ∷ set_when (not (is_empty schemes)) (bytes "securitySchemes") (object schemes) []),
        )
        ∷ [])
