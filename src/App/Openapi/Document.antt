-- ===== src/App/Openapi/Document.antt =====
-- The exported document, read from its root.
use hyperfastapi.Prelude.{
  ◌≡◌, refl, ap, ◌∙◌, Option, none, some, List, [], ◌∷◌, map, if◌then◌else◌, not, is_empty,
  Bool-cases, inl, inr,
}
use hyperfastapi.Prelude.Text.{Str, bytes, str_eq}
use hyperfastapi.Value.{Host, Value, Kwargs, dict, entries, get_item}
use hyperfastapi.App.{FastApi}
use hyperfastapi.Body.{dict_get}
use hyperfastapi.App.Openapi.{PathItems, set_when, object, object_item, collect_routes, openapi}
use hyperfastapi.App.Openapi.Laws.{
  operation_at, or_none, last_operation, first_scheme, listed_security, collect_routes-operation,
  collect_routes-scheme,
}

module _ {h : Host} where
  abbrev pub member : Str → Option (Value h) → Option (Value h)
  member k (some (dict d)) = dict_get k d
  member k _ = none

  -- The value that a path of keys leads to.
  abbrev pub at : List Str → Option (Value h) → Option (Value h)
  at [] v = v
  at (k ∷ ks) v = at ks (member k v)

  dict_get-entries : (k : Str) (m : Kwargs h) → dict_get k (entries m) ≡ get_item k m
  unfolding dict_get entries get_item
  dict_get-entries k [] = refl
  dict_get-entries k ((j, v) ∷ m) =
      ap (λ o. if str_eq j k then some v else o) (dict_get-entries k m)

  member-path_item :
      (path method : Str) (paths : PathItems h)
      → member method (dict_get path (entries (map object_item paths)))
        ≡ operation_at path method paths
  unfolding dict_get entries get_item
  member-path_item path method [] = refl
  member-path_item path method ((p, item) ∷ paths) = elim (Bool-cases (str_eq p path)) [
    | inl here ↦ rw here (dict_get-entries method item)
    | inr there ↦ rw there (member-path_item path method paths)
  ]

  -- Security schemes are there only where one is.
  member-schemes :
      (name : Str) (schemes : Kwargs h)
      → member name (
          member (bytes "securitySchemes") (
            some (
              object (
                (bytes "schemas", object [])
                ∷ set_when
                    (not (is_empty schemes))
                    (bytes "securitySchemes")
                    (object schemes)
                    []))))
        ≡ get_item name schemes
  unfolding dict_get entries get_item bytes str_eq
  member-schemes name [] = refl
  member-schemes name (s ∷ ss) = dict_get-entries name (s ∷ ss)

module _ {h : Host} (to_lowercase : Str → Str) (app : FastApi h) where
  -- Under "paths", a path and a method in lower case, the document has the operation of the last route
  -- of the table that the schema shows, has this path, and has a method that this is the lower case of;
  -- and nothing where there is none.
  pub openapi-paths :
      (path method : Str)
      → at (bytes "paths" ∷ path ∷ method ∷ []) (some (openapi to_lowercase app))
        ≡ last_operation to_lowercase app.routes path method
  unfolding openapi dict_get entries bytes str_eq get_item
  openapi-paths path method =
      member-path_item path method (collect_routes to_lowercase app.routes ([], [])).1
      ∙ collect_routes-operation to_lowercase path method app.routes [] []
      ∙ or_none (last_operation to_lowercase app.routes path method)

  -- Under "components", "securitySchemes" and a name, it has the model of the first security entry of
  -- that name among the routes that the schema shows, and nothing where there is none.
  pub openapi-schemes :
      (name : Str)
      → at
          (bytes "components" ∷ bytes "securitySchemes" ∷ name ∷ [])
          (some (openapi to_lowercase app))
        ≡ first_scheme name (listed_security app.routes)
  unfolding openapi dict_get entries bytes str_eq get_item
  openapi-schemes name =
      member-schemes name (collect_routes to_lowercase app.routes ([], [])).0
      ∙ collect_routes-scheme to_lowercase name app.routes [] []
