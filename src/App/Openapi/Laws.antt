-- ===== src/App/Openapi/Laws.antt =====
-- What the exported schema shows.
use hyperfastapi.Prelude.{
  ◌≡◌, refl, sym, ◌&&◌, Option, none, some, List, [], ◌∷◌, ◌++◌, arith, if◌then◌else◌, or_option,
  unwrap_or,
}
use hyperfastapi.Prelude.Text.{Str, str_eq, str_eq_iff}
use hyperfastapi.Value.{Host, Value, Kwargs, set_item, get_item}
use hyperfastapi.Value.Dicts.{get_item-set_item}
use hyperfastapi.Route.{SecurityEntry, Route}
use hyperfastapi.App.Openapi.{
  PathItems, listed, operation, add_scheme, add_schemes, add_path, collect_routes,
}

-- The operation under a path and a method.
abbrev pub operation_at : {h : Host} → Str → Str → PathItems h → Option (Value h)
operation_at path method paths = get_item method (unwrap_or (get_item path paths) [])

-- The model of the first entry of a name.
unfoldable pub first_scheme : {h : Host} → Str → List (SecurityEntry h) → Option (Value h)
first_scheme name [] = none
first_scheme name (s ∷ ss) =
    if str_eq s.scheme_name name then some s.model else first_scheme name ss

-- The security entries of the routes that the schema shows, in the order of the table.
unfoldable pub listed_security : {h : Host} → List (Route h) → List (SecurityEntry h)
unfolding listed
listed_security [] = []
listed_security (r ∷ rs) = (if listed r then r.security else []) ++ listed_security rs

module _ {h : Host} where
  or_assoc : (a b c : Option (Value h)) → or_option (or_option a b) c ≡ or_option a (or_option b c)
  or_assoc none b c = refl
  or_assoc (some v) b c = refl

  pub or_none : (a : Option (Value h)) → or_option a none ≡ a
  or_none none = refl
  or_none (some v) = refl

  add_scheme_lem :
      (name : Str) (m : Kwargs h) (s : SecurityEntry h)
      → get_item name (add_scheme m s)
        ≡ or_option (get_item name m) (if str_eq s.scheme_name name then some s.model else none)
  unfolding add_scheme
  add_scheme_lem name m s =
      ground (arith, str_eq_iff s.scheme_name name, get_item-set_item s.scheme_name name s.model m)

  add_schemes_lem :
      (name : Str) (ss : List (SecurityEntry h)) (m : Kwargs h)
      → get_item name (add_schemes ss m) ≡ or_option (get_item name m) (first_scheme name ss)
  unfolding add_schemes first_scheme
  add_schemes_lem name [] m = sym (or_none (get_item name m))
  add_schemes_lem name (s ∷ ss) m =
      ground (arith, add_schemes_lem name ss (add_scheme m s), add_scheme_lem name m s)

  first_scheme-append :
      (name : Str) (xs ys : List (SecurityEntry h))
      → first_scheme name (xs ++ ys) ≡ or_option (first_scheme name xs) (first_scheme name ys)
  unfolding first_scheme
  first_scheme-append name [] ys = refl
  first_scheme-append name (x ∷ xs) ys = ground (arith, first_scheme-append name xs ys)

module _ {h : Host} (to_lowercase : Str → Str) where
  -- The operation of the last shown route with the path and the method in lower case.
  unfoldable pub last_operation : List (Route h) → Str → Str → Option (Value h)
  unfolding listed operation
  last_operation [] path method = none
  last_operation (r ∷ rs) path method = or_option (last_operation rs path method) (
      if listed r && str_eq r.path path && str_eq (to_lowercase r.method) method
      then some (operation r)
      else none)

  add_path_lem :
      (path method : Str) (paths : PathItems h) (r : Route h)
      → operation_at path method (add_path to_lowercase paths r) ≡ (
          if str_eq r.path path && str_eq (to_lowercase r.method) method
          then some (operation r)
          else operation_at path method paths)
  unfolding add_path
  add_path_lem path method paths r =
      let item : Kwargs h = unwrap_or (get_item r.path paths) [] in
      ground (
        arith,
        str_eq_iff r.path path,
        get_item-set_item r.path path (set_item (to_lowercase r.method) (operation r) item) paths,
        get_item-set_item (to_lowercase r.method) method (operation r) item,
      )

  pub collect_routes-operation :
      (path method : Str) (rs : List (Route h)) (schemes : Kwargs h) (paths : PathItems h)
      → operation_at path method (collect_routes to_lowercase rs (schemes, paths)).1
        ≡ or_option (last_operation rs path method) (operation_at path method paths)
  unfolding collect_routes last_operation
  collect_routes-operation path method [] schemes paths = refl
  collect_routes-operation path method (r ∷ rs) schemes paths = ground (
    arith,
    collect_routes-operation path method rs schemes paths,
    collect_routes-operation path method rs (add_schemes r.security schemes)
        (add_path to_lowercase paths r),
    add_path_lem path method paths r,
  )

  pub collect_routes-scheme :
      (name : Str) (rs : List (Route h)) (schemes : Kwargs h) (paths : PathItems h)
      → get_item name (collect_routes to_lowercase rs (schemes, paths)).0
        ≡ or_option (get_item name schemes) (first_scheme name (listed_security rs))
  unfolding collect_routes listed_security
  collect_routes-scheme name [] schemes paths = unfold first_scheme in sym (or_none _)
  collect_routes-scheme name (r ∷ rs) schemes paths = ground (
    arith,
    collect_routes-scheme name rs schemes paths,
    collect_routes-scheme name rs (add_schemes r.security schemes) (add_path to_lowercase paths r),
    add_schemes_lem name r.security schemes,
    first_scheme-append name r.security (listed_security rs),
  )
