-- ===== src/Dispatch/Select/Spec.antt =====
-- The choice of a route without loops: the routes that answer a method and a path, in the order of
-- the table, and the first of them.
use hyperfastapi.Prelude.{
  Bool, true, false, ◌&&◌, not, Option, none, some, List, [], ◌∷◌, if◌then◌else◌, is_empty,
}
use hyperfastapi.Prelude.Text.{Str, bytes, str_eq}
use hyperfastapi.Value.{Host}
use hyperfastapi.Path.{Params, match_path_template}
use hyperfastapi.Route.{Route}
use hyperfastapi.Dispatch.Select.{
  Selection, matched, redirect, method_not_allowed, not_found, other_slash,
}

module _ {h : Host} where
  abbrev pub keep :
      Bool → Route h → Option Params → List (Route h × Params) → List (Route h × Params)
  keep true r (some vs) rest = (r, vs) ∷ rest
  keep true r none rest = rest
  keep false r _ rest = rest

  -- All routes of a method whose template matches the path.
  unfoldable pub candidates : List (Route h) → Str → Str → List (Route h × Params)
  candidates [] method path = []
  candidates (r ∷ rs) method path =
      keep (str_eq r.method method) r (match_path_template r.path path) (candidates rs method path)

  -- The routes of any method whose template matches the path.
  unfoldable pub known : List (Route h) → Str → List (Route h × Params)
  known [] path = []
  known (r ∷ rs) path = keep true r (match_path_template r.path path) (known rs path)

  abbrev pub first_or : List (Route h × Params) → Selection h → Selection h
  first_or [] s = s
  first_or ((r, vs) ∷ _) s = matched r vs

  unfoldable pub choice : List (Route h) → Str → Str → Selection h
  choice routes method path = first_or (candidates routes method path) (
      first_or (if str_eq method (bytes "HEAD") then candidates routes (bytes "GET") path else []) (
        if not (str_eq path (b'/' ∷ []))
          && not (is_empty (candidates routes method (other_slash path)))
        then redirect (other_slash path)
        else if is_empty (known routes path)
        then not_found
        else method_not_allowed))
