-- ===== src/Dispatch/Select.antt =====
-- crates/fr-pyiface/src/app.rs, `_dispatch`: the choice of a route, with the HEAD-to-GET fallback,
-- the redirect to the other trailing-slash form, and the 405 and 404 answers.
pub mod Spec
pub mod Laws
pub mod Refusals
use hyperfastapi.Prelude.{
  ℕ, Bool, true, false, ◌&&◌, not, Option, none, some, List, [], ◌∷◌, ◌++◌, if◌then◌else◌, any,
  is_some, is_empty,
}
use hyperfastapi.Prelude.Text.{Str, bytes, str_eq, ends_with, trim_end_matches}
use hyperfastapi.Value.{Host}
use hyperfastapi.Path.{Params, match_path_template}
use hyperfastapi.Route.{Route}

pub data Selection (h : Host) : Type 0 where
  matched : Route h → Params → Selection h
  redirect : Str → Selection h
  method_not_allowed not_found : Selection h

-- `/a` for `/a/`, and `/a/` for `/a`.
unfoldable pub other_slash : Str → Str
other_slash path =
    if ends_with path (b'/' ∷ []) then trim_end_matches b'/' path else path ++ b'/' ∷ []

-- The `location` header of a redirect keeps the query string.
unfoldable pub location : Str → Option Str → Str
location alt none = alt
location alt (some qs) = if is_empty qs then alt else alt ++ b'?' ∷ qs

module _ {h : Host} where
  -- The first loop: whether a template has matched so far, and the route found.
  unfoldable pub scan_method : List (Route h) → Str → Str → Bool → Bool × Option (Route h × Params)
  scan_method [] method path path_exists = (path_exists, none)
  scan_method (r ∷ rs) method path path_exists = elim (match_path_template r.path path) [
    | none ↦ scan_method rs method path path_exists
    | some params ↦ elim (str_eq r.method method) [
      | true ↦ (true, some (r, params))
      | false ↦ scan_method rs method path true
    ]
  ]

  -- The second loop, for a HEAD request.
  unfoldable pub scan_get : List (Route h) → Str → Option (Route h × Params)
  scan_get [] path = none
  scan_get (r ∷ rs) path = elim (str_eq r.method (bytes "GET")) [
    | true ↦ elim (match_path_template r.path path) [
      | some params ↦ some (r, params)
      | none ↦ scan_get rs path
    ]
    | false ↦ scan_get rs path
  ]

  unfoldable pub alt_matched : List (Route h) → Str → Str → Bool
  alt_matched routes method alt =
      any (λ r. str_eq r.method method && is_some (match_path_template r.path alt)) routes

  -- The `None` arm of `match method_match`.
  unfoldable pub unmatched : List (Route h) → Str → Str → Bool → Selection h
  unfolding other_slash alt_matched
  unmatched routes method path path_exists =
      if not (str_eq path (b'/' ∷ [])) && alt_matched routes method (other_slash path)
      then redirect (other_slash path)
      else if path_exists
      then method_not_allowed
      else not_found

  abbrev or_else : Option (Route h × Params) → Selection h → Selection h
  or_else none s = s
  or_else (some (r, params)) s = matched r params

  unfoldable pub select : List (Route h) → Str → Str → Selection h
  unfolding scan_method scan_get unmatched
  select routes method path =
      let (path_exists, found) = scan_method routes method path false in
      or_else found (
        or_else (if str_eq method (bytes "HEAD") then scan_get routes path else none)
          (unmatched routes method path path_exists))
