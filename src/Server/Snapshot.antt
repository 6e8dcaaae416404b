-- ===== src/Server/Snapshot.antt =====
-- What the snapshot holds, and how it stands to the dispatcher's choice.
use hyperfastapi.Prelude.{
  ◌≡◌, ◌≢◌, refl, ap, ◌∙◌, Bool, true, false, ◌&&◌, ◌||◌, not, Option, none, some, List, [], ◌∷◌,
  ◌++◌, arith, if◌then◌else◌, or_option, is_empty, Bool-cases, inl, inr,
}
use hyperfastapi.Prelude.Text.{Str, bytes, str_eq, str_eq_iff, str_eq_refl, contains}
use hyperfastapi.Value.{Host}
use hyperfastapi.Path.{Params}
use hyperfastapi.Route.{Route}
use hyperfastapi.App.{FastApi, is_bare}
use hyperfastapi.Dispatch.Select.{select, matched}
use hyperfastapi.Dispatch.Select.Refusals.{select-append}
use hyperfastapi.Server.{
  TrivialRoute, TrivialRoutes, trivial_of, insert, lookup_trivial, snapshot_route, snapshot_routes,
  snapshot_trivial_routes,
}

module _ {h : Host} where
  lookup_trivial-insert :
      (method path m p : Str) (t : TrivialRoute h) (s : TrivialRoutes h)
      → lookup_trivial (insert m p t s) method path
        ≡ (if str_eq m method && str_eq p path then some t else lookup_trivial s method path)
  unfolding lookup_trivial insert
  lookup_trivial-insert method path m p t [] = refl
  lookup_trivial-insert method path m p t ((n, q, u) ∷ s) = ground (
    arith,
    str_eq_iff n m,
    str_eq_iff q p,
    str_eq_iff m method,
    str_eq_iff p path,
    str_eq_iff n method,
    str_eq_iff q path,
    lookup_trivial-insert method path m p t s,
  )

  -- A route without placeholders, parameters, dependencies or a response class, whose path is the
  -- request's and whose method is the request's, or GET for a HEAD request.
  unfoldable pub serves : Route h → Str → Str → Bool
  serves r method path =
      not (contains b'{' r.path)
      && is_bare r
      && str_eq r.path path
      && (str_eq r.method method || str_eq r.method (bytes "GET") && str_eq (bytes "HEAD") method)

  -- The last such route of a table.
  unfoldable pub last_serving : List (Route h) → Str → Str → Option (TrivialRoute h)
  unfolding serves
  last_serving [] method path = none
  last_serving (r ∷ rs) method path =
      or_option (last_serving rs method path)
        (if serves r method path then some (trivial_of r (str_eq method (bytes "HEAD"))) else none)

  snapshot_route_lem :
      (method path : Str) (r : Route h) (s : TrivialRoutes h)
      → lookup_trivial (snapshot_route r s) method path ≡ (
          if serves r method path
          then some (trivial_of r (str_eq method (bytes "HEAD")))
          else lookup_trivial s method path)
  unfolding snapshot_route serves
  snapshot_route_lem method path r s = ground (
    arith,
    lookup_trivial-insert method path r.method r.path
        (trivial_of r (str_eq r.method (bytes "HEAD"))) s,
    lookup_trivial-insert method path (bytes "HEAD") r.path (trivial_of r true)
        (insert r.method r.path (trivial_of r (str_eq r.method (bytes "HEAD"))) s),
    str_eq_iff r.method method,
    str_eq_iff (bytes "HEAD") method,
    str_eq_iff method (bytes "HEAD"),
    str_eq_iff r.method (bytes "HEAD"),
    str_eq_iff r.method (bytes "GET"),
  )

  or_option_assoc :
      (a b c : Option (TrivialRoute h)) → or_option (or_option a b) c ≡ or_option a (or_option b c)
  or_option_assoc none b c = refl
  or_option_assoc (some t) b c = refl

  snapshot_routes_lem :
      (method path : Str) (rs : List (Route h)) (s : TrivialRoutes h)
      → lookup_trivial (snapshot_routes rs s) method path
        ≡ or_option (last_serving rs method path) (lookup_trivial s method path)
  unfolding snapshot_routes last_serving
  snapshot_routes_lem method path [] s = refl
  snapshot_routes_lem method path (r ∷ rs) s = ground (
    arith,
    snapshot_routes_lem method path rs (snapshot_route r s),
    snapshot_route_lem method path r s,
    or_option_assoc (last_serving rs method path)
        (if serves r method path then some (trivial_of r (str_eq method (bytes "HEAD"))) else none)
        (lookup_trivial s method path),
  )

  pub or_none : (a : Option (TrivialRoute h)) → or_option a none ≡ a
  or_none none = refl
  or_none (some t) = refl

  -- The snapshot answers a method and a path with the last route of the table that serves them, and
  -- with none if the application has dependencies.
  pub snapshot-lookup :
      (app : FastApi h) (method path : Str)
      → lookup_trivial (snapshot_trivial_routes app) method path
        ≡ (if is_empty app.dependencies then last_serving app.routes method path else none)
  unfolding snapshot_trivial_routes lookup_trivial
  snapshot-lookup app method path = elim (Bool-cases (is_empty app.dependencies)) [
    | inl free ↦ rw free (
        snapshot_routes_lem method path app.routes []
        ∙ or_none (last_serving app.routes method path))
    | inr guarded ↦ rw guarded refl
  ]

  last_serving-snoc :
      (rs : List (Route h)) (r : Route h) (method path : Str)
      → serves r method path ≡ true
      → last_serving (rs ++ r ∷ []) method path ≡ some (trivial_of r (str_eq method (bytes "HEAD")))
  unfolding last_serving
  last_serving-snoc [] r method path e = rw e refl
  last_serving-snoc (q ∷ rs) r method path e = rw (last_serving-snoc rs r method path e) refl

  serves-own :
      (r : Route h)
      → contains b'{' r.path ≡ false
      → is_bare r ≡ true
      → serves r r.method r.path ≡ true
  unfolding serves
  serves-own r static bare = ground (arith, str_eq_refl r.path, str_eq_refl r.method)

  -- Where an older route is selected for the method and the path of a last route that the snapshot
  -- takes and whose method is not HEAD, the dispatcher goes on selecting the older one for them, and the
  -- snapshot gives the new one.
  pub snapshot-overtakes :
      (app : FastApi h) (older : List (Route h)) (r q : Route h) (vs : Params)
      → app.routes ≡ older ++ r ∷ []
      → is_empty app.dependencies ≡ true
      → contains b'{' r.path ≡ false
      → is_bare r ≡ true
      → r.method ≢ bytes "HEAD"
      → select older r.method r.path ≡ matched q vs
      → (select app.routes r.method r.path ≡ matched q vs)
        × (lookup_trivial (snapshot_trivial_routes app) r.method r.path ≡ some (trivial_of r false))
  snapshot-overtakes app older r q vs table free static bare other chosen = (
    rw table (select-append older (r ∷ []) r.method r.path q vs other chosen),
    snapshot-lookup app r.method r.path
        ∙ rw (free, table)
            (last_serving-snoc older r r.method r.path (serves-own r static bare)
              ∙ ap (λ b. some (trivial_of r b)) not_head),
  )
    where
      not_head : str_eq r.method (bytes "HEAD") ≡ false
      not_head = ground (arith, str_eq_iff r.method (bytes "HEAD"))
