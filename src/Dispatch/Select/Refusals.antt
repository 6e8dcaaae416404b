-- ===== src/Dispatch/Select/Refusals.antt =====
-- When no route is selected, and how the choice depends on what is registered later.
use hyperfastapi.Prelude.{
  ◌≡◌, ◌≢◌, refl, ◌⊎◌, inl, inr, ◌↔◌, true, none, some, List, [], ◌∷◌, ◌++◌, arith, is_empty, All,
}
use hyperfastapi.Prelude.Text.{Str, bytes, str_eq_iff, str_eq_refl}
use hyperfastapi.Value.{Host}
use hyperfastapi.Path.{Params, match_path_template}
use hyperfastapi.Route.{Route}
use hyperfastapi.Dispatch.Select.{matched, not_found, other_slash, select}
use hyperfastapi.Dispatch.Select.Spec.{candidates, known, choice}
use hyperfastapi.Dispatch.Select.Laws.{select-choice}

module _ {h : Host} where
  known_iff :
      (rs : List (Route h)) (path : Str)
      → (is_empty (known rs path) ≡ true) ↔ All (λ r. match_path_template r.path path ≡ none) rs
  unfolding known
  known_iff [] path = ((λ _. tt), (λ _. refl))
  known_iff (r ∷ rs) path = (
    (λ e. ground (arith, (known_iff rs path).0)),
    (λ a. ground (arith, (known_iff rs path).1 a.1)),
  )

  candidates-none :
      (rs : List (Route h)) (method path : Str)
      → All (λ r. match_path_template r.path path ≡ none) rs
      → candidates rs method path ≡ []
  unfolding candidates
  candidates-none [] method path a = refl
  candidates-none (r ∷ rs) method path (e, a) = ground (arith, candidates-none rs method path a)

  candidates_iff :
      (rs : List (Route h)) (method path : Str)
      → (candidates rs method path ≡ [])
        ↔ All (λ r. r.method ≡ method → match_path_template r.path path ≡ none) rs
  unfolding candidates
  candidates_iff [] method path = ((λ _. tt), (λ _. refl))
  candidates_iff (r ∷ rs) method path = (
    (λ e. (
      (λ same. ground (arith, same, str_eq_refl method)),
      (candidates_iff rs method path).0 (ground arith),
    )),
    (λ (f, fs).
        ground (arith, str_eq_iff r.method method, f, (candidates_iff rs method path).1 fs)),
  )

  refused_iff :
      (routes : List (Route h)) (method path : Str)
      → (select routes method path ≡ not_found) ↔ (
          All (λ r. match_path_template r.path path ≡ none) routes
          × ((path ≡ b'/' ∷ []) ⊎ (candidates routes method (other_slash path) ≡ [])))
  unfolding choice
  refused_iff routes method path = (
    (λ e. (
      (known_iff routes path).0 (ground (arith, select-choice routes method path)),
      ground (arith, select-choice routes method path, str_eq_iff path (b'/' ∷ [])),
    )),
    (λ (a, slash). ground (
      arith,
      select-choice routes method path,
      (known_iff routes path).1 a,
      candidates-none routes method path a,
      candidates-none routes (bytes "GET") path a,
      str_eq_iff path (b'/' ∷ []),
    )),
  )

  -- 404 is answered exactly when no template of the table matches the path, whatever the method of its
  -- route, and moreover the path is "/", or no route of exactly the request's method matches the other
  -- trailing-slash form. For a HEAD request, the GET routes are not tried for that form.
  pub select-not_found_iff :
      (routes : List (Route h)) (method path : Str)
      → (select routes method path ≡ not_found) ↔ (
          All (λ r. match_path_template r.path path ≡ none) routes
          × ((path ≡ b'/' ∷ [])
              ⊎ All
                  (λ r. r.method ≡ method → match_path_template r.path (other_slash path) ≡ none)
                  routes))
  select-not_found_iff routes method path = (
    (λ e.
        let (a, slash) = (refused_iff routes method path).0 e in
        (
          a,
          elim slash [
            | inl root ↦ inl root
            | inr free ↦ inr ((candidates_iff routes method (other_slash path)).0 free)
          ],
        )),
    (λ (a, slash). (refused_iff routes method path).1 (
      a,
      elim slash [
        | inl root ↦ inl root
        | inr free ↦ inr ((candidates_iff routes method (other_slash path)).1 free)
      ],
    )),
  )

  pub candidates-append :
      (rs more : List (Route h)) (method path : Str)
      → candidates (rs ++ more) method path
        ≡ candidates rs method path ++ candidates more method path
  unfolding candidates
  candidates-append [] more method path = refl
  candidates-append (r ∷ rs) more method path =
      ground (arith, candidates-append rs more method path)

  -- Registering further routes does not change what a request that is no HEAD request selects.
  pub select-append :
      (routes more : List (Route h)) (method path : Str) (r : Route h) (vs : Params)
      → method ≢ bytes "HEAD"
      → select routes method path ≡ matched r vs
      → select (routes ++ more) method path ≡ matched r vs
  unfolding choice
  select-append routes more method path r vs no_head e = ground (
    arith,
    select-choice routes method path,
    select-choice (routes ++ more) method path,
    candidates-append routes more method path,
    str_eq_iff method (bytes "HEAD"),
  )

  -- A new route is selected for a path that it matches, if no older route of its method matches.
  pub select-fresh :
      (routes : List (Route h)) (r : Route h) (path : Str) (vs : Params)
      → candidates routes r.method path ≡ []
      → match_path_template r.path path ≡ some vs
      → select (routes ++ r ∷ []) r.method path ≡ matched r vs
  unfolding choice candidates
  select-fresh routes r path vs fresh e = ground (
    arith,
    select-choice (routes ++ r ∷ []) r.method path,
    candidates-append routes (r ∷ []) r.method path,
    str_eq_refl r.method,
  )
