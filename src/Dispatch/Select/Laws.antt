-- ===== src/Dispatch/Select/Laws.antt =====
-- What the choice of a route guarantees.
use hyperfastapi.Prelude.{
  ◌≡◌, refl, ◌∙◌, subst, ◌⊎◌, inl, inr, Bool, true, false, ◌||◌, not, Option, none, some, List, [],
  ◌∷◌, arith, is_empty, Memᴰ,
}
use hyperfastapi.Prelude.Text.{Str, bytes, str_eq, str_eq_iff}
use hyperfastapi.Value.{Host}
use hyperfastapi.Path.{Params, match_path_template}
use hyperfastapi.Route.{Route}
use hyperfastapi.Dispatch.Select.{
  matched, redirect, scan_method, scan_get, other_slash, alt_matched, unmatched, select,
}
use hyperfastapi.Dispatch.Select.Spec.{keep, candidates, known, choice}

module _ {h : Host} where
  abbrev pub head : List (Route h × Params) → Option (Route h × Params)
  head [] = none
  head (c ∷ _) = some c

  scan_method_lem :
      (rs : List (Route h)) (method path : Str) (e : Bool)
      → ((scan_method rs method path e).1 ≡ head (candidates rs method path))
        × (candidates rs method path ≡ []
            → (scan_method rs method path e).0 ≡ (e || not (is_empty (known rs path))))
  unfolding scan_method candidates known
  scan_method_lem [] method path true = (refl, λ _. refl)
  scan_method_lem [] method path false = (refl, λ _. refl)
  scan_method_lem (r ∷ rs) method path e =
      ground (arith, scan_method_lem rs method path e, scan_method_lem rs method path true)

  scan_get_lem :
      (rs : List (Route h)) (path : Str)
      → scan_get rs path ≡ head (candidates rs (bytes "GET") path)
  unfolding scan_get candidates
  scan_get_lem [] path = refl
  scan_get_lem (r ∷ rs) path = ground (arith, scan_get_lem rs path)

  alt_matched_lem :
      (rs : List (Route h)) (method alt : Str)
      → alt_matched rs method alt ≡ not (is_empty (candidates rs method alt))
  unfolding alt_matched candidates
  alt_matched_lem [] method alt = refl
  alt_matched_lem (r ∷ rs) method alt = ground (arith, alt_matched_lem rs method alt)

  -- The two loops with their flag and early exits choose what the list comprehensions choose.
  pub select-choice :
      (routes : List (Route h)) (method path : Str)
      → select routes method path ≡ choice routes method path
  unfolding select choice unmatched
  select-choice routes method path = ground (
    arith,
    scan_method_lem routes method path false,
    scan_get_lem routes path,
    alt_matched_lem routes method (other_slash path),
  )

  pub select_nonempty :
      (routes : List (Route h)) (method path : Str)
      → is_empty (candidates routes method path) ≡ false
      → (r : Route h) × (vs : Params) × (select routes method path ≡ matched r vs)
  select_nonempty routes method path e = go (candidates routes method path) refl e
    where
      go :
          (cs : List (Route h × Params))
          → candidates routes method path ≡ cs
          → is_empty cs ≡ false
          → (r : Route h) × (vs : Params) × (select routes method path ≡ matched r vs)
      go [] k f = cc
      go ((r, vs) ∷ cs) k f = (r, vs, select-choice routes method path ∙ (unfold choice in rw k))

  redirect_lem :
      (routes : List (Route h)) (method path alt : Str)
      → select routes method path ≡ redirect alt
      → (alt ≡ other_slash path) × (is_empty (candidates routes method (other_slash path)) ≡ false)
  unfolding choice
  redirect_lem routes method path alt e = ground (arith, select-choice routes method path)

  keep_sound :
      (b : Bool) (s : Route h) (o : Option Params) (cs : List (Route h × Params)) (r : Route h)
      (vs : Params)
      → head (keep b s o cs) ≡ some (r, vs)
      → ((b ≡ true) × (s ≡ r) × (o ≡ some vs)) ⊎ (head cs ≡ some (r, vs))
  keep_sound true s (some ws) cs r vs e = ground arith
  keep_sound true s none cs r vs e = inr e
  keep_sound false s o cs r vs e = inr e

  candidates_step :
      (s : Route h) (rs : List (Route h)) (method path : Str) (r : Route h) (vs : Params)
      → (head (candidates rs method path) ≡ some (r, vs)
          → Memᴰ r rs × (r.method ≡ method) × (match_path_template r.path path ≡ some vs))
      → head (candidates (s ∷ rs) method path) ≡ some (r, vs)
      → Memᴰ r (s ∷ rs) × (r.method ≡ method) × (match_path_template r.path path ≡ some vs)
  unfolding candidates
  candidates_step s rs method path r vs later e =
      elim (keep_sound (str_eq s.method method) s (match_path_template s.path path) _ r vs e) [
        | inl (m, same, matches) ↦
            subst
              (λ x.
                Memᴰ x (s ∷ rs) × (x.method ≡ method) × (match_path_template x.path path ≡ some vs))
              same (Memᴰ.head refl, (str_eq_iff s.method method).0 m, matches)
        | inr k ↦ let (mem, m, matches) = later k in (Memᴰ.tail mem, m, matches)
      ]

  candidates_sound :
      (rs : List (Route h)) (method path : Str) (r : Route h) (vs : Params)
      → head (candidates rs method path) ≡ some (r, vs)
      → Memᴰ r rs × (r.method ≡ method) × (match_path_template r.path path ≡ some vs)
  unfolding candidates
  candidates_sound [] method path r vs e = cc
  candidates_sound (s ∷ rs) method path r vs e =
      candidates_step s rs method path r vs (candidates_sound rs method path r vs) e

  pub matched_source :
      (routes : List (Route h)) (method path : Str) (r : Route h) (vs : Params)
      → select routes method path ≡ matched r vs
      → (head (candidates routes method path) ≡ some (r, vs))
        ⊎ ((str_eq method (bytes "HEAD") ≡ true)
            × (head (candidates routes (bytes "GET") path) ≡ some (r, vs)))
  unfolding choice
  matched_source routes method path r vs e = ground (arith, select-choice routes method path)

  -- A selected route is in the table, its template matches the path with the parameters that are
  -- handed on, and its method is the request's, or GET for a HEAD request.
  pub select-matched :
      (routes : List (Route h)) (method path : Str) (r : Route h) (vs : Params)
      → select routes method path ≡ matched r vs
      → Memᴰ r routes
        × (match_path_template r.path path ≡ some vs)
        × ((r.method ≡ method) ⊎ ((method ≡ bytes "HEAD") × (r.method ≡ bytes "GET")))
  select-matched routes method path r vs e = elim (matched_source routes method path r vs e) [
    | inl own ↦
        let (mem, m, matches) = candidates_sound routes method path r vs own in
        (mem, matches, inl m)
    | inr (is_head, got) ↦
        let (mem, m, matches) = candidates_sound routes (bytes "GET") path r vs got in
        (mem, matches, inr ((str_eq_iff method (bytes "HEAD")).0 is_head, m))
  ]

  -- A redirect leads to a path that a route of the same method answers.
  pub select-redirect :
      (routes : List (Route h)) (method path alt : Str)
      → select routes method path ≡ redirect alt
      → (alt ≡ other_slash path)
        × ((r : Route h) × (vs : Params) × (select routes method alt ≡ matched r vs))
  select-redirect routes method path alt e =
      let (there, cs) = redirect_lem routes method path alt e in
      (there, rw there (select_nonempty routes method (other_slash path) cs))
