-- ===== src/Dispatch/Whole/Reset.antt =====
-- `_dispatch_native`: when the state of `_bg` is kept.
use hyperfastapi.Prelude.{
  ◌≡◌, refl, sym, ap, ◌∙◌, subst, Bool, true, false, ◌&&◌, not, Option, none, some, List, [], ◌∷◌,
  is_empty, if◌then◌else◌, Bool-cases, some-ne-none, ◌≢◌, inl, inr,
}
use hyperfastapi.Prelude.Text.{Str, bytes, str_eq, str_eq_iff, split}
use hyperfastapi.Value.{Host}
use hyperfastapi.Path.{Params, placeholder, is_catch_all, match_path_template}
use hyperfastapi.Path.Spec.{Matches, finish, literal, segment, catch_all}
use hyperfastapi.Path.Matching.{match_path_template_iff}
use hyperfastapi.Route.{Route}
use hyperfastapi.App.{FastApi, is_bare, is_trivial_in, is_trivial_route}
use hyperfastapi.Dispatch.Select.{matched, select}
use hyperfastapi.Dispatch.Select.Spec.{keep, candidates}
use hyperfastapi.Dispatch.Select.Laws.{head, matched_source}
use hyperfastapi.Dispatch.Whole.{Background, reset, dispatch_native_bg}

Matches-self : (ts : List Str) → (vs : Params) × Matches ts ts vs
Matches-self [] = ([], finish)
Matches-self (t ∷ ts) = go (placeholder t) refl (Matches-self ts)
  where
    go :
        (o : Option (Str × Option Str))
        → placeholder t ≡ o
        → (vs : Params) × Matches ts ts vs
        → (vs : Params) × Matches (t ∷ ts) (t ∷ ts) vs
    go none e (vs, m) = (vs, literal e m)
    go (some (name, hint)) e (vs, m) = elim (Bool-cases (is_catch_all hint)) [
      | inl all ↦ (_, catch_all e all)
      | inr one ↦ (_, segment e one m)
    ]

-- A template matches itself, read as a path.
match_self : (t : Str) → (vs : Params) × (match_path_template t t ≡ some vs)
match_self t =
    let (vs, m) = Matches-self (split b'/' t) in (vs, (match_path_template_iff t t vs).1 m)

module _ {h : Host} where
  -- The first route of a method whose template matches the path decides, if it is the path itself.
  is_trivial_in-head :
      (rs : List (Route h)) (method path : Str) (r : Route h) (vs : Params)
      → head (candidates rs method path) ≡ some (r, vs)
      → r.path ≡ path
      → is_trivial_in rs method path ≡ is_bare r
  unfolding candidates is_trivial_in
  is_trivial_in-head [] method path r vs e own = cc
  is_trivial_in-head (s ∷ rs) method path r vs e own =
      go (str_eq s.method method) (str_eq s.path path) (match_path_template s.path path) matches
        own_path (λ k. is_trivial_in-head rs method path r vs k own) e
    where
      matches :
          str_eq s.path path ≡ true → (ws : Params) × (match_path_template s.path path ≡ some ws)
      matches c =
          subst (λ q. (ws : Params) × (match_path_template s.path q ≡ some ws))
            ((str_eq_iff s.path path).0 c) (match_self s.path)

      first :
          {ws : Params} → ◌≡◌ {A = Option (Route h × Params)} (some (s, ws)) (some (r, vs)) → s ≡ r
      first e = cc

      clash : false ≡ true → ⊥
      clash e = cc

      own_path : s ≡ r → str_eq s.path path ≡ true
      own_path same = (str_eq_iff s.path path).1 (ap (λ (q : Route h). q.path) same ∙ own)

      go :
          (b c : Bool) (o : Option Params)
          → (c ≡ true → (ws : Params) × (o ≡ some ws))
          → (s ≡ r → c ≡ true)
          → (head (candidates rs method path) ≡ some (r, vs)
              → is_trivial_in rs method path ≡ is_bare r)
          → head (keep b s o (candidates rs method path)) ≡ some (r, vs)
          → (if not b
              then is_trivial_in rs method path
              else if not c
              then is_trivial_in rs method path
              else is_bare s)
            ≡ is_bare r
      go true true (some ws) m p later e = ap is_bare (first e)
      go true true none m p later e = absurd (some-ne-none (sym (m refl).1))
      go true false (some ws) m p later e = absurd (clash (p (first e)))
      go true false none m p later e = later e
      go false c o m p later e = later e

  -- A request that is no HEAD request and whose selected route's template is the path itself: the state
  -- of `_bg` is kept just when the application has no dependencies and the route has no parameters,
  -- no dependencies, no response model and no response class, and is reset otherwise.
  pub dispatch_native-reset :
      (app : FastApi h) (method path : Str) (r : Route h) (params : Params) (bg : Background h)
      → method ≢ bytes "HEAD"
      → select app.routes method path ≡ matched r params
      → r.path ≡ path
      → dispatch_native_bg app method path bg
        ≡ (if is_empty app.dependencies && is_bare r then bg else reset)
  unfolding dispatch_native_bg is_trivial_route
  dispatch_native-reset app method path r params bg other selected own =
      elim (matched_source app.routes method path r params selected) [
        | inl first ↦
            rw (is_trivial_in-head app.routes method path r params first own)
              (kept (is_empty app.dependencies) (is_bare r))
        | inr (is_head, _) ↦ absurd (other ((str_eq_iff method (bytes "HEAD")).0 is_head))
      ]
    where
      kept :
          (a b : Bool)
          → (if (if not a then false else b) then bg else reset) ≡ (if a && b then bg else reset)
      kept true b = refl
      kept false b = refl
