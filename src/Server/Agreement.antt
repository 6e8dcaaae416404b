-- ===== src/Server/Agreement.antt =====
-- Where one route alone answers a request, the snapshot and the dispatcher agree.
use hyperfastapi.Prelude.{
  ◌≡◌, ◌≢◌, refl, sym, ap, ◌∙◌, Bool, true, false, Option, none, some, List, [], ◌∷◌, arith,
  if◌then◌else◌, or_option, is_empty, Bool-cases, inl, inr, some_eq, some-ne-none,
}
use hyperfastapi.Prelude.Text.{Str, bytes, str_eq, str_eq_iff}
use hyperfastapi.Value.{Host}
use hyperfastapi.Path.{Params, match_path_template}
use hyperfastapi.Route.{Route}
use hyperfastapi.App.{FastApi}
use hyperfastapi.Dispatch.Select.{select, matched}
use hyperfastapi.Dispatch.Select.Spec.{keep, candidates, choice}
use hyperfastapi.Dispatch.Select.Laws.{select-choice}
use hyperfastapi.Server.{TrivialRoute, trivial_of, lookup_trivial, snapshot_trivial_routes}
use hyperfastapi.Server.Snapshot.{serves, last_serving, or_none, snapshot-lookup}

module _ {h : Host} (method path : Str) (no_head : str_eq (bytes "HEAD") method ≡ false) where
  pub serves-method : (r : Route h) → serves r method path ≡ true → str_eq r.method method ≡ true
  unfolding serves
  serves-method r e = ground (arith, no_head)

  pub serves-match :
      (r : Route h) → serves r method path ≡ true → match_path_template r.path path ≡ some []
  unfolding serves match_path_template
  serves-match r e = ground arith

  pub last_serving-none :
      (rs : List (Route h)) → candidates rs method path ≡ [] → last_serving rs method path ≡ none
  unfolding last_serving candidates
  last_serving-none [] e = refl
  last_serving-none (r ∷ rs) e = elim (Bool-cases (serves r method path)) [
    | inl there ↦ absurd (cons-ne-nil (rw (serves-method r there, serves-match r there) at e))
    | inr absent ↦
        ap
          (λ o. or_option o (
            if serves r method path
            then some (trivial_of r (str_eq method (bytes "HEAD")))
            else none))
          (last_serving-none rs
            (keep-nil (str_eq r.method method) r (match_path_template r.path path) _ e))
        ∙ rw absent refl
  ]
    where
      cons-ne-nil : {x : Route h × Params} {xs : List (Route h × Params)} → (x ∷ xs) ≡ [] → ⊥
      cons-ne-nil e = cc

      keep-nil :
          (b : Bool) (r : Route h) (o : Option Params) (xs : List (Route h × Params))
          → keep b r o xs ≡ []
          → xs ≡ []
      keep-nil true r (some vs) xs e = absurd (cons-ne-nil e)
      keep-nil true r none xs e = e
      keep-nil false r o xs e = e

  cons_same :
      {x y : Route h × Params} {xs : List (Route h × Params)}
      → (x ∷ xs) ≡ (y ∷ [])
      → (x.0 ≡ y.0) × (xs ≡ [])
  cons_same e = (cc, cc)

  last_serving-one :
      (rs : List (Route h)) (r : Route h) (vs : Params) (t : TrivialRoute h)
      → candidates rs method path ≡ (r, vs) ∷ []
      → last_serving rs method path ≡ some t
      → t ≡ trivial_of r (str_eq method (bytes "HEAD"))
  unfolding last_serving candidates
  last_serving-one [] r vs t e q = cc
  last_serving-one (x ∷ rs) r vs t e q = elim (Bool-cases (serves x method path)) [
    | inl there ↦
        let (same, alone) = cons_same (rw (serves-method x there, serves-match x there) at e) in
        sym (some_eq (rw (there, last_serving-none rs alone) at q))
        ∙ ap (λ y. trivial_of y (str_eq method (bytes "HEAD"))) same
    | inr absent ↦
        skip (str_eq x.method method) (match_path_template x.path path) e
          (sym (or_none (last_serving rs method path)) ∙ rw absent at q)
          (λ c l. last_serving-one rs r vs t c l)
  ]
    where
      skip :
          (b : Bool) (o : Option Params)
          → keep b x o (candidates rs method path) ≡ (r, vs) ∷ []
          → last_serving rs method path ≡ some t
          → (candidates rs method path ≡ (r, vs) ∷ []
              → last_serving rs method path ≡ some t
              → t ≡ trivial_of r (str_eq method (bytes "HEAD")))
          → t ≡ trivial_of r (str_eq method (bytes "HEAD"))
      skip true (some ws) c l ih =
          absurd (some-ne-none (sym l ∙ last_serving-none rs (cons_same c).1))
      skip true none c l ih = ih c l
      skip false o c l ih = ih c l

module _ {h : Host} where
  -- Where exactly one route of the table answers a request that is no HEAD request, and the snapshot
  -- has an answer, the snapshot's handler, status and async flag are those of that route, which the
  -- dispatcher selects.
  pub snapshot-select :
      (app : FastApi h) (method path : Str) (r : Route h) (vs : Params) (t : TrivialRoute h)
      → method ≢ bytes "HEAD"
      → candidates app.routes method path ≡ (r, vs) ∷ []
      → lookup_trivial (snapshot_trivial_routes app) method path ≡ some t
      → (select app.routes method path ≡ matched r vs) × (t ≡ trivial_of r false)
  unfolding choice
  snapshot-select app method path r vs t other one found = (
    select-choice app.routes method path ∙ rw one refl,
    last_serving-one method path not_head app.routes r vs t one
          (served (is_empty app.dependencies) (sym (snapshot-lookup app method path) ∙ found))
        ∙ ap (λ b. trivial_of r b) head_not,
  )
    where
      not_head : str_eq (bytes "HEAD") method ≡ false
      not_head = ground (arith, str_eq_iff (bytes "HEAD") method)

      head_not : str_eq method (bytes "HEAD") ≡ false
      head_not = ground (arith, str_eq_iff method (bytes "HEAD"))

      served :
          (free : Bool)
          → (if free then last_serving app.routes method path else none) ≡ some t
          → last_serving app.routes method path ≡ some t
      served true e = e
      served false e = cc
