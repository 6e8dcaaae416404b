-- ===== src/Server/Default.antt =====
-- The snapshot and the condition of the fast path.
use hyperfastapi.Prelude.{
  ◌≡◌, ◌≢◌, refl, sym, ap, ◌∙◌, Bool, true, false, Option, none, some, List, [], ◌∷◌, arith,
  if◌then◌else◌, is_empty, is_none, Bool-cases, inl, inr, some-ne-none,
}
use hyperfastapi.Prelude.Text.{Str, bytes, str_eq, str_eq_iff}
use hyperfastapi.Value.{Host}
use hyperfastapi.Path.{Params, match_path_template}
use hyperfastapi.Route.{Route}
use hyperfastapi.App.{FastApi}
use hyperfastapi.Dispatch.Select.Spec.{keep, candidates}
use hyperfastapi.Dispatch.Fast.{is_fast}
use hyperfastapi.Server.{TrivialRoute, lookup_trivial, snapshot_trivial_routes}
use hyperfastapi.Server.Snapshot.{serves, last_serving, or_none, snapshot-lookup}
use hyperfastapi.Server.Agreement.{serves-method, serves-match, last_serving-none}

module _ {h : Host} (method path : Str) (no_head : str_eq (bytes "HEAD") method ≡ false) where
  both_same : {x y : Route h × Params} {xs : List (Route h × Params)} → (x ∷ xs) ≡ (y ∷ []) → x ≡ y
  both_same e = cc

  tail_nil : {x y : Route h × Params} {xs : List (Route h × Params)} → (x ∷ xs) ≡ (y ∷ []) → xs ≡ []
  tail_nil e = cc

  last_serving-serves :
      (rs : List (Route h)) (r : Route h) (vs : Params) (t : TrivialRoute h)
      → candidates rs method path ≡ (r, vs) ∷ []
      → last_serving rs method path ≡ some t
      → (serves r method path ≡ true) × (vs ≡ [])
  unfolding last_serving candidates
  last_serving-serves [] r vs t e q = cc
  last_serving-serves (x ∷ rs) r vs t e q = elim (Bool-cases (serves x method path)) [
    | inl there ↦
        let same = both_same (
          rw (serves-method method path no_head x there, serves-match method path no_head x there)
            at e) in
        (
          ap (λ (y : Route h × Params). serves y.0 method path) (sym same) ∙ there,
          ap (λ (y : Route h × Params). y.1) (sym same),
        )
    | inr absent ↦
        skip (str_eq x.method method) (match_path_template x.path path) e
          (sym (or_none (last_serving rs method path)) ∙ rw absent at q)
          (λ c l. last_serving-serves rs r vs t c l)
  ]
    where
      skip :
          (b : Bool) (o : Option Params)
          → keep b x o (candidates rs method path) ≡ (r, vs) ∷ []
          → last_serving rs method path ≡ some t
          → (candidates rs method path ≡ (r, vs) ∷ []
              → last_serving rs method path ≡ some t
              → (serves r method path ≡ true) × (vs ≡ []))
          → (serves r method path ≡ true) × (vs ≡ [])
      skip true (some ws) c l ih =
          absurd (some-ne-none (sym l ∙ last_serving-none method path no_head rs (tail_nil c)))
      skip true none c l ih = ih c l
      skip false o c l ih = ih c l

module _ {h : Host} where
  -- Where exactly one route answers a request that is no HEAD request, and the snapshot has an answer,
  -- the dispatcher takes its fast path for that route just when the application has no default
  -- response class, which the snapshot does not look at.
  pub snapshot-is_fast :
      (app : FastApi h) (method path : Str) (r : Route h) (vs : Params) (t : TrivialRoute h)
      → method ≢ bytes "HEAD"
      → candidates app.routes method path ≡ (r, vs) ∷ []
      → lookup_trivial (snapshot_trivial_routes app) method path ≡ some t
      → is_fast app r vs ≡ is_none app.default_response_class
  snapshot-is_fast app method path r vs t other one found =
      let (free, last) =
        guarded (is_empty app.dependencies) refl (sym (snapshot-lookup app method path) ∙ found) in
      let (served, no_params) =
        last_serving-serves method path not_head app.routes r vs t one last in
      fast_of free served no_params
    where
      not_head : str_eq (bytes "HEAD") method ≡ false
      not_head = ground (arith, str_eq_iff (bytes "HEAD") method)

      guarded :
          (free : Bool)
          → is_empty app.dependencies ≡ free
          → (if free then last_serving app.routes method path else none) ≡ some t
          → (is_empty app.dependencies ≡ true) × (last_serving app.routes method path ≡ some t)
      guarded true f e = (f, e)
      guarded false f e = cc

      fast_of :
          is_empty app.dependencies ≡ true
          → serves r method path ≡ true
          → vs ≡ []
          → is_fast app r vs ≡ is_none app.default_response_class
      fast_of free served no_params = unfold is_fast serves in ground arith
