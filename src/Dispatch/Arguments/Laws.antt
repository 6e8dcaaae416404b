-- ===== src/Dispatch/Arguments/Laws.antt =====
-- The loop over the plan: a required parameter is served or reported.
use hyperfastapi.Prelude.{
  ◌≤◌, ◌≡◌, ◌⊎◌, subst, Bool, true, false, Option, some, List, [], ◌∷◌, arith, Memᴰ, unwrap_or,
  length, length-append, inl, inr,
}
use hyperfastapi.Prelude.Text.{Str, bytes}
use hyperfastapi.Value.{Host}
use hyperfastapi.Value.Dicts.{has, has-set_item, has-set_item_self}
use hyperfastapi.Route.{ParamSpec, Plan, nil, cons, not_dict, spec}
use hyperfastapi.Params.Errors.{Checked, ok, err}
use hyperfastapi.Params.Cast.{Coercions}
use hyperfastapi.Params.Extract.{
  Extraction, value, use_default, Request, filled_elsewhere, extract_one_param,
}
use hyperfastapi.Params.Typed.{OnOk, holds, fails}
use hyperfastapi.Params.Extract.Typed.{Yields, typed, default, extract_one_param-Answer}
use hyperfastapi.Dispatch.Arguments.{Bindings, collected, collect_params}

-- The entries of a plan that are dicts.
unfoldable pub specs : {h : Host} → Plan h → List (ParamSpec h)
specs nil = []
specs (cons (not_dict v) plan) = specs plan
specs (cons (spec s dep_plan) plan) = s ∷ specs plan

module _ {h : Host} where
  -- Errors and arguments are only added.
  record Extends (b c : Bindings h) : Type 0 where
    more_errors : length b.errors ≤ length c.errors
    keeps : (k : Str) → has k b.kwargs ≡ true → has k c.kwargs ≡ true

  Extends-refl : (b : Bindings h) → Extends b b
  Extends-refl b = record { more_errors = omega arith; keeps = λ k e. e }

  Extends-trans : (b c d : Bindings h) → Extends b c → Extends c d → Extends b d
  Extends-trans b c d p q = record {
    more_errors = omega (arith, p.more_errors, q.more_errors);
    keeps = λ k e. q.keeps k (p.keeps k e);
  }

  collected-Extends : (b : Bindings h) (x : Checked (Extraction h)) → Extends b (collected b x)
  collected-Extends b (ok (value name v)) = record {
    more_errors = omega arith;
    keeps = λ k e. has-set_item name k v b.kwargs e;
  }
  collected-Extends b (ok use_default) = Extends-refl b
  collected-Extends b (err e) = record {
    more_errors = omega (arith, length-append {0} b.errors (e ∷ []));
    keeps = λ k q. q;
  }

  -- The parameter has its argument, or there is an error.
  abbrev pub Served : Str → Bindings h → Type 0
  Served name b = (has name b.kwargs ≡ true) ⊎ (1 ≤ length b.errors)

  Served-later : (name : Str) (b c : Bindings h) → Extends b c → Served name b → Served name c
  Served-later name b c x (inl there) = inl (x.keeps name there)
  Served-later name b c x (inr more) = inr (omega (arith, more, x.more_errors))

  collected-Served :
      {py : Coercions h} {req : Request h} {s : ParamSpec h} {kind : Str} (b : Bindings h)
      (required : Bool) (name : Str) (x : Checked (Extraction h))
      → required ≡ true
      → OnOk (Yields py req required s name kind) x
      → Served name (collected b x)
  collected-Served b required name (err e) need fails =
      inr (omega (arith, length-append {0} b.errors (e ∷ [])))
  collected-Served b required name (ok (value _ v)) need (holds (typed fits)) =
      inl (has-set_item_self name v b.kwargs)
  collected-Served b required name (ok use_default) need (holds (default free)) = absurd (cc)

module _ {h : Host} (py : Coercions h) (req : Request h) where
  collect_params-Extends :
      (plan : Plan h) (b : Bindings h) → Extends b (collect_params py req plan b)
  unfolding collect_params
  collect_params-Extends nil b = Extends-refl b
  collect_params-Extends (cons (not_dict v) plan) b = collect_params-Extends plan b
  collect_params-Extends (cons (spec s dep_plan) plan) b =
      Extends-trans b _ _ (collected-Extends b (extract_one_param py req s))
        (collect_params-Extends plan _)

  pub collect_params-Served :
      (plan : Plan h) (b : Bindings h) (s : ParamSpec h) (n : Option Str)
      → Memᴰ s (specs plan)
      → s.name ≡ some n
      → filled_elsewhere (unwrap_or s.source (bytes "query")) ≡ false
      → unwrap_or s.required true ≡ true
      → Served (unwrap_or n []) (collect_params py req plan b)
  unfolding collect_params specs
  collect_params-Served nil b s n mem named here need = elim mem [ ]
  collect_params-Served (cons (not_dict v) plan) b s n mem named here need =
      collect_params-Served plan b s n mem named here need
  collect_params-Served (cons (spec x dep_plan) plan) b s n (Memᴰ.tail mem) named here need =
      collect_params-Served plan _ s n mem named here need
  collect_params-Served (cons (spec x dep_plan) plan) b s n (Memᴰ.head same) named here need =
      Served-later (unwrap_or n []) _ _ (collect_params-Extends plan _) (
        subst (λ y. Served (unwrap_or n []) (collected b (extract_one_param py req y))) same
          (collected-Served b (unwrap_or s.required true) (unwrap_or n [])
            (extract_one_param py req s) need (extract_one_param-Answer py req s n named here)))
