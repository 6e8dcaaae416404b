-- ===== src/Dispatch/Arguments/Required.antt =====
-- The two stages of the argument binding together.
use hyperfastapi.Prelude.{
  ◌≡◌, refl, ap, subst, true, false, Option, none, some, List, [], ◌∷◌, arith, All, Memᴰ, unwrap_or,
  length, inl, inr,
}
use hyperfastapi.Prelude.Text.{Str, bytes}
use hyperfastapi.Value.{Host, Value, Kwargs}
use hyperfastapi.Value.Dicts.{has}
use hyperfastapi.Route.{ParamSpec, Plan}
use hyperfastapi.Params.Errors.{ValidationErrorEntry}
use hyperfastapi.Params.Cast.{Coercions}
use hyperfastapi.Params.Extract.{Request, filled_elsewhere}
use hyperfastapi.Body.{Validation, BodyState, body_entries, name_of, is_required}
use hyperfastapi.Body.Laws.{Reporting}
use hyperfastapi.Body.Laws.Answers.{
  HasModel, extract_body_params-Answered, extract_body_params-Grows,
}
use hyperfastapi.Dispatch.Arguments.{
  Bindings, Bound, arguments, settled, collect_params, bind_arguments,
}
use hyperfastapi.Dispatch.Arguments.Laws.{specs, collect_params-Served}

module _ {h : Host} where
  -- Arguments come out only of an error-free end of both stages.
  pub settled_inv :
      (es : List ValidationErrorEntry) (o : Option (BodyState h)) (kw : Kwargs h)
      → settled es o ≡ arguments kw
      → (es ≡ []) × ((t : BodyState h) × (o ≡ some t) × (t.error_dicts ≡ []) × (t.kwargs ≡ kw))
  settled_inv es none kw q = cc
  settled_inv (e ∷ es) (some t) kw q = cc
  settled_inv [] (some t) kw q = (refl, go t.error_dicts refl)
    where
      kwargs_same : {a b : Kwargs h} → arguments a ≡ arguments b → a ≡ b
      kwargs_same e = cc

      not_invalid : {v : Value h} → Bound.invalid v ≡ arguments kw → ⊥
      not_invalid e = cc

      go :
          (ds : List (Value h))
          → t.error_dicts ≡ ds
          → (u : BodyState h) × (some t ≡ some u) × (u.error_dicts ≡ []) × (u.kwargs ≡ kw)
      go [] e = (t, refl, e, kwargs_same (rw e at q))
      go (d ∷ ds) e = absurd (not_invalid (rw e at q))

module _ {h : Host} (py : Coercions h) (pydantic : Validation h)
    (reporting : Reporting pydantic) where
  -- When the binding gives arguments, every required parameter that has a name and comes from the
  -- path, the query, a header, a cookie or a form is among them. The plan's body entries have their
  -- models, and pydantic's validation errors are never empty.
  pub bind_arguments-required :
      (plan : Plan h) (body : Str) (req : Request h) (kw : Kwargs h) (s : ParamSpec h)
      (n : Option Str)
      → All HasModel (body_entries plan)
      → bind_arguments py pydantic plan body req ≡ arguments kw
      → Memᴰ s (specs plan)
      → s.name ≡ some n
      → filled_elsewhere (unwrap_or s.source (bytes "query")) ≡ false
      → unwrap_or s.required true ≡ true
      → has (unwrap_or n []) kw ≡ true
  unfolding bind_arguments
  bind_arguments-required plan body req kw s n models q mem named here need =
      let b : Bindings h = collect_params py req plan (record { kwargs = []; errors = [] }) in
      let (no_errors, (t, bodied, no_dicts, same)) = settled_inv b.errors _ kw q in
      let grows = extract_body_params-Grows pydantic reporting plan body _ t models bodied in
      elim (collect_params-Served py req plan (record { kwargs = []; errors = [] }) s n mem named
        here need) [
          | inl there ↦
              subst (λ k. has (unwrap_or n []) k ≡ true) same (grows.keeps (unwrap_or n []) there)
          | inr more ↦ absurd (omega (arith, more, ap length no_errors))
        ]

  -- When the binding gives arguments, every required body parameter is among them. The plan's body
  -- entries have their models, and pydantic's validation errors are never empty.
  pub bind_arguments-required_body :
      (plan : Plan h) (body : Str) (req : Request h) (kw : Kwargs h) (e : ParamSpec h)
      → All HasModel (body_entries plan)
      → bind_arguments py pydantic plan body req ≡ arguments kw
      → Memᴰ e (body_entries plan)
      → is_required e ≡ true
      → has (name_of e) kw ≡ true
  unfolding bind_arguments
  bind_arguments-required_body plan body req kw e models q mem need =
      let b : Bindings h = collect_params py req plan (record { kwargs = []; errors = [] }) in
      let (no_errors, (t, bodied, no_dicts, same)) = settled_inv b.errors _ kw q in
      let grows = extract_body_params-Grows pydantic reporting plan body _ t models bodied in
      subst (λ k. has (name_of e) k ≡ true) same
        (extract_body_params-Answered pydantic reporting plan body _ t e models bodied
          (omega (arith, grows.more_errors, ap (length {A = Value h}) no_dicts)) mem need)
