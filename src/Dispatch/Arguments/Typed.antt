-- ===== src/Dispatch/Arguments/Typed.antt =====
-- The keyword arguments that the binding gives have the types that the plan declares.
use hyperfastapi.Prelude.{
  ◌≡◌, refl, subst, true, false, Option, none, some, List, [], ◌∷◌, All, Memᴰ, inl, inr, unwrap_or,
  Bool-cases,
}
use hyperfastapi.Prelude.Text.{Str, bytes}
use hyperfastapi.Value.{Host, Value, Kwargs}
use hyperfastapi.Value.Dicts.{All-set_item}
use hyperfastapi.Route.{ParamSpec, Plan, nil, cons, not_dict, spec}
use hyperfastapi.Params.Errors.{Checked, ok, err}
use hyperfastapi.Params.Cast.{Coercions}
use hyperfastapi.Params.Typed.{OnOk, holds, fails}
use hyperfastapi.Params.Extract.{
  Extraction, value, use_default, Request, filled_elsewhere, by_name, extract_named,
  extract_one_param,
}
use hyperfastapi.Params.Extract.Values.{IsTyped}
use hyperfastapi.Params.Extract.Typed.{Yields, typed, default, extract_named-Answer}
use hyperfastapi.Body.{Validation, BodyState, name_of, body_entries}
use hyperfastapi.Body.Typed.{IsValidated, OnSome}
use hyperfastapi.Body.Typed.Stores.{Admits, extract_body_params-Stores}
use hyperfastapi.Dispatch.Request.{content_type_errors}
use hyperfastapi.Dispatch.Arguments.{Bindings, arguments, collected, collect_params, bind_arguments}
use hyperfastapi.Dispatch.Arguments.Laws.{specs}
use hyperfastapi.Dispatch.Arguments.Required.{settled_inv}

module _ {h : Host} (py : Coercions h) (pydantic : Validation h) (body : Str)
    (req : Request h) where
  -- An argument comes from an entry of the plan, under its name, with a value of its type that the
  -- request has for it.
  pub data IsDeclared (plan : Plan h) : Str × Value h → Type 0 where
    extracted :
        {s : ParamSpec h} {n : Option Str} {v : Value h}
        → Memᴰ s (specs plan)
        → s.name ≡ some n
        → filled_elsewhere (unwrap_or s.source (bytes "query")) ≡ false
        → IsTyped py req s (unwrap_or n []) (unwrap_or s.type_kind (bytes "str")) v
        → IsDeclared plan (unwrap_or n [], v)
    of_body :
        {e : ParamSpec h} {v : Value h}
        → Memᴰ e (body_entries plan)
        → IsValidated pydantic body e v
        → IsDeclared plan (name_of e, v)

  module _ (P : Str × Value h → Type 0) where
    abbrev StoresOne : Extraction h → Type 0
    StoresOne (value n v) = P (n, v)
    StoresOne use_default = Unit

    collected-Stores :
        (b : Bindings h) (x : Checked (Extraction h))
        → OnOk StoresOne x
        → All P b.kwargs
        → All P (collected b x).kwargs
    collected-Stores b (ok (value n v)) (holds p) q = All-set_item P n v b.kwargs p q
    collected-Stores b (ok use_default) p q = q
    collected-Stores b (err e) p q = q

    collect_params-Stores :
        (plan : Plan h) (b : Bindings h)
        → ((s : ParamSpec h) → Memᴰ s (specs plan) → OnOk StoresOne (extract_one_param py req s))
        → All P b.kwargs
        → All P (collect_params py req plan b).kwargs
    unfolding collect_params specs
    collect_params-Stores nil b f q = q
    collect_params-Stores (cons (not_dict v) plan) b f q = collect_params-Stores plan b f q
    collect_params-Stores (cons (spec s dep_plan) plan) b f q =
        collect_params-Stores plan _ (λ x mem. f x (Memᴰ.tail mem))
          (collected-Stores b (extract_one_param py req s) (f s (Memᴰ.head refl)) q)

  OnOk-IsDeclared :
      (plan : Plan h) (s : ParamSpec h) (n : Option Str) (x : Checked (Extraction h))
      → Memᴰ s (specs plan)
      → s.name ≡ some n
      → filled_elsewhere (unwrap_or s.source (bytes "query")) ≡ false
      → OnOk
          (Yields py req
            (unwrap_or s.required true)
            s
            (unwrap_or n [])
            (unwrap_or s.type_kind (bytes "str")))
          x
      → OnOk (StoresOne (IsDeclared plan)) x
  OnOk-IsDeclared plan s n (ok (value _ v)) mem named here (holds (typed fits)) =
      holds (extracted mem named here fits)
  OnOk-IsDeclared plan s n (ok use_default) mem named here (holds (default free)) = holds tt
  OnOk-IsDeclared plan s n (err e) mem named here fails = fails

  named-IsDeclared :
      (plan : Plan h) (s : ParamSpec h)
      → Memᴰ s (specs plan)
      → (o : Option (Option Str)) → s.name ≡ o
      → OnOk (StoresOne (IsDeclared plan)) (by_name py req s o)
  unfolding extract_named
  named-IsDeclared plan s mem none named = holds tt
  named-IsDeclared plan s mem (some n) named =
      elim (Bool-cases (filled_elsewhere (unwrap_or s.source (bytes "query")))) [
        | inl elsewhere ↦ rw elsewhere (holds tt)
        | inr here ↦
            OnOk-IsDeclared plan s n _ mem named here
              (extract_named-Answer py req s (unwrap_or n []) here)
      ]

  extracted-IsDeclared :
      (plan : Plan h) (s : ParamSpec h)
      → Memᴰ s (specs plan)
      → OnOk (StoresOne (IsDeclared plan)) (extract_one_param py req s)
  unfolding extract_one_param
  extracted-IsDeclared plan s mem = named-IsDeclared plan s mem s.name refl

  body-IsDeclared :
      (plan : Plan h) (es : List (ParamSpec h))
      → ((e : ParamSpec h) → Memᴰ e es → Memᴰ e (body_entries plan))
      → All (Admits pydantic body (IsDeclared plan)) es
  body-IsDeclared plan [] f = tt
  body-IsDeclared plan (e ∷ es) f = (
    λ v made. of_body (f e (Memᴰ.head refl)) made,
    body-IsDeclared plan es (λ x mem. f x (Memᴰ.tail mem)),
  )

  -- When the binding gives keyword arguments, each of them stands under the name of an entry of the
  -- plan and has a value of that entry's type that the request has for it, in the place that the
  -- entry's source names: the path, the query, the headers, the cookies or the form. The value is what
  -- the form parser made for an upload or its contents, the cast of the first text that the request has
  -- for the entry, or a list of the casts of all of them for "list[...]". A cast gives an integer of 64
  -- bits for "int", a float, a Boolean or a UUID for their kinds, and text for the others. A single
  -- cast meets the entry's constraints: the bounds if it can be read as a float, and the lengths and
  -- the pattern if it is a text, where a pattern whose match raises counts as met. For an entry of the
  -- body, the value is what pydantic returned for the entry's model and the body, or the entry's value
  -- in the body's JSON object, and is that JSON itself if the entry is neither a model nor a list of
  -- models.
  pub bind_arguments-Typed :
      (plan : Plan h) (kw : Kwargs h)
      → bind_arguments py pydantic plan body req ≡ arguments kw
      → All (IsDeclared plan) kw
  unfolding bind_arguments
  bind_arguments-Typed plan kw q =
      let b : Bindings h = collect_params py req plan (record { kwargs = []; errors = [] }) in
      let start : BodyState h = record {
        kwargs = b.kwargs;
        error_dicts = content_type_errors plan body req.headers;
      } in
      let (no_errors, (t, bodied, no_dicts, same)) = settled_inv b.errors _ kw q in
      subst (All (IsDeclared plan)) same (
        subst (OnSome (λ (t : BodyState h). All (IsDeclared plan) t.kwargs)) bodied (
          extract_body_params-Stores pydantic body (IsDeclared plan) plan start
            (body-IsDeclared plan (body_entries plan) (λ e mem. mem))
            (collect_params-Stores (IsDeclared plan) plan (record { kwargs = []; errors = [] })
              (extracted-IsDeclared plan) tt)))
