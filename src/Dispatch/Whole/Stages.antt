-- ===== src/Dispatch/Whole/Stages.antt =====
-- The general path of `_dispatch`: what is called, and with which arguments.
use hyperfastapi.Prelude.{
  ◌≡◌, refl, Bool, true, false, Option, none, some, [], All, All-map, Memᴰ, ◌⊎◌, inl, inr,
  unwrap_or,
}
use hyperfastapi.Prelude.Text.{Str, bytes, str_eq}
use hyperfastapi.Value.{Host, Value, Kwargs}
use hyperfastapi.Value.Dicts.{has}
use hyperfastapi.Path.{Params}
use hyperfastapi.Route.{Route, ParamSpec, Plan, nil, cons}
use hyperfastapi.App.{FastApi, is_empty_plan}
use hyperfastapi.Params.Extract.{Request, filled_elsewhere}
use hyperfastapi.Body.{body_entries, is_required, name_of}
use hyperfastapi.Body.Laws.{Reporting}
use hyperfastapi.Body.Laws.Answers.{HasModel}
use hyperfastapi.Dispatch.Fast.{is_fast}
use hyperfastapi.Dispatch.Arguments.{
  Incoming, Bound, arguments, invalid, bind_arguments, parse_request,
}
use hyperfastapi.Dispatch.Arguments.Laws.{specs}
use hyperfastapi.Dispatch.Arguments.Required.{bind_arguments-required, bind_arguments-required_body}
use hyperfastapi.Dispatch.Arguments.Typed.{IsDeclared, bind_arguments-Typed}
use hyperfastapi.Dispatch.Handle.{Run}
use hyperfastapi.Dispatch.Handle.Laws.{
  Keeps, HasStatus, Handled, error_answer-HasStatus, handle-Handled,
}
use hyperfastapi.Dispatch.Whole.{Platform, bound_run, parsed_run, run_route}

module _ {h : Host} where
  -- What a plan requires of the request's path, query, headers, cookies and form, and of its body.
  pub record Complete (plan : Plan h) (kw : Kwargs h) : Type 0 where
    pub parameters :
        (s : ParamSpec h) (n : Option Str)
        → Memᴰ s (specs plan)
        → s.name ≡ some n
        → filled_elsewhere (unwrap_or s.source (bytes "query")) ≡ false
        → unwrap_or s.required true ≡ true
        → has (unwrap_or n []) kw ≡ true
    pub bodies :
        (s : ParamSpec h)
        → Memᴰ s (body_entries plan)
        → is_required s ≡ true
        → has (name_of s) kw ≡ true

  pub empty-Complete : (plan : Plan h) → is_empty_plan plan ≡ true → Complete plan []
  unfolding specs body_entries
  empty-Complete nil e = record {
    parameters = λ s n mem. elim mem [ ];
    bodies = λ s mem. elim mem [ ];
  }
  empty-Complete (cons entry plan) e = absurd cc

  pub Complete-Keeps :
      (plan : Plan h) (kwargs kw : Kwargs h)
      → Complete plan kwargs
      → Keeps kwargs kw
      → Complete plan kw
  Complete-Keeps plan kwargs kw c keeps = record {
    parameters = λ s n mem named here required.
        keeps (unwrap_or n []) (c.parameters s n mem named here required);
    bodies = λ s mem required. keeps (name_of s) (c.bodies s mem required);
  }

-- An argument that an entry of the plan declares and that has a value of the request's: the
-- placeholders' values, and what is parsed of the query, the headers and the body.
pub data IsSupplied {h : Host} (p : Platform h) (params : Params) (i : Incoming) (plan : Plan h)
    (arg : Str × Value h) : Type 0 where
  supplied :
      {req : Request h}
      → parse_request p.parsers plan params i ≡ some req
      → IsDeclared p.coercions p.validation (unwrap_or i.body []) req plan arg
      → IsSupplied p params i plan arg

module _ {h : Host} (p : Platform h) (reporting : Reporting p.validation) (app : FastApi h)
    (method path : Str) (i : Incoming) where
  abbrev is_head : Bool
  is_head = str_eq method (bytes "HEAD")

  -- Nothing is called, and the answer is 422 or an exception; or the handler's stage is entered with
  -- every argument that the plan requires, each of its declared type and from the request, and leaves
  -- one of its traces.
  abbrev pub Staged : Route h → Params → Run h → Type 0
  Staged r params run =
      ((run.events ≡ []) × HasStatus 422 run.answer)
      ⊎ ((req : Request h) × (kwargs : Kwargs h) × (parse_request p.parsers r.param_plan params i
            ≡ some req)
          × Complete r.param_plan kwargs
          × All (IsSupplied p params i r.param_plan) kwargs
          × Handled p.framework app r is_head req (unwrap_or i.body []) kwargs run.events
              run.answer)

  bound_run-Staged :
      (r : Route h) (params : Params) (req : Request h) (b : Bound h)
      → All HasModel (body_entries r.param_plan)
      → parse_request p.parsers r.param_plan params i ≡ some req
      → bind_arguments p.coercions p.validation r.param_plan (unwrap_or i.body []) req ≡ b
      → Staged r params (bound_run p app r is_head req (unwrap_or i.body []) b)
  bound_run-Staged r params req (arguments kwargs) models read e =
      let body = unwrap_or i.body [] in
      inr (
        req,
        kwargs,
        read,
        record {
          parameters = λ s n mem named here required.
              bind_arguments-required p.coercions p.validation reporting r.param_plan body req
                kwargs s n models e mem named here required;
          bodies = λ s mem required.
              bind_arguments-required_body p.coercions p.validation reporting r.param_plan body req
                kwargs s models e mem required;
        },
        All-map (λ arg. supplied read) kwargs
            (bind_arguments-Typed p.coercions p.validation body req r.param_plan kwargs e),
        handle-Handled p.formats p.runtime p.rendering p.framework app r is_head req body kwargs,
      )
  bound_run-Staged r params req (invalid detail) models read e =
      inl (refl, error_answer-HasStatus p.formats p.runtime 422 [] _)
  bound_run-Staged r params req Bound.raised models read e = inl (refl, inl refl)

  parsed_run-Staged :
      (r : Route h) (params : Params) (o : Option (Request h))
      → All HasModel (body_entries r.param_plan)
      → parse_request p.parsers r.param_plan params i ≡ o
      → Staged r params (parsed_run p app r is_head (unwrap_or i.body []) o)
  parsed_run-Staged r params none models read = inl (refl, inl refl)
  parsed_run-Staged r params (some req) models read =
      bound_run-Staged r params req
        (bind_arguments p.coercions p.validation r.param_plan (unwrap_or i.body []) req) models read
        refl

  pub run_route-Staged :
      (r : Route h) (params : Params)
      → All HasModel (body_entries r.param_plan)
      → is_fast app r params ≡ false
      → Staged r params (run_route p app r params method i)
  unfolding run_route
  run_route-Staged r params models slow =
      rw slow
        (parsed_run-Staged r params (parse_request p.parsers r.param_plan params i) models refl)
