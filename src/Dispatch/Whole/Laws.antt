-- ===== src/Dispatch/Whole/Laws.antt =====
-- When a request reaches a handler, with which arguments, and what comes back.
use hyperfastapi.Dispatch.Whole.Stages.{Complete, IsSupplied}
use hyperfastapi.Prelude.{◌≡◌, All, ◌⊎◌}
use hyperfastapi.Prelude.Text.{Str, bytes, str_eq}
use hyperfastapi.Value.{Host, Value, Kwargs}
use hyperfastapi.Path.{Params}
use hyperfastapi.Route.{Route}
use hyperfastapi.App.{FastApi}
use hyperfastapi.Body.{body_entries}
use hyperfastapi.Body.Laws.Answers.{HasModel}
use hyperfastapi.Dispatch.Select.{matched, select}
use hyperfastapi.Dispatch.Fast.{Answer}
use hyperfastapi.Dispatch.Arguments.{Incoming}
use hyperfastapi.Dispatch.Respond.Laws.{Bodied}
use hyperfastapi.Dispatch.Handle.Laws.{IsResolved}
use hyperfastapi.Dispatch.Whole.{Platform}

-- A route was reached, and its handler called with all that its plan requires, and with nothing but
-- what the plan declares or the resolver gives.
pub record Reached {h : Host} (p : Platform h) (app : FastApi h) (method path : Str) (f : Value h)
    (i : Incoming) (kw : Kwargs h) (a : Answer h) : Type 0 where
  pub reached : Route h
  pub params : Params
  pub selected : select app.routes method path ≡ matched reached params
  pub its_handler : f ≡ reached.handler
  pub complete : Complete reached.param_plan kw
  pub declared :
      All
        (λ arg.
          IsSupplied p params i reached.param_plan arg
          ⊎ IsResolved p.framework app.dependency_overrides arg)
        kw
  pub bodied : Bodied (str_eq method (bytes "HEAD")) a

-- The body parameters of every route have their models.
abbrev pub Modelled : {h : Host} → FastApi h → Type 0
Modelled app = All (λ r. All HasModel (body_entries r.param_plan)) app.routes
