-- ===== src/Dispatch/Handle.antt =====
-- crates/fr-pyiface/src/app.rs, `_dispatch`: the dependencies, the handler's call, and the clean-up of
-- the `yield` dependencies, as a trace of what Python is asked to do and the answer.
pub mod Laws
use hyperfastapi.Prelude.{
  ℕ, Bool, true, false, ◌||◌, not, Option, none, some, List, [], ◌∷◌, ◌++◌, if◌then◌else◌,
  unwrap_or, is_empty,
}
use hyperfastapi.Prelude.Text.{Str, bytes, str_eq}
use hyperfastapi.Value.{Host, Value, Kwargs, null, dict, entries, set_item}
use hyperfastapi.Json.{Formats}
use hyperfastapi.Route.{Route, ParamSpec, Plan, PlanEntry, nil, cons, not_dict, spec}
use hyperfastapi.App.{FastApi}
use hyperfastapi.Params.Extract.{Request}
use hyperfastapi.Dispatch.Fast.{
  Runtime, Answer, response, raised, json_headers, serialize_value_to_json,
}
use hyperfastapi.Dispatch.Respond.{Rendering, effective_class, respond}

-- What `call_with_async_handling` does with a handler.
pub data Called (h : Host) : Type 0 where
  returned : Value h → Called h
  threw : h.Obj → Called h

-- The error dict of the resolver: `none` where an entry is missing or of another type.
pub record DependencyError (h : Host) : Type 0 where
  pub status : Option ℕ
  pub detail : Option (Value h)
  pub headers : Option (List (Str × Str))

-- The Python layer's `_routing`: `none` where it raises, or returns what cannot be read.
pub record Framework (h : Host) : Type 0 where
  -- `expand_route_level_dependencies`, the inner `none` for what is no list
  pub expand : List (Value h) → Option (Option (Plan h))
  -- `resolve_dependencies`, the application's overrides first
  pub resolve : Value h → Plan h → Request h → Str → Option (Kwargs h × Option (DependencyError h))
  -- `call_with_async_handling`
  pub call : Value h → Kwargs h → Called h

-- What Python is asked to do; a clean-up may carry an exception.
pub data Event (h : Host) : Type 0 where
  resolving : Plan h → Event h
  calling : Value h → Kwargs h → Event h
  draining : Option h.Obj → Event h

pub record Run (h : Host) : Type 0 where
  pub events : List (Event h)
  pub answer : Answer h

module _ {h : Host} where
  abbrev pub quiet : Answer h → Run h
  quiet a = record { events = []; answer = a }

  unfoldable pub plan_append : Plan h → Plan h → Plan h
  plan_append nil q = q
  plan_append (cons e p) q = cons e (plan_append p q)

  abbrev resolver_source : PlanEntry h → Bool
  resolver_source (not_dict v) = false
  resolver_source (spec s dep_plan) =
      let source = unwrap_or s.source [] in
      str_eq source (bytes "depends")
      || str_eq source (bytes "security")
      || str_eq source (bytes "background_tasks")
      || str_eq source (bytes "request")

  unfoldable pub any_resolver_source : Plan h → Bool
  any_resolver_source nil = false
  any_resolver_source (cons e plan) = resolver_source e || any_resolver_source plan

  -- The dependencies of the application, then the route's.
  abbrev pub extra_dependencies : FastApi h → Route h → List (Value h)
  extra_dependencies app r = app.dependencies ++ r.dependencies

  unfoldable pub needs_deps : FastApi h → Route h → Bool
  unfolding any_resolver_source
  needs_deps app r = not (is_empty (extra_dependencies app r)) || any_resolver_source r.param_plan

  -- The resolver's arguments replace those of the same name.
  unfoldable pub merge : Kwargs h → Kwargs h → Kwargs h
  merge [] kwargs = kwargs
  merge ((k, v) ∷ dep_kwargs) kwargs = merge dep_kwargs (set_item k v kwargs)

module _ {h : Host} (fmt : Formats h) (rt : Runtime h) where
  abbrev pub error_answer : ℕ → List (Str × Str) → Option Str → Answer h
  error_answer status headers none = raised
  error_answer status headers (some body) =
      response (record { status = status; headers = json_headers ++ headers; body = body })

  -- The answer to a dependency's error.
  unfoldable pub dependency_error : DependencyError h → Answer h
  unfolding serialize_value_to_json entries
  dependency_error e = error_answer (unwrap_or e.status 500) (unwrap_or e.headers []) (
      serialize_value_to_json fmt rt
        (dict (entries ((bytes "detail", unwrap_or e.detail null) ∷ []))))

module _ {h : Host} (fw : Framework h) where
  abbrev expanded : Plan h → Option (Option (Plan h)) → Option (Plan h)
  expanded plan none = none
  expanded plan (some none) = some plan
  expanded plan (some (some synthetic)) = some (plan_append synthetic plan)

  -- The plan that the resolver is given.
  unfoldable pub resolver_plan : FastApi h → Route h → Option (Plan h)
  unfolding plan_append
  resolver_plan app r =
      if is_empty (extra_dependencies app r)
      then some r.param_plan
      else expanded r.param_plan (fw.expand (extra_dependencies app r))

module _ {h : Host} (fmt : Formats h) (rt : Runtime h) (py : Rendering h) (fw : Framework h) where
  -- After the call the `yield` dependencies are cleaned up, and an exception is raised again.
  abbrev pub after_call : Route h → Option (Value h) → Bool → Kwargs h → Called h → Run h
  after_call r rc is_head kwargs (returned v) = record {
    events = calling r.handler kwargs ∷ draining none ∷ [];
    answer = respond fmt rt py r rc is_head v;
  }
  after_call r rc is_head kwargs (threw e) = record {
    events = calling r.handler kwargs ∷ draining (some e) ∷ [];
    answer = raised;
  }

  unfoldable pub call_handler : Route h → Option (Value h) → Bool → Kwargs h → Run h
  unfolding respond
  call_handler r rc is_head kwargs = after_call r rc is_head kwargs (fw.call r.handler kwargs)

  abbrev pub after_resolve :
      Route h
      → Option (Value h)
      → Bool
      → Kwargs h
      → Option (Kwargs h × Option (DependencyError h))
      → Run h
  after_resolve r rc is_head kwargs none = quiet raised
  after_resolve r rc is_head kwargs (some (dep_kwargs, some e)) = quiet (dependency_error fmt rt e)
  after_resolve r rc is_head kwargs (some (dep_kwargs, none)) =
      call_handler r rc is_head (merge dep_kwargs kwargs)

  abbrev pub resolved :
      Value h
      → Route h
      → Option (Value h)
      → Bool
      → Request h
      → Str
      → Kwargs h
      → Option (Plan h)
      → Run h
  resolved overrides r rc is_head req body kwargs none = quiet raised
  resolved overrides r rc is_head req body kwargs (some plan) =
      let next = after_resolve r rc is_head kwargs (fw.resolve overrides plan req body) in
      record { events = resolving plan ∷ next.events; answer = next.answer }

  -- From the bound arguments to the answer.
  unfoldable pub handle : FastApi h → Route h → Bool → Request h → Str → Kwargs h → Run h
  unfolding needs_deps resolver_plan dependency_error merge call_handler
  handle app r is_head req body kwargs =
      let rc = effective_class app r in
      if needs_deps app r
      then resolved app.dependency_overrides r rc is_head req body kwargs (resolver_plan fw app r)
      else call_handler r rc is_head kwargs
