-- ===== src/Dispatch/Whole/Delivery.antt =====
-- From a path with values in it to the handler's call with these values.
pub mod Tests
use hyperfastapi.Prelude.{
  ◌≡◌, refl, ap, sym, ◌∙◌, Bool, true, false, Option, none, some, List, [], ◌∷◌, ◌++◌, map, arith,
  is_empty, unwrap_or,
}
use hyperfastapi.Prelude.Text.{Str, bytes, str_eq, str_eq_iff, split, join}
use hyperfastapi.Value.{Host, Value, Kwargs}
use hyperfastapi.Path.{Params, match_path_template}
use hyperfastapi.Path.Spec.{fill, names}
use hyperfastapi.Path.Filling.{IsPlain}
use hyperfastapi.Path.Building.{match-fill}
use hyperfastapi.Route.{Route, Plan, nil, cons, not_dict, spec}
use hyperfastapi.App.{FastApi}
use hyperfastapi.Params.Cast.{Coercions}
use hyperfastapi.Params.Extract.{Request}
use hyperfastapi.Body.{Validation, body_entries, extract_body_params}
use hyperfastapi.Dispatch.Select.{matched, select}
use hyperfastapi.Dispatch.Select.Spec.{candidates, choice}
use hyperfastapi.Dispatch.Select.Laws.{select-choice}
use hyperfastapi.Dispatch.Select.Refusals.{candidates-append}
use hyperfastapi.Dispatch.Fast.{is_fast}
use hyperfastapi.Dispatch.Request.{
  any_has_form, has_json_body, content_type_errors, cookie_dict, header_lookup,
}
use hyperfastapi.Dispatch.Arguments.{
  Incoming, Bound, arguments, query_dict, form_dict, collect_params, bind_arguments, parse_request,
}
use hyperfastapi.Dispatch.Arguments.Placeholders.{
  PathValues, AllWritable, AreDistinct, Declared, as_params, as_kwargs, as_params-contains,
  as_params-names, collect_params-Declared,
}
use hyperfastapi.Dispatch.Respond.{effective_class, respond}
use hyperfastapi.Dispatch.Docs.{auto_served}
use hyperfastapi.Dispatch.Handle.{
  Run, Called, calling, draining, needs_deps, any_resolver_source, call_handler, handle,
}
use hyperfastapi.Dispatch.Whole.{Platform, run_route, dispatch}

module _ {h : Host} where
  -- A plan of path parameters has none of the other kinds.
  record IsPathPlan (plan : Plan h) : Type 0 where
    no_form : any_has_form plan ≡ false
    no_body : body_entries plan ≡ []
    no_json : has_json_body plan ≡ false

  Declared-IsPathPlan : (plan : Plan h) (vs : PathValues) → Declared plan vs → IsPathPlan plan
  unfolding any_has_form body_entries has_json_body bytes str_eq
  Declared-IsPathPlan nil vs d = record { no_form = refl; no_body = refl; no_json = refl }
  Declared-IsPathPlan (cons (not_dict x) plan) vs d = absurd d
  Declared-IsPathPlan (cons (spec s dep_plan) plan) [] d = absurd d
  Declared-IsPathPlan (cons (spec s dep_plan) plan) (v ∷ vs) (one, d) =
      let rest = Declared-IsPathPlan plan vs d in
      record {
        no_form = simp (one.sourced, rest.no_form);
        no_body = simp (one.sourced, rest.no_body);
        no_json = simp (one.sourced, rest.no_json);
      }

  Declared-slow :
      (app : FastApi h) (r : Route h) (vs : PathValues)
      → is_empty vs ≡ false
      → is_fast app r (as_params vs) ≡ false
  unfolding is_fast
  Declared-slow app r [] full = absurd (cc)
  Declared-slow app r (v ∷ vs) full = ground arith

module _ {h : Host} (py : Coercions h) (pydantic : Validation h) where
  bind_arguments-Declared :
      (req : Request h) (plan : Plan h) (body : Str) (vs : PathValues)
      → Declared plan vs
      → AllWritable vs
      → AreDistinct vs
      → req.path_params ≡ as_params vs
      → bind_arguments py pydantic plan body req ≡ arguments (as_kwargs vs)
  unfolding bind_arguments content_type_errors extract_body_params
  bind_arguments-Declared req plan body vs d w distinct e =
      let p = Declared-IsPathPlan plan vs d in
      simp (collect_params-Declared py req plan [] vs d w distinct tt e, p.no_body, p.no_json)

first_candidate :
    {h : Host} (before : List (Route h)) (r : Route h) (after : List (Route h)) (path : Str)
    (vs : Params)
    → candidates before r.method path ≡ []
    → match_path_template r.path path ≡ some vs
    → select (before ++ r ∷ after) r.method path ≡ matched r vs
unfolding choice candidates
first_candidate before r after path vs earlier e = ground (
  arith,
  select-choice (before ++ r ∷ after) r.method path,
  candidates-append before (r ∷ after) r.method path,
  str_eq_iff r.method r.method,
)

module _ {h : Host} (r : Route h) where
  abbrev pub is_head : Bool
  is_head = str_eq r.method (bytes "HEAD")

  -- The path that a caller builds.
  abbrev pub filled : PathValues → Str
  filled values = join b'/' (fill (split b'/' r.path) (as_params values))

module _ {h : Host} (p : Platform h) (app : FastApi h) (r : Route h) (values : PathValues)
    (i : Incoming) where
  -- What the handler's call comes to.
  abbrev delivered : Run h
  delivered =
      call_handler p.formats p.runtime p.rendering p.framework r (effective_class app r) (is_head r)
        (as_kwargs values)

  run_route-Declared :
      (query : List (Str × List Str))
      → is_empty values ≡ false
      → Declared r.param_plan values
      → AllWritable values
      → AreDistinct values
      → needs_deps app r ≡ false
      → query_dict p.parsers i.query_string ≡ some query
      → run_route p app r (as_params values) r.method i ≡ delivered
  unfolding run_route parse_request form_dict handle
  run_route-Declared query full d w distinct alone parsed =
      let q = Declared-IsPathPlan r.param_plan values d in
      let m = header_lookup i.headers in
      let req : Request h = record {
        path_params = as_params values;
        query = query;
        headers = m;
        cookies = cookie_dict m;
        form = [];
      } in
      simp (
        Declared-slow app r values full,
        parsed,
        q.no_form,
        bind_arguments-Declared p.coercions p.validation req r.param_plan (unwrap_or i.body [])
            values d w distinct refl,
        alone,
      )

  select-Declared :
      (before after : List (Route h))
      → app.routes ≡ before ++ r ∷ after
      → candidates before r.method (filled r values) ≡ []
      → map (λ v. v.0) values ≡ names (split b'/' r.path)
      → IsPlain (split b'/' r.path)
      → AllWritable values
      → select app.routes r.method (filled r values) ≡ matched r (as_params values)
  select-Declared before after table earlier named plain w = rw table (
      first_candidate before r after (filled r values) (as_params values) earlier (
        match-fill r.path (as_params values) (as_params-names values ∙ named) plain
          (as_params-contains values w)))

  -- A request for the path that a route's template becomes when its placeholders are filled with
  -- integers of an i64's range, in decimal, and with texts without a slash makes `_dispatch` call the
  -- route's handler with exactly these values under the placeholders' names, clean up, and answer with
  -- what the handler returns. The template has placeholders, no catch-all, and no name twice; the
  -- plan declares them as "int" and "str" with no further constraint and nothing else; no earlier
  -- route of the method and no documentation page answers the path; no dependency is declared; and
  -- the query string is parsed.
  pub dispatch-delivered :
      (before after : List (Route h)) (query : List (Str × List Str)) (v : Value h)
      → app.routes ≡ before ++ r ∷ after
      → candidates before r.method (filled r values) ≡ []
      → auto_served p.formats p.runtime p.to_lowercase app r.method (filled r values) ≡ none
      → map (λ v. v.0) values ≡ names (split b'/' r.path)
      → is_empty values ≡ false
      → IsPlain (split b'/' r.path)
      → Declared r.param_plan values
      → AllWritable values
      → AreDistinct values
      → needs_deps app r ≡ false
      → query_dict p.parsers i.query_string ≡ some query
      → p.framework.call r.handler (as_kwargs values) ≡ Called.returned v
      → dispatch p app r.method (filled r values) i ≡ record {
        events = calling r.handler (as_kwargs values) ∷ draining none ∷ [];
        answer = respond p.formats p.runtime p.rendering r (effective_class app r) (is_head r) v;
      }
  unfolding dispatch call_handler
  dispatch-delivered before after query v table earlier no_page named full plain d w distinct alone
        parsed called =
      simp (
        no_page,
        select-Declared before after table earlier named plain w,
        run_route-Declared query full d w distinct alone parsed,
        called,
      )
