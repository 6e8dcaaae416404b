-- ===== src/App/Summary.antt =====
-- crates/fr-pyiface/src/app.rs: `_routes_summary` and the `routes` getter. `entry_of` gives the
-- Python dict that an entry of a plan stands for.
use hyperfastapi.Prelude.{Option, none, some, List, [], ◌∷◌, map, if◌then◌else◌}
use hyperfastapi.Prelude.Int.{ℤ}
use hyperfastapi.Prelude.Text.{Str, bytes, str_eq}
use hyperfastapi.Value.{Host, Value, null, bool, int, str, list, items}
use hyperfastapi.Route.{SecurityEntry, Route, Plan, PlanEntry, nil, cons}
use hyperfastapi.App.{FastApi}
use hyperfastapi.App.Openapi.{object, text_list}

module _ {h : Host} where
  abbrev text_or_null : Option Str → Value h
  text_or_null none = null
  text_or_null (some s) = str s

  abbrev int_or_null : Option ℤ → Value h
  int_or_null none = null
  int_or_null (some n) = int n

  abbrev or_null : Option (Value h) → Value h
  or_null none = null
  or_null (some v) = v

  unfoldable pub security_summary : SecurityEntry h → Value h
  security_summary s = object (
      (bytes "scheme_name", str s.scheme_name)
      ∷ (bytes "scopes", text_list s.scopes)
      ∷ (bytes "model", s.model)
      ∷ [])

  -- `FastAPI.routes`
  unfoldable pub routes_getter : FastApi h → Value h
  routes_getter app = list (
      items (
        map
          (λ (r : Route h).
            object ((bytes "path", str r.path) ∷ (bytes "method", str r.method) ∷ []))
          app.routes))

module _ {h : Host} (entry_of : PlanEntry h → Value h) where
  plan_items : Plan h → List (Value h)
  plan_items nil = []
  plan_items (cons e plan) = entry_of e ∷ plan_items plan

  unfoldable pub route_summary : Route h → Value h
  unfolding plan_items security_summary
  route_summary r = object (
      (bytes "method", str r.method)
      ∷ (bytes "path", str r.path)
      ∷ (bytes "status_code", int_or_null r.status_code)
      ∷ (bytes "response_model", or_null r.response_model)
      ∷ (bytes "response_class", or_null r.response_class)
      ∷ (bytes "tags", text_list r.tags)
      ∷ (bytes "deprecated", bool r.deprecated)
      ∷ (bytes "include_in_schema", bool r.include_in_schema)
      ∷ (bytes "summary", text_or_null r.summary)
      ∷ (bytes "description", text_or_null r.description)
      ∷ (bytes "response_model_exclude_unset", bool r.response_model_exclude_unset)
      ∷ (bytes "response_model_exclude_none", bool r.response_model_exclude_none)
      ∷ (bytes "response_model_exclude_defaults", bool r.response_model_exclude_defaults)
      ∷ (bytes "response_model_by_alias", bool r.response_model_by_alias)
      ∷ (bytes "operation_id", text_or_null r.operation_id)
      ∷ (bytes "responses", or_null r.responses)
      ∷ (bytes "response_description", text_or_null r.response_description)
      ∷ (bytes "param_plan", list (items (plan_items r.param_plan)))
      ∷ (bytes "security", list (items (map (λ s. security_summary s) r.security)))
      ∷ [])

  summaries : List (Route h) → List (Value h)
  unfolding route_summary
  summaries [] = []
  summaries (r ∷ rs) =
      if str_eq r.method (bytes "WEBSOCKET") then summaries rs else route_summary r ∷ summaries rs

  -- `_routes_summary`
  unfoldable pub routes_summary : FastApi h → Value h
  unfolding summaries
  routes_summary app = list (items (summaries app.routes))
