-- ===== src/Route/Options.antt =====
-- crates/fr-pyiface/src/app.rs: the keyword arguments that the method decorators share, and the
-- `DecoratorOpts` literal that each of them builds.
use hyperfastapi.Prelude.{Bool, Option, List, [], unwrap_or}
use hyperfastapi.Prelude.Int.{ℤ}
use hyperfastapi.Prelude.Text.{Str}
use hyperfastapi.Value.{Host, Value, Kwargs}
use hyperfastapi.Route.{DecoratorOpts}
use hyperfastapi.Route.Decorator.{opex_oid, opex_resp, opex_rdesc}

-- The arguments as the signatures' defaults leave them; `extra` is `**_kwargs`.
pub record MethodKwargs (h : Host) : Type 0 where
  pub status_code : Option ℤ
  pub tags : Option (List Str)
  pub deprecated : Bool
  pub include_in_schema : Bool
  pub summary : Option Str
  pub description : Option Str
  pub response_model : Option (Value h)
  pub response_class : Option (Value h)
  pub response_model_exclude_unset : Bool
  pub response_model_exclude_none : Bool
  pub response_model_exclude_defaults : Bool
  pub response_model_by_alias : Bool
  pub response_model_include : Option (Value h)
  pub response_model_exclude : Option (Value h)
  pub dependencies : Option (List (Value h))
  pub extra : Option (Kwargs h)

unfoldable pub options_of : {h : Host} → Str → Str → MethodKwargs h → DecoratorOpts h
unfolding opex_oid opex_resp opex_rdesc
options_of method path kw = record {
  method = method;
  path = path;
  status_code = kw.status_code;
  response_model = kw.response_model;
  tags = kw.tags;
  deprecated = kw.deprecated;
  include_in_schema = kw.include_in_schema;
  summary = kw.summary;
  description = kw.description;
  response_class = kw.response_class;
  response_model_exclude_unset = kw.response_model_exclude_unset;
  response_model_exclude_none = kw.response_model_exclude_none;
  response_model_exclude_defaults = kw.response_model_exclude_defaults;
  response_model_by_alias = kw.response_model_by_alias;
  response_model_include = kw.response_model_include;
  response_model_exclude = kw.response_model_exclude;
  dependencies = unwrap_or kw.dependencies [];
  operation_id = opex_oid kw.extra;
  responses = opex_resp kw.extra;
  response_description = opex_rdesc kw.extra;
}
