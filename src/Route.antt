-- ===== src/Route.antt =====
-- crates/fr-pyiface/src/app.rs: the compiled parameter plan, `SecurityEntry`, `Route` and
-- `DecoratorOpts`. A plan entry is a Python dict; of each key the model keeps what the Rust code
-- reads from it: `none` where the key is missing or its value does not extract.
pub mod Decorator
pub mod Options
use hyperfastapi.Prelude.{ℕ, Bool, Option, List}
use hyperfastapi.Prelude.Int.{ℤ}
use hyperfastapi.Prelude.Text.{Str}
use hyperfastapi.Value.{Host, Value}

pub record Validators (h : Host) : Type 0 where
  pub gt : Option h.F64
  pub ge : Option h.F64
  pub lt : Option h.F64
  pub le : Option h.F64
  pub min_length : Option ℕ
  pub max_length : Option ℕ
  pub pattern : Option Str

pub record ParamSpec (h : Host) : Type 0 where
  -- `none`: no such key; `some none`: its value is no text
  pub name : Option (Option Str)
  pub source : Option Str
  pub type_kind : Option Str
  pub alias : Option Str
  pub required : Option Bool
  pub convert_underscores : Option Bool
  pub embed : Option Bool
  pub media_type : Option Str
  pub model : Option (Value h)
  pub validators : Option (Validators h)

mutual
  -- An entry of a plan: a dict with its `dep_plan`, or another object, which every reader skips.
  pub data PlanEntry (h : Host) : Type 0 where
    not_dict : Value h → PlanEntry h
    spec : ParamSpec h → Plan h → PlanEntry h

  pub data Plan (h : Host) : Type 0 where
    nil : Plan h
    cons : PlanEntry h → Plan h → Plan h

pub record SecurityEntry (h : Host) : Type 0 where
  pub scheme_name : Str
  pub scopes : List Str
  pub model : Value h

pub record Route (h : Host) : Type 0 where
  pub method : Str
  pub path : Str
  pub handler : Value h
  pub status_code : Option ℤ
  pub response_model : Option (Value h)
  pub tags : List Str
  pub deprecated : Bool
  pub include_in_schema : Bool
  pub summary : Option Str
  pub description : Option Str
  pub param_plan : Plan h
  pub response_class : Option (Value h)
  pub response_model_exclude_unset : Bool
  pub response_model_exclude_none : Bool
  pub response_model_exclude_defaults : Bool
  pub response_model_by_alias : Bool
  pub response_model_include : Option (Value h)
  pub response_model_exclude : Option (Value h)
  pub dependencies : List (Value h)
  pub operation_id : Option Str
  pub responses : Option (Value h)
  pub response_description : Option Str
  pub security : List (SecurityEntry h)
  pub is_async : Bool

pub record DecoratorOpts (h : Host) : Type 0 where
  pub method : Str
  pub path : Str
  pub status_code : Option ℤ
  pub response_model : Option (Value h)
  pub tags : Option (List Str)
  pub deprecated : Bool
  pub include_in_schema : Bool
  pub summary : Option Str
  pub description : Option Str
  pub response_class : Option (Value h)
  pub response_model_exclude_unset : Bool
  pub response_model_exclude_none : Bool
  pub response_model_exclude_defaults : Bool
  pub response_model_by_alias : Bool
  pub response_model_include : Option (Value h)
  pub response_model_exclude : Option (Value h)
  pub dependencies : List (Value h)
  pub operation_id : Option Str
  pub responses : Option (Value h)
  pub response_description : Option Str
