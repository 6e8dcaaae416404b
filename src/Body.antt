-- ===== src/Body.antt =====
-- crates/fr-pyiface/src/app.rs: `extract_body_params`, with `pydantic_errors_to_dicts`,
-- `missing_body_dict` and `json_invalid_dict`. Pydantic and `json.loads` are parameters.

pub mod Laws
pub mod Typed
use hyperfastapi.Prelude.{
  ℕ, Bool, true, false, ◌&&◌, ◌||◌, not, Option, none, some, List, [], ◌∷◌, ◌++◌, map, any,
  if◌then◌else◌, unwrap_or, is_empty,
}
use hyperfastapi.Prelude.Text.{Str, bytes, str_eq}
use hyperfastapi.Value.{
  Host, Value, Entries, Kwargs, null, str, list, dict, end, entry, items, entries, set_item,
}
use hyperfastapi.Route.{ParamSpec, Plan, PlanEntry, nil, cons, not_dict, spec}

-- One item of a pydantic error's `errors()`: the keys that the code copies, where they are there.
pub record ErrorItem (h : Host) : Type 0 where
  pub err_type : Option (Value h)
  pub loc : List (Value h)
  pub msg : Option (Value h)
  pub input : Option (Value h)

-- A validation: its value; an exception, with its `errors()` if it has any; or an exception before
-- the validation, which the caller passes on.
pub data Attempt (h : Host) : Type 0 where
  returned : Value h → Attempt h
  failed : Option (List (ErrorItem h)) → Attempt h
  raised : Attempt h

pub record Validation (h : Host) : Type 0 where
  pub model_validate_json : Value h → Str → Attempt h
  pub model_validate_python : Value h → Value h → Attempt h
  pub list_validate_json : Value h → Str → Attempt h
  pub list_validate_python : Value h → Value h → Attempt h
  pub loads : Str → Attempt h

-- The keyword arguments and the error dicts so far; `none` is an exception.
pub record BodyState (h : Host) : Type 0 where
  pub kwargs : Kwargs h
  pub error_dicts : List (Value h)

module _ {h : Host} where
  abbrev texts : List Str → List (Value h)
  texts loc = map (λ s. str s) loc

  unfoldable pub missing_body_dict : List Str → Value h
  unfolding items entries
  missing_body_dict loc = dict (
      entries (
        (bytes "type", str (bytes "missing"))
        ∷ (bytes "loc", list (items (texts loc)))
        ∷ (bytes "msg", str (bytes "Field required"))
        ∷ (bytes "input", null)
        ∷ []))

  unfoldable pub json_invalid_dict : List Str → Value h
  unfolding items entries
  json_invalid_dict loc = dict (
      entries (
        (bytes "type", str (bytes "json_invalid"))
        ∷ (bytes "loc", list (items (texts loc)))
        ∷ (bytes "msg", str (bytes "JSON decode error"))
        ∷ (bytes "input", null)
        ∷ []))

  abbrev optional_entry : Str → Option (Value h) → List (Str × Value h) → List (Str × Value h)
  optional_entry k none rest = rest
  optional_entry k (some v) rest = (k, v) ∷ rest

  abbrev error_dict : List Str → ErrorItem h → Value h
  error_dict base_loc e = dict (
      entries (
        optional_entry (bytes "type") e.err_type (
          (bytes "loc", list (items (texts base_loc ++ e.loc)))
          ∷ optional_entry (bytes "msg") e.msg (optional_entry (bytes "input") e.input []))))

  unfoldable pub pydantic_errors_to_dicts : Option (List (ErrorItem h)) → List Str → List (Value h)
  unfolding items entries
  pydantic_errors_to_dicts none base_loc = []
  pydantic_errors_to_dicts (some errors) base_loc = map (error_dict base_loc) errors

  abbrev pub name_of : ParamSpec h → Str
  name_of e = unwrap_or (unwrap_or e.name none) []

  abbrev pub kind_of : ParamSpec h → Str
  kind_of e = unwrap_or e.type_kind (bytes "model")

  abbrev pub is_required : ParamSpec h → Bool
  is_required e = unwrap_or e.required true

  abbrev body_entry : ParamSpec h → List (ParamSpec h) → List (ParamSpec h)
  body_entry e rest = if str_eq (unwrap_or e.source []) (bytes "body") then e ∷ rest else rest

  unfoldable pub body_entries : Plan h → List (ParamSpec h)
  body_entries nil = []
  body_entries (cons (not_dict v) plan) = body_entries plan
  body_entries (cons (spec e dep_plan) plan) = body_entry e (body_entries plan)

  abbrev pub push : BodyState h → List (Value h) → BodyState h
  push s dicts = record s { error_dicts = s.error_dicts ++ dicts }

  abbrev pub store : BodyState h → Str → Value h → BodyState h
  store s name v = record s { kwargs = set_item name v s.kwargs }

  -- What becomes of one validation.
  unfoldable pub settle : BodyState h → Str → List Str → Attempt h → Option (BodyState h)
  settle s name base_loc (returned v) = some (store s name v)
  settle s name base_loc (failed errors) = some (push s (pydantic_errors_to_dicts errors base_loc))
  settle s name base_loc raised = none

  -- The error arm of `json.loads` for a raw body.
  unfoldable pub settle_raw : BodyState h → Str → Attempt h → Option (BodyState h)
  settle_raw s name (returned v) = some (store s name v)
  settle_raw s name (failed errors) =
      let dicts = pydantic_errors_to_dicts errors (bytes "body" ∷ []) in
      some (push s (if is_empty dicts then json_invalid_dict (bytes "body" ∷ []) ∷ [] else dicts))
  settle_raw s name raised = none

  abbrev pub with_model :
      BodyState h → Option (Value h) → (Value h → Option (BodyState h)) → Option (BodyState h)
  with_model s none k = some s
  with_model s (some m) k = k m

  unfoldable pub require_body : BodyState h → ParamSpec h → List Str → BodyState h
  require_body s e loc = if is_required e then push s (missing_body_dict loc ∷ []) else s

  -- Every required entry is reported as missing.
  unfoldable pub all_missing : BodyState h → List (ParamSpec h) → BodyState h
  unfolding require_body
  all_missing s [] = s
  all_missing s (e ∷ es) = all_missing (require_body s e (bytes "body" ∷ name_of e ∷ [])) es

  -- `envelope_dict.get_item(&name)`
  abbrev key_is : Str → Value h → Bool
  key_is name (str k) = str_eq k name
  key_is name _ = false

  unfoldable pub dict_get : Str → Entries h → Option (Value h)
  dict_get name end = none
  dict_get name (entry k v d) = if key_is name k then some v else dict_get name d

module _ {h : Host} (py : Validation h) where
  open py use {
    model_validate_json, model_validate_python, list_validate_json, list_validate_python, loads,
  }

  -- The branch for one body parameter that is not embedded.
  unfoldable pub single_body : ParamSpec h → Str → BodyState h → Option (BodyState h)
  unfolding settle settle_raw require_body
  single_body e body_bytes s =
      let name = name_of e in
      if is_empty body_bytes
      then some (require_body s e (name ∷ []))
      else if str_eq (kind_of e) (bytes "model")
      then with_model s e.model
          (λ m. settle s name (bytes "body" ∷ []) (model_validate_json m body_bytes))
      else if str_eq (kind_of e) (bytes "list[model]")
      then with_model s e.model
          (λ m. settle s name (bytes "body" ∷ []) (list_validate_json m body_bytes))
      else settle_raw s name (loads body_bytes)

  -- One entry whose key the envelope has.
  unfoldable pub embedded : ParamSpec h → Value h → BodyState h → Option (BodyState h)
  unfolding settle
  embedded e sub s =
      let name = name_of e in
      let loc = bytes "body" ∷ name ∷ [] in
      if str_eq (kind_of e) (bytes "model")
      then with_model s e.model (λ m. settle s name loc (model_validate_python m sub))
      else if str_eq (kind_of e) (bytes "list[model]")
      then with_model s e.model (λ m. settle s name loc (list_validate_python m sub))
      else some (store s name sub)

  abbrev pub one_entry : ParamSpec h → Option (Value h) → BodyState h → Option (BodyState h)
  one_entry e none s = some (require_body s e (bytes "body" ∷ name_of e ∷ []))
  one_entry e (some sub) s = embedded e sub s

  abbrev pub then_rest :
      Option (BodyState h) → (BodyState h → Option (BodyState h)) → Option (BodyState h)
  then_rest none k = none
  then_rest (some s) k = k s

  unfoldable pub each_entry : List (ParamSpec h) → Entries h → BodyState h → Option (BodyState h)
  unfolding embedded require_body dict_get
  each_entry [] envelope s = some s
  each_entry (e ∷ es) envelope s =
      then_rest (one_entry e (dict_get (name_of e) envelope) s) (λ t. each_entry es envelope t)

  abbrev pub from_envelope : List (ParamSpec h) → BodyState h → Attempt h → Option (BodyState h)
  from_envelope es s (returned (dict d)) = each_entry es d s
  from_envelope es s (returned v) = some (all_missing s es)
  from_envelope es s _ = some (push s (json_invalid_dict (bytes "body" ∷ []) ∷ []))

  unfoldable pub multi_body : List (ParamSpec h) → Str → BodyState h → Option (BodyState h)
  unfolding each_entry all_missing
  multi_body es body_bytes s =
      if is_empty body_bytes then some (all_missing s es) else from_envelope es s (loads body_bytes)

  abbrev pub layout : List (ParamSpec h) → Str → BodyState h → Option (BodyState h)
  layout [] body_bytes s = some s
  layout (e ∷ []) body_bytes s =
      if not (unwrap_or e.embed false)
      then single_body e body_bytes s
      else multi_body (e ∷ []) body_bytes s
  layout (e ∷ e' ∷ es) body_bytes s = multi_body (e ∷ e' ∷ es) body_bytes s

  unfoldable pub extract_body_params : Plan h → Str → BodyState h → Option (BodyState h)
  unfolding body_entries single_body multi_body
  extract_body_params plan body_bytes s = layout (body_entries plan) body_bytes s
