-- ===== src/Params/Extract.antt =====
-- crates/fr-pyiface/src/app.rs: `extract_one_param`.

pub mod Values
pub mod Typed
use hyperfastapi.Prelude.{
  ℕ, Bool, true, false, ◌&&◌, ◌||◌, Option, none, some, List, [], ◌∷◌, if◌then◌else◌, unwrap_or,
}
use hyperfastapi.Prelude.Text.{
  Str, bytes, str_eq, starts_with, strip_prefix, strip_suffix, replace, to_ascii_lowercase,
}
use hyperfastapi.Value.{Host, Value, Items, str, list, nil, cons, items, get_item}
use hyperfastapi.Route.{ParamSpec, Validators}
use hyperfastapi.Route.Decorator.{as_text}
use hyperfastapi.Path.{Params}
use hyperfastapi.Params.Errors.{missing, Checked, ok, err, ◌>>=◌, ◌>>◌}
use hyperfastapi.Params.Cast.{Coercions, cast_scalar}
use hyperfastapi.Params.Validate.{run_validators}

pub data Extraction (h : Host) : Type 0 where
  value : Str → Value h → Extraction h
  use_default : Extraction h

-- What has been parsed from one request. Query and header values are lists of texts.
pub record Request (h : Host) : Type 0 where
  pub path_params : Params
  pub query : List (Str × List Str)
  pub headers : List (Str × List Str)
  pub cookies : List (Str × Str)
  pub form : List (Str × Value h)

-- Sources that other stages of the dispatch fill.
abbrev pub filled_elsewhere : Str → Bool
filled_elsewhere source =
    str_eq source (bytes "depends")
    || str_eq source (bytes "body")
    || str_eq source (bytes "security")
    || str_eq source (bytes "security_scopes")
    || str_eq source (bytes "background_tasks")
    || str_eq source (bytes "request")

abbrev pub is_form : Str → Bool
is_form source = str_eq source (bytes "form") || str_eq source (bytes "file")

abbrev pub is_list_type : Str → Bool
is_list_type type_kind = starts_with type_kind (bytes "list[")

abbrev pub is_form_scalar : Str → Bool
is_form_scalar k =
    str_eq k (bytes "any")
    || str_eq k (bytes "str")
    || str_eq k (bytes "int")
    || str_eq k (bytes "float")
    || str_eq k (bytes "bool")
    || str_eq k (bytes "uuid")
    || is_list_type k

-- The element type of `list[...]`, "str" where the bracket is not closed.
abbrev stripped : Option Str → Option Str
stripped none = none
stripped (some s) = strip_suffix b']' s

unfoldable pub inner_type : Str → Str
inner_type type_kind = unwrap_or (stripped (strip_prefix (bytes "list[") type_kind)) (bytes "str")

unfoldable pub find_param : Str → Params → Option Str
find_param name [] = none
find_param name ((n, v) ∷ ps) = if str_eq n name then some v else find_param name ps

abbrev pub singleton : Option Str → Option (List Str)
singleton none = none
singleton (some s) = some (s ∷ [])

abbrev cons_text : Option Str → List Str → List Str
cons_text none ts = ts
cons_text (some t) ts = t ∷ ts

module _ {h : Host} where
  abbrev pub as_list : Option (Value h) → Option (Items h)
  as_list (some (list l)) = some l
  as_list _ = none

  abbrev pub first_item : Option (Items h) → Option (Value h)
  first_item (some (cons v l)) = some v
  first_item _ = none

  -- `filter_map(|item| item.extract::<String>().ok())`
  abbrev texts : Items h → List Str
  texts nil = []
  texts (cons v l) = cons_text (as_text v) (texts l)

  abbrev pub form_texts : Option (Items h) → Option (List Str)
  form_texts none = none
  form_texts (some l) = some (texts l)

  -- The raw texts of a parameter, by its source.
  unfoldable pub raw_texts : Request h → Str → Str → Str → Option (List Str)
  unfolding find_param
  raw_texts req source name key =
      if str_eq source (bytes "path")
      then singleton (find_param name req.path_params)
      else if str_eq source (bytes "query")
      then get_item key req.query
      else if str_eq source (bytes "header")
      then get_item (to_ascii_lowercase key) req.headers
      else if str_eq source (bytes "cookie")
      then singleton (get_item key req.cookies)
      else none

  -- A parameter with no value: an error if it is required.
  abbrev pub absent : Bool → Str → Str → Checked (Extraction h)
  absent required source key = if required then err (missing source key) else ok use_default

  unfoldable pub lookup_key : ParamSpec h → Str → Str → Str
  lookup_key s source name = unwrap_or s.alias (
      if str_eq source (bytes "header") && unwrap_or s.convert_underscores true
      then replace b'_' b'-' name
      else name)

module _ {h : Host} (py : Coercions h) where
  open py use {to_bytes, read_file, py_bytes}

  abbrev cons_value : Value h → Items h → Checked (Items h)
  cons_value v l = ok (cons v l)

  -- Each text cast, stopping at the first error.
  unfoldable pub cast_all : List Str → Str → Str → Str → Checked (Items h)
  cast_all [] type_kind source name = ok nil
  cast_all (t ∷ ts) type_kind source name = cast_scalar py t type_kind source name >>= λ v.
      cast_all ts type_kind source name >>= λ l. ok (cons v l)

  abbrev pub validated : Option (Validators h) → Value h → Str → Str → Str → Checked (Unit {0})
  validated none v source name raw = ok tt
  validated (some d) v source name raw = run_validators py v d source name raw

  -- The list and single-value endings, shared by form fields (source "body") and the rest.
  unfoldable pub cast_param :
      ParamSpec h → Str → Str → Str → Str → List Str → Checked (Extraction h)
  unfolding cast_all inner_type
  cast_param s type_kind source name raw rest =
      if is_list_type type_kind
      then (cast_all (raw ∷ rest) (inner_type type_kind) source name >>= λ l.
          ok (value name (list l)))
      else (cast_scalar py raw type_kind source name >>= λ v.
          validated s.validators v source name raw >> ok (value name v))

  -- The `Some(v) if !v.is_empty()` test, and what follows it.
  abbrev pub from_texts :
      ParamSpec h → Str → Str → Str → Bool → Str → Option (List Str) → Checked (Extraction h)
  from_texts s type_kind source name required key (some (raw ∷ rest)) =
      cast_param s type_kind source name raw rest
  from_texts s type_kind source name required key _ = absent required source key

  abbrev or_read : Value h → Option Str → Option Str → Option Str
  or_read item (some b) _ = some b
  or_read item none (some t) = some t
  or_read item none none = read_file item

  -- The contents of an uploaded file, or of a value that is bytes or text.
  abbrev pub file_bytes : Option (Value h) → Option Str
  file_bytes none = none
  file_bytes (some item) = or_read item (to_bytes item) (as_text item)

  abbrev pub given : Str → Bool → Str → Option (Value h) → Checked (Extraction h)
  given name required key (some v) = ok (value name v)
  given name required key none = absent required (bytes "body") key

  abbrev pub map_value {ℓ} : {A : Type ℓ} → (A → Value h) → Option A → Option (Value h)
  map_value f none = none
  map_value f (some a) = some (f a)

  -- The form and file branch.
  unfoldable pub extract_form : Request h → ParamSpec h → Str → Str → Bool → Checked (Extraction h)
  unfolding cast_param
  extract_form req s name type_kind required =
      let key = unwrap_or s.alias name in
      let raw_list = as_list (get_item key req.form) in
      if str_eq type_kind (bytes "uploadfile")
      then given name required key (first_item raw_list)
      else if str_eq type_kind (bytes "list[uploadfile]")
      then given name required key (map_value (λ (l : Items h). list l) raw_list)
      else if str_eq type_kind (bytes "bytes")
      then given name required key (map_value py_bytes (file_bytes (first_item raw_list)))
      else if is_form_scalar type_kind
      then from_texts s type_kind (bytes "body") name required key (form_texts raw_list)
      else absent required (bytes "body") key

  unfoldable pub extract_named : Request h → ParamSpec h → Str → Checked (Extraction h)
  unfolding extract_form lookup_key raw_texts
  extract_named req s name =
      let source = unwrap_or s.source (bytes "query") in
      let type_kind = unwrap_or s.type_kind (bytes "str") in
      let required = unwrap_or s.required true in
      let key = lookup_key s source name in
      if filled_elsewhere source
      then ok use_default
      else if is_form source
      then extract_form req s name type_kind required
      else from_texts s type_kind source name required key (raw_texts req source name key)

  abbrev pub by_name : Request h → ParamSpec h → Option (Option Str) → Checked (Extraction h)
  by_name req s none = ok use_default
  by_name req s (some n) = extract_named req s (unwrap_or n [])

  unfoldable pub extract_one_param : Request h → ParamSpec h → Checked (Extraction h)
  unfolding extract_named
  extract_one_param req s = by_name req s s.name
