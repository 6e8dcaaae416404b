-- ===== src/Params/Errors.antt =====
-- crates/fr-pyiface/src/app.rs: `ValidationErrorEntry` and the 422 response.
use hyperfastapi.Prelude.{List, [], ◌∷◌, ◌++◌, map, if◌then◌else◌}
use hyperfastapi.Prelude.Text.{Str, bytes, str_eq}
use hyperfastapi.Value.{Host, Value, null, str, list, dict, items, entries}

pub record ValidationErrorEntry : Type 0 where
  pub err_type : Str
  pub loc : Str × Str
  pub msg : Str
  pub input : Str

unfoldable pub generic : Str → Str → Str → Str → Str → ValidationErrorEntry
generic loc_kind name input err_type msg = record {
  err_type = err_type;
  loc = (loc_kind, name);
  msg = msg;
  input = input;
}

-- The `source_static` tables: `missing` knows "body", `cast_scalar` also "form" and "file", and
-- `run_validators` none of the three.
unfoldable pub missing_source : Str → Str
missing_source source =
    if str_eq source (bytes "path")
    then bytes "path"
    else if str_eq source (bytes "query")
    then bytes "query"
    else if str_eq source (bytes "header")
    then bytes "header"
    else if str_eq source (bytes "cookie")
    then bytes "cookie"
    else if str_eq source (bytes "body")
    then bytes "body"
    else bytes "query"

unfoldable pub cast_source : Str → Str
unfolding missing_source
cast_source source =
    if str_eq source (bytes "form")
    then bytes "body"
    else if str_eq source (bytes "file")
    then bytes "body"
    else missing_source source

unfoldable pub validator_source : Str → Str
validator_source source =
    if str_eq source (bytes "path")
    then bytes "path"
    else if str_eq source (bytes "query")
    then bytes "query"
    else if str_eq source (bytes "header")
    then bytes "header"
    else if str_eq source (bytes "cookie")
    then bytes "cookie"
    else bytes "query"

-- `ValidationErrorEntry::missing`
unfoldable pub missing : Str → Str → ValidationErrorEntry
unfolding missing_source
missing source name = record {
  err_type = bytes "missing";
  loc = (missing_source source, name);
  msg = bytes "Field required";
  input = [];
}

module _ {h : Host} where
  unfoldable pub to_py_dict : ValidationErrorEntry → Value h
  unfolding entries items
  to_py_dict e = dict (
      entries (
        (bytes "type", str e.err_type)
        ∷ (bytes "loc", list (items (str e.loc.0 ∷ str e.loc.1 ∷ [])))
        ∷ (bytes "msg", str e.msg)
        ∷ (bytes "input", if str_eq e.err_type (bytes "missing") then null else str e.input)
        ∷ []))

  -- The body of the 422 response, before it is serialised.
  unfoldable pub validation_detail : List ValidationErrorEntry → List (Value h) → Value h
  unfolding to_py_dict
  validation_detail errors pydantic_dicts = dict (
      entries
        ((bytes "detail", list (items (map (λ e. to_py_dict e) errors ++ pydantic_dicts))) ∷ []))

-- A step that may answer with a validation error.
pub data Checked {ℓ} (A : Type ℓ) : Type ℓ where
  ok : A → Checked A
  err : ValidationErrorEntry → Checked A

infixl 5 ◌>>=◌
infixr 5 ◌>>◌
abbrev pub ◌>>=◌ {ℓ κ} : {A : Type ℓ} {B : Type κ} → Checked A → (A → Checked B) → Checked B
ok checked >>= next = next checked
err error >>= next = err error

abbrev pub ◌>>◌ {ℓ} : {B : Type ℓ} → Checked (Unit {0}) → Checked B → Checked B
m >> k = m >>= λ _. k
