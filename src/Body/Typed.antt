-- ===== src/Body/Typed.antt =====
-- The values that the entries of a body may have.
pub mod Stores
use hyperfastapi.Prelude.{
  ◌≡◌, refl, true, false, Option, none, some, List, [], ◌∷◌, All, if-cases, unwrap_or, not,
  is_empty,
}
use hyperfastapi.Prelude.Text.{Str, bytes, str_eq}
use hyperfastapi.Value.{
  Host, Value, Entries, null, bool, int, float, str, surrogates, dict, list, tuple, other,
}
use hyperfastapi.Value.Dicts.{All-set_item}
use hyperfastapi.Route.{ParamSpec, Plan}
use hyperfastapi.Body.{
  Attempt, returned, failed, raised, Validation, BodyState, name_of, kind_of, is_required,
  body_entries, settle, settle_raw, with_model, require_body, all_missing, dict_get, single_body,
  embedded, one_entry, then_rest, each_entry, from_envelope, multi_body, layout,
  extract_body_params,
}

-- The result, if there is one, satisfies the predicate.
abbrev pub OnSome {ℓ κ} : {A : Type ℓ} → (A → Type κ) → Option A → Type κ
OnSome P none = Unit
OnSome P (some a) = P a

module _ {h : Host} (py : Validation h) (body : Str) where
  -- The value of an entry's key in the body's JSON object.
  pub data InEnvelope (e : ParamSpec h) (sub : Value h) : Type 0 where
    in_envelope :
        {d : Entries h}
        → py.loads body ≡ returned (dict d)
        → dict_get (name_of e) d ≡ some sub
        → InEnvelope e sub

  -- What pydantic has made of the body, or of the entry's value in it, for the entry's model; or that
  -- JSON itself for an entry of another kind.
  pub data IsValidated (e : ParamSpec h) (v : Value h) : Type 0 where
    from_json :
        (m : Value h)
        → str_eq (kind_of e) (bytes "model") ≡ true
        → e.model ≡ some m
        → py.model_validate_json m body ≡ returned v
        → IsValidated e v
    from_python :
        (m : Value h) {sub : Value h}
        → str_eq (kind_of e) (bytes "model") ≡ true
        → e.model ≡ some m
        → InEnvelope e sub
        → py.model_validate_python m sub ≡ returned v
        → IsValidated e v
    list_from_json :
        (m : Value h)
        → str_eq (kind_of e) (bytes "list[model]") ≡ true
        → e.model ≡ some m
        → py.list_validate_json m body ≡ returned v
        → IsValidated e v
    list_from_python :
        (m : Value h) {sub : Value h}
        → str_eq (kind_of e) (bytes "list[model]") ≡ true
        → e.model ≡ some m
        → InEnvelope e sub
        → py.list_validate_python m sub ≡ returned v
        → IsValidated e v
    raw :
        str_eq (kind_of e) (bytes "model") ≡ false
        → str_eq (kind_of e) (bytes "list[model]") ≡ false
        → py.loads body ≡ returned v
        → IsValidated e v
    raw_in_envelope :
        str_eq (kind_of e) (bytes "model") ≡ false
        → str_eq (kind_of e) (bytes "list[model]") ≡ false
        → InEnvelope e v
        → IsValidated e v
