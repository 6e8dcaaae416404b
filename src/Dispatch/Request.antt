-- ===== src/Dispatch/Request.antt =====
-- crates/fr-pyiface/src/app.rs, `_dispatch`: the header and cookie lookups, the test for form
-- parameters, and the check of a JSON body's content type.
pub mod Laws
use hyperfastapi.Prelude.{
  Bool, true, false, ◌&&◌, ◌||◌, not, Option, none, some, List, [], ◌∷◌, ◌++◌, if◌then◌else◌,
  unwrap_or, is_empty,
}
use hyperfastapi.Prelude.Text.{
  Str, bytes, str_eq, split, split_once, starts_with, ends_with, to_ascii_lowercase,
}
use hyperfastapi.Prelude.Text.Trim.{trim}
use hyperfastapi.Value.{Host, Value, set_item, get_item}
use hyperfastapi.Route.{ParamSpec, Plan, PlanEntry, nil, cons, not_dict, spec}
use hyperfastapi.Body.{json_invalid_dict}

abbrev pub Headers : Type 0
Headers = List (Str × Str)

abbrev pub HeaderLookup : Type 0
HeaderLookup = List (Str × List Str)

abbrev add_value : Str → Str → Option (List Str) → HeaderLookup → HeaderLookup
add_value key v (some existing) m = set_item key (existing ++ v ∷ []) m
add_value key v none m = set_item key (v ∷ []) m

-- One turn of the loop over the headers.
unfoldable pub add_header : Str → Str → HeaderLookup → HeaderLookup
add_header k v m = add_value (to_ascii_lowercase k) v (get_item (to_ascii_lowercase k) m) m

unfoldable pub add_headers : Headers → HeaderLookup → HeaderLookup
unfolding add_header
add_headers [] m = m
add_headers ((k, v) ∷ hs) m = add_headers hs (add_header k v m)

unfoldable pub header_lookup : Option Headers → HeaderLookup
unfolding add_headers
header_lookup headers = add_headers (unwrap_or headers []) []

abbrev pub add_pair : Option (Str × Str) → List (Str × Str) → List (Str × Str)
add_pair none m = m
add_pair (some (k, v)) m = set_item (trim k) (trim v) m

-- The chunks of one Cookie header.
unfoldable pub add_chunks : List Str → List (Str × Str) → List (Str × Str)
add_chunks [] m = m
add_chunks (chunk ∷ chunks) m = add_chunks chunks (add_pair (split_once b'=' (trim chunk)) m)

unfoldable pub add_cookies : List Str → List (Str × Str) → List (Str × Str)
unfolding add_chunks
add_cookies [] m = m
add_cookies (s ∷ values) m = add_cookies values (add_chunks (split b';' s) m)

unfoldable pub cookie_dict : HeaderLookup → List (Str × Str)
unfolding add_cookies
cookie_dict m = add_cookies (unwrap_or (get_item (bytes "cookie") m) []) []

abbrev first_value : List Str → Str
first_value [] = []
first_value (v ∷ _) = v

unfoldable pub content_type : HeaderLookup → Str
content_type m = first_value (unwrap_or (get_item (bytes "content-type") m) [])

-- `ct.split(';').next()`, trimmed and in lower case, is a JSON type.
unfoldable pub is_json_content_type : Str → Bool
is_json_content_type ct =
    let ct_main = to_ascii_lowercase (trim (first_value (split b';' ct))) in
    str_eq ct_main (bytes "application/json")
    || (starts_with ct_main (bytes "application/") && ends_with ct_main (bytes "+json"))

module _ {h : Host} where
  abbrev source_of : ParamSpec h → Str
  source_of s = unwrap_or s.source []

  unfoldable mutual
    -- `plan_has_form` on one entry, and on the entries of a plan.
    pub plan_has_form : PlanEntry h → Bool
    plan_has_form (not_dict v) = false
    plan_has_form (spec s dep_plan) =
        str_eq (source_of s) (bytes "form")
        || str_eq (source_of s) (bytes "file")
        || (str_eq (source_of s) (bytes "depends") || str_eq (source_of s) (bytes "security"))
          && any_has_form dep_plan

    pub any_has_form : Plan h → Bool
    any_has_form nil = false
    any_has_form (cons e plan) = plan_has_form e || any_has_form plan

  abbrev json_entry : PlanEntry h → Bool
  json_entry (not_dict v) = false
  json_entry (spec s dep_plan) =
      let mt = unwrap_or s.media_type (bytes "application/json") in
      str_eq (source_of s) (bytes "body")
      && (str_eq mt (bytes "application/json") || ends_with mt (bytes "+json"))

  unfoldable pub has_json_body : Plan h → Bool
  has_json_body nil = false
  has_json_body (cons e plan) = json_entry e || has_json_body plan

  -- The error dicts that the content type adds.
  unfoldable pub content_type_errors : Plan h → Str → HeaderLookup → List (Value h)
  unfolding has_json_body content_type is_json_content_type
  content_type_errors plan body_bytes m =
      if has_json_body plan
        && not (is_empty body_bytes)
        && not (is_empty (content_type m))
        && not (is_json_content_type (content_type m))
      then json_invalid_dict (bytes "body" ∷ []) ∷ []
      else []
