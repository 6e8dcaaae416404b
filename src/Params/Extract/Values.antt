-- ===== src/Params/Extract/Values.antt =====
-- Which values a request has for a parameter: an independent account of `extract_one_param`.
use hyperfastapi.Prelude.{
  ◌≡◌, refl, sym, subst, ap, ◌∙◌, true, false, Option, none, some, List, [], ◌∷◌, if-cases,
  unwrap_or, if◌then◌else◌, ◌⊎◌, inl, inr, Bool-cases, some_eq,
}
use hyperfastapi.Prelude.Text.{Str, bytes, str_eq, str_eq_iff, replace, to_ascii_lowercase}
use hyperfastapi.Params.Validate.Laws.{Meets}
use hyperfastapi.Value.{Host, Value, Items, list, get_item}
use hyperfastapi.Route.{ParamSpec, Validators}
use hyperfastapi.Params.Errors.{ok}
use hyperfastapi.Params.Cast.{Coercions, cast_scalar}
use hyperfastapi.Params.Typed.{HasKind, AllHaveKind}
use hyperfastapi.Params.Extract.{
  Request, is_form, is_list_type, inner_type, cast_all, file_bytes, first_item, as_list, form_texts,
  raw_texts, lookup_key, find_param, singleton,
}

module _ {h : Host} (py : Coercions h) (req : Request h) where
  -- What the form of the request has for a parameter.
  abbrev pub submitted : ParamSpec h → Str → Option (Items h)
  submitted s name = as_list (get_item (unwrap_or s.alias name) req.form)

  abbrev pub source_of : ParamSpec h → Str
  source_of s = unwrap_or s.source (bytes "query")

  -- The parameter comes from the form.
  abbrev pub FromForm : ParamSpec h → Type 0
  FromForm s = (source_of s ≡ bytes "form") ⊎ (source_of s ≡ bytes "file")

  -- A header is looked up under the alias, or under the name with dashes for underscores.
  abbrev pub header_key : ParamSpec h → Str → Str
  header_key s name =
      unwrap_or s.alias
        (if unwrap_or s.convert_underscores true then replace b'_' b'-' name else name)

  -- The texts that the request has for a parameter, each source in its own place.
  pub data Carries (s : ParamSpec h) (name : Str) : List Str → Type 0 where
    in_form :
        {ts : List Str} → FromForm s → form_texts (submitted s name) ≡ some ts → Carries s name ts
    in_path :
        {raw : Str}
        → source_of s ≡ bytes "path"
        → find_param name req.path_params ≡ some raw
        → Carries s name (raw ∷ [])
    in_query :
        {ts : List Str}
        → source_of s ≡ bytes "query"
        → get_item (unwrap_or s.alias name) req.query ≡ some ts
        → Carries s name ts
    in_headers :
        {ts : List Str}
        → source_of s ≡ bytes "header"
        → get_item (to_ascii_lowercase (header_key s name)) req.headers ≡ some ts
        → Carries s name ts
    in_cookies :
        {raw : Str}
        → source_of s ≡ bytes "cookie"
        → get_item (unwrap_or s.alias name) req.cookies ≡ some raw
        → Carries s name (raw ∷ [])

  -- The values of a declared type that the request has for a parameter and that meet its
  -- constraints. Lists have no constraints, and uploads are what the form parser has made.
  pub data IsTyped (s : ParamSpec h) (name kind : Str) : Value h → Type 0 where
    a_scalar :
        {v : Value h} (source : Str) {raw : Str} {rest : List Str}
        → is_list_type kind ≡ false
        → Carries s name (raw ∷ rest)
        → cast_scalar py raw kind source name ≡ ok v
        → HasKind py kind v
        → ((d : Validators h) → s.validators ≡ some d → Meets py v d)
        → IsTyped s name kind v
    a_list :
        {l : Items h} (source : Str) {ts : List Str}
        → is_list_type kind ≡ true
        → Carries s name ts
        → cast_all py ts (inner_type kind) source name ≡ ok l
        → AllHaveKind py (inner_type kind) l
        → IsTyped s name kind (list l)
    an_upload :
        {v : Value h}
        → FromForm s
        → kind ≡ bytes "uploadfile"
        → first_item (submitted s name) ≡ some v
        → IsTyped s name kind v
    uploads :
        {l : Items h}
        → FromForm s
        → kind ≡ bytes "list[uploadfile]"
        → submitted s name ≡ some l
        → IsTyped s name kind (list l)
    contents :
        {b : Str}
        → FromForm s
        → kind ≡ bytes "bytes"
        → file_bytes py (first_item (submitted s name)) ≡ some b
        → IsTyped s name kind (py.py_bytes b)

  pub form_source : (s : ParamSpec h) → is_form (source_of s) ≡ true → FromForm s
  form_source s e = elim (Bool-cases (str_eq (source_of s) (bytes "form"))) [
    | inl form ↦ inl ((str_eq_iff (source_of s) (bytes "form")).0 form)
    | inr no_form ↦ inr ((str_eq_iff (source_of s) (bytes "file")).0 (rw no_form at e))
  ]

  plain_key :
      (s : ParamSpec h) (source name : Str)
      → str_eq source (bytes "header") ≡ false
      → lookup_key s source name ≡ unwrap_or s.alias name
  unfolding lookup_key
  plain_key s source name e = rw e refl

  one_text :
      (s : ParamSpec h) (name : Str) (o : Option Str) (ts : List Str)
      → ((raw : Str) → o ≡ some raw → Carries s name (raw ∷ []))
      → singleton o ≡ some ts
      → Carries s name ts
  one_text s name none ts f e = absurd cc
  one_text s name (some raw) ts f e = subst (Carries s name) (some_eq e) (f raw refl)

  header_lookup_key :
      (s : ParamSpec h) (source name : Str)
      → str_eq source (bytes "header") ≡ true
      → lookup_key s source name ≡ header_key s name
  unfolding lookup_key
  header_lookup_key s source name e = rw e refl

  query-header : (source : Str) → source ≡ bytes "query" → str_eq source (bytes "header") ≡ false
  unfolding bytes str_eq
  query-header source e = rw e refl

  cookie-header : (source : Str) → source ≡ bytes "cookie" → str_eq source (bytes "header") ≡ false
  unfolding bytes str_eq
  cookie-header source e = rw e refl

  abbrev CarriesIf : ParamSpec h → Str → List Str → Option (List Str) → Type 0
  CarriesIf s name ts o = o ≡ some ts → Carries s name ts

  pub raw_texts-Carries :
      (s : ParamSpec h) (name : Str) (ts : List Str)
      → CarriesIf s name ts (raw_texts req (source_of s) name (lookup_key s (source_of s) name))
  unfolding raw_texts
  raw_texts-Carries s name ts =
      let source = source_of s in
      let P : Option (List Str) → Type 0 = CarriesIf s name ts in
      if-cases P (str_eq source (bytes "path")) _ _
        (λ path.
          one_text s name (find_param name req.path_params) ts
            (λ raw. in_path ((str_eq_iff source (bytes "path")).0 path)))
        (λ _.
          if-cases P (str_eq source (bytes "query")) _ _
            (λ query e.
              let is_query = (str_eq_iff source (bytes "query")).0 query in
              in_query is_query (
                ap (λ k. get_item k req.query)
                  (sym (plain_key s source name (query-header source is_query)))
                ∙ e))
            (λ _.
              if-cases P (str_eq source (bytes "header")) _ _
                (λ header e. in_headers ((str_eq_iff source (bytes "header")).0 header) (
                  ap (λ k. get_item (to_ascii_lowercase k) req.headers)
                    (sym (header_lookup_key s source name header))
                  ∙ e))
                (λ _.
                  if-cases P (str_eq source (bytes "cookie")) _ _
                    (λ cookie.
                      let is_cookie = (str_eq_iff source (bytes "cookie")).0 cookie in
                      one_text s name (get_item (lookup_key s source name) req.cookies) ts (λ raw e.
                        in_cookies is_cookie (
                          ap (λ k. get_item k req.cookies)
                            (sym (plain_key s source name (cookie-header source is_cookie)))
                          ∙ e)))
                    (λ _ e. absurd cc))))
