-- ===== src/Params/Extract/Typed.antt =====
-- The values that `extract_one_param` answers are the request's, of the types that their entries of
-- the plan declare.
use hyperfastapi.Prelude.{
  ◌≡◌, refl, sym, subst, Bool, true, false, Option, none, some, List, [], ◌∷◌, if-cases, unwrap_or,
}
use hyperfastapi.Prelude.Text.{Str, bytes, str_eq, str_eq_iff}
use hyperfastapi.Params.Validate.Laws.{Meets, run_validators_iff}
use hyperfastapi.Value.{Host, Value, Items, list}
use hyperfastapi.Route.{ParamSpec, Validators}
use hyperfastapi.Params.Errors.{Checked, ok, err, ◌>>=◌}
use hyperfastapi.Params.Cast.{Coercions, cast_scalar}
use hyperfastapi.Params.Typed.{
  OnOk, holds, fails, bind-OnOk, HasKind, AllHaveKind, cast_scalar-HasKind, cast_all-HasKind,
}
use hyperfastapi.Params.Extract.{
  Extraction, value, use_default, Request, filled_elsewhere, is_form, is_list_type, inner_type,
  is_form_scalar, absent, cast_all, validated, cast_param, from_texts, given, map_value, file_bytes,
  first_item, form_texts, raw_texts, lookup_key, extract_form, by_name, extract_named,
  extract_one_param,
}
use hyperfastapi.Params.Extract.Values.{
  FromForm, Carries, in_form, IsTyped, a_scalar, a_list, an_upload, uploads, contents, submitted,
  form_source, raw_texts-Carries,
}

module _ {h : Host} (py : Coercions h) (req : Request h) where
  -- A value comes under the parameter's name and is of its type; the default is only for a
  -- parameter that is not required.
  pub data Yields (required : Bool) (s : ParamSpec h) (name kind : Str)
      : Extraction h → Type 0 where
    typed :
        {v : Value h} → IsTyped py req s name kind v → Yields required s name kind (value name v)
    default : required ≡ false → Yields required s name kind use_default

  abbrev Answer : Bool → ParamSpec h → Str → Str → Checked (Extraction h) → Type 0
  Answer required s name kind = OnOk (Yields required s name kind)

  absent-Answer :
      (required : Bool) (s : ParamSpec h) (name kind source key : Str)
      → Answer required s name kind (absent required source key)
  absent-Answer true s name kind source key = fails
  absent-Answer false s name kind source key = holds (default refl)

  validated-Meets :
      (s : ParamSpec h) (source name raw : Str) (v : Value h)
      → validated py s.validators v source name raw ≡ ok tt
      → (d : Validators h) → s.validators ≡ some d
      → Meets py v d
  validated-Meets s source name raw v met d its =
      (run_validators_iff py v d source name raw).0
        (subst (λ o. validated py o v source name raw ≡ ok tt) its met)

  scalar-Answer :
      (required : Bool) (s : ParamSpec h) (kind source name raw : Str) (rest : List Str)
      (v : Value h)
      → is_list_type kind ≡ false
      → Carries py req s name (raw ∷ rest)
      → cast_scalar py raw kind source name ≡ ok v
      → HasKind py kind v
      → (o : Checked (Unit {0})) → validated py s.validators v source name raw ≡ o
      → Answer required s name kind (o >>= λ _. ok (value name v))
  scalar-Answer required s kind source name raw rest v single there e fits (ok tt) met =
      holds (typed (a_scalar source single there e fits (validated-Meets s source name raw v met)))
  scalar-Answer required s kind source name raw rest v single there e fits (err x) met = fails

  cast_param-Answer :
      (required : Bool) (s : ParamSpec h) (kind source name raw : Str) (rest : List Str)
      → Carries py req s name (raw ∷ rest)
      → Answer required s name kind (cast_param py s kind source name raw rest)
  unfolding cast_param
  cast_param-Answer required s kind source name raw rest there =
      if-cases (Answer required s name kind) (is_list_type kind) _ _
        (λ many.
          bind-OnOk (AllHaveKind py (inner_type kind)) _
            (cast_all py (raw ∷ rest) (inner_type kind) source name) _
            (cast_all-HasKind py (raw ∷ rest) (inner_type kind) source name)
            (λ l e fit. holds (typed (a_list source many there e fit))))
        (λ single.
          bind-OnOk (HasKind py kind) _ (cast_scalar py raw kind source name) _
            (cast_scalar-HasKind py raw kind source name)
            (λ v e fits.
              scalar-Answer required s kind source name raw rest v single there e fits
                (validated py s.validators v source name raw) refl))

  from_texts-Answer :
      (s : ParamSpec h) (kind source name : Str) (required : Bool) (key : Str)
      (o : Option (List Str))
      → ((ts : List Str) → o ≡ some ts → Carries py req s name ts)
      → Answer required s name kind (from_texts py s kind source name required key o)
  from_texts-Answer s kind source name required key (some (raw ∷ rest)) f =
      cast_param-Answer required s kind source name raw rest (f (raw ∷ rest) refl)
  from_texts-Answer s kind source name required key (some []) f =
      absent-Answer required s name kind source key
  from_texts-Answer s kind source name required key none f =
      absent-Answer required s name kind source key

  given-Answer :
      (s : ParamSpec h) (name kind : Str) (required : Bool) (key : Str) (o : Option (Value h))
      → ((v : Value h) → o ≡ some v → IsTyped py req s name kind v)
      → Answer required s name kind (given py name required key o)
  given-Answer s name kind required key (some v) f = holds (typed (f v refl))
  given-Answer s name kind required key none f =
      absent-Answer required s name kind (bytes "body") key

  made-Answer :
      {A : Type 0} (s : ParamSpec h) (name kind : Str) (required : Bool) (key : Str)
      (f : A → Value h) (o : Option A)
      → ((a : A) → o ≡ some a → IsTyped py req s name kind (f a))
      → Answer required s name kind (given py name required key (map_value py f o))
  made-Answer s name kind required key f (some a) fit = holds (typed (fit a refl))
  made-Answer s name kind required key f none fit =
      absent-Answer required s name kind (bytes "body") key

  extract_form-Answer :
      (s : ParamSpec h) (name kind : Str) (required : Bool)
      → FromForm py req s
      → Answer required s name kind (extract_form py req s name kind required)
  unfolding extract_form
  extract_form-Answer s name kind required form =
      let key = unwrap_or s.alias name in
      if-cases (Answer required s name kind) (str_eq kind (bytes "uploadfile")) _ _
        (λ e.
          given-Answer s name kind required key (first_item (submitted py req s name))
            (λ v. an_upload form ((str_eq_iff kind (bytes "uploadfile")).0 e)))
        (λ _.
          if-cases (Answer required s name kind) (str_eq kind (bytes "list[uploadfile]")) _ _
            (λ e.
              made-Answer s name kind required key (λ (l : Items h). list l)
                (submitted py req s name)
                (λ l. uploads form ((str_eq_iff kind (bytes "list[uploadfile]")).0 e)))
            (λ _.
              if-cases (Answer required s name kind) (str_eq kind (bytes "bytes")) _ _
                (λ e.
                  made-Answer s name kind required key py.py_bytes
                    (file_bytes py (first_item (submitted py req s name)))
                    (λ b. contents form ((str_eq_iff kind (bytes "bytes")).0 e)))
                (λ _.
                  if-cases (Answer required s name kind) (is_form_scalar kind) _ _
                    (λ _.
                      from_texts-Answer s kind (bytes "body") name required key
                        (form_texts (submitted py req s name)) (λ ts. in_form form))
                    (λ _. absent-Answer required s name kind _ _))))

  -- A parameter that this stage fills yields an error, the handler's default, and this only if the
  -- parameter is not required, or a value under the parameter's name that the request has for it
  -- and that is of the declared type.
  pub extract_named-Answer :
      (s : ParamSpec h) (name : Str)
      → filled_elsewhere (unwrap_or s.source (bytes "query")) ≡ false
      → Answer
          (unwrap_or s.required true)
          s
          name
          (unwrap_or s.type_kind (bytes "str"))
          (extract_named py req s name)
  unfolding extract_named
  extract_named-Answer s name here =
      let source = unwrap_or s.source (bytes "query") in
      rw here (
        if-cases (Answer _ s name _) (is_form source) _ _
          (λ form. extract_form-Answer s name _ _ (form_source py req s form))
          (λ _.
            from_texts-Answer s _ _ _ _ _ (raw_texts req source name (lookup_key s source name))
              (λ ts. raw_texts-Carries py req s name ts)))

  pub extract_one_param-Answer :
      (s : ParamSpec h) (n : Option Str)
      → s.name ≡ some n
      → filled_elsewhere (unwrap_or s.source (bytes "query")) ≡ false
      → Answer
          (unwrap_or s.required true)
          s
          (unwrap_or n [])
          (unwrap_or s.type_kind (bytes "str"))
          (extract_one_param py req s)
  unfolding extract_one_param
  extract_one_param-Answer s n named here =
      subst
        (λ o.
          Answer (unwrap_or s.required true) s (unwrap_or n [])
            (unwrap_or s.type_kind (bytes "str")) (by_name py req s o))
        (sym named) (extract_named-Answer s (unwrap_or n []) here)
