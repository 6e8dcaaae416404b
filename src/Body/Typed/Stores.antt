-- ===== src/Body/Typed/Stores.antt =====
-- `extract_body_params` stores under the names of the body entries only what they may have.
use hyperfastapi.Prelude.{
  ◌≡◌, refl, false, Option, none, some, List, [], ◌∷◌, All, if-cases, unwrap_or, not, is_empty,
}
use hyperfastapi.Prelude.Text.{Str, bytes, str_eq}
use hyperfastapi.Value.{
  Host, Value, Entries, null, bool, int, float, str, surrogates, dict, list, tuple, other,
}
use hyperfastapi.Value.Dicts.{All-set_item}
use hyperfastapi.Route.{ParamSpec, Plan}
use hyperfastapi.Body.{
  Attempt, returned, failed, raised, Validation, BodyState, name_of, kind_of, is_required,
  body_entries, settle, settle_raw, with_model, require_body, all_missing, dict_get, single_body,
  embedded, one_entry, then_rest, each_entry, from_envelope, multi_body, layout,
  extract_body_params,
}
use hyperfastapi.Body.Typed.{
  OnSome, InEnvelope, in_envelope, IsValidated, from_json, from_python, list_from_json,
  list_from_python, raw, raw_in_envelope,
}

module _ {h : Host} (py : Validation h) (body : Str) where
  module _ (P : Str × Value h → Type 0) where
    abbrev Stores : BodyState h → Type 0
    Stores s = All P s.kwargs

    -- Every value that an entry may have satisfies the predicate under the entry's name.
    abbrev pub Admits : ParamSpec h → Type 0
    Admits e = (v : Value h) → IsValidated py body e v → P (name_of e, v)

    settle-Stores :
        (s : BodyState h) (name : Str) (loc : List Str) (a : Attempt h)
        → ((v : Value h) → a ≡ returned v → P (name, v))
        → Stores s
        → OnSome Stores (settle s name loc a)
    unfolding settle
    settle-Stores s name loc (returned v) f q = All-set_item P name v s.kwargs (f v refl) q
    settle-Stores s name loc (failed e) f q = q
    settle-Stores s name loc raised f q = tt

    settle_raw-Stores :
        (s : BodyState h) (name : Str) (a : Attempt h)
        → ((v : Value h) → a ≡ returned v → P (name, v))
        → Stores s
        → OnSome Stores (settle_raw s name a)
    unfolding settle_raw
    settle_raw-Stores s name (returned v) f q = All-set_item P name v s.kwargs (f v refl) q
    settle_raw-Stores s name (failed e) f q = q
    settle_raw-Stores s name raised f q = tt

    with_model-Stores :
        (e : ParamSpec h) (s : BodyState h) (loc : List Str) (validate : Value h → Attempt h)
        (o : Option (Value h))
        → ((m : Value h) → o ≡ some m → (v : Value h) → validate m ≡ returned v → P (name_of e, v))
        → Stores s
        → OnSome Stores (with_model s o (λ m. settle s (name_of e) loc (validate m)))
    with_model-Stores e s loc validate none f q = q
    with_model-Stores e s loc validate (some m) f q =
        settle-Stores s (name_of e) loc (validate m) (f m refl) q

    require_body-Stores :
        (e : ParamSpec h) (s : BodyState h) (loc : List Str)
        → Stores s
        → Stores (require_body s e loc)
    unfolding require_body
    require_body-Stores e s loc q = if-cases Stores (is_required e) _ _ (λ _. q) (λ _. q)

    all_missing-Stores :
        (es : List (ParamSpec h)) (s : BodyState h) → Stores s → Stores (all_missing s es)
    unfolding all_missing
    all_missing-Stores [] s q = q
    all_missing-Stores (e ∷ es) s q = all_missing-Stores es _ (require_body-Stores e s _ q)

    single_body-Stores :
        (e : ParamSpec h) (s : BodyState h)
        → Admits e
        → Stores s
        → OnSome Stores (single_body py e body s)
    unfolding single_body
    single_body-Stores e s f q =
        if-cases (OnSome Stores) (is_empty body) _ _ (λ _. require_body-Stores e s _ q)
          (λ _.
            if-cases (OnSome Stores) (str_eq (kind_of e) (bytes "model")) _ _
              (λ one.
                with_model-Stores e s _ (λ m. py.model_validate_json m body) e.model
                  (λ m has v made. f v (from_json m one has made)) q)
              (λ not_one.
                if-cases (OnSome Stores) (str_eq (kind_of e) (bytes "list[model]")) _ _
                  (λ many.
                    with_model-Stores e s _ (λ m. py.list_validate_json m body) e.model
                      (λ m has v made. f v (list_from_json m many has made)) q)
                  (λ not_many.
                    settle_raw-Stores s (name_of e) (py.loads body)
                      (λ v made. f v (raw not_one not_many made)) q)))

    embedded-Stores :
        (e : ParamSpec h) (sub : Value h) (s : BodyState h)
        → Admits e
        → InEnvelope py body e sub
        → Stores s
        → OnSome Stores (embedded py e sub s)
    unfolding embedded
    embedded-Stores e sub s f there q =
        if-cases (OnSome Stores) (str_eq (kind_of e) (bytes "model")) _ _
          (λ one.
            with_model-Stores e s _ (λ m. py.model_validate_python m sub) e.model
              (λ m has v made. f v (from_python m one has there made)) q)
          (λ not_one.
            if-cases (OnSome Stores) (str_eq (kind_of e) (bytes "list[model]")) _ _
              (λ many.
                with_model-Stores e s _ (λ m. py.list_validate_python m sub) e.model
                  (λ m has v made. f v (list_from_python m many has there made)) q)
              (λ not_many.
                All-set_item P (name_of e) sub s.kwargs
                  (f sub (raw_in_envelope not_one not_many there)) q))

    one_entry-Stores :
        (e : ParamSpec h) (o : Option (Value h)) (s : BodyState h)
        → Admits e
        → ((sub : Value h) → o ≡ some sub → InEnvelope py body e sub)
        → Stores s
        → OnSome Stores (one_entry py e o s)
    one_entry-Stores e none s f there q = require_body-Stores e s _ q
    one_entry-Stores e (some sub) s f there q = embedded-Stores e sub s f (there sub refl) q

    then_rest-Stores :
        (o : Option (BodyState h)) (k : BodyState h → Option (BodyState h))
        → OnSome Stores o
        → ((t : BodyState h) → Stores t → OnSome Stores (k t))
        → OnSome Stores (then_rest py o k)
    then_rest-Stores none k q f = tt
    then_rest-Stores (some t) k q f = f t q

    each_entry-Stores :
        (es : List (ParamSpec h)) (d : Entries h) (s : BodyState h)
        → py.loads body ≡ returned (dict d)
        → All Admits es
        → Stores s
        → OnSome Stores (each_entry py es d s)
    unfolding each_entry
    each_entry-Stores [] d s read f q = q
    each_entry-Stores (e ∷ es) d s read (f, fs) q =
        then_rest-Stores (one_entry py e (dict_get (name_of e) d) s) _
          (one_entry-Stores e (dict_get (name_of e) d) s f (λ sub. in_envelope read) q)
          (λ t r. each_entry-Stores es d t read fs r)

    from_envelope-Stores :
        (es : List (ParamSpec h)) (s : BodyState h) (a : Attempt h)
        → py.loads body ≡ a
        → All Admits es
        → Stores s
        → OnSome Stores (from_envelope py es s a)
    from_envelope-Stores es s (returned (dict d)) e f q = each_entry-Stores es d s e f q
    from_envelope-Stores es s (returned null) e f q = all_missing-Stores es s q
    from_envelope-Stores es s (returned (bool _)) e f q = all_missing-Stores es s q
    from_envelope-Stores es s (returned (int _)) e f q = all_missing-Stores es s q
    from_envelope-Stores es s (returned (float _)) e f q = all_missing-Stores es s q
    from_envelope-Stores es s (returned (str _)) e f q = all_missing-Stores es s q
    from_envelope-Stores es s (returned (surrogates _)) e f q = all_missing-Stores es s q
    from_envelope-Stores es s (returned (list _)) e f q = all_missing-Stores es s q
    from_envelope-Stores es s (returned (tuple _)) e f q = all_missing-Stores es s q
    from_envelope-Stores es s (returned (other _)) e f q = all_missing-Stores es s q
    from_envelope-Stores es s (failed _) e f q = q
    from_envelope-Stores es s raised e f q = q

    multi_body-Stores :
        (es : List (ParamSpec h)) (s : BodyState h)
        → All Admits es
        → Stores s
        → OnSome Stores (multi_body py es body s)
    unfolding multi_body
    multi_body-Stores es s f q =
        if-cases (OnSome Stores) (is_empty body) _ _ (λ _. all_missing-Stores es s q)
          (λ _. from_envelope-Stores es s (py.loads body) refl f q)

    layout-Stores :
        (es : List (ParamSpec h)) (s : BodyState h)
        → All Admits es
        → Stores s
        → OnSome Stores (layout py es body s)
    layout-Stores [] s f q = q
    layout-Stores (e ∷ []) s f q =
        if-cases (OnSome Stores) (not (unwrap_or e.embed false)) _ _
          (λ _. single_body-Stores e s f.0 q) (λ _. multi_body-Stores (e ∷ []) s f q)
    layout-Stores (e ∷ e' ∷ es) s f q = multi_body-Stores (e ∷ e' ∷ es) s f q

    -- If every value that an entry of the body may have satisfies a predicate under the entry's
    -- name, and so do the arguments before the body stage, then so do those after it.
    pub extract_body_params-Stores :
        (plan : Plan h) (s : BodyState h)
        → All Admits (body_entries plan)
        → All P s.kwargs
        → OnSome (λ (t : BodyState h). All P t.kwargs) (extract_body_params py plan body s)
    unfolding extract_body_params
    extract_body_params-Stores plan s f q = layout-Stores (body_entries plan) s f q
