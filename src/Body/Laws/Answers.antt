-- ===== src/Body/Laws/Answers.antt =====
-- A handler is called without one of its required body parameters only after an error.
use hyperfastapi.Prelude.{
  ◌<◌, ◌≡◌, ◌≢◌, refl, sym, inl, inr, subst, true, false, Option, none, some, List, [], ◌∷◌, arith,
  unwrap_or, is_empty, All, Memᴰ, some_eq, Bool-cases,
}
use hyperfastapi.Prelude.Text.{Str, bytes, str_eq}
use hyperfastapi.Value.{
  Host, Value, Entries, null, bool, int, float, str, surrogates, dict, list, tuple, other,
}
use hyperfastapi.Value.Dicts.{has, has-set_item_self}
use hyperfastapi.Route.{ParamSpec, Plan}
use hyperfastapi.Body.{
  Attempt, returned, failed, raised, Validation, BodyState, name_of, kind_of, is_required,
  body_entries, settle, with_model, all_missing, dict_get, single_body, embedded, one_entry,
  then_rest, each_entry, from_envelope, multi_body, layout, extract_body_params,
}
use hyperfastapi.Body.Laws.{
  Reporting, Reported, errors, Grows, Answered, Step, Grows-refl, Grows-trans, Grows-push,
  Grows-store, errors-push, settle-Step, settle_raw-Step, require_body-Step,
}

module _ {h : Host} where
  -- The entry carries a model class.
  abbrev pub HasModel : ParamSpec h → Type 0
  HasModel e = e.model ≢ none

  with_model-Step :
      (e : ParamSpec h) (s t : BodyState h) (model : Option (Value h)) (loc : List Str)
      (validate : Value h → Attempt h)
      → model ≢ none
      → ((m : Value h) → Reported (validate m))
      → with_model s model (λ m. settle s (name_of e) loc (validate m)) ≡ some t
      → Step e s t
  with_model-Step e s t none loc validate ne r q = absurd (ne refl)
  with_model-Step e s t (some m) loc validate ne r q = settle-Step e s t loc (validate m) (r m) q

  -- Errors and arguments only grow, and every entry is answered.
  abbrev Steps : List (ParamSpec h) → BodyState h → BodyState h → Type 0
  Steps es s t = Grows s t × All (λ e. Answered e s t) es

  Answered-later :
      (e : ParamSpec h) (s t u : BodyState h) → Answered e s t → Grows t u → Answered e s u
  Answered-later e s t u a g need = elim (a need) [
    | inl there ↦ inl (g.keeps (name_of e) there)
    | inr more ↦ inr (omega (arith, more, g.more_errors))
  ]

  Answered-sooner :
      (e : ParamSpec h) (s t u : BodyState h) → Grows s t → Answered e t u → Answered e s u
  Answered-sooner e s t u g a need = elim (a need) [
    | inl there ↦ inl there
    | inr more ↦ inr (omega (arith, more, g.more_errors))
  ]

  All-sooner :
      (es : List (ParamSpec h)) (s t u : BodyState h)
      → Grows s t
      → All (λ e. Answered e t u) es
      → All (λ e. Answered e s u) es
  All-sooner [] s t u g a = tt
  All-sooner (e ∷ es) s t u g (a, as') = (Answered-sooner e s t u g a, All-sooner es s t u g as')

  Steps-cons :
      (e : ParamSpec h) (es : List (ParamSpec h)) (s t u : BodyState h)
      → Step e s t
      → Steps es t u
      → Steps (e ∷ es) s u
  Steps-cons e es s t u (g, a) (k, as') =
      (Grows-trans s t u g k, (Answered-later e s t u a k, All-sooner es s t u g as'))

  all_missing-Steps : (es : List (ParamSpec h)) (s : BodyState h) → Steps es s (all_missing s es)
  unfolding all_missing
  all_missing-Steps [] s = (Grows-refl s, tt)
  all_missing-Steps (e ∷ es) s =
      Steps-cons e es s _ _ (require_body-Step e s _) (all_missing-Steps es _)

  -- All entries are answered by one new error.
  refused :
      (es : List (ParamSpec h)) (s t : BodyState h)
      → errors s < errors t
      → All (λ e. Answered e s t) es
  refused [] s t more = tt
  refused (e ∷ es) s t more = ((λ _. inr more), refused es s t more)

module _ {h : Host} (py : Validation h) (reporting : Reporting py) where
  single_body-Step :
      (e : ParamSpec h) (b : Str) (s t : BodyState h)
      → HasModel e
      → single_body py e b s ≡ some t
      → Step e s t
  unfolding single_body
  single_body-Step e b s t m q = elim (Bool-cases (is_empty b)) [
    | inl no_body ↦ subst (Step e s) (some_eq (rw no_body at q)) (require_body-Step e s _)
    | inr body ↦ elim (Bool-cases (str_eq (kind_of e) (bytes "model"))) [
      | inl one ↦
          with_model-Step e s t e.model _ (λ m. py.model_validate_json m b) m
            (λ m. reporting.model_json m b) (rw (body, one) at q)
      | inr not_one ↦ elim (Bool-cases (str_eq (kind_of e) (bytes "list[model]"))) [
        | inl many ↦
            with_model-Step e s t e.model _ (λ m. py.list_validate_json m b) m
              (λ m. reporting.list_json m b) (rw (body, not_one, many) at q)
        | inr raw ↦ settle_raw-Step e s t (py.loads b) (rw (body, not_one, raw) at q)
      ]
    ]
  ]

  embedded-Step :
      (e : ParamSpec h) (sub : Value h) (s t : BodyState h)
      → HasModel e
      → embedded py e sub s ≡ some t
      → Step e s t
  unfolding embedded
  embedded-Step e sub s t m q = elim (Bool-cases (str_eq (kind_of e) (bytes "model"))) [
    | inl one ↦
        with_model-Step e s t e.model _ (λ m. py.model_validate_python m sub) m
          (λ m. reporting.model_python m sub) (rw one at q)
    | inr not_one ↦ elim (Bool-cases (str_eq (kind_of e) (bytes "list[model]"))) [
      | inl many ↦
          with_model-Step e s t e.model _ (λ m. py.list_validate_python m sub) m
            (λ m. reporting.list_python m sub) (rw (not_one, many) at q)
      | inr raw ↦
          subst (Step e s) (some_eq (rw (not_one, raw) at q))
            (Grows-store s (name_of e) sub, λ _. inl (has-set_item_self (name_of e) sub s.kwargs))
    ]
  ]

  one_entry-Step :
      (e : ParamSpec h) (o : Option (Value h)) (s t : BodyState h)
      → HasModel e
      → one_entry py e o s ≡ some t
      → Step e s t
  one_entry-Step e none s t m q = subst (Step e s) (some_eq q) (require_body-Step e s _)
  one_entry-Step e (some sub) s t m q = embedded-Step e sub s t m q

  each_entry-Steps :
      (es : List (ParamSpec h)) (d : Entries h) (s u : BodyState h)
      → All HasModel es
      → each_entry py es d s ≡ some u
      → Steps es s u
  unfolding each_entry
  each_entry-Steps [] d s u m q = subst (Steps [] s) (some_eq q) (Grows-refl s, tt)
  each_entry-Steps (e ∷ es) d s u (m, ms) q =
      go (one_entry py e (dict_get (name_of e) d) s) refl q (λ t k. each_entry-Steps es d t u ms k)
    where
      go :
          (o : Option (BodyState h))
          → one_entry py e (dict_get (name_of e) d) s ≡ o
          → then_rest py o (λ t. each_entry py es d t) ≡ some u
          → ((t : BodyState h) → each_entry py es d t ≡ some u → Steps es t u)
          → Steps (e ∷ es) s u
      go none p q ih = cc
      go (some t) p q ih = Steps-cons e es s t u (one_entry-Step e _ s t m p) (ih t q)

  from_envelope-Steps :
      (es : List (ParamSpec h)) (a : Attempt h) (s u : BodyState h)
      → All HasModel es
      → from_envelope py es s a ≡ some u
      → Steps es s u
  from_envelope-Steps es (returned (dict d)) s u m q = each_entry-Steps es d s u m q
  from_envelope-Steps es (returned null) s u m q =
      subst (Steps es s) (some_eq q) (all_missing-Steps es s)
  from_envelope-Steps es (returned (bool _)) s u m q =
      subst (Steps es s) (some_eq q) (all_missing-Steps es s)
  from_envelope-Steps es (returned (int _)) s u m q =
      subst (Steps es s) (some_eq q) (all_missing-Steps es s)
  from_envelope-Steps es (returned (float _)) s u m q =
      subst (Steps es s) (some_eq q) (all_missing-Steps es s)
  from_envelope-Steps es (returned (str _)) s u m q =
      subst (Steps es s) (some_eq q) (all_missing-Steps es s)
  from_envelope-Steps es (returned (surrogates _)) s u m q =
      subst (Steps es s) (some_eq q) (all_missing-Steps es s)
  from_envelope-Steps es (returned (list _)) s u m q =
      subst (Steps es s) (some_eq q) (all_missing-Steps es s)
  from_envelope-Steps es (returned (tuple _)) s u m q =
      subst (Steps es s) (some_eq q) (all_missing-Steps es s)
  from_envelope-Steps es (returned (other _)) s u m q =
      subst (Steps es s) (some_eq q) (all_missing-Steps es s)
  from_envelope-Steps es (failed _) s u m q =
      subst (Steps es s) (some_eq q) (Grows-push s _, refused es s _ (errors-push s _ []))
  from_envelope-Steps es raised s u m q =
      subst (Steps es s) (some_eq q) (Grows-push s _, refused es s _ (errors-push s _ []))

  multi_body-Steps :
      (es : List (ParamSpec h)) (b : Str) (s u : BodyState h)
      → All HasModel es
      → multi_body py es b s ≡ some u
      → Steps es s u
  unfolding multi_body
  multi_body-Steps es b s u m q = elim (Bool-cases (is_empty b)) [
    | inl no_body ↦ subst (Steps es s) (some_eq (rw no_body at q)) (all_missing-Steps es s)
    | inr body ↦ from_envelope-Steps es (py.loads b) s u m (rw body at q)
  ]

  layout-Steps :
      (es : List (ParamSpec h)) (b : Str) (s u : BodyState h)
      → All HasModel es
      → layout py es b s ≡ some u
      → Steps es s u
  layout-Steps [] b s u m q = subst (Steps [] s) (some_eq q) (Grows-refl s, tt)
  layout-Steps (e ∷ []) b s u m q = elim (Bool-cases (unwrap_or e.embed false)) [
    | inl nested ↦ multi_body-Steps (e ∷ []) b s u m (rw nested at q)
    | inr whole ↦ let step = single_body-Step e b s u m.0 (rw whole at q) in (step.0, (step.1, tt))
  ]
  layout-Steps (e ∷ e' ∷ es) b s u m q = multi_body-Steps (e ∷ e' ∷ es) b s u m q

  pub extract_body_params-Grows :
      (plan : Plan h) (b : Str) (s t : BodyState h)
      → All HasModel (body_entries plan)
      → extract_body_params py plan b s ≡ some t
      → Grows s t
  unfolding extract_body_params
  extract_body_params-Grows plan b s t m q = (layout-Steps (body_entries plan) b s t m q).0

  pub extract_body_params-Answered :
      (plan : Plan h) (b : Str) (s t : BodyState h) (e : ParamSpec h)
      → All HasModel (body_entries plan)
      → extract_body_params py plan b s ≡ some t
      → errors t ≡ errors s
      → Memᴰ e (body_entries plan)
      → is_required e ≡ true
      → has (name_of e) t.kwargs ≡ true
  unfolding extract_body_params
  extract_body_params-Answered plan b s t e m q same mem need =
      elim (answered (body_entries plan) (layout-Steps (body_entries plan) b s t m q).1 mem need) [
        | inl there ↦ there
        | inr more ↦ absurd (omega (arith, more, same))
      ]
    where
      answered :
          (es : List (ParamSpec h)) → All (λ e. Answered e s t) es → Memᴰ e es → Answered e s t
      answered [] a mem = elim mem [ ]
      answered (x ∷ es) (a, as') (Memᴰ.head same) = subst (λ y. Answered y s t) (sym same) a
      answered (x ∷ es) (a, as') (Memᴰ.tail later) = answered es as' later
