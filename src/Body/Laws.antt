-- ===== src/Body/Laws.antt =====
-- One body parameter at a time: errors and keyword arguments are only added, and a required
-- parameter gets its argument or an error.
pub mod Answers
use hyperfastapi.Prelude.{
  ℕ, suc, ◌+◌, ◌≤◌, ◌<◌, ◌≡◌, ◌≢◌, refl, sym, ap, ◌∙◌, ◌⊎◌, inl, inr, subst, Bool, true, false, not,
  Option, none, some, List, [], ◌∷◌, ◌++◌, map, arith, if◌then◌else◌, unwrap_or, is_empty, is_some,
  length, length-append, All, some_eq, some-ne-none, Bool-cases,
}
use hyperfastapi.Prelude.Text.{Str, bytes, str_eq}
use hyperfastapi.Value.{Host, Value, Entries, Kwargs, dict, list, set_item, get_item}
use hyperfastapi.Value.Dicts.{has, has-set_item, has-set_item_self}
use hyperfastapi.Route.{ParamSpec, Plan}
use hyperfastapi.Body.{
  ErrorItem, Attempt, returned, failed, raised, Validation, BodyState, missing_body_dict,
  json_invalid_dict, pydantic_errors_to_dicts, name_of, kind_of, is_required, body_entries, push,
  store, settle, settle_raw, with_model, require_body, all_missing, dict_get, single_body, embedded,
  one_entry, then_rest, each_entry, from_envelope, multi_body, layout, extract_body_params,
}

-- Pydantic's `ValidationError.errors()` is never empty.
abbrev pub Reported : {h : Host} → Attempt h → Type 0
Reported (failed (some (e ∷ es))) = Unit
Reported (failed (some [])) = ⊥
Reported (failed none) = ⊥
Reported _ = Unit

pub record Reporting {h : Host} (py : Validation h) : Type 0 where
  pub model_json : (m : Value h) (b : Str) → Reported (py.model_validate_json m b)
  pub model_python : (m v : Value h) → Reported (py.model_validate_python m v)
  pub list_json : (m : Value h) (b : Str) → Reported (py.list_validate_json m b)
  pub list_python : (m v : Value h) → Reported (py.list_validate_python m v)

module _ {h : Host} where
  abbrev pub errors : BodyState h → ℕ
  errors s = length s.error_dicts

  -- Errors and keyword arguments are only added.
  pub record Grows (s t : BodyState h) : Type 0 where
    pub more_errors : errors s ≤ errors t
    pub keeps : (k : Str) → has k s.kwargs ≡ true → has k t.kwargs ≡ true

  pub Grows-refl : (s : BodyState h) → Grows s s
  Grows-refl s = record { more_errors = omega arith; keeps = λ k e. e }

  pub Grows-trans : (s t u : BodyState h) → Grows s t → Grows t u → Grows s u
  Grows-trans s t u p q = record {
    more_errors = omega arith;
    keeps = λ k e. q.keeps k (p.keeps k e);
  }

  -- A required parameter has its argument, or there is a new error.
  abbrev pub Answered : ParamSpec h → BodyState h → BodyState h → Type 0
  Answered e s t = is_required e ≡ true → (has (name_of e) t.kwargs ≡ true) ⊎ (errors s < errors t)

  pub Grows-push : (s : BodyState h) (ds : List (Value h)) → Grows s (push s ds)
  Grows-push s ds = record {
    more_errors = omega (arith, length-append {0} s.error_dicts ds);
    keeps = λ k e. e;
  }

  pub Grows-store : (s : BodyState h) (name : Str) (v : Value h) → Grows s (store s name v)
  Grows-store s name v = record {
    more_errors = omega arith;
    keeps = λ k e. has-set_item name k v s.kwargs e;
  }

  pub errors-push :
      (s : BodyState h) (d : Value h) (ds : List (Value h)) → errors s < errors (push s (d ∷ ds))
  errors-push s d ds = omega (arith, length-append {0} s.error_dicts (d ∷ ds))

  abbrev pub Step : ParamSpec h → BodyState h → BodyState h → Type 0
  Step e s t = Grows s t × Answered e s t

  pub settle-Step :
      (e : ParamSpec h) (s t : BodyState h) (loc : List Str) (a : Attempt h)
      → Reported a
      → settle s (name_of e) loc a ≡ some t
      → Step e s t
  unfolding settle pydantic_errors_to_dicts
  settle-Step e s t loc (returned v) r q =
      subst (Step e s) (some_eq q)
        (Grows-store s (name_of e) v, λ _. inl (has-set_item_self (name_of e) v s.kwargs))
  settle-Step e s t loc (failed (some (x ∷ xs))) r q =
      subst (Step e s) (some_eq q) (Grows-push s _, λ _. inr (errors-push s _ _))
  settle-Step e s t loc (failed (some [])) r q = absurd r
  settle-Step e s t loc (failed none) r q = absurd r
  settle-Step e s t loc raised r q = cc

  pub settle_raw-Step :
      (e : ParamSpec h) (s t : BodyState h) (a : Attempt h)
      → settle_raw s (name_of e) a ≡ some t
      → Step e s t
  unfolding settle_raw pydantic_errors_to_dicts
  settle_raw-Step e s t (returned v) q =
      subst (Step e s) (some_eq q)
        (Grows-store s (name_of e) v, λ _. inl (has-set_item_self (name_of e) v s.kwargs))
  settle_raw-Step e s t (failed (some (x ∷ xs))) q =
      subst (Step e s) (some_eq q) (Grows-push s _, λ _. inr (errors-push s _ _))
  settle_raw-Step e s t (failed (some [])) q =
      subst (Step e s) (some_eq q) (Grows-push s _, λ _. inr (errors-push s _ _))
  settle_raw-Step e s t (failed none) q =
      subst (Step e s) (some_eq q) (Grows-push s _, λ _. inr (errors-push s _ _))
  settle_raw-Step e s t raised q = cc

  pub require_body-Step :
      (e : ParamSpec h) (s : BodyState h) (loc : List Str) → Step e s (require_body s e loc)
  unfolding require_body
  require_body-Step e s loc = elim (Bool-cases (is_required e)) [
    | inl need ↦ rw need (Grows-push s _, λ _. inr (errors-push s _ _))
    | inr free ↦ rw free (Grows-refl s, λ q. cc)
  ]
