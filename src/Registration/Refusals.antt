-- ===== src/Registration/Refusals.antt =====
-- The annotations that `RouteDecorator.__call__` refuses.
use hyperfastapi.Prelude.{
  ◌≡◌, ◌≢◌, ◌≤◌, ◌<◌, ◌⊎◌, ℕ, ◌==◌, ==_iff, refl, sym, ap, ◌∙◌, ◌||◌, some_eq, ◌↔◌, Bool, true,
  false, Option, none, some, List, arith, Bool-cases, inl, inr,
}
use hyperfastapi.Prelude.Int.{ℤ, pos, negsuc}
use hyperfastapi.Prelude.Text.{Str, bytes, str_eq, str_eq_iff}
use hyperfastapi.Value.{
  Host, Value, null, bool, int, float, str, surrogates, dict, list, tuple, other,
}
use hyperfastapi.Route.{Route}
use hyperfastapi.Route.Decorator.{
  Reflection, RouteDecorator, Registered, ok, err, RegisterError, call, forbids_content,
  check_annotation, names_none, is_none_type, route_of, check_hint, require_none, push_route,
}

-- Statuses that forbid a body: No Content, Not Modified and the informational ones.
pub data Bodiless : ℤ → Type 0 where
  no_content : Bodiless (pos 204)
  not_modified : Bodiless (pos 304)
  informational : {n : ℕ} → 100 ≤ n → n < 200 → Bodiless (pos n)

forbids_content-Bodiless : (sc : ℤ) → forbids_content sc ≡ true → Bodiless sc
unfolding forbids_content
forbids_content-Bodiless (negsuc n) e = absurd cc
forbids_content-Bodiless (pos n) e = elim (Bool-cases (n == 204)) [
  | inl same ↦ rw ((==_iff n 204).0 same) no_content
  | inr differs ↦ elim (Bool-cases (n == 304)) [
    | inl same ↦ rw ((==_iff n 304).0 same) not_modified
    | inr another ↦
        informational (ground (arith, e, differs, another)) (ground (arith, e, differs, another))
  ]
]

Bodiless-forbids_content : (sc : ℤ) → Bodiless sc → forbids_content sc ≡ true
unfolding forbids_content
Bodiless-forbids_content _ no_content = refl
Bodiless-forbids_content _ not_modified = refl
Bodiless-forbids_content _ (informational low high) = ground (arith, low, high)

ok-ne-err : {x : RegisterError} → ◌≡◌ {A = Registered (Unit {0})} (ok tt) (err x) → ⊥
ok-ne-err e = cc

module _ {h : Host} (py : Reflection h) where
  true-ne-false : true ≡ false → ⊥
  true-ne-false e = cc

  -- An annotation is neither `None` nor its type, by comparison and by `repr`.
  pub record NotNone (ann : Value h) : Type 0 where
    pub no_none : ann ≢ null
    pub unequal : py.eq_none ann ≡ some false
    pub no_class : py.repr ann ≢ some (bytes "<class 'NoneType'>")
    pub no_name : py.repr ann ≢ some (bytes "None")

  printed_iff :
      (o : Option Str)
      → (names_none py o ≡ false)
        ↔ ((o ≢ some (bytes "<class 'NoneType'>")) × (o ≢ some (bytes "None")))
  printed_iff none = ((λ _. ((λ e. cc), (λ e. cc))), (λ _. refl))
  printed_iff (some s) = (
    (λ e. (
      (λ same. ground (arith, e, some_eq same, str_eq_iff s (bytes "<class 'NoneType'>"))),
      (λ same. ground (arith, e, some_eq same, str_eq_iff s (bytes "None"))),
    )),
    (λ (f, g).
        differs (Bool-cases (str_eq s (bytes "<class 'NoneType'>")))
          (Bool-cases (str_eq s (bytes "None"))) f g),
  )
    where
      differs :
          (str_eq s (bytes "<class 'NoneType'>") ≡ true)
            ⊎ (str_eq s (bytes "<class 'NoneType'>") ≡ false)
          → (str_eq s (bytes "None") ≡ true) ⊎ (str_eq s (bytes "None") ≡ false)
          → some s ≢ some (bytes "<class 'NoneType'>")
          → some s ≢ some (bytes "None")
          → names_none py (some s) ≡ false
      differs (inl a) b f g = absurd (f (ap some ((str_eq_iff s _).0 a)))
      differs (inr a) (inl b) f g = absurd (g (ap some ((str_eq_iff s _).0 b)))
      differs (inr a) (inr b) f g = rw (a, b) refl

  abbrev compared : Value h → Option Bool → Registered Bool
  compared ann o = elim o [
    | none ↦ err RegisterError.raised
    | some b ↦ ok (b || names_none py (py.repr ann))
  ]

  ok_same : {a b : Bool} → ◌≡◌ {A = Registered Bool} (ok a) (ok b) → a ≡ b
  ok_same e = cc

  compared-NotNone :
      (ann : Value h) (o : Option Bool)
      → ann ≢ null
      → py.eq_none ann ≡ o
      → compared ann o ≡ ok false
      → NotNone ann
  compared-NotNone ann none n q e = absurd cc
  compared-NotNone ann (some true) n q e = absurd (true-ne-false (ok_same e))
  compared-NotNone ann (some false) n q e =
      let (c, d) = (printed_iff (py.repr ann)).0 (ok_same e) in
      record { no_none = n; unequal = q; no_class = c; no_name = d }

  is_none_type-cases :
      (v : Value h)
      → ((v ≡ null) × (is_none_type py v ≡ ok true))
        ⊎ ((v ≢ null) × (is_none_type py v ≡ compared v (py.eq_none v)))
  unfolding is_none_type
  is_none_type-cases null = inl (refl, refl)
  is_none_type-cases (bool _) = inr ((λ e. cc), refl)
  is_none_type-cases (int _) = inr ((λ e. cc), refl)
  is_none_type-cases (float _) = inr ((λ e. cc), refl)
  is_none_type-cases (str _) = inr ((λ e. cc), refl)
  is_none_type-cases (surrogates _) = inr ((λ e. cc), refl)
  is_none_type-cases (dict _) = inr ((λ e. cc), refl)
  is_none_type-cases (list _) = inr ((λ e. cc), refl)
  is_none_type-cases (tuple _) = inr ((λ e. cc), refl)
  is_none_type-cases (other _) = inr ((λ e. cc), refl)

  is_none_type-NotNone : (ann : Value h) → is_none_type py ann ≡ ok false → NotNone ann
  is_none_type-NotNone ann e = elim (is_none_type-cases ann) [
    | inl (is_none, t) ↦ absurd (true-ne-false (ok_same (sym t ∙ e)))
    | inr (no_none, t) ↦ compared-NotNone ann (py.eq_none ann) no_none refl (sym t ∙ e)
  ]

  NotNone-is_none_type : (ann : Value h) → NotNone ann → is_none_type py ann ≡ ok false
  NotNone-is_none_type ann n = elim (is_none_type-cases ann) [
    | inl (is_none, t) ↦ absurd (n.no_none is_none)
    | inr (no_none, t) ↦
        t
        ∙ ap (compared ann) n.unequal
        ∙ ap ok ((printed_iff (py.repr ann)).1 (n.no_class, n.no_name))
  ]

  is_none_type-err :
      (ann : Value h) (sc : ℤ)
      → is_none_type py ann ≡ err (RegisterError.non_none_annotation sc)
      → ⊥
  unfolding is_none_type
  is_none_type-err ann sc e = ground arith

  hint_rejects :
      (k sc : ℤ) (ann : Value h) (t : Registered Bool)
      → is_none_type py ann ≡ t
      → require_none k t ≡ err (RegisterError.non_none_annotation sc)
      → (k ≡ sc) × (is_none_type py ann ≡ ok false)
  hint_rejects k sc ann (ok true) q e = cc
  hint_rejects k sc ann (ok false) q e = (cc, q)
  hint_rejects k sc ann (err (RegisterError.non_none_annotation l)) q e =
      absurd (is_none_type-err ann l q)
  hint_rejects k sc ann (err RegisterError.raised) q e = cc

  hint_of :
      (k sc : ℤ) (hint : Option (Value h))
      → check_hint py k hint ≡ err (RegisterError.non_none_annotation sc)
      → (ann : Value h) × (hint ≡ some ann) × (k ≡ sc) × (is_none_type py ann ≡ ok false)
  hint_of k sc none e = cc
  hint_of k sc (some ann) e =
      let (same, n) = hint_rejects k sc ann (is_none_type py ann) refl e in (ann, refl, same, n)

  annotation_rejects :
      (status : Option ℤ) (func : Value h) (sc : ℤ)
      → check_annotation py status func ≡ err (RegisterError.non_none_annotation sc)
      → (status ≡ some sc)
        × (forbids_content sc ≡ true)
        × ((ann : Value h) × (py.return_hint func ≡ some ann) × (is_none_type py ann ≡ ok false))
  unfolding check_annotation
  annotation_rejects none func sc e = cc
  annotation_rejects (some k) func sc e = elim (Bool-cases (forbids_content k)) [
    | inl f ↦
        let (ann, hint, same, n) = hint_of k sc (py.return_hint func) (rw f at e) in
        (ap some same, rw (← same) f, (ann, hint, n))
    | inr f ↦ absurd (ok-ne-err (rw f at e))
  ]

  call_error :
      (d : RouteDecorator h) (func : Value h) (routes : List (Route h)) (x : RegisterError)
      → call py d func routes ≡ err x
      → check_annotation py d.status_code func ≡ err x
  unfolding call
  call_error d func routes x e = go (check_annotation py d.status_code func) e
    where
      go :
          (t : Registered (Unit {0}))
          → push_route routes func (route_of py d func) t ≡ err x
          → t ≡ err x
      go (ok u) q = cc
      go (err y) q = cc

  -- `__call__` fails on an annotation exactly when the status code is 204, 304 or informational and the
  -- handler has a return annotation that is not `None`, does not equal `None`, and is not printed as
  -- `None` or its class.
  pub call-rejects_iff :
      (d : RouteDecorator h) (func : Value h) (routes : List (Route h)) (sc : ℤ)
      → (call py d func routes ≡ err (RegisterError.non_none_annotation sc)) ↔ (
          (d.status_code ≡ some sc)
          × Bodiless sc
          × ((ann : Value h) × (py.return_hint func ≡ some ann) × NotNone ann))
  call-rejects_iff d func routes sc = (
    (λ e.
        let (s, f, (ann, hint, n)) =
          annotation_rejects d.status_code func sc (call_error d func routes _ e) in
        (s, forbids_content-Bodiless sc f, (ann, hint, is_none_type-NotNone ann n))),
    (λ (s, b, (ann, hint, n)).
        unfold call check_annotation in
        rw (s, Bodiless-forbids_content sc b, hint, NotNone-is_none_type ann n)),
  )
