-- ===== src/Params/Validate/Laws.antt =====
-- Which values the validators accept, and where they place an error.
use hyperfastapi.Prelude.{
  ◌≡◌, ◌≢◌, ◌≤◌, ℕ, refl, sym, ap, ◌∙◌, subst, ◌↔◌, Bool, true, false, not, Option, none, some,
  arith, ltb, if◌then◌else◌, some_eq,
}
use hyperfastapi.Prelude.Text.{Str, bytes, chars_count, str_eq}
use hyperfastapi.Value.{
  Host, Value, null, bool, int, float, str, surrogates, dict, list, tuple, other,
}
use hyperfastapi.Route.{Validators}
use hyperfastapi.Route.Decorator.{as_text}
use hyperfastapi.Params.Errors.{
  ValidationErrorEntry, validator_source, cast_source, missing, generic, Checked, ok, err, ◌>>◌,
}
use hyperfastapi.Params.Cast.{Coercions}
use hyperfastapi.Params.Validate.{require, matches, run_validators}

abbrev Passes {ℓ κ} : {A : Type ℓ} {B : Type κ} → Option A → Option B → (A → B → Bool) → Type 0
Passes (some bound) (some v) test = test bound v ≡ true
Passes none _ test = Unit
Passes (some bound) none test = Unit

require_iff {ℓ κ} :
    {A : Type ℓ} {B : Type κ} (bound : Option A) (v : Option B) (test : A → B → Bool)
    (e : ValidationErrorEntry)
    → (require bound v test e ≡ ok tt) ↔ Passes bound v test
unfolding require
require_iff none v test e = ((λ _. tt), (λ _. refl))
require_iff (some a) none test e = ((λ _. tt), (λ _. refl))
require_iff (some a) (some b) test e = ((λ q. ground arith), (λ q. rw q))

then_iff :
    {P Q : Type 0} (m k : Checked (Unit {0}))
    → (m ≡ ok tt) ↔ P
    → (k ≡ ok tt) ↔ Q
    → ((m >> k) ≡ ok tt) ↔ (P × Q)
then_iff (ok t) k p q = ((λ e. (p.0 refl, q.0 e)), (λ r. q.1 r.1))
then_iff (err x) k p q = ((λ e. cc), (λ r. absurd (err-ne-ok (p.1 r.0))))
  where
    err-ne-ok : {x : ValidationErrorEntry} → ◌≡◌ {A = Checked (Unit {0})} (err x) (ok tt) → ⊥
    err-ne-ok e = cc

-- A constraint on a value, as a statement.
Passes-iff {ℓ κ} :
    {A : Type ℓ} {B : Type κ} (bound : Option A) (v : Option B) (test : A → B → Bool)
    → Passes bound v test ↔ ((a : A) (b : B) → bound ≡ some a → v ≡ some b → test a b ≡ true)
Passes-iff none v test = ((λ _ a b e. cc), (λ _. tt))
Passes-iff (some x) none test = ((λ _ a b e f. cc), (λ _. tt))
Passes-iff (some x) (some y) test = (
  (λ p a b e f. ap (λ c. test c b) (some_eq (sym e)) ∙ ap (test x) (some_eq (sym f)) ∙ p),
  (λ f. f x y refl refl),
)

module _ {h : Host} (py : Coercions h) where
  open py use {lt_f64, le_f64, to_f64, fullmatch}

  -- All seven constraints. Those on numbers speak only of values that can be read as a float, those
  -- on texts only of texts; and a text that the pattern cannot be tried on passes.
  pub record Meets (value : Value h) (v : Validators h) : Type 0 where
    pub above :
        (bound x : h.F64) → v.gt ≡ some bound → to_f64 value ≡ some x → lt_f64 bound x ≡ true
    pub at_least :
        (bound x : h.F64) → v.ge ≡ some bound → to_f64 value ≡ some x → le_f64 bound x ≡ true
    pub below :
        (bound x : h.F64) → v.lt ≡ some bound → to_f64 value ≡ some x → lt_f64 x bound ≡ true
    pub at_most :
        (bound x : h.F64) → v.le ≡ some bound → to_f64 value ≡ some x → le_f64 x bound ≡ true
    pub long_enough : (n : ℕ) (t : Str) → v.min_length ≡ some n → value ≡ str t → n ≤ chars_count t
    pub short_enough : (n : ℕ) (t : Str) → v.max_length ≡ some n → value ≡ str t → chars_count t ≤ n
    pub like : (p t : Str) → v.pattern ≡ some p → value ≡ str t → fullmatch p t ≢ some false

  abbrev Tested : Value h → Validators h → Type 0
  Tested value v =
      Passes v.gt (to_f64 value) (λ gt x. lt_f64 gt x)
      × (Passes v.ge (to_f64 value) (λ ge x. le_f64 ge x)
          × (Passes v.lt (to_f64 value) (λ lt x. lt_f64 x lt)
              × (Passes v.le (to_f64 value) (λ le x. le_f64 x le)
                  × (Passes v.min_length (as_text value) (λ n t. not (ltb (chars_count t) n))
                      × (Passes v.max_length (as_text value) (λ n t. not (ltb n (chars_count t)))
                          × Passes v.pattern (as_text value) (λ p t. matches (fullmatch p t)))))))

  run_validators-Tested :
      (value : Value h) (v : Validators h) (source name raw : Str)
      → (run_validators py value v source name raw ≡ ok tt) ↔ Tested value v
  unfolding run_validators
  run_validators-Tested value v source name raw = then_iff _ _ (require_iff v.gt _ _ _) (
      then_iff _ _ (require_iff v.ge _ _ _) (
        then_iff _ _ (require_iff v.lt _ _ _) (
          then_iff _ _ (require_iff v.le _ _ _) (
            then_iff _ _ (require_iff v.min_length _ _ _)
              (then_iff _ _ (require_iff v.max_length _ _ _) (require_iff v.pattern _ _ _))))))

  as_text_inv : (value : Value h) (t : Str) → as_text value ≡ some t → value ≡ str t
  as_text_inv (str s) t e = ap str (some_eq e)
  as_text_inv null t e = cc
  as_text_inv (bool _) t e = cc
  as_text_inv (int _) t e = cc
  as_text_inv (float _) t e = cc
  as_text_inv (surrogates _) t e = cc
  as_text_inv (dict _) t e = cc
  as_text_inv (list _) t e = cc
  as_text_inv (tuple _) t e = cc
  as_text_inv (other _) t e = cc

  matches_iff : (o : Option Bool) → (matches o ≡ true) ↔ (o ≢ some false)
  matches_iff none = ((λ _ e. cc), (λ _. refl))
  matches_iff (some true) = ((λ _ e. cc), (λ _. refl))
  matches_iff (some false) = ((λ e. cc), (λ f. absurd (f refl)))

  Tested-Meets : (value : Value h) (v : Validators h) → Tested value v → Meets value v
  Tested-Meets value v (gt, (ge, (lt, (le, (min, (max, pat)))))) = record {
    above = (Passes-iff v.gt (to_f64 value) _).0 gt;
    at_least = (Passes-iff v.ge (to_f64 value) _).0 ge;
    below = (Passes-iff v.lt (to_f64 value) _).0 lt;
    at_most = (Passes-iff v.le (to_f64 value) _).0 le;
    long_enough = λ n t bound text.
        let p = (Passes-iff v.min_length (as_text value) _).0 min n t bound (ap as_text text) in
        ground (arith, p);
    short_enough = λ n t bound text.
        let p = (Passes-iff v.max_length (as_text value) _).0 max n t bound (ap as_text text) in
        ground (arith, p);
    like = λ p t bound text.
        (matches_iff (fullmatch p t)).0
          ((Passes-iff v.pattern (as_text value) _).0 pat p t bound (ap as_text text));
  }

  Meets-Tested : (value : Value h) (v : Validators h) → Meets value v → Tested value v
  Meets-Tested value v m = (
    (Passes-iff v.gt (to_f64 value) _).1 m.above,
    (
      (Passes-iff v.ge (to_f64 value) _).1 m.at_least,
      (
        (Passes-iff v.lt (to_f64 value) _).1 m.below,
        (
          (Passes-iff v.le (to_f64 value) _).1 m.at_most,
          (
            (Passes-iff v.min_length (as_text value) _).1 (λ n t bound e.
                let p = m.long_enough n t bound (as_text_inv value t e) in ground (arith, p)),
            (
              (Passes-iff v.max_length (as_text value) _).1 (λ n t bound e.
                  let p = m.short_enough n t bound (as_text_inv value t e) in ground (arith, p)),
              (Passes-iff v.pattern (as_text value) _).1 (λ p t bound e.
                  (matches_iff (fullmatch p t)).1 (m.like p t bound (as_text_inv value t e))),
            ),
          ),
        ),
      ),
    ),
  )

  -- The validators accept a value exactly when a value that can be read as a float lies within the
  -- four bounds that are set, and a text has at least and at most the numbers of characters that are
  -- set, and `fullmatch` does not answer that it fails the pattern. A constraint on a value of another
  -- kind is not tested, and a pattern whose match raises counts as met.
  pub run_validators_iff :
      (value : Value h) (v : Validators h) (source name raw : Str)
      → (run_validators py value v source name raw ≡ ok tt) ↔ Meets value v
  run_validators_iff value v source name raw = (
    (λ e. Tested-Meets value v ((run_validators-Tested value v source name raw).0 e)),
    (λ m. (run_validators-Tested value v source name raw).1 (Meets-Tested value v m)),
  )

-- Every error that a step reports is about `name`, at the place `loc`, with the input `raw`.
abbrev Located : Str → Str → Str → Checked (Unit {0}) → Type 0
Located loc name raw (ok _) = Unit
Located loc name raw (err e) = (e.loc ≡ (loc, name)) × (e.input ≡ raw)

require-Located {ℓ κ} :
    {A : Type ℓ} {B : Type κ} (bound : Option A) (v : Option B) (test : A → B → Bool)
    (loc name raw t m : Str)
    → Located loc name raw (require bound v test (generic loc name raw t m))
unfolding require generic
require-Located none v test loc name raw t m = tt
require-Located (some a) none test loc name raw t m = tt
require-Located (some a) (some b) test loc name raw t m = go (test a b)
  where
    go : (c : Bool) → Located loc name raw (if c then ok tt else err (generic loc name raw t m))
    go true = tt
    go false = (refl, refl)

then-Located :
    (loc name raw : Str) (m k : Checked (Unit {0}))
    → Located loc name raw m
    → Located loc name raw k
    → Located loc name raw (m >> k)
then-Located loc name raw (ok t) k p q = q
then-Located loc name raw (err e) k p q = p

module _ {h : Host} (py : Coercions h) where
  run_validators-Located :
      (value : Value h) (v : Validators h) (source name raw : Str)
      → Located (validator_source source) name raw (run_validators py value v source name raw)
  unfolding run_validators
  run_validators-Located value v source name raw =
      let step =
        λ (m k : Checked (Unit {0})). then-Located (validator_source source) name raw m k in
      step _ _ (require-Located v.gt _ _ _ name raw _ _) (
        step _ _ (require-Located v.ge _ _ _ name raw _ _) (
          step _ _ (require-Located v.lt _ _ _ name raw _ _) (
            step _ _ (require-Located v.le _ _ _ name raw _ _) (
              step _ _ (require-Located v.min_length _ _ _ name raw _ _) (
                step _ _ (require-Located v.max_length _ _ _ name raw _ _)
                  (require-Located v.pattern _ _ _ name raw _ _))))))

  -- A constraint that fails on a form field is reported at "query", not at "body", where a missing
  -- form field and one that does not parse are reported.
  pub form_constraint_at_query :
      (value : Value h) (v : Validators h) (name raw : Str) (e : ValidationErrorEntry)
      → run_validators py value v (bytes "body") name raw ≡ err e
      → (e.loc ≡ (bytes "query", name))
        × (cast_source (bytes "body") ≡ bytes "body")
        × ((missing (bytes "body") name).loc ≡ (bytes "body", name))
  unfolding validator_source cast_source missing bytes str_eq
  form_constraint_at_query value v name raw e q =
      let at : Located (validator_source (bytes "body")) name raw (err e) =
        subst (Located (validator_source (bytes "body")) name raw) q
          (run_validators-Located value v (bytes "body") name raw) in
      (at.0, refl, refl)
