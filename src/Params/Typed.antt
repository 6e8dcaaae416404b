-- ===== src/Params/Typed.antt =====
-- The values that `cast_scalar` gives have the type that their kind stands for.
use hyperfastapi.Prelude.{
  ◌≡◌, refl, Bool, true, false, Option, none, some, List, [], ◌∷◌, All, if-cases,
}
use hyperfastapi.Prelude.Int.{ℤ, fits_i64}
use hyperfastapi.Prelude.Text.{Str, bytes, str_eq, str_eq_iff, to_ascii_lowercase}
use hyperfastapi.Value.{Host, Value, Items, nil, cons, int, float, bool, str}
use hyperfastapi.Params.Errors.{ValidationErrorEntry, Checked, ok, err, ◌>>=◌}
use hyperfastapi.Params.Parse.{parse_i64}
use hyperfastapi.Params.Parse.Laws.{parse_i64_iff}
use hyperfastapi.Params.Cast.{
  is_true_word, is_false_word, Coercions, parsed, cast_int, cast_float, cast_bool, cast_uuid,
  cast_scalar,
}
use hyperfastapi.Params.Extract.{cast_all}

-- A successful result satisfies the predicate.
pub data OnOk {A : Type 0} (P : A → Type 0) : Checked A → Type 0 where
  holds : {a : A} → P a → OnOk P (ok a)
  fails : {e : ValidationErrorEntry} → OnOk P (err e)

pub bind-OnOk :
    {A B : Type 0} (Q : A → Type 0) (P : B → Type 0) (m : Checked A) (k : A → Checked B)
    → OnOk Q m
    → ((a : A) → m ≡ ok a → Q a → OnOk P (k a))
    → OnOk P (m >>= k)
bind-OnOk Q P (ok a) k (holds q) f = f a refl q
bind-OnOk Q P (err e) k fails f = fails

parsed-OnOk :
    {A B : Type 0} (P : B → Type 0) (f : A → B) (e : ValidationErrorEntry) (o : Option A)
    → ((a : A) → o ≡ some a → P (f a))
    → OnOk P (parsed f e o)
parsed-OnOk P f e none h = fails
parsed-OnOk P f e (some a) h = holds (h a refl)

-- The scalar kinds that are not text.
abbrev cast_kinds : List Str
cast_kinds = bytes "int" ∷ bytes "float" ∷ bytes "bool" ∷ bytes "uuid" ∷ []

module _ {h : Host} (py : Coercions h) where
  -- The Python type that a kind stands for.
  pub data HasKind (kind : Str) : Value h → Type 0 where
    whole : {z : ℤ} → kind ≡ bytes "int" → fits_i64 z ≡ true → HasKind kind (int z)
    real : {x : h.F64} → kind ≡ bytes "float" → HasKind kind (float x)
    truth : {b : Bool} → kind ≡ bytes "bool" → HasKind kind (bool b)
    uuid_of : {t : Str} {v : Value h} → kind ≡ bytes "uuid" → py.uuid t ≡ some v → HasKind kind v
    text : {t : Str} → All (λ k. str_eq kind k ≡ false) cast_kinds → HasKind kind (str t)

  abbrev pub AllHaveKind : Str → Items h → Type 0
  AllHaveKind kind nil = Unit
  AllHaveKind kind (cons v l) = HasKind kind v × AllHaveKind kind l

  abbrev Fits : Str → Checked (Value h) → Type 0
  Fits kind = OnOk (HasKind kind)

  cast_int-HasKind :
      (raw kind loc name : Str)
      → str_eq kind (bytes "int") ≡ true
      → Fits kind (cast_int py raw loc name)
  unfolding cast_int
  cast_int-HasKind raw kind loc name e =
      parsed-OnOk (HasKind kind) int _ (parse_i64 raw)
        (λ z there. whole ((str_eq_iff kind (bytes "int")).0 e) ((parse_i64_iff raw z).0 there).1)

  cast_float-HasKind :
      (raw kind loc name : Str)
      → str_eq kind (bytes "float") ≡ true
      → Fits kind (cast_float py raw loc name)
  unfolding cast_float
  cast_float-HasKind raw kind loc name e =
      parsed-OnOk (HasKind kind) float _ (py.parse_f64 raw)
        (λ x there. real ((str_eq_iff kind (bytes "float")).0 e))

  cast_bool-HasKind :
      (raw kind loc name : Str)
      → str_eq kind (bytes "bool") ≡ true
      → Fits kind (cast_bool py raw loc name)
  unfolding cast_bool
  cast_bool-HasKind raw kind loc name e =
      let is_bool = (str_eq_iff kind (bytes "bool")).0 e in
      if-cases (Fits kind) (is_true_word (to_ascii_lowercase raw)) _ _ (λ _. holds (truth is_bool))
        (λ _.
          if-cases (Fits kind) (is_false_word (to_ascii_lowercase raw)) _ _
            (λ _. holds (truth is_bool)) (λ _. fails))

  cast_uuid-HasKind :
      (raw kind loc name : Str)
      → str_eq kind (bytes "uuid") ≡ true
      → Fits kind (cast_uuid py raw loc name)
  unfolding cast_uuid
  cast_uuid-HasKind raw kind loc name e =
      if-cases (Fits kind) py.uuid_module _ _
        (λ _.
          if-cases (Fits kind) py.uuid_class _ _
            (λ _.
              parsed-OnOk (HasKind kind) (λ v. v) _ (py.uuid raw)
                (λ v there. uuid_of ((str_eq_iff kind (bytes "uuid")).0 e) there))
            (λ _. fails))
        (λ _. fails)

  pub cast_scalar-HasKind :
      (raw kind source name : Str) → Fits kind (cast_scalar py raw kind source name)
  unfolding cast_scalar
  cast_scalar-HasKind raw kind source name =
      if-cases (Fits kind) (str_eq kind (bytes "int")) _ _ (cast_int-HasKind raw kind _ name) (λ a.
        if-cases (Fits kind) (str_eq kind (bytes "float")) _ _ (cast_float-HasKind raw kind _ name)
          (λ b.
            if-cases (Fits kind) (str_eq kind (bytes "bool")) _ _
              (cast_bool-HasKind raw kind _ name)
              (λ c.
                if-cases (Fits kind) (str_eq kind (bytes "uuid")) _ _
                  (cast_uuid-HasKind raw kind _ name) (λ d. holds (text (a, (b, (c, (d, tt)))))))))

  pub cast_all-HasKind :
      (raws : List Str) (kind source name : Str)
      → OnOk (AllHaveKind kind) (cast_all py raws kind source name)
  unfolding cast_all
  cast_all-HasKind [] kind source name = holds tt
  cast_all-HasKind (raw ∷ raws) kind source name =
      bind-OnOk (HasKind kind) (AllHaveKind kind) (cast_scalar py raw kind source name) _
        (cast_scalar-HasKind raw kind source name)
        (λ v _ fits.
          bind-OnOk (AllHaveKind kind) (AllHaveKind kind) (cast_all py raws kind source name) _
            (cast_all-HasKind raws kind source name) (λ l _ all. holds (fits, all)))
