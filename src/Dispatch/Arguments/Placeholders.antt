-- ===== src/Dispatch/Arguments/Placeholders.antt =====
-- Path parameters that are declared as integers or as texts, through the loop over the plan.
use hyperfastapi.Prelude.{
  ◌≡◌, refl, ap, sym, ◌∙◌, true, false, none, some, List, [], ◌∷◌, ◌++◌, map, append_assoc,
  append-nil, All,
}
use hyperfastapi.Prelude.Int.{ℤ, fits_i64, show_int}
use hyperfastapi.Prelude.Text.{Str, bytes, str_eq, str_eq_refl, contains, starts_with}
use hyperfastapi.Value.{Host, Value, Kwargs, int, str, set_item}
use hyperfastapi.Path.{Params}
use hyperfastapi.Route.{ParamSpec, Plan, nil, cons, not_dict, spec}
use hyperfastapi.Params.Errors.{ok}
use hyperfastapi.Params.Cast.{Coercions, cast_scalar}
use hyperfastapi.Params.Parse.Printing.{show_int-contains, cast_scalar-show_int}
use hyperfastapi.Params.Extract.{value, Request, find_param, is_list_type, extract_one_param}
use hyperfastapi.Dispatch.Arguments.{collect_params}

-- What a caller puts into a placeholder.
pub data PathValue : Type 0 where
  whole : ℤ → PathValue
  text : Str → PathValue

abbrev pub written : PathValue → Str
written (whole z) = show_int z
written (text s) = s

abbrev pub kind : PathValue → Str
kind (whole z) = bytes "int"
kind (text s) = bytes "str"

-- An integer of an i64's range, or a text of one segment.
abbrev pub IsWritable : PathValue → Type 0
IsWritable (whole z) = fits_i64 z ≡ true
IsWritable (text s) = contains b'/' s ≡ false

abbrev pub PathValues : Type 0
PathValues = List (Str × PathValue)

abbrev pub AllWritable : PathValues → Type 0
AllWritable vs = All (λ v. IsWritable v.1) vs

-- The names differ.
abbrev pub Apart : Str → PathValues → Type 0
Apart n vs = All (λ v. str_eq n v.0 ≡ false) vs

abbrev pub AreDistinct : PathValues → Type 0
AreDistinct [] = Unit
AreDistinct (v ∷ vs) = Apart v.0 vs × AreDistinct vs

abbrev pub as_params : PathValues → Params
as_params vs = map (λ v. (v.0, written v.1)) vs

written-contains : (v : PathValue) → IsWritable v → contains b'/' (written v) ≡ false
written-contains (whole z) fits = show_int-contains z
written-contains (text s) h = h

pub as_params-contains :
    (vs : PathValues) → AllWritable vs → All (λ v. contains b'/' v.1 ≡ false) (as_params vs)
as_params-contains [] w = tt
as_params-contains (v ∷ vs) (one, w) = (written-contains v.1 one, as_params-contains vs w)

pub as_params-names : (vs : PathValues) → map (λ v. v.0) (as_params vs) ≡ map (λ v. v.0) vs
as_params-names [] = refl
as_params-names (v ∷ vs) = ap (λ r. v.0 ∷ r) (as_params-names vs)

find_param-later :
    (done : PathValues) (n : Str) (v : PathValue) (todo : PathValues)
    → All (λ d. str_eq d.0 n ≡ false) done
    → find_param n (as_params (done ++ (n, v) ∷ todo)) ≡ some (written v)
unfolding find_param
find_param-later [] n v todo h = rw (str_eq_refl n) refl
find_param-later (d ∷ done) n v todo (one, h) = rw one (find_param-later done n v todo h)

module _ {h : Host} where
  abbrev pub valued : PathValue → Value h
  valued (whole z) = int z
  valued (text s) = str s

  -- The arguments that the handler should receive.
  abbrev pub as_kwargs : PathValues → Kwargs h
  as_kwargs vs = map (λ v. (v.0, valued v.1)) vs

  -- An entry of the plan for one placeholder, with no further constraint.
  pub record Declares (s : ParamSpec h) (v : Str × PathValue) : Type 0 where
    pub named : s.name ≡ some (some v.0)
    pub sourced : s.source ≡ some (bytes "path")
    pub kinded : s.type_kind ≡ some (kind v.1)
    pub unconstrained : s.validators ≡ none

  -- The plan has one entry for each placeholder, in order, and no other.
  abbrev pub Declared : Plan h → PathValues → Type 0
  Declared nil [] = Unit
  Declared nil (v ∷ vs) = ⊥
  Declared (cons (not_dict x) plan) vs = ⊥
  Declared (cons (spec s dep_plan) plan) [] = ⊥
  Declared (cons (spec s dep_plan) plan) (v ∷ vs) = Declares s v × Declared plan vs

  set_item-fresh :
      (done : PathValues) (n : Str) (v : PathValue)
      → All (λ d. str_eq d.0 n ≡ false) done
      → set_item n (valued v) (as_kwargs done) ≡ as_kwargs (done ++ (n, v) ∷ [])
  unfolding set_item
  set_item-fresh [] n v h = refl
  set_item-fresh (d ∷ done) n v (one, h) =
      rw one (ap (λ r. (d.0, valued d.1) ∷ r) (set_item-fresh done n v h))

module _ {h : Host} (py : Coercions h) where
  cast_written :
      (v : PathValue) (source name : Str)
      → IsWritable v
      → cast_scalar py (written v) (kind v) source name ≡ ok (valued v)
  unfolding cast_scalar bytes str_eq
  cast_written (whole z) source name fits = cast_scalar-show_int py z source name fits
  cast_written (text s) source name h = refl

  kind-is_list_type : (v : PathValue) → is_list_type (kind v) ≡ false
  unfolding starts_with bytes
  kind-is_list_type (whole z) = refl
  kind-is_list_type (text s) = refl

  extract_path_value :
      (req : Request h) (s : ParamSpec h) (n : Str) (v : PathValue)
      → Declares s (n, v)
      → IsWritable v
      → find_param n req.path_params ≡ some (written v)
      → extract_one_param py req s ≡ ok (value n (valued v))
  unfolding extract_one_param bytes str_eq
  extract_path_value req s n v d fits found = simp (
    d.named,
    d.sourced,
    d.kinded,
    d.unconstrained,
    found,
    kind-is_list_type v,
    cast_written v (bytes "path") n fits,
  )

  heads :
      (n : Str) (v : PathValue) (todo done : PathValues)
      → All (λ d. Apart d.0 ((n, v) ∷ todo)) done
      → All (λ d. str_eq d.0 n ≡ false) done
  heads n v todo [] h = tt
  heads n v todo (d ∷ done) ((one, _), h) = (one, heads n v todo done h)

  tails :
      (n : Str) (v : PathValue) (todo done : PathValues)
      → All (λ d. Apart d.0 ((n, v) ∷ todo)) done
      → Apart n todo
      → All (λ d. Apart d.0 todo) (done ++ (n, v) ∷ [])
  tails n v todo [] h apart = (apart, tt)
  tails n v todo (d ∷ done) ((_, more), h) apart = (more, tails n v todo done h apart)

  pub collect_params-Declared :
      (req : Request h) (plan : Plan h) (done todo : PathValues)
      → Declared plan todo
      → AllWritable todo
      → AreDistinct todo
      → All (λ d. Apart d.0 todo) done
      → req.path_params ≡ as_params (done ++ todo)
      → collect_params py req plan (record { kwargs = as_kwargs done; errors = [] })
        ≡ record { kwargs = as_kwargs (done ++ todo); errors = [] }
  unfolding collect_params
  collect_params-Declared req nil done [] d w distinct apart e = rw append-nil refl
  collect_params-Declared req nil done (v ∷ todo) d w distinct apart e = absurd d
  collect_params-Declared req (cons (not_dict x) plan) done todo d w distinct apart e = absurd d
  collect_params-Declared req (cons (spec s dep_plan) plan) done [] d w distinct apart e = absurd d
  collect_params-Declared req (cons (spec s dep_plan) plan) done ((n, v) ∷ todo) (one, d) (fits, w)
        (fresh, distinct) apart e =
      let free = heads n v todo done apart in
      let found : find_param n req.path_params ≡ some (written v) =
        ap (find_param n) e ∙ find_param-later done n v todo free in
      let later =
        collect_params-Declared req plan (done ++ (n, v) ∷ []) todo d w distinct
          (tails n v todo done apart fresh)
          (e ∙ ap as_params (sym (append_assoc done ((n, v) ∷ []) todo))) in
      simp (
        extract_path_value req s n v one fits found,
        set_item-fresh done n v free,
        later,
        append_assoc,
      )
