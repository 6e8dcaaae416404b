-- ===== src/Path/Spec.antt =====
-- When a path matches a template, as a relation between the segments, with no loop, no
-- accumulator and no shortcut for templates without a brace.
use hyperfastapi.Prelude.{◌≡◌, true, false, Option, none, some, List, [], ◌∷◌, if◌then◌else◌}
use hyperfastapi.Prelude.Text.{Str, join}
use hyperfastapi.Path.{Params, placeholder, is_catch_all}

pub data Matches : List Str → List Str → Params → Type 0 where
  finish : Matches [] [] []
  literal :
      {t : Str} {ts ps : List Str} {vs : Params}
      → placeholder t ≡ none
      → Matches ts ps vs
      → Matches (t ∷ ts) (t ∷ ps) vs
  segment :
      {t p name : Str} {hint : Option Str} {ts ps : List Str} {vs : Params}
      → placeholder t ≡ some (name, hint)
      → is_catch_all hint ≡ false
      → Matches ts ps vs
      → Matches (t ∷ ts) (p ∷ ps) ((name, p) ∷ vs)
  catch_all :
      {t p name : Str} {hint : Option Str} {ts ps : List Str}
      → placeholder t ≡ some (name, hint)
      → is_catch_all hint ≡ true
      → Matches (t ∷ ts) (p ∷ ps) ((name, join b'/' (p ∷ ps)) ∷ [])

-- The segments of a template with its placeholders replaced, in order, by the values. Nothing
-- after a catch-all counts.
abbrev pub fill_step : Option (Str × Option Str) → Str → (Params → List Str) → Params → List Str
fill_step none t rest vs = t ∷ rest vs
fill_step (some (_, hint)) t rest [] = []
fill_step (some (_, hint)) t rest ((_, v) ∷ vs) = v ∷ (if is_catch_all hint then [] else rest vs)

unfoldable pub fill : List Str → Params → List Str
fill [] vs = []
fill (t ∷ ts) vs = fill_step (placeholder t) t (λ r. fill ts r) vs

-- The names of the placeholders up to the first catch-all, in order.
abbrev pub name_step : Option (Str × Option Str) → List Str → List Str
name_step none rest = rest
name_step (some (name, hint)) rest = name ∷ (if is_catch_all hint then [] else rest)

unfoldable pub names : List Str → List Str
names [] = []
names (t ∷ ts) = name_step (placeholder t) (names ts)
