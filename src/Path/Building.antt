-- ===== src/Path/Building.antt =====
-- A path that is built from a template by putting values into its placeholders is matched with them.
use hyperfastapi.Prelude.{
  ◌≡◌, ◌≢◌, refl, sym, subst, false, Option, none, some, List, [], ◌∷◌, map, All, Bool-cases, inl,
  inr, arith,
}
use hyperfastapi.Prelude.Text.{Str, contains, split, join}
use hyperfastapi.Prelude.Text.Split.{split-ne-nil, split-contains, split-join}
use hyperfastapi.Path.{Params, placeholder, is_catch_all, match_path_template}
use hyperfastapi.Path.Spec.{Matches, finish, literal, segment, fill, fill_step, names, name_step}
use hyperfastapi.Path.Matching.{match_path_template_iff}
use hyperfastapi.Path.Filling.{IsPlain, captures_rest}

Matches-fill_step :
    (o : Option (Str × Option Str)) (t : Str) (ts : List Str) (vs : Params)
    → placeholder t ≡ o
    → captures_rest o ≡ false
    → map (λ v. v.0) vs ≡ name_step o (names ts)
    → ((ws : Params) → map (λ v. v.0) ws ≡ names ts → Matches ts (fill ts ws) ws)
    → Matches (t ∷ ts) (fill_step o t (λ r. fill ts r) vs) vs
Matches-fill_step none t ts vs e plain named later = literal e (later vs named)
Matches-fill_step (some (name, hint)) t ts [] e plain named later = absurd (cc)
Matches-fill_step (some (name, hint)) t ts ((n, v) ∷ vs) e plain named later =
    let same : n ≡ name = ground (arith, named) in
    let rest : map (λ (w : Str × Str). w.0) vs ≡ names ts = ground (arith, named, plain) in
    rw plain (
      subst (λ k. Matches (t ∷ ts) (v ∷ fill ts vs) ((k, v) ∷ vs)) (sym same)
        (segment e plain (later vs rest)))

Matches-fill :
    (ts : List Str) (vs : Params)
    → map (λ v. v.0) vs ≡ names ts
    → IsPlain ts
    → Matches ts (fill ts vs) vs
unfolding fill names
Matches-fill [] [] named plain = finish
Matches-fill [] (v ∷ vs) named plain = absurd (cc)
Matches-fill (t ∷ ts) vs named (one, plain) =
    Matches-fill_step (placeholder t) t ts vs refl one named (λ ws k. Matches-fill ts ws k plain)

fill-ne-nil :
    (ts : List Str) (vs : Params) → ts ≢ [] → map (λ v. v.0) vs ≡ names ts → fill ts vs ≢ []
unfolding fill names
fill-ne-nil [] vs full named e = full refl
fill-ne-nil (t ∷ ts) vs full named e = go (placeholder t) vs named e
  where
    go :
        (o : Option (Str × Option Str)) (vs : Params)
        → map (λ v. v.0) vs ≡ name_step o (names ts)
        → fill_step o t (λ r. fill ts r) vs ≡ []
        → ⊥
    go none vs named e = cc
    go (some (name, hint)) [] named e = cc
    go (some (name, hint)) (v ∷ vs) named e = cc

fill-contains :
    (ts : List Str) (vs : Params)
    → All (λ t. contains b'/' t ≡ false) ts
    → All (λ v. contains b'/' v.1 ≡ false) vs
    → All (λ p. contains b'/' p ≡ false) (fill ts vs)
unfolding fill
fill-contains [] vs h k = tt
fill-contains (t ∷ ts) vs (one, h) k = go (placeholder t) vs k (λ ws. fill-contains ts ws h)
  where
    go :
        (o : Option (Str × Option Str)) (vs : Params)
        → All (λ v. contains b'/' v.1 ≡ false) vs
        → ((ws : Params)
            → All (λ v. contains b'/' v.1 ≡ false) ws
            → All (λ p. contains b'/' p ≡ false) (fill ts ws))
        → All (λ p. contains b'/' p ≡ false) (fill_step o t (λ r. fill ts r) vs)
    go none vs k later = (one, later vs k)
    go (some (name, hint)) [] k later = tt
    go (some (name, hint)) (v ∷ vs) (first, k) later = elim (Bool-cases (is_catch_all hint)) [
      | inl all ↦ rw all (first, tt)
      | inr some_more ↦ rw some_more (first, later vs k)
    ]

-- The path that a template without a catch-all becomes when its placeholders are filled with values
-- that hold no slash is matched by the template with these values.
pub match-fill :
    (template : Str) (vs : Params)
    → map (λ v. v.0) vs ≡ names (split b'/' template)
    → IsPlain (split b'/' template)
    → All (λ v. contains b'/' v.1 ≡ false) vs
    → match_path_template template (join b'/' (fill (split b'/' template) vs)) ≡ some vs
match-fill template vs named plain no_slash =
    (match_path_template_iff template (join b'/' (fill (split b'/' template) vs)) vs).1 (
      subst (λ ps. Matches (split b'/' template) ps vs) (sym pieces)
        (Matches-fill (split b'/' template) vs named plain))
  where
    pieces : split b'/' (join b'/' (fill (split b'/' template) vs)) ≡ fill (split b'/' template) vs
    pieces =
        split-join b'/' (fill (split b'/' template) vs)
          (fill-ne-nil (split b'/' template) vs (split-ne-nil b'/' template) named)
          (fill-contains (split b'/' template) vs (split-contains b'/' template) no_slash)
