-- ===== src/Path/Filling.antt =====
-- What the captured parameters are: their names, their values, and the path that they give back.
use hyperfastapi.Prelude.{
  ◌≡◌, refl, ap, sym, ◌∙◌, Bool, true, false, Option, none, some, List, [], ◌∷◌, ◌++◌, map, All,
  is_empty,
}
use hyperfastapi.Prelude.Text.{Str, contains, split, join}
use hyperfastapi.Prelude.Text.Split.{join-split, split-contains}
use hyperfastapi.Path.{Params, placeholder, is_catch_all, match_path_template}
use hyperfastapi.Path.Spec.{Matches, finish, literal, segment, catch_all, fill, names}
use hyperfastapi.Path.Matching.{match_path_template_iff}

abbrev JoinsAlike : List Str → List Str → Type 0
JoinsAlike xs ys = (join b'/' xs ≡ join b'/' ys) × (is_empty xs ≡ is_empty ys)

JoinsAlike-cons : (p : Str) (xs ys : List Str) → JoinsAlike xs ys → JoinsAlike (p ∷ xs) (p ∷ ys)
unfolding join
JoinsAlike-cons p [] [] h = (refl, refl)
JoinsAlike-cons p (x ∷ xs) (y ∷ ys) (e, _) = (ap (λ r. p ++ b'/' ∷ r) e, refl)
JoinsAlike-cons p [] (y ∷ ys) (_, h) = cc
JoinsAlike-cons p (x ∷ xs) [] (_, h) = cc

fill-Matches : {ts ps : List Str} {vs : Params} → Matches ts ps vs → JoinsAlike (fill ts vs) ps
unfolding fill
fill-Matches finish = (refl, refl)
fill-Matches (literal {t = t} {ts = ts} {ps = ps} {vs = vs} e m) =
    rw e (JoinsAlike-cons t (fill ts vs) ps (fill-Matches m))
fill-Matches (segment {p = p} {ts = ts} {ps = ps} {vs = vs} e one m) =
    rw (e, one) (JoinsAlike-cons p (fill ts vs) ps (fill-Matches m))
fill-Matches (catch_all e all) = rw (e, all) (unfold join in (refl, refl))

-- Putting the captured values into the template's placeholders gives the request path back.
pub join-fill-match :
    (template path : Str) (vs : Params)
    → match_path_template template path ≡ some vs
    → join b'/' (fill (split b'/' template) vs) ≡ path
join-fill-match template path vs e =
    (fill-Matches ((match_path_template_iff template path vs).0 e)).0 ∙ join-split b'/' path

names-Matches : {ts ps : List Str} {vs : Params} → Matches ts ps vs → map (λ v. v.0) vs ≡ names ts
unfolding names
names-Matches finish = refl
names-Matches (literal e m) = rw e (names-Matches m)
names-Matches (segment {name = name} e one m) = rw (e, one) (ap (λ r. name ∷ r) (names-Matches m))
names-Matches (catch_all e all) = rw (e, all)

-- The parameters carry the names of the template's placeholders, in the template's order.
pub names-match :
    (template path : Str) (vs : Params)
    → match_path_template template path ≡ some vs
    → map (λ v. v.0) vs ≡ names (split b'/' template)
names-match template path vs e = names-Matches ((match_path_template_iff template path vs).0 e)

abbrev pub captures_rest : Option (Str × Option Str) → Bool
captures_rest none = false
captures_rest (some (_, hint)) = is_catch_all hint

-- No catch-all among the placeholders of a template.
abbrev pub IsPlain : List Str → Type 0
IsPlain ts = All (λ t. captures_rest (placeholder t) ≡ false) ts

true-ne-false : true ≡ false → ⊥
true-ne-false e = cc

values-Matches :
    {ts ps : List Str} {vs : Params}
    → Matches ts ps vs
    → IsPlain ts
    → All (λ p. contains b'/' p ≡ false) ps
    → All (λ v. contains b'/' v.1 ≡ false) vs
values-Matches finish h k = tt
values-Matches (literal e m) (_, h) (_, k) = values-Matches m h k
values-Matches (segment e one m) (_, h) (q, k) = (q, values-Matches m h k)
values-Matches (catch_all {name = name} {hint = hint} e all) (plain, h) k =
    absurd (true-ne-false (sym all ∙ (rw e at plain)))

-- Where a template has no catch-all, no captured value holds a slash.
pub match-contains :
    (template path : Str) (vs : Params)
    → IsPlain (split b'/' template)
    → match_path_template template path ≡ some vs
    → All (λ v. contains b'/' v.1 ≡ false) vs
match-contains template path vs plain e =
    values-Matches ((match_path_template_iff template path vs).0 e) plain (split-contains b'/' path)
