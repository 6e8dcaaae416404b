-- ===== src/Path/Matching.antt =====
-- The matcher decides the relation `Matches`, for every template and path.
use hyperfastapi.Prelude.{
  ◌≡◌, refl, sym, ap, ◌∙◌, subst, ◌↔◌, true, false, Option, none, some, List, [], ◌∷◌, ◌++◌, arith,
  append_assoc, append-nil, Bool-cases, Option-cases, some_eq, some-ne-none, All, inl, inr,
  if◌then◌else◌,
}
use hyperfastapi.Prelude.Text.{
  Str, str_eq, str_eq_iff, str_eq_refl, contains, split, join, starts_with,
}
use hyperfastapi.Prelude.Text.Split.{split_injective, split-contains_ne}
use hyperfastapi.Path.{Params, placeholder, is_catch_all, match_segs, match_path_template}
use hyperfastapi.Path.Spec.{Matches, finish, literal, segment, catch_all}

-- What the loop adds to its accumulator.
abbrev Added : List Str → List Str → Params → Params → Type 0
Added ts ps acc out = (vs : Params) × Matches ts ps vs × (out ≡ acc ++ vs)

module _ (t p : Str) (ts ps : List Str) (acc : Params) where
  step_literal :
      placeholder t ≡ none
      → str_eq p t ≡ true
      → match_segs (t ∷ ts) (p ∷ ps) acc ≡ match_segs ts ps acc
  unfolding match_segs
  step_literal e h = ground arith

  step_differs : placeholder t ≡ none → str_eq p t ≡ false → match_segs (t ∷ ts) (p ∷ ps) acc ≡ none
  unfolding match_segs
  step_differs e h = ground arith

  module _ (name : Str) (hint : Option Str) where
    step_segment :
        placeholder t ≡ some (name, hint)
        → is_catch_all hint ≡ false
        → match_segs (t ∷ ts) (p ∷ ps) acc ≡ match_segs ts ps (acc ++ (name, p) ∷ [])
    unfolding match_segs
    step_segment e h = ground arith

    step_catch_all :
        placeholder t ≡ some (name, hint)
        → is_catch_all hint ≡ true
        → match_segs (t ∷ ts) (p ∷ ps) acc ≡ some (acc ++ (name, join b'/' (p ∷ ps)) ∷ [])
    unfolding match_segs
    step_catch_all e h = ground arith

sound_step :
    (t p : Str) (ts ps : List Str) (acc out : Params)
    → match_segs (t ∷ ts) (p ∷ ps) acc ≡ some out
    → (match_segs ts ps acc ≡ some out → Added ts ps acc out)
    → ((v : Str × Str)
        → match_segs ts ps (acc ++ v ∷ []) ≡ some out
        → Added ts ps (acc ++ v ∷ []) out)
    → Added (t ∷ ts) (p ∷ ps) acc out
sound_step t p ts ps acc out e plain more = elim (Option-cases (placeholder t)) [
  | inl lit ↦ elim (Bool-cases (str_eq p t)) [
    | inl same ↦
        let (vs, m, q) = plain (sym (step_literal t p ts ps acc lit same) ∙ e) in
        (
          vs,
          subst (λ x. Matches (t ∷ ts) (x ∷ ps) vs) (sym ((str_eq_iff p t).0 same)) (literal lit m),
          q,
        )
    | inr other ↦ absurd (some-ne-none (sym e ∙ step_differs t p ts ps acc lit other))
  ]
  | inr ((name, hint), e0) ↦ elim (Bool-cases (is_catch_all hint)) [
    | inl all ↦ (
      (name, join b'/' (p ∷ ps)) ∷ [],
      catch_all e0 all,
      some_eq (sym e ∙ step_catch_all t p ts ps acc name hint e0 all),
    )
    | inr one ↦
        let (vs, m, q) = more (name, p) (sym (step_segment t p ts ps acc name hint e0 one) ∙ e) in
        ((name, p) ∷ vs, segment e0 one m, q ∙ append_assoc acc ((name, p) ∷ []) vs)
  ]
]

match_segs_sound :
    (ts ps : List Str) (acc out : Params) → match_segs ts ps acc ≡ some out → Added ts ps acc out
match_segs_sound [] [] acc out e = ([], finish, unfold match_segs in rw append-nil (cc))
match_segs_sound [] (p ∷ ps) acc out e = unfold match_segs in cc
match_segs_sound (t ∷ ts) [] acc out e = unfold match_segs in cc
match_segs_sound (t ∷ ts) (p ∷ ps) acc out e =
    sound_step t p ts ps acc out e (match_segs_sound ts ps acc out)
      (λ v. match_segs_sound ts ps (acc ++ v ∷ []) out)

match_segs_complete :
    {ts ps : List Str} {vs : Params} (acc : Params)
    → Matches ts ps vs
    → match_segs ts ps acc ≡ some (acc ++ vs)
match_segs_complete acc finish = unfold match_segs in rw append-nil
match_segs_complete acc (literal {t = t} {ts = ts} {ps = ps} e m) =
    step_literal t t ts ps acc e (str_eq_refl t) ∙ match_segs_complete acc m
match_segs_complete acc
      (segment {t = t} {p = p} {name = name} {hint = hint} {ts = ts} {ps = ps} {vs = vs} e one m) =
    step_segment t p ts ps acc name hint e one
    ∙ match_segs_complete (acc ++ (name, p) ∷ []) m
    ∙ ap some (append_assoc acc ((name, p) ∷ []) vs)
match_segs_complete acc
      (catch_all {t = t} {p = p} {name = name} {hint = hint} {ts = ts} {ps = ps} e all) =
    step_catch_all t p ts ps acc name hint e all

-- A text without a brace is no placeholder.
no_brace : (t : Str) → contains b'{' t ≡ false → placeholder t ≡ none
unfolding placeholder contains starts_with
no_brace [] h = refl
no_brace (b ∷ t) h = ground arith

no_braces :
    (ts : List Str) → All (λ t. contains b'{' t ≡ false) ts → All (λ t. placeholder t ≡ none) ts
no_braces [] h = tt
no_braces (t ∷ ts) (p, h) = (no_brace t p, no_braces ts h)

Matches-refl : (ts : List Str) → All (λ t. placeholder t ≡ none) ts → Matches ts ts []
Matches-refl [] h = finish
Matches-refl (t ∷ ts) (e, h) = literal e (Matches-refl ts h)

Matches-literals :
    {ts ps : List Str} {vs : Params}
    → Matches ts ps vs
    → All (λ t. placeholder t ≡ none) ts
    → (ts ≡ ps) × (vs ≡ [])
Matches-literals finish h = (refl, refl)
Matches-literals (literal {t = t} e m) (_, h) =
    let (same, no_params) = Matches-literals m h in (ap (λ r. t ∷ r) same, no_params)
Matches-literals (segment e one m) (e', h) = cc
Matches-literals (catch_all e all) (e', h) = cc

match_plain_iff :
    (template path : Str) (vs : Params)
    → contains b'{' template ≡ false
    → ((if str_eq template path then some [] else none) ≡ some vs)
      ↔ Matches (split b'/' template) (split b'/' path) vs
match_plain_iff template path vs plain = (
  (λ e.
      let same : template ≡ path = ground (arith, str_eq_iff template path) in
      let empty : vs ≡ [] = ground arith in
      rw (empty, ← same) (Matches-refl (split b'/' template) lits)),
  (λ m.
      let (same, empty) = Matches-literals m lits in
      rw (empty, (str_eq_iff template path).1 (split_injective b'/' template path same)) refl),
)
  where
    lits : All (λ t. placeholder t ≡ none) (split b'/' template)
    lits = no_braces (split b'/' template) (split-contains_ne b'/' b'{' template plain)

-- A request path matches a template with the parameters `vs` exactly when the segments do, in the
-- sense of `Matches`; templates without a brace, which the code compares whole, included.
pub match_path_template_iff :
    (template path : Str) (vs : Params)
    → (match_path_template template path ≡ some vs)
      ↔ Matches (split b'/' template) (split b'/' path) vs
unfolding match_path_template
match_path_template_iff template path vs = elim (Bool-cases (contains b'{' template)) [
  | inl braces ↦ rw braces (
    (λ e.
        let (found, m, q) = match_segs_sound _ _ [] vs e in
        subst (λ x. Matches (split b'/' template) (split b'/' path) x) (sym q) m),
    (λ m. match_segs_complete [] m),
  )
  | inr plain ↦ rw plain (match_plain_iff template path vs plain)
]
