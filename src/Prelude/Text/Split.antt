-- ===== src/Prelude/Text/Split.antt =====
-- `split` and `join` undo one another, and no piece holds the separator.
use Prim.Native.Nat.{ℕ}
use mathlib.Core.Path.{◌≡◌, refl, sym, ap, ◌∙◌}
use mathlib.Core.Logic.{◌≢◌}
use mathlib.Core.Bool.{true, false}
use mathlib.Core.List.{List, [], ◌∷◌, ◌++◌}
use native.Mathlib.Omega.{arith}
use hyperfastapi.Prelude.Lists.{All}
use hyperfastapi.Prelude.Text.{Str, split, split_step, join, contains}

pub split-ne-nil : (c : ℕ) (s : Str) → split c s ≢ []
unfolding split
split-ne-nil c [] = ground arith
split-ne-nil c (b ∷ s) = ground arith

join-split_step :
    (c b : ℕ) (pieces : List Str)
    → pieces ≢ []
    → (join c (split_step true b pieces) ≡ c ∷ join c pieces)
      × (join c (split_step false b pieces) ≡ b ∷ join c pieces)
unfolding split_step join
join-split_step c b [] h = absurd (h refl)
join-split_step c b (p ∷ []) h = (refl, refl)
join-split_step c b (p ∷ q ∷ ps) h = (refl, refl)

pub join-split : (c : ℕ) (s : Str) → join c (split c s) ≡ s
unfolding split
join-split c [] = unfold join in refl
join-split c (b ∷ s) =
    let steps = join-split_step c b (split c s) (split-ne-nil c s) in
    ground (arith, join-split c s, steps.0, steps.1)

pub split_injective : (c : ℕ) (s t : Str) → split c s ≡ split c t → s ≡ t
split_injective c s t e = sym (join-split c s) ∙ ap (join c) e ∙ join-split c t

pub split-contains : (c : ℕ) (s : Str) → All (λ p. contains c p ≡ false) (split c s)
unfolding split contains
split-contains c [] = (refl, tt)
split-contains c (b ∷ s) = ground (arith, split-contains c s)

-- A byte that the text does not hold is in no piece.
pub split-contains_ne :
    (c d : ℕ) (s : Str) → contains d s ≡ false → All (λ p. contains d p ≡ false) (split c s)
unfolding split contains
split-contains_ne c d [] h = (refl, tt)
split-contains_ne c d (b ∷ s) h = ground (arith, split-contains_ne c d s)

split-append : (c : ℕ) (p s : Str) → contains c p ≡ false → split c (p ++ c ∷ s) ≡ p ∷ split c s
unfolding split split_step contains
split-append c [] s h = ground arith
split-append c (b ∷ p) s h = ground (arith, split-append c p s)

split-piece : (c : ℕ) (p : Str) → contains c p ≡ false → split c p ≡ p ∷ []
unfolding split split_step contains
split-piece c [] h = refl
split-piece c (b ∷ p) h = ground (arith, split-piece c p)

-- Joined pieces are split into themselves.
pub split-join :
    (c : ℕ) (ps : List Str)
    → ps ≢ []
    → All (λ p. contains c p ≡ false) ps
    → split c (join c ps) ≡ ps
unfolding join
split-join c [] full h = absurd (full refl)
split-join c (p ∷ []) full (h, _) = split-piece c p h
split-join c (p ∷ q ∷ ps) full (h, k) =
    split-append c p (join c (q ∷ ps)) h ∙ ap (λ r. p ∷ r) (split-join c (q ∷ ps) (λ e. cc) k)
