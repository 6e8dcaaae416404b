-- ===== src/Prelude/Lists.antt =====
-- Lists measured and cut by native numbers, under the library's names, and Boolean searches.
use Prim.Native.Nat.{ℕ, zero, suc, ◌+◌}
use mathlib.Core.Path.{◌≡◌, refl, sym, ap, subst}
use mathlib.Core.Bool.{Bool, true, false, ◌||◌}
use mathlib.Core.List.{List, [], ◌∷◌, ◌++◌, Memᴰ}
use mathlib.Core.Option.{Option, none, some}
use native.Mathlib.Omega.{arith}
use hyperfastapi.Prelude.Tests.{◌==◌}

module _ {ℓ} {A : Type ℓ} where
  abbrev pub length : List A → ℕ
  length [] = 0
  length (x ∷ xs) = suc (length xs)

  abbrev pub take : ℕ → List A → List A
  take zero xs = []
  take (suc n) [] = []
  take (suc n) (x ∷ xs) = x ∷ take n xs

  abbrev pub drop : ℕ → List A → List A
  drop zero xs = xs
  drop (suc n) [] = []
  drop (suc n) (x ∷ xs) = drop n xs

  abbrev pub is_empty : List A → Bool
  is_empty [] = true
  is_empty (x ∷ xs) = false

  abbrev pub get_elem? : List A → ℕ → Option A
  get_elem? [] i = none
  get_elem? (x ∷ xs) zero = some x
  get_elem? (x ∷ xs) (suc i) = get_elem? xs i

  -- The element at an index replaced by its image; nothing changes out of range.
  unfoldable pub modify : ℕ → (A → A) → List A → List A
  modify i f [] = []
  modify zero f (x ∷ xs) = f x ∷ xs
  modify (suc i) f (x ∷ xs) = x ∷ modify i f xs

  abbrev pub any : (A → Bool) → List A → Bool
  any p [] = false
  any p (x ∷ xs) = p x || any p xs

  pub length-append : (xs ys : List A) → length (xs ++ ys) ≡ length xs + length ys
  length-append [] ys = omega arith
  length-append (x ∷ xs) ys = omega (arith, length-append xs ys)

  pub take-append_left : (xs ys : List A) → take (length xs) (xs ++ ys) ≡ xs
  take-append_left [] ys = refl
  take-append_left (x ∷ xs) ys = ap (λ r. x ∷ r) (take-append_left xs ys)

  pub drop-append_left : (xs ys : List A) → drop (length xs) (xs ++ ys) ≡ ys
  drop-append_left [] ys = refl
  drop-append_left (x ∷ xs) ys = drop-append_left xs ys

module _ {ℓ} {A : Type ℓ} where
  pub get_elem?-modify_self :
      (i : ℕ) (f : A → A) (xs : List A) (x : A)
      → get_elem? xs i ≡ some x
      → get_elem? (modify i f xs) i ≡ some (f x)
  unfolding modify
  get_elem?-modify_self i f [] x e = cc
  get_elem?-modify_self zero f (y ∷ xs) x e = cc
  get_elem?-modify_self (suc i) f (y ∷ xs) x e = get_elem?-modify_self i f xs x e

  pub get_elem?-modify_ne :
      (i j : ℕ) (f : A → A) (xs : List A)
      → (j == i) ≡ false
      → get_elem? (modify j f xs) i ≡ get_elem? xs i
  unfolding modify
  get_elem?-modify_ne i j f [] e = refl
  get_elem?-modify_ne zero zero f (y ∷ xs) e = absurd (cc)
  get_elem?-modify_ne (suc i) zero f (y ∷ xs) e = refl
  get_elem?-modify_ne zero (suc j) f (y ∷ xs) e = refl
  get_elem?-modify_ne (suc i) (suc j) f (y ∷ xs) e =
      get_elem?-modify_ne i j f xs (ground (arith, e))

  -- Elements are only added behind.
  pub get_elem?-append_left :
      (i : ℕ) (xs ys : List A) (x : A) → get_elem? xs i ≡ some x → get_elem? (xs ++ ys) i ≡ some x
  get_elem?-append_left i [] ys x e = cc
  get_elem?-append_left zero (y ∷ xs) ys x e = e
  get_elem?-append_left (suc i) (y ∷ xs) ys x e = get_elem?-append_left i xs ys x e

  pub get_elem?-append_length :
      (xs : List A) (x : A) → get_elem? (xs ++ x ∷ []) (length xs) ≡ some x
  get_elem?-append_length [] x = refl
  get_elem?-append_length (y ∷ xs) x = get_elem?-append_length xs x

-- What holds of every element.
abbrev pub All {ℓ κ} : {Item : Type ℓ} → (Item → Type κ) → List Item → Type κ
All Holds [] = Unit
All Holds (item ∷ rest) = Holds item × All Holds rest

pub All-map {ℓ κ μ} :
    {Item : Type ℓ} {Holds : Item → Type κ} {Also : Item → Type μ}
    → ((item : Item) → Holds item → Also item)
    → (items : List Item) → All Holds items
    → All Also items
All-map f [] p = tt
All-map f (item ∷ rest) (p, ps) = (f item p, All-map f rest ps)

pub All-member {ℓ κ} :
    {Item : Type ℓ} (Holds : Item → Type κ) (item : Item) (items : List Item)
    → All Holds items
    → Memᴰ item items
    → Holds item
All-member Holds item [] p mem = elim mem [ ]
All-member Holds item (x ∷ xs) (p, ps) (Memᴰ.head same) = subst Holds (sym same) p
All-member Holds item (x ∷ xs) (p, ps) (Memᴰ.tail mem) = All-member Holds item xs ps mem
