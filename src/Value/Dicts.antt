-- ===== src/Value/Dicts.antt =====
-- Laws of the dicts with string keys.
use hyperfastapi.Prelude.{
  ◌≡◌, refl, Bool, true, some, List, [], ◌∷◌, arith, if◌then◌else◌, is_some, All, if-cases,
}
use hyperfastapi.Prelude.Text.{Str, str_eq, str_eq_iff, str_eq_refl}
use hyperfastapi.Value.{Host, Value, Kwargs, set_item, get_item}

pub get_item-set_item {ℓ} :
    {V : Type ℓ} (k j : Str) (v : V) (m : List (Str × V))
    → get_item j (set_item k v m) ≡ (if str_eq k j then some v else get_item j m)
unfolding get_item set_item
get_item-set_item k j v [] = refl
get_item-set_item k j v ((i, w) ∷ m) =
    ground (arith, str_eq_iff k j, str_eq_iff i k, str_eq_iff i j, get_item-set_item k j v m)

abbrev pub has : {h : Host} → Str → Kwargs h → Bool
has k m = is_some (get_item k m)

pub has-set_item_self :
    {h : Host} (k : Str) (v : Value h) (m : Kwargs h) → has k (set_item k v m) ≡ true
has-set_item_self k v m = ground (arith, get_item-set_item k k v m, str_eq_refl k)

pub has-set_item :
    {h : Host} (k j : Str) (v : Value h) (m : Kwargs h)
    → has j m ≡ true
    → has j (set_item k v m) ≡ true
has-set_item k j v m e = ground (arith, get_item-set_item k j v m)

pub All-set_item :
    {h : Host} (P : Str × Value h → Type 0) (k : Str) (v : Value h) (m : Kwargs h)
    → P (k, v)
    → All P m
    → All P (set_item k v m)
unfolding set_item
All-set_item P k v [] p q = (p, tt)
All-set_item P k v ((j, w) ∷ m) p (q, qs) =
    if-cases (All P) (str_eq j k) _ _ (λ _. (p, qs)) (λ _. (q, All-set_item P k v m p qs))
