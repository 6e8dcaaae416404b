-- ===== src/Value.antt =====
-- Python objects as the extension sees them through PyO3's `downcast` and `extract`
-- (crates/fr-pyiface/src/json_fast.rs, app.rs): one constructor for each branch that the Rust code
-- tells apart. A `dict` keeps its entries in insertion order.
pub mod Dicts
use hyperfastapi.Prelude.{Bool, true, false, Option, none, some, List, [], ◌∷◌, if◌then◌else◌}
use hyperfastapi.Prelude.Int.{ℤ}
use hyperfastapi.Prelude.Text.{Str, str_eq}

-- What Python and the platform supply: floats, and objects that Rust passes on unopened.
pub record Host : Type 1 where
  pub F64 : Type 0
  pub Obj : Type 0

mutual
  pub data Value (h : Host) : Type 0 where
    null : Value h
    bool : Bool → Value h
    int : ℤ → Value h
    float : h.F64 → Value h
    str : Str → Value h
    -- a `str` with lone surrogates, which has no UTF-8 form
    surrogates : h.Obj → Value h
    dict : Entries h → Value h
    list : Items h → Value h
    tuple : Items h → Value h
    other : h.Obj → Value h

  pub data Items (h : Host) : Type 0 where
    nil : Items h
    cons : Value h → Items h → Items h

  pub data Entries (h : Host) : Type 0 where
    end : Entries h
    entry : Value h → Value h → Entries h → Entries h

-- The items of a list that Rust builds.
unfoldable pub items : {h : Host} → List (Value h) → Items h
items [] = nil
items (v ∷ vs) = cons v (items vs)

-- A dict with string keys that Rust builds, all keys distinct.
unfoldable pub entries : {h : Host} → List (Str × Value h) → Entries h
entries [] = end
entries ((k, v) ∷ kvs) = entry (str k) v (entries kvs)

abbrev pub Kwargs : Host → Type 0
Kwargs h = List (Str × Value h)

-- `dict.set_item(k, v)` on a dict with string keys.
unfoldable pub set_item {ℓ} : {V : Type ℓ} → Str → V → List (Str × V) → List (Str × V)
set_item k v [] = (k, v) ∷ []
set_item k v ((j, w) ∷ m) = if str_eq j k then (k, v) ∷ m else (j, w) ∷ set_item k v m

-- `dict.get_item(k)` on a dict with string keys, also with values of another type.
unfoldable pub get_item {ℓ} : {V : Type ℓ} → Str → List (Str × V) → Option V
get_item k [] = none
get_item k ((j, v) ∷ m) = if str_eq j k then some v else get_item k m
