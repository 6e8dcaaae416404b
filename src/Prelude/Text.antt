-- ===== src/Prelude/Text.antt =====
-- Rust's `str` and `String` as the list of their bytes (UTF-8), with the operations of the
-- standard library that the program calls: `==`, `contains`, `split`, `join`, `trim`,
-- `split_once`, `starts_with`, `ends_with`, `to_ascii_lowercase`, `to_ascii_uppercase`,
-- `trim_end_matches`, `chars`.
pub mod Trim
pub mod Split
use Prim.Native.Nat.{ℕ, suc, ◌+◌, ◌-◌}
use Prim.Native.Char.{code}
use Prim.Native.String.{String}
use mathlib.Core.Path.{◌≡◌, refl}
use mathlib.Core.Logic.{◌↔◌}
use mathlib.Core.Bool.{Bool, true, false, ◌&&◌, ◌||◌, not}
use mathlib.Core.Option.{Option, none, some}
use mathlib.Core.List.{List, [], ◌∷◌, ◌++◌, map, reverse}
use native.Mathlib.Omega.{arith}
use hyperfastapi.Prelude.Tests.{leb, ◌==◌, if◌then◌else◌, unwrap_or}

abbrev pub Str : Type 0
Str = List ℕ

-- The bytes of an ASCII literal.
unfoldable pub bytes : String → Str
bytes String.[] = []
bytes (String.◌∷◌ c s) = code c ∷ bytes s

unfoldable pub str_eq : Str → Str → Bool
str_eq [] [] = true
str_eq (a ∷ s) (b ∷ t) = a == b && str_eq s t
str_eq _ _ = false

pub str_eq_iff : (s t : Str) → (str_eq s t ≡ true) ↔ (s ≡ t)
unfolding str_eq
str_eq_iff [] [] = ground arith
str_eq_iff (a ∷ s) (b ∷ t) = ground (arith, str_eq_iff s t)
str_eq_iff [] (b ∷ t) = ground arith
str_eq_iff (a ∷ s) [] = ground arith

pub str_eq_refl : (s : Str) → str_eq s s ≡ true
str_eq_refl s = (str_eq_iff s s).1 refl

-- `s.contains(c)` for a one-byte character.
unfoldable pub contains : ℕ → Str → Bool
contains c [] = false
contains c (b ∷ s) = b == c || contains c s

-- One byte more in front of what is split: a separator opens an empty piece.
split_step : Bool → ℕ → List Str → List Str
split_step true b pieces = [] ∷ pieces
split_step false b [] = (b ∷ []) ∷ []
split_step false b (p ∷ pieces) = (b ∷ p) ∷ pieces

-- `s.split(c)`: never empty.
unfoldable pub split : ℕ → Str → List Str
unfolding split_step
split c [] = [] ∷ []
split c (b ∷ s) = split_step (b == c) b (split c s)

-- `parts.join(c)`
unfoldable pub join : ℕ → List Str → Str
join c [] = []
join c (p ∷ []) = p
join c (p ∷ q ∷ ps) = p ++ c ∷ join c (q ∷ ps)

-- `s.split_once(c)`
unfoldable pub split_once : ℕ → Str → Option (Str × Str)
split_once c [] = none
split_once c (b ∷ s) = elim (b == c) [
  | true ↦ some ([], s)
  | false ↦ elim (split_once c s) [ none ↦ none | some (k, v) ↦ some (b ∷ k, v) ]
]

unfoldable pub starts_with : Str → Str → Bool
starts_with s [] = true
starts_with [] (p ∷ ps) = false
starts_with (b ∷ s) (p ∷ ps) = b == p && starts_with s ps

unfoldable pub ends_with : Str → Str → Bool
unfolding starts_with
ends_with s p = starts_with (reverse s) (reverse p)

unfoldable pub lower_byte : ℕ → ℕ
lower_byte b = if leb b'A' b && leb b b'Z' then b + 32 else b

unfoldable pub to_ascii_lowercase : Str → Str
unfolding lower_byte
to_ascii_lowercase s = map lower_byte s

unfoldable pub upper_byte : ℕ → ℕ
upper_byte b = if leb b'a' b && leb b b'z' then b - 32 else b

unfoldable pub to_ascii_uppercase : Str → Str
unfolding upper_byte
to_ascii_uppercase s = map upper_byte s

-- `s.chars().count()`: the bytes of UTF-8 that do not continue a character.
unfoldable pub chars_count : Str → ℕ
chars_count [] = 0
chars_count (b ∷ s) = (if leb 128 b && not (leb 192 b) then 0 else 1) + chars_count s

-- `s.replace(c, d)` for one-byte characters.
unfoldable pub replace : ℕ → ℕ → Str → Str
replace c d [] = []
replace c d (b ∷ s) = (if b == c then d else b) ∷ replace c d s

-- `s.strip_suffix(c)` for a one-byte character.
unfoldable pub strip_suffix : ℕ → Str → Option Str
strip_suffix c [] = none
strip_suffix c (b ∷ []) = if b == c then some [] else none
strip_suffix c (b ∷ d ∷ s) = elim (strip_suffix c (d ∷ s)) [ none ↦ none | some r ↦ some (b ∷ r) ]

-- `s.strip_prefix(p)`
unfoldable pub strip_prefix : Str → Str → Option Str
strip_prefix [] s = some s
strip_prefix (p ∷ ps) [] = none
strip_prefix (p ∷ ps) (b ∷ s) = elim (p == b) [ true ↦ strip_prefix ps s | false ↦ none ]

-- `s.trim_end_matches(c)`, from the last byte: `none` while only `c` has been seen.
trim_end_step : ℕ → ℕ → Option Str → Option Str
trim_end_step c b none = if b == c then none else some (b ∷ [])
trim_end_step c b (some r) = some (b ∷ r)

trim_end_from : ℕ → Str → Option Str
trim_end_from c [] = none
trim_end_from c (b ∷ s) = trim_end_step c b (trim_end_from c s)

unfoldable pub trim_end_matches : ℕ → Str → Str
unfolding trim_end_from trim_end_step
trim_end_matches c s = unwrap_or (trim_end_from c s) []
