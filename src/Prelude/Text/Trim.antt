-- ===== src/Prelude/Text/Trim.antt =====
-- `str::trim`: white space as Unicode has it, read from the UTF-8 bytes.
use Prim.Native.Nat.{ℕ}
use mathlib.Core.Bool.{Bool, true, false, ◌&&◌, ◌||◌}
use mathlib.Core.List.{[], ◌∷◌, reverse}
use hyperfastapi.Prelude.Tests.{leb, ◌==◌}
use hyperfastapi.Prelude.Text.{Str}

-- White_Space characters of one, two and three bytes.
is_space1 : ℕ → Bool
is_space1 a = leb 9 a && leb a 13 || a == 32

is_space2 : ℕ → ℕ → Bool
is_space2 a b = a == 0xC2 && (b == 0x85 || b == 0xA0)

is_space3 : ℕ → ℕ → ℕ → Bool
is_space3 a b c =
    a == 0xE1 && b == 0x9A && c == 0x80
    || a == 0xE2 && b == 0x80 && (leb 0x80 c && leb c 0x8A || c == 0xA8 || c == 0xA9 || c == 0xAF)
    || a == 0xE2 && b == 0x81 && c == 0x9F
    || a == 0xE3 && b == 0x80 && c == 0x80

trim_start : Str → Str
trim_start [] = []
trim_start (a ∷ []) = elim (is_space1 a) [ true ↦ [] | false ↦ a ∷ [] ]
trim_start (a ∷ b ∷ []) = elim (is_space1 a) [
  | true ↦ trim_start (b ∷ [])
  | false ↦ elim (is_space2 a b) [ true ↦ [] | false ↦ a ∷ b ∷ [] ]
]
trim_start (a ∷ b ∷ c ∷ s) = elim (is_space1 a) [
  | true ↦ trim_start (b ∷ c ∷ s)
  | false ↦ elim (is_space2 a b) [
    | true ↦ trim_start (c ∷ s)
    | false ↦ elim (is_space3 a b c) [ true ↦ trim_start s | false ↦ a ∷ b ∷ c ∷ s ]
  ]
]

-- The same at the end, over the reversed bytes.
trim_end_reversed : Str → Str
trim_end_reversed [] = []
trim_end_reversed (a ∷ []) = elim (is_space1 a) [ true ↦ [] | false ↦ a ∷ [] ]
trim_end_reversed (b ∷ a ∷ []) = elim (is_space1 b) [
  | true ↦ trim_end_reversed (a ∷ [])
  | false ↦ elim (is_space2 a b) [ true ↦ [] | false ↦ b ∷ a ∷ [] ]
]
trim_end_reversed (c ∷ b ∷ a ∷ s) = elim (is_space1 c) [
  | true ↦ trim_end_reversed (b ∷ a ∷ s)
  | false ↦ elim (is_space2 b c) [
    | true ↦ trim_end_reversed (a ∷ s)
    | false ↦ elim (is_space3 a b c) [ true ↦ trim_end_reversed s | false ↦ c ∷ b ∷ a ∷ s ]
  ]
]

unfoldable pub trim : Str → Str
unfolding trim_start trim_end_reversed is_space1 is_space2 is_space3
trim s = reverse (trim_end_reversed (reverse (trim_start s)))
