-- ===== src/Path.antt =====
-- crates/fr-pyiface/src/app.rs: `match_path_template`. A template's segments and a path's segments
-- are the pieces between slashes; the loop's two indices move together, so it is a recursion on
-- the two lists of segments that are left.
pub mod Spec
pub mod Matching
pub mod Filling
pub mod Building
pub mod Tests
use hyperfastapi.Prelude.{
  Bool, true, false, ◌&&◌, Option, none, some, List, [], ◌∷◌, ◌++◌, ◌-◌, length, take, drop,
  if◌then◌else◌, ℕ,
}
use hyperfastapi.Prelude.Text.{
  Str, bytes, contains, split, join, split_once, str_eq, starts_with, ends_with,
}

abbrev pub Params : Type 0
Params = List (Str × Str)

-- `{name}` or `{name:hint}`, with the text between the braces cut at the first colon.
placeholder_parts : Str → Str × Option Str
placeholder_parts inner = elim (split_once b':' inner) [
  | some (n, ty) ↦ (n, some ty)
  | none ↦ (inner, none)
]

unfoldable pub placeholder : Str → Option (Str × Option Str)
unfolding placeholder_parts
placeholder t_seg =
    if starts_with t_seg (b'{' ∷ []) && ends_with t_seg (b'}' ∷ [])
    then some (placeholder_parts (take (length t_seg - 2) (drop 1 t_seg)))
    else none

unfoldable pub is_catch_all : Option Str → Bool
is_catch_all none = false
is_catch_all (some ty) = str_eq ty (bytes "path")

unfoldable pub match_segs : List Str → List Str → Params → Option Params
match_segs [] [] params = some params
match_segs [] (_ ∷ _) params = none
match_segs (t ∷ ts) [] params = none
match_segs (t ∷ ts) (p ∷ ps) params = elim (placeholder t) [
  | some (name, type_hint) ↦ elim (is_catch_all type_hint) [
    | true ↦ some (params ++ (name, join b'/' (p ∷ ps)) ∷ [])
    | false ↦ match_segs ts ps (params ++ (name, p) ∷ [])
  ]
  | none ↦ elim (str_eq p t) [ true ↦ match_segs ts ps params | false ↦ none ]
]

unfoldable pub match_path_template : Str → Str → Option Params
unfolding match_segs
match_path_template template path =
    if contains b'{' template
    then match_segs (split b'/' template) (split b'/' path) []
    else if str_eq template path
    then some []
    else none
