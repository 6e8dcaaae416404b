-- ===== src/Path/Tests.antt =====
-- Runs of the matcher, and instances of its theorems.
use hyperfastapi.Prelude.{◌≡◌, refl, ◌↔◌, none, some, [], ◌∷◌}
use hyperfastapi.Prelude.Text.{
  bytes, split, join, split_once, str_eq, starts_with, ends_with, contains,
}
use hyperfastapi.Path.{placeholder, is_catch_all, match_path_template, Params}
use hyperfastapi.Path.Spec.{Matches, fill, names}
use hyperfastapi.Path.Matching.{match_path_template_iff}
use hyperfastapi.Path.Filling.{IsPlain}

matcher : Unit {0}
unfolding match_path_template placeholder is_catch_all contains split split_once str_eq starts_with
    ends_with bytes join fill names
matcher = tt

abbrev item_params : Params
item_params = (bytes "item_id", bytes "42") ∷ []

item_matches : match_path_template (bytes "/items/{item_id}") (bytes "/items/42") ≡ some item_params
unfolding matcher
item_matches = refl

file_matches :
    match_path_template (bytes "/files/{file_path:path}") (bytes "/files/a/b.txt")
    ≡ some ((bytes "file_path", bytes "a/b.txt") ∷ [])
unfolding matcher
file_matches = refl

shorter_path : match_path_template (bytes "/items/{item_id}") (bytes "/items") ≡ none
unfolding matcher
shorter_path = refl

longer_path : match_path_template (bytes "/items/{item_id}") (bytes "/items/4/x") ≡ none
unfolding matcher
longer_path = refl

match_path_template_iff_example :
    (match_path_template (bytes "/items/{item_id}") (bytes "/items/42") ≡ some item_params)
    ↔ Matches (split b'/' (bytes "/items/{item_id}")) (split b'/' (bytes "/items/42")) item_params
match_path_template_iff_example =
    match_path_template_iff (bytes "/items/{item_id}") (bytes "/items/42") item_params

item_IsPlain : IsPlain (split b'/' (bytes "/items/{item_id}"))
unfolding matcher
item_IsPlain = (refl, (refl, (refl, tt)))
