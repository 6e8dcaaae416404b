-- ===== src/Dispatch/Request/Laws.antt =====
-- What the lookups hold.
use hyperfastapi.Prelude.{
  ◌≡◌, refl, sym, ap, ◌∙◌, Option, none, some, List, [], ◌∷◌, ◌++◌, arith, append-nil, append_assoc,
  if◌then◌else◌, or_option, Bool-cases, inl, inr,
}
use hyperfastapi.Prelude.Text.{Str, str_eq, str_eq_iff, split_once, to_ascii_lowercase}
use hyperfastapi.Prelude.Text.Trim.{trim}
use hyperfastapi.Value.{set_item, get_item}
use hyperfastapi.Value.Dicts.{get_item-set_item}
use hyperfastapi.Dispatch.Request.{
  Headers, HeaderLookup, add_header, add_headers, header_lookup, add_pair, add_chunks,
}

-- The values of all headers whose name is `key` in lower case, in the order of the request.
unfoldable pub values_of : Str → Headers → List Str
values_of key [] = []
values_of key ((k, v) ∷ hs) =
    if str_eq (to_ascii_lowercase k) key then v ∷ values_of key hs else values_of key hs

abbrev pub extended : Option (List Str) → List Str → Option (List Str)
extended (some vs) ws = some (vs ++ ws)
extended none [] = none
extended none (w ∷ ws) = some (w ∷ ws)

get_item-add_header :
    (key k v : Str) (m : HeaderLookup)
    → get_item key (add_header k v m) ≡ (
        if str_eq (to_ascii_lowercase k) key
        then extended (get_item (to_ascii_lowercase k) m) (v ∷ [])
        else get_item key m)
unfolding add_header
get_item-add_header key k v m = go (get_item (to_ascii_lowercase k) m) refl
  where
    go :
        (o : Option (List Str))
        → get_item (to_ascii_lowercase k) m ≡ o
        → get_item key (add_header k v m) ≡ (
            if str_eq (to_ascii_lowercase k) key
            then extended (get_item (to_ascii_lowercase k) m) (v ∷ [])
            else get_item key m)
    go none e = rw e (get_item-set_item (to_ascii_lowercase k) key (v ∷ []) m)
    go (some vs) e = rw e (get_item-set_item (to_ascii_lowercase k) key (vs ++ v ∷ []) m)

extended_append :
    (o : Option (List Str)) (vs ws : List Str) → extended (extended o vs) ws ≡ extended o (vs ++ ws)
extended_append (some us) vs ws = ap some (append_assoc us vs ws)
extended_append none [] ws = refl
extended_append none (v ∷ vs) ws = refl

extended_none : (o : Option (List Str)) → extended o [] ≡ o
extended_none none = refl
extended_none (some vs) = ap some (append-nil vs)

values_of-cons :
    (key k v : Str) (hs : Headers)
    → values_of key ((k, v) ∷ hs) ≡ values_of key ((k, v) ∷ []) ++ values_of key hs
unfolding values_of
values_of-cons key k v hs = ground arith

add_header_lem :
    (key k v : Str) (m : HeaderLookup)
    → get_item key (add_header k v m) ≡ extended (get_item key m) (values_of key ((k, v) ∷ []))
unfolding values_of
add_header_lem key k v m = elim (Bool-cases (str_eq (to_ascii_lowercase k) key)) [
  | inl same ↦
      get_item-add_header key k v m ∙ rw (same, (str_eq_iff (to_ascii_lowercase k) key).0 same) refl
  | inr other ↦ get_item-add_header key k v m ∙ rw other (sym (extended_none (get_item key m)))
]

add_headers_lem :
    (key : Str) (hs : Headers) (m : HeaderLookup)
    → get_item key (add_headers hs m) ≡ extended (get_item key m) (values_of key hs)
unfolding add_headers values_of
add_headers_lem key [] m = sym (extended_none (get_item key m))
add_headers_lem key ((k, v) ∷ hs) m =
    add_headers_lem key hs (add_header k v m)
    ∙ ap (λ o. extended o (values_of key hs)) (add_header_lem key k v m)
    ∙ extended_append (get_item key m) (values_of key ((k, v) ∷ [])) (values_of key hs)
    ∙ ap (extended (get_item key m)) (sym (values_of-cons key k v hs))

-- The header lookup finds under a key exactly the values of the headers whose name is the key in
-- lower case, in the order of the request, and nothing where there is none.
pub header_lookup_lem :
    (headers : Headers) (key : Str)
    → get_item key (header_lookup (some headers)) ≡ extended none (values_of key headers)
unfolding header_lookup get_item
header_lookup_lem headers key = add_headers_lem key headers []

-- The last chunk `name=value` of a list decides; `none` where there is none.
abbrev named : Str → Option (Str × Str) → Option Str → Option Str
named name none rest = rest
named name (some (k, v)) rest =
    or_option rest (if str_eq (trim k) name then some (trim v) else none)

unfoldable pub last_named : Str → List Str → Option Str
last_named name [] = none
last_named name (chunk ∷ chunks) =
    named name (split_once b'=' (trim chunk)) (last_named name chunks)

-- After the chunks of a Cookie header, a name has the trimmed value of the last chunk that bears it,
-- and what it had before where no chunk does.
pub add_chunks_lem :
    (name : Str) (chunks : List Str) (m : List (Str × Str))
    → get_item name (add_chunks chunks m) ≡ or_option (last_named name chunks) (get_item name m)
unfolding add_chunks last_named
add_chunks_lem name [] m = refl
add_chunks_lem name (chunk ∷ chunks) m =
    go (split_once b'=' (trim chunk)) (λ k. add_chunks_lem name chunks k)
  where
    go :
        (o : Option (Str × Str))
        → ((k : List (Str × Str))
            → get_item name (add_chunks chunks k)
              ≡ or_option (last_named name chunks) (get_item name k))
        → get_item name (add_chunks chunks (add_pair o m))
          ≡ or_option (named name o (last_named name chunks)) (get_item name m)
    go none ih = ih m
    go (some (k, v)) ih =
        ih (set_item (trim k) (trim v) m)
        ∙ ground (arith, get_item-set_item (trim k) name (trim v) m)
