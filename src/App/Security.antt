-- ===== src/App/Security.antt =====
-- crates/fr-pyiface/src/app.rs: `extract_route_security`, which reads what the Python layer's
-- `extract_security_info` returns. A missing key panics, which Python sees as an exception.
use hyperfastapi.Prelude.{◌≡◌, refl, ap, Option, none, some, List, [], ◌∷◌, map}
use hyperfastapi.Prelude.Text.{Str, bytes, str_eq}
use hyperfastapi.Value.{
  Host, Value, Items, nil, cons, str, dict, list, tuple, other, items, entries,
}
use hyperfastapi.Body.{dict_get}
use hyperfastapi.Route.{SecurityEntry, Plan}
use hyperfastapi.App.Summary.{security_summary}

abbrev and_rest {ℓ} : {A : Type ℓ} → Option A → Option (List A) → Option (List A)
and_rest (some a) (some rest) = some (a ∷ rest)
and_rest _ _ = none

module _ {h : Host} where
  abbrev text : Value h → Option Str
  text (str s) = some s
  text _ = none

  unfoldable strings : Items h → Option (List Str)
  strings nil = some []
  strings (cons v vs) = and_rest (text v) (strings vs)

strings-items : (h : Host) (ss : List Str) → strings {h = h} (items (map (λ s. str s) ss)) ≡ some ss
unfolding strings items
strings-items h [] = refl
strings-items h (s ∷ ss) = ap (and_rest (some s)) (strings-items h ss)

module _ {h : Host} (obj_strings : h.Obj → Option (List Str)) where
  -- `extract::<Vec<String>>()`
  unfoldable to_strings : Value h → Option (List Str)
  unfolding strings
  to_strings (list vs) = strings vs
  to_strings (tuple vs) = strings vs
  to_strings (other o) = obj_strings o
  to_strings _ = none

  abbrev and_text : Option (Value h) → Option Str
  and_text none = none
  and_text (some v) = text v

  abbrev and_strings : Option (Value h) → Option (List Str)
  and_strings none = none
  and_strings (some v) = to_strings v

  abbrev security_entry :
      Option Str → Option (List Str) → Option (Value h) → Option (SecurityEntry h)
  security_entry (some name) (some scopes) (some model) =
      some (record { scheme_name = name; scopes = scopes; model = model })
  security_entry _ _ _ = none

  unfoldable read_entry : Value h → Option (SecurityEntry h)
  unfolding to_strings dict_get
  read_entry (dict d) =
      security_entry (and_text (dict_get (bytes "scheme_name") d))
        (and_strings (dict_get (bytes "scopes") d)) (dict_get (bytes "model") d)
  read_entry _ = none

  unfoldable read_entries : Items h → Option (List (SecurityEntry h))
  unfolding read_entry
  read_entries nil = some []
  read_entries (cons v vs) = and_rest (read_entry v) (read_entries vs)

  abbrev read_result : Option (Value h) → Option (List (SecurityEntry h))
  read_result (some (list vs)) = read_entries vs
  read_result _ = none

  -- `extract_security_info` of the Python layer is the first argument.
  unfoldable pub extract_route_security :
      (Plan h → List (Value h) → Option (Value h))
      → Plan h
      → List (Value h)
      → Option (List (SecurityEntry h))
  unfolding read_entries
  extract_route_security extract_security_info plan deps =
      read_result (extract_security_info plan deps)

  read_entry-summary : (s : SecurityEntry h) → read_entry (security_summary s) ≡ some s
  unfolding read_entry security_summary to_strings dict_get entries bytes str_eq
  read_entry-summary s = rw (strings-items h s.scopes) refl

  read_entries-summaries :
      (ss : List (SecurityEntry h))
      → read_entries (items (map (λ s. security_summary s) ss)) ≡ some ss
  unfolding read_entries items
  read_entries-summaries [] = refl
  read_entries-summaries (s ∷ ss) =
      rw (read_entry-summary s) (ap (and_rest (some s)) (read_entries-summaries ss))

  -- What `_routes_summary` writes of a route's security is what `extract_route_security` reads: a list
  -- of such summaries gives back the entries, in order.
  pub extract_route_security-summary :
      (info : Plan h → List (Value h) → Option (Value h)) (plan : Plan h) (deps : List (Value h))
      (ss : List (SecurityEntry h))
      → info plan deps ≡ some (list (items (map (λ s. security_summary s) ss)))
      → extract_route_security info plan deps ≡ some ss
  unfolding extract_route_security
  extract_route_security-summary info plan deps ss e = rw e (read_entries-summaries ss)
