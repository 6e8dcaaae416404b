-- ===== src/Json/Render.antt =====
-- JSON texts built without a buffer: members joined by commas, strings escaped byte by byte. The
-- encoder, which threads one output buffer and a `first` flag, writes these texts.
use hyperfastapi.Prelude.{
  ℕ, ◌≡◌, refl, sym, ap, ◌∙◌, Bool, true, false, ◌||◌, Option, none, some, List, [], ◌∷◌, ◌++◌,
  append-nil, append_assoc, arith, if◌then◌else◌,
}
use mathlib.Core.Path.{fun_ext}
use hyperfastapi.Prelude.Int.{ℤ, fits_i64}
use hyperfastapi.Prelude.Text.{Str, bytes, join}
use hyperfastapi.Value.{
  Host, Value, Items, Entries, null, bool, int, float, str, surrogates, dict, list, tuple, other,
  nil, cons, end, entry,
}
use hyperfastapi.Json.{
  Formats, comma, key_text, ◌>>=◌, write_float, write_int, write_key, write_value, write_entries,
  write_items, encode,
}
use hyperfastapi.Json.Escape.{escape_all, write_str_lem}

unfoldable pub quote : Str → Str
quote s = b'"' ∷ (escape_all s ++ b'"' ∷ [])

abbrev map_text : (Str → Str) → Option Str → Option Str
map_text f none = none
map_text f (some s) = some (f s)

abbrev pair_text : Option Str → Option Str → Option Str
pair_text (some k) (some v) = some (k ++ b':' ∷ v)
pair_text none _ = none
pair_text (some k) none = none

abbrev cons_text : Option Str → Option (List Str) → Option (List Str)
cons_text (some p) (some ps) = some (p ∷ ps)
cons_text none _ = none
cons_text (some p) none = none

abbrev enclose : ℕ → ℕ → Option (List Str) → Option Str
enclose l r none = none
enclose l r (some ps) = some (l ∷ (join b',' ps ++ r ∷ []))

-- What follows in the buffer, before the first member and after one.
abbrev glue : Bool → List Str → Str
glue true ps = join b',' ps
glue false [] = []
glue false (p ∷ ps) = b',' ∷ join b',' (p ∷ ps)

glue-cons :
    (first : Bool) (out p : Str) (ps : List Str)
    → out ++ glue first (p ∷ ps) ≡ (comma first out ++ p) ++ glue false ps
unfolding join
glue-cons true out p [] = simp append-nil
glue-cons false out p [] = simp (append-nil, append_assoc)
glue-cons true out p (q ∷ ps) = simp (append_assoc)
glue-cons false out p (q ∷ ps) = simp (append_assoc)

abbrev after : Str → Option Str → Option Str
after out none = none
after out (some s) = some (out ++ s)

abbrev after_all : Bool → Str → Option (List Str) → Option Str
after_all first out none = none
after_all first out (some ps) = some (out ++ glue first ps)

key_text_lem : (name : Option Str) (out : Str) → key_text name out ≡ after out (map_text quote name)
unfolding quote
key_text_lem none out = refl
key_text_lem (some s) out = ap some (write_str_lem s out)

close_lem :
    (l r : ℕ) (out : Str) (ps : Option (List Str))
    → (after_all true (out ++ l ∷ []) ps >>= λ o. some (o ++ r ∷ [])) ≡ after out (enclose l r ps)
close_lem l r out none = refl
close_lem l r out (some ps) = simp append_assoc

step_lem :
    (first : Bool) (out : Str) (p : Option Str) (ps : Option (List Str))
    → (after (comma first out) p >>= λ o. after_all false o ps)
      ≡ after_all first out (cons_text p ps)
step_lem first out none ps = refl
step_lem first out (some p) none = refl
step_lem first out (some p) (some ps) = ap some (sym (glue-cons first out p ps))

after_nil : (s : Option Str) → after [] s ≡ s
after_nil none = refl
after_nil (some s) = refl

pair_lem :
    (first : Bool) (out : Str) (k v : Option Str) (ps : Option (List Str))
    → (after (comma first out) k >>= λ o. after (o ++ b':' ∷ []) v >>= λ o'. after_all false o' ps)
      ≡ after_all first out (cons_text (pair_text k v) ps)
pair_lem first out none v ps = refl
pair_lem first out (some k) none ps = refl
pair_lem first out (some k) (some v) none = refl
pair_lem first out (some k) (some v) (some ps) =
    ap some (simp append_assoc (sym (glue-cons first out (k ++ b':' ∷ v) ps ∙ simp append_assoc)))

module _ {h : Host} (fmt : Formats h) where
  open fmt use {itoa, ryu, is_nan, is_infinite, to_text}

  -- The name that a dict key becomes.
  unfoldable pub key_name : Value h → Option Str
  key_name (str s) = some s
  key_name null = some (bytes "null")
  key_name (bool b) = some (if b then bytes "true" else bytes "false")
  key_name (int n) = to_text (int n)
  key_name (float f) = to_text (float f)
  key_name _ = none

  unfoldable mutual
    unfolding quote key_name

    pub render : Value h → Option Str
    render null = some (bytes "null")
    render (bool b) = some (if b then bytes "true" else bytes "false")
    render (int n) = if fits_i64 n then some (itoa n) else to_text (int n)
    render (float f) = some (if is_nan f || is_infinite f then bytes "null" else ryu f)
    render (str s) = some (quote s)
    render (surrogates o) = none
    render (dict d) = enclose b'{' b'}' (members d)
    render (list l) = enclose b'[' b']' (elements l)
    render (tuple l) = enclose b'[' b']' (elements l)
    render (other o) = none

    pub members : Entries h → Option (List Str)
    members end = some []
    members (entry k v d) =
        cons_text (pair_text (map_text quote (key_name k)) (render v)) (members d)

    pub elements : Items h → Option (List Str)
    elements nil = some []
    elements (cons v l) = cons_text (render v) (elements l)

  write_key_lem :
      (k : Value h) (out : Str) → write_key fmt k out ≡ after out (map_text quote (key_name k))
  unfolding write_key key_name quote
  write_key_lem (str s) out = ap some (write_str_lem s out)
  write_key_lem null out = ap some (write_str_lem _ out)
  write_key_lem (bool b) out = ap some (write_str_lem _ out)
  write_key_lem (int n) out = key_text_lem (to_text (int n)) out
  write_key_lem (float f) out = key_text_lem (to_text (float f)) out
  write_key_lem (surrogates o) out = refl
  write_key_lem (dict d) out = refl
  write_key_lem (list l) out = refl
  write_key_lem (tuple l) out = refl
  write_key_lem (other o) out = refl

  write_int_lem :
      (n : ℤ) (out : Str)
      → write_int fmt n out ≡ after out (if fits_i64 n then some (itoa n) else to_text (int n))
  unfolding write_int
  write_int_lem n out = ground arith

  write_float_lem :
      (f : h.F64) (out : Str)
      → some (write_float fmt f out)
        ≡ after out (some (if is_nan f || is_infinite f then bytes "null" else ryu f))
  unfolding write_float
  write_float_lem f out = ground arith

  mutual
    unfolding write_value write_entries write_items render members elements join

    write_value_lem : (v : Value h) (out : Str) → write_value fmt v out ≡ after out (render v)
    write_value_lem null out = refl
    write_value_lem (bool b) out = refl
    write_value_lem (int n) out = write_int_lem n out
    write_value_lem (float f) out = write_float_lem f out
    write_value_lem (str s) out = ap some (write_str_lem s out)
    write_value_lem (surrogates o) out = refl
    write_value_lem (dict d) out =
        rw (write_entries_lem d true (out ++ b'{' ∷ [])) (close_lem b'{' b'}' out (members d))
    write_value_lem (list l) out =
        rw (write_items_lem l true (out ++ b'[' ∷ [])) (close_lem b'[' b']' out (elements l))
    write_value_lem (tuple l) out =
        rw (write_items_lem l true (out ++ b'[' ∷ [])) (close_lem b'[' b']' out (elements l))
    write_value_lem (other o) out = refl

    write_entries_lem :
        (d : Entries h) (first : Bool) (out : Str)
        → write_entries fmt d first out ≡ after_all first out (members d)
    write_entries_lem end true out = ap some (sym (append-nil out))
    write_entries_lem end false out = ap some (sym (append-nil out))
    write_entries_lem (entry k v d) first out =
        ap
          (λ m.
            m >>= λ o. write_value fmt v (o ++ b':' ∷ []) >>= λ o'. write_entries fmt d false o')
          (write_key_lem k (comma first out))
        ∙ ap (λ f. after (comma first out) (map_text quote (key_name k)) >>= f)
            (fun_ext λ o.
              ap (λ m. m >>= λ o'. write_entries fmt d false o')
                (write_value_lem v (o ++ b':' ∷ []))
              ∙ ap (λ f. after (o ++ b':' ∷ []) (render v) >>= f)
                  (fun_ext λ o'. write_entries_lem d false o'))
        ∙ pair_lem first out (map_text quote (key_name k)) (render v) (members d)

    write_items_lem :
        (l : Items h) (first : Bool) (out : Str)
        → write_items fmt l first out ≡ after_all first out (elements l)
    write_items_lem nil true out = ap some (sym (append-nil out))
    write_items_lem nil false out = ap some (sym (append-nil out))
    write_items_lem (cons v l) first out =
        ap (λ m. m >>= λ o. write_items fmt l false o) (write_value_lem v (comma first out))
        ∙ ap (λ f. after (comma first out) (render v) >>= f)
            (fun_ext λ o. write_items_lem l false o)
        ∙ step_lem first out (render v) (elements l)

  -- The encoder succeeds exactly where the unbuffered rendering is defined, with the same text.
  pub encode-render : (v : Value h) → encode fmt v ≡ render v
  unfolding encode
  encode-render v = write_value_lem v [] ∙ after_nil (render v)
