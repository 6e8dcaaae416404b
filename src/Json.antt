-- ===== src/Json.antt =====
-- crates/fr-pyiface/src/json_fast.rs: the JSON encoder. `none` is `Err(())`: the caller falls back
-- to Python's encoder. The crates that format numbers (`itoa`, `ryu`) and Python's `str()` are
-- parameters.
pub mod Escape
pub mod Literal
pub mod Render
use hyperfastapi.Prelude.{
  ℕ, suc, ◌+◌, ◌-◌, ◌/◌, ◌%◌, Bool, true, false, ◌||◌, Option, none, some, List, [], ◌∷◌, ◌++◌,
  length, take, drop, ltb, leb, ◌==◌, if◌then◌else◌,
}
use hyperfastapi.Prelude.Int.{ℤ, fits_i64}
use hyperfastapi.Prelude.Text.{Str, bytes}
use hyperfastapi.Value.{
  Host, Value, Items, Entries, null, bool, int, float, str, surrogates, dict, list, tuple, other,
  nil, cons, end, entry,
}

pub record Formats (h : Host) : Type 0 where
  -- `itoa::Buffer::format`, `ryu::Buffer::format`
  pub itoa : ℤ → Str
  pub ryu : h.F64 → Str
  pub is_nan : h.F64 → Bool
  pub is_infinite : h.F64 → Bool
  -- Python's `str(value)`, which may raise
  pub to_text : Value h → Option Str

-- `out.extend_from_slice(s)`
abbrev extend : Str → Str → Str
extend out s = out ++ s

unfoldable pub hex_digits : Str
hex_digits = bytes "0123456789abcdef"

abbrev pub index_or : Str → ℕ → ℕ → ℕ
index_or s i d = elim (drop i s) [ [] ↦ d | b ∷ r ↦ b ]

-- The `match b` of `write_str`: `none` is `continue`, `some none` the control characters.
unfoldable pub escape_of : ℕ → Option (Option Str)
escape_of b =
    if b == b'"'
    then some (some (92 ∷ b'"' ∷ []))
    else if b == 92
    then some (some (92 ∷ 92 ∷ []))
    else if b == 10
    then some (some (92 ∷ b'n' ∷ []))
    else if b == 13
    then some (some (92 ∷ b'r' ∷ []))
    else if b == 9
    then some (some (92 ∷ b't' ∷ []))
    else if b == 8
    then some (some (92 ∷ b'b' ∷ []))
    else if b == 12
    then some (some (92 ∷ b'f' ∷ []))
    else if leb b 0x1f
    then some none
    else none

unfoldable pub escape_text : Option Str → ℕ → Str
unfolding hex_digits
escape_text (some esc) b = esc
escape_text none b =
    92
    ∷ b'u'
    ∷ b'0'
    ∷ b'0'
    ∷ index_or hex_digits (b / 16 % 16) 0
    ∷ index_or hex_digits (b % 16) 0
    ∷ []

-- `&bytes[start..i]`
abbrev pub slice : Str → ℕ → ℕ → Str
slice s start i = take (i - start) (drop start s)

-- The loop of `write_str` over the bytes that are left: `i` is the next byte's index, `start` the
-- first byte that is not flushed yet.
unfoldable pub escape_loop : Str → Str → ℕ → ℕ → Str → Str
escape_loop s [] i start out =
    if ltb start (length s) then extend out (slice s start (length s)) else out
escape_loop s (b ∷ rest) i start out = elim (escape_of b) [
  | none ↦ escape_loop s rest (suc i) start out
  | some esc ↦
      escape_loop s rest (suc i) (suc i)
        (extend (if ltb start i then extend out (slice s start i) else out) (escape_text esc b))
]

unfoldable pub write_str : Str → Str → Str
unfolding escape_loop escape_of escape_text
write_str s out = extend (escape_loop s s 0 0 (extend out (b'"' ∷ []))) (b'"' ∷ [])

abbrev bool_text : Bool → Str
bool_text b = if b then bytes "true" else bytes "false"

abbrev key_text : Option Str → Str → Option Str
key_text none out = none
key_text (some s) out = some (write_str s out)

-- `if !first { out.push(b',') }`
abbrev comma : Bool → Str → Str
comma first out = if first then out else extend out (b',' ∷ [])

infixl 5 ◌>>=◌
abbrev ◌>>=◌ : Option Str → (Str → Option Str) → Option Str
none >>= k = none
some out >>= k = k out

module _ {h : Host} (fmt : Formats h) where
  open fmt use {itoa, ryu, is_nan, is_infinite, to_text}

  unfoldable pub write_float : h.F64 → Str → Str
  write_float f out =
      if is_nan f || is_infinite f then extend out (bytes "null") else extend out (ryu f)

  unfoldable pub write_int : ℤ → Str → Option Str
  write_int n out = elim (fits_i64 n) [
    | true ↦ some (extend out (itoa n))
    | false ↦ elim (to_text (int n)) [ none ↦ none | some s ↦ some (extend out s) ]
  ]

  unfoldable pub write_key : Value h → Str → Option Str
  write_key (str s) out = some (write_str s out)
  write_key null out = some (write_str (bytes "null") out)
  write_key (bool b) out = some (write_str (bool_text b) out)
  write_key (int n) out = key_text (to_text (int n)) out
  write_key (float f) out = key_text (to_text (float f)) out
  write_key _ out = none

  unfoldable mutual
    unfolding write_key write_int write_float

    pub write_value : Value h → Str → Option Str
    write_value null out = some (extend out (bytes "null"))
    write_value (bool b) out = some (extend out (bool_text b))
    write_value (int n) out = write_int n out
    write_value (float f) out = some (write_float f out)
    write_value (str s) out = some (write_str s out)
    write_value (surrogates o) out = none
    write_value (dict d) out =
        write_entries d true (extend out (b'{' ∷ [])) >>= λ o. some (extend o (b'}' ∷ []))
    write_value (list l) out =
        write_items l true (extend out (b'[' ∷ [])) >>= λ o. some (extend o (b']' ∷ []))
    write_value (tuple l) out =
        write_items l true (extend out (b'[' ∷ [])) >>= λ o. some (extend o (b']' ∷ []))
    write_value (other o) out = none

    pub write_entries : Entries h → Bool → Str → Option Str
    write_entries end first out = some out
    write_entries (entry k v d) first out = write_key k (comma first out) >>= λ o.
        write_value v (extend o (b':' ∷ [])) >>= λ o'. write_entries d false o'

    pub write_items : Items h → Bool → Str → Option Str
    write_items nil first out = some out
    write_items (cons v l) first out =
        write_value v (comma first out) >>= λ o. write_items l false o

  unfoldable pub encode : Value h → Option Str
  encode value = write_value value []
