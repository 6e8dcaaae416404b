-- ===== src/Json/Literal.antt =====
-- A reader of JSON string literals (RFC 8259, section 7), independent of the encoder, and the
-- round trip. The reader refuses raw control characters and unknown escapes; of the `\u` escapes
-- it reads those that stand for one byte of UTF-8.
use hyperfastapi.Prelude.{
  ℕ, zero, suc, ◌+◌, ◌-◌, ◌*◌, ◌/◌, ◌%◌, ◌<◌, ◌≡◌, refl, ap, ◌∙◌, Bool, true, false, ◌&&◌, Option,
  none, some, [], ◌∷◌, ◌++◌, append_assoc, arith, ltb, leb, ◌==◌, if◌then◌else◌, ==_iff, lt→ltb,
  holds_up_to, holds_up_to_lem,
}
use hyperfastapi.Prelude.Text.{Str, bytes}
use hyperfastapi.Json.{hex_digits, index_or, escape_of, escape_text, write_str}
use hyperfastapi.Json.Escape.{escaped, escape_all, write_str_lem}

-- Between two characters, after a backslash, or with that many hexadecimal digits to come after
-- the next, and their value so far.
pub data Mode : Type 0 where
  plain escape : Mode
  unicode : (left value : ℕ) → Mode

pub data Move : Type 0 where
  close fail : Move
  emit : ℕ → Move
  skip : Mode → Move

hex_value : ℕ → Option ℕ
hex_value b =
    if leb b'0' b && leb b b'9'
    then some (b - 48)
    else if leb b'a' b && leb b b'f'
    then some (b - 87)
    else if leb b'A' b && leb b b'F'
    then some (b - 55)
    else none

unescape : ℕ → Move
unescape b =
    if b == b'"'
    then emit b'"'
    else if b == 92
    then emit 92
    else if b == b'/'
    then emit b'/'
    else if b == b'b'
    then emit 8
    else if b == b'f'
    then emit 12
    else if b == b'n'
    then emit 10
    else if b == b'r'
    then emit 13
    else if b == b't'
    then emit 9
    else if b == b'u'
    then skip (unicode 3 0)
    else fail

digit : ℕ → ℕ → Option ℕ → Move
digit left value none = fail
digit zero value (some d) = if ltb (16 * value + d) 128 then emit (16 * value + d) else fail
digit (suc left) value (some d) = skip (unicode left (16 * value + d))

move : Mode → ℕ → Move
move plain b =
    if b == b'"' then close else if b == 92 then skip escape else if ltb b 32 then fail else emit b
move escape b = unescape b
move (unicode left value) b = digit left value (hex_value b)

abbrev mode_after : Move → Mode
mode_after (skip m) = m
mode_after _ = plain

put : ℕ → Option (Str × Str) → Option (Str × Str)
put b none = none
put b (some (s, rest)) = some (b ∷ s, rest)

settle : Move → Str → Option (Str × Str) → Option (Str × Str)
unfolding put
settle close rest more = some ([], rest)
settle fail rest more = none
settle (emit b) rest more = put b more
settle (skip m) rest more = more

-- The text of the literal whose opening quote has been read, and what follows its closing quote.
pub read_chars : Mode → Str → Option (Str × Str)
unfolding settle
read_chars m [] = none
read_chars m (b ∷ s) = let d = move m b in settle d s (read_chars (mode_after d) s)

unfoldable pub read_literal : Str → Option (Str × Str)
unfolding read_chars move digit unescape hex_value
read_literal [] = none
read_literal (b ∷ s) = if b == b'"' then read_chars plain s else none

is_digit_value : Option ℕ → ℕ → Bool
is_digit_value none n = false
is_digit_value (some d) n = d == n

hex_table : holds_up_to (λ n. is_digit_value (hex_value (index_or hex_digits n 0)) n) 16 ≡ true
unfolding hex_value hex_digits bytes holds_up_to is_digit_value
hex_table = refl

is_digit_value_eq : (o : Option ℕ) (n : ℕ) → is_digit_value o n ≡ true → o ≡ some n
unfolding is_digit_value
is_digit_value_eq none n h = cc
is_digit_value_eq (some d) n h = ap some ((==_iff d n).0 h)

hex_value-hex_digits : (n : ℕ) → n < 16 → hex_value (index_or hex_digits n 0) ≡ some n
hex_value-hex_digits n h =
    is_digit_value_eq _ n
      (holds_up_to_lem (λ k. is_digit_value (hex_value (index_or hex_digits k 0)) k) 16 h hex_table)

read_open : (t : Str) → read_chars plain (92 ∷ b'u' ∷ t) ≡ read_chars (unicode 3 0) t
unfolding read_chars move unescape
read_open t = refl

zero_digit : hex_value b'0' ≡ some 0
unfolding hex_value
zero_digit = refl

module _ (value b d : ℕ) (t : Str) (is_digit : hex_value b ≡ some d) where
  read_digit :
      (left : ℕ)
      → read_chars (unicode (suc left) value) (b ∷ t) ≡ read_chars (unicode left (16 * value + d)) t
  unfolding read_chars move digit
  read_digit left = rw is_digit

  read_last :
      16 * value + d < 128
      → read_chars (unicode zero value) (b ∷ t) ≡ put (16 * value + d) (read_chars plain t)
  unfolding read_chars move digit
  read_last small = rw (is_digit, lt→ltb _ 128 small)

-- A control character is written as `\u00` and two digits.
read_control :
    (b : ℕ) (t : Str)
    → b < 32
    → read_chars plain (escape_text none b ++ t) ≡ put b (read_chars plain t)
unfolding escape_text
read_control b t h =
    let hi = b / 16 % 16 in
    let lo = b % 16 in
    let h_hi = hex_value-hex_digits hi (omega arith) in
    let h_lo = hex_value-hex_digits lo (omega arith) in
    read_open _
    ∙ read_digit 0 b'0' 0 _ zero_digit 2
    ∙ read_digit 0 b'0' 0 _ zero_digit 1
    ∙ read_digit 0 (index_or hex_digits hi 0) hi _ h_hi 0
    ∙ read_last (16 * 0 + hi) (index_or hex_digits lo 0) lo t h_lo (omega arith)
    ∙ ap (λ n. put n (read_chars plain t)) (omega arith)

-- The byte of an escaped run is read back, and the reader goes on.
read_escaped : (b : ℕ) (t : Str) → read_chars plain (escaped b ++ t) ≡ put b (read_chars plain t)
unfolding read_chars move escaped escape_of escape_text unescape
read_escaped b t = ground (arith, read_control b t)

read_all : (s t : Str) → read_chars plain (escape_all s ++ b'"' ∷ t) ≡ some (s, t)
unfolding escape_all
read_all [] t = unfold read_chars move in refl
read_all (b ∷ s) t =
    rw append_assoc
      (read_escaped b (escape_all s ++ b'"' ∷ t) ∙ rw (read_all s t) (unfold put in refl))

-- Reading what `write_str` writes gives the text back, whatever bytes it holds and whatever
-- follows the literal.
pub read_literal-write_str : (s rest : Str) → read_literal (write_str s [] ++ rest) ≡ some (s, rest)
read_literal-write_str s rest =
    rw (write_str_lem, append_assoc (escape_all s) (b'"' ∷ []) rest)
      (unfold read_literal in read_all s rest)
