-- ===== src/Params/Parse.antt =====
-- `str::parse::<i64>()`: an optional sign and at least one decimal digit, within the range.
pub mod Laws
pub mod Printing
use hyperfastapi.Prelude.{
  ℕ, zero, suc, ◌+◌, ◌-◌, ◌*◌, Bool, true, false, ◌&&◌, Option, none, some, List, [], ◌∷◌,
  if◌then◌else◌, leb, ◌==◌,
}
use hyperfastapi.Prelude.Int.{ℤ, pos, negsuc, fits_i64}
use hyperfastapi.Prelude.Text.{Str}

abbrev digit_of : ℕ → Option ℕ
digit_of b = if leb b'0' b && leb b b'9' then some (b - b'0') else none

abbrev next_digit : ℕ → Option ℕ → Option ℕ
next_digit acc none = none
next_digit acc (some d) = some (10 * acc + d)

unfoldable pub digits_from : Option ℕ → Str → Option ℕ
digits_from acc [] = acc
digits_from none (b ∷ s) = none
digits_from (some acc) (b ∷ s) = digits_from (next_digit acc (digit_of b)) s

-- The value of a nonempty run of digits.
unfoldable pub parse_digits : Str → Option ℕ
unfolding digits_from
parse_digits [] = none
parse_digits (b ∷ s) = digits_from (some 0) (b ∷ s)

abbrev pub negate : ℕ → ℤ
negate zero = pos 0
negate (suc n) = negsuc n

abbrev pub signed : (ℕ → ℤ) → Option ℕ → Option ℤ
signed sign none = none
signed sign (some n) = some (sign n)

unfoldable pub parse_int : Str → Option ℤ
unfolding parse_digits
parse_int [] = none
parse_int (b ∷ s) =
    if b == b'-'
    then signed negate (parse_digits s)
    else if b == b'+'
    then signed pos (parse_digits s)
    else signed pos (parse_digits (b ∷ s))

abbrev pub in_range : Option ℤ → Option ℤ
in_range none = none
in_range (some n) = if fits_i64 n then some n else none

unfoldable pub parse_i64 : Str → Option ℤ
unfolding parse_int
parse_i64 s = in_range (parse_int s)
