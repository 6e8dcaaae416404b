-- ===== src/Prelude/Int.antt =====
-- Signed integers over the native numbers: `negsuc n` is -(n + 1). And the range of an `i64`.
use Prim.Native.Nat.{ℕ, zero, suc, ◌+◌, ◌/◌, ◌%◌}
use mathlib.Core.Bool.{Bool}
use mathlib.Core.List.{[], ◌∷◌}
use hyperfastapi.Prelude.Tests.{ltb, if◌then◌else◌}
use hyperfastapi.Prelude.Text.{Str}

pub data ℤ : Type 0 where
  pos : ℕ → ℤ
  negsuc : ℕ → ℤ

-- 2 ^ 63
abbrev pub i64_limit : ℕ
i64_limit = 0x8000_0000_0000_0000

unfoldable pub fits_i64 : ℤ → Bool
fits_i64 (pos n) = ltb n i64_limit
fits_i64 (negsuc n) = ltb n i64_limit

-- The decimal digits of a number in front of `acc`, the last digit first.
unfoldable pub show_digits : ℕ → ℕ → Str → Str
show_digits zero n acc = acc
show_digits (suc fuel) n acc =
    let rest = show_digits fuel (n / 10) ((b'0' + n % 10) ∷ acc) in
    if ltb n 10 then (b'0' + n % 10) ∷ acc else rest

-- `to_string()` of a natural number.
unfoldable pub show_nat : ℕ → Str
unfolding show_digits
show_nat n = show_digits (suc n) n []

-- `to_string()` of an integer.
unfoldable pub show_int : ℤ → Str
unfolding show_digits
show_int (pos n) = show_digits (suc n) n []
show_int (negsuc n) = b'-' ∷ show_digits (suc (suc n)) (suc n) []
