-- ===== src/Params/Parse/Printing.antt =====
-- `to_string()` of an integer against `parse::<i64>`.
use native.Mathlib.Nat.{pow-suc}
use hyperfastapi.Prelude.{
  ℕ, zero, suc, ◌+◌, ◌-◌, ◌*◌, ◌/◌, ◌%◌, ◌^◌, ◌<◌, ◌≡◌, ◌≢◌, refl, ap, ◌∙◌, inl, inr, true, false,
  Bool, some, [], ◌∷◌, arith, length, ltb, if◌then◌else◌,
}
use hyperfastapi.Prelude.Int.{ℤ, pos, negsuc, fits_i64, show_digits, show_int}
use hyperfastapi.Prelude.Text.{Str, bytes, str_eq, contains}
use hyperfastapi.Value.{Host, int}
use hyperfastapi.Params.Errors.{ok}
use hyperfastapi.Params.Cast.{Coercions, cast_int, cast_scalar}
use hyperfastapi.Params.Parse.{parse_i64}
use hyperfastapi.Params.Parse.Laws.{IsDigits, positional, Digits, Spells, parse_i64_iff}

-- A nonempty run of digits that stands for `n` in front of `acc`.
abbrev Shown : Str → ℕ → Str → Type 0
Shown s n acc = (s ≢ []) × IsDigits s × (positional s ≡ n * 10 ^ length acc + positional acc)

split_product : (n p : ℕ) → n * p ≡ n / 10 * (10 * p) + n % 10 * p
split_product n p = ap (λ k. k * p) (whole n) ∙ spread (n / 10) (n % 10) p
  where
    whole : (n : ℕ) → n ≡ 10 * (n / 10) + n % 10
    whole n = omega arith

    spread : (q r p : ℕ) → (10 * q + r) * p ≡ q * (10 * p) + r * p
    spread q r p = omega arith

ascii : (d : ℕ) → b'0' + d - b'0' ≡ d
ascii d = omega arith

last_digit : (n : ℕ) (acc : Str) → n < 10 → IsDigits acc → Shown ((b'0' + n % 10) ∷ acc) n acc
unfolding positional
last_digit n acc small d = (
  (λ e. cc),
  ((omega arith, omega arith), d),
  rw (ascii (n % 10)) (ap (λ k. k * 10 ^ length acc + positional acc) (same n small)),
)
  where
    same : (n : ℕ) → n < 10 → n % 10 ≡ n
    same n small = omega (arith, small)

more_digits :
    (s : Str) (n : ℕ) (acc : Str) → Shown s (n / 10) ((b'0' + n % 10) ∷ acc) → Shown s n acc
unfolding positional
more_digits s n acc (full, digits, value) = (
  full,
  digits,
  value ∙ rw (ascii (n % 10), pow-suc) (omega (arith, split_product n (10 ^ length acc))),
)

show_digits-Shown :
    (fuel n : ℕ) (acc : Str) → n < fuel → IsDigits acc → Shown (show_digits fuel n acc) n acc
unfolding show_digits
show_digits-Shown zero n acc small d = absurd (omega arith)
show_digits-Shown (suc fuel) n acc small d = shown_if (ltb n 10) refl (λ more.
    show_digits-Shown fuel (n / 10) ((b'0' + n % 10) ∷ acc) (ground (arith, more, small))
      ((omega arith, omega arith), d))
  where
    rest : Str
    rest = show_digits fuel (n / 10) ((b'0' + n % 10) ∷ acc)

    shown_if :
        (b : Bool)
        → ltb n 10 ≡ b
        → (ltb n 10 ≡ false → Shown rest (n / 10) ((b'0' + n % 10) ∷ acc))
        → Shown (if b then (b'0' + n % 10) ∷ acc else rest) n acc
    shown_if true one later = last_digit n acc (ground (arith, one)) d
    shown_if false more later = more_digits rest n acc (later more)

-- The fuel of `show_int` is enough.
shown : (fuel n : ℕ) → n < fuel → Digits (show_digits fuel n []) n
unfolding positional
shown fuel n small =
    let (full, digits, value) = show_digits-Shown fuel n [] small tt in
    (full, digits, value ∙ omega arith)

show_int-Spells : (z : ℤ) → Spells (show_int z) z
unfolding show_int
show_int-Spells (pos n) = inl (n, shown (suc n) n (omega arith), refl)
show_int-Spells (negsuc n) = inr (
    inr (
      show_digits (suc (suc n)) (suc n) [],
      suc n,
      refl,
      shown (suc (suc n)) (suc n) (omega arith),
      refl,
    ))

digits-contains : (s : Str) → IsDigits s → contains b'/' s ≡ false
unfolding contains
digits-contains [] d = refl
digits-contains (b ∷ s) ((lo, hi), d) = ground (arith, lo, digits-contains s d)

-- The decimal form of an integer is one segment of a path.
pub show_int-contains : (z : ℤ) → contains b'/' (show_int z) ≡ false
unfolding show_int contains
show_int-contains (pos n) =
    digits-contains (show_digits (suc n) n []) (show_digits-Shown (suc n) n [] (omega arith) tt).1
show_int-contains (negsuc n) =
    digits-contains (show_digits (suc (suc n)) (suc n) [])
      (show_digits-Shown (suc (suc n)) (suc n) [] (omega arith) tt).1

-- An integer in the range of an i64, written in decimal, is read back by `parse::<i64>`.
pub parse_i64-show_int : (z : ℤ) → fits_i64 z ≡ true → parse_i64 (show_int z) ≡ some z
parse_i64-show_int z fits = (parse_i64_iff (show_int z) z).1 (show_int-Spells z, fits)

-- A parameter of the type "int" that holds the decimal form of an integer in the range of an i64 is
-- cast to that integer.
pub cast_scalar-show_int :
    {h : Host} (py : Coercions h) (z : ℤ) (source name : Str)
    → fits_i64 z ≡ true
    → cast_scalar py (show_int z) (bytes "int") source name ≡ ok (int z)
unfolding cast_scalar cast_int bytes str_eq
cast_scalar-show_int py z source name fits = rw (parse_i64-show_int z fits) refl
