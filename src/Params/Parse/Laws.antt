-- ===== src/Params/Parse/Laws.antt =====
-- `parse::<i64>` against the positional value of a decimal numeral.
use native.Mathlib.Nat.{pow-suc}
use hyperfastapi.Prelude.{
  ℕ, ◌+◌, ◌-◌, ◌*◌, ◌^◌, ◌≤◌, ◌≡◌, ◌≢◌, refl, sym, ap, ◌∙◌, ◌⊎◌, ◌↔◌, inl, inr, true, false, Option,
  none, some, [], ◌∷◌, arith, ◌==◌, length, All, some_eq, Bool-cases,
}
use hyperfastapi.Prelude.Int.{ℤ, pos, fits_i64}
use hyperfastapi.Prelude.Text.{Str}
use hyperfastapi.Params.Parse.{
  digit_of, signed, in_range, digits_from, parse_digits, negate, parse_int, parse_i64,
}

abbrev pub IsDigits : Str → Type 0
IsDigits s = All (λ b. (b'0' ≤ b) × (b ≤ b'9')) s

-- The value of a numeral, each digit weighted by its place.
unfoldable pub positional : Str → ℕ
positional [] = 0
positional (b ∷ s) = (b - b'0') * 10 ^ length s + positional s

digit_of_digit : (b : ℕ) → b'0' ≤ b → b ≤ b'9' → digit_of b ≡ some (b - b'0')
digit_of_digit b lo hi = ground arith

digit_cases : (b : ℕ) → ((b'0' ≤ b) × (b ≤ b'9')) ⊎ (digit_of b ≡ none)
digit_cases b = grind arith

stuck : (s : Str) (n : ℕ) → digits_from none s ≡ some n → ⊥
unfolding digits_from
stuck [] n e = cc
stuck (b ∷ s) n e = cc

digits_from_value :
    (acc : ℕ) (s : Str)
    → IsDigits s
    → digits_from (some acc) s ≡ some (acc * 10 ^ length s + positional s)
unfolding digits_from positional
digits_from_value acc [] d = ap some (omega arith)
digits_from_value acc (b ∷ s) ((lo, hi), d) =
    rw (digit_of_digit b lo hi)
      (digits_from_value (10 * acc + (b - b'0')) s d ∙ ap some (rw pow-suc (omega arith)))

-- Conversely, only digits are read.
digits_from-IsDigits : (acc n : ℕ) (s : Str) → digits_from (some acc) s ≡ some n → IsDigits s
unfolding digits_from
digits_from-IsDigits acc n [] e = tt
digits_from-IsDigits acc n (b ∷ s) e = elim (digit_cases b) [
  | inl (lo, hi) ↦ (
    (lo, hi),
    digits_from-IsDigits (10 * acc + (b - b'0')) n s (rw (digit_of_digit b lo hi) at e),
  )
  | inr no_digit ↦ absurd (stuck s n (rw no_digit at e))
]

parse_digits_iff :
    (s : Str) (n : ℕ) → (parse_digits s ≡ some n) ↔ ((s ≢ []) × IsDigits s × (positional s ≡ n))
parse_digits_iff [] n = ((λ e. unfold parse_digits in cc), (λ (ne, d, v). absurd (ne refl)))
parse_digits_iff (b ∷ s) n = (
  (λ e.
      let d : IsDigits (b ∷ s) = unfold parse_digits in digits_from-IsDigits 0 n (b ∷ s) e in
      (cons-ne-nil b s, d, some_eq (sym (whole d) ∙ e))),
  (λ (ne, d, v). whole d ∙ ap some v),
)
  where
    cons-ne-nil : (b : ℕ) (s : Str) → ◌≢◌ {A = Str} (b ∷ s) []
    cons-ne-nil b s e = cc

    whole : IsDigits (b ∷ s) → parse_digits (b ∷ s) ≡ some (positional (b ∷ s))
    whole d = unfold parse_digits in (digits_from_value 0 (b ∷ s) d ∙ ap some (omega arith))

-- A nonempty run of digits with the value `n`.
abbrev pub Digits : Str → ℕ → Type 0
Digits s n = (s ≢ []) × IsDigits s × (positional s ≡ n)

-- The decimal numerals with an optional sign, and the integers that they stand for.
abbrev pub Spells : Str → ℤ → Type 0
Spells s z =
    ((n : ℕ) × Digits s n × (z ≡ pos n))
    ⊎ (((t : Str) × (n : ℕ) × (s ≡ b'+' ∷ t) × Digits t n × (z ≡ pos n))
        ⊎ ((t : Str) × (n : ℕ) × (s ≡ b'-' ∷ t) × Digits t n × (z ≡ negate n)))

signed-some :
    (sign : ℕ → ℤ) (o : Option ℕ) (z : ℤ)
    → signed sign o ≡ some z
    → (n : ℕ) × (o ≡ some n) × (z ≡ sign n)
signed-some sign none z e = cc
signed-some sign (some n) z e = (n, refl, cc)

sign_cases : (b : ℕ) → (b ≡ b'-') ⊎ ((b ≡ b'+') ⊎ ((b == b'-' ≡ false) × (b == b'+' ≡ false)))
sign_cases b = grind arith

parse_int_sound : (s : Str) (z : ℤ) → parse_int s ≡ some z → Spells s z
parse_int_sound [] z e = unfold parse_int in cc
parse_int_sound (b ∷ s) z e = elim (sign_cases b) [
  | inl minus ↦
      let (n, d, v) = signed-some negate (parse_digits s) z (unfold parse_int in rw minus at e) in
      inr (inr (s, n, ap (λ c. c ∷ s) minus, (parse_digits_iff s n).0 d, v))
  | inr (inl plus) ↦
      let (n, d, v) = signed-some pos (parse_digits s) z (unfold parse_int in rw plus at e) in
      inr (inl (s, n, ap (λ c. c ∷ s) plus, (parse_digits_iff s n).0 d, v))
  | inr (inr (no_minus, no_plus)) ↦
      let (n, d, v) =
        signed-some pos (parse_digits (b ∷ s)) z
          (unfold parse_int in rw (no_minus, no_plus) at e) in
      inl (n, (parse_digits_iff (b ∷ s) n).0 d, v)
]

parse_int_complete : (s : Str) (z : ℤ) → Spells s z → parse_int s ≡ some z
parse_int_complete [] z (inl (n, (ne, d, v), w)) = absurd (ne refl)
parse_int_complete (b ∷ s) z (inl (n, (ne, (digit, d), v), w)) =
    let parsed = (parse_digits_iff (b ∷ s) n).1 (ne, (digit, d), v) in
    unfold parse_int in ground arith
parse_int_complete s z (inr (inl (t, n, plus, d, w))) =
    rw (plus, w) (unfold parse_int in rw ((parse_digits_iff t n).1 d))
parse_int_complete s z (inr (inr (t, n, minus, d, w))) =
    rw (minus, w) (unfold parse_int in rw ((parse_digits_iff t n).1 d))

in_range_iff : (o : Option ℤ) (z : ℤ) → (in_range o ≡ some z) ↔ ((o ≡ some z) × (fits_i64 z ≡ true))
in_range_iff none z = ((λ e. cc), (λ (e, _). cc))
in_range_iff (some n) z = elim (Bool-cases (fits_i64 n)) [
  | inl fits ↦ rw fits ((λ e. (e, rw (← some_eq e) fits)), (λ (e, _). e))
  | inr not ↦
      rw not
        ((λ e. cc), (λ (e, fits). absurd (false-ne-true (sym not ∙ (rw (← some_eq e) at fits)))))
]
  where
    false-ne-true : false ≡ true → ⊥
    false-ne-true e = cc

-- `parse::<i64>` reads exactly the signed decimal numerals of the integers in the range of an i64,
-- and gives the integer that the numeral stands for.
pub parse_i64_iff : (s : Str) (z : ℤ) → (parse_i64 s ≡ some z) ↔ (Spells s z × (fits_i64 z ≡ true))
parse_i64_iff s z = (
  (λ e.
      let (parsed, fits) = (in_range_iff (parse_int s) z).0 (unfold parse_i64 in e) in
      (parse_int_sound s z parsed, fits)),
  (λ (spelt, fits).
      let parsed = parse_int_complete s z spelt in
      unfold parse_i64 in (in_range_iff (parse_int s) z).1 (parsed, fits)),
)
