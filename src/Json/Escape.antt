-- ===== src/Json/Escape.antt =====
-- `write_str` copies runs of plain bytes by slices; it writes what escaping byte by byte writes.
use hyperfastapi.Prelude.{
  ℕ, suc, ◌+◌, ◌-◌, ◌≡◌, refl, sym, ap, ◌∙◌, Option, none, some, [], ◌∷◌, ◌++◌, append-nil,
  append_assoc, arith, length, ltb, if◌then◌else◌, length-append, take-append_left,
  drop-append_left, Option-cases, inl, inr,
}
use hyperfastapi.Prelude.Text.{Str}
use hyperfastapi.Json.{escape_of, escape_text, slice, escape_loop, write_str}

abbrev escaped_by : Option (Option Str) → ℕ → Str
escaped_by none b = b ∷ []
escaped_by (some esc) b = escape_text esc b

-- One byte of a JSON string literal.
unfoldable pub escaped : ℕ → Str
escaped b = escaped_by (escape_of b) b

unfoldable pub escape_all : Str → Str
escape_all [] = []
escape_all (b ∷ s) = escaped b ++ escape_all s

slice-middle : (a p r : Str) → slice (a ++ (p ++ r)) (length a) (length a + length p) ≡ p
slice-middle a p r =
    rw drop-append_left (
      let e : length a + length p - length a ≡ length p = omega arith in
      rw e (take-append_left p r))

flush :
    (s a p r out : Str) (i : ℕ)
    → s ≡ a ++ (p ++ r)
    → i ≡ length a + length p
    → (if ltb (length a) i then out ++ slice s (length a) i else out) ≡ out ++ p
flush s a [] r out i e k = rw append-nil (ground arith)
flush s a (b ∷ p) r out i e k = rw (e, k) (ground (arith, slice-middle a (b ∷ p) r))

end_step :
    (s : Str) (i start : ℕ) (out : Str)
    → escape_loop s [] i start out
      ≡ (if ltb start (length s) then out ++ slice s start (length s) else out)
unfolding escape_loop
end_step s i start out = refl

quoted : (s out : Str) → write_str s out ≡ escape_loop s s 0 0 (out ++ b'"' ∷ []) ++ b'"' ∷ []
unfolding write_str
quoted s out = refl

module _ (s rest : Str) (b i start : ℕ) (out : Str) where
  plain_step :
      escape_of b ≡ none
      → escape_loop s (b ∷ rest) i start out ≡ escape_loop s rest (suc i) start out
  unfolding escape_loop
  plain_step e = rw (e, escape_loop)

  escape_step :
      (esc : Option Str)
      → escape_of b ≡ some esc
      → escape_loop s (b ∷ rest) i start out
        ≡ escape_loop s rest
            (suc i)
            (suc i)
            ((if ltb start i then out ++ slice s start i else out) ++ escape_text esc b)
  unfolding escape_loop
  escape_step esc e = rw (e, escape_loop)

escaped_plain : (b : ℕ) → escape_of b ≡ none → escaped b ≡ b ∷ []
unfolding escaped
escaped_plain b e = rw e

escaped-some : (b : ℕ) (esc : Option Str) → escape_of b ≡ some esc → escaped b ≡ escape_text esc b
unfolding escaped
escaped-some b esc e = rw e

length-snoc : (a p : Str) (b : ℕ) → length (a ++ (p ++ b ∷ [])) ≡ suc (length a + length p)
length-snoc a p b = omega (arith, length-append {0} a (p ++ b ∷ []), length-append {0} p (b ∷ []))

escape_loop_lem :
    (rest s a p out : Str) (i : ℕ)
    → s ≡ a ++ (p ++ rest)
    → i ≡ length a + length p
    → escape_loop s rest i (length a) out ≡ out ++ (p ++ escape_all rest)
escape_loop_lem [] s a p out i e k =
    end_step s i (length a) out
    ∙ flush s a p [] out (length s) e (rw (e, append-nil) (length-append {0} a p))
    ∙ (unfold escape_all in ap (λ x. out ++ x) (sym (append-nil p)))
escape_loop_lem (b ∷ rest) s a p out i e k = elim (Option-cases (escape_of b)) [
  | inl plain ↦
      plain_step s rest b i (length a) out plain
      ∙ escape_loop_lem rest s a (p ++ b ∷ []) out (suc i)
          (e ∙ ap (λ x. a ++ x) (sym (append_assoc p (b ∷ []) rest)))
          (omega (arith, length-append {0} p (b ∷ [])))
      ∙ (unfold escape_all in simp (escaped_plain b plain, append_assoc))
  | inr (esc, found) ↦
      escape_step s rest b i (length a) out esc found
      ∙ ap (λ x. escape_loop s rest (suc i) (suc i) (x ++ escape_text esc b))
          (flush s a p (b ∷ rest) out i e k)
      ∙ (let n : suc i ≡ length (a ++ (p ++ b ∷ [])) = omega (arith, length-snoc a p b) in
          ap (λ j. escape_loop s rest (suc i) j ((out ++ p) ++ escape_text esc b)) n)
      ∙ escape_loop_lem rest s (a ++ (p ++ b ∷ [])) [] ((out ++ p) ++ escape_text esc b) (suc i)
          (e ∙ simp append_assoc) (omega (arith, length-snoc a p b))
      ∙ (unfold escape_all in simp (escaped-some b esc found, append_assoc))
]

-- The slice-copying loop appends a quote, each byte of the text escaped on its own, and a quote.
pub write_str_lem : (s out : Str) → write_str s out ≡ out ++ (b'"' ∷ (escape_all s ++ b'"' ∷ []))
write_str_lem s out =
    quoted s out
    ∙ ap (λ x. x ++ b'"' ∷ []) (escape_loop_lem s s [] [] (out ++ b'"' ∷ []) 0 refl refl)
    ∙ simp append_assoc
