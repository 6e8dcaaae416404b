-- ===== src/Cpu.antt =====
-- crates/fr-json/src/cpu.rs: the two flags, and the calls of `init` by several threads. `detected` is
-- what `is_x86_feature_detected!("avx2")` says, or false on another processor.
use hyperfastapi.Prelude.{
  ℕ, suc, ◌+◌, ◌≤◌, ◌≡◌, refl, Bool, true, false, arith, Bool-cases, inl, inr,
}

-- `storing` counts the callers that have passed the swap and not yet stored.
pub record Flags : Type 0 where
  pub initialized : Bool
  pub avx2 : Bool
  pub storing : ℕ

unfoldable pub loaded : Flags
loaded = record { initialized = false; avx2 = false; storing = 0 }

-- `INITIALIZED.swap(true)`: the first caller goes on, every other returns.
unfoldable pub swap : Flags → Flags
swap s = record s {
  initialized = true;
  storing = elim s.initialized [ true ↦ s.storing | false ↦ s.storing + 1 ];
}

abbrev pub has_avx2 : Flags → Bool
has_avx2 s = s.avx2

module _ (detected : Bool) where
  -- `AVX2.store(detected)` by one of those callers.
  unfoldable pub store : ℕ → Flags → Flags
  store left s = record s { avx2 = detected; storing = left }

  -- The turns of any number of threads, in any order.
  pub data Turn : Flags → Flags → Type 0 where
    swaps : {s : Flags} → Turn s (swap s)
    stores : {s : Flags} (left : ℕ) → s.storing ≡ suc left → Turn s (store left s)

  pub data Turns (s : Flags) : Flags → Type 0 where
    none_yet : Turns s s
    then_turn : {t u : Flags} → Turns s t → Turn t u → Turns s u

  -- At most one caller stores, before that the flag is down, and after that it is right.
  abbrev Settled : Flags → Type 0
  Settled s =
      (s.initialized ≡ false → (s.avx2 ≡ false) × (s.storing ≡ 0))
      × (s.initialized ≡ true → s.storing ≤ 1)
      × (s.initialized ≡ true → s.storing ≡ 0 → s.avx2 ≡ detected)
      × (s.storing ≡ 1 → s.avx2 ≡ false)

  swap-Settled :
      (i a : Bool) (n : ℕ)
      → Settled (record { initialized = i; avx2 = a; storing = n })
      → Settled (swap (record { initialized = i; avx2 = a; storing = n }))
  unfolding swap
  swap-Settled true a n k = k
  swap-Settled false a n (before, once, right, down) =
      let (off, zero_) = before refl in
      (
        (λ e. absurd cc),
        (λ e. omega (arith, zero_)),
        (λ e z. absurd (omega (arith, z))),
        (λ e. off),
      )

  store-Settled : (left : ℕ) (s : Flags) → s.storing ≡ suc left → Settled s → Settled (store left s)
  unfolding store
  store-Settled left s e (before, once, right, down) =
      let up : s.initialized ≡ true = elim (Bool-cases s.initialized) [
        | inl up ↦ up
        | inr is_down ↦ absurd (omega (arith, e, (before is_down).1))
      ] in
      let last : left ≡ 0 = omega (arith, e, once up) in
      (
        λ i. absurd cc,
        λ i. omega (arith, last),
        λ i z. refl,
        λ one. absurd (omega (arith, last, one)),
      )

  Turn-Settled : {s t : Flags} → Turn s t → Settled s → Settled t
  Turn-Settled {s = s} swaps k = swap-Settled s.initialized s.avx2 s.storing k
  Turn-Settled {s = s} (stores left e) k = store-Settled left s e k

  Turns-Settled : {s t : Flags} → Settled s → Turns s t → Settled t
  Turns-Settled k none_yet = k
  Turns-Settled k (then_turn r x) = Turn-Settled x (Turns-Settled k r)

  loaded-Settled : Settled loaded
  unfolding loaded
  loaded-Settled =
      (λ e. (refl, refl), λ e. absurd cc, λ e z. absurd cc, λ e. absurd (omega (arith, e)))

  -- However the calls of `init` interleave, at most one of them stores, and once a call has passed the
  -- swap and none has still to store, `has_avx2` gives what was detected.
  pub Turns-has_avx2 :
      {s : Flags}
      → Turns loaded s
      → s.initialized ≡ true
      → (s.storing ≤ 1) × (s.storing ≡ 0 → has_avx2 s ≡ detected)
  Turns-has_avx2 r up =
      let (before, once, right, down) = Turns-Settled loaded-Settled r in (once up, right up)
