-- ===== src/Tsvc/Packing.antt =====
-- Packing and unpacking: s341 and s342 of emulator/run/src/tsvc. `n` is LEN_1D; `j` is one more than in the
-- source, where it starts at -1.
use vectorizer_experiments.Base.{
  ℕ, suc, ◌+◌, ◌≤◌, ◌<◌, ◌≡◌, refl, Bool, true, false, inl, inr, Option, some, ◌>>=◌, if◌then◌else◌,
  load, store, for_up, load-some, store-some, update, for_up-Ensures, Ensures, Ensures-some,
  Ensures-bind, Bool-cases, count, count-le, count-suc, count_mono, tally, arith,
}
use native.Mathlib.Decide.{dec_lt}
use vectorizer_experiments.Tsvc.Memory.{Floats, Memory}
use vectorizer_experiments.Tsvc.Dependence.Ahead.{OnA}

unfoldable pub s341_body : (f : Floats) → ℕ → ℕ → ℕ × Memory f → Option (ℕ × Memory f)
s341_body f n i (j, s) = do
  b_i ← load n s.b i
  let pack = do a ← store n s.a j b_i; some (j + 1, record s { a = a })
  if f.lt (f.lit 0 1) b_i then pack else some (j, s)

unfoldable pub s341 : (f : Floats) → ℕ → Memory f → Option (Memory f)
s341 f n s = for_up n (s341_body f n) (0, s) >>= λ r. some r.1

unfoldable pub s342_body : (f : Floats) → ℕ → ℕ → ℕ × Memory f → Option (ℕ × Memory f)
s342_body f n i (j, s) = do
  a_i ← load n s.a i
  let unpack = do b_j ← load n s.b j; a ← store n s.a i b_j; some (j + 1, record s { a = a })
  if f.lt (f.lit 0 1) a_i then unpack else some (j, s)

unfoldable pub s342 : (f : Floats) → ℕ → Memory f → Option (Memory f)
s342 f n s = for_up n (s342_body f n) (0, s) >>= λ r. some r.1

module _ (f : Floats) (n : ℕ) (s : Memory f) where
  -- How many of the first i elements are positive.
  abbrev pub positive : (ℕ → f.Real) → ℕ → Bool
  positive arr i = f.lt (f.lit 0 1) (arr i)

  abbrev pub before : (ℕ → f.Real) → ℕ → ℕ
  before arr i = count (positive arr) i

  before_lt :
      (arr : ℕ → f.Real) (i j : ℕ) → i < j → positive arr i ≡ true → before arr i < before arr j
  unfolding tally
  before_lt arr i j lt e =
      ground
        (arith, e, count-suc (positive arr) i, count_mono (positive arr) (suc i) j (omega arith))

  -- The positive elements of `b` below m stand at the start of `a`, in their order; the rest is old.
  abbrev pub PackedBelow : ℕ → Memory f → Type 0
  PackedBelow m t =
      ((i : ℕ) → i < m → positive s.b i ≡ true → t.a (before s.b i) ≡ s.b i)
      × ((j : ℕ) → before s.b m ≤ j → t.a j ≡ s.a j)
      × (t ≡ record s { a = t.a })

  abbrev Packs : ℕ → ℕ × Memory f → Type 0
  Packs m r = (r.0 ≡ before s.b m) × PackedBelow m r.1

  packed_elem :
      (i k : ℕ) (t : Memory f)
      → k < suc i
      → positive s.b k ≡ true
      → ((k : ℕ) → k < i → positive s.b k ≡ true → t.a (before s.b k) ≡ s.b k)
      → update t.a (before s.b i) (s.b i) (before s.b k) ≡ s.b k
  unfolding update
  packed_elem i k t le pos old = elim (dec_lt k i) [
    | yes lt ↦ ground (arith, before_lt s.b k i lt pos, old k lt pos)
    | no last ↦ let e : k ≡ i = omega arith in rw e (ground arith)
  ]

  earlier_elem :
      (i k : ℕ) (t : Memory f)
      → k < suc i
      → positive s.b i ≡ false
      → positive s.b k ≡ true
      → ((k : ℕ) → k < i → positive s.b k ≡ true → t.a (before s.b k) ≡ s.b k)
      → t.a (before s.b k) ≡ s.b k
  earlier_elem i k t le e pos old = elim (dec_lt k i) [
    | yes lt ↦ old k lt pos
    | no last ↦ let same : k ≡ i = omega arith in absurd (ground (arith, e, rw same at pos))
  ]

  s341_body-Packs :
      (i : ℕ) → i < n → (r : ℕ × Memory f) → Packs i r → Ensures (s341_body f n i r) (Packs (suc i))
  unfolding s341_body update tally
  s341_body-Packs i lt (j, t) p =
      rw (p.0, p.1.2, load-some n s.b i lt)
        elim (Bool-cases (f.lt (f.lit 0 1) (s.b i))) [
          | inl e ↦
              let here = count-suc (positive s.b) i in
              rw
                (
                  e,
                  store-some n t.a (before s.b i) (s.b i)
                      (omega (arith, count-le (positive s.b) i)),
                )
                (Ensures-some _ _ (
                  ground (arith, here),
                  (
                    (λ k le pos. packed_elem i k t le pos p.1.0),
                    (λ k le. ground (arith, here, p.1.1 k)),
                    refl,
                  ),
                ))
          | inr e ↦
              let here = count-suc (positive s.b) i in
              rw e (
                Ensures-some _ _ (
                  ground (arith, here),
                  (
                    (λ k le pos. earlier_elem i k t le e pos p.1.0),
                    (λ k le. ground (arith, here, p.1.1 k)),
                    refl,
                  ),
                ))
        ]

  s341-Packed : Ensures (s341 f n s) (PackedBelow n)
  unfolding s341 count
  s341-Packed =
      Ensures-bind (Packs n) (PackedBelow n) _ _
        (for_up-Ensures Packs n (s341_body f n) s341_body-Packs (0, s)
          (refl, ((λ i lt pos. absurd (omega arith)), (λ j le. refl), refl)))
        λ r p. Ensures-some _ _ p.1

  abbrev pub unpacked : ℕ → f.Real
  unpacked j = if positive s.a j then s.b (before s.a j) else s.a j

  abbrev Unpacks : ℕ → ℕ × Memory f → Type 0
  Unpacks m r = (r.0 ≡ before s.a m) × OnA f n s 0 m unpacked r.1

  s342_body-Unpacks :
      (i : ℕ)
      → i < n
      → (r : ℕ × Memory f) → Unpacks i r
      → Ensures (s342_body f n i r) (Unpacks (suc i))
  unfolding s342_body update tally
  s342_body-Unpacks i lt (j, t) p =
      let a_i : t.a i ≡ s.a i = ground (arith, p.1.0 i) in
      let here = count-suc (positive s.a) i in
      rw (p.0, p.1.1, load-some n t.a i lt, a_i)
        elim (Bool-cases (f.lt (f.lit 0 1) (s.a i))) [
          | inl e ↦
              rw
                (
                  e,
                  load-some n s.b (before s.a i) (omega (arith, count-le (positive s.a) i)),
                  store-some n t.a i _ lt,
                )
                (Ensures-some _ _ (ground (arith, here), ((λ k. grind (arith, e, p.1.0 k)), refl)))
          | inr e ↦
              rw e
                (Ensures-some _ _ (ground (arith, here), ((λ k. grind (arith, e, p.1.0 k)), refl)))
        ]

  s342-OnA : Ensures (s342 f n s) (OnA f n s 0 n unpacked)
  unfolding s342 count
  s342-OnA =
      Ensures-bind (Unpacks n) (OnA f n s 0 n unpacked) _ _
        (for_up-Ensures Unpacks n (s342_body f n) s342_body-Unpacks (0, s)
          (refl, ((λ j. ground arith), refl)))
        λ r p. Ensures-some _ _ p.1

  -- s341 returns, each positive element of b stands in a at the place that counts the positive
  -- elements before it, and the places from their number on and the other arrays are as before;
  -- s342 returns, replaces each positive element of a by the element of b at the place that counts
  -- the positive elements of a before it, and changes nothing else.
  pub s341-s342-Packed :
      Ensures (s341 f n s) (PackedBelow n) × Ensures (s342 f n s) (OnA f n s 0 n unpacked)
  s341-s342-Packed = (s341-Packed, s342-OnA)
