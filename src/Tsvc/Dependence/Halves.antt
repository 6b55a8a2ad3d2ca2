-- ===== src/Tsvc/Dependence/Halves.antt =====
-- Kernels that read further along, or in the other half of an array, than they write.
use vectorizer_experiments.Base.{
  ℕ, suc, ◌+◌, ◌-◌, ◌/◌, ◌<◌, ◌≡◌, refl, load-some, store-some, update, for_up-Ensures, Ensures,
  Ensures-some, arith,
}
use vectorizer_experiments.Tsvc.Memory.{Floats, Memory}
use vectorizer_experiments.Tsvc.Dependence.{s151s_body, s151, s173_body, s173, s1421_body, s1421}
use vectorizer_experiments.Tsvc.Dependence.Ahead.{Replaced, OnA}

module _ (f : Floats) (n : ℕ) (s : Memory f) where
  abbrev pub OnB : ℕ → ℕ → (ℕ → f.Real) → Memory f → Type 0
  OnB lo hi h t = Replaced f n s lo hi h s.b t.b × (t ≡ record s { b = t.b })

  s151s_body-OnA :
      (i : ℕ)
      → i < n - 1
      → (t : Memory f) → OnA f n s 0 i (λ j. f.add (s.a (j + 1)) (s.b j)) t
      → Ensures (s151s_body f n 1 i t) (OnA f n s 0 (suc i) (λ j. f.add (s.a (j + 1)) (s.b j)))
  unfolding s151s_body update
  s151s_body-OnA i lt t p =
      rw
        (
          p.1,
          load-some n t.a (i + 1) (omega arith),
          load-some n s.b i (omega arith),
          store-some n t.a i _ (omega arith),
          p.0 (i + 1),
        )
        (Ensures-some _ _ ((λ j. ground (arith, p.0 j)), refl))

  pub s151-OnA : Ensures (s151 f n s) (OnA f n s 0 (n - 1) (λ j. f.add (s.a (j + 1)) (s.b j)))
  unfolding s151
  s151-OnA =
      for_up-Ensures (λ i. OnA f n s 0 i (λ j. f.add (s.a (j + 1)) (s.b j))) (n - 1)
        (s151s_body f n 1) s151s_body-OnA s ((λ j. ground arith), refl)

  -- The sums of the first half.
  abbrev pub half : ℕ → f.Real
  half j = f.add (s.a (j - n / 2)) (s.b (j - n / 2))

  s173_body-OnA :
      (i : ℕ)
      → i < n / 2
      → (t : Memory f) → OnA f n s (n / 2) (n / 2 + i) half t
      → Ensures (s173_body f n i t) (OnA f n s (n / 2) (n / 2 + suc i) half)
  unfolding s173_body update
  s173_body-OnA i lt t p =
      let a_i : t.a i ≡ s.a i = ground (arith, p.0 i) in
      let back : i + n / 2 - n / 2 ≡ i = omega arith in
      rw
        (
          p.1,
          load-some n t.a i (omega arith),
          load-some n s.b i (omega arith),
          store-some n t.a (i + n / 2) _ (omega arith),
          a_i,
        )
        (Ensures-some _ _ ((λ j. ground (arith, p.0 j)), refl))

  pub s173-OnA : Ensures (s173 f n s) (OnA f n s (n / 2) (n / 2 + n / 2) half)
  unfolding s173
  s173-OnA =
      for_up-Ensures (λ i. OnA f n s (n / 2) (n / 2 + i) half) (n / 2) (s173_body f n) s173_body-OnA
        s ((λ j. ground arith), refl)

  abbrev pub folded : ℕ → f.Real
  folded j = f.add (s.b (n / 2 + j)) (s.a j)

  s1421_body-OnB :
      (i : ℕ)
      → i < n / 2
      → (t : Memory f) → OnB 0 i folded t
      → Ensures (s1421_body f n i t) (OnB 0 (suc i) folded)
  unfolding s1421_body update
  s1421_body-OnB i lt t p =
      let xx_i : t.b (n / 2 + i) ≡ s.b (n / 2 + i) = ground (arith, p.0 (n / 2 + i)) in
      rw
        (
          p.1,
          load-some n t.b (n / 2 + i) (omega arith),
          load-some n s.a i (omega arith),
          store-some n t.b i _ (omega arith),
          xx_i,
        )
        (Ensures-some _ _ ((λ j. ground (arith, p.0 j)), refl))

  pub s1421-OnB : Ensures (s1421 f n s) (OnB 0 (n / 2) folded)
  unfolding s1421
  s1421-OnB =
      for_up-Ensures (λ i. OnB 0 i folded) (n / 2) (s1421_body f n) s1421_body-OnB s
        ((λ j. ground arith), refl)
