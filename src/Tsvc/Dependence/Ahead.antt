-- ===== src/Tsvc/Dependence/Ahead.antt =====
-- Kernels that read an element before an iteration writes it: all iterations may run at once.
use vectorizer_experiments.Base.{
  ℕ, zero, suc, ◌+◌, ◌-◌, ◌/◌, ◌≤◌, ◌<◌, ◌≡◌, refl, if◌then◌else◌, ltb, leb, ◌&&◌, load-some,
  store-some, update, for_down, for_up-Ensures, Ensures, Ensures-some, Ensures-weaken, arith,
}
use vectorizer_experiments.Tsvc.Memory.{Floats, Memory}
use vectorizer_experiments.Tsvc.Dependence.{
  s112_body, s112, s121_body, s121, s421_body, s421, s212_body, s212, s1113_body, s1113,
}

module _ (f : Floats) (n : ℕ) (s : Memory f) where
  -- The elements lo to hi - 1 of an array are given by h, and the others are the old ones.
  abbrev pub Replaced : ℕ → ℕ → (ℕ → f.Real) → (ℕ → f.Real) → (ℕ → f.Real) → Type 0
  Replaced lo hi h old new = (j : ℕ) → new j ≡ (if leb lo j && ltb j hi then h j else old j)

  -- The arrays with `a` replaced by h on a range, and nothing else.
  abbrev pub OnA : ℕ → ℕ → (ℕ → f.Real) → Memory f → Type 0
  OnA lo hi h t = Replaced lo hi h s.a t.a × (t ≡ record s { a = t.a })

  abbrev pub OnC : ℕ → ℕ → (ℕ → f.Real) → Memory f → Type 0
  OnC lo hi h t = Replaced lo hi h s.c t.c × (t ≡ record s { c = t.c })

  abbrev pub OnTwo : ℕ → (ℕ → f.Real) → (ℕ → f.Real) → Memory f → Type 0
  OnTwo hi h k t =
      Replaced 0 hi h s.a t.a × Replaced 0 hi k s.b t.b × (t ≡ record s { a = t.a; b = t.b })

  s121_body-OnA :
      (i : ℕ)
      → i < n - 1
      → (t : Memory f) → OnA 0 i (λ j. f.add (s.a (j + 1)) (s.b j)) t
      → Ensures (s121_body f n i t) (OnA 0 (suc i) (λ j. f.add (s.a (j + 1)) (s.b j)))
  unfolding s121_body update
  s121_body-OnA i lt t p =
      rw
        (
          p.1,
          load-some n t.a (i + 1) (omega arith),
          load-some n s.b i (omega arith),
          store-some n t.a i _ (omega arith),
          p.0 (i + 1),
        )
        (Ensures-some _ _ ((λ j. ground (arith, p.0 j)), refl))

  pub s121-OnA : Ensures (s121 f n s) (OnA 0 (n - 1) (λ j. f.add (s.a (j + 1)) (s.b j)))
  unfolding s121
  s121-OnA =
      for_up-Ensures (λ i. OnA 0 i (λ j. f.add (s.a (j + 1)) (s.b j))) (n - 1) (s121_body f n)
        s121_body-OnA s ((λ j. ground arith), refl)

  s421_body-OnC :
      (i : ℕ)
      → i < n - 1
      → (t : Memory f) → OnC 0 i (λ j. f.add (s.c (j + 1)) (s.a j)) t
      → Ensures (s421_body f n i t) (OnC 0 (suc i) (λ j. f.add (s.c (j + 1)) (s.a j)))
  unfolding s421_body update
  s421_body-OnC i lt t p =
      rw
        (
          p.1,
          load-some n t.c (i + 1) (omega arith),
          load-some n s.a i (omega arith),
          store-some n t.c i _ (omega arith),
          p.0 (i + 1),
        )
        (Ensures-some _ _ ((λ j. ground (arith, p.0 j)), refl))

  pub s421-OnC : Ensures (s421 f n s) (OnC 0 (n - 1) (λ j. f.add (s.c (j + 1)) (s.a j)))
  unfolding s421
  s421-OnC =
      for_up-Ensures (λ i. OnC 0 i (λ j. f.add (s.c (j + 1)) (s.a j))) (n - 1) (s421_body f n)
        s421_body-OnC s ((λ j. ground arith), refl)

  -- The element behind LEN_1D / 2, before the loop and from the iteration that writes it on.
  abbrev pub mid : ℕ → f.Real
  mid j = if leb j (n / 2) then s.a (n / 2) else f.add (s.a (n / 2)) (s.b (n / 2))

  s1113_body-OnA :
      (i : ℕ)
      → i < n
      → (t : Memory f) → OnA 0 i (λ j. f.add (mid j) (s.b j)) t
      → Ensures (s1113_body f n i t) (OnA 0 (suc i) (λ j. f.add (mid j) (s.b j)))
  unfolding s1113_body update
  s1113_body-OnA i lt t p =
      let m : t.a (n / 2) ≡ mid i = ground (arith, p.0 (n / 2)) in
      rw
        (
          p.1,
          load-some n t.a (n / 2) (omega arith),
          load-some n s.b i (omega arith),
          store-some n t.a i _ (omega arith),
          m,
        )
        (Ensures-some _ _ ((λ j. ground (arith, p.0 j)), refl))

  pub s1113-OnA : Ensures (s1113 f n s) (OnA 0 n (λ j. f.add (mid j) (s.b j)))
  unfolding s1113
  s1113-OnA =
      for_up-Ensures (λ i. OnA 0 i (λ j. f.add (mid j) (s.b j))) n (s1113_body f n) s1113_body-OnA s
        ((λ j. ground arith), refl)

  abbrev pub product : ℕ → f.Real
  product j = f.mul (s.a j) (s.c j)

  abbrev pub moved : ℕ → f.Real
  moved j = f.add (s.b j) (f.mul (s.a (j + 1)) (s.d j))

  s212_body-OnTwo :
      (i : ℕ)
      → i < n - 1
      → (t : Memory f) → OnTwo i product moved t
      → Ensures (s212_body f n i t) (OnTwo (suc i) product moved)
  unfolding s212_body update
  s212_body-OnTwo i lt t p =
      let a_i : t.a i ≡ s.a i = ground (arith, p.0 i) in
      let b_i : t.b i ≡ s.b i = ground (arith, p.1 i) in
      let v = f.mul (s.a i) (s.c i) in
      let next : update t.a i v (i + 1) ≡ s.a (i + 1) = ground (arith, p.0 (i + 1)) in
      rw
        (
          p.2,
          load-some n t.a i (omega arith),
          load-some n s.c i (omega arith),
          a_i,
          store-some n t.a i v (omega arith),
          load-some n t.b i (omega arith),
          load-some n (update t.a i v) (i + 1) (omega arith),
          next,
          load-some n s.d i (omega arith),
          b_i,
          store-some n t.b i _ (omega arith),
        )
        (Ensures-some _ _ ((λ j. ground (arith, p.0 j)), (λ j. ground (arith, p.1 j)), refl))

  pub s212-OnTwo : Ensures (s212 f n s) (OnTwo (n - 1) product moved)
  unfolding s212
  s212-OnTwo =
      for_up-Ensures (λ i. OnTwo i product moved) (n - 1) (s212_body f n) s212_body-OnTwo s
        ((λ j. ground arith), (λ j. ground arith), refl)

for_down-OnA :
    (f : Floats) (n m : ℕ) (s : Memory f)
    → m ≤ n - 1
    → Ensures
        (for_down m (s112_body f n) s)
        (OnA f n s 1 (m + 1) (λ j. f.add (s.a (j - 1)) (s.b (j - 1))))
unfolding s112_body for_down update
for_down-OnA f n zero s le = Ensures-some _ _ ((λ j. ground arith), refl)
for_down-OnA f n (suc m) s le =
    rw
      (
        load-some n s.a m (omega arith),
        load-some n s.b m (omega arith),
        store-some n s.a (m + 1) (f.add (s.a m) (s.b m)) (omega arith),
      )
      (Ensures-weaken _ _ _
        (for_down-OnA f n m (record s { a = update s.a (m + 1) (f.add (s.a m) (s.b m)) })
          (omega arith))
        λ u q. ((λ j. ground (arith, q.0 j)), q.1))

pub s112-OnA :
    (f : Floats) (n : ℕ) (s : Memory f)
    → Ensures (s112 f n s) (OnA f n s 1 n (λ j. f.add (s.a (j - 1)) (s.b (j - 1))))
unfolding s112
s112-OnA f n s =
    Ensures-weaken _ _ _ (for_down-OnA f n (n - 1) s (omega arith))
      λ u q. ((λ j. ground (arith, q.0 j)), q.1)
