-- ===== src/Tsvc/Dependence/Carried.antt =====
-- Kernels whose iterations read the result of an earlier iteration, or carry a scalar.
use vectorizer_experiments.Base.{
  ℕ, suc, ◌-◌, ◌≤◌, ◌<◌, ◌≡◌, refl, ◌∙◌, inl, inr, if◌then◌else◌, ◌==◌, ltb, leb, ◌&&◌, sym,
  load-some, store-some, update, for_up-Ensures, for_range, for_up, for_range-Ensures, Ensures,
  Ensures-some, Ensures-bind, arith, Bool-cases,
}
use vectorizer_experiments.Tsvc.Memory.{Floats, Memory}
use vectorizer_experiments.Tsvc.Dependence.{
  s1221_body, s1221, s124_body, s124, s254_body, s254, s291_body, s291,
}
use vectorizer_experiments.Tsvc.Dependence.Ahead.{OnA}
use native.Mathlib.Decide.{dec_lt}

module _ (f : Floats) (n : ℕ) (s : Memory f) where
  -- Up to m, `b` satisfies its recurrence and begins with the old elements; the rest is old.
  abbrev pub Recurrent : ℕ → Memory f → Type 0
  Recurrent m t =
      ((j : ℕ) → t.b j ≡ (if leb 4 j && ltb j m then f.add (t.b (j - 4)) (s.a j) else s.b j))
      × (t ≡ record s { b = t.b })

  s1221_body-Recurrent :
      (i : ℕ)
      → 4 ≤ i
      → i < n
      → (t : Memory f) → Recurrent i t
      → Ensures (s1221_body f n i t) (Recurrent (suc i))
  unfolding s1221_body update
  s1221_body-Recurrent i le lt t p =
      rw
        (
          p.1,
          load-some n t.b (i - 4) (omega arith),
          load-some n s.a i (omega arith),
          store-some n t.b i _ (omega arith),
        )
        (Ensures-some _ _ ((λ j. ground (arith, p.0 j)), refl))

  s1221-Recurrent : Ensures (s1221 f n s) (Recurrent n)
  unfolding s1221 for_range for_up
  s1221-Recurrent = elim (dec_lt n 4) [
    | yes short ↦
        let none_left : n - 4 ≡ 0 = omega arith in
        rw none_left (Ensures-some _ _ ((λ j. ground arith), refl))
    | no long ↦
        for_range-Ensures Recurrent 4 n (s1221_body f n) (omega arith) s1221_body-Recurrent s
          ((λ j. ground arith), refl)
  ]

  -- The neighbour of b[j] behind it, with b[LEN_1D - 1] behind b[0].
  abbrev pub around : ℕ → f.Real
  around j = f.mul (f.add (s.b j) (s.b (if j == 0 then n - 1 else j - 1))) (f.lit 1 2)

  -- The index of the neighbour when iteration i begins.
  abbrev behind : ℕ → ℕ
  behind i = if i == 0 then n - 1 else i - 1

  abbrev AtBehind : ℕ → ℕ × Memory f → Type 0
  AtBehind i r = (r.0 ≡ behind i) × OnA f n s 0 i around r.1

  s291_body-AtBehind :
      (i : ℕ)
      → i < n
      → (r : ℕ × Memory f) → AtBehind i r
      → Ensures (s291_body f n i r) (AtBehind (suc i))
  unfolding s291_body update
  s291_body-AtBehind i lt (im1, t) p =
      let bound : im1 < n = ground (arith, p.0) in
      let b_j : s.b im1 ≡ s.b (behind i) = rw (p.0) refl in
      rw
        (
          p.1.1,
          load-some n s.b i lt,
          load-some n s.b im1 bound,
          store-some n t.a i _ (omega arith),
          b_j,
        )
        (Ensures-some _ _ (ground arith, ((λ j. ground (arith, p.1.0 j)), refl)))

  s291-OnA : Ensures (s291 f n s) (OnA f n s 0 n around)
  unfolding s291
  s291-OnA =
      Ensures-bind (AtBehind n) (OnA f n s 0 n around) _ _
        (for_up-Ensures AtBehind n (s291_body f n) s291_body-AtBehind (n - 1, s)
          (refl, ((λ j. ground arith), refl)))
        λ r p. Ensures-some _ _ p.1

  abbrev Carries : ℕ → f.Real × Memory f → Type 0
  Carries i r = (r.0 ≡ s.b (behind i)) × OnA f n s 0 i around r.1

  s254_body-Carries :
      (i : ℕ)
      → i < n
      → (r : f.Real × Memory f) → Carries i r
      → Ensures (s254_body f n i r) (Carries (suc i))
  unfolding s254_body update
  s254_body-Carries i lt (x, t) p =
      rw (p.1.1, load-some n s.b i lt, store-some n t.a i _ (omega arith), p.0)
        (Ensures-some _ _ (ground arith, ((λ j. ground (arith, p.1.0 j)), refl)))

  s254-OnA : 0 < n → Ensures (s254 f n s) (OnA f n s 0 n around)
  unfolding s254
  s254-OnA lt = rw (load-some n s.b (n - 1) (omega arith)) (
      Ensures-bind (Carries n) (OnA f n s 0 n around) _ _
        (for_up-Ensures Carries n (s254_body f n) s254_body-Carries (s.b (n - 1), s)
          (refl, ((λ j. ground arith), refl)))
        λ r p. Ensures-some _ _ p.1)

  s254-s291-OnA : 0 < n → (s254 f n s ≡ s291 f n s) × Ensures (s254 f n s) (OnA f n s 0 n around)
  s254-s291-OnA lt =
      let p = s254-OnA lt in
      let q = s291-OnA in
      let same : p.value.a ≡ q.value.a = λ i j. (p.holds.0 j ∙ sym (q.holds.0 j)) i in
      (rw (p.returns, q.returns, p.holds.1, q.holds.1, same) refl, p)

  -- What s124 stores in a[j].
  abbrev pub picked : ℕ → f.Real
  picked j = f.add (if f.lt (f.lit 0 1) (s.b j) then s.b j else s.c j) (f.mul (s.d j) (s.e j))

  abbrev Packed : ℕ → ℕ × Memory f → Type 0
  Packed i r = (r.0 ≡ i) × OnA f n s 0 i picked r.1

  s124_body-Packed :
      (i : ℕ)
      → i < n
      → (r : ℕ × Memory f) → Packed i r
      → Ensures (s124_body f n i r) (Packed (suc i))
  unfolding s124_body update
  s124_body-Packed i lt (j, t) p =
      rw
        (
          p.1.1,
          p.0,
          load-some n s.b i lt,
          load-some n s.d i lt,
          load-some n s.e i lt,
          load-some n s.c i lt,
        )
        (elim (Bool-cases (f.lt (f.lit 0 1) (s.b i))) [
          | inl e ↦
              rw (e, store-some n t.a i _ (omega arith))
                (Ensures-some _ _ (ground arith, ((λ j. grind (arith, e, p.1.0 j)), refl)))
          | inr e ↦
              rw (e, store-some n t.a i _ (omega arith))
                (Ensures-some _ _ (ground arith, ((λ j. grind (arith, e, p.1.0 j)), refl)))
        ])

  s124-OnA : Ensures (s124 f n s) (OnA f n s 0 n picked)
  unfolding s124
  s124-OnA =
      Ensures-bind (Packed n) (OnA f n s 0 n picked) _ _
        (for_up-Ensures Packed n (s124_body f n) s124_body-Packed (0, s)
          (refl, ((λ j. ground arith), refl)))
        λ r p. Ensures-some _ _ p.1

  -- Where there is an element, s254, which carries a scalar, and s291, which carries an index, do
  -- the same, and return with half the sum of each element of b and the one before it in a, the
  -- last one standing before the first; s124, which counts a second index, returns with the sum of
  -- b, if that is positive, or else c, and the product of d and e in a; s1221 returns, with each
  -- element of b from index 4 on the sum of the new element four places before it and the element
  -- of a; nothing else changes.
  pub kernels-Carried :
      0 < n
      → (s254 f n s ≡ s291 f n s)
        × Ensures (s254 f n s) (OnA f n s 0 n around)
        × Ensures (s124 f n s) (OnA f n s 0 n picked)
        × Ensures (s1221 f n s) (Recurrent n)
  kernels-Carried lt = let p = s254-s291-OnA lt in (p.0, p.1, s124-OnA, s1221-Recurrent)
