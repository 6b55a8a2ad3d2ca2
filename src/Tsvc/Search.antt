-- ===== src/Tsvc/Search.antt =====
-- Searches and reductions that return an index or a value: s331, s332, s314 and s316 of emulator/run/src/tsvc.
-- `n` is LEN_1D. The kernels keep the result in local variables, which the functions here return.
use vectorizer_experiments.Base.{
  ℕ, zero, suc, ◌+◌, ◌≤◌, ◌<◌, ◌≡◌, refl, Bool, true, false, inl, inr, Option, some, ◌>>=◌,
  if◌then◌else◌, load, for_up, for_range, load-some, for_up-Ensures, for_range-Ensures, Ensures,
  Ensures-some, Ensures-weaken, Bool-cases, arith,
}
use vectorizer_experiments.Base.Int.{ℤ, pos, negsuc}
use vectorizer_experiments.Tsvc.Memory.{Floats}
use native.Mathlib.Decide.{dec_lt}

unfoldable pub s331_body : (f : Floats) → ℕ → (ℕ → f.Real) → ℕ → ℤ → Option ℤ
s331_body f n a i j = do a_i ← load n a i; some (if f.lt a_i (f.lit 0 1) then pos i else j)

unfoldable pub s331 : (f : Floats) → ℕ → (ℕ → f.Real) → Option ℤ
s331 f n a = for_up n (s331_body f n a) (negsuc 0)

-- The loop of s332 from index i on, with `left` indices to go; `goto L20` ends it.
unfoldable pub s332_loop : (f : Floats) → ℕ → (ℕ → f.Real) → ℕ → ℕ → Option (ℤ × f.Real)
s332_loop f n a i zero = some (negsuc 1, f.neg (f.lit 1 1))
s332_loop f n a i (suc left) = do
  a_i ← load n a i
  let rest = s332_loop f n a (i + 1) left
  if f.lt (f.lit 1 2) a_i then some (pos i, a_i) else rest

unfoldable pub s332 : (f : Floats) → ℕ → (ℕ → f.Real) → Option (ℤ × f.Real)
s332 f n a = s332_loop f n a 0 n

unfoldable pub s314_body : (f : Floats) → ℕ → (ℕ → f.Real) → ℕ → f.Real → Option f.Real
s314_body f n a i x = do a_i ← load n a i; some (if f.lt x a_i then a_i else x)

unfoldable pub s314 : (f : Floats) → ℕ → (ℕ → f.Real) → Option f.Real
s314 f n a = do x ← load n a 0; for_up n (s314_body f n a) x

unfoldable pub s316_body : (f : Floats) → ℕ → (ℕ → f.Real) → ℕ → f.Real → Option f.Real
s316_body f n a i x = do a_i ← load n a i; some (if f.lt a_i x then a_i else x)

unfoldable pub s316 : (f : Floats) → ℕ → (ℕ → f.Real) → Option f.Real
s316 f n a = do x ← load n a 0; for_range 1 n (s316_body f n a) x

module _ (f : Floats) (n : ℕ) (a : ℕ → f.Real) where
  -- No element from lo to hi - 1 meets the test.
  abbrev pub NoneIn : (f.Real → Bool) → ℕ → ℕ → Type 0
  NoneIn test lo hi = (j : ℕ) → lo ≤ j → j < hi → test (a j) ≡ false

  -- The last index below m whose element is negative, or -1.
  abbrev pub LastNegative : ℕ → ℤ → Type 0
  LastNegative m (pos i) =
      (i < m) × (f.lt (a i) (f.lit 0 1) ≡ true) × NoneIn (λ x. f.lt x (f.lit 0 1)) (suc i) m
  LastNegative m (negsuc k) = (k ≡ 0) × NoneIn (λ x. f.lt x (f.lit 0 1)) 0 m

  -- The first index above 0.5 with its element, or -2 and -1.
  abbrev pub FirstAbove : ℕ → ℤ × f.Real → Type 0
  FirstAbove lo (pos i, v) =
      (lo ≤ i) × (i < n) × (v ≡ a i) × (f.lt (f.lit 1 2) v ≡ true) × NoneIn (f.lt (f.lit 1 2)) lo i
  FirstAbove lo (negsuc k, v) = (k ≡ 1) × (v ≡ f.neg (f.lit 1 1)) × NoneIn (f.lt (f.lit 1 2)) lo n

  NoneIn-snoc :
      (test : f.Real → Bool) (lo hi : ℕ)
      → NoneIn test lo hi
      → test (a hi) ≡ false
      → NoneIn test lo (suc hi)
  NoneIn-snoc test lo hi h e j le lt = elim (dec_lt j hi) [
    | yes earlier ↦ h j le earlier
    | no last ↦ let same : j ≡ hi = omega arith in rw same e
  ]

  NoneIn-cons :
      (test : f.Real → Bool) (lo hi : ℕ)
      → test (a lo) ≡ false
      → NoneIn test (lo + 1) hi
      → NoneIn test lo hi
  NoneIn-cons test lo hi e h j le lt = elim (dec_lt lo j) [
    | yes later ↦ h j (omega arith) lt
    | no first ↦ let same : j ≡ lo = omega arith in rw same e
  ]

  LastNegative-snoc :
      (m : ℕ) (j : ℤ) → LastNegative m j → f.lt (a m) (f.lit 0 1) ≡ false → LastNegative (suc m) j
  LastNegative-snoc m (pos i) p e =
      (omega (arith, p.0), p.1, NoneIn-snoc (λ x. f.lt x (f.lit 0 1)) _ _ p.2 e)
  LastNegative-snoc m (negsuc k) p e = (p.0, NoneIn-snoc (λ x. f.lt x (f.lit 0 1)) _ _ p.1 e)

  s331_body-LastNegative :
      (i : ℕ)
      → i < n
      → (j : ℤ) → LastNegative i j
      → Ensures (s331_body f n a i j) (LastNegative (suc i))
  unfolding s331_body
  s331_body-LastNegative i lt j p =
      rw (load-some n a i lt) elim (Bool-cases (f.lt (a i) (f.lit 0 1))) [
        | inl e ↦ rw e (Ensures-some _ _ (omega arith, e, λ j le lt. absurd (omega arith)))
        | inr e ↦ rw e (Ensures-some _ _ (LastNegative-snoc i j p e))
      ]

  s331-LastNegative : Ensures (s331 f n a) (LastNegative n)
  unfolding s331
  s331-LastNegative =
      for_up-Ensures LastNegative n (s331_body f n a) s331_body-LastNegative (negsuc 0)
        (refl, λ j le lt. absurd (omega arith))

  FirstAbove-cons :
      (i : ℕ) (r : ℤ × f.Real)
      → f.lt (f.lit 1 2) (a i) ≡ false
      → FirstAbove (i + 1) r
      → FirstAbove i r
  FirstAbove-cons i (pos k, v) e p =
      (omega (arith, p.0), p.1, p.2, p.3, NoneIn-cons (f.lt (f.lit 1 2)) _ _ e p.4)
  FirstAbove-cons i (negsuc k, v) e p = (p.0, p.1, NoneIn-cons (f.lt (f.lit 1 2)) _ _ e p.2)

  s332_loop-FirstAbove :
      (i left : ℕ) → i + left ≡ n → Ensures (s332_loop f n a i left) (FirstAbove i)
  unfolding s332_loop
  s332_loop-FirstAbove i zero e = Ensures-some _ _ (refl, refl, λ j le lt. absurd (omega arith))
  s332_loop-FirstAbove i (suc left) e =
      rw (load-some n a i (omega arith)) elim (Bool-cases (f.lt (f.lit 1 2) (a i))) [
        | inl t ↦
            rw t (
              Ensures-some _ _ (omega arith, omega arith, refl, t, λ j le lt. absurd (omega arith)))
        | inr t ↦
            let h = s332_loop-FirstAbove (i + 1) left (omega arith) in
            rw t (Ensures-weaken _ _ _ h λ r p. FirstAbove-cons i r t p)
      ]

  -- s331 returns the last index of a negative element, or -1 if there is none; s332 returns the
  -- first index of an element above 0.5 with that element, or -2 and -1 if there is none.
  pub s331-s332-Found : Ensures (s331 f n a) (LastNegative n) × Ensures (s332 f n a) (FirstAbove 0)
  unfolding s332
  s331-s332-Found = (s331-LastNegative, s332_loop-FirstAbove 0 n (omega arith))

-- `x` is an element of the array, and no element below m is above it.
abbrev pub Extreme :
    (f : Floats) → (f.Real → f.Real → Bool) → ℕ → (ℕ → f.Real) → ℕ → f.Real → Type 0
Extreme f above n a m x =
    ((i : ℕ) × (i < n) × (x ≡ a i)) × ((j : ℕ) → j < m → above x (a j) ≡ false)

module _ (f : Floats) (above : f.Real → f.Real → Bool)
    (irreflexive : (x : f.Real) → above x x ≡ false)
    (transitive : (x y z : f.Real) → above x y ≡ true → above y z ≡ true → above x z ≡ true) (n : ℕ)
    (a : ℕ → f.Real) where
  below_new : (x y z : f.Real) → above x y ≡ true → above x z ≡ false → above y z ≡ false
  below_new x y z e h = elim (Bool-cases (above y z)) [
    | inl t ↦ absurd (ground (arith, transitive x y z e t, h))
    | inr t ↦ t
  ]

  Extreme-snoc :
      (m : ℕ) (x : f.Real)
      → Extreme f above n a m x
      → above x (a m) ≡ false
      → Extreme f above n a (suc m) x
  Extreme-snoc m x p e = (
    p.0,
    λ j lt. elim (dec_lt j m) [
      | yes earlier ↦ p.1 j earlier
      | no last ↦ let same : j ≡ m = omega arith in rw same e
    ],
  )

  -- The step that a maximum takes.
  larger-Extreme :
      (m : ℕ) (x : f.Real)
      → m < n
      → Extreme f above n a m x
      → Extreme f above n a (suc m) (if above x (a m) then a m else x)
  larger-Extreme m x lt p = elim (Bool-cases (above x (a m))) [
    | inl e ↦
        let below = λ (j : ℕ) (le : j < m). below_new x (a m) (a j) e (p.1 j le) in
        rw e (Extreme-snoc m (a m) ((m, lt, refl), below) (irreflexive (a m)))
    | inr e ↦ rw e (Extreme-snoc m x p e)
  ]

module _ (f : Floats) (irreflexive : (x : f.Real) → f.lt x x ≡ false)
    (transitive : (x y z : f.Real) → f.lt x y ≡ true → f.lt y z ≡ true → f.lt x z ≡ true) (n : ℕ)
    (a : ℕ → f.Real) (some_element : 0 < n) where
  abbrev above : f.Real → f.Real → Bool
  above x y = f.lt y x

  s314-Extreme : Ensures (s314 f n a) (Extreme f f.lt n a n)
  unfolding s314 s314_body
  s314-Extreme = rw (load-some n a 0 some_element) (
      for_up-Ensures (Extreme f f.lt n a) n (s314_body f n a)
        (λ i lt x p.
          rw (load-some n a i lt)
            (Ensures-some _ _ (larger-Extreme f f.lt irreflexive transitive n a i x lt p)))
        (a 0) ((0, some_element, refl), λ j le. absurd (omega arith)))

  s316-Extreme : Ensures (s316 f n a) (Extreme f above n a n)
  unfolding s316 s316_body
  s316-Extreme = rw (load-some n a 0 some_element) (
      for_range-Ensures (Extreme f above n a) 1 n (s316_body f n a) (omega arith)
        (λ i le lt x p. rw (load-some n a i lt) (
          Ensures-some _ _
            (larger-Extreme f above irreflexive (λ x y z p q. transitive z y x q p) n a i x lt p)))
        (a 0)
        ((0, some_element, refl), λ j le. let e : j ≡ 0 = omega arith in rw e (irreflexive (a 0))))

  -- Where the order on floats is irreflexive and transitive, and there is an element, s314 returns
  -- an element of the array that is below no element, and s316 one that is above no element.
  pub s314-s316-Extreme :
      Ensures (s314 f n a) (Extreme f f.lt n a n) × Ensures (s316 f n a) (Extreme f above n a n)
  s314-s316-Extreme = (s314-Extreme, s316-Extreme)
