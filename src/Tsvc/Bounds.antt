-- ===== src/Tsvc/Bounds.antt =====
-- Kernels that stay inside their arrays at some sizes only: s351 and s424 of emulator/run/src/tsvc.
use vectorizer_experiments.Base.{
  ℕ, suc, ◌+◌, ◌-◌, ◌*◌, ◌/◌, ◌%◌, Option, none, some, ◌>>=◌, if◌then◌else◌, load, store, for_up,
  for_up-Ensures, for_up-none, bind-none, ◌≤◌, ◌<◌, ◌≡◌, ◌≢◌, refl, sym, fun_ext, load-some,
  store-some, update, Ensures, Ensures-some, Ensures-bind, arith, ltb, leb, ◌&&◌, ◌==◌, Bool-cases,
  inl, inr,
}
use vectorizer_experiments.Tsvc.Memory.{Floats, Memory}
use vectorizer_experiments.Tsvc.Dependence.Ahead.{OnA}

-- a[i] += alpha * b[i].
unfoldable pub saxpy : (f : Floats) → ℕ → f.Real → ℕ → Memory f → Option (Memory f)
saxpy f n alpha i s = do
  a_i ← load n s.a i
  b_i ← load n s.b i
  a ← store n s.a i (f.add a_i (f.mul alpha b_i))
  some (record s { a = a })

unfoldable pub s351_body : (f : Floats) → ℕ → f.Real → ℕ → Memory f → Option (Memory f)
s351_body f n alpha i s = do
  s0 ← saxpy f n alpha i s
  s1 ← saxpy f n alpha (i + 1) s0
  s2 ← saxpy f n alpha (i + 2) s1
  s3 ← saxpy f n alpha (i + 3) s2
  saxpy f n alpha (i + 4) s3

-- for (i = 0; i < LEN_1D; i += 5): round r has i = 5 * r.
unfoldable pub s351 : (f : Floats) → ℕ → Memory f → Option (Memory f)
s351 f n s = do alpha ← load n s.c 0; for_up ((n + 4) / 5) (λ r. s351_body f n alpha (5 * r)) s

-- flat_2d_array has `m` elements; xx is flat_2d_array + 63.
unfoldable pub s424_body :
    (f : Floats) → ℕ → ℕ → (ℕ → f.Real) → ℕ → (ℕ → f.Real) → Option (ℕ → f.Real)
s424_body f n m a i flat = do
  flat_i ← load m flat i
  a_i ← load n a i
  store m flat (63 + (i + 1)) (f.add flat_i a_i)

unfoldable pub s424 : (f : Floats) → ℕ → ℕ → (ℕ → f.Real) → (ℕ → f.Real) → Option (ℕ → f.Real)
s424 f n m a flat = for_up (n - 1) (s424_body f n m a) flat

load-none {ℓ} : {A : Type ℓ} (len : ℕ) (t : ℕ → A) (i : ℕ) → len ≤ i → load len t i ≡ none
unfolding load
load-none len t i le = ground arith

store-none {ℓ} :
    {A : Type ℓ} (len : ℕ) (t : ℕ → A) (i : ℕ) (v : A) → len ≤ i → store len t i v ≡ none
unfolding store
store-none len t i v le = ground arith

module _ (f : Floats) (n : ℕ) (s : Memory f) where
  abbrev pub scaled : ℕ → f.Real
  scaled j = f.add (s.a j) (f.mul (s.c 0) (s.b j))

  saxpy-OnA :
      (i next : ℕ) (t : Memory f)
      → next ≡ i + 1
      → i < n
      → OnA f n s 0 i scaled t
      → Ensures (saxpy f n (s.c 0) i t) (OnA f n s 0 next scaled)
  unfolding saxpy update
  saxpy-OnA i next t e lt p =
      rw
        (
          p.1,
          load-some n t.a i (omega arith),
          load-some n s.b i (omega arith),
          store-some n t.a i _ (omega arith),
          p.0 i,
        )
        (Ensures-some _ _ ((λ j. ground (arith, p.0 j)), refl))

  s351_body-OnA :
      (r : ℕ)
      → n % 5 ≡ 0
      → r < (n + 4) / 5
      → (t : Memory f) → OnA f n s 0 (5 * r) scaled t
      → Ensures (s351_body f n (s.c 0) (5 * r) t) (OnA f n s 0 (5 * suc r) scaled)
  unfolding s351_body
  s351_body-OnA r whole lt t p =
      let i = 5 * r in
      let e : i + 5 ≡ 5 * suc r = omega arith in
      rw (sym e) (
        Ensures-bind _ _ _ _ (saxpy-OnA i (i + 1) t (omega arith) (omega arith) p) λ t0 p0.
          Ensures-bind _ _ _ _ (saxpy-OnA (i + 1) (i + 2) t0 (omega arith) (omega arith) p0)
            λ t1 p1.
              Ensures-bind _ _ _ _ (saxpy-OnA (i + 2) (i + 3) t1 (omega arith) (omega arith) p1)
                λ t2 p2.
                  Ensures-bind _ _ _ _ (saxpy-OnA (i + 3) (i + 4) t2 (omega arith) (omega arith) p2)
                    λ t3 p3. saxpy-OnA (i + 4) (i + 5) t3 (omega arith) (omega arith) p3)

  s351-whole : 0 < n → n % 5 ≡ 0 → Ensures (s351 f n s) (OnA f n s 0 n scaled)
  unfolding s351
  s351-whole some_elements whole =
      let finish : 5 * ((n + 4) / 5) ≡ n = omega arith in
      rw (load-some n s.c 0 some_elements) (
        rw finish at (
          for_up-Ensures (λ r. OnA f n s 0 (5 * r) scaled) ((n + 4) / 5)
            (λ r. s351_body f n (s.c 0) (5 * r)) (λ r. s351_body-OnA r whole) s
            ((λ j. ground arith), refl)))

  saxpy-none : (alpha : f.Real) (i : ℕ) (t : Memory f) → n ≤ i → saxpy f n alpha i t ≡ none
  unfolding saxpy
  saxpy-none alpha i t le = rw (load-none n t.a i le) refl

  s351_body-none :
      (alpha : f.Real) (i : ℕ) (t : Memory f) → n ≤ i + 4 → s351_body f n alpha i t ≡ none
  unfolding s351_body
  s351_body-none alpha i t le = bind-none (saxpy f n alpha i t) _ λ t0.
      bind-none (saxpy f n alpha (i + 1) t0) _ λ t1.
        bind-none (saxpy f n alpha (i + 2) t1) _
          λ t2. bind-none (saxpy f n alpha (i + 3) t2) _ λ t3. saxpy-none alpha (i + 4) t3 le

  s351-part : n % 5 ≢ 0 → s351 f n s ≡ none
  unfolding s351
  s351-part part = rw (load-some n s.c 0 (ground arith)) (
      for_up-none ((n + 4) / 5) (n / 5) (λ r. s351_body f n (s.c 0) (5 * r)) s (ground arith)
        λ t. s351_body-none (s.c 0) (5 * (n / 5)) t (ground arith))

  -- Where there is an element, s351 adds the multiple of b by the first element of c to every
  -- element of a if LEN_1D is a multiple of 5, and otherwise leaves its arrays.
  pub s351-whole-part :
      0 < n
      → s351 f n s ≡ (
          if n % 5 == 0
          then some (record s { a = λ j. if ltb j n then scaled j else s.a j })
          else none)
  s351-whole-part some_elements = elim (Bool-cases (n % 5 == 0)) [
    | inl whole ↦
        let h = s351-whole some_elements (ground (arith, whole)) in
        let cell : (j : ℕ) → h.value.a j ≡ (if ltb j n then scaled j else s.a j) =
          λ j. ground (arith, h.holds.0 j) in
        let same : h.value.a ≡ (λ j. if ltb j n then scaled j else s.a j) = fun_ext cell in
        rw (whole, h.returns, h.holds.1, same) refl
    | inr part ↦ rw (part) (s351-part (ground (arith, part)))
  ]

module _ (f : Floats) (n m : ℕ) (a flat : ℕ → f.Real) where
  -- The first i elements behind flat_2d_array[63] are sums of the elements 64 before them.
  abbrev pub Strips : ℕ → (ℕ → f.Real) → Type 0
  Strips i t =
      (j : ℕ)
      → t j ≡ (if leb 64 j && ltb j (64 + i) then f.add (t (j - 64)) (a (j - 64)) else flat j)

  s424_body-Strips :
      (i : ℕ)
      → n + 63 ≤ m
      → i < n - 1
      → (t : ℕ → f.Real) → Strips i t
      → Ensures (s424_body f n m a i t) (Strips (suc i))
  unfolding s424_body update
  s424_body-Strips i le lt t p =
      rw
        (
          load-some m t i (omega arith),
          load-some n a i (omega arith),
          store-some m t (63 + (i + 1)) (f.add (t i) (a i)) (omega arith),
        )
        (Ensures-some _ _ λ j. ground (arith, p j))

  -- With at least LEN_1D + 63 elements in flat_2d_array, s424 returns, and the LEN_1D - 1 elements
  -- from 64 on are the sum of the new element 64 places before and the element of a there; the
  -- others are as before.
  pub s424-fits : n + 63 ≤ m → Ensures (s424 f n m a flat) (Strips (n - 1))
  unfolding s424
  s424-fits le =
      for_up-Ensures Strips (n - 1) (s424_body f n m a) (λ i. s424_body-Strips i le) flat
        (λ j. ground arith)

  -- With more than one element in a, and flat_2d_array shorter than LEN_1D + 63, s424 leaves
  -- flat_2d_array.
  pub s424-short : 1 < n → m < n + 63 → s424 f n m a flat ≡ none
  unfolding s424 s424_body
  s424-short some_round short =
      for_up-none (n - 1) (n - 2) (s424_body f n m a) flat (omega arith) λ t.
        bind-none (load m t (n - 2)) _ λ flat_i.
          bind-none (load n a (n - 2)) _ λ a_i. store-none m t (63 + (n - 2 + 1)) _ (omega arith)
