-- ===== src/Tsvc/Dependence.antt =====
-- Kernels whose iterations read what other iterations write: s112, s121, s131, s421, s151, s173, s174,
-- s1421, s212, s1113, s1221, s124, s254 and s291 of emulator/run/src/tsvc. `n` is LEN_1D.
pub mod Ahead
pub mod Halves
pub mod Parallel
pub mod Carried
use vectorizer_experiments.Base.{
  ℕ, suc, ◌+◌, ◌-◌, ◌/◌, Option, some, ◌>>=◌, if◌then◌else◌, load, store, for_up, for_down,
  for_range,
}
use vectorizer_experiments.Tsvc.Memory.{Floats, Memory}

unfoldable pub s112_body : (f : Floats) → ℕ → ℕ → Memory f → Option (Memory f)
s112_body f n i s = do
  a_i ← load n s.a i
  b_i ← load n s.b i
  a ← store n s.a (i + 1) (f.add a_i b_i)
  some (record s { a = a })

-- for (i = LEN_1D - 2; i >= 0; i--).
unfoldable pub s112 : (f : Floats) → ℕ → Memory f → Option (Memory f)
s112 f n s = for_down (n - 1) (s112_body f n) s

unfoldable pub s121_body : (f : Floats) → ℕ → ℕ → Memory f → Option (Memory f)
s121_body f n i s = do
  next ← load n s.a (i + 1)
  b_i ← load n s.b i
  a ← store n s.a i (f.add next b_i)
  some (record s { a = a })

-- s121 and s131.
unfoldable pub s121 : (f : Floats) → ℕ → Memory f → Option (Memory f)
s121 f n s = for_up (n - 1) (s121_body f n) s

unfoldable pub s421_body : (f : Floats) → ℕ → ℕ → Memory f → Option (Memory f)
s421_body f n i s = do
  next ← load n s.c (i + 1)
  a_i ← load n s.a i
  c ← store n s.c i (f.add next a_i)
  some (record s { c = c })

unfoldable pub s421 : (f : Floats) → ℕ → Memory f → Option (Memory f)
s421 f n s = for_up (n - 1) (s421_body f n) s

-- `s151s`, called with m = 1.
unfoldable pub s151s_body : (f : Floats) → ℕ → ℕ → ℕ → Memory f → Option (Memory f)
s151s_body f n m i s = do
  later ← load n s.a (i + m)
  b_i ← load n s.b i
  a ← store n s.a i (f.add later b_i)
  some (record s { a = a })

unfoldable pub s151 : (f : Floats) → ℕ → Memory f → Option (Memory f)
s151 f n s = for_up (n - 1) (s151s_body f n 1) s

-- s173 and s174.
unfoldable pub s173_body : (f : Floats) → ℕ → ℕ → Memory f → Option (Memory f)
s173_body f n i s = do
  let k = n / 2
  a_i ← load n s.a i
  b_i ← load n s.b i
  a ← store n s.a (i + k) (f.add a_i b_i)
  some (record s { a = a })

unfoldable pub s173 : (f : Floats) → ℕ → Memory f → Option (Memory f)
s173 f n s = for_up (n / 2) (s173_body f n) s

-- xx is &b[LEN_1D / 2].
unfoldable pub s1421_body : (f : Floats) → ℕ → ℕ → Memory f → Option (Memory f)
s1421_body f n i s = do
  xx_i ← load n s.b (n / 2 + i)
  a_i ← load n s.a i
  b ← store n s.b i (f.add xx_i a_i)
  some (record s { b = b })

unfoldable pub s1421 : (f : Floats) → ℕ → Memory f → Option (Memory f)
s1421 f n s = for_up (n / 2) (s1421_body f n) s

unfoldable pub s212_body : (f : Floats) → ℕ → ℕ → Memory f → Option (Memory f)
s212_body f n i s = do
  a_i ← load n s.a i
  c_i ← load n s.c i
  a ← store n s.a i (f.mul a_i c_i)
  b_i ← load n s.b i
  next ← load n a (i + 1)
  d_i ← load n s.d i
  b ← store n s.b i (f.add b_i (f.mul next d_i))
  some (record s { a = a; b = b })

unfoldable pub s212 : (f : Floats) → ℕ → Memory f → Option (Memory f)
s212 f n s = for_up (n - 1) (s212_body f n) s

unfoldable pub s1113_body : (f : Floats) → ℕ → ℕ → Memory f → Option (Memory f)
s1113_body f n i s = do
  mid ← load n s.a (n / 2)
  b_i ← load n s.b i
  a ← store n s.a i (f.add mid b_i)
  some (record s { a = a })

unfoldable pub s1113 : (f : Floats) → ℕ → Memory f → Option (Memory f)
s1113 f n s = for_up n (s1113_body f n) s

unfoldable pub s1221_body : (f : Floats) → ℕ → ℕ → Memory f → Option (Memory f)
s1221_body f n i s = do
  before ← load n s.b (i - 4)
  a_i ← load n s.a i
  b ← store n s.b i (f.add before a_i)
  some (record s { b = b })

unfoldable pub s1221 : (f : Floats) → ℕ → Memory f → Option (Memory f)
s1221 f n s = for_range 4 n (s1221_body f n) s

-- `j`, one more than in the source, where it starts at -1, and the arrays.
unfoldable pub s124_body : (f : Floats) → ℕ → ℕ → ℕ × Memory f → Option (ℕ × Memory f)
s124_body f n i (j, s) = do
  b_i ← load n s.b i
  d_i ← load n s.d i
  e_i ← load n s.e i
  let other = load n s.c i
  base ← if f.lt (f.lit 0 1) b_i then some b_i else other
  a ← store n s.a j (f.add base (f.mul d_i e_i))
  some (j + 1, record s { a = a })

unfoldable pub s124 : (f : Floats) → ℕ → Memory f → Option (Memory f)
s124 f n s = for_up n (s124_body f n) (0, s) >>= λ r. some r.1

-- The scalar `x` of s254 and the arrays.
unfoldable pub s254_body : (f : Floats) → ℕ → ℕ → f.Real × Memory f → Option (f.Real × Memory f)
s254_body f n i (x, s) = do
  b_i ← load n s.b i
  a ← store n s.a i (f.mul (f.add b_i x) (f.lit 1 2))
  some (b_i, record s { a = a })

unfoldable pub s254 : (f : Floats) → ℕ → Memory f → Option (Memory f)
s254 f n s = do x ← load n s.b (n - 1); r ← for_up n (s254_body f n) (x, s); some r.1

-- The index `im1` of s291 and the arrays.
unfoldable pub s291_body : (f : Floats) → ℕ → ℕ → ℕ × Memory f → Option (ℕ × Memory f)
s291_body f n i (im1, s) = do
  b_i ← load n s.b i
  before ← load n s.b im1
  a ← store n s.a i (f.mul (f.add b_i before) (f.lit 1 2))
  some (i, record s { a = a })

unfoldable pub s291 : (f : Floats) → ℕ → Memory f → Option (Memory f)
s291 f n s = for_up n (s291_body f n) (n - 1, s) >>= λ r. some r.1
