-- ===== src/Tsvc/Sweep.antt =====
-- Kernels whose iteration i writes index i alone, and reads it, the two before it and the one behind it:
-- s321, s322, s323, s222, s221, s211,
-- s241, s242, s243, s1213, s1244 of emulator/run/src/tsvc. `n` is LEN_1D; `s1` and `s2` are tsvc_s1
-- and tsvc_s2 of emulator/run/common/tsvc_runtime.c.
pub mod Steps
pub mod Solved
use vectorizer_experiments.Base.{ℕ, suc, ◌+◌, ◌-◌, Option, some, ◌>>=◌, load, store, for_range}
use vectorizer_experiments.Tsvc.Memory.{Floats, Memory}

pub data Sweep : Type 0 where
  s321 : Sweep
  s322 : Sweep
  s323 : Sweep
  s222 : Sweep
  s221 : Sweep
  s211 : Sweep
  s241 : Sweep
  s242 : Sweep
  s243 : Sweep
  s1213 : Sweep
  s1244 : Sweep

unfoldable pub s321_body : (f : Floats) → ℕ → ℕ → Memory f → Option (Memory f)
s321_body f n i s = do
  a_i ← load n s.a i
  b_i ← load n s.b i
  a_before ← load n s.a (i - 1)
  a ← store n s.a i (f.add a_i (f.mul a_before b_i))
  some (record s { a = a })

unfoldable pub s322_body : (f : Floats) → ℕ → ℕ → Memory f → Option (Memory f)
s322_body f n i s = do
  a_i ← load n s.a i
  a_before ← load n s.a (i - 1)
  b_i ← load n s.b i
  a_twice_before ← load n s.a (i - 2)
  c_i ← load n s.c i
  a ← store n s.a i (f.add (f.add a_i (f.mul a_before b_i)) (f.mul a_twice_before c_i))
  some (record s { a = a })

unfoldable pub s323_body : (f : Floats) → ℕ → ℕ → Memory f → Option (Memory f)
s323_body f n i s = do
  b_before ← load n s.b (i - 1)
  c_i ← load n s.c i
  d_i ← load n s.d i
  a ← store n s.a i (f.add b_before (f.mul c_i d_i))
  new_a_i ← load n a i
  e_i ← load n s.e i
  b ← store n s.b i (f.add new_a_i (f.mul c_i e_i))
  some (record s { a = a; b = b })

unfoldable pub s222_body : (f : Floats) → ℕ → ℕ → Memory f → Option (Memory f)
s222_body f n i s = do
  a_i ← load n s.a i
  b_i ← load n s.b i
  c_i ← load n s.c i
  a ← store n s.a i (f.add a_i (f.mul b_i c_i))
  e_before ← load n s.e (i - 1)
  e ← store n s.e i (f.mul e_before e_before)
  new_a_i ← load n a i
  a_again ← store n a i (f.sub new_a_i (f.mul b_i c_i))
  some (record s { a = a_again; e = e })

unfoldable pub s221_body : (f : Floats) → ℕ → ℕ → Memory f → Option (Memory f)
s221_body f n i s = do
  a_i ← load n s.a i
  c_i ← load n s.c i
  d_i ← load n s.d i
  a ← store n s.a i (f.add a_i (f.mul c_i d_i))
  b_before ← load n s.b (i - 1)
  new_a_i ← load n a i
  b ← store n s.b i (f.add (f.add b_before new_a_i) d_i)
  some (record s { a = a; b = b })

unfoldable pub s211_body : (f : Floats) → ℕ → ℕ → Memory f → Option (Memory f)
s211_body f n i s = do
  b_before ← load n s.b (i - 1)
  c_i ← load n s.c i
  d_i ← load n s.d i
  a ← store n s.a i (f.add b_before (f.mul c_i d_i))
  b_after ← load n s.b (i + 1)
  e_i ← load n s.e i
  b ← store n s.b i (f.sub b_after (f.mul e_i d_i))
  some (record s { a = a; b = b })

unfoldable pub s241_body : (f : Floats) → ℕ → ℕ → Memory f → Option (Memory f)
s241_body f n i s = do
  b_i ← load n s.b i
  c_i ← load n s.c i
  d_i ← load n s.d i
  a ← store n s.a i (f.mul (f.mul b_i c_i) d_i)
  new_a_i ← load n a i
  a_after ← load n a (i + 1)
  b ← store n s.b i (f.mul (f.mul new_a_i a_after) d_i)
  some (record s { a = a; b = b })

unfoldable pub s242_body : (f : Floats) → f.Real → f.Real → ℕ → ℕ → Memory f → Option (Memory f)
s242_body f s1 s2 n i s = do
  a_before ← load n s.a (i - 1)
  b_i ← load n s.b i
  c_i ← load n s.c i
  d_i ← load n s.d i
  a ← store n s.a i (f.add (f.add (f.add (f.add (f.add a_before s1) s2) b_i) c_i) d_i)
  some (record s { a = a })

unfoldable pub s243_body : (f : Floats) → ℕ → ℕ → Memory f → Option (Memory f)
s243_body f n i s = do
  b_i ← load n s.b i
  c_i ← load n s.c i
  d_i ← load n s.d i
  a ← store n s.a i (f.add b_i (f.mul c_i d_i))
  new_a_i ← load n a i
  e_i ← load n s.e i
  b ← store n s.b i (f.add new_a_i (f.mul d_i e_i))
  new_b_i ← load n b i
  a_after ← load n a (i + 1)
  a_again ← store n a i (f.add new_b_i (f.mul a_after d_i))
  some (record s { a = a_again; b = b })

unfoldable pub s1213_body : (f : Floats) → ℕ → ℕ → Memory f → Option (Memory f)
s1213_body f n i s = do
  b_before ← load n s.b (i - 1)
  c_i ← load n s.c i
  a ← store n s.a i (f.add b_before c_i)
  a_after ← load n a (i + 1)
  d_i ← load n s.d i
  b ← store n s.b i (f.mul a_after d_i)
  some (record s { a = a; b = b })

unfoldable pub s1244_body : (f : Floats) → ℕ → ℕ → Memory f → Option (Memory f)
s1244_body f n i s = do
  b_i ← load n s.b i
  c_i ← load n s.c i
  a ← store n s.a i (f.add (f.add (f.add b_i (f.mul c_i c_i)) (f.mul b_i b_i)) c_i)
  new_a_i ← load n a i
  a_after ← load n a (i + 1)
  d ← store n s.d i (f.add new_a_i a_after)
  some (record s { a = a; d = d })

unfoldable pub sweep_body :
    (f : Floats) → f.Real → f.Real → Sweep → ℕ → ℕ → Memory f → Option (Memory f)
sweep_body f s1 s2 s321 n i s = s321_body f n i s
sweep_body f s1 s2 s322 n i s = s322_body f n i s
sweep_body f s1 s2 s323 n i s = s323_body f n i s
sweep_body f s1 s2 s222 n i s = s222_body f n i s
sweep_body f s1 s2 s221 n i s = s221_body f n i s
sweep_body f s1 s2 s211 n i s = s211_body f n i s
sweep_body f s1 s2 s241 n i s = s241_body f n i s
sweep_body f s1 s2 s242 n i s = s242_body f s1 s2 n i s
sweep_body f s1 s2 s243 n i s = s243_body f n i s
sweep_body f s1 s2 s1213 n i s = s1213_body f n i s
sweep_body f s1 s2 s1244 n i s = s1244_body f n i s

-- The first index of the loop, and the index at which it ends.
abbrev pub lowest : Sweep → ℕ
lowest s321 = 1
lowest s322 = 2
lowest s323 = 1
lowest s222 = 1
lowest s221 = 1
lowest s211 = 1
lowest s241 = 0
lowest s242 = 1
lowest s243 = 0
lowest s1213 = 1
lowest s1244 = 0

abbrev pub highest : Sweep → ℕ → ℕ
highest s321 n = n
highest s322 n = n
highest s323 n = n
highest s222 n = n
highest s221 n = n
highest s211 n = n - 1
highest s241 n = n - 1
highest s242 n = n
highest s243 n = n - 1
highest s1213 n = n - 1
highest s1244 n = n - 1

unfoldable pub sweep : (f : Floats) → f.Real → f.Real → Sweep → ℕ → Memory f → Option (Memory f)
sweep f s1 s2 k n s = for_range (lowest k) (highest k n) (sweep_body f s1 s2 k n) s
