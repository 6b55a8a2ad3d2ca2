-- ===== src/Tsvc/Straight.antt =====
-- Iterations that work on one index, without a branch:
-- s000, s1112, s1251, s1281, s251, s452, s1351, s431, s4121 of emulator/run/src/tsvc.
use vectorizer_experiments.Base.{ℕ, ◌+◌, ◌-◌, ◌*◌, Option, some, ◌>>=◌, load, store}
use vectorizer_experiments.Tsvc.Memory.{Floats, Memory}

unfoldable pub s000_body : (f : Floats) → ℕ → ℕ → Memory f → Option (Memory f)
s000_body f n i s = do
  b_i ← load n s.b i
  c_i ← load n s.c i
  a ← store n s.a i (f.add b_i c_i)
  some (record s { a = a })

unfoldable pub s1112_body : (f : Floats) → ℕ → ℕ → Memory f → Option (Memory f)
s1112_body f n i s = do
  b_i ← load n s.b i
  a ← store n s.a i (f.add b_i (f.lit 1 1))
  some (record s { a = a })

unfoldable pub s1251_body : (f : Floats) → ℕ → ℕ → Memory f → Option (Memory f)
s1251_body f n i s = do
  b_i ← load n s.b i
  c_i ← load n s.c i
  let t = f.add b_i c_i
  a_i ← load n s.a i
  d_i ← load n s.d i
  b ← store n s.b i (f.add a_i d_i)
  e_i ← load n s.e i
  a ← store n s.a i (f.mul t e_i)
  some (record s { a = a; b = b })

unfoldable pub s1281_body : (f : Floats) → ℕ → ℕ → Memory f → Option (Memory f)
s1281_body f n i s = do
  b_i ← load n s.b i
  c_i ← load n s.c i
  a_i ← load n s.a i
  d_i ← load n s.d i
  e_i ← load n s.e i
  let x = f.add (f.add (f.mul b_i c_i) (f.mul a_i d_i)) e_i
  a ← store n s.a i (f.sub x (f.lit 1 1))
  b ← store n s.b i x
  some (record s { a = a; b = b })

unfoldable pub s251_body : (f : Floats) → ℕ → ℕ → Memory f → Option (Memory f)
s251_body f n i s = do
  b_i ← load n s.b i
  c_i ← load n s.c i
  d_i ← load n s.d i
  let t = f.add b_i (f.mul c_i d_i)
  a ← store n s.a i (f.mul t t)
  some (record s { a = a })

unfoldable pub s452_body : (f : Floats) → ℕ → ℕ → Memory f → Option (Memory f)
s452_body f n i s = do
  b_i ← load n s.b i
  c_i ← load n s.c i
  a ← store n s.a i (f.add b_i (f.mul c_i (f.of_nat (i + 1))))
  some (record s { a = a })

-- The pointers A, B and C run along with i.
unfoldable pub s1351_body : (f : Floats) → ℕ → ℕ → Memory f → Option (Memory f)
s1351_body f n i s = do
  b_i ← load n s.b i
  c_i ← load n s.c i
  a ← store n s.a i (f.add b_i c_i)
  some (record s { a = a })

-- k is 2 * k1 - k2 with k1 = 1 and k2 = 2.
unfoldable pub s431_body : (f : Floats) → ℕ → ℕ → Memory f → Option (Memory f)
s431_body f n i s = do
  a_k ← load n s.a (i + (2 * 1 - 2))
  b_i ← load n s.b i
  a ← store n s.a i (f.add a_k b_i)
  some (record s { a = a })

-- `f` is the function of emulator/run/common/tsvc_runtime.c, the product.
unfoldable pub s4121_body : (f : Floats) → ℕ → ℕ → Memory f → Option (Memory f)
s4121_body f n i s = do
  a_i ← load n s.a i
  b_i ← load n s.b i
  c_i ← load n s.c i
  a ← store n s.a i (f.add a_i (f.mul b_i c_i))
  some (record s { a = a })
