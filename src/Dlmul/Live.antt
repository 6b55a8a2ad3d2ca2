-- ===== src/Dlmul/Live.antt =====
-- mb8_live_temporary_sweep of emulator/run/src/dlmul-synthesis/microbench, in its classes 1 and 2. The LMUL,
-- the class, MB8_K, the number of elements and of outer iterations are arguments.
pub mod Rows
use vectorizer_experiments.Base.{ℕ, ◌+◌, ◌*◌, Option, some, leb, if◌then◌else◌, ◌>>=◌}
use vectorizer_experiments.Dlmul.Rvv.{Lmul, Rvv, Memory, area, load_vec, store_vec}
use vectorizer_experiments.Dlmul.Micro.{sweeps}

-- `MB8_CLASS`.
pub data Mb8Class : Type 0 where
  class_1 : Mb8Class
  class_2 : Mb8Class

-- Two temporaries go into the result.
unfoldable pub mb8_pair :
    (r : Rvv) (l : Lmul) → Mb8Class → r.Vec l → r.Vec l → r.Vec l → ℕ → r.Vec l
mb8_pair r l class_1 out u v vl = r.vfadd_vv l (r.vfadd_vv l out u vl) v vl
mb8_pair r l class_2 out u v vl = r.vfmacc_vv l out u v vl

-- The block of `MB8_K >= 4`.
unfoldable pub mb8_block_4 :
    (r : Rvv) (l : Lmul) → Mb8Class → ℕ → ℕ → Memory r → r.Vec l → Option (r.Vec l)
mb8_block_4 r l class offset vl st out = do
  t2 ← load_vec r l r.len_1d st.c offset vl
  t3 ← load_vec r l r.len_1d st.d offset vl
  some (mb8_pair r l class out t2 t3 vl)

-- The block of `MB8_K >= 8`.
unfoldable pub mb8_block_8 :
    (r : Rvv) (l : Lmul) → Mb8Class → ℕ → ℕ → Memory r → r.Vec l → Option (r.Vec l)
mb8_block_8 r l class offset vl st out = do
  t4 ← load_vec r l r.len_1d st.e offset vl
  t5 ← load_vec r l r.len_1d st.x offset vl
  t6 ← load_vec r l (area r) st.aa offset vl
  t7 ← load_vec r l (area r) st.bb offset vl
  some (mb8_pair r l class (mb8_pair r l class out t4 t5 vl) t6 t7 vl)

-- The block of `MB8_K >= 12`.
unfoldable pub mb8_block_12 :
    (r : Rvv) (l : Lmul) → Mb8Class → ℕ → ℕ → Memory r → r.Vec l → Option (r.Vec l)
mb8_block_12 r l class offset vl st out = do
  t8 ← load_vec r l (area r) st.cc offset vl
  t9 ← load_vec r l (area r) st.tt offset vl
  t10 ← load_vec r l (area r) st.flat_2d_array offset vl
  t11 ← load_vec r l r.len_1d st.a offset vl
  some (mb8_pair r l class (mb8_pair r l class out t8 t9 vl) t10 t11 vl)

unfoldable pub mb8_step : (r : Rvv) → Lmul → Mb8Class → ℕ → ℕ → ℕ → Memory r → Option (ℕ × Memory r)
mb8_step r l class k offset avl st = do
  let vl = r.vsetvl l avl
  t0 ← load_vec r l r.len_1d st.a offset vl
  t1 ← load_vec r l r.len_1d st.b offset vl
  let out = r.vfadd_vv l t0 t1 vl
  out_4 ← if leb 4 k then mb8_block_4 r l class offset vl st out else some out
  out_8 ← if leb 8 k then mb8_block_8 r l class offset vl st out_4 else some out_4
  out_12 ← if leb 12 k then mb8_block_12 r l class offset vl st out_8 else some out_8
  a ← store_vec r l r.len_1d st.a offset out_12 vl
  some (vl, record st { a = a })

unfoldable pub mb8_kernel : (r : Rvv) → Lmul → Mb8Class → ℕ → ℕ → ℕ → Memory r → Option (Memory r)
mb8_kernel r l class k total iters st = sweeps r iters total (mb8_step r l class k) st
