-- ===== src/Dlmul/Switch.antt =====
-- mb1_switch and mb4_two_phase of emulator/run/src/dlmul-synthesis/microbench: kernels that change the LMUL
-- between loops. The LMULs of a pattern and the numbers of elements and of iterations are arguments.
pub mod Rows
use vectorizer_experiments.Base.{ℕ, suc, ◌+◌, ◌*◌, Option, some, ◌>>=◌, for_up}
use vectorizer_experiments.Dlmul.Rvv.{Lmul, Rvv, Memory, area, load_vec, store_vec}
use vectorizer_experiments.Dlmul.Strip.{strip_while}

unfoldable pub mb1_from_step : (r : Rvv) → Lmul → ℕ → ℕ → Memory r → Option (ℕ × Memory r)
mb1_from_step r l offset avl st = do
  let vl = r.vsetvl l avl
  vb ← load_vec r l r.len_1d st.b offset vl
  vc ← load_vec r l r.len_1d st.c offset vl
  let out = r.vfadd_vv l vb vc vl
  a ← store_vec r l r.len_1d st.a offset out vl
  some (vl, record st { a = a })

unfoldable pub mb1_to_step : (r : Rvv) → Lmul → ℕ → ℕ → Memory r → Option (ℕ × Memory r)
mb1_to_step r l offset avl st = do
  let vl = r.vsetvl l avl
  vd ← load_vec r l r.len_1d st.d offset vl
  ve ← load_vec r l r.len_1d st.e offset vl
  let out = r.vfsub_vv l vd ve vl
  x ← store_vec r l r.len_1d st.x offset out vl
  some (vl, record st { x = x })

unfoldable pub mb1_sweep : (r : Rvv) → Lmul → Lmul → ℕ → ℕ → Memory r → Option (Memory r)
mb1_sweep r from to first second st = do
  one ← strip_while (suc first) (mb1_from_step r from) 0 first st
  strip_while (suc second) (mb1_to_step r to) 0 second one

unfoldable pub mb1_kernel : (r : Rvv) → Lmul → Lmul → ℕ → ℕ → ℕ → Memory r → Option (Memory r)
mb1_kernel r from to first second iters st =
    for_up iters (λ _ s. mb1_sweep r from to first second s) st

unfoldable pub mb4_phase1_step : (r : Rvv) → Lmul → ℕ → ℕ → Memory r → Option (ℕ × Memory r)
mb4_phase1_step r l offset avl st = do
  let vl = r.vsetvl l avl
  va ← load_vec r l r.len_1d st.a offset vl
  vb ← load_vec r l r.len_1d st.b offset vl
  let out = r.vfadd_vv l va vb vl
  d ← store_vec r l r.len_1d st.d offset out vl
  some (vl, record st { d = d })

unfoldable pub mb4_phase2_step : (r : Rvv) → Lmul → ℕ → ℕ → Memory r → Option (ℕ × Memory r)
mb4_phase2_step r l offset avl st = do
  let vl = r.vsetvl l avl
  vd ← load_vec r l r.len_1d st.d offset vl
  ve ← load_vec r l r.len_1d st.e offset vl
  vc ← load_vec r l r.len_1d st.c offset vl
  vx ← load_vec r l r.len_1d st.x offset vl
  let acc = r.vfmul_vv l vd ve vl
  let acc' = r.vfadd_vv l acc (r.vfmul_vv l vc vx vl) vl
  let acc'' = r.vfadd_vv l acc' vd vl
  flat ← store_vec r l (area r) st.flat_2d_array offset acc'' vl
  some (vl, record st { flat_2d_array = flat })

unfoldable pub mb4_phase3_step : (r : Rvv) → Lmul → ℕ → ℕ → Memory r → Option (ℕ × Memory r)
mb4_phase3_step r l offset avl st = do
  let vl = r.vsetvl l avl
  vd ← load_vec r l r.len_1d st.d offset vl
  vt ← load_vec r l (area r) st.flat_2d_array offset vl
  let out = r.vfadd_vv l vd vt vl
  e ← store_vec r l r.len_1d st.e offset out vl
  some (vl, record st { e = e })

unfoldable pub mb4_sweep : (r : Rvv) → Lmul → Lmul → ℕ → ℕ → Memory r → Option (Memory r)
mb4_sweep r l_1 l_2 total_1 total_2 st = do
  one ← strip_while (suc total_1) (mb4_phase1_step r l_1) 0 total_1 st
  two ← strip_while (suc total_2) (mb4_phase2_step r l_2) 0 total_2 one
  strip_while (suc total_1) (mb4_phase3_step r l_1) 0 total_1 two

unfoldable pub mb4_kernel : (r : Rvv) → Lmul → Lmul → ℕ → ℕ → ℕ → Memory r → Option (Memory r)
mb4_kernel r l_1 l_2 total_1 total_2 iters st =
    for_up iters (λ _ s. mb4_sweep r l_1 l_2 total_1 total_2 s) st
