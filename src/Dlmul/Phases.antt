-- ===== src/Dlmul/Phases.antt =====
-- mb9_phase_length_sweep of emulator/run/src/dlmul-synthesis/microbench: three loops in an outer iteration.
-- The two LMULs of a pattern and the numbers of elements are arguments.
pub mod Rows
use vectorizer_experiments.Base.{ℕ, suc, ◌+◌, ◌*◌, Option, some, ◌>>=◌, for_up}
use vectorizer_experiments.Dlmul.Rvv.{Lmul, Rvv, Memory, area, load_vec, store_vec}
use vectorizer_experiments.Dlmul.Strip.{strip_while}

-- The phases of mb9, the first and the third in one LMUL, the second in another.
unfoldable pub mb9_phase1_step : (r : Rvv) → Lmul → ℕ → ℕ → Memory r → Option (ℕ × Memory r)
mb9_phase1_step r l offset avl st = do
  let vl = r.vsetvl l avl
  va ← load_vec r l r.len_1d st.a offset vl
  vb ← load_vec r l r.len_1d st.b offset vl
  let out = r.vfadd_vv l va vb vl
  d ← store_vec r l r.len_1d st.d offset out vl
  some (vl, record st { d = d })

unfoldable pub mb9_phase2_step : (r : Rvv) → Lmul → ℕ → ℕ → Memory r → Option (ℕ × Memory r)
mb9_phase2_step r l offset avl st = do
  let vl = r.vsetvl l avl
  vd ← load_vec r l r.len_1d st.d offset vl
  ve ← load_vec r l r.len_1d st.e offset vl
  vc ← load_vec r l r.len_1d st.c offset vl
  let out = r.vfmacc_vv l vd ve vc vl
  flat ← store_vec r l (area r) st.flat_2d_array offset out vl
  some (vl, record st { flat_2d_array = flat })

unfoldable pub mb9_phase3_step : (r : Rvv) → Lmul → ℕ → ℕ → Memory r → Option (ℕ × Memory r)
mb9_phase3_step r l offset avl st = do
  let vl = r.vsetvl l avl
  vd ← load_vec r l r.len_1d st.d offset vl
  vt ← load_vec r l (area r) st.flat_2d_array offset vl
  let out = r.vfadd_vv l vd vt vl
  e ← store_vec r l r.len_1d st.e offset out vl
  some (vl, record st { e = e })

-- The three loops of an outer iteration.
unfoldable pub mb9_sweep : (r : Rvv) → Lmul → Lmul → ℕ → ℕ → Memory r → Option (Memory r)
mb9_sweep r l_1 l_2 total_1 total_2 st = do
  one ← strip_while (suc total_1) (mb9_phase1_step r l_1) 0 total_1 st
  two ← strip_while (suc total_2) (mb9_phase2_step r l_2) 0 total_2 one
  strip_while (suc total_1) (mb9_phase3_step r l_1) 0 total_1 two

unfoldable pub mb9_kernel : (r : Rvv) → Lmul → Lmul → ℕ → ℕ → ℕ → Memory r → Option (Memory r)
mb9_kernel r l_1 l_2 total_1 total_2 iters st =
    for_up iters (λ _ s. mb9_sweep r l_1 l_2 total_1 total_2 s) st
