-- ===== src/Dlmul/Micro.antt =====
-- The microbenchmarks of emulator/run/src/dlmul-synthesis/microbench: mb2_memory_phase,
-- mb3_fractional_rescue,
-- mb6_stream_count_sweep, mb7_pure_compute and mb10_spill_surrogate. The LMUL of the variant, the number
-- of elements and the number of outer iterations, macros of the build, are arguments.
pub mod Rows
pub mod Steps
pub mod Sweeps
use vectorizer_experiments.Base.{ℕ, zero, suc, ◌+◌, ◌*◌, Option, some, ◌>>=◌, for_up}
use vectorizer_experiments.Dlmul.Rvv.{Lmul, Rvv, Memory, area, load_vec, store_vec}
use vectorizer_experiments.Dlmul.Strip.{strip_while}

-- The driver that the kernels share: `iters` sweeps over `total` elements.
unfoldable pub sweeps :
    (r : Rvv) → ℕ → ℕ → (ℕ → ℕ → Memory r → Option (ℕ × Memory r)) → Memory r → Option (Memory r)
sweeps r iters total step st = for_up iters (λ _ s. strip_while (suc total) step 0 total s) st

unfoldable pub mb2_step : (r : Rvv) → Lmul → ℕ → ℕ → Memory r → Option (ℕ × Memory r)
mb2_step r l offset avl st = do
  let vl = r.vsetvl l avl
  vb ← load_vec r l r.len_1d st.b offset vl
  vc ← load_vec r l r.len_1d st.c offset vl
  let out = r.vfadd_vv l vb vc vl
  a ← store_vec r l r.len_1d st.a offset out vl
  some (vl, record st { a = a })

unfoldable pub mb2_kernel : (r : Rvv) → Lmul → ℕ → ℕ → Memory r → Option (Memory r)
mb2_kernel r l total iters st = sweeps r iters total (mb2_step r l) st

unfoldable pub mb3_step : (r : Rvv) → Lmul → ℕ → ℕ → Memory r → Option (ℕ × Memory r)
mb3_step r l offset avl st = do
  let vl = r.vsetvl l avl
  v0 ← load_vec r l r.len_1d st.a offset vl
  v1 ← load_vec r l r.len_1d st.b offset vl
  v2 ← load_vec r l r.len_1d st.c offset vl
  v3 ← load_vec r l r.len_1d st.d offset vl
  v4 ← load_vec r l r.len_1d st.e offset vl
  v5 ← load_vec r l r.len_1d st.x offset vl
  v6 ← load_vec r l (area r) st.aa offset vl
  v7 ← load_vec r l (area r) st.flat_2d_array offset vl
  let acc = r.vfadd_vv l v0 v1 vl
  let acc' = r.vfadd_vv l acc (r.vfmul_vv l v2 v3 vl) vl
  let acc'' = r.vfadd_vv l acc' (r.vfmul_vv l v4 v5 vl) vl
  let less = r.vfsub_vv l acc'' v6 vl
  let out = r.vfadd_vv l less v7 vl
  d ← store_vec r l r.len_1d st.d offset out vl
  some (vl, record st { d = d })

unfoldable pub mb3_kernel : (r : Rvv) → Lmul → ℕ → ℕ → Memory r → Option (Memory r)
mb3_kernel r l total iters st = sweeps r iters total (mb3_step r l) st

-- `MB6_SHAPE`.
pub data Shape : Type 0 where
  shape_1 : Shape
  shape_2 : Shape
  shape_3 : Shape
  shape_4 : Shape

-- The vector that `mb6_step` stores.
unfoldable pub mb6_out :
    (r : Rvv) (l : Lmul) → Shape → ℕ → ℕ → Memory r → r.Vec l → Option (r.Vec l)
mb6_out r l shape_1 offset vl st vx = some vx
mb6_out r l shape_2 offset vl st vx =
    some (r.vfadd_vf l (r.vfmul_vf l vx (r.lit 5 4) vl) (r.lit 1 2) vl)
mb6_out r l shape_3 offset vl st vx =
    load_vec r l r.len_1d st.c offset vl >>= λ vz. some (r.vfadd_vv l vx vz vl)
mb6_out r l shape_4 offset vl st vx = load_vec r l r.len_1d st.c offset vl >>= λ vz.
    some (r.vfadd_vv l (r.vfmul_vf l vx (r.lit 5 4) vl) vz vl)

unfoldable pub mb6_step : (r : Rvv) → Lmul → Shape → ℕ → ℕ → Memory r → Option (ℕ × Memory r)
mb6_step r l shape offset avl st = do
  let vl = r.vsetvl l avl
  vx ← load_vec r l r.len_1d st.b offset vl
  out ← mb6_out r l shape offset vl st vx
  a ← store_vec r l r.len_1d st.a offset out vl
  some (vl, record st { a = a })

unfoldable pub mb6_kernel : (r : Rvv) → Lmul → Shape → ℕ → ℕ → Memory r → Option (Memory r)
mb6_kernel r l shape total iters st = sweeps r iters total (mb6_step r l shape) st

-- `MB7_OP`.
pub data ChainOp : Type 0 where
  op_1 : ChainOp
  op_2 : ChainOp

-- The chain of `MB7_CHAIN_DEPTH` dependent operations.
unfoldable pub mb7_chain :
    (r : Rvv) (l : Lmul) → ChainOp → ℕ → r.Vec l → r.Vec l → r.Vec l → ℕ → r.Vec l
mb7_chain r l op zero acc x y vl = acc
mb7_chain r l op_1 (suc depth) acc x y vl = r.vfadd_vv l (mb7_chain r l op_1 depth acc x y vl) x vl
mb7_chain r l op_2 (suc depth) acc x y vl =
    r.vfmacc_vv l (mb7_chain r l op_2 depth acc x y vl) x y vl

unfoldable pub mb7_step : (r : Rvv) → Lmul → ChainOp → ℕ → ℕ → ℕ → Memory r → Option (ℕ × Memory r)
mb7_step r l op depth offset avl st = do
  let vl = r.vsetvl l avl
  acc ← load_vec r l r.len_1d st.a offset vl
  x ← load_vec r l r.len_1d st.b offset vl
  y ← load_vec r l r.len_1d st.c offset vl
  d ← store_vec r l r.len_1d st.d offset (mb7_chain r l op depth acc x y vl) vl
  some (vl, record st { d = d })

unfoldable pub mb7_kernel : (r : Rvv) → Lmul → ChainOp → ℕ → ℕ → ℕ → Memory r → Option (Memory r)
mb7_kernel r l op depth total iters st = sweeps r iters total (mb7_step r l op depth) st

unfoldable pub mb10_compute_step : (r : Rvv) → Lmul → ℕ → ℕ → Memory r → Option (ℕ × Memory r)
mb10_compute_step r l offset avl st = do
  let vl = r.vsetvl l avl
  va ← load_vec r l r.len_1d st.a offset vl
  vb ← load_vec r l r.len_1d st.b offset vl
  d ← store_vec r l r.len_1d st.d offset (r.vfmacc_vv l va vb vb vl) vl
  some (vl, record st { d = d })

unfoldable pub mb10_spill_step : (r : Rvv) → Lmul → ℕ → ℕ → Memory r → Option (ℕ × Memory r)
mb10_spill_step r l offset avl st = do
  let vl = r.vsetvl l avl
  vd ← load_vec r l r.len_1d st.d offset vl
  e ← store_vec r l r.len_1d st.e offset vd vl
  some (vl, record st { e = e })

-- The body of the kernel's loop: the passes of `mb10_spill_step` ignore its result.
unfoldable pub mb10_round : (r : Rvv) → Lmul → ℕ → ℕ → ℕ → Memory r → Option (ℕ × Memory r)
mb10_round r l traffic_level offset avl st = do
  computed ← mb10_compute_step r l offset avl st
  spilled ←
      for_up (traffic_level * 2)
        (λ _ s. mb10_spill_step r l offset computed.0 s >>= λ out. some out.1) computed.1
  some (computed.0, spilled)

unfoldable pub mb10_kernel : (r : Rvv) → Lmul → ℕ → ℕ → ℕ → Memory r → Option (Memory r)
mb10_kernel r l traffic_level total iters st =
    sweeps r iters total (mb10_round r l traffic_level) st
