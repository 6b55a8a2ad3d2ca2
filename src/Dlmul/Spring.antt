-- ===== src/Dlmul/Spring.antt =====
-- The bench db12 of emulator/run/src/dlmul-synthesis/bench, behind the initialisation of its arrays: springs
-- that push along three axes, with a square root and a division in the middle phase.
pub mod Rows
use vectorizer_experiments.Base.{ℕ, Option, some, ◌>>=◌, for_up}
use vectorizer_experiments.Dlmul.Rvv.{Lmul, m2, m4, Rvv, Memory, load_vec, store_vec}
use vectorizer_experiments.Dlmul.Bench.{Variant, fixed, dynamic, bench_sweep, chunks}

abbrev pub db12_total : ℕ
db12_total = 192

abbrev pub db12_iters : ℕ
db12_iters = 24

unfoldable pub db12_seed : (r : Rvv) (l : Lmul) → r.Vec l → r.Vec l → r.Vec l → ℕ → r.Vec l
db12_seed r l dx dy dz vl = r.vfmacc_vv l (r.vfmacc_vv l (r.vfmul_vv l dx dx vl) dy dy vl) dz dz vl

-- `force`, from the squared length.
unfoldable pub db12_force : (r : Rvv) (l : Lmul) → r.Vec l → ℕ → r.Vec l
db12_force r l seed vl =
    let len = r.vfsqrt_v l (r.vfadd_vf l seed (r.lit 1 32) vl) vl in
    let inv = r.vfrdiv_vf l len (r.lit 1 1) vl in
    let spring = r.vfmul_vf l (r.vfadd_vf l len (r.neg (r.lit 5 4)) vl) (r.lit 3 16) vl in
    r.vfmul_vv l spring inv vl

unfoldable pub db12_fixed : (r : Rvv) → Lmul → ℕ → ℕ → Memory r → Option (Memory r)
db12_fixed r l offset avl st = do
  dx ← load_vec r l r.len_1d st.a offset avl
  dy ← load_vec r l r.len_1d st.b offset avl
  dz ← load_vec r l r.len_1d st.c offset avl
  vx ← load_vec r l r.len_1d st.d offset avl
  vy ← load_vec r l r.len_1d st.e offset avl
  vz ← load_vec r l r.len_1d st.x offset avl
  let seed = db12_seed r l dx dy dz avl
  let force = db12_force r l seed avl
  let fx = r.vfmul_vv l force dx avl
  let fy = r.vfmul_vv l force dy avl
  let fz = r.vfmul_vv l force dz avl
  let vx_out = r.vfmacc_vf l vx (r.lit 1 16) fx avl
  let vy_out = r.vfmacc_vf l vy (r.lit 1 16) fy avl
  let vz_out = r.vfmacc_vf l vz (r.lit 1 16) fz avl
  a ← store_vec r l r.len_1d st.a offset vx_out avl
  b ← store_vec r l r.len_1d st.b offset vy_out avl
  c ← store_vec r l r.len_1d st.c offset vz_out avl
  some (record st { a = a; b = b; c = c })

-- One of the vectors fx, fy and fz that `DB12_CHUNK` fills: the force times a distance, part by part.
unfoldable pub db12_push : (r : Rvv) → r.Vec m4 → r.Vec m4 → ℕ → r.Vec m4
db12_push r seed dist avl =
    let part = r.vget m4 m2 in
    chunks r m4 2 avl (λ k vlc. r.vfmul_vv m2 (db12_force r m2 (part seed k) vlc) (part dist k) vlc)

unfoldable pub db12_dynamic : (r : Rvv) → ℕ → ℕ → Memory r → Option (Memory r)
db12_dynamic r offset avl st = do
  dx ← load_vec r m4 r.len_1d st.a offset avl
  dy ← load_vec r m4 r.len_1d st.b offset avl
  dz ← load_vec r m4 r.len_1d st.c offset avl
  vx ← load_vec r m4 r.len_1d st.d offset avl
  vy ← load_vec r m4 r.len_1d st.e offset avl
  vz ← load_vec r m4 r.len_1d st.x offset avl
  let seed = db12_seed r m4 dx dy dz avl
  let vx_out = r.vfmacc_vf m4 vx (r.lit 1 16) (db12_push r seed dx avl) avl
  let vy_out = r.vfmacc_vf m4 vy (r.lit 1 16) (db12_push r seed dy avl) avl
  let vz_out = r.vfmacc_vf m4 vz (r.lit 1 16) (db12_push r seed dz avl) avl
  a ← store_vec r m4 r.len_1d st.a offset vx_out avl
  b ← store_vec r m4 r.len_1d st.b offset vy_out avl
  c ← store_vec r m4 r.len_1d st.c offset vz_out avl
  some (record st { a = a; b = b; c = c })

unfoldable pub db12_sweep : (r : Rvv) → Variant → Memory r → Option (Memory r)
db12_sweep r (fixed l) st = bench_sweep r l db12_total (db12_fixed r l) st
db12_sweep r dynamic st = bench_sweep r m4 db12_total (db12_dynamic r) st

unfoldable pub db12_kernel : (r : Rvv) → Variant → Memory r → Option (Memory r)
db12_kernel r variant st = for_up db12_iters (λ _ s. db12_sweep r variant s) st
