-- ===== src/Dlmul/Gamma.antt =====
-- The benches db9 and db11 of emulator/run/src/dlmul-synthesis/bench, behind the initialisation of their arrays:
-- colour to luma, a gamma phase with many products, and a blend.
pub mod Phases
pub mod Rows
use vectorizer_experiments.Base.{ℕ, ◌+◌, Option, some, ◌>>=◌, for_up}
use vectorizer_experiments.Dlmul.Rvv.{Lmul, m2, m4, m8, Rvv, Memory, area, load_vec, store_vec}
use vectorizer_experiments.Dlmul.Bench.{Variant, fixed, dynamic, bench_sweep, chunks, store_chunks}

abbrev pub db11_total : ℕ
db11_total = 192

abbrev pub db11_iters : ℕ
db11_iters = 34

unfoldable pub db11_luma : (r : Rvv) (l : Lmul) → r.Vec l → r.Vec l → r.Vec l → ℕ → r.Vec l
db11_luma r l red g b0 vl = r.vfmacc_vf l (r.vfmacc_vf l red (r.lit 1 2) g vl) (r.lit 1 4) b0 vl

unfoldable pub db11_gamma :
    (r : Rvv) (l : Lmul) → r.Vec l → r.Vec l → r.Vec l → r.Vec l → r.Vec l → ℕ → r.Vec l
db11_gamma r l y u v k0 k1 vl =
    let p0 = r.vfmul_vv l y y vl in
    let p1 = r.vfmul_vv l u u vl in
    let p2 = r.vfmul_vv l v v vl in
    let p3 = r.vfmul_vv l y u vl in
    let p4 = r.vfadd_vv l p0 p1 vl in
    let out = r.vfmacc_vv l y p0 k0 vl in
    let with_p1 = r.vfmacc_vv l out p1 k1 vl in
    let with_p2 = r.vfmacc_vf l with_p1 (r.lit 1 8) p2 vl in
    let with_p3 = r.vfmacc_vf l with_p2 (r.lit 1 16) p3 vl in
    r.vfmacc_vf l with_p3 (r.lit 1 32) p4 vl

unfoldable pub db11_fixed : (r : Rvv) → Lmul → ℕ → ℕ → Memory r → Option (Memory r)
db11_fixed r l offset avl st = do
  red ← load_vec r l r.len_1d st.a offset avl
  g ← load_vec r l r.len_1d st.b offset avl
  b0 ← load_vec r l r.len_1d st.c offset avl
  u ← load_vec r l r.len_1d st.d offset avl
  v ← load_vec r l r.len_1d st.e offset avl
  k0 ← load_vec r l r.len_1d st.x offset avl
  k1 ← load_vec r l (area r) st.flat_2d_array offset avl
  let y = db11_luma r l red g b0 avl
  let gamma = db11_gamma r l y u v k0 k1 avl
  let out = r.vfmacc_vf l y (r.lit 1 4) gamma avl
  a ← store_vec r l r.len_1d st.a offset y avl
  b ← store_vec r l r.len_1d st.b offset gamma avl
  c ← store_vec r l r.len_1d st.c offset out avl
  some (record st { a = a; b = b; c = c })

unfoldable pub db11_dynamic : (r : Rvv) → ℕ → ℕ → Memory r → Option (Memory r)
db11_dynamic r offset avl st = do
  red ← load_vec r m4 r.len_1d st.a offset avl
  g ← load_vec r m4 r.len_1d st.b offset avl
  b0 ← load_vec r m4 r.len_1d st.c offset avl
  u ← load_vec r m4 r.len_1d st.d offset avl
  v ← load_vec r m4 r.len_1d st.e offset avl
  k0 ← load_vec r m4 r.len_1d st.x offset avl
  k1 ← load_vec r m4 (area r) st.flat_2d_array offset avl
  let y = db11_luma r m4 red g b0 avl
  let part = r.vget m4 m2
  let gamma =
      chunks r m4 2 avl
        (λ k vlc. db11_gamma r m2 (part y k) (part u k) (part v k) (part k0 k) (part k1 k) vlc)
  let out = r.vfmacc_vf m4 y (r.lit 1 4) gamma avl
  a ← store_vec r m4 r.len_1d st.a offset y avl
  b ← store_vec r m4 r.len_1d st.b offset gamma avl
  c ← store_vec r m4 r.len_1d st.c offset out avl
  some (record st { a = a; b = b; c = c })

unfoldable pub db11_sweep : (r : Rvv) → Variant → Memory r → Option (Memory r)
db11_sweep r (fixed l) st = bench_sweep r l db11_total (db11_fixed r l) st
db11_sweep r dynamic st = bench_sweep r m4 db11_total (db11_dynamic r) st

unfoldable pub db11_kernel : (r : Rvv) → Variant → Memory r → Option (Memory r)
db11_kernel r variant st = for_up db11_iters (λ _ s. db11_sweep r variant s) st

abbrev pub db9_total : ℕ
db9_total = 128

abbrev pub db9_iters : ℕ
db9_iters = 34

unfoldable pub db9_luma : (r : Rvv) (l : Lmul) → r.Vec l → r.Vec l → r.Vec l → ℕ → r.Vec l
db9_luma r l red g b0 vl = r.vfmacc_vf l (r.vfadd_vv l red g vl) (r.lit 1 2) b0 vl

unfoldable pub db9_gamma :
    (r : Rvv) (l : Lmul) → r.Vec l → r.Vec l → r.Vec l → r.Vec l → r.Vec l → r.Vec l → ℕ → r.Vec l
db9_gamma r l y u v k0 k1 k2 vl =
    let y2 = r.vfmul_vv l y y vl in
    let u2 = r.vfmul_vv l u u vl in
    let v2 = r.vfmul_vv l v v vl in
    let p0 = r.vfmacc_vv l y y2 k0 vl in
    let p1 = r.vfmacc_vv l u u2 k1 vl in
    let p2 = r.vfmacc_vv l v v2 k2 vl in
    let sum = r.vfadd_vv l (r.vfadd_vv l p0 p1 vl) p2 vl in r.vfmacc_vf l sum (r.lit 1 8) y2 vl

unfoldable pub db9_fixed : (r : Rvv) → Lmul → ℕ → ℕ → Memory r → Option (Memory r)
db9_fixed r l offset avl st = do
  red ← load_vec r l r.len_1d st.a offset avl
  g ← load_vec r l r.len_1d st.b offset avl
  b0 ← load_vec r l r.len_1d st.c offset avl
  u ← load_vec r l r.len_1d st.d offset avl
  v ← load_vec r l r.len_1d st.e offset avl
  k0 ← load_vec r l r.len_1d st.x offset avl
  k1 ← load_vec r l (area r) st.flat_2d_array offset avl
  k2 ← load_vec r l (area r) st.flat_2d_array (db9_total + offset) avl
  let y = db9_luma r l red g b0 avl
  let gamma = db9_gamma r l y u v k0 k1 k2 avl
  let c_out = r.vfmacc_vf l y (r.lit 1 4) gamma avl
  a ← store_vec r l r.len_1d st.a offset y avl
  b ← store_vec r l r.len_1d st.b offset gamma avl
  c ← store_vec r l r.len_1d st.c offset c_out avl
  some (record st { a = a; b = b; c = c })

unfoldable pub db9_dynamic : (r : Rvv) → ℕ → ℕ → Memory r → Option (Memory r)
db9_dynamic r offset avl st = do
  red ← load_vec r m8 r.len_1d st.a offset avl
  g ← load_vec r m8 r.len_1d st.b offset avl
  b0 ← load_vec r m8 r.len_1d st.c offset avl
  u ← load_vec r m8 r.len_1d st.d offset avl
  v ← load_vec r m8 r.len_1d st.e offset avl
  k0 ← load_vec r m8 r.len_1d st.x offset avl
  k1 ← load_vec r m8 (area r) st.flat_2d_array offset avl
  k2 ← load_vec r m8 (area r) st.flat_2d_array (db9_total + offset) avl
  let y = db9_luma r m8 red g b0 avl
  let part = r.vget m8 m2
  let gamma = chunks r m8 4 avl (λ k vlc.
      db9_gamma r m2 (part y k) (part u k) (part v k) (part k0 k) (part k1 k) (part k2 k) vlc)
  let c_big = r.vfmacc_vf m8 y (r.lit 1 4) gamma avl
  c ← store_chunks r r.len_1d st.c offset avl c_big
  a ← store_vec r m8 r.len_1d st.a offset y avl
  b ← store_vec r m8 r.len_1d st.b offset gamma avl
  some (record st { a = a; b = b; c = c })

unfoldable pub db9_sweep : (r : Rvv) → Variant → Memory r → Option (Memory r)
db9_sweep r (fixed l) st = bench_sweep r l db9_total (db9_fixed r l) st
db9_sweep r dynamic st = bench_sweep r m8 db9_total (db9_dynamic r) st

unfoldable pub db9_kernel : (r : Rvv) → Variant → Memory r → Option (Memory r)
db9_kernel r variant st = for_up db9_iters (λ _ s. db9_sweep r variant s) st
