-- ===== src/Dlmul/Pressure.antt =====
-- The benches db2, db7 and db8 of emulator/run/src/dlmul-synthesis/bench, behind the initialisation of their
-- arrays: a middle phase that keeps twelve vectors alive, in the fixed variants and in the dynamic one.
pub mod Phases
pub mod Rows
use vectorizer_experiments.Base.{ℕ, Option, some, ◌>>=◌, for_up}
use vectorizer_experiments.Dlmul.Rvv.{Lmul, m2, m8, Rvv, Memory, store_vec}
use vectorizer_experiments.Dlmul.Strip.Sweep.{times}
use vectorizer_experiments.Dlmul.Bench.{Variant, fixed, dynamic, bench_sweep, chunks, store_chunks}
use vectorizer_experiments.Dlmul.Inputs.{Inputs, load_inputs, parts}

-- The middle phase of db2 and db8: u + v, and five products.
unfoldable pub pressure_phase :
    (r : Rvv) (l : Lmul) → r.Vec l → r.Vec l → Inputs (r.Vec l) → ℕ → r.Vec l
pressure_phase r l u v i vl =
    let out = r.vfadd_vv l u v vl in
    let with_cd = r.vfmacc_vv l out i.vc i.vd vl in
    let with_ex = r.vfmacc_vv l with_cd i.ve i.vx vl in
    let with_01 = r.vfmacc_vv l with_ex i.f0 i.f1 vl in
    let with_23 = r.vfmacc_vv l with_01 i.f2 i.f3 vl in r.vfmacc_vv l with_23 i.f4 i.f5 vl

abbrev pub db2_total : ℕ
db2_total = 128

abbrev pub db2_iters : ℕ
db2_iters = 40

-- The first phase of db2.
unfoldable pub db2_front : (r : Rvv) (l : Lmul) → Inputs (r.Vec l) → ℕ → r.Vec l
db2_front r l i vl =
    let a_out = r.vfadd_vv l i.va i.vb vl in
    let a_out' = r.vfmacc_vf l a_out (r.lit 3 8) i.vc vl in r.vfmul_vv l a_out' i.vd vl

unfoldable pub db2_fixed : (r : Rvv) → Lmul → ℕ → ℕ → Memory r → Option (Memory r)
db2_fixed r l offset avl st = do
  i ← load_inputs r l db2_total offset avl st
  let a_out = db2_front r l i avl
  let b_out = pressure_phase r l a_out i.vb i avl
  let c_out = r.vfmacc_vf l a_out (r.lit 1 2) b_out avl
  a ← store_vec r l r.len_1d st.a offset a_out avl
  b ← store_vec r l r.len_1d st.b offset b_out avl
  c ← store_vec r l r.len_1d st.c offset c_out avl
  some (record st { a = a; b = b; c = c })

unfoldable pub db2_dynamic : (r : Rvv) → ℕ → ℕ → Memory r → Option (Memory r)
db2_dynamic r offset avl st = do
  i ← load_inputs r m8 db2_total offset avl st
  let a_out = db2_front r m8 i avl
  let b_out = chunks r m8 4 avl (λ k vlc.
      let part = parts r m8 i k in pressure_phase r m2 (r.vget m8 m2 a_out k) part.vb part vlc)
  let c_out = r.vfmacc_vf m8 a_out (r.lit 1 2) b_out avl
  a ← store_vec r m8 r.len_1d st.a offset a_out avl
  b ← store_vec r m8 r.len_1d st.b offset b_out avl
  c ← store_vec r m8 r.len_1d st.c offset c_out avl
  some (record st { a = a; b = b; c = c })

unfoldable pub db2_sweep : (r : Rvv) → Variant → Memory r → Option (Memory r)
db2_sweep r (fixed l) st = bench_sweep r l db2_total (db2_fixed r l) st
db2_sweep r dynamic st = bench_sweep r m8 db2_total (db2_dynamic r) st

unfoldable pub db2_kernel : (r : Rvv) → Variant → Memory r → Option (Memory r)
db2_kernel r variant st = for_up db2_iters (λ _ s. db2_sweep r variant s) st

abbrev pub db8_total : ℕ
db8_total = 128

abbrev pub db8_iters : ℕ
db8_iters = 28

-- `repeats` is DB8_PRESSURE_REPEATS, which the build may set.
unfoldable pub db8_fixed : (r : Rvv) → Lmul → ℕ → ℕ → ℕ → Memory r → Option (Memory r)
db8_fixed r l repeats offset avl st = do
  i ← load_inputs r l db8_total offset avl st
  let a_out = r.vfadd_vv l i.va i.vb avl
  let b_out = times repeats (λ v. pressure_phase r l a_out v i avl) i.vb
  let d_out = r.vfmacc_vf l a_out (r.lit 3 8) b_out avl
  a ← store_vec r l r.len_1d st.a offset a_out avl
  b ← store_vec r l r.len_1d st.b offset b_out avl
  d ← store_vec r l r.len_1d st.d offset d_out avl
  some (record st { a = a; b = b; d = d })

-- One repetition of the dynamic variant: `next`, from the parts of a_out and of b_out.
unfoldable pub db8_next : (r : Rvv) → r.Vec m8 → Inputs (r.Vec m8) → ℕ → r.Vec m8 → r.Vec m8
db8_next r a_out i avl b_out = chunks r m8 4 avl (λ k vlc.
    pressure_phase r m2 (r.vget m8 m2 a_out k) (r.vget m8 m2 b_out k) (parts r m8 i k) vlc)

unfoldable pub db8_dynamic : (r : Rvv) → ℕ → ℕ → ℕ → Memory r → Option (Memory r)
db8_dynamic r repeats offset avl st = do
  i ← load_inputs r m8 db8_total offset avl st
  let a_out = r.vfadd_vv m8 i.va i.vb avl
  let b_out = times repeats (λ v. db8_next r a_out i avl v) i.vb
  let d_out = r.vfmacc_vf m8 a_out (r.lit 3 8) b_out avl
  a ← store_vec r m8 r.len_1d st.a offset a_out avl
  b ← store_vec r m8 r.len_1d st.b offset b_out avl
  d ← store_vec r m8 r.len_1d st.d offset d_out avl
  some (record st { a = a; b = b; d = d })

unfoldable pub db8_sweep : (r : Rvv) → Variant → ℕ → Memory r → Option (Memory r)
db8_sweep r (fixed l) repeats st = bench_sweep r l db8_total (db8_fixed r l repeats) st
db8_sweep r dynamic repeats st = bench_sweep r m8 db8_total (db8_dynamic r repeats) st

unfoldable pub db8_kernel : (r : Rvv) → Variant → ℕ → Memory r → Option (Memory r)
db8_kernel r variant repeats st = for_up db8_iters (λ _ s. db8_sweep r variant repeats s) st

abbrev pub db7_total : ℕ
db7_total = 128

abbrev pub db7_iters : ℕ
db7_iters = 36

-- The first phase of db7, and its middle phase: four accumulators.
unfoldable pub db7_front : (r : Rvv) (l : Lmul) → Inputs (r.Vec l) → ℕ → r.Vec l
db7_front r l i vl = r.vfmacc_vf l (r.vfadd_vv l i.va i.vb vl) (r.lit 3 16) i.vc vl

unfoldable pub db7_phase : (r : Rvv) (l : Lmul) → r.Vec l → Inputs (r.Vec l) → ℕ → r.Vec l
db7_phase r l u i vl =
    let acc0 = r.vfmacc_vv l (r.vfmul_vv l u i.vb vl) i.f2 i.f3 vl in
    let acc1 = r.vfmacc_vv l (r.vfmul_vv l i.vc i.vd vl) i.f4 i.f5 vl in
    let acc2 = r.vfmacc_vv l (r.vfmul_vv l i.ve i.vx vl) u i.vd vl in
    let acc3 = r.vfmacc_vv l (r.vfmul_vv l i.f0 i.f1 vl) i.vc i.vx vl in
    r.vfadd_vv l (r.vfadd_vv l (r.vfadd_vv l acc0 acc1 vl) acc2 vl) acc3 vl

unfoldable pub db7_fixed : (r : Rvv) → Lmul → ℕ → ℕ → Memory r → Option (Memory r)
db7_fixed r l offset avl st = do
  i ← load_inputs r l db7_total offset avl st
  let a_out = db7_front r l i avl
  let b_out = db7_phase r l a_out i avl
  let c_out = r.vfmacc_vf l a_out (r.lit 1 2) b_out avl
  a ← store_vec r l r.len_1d st.a offset a_out avl
  b ← store_vec r l r.len_1d st.b offset b_out avl
  c ← store_vec r l r.len_1d st.c offset c_out avl
  some (record st { a = a; b = b; c = c })

unfoldable pub db7_dynamic : (r : Rvv) → ℕ → ℕ → Memory r → Option (Memory r)
db7_dynamic r offset avl st = do
  i ← load_inputs r m8 db7_total offset avl st
  let a_out = db7_front r m8 i avl
  let b_out =
      chunks r m8 4 avl (λ k vlc. db7_phase r m2 (r.vget m8 m2 a_out k) (parts r m8 i k) vlc)
  let c_big = r.vfmacc_vf m8 a_out (r.lit 1 2) b_out avl
  c ← store_chunks r r.len_1d st.c offset avl c_big
  a ← store_vec r m8 r.len_1d st.a offset a_out avl
  b ← store_vec r m8 r.len_1d st.b offset b_out avl
  some (record st { a = a; b = b; c = c })

unfoldable pub db7_sweep : (r : Rvv) → Variant → Memory r → Option (Memory r)
db7_sweep r (fixed l) st = bench_sweep r l db7_total (db7_fixed r l) st
db7_sweep r dynamic st = bench_sweep r m8 db7_total (db7_dynamic r) st

unfoldable pub db7_kernel : (r : Rvv) → Variant → Memory r → Option (Memory r)
db7_kernel r variant st = for_up db7_iters (λ _ s. db7_sweep r variant s) st
