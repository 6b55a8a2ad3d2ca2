-- ===== src/Dlmul/Matrix.antt =====
-- The bench dep_matrix of emulator/run/src/dlmul-synthesis/bench, behind the initialisation of its arrays: three
-- phases, with the dependences between them that DLB_DEPENDENCY_MODE asks for.
pub mod Phases
pub mod Rows
use vectorizer_experiments.Base.{
  ℕ, ◌+◌, ◌-◌, ◌*◌, Bool, true, false, Option, some, ltb, if◌then◌else◌, ◌>>=◌, for_up,
}
use vectorizer_experiments.Dlmul.Rvv.{Lmul, m2, m4, Rvv, Memory, area, load_vec, store_vec}
use vectorizer_experiments.Dlmul.Bench.{Variant, fixed, dynamic, bench_sweep}

abbrev pub dep_total : ℕ
dep_total = 192

abbrev pub dep_iters : ℕ
dep_iters = 32

-- `DLB_DEPENDENCY_MODE`: which later phases use the result of the first.
pub data DepMode : Type 0 where
  mode_none : DepMode
  mode_13 : DepMode
  mode_12 : DepMode
  mode_13_12 : DepMode

unfoldable pub seeds_phase2 : DepMode → Bool
seeds_phase2 mode_12 = true
seeds_phase2 mode_13_12 = true
seeds_phase2 _ = false

unfoldable pub bases_phase3 : DepMode → Bool
bases_phase3 mode_13 = true
bases_phase3 mode_13_12 = true
bases_phase3 _ = false

unfoldable pub dep_phase1 : (r : Rvv) (l : Lmul) → r.Vec l → r.Vec l → r.Vec l → ℕ → r.Vec l
dep_phase1 r l va vb vc vl = r.vfmacc_vf l (r.vfadd_vv l va vb vl) (r.lit 1 4) vc vl

unfoldable pub dep_mid :
    (r : Rvv) (l : Lmul) → r.Vec l → r.Vec l → r.Vec l → r.Vec l → r.Vec l → r.Vec l → ℕ → r.Vec l
dep_mid r l seed s0 s1 s2 s3 s4 vl =
    let p0 = r.vfmul_vv l seed seed vl in
    let p1 = r.vfmul_vv l s0 s1 vl in
    let p2 = r.vfmul_vv l s2 s3 vl in
    let p3 = r.vfmul_vv l seed s4 vl in
    let p4 = r.vfadd_vv l p0 p1 vl in
    let mid = r.vfadd_vv l seed s0 vl in
    let with_12 = r.vfmacc_vv l mid s1 s2 vl in
    let with_34 = r.vfmacc_vv l with_12 s3 s4 vl in
    let with_p2 = r.vfmacc_vf l with_34 (r.lit 1 8) p2 vl in
    let with_p3 = r.vfmacc_vf l with_p2 (r.lit 1 16) p3 vl in
    r.vfmacc_vf l with_p3 (r.lit 1 32) p4 vl

-- The middle phase with its loads: `vl` lanes from index `at` on, for the seed that the first phase gives.
unfoldable pub dep_phase2 :
    (r : Rvv) (l : Lmul) → DepMode → r.Vec l → ℕ → ℕ → Memory r → Option (r.Vec l)
dep_phase2 r l mode phase1 at vl st = do
  seed ← (if seeds_phase2 mode then some phase1 else load_vec r l r.len_1d st.d at vl)
  s0 ← load_vec r l r.len_1d st.d at vl
  s1 ← load_vec r l r.len_1d st.e at vl
  s2 ← load_vec r l r.len_1d st.x at vl
  s3 ← load_vec r l (area r) st.flat_2d_array at vl
  s4 ← load_vec r l (area r) st.flat_2d_array (dep_total + at) vl
  some (dep_mid r l seed s0 s1 s2 s3 s4 vl)

-- The last phase and the stores.
unfoldable pub dep_finish :
    (r : Rvv) (l : Lmul)
    → DepMode
    → r.Vec l
    → r.Vec l
    → r.Vec l
    → ℕ
    → ℕ
    → Memory r
    → Option (Memory r)
dep_finish r l mode vb phase1 mid offset avl st = do
  tail ← load_vec r l (area r) st.flat_2d_array (2 * dep_total + offset) avl
  let phase1_out = r.vfmacc_vf l vb (r.lit 1 8) phase1 avl
  let base = if bases_phase3 mode then phase1 else tail
  let final = r.vfmacc_vf l base (r.lit 1 4) mid avl
  let final' = r.vfmacc_vf l final (r.lit 1 8) tail avl
  a ← store_vec r l r.len_1d st.a offset phase1_out avl
  b ← store_vec r l r.len_1d st.b offset final' avl
  c ← store_vec r l r.len_1d st.c offset mid avl
  some (record st { a = a; b = b; c = c })

unfoldable pub dep_fixed : (r : Rvv) → Lmul → DepMode → ℕ → ℕ → Memory r → Option (Memory r)
dep_fixed r l mode offset avl st = do
  va ← load_vec r l r.len_1d st.a offset avl
  vb ← load_vec r l r.len_1d st.b offset avl
  vc ← load_vec r l r.len_1d st.c offset avl
  let phase1 = dep_phase1 r l va vb vc avl
  mid ← dep_phase2 r l mode phase1 offset avl st
  dep_finish r l mode vb phase1 mid offset avl st

-- `DEP_CHUNK(k)`, which loads its own operands.
unfoldable pub dep_chunk :
    (r : Rvv) → DepMode → r.Vec m4 → ℕ → ℕ → Memory r → ℕ → r.Vec m4 → Option (r.Vec m4)
dep_chunk r mode phase1 offset avl st k mid =
    let start = k * r.vsetvl m2 avl in
    let part = r.vget m4 m2 phase1 k in
    let filled =
      dep_phase2 r m2 mode part (offset + start) (r.vsetvl m2 (avl - start)) st >>= λ out.
      some (r.vset m4 m2 mid k out) in
    if ltb start avl then filled else some mid

unfoldable pub dep_dynamic : (r : Rvv) → DepMode → ℕ → ℕ → Memory r → Option (Memory r)
dep_dynamic r mode offset avl st = do
  va ← load_vec r m4 r.len_1d st.a offset avl
  vb ← load_vec r m4 r.len_1d st.b offset avl
  vc ← load_vec r m4 r.len_1d st.c offset avl
  let phase1 = dep_phase1 r m4 va vb vc avl
  half ← dep_chunk r mode phase1 offset avl st 0 (r.vfmv_v_f m4 (r.lit 0 1) avl)
  mid ← dep_chunk r mode phase1 offset avl st 1 half
  dep_finish r m4 mode vb phase1 mid offset avl st

unfoldable pub dep_sweep : (r : Rvv) → Variant → DepMode → Memory r → Option (Memory r)
dep_sweep r (fixed l) mode st = bench_sweep r l dep_total (dep_fixed r l mode) st
dep_sweep r dynamic mode st = bench_sweep r m4 dep_total (dep_dynamic r mode) st

unfoldable pub dep_kernel : (r : Rvv) → Variant → DepMode → Memory r → Option (Memory r)
dep_kernel r variant mode st = for_up dep_iters (λ _ s. dep_sweep r variant mode s) st
