-- ===== src/Dlmul/Widen.antt =====
-- The benches db1, db3, db4 and db6 of emulator/run/src/dlmul-synthesis/bench, behind the initialisation of their
-- arrays: a phase of floats, and one that widens integers of 16 bits and stores to `indx`.
pub mod Phases
pub mod Stores
pub mod Rounds
pub mod Rows
pub mod Clipped
use vectorizer_experiments.Base.{
  ℕ, suc, ◌+◌, ◌-◌, ◌*◌, Option, some, ltb, if◌then◌else◌, ◌>>=◌, for_up,
}
use vectorizer_experiments.Dlmul.Rvv.{Lmul, m2, m4, m8, Rvv, Memory, load_vec, store_vec}
use vectorizer_experiments.Dlmul.Strip.{strip_for}
use vectorizer_experiments.Dlmul.Bench.{Variant, fixed, dynamic, bench_sweep}
use vectorizer_experiments.Dlmul.Ints.{
  IntRvv, wide, Statics, IntMemory, load_short, load_word, store_word,
}

-- The sum of eight accumulators.
unfoldable pub sum_8 :
    (n : IntRvv) (l : Lmul)
    → n.Word l
    → n.Word l
    → n.Word l
    → n.Word l
    → n.Word l
    → n.Word l
    → n.Word l
    → n.Word l
    → ℕ
    → n.Word l
sum_8 n l acc0 acc1 acc2 acc3 acc4 acc5 acc6 acc7 vl =
    let out = n.vadd_vv l (n.vadd_vv l acc0 acc1 vl) acc2 vl in
    let out' = n.vadd_vv l (n.vadd_vv l out acc3 vl) acc4 vl in
    n.vadd_vv l (n.vadd_vv l (n.vadd_vv l out' acc5 vl) acc6 vl) acc7 vl

-- The integer phase of db1 and db3.
unfoldable pub triplet_phase :
    (n : IntRvv) (l : Lmul) → n.Short l → n.Short l → n.Short l → ℕ → n.Word (wide l)
triplet_phase n l x0 x1 xb vl =
    sum_8 n (wide l) (n.vwadd_vv l x0 x1 vl) (n.vwmul_vv l x0 x1 vl) (n.vwadd_vv l x1 xb vl)
      (n.vwmul_vv l x1 xb vl) (n.vwadd_vv l x0 xb vl) (n.vwmul_vv l x0 xb vl)
      (n.vwadd_vv l xb x1 vl) (n.vwmul_vv l xb x0 vl) vl

-- It loads the three vectors, and stores to `indx`.
unfoldable pub triplet :
    (r : Rvv) (n : IntRvv) (l : Lmul) → ℕ → ℕ → IntMemory r → Option (n.Word (wide l))
triplet r n l offset vl st = do
  x0 ← load_short n l r.len_1d st.statics.lhs offset vl
  x1 ← load_short n l r.len_1d st.statics.rhs offset vl
  xb ← load_short n l r.len_1d st.statics.zp offset vl
  some (triplet_phase n l x0 x1 xb vl)

abbrev pub db1_total : ℕ
db1_total = 192

abbrev pub db1_iters : ℕ
db1_iters = 32

-- One round of db1, by the LMUL of the floats and that of the integers.
unfoldable pub db1_body :
    (r : Rvv) (n : IntRvv) → Lmul → Lmul → ℕ → ℕ → IntMemory r → Option (IntMemory r)
db1_body r n l li offset avl st = do
  va ← load_vec r l r.len_1d st.reals.a offset avl
  vb ← load_vec r l r.len_1d st.reals.b offset avl
  vc ← load_vec r l r.len_1d st.reals.c offset avl
  vd ← load_vec r l r.len_1d st.reals.d offset avl
  ve ← load_vec r l r.len_1d st.reals.e offset avl
  vx ← load_vec r l r.len_1d st.reals.x offset avl
  let t0 = r.vfadd_vv l va vb avl
  let t1 = r.vfmul_vv l vc vd avl
  let a_out = r.vfmacc_vf l t0 (r.lit 1 4) t1 avl
  let d_out = r.vfmacc_vf l (r.vfadd_vv l a_out ve avl) (r.lit 1 8) vx avl
  i_out ← triplet r n li offset avl st
  a ← store_vec r l r.len_1d st.reals.a offset a_out avl
  d ← store_vec r l r.len_1d st.reals.d offset d_out avl
  indx ← store_word n (wide li) r.len_1d st.indx offset i_out avl
  some (record st { reals = record st.reals { a = a; d = d }; indx = indx })

unfoldable pub db1_sweep : (r : Rvv) (n : IntRvv) → Variant → IntMemory r → Option (IntMemory r)
db1_sweep r n (fixed l) st = bench_sweep r l db1_total (db1_body r n l l) st
db1_sweep r n dynamic st = bench_sweep r m4 db1_total (db1_body r n m4 m2) st

unfoldable pub db1_kernel : (r : Rvv) (n : IntRvv) → Variant → IntMemory r → Option (IntMemory r)
db1_kernel r n variant st = for_up db1_iters (λ _ s. db1_sweep r n variant s) st

abbrev pub db3_wide : ℕ
db3_wide = 128

abbrev pub db3_iters : ℕ
db3_iters = 32

-- `DB3_TOTAL_ELEMS`, by DB3_PHASE_B_ELEMS, which the build may set.
abbrev pub db3_total : ℕ → ℕ
db3_total phase_b = if ltb db3_wide phase_b then phase_b else db3_wide

-- The part of a round that lies below the bound of a phase.
abbrev pub clipped : ℕ → ℕ → ℕ → ℕ
clipped bound offset avl = if ltb avl (bound - offset) then avl else bound - offset

unfoldable pub db3_reals : (r : Rvv) → Lmul → ℕ → ℕ → Memory r → Option (Memory r)
db3_reals r l offset favl st = do
  va ← load_vec r l r.len_1d st.a offset favl
  vb ← load_vec r l r.len_1d st.b offset favl
  vc ← load_vec r l r.len_1d st.c offset favl
  vx ← load_vec r l r.len_1d st.x offset favl
  let a_out = r.vfmacc_vf l (r.vfadd_vv l va vb favl) (r.lit 1 4) vc favl
  let d_out = r.vfmacc_vf l a_out (r.lit 1 8) vx favl
  a ← store_vec r l r.len_1d st.a offset a_out favl
  d ← store_vec r l r.len_1d st.d offset d_out favl
  some (record st { a = a; d = d })

unfoldable pub db3_ints : (r : Rvv) (n : IntRvv) → Lmul → ℕ → ℕ → IntMemory r → Option (ℕ → ℕ)
db3_ints r n l offset iavl st = do
  out ← triplet r n l offset iavl st
  store_word n (wide l) r.len_1d st.indx offset out iavl

unfoldable pub db3_body :
    (r : Rvv) (n : IntRvv) → Lmul → Lmul → ℕ → ℕ → ℕ → IntMemory r → Option (IntMemory r)
db3_body r n l li phase_b offset avl st = do
  let changed_reals = db3_reals r l offset (clipped db3_wide offset avl) st.reals
  let changed_indx = db3_ints r n li offset (clipped phase_b offset avl) st
  reals ← (if ltb offset db3_wide then changed_reals else some st.reals)
  indx ← (if ltb offset phase_b then changed_indx else some st.indx)
  some (record st { reals = reals; indx = indx })

unfoldable pub db3_sweep : (r : Rvv) (n : IntRvv) → Variant → ℕ → IntMemory r → Option (IntMemory r)
db3_sweep r n (fixed l) phase_b st =
    bench_sweep r l (db3_total phase_b) (db3_body r n l l phase_b) st
db3_sweep r n dynamic phase_b st =
    bench_sweep r m4 (db3_total phase_b) (db3_body r n m4 m2 phase_b) st

unfoldable pub db3_kernel :
    (r : Rvv) (n : IntRvv) → Variant → ℕ → IntMemory r → Option (IntMemory r)
db3_kernel r n variant phase_b st = for_up db3_iters (λ _ s. db3_sweep r n variant phase_b s) st

-- The integer phase of db4 and db6, with its loads.
unfoldable pub affine_phase :
    (n : IntRvv) (l : Lmul)
    → n.Short l
    → n.Short l
    → n.Short l
    → n.Word (wide l)
    → ℕ
    → n.Word (wide l)
affine_phase n l lhs rhs zp bias vl =
    let out =
      sum_8 n (wide l) (n.vwmul_vv l lhs rhs vl) (n.vwadd_vv l lhs zp vl) (n.vwmul_vv l rhs zp vl)
        (n.vwadd_vv l rhs lhs vl) (n.vwmul_vv l lhs lhs vl) (n.vwadd_vv l rhs rhs vl)
        (n.vwmul_vv l zp lhs vl) (n.vwadd_vv l zp rhs vl) vl in
    n.vadd_vv (wide l) out bias vl

unfoldable pub affine :
    (r : Rvv) (n : IntRvv) (l : Lmul) → ℕ → ℕ → IntMemory r → Option (n.Word (wide l))
affine r n l offset vl st = do
  lhs ← load_short n l r.len_1d st.statics.lhs offset vl
  rhs ← load_short n l r.len_1d st.statics.rhs offset vl
  zp ← load_short n l r.len_1d st.statics.zp offset vl
  bias ← load_word n (wide l) r.len_1d st.statics.bias offset vl
  some (affine_phase n l lhs rhs zp bias vl)

abbrev pub db4_total : ℕ
db4_total = 192

abbrev pub db4_iters : ℕ
db4_iters = 30

unfoldable pub db4_body :
    (r : Rvv) (n : IntRvv) → Lmul → Lmul → ℕ → ℕ → IntMemory r → Option (IntMemory r)
db4_body r n l li offset avl st = do
  scale ← load_vec r l r.len_1d st.reals.a offset avl
  fbias ← load_vec r l r.len_1d st.reals.b offset avl
  let a_out = r.vfmacc_vf l scale (r.lit 1 2) fbias avl
  out ← affine r n li offset avl st
  a ← store_vec r l r.len_1d st.reals.a offset a_out avl
  indx ← store_word n (wide li) r.len_1d st.indx offset out avl
  some (record st { reals = record st.reals { a = a }; indx = indx })

unfoldable pub db4_sweep : (r : Rvv) (n : IntRvv) → Variant → IntMemory r → Option (IntMemory r)
db4_sweep r n (fixed l) st = bench_sweep r l db4_total (db4_body r n l l) st
db4_sweep r n dynamic st = bench_sweep r m4 db4_total (db4_body r n m4 m2) st

unfoldable pub db4_kernel : (r : Rvv) (n : IntRvv) → Variant → IntMemory r → Option (IntMemory r)
db4_kernel r n variant st = for_up db4_iters (λ _ s. db4_sweep r n variant s) st

abbrev pub db6_total : ℕ
db6_total = 192

abbrev pub db6_iters : ℕ
db6_iters = 32

-- `DLB_BENCH_VARIANT` of db6: one LMUL, or floats in eight registers, integers in two, and stores of four or of two.
pub data Db6Variant : Type 0 where
  db6_fixed : Lmul → Db6Variant
  m8_m2_m4 : Db6Variant
  m8_m2_m2 : Db6Variant

-- `DB6_STORE_CHUNK(k)`.
unfoldable pub store_word_chunk :
    (r : Rvv) (n : IntRvv) → ℕ → ℕ → n.Word m4 → ℕ → (ℕ → ℕ) → Option (ℕ → ℕ)
store_word_chunk r n offset avl v k arr =
    let start = k * r.vsetvl m2 avl in
    let part = n.vget_word m4 m2 v k in
    let stored = store_word n m2 r.len_1d arr (offset + start) part (r.vsetvl m2 (avl - start)) in
    if ltb start avl then stored else some arr

unfoldable pub store_word_chunks :
    (r : Rvv) (n : IntRvv) → (ℕ → ℕ) → ℕ → ℕ → n.Word m4 → Option (ℕ → ℕ)
store_word_chunks r n arr offset avl v = do
  half ← store_word_chunk r n offset avl v 0 arr
  store_word_chunk r n offset avl v 1 half

-- One round of db6, for the way that the integers are stored.
unfoldable pub db6_body :
    (r : Rvv) (n : IntRvv) (l li : Lmul)
    → ((ℕ → ℕ) → ℕ → ℕ → n.Word (wide li) → Option (ℕ → ℕ))
    → ℕ
    → ℕ
    → IntMemory r
    → Option (IntMemory r)
db6_body r n l li store offset avl st = do
  va ← load_vec r l r.len_1d st.reals.a offset avl
  vb ← load_vec r l r.len_1d st.reals.b offset avl
  vc ← load_vec r l r.len_1d st.reals.c offset avl
  vd ← load_vec r l r.len_1d st.reals.d offset avl
  let with_c = r.vfmacc_vf l (r.vfadd_vv l va vb avl) (r.lit 1 4) vc avl
  let a_out = r.vfmacc_vf l with_c (r.lit 1 8) vd avl
  out ← affine r n li offset avl st
  a ← store_vec r l r.len_1d st.reals.a offset a_out avl
  indx ← store st.indx offset avl out
  some (record st { reals = record st.reals { a = a }; indx = indx })

unfoldable pub store_whole :
    (r : Rvv) (n : IntRvv) (l : Lmul) → (ℕ → ℕ) → ℕ → ℕ → n.Word l → Option (ℕ → ℕ)
store_whole r n l arr offset avl v = store_word n l r.len_1d arr offset v avl

-- The dynamic variants take the number of lanes from the integers, `vsetvl_e16m2`.
unfoldable pub db6_sweep : (r : Rvv) (n : IntRvv) → Db6Variant → IntMemory r → Option (IntMemory r)
db6_sweep r n (db6_fixed l) st =
    bench_sweep r l db6_total (db6_body r n l l (store_whole r n (wide l))) st
db6_sweep r n m8_m2_m4 st =
    strip_for (suc db6_total) db6_total (n.vsetvl16 m2 db6_total)
      (db6_body r n m8 m2 (store_whole r n m4)) 0 st
db6_sweep r n m8_m2_m2 st =
    strip_for (suc db6_total) db6_total (n.vsetvl16 m2 db6_total)
      (db6_body r n m8 m2 (store_word_chunks r n)) 0 st

unfoldable pub db6_kernel : (r : Rvv) (n : IntRvv) → Db6Variant → IntMemory r → Option (IntMemory r)
db6_kernel r n variant st = for_up db6_iters (λ _ s. db6_sweep r n variant s) st
