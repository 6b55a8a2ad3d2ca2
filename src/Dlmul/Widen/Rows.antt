-- ===== src/Dlmul/Widen/Rows.antt =====
-- Every variant of db1, db4 and db6 computes the same rows and integers, whatever the length of the vectors.
use vectorizer_experiments.Base.{ℕ, suc, ◌+◌, ◌-◌, ◌≤◌, ◌≡◌, arith, Option, Ensures}
use vectorizer_experiments.Dlmul.Rvv.{m2, m4, m8, Rvv, IsRvv}
use vectorizer_experiments.Dlmul.Strip.{strip_for}
use vectorizer_experiments.Dlmul.Strip.Rule.{strip_for-Ensures}
use vectorizer_experiments.Dlmul.Strip.Sweep.{times}
use vectorizer_experiments.Dlmul.Strip.Indexed.{sweeps-Changed}
use vectorizer_experiments.Dlmul.Bench.{Variant, fixed, dynamic}
use vectorizer_experiments.Dlmul.Bench.Stored.{bench_sweep-Ensures}
use vectorizer_experiments.Dlmul.Ints.{IntRvv, IsIntRvv, wide, IntMemory, cell}
use vectorizer_experiments.Dlmul.Widen.{
  db1_total, db1_iters, db1_body, db1_sweep, db1_kernel, db4_total, db4_iters, db4_body, db4_sweep,
  db4_kernel, Db6Variant, db6_fixed, m8_m2_m4, m8_m2_m2, db6_total, db6_iters, db6_body,
  store_whole, store_word_chunks, db6_sweep, db6_kernel,
}
use vectorizer_experiments.Dlmul.Widen.Phases.{SweptInts, SweptInts-Composes}
use vectorizer_experiments.Dlmul.Widen.Stores.{store_word_chunks-Holds}
use vectorizer_experiments.Dlmul.Widen.Rounds.{
  db1_cell, db4_cell, db6_cell, Widens, Db6Serves, same_lmul, half_lmul, db1_body-SweptInts,
  db4_body-SweptInts, db6_body-SweptInts, store_whole-Holds,
}

module _ (r : Rvv) (law : IsRvv r) (n : IntRvv) (int_law : IsIntRvv r n) where
  module _ (room : 192 ≤ r.len_1d) where
    db1_sweep-SweptInts :
        (variant : Variant) (st : IntMemory r)
        → Widens variant
        → Ensures (db1_sweep r n variant st) (SweptInts r (db1_cell r) 0 db1_total st)
    unfolding db1_sweep
    db1_sweep-SweptInts (fixed l) st narrow =
        bench_sweep-Ensures r law (SweptInts r (db1_cell r)) (SweptInts-Composes r (db1_cell r)) l
          db1_total (db1_body r n l l) (omega arith)
          (λ offset avl s fits inside.
            db1_body-SweptInts r law n int_law l l offset avl s fits
              (same_lmul r law n int_law l avl narrow fits) (omega arith))
          st
    db1_sweep-SweptInts dynamic st narrow =
        bench_sweep-Ensures r law (SweptInts r (db1_cell r)) (SweptInts-Composes r (db1_cell r)) m4
          db1_total (db1_body r n m4 m2) (omega arith)
          (λ offset avl s fits inside.
            db1_body-SweptInts r law n int_law m4 m2 offset avl s fits
              (half_lmul r law n int_law avl fits) (omega arith))
          st

    db4_sweep-SweptInts :
        (variant : Variant) (st : IntMemory r)
        → Widens variant
        → Ensures (db4_sweep r n variant st) (SweptInts r (db4_cell r) 0 db4_total st)
    unfolding db4_sweep
    db4_sweep-SweptInts (fixed l) st narrow =
        bench_sweep-Ensures r law (SweptInts r (db4_cell r)) (SweptInts-Composes r (db4_cell r)) l
          db4_total (db4_body r n l l) (omega arith)
          (λ offset avl s fits inside.
            db4_body-SweptInts r law n int_law l l offset avl s fits
              (same_lmul r law n int_law l avl narrow fits) (omega arith))
          st
    db4_sweep-SweptInts dynamic st narrow =
        bench_sweep-Ensures r law (SweptInts r (db4_cell r)) (SweptInts-Composes r (db4_cell r)) m4
          db4_total (db4_body r n m4 m2) (omega arith)
          (λ offset avl s fits inside.
            db4_body-SweptInts r law n int_law m4 m2 offset avl s fits
              (half_lmul r law n int_law avl fits) (omega arith))
          st

    -- The dynamic sweeps of db6, for a body that is right up to the lanes of the integers.
    short_sweep-SweptInts :
        (body : ℕ → ℕ → IntMemory r → Option (IntMemory r))
        → ((offset avl : ℕ) (st : IntMemory r)
            → avl ≤ r.vlmax m4
            → offset + avl ≤ r.len_1d
            → Ensures (body offset avl st) (SweptInts r (db6_cell r) offset avl st))
        → (st : IntMemory r)
        → Ensures
            (strip_for (suc db6_total) db6_total (n.vsetvl16 m2 db6_total) body 0 st)
            (SweptInts r (db6_cell r) 0 db6_total st)
    short_sweep-SweptInts body ok st =
        let all : db6_total - 0 ≡ db6_total = omega arith in
        rw all at (
          strip_for-Ensures (SweptInts r (db6_cell r)) (SweptInts-Composes r (db6_cell r)) db6_total
            (n.vsetvl16 m2 db6_total) body (int_law.vsetvl16-pos m2 db6_total (omega arith))
            (λ offset avl s pos le within.
              ok offset avl s
                (omega (arith, int_law.vsetvl16-le m2 db6_total, int_law.vlmax16-wide m2 tt))
                (omega arith))
            (suc db6_total) 0 st (omega arith))

    db6_sweep-SweptInts :
        (variant : Db6Variant) (st : IntMemory r)
        → Db6Serves r variant
        → Ensures (db6_sweep r n variant st) (SweptInts r (db6_cell r) 0 db6_total st)
    unfolding db6_sweep
    db6_sweep-SweptInts (db6_fixed l) st narrow =
        bench_sweep-Ensures r law (SweptInts r (db6_cell r)) (SweptInts-Composes r (db6_cell r)) l
          db6_total (db6_body r n l l (store_whole r n (wide l))) (omega arith)
          (λ offset avl s fits inside.
            let run = same_lmul r law n int_law l avl narrow fits in
            db6_body-SweptInts r law n int_law l l offset avl s fits run (omega arith)
              (store_whole r n (wide l))
              (store_whole-Holds r law n int_law l l offset avl s fits run (omega arith)))
          st
    db6_sweep-SweptInts m8_m2_m4 st served =
        short_sweep-SweptInts (db6_body r n m8 m2 (store_whole r n m4))
          (λ offset avl s fits inside.
            let run = half_lmul r law n int_law avl fits in
            let fits_8 : avl ≤ r.vlmax m8 = omega (arith, law.vlmax-m8, law.vlmax-m4) in
            db6_body-SweptInts r law n int_law m8 m2 offset avl s fits_8 run inside
              (store_whole r n m4)
              (store_whole-Holds r law n int_law m8 m2 offset avl s fits_8 run inside))
          st
    db6_sweep-SweptInts m8_m2_m2 st greedy =
        short_sweep-SweptInts (db6_body r n m8 m2 (store_word_chunks r n))
          (λ offset avl s fits inside.
            let run = half_lmul r law n int_law avl fits in
            let fits_8 : avl ≤ r.vlmax m8 = omega (arith, law.vlmax-m8, law.vlmax-m4) in
            db6_body-SweptInts r law n int_law m8 m2 offset avl s fits_8 run inside
              (store_word_chunks r n)
              (λ v h p.
                store_word_chunks-Holds r law n int_law greedy offset avl fits inside v h p s.indx))
          st

    -- The kernels of db1, db4 and db6.
    pub widening-SweptInts :
        (variant : Variant) (variant_6 : Db6Variant) (st : IntMemory r)
        → Widens variant
        → Db6Serves r variant_6
        → Ensures
            (db1_kernel r n variant st)
            (SweptInts r (λ s j. times db1_iters (db1_cell r s j)) 0 db1_total st)
          × Ensures
              (db4_kernel r n variant st)
              (SweptInts r (λ s j. times db4_iters (db4_cell r s j)) 0 db4_total st)
          × Ensures
              (db6_kernel r n variant_6 st)
              (SweptInts r (λ s j. times db6_iters (db6_cell r s j)) 0 db6_total st)
    unfolding db1_kernel db4_kernel db6_kernel
    widening-SweptInts variant variant_6 st narrow served =
        let sweeps = sweeps-Changed (λ (s : IntMemory r). s.statics) (cell r) in
        (
          sweeps (db1_cell r) db1_total (λ s. db1_sweep r n variant s)
              (λ s. db1_sweep-SweptInts variant s narrow) db1_iters st,
          sweeps (db4_cell r) db4_total (λ s. db4_sweep r n variant s)
              (λ s. db4_sweep-SweptInts variant s narrow) db4_iters st,
          sweeps (db6_cell r) db6_total (λ s. db6_sweep r n variant_6 s)
              (λ s. db6_sweep-SweptInts variant_6 s served) db6_iters st,
        )
