-- ===== src/Dlmul/Bench/Agree.antt =====
-- Every variant of db5 and db10 computes the same rows, whatever the length of the vectors.
use vectorizer_experiments.Base.{ℕ, suc, ◌+◌, ◌-◌, ◌≤◌, ◌<◌, ◌≡◌, arith, Option, Ensures}
use vectorizer_experiments.Dlmul.Rvv.{Lmul, m8, Rvv, IsRvv, Memory, Row}
use vectorizer_experiments.Dlmul.Rvv.Lanes.{vsetvl-pos}
use vectorizer_experiments.Dlmul.Strip.Sweep.{Swept, times, strip_for-Swept, sweeps-Swept}
use vectorizer_experiments.Dlmul.Bench.{
  Variant, fixed, dynamic, bench_sweep, db5_total, db5_iters, db5_fixed, db5_dynamic, db5_sweep,
  db5_kernel, db10_total, db10_iters, db10_fixed, db10_dynamic, db10_sweep, db10_kernel,
}
use vectorizer_experiments.Dlmul.Bench.Chunks.{IsGreedy}
use vectorizer_experiments.Dlmul.Bench.Rounds.{
  db5_row, db10_row, db5_fixed-Swept, db5_dynamic-Swept, db10_fixed-Swept, db10_dynamic-Swept,
}

-- The fixed variants need no more of `vsetvl` than its specification.
abbrev pub IsServed : Rvv → Variant → Type 0
IsServed r (fixed l) = Unit
IsServed r dynamic = IsGreedy r

module _ (r : Rvv) (law : IsRvv r) where
  -- A sweep by one LMUL, for a body that is right up to the length of its vectors.
  bench_sweep-Swept :
      (f : Row r → Row r) (l : Lmul) (total : ℕ) (body : ℕ → ℕ → Memory r → Option (Memory r))
      → 0 < total
      → total ≤ r.len_1d
      → ((offset avl : ℕ) (st : Memory r)
          → avl ≤ r.vlmax l
          → offset + avl ≤ r.len_1d
          → Ensures (body offset avl st) (Swept r f offset avl st))
      → (st : Memory r) → Ensures (bench_sweep r l total body st) (Swept r f 0 total st)
  unfolding bench_sweep
  bench_sweep-Swept f l total body some_elems room ok st =
      let all : total - 0 ≡ total = omega arith in
      rw all at (
        strip_for-Swept r f total (r.vsetvl l total) body (vsetvl-pos r law l total some_elems)
          (λ offset avl s pos le within.
            ok offset avl s (omega (arith, law.vsetvl-le l total)) (omega arith))
          (suc total) 0 st (omega arith))

  db5_sweep-Swept :
      (variant : Variant) (st : Memory r)
      → IsServed r variant
      → db5_total ≤ r.len_1d
      → Ensures (db5_sweep r variant st) (Swept r (db5_row r) 0 db5_total st)
  unfolding db5_sweep
  db5_sweep-Swept (fixed l) st served room =
      bench_sweep-Swept (db5_row r) l db5_total (db5_fixed r l) (omega arith) room
        (λ offset avl s fits inside. db5_fixed-Swept r law l offset avl fits s inside) st
  db5_sweep-Swept dynamic st greedy room =
      bench_sweep-Swept (db5_row r) m8 db5_total (db5_dynamic r) (omega arith) room
        (λ offset avl s fits inside. db5_dynamic-Swept r law greedy offset avl s fits inside) st

  db10_sweep-Swept :
      (variant : Variant) (st : Memory r)
      → IsServed r variant
      → db10_total ≤ r.len_1d
      → Ensures (db10_sweep r variant st) (Swept r (db10_row r) 0 db10_total st)
  unfolding db10_sweep
  db10_sweep-Swept (fixed l) st served room =
      bench_sweep-Swept (db10_row r) l db10_total (db10_fixed r l) (omega arith) room
        (λ offset avl s fits inside. db10_fixed-Swept r law l offset avl fits s inside) st
  db10_sweep-Swept dynamic st greedy room =
      bench_sweep-Swept (db10_row r) m8 db10_total (db10_dynamic r) (omega arith) room
        (λ offset avl s fits inside. db10_dynamic-Swept r law greedy offset avl s fits inside) st

  -- For every variant of db5, on any machine with the documented laws of the vector intrinsics
  -- (and, for the dynamic variant, with a `vsetvl` that gives a full group of two registers
  -- whenever it can), the sweeps return with no access out of bounds if LEN_1D is 192 or more, and
  -- each of the first 192 rows is the result of 36 applications of the row function of db5, and all
  -- others are as before: the variants agree, whatever the length of the vectors.
  pub db5_kernel-Swept :
      (variant : Variant) (st : Memory r)
      → IsServed r variant
      → db5_total ≤ r.len_1d
      → Ensures (db5_kernel r variant st) (Swept r (times db5_iters (db5_row r)) 0 db5_total st)
  unfolding db5_kernel
  db5_kernel-Swept variant st served room =
      sweeps-Swept r (db5_row r) 0 db5_total (λ s. db5_sweep r variant s)
        (λ s. db5_sweep-Swept variant s served room) db5_iters st

  -- For every variant of db10, on any machine with the documented laws of the vector intrinsics
  -- (and, for the dynamic variant, with a `vsetvl` that gives a full group of two registers
  -- whenever it can), the sweeps return with no access out of bounds if LEN_1D is 224 or more, and
  -- each of the first 224 rows is the result of 32 applications of the row function of db10, and
  -- all others are as before: the variants agree, whatever the length of the vectors.
  pub db10_kernel-Swept :
      (variant : Variant) (st : Memory r)
      → IsServed r variant
      → db10_total ≤ r.len_1d
      → Ensures (db10_kernel r variant st) (Swept r (times db10_iters (db10_row r)) 0 db10_total st)
  unfolding db10_kernel
  db10_kernel-Swept variant st served room =
      sweeps-Swept r (db10_row r) 0 db10_total (λ s. db10_sweep r variant s)
        (λ s. db10_sweep-Swept variant s served room) db10_iters st
