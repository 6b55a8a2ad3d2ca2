-- ===== src/Dlmul/Suite/Variants.antt =====
-- The variants of a bench on floats agree.
use vectorizer_experiments.Base.{ℕ, ◌*◌, ◌≤◌, ◌≡◌, ◌∙◌, sym, arith, Option, Ensures, Ensures-weaken}
use vectorizer_experiments.Dlmul.Rvv.{m4, Rvv, IsRvv, Memory, row, area}
use vectorizer_experiments.Dlmul.Strip.Sweep.{times}
use vectorizer_experiments.Dlmul.Strip.Indexed.{RowMap, SweptBy}
use vectorizer_experiments.Dlmul.Bench.{Variant}
use vectorizer_experiments.Dlmul.Bench.Chunks.{IsGreedy, IsGreedyAt}
use vectorizer_experiments.Dlmul.Bench.Stored.{Serves, Serves-weaken}
use vectorizer_experiments.Dlmul.Pressure.{
  db2_total, db2_iters, db2_kernel, db7_total, db7_iters, db7_kernel, db8_total, db8_iters,
  db8_kernel,
}
use vectorizer_experiments.Dlmul.Pressure.Rows.{
  db2_row, db7_row, db8_row, db2_kernel-SweptBy, db7_kernel-SweptBy, db8_kernel-SweptBy,
}
use vectorizer_experiments.Dlmul.Gamma.{
  db9_total, db9_iters, db9_kernel, db11_total, db11_iters, db11_kernel,
}
use vectorizer_experiments.Dlmul.Gamma.Phases.{db9_row, db11_row}
use vectorizer_experiments.Dlmul.Gamma.Rows.{db9_kernel-SweptBy, db11_kernel-SweptBy}
use vectorizer_experiments.Dlmul.Spring.{db12_total, db12_iters, db12_kernel}
use vectorizer_experiments.Dlmul.Spring.Rows.{db12_row, db12_kernel-SweptBy}
use vectorizer_experiments.Dlmul.Matrix.{DepMode, dep_total, dep_iters, dep_kernel}
use vectorizer_experiments.Dlmul.Matrix.Phases.{dep_row}
use vectorizer_experiments.Dlmul.Matrix.Rows.{dep_kernel-SweptBy}
use vectorizer_experiments.Dlmul.Alias.{AliasMode, alias_total, alias_iters, alias_kernel}
use vectorizer_experiments.Dlmul.Alias.Rows.{alias_row, alias_kernel-SweptBy}

-- The benches on floats whose dynamic variant takes its registers apart and also reads planes or modes.
pub data RealBench : Type 0 where
  db2 : RealBench
  db7 : RealBench
  db8 : ℕ → RealBench
  db9 : RealBench
  db11 : RealBench
  db12 : RealBench
  dep_matrix : DepMode → RealBench
  alias_transfer : AliasMode → RealBench

unfoldable pub run_bench : (r : Rvv) → RealBench → Variant → Memory r → Option (Memory r)
run_bench r db2 variant st = db2_kernel r variant st
run_bench r db7 variant st = db7_kernel r variant st
run_bench r (db8 repeats) variant st = db8_kernel r variant repeats st
run_bench r db9 variant st = db9_kernel r variant st
run_bench r db11 variant st = db11_kernel r variant st
run_bench r db12 variant st = db12_kernel r variant st
run_bench r (dep_matrix mode) variant st = dep_kernel r variant mode st
run_bench r (alias_transfer mode) variant st = alias_kernel r variant mode st

-- The specification: how many rows change, and how.
abbrev rows_of : RealBench → ℕ
rows_of db2 = db2_total
rows_of db7 = db7_total
rows_of (db8 repeats) = db8_total
rows_of db9 = db9_total
rows_of db11 = db11_total
rows_of db12 = db12_total
rows_of (dep_matrix mode) = dep_total
rows_of (alias_transfer mode) = alias_total

abbrev map_of : (r : Rvv) → RealBench → RowMap r
map_of r db2 flat j = times db2_iters (db2_row r flat j)
map_of r db7 flat j = times db7_iters (db7_row r flat j)
map_of r (db8 repeats) flat j = times db8_iters (db8_row r repeats flat j)
map_of r db9 flat j = times db9_iters (db9_row r flat j)
map_of r db11 flat j = times db11_iters (db11_row r flat j)
map_of r db12 flat j = times db12_iters (db12_row r flat j)
map_of r (dep_matrix mode) flat j = times dep_iters (dep_row r mode flat j)
map_of r (alias_transfer mode) flat j = times alias_iters (alias_row r mode flat j)

module _ (r : Rvv) (law : IsRvv r) (room : 192 ≤ r.len_1d) (planes : 6 * 128 ≤ area r) where
  greedy_2 :
      (variant : Variant)
      → Serves (IsGreedy r × IsGreedyAt r m4) variant
      → Serves (IsGreedy r) variant
  greedy_2 variant = Serves-weaken variant λ both. both.0

  -- Every variant implements the specification.
  run_bench-SweptBy :
      (bench : RealBench) (variant : Variant) (st : Memory r)
      → Serves (IsGreedy r × IsGreedyAt r m4) variant
      → Ensures (run_bench r bench variant st) (SweptBy r (map_of r bench) 0 (rows_of bench) st)
  unfolding run_bench
  run_bench-SweptBy db2 variant st served =
      db2_kernel-SweptBy r law (omega arith) planes variant st (greedy_2 variant served)
  run_bench-SweptBy db7 variant st served =
      db7_kernel-SweptBy r law (omega arith) planes variant st served
  run_bench-SweptBy (db8 repeats) variant st served =
      db8_kernel-SweptBy r law (omega arith) planes variant repeats st (greedy_2 variant served)
  run_bench-SweptBy db9 variant st served =
      db9_kernel-SweptBy r law (omega arith) (omega arith) variant st served
  run_bench-SweptBy db11 variant st served =
      db11_kernel-SweptBy r law room (omega arith) variant st (greedy_2 variant served)
  run_bench-SweptBy db12 variant st served =
      db12_kernel-SweptBy r law room variant st (greedy_2 variant served)
  run_bench-SweptBy (dep_matrix mode) variant st served =
      dep_kernel-SweptBy r law room (omega arith) variant mode st (greedy_2 variant served)
  run_bench-SweptBy (alias_transfer mode) variant st served =
      alias_kernel-SweptBy r law room variant mode st (greedy_2 variant served)

  -- For db2, db7, db8, db9, db11, db12, dep_matrix and alias_transfer, in every mode, with LEN_1D
  -- at least 192 and LEN_2D * LEN_2D at least 768: on any machine with the documented laws of the
  -- vector intrinsics, any two variants (the dynamic one with a `vsetvl` that gives full groups of
  -- two and of four registers whenever it can) started in the same memory both return, without an
  -- access out of bounds, and leave the same arrays, whatever the length of the vectors.
  pub variants-Agree :
      (bench : RealBench) (variant other : Variant) (st : Memory r)
      → Serves (IsGreedy r × IsGreedyAt r m4) variant
      → Serves (IsGreedy r × IsGreedyAt r m4) other
      → Ensures
          (run_bench r bench variant st)
          (λ s. Ensures (run_bench r bench other st) (λ t. (j : ℕ) → row r s j ≡ row r t j))
  variants-Agree bench variant other st served served' =
      Ensures-weaken _ _ _ (run_bench-SweptBy bench variant st served) λ s p.
        Ensures-weaken _ _ _ (run_bench-SweptBy bench other st served')
          λ t q. λ j. p.cells j ∙ sym (q.cells j)
