-- ===== src/Dlmul/Micro/Sweeps.antt =====
-- Every microbenchmark computes the same rows with every LMUL.
use vectorizer_experiments.Base.{ℕ, ◌≤◌, arith, Ensures}
use vectorizer_experiments.Dlmul.Rvv.{Lmul, Rvv, IsRvv, Memory, area}
use vectorizer_experiments.Dlmul.Strip.Sweep.{Swept, times}
use vectorizer_experiments.Dlmul.Micro.{
  mb2_step, mb2_kernel, mb3_step, mb3_kernel, Shape, mb6_step, mb6_kernel, ChainOp, mb7_step,
  mb7_kernel, mb10_round, mb10_kernel,
}
use vectorizer_experiments.Dlmul.Micro.Rows.{mb2_row, mb3_row, mb6_row, mb7_row, mb10_row}
use vectorizer_experiments.Dlmul.Micro.Steps.{
  kernel-Swept, mb2_step-Steps, mb3_step-Steps, mb6_step-Steps, mb7_step-Steps, mb10_round-Steps,
}

module _ (r : Rvv) (law : IsRvv r) (l : Lmul) where
  -- On any machine with the documented laws of the vector intrinsics, with at most LEN_1D elements,
  -- mb2 with any LMUL returns; on each of the rows of the elements, once for each outer iteration,
  -- a becomes b + c, and no row behind the elements changes.
  pub mb2_kernel-Swept :
      (total iters : ℕ) (st : Memory r)
      → total ≤ r.len_1d
      → Ensures (mb2_kernel r l total iters st) (Swept r (times iters (mb2_row r)) 0 total st)
  unfolding mb2_kernel
  mb2_kernel-Swept total iters st room =
      kernel-Swept r law l (mb2_row r) (mb2_step r l) total iters
        (λ offset avl s pos inside. mb2_step-Steps r law l offset avl s pos (omega arith)) st

  -- On any machine with the documented laws of the vector intrinsics, with at most LEN_1D and
  -- LEN_2D * LEN_2D elements, mb3 with any LMUL returns; on each of the rows of the elements, once
  -- for each outer iteration, d becomes the sum of a, b, c d and e x, less aa, plus flat_2d_array,
  -- and no row behind the elements changes.
  pub mb3_kernel-Swept :
      (total iters : ℕ) (st : Memory r)
      → total ≤ r.len_1d
      → total ≤ area r
      → Ensures (mb3_kernel r l total iters st) (Swept r (times iters (mb3_row r)) 0 total st)
  unfolding mb3_kernel
  mb3_kernel-Swept total iters st room plane =
      kernel-Swept r law l (mb3_row r) (mb3_step r l) total iters
        (λ offset avl s pos inside.
          mb3_step-Steps r law l offset avl s pos (omega arith) (omega arith))
        st

  -- On any machine with the documented laws of the vector intrinsics, with at most LEN_1D elements,
  -- mb6 with any LMUL and shape returns; on each of the rows of the elements, once for each outer
  -- iteration, a becomes the value of the shape for b and c, and no row behind the elements
  -- changes.
  pub mb6_kernel-Swept :
      (shape : Shape) (total iters : ℕ) (st : Memory r)
      → total ≤ r.len_1d
      → Ensures
          (mb6_kernel r l shape total iters st)
          (Swept r (times iters (mb6_row r shape)) 0 total st)
  unfolding mb6_kernel
  mb6_kernel-Swept shape total iters st room =
      kernel-Swept r law l (mb6_row r shape) (mb6_step r l shape) total iters
        (λ offset avl s pos inside. mb6_step-Steps r law l offset avl s pos (omega arith) shape) st

  -- On any machine with the documented laws of the vector intrinsics, with at most LEN_1D elements,
  -- mb7 with any LMUL, operation and depth returns; on each of the rows of the elements, once for
  -- each outer iteration, d becomes a after the chain of operations with b and c, and no row behind
  -- the elements changes.
  pub mb7_kernel-Swept :
      (op : ChainOp) (depth total iters : ℕ) (st : Memory r)
      → total ≤ r.len_1d
      → Ensures
          (mb7_kernel r l op depth total iters st)
          (Swept r (times iters (mb7_row r op depth)) 0 total st)
  unfolding mb7_kernel
  mb7_kernel-Swept op depth total iters st room =
      kernel-Swept r law l (mb7_row r op depth) (mb7_step r l op depth) total iters
        (λ offset avl s pos inside. mb7_step-Steps r law l offset avl s pos (omega arith) op depth)
        st

  -- On any machine with the documented laws of the vector intrinsics, with at most LEN_1D elements,
  -- mb10 with any LMUL returns; on each of the rows of the elements, once for each outer iteration,
  -- d becomes a + b b, and the spill passes copy d to e, and no row behind the elements changes.
  pub mb10_kernel-Swept :
      (level total iters : ℕ) (st : Memory r)
      → total ≤ r.len_1d
      → Ensures
          (mb10_kernel r l level total iters st)
          (Swept r (times iters (mb10_row r level)) 0 total st)
  unfolding mb10_kernel
  mb10_kernel-Swept level total iters st room =
      kernel-Swept r law l (mb10_row r level) (mb10_round r l level) total iters
        (λ offset avl s pos inside. mb10_round-Steps r law l offset avl s pos (omega arith) level)
        st
