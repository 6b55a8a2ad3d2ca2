-- ===== src/Dlmul/Suite/Kernels.antt =====
-- Kernels of one kind in one statement.
use vectorizer_experiments.Base.{ℕ, ◌*◌, ◌≤◌, ◌≡◌, arith, Ensures}
use vectorizer_experiments.Dlmul.Rvv.{Lmul, Rvv, IsRvv, Memory, row, area}
use vectorizer_experiments.Dlmul.Strip.Sweep.{Swept, times}
use vectorizer_experiments.Dlmul.Strip.Indexed.{SweptBy}
use vectorizer_experiments.Dlmul.Micro.{
  Shape, ChainOp, mb2_kernel, mb3_kernel, mb6_kernel, mb7_kernel, mb10_kernel,
}
use vectorizer_experiments.Dlmul.Micro.Rows.{mb2_row, mb3_row, mb6_row, mb7_row, mb10_row}
use vectorizer_experiments.Dlmul.Micro.Sweeps.{
  mb2_kernel-Swept, mb3_kernel-Swept, mb6_kernel-Swept, mb7_kernel-Swept, mb10_kernel-Swept,
}
use vectorizer_experiments.Dlmul.Live.{Mb8Class, mb8_kernel}
use vectorizer_experiments.Dlmul.Live.Rows.{mb8_row, mb8_kernel-Swept}
use vectorizer_experiments.Dlmul.Phases.{mb9_kernel}
use vectorizer_experiments.Dlmul.Phases.Rows.{mb9_row, mb9_kernel-Iterated}
use vectorizer_experiments.Dlmul.Switch.{mb1_kernel, mb4_kernel}
use vectorizer_experiments.Dlmul.Switch.Rows.{
  mb1_row, mb1_kernel-Iterated, mb4_row, mb4_kernel-Iterated,
}
use vectorizer_experiments.Dlmul.Bench.{
  Variant, db5_total, db5_iters, db5_kernel, db10_total, db10_iters, db10_kernel,
}
use vectorizer_experiments.Dlmul.Bench.Chunks.{IsGreedy}
use vectorizer_experiments.Dlmul.Bench.Stored.{Serves}
use vectorizer_experiments.Dlmul.Bench.Rounds.{db5_row, db10_row}
use vectorizer_experiments.Dlmul.Bench.Agree.{IsServed, db5_kernel-Swept, db10_kernel-Swept}
use vectorizer_experiments.Dlmul.Spring.{db12_total, db12_iters, db12_kernel}
use vectorizer_experiments.Dlmul.Spring.Rows.{db12_row, db12_kernel-SweptBy}
use vectorizer_experiments.Dlmul.Matrix.{DepMode, dep_total, dep_iters, dep_kernel}
use vectorizer_experiments.Dlmul.Matrix.Phases.{dep_row}
use vectorizer_experiments.Dlmul.Matrix.Rows.{dep_kernel-SweptBy}
use vectorizer_experiments.Dlmul.Alias.{AliasMode, alias_total, alias_iters, alias_kernel}
use vectorizer_experiments.Dlmul.Alias.Rows.{alias_row, alias_kernel-SweptBy}
use vectorizer_experiments.Dlmul.Ints.{IntRvv, IsIntRvv, IntMemory}
use vectorizer_experiments.Dlmul.Widen.{
  Db6Variant, db1_total, db1_iters, db1_kernel, db3_total, db3_iters, db3_kernel, db4_total,
  db4_iters, db4_kernel, db6_total, db6_iters, db6_kernel,
}
use vectorizer_experiments.Dlmul.Widen.Phases.{SweptInts}
use vectorizer_experiments.Dlmul.Widen.Rounds.{Widens, Db6Serves, db1_cell, db4_cell, db6_cell}
use vectorizer_experiments.Dlmul.Widen.Rows.{widening-SweptInts}
use vectorizer_experiments.Dlmul.Widen.Clipped.{db3_cell, db3_kernel-SweptInts}

module _ (r : Rvv) (law : IsRvv r) where
  module _ (l : Lmul) (total iters : ℕ) (st : Memory r) where
    -- On any machine with the documented laws of the vector intrinsics, with at most LEN_1D
    -- elements, mb2, mb6 of any shape, mb7 of any operation and depth, mb10, and mb1 of any
    -- second LMUL and any second number of elements up to LEN_1D, each with any LMUL, return; on
    -- each of the rows of the elements, once for each outer iteration, a becomes b + c in mb2,
    -- and the value of the shape for b and c in mb6, d becomes a after the chain of operations
    -- with b and c in mb7, and a + b b in mb10, whose spill passes copy d to e, and in mb1 a
    -- becomes b + c below the first number of elements and x becomes d - e below the second; no
    -- other row changes.
    pub streams-Swept :
        (shape : Shape) (op : ChainOp) (depth level : ℕ) (l' : Lmul) (total' : ℕ)
        → total ≤ r.len_1d
        → total' ≤ r.len_1d
        → Ensures (mb2_kernel r l total iters st) (Swept r (times iters (mb2_row r)) 0 total st)
          × Ensures
              (mb6_kernel r l shape total iters st)
              (Swept r (times iters (mb6_row r shape)) 0 total st)
          × Ensures
              (mb7_kernel r l op depth total iters st)
              (Swept r (times iters (mb7_row r op depth)) 0 total st)
          × Ensures
              (mb10_kernel r l level total iters st)
              (Swept r (times iters (mb10_row r level)) 0 total st)
          × Ensures
              (mb1_kernel r l l' total total' iters st)
              (λ st'. (j : ℕ) → row r st' j ≡ times iters (mb1_row r total total' j) (row r st j))
    streams-Swept shape op depth level l' total' room room' = (
      mb2_kernel-Swept r law l total iters st room,
      mb6_kernel-Swept r law l shape total iters st room,
      mb7_kernel-Swept r law l op depth total iters st room,
      mb10_kernel-Swept r law l level total iters st room,
      mb1_kernel-Iterated r law l l' total total' room room' iters st,
    )

    -- On any machine with the documented laws of the vector intrinsics, with at most LEN_1D and
    -- LEN_2D * LEN_2D elements, mb3, and mb8 of class 1 or 2 with any number of temporaries, each
    -- with any LMUL, return; on each of the rows of the elements, once for each outer iteration,
    -- d becomes in mb3 the sum of a, b, c d and e x, less aa, plus flat_2d_array, and a becomes
    -- in mb8 a + b with the terms of the blocks for 4, 8 and 12 temporaries that are in, added
    -- one by one or multiplied in pairs; no row behind the elements changes.
    pub planes-Swept :
        (class : Mb8Class) (k : ℕ)
        → total ≤ r.len_1d
        → total ≤ area r
        → Ensures (mb3_kernel r l total iters st) (Swept r (times iters (mb3_row r)) 0 total st)
          × Ensures
              (mb8_kernel r l class k total iters st)
              (Swept r (times iters (mb8_row r class k)) 0 total st)
    planes-Swept class k room plane = (
      mb3_kernel-Swept r law l total iters st room plane,
      mb8_kernel-Swept r law l class k total iters st room plane,
    )

  -- On any machine with the documented laws of the vector intrinsics, where both numbers of
  -- elements are at most LEN_1D and LEN_2D * LEN_2D, mb4 and mb9 with any two LMULs return, and on
  -- every row, once for each outer iteration, d becomes a + b below the first number; then, below
  -- the second number, flat_2d_array becomes d e + c x + d in mb4, and d + e c in mb9; then e
  -- becomes d + flat_2d_array below the first number.
  pub phased-Iterated :
      (l_1 l_2 : Lmul) (total_1 total_2 iters : ℕ) (st : Memory r)
      → total_1 ≤ r.len_1d
      → total_2 ≤ r.len_1d
      → total_1 ≤ area r
      → total_2 ≤ area r
      → Ensures
          (mb4_kernel r l_1 l_2 total_1 total_2 iters st)
          (λ st'. (j : ℕ) → row r st' j ≡ times iters (mb4_row r total_1 total_2 j) (row r st j))
        × Ensures
            (mb9_kernel r l_1 l_2 total_1 total_2 iters st)
            (λ st'. (j : ℕ) → row r st' j ≡ times iters (mb9_row r total_1 total_2 j) (row r st j))
  phased-Iterated l_1 l_2 total_1 total_2 iters st room_1 room_2 plane_1 plane_2 = (
    mb4_kernel-Iterated r law l_1 l_2 total_1 total_2 room_1 room_2 plane_1 plane_2 iters st,
    mb9_kernel-Iterated r law l_1 l_2 total_1 total_2 room_1 room_2 plane_1 plane_2 iters st,
  )

  -- For every variant of db5 and db10, on any machine with the documented laws of the vector
  -- intrinsics (and, for the dynamic variant, with a `vsetvl` that gives a full group of two
  -- registers whenever it can), with LEN_1D at least 224, the sweeps return with no access out of
  -- bounds; each of the first 192 rows is the result of 36 applications of the row function of db5,
  -- and each of the first 224 rows of 32 applications of that of db10; all others are as before.
  pub quarters-Swept :
      (variant : Variant) (st : Memory r)
      → IsServed r variant
      → db10_total ≤ r.len_1d
      → Ensures (db5_kernel r variant st) (Swept r (times db5_iters (db5_row r)) 0 db5_total st)
        × Ensures
            (db10_kernel r variant st)
            (Swept r (times db10_iters (db10_row r)) 0 db10_total st)
  quarters-Swept variant st served room = (
    db5_kernel-Swept r law variant st served (omega arith),
    db10_kernel-Swept r law variant st served room,
  )

  -- For every variant of db12, of dep_matrix in each dependency mode, and of alias_transfer in each
  -- alias mode, on any machine with the documented laws of the vector intrinsics (and, for the
  -- dynamic variant, with a `vsetvl` that gives a full group of two registers whenever it can),
  -- with LEN_1D at least 192 and LEN_2D * LEN_2D at least 576, the sweeps return with no access out
  -- of bounds; each of the rows below the number of elements is the result of the row function of
  -- the bench, applied once for each outer iteration, and all others, and `flat_2d_array`, are as
  -- before. In alias_transfer the chunks that overwrite their operand read each part before it is
  -- written.
  pub halves-SweptBy :
      (variant : Variant) (mode : DepMode) (alias : AliasMode) (st : Memory r)
      → Serves (IsGreedy r) variant
      → 192 ≤ r.len_1d
      → 3 * 192 ≤ area r
      → Ensures
          (db12_kernel r variant st)
          (SweptBy r (λ flat j. times db12_iters (db12_row r flat j)) 0 db12_total st)
        × Ensures
            (dep_kernel r variant mode st)
            (SweptBy r (λ flat j. times dep_iters (dep_row r mode flat j)) 0 dep_total st)
        × Ensures
            (alias_kernel r variant alias st)
            (SweptBy r (λ flat j. times alias_iters (alias_row r alias flat j)) 0 alias_total st)
  halves-SweptBy variant mode alias st served room planes = (
    db12_kernel-SweptBy r law room variant st served,
    dep_kernel-SweptBy r law room planes variant mode st served,
    alias_kernel-SweptBy r law room variant alias st served,
  )

  -- For every variant of db1, db3, db4 and db6 with fixed LMULs below 8, and any bound of the
  -- integer phase of db3 up to LEN_1D, on any machine with the documented laws of the vector
  -- intrinsics on floats and integers (and, for the variant of db6 that stores by halves, with a
  -- `vsetvl` that gives a full group of two registers whenever it can), with LEN_1D at least 192,
  -- the sweeps return with no access out of bounds; at each index below the number of elements the
  -- floats and `indx` are the result of the function of the bench, applied once for each outer
  -- iteration, with the sign extensions and the wrap-around of int32_t written out, and in db3 each
  -- below the bound of its phase only; everywhere else they are as before, and so are the static
  -- arrays.
  pub integers-SweptInts :
      (n : IntRvv) (int_law : IsIntRvv r n) (variant : Variant) (variant_6 : Db6Variant)
      (phase_b : ℕ) (st : IntMemory r)
      → Widens variant
      → Db6Serves r variant_6
      → 192 ≤ r.len_1d
      → phase_b ≤ r.len_1d
      → Ensures
          (db1_kernel r n variant st)
          (SweptInts r (λ s j. times db1_iters (db1_cell r s j)) 0 db1_total st)
        × Ensures
            (db3_kernel r n variant phase_b st)
            (SweptInts r (λ s j. times db3_iters (db3_cell r phase_b s j)) 0 (db3_total phase_b) st)
        × Ensures
            (db4_kernel r n variant st)
            (SweptInts r (λ s j. times db4_iters (db4_cell r s j)) 0 db4_total st)
        × Ensures
            (db6_kernel r n variant_6 st)
            (SweptInts r (λ s j. times db6_iters (db6_cell r s j)) 0 db6_total st)
  integers-SweptInts n int_law variant variant_6 phase_b st narrow served room room_b =
      let others = widening-SweptInts r law n int_law room variant variant_6 st narrow served in
      (
        others.0,
        db3_kernel-SweptInts r law n int_law phase_b (omega arith) room_b variant st narrow,
        others.1,
        others.2,
      )
