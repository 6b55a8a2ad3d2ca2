-- ===== src/Dlmul/Tests.antt =====
-- The theorems on the machine of the tests.
use vectorizer_experiments.Base.{ℕ, ◌≡◌, arith, Ensures}
use vectorizer_experiments.Dlmul.Rvv.{mf4, m1, m2, m4, m8, row}
use vectorizer_experiments.Dlmul.Machine.{
  machine, machine-IsRvv, machine-IsGreedyAt, memory, int_machine, int_machine-IsIntRvv, int_memory,
  cliff_memory,
}
use vectorizer_experiments.Dlmul.Strip.Sweep.{Swept, times}
use vectorizer_experiments.Dlmul.Strip.Indexed.{SweptBy}
use vectorizer_experiments.Dlmul.Micro.{
  shape_4, op_2, mb2_kernel, mb3_kernel, mb6_kernel, mb7_kernel, mb10_kernel,
}
use vectorizer_experiments.Dlmul.Micro.Rows.{mb2_row, mb3_row, mb6_row, mb7_row, mb10_row}
use vectorizer_experiments.Dlmul.Live.{class_2, mb8_kernel}
use vectorizer_experiments.Dlmul.Live.Rows.{mb8_row}
use vectorizer_experiments.Dlmul.Phases.{mb9_kernel}
use vectorizer_experiments.Dlmul.Phases.Rows.{mb9_row}
use vectorizer_experiments.Dlmul.Switch.{mb1_kernel, mb4_kernel}
use vectorizer_experiments.Dlmul.Switch.Rows.{mb1_row, mb4_row}
use vectorizer_experiments.Dlmul.Bench.{
  fixed, dynamic, db5_total, db5_iters, db5_kernel, db10_total, db10_iters, db10_kernel,
}
use vectorizer_experiments.Dlmul.Bench.Rounds.{db5_row, db10_row}
use vectorizer_experiments.Dlmul.Pressure.{
  db2_total, db2_iters, db2_kernel, db7_total, db7_iters, db7_kernel, db8_total, db8_iters,
  db8_kernel,
}
use vectorizer_experiments.Dlmul.Pressure.Rows.{db2_row, db7_row, db8_row, pressure_kernels-SweptBy}
use vectorizer_experiments.Dlmul.Gamma.{
  db9_total, db9_iters, db9_kernel, db11_total, db11_iters, db11_kernel,
}
use vectorizer_experiments.Dlmul.Gamma.Phases.{db9_row, db11_row}
use vectorizer_experiments.Dlmul.Gamma.Rows.{gamma_kernels-SweptBy}
use vectorizer_experiments.Dlmul.Spring.{db12_total, db12_iters, db12_kernel}
use vectorizer_experiments.Dlmul.Spring.Rows.{db12_row}
use vectorizer_experiments.Dlmul.Matrix.{mode_13_12, dep_total, dep_iters, dep_kernel}
use vectorizer_experiments.Dlmul.Matrix.Phases.{dep_row}
use vectorizer_experiments.Dlmul.Alias.{alias_bad, alias_ok, alias_total, alias_iters, alias_kernel}
use vectorizer_experiments.Dlmul.Alias.Rows.{alias_row}
use vectorizer_experiments.Dlmul.Widen.{
  m8_m2_m2, db1_total, db1_iters, db1_kernel, db3_total, db3_iters, db3_kernel, db4_total,
  db4_iters, db4_kernel, db6_total, db6_iters, db6_kernel,
}
use vectorizer_experiments.Dlmul.Widen.Phases.{SweptInts}
use vectorizer_experiments.Dlmul.Widen.Rounds.{db1_cell, db4_cell, db6_cell}
use vectorizer_experiments.Dlmul.Widen.Clipped.{db3_cell}
use vectorizer_experiments.Dlmul.Cliff.{
  mb5_src0, mb5_src1, mb8_src0, mb8_src1, mb5_kernel, mb8_wide_kernel,
}
use vectorizer_experiments.Dlmul.Cliff.Values.{mb5_plain, mb8_plain}
use vectorizer_experiments.Dlmul.Cliff.Filled.{Filled, cliffs-Filled}
use vectorizer_experiments.Dlmul.Suite.Kernels.{
  streams-Swept, planes-Swept, phased-Iterated, quarters-Swept, halves-SweptBy, integers-SweptInts,
}
use vectorizer_experiments.Dlmul.Suite.Variants.{alias_transfer, run_bench, variants-Agree}

streams-Swept_example :
    Ensures
      (mb2_kernel machine m4 256 32 memory)
      (Swept machine (times 32 (mb2_row machine)) 0 256 memory)
    × Ensures
        (mb6_kernel machine m4 shape_4 256 32 memory)
        (Swept machine (times 32 (mb6_row machine shape_4)) 0 256 memory)
    × Ensures
        (mb7_kernel machine m4 op_2 32 256 32 memory)
        (Swept machine (times 32 (mb7_row machine op_2 32)) 0 256 memory)
    × Ensures
        (mb10_kernel machine m4 1 256 32 memory)
        (Swept machine (times 32 (mb10_row machine 1)) 0 256 memory)
    × Ensures (mb1_kernel machine m4 m1 256 96 32 memory) (λ st.
      (j : ℕ) → row machine st j ≡ times 32 (mb1_row machine 256 96 j) (row machine memory j))
streams-Swept_example =
    streams-Swept machine machine-IsRvv m4 256 32 memory shape_4 op_2 32 1 m1 96 (omega arith)
      (omega arith)

planes-Swept_example :
    Ensures
      (mb3_kernel machine mf4 64 48 memory)
      (Swept machine (times 48 (mb3_row machine)) 0 64 memory)
    × Ensures
        (mb8_kernel machine mf4 class_2 8 64 48 memory)
        (Swept machine (times 48 (mb8_row machine class_2 8)) 0 64 memory)
planes-Swept_example =
    planes-Swept machine machine-IsRvv mf4 64 48 memory class_2 8 (omega arith) (omega arith)

phased-Iterated_example :
    Ensures (mb4_kernel machine m8 m1 128 64 48 memory) (λ st.
      (j : ℕ) → row machine st j ≡ times 48 (mb4_row machine 128 64 j) (row machine memory j))
    × Ensures (mb9_kernel machine m8 m1 128 64 48 memory) (λ st.
      (j : ℕ) → row machine st j ≡ times 48 (mb9_row machine 128 64 j) (row machine memory j))
phased-Iterated_example =
    phased-Iterated machine machine-IsRvv m8 m1 128 64 48 memory (omega arith) (omega arith)
      (omega arith) (omega arith)

quarters-Swept_example :
    Ensures
      (db5_kernel machine dynamic memory)
      (Swept machine (times db5_iters (db5_row machine)) 0 db5_total memory)
    × Ensures
        (db10_kernel machine dynamic memory)
        (Swept machine (times db10_iters (db10_row machine)) 0 db10_total memory)
quarters-Swept_example =
    quarters-Swept machine machine-IsRvv dynamic memory (machine-IsGreedyAt m2) (omega arith)

pressure_kernels-SweptBy_example :
    Ensures
      (db2_kernel machine dynamic memory)
      (SweptBy machine (λ flat j. times db2_iters (db2_row machine flat j)) 0 db2_total memory)
    × Ensures
        (db7_kernel machine dynamic memory)
        (SweptBy machine (λ flat j. times db7_iters (db7_row machine flat j)) 0 db7_total memory)
    × Ensures
        (db8_kernel machine dynamic 2 memory)
        (SweptBy machine (λ flat j. times db8_iters (db8_row machine 2 flat j)) 0 db8_total memory)
pressure_kernels-SweptBy_example =
    pressure_kernels-SweptBy machine machine-IsRvv (omega arith) (omega arith) dynamic 2 memory
      (machine-IsGreedyAt m2, machine-IsGreedyAt m4)

gamma_kernels-SweptBy_example :
    Ensures
      (db9_kernel machine dynamic memory)
      (SweptBy machine (λ flat j. times db9_iters (db9_row machine flat j)) 0 db9_total memory)
    × Ensures
        (db11_kernel machine dynamic memory)
        (SweptBy machine (λ flat j. times db11_iters (db11_row machine flat j)) 0 db11_total memory)
gamma_kernels-SweptBy_example =
    gamma_kernels-SweptBy machine machine-IsRvv (omega arith) (omega arith) dynamic memory
      (machine-IsGreedyAt m2, machine-IsGreedyAt m4)

halves-SweptBy_example :
    Ensures
      (db12_kernel machine dynamic memory)
      (SweptBy machine (λ flat j. times db12_iters (db12_row machine flat j)) 0 db12_total memory)
    × Ensures (dep_kernel machine dynamic mode_13_12 memory) (
        SweptBy machine
          (λ flat j. times dep_iters (dep_row machine mode_13_12 flat j))
          0
          dep_total
          memory)
    × Ensures (alias_kernel machine dynamic alias_bad memory) (
        SweptBy machine
          (λ flat j. times alias_iters (alias_row machine alias_bad flat j))
          0
          alias_total
          memory)
halves-SweptBy_example =
    halves-SweptBy machine machine-IsRvv dynamic mode_13_12 alias_bad memory (machine-IsGreedyAt m2)
      (omega arith) (omega arith)

integers-SweptInts_example :
    Ensures
      (db1_kernel machine int_machine dynamic int_memory)
      (SweptInts machine (λ s j. times db1_iters (db1_cell machine s j)) 0 db1_total int_memory)
    × Ensures (db3_kernel machine int_machine dynamic 96 int_memory) (
        SweptInts machine
          (λ s j. times db3_iters (db3_cell machine 96 s j))
          0
          (db3_total 96)
          int_memory)
    × Ensures
        (db4_kernel machine int_machine dynamic int_memory)
        (SweptInts machine (λ s j. times db4_iters (db4_cell machine s j)) 0 db4_total int_memory)
    × Ensures
        (db6_kernel machine int_machine m8_m2_m2 int_memory)
        (SweptInts machine (λ s j. times db6_iters (db6_cell machine s j)) 0 db6_total int_memory)
integers-SweptInts_example =
    integers-SweptInts machine machine-IsRvv int_machine int_machine-IsIntRvv dynamic m8_m2_m2 96
      int_memory tt (machine-IsGreedyAt m2) (omega arith) (omega arith)

variants-Agree_example : Ensures (run_bench machine (alias_transfer alias_ok) dynamic memory) (λ s.
    Ensures
      (run_bench machine (alias_transfer alias_ok) (fixed m1) memory)
      (λ t. (j : ℕ) → row machine s j ≡ row machine t j))
variants-Agree_example =
    variants-Agree machine machine-IsRvv (omega arith) (omega arith) (alias_transfer alias_ok)
      dynamic (fixed m1) memory (machine-IsGreedyAt m2, machine-IsGreedyAt m4) tt

cliffs-Filled_example :
    Ensures
      (mb5_kernel int_machine m2 256 8 64 32 cliff_memory)
      (Filled (λ j. mb5_plain 8 (mb5_src0 j) (mb5_src1 j)) 64 cliff_memory)
    × Ensures
        (mb8_wide_kernel int_machine m2 256 8 64 32 cliff_memory)
        (Filled (λ j. mb8_plain 8 (mb8_src0 j) (mb8_src1 j)) 64 cliff_memory)
cliffs-Filled_example =
    cliffs-Filled machine int_machine int_machine-IsIntRvv m2 tt 256 8 64 32 cliff_memory
      (omega arith) (omega arith)
