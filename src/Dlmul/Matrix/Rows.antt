-- ===== src/Dlmul/Matrix/Rows.antt =====
-- Every variant of dep_matrix computes the same rows in each mode, whatever the length of the vectors.
use vectorizer_experiments.Base.{ℕ, ◌+◌, ◌*◌, ◌≤◌, arith, Ensures, Ensures-bind}
use vectorizer_experiments.Dlmul.Rvv.{Lmul, m4, Rvv, IsRvv, Memory, area}
use vectorizer_experiments.Dlmul.Rvv.Lanes.{load_vec-some}
use vectorizer_experiments.Dlmul.Strip.Sweep.{times}
use vectorizer_experiments.Dlmul.Strip.Indexed.{SweptBy, sweeps-SweptBy}
use vectorizer_experiments.Dlmul.Bench.{Variant, fixed, dynamic}
use vectorizer_experiments.Dlmul.Bench.Chunks.{IsGreedy, fewer-Lanes}
use vectorizer_experiments.Dlmul.Bench.Stored.{bench_sweep-SweptBy, Serves}
use vectorizer_experiments.Dlmul.Matrix.{
  DepMode, dep_total, dep_iters, dep_fixed, dep_dynamic, dep_sweep, dep_kernel,
}
use vectorizer_experiments.Dlmul.Matrix.Phases.{
  dep_row, dep_phase1-Lanes, dep_phase2-Ensures, dep_finish-SweptBy, dep_chunk-Ensures,
}

module _ (r : Rvv) (law : IsRvv r) (room : dep_total ≤ r.len_1d)
    (planes : 3 * dep_total ≤ area r) where
  dep_fixed-SweptBy :
      (l : Lmul) (mode : DepMode) (offset avl : ℕ) (st : Memory r)
      → avl ≤ r.vlmax l
      → offset + avl ≤ dep_total
      → Ensures (dep_fixed r l mode offset avl st) (SweptBy r (dep_row r mode) offset avl st)
  unfolding dep_fixed
  dep_fixed-SweptBy l mode offset avl st fits inside =
      let load = load_vec-some r l r.len_1d offset avl (omega arith) in
      let phase1 = dep_phase1-Lanes r law mode st room planes l offset avl fits inside in
      rw (load st.a, load st.b, load st.c)
        (Ensures-bind _ _ _ _
          (dep_phase2-Ensures r law mode st room planes l offset avl fits inside _ phase1)
          λ mid q.
            dep_finish-SweptBy r law mode st room planes l offset avl fits inside _ mid phase1 q)

  dep_dynamic-SweptBy :
      IsGreedy r
      → (mode : DepMode) (offset avl : ℕ) (st : Memory r) → avl ≤ r.vlmax m4
      → offset + avl ≤ dep_total
      → Ensures (dep_dynamic r mode offset avl st) (SweptBy r (dep_row r mode) offset avl st)
  unfolding dep_dynamic
  dep_dynamic-SweptBy greedy mode offset avl st fits inside =
      let load = load_vec-some r m4 r.len_1d offset avl (omega arith) in
      let phase1 = dep_phase1-Lanes r law mode st room planes m4 offset avl fits inside in
      rw (load st.a, load st.b, load st.c)
        (Ensures-bind _ _ _ _
          (dep_chunk-Ensures r law mode st room planes greedy offset avl fits inside _ phase1 0 _
            (omega arith) (record { at_lane = λ i lt. absurd (omega arith) }))
          λ half q.
            Ensures-bind _ _ _ _
              (dep_chunk-Ensures r law mode st room planes greedy offset avl fits inside _ phase1 1
                half (omega arith) q)
              λ mid full.
                dep_finish-SweptBy r law mode st room planes m4 offset avl fits inside _ mid phase1
                  (fewer-Lanes r m4 offset mid _ _ _ (omega (arith, law.vlmax-m4)) full))

  dep_sweep-SweptBy :
      (variant : Variant) (mode : DepMode) (st : Memory r)
      → Serves (IsGreedy r) variant
      → Ensures (dep_sweep r variant mode st) (SweptBy r (dep_row r mode) 0 dep_total st)
  unfolding dep_sweep
  dep_sweep-SweptBy (fixed l) mode st served =
      bench_sweep-SweptBy r law (dep_row r mode) l dep_total (dep_fixed r l mode) (omega arith)
        (dep_fixed-SweptBy l mode) st
  dep_sweep-SweptBy dynamic mode st greedy =
      bench_sweep-SweptBy r law (dep_row r mode) m4 dep_total (dep_dynamic r mode) (omega arith)
        (dep_dynamic-SweptBy greedy mode) st

  -- The kernel of dep_matrix.
  pub dep_kernel-SweptBy :
      (variant : Variant) (mode : DepMode) (st : Memory r)
      → Serves (IsGreedy r) variant
      → Ensures
          (dep_kernel r variant mode st)
          (SweptBy r (λ flat j. times dep_iters (dep_row r mode flat j)) 0 dep_total st)
  unfolding dep_kernel
  dep_kernel-SweptBy variant mode st served =
      sweeps-SweptBy r (dep_row r mode) dep_total (λ s. dep_sweep r variant mode s)
        (λ s. dep_sweep-SweptBy variant mode s served) dep_iters st
