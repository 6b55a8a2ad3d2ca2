-- ===== src/Dlmul/Pressure/Rows.antt =====
-- Every variant of db2, db7 and db8 computes the same rows, whatever the length of the vectors.
use vectorizer_experiments.Base.{ℕ, ◌+◌, ◌*◌, ◌≤◌, refl, arith, Ensures, Ensures-bind}
use vectorizer_experiments.Dlmul.Rvv.{Lmul, m4, m8, Rvv, IsRvv, Memory, area}
use vectorizer_experiments.Dlmul.Rvv.Steps.{Runs, add, macc_s}
use vectorizer_experiments.Dlmul.Strip.Sweep.{times}
use vectorizer_experiments.Dlmul.Strip.Indexed.{RowMap, SweptBy, sweeps-SweptBy}
use vectorizer_experiments.Dlmul.Bench.{Variant, fixed, dynamic}
use vectorizer_experiments.Dlmul.Bench.Chunks.{IsGreedy, IsGreedyAt}
use vectorizer_experiments.Dlmul.Bench.Stored.{
  store_abc, store_abd, store_halves, bench_sweep-SweptBy, Serves, Serves-weaken,
}
use vectorizer_experiments.Dlmul.Inputs.Loaded.{inputs_at, load_inputs-Ensures}
use vectorizer_experiments.Dlmul.Pressure.{
  db2_total, db2_iters, db2_fixed, db2_dynamic, db2_sweep, db2_kernel, db7_total, db7_iters,
  db7_fixed, db7_dynamic, db7_sweep, db7_kernel, db8_total, db8_iters, db8_fixed, db8_dynamic,
  db8_sweep, db8_kernel,
}
use vectorizer_experiments.Dlmul.Pressure.Phases.{
  pressure_value, db2_front_value, db7_front_value, db7_value, db2_front-Lanes, db7_front-Lanes,
  pressure_phase-Lanes, db7_phase-Lanes, times-Lanes, db8_next-Lanes, pressure_chunks-Lanes,
  db7_chunks-Lanes,
}

module _ (r : Rvv) where
  abbrev pub db2_row : RowMap r
  db2_row flat j w =
      let i = inputs_at r db2_total flat j w in
      let a_out = db2_front_value r i in
      let b_out = pressure_value r a_out i.vb i in
      record w { a = a_out; b = b_out; c = r.fma a_out (r.lit 1 2) b_out }

  abbrev pub db7_row : RowMap r
  db7_row flat j w =
      let i = inputs_at r db7_total flat j w in
      let a_out = db7_front_value r i in
      let b_out = db7_value r a_out i in
      record w { a = a_out; b = b_out; c = r.fma a_out (r.lit 1 2) b_out }

  abbrev pub db8_row : ℕ → RowMap r
  db8_row repeats flat j w =
      let i = inputs_at r db8_total flat j w in
      let a_out = r.add i.va i.vb in
      let b_out = times repeats (λ v. pressure_value r a_out v i) i.vb in
      record w { a = a_out; b = b_out; d = r.fma a_out (r.lit 3 8) b_out }

module _ (r : Rvv) (law : IsRvv r) (room : 128 ≤ r.len_1d) (planes : 6 * 128 ≤ area r) where
  module _ (l : Lmul) (offset avl : ℕ) (st : Memory r) (fits : avl ≤ r.vlmax l)
      (inside : offset + avl ≤ 128) where
    db2_fixed-SweptBy : Ensures (db2_fixed r l offset avl st) (SweptBy r (db2_row r) offset avl st)
    unfolding db2_fixed
    db2_fixed-SweptBy =
        let run : Runs r l avl = record { law = law; fits = fits } in
        Ensures-bind _ _ _ _
          (load_inputs-Ensures r law l db2_total offset avl fits inside room planes st)
          λ i p.
            let a_out = db2_front-Lanes run p in
            let b_out = pressure_phase-Lanes run p a_out p.vb in
            store_abc r law l (db2_row r) offset avl st fits (omega arith) a_out b_out
              (macc_s run (r.lit 1 2) a_out b_out) λ j. refl

    db7_fixed-SweptBy : Ensures (db7_fixed r l offset avl st) (SweptBy r (db7_row r) offset avl st)
    unfolding db7_fixed
    db7_fixed-SweptBy =
        let run : Runs r l avl = record { law = law; fits = fits } in
        Ensures-bind _ _ _ _
          (load_inputs-Ensures r law l db7_total offset avl fits inside room planes st)
          λ i p.
            let a_out = db7_front-Lanes run p in
            let b_out = db7_phase-Lanes run p a_out in
            store_abc r law l (db7_row r) offset avl st fits (omega arith) a_out b_out
              (macc_s run (r.lit 1 2) a_out b_out) λ j. refl

    db8_fixed-SweptBy :
        (repeats : ℕ)
        → Ensures
            (db8_fixed r l repeats offset avl st)
            (SweptBy r (db8_row r repeats) offset avl st)
    unfolding db8_fixed
    db8_fixed-SweptBy repeats =
        let run : Runs r l avl = record { law = law; fits = fits } in
        Ensures-bind _ _ _ _
          (load_inputs-Ensures r law l db8_total offset avl fits inside room planes st)
          λ i p.
            let a_out = add run p.va p.vb in
            let b_out =
              times-Lanes r l offset avl _ _ (λ v g pv. pressure_phase-Lanes run p a_out pv) repeats
                _ _ p.vb in
            store_abd r law l (db8_row r repeats) offset avl st fits (omega arith) a_out b_out
              (macc_s run (r.lit 3 8) a_out b_out) λ j. refl

  module _ (greedy : IsGreedy r) (offset avl : ℕ) (st : Memory r) (fits : avl ≤ r.vlmax m8)
      (inside : offset + avl ≤ 128) where
    db2_dynamic-SweptBy :
        Ensures (db2_dynamic r offset avl st) (SweptBy r (db2_row r) offset avl st)
    unfolding db2_dynamic
    db2_dynamic-SweptBy =
        let run : Runs r m8 avl = record { law = law; fits = fits } in
        Ensures-bind _ _ _ _
          (load_inputs-Ensures r law m8 db2_total offset avl fits inside room planes st)
          λ i p.
            let a_out = db2_front-Lanes run p in
            let b_out = pressure_chunks-Lanes r law greedy offset avl fits p a_out in
            store_abc r law m8 (db2_row r) offset avl st fits (omega arith) a_out b_out
              (macc_s run (r.lit 1 2) a_out b_out) λ j. refl

    db8_dynamic-SweptBy :
        (repeats : ℕ)
        → Ensures
            (db8_dynamic r repeats offset avl st)
            (SweptBy r (db8_row r repeats) offset avl st)
    unfolding db8_dynamic
    db8_dynamic-SweptBy repeats =
        let run : Runs r m8 avl = record { law = law; fits = fits } in
        Ensures-bind _ _ _ _
          (load_inputs-Ensures r law m8 db8_total offset avl fits inside room planes st)
          λ i p.
            let a_out = add run p.va p.vb in
            let b_out =
              times-Lanes r m8 offset avl _ _
                (λ v g pv. db8_next-Lanes r law greedy offset avl fits p a_out pv) repeats _ _
                p.vb in
            store_abd r law m8 (db8_row r repeats) offset avl st fits (omega arith) a_out b_out
              (macc_s run (r.lit 3 8) a_out b_out) λ j. refl

    db7_dynamic-SweptBy :
        IsGreedyAt r m4
        → Ensures (db7_dynamic r offset avl st) (SweptBy r (db7_row r) offset avl st)
    unfolding db7_dynamic
    db7_dynamic-SweptBy greedy_4 =
        let run : Runs r m8 avl = record { law = law; fits = fits } in
        Ensures-bind _ _ _ _
          (load_inputs-Ensures r law m8 db7_total offset avl fits inside room planes st)
          λ i p.
            let a_out = db7_front-Lanes run p in
            let b_out = db7_chunks-Lanes r law greedy offset avl fits p a_out in
            store_halves r law greedy_4 (db7_row r) offset avl st fits (omega arith) a_out b_out
              (macc_s run (r.lit 1 2) a_out b_out) λ j. refl

  db2_sweep-SweptBy :
      (variant : Variant) (st : Memory r)
      → Serves (IsGreedy r) variant
      → Ensures (db2_sweep r variant st) (SweptBy r (db2_row r) 0 db2_total st)
  unfolding db2_sweep
  db2_sweep-SweptBy (fixed l) st served =
      bench_sweep-SweptBy r law (db2_row r) l db2_total (db2_fixed r l) (omega arith)
        (db2_fixed-SweptBy l) st
  db2_sweep-SweptBy dynamic st greedy =
      bench_sweep-SweptBy r law (db2_row r) m8 db2_total (db2_dynamic r) (omega arith)
        (db2_dynamic-SweptBy greedy) st

  db7_sweep-SweptBy :
      (variant : Variant) (st : Memory r)
      → Serves (IsGreedy r × IsGreedyAt r m4) variant
      → Ensures (db7_sweep r variant st) (SweptBy r (db7_row r) 0 db7_total st)
  unfolding db7_sweep
  db7_sweep-SweptBy (fixed l) st served =
      bench_sweep-SweptBy r law (db7_row r) l db7_total (db7_fixed r l) (omega arith)
        (db7_fixed-SweptBy l) st
  db7_sweep-SweptBy dynamic st greedy =
      bench_sweep-SweptBy r law (db7_row r) m8 db7_total (db7_dynamic r) (omega arith)
        (λ offset avl s fits inside. db7_dynamic-SweptBy greedy.0 offset avl s fits inside greedy.1)
        st

  db8_sweep-SweptBy :
      (variant : Variant) (repeats : ℕ) (st : Memory r)
      → Serves (IsGreedy r) variant
      → Ensures (db8_sweep r variant repeats st) (SweptBy r (db8_row r repeats) 0 db8_total st)
  unfolding db8_sweep
  db8_sweep-SweptBy (fixed l) repeats st served =
      bench_sweep-SweptBy r law (db8_row r repeats) l db8_total (db8_fixed r l repeats)
        (omega arith)
        (λ offset avl s fits inside. db8_fixed-SweptBy l offset avl s fits inside repeats) st
  db8_sweep-SweptBy dynamic repeats st greedy =
      bench_sweep-SweptBy r law (db8_row r repeats) m8 db8_total (db8_dynamic r repeats)
        (omega arith)
        (λ offset avl s fits inside. db8_dynamic-SweptBy greedy offset avl s fits inside repeats) st

  pub db2_kernel-SweptBy :
      (variant : Variant) (st : Memory r)
      → Serves (IsGreedy r) variant
      → Ensures
          (db2_kernel r variant st)
          (SweptBy r (λ flat j. times db2_iters (db2_row r flat j)) 0 db2_total st)
  unfolding db2_kernel
  db2_kernel-SweptBy variant st served =
      sweeps-SweptBy r (db2_row r) db2_total (λ s. db2_sweep r variant s)
        (λ s. db2_sweep-SweptBy variant s served) db2_iters st

  pub db7_kernel-SweptBy :
      (variant : Variant) (st : Memory r)
      → Serves (IsGreedy r × IsGreedyAt r m4) variant
      → Ensures
          (db7_kernel r variant st)
          (SweptBy r (λ flat j. times db7_iters (db7_row r flat j)) 0 db7_total st)
  unfolding db7_kernel
  db7_kernel-SweptBy variant st served =
      sweeps-SweptBy r (db7_row r) db7_total (λ s. db7_sweep r variant s)
        (λ s. db7_sweep-SweptBy variant s served) db7_iters st

  pub db8_kernel-SweptBy :
      (variant : Variant) (repeats : ℕ) (st : Memory r)
      → Serves (IsGreedy r) variant
      → Ensures
          (db8_kernel r variant repeats st)
          (SweptBy r (λ flat j. times db8_iters (db8_row r repeats flat j)) 0 db8_total st)
  unfolding db8_kernel
  db8_kernel-SweptBy variant repeats st served =
      sweeps-SweptBy r (db8_row r repeats) db8_total (λ s. db8_sweep r variant repeats s)
        (λ s. db8_sweep-SweptBy variant repeats s served) db8_iters st

  -- For every variant of db2, db7 and db8, and any number of repetitions of the phase of db8, on
  -- any machine with the documented laws of the vector intrinsics (and, for the dynamic variant,
  -- with a `vsetvl` that gives full groups of two and of four registers whenever it can), with
  -- LEN_1D at least 128 and LEN_2D * LEN_2D at least 768, the sweeps return with no access out of
  -- bounds; each of the rows below the number of elements is the result of the row function of the
  -- bench, applied once for each outer iteration, and all others, and `flat_2d_array`, are as
  -- before. The row function reads six planes of `flat_2d_array`.
  pub pressure_kernels-SweptBy :
      (variant : Variant) (repeats : ℕ) (st : Memory r)
      → Serves (IsGreedy r × IsGreedyAt r m4) variant
      → Ensures
          (db2_kernel r variant st)
          (SweptBy r (λ flat j. times db2_iters (db2_row r flat j)) 0 db2_total st)
        × Ensures
            (db7_kernel r variant st)
            (SweptBy r (λ flat j. times db7_iters (db7_row r flat j)) 0 db7_total st)
        × Ensures
            (db8_kernel r variant repeats st)
            (SweptBy r (λ flat j. times db8_iters (db8_row r repeats flat j)) 0 db8_total st)
  pressure_kernels-SweptBy variant repeats st served =
      let greedy = Serves-weaken variant (λ (both : IsGreedy r × IsGreedyAt r m4). both.0) served in
      (
        db2_kernel-SweptBy variant st greedy,
        db7_kernel-SweptBy variant st served,
        db8_kernel-SweptBy variant repeats st greedy,
      )
