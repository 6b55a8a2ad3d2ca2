-- ===== src/Dlmul/Gamma/Rows.antt =====
-- Every variant of db9 and db11 computes the same rows, whatever the length of the vectors.
use vectorizer_experiments.Base.{ℕ, ◌+◌, ◌*◌, ◌≤◌, ◌≡◌, refl, arith, some, Ensures}
use vectorizer_experiments.Dlmul.Rvv.{Lmul, m2, m4, m8, Rvv, IsRvv, Memory, area, load_vec}
use vectorizer_experiments.Dlmul.Rvv.Lanes.{Lanes, vle-Lanes, plane-Lanes, load_vec-some}
use vectorizer_experiments.Dlmul.Rvv.Steps.{Runs, macc_s}
use vectorizer_experiments.Dlmul.Strip.Sweep.{times}
use vectorizer_experiments.Dlmul.Strip.Indexed.{SweptBy, sweeps-SweptBy}
use vectorizer_experiments.Dlmul.Bench.{Variant, fixed, dynamic}
use vectorizer_experiments.Dlmul.Bench.Chunks.{IsGreedy, IsGreedyAt, vget-Lanes, chunks-Lanes}
use vectorizer_experiments.Dlmul.Bench.Stored.{
  store_abc, store_halves, bench_sweep-SweptBy, Serves, Serves-weaken,
}
use vectorizer_experiments.Dlmul.Gamma.{
  db11_total, db11_iters, db11_fixed, db11_dynamic, db11_sweep, db11_kernel, db9_total, db9_iters,
  db9_fixed, db9_dynamic, db9_sweep, db9_kernel,
}
use vectorizer_experiments.Dlmul.Gamma.Phases.{
  db11_row, db11_luma-Lanes, db11_gamma-Lanes, db9_row, db9_luma-Lanes, db9_gamma-Lanes,
}

module _ (r : Rvv) (law : IsRvv r) where
  module _ (l : Lmul) (offset avl : ℕ) (st : Memory r) (fits : avl ≤ r.vlmax l) where
    -- The loads of both benches.
    module _ (inside : offset + avl ≤ r.len_1d) where
      from :
          (arr : ℕ → r.Real) → load_vec r l r.len_1d arr offset avl ≡ some (r.vle l arr offset avl)
      from arr = load_vec-some r l r.len_1d offset avl inside arr

    plane :
        (base total : ℕ)
        → offset + avl ≤ total
        → base + total ≤ area r
        → load_vec r l (area r) st.flat_2d_array (base + offset) avl
          ≡ some (r.vle l st.flat_2d_array (base + offset) avl)
    plane base total inside le =
        load_vec-some r l (area r) (base + offset) avl (omega arith) st.flat_2d_array

  module _ (room : db11_total ≤ r.len_1d) (flat_room : db11_total ≤ area r) where
    db11_fixed-SweptBy :
        (l : Lmul) (offset avl : ℕ) (st : Memory r)
        → avl ≤ r.vlmax l
        → offset + avl ≤ db11_total
        → Ensures (db11_fixed r l offset avl st) (SweptBy r (db11_row r) offset avl st)
    unfolding db11_fixed
    db11_fixed-SweptBy l offset avl st fits inside =
        let run : Runs r l avl = record { law = law; fits = fits } in
        let ld = λ (arr : ℕ → r.Real). vle-Lanes r law l offset avl fits arr in
        let load = from l offset avl st fits (omega arith) in
        let y = db11_luma-Lanes run (ld st.a) (ld st.b) (ld st.c) in
        let gamma = db11_gamma-Lanes run y (ld st.d) (ld st.e) (ld st.x) (ld st.flat_2d_array) in
        rw
          (
            load st.a,
            load st.b,
            load st.c,
            load st.d,
            load st.e,
            load st.x,
            load_vec-some r l (area r) offset avl (omega arith) st.flat_2d_array,
          )
          (store_abc r law l (db11_row r) offset avl st fits (omega arith) y gamma
            (macc_s run (r.lit 1 4) y gamma) λ j. refl)

    db11_dynamic-SweptBy :
        IsGreedy r
        → (offset avl : ℕ) (st : Memory r) → avl ≤ r.vlmax m4
        → offset + avl ≤ db11_total
        → Ensures (db11_dynamic r offset avl st) (SweptBy r (db11_row r) offset avl st)
    unfolding db11_dynamic
    db11_dynamic-SweptBy greedy offset avl st fits inside =
        let run : Runs r m4 avl = record { law = law; fits = fits } in
        let ld = λ (arr : ℕ → r.Real). vle-Lanes r law m4 offset avl fits arr in
        let load = from m4 offset avl st fits (omega arith) in
        let y = db11_luma-Lanes run (ld st.a) (ld st.b) (ld st.c) in
        let gamma =
          chunks-Lanes r law m4 2 law.vlmax-m4 offset avl greedy fits _ _ λ k vlc lt start few le.
            let part = λ (v : r.Vec m4) (g : ℕ → r.Real) (q : Lanes r m4 offset avl v g).
              vget-Lanes r law m4 m2 2 law.vlmax-m4 offset avl v g k vlc q lt few le in
            db11_gamma-Lanes (record { law = law; fits = few }) (part _ _ y) (part _ _ (ld st.d))
              (part _ _ (ld st.e)) (part _ _ (ld st.x)) (part _ _ (ld st.flat_2d_array)) in
        rw
          (
            load st.a,
            load st.b,
            load st.c,
            load st.d,
            load st.e,
            load st.x,
            load_vec-some r m4 (area r) offset avl (omega arith) st.flat_2d_array,
          )
          (store_abc r law m4 (db11_row r) offset avl st fits (omega arith) y gamma
            (macc_s run (r.lit 1 4) y gamma) λ j. refl)

    db11_sweep-SweptBy :
        (variant : Variant) (st : Memory r)
        → Serves (IsGreedy r) variant
        → Ensures (db11_sweep r variant st) (SweptBy r (db11_row r) 0 db11_total st)
    unfolding db11_sweep
    db11_sweep-SweptBy (fixed l) st served =
        bench_sweep-SweptBy r law (db11_row r) l db11_total (db11_fixed r l) (omega arith)
          (db11_fixed-SweptBy l) st
    db11_sweep-SweptBy dynamic st greedy =
        bench_sweep-SweptBy r law (db11_row r) m4 db11_total (db11_dynamic r) (omega arith)
          (db11_dynamic-SweptBy greedy) st

    pub db11_kernel-SweptBy :
        (variant : Variant) (st : Memory r)
        → Serves (IsGreedy r) variant
        → Ensures
            (db11_kernel r variant st)
            (SweptBy r (λ flat j. times db11_iters (db11_row r flat j)) 0 db11_total st)
    unfolding db11_kernel
    db11_kernel-SweptBy variant st served =
        sweeps-SweptBy r (db11_row r) db11_total (λ s. db11_sweep r variant s)
          (λ s. db11_sweep-SweptBy variant s served) db11_iters st

  module _ (room : db9_total ≤ r.len_1d) (planes : 2 * db9_total ≤ area r) where
    db9_fixed-SweptBy :
        (l : Lmul) (offset avl : ℕ) (st : Memory r)
        → avl ≤ r.vlmax l
        → offset + avl ≤ db9_total
        → Ensures (db9_fixed r l offset avl st) (SweptBy r (db9_row r) offset avl st)
    unfolding db9_fixed
    db9_fixed-SweptBy l offset avl st fits inside =
        let run : Runs r l avl = record { law = law; fits = fits } in
        let ld = λ (arr : ℕ → r.Real). vle-Lanes r law l offset avl fits arr in
        let load = from l offset avl st fits (omega arith) in
        let y = db9_luma-Lanes run (ld st.a) (ld st.b) (ld st.c) in
        let gamma =
          db9_gamma-Lanes run y (ld st.d) (ld st.e) (ld st.x) (ld st.flat_2d_array)
            (plane-Lanes r law l offset avl fits st.flat_2d_array db9_total) in
        rw
          (
            load st.a,
            load st.b,
            load st.c,
            load st.d,
            load st.e,
            load st.x,
            load_vec-some r l (area r) offset avl (omega arith) st.flat_2d_array,
            plane l offset avl st fits db9_total db9_total inside (omega arith),
          )
          (store_abc r law l (db9_row r) offset avl st fits (omega arith) y gamma
            (macc_s run (r.lit 1 4) y gamma) λ j. refl)

    db9_dynamic-SweptBy :
        IsGreedy r
        → IsGreedyAt r m4
        → (offset avl : ℕ) (st : Memory r) → avl ≤ r.vlmax m8
        → offset + avl ≤ db9_total
        → Ensures (db9_dynamic r offset avl st) (SweptBy r (db9_row r) offset avl st)
    unfolding db9_dynamic
    db9_dynamic-SweptBy greedy greedy_4 offset avl st fits inside =
        let run : Runs r m8 avl = record { law = law; fits = fits } in
        let ld = λ (arr : ℕ → r.Real). vle-Lanes r law m8 offset avl fits arr in
        let load = from m8 offset avl st fits (omega arith) in
        let y = db9_luma-Lanes run (ld st.a) (ld st.b) (ld st.c) in
        let gamma =
          chunks-Lanes r law m8 4 law.vlmax-m8 offset avl greedy fits _ _ λ k vlc lt start few le.
            let part = λ (v : r.Vec m8) (g : ℕ → r.Real) (q : Lanes r m8 offset avl v g).
              vget-Lanes r law m8 m2 4 law.vlmax-m8 offset avl v g k vlc q lt few le in
            db9_gamma-Lanes (record { law = law; fits = few }) (part _ _ y) (part _ _ (ld st.d))
              (part _ _ (ld st.e)) (part _ _ (ld st.x)) (part _ _ (ld st.flat_2d_array))
              (part _ _ (plane-Lanes r law m8 offset avl fits st.flat_2d_array db9_total)) in
        rw
          (
            load st.a,
            load st.b,
            load st.c,
            load st.d,
            load st.e,
            load st.x,
            load_vec-some r m8 (area r) offset avl (omega arith) st.flat_2d_array,
            plane m8 offset avl st fits db9_total db9_total inside (omega arith),
          )
          (store_halves r law greedy_4 (db9_row r) offset avl st fits (omega arith) y gamma
            (macc_s run (r.lit 1 4) y gamma) λ j. refl)

    db9_sweep-SweptBy :
        (variant : Variant) (st : Memory r)
        → Serves (IsGreedy r × IsGreedyAt r m4) variant
        → Ensures (db9_sweep r variant st) (SweptBy r (db9_row r) 0 db9_total st)
    unfolding db9_sweep
    db9_sweep-SweptBy (fixed l) st served =
        bench_sweep-SweptBy r law (db9_row r) l db9_total (db9_fixed r l) (omega arith)
          (db9_fixed-SweptBy l) st
    db9_sweep-SweptBy dynamic st greedy =
        bench_sweep-SweptBy r law (db9_row r) m8 db9_total (db9_dynamic r) (omega arith)
          (db9_dynamic-SweptBy greedy.0 greedy.1) st

    pub db9_kernel-SweptBy :
        (variant : Variant) (st : Memory r)
        → Serves (IsGreedy r × IsGreedyAt r m4) variant
        → Ensures
            (db9_kernel r variant st)
            (SweptBy r (λ flat j. times db9_iters (db9_row r flat j)) 0 db9_total st)
    unfolding db9_kernel
    db9_kernel-SweptBy variant st served =
        sweeps-SweptBy r (db9_row r) db9_total (λ s. db9_sweep r variant s)
          (λ s. db9_sweep-SweptBy variant s served) db9_iters st

  -- For every variant of db9 and db11, on any machine with the documented laws of the vector
  -- intrinsics (and, for the dynamic variant, with a `vsetvl` that gives full groups of two and of
  -- four registers whenever it can), with LEN_1D at least 192 and LEN_2D * LEN_2D at least 256, the
  -- sweeps return with no access out of bounds; each of the rows below the number of elements is
  -- the result of the row function of the bench, applied once for each outer iteration, and all
  -- others, and `flat_2d_array`, are as before.
  pub gamma_kernels-SweptBy :
      (room : db11_total ≤ r.len_1d) (planes : 2 * db9_total ≤ area r) (variant : Variant)
      (st : Memory r)
      → Serves (IsGreedy r × IsGreedyAt r m4) variant
      → Ensures
          (db9_kernel r variant st)
          (SweptBy r (λ flat j. times db9_iters (db9_row r flat j)) 0 db9_total st)
        × Ensures
            (db11_kernel r variant st)
            (SweptBy r (λ flat j. times db11_iters (db11_row r flat j)) 0 db11_total st)
  gamma_kernels-SweptBy room planes variant st served = (
    db9_kernel-SweptBy (omega arith) planes variant st served,
    db11_kernel-SweptBy room (omega arith) variant st
        (Serves-weaken variant (λ (both : IsGreedy r × IsGreedyAt r m4). both.0) served),
  )
