-- ===== src/Dlmul/Widen/Clipped.antt =====
-- Every variant of db3, whose two phases end at different indices, computes the same rows and integers.
use vectorizer_experiments.Base.{
  ℕ, ◌+◌, ◌≤◌, ◌<◌, ◌≡◌, ◌∙◌, refl, inl, inr, arith, some, ltb, Bool-cases, if◌then◌else◌, Ensures,
  Ensures-some, Ensures-bind, Ensures-weaken,
}
use vectorizer_experiments.Dlmul.Rvv.{Lmul, m2, m4, Rvv, IsRvv, Memory, Row, row, touched}
use vectorizer_experiments.Dlmul.Rvv.Lanes.{vle-Lanes, load_vec-some, store_vec-some}
use vectorizer_experiments.Dlmul.Rvv.Steps.{Runs, add, macc_s}
use vectorizer_experiments.Dlmul.Strip.Sweep.{times}
use vectorizer_experiments.Dlmul.Strip.Indexed.{SweptBy, sweeps-Changed}
use vectorizer_experiments.Dlmul.Bench.{Variant, fixed, dynamic}
use vectorizer_experiments.Dlmul.Bench.Stored.{Holds-same, vse-Holds, stored, bench_sweep-Ensures}
use vectorizer_experiments.Dlmul.Ints.{IntRvv, IsIntRvv, wide, IntMemory, cell}
use vectorizer_experiments.Dlmul.Ints.Lanes.{RunsShort, vse32-Words, store_word-some}
use vectorizer_experiments.Dlmul.Widen.{
  db3_wide, db3_iters, db3_total, clipped, db3_reals, db3_ints, db3_body, db3_sweep, db3_kernel,
}
use vectorizer_experiments.Dlmul.Widen.Phases.{
  triplet_value, CellMap, SweptInts, SweptInts-Composes, run_wide, triplet-Ensures,
}
use vectorizer_experiments.Dlmul.Widen.Rounds.{Widens, same_lmul, half_lmul}

module _ (r : Rvv) where
  abbrev pub db3_row : Row r → Row r
  db3_row w =
      let a_out = r.fma (r.add w.a w.b) (r.lit 1 4) w.c in
      record w { a = a_out; d = r.fma a_out (r.lit 1 8) w.x }

  -- The floats change below 128, the integers below the bound of their phase.
  abbrev pub db3_cell : ℕ → CellMap r
  db3_cell phase_b s j w = record {
    reals = if ltb j db3_wide then db3_row w.reals else w.reals;
    indx = if ltb j phase_b then triplet_value (s.lhs j) (s.rhs j) (s.zp j) else w.indx;
  }

-- A range clipped at a bound, as a test on the index.
clip_lem {ℓ} :
    {A : Type ℓ} (bound offset avl j : ℕ) (x y : A)
    → offset < bound
    → (if touched offset (clipped bound offset avl) j then x else y)
      ≡ (if touched offset avl j then (if ltb j bound then x else y) else y)
clip_lem bound offset avl j x y before = ground arith

behind_bound {ℓ} :
    {A : Type ℓ} (bound offset avl j : ℕ) (x y : A)
    → bound ≤ offset
    → y ≡ (if touched offset avl j then (if ltb j bound then x else y) else y)
behind_bound bound offset avl j x y behind = ground arith

module _ (r : Rvv) (law : IsRvv r) (n : IntRvv) (int_law : IsIntRvv r n) where
  module _ (l : Lmul) (offset avl : ℕ) (st : Memory r) (fits : avl ≤ r.vlmax l)
      (inside : offset + avl ≤ r.len_1d) where
    db3_reals-SweptBy :
        Ensures (db3_reals r l offset avl st) (SweptBy r (λ flat j w. db3_row r w) offset avl st)
    unfolding db3_reals
    db3_reals-SweptBy =
        let run : Runs r l avl = record { law = law; fits = fits } in
        let ld = λ (arr : ℕ → r.Real). vle-Lanes r law l offset avl fits arr in
        let load = load_vec-some r l r.len_1d offset avl inside in
        let into =
          λ (arr : ℕ → r.Real) (v : r.Vec l). store_vec-some r l r.len_1d offset avl inside arr v in
        let a_out = macc_s run (r.lit 1 4) (add run (ld st.a) (ld st.b)) (ld st.c) in
        let d_out = macc_s run (r.lit 1 8) a_out (ld st.x) in
        rw (load st.a, load st.b, load st.c, load st.x, into st.a _, into st.d _)
          (Ensures-some _ _ (
            stored r (λ flat j w. db3_row r w) offset avl st
              (vse-Holds r law l offset avl st.a fits a_out) (Holds-same offset avl st.b)
              (Holds-same offset avl st.c) (vse-Holds r law l offset avl st.d fits d_out)
              λ j. refl))

  module _ (phase_b : ℕ) (l li : Lmul) (offset avl : ℕ) (st : IntMemory r) (fits : avl ≤ r.vlmax l)
      (run_li : RunsShort r n li avl) (room : db3_wide ≤ r.len_1d)
      (room_b : phase_b ≤ r.len_1d) where
    reals_phase :
        Ensures
          (if ltb offset db3_wide
            then db3_reals r l offset (clipped db3_wide offset avl) st.reals
            else some st.reals)
          (λ out.
            (j : ℕ)
            → row r out j ≡ (
                if touched offset avl j
                then (if ltb j db3_wide then db3_row r (row r st.reals j) else row r st.reals j)
                else row r st.reals j))
    reals_phase = elim (Bool-cases (ltb offset db3_wide)) [
      | inl before ↦ rw before (
          Ensures-weaken _ _ _
            (db3_reals-SweptBy l offset (clipped db3_wide offset avl) st.reals (ground arith)
              (ground arith))
            λ out p j. p.cells j ∙ clip_lem db3_wide offset avl j _ _ (ground arith))
      | inr behind ↦ rw behind (
          Ensures-some _ _ λ j.
            behind_bound db3_wide offset avl j (db3_row r (row r st.reals j)) (row r st.reals j)
              (ground arith))
    ]

    ints_phase :
        Ensures
          (if ltb offset phase_b
            then db3_ints r n li offset (clipped phase_b offset avl) st
            else some st.indx)
          (λ out.
            (j : ℕ)
            → out j ≡ (
                if touched offset avl j
                then (if ltb j phase_b
                    then triplet_value (st.statics.lhs j) (st.statics.rhs j) (st.statics.zp j)
                    else st.indx j)
                else st.indx j))
    unfolding db3_ints
    ints_phase = elim (Bool-cases (ltb offset phase_b)) [
      | inl before ↦
          let iavl = clipped phase_b offset avl in
          let fewer : iavl ≤ avl = ground arith in
          let run : RunsShort r n li iavl = record {
            law = int_law;
            narrow = run_li.narrow;
            fits = omega (arith, fewer, run_li.fits);
          } in
          let inside : offset + iavl ≤ r.len_1d = ground arith in
          rw before (
            Ensures-bind _ _ _ _ (triplet-Ensures r n li offset iavl run st inside) λ out p.
              rw (store_word-some n (wide li) r.len_1d offset iavl inside st.indx out) (
                Ensures-some _ _ λ j.
                  vse32-Words (run_wide r n li offset iavl run) st.indx p j
                  ∙ clip_lem phase_b offset avl j _ _ (ground arith)))
      | inr behind ↦
          rw behind
            (Ensures-some _ _ λ j. behind_bound phase_b offset avl j _ (st.indx j) (ground arith))
    ]

    db3_body-SweptInts :
        Ensures
          (db3_body r n l li phase_b offset avl st)
          (SweptInts r (db3_cell r phase_b) offset avl st)
    unfolding db3_body
    db3_body-SweptInts = Ensures-bind _ _ _ _ reals_phase λ reals p.
        Ensures-bind _ _ _ _ ints_phase λ indx q. Ensures-some _ _ (record {
          same_env = refl;
          cells = λ j.
              rw (p j, q j)
                (elim (Bool-cases (touched offset avl j)) [ inl e ↦ rw e | inr e ↦ rw e ]);
        })

  module _ (phase_b : ℕ) (room : db3_wide ≤ r.len_1d) (room_b : phase_b ≤ r.len_1d) where
    db3_sweep-SweptInts :
        (variant : Variant) (st : IntMemory r)
        → Widens variant
        → Ensures
            (db3_sweep r n variant phase_b st)
            (SweptInts r (db3_cell r phase_b) 0 (db3_total phase_b) st)
    unfolding db3_sweep
    db3_sweep-SweptInts (fixed l) st narrow =
        bench_sweep-Ensures r law (SweptInts r (db3_cell r phase_b))
          (SweptInts-Composes r (db3_cell r phase_b)) l (db3_total phase_b)
          (db3_body r n l l phase_b) (ground arith)
          (λ offset avl s fits inside.
            db3_body-SweptInts phase_b l l offset avl s fits
              (same_lmul r law n int_law l avl narrow fits) room room_b)
          st
    db3_sweep-SweptInts dynamic st narrow =
        bench_sweep-Ensures r law (SweptInts r (db3_cell r phase_b))
          (SweptInts-Composes r (db3_cell r phase_b)) m4 (db3_total phase_b)
          (db3_body r n m4 m2 phase_b) (ground arith)
          (λ offset avl s fits inside.
            db3_body-SweptInts phase_b m4 m2 offset avl s fits (half_lmul r law n int_law avl fits)
              room room_b)
          st

    -- The kernel of db3.
    pub db3_kernel-SweptInts :
        (variant : Variant) (st : IntMemory r)
        → Widens variant
        → Ensures
            (db3_kernel r n variant phase_b st)
            (SweptInts r (λ s j. times db3_iters (db3_cell r phase_b s j)) 0 (db3_total phase_b) st)
    unfolding db3_kernel
    db3_kernel-SweptInts variant st narrow =
        sweeps-Changed (λ (s : IntMemory r). s.statics) (cell r) (db3_cell r phase_b)
          (db3_total phase_b) (λ s. db3_sweep r n variant phase_b s)
          (λ s. db3_sweep-SweptInts variant s narrow) db3_iters st
