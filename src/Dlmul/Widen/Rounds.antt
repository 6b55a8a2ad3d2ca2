-- ===== src/Dlmul/Widen/Rounds.antt =====
-- One round of db1, db4 and db6 changes the rows and the integers of its range.
use vectorizer_experiments.Base.{
  ℕ, ◌+◌, ◌≤◌, refl, arith, Option, Ensures, Ensures-some, Ensures-bind,
}
use vectorizer_experiments.Dlmul.Rvv.{Lmul, m2, m4, Rvv, IsRvv}
use vectorizer_experiments.Dlmul.Rvv.Lanes.{vle-Lanes, load_vec-some, store_vec-some}
use vectorizer_experiments.Dlmul.Rvv.Steps.{Runs, add, mul, macc_s}
use vectorizer_experiments.Dlmul.Bench.{Variant, fixed, dynamic}
use vectorizer_experiments.Dlmul.Bench.Chunks.{IsGreedy}
use vectorizer_experiments.Dlmul.Bench.Stored.{Holds, Holds-same, vse-Holds}
use vectorizer_experiments.Dlmul.Ints.{IntRvv, IsIntRvv, IsNarrow, wide, IntMemory}
use vectorizer_experiments.Dlmul.Ints.Lanes.{Words, RunsShort, vse32-Words, store_word-some}
use vectorizer_experiments.Dlmul.Widen.{
  db1_body, db4_body, Db6Variant, db6_fixed, m8_m2_m4, m8_m2_m2, db6_body, store_whole,
}
use vectorizer_experiments.Dlmul.Widen.Phases.{
  triplet_value, affine_value, CellMap, SweptInts, stored_ints, run_wide, triplet-Ensures,
  affine-Ensures,
}

module _ (r : Rvv) where
  abbrev pub db1_cell : CellMap r
  db1_cell s j w =
      let u = w.reals in
      let a_out = r.fma (r.add u.a u.b) (r.lit 1 4) (r.mul u.c u.d) in
      record {
        reals = record u { a = a_out; d = r.fma (r.add a_out u.e) (r.lit 1 8) u.x };
        indx = triplet_value (s.lhs j) (s.rhs j) (s.zp j);
      }

  abbrev pub db4_cell : CellMap r
  db4_cell s j w = record {
    reals = record w.reals { a = r.fma w.reals.a (r.lit 1 2) w.reals.b };
    indx = affine_value (s.lhs j) (s.rhs j) (s.zp j) (s.bias j);
  }

  abbrev pub db6_cell : CellMap r
  db6_cell s j w =
      let u = w.reals in
      let with_c = r.fma (r.add u.a u.b) (r.lit 1 4) u.c in
      record {
        reals = record u { a = r.fma with_c (r.lit 1 8) u.d };
        indx = affine_value (s.lhs j) (s.rhs j) (s.zp j) (s.bias j);
      }

-- A widening operation needs a group of twice as many registers.
abbrev pub Widens : Variant → Type 0
Widens (fixed l) = IsNarrow l
Widens dynamic = Unit

-- So do the fixed variants of db6; the one that stores by halves also needs full groups.
abbrev pub Db6Serves : Rvv → Db6Variant → Type 0
Db6Serves r (db6_fixed l) = IsNarrow l
Db6Serves r m8_m2_m4 = Unit
Db6Serves r m8_m2_m2 = IsGreedy r

module _ (r : Rvv) (law : IsRvv r) (n : IntRvv) (int_law : IsIntRvv r n) where
  -- The lanes of the integers, in the variants.
  pub same_lmul : (l : Lmul) (avl : ℕ) → IsNarrow l → avl ≤ r.vlmax l → RunsShort r n l avl
  same_lmul l avl narrow fits = record {
    law = int_law;
    narrow = narrow;
    fits = omega (arith, int_law.vlmax16-enough l narrow);
  }

  pub half_lmul : (avl : ℕ) → avl ≤ r.vlmax m4 → RunsShort r n m2 avl
  half_lmul avl fits = record {
    law = int_law;
    narrow = tt;
    fits = omega (arith, int_law.vlmax16-wide m2 tt);
  }

  module _ (l li : Lmul) (offset avl : ℕ) (st : IntMemory r) (fits : avl ≤ r.vlmax l)
      (run_li : RunsShort r n li avl) (inside : offset + avl ≤ r.len_1d) where
    pub db1_body-SweptInts :
        Ensures (db1_body r n l li offset avl st) (SweptInts r (db1_cell r) offset avl st)
    unfolding db1_body
    db1_body-SweptInts =
        let run : Runs r l avl = record { law = law; fits = fits } in
        let ld = λ (arr : ℕ → r.Real). vle-Lanes r law l offset avl fits arr in
        let load = load_vec-some r l r.len_1d offset avl inside in
        let into =
          λ (arr : ℕ → r.Real) (v : r.Vec l). store_vec-some r l r.len_1d offset avl inside arr v in
        let s = st.reals in
        let a_out =
          macc_s run (r.lit 1 4) (add run (ld s.a) (ld s.b)) (mul run (ld s.c) (ld s.d)) in
        let d_out = macc_s run (r.lit 1 8) (add run a_out (ld s.e)) (ld s.x) in
        let wide_run = run_wide r n li offset avl run_li in
        rw (load s.a, load s.b, load s.c, load s.d, load s.e, load s.x)
          (Ensures-bind _ _ _ _ (triplet-Ensures r n li offset avl run_li st inside) λ out p.
            rw
              (
                into s.a _,
                into s.d _,
                store_word-some n (wide li) r.len_1d offset avl inside st.indx out,
              )
              (Ensures-some _ _ (
                stored_ints r (db1_cell r) offset avl st
                  (vse-Holds r law l offset avl s.a fits a_out)
                  (vse-Holds r law l offset avl s.d fits d_out) (vse32-Words wide_run st.indx p)
                  λ j. refl)))

    pub db4_body-SweptInts :
        Ensures (db4_body r n l li offset avl st) (SweptInts r (db4_cell r) offset avl st)
    unfolding db4_body
    db4_body-SweptInts =
        let run : Runs r l avl = record { law = law; fits = fits } in
        let ld = λ (arr : ℕ → r.Real). vle-Lanes r law l offset avl fits arr in
        let load = load_vec-some r l r.len_1d offset avl inside in
        let s = st.reals in
        let a_out = macc_s run (r.lit 1 2) (ld s.a) (ld s.b) in
        let wide_run = run_wide r n li offset avl run_li in
        rw (load s.a, load s.b)
          (Ensures-bind _ _ _ _ (affine-Ensures r n li offset avl run_li st inside) λ out p.
            rw
              (
                store_vec-some r l r.len_1d offset avl inside s.a _,
                store_word-some n (wide li) r.len_1d offset avl inside st.indx out,
              )
              (Ensures-some _ _ (
                stored_ints r (db4_cell r) offset avl st
                  (vse-Holds r law l offset avl s.a fits a_out) (Holds-same offset avl s.d)
                  (vse32-Words wide_run st.indx p) λ j. refl)))

    -- For any way to store the integers that stores them.
    pub db6_body-SweptInts :
        (store : (ℕ → ℕ) → ℕ → ℕ → n.Word (wide li) → Option (ℕ → ℕ))
        → ((v : n.Word (wide li)) (h : ℕ → ℕ)
            → Words n (wide li) offset avl v h
            → Ensures (store st.indx offset avl v) (Holds offset avl st.indx h))
        → Ensures (db6_body r n l li store offset avl st) (SweptInts r (db6_cell r) offset avl st)
    unfolding db6_body
    db6_body-SweptInts store ok =
        let run : Runs r l avl = record { law = law; fits = fits } in
        let ld = λ (arr : ℕ → r.Real). vle-Lanes r law l offset avl fits arr in
        let load = load_vec-some r l r.len_1d offset avl inside in
        let s = st.reals in
        let with_c = macc_s run (r.lit 1 4) (add run (ld s.a) (ld s.b)) (ld s.c) in
        let a_out = macc_s run (r.lit 1 8) with_c (ld s.d) in
        rw (load s.a, load s.b, load s.c, load s.d)
          (Ensures-bind _ _ _ _ (affine-Ensures r n li offset avl run_li st inside) λ out p.
            rw (store_vec-some r l r.len_1d offset avl inside s.a _) (
              Ensures-bind _ _ _ _ (ok out _ p) λ indx q. Ensures-some _ _ (
                stored_ints r (db6_cell r) offset avl st
                  (vse-Holds r law l offset avl s.a fits a_out) (Holds-same offset avl s.d) q
                  λ j. refl)))

    pub store_whole-Holds :
        (v : n.Word (wide li)) (h : ℕ → ℕ)
        → Words n (wide li) offset avl v h
        → Ensures (store_whole r n (wide li) st.indx offset avl v) (Holds offset avl st.indx h)
    unfolding store_whole
    store_whole-Holds v h p =
        rw (store_word-some n (wide li) r.len_1d offset avl inside st.indx v)
          (Ensures-some _ _ (vse32-Words (run_wide r n li offset avl run_li) st.indx p))
