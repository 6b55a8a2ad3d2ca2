-- ===== src/Dlmul/Spring/Rows.antt =====
-- Every variant of db12 computes the same rows, whatever the length of the vectors.
use vectorizer_experiments.Base.{ℕ, ◌+◌, ◌≤◌, refl, arith, Ensures}
use vectorizer_experiments.Dlmul.Rvv.{Lmul, m2, m4, Rvv, IsRvv, Memory}
use vectorizer_experiments.Dlmul.Rvv.Lanes.{Lanes, vle-Lanes, load_vec-some}
use vectorizer_experiments.Dlmul.Rvv.Steps.{Runs, mul, macc, macc_s, add_s, mul_s, root, over}
use vectorizer_experiments.Dlmul.Strip.Sweep.{times}
use vectorizer_experiments.Dlmul.Strip.Indexed.{RowMap, SweptBy, sweeps-SweptBy}
use vectorizer_experiments.Dlmul.Bench.{Variant, fixed, dynamic}
use vectorizer_experiments.Dlmul.Bench.Chunks.{IsGreedy, vget-Lanes, chunks-Lanes}
use vectorizer_experiments.Dlmul.Bench.Stored.{store_abc, bench_sweep-SweptBy, Serves}
use vectorizer_experiments.Dlmul.Spring.{
  db12_total, db12_iters, db12_seed, db12_force, db12_fixed, db12_push, db12_dynamic, db12_sweep,
  db12_kernel,
}

module _ (r : Rvv) where
  abbrev pub db12_seed_value : r.Real → r.Real → r.Real → r.Real
  db12_seed_value dx dy dz = r.fma (r.fma (r.mul dx dx) dy dy) dz dz

  abbrev pub db12_force_value : r.Real → r.Real
  db12_force_value seed =
      let len = r.sqrt (r.add seed (r.lit 1 32)) in
      r.mul (r.mul (r.add len (r.neg (r.lit 5 4))) (r.lit 3 16)) (r.div (r.lit 1 1) len)

  abbrev pub db12_row : RowMap r
  db12_row flat j w =
      let force = db12_force_value (db12_seed_value w.a w.b w.c) in
      record w {
        a = r.fma w.d (r.lit 1 16) (r.mul force w.a);
        b = r.fma w.e (r.lit 1 16) (r.mul force w.b);
        c = r.fma w.x (r.lit 1 16) (r.mul force w.c);
      }

module _ {r : Rvv} {l : Lmul} {offset vl : ℕ} (run : Runs r l vl) {u : r.Vec l} {f : ℕ → r.Real}
    (pu : Lanes r l offset vl u f) where
  db12_force-Lanes : Lanes r l offset vl (db12_force r l u vl) (λ j. db12_force_value r (f j))
  unfolding db12_force
  db12_force-Lanes =
      let len = root run (add_s run (r.lit 1 32) pu) in
      mul run (mul_s run (r.lit 3 16) (add_s run (r.neg (r.lit 5 4)) len))
        (over run (r.lit 1 1) len)

  db12_seed-Lanes :
      {v w : r.Vec l} {g h : ℕ → r.Real}
      → Lanes r l offset vl v g
      → Lanes r l offset vl w h
      → Lanes r l offset vl (db12_seed r l u v w vl) (λ j. db12_seed_value r (f j) (g j) (h j))
  unfolding db12_seed
  db12_seed-Lanes pv pw = macc run (macc run (mul run pu pu) pv pv) pw pw

module _ (r : Rvv) (law : IsRvv r) (room : db12_total ≤ r.len_1d) where
  module _ (l : Lmul) (offset avl : ℕ) (st : Memory r) (fits : avl ≤ r.vlmax l)
      (inside : offset + avl ≤ db12_total) where
    pub db12_fixed-SweptBy :
        Ensures (db12_fixed r l offset avl st) (SweptBy r (db12_row r) offset avl st)
    unfolding db12_fixed
    db12_fixed-SweptBy =
        let run : Runs r l avl = record { law = law; fits = fits } in
        let ld = λ (arr : ℕ → r.Real). vle-Lanes r law l offset avl fits arr in
        let load = load_vec-some r l r.len_1d offset avl (omega arith) in
        let force = db12_force-Lanes run (db12_seed-Lanes run (ld st.a) (ld st.b) (ld st.c)) in
        rw (load st.a, load st.b, load st.c, load st.d, load st.e, load st.x)
          (store_abc r law l (db12_row r) offset avl st fits (omega arith)
            (macc_s run (r.lit 1 16) (ld st.d) (mul run force (ld st.a)))
            (macc_s run (r.lit 1 16) (ld st.e) (mul run force (ld st.b)))
            (macc_s run (r.lit 1 16) (ld st.x) (mul run force (ld st.c))) λ j. refl)

  module _ (greedy : IsGreedy r) (offset avl : ℕ) (st : Memory r) (fits : avl ≤ r.vlmax m4) where
    db12_push-Lanes :
        {seed dist : r.Vec m4} {f g : ℕ → r.Real}
        → Lanes r m4 offset avl seed f
        → Lanes r m4 offset avl dist g
        → Lanes r m4 offset avl
            (db12_push r seed dist avl)
            (λ j. r.mul (db12_force_value r (f j)) (g j))
    unfolding db12_push
    db12_push-Lanes p q =
        chunks-Lanes r law m4 2 law.vlmax-m4 offset avl greedy fits _ _ λ k vlc lt start few le.
          let run : Runs r m2 vlc = record { law = law; fits = few } in
          mul run
            (db12_force-Lanes run
              (vget-Lanes r law m4 m2 2 law.vlmax-m4 offset avl _ _ k vlc p lt few le))
            (vget-Lanes r law m4 m2 2 law.vlmax-m4 offset avl _ _ k vlc q lt few le)

    db12_dynamic-SweptBy :
        offset + avl ≤ db12_total
        → Ensures (db12_dynamic r offset avl st) (SweptBy r (db12_row r) offset avl st)
    unfolding db12_dynamic
    db12_dynamic-SweptBy inside =
        let run : Runs r m4 avl = record { law = law; fits = fits } in
        let ld = λ (arr : ℕ → r.Real). vle-Lanes r law m4 offset avl fits arr in
        let load = load_vec-some r m4 r.len_1d offset avl (omega arith) in
        let seed = db12_seed-Lanes run (ld st.a) (ld st.b) (ld st.c) in
        rw (load st.a, load st.b, load st.c, load st.d, load st.e, load st.x)
          (store_abc r law m4 (db12_row r) offset avl st fits (omega arith)
            (macc_s run (r.lit 1 16) (ld st.d) (db12_push-Lanes seed (ld st.a)))
            (macc_s run (r.lit 1 16) (ld st.e) (db12_push-Lanes seed (ld st.b)))
            (macc_s run (r.lit 1 16) (ld st.x) (db12_push-Lanes seed (ld st.c))) λ j. refl)

  db12_sweep-SweptBy :
      (variant : Variant) (st : Memory r)
      → Serves (IsGreedy r) variant
      → Ensures (db12_sweep r variant st) (SweptBy r (db12_row r) 0 db12_total st)
  unfolding db12_sweep
  db12_sweep-SweptBy (fixed l) st served =
      bench_sweep-SweptBy r law (db12_row r) l db12_total (db12_fixed r l) (omega arith)
        (db12_fixed-SweptBy l) st
  db12_sweep-SweptBy dynamic st greedy =
      bench_sweep-SweptBy r law (db12_row r) m4 db12_total (db12_dynamic r) (omega arith)
        (db12_dynamic-SweptBy greedy) st

  -- The kernel of db12.
  pub db12_kernel-SweptBy :
      (variant : Variant) (st : Memory r)
      → Serves (IsGreedy r) variant
      → Ensures
          (db12_kernel r variant st)
          (SweptBy r (λ flat j. times db12_iters (db12_row r flat j)) 0 db12_total st)
  unfolding db12_kernel
  db12_kernel-SweptBy variant st served =
      sweeps-SweptBy r (db12_row r) db12_total (λ s. db12_sweep r variant s)
        (λ s. db12_sweep-SweptBy variant s served) db12_iters st
