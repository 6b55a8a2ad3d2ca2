-- ===== src/Dlmul/Matrix/Phases.antt =====
-- The phases of dep_matrix, lane by lane, with their loads.
use Prim.Native.Nat.{min}
use vectorizer_experiments.Base.{
  ℕ, suc, ◌+◌, ◌-◌, ◌*◌, ◌≤◌, ◌<◌, ◌≡◌, refl, sym, subst, inl, inr, arith, Bool, true, false,
  Option, some, ltb, Bool-cases, if◌then◌else◌, Ensures, Ensures-some, Ensures-bind,
}
use vectorizer_experiments.Dlmul.Rvv.{Lmul, m2, m4, Rvv, IsRvv, Memory, Row, row, area}
use vectorizer_experiments.Dlmul.Rvv.Lanes.{
  Lanes, vsetvl-le_avl, vle-Lanes, plane-Lanes, load_vec-some,
}
use vectorizer_experiments.Dlmul.Rvv.Steps.{Runs, add, mul, macc, macc_s}
use vectorizer_experiments.Dlmul.Strip.Indexed.{RowMap, SweptBy}
use vectorizer_experiments.Dlmul.Bench.Chunks.{
  IsGreedy, vget-Lanes, vset-Lanes, full-Lanes, chunk-start,
}
use vectorizer_experiments.Dlmul.Bench.Stored.{store_abc}
use vectorizer_experiments.Dlmul.Matrix.{
  DepMode, seeds_phase2, bases_phase3, dep_total, dep_phase1, dep_mid, dep_phase2, dep_finish,
  dep_chunk,
}

module _ (r : Rvv) where
  abbrev pub dep_phase1_value : Row r → r.Real
  dep_phase1_value w = r.fma (r.add w.a w.b) (r.lit 1 4) w.c

  abbrev pub dep_mid_value : r.Real → r.Real → r.Real → r.Real → r.Real → r.Real → r.Real
  dep_mid_value seed s0 s1 s2 s3 s4 =
      let with_34 = r.fma (r.fma (r.add seed s0) s1 s2) s3 s4 in
      let with_p2 = r.fma with_34 (r.lit 1 8) (r.mul s2 s3) in
      let with_p3 = r.fma with_p2 (r.lit 1 16) (r.mul seed s4) in
      r.fma with_p3 (r.lit 1 32) (r.add (r.mul seed seed) (r.mul s0 s1))

  -- The result of the middle phase in one row.
  abbrev pub dep_mid_at : DepMode → (ℕ → r.Real) → ℕ → Row r → r.Real
  dep_mid_at mode flat j w =
      let seed = if seeds_phase2 mode then dep_phase1_value w else w.d in
      dep_mid_value seed w.d w.e w.x (flat j) (flat (dep_total + j))

  abbrev pub dep_row : DepMode → RowMap r
  dep_row mode flat j w =
      let phase1 = dep_phase1_value w in
      let mid = dep_mid_at mode flat j w in
      let tail = flat (2 * dep_total + j) in
      let base = if bases_phase3 mode then phase1 else tail in
      record w {
        a = r.fma w.b (r.lit 1 8) phase1;
        b = r.fma (r.fma base (r.lit 1 4) mid) (r.lit 1 8) tail;
        c = mid;
      }

module _ {r : Rvv} {l : Lmul} {offset vl : ℕ} where
  -- Either of two vectors.
  pick-Lanes :
      {u v : r.Vec l} {f g : ℕ → r.Real} (first : Bool)
      → Lanes r l offset vl u f
      → Lanes r l offset vl v g
      → Lanes r l offset vl (if first then u else v) (λ j. if first then f j else g j)
  pick-Lanes true p q = p
  pick-Lanes false p q = q

  dep_mid-Lanes :
      (run : Runs r l vl) {u v w x y z : r.Vec l} {f g h f_x f_y f_z : ℕ → r.Real}
      → Lanes r l offset vl u f
      → Lanes r l offset vl v g
      → Lanes r l offset vl w h
      → Lanes r l offset vl x f_x
      → Lanes r l offset vl y f_y
      → Lanes r l offset vl z f_z
      → Lanes r l offset vl
          (dep_mid r l u v w x y z vl)
          (λ j. dep_mid_value r (f j) (g j) (h j) (f_x j) (f_y j) (f_z j))
  unfolding dep_mid
  dep_mid-Lanes run pu pv pw px py pz =
      let p0 = mul run pu pu in
      let p1 = mul run pv pw in
      let with_34 = macc run (macc run (add run pu pv) pw px) py pz in
      let with_p2 = macc_s run (r.lit 1 8) with_34 (mul run px py) in
      let with_p3 = macc_s run (r.lit 1 16) with_p2 (mul run pu pz) in
      macc_s run (r.lit 1 32) with_p3 (add run p0 p1)

-- A load that one of two branches makes, when it succeeds.
pick-some {ℓ} :
    {A : Type ℓ} (first : Bool) (u v : A) (load : Option A)
    → load ≡ some v
    → (if first then some u else load) ≡ some (if first then u else v)
pick-some true u v load e = refl
pick-some false u v load e = e

module _ (r : Rvv) (law : IsRvv r) (mode : DepMode) (st : Memory r) (room : dep_total ≤ r.len_1d)
    (planes : 3 * dep_total ≤ area r) where
  abbrev Phase1 : ℕ → r.Real
  Phase1 j = dep_phase1_value r (row r st j)

  abbrev Mid : ℕ → r.Real
  Mid j = dep_mid_at r mode st.flat_2d_array j (row r st j)

  module _ (l : Lmul) (at vl : ℕ) (fits : vl ≤ r.vlmax l) (inside : at + vl ≤ dep_total) where
    pub dep_phase1-Lanes :
        Lanes r l at vl
          (dep_phase1 r l (r.vle l st.a at vl) (r.vle l st.b at vl) (r.vle l st.c at vl) vl)
          Phase1
    unfolding dep_phase1
    dep_phase1-Lanes =
        let run : Runs r l vl = record { law = law; fits = fits } in
        let ld = λ (arr : ℕ → r.Real). vle-Lanes r law l at vl fits arr in
        macc_s run (r.lit 1 4) (add run (ld st.a) (ld st.b)) (ld st.c)

    pub dep_phase2-Ensures :
        (phase1 : r.Vec l)
        → Lanes r l at vl phase1 Phase1
        → Ensures (dep_phase2 r l mode phase1 at vl st) (λ out. Lanes r l at vl out Mid)
    unfolding dep_phase2
    dep_phase2-Ensures phase1 p =
        let run : Runs r l vl = record { law = law; fits = fits } in
        let ld = λ (arr : ℕ → r.Real). vle-Lanes r law l at vl fits arr in
        let load = load_vec-some r l r.len_1d at vl (omega arith) in
        rw
          (
            pick-some (seeds_phase2 mode) phase1 _ _ (load st.d),
            load st.d,
            load st.e,
            load st.x,
            load_vec-some r l (area r) at vl (omega arith) st.flat_2d_array,
            load_vec-some r l (area r) (dep_total + at) vl (omega arith) st.flat_2d_array,
          )
          (Ensures-some _ _ (
            dep_mid-Lanes run (pick-Lanes (seeds_phase2 mode) p (ld st.d)) (ld st.d) (ld st.e)
              (ld st.x) (ld st.flat_2d_array)
              (plane-Lanes r law l at vl fits st.flat_2d_array dep_total)))

    pub dep_finish-SweptBy :
        (phase1 mid : r.Vec l)
        → Lanes r l at vl phase1 Phase1
        → Lanes r l at vl mid Mid
        → Ensures
            (dep_finish r l mode (r.vle l st.b at vl) phase1 mid at vl st)
            (SweptBy r (dep_row r mode) at vl st)
    unfolding dep_finish
    dep_finish-SweptBy phase1 mid p q =
        let run : Runs r l vl = record { law = law; fits = fits } in
        let tail = plane-Lanes r law l at vl fits st.flat_2d_array (2 * dep_total) in
        let base = pick-Lanes (bases_phase3 mode) p tail in
        rw (load_vec-some r l (area r) (2 * dep_total + at) vl (omega arith) st.flat_2d_array) (
          store_abc r law l (dep_row r mode) at vl st fits (omega arith)
            (macc_s run (r.lit 1 8) (vle-Lanes r law l at vl fits st.b) p)
            (macc_s run (r.lit 1 8) (macc_s run (r.lit 1 4) base q) tail) q λ j. refl)

  module _ (greedy : IsGreedy r) (offset avl : ℕ) (fits : avl ≤ r.vlmax m4)
      (inside : offset + avl ≤ dep_total) (phase1 : r.Vec m4)
      (p : Lanes r m4 offset avl phase1 Phase1) where
    pub dep_chunk-Ensures :
        (k : ℕ) (mid : r.Vec m4)
        → k < 2
        → Lanes r m4 offset (min avl (k * r.vlmax m2)) mid Mid
        → Ensures
            (dep_chunk r mode phase1 offset avl st k mid)
            (λ out. Lanes r m4 offset (min avl (suc k * r.vlmax m2)) out Mid)
    unfolding dep_chunk
    dep_chunk-Ensures k mid lt q = elim (Bool-cases (ltb (k * r.vsetvl m2 avl) avl)) [
      | inl more ↦
          let before : k * r.vsetvl m2 avl < avl = ground arith in
          let start = chunk-start r law m2 greedy avl k before in
          let rest = avl - k * r.vsetvl m2 avl in
          let vlc = r.vsetvl m2 rest in
          let few = law.vsetvl-le m2 rest in
          let le = vsetvl-le_avl r law m2 rest in
          let part : Lanes r m2 (offset + k * r.vsetvl m2 avl) vlc (r.vget m4 m2 phase1 k) Phase1 =
            subst (λ x. Lanes r m2 (offset + x) vlc (r.vget m4 m2 phase1 k) Phase1) (sym start)
              (vget-Lanes r law m4 m2 2 law.vlmax-m4 offset avl phase1 Phase1 k vlc p lt few
                (omega arith)) in
          rw more (
            Ensures-bind _ _ _ _
              (dep_phase2-Ensures m2 (offset + k * r.vsetvl m2 avl) vlc few (omega arith) _ part)
              λ out found. Ensures-some _ _ (
                vset-Lanes r law m4 2 law.vlmax-m4 offset avl greedy fits out Mid k mid before lt
                  (subst (λ x. Lanes r m2 (offset + x) vlc out Mid) start found) q))
      | inr done ↦ rw done (
          Ensures-some _ _
            (full-Lanes r law m4 2 law.vlmax-m4 offset avl greedy fits Mid k mid (ground arith) q))
    ]
