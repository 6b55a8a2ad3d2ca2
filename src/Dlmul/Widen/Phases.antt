-- ===== src/Dlmul/Widen/Phases.antt =====
-- The integer phases of db1, db3, db4 and db6, lane by lane, with their loads.
use vectorizer_experiments.Base.{
  ℕ, ◌+◌, ◌*◌, ◌≤◌, ◌≡◌, refl, inl, inr, arith, Bool-cases, Ensures, Ensures-some,
}
use vectorizer_experiments.Dlmul.Rvv.{Lmul, Rvv, row, touched}
use vectorizer_experiments.Dlmul.Strip.Rule.{Composes}
use vectorizer_experiments.Dlmul.Strip.Indexed.{Changed, Changed-Composes}
use vectorizer_experiments.Dlmul.Bench.Stored.{Holds}
use vectorizer_experiments.Dlmul.Ints.{IntRvv, wide, extend, word, Statics, IntMemory, Cell, cell}
use vectorizer_experiments.Dlmul.Ints.Lanes.{
  Shorts, Words, RunsShort, RunsWord, vle16-Shorts, vle32-Words, wadd, wmul, plus, load_short-some,
  load_word-some,
}
use vectorizer_experiments.Dlmul.Widen.{sum_8, triplet_phase, triplet, affine_phase, affine}

-- The widening sum and product of two int16_t, and the sum of int32_t, with the wrap-around.
abbrev pub wide_sum : ℕ → ℕ → ℕ
wide_sum u v = word (extend u + extend v)

abbrev pub wide_product : ℕ → ℕ → ℕ
wide_product u v = word (extend u * extend v)

abbrev pub sum_value : ℕ → ℕ → ℕ → ℕ → ℕ → ℕ → ℕ → ℕ → ℕ
sum_value s0 s1 s2 s3 s4 s5 s6 s7 =
    let out = word (word (s0 + s1) + s2) in
    let out' = word (word (out + s3) + s4) in word (word (word (out' + s5) + s6) + s7)

abbrev pub triplet_value : ℕ → ℕ → ℕ → ℕ
triplet_value x0 x1 xb =
    sum_value (wide_sum x0 x1) (wide_product x0 x1) (wide_sum x1 xb) (wide_product x1 xb)
      (wide_sum x0 xb) (wide_product x0 xb) (wide_sum xb x1) (wide_product xb x0)

abbrev pub affine_value : ℕ → ℕ → ℕ → ℕ → ℕ
affine_value lhs rhs zp bias = word (
    sum_value (wide_product lhs rhs) (wide_sum lhs zp) (wide_product rhs zp) (wide_sum rhs lhs)
      (wide_product lhs lhs) (wide_sum rhs rhs) (wide_product zp lhs) (wide_sum zp rhs)
    + bias)

module _ (r : Rvv) where
  -- What an index becomes, by the static arrays.
  abbrev pub CellMap : Type 0
  CellMap = Statics → ℕ → Cell r → Cell r

  -- The static arrays are as before, and each index of the range is changed by f.
  abbrev pub SweptInts : CellMap → ℕ → ℕ → IntMemory r → IntMemory r → Type 0
  SweptInts f = Changed (λ (s : IntMemory r). s.statics) (cell r) f

  pub SweptInts-Composes : (f : CellMap) → Composes (SweptInts f)
  SweptInts-Composes f = Changed-Composes (λ (s : IntMemory r). s.statics) (cell r) f

  -- What the benches store: to a and d, and to `indx`.
  pub stored_ints :
      (f : CellMap) (offset vl : ℕ) (st : IntMemory r) {a d f_a f_d : ℕ → r.Real} {indx f_i : ℕ → ℕ}
      → Holds offset vl st.reals.a f_a a
      → Holds offset vl st.reals.d f_d d
      → Holds offset vl st.indx f_i indx
      → ((j : ℕ)
          → f st.statics j (cell r st j)
            ≡ record { reals = record (row r st.reals j) { a = f_a j; d = f_d j }; indx = f_i j })
      → SweptInts f offset vl st
          (record st { reals = record st.reals { a = a; d = d }; indx = indx })
  stored_ints f offset vl st pa pd pi same = record {
    same_env = refl;
    cells = λ j.
        rw (pa j, pd j, pi j, same j)
          (elim (Bool-cases (touched offset vl j)) [ inl e ↦ rw e | inr e ↦ rw e ]);
  }

module _ {r : Rvv} {n : IntRvv} {l : Lmul} {offset vl : ℕ} (run : RunsWord r n l vl)
    {u0 u1 u2 u3 u4 u5 u6 u7 : n.Word l} {f0 f1 f2 f3 f4 f5 f6 f7 : ℕ → ℕ} where
  sum_8-Words :
      Words n l offset vl u0 f0
      → Words n l offset vl u1 f1
      → Words n l offset vl u2 f2
      → Words n l offset vl u3 f3
      → Words n l offset vl u4 f4
      → Words n l offset vl u5 f5
      → Words n l offset vl u6 f6
      → Words n l offset vl u7 f7
      → Words n l offset vl
          (sum_8 n l u0 u1 u2 u3 u4 u5 u6 u7 vl)
          (λ j. sum_value (f0 j) (f1 j) (f2 j) (f3 j) (f4 j) (f5 j) (f6 j) (f7 j))
  unfolding sum_8
  sum_8-Words p0 p1 p2 p3 p4 p5 p6 p7 =
      let out = plus run (plus run p0 p1) p2 in
      let out' = plus run (plus run out p3) p4 in plus run (plus run (plus run out' p5) p6) p7

module _ (r : Rvv) (n : IntRvv) (l : Lmul) (offset vl : ℕ) (run : RunsShort r n l vl) where
  pub run_wide : RunsWord r n (wide l) vl
  run_wide = record {
    law = run.law;
    fits = omega (arith, run.law.vlmax16-wide l run.narrow, run.fits);
  }

  module _ {u v w : n.Short l} {f g h : ℕ → ℕ} (p : Shorts n l offset vl u f)
      (q : Shorts n l offset vl v g) (s : Shorts n l offset vl w h) where
    triplet_phase-Words :
        Words n
          (wide l)
          offset
          vl
          (triplet_phase n l u v w vl)
          (λ j. triplet_value (f j) (g j) (h j))
    unfolding triplet_phase
    triplet_phase-Words =
        sum_8-Words run_wide (wadd run p q) (wmul run p q) (wadd run q s) (wmul run q s)
          (wadd run p s) (wmul run p s) (wadd run s q) (wmul run s p)

    affine_phase-Words :
        {b : n.Word (wide l)} {k : ℕ → ℕ}
        → Words n (wide l) offset vl b k
        → Words n
            (wide l)
            offset
            vl
            (affine_phase n l u v w b vl)
            (λ j. affine_value (f j) (g j) (h j) (k j))
    unfolding affine_phase
    affine_phase-Words pb =
        plus run_wide
          (sum_8-Words run_wide (wmul run p q) (wadd run p s) (wmul run q s) (wadd run q p)
            (wmul run p p) (wadd run q q) (wmul run s p) (wadd run s q))
          pb

  module _ (st : IntMemory r) (inside : offset + vl ≤ r.len_1d) where
    pub triplet-Ensures : Ensures (triplet r n l offset vl st) (λ out.
        Words n
          (wide l)
          offset
          vl
          out
          (λ j. triplet_value (st.statics.lhs j) (st.statics.rhs j) (st.statics.zp j)))
    unfolding triplet
    triplet-Ensures =
        let load = load_short-some n l r.len_1d offset vl inside in
        let ld = λ (arr : ℕ → ℕ). vle16-Shorts {offset = offset} run arr in
        rw (load st.statics.lhs, load st.statics.rhs, load st.statics.zp)
          (Ensures-some _ _
            (triplet_phase-Words (ld st.statics.lhs) (ld st.statics.rhs) (ld st.statics.zp)))

    pub affine-Ensures : Ensures (affine r n l offset vl st) (λ out.
        Words n (wide l) offset vl out (λ j.
          affine_value (st.statics.lhs j) (st.statics.rhs j) (st.statics.zp j) (st.statics.bias j)))
    unfolding affine
    affine-Ensures =
        let load = load_short-some n l r.len_1d offset vl inside in
        let ld = λ (arr : ℕ → ℕ). vle16-Shorts {offset = offset} run arr in
        rw
          (
            load st.statics.lhs,
            load st.statics.rhs,
            load st.statics.zp,
            load_word-some n (wide l) r.len_1d offset vl inside st.statics.bias,
          )
          (Ensures-some _ _ (
            affine_phase-Words (ld st.statics.lhs) (ld st.statics.rhs) (ld st.statics.zp)
              (vle32-Words {offset = offset} run_wide st.statics.bias)))
