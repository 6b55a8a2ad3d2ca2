-- ===== src/Dlmul/Micro/Steps.antt =====
-- One step of each microbenchmark changes the rows of its range.
use vectorizer_experiments.Base.{
  ℕ, zero, suc, ◌+◌, ◌*◌, ◌≤◌, ◌<◌, ◌≡◌, refl, arith, Option, some, ◌>>=◌, Ensures, Ensures-some,
  Ensures-bind,
}
use vectorizer_experiments.Dlmul.Rvv.{row, Lmul, Rvv, IsRvv, Memory, Row, area, load_vec, store_vec}
use vectorizer_experiments.Dlmul.Rvv.Lanes.{
  vsetvl-pos, vsetvl-le_avl, Lanes, vle-Lanes, vfadd_vv-Lanes, vfsub_vv-Lanes, vfmul_vv-Lanes,
  vfadd_vf-Lanes, vfmul_vf-Lanes, vfmacc_vv-Lanes, vse-Row, load_vec-some, store_vec-some,
}
use vectorizer_experiments.Dlmul.Strip.Sweep.{
  Swept, Swept-then, times, strip_while-Swept, sweeps-Swept,
}
use vectorizer_experiments.Dlmul.Strip.{strip_while}
use vectorizer_experiments.Dlmul.Micro.{
  sweeps, mb2_step, mb3_step, Shape, shape_1, shape_2, shape_3, shape_4, mb6_out, mb6_step, ChainOp,
  op_1, op_2, mb7_chain, mb7_step, mb10_compute_step, mb10_spill_step, mb10_round,
}
use vectorizer_experiments.Dlmul.Micro.Rows.{
  mb2_row, mb3_row, mb6_value, mb6_row, mb7_value, mb7_row, spill_row, mb10_row,
}

-- A step takes some of the elements, at most all, and changes their rows by f.
abbrev pub Steps : (r : Rvv) → (Row r → Row r) → ℕ → ℕ → Memory r → ℕ × Memory r → Type 0
Steps r f offset avl st out = (0 < out.0) × (out.0 ≤ avl) × Swept r f offset out.0 st out.1

module _ (r : Rvv) (law : IsRvv r) (l : Lmul) (offset vl : ℕ) (fits : vl ≤ r.vlmax l) where
  abbrev pub loaded : (arr : ℕ → r.Real) → Lanes r l offset vl (r.vle l arr offset vl) arr
  loaded arr = vle-Lanes r law l offset vl fits arr

  mb7_chain-Lanes :
      (op : ChainOp) (depth : ℕ) (acc x y : r.Vec l) (f g h : ℕ → r.Real)
      → Lanes r l offset vl acc f
      → Lanes r l offset vl x g
      → Lanes r l offset vl y h
      → Lanes r l offset vl
          (mb7_chain r l op depth acc x y vl)
          (λ j. times depth (mb7_value r op (g j) (h j)) (f j))
  unfolding mb7_chain times
  mb7_chain-Lanes op zero acc x y f g h o p q = o
  mb7_chain-Lanes op_1 (suc depth) acc x y f g h o p q =
      vfadd_vv-Lanes r law l offset vl fits _ _ _ _ (mb7_chain-Lanes op_1 depth acc x y f g h o p q)
        p
  mb7_chain-Lanes op_2 (suc depth) acc x y f g h o p q =
      vfmacc_vv-Lanes r law l offset vl fits _ _ _ _ _ _
        (mb7_chain-Lanes op_2 depth acc x y f g h o p q) p q

module _ (r : Rvv) (law : IsRvv r) (l : Lmul) where
  pub kernel-Swept :
      (f : Row r → Row r) (step : ℕ → ℕ → Memory r → Option (ℕ × Memory r)) (total iters : ℕ)
      → ((offset avl : ℕ) (st : Memory r)
          → 0 < avl
          → offset + avl ≤ total
          → Ensures (step offset avl st) (Steps r f offset avl st))
      → (st : Memory r)
      → Ensures (sweeps r iters total step st) (Swept r (times iters f) 0 total st)
  unfolding sweeps
  kernel-Swept f step total iters ok st =
      sweeps-Swept r f 0 total (λ s. strip_while (suc total) step 0 total s)
        (λ s. strip_while-Swept r f total step ok (suc total) 0 total s (omega arith) (omega arith))
        iters st

  module _ (offset avl : ℕ) (st : Memory r) (pos : 0 < avl) (bound : offset + avl ≤ r.len_1d) where
    abbrev pub vl : ℕ
    vl = r.vsetvl l avl

    pub fits : vl ≤ r.vlmax l
    fits = law.vsetvl-le l avl

    pub le : vl ≤ avl
    le = vsetvl-le_avl r law l avl

    inside : offset + vl ≤ r.len_1d
    inside = omega (arith, le)

    pub load-some :
        (arr : ℕ → r.Real) → load_vec r l r.len_1d arr offset vl ≡ some (r.vle l arr offset vl)
    load-some arr = load_vec-some r l r.len_1d offset vl inside arr

    pub store-some :
        (arr : ℕ → r.Real) (v : r.Vec l)
        → store_vec r l r.len_1d arr offset v vl ≡ some (r.vse l arr offset v vl)
    store-some arr v = store_vec-some r l r.len_1d offset vl inside arr v

    -- A step that stores one vector, from the rows that it leaves.
    pub Steps-some :
        (f : Row r → Row r) (st' : Memory r)
        → Swept r f offset vl st st'
        → Ensures (some (vl, st')) (Steps r f offset avl st)
    Steps-some f st' swept = Ensures-some _ _ (vsetvl-pos r law l avl pos, le, swept)

    pub mb2_step-Steps : Ensures (mb2_step r l offset avl st) (Steps r (mb2_row r) offset avl st)
    unfolding mb2_step
    mb2_step-Steps =
        let ld = loaded r law l offset vl fits in
        let out = vfadd_vv-Lanes r law l offset vl fits _ _ _ _ (ld st.b) (ld st.c) in
        rw (load-some st.b, load-some st.c, store-some st.a)
          (Steps-some (mb2_row r) _
            λ j. vse-Row r law l offset vl fits st.a _ _ out (λ v. record (row r st j) { a = v }) j)

    pub mb3_step-Steps :
        offset + avl ≤ area r
        → Ensures (mb3_step r l offset avl st) (Steps r (mb3_row r) offset avl st)
    unfolding mb3_step
    mb3_step-Steps in_row =
        let ld = loaded r law l offset vl fits in
        let plus = vfadd_vv-Lanes r law l offset vl fits in
        let times_v = vfmul_vv-Lanes r law l offset vl fits in
        let acc = plus _ _ _ _ (ld st.a) (ld st.b) in
        let acc' = plus _ _ _ _ acc (times_v _ _ _ _ (ld st.c) (ld st.d)) in
        let acc'' = plus _ _ _ _ acc' (times_v _ _ _ _ (ld st.e) (ld st.x)) in
        let less = vfsub_vv-Lanes r law l offset vl fits _ _ _ _ acc'' (ld st.aa) in
        let out = plus _ _ _ _ less (ld st.flat_2d_array) in
        rw
          (
            load-some st.a,
            load-some st.b,
            load-some st.c,
            load-some st.d,
            load-some st.e,
            load-some st.x,
            load_vec-some r l (area r) offset vl (omega (arith, le)) st.aa,
            load_vec-some r l (area r) offset vl (omega (arith, le)) st.flat_2d_array,
            store-some st.d,
          )
          (Steps-some (mb3_row r) _
            λ j. vse-Row r law l offset vl fits st.d _ _ out (λ v. record (row r st j) { d = v }) j)

    mb6_out-Lanes :
        (shape : Shape)
        → Ensures
            (mb6_out r l shape offset vl st (r.vle l st.b offset vl))
            (λ v. Lanes r l offset vl v (λ j. mb6_value r shape (st.b j) (st.c j)))
    unfolding mb6_out
    mb6_out-Lanes shape_1 = Ensures-some _ _ (loaded r law l offset vl fits st.b)
    mb6_out-Lanes shape_2 = Ensures-some _ _ (
        vfadd_vf-Lanes r law l offset vl fits _ _ _
          (vfmul_vf-Lanes r law l offset vl fits _ _ _ (loaded r law l offset vl fits st.b)))
    mb6_out-Lanes shape_3 =
        let ld = loaded r law l offset vl fits in
        rw (load-some st.c)
          (Ensures-some _ _ (vfadd_vv-Lanes r law l offset vl fits _ _ _ _ (ld st.b) (ld st.c)))
    mb6_out-Lanes shape_4 =
        let ld = loaded r law l offset vl fits in
        rw (load-some st.c) (
          Ensures-some _ _ (
            vfadd_vv-Lanes r law l offset vl fits _ _ _ _
              (vfmul_vf-Lanes r law l offset vl fits _ _ _ (ld st.b)) (ld st.c)))

    pub mb6_step-Steps :
        (shape : Shape)
        → Ensures (mb6_step r l shape offset avl st) (Steps r (mb6_row r shape) offset avl st)
    unfolding mb6_step
    mb6_step-Steps shape = rw (load-some st.b) (
        Ensures-bind _ _ _ _ (mb6_out-Lanes shape) λ v out. rw (store-some st.a v) (
          Steps-some (mb6_row r shape) _ λ j.
            vse-Row r law l offset vl fits st.a _ _ out (λ v. record (row r st j) { a = v }) j))

    pub mb7_step-Steps :
        (op : ChainOp) (depth : ℕ)
        → Ensures (mb7_step r l op depth offset avl st) (Steps r (mb7_row r op depth) offset avl st)
    unfolding mb7_step
    mb7_step-Steps op depth =
        let ld = loaded r law l offset vl fits in
        let out =
          mb7_chain-Lanes r law l offset vl fits op depth _ _ _ _ _ _ (ld st.a) (ld st.b)
            (ld st.c) in
        rw (load-some st.a, load-some st.b, load-some st.c, store-some st.d)
          (Steps-some (mb7_row r op depth) _
            λ j. vse-Row r law l offset vl fits st.d _ _ out (λ v. record (row r st j) { d = v }) j)

    mb10_compute_step-Steps :
        Ensures (mb10_compute_step r l offset avl st) (λ out.
          (out.0 ≡ vl) × Steps r (λ w. record w { d = r.fma w.a w.b w.b }) offset avl st out)
    unfolding mb10_compute_step
    mb10_compute_step-Steps =
        let ld = loaded r law l offset vl fits in
        let out =
          vfmacc_vv-Lanes r law l offset vl fits _ _ _ _ _ _ (ld st.a) (ld st.b) (ld st.b) in
        rw (load-some st.a, load-some st.b, store-some st.d)
          (Ensures-some _ _ (
            refl,
            (
              vsetvl-pos r law l avl pos,
              le,
              λ j.
                  vse-Row r law l offset vl fits st.d _ _ out (λ v. record (row r st j) { d = v })
                    j,
            ),
          ))

    -- The second `vsetvl` gives again all the elements of the first.
    mb10_spill_step-Swept :
        (s : Memory r)
        → Ensures
            (mb10_spill_step r l offset vl s >>= λ out. some out.1)
            (Swept r (spill_row r) offset vl s)
    unfolding mb10_spill_step
    mb10_spill_step-Swept s =
        let ld = loaded r law l offset vl fits in
        rw (law.vsetvl-all l vl fits, load-some s.d, store-some s.e)
          (Ensures-some _ _ λ j.
            vse-Row r law l offset vl fits s.e _ _ (ld s.d) (λ v. record (row r s j) { e = v }) j)

    pub mb10_round-Steps :
        (level : ℕ)
        → Ensures (mb10_round r l level offset avl st) (Steps r (mb10_row r level) offset avl st)
    unfolding mb10_round
    mb10_round-Steps level = Ensures-bind _ _ _ _ mb10_compute_step-Steps λ out p. rw p.0 (
        Ensures-bind _ _ _ _
          (sweeps-Swept r (spill_row r) offset vl _ mb10_spill_step-Swept (level * 2) out.1)
          λ spilled q. Steps-some (mb10_row r level) spilled (
            Swept-then r (λ w. record w { d = r.fma w.a w.b w.b }) (times (level * 2) (spill_row r))
              offset vl st out.1 spilled (rw p.0 at p.1.2) q))
