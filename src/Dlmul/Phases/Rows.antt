-- ===== src/Dlmul/Phases/Rows.antt =====
-- The rows of mb9: three phases, each on the elements of its loop.
use vectorizer_experiments.Base.{
  ℕ, suc, ◌+◌, ◌≤◌, ◌<◌, ◌≡◌, refl, ◌∙◌, ap, arith, if◌then◌else◌, Ensures, Ensures-bind,
  Ensures-weaken, for_up-Ensures,
}
use vectorizer_experiments.Dlmul.Rvv.{Lmul, Rvv, IsRvv, Memory, Row, row, touched, area}
use vectorizer_experiments.Dlmul.Rvv.Lanes.{
  vfadd_vv-Lanes, vfmacc_vv-Lanes, vse-Row, load_vec-some, store_vec-some,
}
use vectorizer_experiments.Dlmul.Strip.Sweep.{times, strip_while-Swept}
use vectorizer_experiments.Dlmul.Micro.Steps.{
  Steps, loaded, vl, fits, le, load-some, store-some, Steps-some,
}
use vectorizer_experiments.Dlmul.Phases.{
  mb9_phase1_step, mb9_phase2_step, mb9_phase3_step, mb9_sweep, mb9_kernel,
}

abbrev pub phase1_row : (r : Rvv) → Row r → Row r
phase1_row r w = record w { d = r.add w.a w.b }

abbrev pub phase2_row : (r : Rvv) → Row r → Row r
phase2_row r w = record w { flat_2d_array = r.fma w.d w.e w.c }

abbrev pub phase3_row : (r : Rvv) → Row r → Row r
phase3_row r w = record w { e = r.add w.d w.flat_2d_array }

-- A function on the rows below n alone.
abbrev pub on_first : (r : Rvv) → ℕ → (Row r → Row r) → ℕ → Row r → Row r
on_first r n f j w = if touched 0 n j then f w else w

-- One outer iteration at index j.
abbrev pub mb9_row : (r : Rvv) → ℕ → ℕ → ℕ → Row r → Row r
mb9_row r total_1 total_2 j w =
    on_first r total_1 (phase3_row r) j
      (on_first r total_2 (phase2_row r) j (on_first r total_1 (phase1_row r) j w))

module _ (r : Rvv) (law : IsRvv r) (l : Lmul) (offset avl : ℕ) (st : Memory r) (pos : 0 < avl)
    (bound : offset + avl ≤ r.len_1d) where
  abbrev lanes : ℕ
  lanes = vl r law l offset avl st pos bound

  abbrev full : lanes ≤ r.vlmax l
  full = fits r law l offset avl st pos bound

  mb9_phase1_step-Steps :
      Ensures (mb9_phase1_step r l offset avl st) (Steps r (phase1_row r) offset avl st)
  unfolding mb9_phase1_step
  mb9_phase1_step-Steps =
      let ld = loaded r law l offset lanes full in
      let loads = load-some r law l offset avl st pos bound in
      let out = vfadd_vv-Lanes r law l offset lanes full _ _ _ _ (ld st.a) (ld st.b) in
      rw (loads st.a, loads st.b, store-some r law l offset avl st pos bound st.d)
        (Steps-some r law l offset avl st pos bound (phase1_row r) _ λ j.
          vse-Row r law l offset lanes full st.d _ _ out (λ v. record (row r st j) { d = v }) j)

  mb9_phase2_step-Steps :
      offset + avl ≤ area r
      → Ensures (mb9_phase2_step r l offset avl st) (Steps r (phase2_row r) offset avl st)
  unfolding mb9_phase2_step
  mb9_phase2_step-Steps plane =
      let ld = loaded r law l offset lanes full in
      let loads = load-some r law l offset avl st pos bound in
      let few = le r law l offset avl st pos bound in
      let out =
        vfmacc_vv-Lanes r law l offset lanes full _ _ _ _ _ _ (ld st.d) (ld st.e) (ld st.c) in
      rw
        (
          loads st.d,
          loads st.e,
          loads st.c,
          store_vec-some r l (area r) offset lanes (omega (arith, few)) st.flat_2d_array,
        )
        (Steps-some r law l offset avl st pos bound (phase2_row r) _ λ j.
          vse-Row r law l offset lanes full st.flat_2d_array _ _ out
            (λ v. record (row r st j) { flat_2d_array = v }) j)

  mb9_phase3_step-Steps :
      offset + avl ≤ area r
      → Ensures (mb9_phase3_step r l offset avl st) (Steps r (phase3_row r) offset avl st)
  unfolding mb9_phase3_step
  mb9_phase3_step-Steps plane =
      let ld = loaded r law l offset lanes full in
      let loads = load-some r law l offset avl st pos bound in
      let few = le r law l offset avl st pos bound in
      let out = vfadd_vv-Lanes r law l offset lanes full _ _ _ _ (ld st.d) (ld st.flat_2d_array) in
      rw
        (
          loads st.d,
          load_vec-some r l (area r) offset lanes (omega (arith, few)) st.flat_2d_array,
          store-some r law l offset avl st pos bound st.e,
        )
        (Steps-some r law l offset avl st pos bound (phase3_row r) _ λ j.
          vse-Row r law l offset lanes full st.e _ _ out (λ v. record (row r st j) { e = v }) j)

module _ (r : Rvv) (law : IsRvv r) (l_1 l_2 : Lmul) (total_1 total_2 : ℕ)
    (room_1 : total_1 ≤ r.len_1d) (room_2 : total_2 ≤ r.len_1d) (plane_1 : total_1 ≤ area r)
    (plane_2 : total_2 ≤ area r) where
  abbrev Iterated : ℕ → Memory r → Memory r → Type 0
  Iterated n st st' = (j : ℕ) → row r st' j ≡ times n (mb9_row r total_1 total_2 j) (row r st j)

  mb9_sweep-Iterated :
      (st : Memory r)
      → Ensures
          (mb9_sweep r l_1 l_2 total_1 total_2 st)
          (λ st'. (j : ℕ) → row r st' j ≡ mb9_row r total_1 total_2 j (row r st j))
  unfolding mb9_sweep
  mb9_sweep-Iterated st =
      Ensures-bind _ _ _ _
        (strip_while-Swept r (phase1_row r) total_1 (mb9_phase1_step r l_1)
          (λ offset avl s pos inside.
            mb9_phase1_step-Steps r law l_1 offset avl s pos (omega arith))
          (suc total_1) 0 total_1 st (omega arith) (omega arith))
        λ one p.
          Ensures-bind _ _ _ _
            (strip_while-Swept r (phase2_row r) total_2 (mb9_phase2_step r l_2)
              (λ offset avl s pos inside.
                mb9_phase2_step-Steps r law l_2 offset avl s pos (omega arith) (omega arith))
              (suc total_2) 0 total_2 one (omega arith) (omega arith))
            λ two q.
              Ensures-weaken _ _ _
                (strip_while-Swept r (phase3_row r) total_1 (mb9_phase3_step r l_1)
                  (λ offset avl s pos inside.
                    mb9_phase3_step-Steps r law l_1 offset avl s pos (omega arith) (omega arith))
                  (suc total_1) 0 total_1 two (omega arith) (omega arith))
                λ st' o j.
                  o j
                  ∙ ap (on_first r total_1 (phase3_row r) j)
                      (q j ∙ ap (on_first r total_2 (phase2_row r) j) (p j))

  -- On any machine with the documented laws of the vector intrinsics, where both numbers of
  -- elements are at most LEN_1D and LEN_2D * LEN_2D, mb9 with any two LMULs returns, and on every
  -- row, once for each outer iteration, d becomes a + b below the first number, then flat_2d_array
  -- d + e c below the second, then e d + flat_2d_array below the first.
  pub mb9_kernel-Iterated :
      (iters : ℕ) (st : Memory r)
      → Ensures
          (mb9_kernel r l_1 l_2 total_1 total_2 iters st)
          (λ st'. (j : ℕ) → row r st' j ≡ times iters (mb9_row r total_1 total_2 j) (row r st j))
  unfolding mb9_kernel times
  mb9_kernel-Iterated iters st =
      for_up-Ensures (λ n s. Iterated n st s) iters (λ _ s. mb9_sweep r l_1 l_2 total_1 total_2 s)
        (λ n lt s p.
          Ensures-weaken _ _ _ (mb9_sweep-Iterated s)
            λ s' q j. q j ∙ ap (mb9_row r total_1 total_2 j) (p j))
        st (λ j. refl)
