-- ===== src/Dlmul/Switch/Rows.antt =====
-- The rows of mb1 and mb4.
use vectorizer_experiments.Base.{
  ℕ, suc, ◌+◌, ◌≤◌, ◌<◌, ◌≡◌, refl, ◌∙◌, ap, arith, Option, some, for_up, Ensures, Ensures-bind,
  Ensures-weaken, for_up-Ensures,
}
use vectorizer_experiments.Dlmul.Rvv.{Lmul, Rvv, IsRvv, Memory, Row, row, area, load_vec, store_vec}
use vectorizer_experiments.Dlmul.Rvv.Lanes.{
  vfadd_vv-Lanes, vfsub_vv-Lanes, vfmul_vv-Lanes, vse-Row, load_vec-some, store_vec-some,
}
use vectorizer_experiments.Dlmul.Strip.Sweep.{times, strip_while-Swept}
use vectorizer_experiments.Dlmul.Micro.Rows.{mb2_row}
use vectorizer_experiments.Dlmul.Micro.Steps.{
  Steps, loaded, vl, fits, le, load-some, store-some, Steps-some,
}
use vectorizer_experiments.Dlmul.Phases.Rows.{phase1_row, phase3_row, on_first}
use vectorizer_experiments.Dlmul.Switch.{
  mb1_from_step, mb1_to_step, mb1_sweep, mb1_kernel, mb4_phase1_step, mb4_phase2_step,
  mb4_phase3_step, mb4_sweep, mb4_kernel,
}

abbrev pub to_row : (r : Rvv) → Row r → Row r
to_row r w = record w { x = r.sub w.d w.e }

abbrev pub mb1_row : (r : Rvv) → ℕ → ℕ → ℕ → Row r → Row r
mb1_row r first second j w = on_first r second (to_row r) j (on_first r first (mb2_row r) j w)

abbrev pub mb4_phase2_row : (r : Rvv) → Row r → Row r
mb4_phase2_row r w = record w { flat_2d_array = r.add (r.add (r.mul w.d w.e) (r.mul w.c w.x)) w.d }

abbrev pub mb4_row : (r : Rvv) → ℕ → ℕ → ℕ → Row r → Row r
mb4_row r total_1 total_2 j w =
    on_first r total_1 (phase3_row r) j
      (on_first r total_2 (mb4_phase2_row r) j (on_first r total_1 (phase1_row r) j w))

module _ (r : Rvv) (law : IsRvv r) (l : Lmul) (offset avl : ℕ) (st : Memory r) (pos : 0 < avl)
    (bound : offset + avl ≤ r.len_1d) where
  abbrev lanes : ℕ
  lanes = vl r law l offset avl st pos bound

  abbrev full : lanes ≤ r.vlmax l
  full = fits r law l offset avl st pos bound

  load_1d :
      (arr : ℕ → r.Real) → load_vec r l r.len_1d arr offset lanes ≡ some (r.vle l arr offset lanes)
  load_1d arr = load-some r law l offset avl st pos bound arr

  load_2d :
      (arr : ℕ → r.Real)
      → offset + avl ≤ area r
      → load_vec r l (area r) arr offset lanes ≡ some (r.vle l arr offset lanes)
  load_2d arr plane =
      load_vec-some r l (area r) offset lanes (omega (arith, le r law l offset avl st pos bound))
        arr

  store_2d :
      (arr : ℕ → r.Real) (v : r.Vec l)
      → offset + avl ≤ area r
      → store_vec r l (area r) arr offset v lanes ≡ some (r.vse l arr offset v lanes)
  store_2d arr v plane =
      store_vec-some r l (area r) offset lanes (omega (arith, le r law l offset avl st pos bound))
        arr v

  mb1_from_step-Steps :
      Ensures (mb1_from_step r l offset avl st) (Steps r (mb2_row r) offset avl st)
  unfolding mb1_from_step
  mb1_from_step-Steps =
      let ld = loaded r law l offset lanes full in
      let out = vfadd_vv-Lanes r law l offset lanes full _ _ _ _ (ld st.b) (ld st.c) in
      rw (load_1d st.b, load_1d st.c, store-some r law l offset avl st pos bound st.a)
        (Steps-some r law l offset avl st pos bound (mb2_row r) _ λ j.
          vse-Row r law l offset lanes full st.a _ _ out (λ v. record (row r st j) { a = v }) j)

  mb1_to_step-Steps : Ensures (mb1_to_step r l offset avl st) (Steps r (to_row r) offset avl st)
  unfolding mb1_to_step
  mb1_to_step-Steps =
      let ld = loaded r law l offset lanes full in
      let out = vfsub_vv-Lanes r law l offset lanes full _ _ _ _ (ld st.d) (ld st.e) in
      rw (load_1d st.d, load_1d st.e, store-some r law l offset avl st pos bound st.x)
        (Steps-some r law l offset avl st pos bound (to_row r) _ λ j.
          vse-Row r law l offset lanes full st.x _ _ out (λ v. record (row r st j) { x = v }) j)

  mb4_phase1_step-Steps :
      Ensures (mb4_phase1_step r l offset avl st) (Steps r (phase1_row r) offset avl st)
  unfolding mb4_phase1_step
  mb4_phase1_step-Steps =
      let ld = loaded r law l offset lanes full in
      let out = vfadd_vv-Lanes r law l offset lanes full _ _ _ _ (ld st.a) (ld st.b) in
      rw (load_1d st.a, load_1d st.b, store-some r law l offset avl st pos bound st.d)
        (Steps-some r law l offset avl st pos bound (phase1_row r) _ λ j.
          vse-Row r law l offset lanes full st.d _ _ out (λ v. record (row r st j) { d = v }) j)

  mb4_phase2_step-Steps :
      offset + avl ≤ area r
      → Ensures (mb4_phase2_step r l offset avl st) (Steps r (mb4_phase2_row r) offset avl st)
  unfolding mb4_phase2_step
  mb4_phase2_step-Steps plane =
      let ld = loaded r law l offset lanes full in
      let plus = vfadd_vv-Lanes r law l offset lanes full in
      let product = vfmul_vv-Lanes r law l offset lanes full in
      let acc = product _ _ _ _ (ld st.d) (ld st.e) in
      let acc' = plus _ _ _ _ acc (product _ _ _ _ (ld st.c) (ld st.x)) in
      let out = plus _ _ _ _ acc' (ld st.d) in
      rw (load_1d st.d, load_1d st.e, load_1d st.c, load_1d st.x, store_2d st.flat_2d_array _ plane)
        (Steps-some r law l offset avl st pos bound (mb4_phase2_row r) _ λ j.
          vse-Row r law l offset lanes full st.flat_2d_array _ _ out
            (λ v. record (row r st j) { flat_2d_array = v }) j)

  mb4_phase3_step-Steps :
      offset + avl ≤ area r
      → Ensures (mb4_phase3_step r l offset avl st) (Steps r (phase3_row r) offset avl st)
  unfolding mb4_phase3_step
  mb4_phase3_step-Steps plane =
      let ld = loaded r law l offset lanes full in
      let out = vfadd_vv-Lanes r law l offset lanes full _ _ _ _ (ld st.d) (ld st.flat_2d_array) in
      rw
        (
          load_1d st.d,
          load_2d st.flat_2d_array plane,
          store-some r law l offset avl st pos bound st.e,
        )
        (Steps-some r law l offset avl st pos bound (phase3_row r) _ λ j.
          vse-Row r law l offset lanes full st.e _ _ out (λ v. record (row r st j) { e = v }) j)

-- A sweep that changes row j by g j, repeated.
for_up-rows :
    (r : Rvv) (g : ℕ → Row r → Row r) (sweep : Memory r → Option (Memory r))
    → ((st : Memory r) → Ensures (sweep st) (λ st'. (j : ℕ) → row r st' j ≡ g j (row r st j)))
    → (iters : ℕ) (st : Memory r)
    → Ensures
        (for_up iters (λ _ s. sweep s) st)
        (λ st'. (j : ℕ) → row r st' j ≡ times iters (g j) (row r st j))
unfolding times
for_up-rows r g sweep ok iters st =
    for_up-Ensures (λ n s. (j : ℕ) → row r s j ≡ times n (g j) (row r st j)) iters (λ _ s. sweep s)
      (λ n lt s p. Ensures-weaken _ _ _ (ok s) λ s' q j. q j ∙ ap (g j) (p j)) st (λ j. refl)

module _ (r : Rvv) (law : IsRvv r) (l_1 l_2 : Lmul) (total_1 total_2 : ℕ)
    (room_1 : total_1 ≤ r.len_1d) (room_2 : total_2 ≤ r.len_1d) where
  mb1_sweep-rows :
      (st : Memory r)
      → Ensures
          (mb1_sweep r l_1 l_2 total_1 total_2 st)
          (λ st'. (j : ℕ) → row r st' j ≡ mb1_row r total_1 total_2 j (row r st j))
  unfolding mb1_sweep
  mb1_sweep-rows st =
      Ensures-bind _ _ _ _
        (strip_while-Swept r (mb2_row r) total_1 (mb1_from_step r l_1)
          (λ offset avl s pos inside. mb1_from_step-Steps r law l_1 offset avl s pos (omega arith))
          (suc total_1) 0 total_1 st (omega arith) (omega arith))
        λ one p.
          Ensures-weaken _ _ _
            (strip_while-Swept r (to_row r) total_2 (mb1_to_step r l_2)
              (λ offset avl s pos inside.
                mb1_to_step-Steps r law l_2 offset avl s pos (omega arith))
              (suc total_2) 0 total_2 one (omega arith) (omega arith))
            λ st' q j. q j ∙ ap (on_first r total_2 (to_row r) j) (p j)

  -- On any machine with the documented laws of the vector intrinsics, where both numbers of
  -- elements are at most LEN_1D, mb1 with any two LMULs returns, and on every row, once for each
  -- outer iteration, a becomes b + c below the first number and x becomes d - e below the second.
  pub mb1_kernel-Iterated :
      (iters : ℕ) (st : Memory r)
      → Ensures
          (mb1_kernel r l_1 l_2 total_1 total_2 iters st)
          (λ st'. (j : ℕ) → row r st' j ≡ times iters (mb1_row r total_1 total_2 j) (row r st j))
  unfolding mb1_kernel
  mb1_kernel-Iterated =
      for_up-rows r (mb1_row r total_1 total_2) (mb1_sweep r l_1 l_2 total_1 total_2) mb1_sweep-rows

  module _ (plane_1 : total_1 ≤ area r) (plane_2 : total_2 ≤ area r) where
    mb4_sweep-rows :
        (st : Memory r)
        → Ensures
            (mb4_sweep r l_1 l_2 total_1 total_2 st)
            (λ st'. (j : ℕ) → row r st' j ≡ mb4_row r total_1 total_2 j (row r st j))
    unfolding mb4_sweep
    mb4_sweep-rows st =
        Ensures-bind _ _ _ _
          (strip_while-Swept r (phase1_row r) total_1 (mb4_phase1_step r l_1)
            (λ offset avl s pos inside.
              mb4_phase1_step-Steps r law l_1 offset avl s pos (omega arith))
            (suc total_1) 0 total_1 st (omega arith) (omega arith))
          λ one p.
            Ensures-bind _ _ _ _
              (strip_while-Swept r (mb4_phase2_row r) total_2 (mb4_phase2_step r l_2)
                (λ offset avl s pos inside.
                  mb4_phase2_step-Steps r law l_2 offset avl s pos (omega arith) (omega arith))
                (suc total_2) 0 total_2 one (omega arith) (omega arith))
              λ two q.
                Ensures-weaken _ _ _
                  (strip_while-Swept r (phase3_row r) total_1 (mb4_phase3_step r l_1)
                    (λ offset avl s pos inside.
                      mb4_phase3_step-Steps r law l_1 offset avl s pos (omega arith) (omega arith))
                    (suc total_1) 0 total_1 two (omega arith) (omega arith))
                  λ st' o j.
                    o j
                    ∙ ap (on_first r total_1 (phase3_row r) j)
                        (q j ∙ ap (on_first r total_2 (mb4_phase2_row r) j) (p j))

    -- On any machine with the documented laws of the vector intrinsics, where both numbers of
    -- elements are at most LEN_1D and LEN_2D * LEN_2D, mb4 with any two LMULs returns, and on
    -- every row, once for each outer iteration, d becomes a + b below the first number, then
    -- flat_2d_array d e + c x + d below the second, then e d + flat_2d_array below the first.
    pub mb4_kernel-Iterated :
        (iters : ℕ) (st : Memory r)
        → Ensures
            (mb4_kernel r l_1 l_2 total_1 total_2 iters st)
            (λ st'. (j : ℕ) → row r st' j ≡ times iters (mb4_row r total_1 total_2 j) (row r st j))
    unfolding mb4_kernel
    mb4_kernel-Iterated =
        for_up-rows r (mb4_row r total_1 total_2) (mb4_sweep r l_1 l_2 total_1 total_2)
          mb4_sweep-rows
