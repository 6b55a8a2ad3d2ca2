-- ===== src/Dlmul/Live/Rows.antt =====
-- The rows of mb8.
use vectorizer_experiments.Base.{
  ℕ, ◌+◌, ◌≤◌, ◌<◌, ◌≡◌, inl, inr, arith, leb, Option, some, Bool, true, false, Bool-cases,
  if◌then◌else◌, Ensures, Ensures-some, Ensures-bind,
}
use vectorizer_experiments.Dlmul.Rvv.{Lmul, Rvv, IsRvv, Memory, Row, row, touched, area, load_vec}
use vectorizer_experiments.Dlmul.Rvv.Lanes.{
  Lanes, vfadd_vv-Lanes, vfmacc_vv-Lanes, vse-Lanes, load_vec-some,
}
use vectorizer_experiments.Dlmul.Strip.Sweep.{Swept, times}
use vectorizer_experiments.Dlmul.Micro.Steps.{
  Steps, loaded, vl, fits, le, load-some, store-some, Steps-some, kernel-Swept,
}
use vectorizer_experiments.Dlmul.Live.{
  Mb8Class, class_1, class_2, mb8_pair, mb8_block_4, mb8_block_8, mb8_block_12, mb8_step,
  mb8_kernel,
}

abbrev pub pair_value : (r : Rvv) → Mb8Class → r.Real → r.Real → r.Real → r.Real
pair_value r class_1 s u v = r.add (r.add s u) v
pair_value r class_2 s u v = r.fma s u v

abbrev pub block_4_value : (r : Rvv) → Mb8Class → Row r → r.Real → r.Real
block_4_value r class w s = pair_value r class s w.c w.d

abbrev pub block_8_value : (r : Rvv) → Mb8Class → Row r → r.Real → r.Real
block_8_value r class w s = pair_value r class (pair_value r class s w.e w.x) w.aa w.bb

abbrev pub block_12_value : (r : Rvv) → Mb8Class → Row r → r.Real → r.Real
block_12_value r class w s = pair_value r class (pair_value r class s w.cc w.tt) w.flat_2d_array w.a

abbrev pub when : {A : Type 0} → Bool → (A → A) → A → A
when test f v = if test then f v else v

abbrev pub mb8_row : (r : Rvv) → Mb8Class → ℕ → Row r → Row r
mb8_row r class k w = record w {
  a = when (leb 12 k) (block_12_value r class w) (
      when (leb 8 k) (block_8_value r class w)
        (when (leb 4 k) (block_4_value r class w) (r.add w.a w.b)));
}

module _ (r : Rvv) (law : IsRvv r) (l : Lmul) (class : Mb8Class) (offset avl : ℕ) (st : Memory r)
    (pos : 0 < avl) (bound : offset + avl ≤ r.len_1d) (plane : offset + avl ≤ area r) where
  abbrev lanes : ℕ
  lanes = vl r law l offset avl st pos bound

  abbrev full : lanes ≤ r.vlmax l
  full = fits r law l offset avl st pos bound

  -- A vector whose lanes are given by a function on rows.
  abbrev RowLanes : (Row r → r.Real) → r.Vec l → Type 0
  RowLanes g v = Lanes r l offset lanes v (λ j. g (row r st j))

  load_1d :
      (arr : ℕ → r.Real) → load_vec r l r.len_1d arr offset lanes ≡ some (r.vle l arr offset lanes)
  load_1d arr = load-some r law l offset avl st pos bound arr

  load_2d :
      (arr : ℕ → r.Real) → load_vec r l (area r) arr offset lanes ≡ some (r.vle l arr offset lanes)
  load_2d arr =
      load_vec-some r l (area r) offset lanes (omega (arith, le r law l offset avl st pos bound))
        arr

  pair-Lanes :
      (class' : Mb8Class) (out u v : r.Vec l) (f g h : ℕ → r.Real)
      → Lanes r l offset lanes out f
      → Lanes r l offset lanes u g
      → Lanes r l offset lanes v h
      → Lanes r l offset lanes
          (mb8_pair r l class' out u v lanes)
          (λ j. pair_value r class' (f j) (g j) (h j))
  unfolding mb8_pair
  pair-Lanes class_1 out u v f g h o p q =
      vfadd_vv-Lanes r law l offset lanes full _ _ _ _
        (vfadd_vv-Lanes r law l offset lanes full _ _ _ _ o p) q
  pair-Lanes class_2 out u v f g h o p q =
      vfmacc_vv-Lanes r law l offset lanes full _ _ _ _ _ _ o p q

  block_4-Lanes :
      (out : r.Vec l) (g : Row r → r.Real)
      → RowLanes g out
      → Ensures
          (mb8_block_4 r l class offset lanes st out)
          (RowLanes λ w. block_4_value r class w (g w))
  unfolding mb8_block_4
  block_4-Lanes out g o =
      let ld = loaded r law l offset lanes full in
      rw (load_1d st.c, load_1d st.d)
        (Ensures-some _ _ (pair-Lanes class _ _ _ _ _ _ o (ld st.c) (ld st.d)))

  block_8-Lanes :
      (out : r.Vec l) (g : Row r → r.Real)
      → RowLanes g out
      → Ensures
          (mb8_block_8 r l class offset lanes st out)
          (RowLanes λ w. block_8_value r class w (g w))
  unfolding mb8_block_8
  block_8-Lanes out g o =
      let ld = loaded r law l offset lanes full in
      rw (load_1d st.e, load_1d st.x, load_2d st.aa, load_2d st.bb)
        (Ensures-some _ _ (
          pair-Lanes class _ _ _ _ _ _ (pair-Lanes class _ _ _ _ _ _ o (ld st.e) (ld st.x))
            (ld st.aa) (ld st.bb)))

  block_12-Lanes :
      (out : r.Vec l) (g : Row r → r.Real)
      → RowLanes g out
      → Ensures
          (mb8_block_12 r l class offset lanes st out)
          (RowLanes λ w. block_12_value r class w (g w))
  unfolding mb8_block_12
  block_12-Lanes out g o =
      let ld = loaded r law l offset lanes full in
      rw (load_2d st.cc, load_2d st.tt, load_2d st.flat_2d_array, load_1d st.a)
        (Ensures-some _ _ (
          pair-Lanes class _ _ _ _ _ _ (pair-Lanes class _ _ _ _ _ _ o (ld st.cc) (ld st.tt))
            (ld st.flat_2d_array) (ld st.a)))

  -- A block that a test of MB8_K puts in.
  when-Lanes :
      (test : Bool) (block : r.Vec l → Option (r.Vec l)) (f : Row r → r.Real → r.Real)
      → ((out : r.Vec l) (g : Row r → r.Real)
          → RowLanes g out
          → Ensures (block out) (RowLanes λ w. f w (g w)))
      → (out : r.Vec l) (g : Row r → r.Real) → RowLanes g out
      → Ensures (if test then block out else some out) (RowLanes λ w. when test (f w) (g w))
  when-Lanes true block f ok out g o = ok out g o
  when-Lanes false block f ok out g o = Ensures-some _ _ o

  mb8_step-Steps :
      (k : ℕ)
      → Ensures (mb8_step r l class k offset avl st) (Steps r (mb8_row r class k) offset avl st)
  unfolding mb8_step
  mb8_step-Steps k =
      let ld = loaded r law l offset lanes full in
      let g4 = λ (w : Row r). when (leb 4 k) (block_4_value r class w) (r.add w.a w.b) in
      let g8 = λ (w : Row r). when (leb 8 k) (block_8_value r class w) (g4 w) in
      let sum = vfadd_vv-Lanes r law l offset lanes full _ _ _ _ (ld st.a) (ld st.b) in
      rw (load_1d st.a, load_1d st.b)
        (Ensures-bind _ _ _ _
          (when-Lanes (leb 4 k) (mb8_block_4 r l class offset lanes st) (block_4_value r class)
            block_4-Lanes _ (λ w. r.add w.a w.b) sum)
          λ v4 p4.
            Ensures-bind _ _ _ _
              (when-Lanes (leb 8 k) (mb8_block_8 r l class offset lanes st) (block_8_value r class)
                block_8-Lanes v4 g4 p4)
              λ v8 p8.
                Ensures-bind _ _ _ _
                  (when-Lanes (leb 12 k) (mb8_block_12 r l class offset lanes st)
                    (block_12_value r class) block_12-Lanes v8 g8 p8)
                  λ v12 p12. rw (store-some r law l offset avl st pos bound st.a v12) (
                    Steps-some r law l offset avl st pos bound (mb8_row r class k) _ λ j.
                      rw (vse-Lanes r law l offset lanes full st.a _ _ p12 j)
                        (elim (Bool-cases (touched offset lanes j)) [
                          | inl e ↦ rw e
                          | inr e ↦ rw e
                        ])))

-- On any machine with the documented laws of the vector intrinsics, with at most LEN_1D and LEN_2D *
-- LEN_2D elements, mb8 of class 1 or 2 with any LMUL and number of temporaries returns; on each of
-- the rows of the elements, once for each outer iteration, a becomes a + b with the terms of the
-- blocks for 4, 8 and 12 temporaries that are in, added one by one or multiplied in pairs, and no row
-- behind the elements changes.
pub mb8_kernel-Swept :
    (r : Rvv) (law : IsRvv r) (l : Lmul) (class : Mb8Class) (k total iters : ℕ) (st : Memory r)
    → total ≤ r.len_1d
    → total ≤ area r
    → Ensures
        (mb8_kernel r l class k total iters st)
        (Swept r (times iters (mb8_row r class k)) 0 total st)
unfolding mb8_kernel
mb8_kernel-Swept r law l class k total iters st room plane =
    kernel-Swept r law l (mb8_row r class k) (mb8_step r l class k) total iters
      (λ offset avl s pos inside.
        mb8_step-Steps r law l class offset avl s pos (omega arith) (omega arith) k)
      st
