-- ===== src/Dlmul/Inputs/Loaded.antt =====
-- The loaded inputs, lane by lane.
use vectorizer_experiments.Base.{ℕ, ◌+◌, ◌*◌, ◌≤◌, ◌<◌, arith, Ensures, Ensures-some}
use vectorizer_experiments.Dlmul.Rvv.{Lmul, m2, m8, Rvv, IsRvv, Memory, Row, row, area}
use vectorizer_experiments.Dlmul.Rvv.Lanes.{Lanes, vle-Lanes, plane-Lanes, load_vec-some}
use vectorizer_experiments.Dlmul.Bench.Chunks.{vget-Lanes}
use vectorizer_experiments.Dlmul.Inputs.{Inputs, load_inputs, parts}

-- The inputs of one row: the row itself, and the planes of the flat array.
abbrev pub inputs_at : (r : Rvv) → ℕ → (ℕ → r.Real) → ℕ → Row r → Inputs r.Real
inputs_at r total flat j w = record {
  va = w.a;
  vb = w.b;
  vc = w.c;
  vd = w.d;
  ve = w.e;
  vx = w.x;
  f0 = flat j;
  f1 = flat (total + j);
  f2 = flat (2 * total + j);
  f3 = flat (3 * total + j);
  f4 = flat (4 * total + j);
  f5 = flat (5 * total + j);
}

pub record InputLanes (r : Rvv) (l : Lmul) (offset vl : ℕ) (i : Inputs (r.Vec l))
    (h : ℕ → Inputs r.Real) : Type 0 where
  pub va : Lanes r l offset vl i.va (λ j. (h j).va)
  pub vb : Lanes r l offset vl i.vb (λ j. (h j).vb)
  pub vc : Lanes r l offset vl i.vc (λ j. (h j).vc)
  pub vd : Lanes r l offset vl i.vd (λ j. (h j).vd)
  pub ve : Lanes r l offset vl i.ve (λ j. (h j).ve)
  pub vx : Lanes r l offset vl i.vx (λ j. (h j).vx)
  pub f0 : Lanes r l offset vl i.f0 (λ j. (h j).f0)
  pub f1 : Lanes r l offset vl i.f1 (λ j. (h j).f1)
  pub f2 : Lanes r l offset vl i.f2 (λ j. (h j).f2)
  pub f3 : Lanes r l offset vl i.f3 (λ j. (h j).f3)
  pub f4 : Lanes r l offset vl i.f4 (λ j. (h j).f4)
  pub f5 : Lanes r l offset vl i.f5 (λ j. (h j).f5)

module _ (r : Rvv) (law : IsRvv r) (l : Lmul) (total offset avl : ℕ) (fits : avl ≤ r.vlmax l)
    (inside : offset + avl ≤ total) (room : total ≤ r.len_1d) (planes : 6 * total ≤ area r) where
  pub load_inputs-Ensures :
      (st : Memory r)
      → Ensures (load_inputs r l total offset avl st) (λ i.
        InputLanes r l offset avl i (λ j. inputs_at r total st.flat_2d_array j (row r st j)))
  unfolding load_inputs
  load_inputs-Ensures st =
      let from = load_vec-some r l r.len_1d offset avl (omega arith) in
      let plane = λ (base : ℕ) (le : base + total ≤ area r).
        load_vec-some r l (area r) (base + offset) avl (omega arith) st.flat_2d_array in
      let same = λ (arr : ℕ → r.Real). vle-Lanes r law l offset avl fits arr in
      let flat = λ (base : ℕ). plane-Lanes r law l offset avl fits st.flat_2d_array base in
      rw
        (
          from st.a,
          from st.b,
          from st.c,
          from st.d,
          from st.e,
          from st.x,
          load_vec-some r l (area r) offset avl (omega arith) st.flat_2d_array,
          plane total (omega arith),
          plane (2 * total) (omega arith),
          plane (3 * total) (omega arith),
          plane (4 * total) (omega arith),
          plane (5 * total) (omega arith),
        )
        (Ensures-some _ _ (record {
          va = same st.a;
          vb = same st.b;
          vc = same st.c;
          vd = same st.d;
          ve = same st.e;
          vx = same st.x;
          f0 = same st.flat_2d_array;
          f1 = flat total;
          f2 = flat (2 * total);
          f3 = flat (3 * total);
          f4 = flat (4 * total);
          f5 = flat (5 * total);
        }))

module _ (r : Rvv) (law : IsRvv r) (offset avl : ℕ) where
  -- The parts of the inputs, in the quarter k.
  pub parts-InputLanes :
      (i : Inputs (r.Vec m8)) (h : ℕ → Inputs r.Real) (k vlc : ℕ)
      → InputLanes r m8 offset avl i h
      → k < 4
      → vlc ≤ r.vlmax m2
      → k * r.vlmax m2 + vlc ≤ avl
      → InputLanes r m2 (offset + k * r.vlmax m2) vlc (parts r m8 i k) h
  unfolding parts
  parts-InputLanes i h k vlc p lt few le =
      let part : (v : r.Vec m8) (g : ℕ → r.Real)
          → Lanes r m8 offset avl v g
          → Lanes r m2 (offset + k * r.vlmax m2) vlc (r.vget m8 m2 v k) g =
        λ v g q. vget-Lanes r law m8 m2 4 law.vlmax-m8 offset avl v g k vlc q lt few le in
      record {
        va = part _ _ p.va;
        vb = part _ _ p.vb;
        vc = part _ _ p.vc;
        vd = part _ _ p.vd;
        ve = part _ _ p.ve;
        vx = part _ _ p.vx;
        f0 = part _ _ p.f0;
        f1 = part _ _ p.f1;
        f2 = part _ _ p.f2;
        f3 = part _ _ p.f3;
        f4 = part _ _ p.f4;
        f5 = part _ _ p.f5;
      }
