-- ===== src/Dlmul/Inputs.antt =====
-- The twelve vectors that the benches db2, db7 and db8 of emulator/run/src/dlmul-synthesis/bench load: the six
-- arrays at `offset`, and six planes of `flat_2d_array`, each of as many elements as the bench sweeps.
pub mod Loaded
use vectorizer_experiments.Base.{ℕ, ◌+◌, ◌*◌, Option, some, ◌>>=◌}
use vectorizer_experiments.Dlmul.Rvv.{Lmul, m2, Rvv, Memory, Row, area, load_vec}

pub record Inputs (A : Type 0) : Type 0 where
  pub va : A
  pub vb : A
  pub vc : A
  pub vd : A
  pub ve : A
  pub vx : A
  pub f0 : A
  pub f1 : A
  pub f2 : A
  pub f3 : A
  pub f4 : A
  pub f5 : A

unfoldable pub load_inputs : (r : Rvv) (l : Lmul) → ℕ → ℕ → ℕ → Memory r → Option (Inputs (r.Vec l))
load_inputs r l total offset avl st = do
  va ← load_vec r l r.len_1d st.a offset avl
  vb ← load_vec r l r.len_1d st.b offset avl
  vc ← load_vec r l r.len_1d st.c offset avl
  vd ← load_vec r l r.len_1d st.d offset avl
  ve ← load_vec r l r.len_1d st.e offset avl
  vx ← load_vec r l r.len_1d st.x offset avl
  f0 ← load_vec r l (area r) st.flat_2d_array offset avl
  f1 ← load_vec r l (area r) st.flat_2d_array (total + offset) avl
  f2 ← load_vec r l (area r) st.flat_2d_array (2 * total + offset) avl
  f3 ← load_vec r l (area r) st.flat_2d_array (3 * total + offset) avl
  f4 ← load_vec r l (area r) st.flat_2d_array (4 * total + offset) avl
  f5 ← load_vec r l (area r) st.flat_2d_array (5 * total + offset) avl
  some (record {
    va = va;
    vb = vb;
    vc = vc;
    vd = vd;
    ve = ve;
    vx = vx;
    f0 = f0;
    f1 = f1;
    f2 = f2;
    f3 = f3;
    f4 = f4;
    f5 = f5;
  })

-- xa, xb, ..., x5: the part k of every vector, that a chunk works on.
unfoldable pub parts : (r : Rvv) (big : Lmul) → Inputs (r.Vec big) → ℕ → Inputs (r.Vec m2)
parts r big i k =
    let part = r.vget big m2 in
    record {
      va = part i.va k;
      vb = part i.vb k;
      vc = part i.vc k;
      vd = part i.vd k;
      ve = part i.ve k;
      vx = part i.vx k;
      f0 = part i.f0 k;
      f1 = part i.f1 k;
      f2 = part i.f2 k;
      f3 = part i.f3 k;
      f4 = part i.f4 k;
      f5 = part i.f5 k;
    }
