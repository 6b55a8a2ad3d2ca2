-- ===== src/Dlmul/Gamma/Phases.antt =====
-- The phases of db9 and db11, lane by lane.
use vectorizer_experiments.Base.{ℕ, ◌+◌}
use vectorizer_experiments.Dlmul.Rvv.{Lmul, Rvv}
use vectorizer_experiments.Dlmul.Rvv.Lanes.{Lanes}
use vectorizer_experiments.Dlmul.Rvv.Steps.{Runs, add, mul, macc, macc_s}
use vectorizer_experiments.Dlmul.Strip.Indexed.{RowMap}
use vectorizer_experiments.Dlmul.Gamma.{db11_luma, db11_gamma, db9_total, db9_luma, db9_gamma}

module _ (r : Rvv) where
  abbrev pub db11_luma_value : r.Real → r.Real → r.Real → r.Real
  db11_luma_value red g b0 = r.fma (r.fma red (r.lit 1 2) g) (r.lit 1 4) b0

  abbrev pub db11_gamma_value : r.Real → r.Real → r.Real → r.Real → r.Real → r.Real
  db11_gamma_value y u v k0 k1 =
      let p0 = r.mul y y in
      let p1 = r.mul u u in
      let with_p1 = r.fma (r.fma y p0 k0) p1 k1 in
      let with_p3 = r.fma (r.fma with_p1 (r.lit 1 8) (r.mul v v)) (r.lit 1 16) (r.mul y u) in
      r.fma with_p3 (r.lit 1 32) (r.add p0 p1)

  abbrev pub db11_row : RowMap r
  db11_row flat j w =
      let y = db11_luma_value w.a w.b w.c in
      let gamma = db11_gamma_value y w.d w.e w.x (flat j) in
      record w { a = y; b = gamma; c = r.fma y (r.lit 1 4) gamma }

  abbrev pub db9_luma_value : r.Real → r.Real → r.Real → r.Real
  db9_luma_value red g b0 = r.fma (r.add red g) (r.lit 1 2) b0

  abbrev pub db9_gamma_value : r.Real → r.Real → r.Real → r.Real → r.Real → r.Real → r.Real
  db9_gamma_value y u v k0 k1 k2 =
      let cubed = λ (s k : r.Real). r.fma s (r.mul s s) k in
      let sum = r.add (r.add (cubed y k0) (cubed u k1)) (cubed v k2) in
      r.fma sum (r.lit 1 8) (r.mul y y)

  abbrev pub db9_row : RowMap r
  db9_row flat j w =
      let y = db9_luma_value w.a w.b w.c in
      let gamma = db9_gamma_value y w.d w.e w.x (flat j) (flat (db9_total + j)) in
      record w { a = y; b = gamma; c = r.fma y (r.lit 1 4) gamma }

module _ {r : Rvv} {l : Lmul} {offset vl : ℕ} (run : Runs r l vl) {u v w : r.Vec l}
    {f g h : ℕ → r.Real} (pu : Lanes r l offset vl u f) (pv : Lanes r l offset vl v g)
    (pw : Lanes r l offset vl w h) where
  pub db11_luma-Lanes :
      Lanes r l offset vl (db11_luma r l u v w vl) (λ j. db11_luma_value r (f j) (g j) (h j))
  unfolding db11_luma
  db11_luma-Lanes = macc_s run (r.lit 1 4) (macc_s run (r.lit 1 2) pu pv) pw

  pub db9_luma-Lanes :
      Lanes r l offset vl (db9_luma r l u v w vl) (λ j. db9_luma_value r (f j) (g j) (h j))
  unfolding db9_luma
  db9_luma-Lanes = macc_s run (r.lit 1 2) (add run pu pv) pw

  module _ {x y : r.Vec l} {f_x f_y : ℕ → r.Real} (px : Lanes r l offset vl x f_x)
      (py : Lanes r l offset vl y f_y) where
    pub db11_gamma-Lanes :
        Lanes r l offset vl
          (db11_gamma r l u v w x y vl)
          (λ j. db11_gamma_value r (f j) (g j) (h j) (f_x j) (f_y j))
    unfolding db11_gamma
    db11_gamma-Lanes =
        let p0 = mul run pu pu in
        let p1 = mul run pv pv in
        let with_p1 = macc run (macc run pu p0 px) p1 py in
        let with_p2 = macc_s run (r.lit 1 8) with_p1 (mul run pw pw) in
        let with_p3 = macc_s run (r.lit 1 16) with_p2 (mul run pu pv) in
        macc_s run (r.lit 1 32) with_p3 (add run p0 p1)

    pub db9_gamma-Lanes :
        {z : r.Vec l} {f_z : ℕ → r.Real}
        → Lanes r l offset vl z f_z
        → Lanes r l offset vl
            (db9_gamma r l u v w x y z vl)
            (λ j. db9_gamma_value r (f j) (g j) (h j) (f_x j) (f_y j) (f_z j))
    unfolding db9_gamma
    db9_gamma-Lanes pz =
        let y2 = mul run pu pu in
        let p0 = macc run pu y2 px in
        let p1 = macc run pv (mul run pv pv) py in
        let p2 = macc run pw (mul run pw pw) pz in
        macc_s run (r.lit 1 8) (add run (add run p0 p1) p2) y2
