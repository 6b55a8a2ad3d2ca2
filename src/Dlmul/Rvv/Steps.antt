-- ===== src/Dlmul/Rvv/Steps.antt =====
-- The lanes of each vector operation, from those of its operands: what the proofs on straight-line
-- vector code are built from.
use vectorizer_experiments.Base.{ℕ, ◌≤◌}
use vectorizer_experiments.Dlmul.Rvv.{Lmul, Rvv, IsRvv}
use vectorizer_experiments.Dlmul.Rvv.Lanes.{
  Lanes, vfadd_vv-Lanes, vfmul_vv-Lanes, vfadd_vf-Lanes, vfmul_vf-Lanes, vfmacc_vv-Lanes,
  vfmacc_vf-Lanes, vfsqrt_v-Lanes, vfrdiv_vf-Lanes,
}

-- The operations run with `vl` lanes, which the group has.
pub record Runs (r : Rvv) (l : Lmul) (vl : ℕ) : Type 0 where
  pub law : IsRvv r
  pub fits : vl ≤ r.vlmax l

module _ {r : Rvv} {l : Lmul} {offset vl : ℕ} (run : Runs r l vl) {u : r.Vec l}
    {f : ℕ → r.Real} where
  pub add_s :
      (s : r.Real)
      → Lanes r l offset vl u f
      → Lanes r l offset vl (r.vfadd_vf l u s vl) (λ j. r.add (f j) s)
  add_s s p = vfadd_vf-Lanes r run.law l offset vl run.fits u s f p

  pub mul_s :
      (s : r.Real)
      → Lanes r l offset vl u f
      → Lanes r l offset vl (r.vfmul_vf l u s vl) (λ j. r.mul (f j) s)
  mul_s s p = vfmul_vf-Lanes r run.law l offset vl run.fits u s f p

  pub root : Lanes r l offset vl u f → Lanes r l offset vl (r.vfsqrt_v l u vl) (λ j. r.sqrt (f j))
  root p = vfsqrt_v-Lanes r run.law l offset vl run.fits u f p

  pub over :
      (s : r.Real)
      → Lanes r l offset vl u f
      → Lanes r l offset vl (r.vfrdiv_vf l u s vl) (λ j. r.div s (f j))
  over s p = vfrdiv_vf-Lanes r run.law l offset vl run.fits u s f p

  module _ {v : r.Vec l} {g : ℕ → r.Real} where
    pub add :
        Lanes r l offset vl u f
        → Lanes r l offset vl v g
        → Lanes r l offset vl (r.vfadd_vv l u v vl) (λ j. r.add (f j) (g j))
    add p q = vfadd_vv-Lanes r run.law l offset vl run.fits u v f g p q

    pub mul :
        Lanes r l offset vl u f
        → Lanes r l offset vl v g
        → Lanes r l offset vl (r.vfmul_vv l u v vl) (λ j. r.mul (f j) (g j))
    mul p q = vfmul_vv-Lanes r run.law l offset vl run.fits u v f g p q

    pub macc_s :
        (s : r.Real)
        → Lanes r l offset vl u f
        → Lanes r l offset vl v g
        → Lanes r l offset vl (r.vfmacc_vf l u s v vl) (λ j. r.fma (f j) s (g j))
    macc_s s o q = vfmacc_vf-Lanes r run.law l offset vl run.fits u s v f g o q

    pub macc :
        {w : r.Vec l} {h : ℕ → r.Real}
        → Lanes r l offset vl u f
        → Lanes r l offset vl v g
        → Lanes r l offset vl w h
        → Lanes r l offset vl (r.vfmacc_vv l u v w vl) (λ j. r.fma (f j) (g j) (h j))
    macc {w} {h} o p q = vfmacc_vv-Lanes r run.law l offset vl run.fits u v w f g h o p q
