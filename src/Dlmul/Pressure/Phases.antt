-- ===== src/Dlmul/Pressure/Phases.antt =====
-- The phases of db2, db7 and db8, lane by lane, in a whole group and part by part.
use vectorizer_experiments.Base.{ℕ, zero, suc, ◌+◌, ◌*◌, ◌≤◌, ◌<◌}
use vectorizer_experiments.Dlmul.Rvv.{Lmul, m2, m8, Rvv, IsRvv}
use vectorizer_experiments.Dlmul.Rvv.Lanes.{Lanes}
use vectorizer_experiments.Dlmul.Rvv.Steps.{Runs, add, mul, macc, macc_s}
use vectorizer_experiments.Dlmul.Strip.Sweep.{times}
use vectorizer_experiments.Dlmul.Bench.{chunks}
use vectorizer_experiments.Dlmul.Bench.Chunks.{IsGreedy, vget-Lanes, chunks-Lanes}
use vectorizer_experiments.Dlmul.Inputs.{Inputs, parts}
use vectorizer_experiments.Dlmul.Inputs.Loaded.{InputLanes, parts-InputLanes}
use vectorizer_experiments.Dlmul.Pressure.{
  pressure_phase, db2_front, db7_front, db7_phase, db8_next,
}

module _ (r : Rvv) where
  abbrev pub pressure_value : r.Real → r.Real → Inputs r.Real → r.Real
  pressure_value u v i =
      let with_cd = r.fma (r.add u v) i.vc i.vd in
      let with_ex = r.fma with_cd i.ve i.vx in
      let with_01 = r.fma with_ex i.f0 i.f1 in
      let with_23 = r.fma with_01 i.f2 i.f3 in r.fma with_23 i.f4 i.f5

  abbrev pub db2_front_value : Inputs r.Real → r.Real
  db2_front_value i = r.mul (r.fma (r.add i.va i.vb) (r.lit 3 8) i.vc) i.vd

  abbrev pub db7_front_value : Inputs r.Real → r.Real
  db7_front_value i = r.fma (r.add i.va i.vb) (r.lit 3 16) i.vc

  abbrev pub db7_value : r.Real → Inputs r.Real → r.Real
  db7_value u i =
      let acc0 = r.fma (r.mul u i.vb) i.f2 i.f3 in
      let acc1 = r.fma (r.mul i.vc i.vd) i.f4 i.f5 in
      let acc2 = r.fma (r.mul i.ve i.vx) u i.vd in
      let acc3 = r.fma (r.mul i.f0 i.f1) i.vc i.vx in r.add (r.add (r.add acc0 acc1) acc2) acc3

module _ {r : Rvv} {l : Lmul} {offset vl : ℕ} (run : Runs r l vl) {i : Inputs (r.Vec l)}
    {h : ℕ → Inputs r.Real} (p : InputLanes r l offset vl i h) where
  pub db2_front-Lanes : Lanes r l offset vl (db2_front r l i vl) (λ j. db2_front_value r (h j))
  unfolding db2_front
  db2_front-Lanes = mul run (macc_s run (r.lit 3 8) (add run p.va p.vb) p.vc) p.vd

  pub db7_front-Lanes : Lanes r l offset vl (db7_front r l i vl) (λ j. db7_front_value r (h j))
  unfolding db7_front
  db7_front-Lanes = macc_s run (r.lit 3 16) (add run p.va p.vb) p.vc

  module _ {u : r.Vec l} {f : ℕ → r.Real} (pu : Lanes r l offset vl u f) where
    pub pressure_phase-Lanes :
        {v : r.Vec l} {g : ℕ → r.Real}
        → Lanes r l offset vl v g
        → Lanes r l offset vl
            (pressure_phase r l u v i vl)
            (λ j. pressure_value r (f j) (g j) (h j))
    unfolding pressure_phase
    pressure_phase-Lanes pv =
        let with_cd = macc run (add run pu pv) p.vc p.vd in
        let with_ex = macc run with_cd p.ve p.vx in
        let with_01 = macc run with_ex p.f0 p.f1 in
        let with_23 = macc run with_01 p.f2 p.f3 in macc run with_23 p.f4 p.f5

    pub db7_phase-Lanes : Lanes r l offset vl (db7_phase r l u i vl) (λ j. db7_value r (f j) (h j))
    unfolding db7_phase
    db7_phase-Lanes =
        let acc0 = macc run (mul run pu p.vb) p.f2 p.f3 in
        let acc1 = macc run (mul run p.vc p.vd) p.f4 p.f5 in
        let acc2 = macc run (mul run p.ve p.vx) pu p.vd in
        let acc3 = macc run (mul run p.f0 p.f1) p.vc p.vx in
        add run (add run (add run acc0 acc1) acc2) acc3

-- A repeated step on the vectors is a repeated step on the lanes.
pub times-Lanes :
    (r : Rvv) (l : Lmul) (offset vl : ℕ) (step : r.Vec l → r.Vec l) (value : ℕ → r.Real → r.Real)
    → ((v : r.Vec l) (g : ℕ → r.Real)
        → Lanes r l offset vl v g
        → Lanes r l offset vl (step v) (λ j. value j (g j)))
    → (repeats : ℕ) (v : r.Vec l) (g : ℕ → r.Real) → Lanes r l offset vl v g
    → Lanes r l offset vl (times repeats step v) (λ j. times repeats (value j) (g j))
unfolding times
times-Lanes r l offset vl step value ok zero v g p = p
times-Lanes r l offset vl step value ok (suc n) v g p =
    ok _ _ (times-Lanes r l offset vl step value ok n v g p)

module _ (r : Rvv) (law : IsRvv r) (greedy : IsGreedy r) (offset avl : ℕ) (fits : avl ≤ r.vlmax m8)
    {i : Inputs (r.Vec m8)} {h : ℕ → Inputs r.Real} (p : InputLanes r m8 offset avl i h) where
  part-Lanes :
      {v : r.Vec m8} {f : ℕ → r.Real}
      → Lanes r m8 offset avl v f
      → (k vlc : ℕ) → k < 4
      → vlc ≤ r.vlmax m2
      → k * r.vlmax m2 + vlc ≤ avl
      → Lanes r m2 (offset + k * r.vlmax m2) vlc (r.vget m8 m2 v k) f
  part-Lanes {v} {f} q k vlc lt few le =
      vget-Lanes r law m8 m2 4 law.vlmax-m8 offset avl v f k vlc q lt few le

  module _ {u : r.Vec m8} {f : ℕ → r.Real} (pu : Lanes r m8 offset avl u f) where
    pub db8_next-Lanes :
        {v : r.Vec m8} {g : ℕ → r.Real}
        → Lanes r m8 offset avl v g
        → Lanes r m8 offset avl (db8_next r u i avl v) (λ j. pressure_value r (f j) (g j) (h j))
    unfolding db8_next
    db8_next-Lanes pv =
        chunks-Lanes r law m8 4 law.vlmax-m8 offset avl greedy fits _ _ λ k vlc lt start few le.
          pressure_phase-Lanes (record { law = law; fits = few })
            (parts-InputLanes r law offset avl i h k vlc p lt few le)
            (part-Lanes pu k vlc lt few le) (part-Lanes pv k vlc lt few le)

    -- The middle phase of db2, whose second operand is b itself.
    pub pressure_chunks-Lanes :
        Lanes r m8 offset avl
          (chunks r m8 4 avl (λ k vlc.
            let part = parts r m8 i k in pressure_phase r m2 (r.vget m8 m2 u k) part.vb part vlc))
          (λ j. pressure_value r (f j) ((h j).vb) (h j))
    pressure_chunks-Lanes =
        chunks-Lanes r law m8 4 law.vlmax-m8 offset avl greedy fits _ _ λ k vlc lt start few le.
          let part = parts-InputLanes r law offset avl i h k vlc p lt few le in
          pressure_phase-Lanes (record { law = law; fits = few }) part
            (part-Lanes pu k vlc lt few le) part.vb

    pub db7_chunks-Lanes :
        Lanes r m8 offset avl
          (chunks r m8 4 avl (λ k vlc. db7_phase r m2 (r.vget m8 m2 u k) (parts r m8 i k) vlc))
          (λ j. db7_value r (f j) (h j))
    db7_chunks-Lanes =
        chunks-Lanes r law m8 4 law.vlmax-m8 offset avl greedy fits _ _ λ k vlc lt start few le.
          db7_phase-Lanes (record { law = law; fits = few })
            (parts-InputLanes r law offset avl i h k vlc p lt few le)
            (part-Lanes pu k vlc lt few le)
