-- ===== src/Dlmul/Bench/Rounds.antt =====
-- One round of db5 and db10, in their fixed and their dynamic variants, changes the rows of its range.
use vectorizer_experiments.Base.{
  ℕ, ◌+◌, ◌*◌, ◌≤◌, ◌<◌, ◌≡◌, refl, inl, inr, some, Bool-cases, Ensures, Ensures-some,
}
use vectorizer_experiments.Dlmul.Rvv.{
  Lmul, m2, m8, Rvv, IsRvv, Memory, Row, row, touched, load_vec, store_vec,
}
use vectorizer_experiments.Dlmul.Rvv.Lanes.{
  Lanes, vle-Lanes, vfadd_vv-Lanes, vfmacc_vf-Lanes, vse-Lanes, load_vec-some, store_vec-some,
}
use vectorizer_experiments.Dlmul.Strip.Sweep.{Swept}
use vectorizer_experiments.Dlmul.Bench.{
  db5_phase, db5_fixed, db5_dynamic, db10_phase, db10_fixed, db10_dynamic,
}
use vectorizer_experiments.Dlmul.Bench.Chunks.{IsGreedy, vget-Lanes, chunks-Lanes}

abbrev pub db5_value : (r : Rvv) → r.Real → r.Real → r.Real → r.Real → r.Real
db5_value r u v c d = r.fma (r.fma (r.add u v) (r.lit 1 4) c) (r.lit 1 8) d

-- One sweep of db5 over one row.
abbrev pub db5_row : (r : Rvv) → Row r → Row r
db5_row r w =
    let a_out = db5_value r w.a w.b w.c w.d in
    let b_out = db5_value r a_out w.b w.c w.d in
    record w { a = a_out; b = b_out; c = db5_value r a_out b_out w.c w.d }

abbrev pub db10_value : (r : Rvv) → r.Real → r.Real → r.Real
db10_value r u v = r.fma (r.add u v) (r.lit 1 8) u

abbrev pub db10_row : (r : Rvv) → Row r → Row r
db10_row r w = record w {
  a = db10_value r w.a w.b;
  b = db10_value r w.c w.d;
  c = db10_value r w.e w.x;
}

module _ (r : Rvv) (law : IsRvv r) (l : Lmul) (offset vl : ℕ) (fits : vl ≤ r.vlmax l) where
  db5_phase-Lanes :
      (u v vc vd : r.Vec l) (f g c d : ℕ → r.Real)
      → Lanes r l offset vl u f
      → Lanes r l offset vl v g
      → Lanes r l offset vl vc c
      → Lanes r l offset vl vd d
      → Lanes r l offset vl (db5_phase r l u v vc vd vl) (λ j. db5_value r (f j) (g j) (c j) (d j))
  unfolding db5_phase
  db5_phase-Lanes u v vc vd f g c d p q pc pd =
      let sum = vfadd_vv-Lanes r law l offset vl fits _ _ _ _ p q in
      let more = vfmacc_vf-Lanes r law l offset vl fits _ (r.lit 1 4) _ _ _ sum pc in
      vfmacc_vf-Lanes r law l offset vl fits _ (r.lit 1 8) _ _ _ more pd

  db10_phase-Lanes :
      (u v : r.Vec l) (f g : ℕ → r.Real)
      → Lanes r l offset vl u f
      → Lanes r l offset vl v g
      → Lanes r l offset vl (db10_phase r l u v vl) (λ j. db10_value r (f j) (g j))
  unfolding db10_phase
  db10_phase-Lanes u v f g p q =
      vfmacc_vf-Lanes r law l offset vl fits _ (r.lit 1 8) _ _ _
        (vfadd_vv-Lanes r law l offset vl fits _ _ _ _ p q) p

  module _ (st : Memory r) (inside : offset + vl ≤ r.len_1d) where
    load-some :
        (arr : ℕ → r.Real) → load_vec r l r.len_1d arr offset vl ≡ some (r.vle l arr offset vl)
    load-some arr = load_vec-some r l r.len_1d offset vl inside arr

    store-some :
        (arr : ℕ → r.Real) (v : r.Vec l)
        → store_vec r l r.len_1d arr offset v vl ≡ some (r.vse l arr offset v vl)
    store-some arr v = store_vec-some r l r.len_1d offset vl inside arr v

    -- The three arrays that both benches store.
    stored-Swept :
        (f : Row r → Row r) (u v w : r.Vec l) (f_a f_b f_c : ℕ → r.Real)
        → Lanes r l offset vl u f_a
        → Lanes r l offset vl v f_b
        → Lanes r l offset vl w f_c
        → ((j : ℕ) → f (row r st j) ≡ record (row r st j) { a = f_a j; b = f_b j; c = f_c j })
        → Swept r f offset vl st (record st {
          a = r.vse l st.a offset u vl;
          b = r.vse l st.b offset v vl;
          c = r.vse l st.c offset w vl;
        })
    stored-Swept f u v w f_a f_b f_c pu pv pw same j =
        rw
          (
            vse-Lanes r law l offset vl fits st.a u f_a pu j,
            vse-Lanes r law l offset vl fits st.b v f_b pv j,
            vse-Lanes r law l offset vl fits st.c w f_c pw j,
            same j,
          )
          (elim (Bool-cases (touched offset vl j)) [ inl e ↦ rw e | inr e ↦ rw e ])

    pub db5_fixed-Swept : Ensures (db5_fixed r l offset vl st) (Swept r (db5_row r) offset vl st)
    unfolding db5_fixed
    db5_fixed-Swept =
        let ld = λ (arr : ℕ → r.Real). vle-Lanes r law l offset vl fits arr in
        let a_out = db5_phase-Lanes _ _ _ _ _ _ _ _ (ld st.a) (ld st.b) (ld st.c) (ld st.d) in
        let b_out = db5_phase-Lanes _ _ _ _ _ _ _ _ a_out (ld st.b) (ld st.c) (ld st.d) in
        let c_out = db5_phase-Lanes _ _ _ _ _ _ _ _ a_out b_out (ld st.c) (ld st.d) in
        rw
          (
            load-some st.a,
            load-some st.b,
            load-some st.c,
            load-some st.d,
            store-some st.a,
            store-some st.b,
            store-some st.c,
          )
          (Ensures-some _ _ (stored-Swept (db5_row r) _ _ _ _ _ _ a_out b_out c_out (λ j. refl)))

    pub db10_fixed-Swept : Ensures (db10_fixed r l offset vl st) (Swept r (db10_row r) offset vl st)
    unfolding db10_fixed
    db10_fixed-Swept =
        let ld = λ (arr : ℕ → r.Real). vle-Lanes r law l offset vl fits arr in
        rw
          (
            load-some st.a,
            load-some st.b,
            load-some st.c,
            load-some st.d,
            load-some st.e,
            load-some st.x,
            store-some st.a,
            store-some st.b,
            store-some st.c,
          )
          (Ensures-some _ _ (
            stored-Swept (db10_row r) _ _ _ _ _ _ (db10_phase-Lanes _ _ _ _ (ld st.a) (ld st.b))
              (db10_phase-Lanes _ _ _ _ (ld st.c) (ld st.d))
              (db10_phase-Lanes _ _ _ _ (ld st.e) (ld st.x)) (λ j. refl)))

module _ (r : Rvv) (law : IsRvv r) (greedy : IsGreedy r) (offset avl : ℕ) (st : Memory r)
    (fits : avl ≤ r.vlmax m8) (inside : offset + avl ≤ r.len_1d) where
  -- Lanes of a quarter, from those of the whole.
  part-Lanes :
      (v : r.Vec m8) (h : ℕ → r.Real) (k vlc : ℕ)
      → k < 4
      → vlc ≤ r.vlmax m2
      → k * r.vlmax m2 + vlc ≤ avl
      → Lanes r m8 offset avl v h
      → Lanes r m2 (offset + k * r.vlmax m2) vlc (r.vget m8 m2 v k) h
  part-Lanes v h k vlc lt few le p =
      vget-Lanes r law m8 m2 4 law.vlmax-m8 offset avl v h k vlc p lt few le

  pub db5_dynamic-Swept : Ensures (db5_dynamic r offset avl st) (Swept r (db5_row r) offset avl st)
  unfolding db5_dynamic
  db5_dynamic-Swept =
      let ld = λ (arr : ℕ → r.Real). vle-Lanes r law m8 offset avl fits arr in
      let phase = db5_phase-Lanes r law m8 offset avl fits in
      let a_out = phase _ _ _ _ _ _ _ _ (ld st.a) (ld st.b) (ld st.c) (ld st.d) in
      let b_out =
        chunks-Lanes r law m8 4 law.vlmax-m8 offset avl greedy fits _ _ λ k vlc lt start few le.
          db5_phase-Lanes r law m2 (offset + k * r.vlmax m2) vlc few _ _ _ _ _ _ _ _
            (part-Lanes _ _ k vlc lt few le a_out) (part-Lanes _ _ k vlc lt few le (ld st.b))
            (part-Lanes _ _ k vlc lt few le (ld st.c)) (part-Lanes _ _ k vlc lt few le (ld st.d)) in
      let c_out = phase _ _ _ _ _ _ _ _ a_out b_out (ld st.c) (ld st.d) in
      let loads = load-some r law m8 offset avl fits st inside in
      let stores = store-some r law m8 offset avl fits st inside in
      rw (loads st.a, loads st.b, loads st.c, loads st.d, stores st.a, stores st.b, stores st.c)
        (Ensures-some _ _ (
          stored-Swept r law m8 offset avl fits st inside (db5_row r) _ _ _ _ _ _ a_out b_out c_out
            (λ j. refl)))

  pub db10_dynamic-Swept :
      Ensures (db10_dynamic r offset avl st) (Swept r (db10_row r) offset avl st)
  unfolding db10_dynamic
  db10_dynamic-Swept =
      let ld = λ (arr : ℕ → r.Real). vle-Lanes r law m8 offset avl fits arr in
      let phase = db10_phase-Lanes r law m8 offset avl fits in
      let b_out =
        chunks-Lanes r law m8 4 law.vlmax-m8 offset avl greedy fits _ _ λ k vlc lt start few le.
          db10_phase-Lanes r law m2 (offset + k * r.vlmax m2) vlc few _ _ _ _
            (part-Lanes _ _ k vlc lt few le (ld st.c)) (part-Lanes _ _ k vlc lt few le (ld st.d)) in
      let loads = load-some r law m8 offset avl fits st inside in
      let stores = store-some r law m8 offset avl fits st inside in
      rw
        (
          loads st.a,
          loads st.b,
          loads st.c,
          loads st.d,
          loads st.e,
          loads st.x,
          stores st.a,
          stores st.b,
          stores st.c,
        )
        (Ensures-some _ _ (
          stored-Swept r law m8 offset avl fits st inside (db10_row r) _ _ _ _ _ _
            (phase _ _ _ _ (ld st.a) (ld st.b)) b_out (phase _ _ _ _ (ld st.e) (ld st.x))
            (λ j. refl)))
