-- ===== src/Dlmul/Rvv/Lanes.antt =====
-- Vectors of the benches lane by lane: lane i of a vector that belongs to `offset` speaks of index
-- offset + i of the arrays.
use vectorizer_experiments.Base.{
  ℕ, ◌+◌, ◌-◌, ◌≤◌, ◌<◌, ◌≡◌, ◌∙◌, ap, inl, inr, arith, some, Bool-cases, if◌then◌else◌,
}
use vectorizer_experiments.Dlmul.Rvv.{Lmul, Rvv, IsRvv, Row, touched, load_vec, store_vec}

-- The first `vl` lanes hold the values of h from `offset` on.
pub record Lanes (r : Rvv) (l : Lmul) (offset vl : ℕ) (v : r.Vec l) (h : ℕ → r.Real) : Type 0 where
  pub at_lane : (i : ℕ) → i < vl → r.lane l v i ≡ h (offset + i)

module _ (r : Rvv) (law : IsRvv r) where
  -- `vsetvl` makes progress and asks for no lane too many.
  pub vsetvl-pos : (l : Lmul) (avl : ℕ) → 0 < avl → 0 < r.vsetvl l avl
  vsetvl-pos l avl pos = grind arith

  pub vsetvl-le_avl : (l : Lmul) (avl : ℕ) → r.vsetvl l avl ≤ avl
  vsetvl-le_avl l avl = grind arith

module _ (r : Rvv) (law : IsRvv r) (l : Lmul) (offset vl : ℕ) (fits : vl ≤ r.vlmax l) where
  pub vle-Lanes : (arr : ℕ → r.Real) → Lanes r l offset vl (r.vle l arr offset vl) arr
  vle-Lanes arr = record { at_lane = λ i lt. law.vle-lane l arr offset vl i fits lt }

  pub vfadd_vv-Lanes :
      (u v : r.Vec l) (g h : ℕ → r.Real)
      → Lanes r l offset vl u g
      → Lanes r l offset vl v h
      → Lanes r l offset vl (r.vfadd_vv l u v vl) (λ j. r.add (g j) (h j))
  vfadd_vv-Lanes u v g h p q = record {
    at_lane = λ i lt. rw (law.vfadd_vv-lane l u v vl i fits lt, p.at_lane i lt, q.at_lane i lt);
  }

  pub vfsub_vv-Lanes :
      (u v : r.Vec l) (g h : ℕ → r.Real)
      → Lanes r l offset vl u g
      → Lanes r l offset vl v h
      → Lanes r l offset vl (r.vfsub_vv l u v vl) (λ j. r.sub (g j) (h j))
  vfsub_vv-Lanes u v g h p q = record {
    at_lane = λ i lt. rw (law.vfsub_vv-lane l u v vl i fits lt, p.at_lane i lt, q.at_lane i lt);
  }

  pub vfmul_vv-Lanes :
      (u v : r.Vec l) (g h : ℕ → r.Real)
      → Lanes r l offset vl u g
      → Lanes r l offset vl v h
      → Lanes r l offset vl (r.vfmul_vv l u v vl) (λ j. r.mul (g j) (h j))
  vfmul_vv-Lanes u v g h p q = record {
    at_lane = λ i lt. rw (law.vfmul_vv-lane l u v vl i fits lt, p.at_lane i lt, q.at_lane i lt);
  }

  pub vfadd_vf-Lanes :
      (u : r.Vec l) (s : r.Real) (g : ℕ → r.Real)
      → Lanes r l offset vl u g
      → Lanes r l offset vl (r.vfadd_vf l u s vl) (λ j. r.add (g j) s)
  vfadd_vf-Lanes u s g p = record {
    at_lane = λ i lt. rw (law.vfadd_vf-lane l u s vl i fits lt, p.at_lane i lt);
  }

  pub vfmul_vf-Lanes :
      (u : r.Vec l) (s : r.Real) (g : ℕ → r.Real)
      → Lanes r l offset vl u g
      → Lanes r l offset vl (r.vfmul_vf l u s vl) (λ j. r.mul (g j) s)
  vfmul_vf-Lanes u s g p = record {
    at_lane = λ i lt. rw (law.vfmul_vf-lane l u s vl i fits lt, p.at_lane i lt);
  }

  pub vfmacc_vv-Lanes :
      (acc u v : r.Vec l) (f g h : ℕ → r.Real)
      → Lanes r l offset vl acc f
      → Lanes r l offset vl u g
      → Lanes r l offset vl v h
      → Lanes r l offset vl (r.vfmacc_vv l acc u v vl) (λ j. r.fma (f j) (g j) (h j))
  vfmacc_vv-Lanes acc u v f g h o p q = record {
    at_lane = λ i lt.
        rw (
          law.vfmacc_vv-lane l acc u v vl i fits lt,
          o.at_lane i lt,
          p.at_lane i lt,
          q.at_lane i lt,
        );
  }

  pub vfmacc_vf-Lanes :
      (acc : r.Vec l) (s : r.Real) (v : r.Vec l) (f h : ℕ → r.Real)
      → Lanes r l offset vl acc f
      → Lanes r l offset vl v h
      → Lanes r l offset vl (r.vfmacc_vf l acc s v vl) (λ j. r.fma (f j) s (h j))
  vfmacc_vf-Lanes acc s v f h o q = record {
    at_lane =
        λ i lt. rw (law.vfmacc_vf-lane l acc s v vl i fits lt, o.at_lane i lt, q.at_lane i lt);
  }

  pub vfsqrt_v-Lanes :
      (u : r.Vec l) (g : ℕ → r.Real)
      → Lanes r l offset vl u g
      → Lanes r l offset vl (r.vfsqrt_v l u vl) (λ j. r.sqrt (g j))
  vfsqrt_v-Lanes u g p = record {
    at_lane = λ i lt. rw (law.vfsqrt_v-lane l u vl i fits lt, p.at_lane i lt);
  }

  pub vfrdiv_vf-Lanes :
      (u : r.Vec l) (s : r.Real) (g : ℕ → r.Real)
      → Lanes r l offset vl u g
      → Lanes r l offset vl (r.vfrdiv_vf l u s vl) (λ j. r.div s (g j))
  vfrdiv_vf-Lanes u s g p = record {
    at_lane = λ i lt. rw (law.vfrdiv_vf-lane l u s vl i fits lt, p.at_lane i lt);
  }

  pub vfmv_v_f-Lanes : (s : r.Real) → Lanes r l offset vl (r.vfmv_v_f l s vl) (λ j. s)
  vfmv_v_f-Lanes s = record { at_lane = λ i lt. law.vfmv_v_f-lane l s vl i fits lt }

  -- A plane of a larger array: the vector that is loaded from `base + offset`.
  pub plane-Lanes :
      (arr : ℕ → r.Real) (base : ℕ)
      → Lanes r l offset vl (r.vle l arr (base + offset) vl) (λ j. arr (base + j))
  plane-Lanes arr base = record {
    at_lane = λ i lt.
        let same : base + offset + i ≡ base + (offset + i) = omega arith in
        law.vle-lane l arr (base + offset) vl i fits lt ∙ ap arr same;
  }

  -- A stored vector, at every index.
  pub vse-Lanes :
      (arr : ℕ → r.Real) (v : r.Vec l) (h : ℕ → r.Real)
      → Lanes r l offset vl v h
      → (j : ℕ) → r.vse l arr offset v vl j ≡ (if touched offset vl j then h j else arr j)
  vse-Lanes arr v h p j =
      law.vse-lane l arr offset v vl j fits ∙ elim (Bool-cases (touched offset vl j)) [
        | inl inside ↦
            let back : offset + (j - offset) ≡ j = ground arith in
            let lane_lt : j - offset < vl = ground arith in
            rw inside (p.at_lane (j - offset) lane_lt ∙ ap h back)
        | inr outside ↦ rw outside
      ]

  -- A row whose element of one array is that of a stored vector.
  pub vse-Row :
      (arr : ℕ → r.Real) (v : r.Vec l) (h : ℕ → r.Real)
      → Lanes r l offset vl v h
      → (put : r.Real → Row r) (j : ℕ)
      → put (r.vse l arr offset v vl j) ≡ (if touched offset vl j then put (h j) else put (arr j))
  vse-Row arr v h p put j = rw (vse-Lanes arr v h p j) (elim (Bool-cases (touched offset vl j)) [
    | inl inside ↦ rw inside
    | inr outside ↦ rw outside
  ])

module _ (r : Rvv) (l : Lmul) (len offset vl : ℕ) (inside : offset + vl ≤ len) where
  pub load_vec-some :
      (arr : ℕ → r.Real) → load_vec r l len arr offset vl ≡ some (r.vle l arr offset vl)
  unfolding load_vec
  load_vec-some arr = ground arith

  pub store_vec-some :
      (arr : ℕ → r.Real) (v : r.Vec l)
      → store_vec r l len arr offset v vl ≡ some (r.vse l arr offset v vl)
  unfolding store_vec
  store_vec-some arr v = ground arith
