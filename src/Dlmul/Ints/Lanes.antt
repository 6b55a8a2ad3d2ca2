-- ===== src/Dlmul/Ints/Lanes.antt =====
-- Vectors of integers lane by lane: lane i of a vector that belongs to `offset` speaks of index offset + i.
use vectorizer_experiments.Base.{
  ℕ, ◌+◌, ◌-◌, ◌*◌, ◌≤◌, ◌<◌, ◌≡◌, ◌∙◌, ap, inl, inr, arith, some, Bool-cases, if◌then◌else◌,
}
use vectorizer_experiments.Dlmul.Rvv.{Lmul, Rvv, touched}
use vectorizer_experiments.Dlmul.Ints.{
  IntRvv, IsIntRvv, IsNarrow, wide, extend, word, load_short, load_word, store_word,
}

-- The first `vl` lanes hold the values of h from `offset` on.
pub record Shorts (n : IntRvv) (l : Lmul) (offset vl : ℕ) (v : n.Short l) (h : ℕ → ℕ) : Type 0 where
  pub at_lane : (i : ℕ) → i < vl → n.short_lane l v i ≡ h (offset + i)

pub record Words (n : IntRvv) (l : Lmul) (offset vl : ℕ) (v : n.Word l) (h : ℕ → ℕ) : Type 0 where
  pub at_lane : (i : ℕ) → i < vl → n.word_lane l v i ≡ h (offset + i)

-- The operations run with `vl` lanes, which the group has.
pub record RunsShort (r : Rvv) (n : IntRvv) (l : Lmul) (vl : ℕ) : Type 0 where
  pub law : IsIntRvv r n
  pub narrow : IsNarrow l
  pub fits : vl ≤ n.vlmax16 l

pub record RunsWord (r : Rvv) (n : IntRvv) (l : Lmul) (vl : ℕ) : Type 0 where
  pub law : IsIntRvv r n
  pub fits : vl ≤ r.vlmax l

module _ {r : Rvv} {n : IntRvv} {l : Lmul} {offset vl : ℕ} where
  pub vle16-Shorts :
      (run : RunsShort r n l vl) (arr : ℕ → ℕ) → Shorts n l offset vl (n.vle16 l arr offset vl) arr
  vle16-Shorts run arr = record {
    at_lane = λ i lt. run.law.vle16-lane l arr offset vl i run.fits lt;
  }

  pub vle32-Words :
      (run : RunsWord r n l vl) (arr : ℕ → ℕ) → Words n l offset vl (n.vle32 l arr offset vl) arr
  vle32-Words run arr = record {
    at_lane = λ i lt. run.law.vle32-lane l arr offset vl i run.fits lt;
  }

  module _ {u v : n.Short l} {f g : ℕ → ℕ} (run : RunsShort r n l vl) (p : Shorts n l offset vl u f)
      (q : Shorts n l offset vl v g) where
    pub wadd :
        Words n (wide l) offset vl (n.vwadd_vv l u v vl) (λ j. word (extend (f j) + extend (g j)))
    wadd = record {
      at_lane = λ i lt.
          rw (
            run.law.vwadd_vv-lane l u v vl i run.narrow run.fits lt,
            p.at_lane i lt,
            q.at_lane i lt,
          );
    }

    pub wmul :
        Words n (wide l) offset vl (n.vwmul_vv l u v vl) (λ j. word (extend (f j) * extend (g j)))
    wmul = record {
      at_lane = λ i lt.
          rw (
            run.law.vwmul_vv-lane l u v vl i run.narrow run.fits lt,
            p.at_lane i lt,
            q.at_lane i lt,
          );
    }

  pub plus :
      {u v : n.Word l} {f g : ℕ → ℕ} (run : RunsWord r n l vl)
      → Words n l offset vl u f
      → Words n l offset vl v g
      → Words n l offset vl (n.vadd_vv l u v vl) (λ j. word (f j + g j))
  plus {u} {v} run p q = record {
    at_lane =
        λ i lt. rw (run.law.vadd_vv-lane l u v vl i run.fits lt, p.at_lane i lt, q.at_lane i lt);
  }

  -- A stored vector, at every index.
  pub vse32-Words :
      (run : RunsWord r n l vl) (arr : ℕ → ℕ) {v : n.Word l} {h : ℕ → ℕ}
      → Words n l offset vl v h
      → (j : ℕ) → n.vse32 l arr offset v vl j ≡ (if touched offset vl j then h j else arr j)
  vse32-Words run arr {v} {h} p j =
      run.law.vse32-lane l arr offset v vl j run.fits ∙ elim (Bool-cases (touched offset vl j)) [
        | inl inside ↦
            let back : offset + (j - offset) ≡ j = ground arith in
            let lane_lt : j - offset < vl = ground arith in
            rw inside (p.at_lane (j - offset) lane_lt ∙ ap h back)
        | inr outside ↦ rw outside
      ]

module _ (n : IntRvv) (l : Lmul) (len offset vl : ℕ) (inside : offset + vl ≤ len) where
  pub load_short-some :
      (arr : ℕ → ℕ) → load_short n l len arr offset vl ≡ some (n.vle16 l arr offset vl)
  unfolding load_short
  load_short-some arr = ground arith

  pub load_word-some :
      (arr : ℕ → ℕ) → load_word n l len arr offset vl ≡ some (n.vle32 l arr offset vl)
  unfolding load_word
  load_word-some arr = ground arith

  pub store_word-some :
      (arr : ℕ → ℕ) (v : n.Word l)
      → store_word n l len arr offset v vl ≡ some (n.vse32 l arr offset v vl)
  unfolding store_word
  store_word-some arr v = ground arith
