-- ===== src/Dlmul/Cliff/Blocks.antt =====
-- The vectors of mb5 and mb8 in class 3, lane by lane.
use vectorizer_experiments.Base.{ℕ, inl, inr, leb, Bool-cases}
use vectorizer_experiments.Dlmul.Rvv.{Lmul, Rvv}
use vectorizer_experiments.Dlmul.Ints.{IntRvv, wide}
use vectorizer_experiments.Dlmul.Ints.Lanes.{Shorts, Words, RunsShort, wadd, wmul, plus}
use vectorizer_experiments.Dlmul.Widen.Phases.{run_wide}
use vectorizer_experiments.Dlmul.Cliff.{cliff_pair, cliff_squares, mb5_result, mb8_result}
use vectorizer_experiments.Dlmul.Cliff.Values.{pair_value, squares_value, mb5_value, mb8_value}

module _ {r : Rvv} {n : IntRvv} {l : Lmul} {offset vl : ℕ} (run : RunsShort r n l vl)
    {u v : n.Short l} {f g : ℕ → ℕ} (p : Shorts n l offset vl u f)
    (q : Shorts n l offset vl v g) where
  cliff_pair-Words :
      {w : n.Word (wide l)} {h : ℕ → ℕ}
      → Words n (wide l) offset vl w h
      → Words n (wide l) offset vl (cliff_pair n l w u v vl) (λ j. pair_value (h j) (f j) (g j))
  unfolding cliff_pair
  cliff_pair-Words o =
      let long = run_wide r n l offset vl run in
      plus long (plus long o (wadd run p q)) (wmul run p q)

  cliff_squares-Words :
      {w : n.Word (wide l)} {h : ℕ → ℕ}
      → Words n (wide l) offset vl w h
      → Words n
          (wide l)
          offset
          vl
          (cliff_squares n l w u v vl)
          (λ j. squares_value (h j) (f j) (g j))
  unfolding cliff_squares
  cliff_squares-Words o =
      let long = run_wide r n l offset vl run in
      plus long (plus long (plus long (plus long o (wadd run p p)) (wadd run q q)) (wmul run p p))
        (wmul run q q)

module _ {r : Rvv} {n : IntRvv} {l : Lmul} {offset vl : ℕ} (run : RunsShort r n l vl)
    {u v : n.Short l} {f g : ℕ → ℕ} (p : Shorts n l offset vl u f)
    (q : Shorts n l offset vl v g) where
  pub mb5_result-Words :
      (k : ℕ) → Words n (wide l) offset vl (mb5_result n l k u v vl) (λ j. mb5_value k (f j) (g j))
  unfolding mb5_result
  mb5_result-Words k =
      let out = plus (run_wide r n l offset vl run) (wadd run p q) (wmul run p q) in
      let out_4 = cliff_pair-Words run q p out in
      elim (Bool-cases (leb 4 k)) [
        | inl e ↦ elim (Bool-cases (leb 8 k)) [
          | inl e8 ↦ rw (e, e8) (cliff_squares-Words run p q out_4)
          | inr e8 ↦ rw (e, e8) out_4
        ]
        | inr e ↦ elim (Bool-cases (leb 8 k)) [
          | inl e8 ↦ rw (e, e8) (cliff_squares-Words run p q out)
          | inr e8 ↦ rw (e, e8) out
        ]
      ]

  pub mb8_result-Words :
      (k : ℕ) → Words n (wide l) offset vl (mb8_result n l k u v vl) (λ j. mb8_value k (f j) (g j))
  unfolding mb8_result
  mb8_result-Words k =
      let out_8 = mb5_result-Words k in
      let out_12 = cliff_pair-Words run q p (cliff_pair-Words run p q out_8) in
      elim (Bool-cases (leb 12 k)) [ inl e ↦ rw e out_12 | inr e ↦ rw e out_8 ]
