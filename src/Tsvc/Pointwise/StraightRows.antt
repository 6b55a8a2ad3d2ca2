-- ===== src/Tsvc/Pointwise/StraightRows.antt =====
-- The rows that the iterations without a branch leave.
use vectorizer_experiments.Base.{ℕ, ◌+◌, ◌-◌, ◌*◌, ◌<◌, ◌≡◌, update, Ensures, Ensures-some, arith}
use vectorizer_experiments.Tsvc.Memory.{Floats, Memory}
use vectorizer_experiments.Tsvc.Pointwise.Rows.{row_of, RowStep, load_at, store_at}
use vectorizer_experiments.Tsvc.Straight.{
  s000_body, s1112_body, s1251_body, s1281_body, s251_body, s452_body, s1351_body, s431_body,
  s4121_body,
}
use vectorizer_experiments.Tsvc.Pointwise.{
  s000, s1112, s1251, s1281, s251, s452, s1351, s431, s4121,
}

module _ (f : Floats) (n i : ℕ) (s : Memory f) (lt : i < n) where
  pub s000_body-RowStep : Ensures (s000_body f n i s) (RowStep f (row_of f s000 n i) i s)
  unfolding s000_body update
  s000_body-RowStep =
      rw (load_at n i lt s.b, load_at n i lt s.c, store_at n i lt s.a)
        (Ensures-some _ _ λ j. ground arith)

  pub s1112_body-RowStep : Ensures (s1112_body f n i s) (RowStep f (row_of f s1112 n i) i s)
  unfolding s1112_body update
  s1112_body-RowStep =
      rw (load_at n i lt s.b, store_at n i lt s.a) (Ensures-some _ _ λ j. ground arith)

  pub s1251_body-RowStep : Ensures (s1251_body f n i s) (RowStep f (row_of f s1251 n i) i s)
  unfolding s1251_body update
  s1251_body-RowStep =
      rw
        (
          load_at n i lt s.a,
          load_at n i lt s.b,
          load_at n i lt s.c,
          load_at n i lt s.d,
          load_at n i lt s.e,
          store_at n i lt s.a,
          store_at n i lt s.b,
        )
        (Ensures-some _ _ λ j. ground arith)

  pub s1281_body-RowStep : Ensures (s1281_body f n i s) (RowStep f (row_of f s1281 n i) i s)
  unfolding s1281_body update
  s1281_body-RowStep =
      rw
        (
          load_at n i lt s.a,
          load_at n i lt s.b,
          load_at n i lt s.c,
          load_at n i lt s.d,
          load_at n i lt s.e,
          store_at n i lt s.a,
          store_at n i lt s.b,
        )
        (Ensures-some _ _ λ j. ground arith)

  pub s251_body-RowStep : Ensures (s251_body f n i s) (RowStep f (row_of f s251 n i) i s)
  unfolding s251_body update
  s251_body-RowStep =
      rw (load_at n i lt s.b, load_at n i lt s.c, load_at n i lt s.d, store_at n i lt s.a)
        (Ensures-some _ _ λ j. ground arith)

  pub s452_body-RowStep : Ensures (s452_body f n i s) (RowStep f (row_of f s452 n i) i s)
  unfolding s452_body update
  s452_body-RowStep =
      rw (load_at n i lt s.b, load_at n i lt s.c, store_at n i lt s.a)
        (Ensures-some _ _ λ j. ground arith)

  pub s1351_body-RowStep : Ensures (s1351_body f n i s) (RowStep f (row_of f s1351 n i) i s)
  unfolding s1351_body update
  s1351_body-RowStep =
      rw (load_at n i lt s.b, load_at n i lt s.c, store_at n i lt s.a)
        (Ensures-some _ _ λ j. ground arith)

  pub s431_body-RowStep : Ensures (s431_body f n i s) (RowStep f (row_of f s431 n i) i s)
  unfolding s431_body update
  s431_body-RowStep =
      let here : i + (2 * 1 - 2) ≡ i = omega arith in
      rw (here, load_at n i lt s.a, load_at n i lt s.b, store_at n i lt s.a)
        (Ensures-some _ _ λ j. ground arith)

  pub s4121_body-RowStep : Ensures (s4121_body f n i s) (RowStep f (row_of f s4121 n i) i s)
  unfolding s4121_body update
  s4121_body-RowStep =
      rw (load_at n i lt s.a, load_at n i lt s.b, load_at n i lt s.c, store_at n i lt s.a)
        (Ensures-some _ _ λ j. ground arith)
