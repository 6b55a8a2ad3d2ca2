-- ===== src/Tsvc/Pointwise/BranchRows.antt =====
-- The rows that the iterations with branches leave.
use vectorizer_experiments.Base.{
  ℕ, ◌+◌, ◌/◌, ◌<◌, inl, inr, ltb, update, update_self, Ensures, Ensures-some, arith, Bool-cases,
}
use vectorizer_experiments.Tsvc.Memory.{Floats, Memory}
use vectorizer_experiments.Tsvc.Pointwise.Rows.{row_of, RowStep, load_at, store_at}
use vectorizer_experiments.Tsvc.Branches.{
  s1161_body, s253_body, s271_body, s2711_body, s2712_body, s273_body, s274_body, s276_body,
  s278_body, s441_body, s443_body, s1279_body, s2710_body, s279_body,
}
use vectorizer_experiments.Tsvc.Pointwise.{
  s1161, s253, s271, s2711, s2712, s273, s274, s276, s278, s441, s443, s1279, s2710, s279,
}

module _ (f : Floats) (n i : ℕ) (s : Memory f) (lt : i < n) where
  pub s1161_body-RowStep : Ensures (s1161_body f n i s) (RowStep f (row_of f s1161 n i) i s)
  unfolding s1161_body update
  s1161_body-RowStep =
      rw (load_at n i lt s.c, load_at n i lt s.d)
        (elim (Bool-cases (f.lt (s.c i) (f.lit 0 1))) [
          | inl e ↦
              rw (e, load_at n i lt s.a, store_at n i lt s.b) (Ensures-some _ _ λ j. ground arith)
          | inr e ↦
              rw (e, load_at n i lt s.e, store_at n i lt s.a) (Ensures-some _ _ λ j. ground arith)
        ])

  pub s253_body-RowStep : Ensures (s253_body f n i s) (RowStep f (row_of f s253 n i) i s)
  unfolding s253_body update
  s253_body-RowStep =
      rw (load_at n i lt s.a, load_at n i lt s.b)
        (elim (Bool-cases (f.lt (s.b i) (s.a i))) [
          | inl e ↦
              rw
                (
                  e,
                  load_at n i lt s.d,
                  load_at n i lt s.c,
                  store_at n i lt s.c,
                  store_at n i lt s.a,
                )
                (Ensures-some _ _ λ j. ground arith)
          | inr e ↦ rw (e) (Ensures-some _ _ λ j. ground arith)
        ])

  pub s271_body-RowStep : Ensures (s271_body f n i s) (RowStep f (row_of f s271 n i) i s)
  unfolding s271_body update
  s271_body-RowStep = rw (load_at n i lt s.b) (elim (Bool-cases (f.lt (f.lit 0 1) (s.b i))) [
    | inl e ↦
        rw (e, load_at n i lt s.a, load_at n i lt s.c, store_at n i lt s.a)
          (Ensures-some _ _ λ j. ground arith)
    | inr e ↦ rw (e) (Ensures-some _ _ λ j. ground arith)
  ])

  pub s2711_body-RowStep : Ensures (s2711_body f n i s) (RowStep f (row_of f s2711 n i) i s)
  unfolding s2711_body update
  s2711_body-RowStep = rw (load_at n i lt s.b) (elim (Bool-cases (f.eq (s.b i) (f.lit 0 1))) [
    | inl e ↦ rw (e) (Ensures-some _ _ λ j. ground arith)
    | inr e ↦
        rw (e, load_at n i lt s.a, load_at n i lt s.c, store_at n i lt s.a)
          (Ensures-some _ _ λ j. ground arith)
  ])

  pub s2712_body-RowStep : Ensures (s2712_body f n i s) (RowStep f (row_of f s2712 n i) i s)
  unfolding s2712_body update
  s2712_body-RowStep =
      rw (load_at n i lt s.a, load_at n i lt s.b)
        (elim (Bool-cases (f.lt (s.b i) (s.a i))) [
          | inl e ↦
              rw (e, load_at n i lt s.c, store_at n i lt s.a) (Ensures-some _ _ λ j. ground arith)
          | inr e ↦ rw (e) (Ensures-some _ _ λ j. ground arith)
        ])

  pub s273_body-RowStep : Ensures (s273_body f n i s) (RowStep f (row_of f s273 n i) i s)
  unfolding s273_body update
  s273_body-RowStep =
      rw
        (
          load_at n i lt s.a,
          load_at n i lt s.d,
          load_at n i lt s.e,
          store_at n i lt s.a,
          load_at n i lt (update s.a i _),
          update_self s.a i,
          load_at n i lt s.b,
          load_at n i lt s.c,
        )
        (elim (Bool-cases (f.lt (f.add (s.a i) (f.mul (s.d i) (s.e i))) (f.lit 0 1))) [
          | inl e ↦
              rw (e, store_at n i lt s.b, store_at n i lt s.c) (Ensures-some _ _ λ j. ground arith)
          | inr e ↦ rw (e, store_at n i lt s.c) (Ensures-some _ _ λ j. ground arith)
        ])

  pub s274_body-RowStep : Ensures (s274_body f n i s) (RowStep f (row_of f s274 n i) i s)
  unfolding s274_body update
  s274_body-RowStep =
      rw
        (
          load_at n i lt s.c,
          load_at n i lt s.e,
          load_at n i lt s.d,
          store_at n i lt s.a,
          load_at n i lt (update s.a i _),
          update_self s.a i,
        )
        (elim (Bool-cases (f.lt (f.lit 0 1) (f.add (s.c i) (f.mul (s.e i) (s.d i))))) [
          | inl e ↦
              rw (e, load_at n i lt s.b, store_at n i lt s.b) (Ensures-some _ _ λ j. ground arith)
          | inr e ↦ rw (e, store_at n i lt (update s.a i _)) (Ensures-some _ _ λ j. ground arith)
        ])

  pub s276_body-RowStep : Ensures (s276_body f n i s) (RowStep f (row_of f s276 n i) i s)
  unfolding s276_body update
  s276_body-RowStep =
      rw (load_at n i lt s.a, load_at n i lt s.b)
        (elim (Bool-cases (ltb (i + 1) (n / 2))) [
          | inl e ↦
              rw (e, load_at n i lt s.c, store_at n i lt s.a) (Ensures-some _ _ λ j. ground arith)
          | inr e ↦
              rw (e, load_at n i lt s.d, store_at n i lt s.a) (Ensures-some _ _ λ j. ground arith)
        ])

  pub s278_body-RowStep : Ensures (s278_body f n i s) (RowStep f (row_of f s278 n i) i s)
  unfolding s278_body update
  s278_body-RowStep =
      rw (load_at n i lt s.a, load_at n i lt s.d, load_at n i lt s.e)
        (elim (Bool-cases (f.lt (f.lit 0 1) (s.a i))) [
          | inl e ↦
              rw
                (
                  e,
                  load_at n i lt s.c,
                  store_at n i lt s.c,
                  load_at n i lt s.b,
                  load_at n i lt (update s.c i _),
                  update_self s.c i,
                  store_at n i lt s.a,
                )
                (Ensures-some _ _ λ j. ground arith)
          | inr e ↦
              rw
                (
                  e,
                  load_at n i lt s.b,
                  store_at n i lt s.b,
                  load_at n i lt s.c,
                  load_at n i lt (update s.b i _),
                  update_self s.b i,
                  store_at n i lt s.a,
                )
                (Ensures-some _ _ λ j. ground arith)
        ])

  pub s441_body-RowStep : Ensures (s441_body f n i s) (RowStep f (row_of f s441 n i) i s)
  unfolding s441_body update
  s441_body-RowStep =
      rw (load_at n i lt s.d, load_at n i lt s.a, load_at n i lt s.b, load_at n i lt s.c)
        (elim (Bool-cases (f.lt (s.d i) (f.lit 0 1))) [
          | inl e ↦ rw (e, store_at n i lt s.a) (Ensures-some _ _ λ j. ground arith)
          | inr e ↦ elim (Bool-cases (f.eq (s.d i) (f.lit 0 1))) [
            | inl z ↦ rw (e, z, store_at n i lt s.a) (Ensures-some _ _ λ j. ground arith)
            | inr z ↦ rw (e, z, store_at n i lt s.a) (Ensures-some _ _ λ j. ground arith)
          ]
        ])

  pub s443_body-RowStep : Ensures (s443_body f n i s) (RowStep f (row_of f s443 n i) i s)
  unfolding s443_body update
  s443_body-RowStep =
      rw (load_at n i lt s.d, load_at n i lt s.a, load_at n i lt s.b)
        (elim (Bool-cases (f.le (s.d i) (f.lit 0 1))) [
          | inl e ↦
              rw (e, load_at n i lt s.c, store_at n i lt s.a) (Ensures-some _ _ λ j. ground arith)
          | inr e ↦ rw (e, store_at n i lt s.a) (Ensures-some _ _ λ j. ground arith)
        ])

  pub s1279_body-RowStep : Ensures (s1279_body f n i s) (RowStep f (row_of f s1279 n i) i s)
  unfolding s1279_body update
  s1279_body-RowStep = rw (load_at n i lt s.a) (elim (Bool-cases (f.lt (s.a i) (f.lit 0 1))) [
    | inl e ↦
        rw (e, load_at n i lt s.b)
          (elim (Bool-cases (f.lt (s.a i) (s.b i))) [
            | inl z ↦
                rw
                  (
                    z,
                    load_at n i lt s.c,
                    load_at n i lt s.d,
                    load_at n i lt s.e,
                    store_at n i lt s.c,
                  )
                  (Ensures-some _ _ λ j. ground (arith, e, z))
            | inr z ↦ rw z (Ensures-some _ _ λ j. ground (arith, e, z))
          ])
    | inr e ↦ rw (e) (Ensures-some _ _ λ j. ground (arith, e))
  ])

  pub s2710_body-RowStep : Ensures (s2710_body f n i s) (RowStep f (row_of f s2710 n i) i s)
  unfolding s2710_body update
  s2710_body-RowStep =
      rw (load_at n i lt s.a, load_at n i lt s.b)
        (elim (Bool-cases (f.lt (s.b i) (s.a i))) [
          | inl e ↦
              rw (e, load_at n i lt s.d, store_at n i lt s.a)
                (elim (Bool-cases (ltb 10 n)) [
                  | inl z ↦
                      rw (z, load_at n i lt s.c, store_at n i lt s.c)
                        (Ensures-some _ _ λ j. ground arith)
                  | inr z ↦
                      rw (z, load_at n i lt s.e, store_at n i lt s.c)
                        (Ensures-some _ _ λ j. ground arith)
                ])
          | inr e ↦
              rw (e, load_at n i lt s.e, store_at n i lt s.b)
                (elim (Bool-cases (f.lt (f.lit 0 1) (f.of_nat 1))) [
                  | inl z ↦
                      rw (z, load_at n i lt s.d, store_at n i lt s.c)
                        (Ensures-some _ _ λ j. ground arith)
                  | inr z ↦
                      rw (z, load_at n i lt s.c, store_at n i lt s.c)
                        (Ensures-some _ _ λ j. ground arith)
                ])
        ])

  pub s279_body-RowStep : Ensures (s279_body f n i s) (RowStep f (row_of f s279 n i) i s)
  unfolding s279_body update
  s279_body-RowStep = rw (load_at n i lt s.a) (elim (Bool-cases (f.lt (f.lit 0 1) (s.a i))) [
    | inl e ↦
        rw
          (
            e,
            load_at n i lt s.c,
            load_at n i lt s.e,
            store_at n i lt s.c,
            load_at n i lt s.b,
            load_at n i lt (update s.c i _),
            update_self s.c i,
            load_at n i lt s.d,
            store_at n i lt s.a,
          )
          (Ensures-some _ _ λ j. ground arith)
    | inr e ↦
        rw
          (
            e,
            load_at n i lt s.b,
            load_at n i lt s.d,
            store_at n i lt s.b,
            load_at n i lt (update s.b i _),
            update_self s.b i,
          )
          (elim (Bool-cases (f.le (f.add (f.neg (s.b i)) (f.mul (s.d i) (s.d i))) (s.a i))) [
            | inl z ↦
                rw
                  (
                    z,
                    load_at n i lt (update s.b i _),
                    update_self s.b i,
                    load_at n i lt s.c,
                    load_at n i lt s.d,
                    store_at n i lt s.a,
                  )
                  (Ensures-some _ _ λ j. ground arith)
            | inr z ↦
                rw
                  (
                    z,
                    load_at n i lt s.c,
                    load_at n i lt s.e,
                    store_at n i lt s.c,
                    load_at n i lt (update s.b i _),
                    update_self s.b i,
                    load_at n i lt (update s.c i _),
                    update_self s.c i,
                    load_at n i lt s.d,
                    store_at n i lt s.a,
                  )
                  (Ensures-some _ _ λ j. ground arith)
          ])
  ])
