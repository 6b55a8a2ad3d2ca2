-- ===== src/Tsvc/Pointwise/Order.antt =====
-- The loops of these kernels may run in any order: here, up and down.
use vectorizer_experiments.Base.{
  ℕ, zero, suc, ◌≤◌, ◌<◌, ◌≡◌, inl, inr, Option, if◌then◌else◌, ltb, for_up, for_down,
  for_up-Ensures, Ensures, Ensures-some, Ensures-bind, Ensures-weaken, arith, Bool-cases,
}
use vectorizer_experiments.Tsvc.Memory.{Floats, Memory, Row, row}
use vectorizer_experiments.Tsvc.Pointwise.{
  s1279, s2710, s279, s1351, s431, s4121, Pointwise, s000, s1112, s1161, s1251, s1281, s251, s253,
  s271, s2711, s2712, s273, s274, s276, s278, s441, s443, s452, body, descends, extent, kernel,
}
use vectorizer_experiments.Tsvc.Pointwise.Rows.{RowStep, row_of}
use vectorizer_experiments.Tsvc.Pointwise.StraightRows.{
  s000_body-RowStep, s1112_body-RowStep, s1251_body-RowStep, s1281_body-RowStep, s251_body-RowStep,
  s452_body-RowStep, s1351_body-RowStep, s431_body-RowStep, s4121_body-RowStep,
}
use vectorizer_experiments.Tsvc.Pointwise.BranchRows.{
  s1161_body-RowStep, s253_body-RowStep, s271_body-RowStep, s2711_body-RowStep, s2712_body-RowStep,
  s273_body-RowStep, s274_body-RowStep, s276_body-RowStep, s278_body-RowStep, s441_body-RowStep,
  s443_body-RowStep, s1279_body-RowStep, s2710_body-RowStep, s279_body-RowStep,
}

body-RowStep :
    (f : Floats) (n : ℕ) (k : Pointwise) (i : ℕ) (s : Memory f)
    → i < n
    → Ensures (body f k n i s) (RowStep f (row_of f k n i) i s)
unfolding body
body-RowStep f n s000 i s lt = s000_body-RowStep f n i s lt
body-RowStep f n s1112 i s lt = s1112_body-RowStep f n i s lt
body-RowStep f n s1161 i s lt = s1161_body-RowStep f n i s lt
body-RowStep f n s1251 i s lt = s1251_body-RowStep f n i s lt
body-RowStep f n s1281 i s lt = s1281_body-RowStep f n i s lt
body-RowStep f n s251 i s lt = s251_body-RowStep f n i s lt
body-RowStep f n s253 i s lt = s253_body-RowStep f n i s lt
body-RowStep f n s271 i s lt = s271_body-RowStep f n i s lt
body-RowStep f n s2711 i s lt = s2711_body-RowStep f n i s lt
body-RowStep f n s2712 i s lt = s2712_body-RowStep f n i s lt
body-RowStep f n s273 i s lt = s273_body-RowStep f n i s lt
body-RowStep f n s274 i s lt = s274_body-RowStep f n i s lt
body-RowStep f n s276 i s lt = s276_body-RowStep f n i s lt
body-RowStep f n s278 i s lt = s278_body-RowStep f n i s lt
body-RowStep f n s441 i s lt = s441_body-RowStep f n i s lt
body-RowStep f n s443 i s lt = s443_body-RowStep f n i s lt
body-RowStep f n s452 i s lt = s452_body-RowStep f n i s lt
body-RowStep f n s1279 i s lt = s1279_body-RowStep f n i s lt
body-RowStep f n s2710 i s lt = s2710_body-RowStep f n i s lt
body-RowStep f n s279 i s lt = s279_body-RowStep f n i s lt
body-RowStep f n s1351 i s lt = s1351_body-RowStep f n i s lt
body-RowStep f n s431 i s lt = s431_body-RowStep f n i s lt
body-RowStep f n s4121 i s lt = s4121_body-RowStep f n i s lt

-- Every row below m has changed by its function, once, and no other.
abbrev pub RowsBelow : (f : Floats) → (ℕ → Row f → Row f) → ℕ → Memory f → Memory f → Type 0
RowsBelow f g m s t = (j : ℕ) → row f t j ≡ (if ltb j m then g j (row f s j) else row f s j)

module _ (f : Floats) (g : ℕ → Row f → Row f) (step : ℕ → Memory f → Option (Memory f)) (n : ℕ)
    (ok : (i : ℕ) (s : Memory f) → i < n → Ensures (step i s) (RowStep f (g i) i s)) where
  for_up-Rows : (m : ℕ) (s : Memory f) → m ≤ n → Ensures (for_up m step s) (RowsBelow f g m s)
  for_up-Rows m s le =
      for_up-Ensures (λ i t. RowsBelow f g i s t) m step
        (λ i lt t p. Ensures-weaken _ _ _ (ok i t (omega arith)) λ u q j. grind (arith, q j, p j)) s
        (λ j. ground arith)

  for_down-Rows : (m : ℕ) (s : Memory f) → m ≤ n → Ensures (for_down m step s) (RowsBelow f g m s)
  unfolding for_down
  for_down-Rows zero s le = Ensures-some _ s (λ j. ground arith)
  for_down-Rows (suc m) s le =
      Ensures-bind _ _ _ _ (ok m s (omega arith)) λ t p.
        Ensures-weaken _ _ _ (for_down-Rows m t (omega arith)) λ u q j. grind (arith, q j, p j)

extent-le : (k : Pointwise) (n : ℕ) → extent k n ≤ n
extent-le s000 n = omega arith
extent-le s1112 n = omega arith
extent-le s1161 n = omega arith
extent-le s1251 n = omega arith
extent-le s1281 n = omega arith
extent-le s251 n = omega arith
extent-le s253 n = omega arith
extent-le s271 n = omega arith
extent-le s2711 n = omega arith
extent-le s2712 n = omega arith
extent-le s273 n = omega arith
extent-le s274 n = omega arith
extent-le s276 n = omega arith
extent-le s278 n = omega arith
extent-le s441 n = omega arith
extent-le s443 n = omega arith
extent-le s452 n = omega arith
extent-le s1279 n = omega arith
extent-le s2710 n = omega arith
extent-le s279 n = omega arith
extent-le s1351 n = omega arith
extent-le s431 n = omega arith
extent-le s4121 n = omega arith

-- Each of the 23 kernels that work on one index per iteration returns, stays inside its arrays, and
-- changes every row below its number of iterations by its function on rows, once, and no other row,
-- on any floats; and so do the loops that run its iterations upwards and downwards: the order does
-- not matter.
pub kernel-Rows :
    (f : Floats) (n : ℕ) (k : Pointwise) (s : Memory f)
    → Ensures (kernel f k n s) (RowsBelow f (row_of f k n) (extent k n) s)
      × Ensures (for_up (extent k n) (body f k n) s) (RowsBelow f (row_of f k n) (extent k n) s)
      × Ensures (for_down (extent k n) (body f k n) s) (RowsBelow f (row_of f k n) (extent k n) s)
unfolding kernel
kernel-Rows f n k s =
    let up =
      for_up-Rows f (row_of f k n) (body f k n) n (body-RowStep f n k) (extent k n) s
        (extent-le k n) in
    let down =
      for_down-Rows f (row_of f k n) (body f k n) n (body-RowStep f n k) (extent k n) s
        (extent-le k n) in
    elim (Bool-cases (descends k)) [ inl e ↦ rw e (down, up, down) | inr e ↦ rw e (up, up, down) ]
