-- ===== src/Tsvc/Sweep/Solved.antt =====
-- What the kernels leave in the arrays: the solution of a recurrence on rows.
use vectorizer_experiments.Base.{
  ℕ, suc, ◌+◌, ◌-◌, ◌≤◌, ◌<◌, ◌≡◌, sym, ◌∙◌, true, if◌then◌else◌, ltb, leb, ◌&&◌, for_range-Ensures,
  Ensures, Ensures-weaken, arith,
}
use native.Mathlib.Decide.{dec_lt}
use vectorizer_experiments.Tsvc.Memory.{Floats, Memory, Row, row}
use vectorizer_experiments.Tsvc.Sweep.{
  Sweep, s321, s322, s323, s222, s221, s211, s241, s242, s243, s1213, s1244, sweep_body, sweep,
  lowest, highest,
}
use vectorizer_experiments.Tsvc.Sweep.Steps.{next_row, Swept, sweep_body-Swept}

lowest-highest : (k : Sweep) (n : ℕ) → 2 ≤ n → lowest k ≤ highest k n
lowest-highest s321 n le = omega arith
lowest-highest s322 n le = omega arith
lowest-highest s323 n le = omega arith
lowest-highest s222 n le = omega arith
lowest-highest s221 n le = omega arith
lowest-highest s211 n le = omega arith
lowest-highest s241 n le = omega arith
lowest-highest s242 n le = omega arith
lowest-highest s243 n le = omega arith
lowest-highest s1213 n le = omega arith
lowest-highest s1244 n le = omega arith

module _ (f : Floats) (s1 s2 : f.Real) (k : Sweep) (s : Memory f) where
  -- Row j - d of `t`, for the row at j; row 0 has no row before it.
  abbrev pub back : ℕ → Memory f → ℕ → Row f
  back d t j = row f (if leb 1 j then t else s) (j - d)

  -- The rows from the lowest index up to m solve the recurrence, in terms of the new rows before and the
  -- old rows at and behind them. The other rows are the old ones.
  abbrev pub SolvedBelow : ℕ → Memory f → Type 0
  SolvedBelow m t =
      (j : ℕ)
      → row f t j ≡ (
          if leb (lowest k) j && ltb j m
          then next_row f s1 s2 k (back 1 t j) (back 2 t j) (row f s j) (row f s (j + 1))
          else row f s j)

  back-lem :
      (d i : ℕ) (t u : Memory f)
      → 0 < d
      → SolvedBelow i t
      → Swept f s1 s2 k i t u
      → (j : ℕ) → j ≤ i
      → back d u j ≡ back d t j
  back-lem d i t u one p q j le = ground (arith, q (j - d))

  row-back : (d i : ℕ) (t : Memory f) → SolvedBelow i t → row f t (i - d) ≡ back d t i
  row-back d i t p = ground (arith, p 0)

  solved_row :
      (i : ℕ) (t u : Memory f)
      → row f u i
        ≡ next_row f s1 s2 k (row f t (i - 1)) (row f t (i - 2)) (row f t i) (row f t (i + 1))
      → row f t (i - 1) ≡ back 1 t i
      → row f t (i - 2) ≡ back 2 t i
      → row f t i ≡ row f s i
      → row f t (i + 1) ≡ row f s (i + 1)
      → row f u i ≡ next_row f s1 s2 k (back 1 t i) (back 2 t i) (row f s i) (row f s (i + 1))
  solved_row i t u e one two here after =
      e ∙ (λ l. next_row f s1 s2 k (one l) (two l) (here l) (after l))

  SolvedBelow-suc :
      (i : ℕ) (t u : Memory f)
      → lowest k ≤ i
      → SolvedBelow i t
      → Swept f s1 s2 k i t u
      → SolvedBelow (suc i) u
  SolvedBelow-suc i t u low p q j = elim (dec_lt i j) [
    | yes after ↦ ground (arith, q j, p j)
    | no within ↦
        let one : back 1 u j ≡ back 1 t j = back-lem 1 i t u (omega arith) p q j (omega arith) in
        let two : back 2 u j ≡ back 2 t j = back-lem 2 i t u (omega arith) p q j (omega arith) in
        rw (one, two)
          elim (dec_lt j i) [
            | yes before ↦ ground (arith, q j, p j)
            | no here ↦
                let e : i ≡ j = omega arith in
                let solved =
                  solved_row i t u (ground (arith, q i)) (row-back 1 i t p) (row-back 2 i t p)
                    (ground (arith, p i)) (ground (arith, p (i + 1))) in
                let inside : (leb (lowest k) i && ltb i (suc i)) ≡ true = ground arith in
                rw (sym e, inside) solved
          ]
  ]

  -- With LEN_1D at least 2, each of the 11 kernels of the type Sweep returns and stays inside its
  -- arrays, and every row between its lowest index and its end is given by the function of the
  -- kernel for the new rows before it, its old contents and the old row behind it; the other rows
  -- are the old ones.
  pub sweep-Solved : (n : ℕ) → 2 ≤ n → Ensures (sweep f s1 s2 k n s) (SolvedBelow (highest k n))
  unfolding sweep
  sweep-Solved n le =
      for_range-Ensures SolvedBelow (lowest k) (highest k n) (sweep_body f s1 s2 k n)
        (lowest-highest k n le)
        (λ i low high t p.
          Ensures-weaken _ _ _ (sweep_body-Swept f s1 s2 k n i t low high)
            λ u q. SolvedBelow-suc i t u low p q)
        s (λ j. ground arith)
