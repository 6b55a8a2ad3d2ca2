-- ===== src/Dlmul/Strip/Indexed.antt =====
-- Sweeps whose effect on an index also depends on arrays that no bench writes: the environment.
use vectorizer_experiments.Base.{
  ℕ, ◌+◌, ◌≡◌, refl, subst, ◌∙◌, arith, Option, if◌then◌else◌, for_up, for_up-Ensures, Ensures,
  Ensures-weaken,
}
use vectorizer_experiments.Dlmul.Rvv.{Rvv, Memory, Row, row, touched}
use vectorizer_experiments.Dlmul.Strip.Rule.{Composes}
use vectorizer_experiments.Dlmul.Strip.Sweep.{times}

-- `cell s j` is what the state s holds at the index j.
module _ {S Env Cell : Type 0} (env : S → Env) (cell : S → ℕ → Cell) where
  -- The environment is as before, and each cell of the range is changed by f.
  pub record Changed (f : Env → ℕ → Cell → Cell) (offset vl : ℕ) (st st' : S) : Type 0 where
    pub same_env : env st' ≡ env st
    pub cells :
        (j : ℕ) → cell st' j ≡ (if touched offset vl j then f (env st) j (cell st j) else cell st j)

  -- The cells of a later sweep, by the environment of an earlier state.
  cells_by :
      (f : Env → ℕ → Cell → Cell) (offset vl : ℕ) (s t u : S)
      → env t ≡ env s
      → Changed f offset vl t u
      → (j : ℕ) → cell u j ≡ (if touched offset vl j then f (env s) j (cell t j) else cell t j)
  cells_by f offset vl s t u same q j =
      subst (λ (g : Env). cell u j ≡ (if touched offset vl j then f g j (cell t j) else cell t j))
        same (q.cells j)

  pub Changed-Composes : (f : Env → ℕ → Cell → Cell) → Composes (Changed f)
  Changed-Composes f = record {
    nothing = λ offset s. record { same_env = refl; cells = λ j. ground arith };
    anywhere = λ offset offset' s t p. record {
      same_env = p.same_env;
      cells = λ j. ground (arith, p.cells j);
    };
    both = λ offset m n s t u p q. record {
      same_env = q.same_env ∙ p.same_env;
      cells = λ j.
          let later = cells_by f (offset + m) n s t u p.same_env q j in
          grind (arith, p.cells j, later);
    };
  }

  -- The sweeps of a kernel: f, `iters` times, in every cell.
  pub sweeps-Changed :
      (f : Env → ℕ → Cell → Cell) (total : ℕ) (sweep : S → Option S)
      → ((st : S) → Ensures (sweep st) (Changed f 0 total st))
      → (iters : ℕ) (st : S)
      → Ensures (for_up iters (λ _ s. sweep s) st) (Changed (λ g j. times iters (f g j)) 0 total st)
  unfolding times
  sweeps-Changed f total sweep ok iters st =
      for_up-Ensures (λ n s. Changed (λ g j. times n (f g j)) 0 total st s) iters (λ _ s. sweep s)
        (λ n lt s p. Ensures-weaken _ _ _ (ok s) λ s' q. record {
          same_env = q.same_env ∙ p.same_env;
          cells = λ j.
              let later = cells_by f 0 total st s s' p.same_env q j in
              grind (arith, p.cells j, later);
        })
        st (record { same_env = refl; cells = λ j. ground arith })

module _ (r : Rvv) where
  -- What a row becomes, by the flat array, its index and the row.
  abbrev pub RowMap : Type 0
  RowMap = (ℕ → r.Real) → ℕ → Row r → Row r

  -- The flat array is as before, and each row of the range is changed by f.
  abbrev pub SweptBy : RowMap → ℕ → ℕ → Memory r → Memory r → Type 0
  SweptBy f = Changed (λ (s : Memory r). s.flat_2d_array) (row r) f

  pub sweeps-SweptBy :
      (f : RowMap) (total : ℕ) (sweep : Memory r → Option (Memory r))
      → ((st : Memory r) → Ensures (sweep st) (SweptBy f 0 total st))
      → (iters : ℕ) (st : Memory r)
      → Ensures
          (for_up iters (λ _ s. sweep s) st)
          (SweptBy (λ flat j. times iters (f flat j)) 0 total st)
  sweeps-SweptBy = sweeps-Changed (λ (s : Memory r). s.flat_2d_array) (row r)
