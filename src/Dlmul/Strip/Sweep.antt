-- ===== src/Dlmul/Strip/Sweep.antt =====
-- A sweep over the arrays changes each row of a range by one function, and no other row.
use vectorizer_experiments.Base.{
  ℕ, zero, suc, ◌+◌, ◌-◌, ◌≤◌, ◌<◌, ◌≡◌, arith, Option, if◌then◌else◌, for_up, for_up-Ensures,
  Ensures, Ensures-weaken,
}
use vectorizer_experiments.Dlmul.Rvv.{Rvv, Memory, Row, row, touched}
use vectorizer_experiments.Dlmul.Strip.{strip_while, strip_for}
use vectorizer_experiments.Dlmul.Strip.Rule.{Composes, strip_for-Ensures, strip_while-Ensures}

module _ (r : Rvv) (f : Row r → Row r) where
  abbrev pub Swept : ℕ → ℕ → Memory r → Memory r → Type 0
  Swept offset vl st st' =
      (j : ℕ) → row r st' j ≡ (if touched offset vl j then f (row r st j) else row r st j)

  -- Two neighbouring sweeps.
  Swept-add :
      (offset m n : ℕ) (s t u : Memory r)
      → Swept offset m s t
      → Swept (offset + m) n t u
      → Swept offset (m + n) s u
  Swept-add offset m n s t u p q j = grind (arith, p j, q j)

  Swept-zero : (offset : ℕ) (s : Memory r) → Swept offset 0 s s
  Swept-zero offset s j = ground arith

  Swept-move : (offset offset' : ℕ) (s t : Memory r) → Swept offset 0 s t → Swept offset' 0 s t
  Swept-move offset offset' s t p j = ground (arith, p j)

  Swept-Composes : Composes Swept
  Swept-Composes = record { nothing = Swept-zero; anywhere = Swept-move; both = Swept-add }

  -- The loop by the remaining elements.
  pub strip_while-Swept :
      (total : ℕ) (step : ℕ → ℕ → Memory r → Option (ℕ × Memory r))
      → ((offset remaining : ℕ) (st : Memory r)
          → 0 < remaining
          → offset + remaining ≤ total
          → Ensures
              (step offset remaining st)
              (λ out. (0 < out.0) × (out.0 ≤ remaining) × Swept offset out.0 st out.1))
      → (fuel offset remaining : ℕ) (st : Memory r) → remaining < fuel
      → offset + remaining ≤ total
      → Ensures (strip_while fuel step offset remaining st) (Swept offset remaining st)
  strip_while-Swept total step ok = strip_while-Ensures Swept Swept-Composes total step ok

  -- The loop by the offset.
  pub strip_for-Swept :
      (total vl : ℕ) (body : ℕ → ℕ → Memory r → Option (Memory r))
      → 0 < vl
      → ((offset avl : ℕ) (st : Memory r)
          → 0 < avl
          → avl ≤ vl
          → offset + avl ≤ total
          → Ensures (body offset avl st) (Swept offset avl st))
      → (fuel offset : ℕ) (st : Memory r) → total - offset < fuel
      → Ensures (strip_for fuel total vl body offset st) (Swept offset (total - offset) st)
  strip_for-Swept total vl body pos ok = strip_for-Ensures Swept Swept-Composes total vl body pos ok

-- f, n times.
unfoldable pub times {ℓ} : {A : Type ℓ} → ℕ → (A → A) → A → A
times zero f w = w
times (suc n) f w = f (times n f w)

-- A sweep by g behind a sweep by f over the same rows.
pub Swept-then :
    (r : Rvv) (f g : Row r → Row r) (offset n : ℕ) (s t u : Memory r)
    → Swept r f offset n s t
    → Swept r g offset n t u
    → Swept r (λ w. g (f w)) offset n s u
Swept-then r f g offset n s t u p q j = grind (arith, p j, q j)

-- A sweep repeated.
pub sweeps-Swept :
    (r : Rvv) (f : Row r → Row r) (offset total : ℕ) (sweep : Memory r → Option (Memory r))
    → ((st : Memory r) → Ensures (sweep st) (Swept r f offset total st))
    → (iters : ℕ) (st : Memory r)
    → Ensures (for_up iters (λ _ s. sweep s) st) (Swept r (times iters f) offset total st)
unfolding times
sweeps-Swept r f offset total sweep ok iters st =
    for_up-Ensures (λ n s. Swept r (times n f) offset total st s) iters (λ _ s. sweep s)
      (λ n lt s p.
        Ensures-weaken _ _ _ (ok s) λ s' q. Swept-then r (times n f) f offset total st s s' p q)
      st (λ j. ground arith)
