-- ===== src/Dlmul/Strip/Rule.antt =====
-- The rules for the strip-mined loops: a relation of ranges that neighbouring ranges compose holds for the
-- whole sweep, if a round keeps it.
use vectorizer_experiments.Base.{
  ℕ, zero, suc, ◌+◌, ◌-◌, ◌≤◌, ◌<◌, ◌≡◌, inl, inr, true, arith, Option, ltb, leb, Bool-cases,
  Ensures, Ensures-some, Ensures-weaken, Ensures-bind,
}
use vectorizer_experiments.Dlmul.Strip.{strip_for, strip_while}

-- R offset n s t: the n elements from `offset` on have been treated between s and t.
pub record Composes {S : Type 0} (R : ℕ → ℕ → S → S → Type 0) : Type 0 where
  pub nothing : (offset : ℕ) (s : S) → R offset 0 s s
  pub anywhere : (offset offset' : ℕ) (s t : S) → R offset 0 s t → R offset' 0 s t
  pub both :
      (offset m n : ℕ) (s t u : S) → R offset m s t → R (offset + m) n t u → R offset (m + n) s u

module _ {S : Type 0} (R : ℕ → ℕ → S → S → Type 0) (rule : Composes R) (total vl : ℕ)
    (body : ℕ → ℕ → S → Option S) (pos : 0 < vl)
    (ok : (offset avl : ℕ) (st : S)
      → 0 < avl
      → avl ≤ vl
      → offset + avl ≤ total
      → Ensures (body offset avl st) (R offset avl st)) where
  pub strip_for-Ensures :
      (fuel offset : ℕ) (st : S)
      → total - offset < fuel
      → Ensures (strip_for fuel total vl body offset st) (R offset (total - offset) st)
  unfolding strip_for
  strip_for-Ensures zero offset st enough = absurd (omega arith)
  strip_for-Ensures (suc fuel) offset st enough =
      let rest = total - offset in
      elim (Bool-cases (ltb offset total)) [
        | inl more ↦ rw more (elim (Bool-cases (ltb vl rest)) [
          | inl whole ↦ rw whole (
              Ensures-bind _ _ _ _ (ok offset vl st pos (omega arith) (ground arith)) λ mid p.
                let left : vl + (total - (offset + vl)) ≡ total - offset = ground arith in
                Ensures-weaken _ _ _ (strip_for-Ensures fuel (offset + vl) mid (ground arith))
                  λ st' q. rw left at (rule.both offset vl (total - (offset + vl)) st mid st' p q))
          | inr last ↦ rw last (
              Ensures-bind _ _ _ _ (ok offset rest st (ground arith) (ground arith) (ground arith))
                λ mid p.
                  let over : total - (offset + vl) ≡ 0 = ground arith in
                  let left : rest + 0 ≡ rest = omega arith in
                  Ensures-weaken _ _ _ (strip_for-Ensures fuel (offset + vl) mid (ground arith))
                    λ st' q. rw left at (
                      rule.both offset rest 0 st mid st' p
                        (rule.anywhere (offset + vl) (offset + rest) mid st' (rw over at q))))
        ])
        | inr done ↦
            let none_left : total - offset ≡ 0 = ground arith in
            rw done (Ensures-some _ st (rw none_left (rule.nothing offset st)))
      ]

module _ {S : Type 0} (R : ℕ → ℕ → S → S → Type 0) (rule : Composes R) (total : ℕ)
    (step : ℕ → ℕ → S → Option (ℕ × S))
    (ok : (offset remaining : ℕ) (st : S)
      → 0 < remaining
      → offset + remaining ≤ total
      → Ensures
          (step offset remaining st)
          (λ out. (0 < out.0) × (out.0 ≤ remaining) × R offset out.0 st out.1)) where
  -- The loop by the remaining elements, for a step that takes at least one and at most all of them.
  pub strip_while-Ensures :
      (fuel offset remaining : ℕ) (st : S)
      → remaining < fuel
      → offset + remaining ≤ total
      → Ensures (strip_while fuel step offset remaining st) (R offset remaining st)
  unfolding strip_while
  strip_while-Ensures zero offset remaining st enough inside = absurd (omega arith)
  strip_while-Ensures (suc fuel) offset remaining st enough inside =
      elim (Bool-cases (ltb 0 remaining)) [
        | inl some_left ↦ rw some_left (
            Ensures-bind _ _ _ _ (ok offset remaining st (ground arith) inside) λ out p.
              let fits : leb out.0 remaining ≡ true = ground (arith, p) in
              let all : out.0 + (remaining - out.0) ≡ remaining = omega (arith, p.1) in
              rw fits (
                Ensures-weaken _ _ _
                  (strip_while-Ensures fuel (offset + out.0) (remaining - out.0) out.1
                    (omega (arith, p.0, p.1)) (omega (arith, p.1)))
                  λ st' q.
                    rw all at (rule.both offset out.0 (remaining - out.0) st out.1 st' p.2 q)))
        | inr none_left ↦
            let done : remaining ≡ 0 = ground arith in
            rw none_left (Ensures-some _ st (rw done (rule.nothing offset st)))
      ]
