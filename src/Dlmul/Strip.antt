-- ===== src/Dlmul/Strip.antt =====
-- The two strip-mined loops of the benches. Both run on fuel; a round that makes progress uses one unit.
pub mod Rule
pub mod Sweep
pub mod Indexed
use vectorizer_experiments.Base.{
  ℕ, zero, suc, ◌+◌, ◌-◌, ◌*◌, Option, none, some, ltb, leb, if◌then◌else◌, ◌>>=◌, ◌>>◌, guard,
}
use vectorizer_experiments.Dlmul.Rvv.{Memory, Rvv}

-- while (remaining > 0) { vl = step(offset, remaining); remaining -= vl; offset += vl; }
unfoldable pub strip_while {ℓ} :
    {S : Type ℓ} → ℕ → (ℕ → ℕ → S → Option (ℕ × S)) → ℕ → ℕ → S → Option S
strip_while zero step offset remaining st = none
strip_while (suc fuel) step offset remaining st =
    let round = step offset remaining st >>= λ out.
    guard (leb out.0 remaining)
    >> strip_while fuel step (offset + out.0) (remaining - out.0) out.1 in
    if ltb 0 remaining then round else some st

-- for (offset = 0; offset < total; offset += vl) { avl = total - offset; if (avl > vl) avl = vl; ... }
unfoldable pub strip_for {ℓ} : {S : Type ℓ} → ℕ → ℕ → ℕ → (ℕ → ℕ → S → Option S) → ℕ → S → Option S
strip_for zero total vl body offset st = none
strip_for (suc fuel) total vl body offset st =
    let rest = total - offset in
    let avl = if ltb vl rest then vl else rest in
    let round = body offset avl st >>= strip_for fuel total vl body (offset + vl) in
    if ltb offset total then round else some st
