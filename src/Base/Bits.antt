-- ===== src/Base/Bits.antt =====
-- Masks of machine words: what `x & m` is for the masks that the C code uses.
use Prim.Native.Nat.{
  ℕ, zero, suc, ◌+◌, ◌-◌, ◌*◌, ◌/◌, ◌%◌, ◌^◌, ◌≤◌, ◌<◌, min, bit_and, digits, bit_and-bitwise,
}
use mathlib.Core.Path.{◌≡◌, refl, ap, sym, ◌∙◌}
use native.Mathlib.Omega.{arith}

-- Conjunction on at most `rounds` digits, which `bit_and` is with as many rounds as its first number.
abbrev conjoin : ℕ → ℕ → ℕ → ℕ
conjoin rounds x m = digits (λ _. 0) min rounds x m

-- A number below its rounds has no digit left for one more.
conjoin-suc : (rounds x m : ℕ) → x ≤ rounds → conjoin (suc rounds) x m ≡ conjoin rounds x m
conjoin-suc zero zero m le = refl
conjoin-suc (suc rounds) zero m le = refl
conjoin-suc zero (suc x) m le = absurd (omega arith)
conjoin-suc (suc rounds) (suc x) m le =
    let rest = conjoin-suc rounds (suc x / 2) (m / 2) (omega arith) in omega (arith, rest)

conjoin-add : (spare x m : ℕ) → conjoin (x + spare) x m ≡ conjoin x x m
conjoin-add zero x m = ap (λ (r : ℕ). conjoin r x m) (omega arith)
conjoin-add (suc spare) x m =
    let next : x + suc spare ≡ suc (x + spare) = omega arith in
    rw next (conjoin-suc (x + spare) x m (omega arith) ∙ conjoin-add spare x m)

zero-bit_and : (m : ℕ) → bit_and 0 m ≡ 0
zero-bit_and = bit_and-bitwise 0

-- The lowest digit apart.
bit_and_step : (x m : ℕ) → bit_and x m ≡ min (x % 2) (m % 2) + 2 * bit_and (x / 2) (m / 2)
bit_and_step zero m = let rest = zero-bit_and (m / 2) in omega (arith, zero-bit_and m, rest)
bit_and_step (suc x) m =
    let half = suc x / 2 in
    let enough : half + (x - half) ≡ x = omega arith in
    let rest : conjoin x half (m / 2) ≡ bit_and half (m / 2) =
      ap (λ (r : ℕ). conjoin r half (m / 2)) (sym enough)
      ∙ conjoin-add (x - half) half (m / 2)
      ∙ sym (bit_and-bitwise half (m / 2)) in
    omega (arith, rest, bit_and-bitwise (suc x) m)

-- 2^n - 1, as n ones.
ones : ℕ → ℕ
ones zero = 0
ones (suc n) = 2 * ones n + 1

bit_and-ones : (n x : ℕ) → x ≤ ones n → bit_and x (ones n) ≡ x
unfolding ones
bit_and-ones zero x h = let e : x ≡ 0 = omega arith in rw e (zero-bit_and 0)
bit_and-ones (suc n) x h =
    let half : (2 * ones n + 1) / 2 ≡ ones n = omega arith in
    omega (
      arith,
      bit_and_step x (2 * ones n + 1),
      ap (bit_and (x / 2)) half,
      bit_and-ones n (x / 2) (omega arith),
    )

-- The mask that clears the low k bits of a word of 64 bits.
pub clear_4 : (x : ℕ) → x < 2 ^ 64 → bit_and x (2 ^ 64 - 16) ≡ x - x % 16
unfolding ones
clear_4 x h = omega (
  arith,
  bit_and_step x (2 ^ 64 - 16),
  bit_and_step (x / 2) (2 ^ 63 - 8),
  bit_and_step (x / 2 / 2) (2 ^ 62 - 4),
  bit_and_step (x / 2 / 2 / 2) (2 ^ 61 - 2),
  bit_and-ones 60 (x / 2 / 2 / 2 / 2) (omega arith),
)

pub clear_6 : (x : ℕ) → x < 2 ^ 64 → bit_and x (2 ^ 64 - 64) ≡ x - x % 64
unfolding ones
clear_6 x h = omega (
  arith,
  bit_and_step x (2 ^ 64 - 64),
  bit_and_step (x / 2) (2 ^ 63 - 32),
  bit_and_step (x / 2 / 2) (2 ^ 62 - 16),
  bit_and_step (x / 2 / 2 / 2) (2 ^ 61 - 8),
  bit_and_step (x / 2 / 2 / 2 / 2) (2 ^ 60 - 4),
  bit_and_step (x / 2 / 2 / 2 / 2 / 2) (2 ^ 59 - 2),
  bit_and-ones 58 (x / 2 / 2 / 2 / 2 / 2 / 2) (omega arith),
)
