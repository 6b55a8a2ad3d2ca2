-- ===== src/Npb/Random/Exact.antt =====
-- `randlc` is the linear congruential generator x' = a x mod 2^46, computed without rounding.
use native.Mathlib.Nat.{mul-le-mul}
use mathlib.Core.Path.{ap₂}
use vectorizer_experiments.Base.{
  ℕ, ◌+◌, ◌-◌, ◌*◌, ◌/◌, ◌%◌, ◌^◌, ◌≤◌, ◌<◌, ◌≡◌, ◌∙◌, refl, sym, ap, Option, none, some, arith,
}
use vectorizer_experiments.Npb.Random.{Scales, make_scales, scales_of, exact, to_int, minus, randlc}

-- `KS` is unset, or the constants are the right ones.
pub data IsScaled : Option Scales → Type 0 where
  unset : IsScaled none
  scaled : IsScaled (some make_scales)

-- One step of the generator.
unfoldable pub lcg : ℕ → ℕ → ℕ
lcg a x = a * x % 2 ^ 46

scales_of_lem : (ks : Option Scales) → IsScaled ks → scales_of ks ≡ make_scales
unfolding scales_of
scales_of_lem _ unset = refl
scales_of_lem _ scaled = refl

-- The product from the parts of 23 bits.
lcg_parts :
    (a1 a2 x1 x2 : ℕ)
    → lcg (2 ^ 23 * a1 + a2) (2 ^ 23 * x1 + x2)
      ≡ (2 ^ 23 * ((a1 * x2 + a2 * x1) % 2 ^ 23) + a2 * x2) % 2 ^ 46
unfolding lcg
lcg_parts a1 a2 x1 x2 = omega arith

product-le : (m n : ℕ) → m < 2 ^ 23 → n < 2 ^ 23 → m * n ≤ (2 ^ 23 - 1) * (2 ^ 23 - 1)
product-le m n p q =
    let hm : m ≤ 2 ^ 23 - 1 = omega arith in
    let hn : n ≤ 2 ^ 23 - 1 = omega arith in mul-le-mul hm hn

pub exact-some : (v : ℕ) → v ≤ 2 ^ 53 → exact v ≡ some v
unfolding exact
exact-some v h = ground arith

to_int-some : (v : ℕ) → v < 2 ^ 31 → to_int v ≡ some v
unfolding to_int
to_int-some v h = ground arith

-- Splitting off the low 23 or 46 bits.
low_23 : (v : ℕ) → minus v (2 ^ 23 * (v / 2 ^ 23)) ≡ some (v % 2 ^ 23)
unfolding minus
low_23 v = ground arith

low_46 : (v : ℕ) → minus v (2 ^ 46 * (v / 2 ^ 46)) ≡ some (v % 2 ^ 46)
unfolding minus
low_46 v = ground arith

randlc_scaled :
    (ks : Option Scales) (x a : ℕ)
    → scales_of ks ≡ make_scales
    → x < 2 ^ 46
    → a < 2 ^ 46
    → randlc ks x a ≡ some (make_scales, lcg a x)
unfolding randlc make_scales
randlc_scaled ks x a e hx ha =
    let a1 = a / 2 ^ 23 in
    let a2 = a % 2 ^ 23 in
    let x1 = x / 2 ^ 23 in
    let x2 = x % 2 ^ 23 in
    let p = product-le a1 x2 (omega arith) (omega arith) in
    let q = product-le a2 x1 (omega arith) (omega arith) in
    let r = product-le a2 x2 (omega arith) (omega arith) in
    let t1 = a1 * x2 + a2 * x1 in
    let t3 = 2 ^ 23 * (t1 % 2 ^ 23) + a2 * x2 in
    let same_a : 2 ^ 23 * a1 + a2 ≡ a = omega arith in
    let same_x : 2 ^ 23 * x1 + x2 ≡ x = omega arith in
    rw
      (
        e,
        to_int-some a1 (omega arith),
        low_23 a,
        to_int-some x1 (omega arith),
        low_23 x,
        exact-some t1 (omega arith),
        to_int-some (t1 / 2 ^ 23) (omega arith),
        low_23 t1,
        exact-some t3 (omega arith),
        to_int-some (t3 / 2 ^ 46) (omega arith),
        low_46 t3,
      )
      (ap (λ (v : ℕ). some (make_scales, v)) (sym (lcg_parts a1 a2 x1 x2) ∙ ap₂ lcg same_a same_x))

-- For a number and a multiplier below 2^46, with scales that are unset or set by an earlier call,
-- `randlc` returns, stores the scales, rounds no double and leaves a x mod 2^46.
pub randlc_lem :
    (ks : Option Scales) (x a : ℕ)
    → IsScaled ks
    → x < 2 ^ 46
    → a < 2 ^ 46
    → randlc ks x a ≡ some (make_scales, lcg a x)
randlc_lem ks x a h hx ha = randlc_scaled ks x a (scales_of_lem ks h) hx ha

pub lcg-lt : (a x : ℕ) → lcg a x < 2 ^ 46
unfolding lcg
lcg-lt a x = omega arith
