-- ===== src/Base/Count.antt =====
-- How many of the first n indices meet a test, and sums of the first n values.
use Prim.Native.Nat.{ℕ, zero, suc, ◌+◌, ◌-◌, ◌≤◌, ◌<◌, min}
use mathlib.Core.Path.{◌≡◌, refl}
use mathlib.Core.Bool.{Bool, true, false, ◌&&◌}
use native.Mathlib.Omega.{arith}
use native.Mathlib.Decide.{dec_le}
use vectorizer_experiments.Base.Tests.{ltb, leb, if◌then◌else◌}

unfoldable pub tally : Bool → ℕ
tally b = if b then 1 else 0

unfoldable pub count : (ℕ → Bool) → ℕ → ℕ
count p zero = 0
count p (suc n) = count p n + tally (p n)

pub count-suc : (p : ℕ → Bool) (n : ℕ) → count p (suc n) ≡ count p n + tally (p n)
unfolding count
count-suc p n = refl

pub count-le : (p : ℕ → Bool) (n : ℕ) → count p n ≤ n
unfolding count tally
count-le p zero = omega arith
count-le p (suc n) = ground (arith, count-le p n)

pub count_mono : (p : ℕ → Bool) (n m : ℕ) → n ≤ m → count p n ≤ count p m
unfolding count
count_mono p n zero h = let e : n ≡ 0 = omega arith in rw e (omega arith)
count_mono p n (suc m) h = elim (dec_le n m) [
  | yes below ↦ omega (arith, count_mono p n m below)
  | no above ↦ let e : n ≡ suc m = omega arith in rw e (omega arith)
]

-- Tests that agree below n.
pub count_congr : (p q : ℕ → Bool) (n : ℕ) → ((i : ℕ) → i < n → p i ≡ q i) → count p n ≡ count q n
unfolding count
count_congr p q zero h = refl
count_congr p q (suc n) h = rw (h n (omega arith), count_congr p q n (λ i lt. h i (omega arith)))

-- One test is the disjoint union of two.
pub count_split :
    (p q r : ℕ → Bool) (n : ℕ)
    → ((i : ℕ) → i < n → tally (r i) ≡ tally (p i) + tally (q i))
    → count r n ≡ count p n + count q n
unfolding count
count_split p q r zero h = omega arith
count_split p q r (suc n) h =
    omega (arith, h n (omega arith), count_split p q r n (λ i lt. h i (omega arith)))

pub count-true : (p : ℕ → Bool) (n : ℕ) → ((i : ℕ) → i < n → p i ≡ true) → count p n ≡ n
unfolding count tally
count-true p zero h = refl
count-true p (suc n) h = ground (arith, h n, count-true p n (λ i lt. h i (omega arith)))

pub count-false : (p : ℕ → Bool) (n : ℕ) → ((i : ℕ) → i < n → p i ≡ false) → count p n ≡ 0
unfolding count tally
count-false p zero h = refl
count-false p (suc n) h = ground (arith, h n, count-false p n (λ i lt. h i (omega arith)))

count_interval_min : (lo hi n : ℕ) → lo ≤ hi → count (λ i. leb lo i && ltb i hi) n ≡ min hi n - lo
unfolding count tally
count_interval_min lo hi zero h = omega arith
count_interval_min lo hi (suc n) h = ground (arith, count_interval_min lo hi n h)

-- The indices of an interval.
pub count_interval :
    (lo hi n : ℕ) → lo ≤ hi → hi ≤ n → count (λ i. leb lo i && ltb i hi) n ≡ hi - lo
count_interval lo hi n a b = omega (arith, count_interval_min lo hi n a)

pub count_zero : (p : ℕ → Bool) → count p 0 ≡ 0
unfolding count
count_zero p = refl
