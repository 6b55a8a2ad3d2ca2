-- ===== src/Npb/Population.antt =====
-- What the ranking computes, said without buckets: how many of the first n entries of an array have a
-- value, and how many lie below one.
use native.Mathlib.Nat.{div-lt_iff_lt-mul, div-mul-le_self, div-eq_of_lt-le}
use native.Mathlib.Decide.{dec_le}
use vectorizer_experiments.Base.{
  ℕ, zero, suc, ◌+◌, ◌*◌, ◌/◌, ◌≤◌, ◌<◌, ◌≡◌, ◌≢◌, ◌↔◌, refl, ap, arith, ltb, ltb_congr, ◌==◌,
  count, tally, count-le, count_mono, count_congr, count_split, count-true, count-false, Cells,
}

unfoldable pub population : Cells → ℕ → ℕ → ℕ
population f n v = count (λ i. f i == v) n

unfoldable pub below : Cells → ℕ → ℕ → ℕ
below f n v = count (λ i. ltb (f i) v) n

pub population-suc :
    (f : Cells) (n v : ℕ) → population f (suc n) v ≡ population f n v + tally (f n == v)
unfolding population count
population-suc f n v = refl

pub population-zero : (f : Cells) (v : ℕ) → population f 0 v ≡ 0
unfolding population count
population-zero f v = refl

-- Values below v + 1 are those below v and those equal to v.
pub below-suc : (f : Cells) (n v : ℕ) → below f n (suc v) ≡ below f n v + population f n v
unfolding below population tally
below-suc f n v = count_split _ _ _ n (λ i h. ground arith)

pub below-zero : (f : Cells) (n : ℕ) → below f n 0 ≡ 0
unfolding below
below-zero f n = count-false _ n (λ i h. ground arith)

pub below-le : (f : Cells) (n v : ℕ) → below f n v ≤ n
unfolding below
below-le f n v = count-le _ n

pub population-le : (f : Cells) (n v : ℕ) → population f n v ≤ n
unfolding population
population-le f n v = count-le _ n

pub population_mono : (f : Cells) (n m v : ℕ) → n ≤ m → population f n v ≤ population f m v
unfolding population
population_mono f n m v h = count_mono _ n m h

pub population_congr :
    (f g : Cells) (n v : ℕ) → ((i : ℕ) → i < n → f i ≡ g i) → population f n v ≡ population g n v
unfolding population
population_congr f g n v h = count_congr _ _ n (λ i lt. ap (λ (x : ℕ). x == v) (h i lt))

pub below_mono : (f : Cells) (n v w : ℕ) → v ≤ w → below f n v ≤ below f n w
below_mono f n v zero h = let e : v ≡ 0 = omega arith in rw e (omega arith)
below_mono f n v (suc w) h = elim (dec_le v w) [
  | yes le ↦ omega (arith, below_mono f n v w le, below-suc f n w)
  | no gt ↦ let e : v ≡ suc w = omega arith in rw e (omega arith)
]

-- Every value lies below a bound of them all.
pub below-bound : (f : Cells) (n v : ℕ) → ((i : ℕ) → i < n → f i < v) → below f n v ≡ n
unfolding below
below-bound f n v h = count-true _ n (λ i lt. ground (arith, h i lt))

-- Buckets of w keys each: bucket b holds the values from b * w to b * w + w.
pub lt-div_iff : (k b w : ℕ) → 0 < w → ltb (k / w) b ≡ ltb k (b * w)
lt-div_iff k b w h =
    ltb_congr (k / w) b k (b * w) ((div-lt_iff_lt-mul h).0) ((div-lt_iff_lt-mul h).1)

pub below-bucket : (f : Cells) (n b w : ℕ) → 0 < w → below (λ i. f i / w) n b ≡ below f n (b * w)
unfolding below
below-bucket f n b w h = count_congr _ _ n (λ i lt. lt-div_iff (f i) b w h)

pub population_none : (f : Cells) (n v : ℕ) → ((i : ℕ) → i < n → f i ≢ v) → population f n v ≡ 0
unfolding population
population_none f n v h = count-false _ n (λ i lt. ground (arith, h i lt))

-- The bucket of a key tells where the key lies.
pub div-eq_iff : (k b w : ℕ) → 0 < w → (k / w ≡ b) ↔ ((b * w ≤ k) × (k < b * w + w))
div-eq_iff k b w h = (
  λ e. (rw e at (div-mul-le_self k w), omega (arith, (div-lt_iff_lt-mul h).0 (lt_suc k b w e))),
  λ (le, lt). div-eq_of_lt-le w le (omega arith),
)
  where
    lt_suc : (k b w : ℕ) → k / w ≡ b → k / w < suc b
    lt_suc k b w e = omega arith
