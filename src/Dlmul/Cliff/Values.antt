-- ===== src/Dlmul/Cliff/Values.antt =====
-- The integers that mb5 and mb8 in class 3 compute. None of the operations overflows on the values that the
-- sources hold, so that they are plain sums and products.
use native.Mathlib.Nat.{mul_comm, mul-le-mul_left, mul-le-mul_right}
use vectorizer_experiments.Base.{ℕ, ◌+◌, ◌*◌, ◌≤◌, ◌<◌, ◌≡◌, arith, leb, if◌then◌else◌}
use vectorizer_experiments.Dlmul.Ints.{extend, word}
use vectorizer_experiments.Dlmul.Widen.Phases.{wide_sum, wide_product}

-- The int32_t of a block, with the wrap-around.
abbrev pub pair_value : ℕ → ℕ → ℕ → ℕ
pair_value out u v = word (word (out + wide_sum u v) + wide_product u v)

abbrev pub squares_value : ℕ → ℕ → ℕ → ℕ
squares_value out u v =
    word
      (word (word (word (out + wide_sum u u) + wide_sum v v) + wide_product u u) + wide_product v v)

abbrev pub start_value : ℕ → ℕ → ℕ
start_value u v = word (wide_sum u v + wide_product u v)

abbrev pub value_4 : ℕ → ℕ → ℕ → ℕ
value_4 k u v = if leb 4 k then pair_value (start_value u v) v u else start_value u v

abbrev pub mb5_value : ℕ → ℕ → ℕ → ℕ
mb5_value k u v = if leb 8 k then squares_value (value_4 k u v) u v else value_4 k u v

abbrev pub mb8_value : ℕ → ℕ → ℕ → ℕ
mb8_value k u v =
    if leb 12 k then pair_value (pair_value (mb5_value k u v) u v) v u else mb5_value k u v

-- What they come to: the sum and the product, once more from 4 on, twice more from 12 on, and the
-- doubles and the squares from 8 on.
abbrev pub both_plain : ℕ → ℕ → ℕ
both_plain u v = u + v + u * v

abbrev pub mb5_plain : ℕ → ℕ → ℕ → ℕ
mb5_plain k u v =
    both_plain u v
    + (if leb 4 k then both_plain u v else 0)
    + (if leb 8 k then 2 * (u + v) + (u * u + v * v) else 0)

abbrev pub mb8_plain : ℕ → ℕ → ℕ → ℕ
mb8_plain k u v = mb5_plain k u v + (if leb 12 k then 2 * both_plain u v else 0)

word-small : (v : ℕ) → v < 4_294_967_296 → word v ≡ v
word-small v lt = omega arith

product-small : (u v : ℕ) → u ≤ 17 → v ≤ 17 → u * v ≤ 289
product-small u v pu pv = omega (arith, mul-le-mul_left u pv, mul-le-mul_right 17 pu)

extend-small : (v : ℕ) → v ≤ 17 → extend v ≡ v
unfolding extend
extend-small v small = ground arith

module _ (u v : ℕ) (small_u : u ≤ 17) (small_v : v ≤ 17) where
  wide_sum-plain : wide_sum u v ≡ u + v
  wide_sum-plain =
      rw (extend-small u small_u, extend-small v small_v) (word-small (u + v) (omega arith))

  wide_product-plain : wide_product u v ≡ u * v
  wide_product-plain =
      rw (extend-small u small_u, extend-small v small_v)
        (word-small (u * v) (omega (arith, product-small u v small_u small_v)))

  pair_value-plain : (out : ℕ) → out ≤ 10_000 → pair_value out u v ≡ out + both_plain u v
  pair_value-plain out small =
      let le = product-small u v small_u small_v in
      rw
        (
          wide_sum-plain,
          wide_product-plain,
          word-small (out + (u + v)) (omega arith),
          word-small (out + (u + v) + u * v) (omega (arith, le)),
        )
        (omega arith)

  start_value-plain : start_value u v ≡ both_plain u v
  start_value-plain =
      let le = product-small u v small_u small_v in
      rw (wide_sum-plain, wide_product-plain) (word-small (u + v + u * v) (omega (arith, le)))

module _ (u v : ℕ) (small_u : u ≤ 17) (small_v : v ≤ 17) where
  squares_value-plain :
      (out : ℕ) → out ≤ 10_000 → squares_value out u v ≡ out + (2 * (u + v) + (u * u + v * v))
  squares_value-plain out small =
      let le_u = product-small u u small_u small_u in
      let le_v = product-small v v small_v small_v in
      rw
        (
          wide_sum-plain u u small_u small_u,
          wide_sum-plain v v small_v small_v,
          wide_product-plain u u small_u small_u,
          wide_product-plain v v small_v small_v,
          word-small (out + (u + u)) (omega arith),
          word-small (out + (u + u) + (v + v)) (omega arith),
          word-small (out + (u + u) + (v + v) + u * u) (omega (arith, le_u)),
          word-small (out + (u + u) + (v + v) + u * u + v * v) (omega (arith, le_u, le_v)),
        )
        (omega arith)

  swapped : both_plain v u ≡ both_plain u v
  swapped = rw (mul_comm v u) (omega arith)

  value_4-plain : (k : ℕ) → value_4 k u v ≡ both_plain u v + (if leb 4 k then both_plain u v else 0)
  value_4-plain k =
      let le = product-small u v small_u small_v in
      rw
        (
          start_value-plain u v small_u small_v,
          pair_value-plain v u small_v small_u (both_plain u v) (omega (arith, le)),
          swapped,
        )
        (ground arith)

  pub mb5_value-plain : (k : ℕ) → mb5_value k u v ≡ mb5_plain k u v
  mb5_value-plain k =
      let le = product-small u v small_u small_v in
      rw
        (
          value_4-plain k,
          squares_value-plain (both_plain u v + (if leb 4 k then both_plain u v else 0))
              (ground (arith, le)),
        )
        (ground arith)

  pub mb8_value-plain : (k : ℕ) → mb8_value k u v ≡ mb8_plain k u v
  mb8_value-plain k =
      let le = product-small u v small_u small_v in
      let le_u = product-small u u small_u small_u in
      let le_v = product-small v v small_v small_v in
      let small : mb5_plain k u v ≤ 3_000 = ground (arith, le, le_u, le_v) in
      rw
        (
          mb5_value-plain k,
          pair_value-plain u v small_u small_v (mb5_plain k u v) (omega (arith, small)),
          pair_value-plain v u small_v small_u (mb5_plain k u v + both_plain u v)
              (omega (arith, small, le)),
          swapped,
        )
        (ground arith)
