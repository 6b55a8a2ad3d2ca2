-- ===== src/Npb/Buckets/Sizes.antt =====
-- The first two loops of `rank`: the bucket sizes, and the bucket pointers accumulated from them.
use native.Mathlib.Nat.{div-lt_iff_lt-mul}
use vectorizer_experiments.Base.{
  ℕ, zero, suc, ◌+◌, ◌-◌, ◌/◌, ◌^◌, ◌≤◌, ◌<◌, ◌≡◌, ◌∙◌, sym, some, arith, tally, Cells, store,
  update, update_lem, Ensures, for_up-Ensures, for_range-Ensures, store-some,
}
use vectorizer_experiments.Npb.Config.{Config, IsConfig}
use vectorizer_experiments.Npb.Population.{
  population, below, population-suc, population-zero, population-le, below-suc, below-zero,
  below-le,
}
use vectorizer_experiments.Npb.Buckets.{
  increment, clear_sizes, count_size, count_sizes, accumulate_step, accumulate,
}

-- The bucket of a key.
abbrev pub bucket_of : Config → Cells → Cells
bucket_of c keys i = keys i / 2 ^ c.shift

module _ (c : Config) (ok : IsConfig c) where
  pub bucket-lt : (k : ℕ) → k < c.max_key → k / 2 ^ c.shift < c.num_buckets
  bucket-lt k h = (div-lt_iff_lt-mul ok.some_keys).1 (omega (arith, ok.even))

  -- An increment inside the array whose result fits.
  pub increment_lem :
      (len : ℕ) (cells : Cells) (i : ℕ)
      → i < len
      → cells i + 1 < c.limit
      → increment c len cells i ≡ some (update cells i (cells i + 1))
  unfolding increment
  increment_lem len cells i inside small = ground arith

  -- For a block with room for the buckets.
  module _ (room : ℕ) (enough : c.num_buckets ≤ room) where
    pub clear_sizes-Ensures :
        (work : Cells)
        → Ensures (clear_sizes c room work) (λ w. (b : ℕ) → b < c.num_buckets → w b ≡ 0)
    unfolding clear_sizes store
    clear_sizes-Ensures work =
        for_up-Ensures (λ n w. (b : ℕ) → b < n → w b ≡ 0) c.num_buckets _
          (λ i lt w h. record {
            value = update w i 0;
            returns = ground arith;
            holds = λ b below. ground (arith, h b);
          })
          work (λ b h. absurd (omega arith))

    module _ (keys : Cells) (in_range : (i : ℕ) → i < c.num_keys → keys i < c.max_key) where
      count_size-Ensures :
          (i : ℕ)
          → i < c.num_keys
          → (work : Cells)
          → ((b : ℕ) → b < c.num_buckets → work b ≡ population (bucket_of c keys) i b)
          → Ensures
              (count_size c room keys i work)
              (λ w. (b : ℕ) → b < c.num_buckets → w b ≡ population (bucket_of c keys) (suc i) b)
      unfolding count_size tally
      count_size-Ensures i lt work h =
          let b = bucket_of c keys i in
          let inside = bucket-lt (keys i) (in_range i lt) in
          let few = population-le (bucket_of c keys) i b in
          record {
            value = update work b (work b + 1);
            returns = ground (arith, h b inside, ok.fits);
            holds = λ b' b'-inside. ground (
              arith,
              h b' b'-inside,
              population-suc (bucket_of c keys) i b',
              update_lem work b b' (work b + 1),
            );
          }

      -- After the loop `work_buff[b]` is the number of keys of bucket b.
      pub count_sizes-Ensures :
          (work : Cells)
          → ((b : ℕ) → b < c.num_buckets → work b ≡ 0)
          → Ensures
              (count_sizes c room keys work)
              (λ w. (b : ℕ) → b < c.num_buckets → w b ≡ population (bucket_of c keys) c.num_keys b)
      unfolding count_sizes
      count_sizes-Ensures work h =
          for_up-Ensures
            (λ i w. (b : ℕ) → b < c.num_buckets → w b ≡ population (bucket_of c keys) i b)
            c.num_keys (count_size c room keys) count_size-Ensures work
            (λ b inside. h b inside ∙ sym (population-zero (bucket_of c keys) b))

      -- What the pointers are before the keys are moved: where each bucket begins.
      module _ (sizes : Cells)
          (sized : (b : ℕ)
            → b < c.num_buckets
            → sizes b ≡ population (bucket_of c keys) c.num_keys b) where
        accumulate_step-Ensures :
            (i : ℕ)
            → 1 ≤ i
            → i < c.num_buckets
            → (ptrs : Cells) → ((b : ℕ) → b < i → ptrs b ≡ below (bucket_of c keys) c.num_keys b)
            → Ensures
                (accumulate_step c room sizes i ptrs)
                (λ p. (b : ℕ) → b < suc i → p b ≡ below (bucket_of c keys) c.num_keys b)
        unfolding accumulate_step update
        accumulate_step-Ensures zero pos lt ptrs h = elim pos [ ]
        accumulate_step-Ensures (suc i) pos lt ptrs h =
            let before = h i (omega arith) in
            let size = sized i (omega arith) in
            let next = below-suc (bucket_of c keys) c.num_keys i in
            let few = below-le (bucket_of c keys) c.num_keys (suc i) in
            let pred_suc : suc i - 1 ≡ i = omega arith in
            record {
              value = update (update ptrs (suc i) (ptrs i)) (suc i) (ptrs i + sizes i);
              returns = rw pred_suc (ground (arith, ok.fits));
              holds = λ b b-inside. ground (arith, h b);
            }

        pub accumulate-Ensures :
            (ptrs : Cells)
            → Ensures
                (accumulate c room sizes ptrs)
                (λ p. (b : ℕ) → b < c.num_buckets → p b ≡ below (bucket_of c keys) c.num_keys b)
        unfolding accumulate
        accumulate-Ensures ptrs = rw (store-some c.num_buckets ptrs 0 0 ok.some_buckets) (
            for_range-Ensures (λ i p. (b : ℕ) → b < i → p b ≡ below (bucket_of c keys) c.num_keys b)
              1 c.num_buckets (accumulate_step c room sizes) ok.some_buckets accumulate_step-Ensures
              (update ptrs 0 0)
              (λ b b-first.
                ground (arith, update_lem ptrs 0 b 0, below-zero (bucket_of c keys) c.num_keys)))
