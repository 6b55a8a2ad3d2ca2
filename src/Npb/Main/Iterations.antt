-- ===== src/Npb/Main/Iterations.antt =====
-- The iterations of `main`: what holds before each.
use vectorizer_experiments.Base.{
  ℕ, zero, suc, ◌+◌, ◌-◌, ◌*◌, ◌≤◌, ◌<◌, ◌≡◌, ◌∙◌, ap, true, arith, count, count-le, Cells, Ensures,
  Ensures-weaken,
}
use vectorizer_experiments.Npb.Config.{Class, Config, test_array_size, max_iterations}
use vectorizer_experiments.Npb.Population.{below}
use vectorizer_experiments.Npb.Buckets.Scatter.{Scattered}
use vectorizer_experiments.Npb.Rank.{State, rank}
use vectorizer_experiments.Npb.Rank.Partial.{agrees}
use vectorizer_experiments.Npb.Rank.Correct.{IsReady, IsIteration, HasRanks, marked, rank-Ensures}
use vectorizer_experiments.Npb.Main.Buffers.{IsClass}

-- The keys before an iteration: each iteration so far has put its two marks.
unfoldable pub keys_before : Config → Cells → ℕ → Cells
keys_before c start zero = start
keys_before c start (suc zero) = start
keys_before c start (suc (suc n)) = marked c (suc n) (keys_before c start (suc n))

-- The test keys that agree in the iterations before one.
unfoldable pub agreed_before : Config → Class → Cells → Cells → Cells → ℕ → ℕ
agreed_before c class start index expected zero = 0
agreed_before c class start index expected (suc zero) = 0
agreed_before c class start index expected (suc (suc n)) =
    agreed_before c class start index expected (suc n)
    + count (agrees c class (suc n) (keys_before c start (suc (suc n))) index expected)
        test_array_size

module _ (c : Config) (class : Class) (ok : IsClass c class) where
  module _ (start index expected : Cells)
      (start-lt : (i : ℕ) → i < c.num_keys → start i < c.max_key)
      (index-lt : (i : ℕ) → i < test_array_size → index i < c.num_keys)
      (expected-lt : (i : ℕ)
        → i < test_array_size
        → expected i + max_iterations + 4 < c.limit) where
    -- Before an iteration, behind the untimed one.
    pub record Iterating (iteration : ℕ) (st : State) : Type 0 where
      pub keys : st.key_array ≡ keys_before c start iteration
      pub keys-lt : (i : ℕ) → i < c.num_keys → st.key_array i < c.max_key
      pub ranks : (k : ℕ) → k < c.max_key → st.key_buff1 k ≡ below st.key_array c.num_keys (suc k)
      pub buckets :
          Scattered c st.key_array c.num_keys
            (record { buff = st.key_buff2; ptrs = st.bucket_ptrs })
      pub same_index : st.test_index_array ≡ index
      pub same_expected : st.test_rank_array ≡ expected
      pub passed : st.passed_verification ≡ agreed_before c class start index expected iteration
      pub bucket_room : c.num_buckets ≤ st.bucket_room
      pub global : max_iterations < iteration → st.key_buff_ptr_global ≡ true

    pub agreed-le :
        (iteration : ℕ) → agreed_before c class start index expected iteration ≤ 5 * (iteration - 1)
    unfolding agreed_before
    agreed-le zero = omega arith
    agreed-le (suc zero) = omega arith
    agreed-le (suc (suc n)) = omega (
      arith,
      agreed-le (suc n),
      count-le (agrees c class (suc n) (keys_before c start (suc (suc n))) index expected)
          test_array_size,
    )

    pub rank-Iterating :
        (iteration : ℕ)
        → 1 ≤ iteration
        → iteration < max_iterations + 1
        → (st : State) → Iterating iteration st
        → Ensures (rank c class iteration st) (Iterating (suc iteration))
    unfolding keys_before agreed_before
    rank-Iterating zero from upto st h = elim from [ ]
    rank-Iterating (suc n) from upto st h =
        let ready : IsReady c st = record {
          keys-lt = h.keys-lt;
          index-lt = λ i i-lt. rw h.same_index (index-lt i i-lt);
          room = omega (arith, h.passed, agreed-le (suc n), ok.room);
          buckets = h.bucket_room;
        } in
        let it : IsIteration c (suc n) = record {
          positive = from;
          key = omega (arith, ok.iterations);
          place = omega (arith, ok.places);
          int = omega arith;
        } in
        let expected : HasRanks c (suc n) st =
          λ i i-lt. rw h.same_expected (omega (arith, expected-lt i i-lt)) in
        Ensures-weaken _ _ _ (rank-Ensures c ok.config class (suc n) st ready it expected) λ st' r.
          let keys : st'.key_array ≡ keys_before c start (suc (suc n)) =
            r.keys ∙ ap (marked c (suc n)) h.keys in
          record {
            keys = keys;
            keys-lt = r.keys-lt;
            ranks = r.ranks;
            buckets = r.buckets;
            same_index = r.index ∙ h.same_index;
            same_expected = r.expected ∙ h.same_expected;
            bucket_room = rw r.room h.bucket_room;
            passed = r.passed ∙ λ i.
                h.passed i
                + count (agrees c class (suc n) (keys i) (h.same_index i) (h.same_expected i))
                    test_array_size;
            global = λ last. ground (arith, r.global);
          }
