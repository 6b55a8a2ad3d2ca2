-- ===== src/Npb/Rank/Partial.antt =====
-- The partial verification: which test keys it counts as passed.
use vectorizer_experiments.Base.{
  ℕ, suc, ◌+◌, ◌-◌, ◌^◌, ◌==◌, ◌<◌, ◌≡◌, ◌∙◌, ap, Bool, some, arith, ltb, leb, ◌&&◌, tally, count,
  count-suc, count-le, count_zero, Cells, update, update_lem, load-some, store-some, Ensures,
  for_up-Ensures,
}
use vectorizer_experiments.Npb.Config.{Config, Class, test_array_size}
use vectorizer_experiments.Npb.Population.{below}
use vectorizer_experiments.Npb.Rank.{pick_test_keys, verify_test_key, verify_test_keys}
use vectorizer_experiments.Npb.Rank.Shifts.{
  shifts, shift_at, equals_rank-Stands, expected_rank-RankedAs,
}

-- What the test of key i asks, said of the keys: the key there is neither 0 nor NUM_KEYS or more, and as
-- many keys are smaller as the verification data says, with the shift of the class and iteration.
unfoldable pub agrees : Config → Class → ℕ → Cells → Cells → Cells → ℕ → Bool
agrees c class iteration keys test_index test_rank i =
    let k = keys (test_index i) in
    (ltb 0 k && leb k (c.num_keys - 1))
    && (let shift = shift_at (shifts class iteration) i in
        below keys c.num_keys k + shift.down == test_rank i + shift.up)

module _ (c : Config) (keys test_index : Cells)
    (in_range : (i : ℕ) → i < c.num_keys → keys i < c.max_key)
    (index-lt : (i : ℕ) → i < test_array_size → test_index i < c.num_keys) where
  pub pick_test_keys-Ensures :
      (vals : Cells)
      → Ensures
          (pick_test_keys c keys test_index vals)
          (λ r. (i : ℕ) → i < test_array_size → r i ≡ keys (test_index i))
  unfolding pick_test_keys
  pick_test_keys-Ensures vals =
      for_up-Ensures (λ n r. (i : ℕ) → i < n → r i ≡ keys (test_index i)) test_array_size _
        (λ i i-lt r h. record {
          value = update r i (keys (test_index i));
          returns = rw (
            load-some test_array_size test_index i i-lt,
            load-some c.num_keys keys (test_index i) (index-lt i i-lt),
            store-some test_array_size r i (keys (test_index i)) i-lt,
          );
          holds = λ j j-lt. ground (
            arith,
            h j,
            update_lem r i j (keys (test_index i)),
            ap (λ (x : ℕ). keys (test_index x)),
          );
        })
        vals (λ i i-lt. absurd (omega arith))

  module _ (class : Class) (iteration : ℕ) (vals test_rank buff1 : Cells)
      (picked : (i : ℕ) → i < test_array_size → vals i ≡ keys (test_index i))
      (ranked : (k : ℕ) → k < c.max_key → buff1 k ≡ below keys c.num_keys (suc k))
      (expected-lt : (i : ℕ) → i < test_array_size → test_rank i + iteration + 4 < c.limit) where
    -- The rank that the test reads is the number of smaller keys.
    rank_read :
        (i : ℕ)
        → i < test_array_size
        → 0 < keys (test_index i)
        → buff1 (keys (test_index i) - 1) ≡ below keys c.num_keys (keys (test_index i))
    rank_read i i-lt positive =
        let k-lt = in_range (test_index i) (index-lt i i-lt) in
        let e : suc (keys (test_index i) - 1) ≡ keys (test_index i) = omega arith in
        ranked (keys (test_index i) - 1) (omega arith) ∙ ap (below keys c.num_keys) e

    verify_test_key_lem :
        (i passed : ℕ)
        → i < test_array_size
        → passed + 1 < 2 ^ 31
        → verify_test_key c class iteration vals test_rank buff1 i passed
          ≡ some (passed + tally (agrees c class iteration keys test_index test_rank i))
    unfolding verify_test_key agrees tally
    verify_test_key_lem i passed i-lt fits =
        let shift = shift_at (shifts class iteration) i in
        let expected =
          expected_rank-RankedAs c iteration (test_rank i) (expected-lt i i-lt) class i i-lt in
        let found =
          equals_rank-Stands (below keys c.num_keys (keys (test_index i))) (test_rank i + shift.up)
            shift.down expected.value expected.holds in
        ground (
          arith,
          picked i i-lt,
          rank_read i i-lt,
          in_range (test_index i) (index-lt i i-lt),
          expected.returns,
          found,
        )

    -- Where all keys lie below MAX_KEY, the test indices inside the array, `partial_verify_vals`
    -- holds the test keys, `key_buff1` the ranks, the test ranks stay INT_TYPEs with the
    -- iteration and 4 added, and `passed_verification`, an `int`, has room for five, the partial
    -- verification returns and adds to the counter the number of the five test keys that are
    -- neither 0 nor NUM_KEYS or more and have as many smaller keys as their test rank says,
    -- shifted up and down by what a table names for the class and iteration.
    pub verify_test_keys-Ensures :
        (passed : ℕ)
        → passed + test_array_size < 2 ^ 31
        → Ensures (verify_test_keys c class iteration vals test_rank buff1 passed) (λ r.
          r ≡ passed + count (agrees c class iteration keys test_index test_rank) test_array_size)
    unfolding verify_test_keys
    verify_test_keys-Ensures passed fits =
        for_up-Ensures
          (λ n r. r ≡ passed + count (agrees c class iteration keys test_index test_rank) n)
          test_array_size (verify_test_key c class iteration vals test_rank buff1)
          (λ i i-lt r h.
            let few = count-le (agrees c class iteration keys test_index test_rank) i in
            record {
              value = r + tally (agrees c class iteration keys test_index test_rank i);
              returns = verify_test_key_lem i r i-lt (omega arith);
              holds =
                  omega (arith, count-suc (agrees c class iteration keys test_index test_rank) i);
            })
          passed (omega (arith, count_zero (agrees c class iteration keys test_index test_rank)))
