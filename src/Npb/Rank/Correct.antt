-- ===== src/Npb/Rank/Correct.antt =====
-- `rank` ranks, and `full_verify` after it sorts.
use vectorizer_experiments.Base.{
  ℕ, suc, ◌+◌, ◌-◌, ◌^◌, ◌≤◌, ◌<◌, ◌≡◌, refl, true, some, arith, ◌==◌, if◌then◌else◌, count, Cells,
  update, Ensures, Ensures-bind, Ensures-some,
}
use vectorizer_experiments.Npb.Config.{
  Config, IsConfig, Class, count_up-some, test_array_size, max_iterations,
}
use vectorizer_experiments.Npb.Population.{below}
use vectorizer_experiments.Npb.Buckets.Sizes.{
  clear_sizes-Ensures, count_sizes-Ensures, accumulate-Ensures,
}
use vectorizer_experiments.Npb.Buckets.Scatter.{Scattered, scatter-Ensures}
use vectorizer_experiments.Npb.Buckets.Section.{rank_buckets-Ensures}
use vectorizer_experiments.Npb.Verify.Order.{IsSortOf, Filled-IsSortOf, unsorted-ascending}
use vectorizer_experiments.Npb.Verify.Place.{place_keys-Ensures}
use vectorizer_experiments.Npb.Rank.{State, mark_iteration, rank, full_verify}
use vectorizer_experiments.Npb.Rank.Partial.{
  agrees, pick_test_keys-Ensures, verify_test_keys-Ensures,
}

-- What `rank` needs: keys in range, test keys inside the array, room in the counter, an `int`, and in the
-- block of the bucket sizes.
pub record IsReady (c : Config) (st : State) : Type 0 where
  pub keys-lt : (i : ℕ) → i < c.num_keys → st.key_array i < c.max_key
  pub index-lt : (i : ℕ) → i < test_array_size → st.test_index_array i < c.num_keys
  pub room : st.passed_verification + test_array_size < 2 ^ 31
  pub buckets : c.num_buckets ≤ st.bucket_room

-- The number of an iteration is a key, the mirrored one too, and both places are in the array and `int`s.
pub record IsIteration (c : Config) (iteration : ℕ) : Type 0 where
  pub positive : 0 < iteration
  pub key : iteration < c.max_key
  pub place : iteration + max_iterations < c.num_keys
  pub int : iteration + max_iterations < 2 ^ 31

-- The expected ranks, shifted by an iteration, are values of INT_TYPE.
abbrev pub HasRanks : Config → ℕ → State → Type 0
HasRanks c iteration st =
    (i : ℕ) → i < test_array_size → st.test_rank_array i + iteration + 4 < c.limit

-- The keys of an iteration.
abbrev pub marked : Config → ℕ → Cells → Cells
marked c iteration keys =
    update (update keys iteration iteration) (iteration + max_iterations) (c.max_key - iteration)

-- The state behind `rank`: every key value has its rank, the keys lie in their buckets, and the counter
-- has gone up by the test keys that agree.
pub record Ranked (c : Config) (class : Class) (iteration : ℕ) (st st' : State) : Type 0 where
  pub keys : st'.key_array ≡ marked c iteration st.key_array
  pub keys-lt : (i : ℕ) → i < c.num_keys → st'.key_array i < c.max_key
  pub ranks : (k : ℕ) → k < c.max_key → st'.key_buff1 k ≡ below st'.key_array c.num_keys (suc k)
  pub buckets :
      Scattered c st'.key_array c.num_keys (record { buff = st'.key_buff2; ptrs = st'.bucket_ptrs })
  pub passed :
      st'.passed_verification
      ≡ st.passed_verification
        + count
            (agrees c class iteration st'.key_array st.test_index_array st.test_rank_array)
            test_array_size
  pub index : st'.test_index_array ≡ st.test_index_array
  pub room : st'.bucket_room ≡ st.bucket_room
  pub expected : st'.test_rank_array ≡ st.test_rank_array
  pub global :
      st'.key_buff_ptr_global
      ≡ (if iteration == max_iterations then true else st.key_buff_ptr_global)

module _ (c : Config) (ok : IsConfig c) where
  mark_iteration_lem :
      (iteration : ℕ) (keys : Cells)
      → IsIteration c iteration
      → mark_iteration c iteration keys ≡ some (marked c iteration keys)
  unfolding mark_iteration update
  mark_iteration_lem iteration keys it = ground arith

  pub marked-lt :
      (iteration : ℕ) (keys : Cells)
      → IsIteration c iteration
      → ((i : ℕ) → i < c.num_keys → keys i < c.max_key)
      → (i : ℕ) → i < c.num_keys
      → marked c iteration keys i < c.max_key
  unfolding update
  marked-lt iteration keys it h i i-lt = ground (arith, h i i-lt)

  -- In a configuration whose buckets divide the key range evenly and whose number of keys is an
  -- INT_TYPE, with all keys below MAX_KEY, the test indices inside the array, room for five in
  -- `passed_verification`, an `int`, a block of bucket sizes with room for the buckets, an
  -- iteration that is positive, below MAX_KEY and marks places inside the array with an `int` as
  -- index, and test ranks that stay INT_TYPEs with the iteration and 4 added, `rank` returns. Then
  -- `key_buff1[k]` is the number of keys up to k for every key value k, `key_buff2` holds the keys
  -- bucket by bucket with `bucket_ptrs` at the ends of the buckets, the counter has grown by the
  -- number of test keys whose rank is the one that a table of shifts names for the class and
  -- iteration, and `key_buff_ptr_global` is set at the last iteration.
  pub rank-Ensures :
      (class : Class) (iteration : ℕ) (st : State)
      → IsReady c st
      → IsIteration c iteration
      → HasRanks c iteration st
      → Ensures (rank c class iteration st) (Ranked c class iteration st)
  unfolding rank
  rank-Ensures class iteration st ready it expected =
      let keys = marked c iteration st.key_array in
      let keys-lt = marked-lt iteration st.key_array it ready.keys-lt in
      rw (mark_iteration_lem iteration st.key_array it) (
        Ensures-bind _ _ _ _
          (pick_test_keys-Ensures c keys st.test_index_array keys-lt ready.index-lt
            st.partial_verify_vals)
          λ vals picked.
            Ensures-bind _ _ _ _
              (clear_sizes-Ensures c ok st.bucket_room ready.buckets st.bucket_size)
              λ cleared zeros.
                Ensures-bind _ _ _ _
                  (count_sizes-Ensures c ok st.bucket_room ready.buckets keys keys-lt cleared zeros)
                  λ sizes sized.
                    Ensures-bind _ _ _ _
                      (accumulate-Ensures c ok st.bucket_room ready.buckets keys keys-lt sizes sized
                        st.bucket_ptrs)
                      λ ptrs pointed.
                        Ensures-bind _ _ _ _
                          (scatter-Ensures c ok keys keys-lt
                            (record { buff = st.key_buff2; ptrs = ptrs }) pointed)
                          λ s moved.
                            Ensures-bind _ _ _ _
                              (rank_buckets-Ensures c ok keys s moved st.key_buff1)
                              λ buff1 ranked.
                                Ensures-bind _ _ _ _
                                  (verify_test_keys-Ensures c keys st.test_index_array keys-lt
                                    ready.index-lt class iteration vals st.test_rank_array buff1
                                    picked ranked expected st.passed_verification ready.room)
                                  λ passed counted. Ensures-some _ _ (record {
                                    keys = refl;
                                    keys-lt = keys-lt;
                                    ranks = ranked;
                                    buckets = moved;
                                    passed = counted;
                                    index = refl;
                                    room = refl;
                                    expected = refl;
                                    global = refl;
                                  }))

  -- In such a configuration with at least one key, where `key_buff_ptr_global` is set, all keys lie
  -- below MAX_KEY, `key_buff1` holds the ranks of the keys, `key_buff2` and `bucket_ptrs` the keys
  -- in their buckets, and there is room for one in `passed_verification`, an `int`, `full_verify`
  -- returns, leaves the keys in ascending order, each as often as before, and adds one to
  -- `passed_verification`.
  pub full_verify-Ensures :
      (st : State)
      → 0 < c.num_keys
      → st.key_buff_ptr_global ≡ true
      → ((i : ℕ) → i < c.num_keys → st.key_array i < c.max_key)
      → ((k : ℕ) → k < c.max_key → st.key_buff1 k ≡ below st.key_array c.num_keys (suc k))
      → Scattered c st.key_array c.num_keys (record { buff = st.key_buff2; ptrs = st.bucket_ptrs })
      → st.passed_verification + 1 < 2 ^ 31
      → Ensures (full_verify c st) (λ st'.
        IsSortOf c.num_keys st.key_array st'.key_array
        × (st'.passed_verification ≡ st.passed_verification + 1))
  unfolding full_verify
  full_verify-Ensures st some_keys global keys-lt ranked moved room = rw global (
      Ensures-bind _ _ _ _
        (place_keys-Ensures c ok st.key_array
          (record { buff = st.key_buff2; ptrs = st.bucket_ptrs }) moved
          (record { ranks = st.key_buff1; keys = st.key_array }) ranked)
        λ out filled.
          let sorted = Filled-IsSortOf c.num_keys st.key_array c.max_key keys-lt out.keys filled in
          Ensures-bind _ _ _ _ (unsorted-ascending c out.keys some_keys sorted.ascending)
            λ j none_found.
              rw (none_found, count_up-some st.passed_verification room)
                (Ensures-some _ _ (sorted, refl)))
