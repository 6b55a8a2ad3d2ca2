-- ===== src/Npb/Tests.antt =====
-- Runs of the sort on small arrays, and the theorems at inputs of class S.
use vectorizer_experiments.Base.{
  ℕ, suc, ◌+◌, count-le, ◌*◌, ◌%◌, ◌^◌, ◌<◌, ◌≡◌, refl, false, Option, none, some, ◌>>=◌, for_up,
  load, store, arith, Cells, count, Ensures, update, for_range,
}
use vectorizer_experiments.Base.Int.{◌+ℤ◌, ◌-ℤ◌}
use vectorizer_experiments.Npb.Config.{
  class_s, Config, config, config-IsConfig, test_array_size, max_iterations, add_int, count_up,
}
use vectorizer_experiments.Npb.Population.{below}
use vectorizer_experiments.Npb.Buckets.{
  Sorting, scatter, rank_buckets, increment, clear_sizes, count_size, count_sizes, accumulate_step,
  accumulate, scatter_step, clear_section, count_key, count_population, add_population,
  add_populations, section_start, rank_bucket,
}
use vectorizer_experiments.Npb.Verify.{
  decrement, place_key, place_bucket, place_keys, count_unsorted, unsorted,
}
use vectorizer_experiments.Npb.Buckets.Sizes.{bucket_of}
use vectorizer_experiments.Npb.Buckets.Scatter.{Scattered, scatter-Ensures}
use vectorizer_experiments.Npb.Buckets.Section.{rank_buckets-Ensures}
use vectorizer_experiments.Npb.Verify.Order.{IsSortOf}
use vectorizer_experiments.Npb.Random.{
  Scales, exact, to_int, minus, scales_of, make_scales, randlc, find_my_seed, create_seq,
}
use vectorizer_experiments.Npb.Random.Exact.{IsScaled, unset, lcg, randlc_lem}
use vectorizer_experiments.Npb.Random.Seed.{lcg_iter, find_my_seed_lem}
use vectorizer_experiments.Npb.Random.Keys.{key_of, create_seq-keys}
use vectorizer_experiments.Npb.Rank.{
  State, rank, full_verify, verify_test_keys, expected_rank, equals_rank, int_sum, int_difference,
  pick_test_keys, compare_rank, verify_test_key, mark_iteration,
}
use vectorizer_experiments.Npb.Rank.Partial.{agrees, verify_test_keys-Ensures}
use vectorizer_experiments.Npb.Rank.Correct.{
  IsReady, IsIteration, HasRanks, Ranked, rank-Ensures, full_verify-Ensures,
}
use vectorizer_experiments.Npb.Main.{main}
use vectorizer_experiments.Npb.Main.Correct.{Verified}
use vectorizer_experiments.Npb.Main.Classes.{class-IsClass, class-IsSequence, main-Verified}

-- A class of 24 keys below 16 in 4 buckets.
abbrev small : Config
small = record {
  num_keys = 24;
  max_key = 16;
  num_buckets = 4;
  shift = 2;
  limit = 2 ^ 31;
  int_size = 4;
}

abbrev sample_keys : Cells
sample_keys i = i * 7 % 16

abbrev start : State
start = record {
  key_array = sample_keys;
  key_buff1 = λ _. 9;
  key_buff2 = λ _. 9;
  bucket_size = λ _. 9;
  bucket_room = 512;
  bucket_ptrs = λ _. 9;
  partial_verify_vals = λ _. 9;
  test_index_array = λ i. i;
  test_rank_array = λ _. 0;
  key_buff_ptr_global = false;
  passed_verification = 0;
}

-- The last iteration on the small class, then the full verification: the key of one place.
sorted_at : ℕ → Option ℕ
sorted_at i = rank small class_s max_iterations start >>= λ st.
    full_verify small st >>= λ out. some (out.key_array i)

sorted_runs : (sorted_at 0 ≡ some 0) × (sorted_at 11 ≡ some 7) × (sorted_at 23 ≡ some 15)
unfolding sorted_at rank full_verify mark_iteration pick_test_keys clear_sizes count_sizes
    count_size accumulate accumulate_step scatter scatter_step rank_buckets rank_bucket
    clear_section section_start count_population count_key increment add_population add_populations
    add_int load store update for_up for_range verify_test_keys verify_test_key compare_rank
    expected_rank int_sum int_difference count_up equals_rank place_keys place_bucket place_key
    decrement unsorted count_unsorted ◌+ℤ◌ ◌-ℤ◌
sorted_runs = (refl, refl, refl)

randlc_runs : randlc none 314159265 1220703125 ≡ some (make_scales, 314159265 * 1220703125 % 2 ^ 46)
unfolding randlc to_int scales_of make_scales minus exact
randlc_runs = refl

main-Verified_example :
    Ensures
      (main (record { base = 64; bytes = 65536 }) (config class_s) class_s 0 start)
      (Verified (config class_s) class_s (class-IsClass class_s))
main-Verified_example =
    main-Verified (record { base = 64; bytes = 65536 }) class_s start (omega arith) refl refl

start-IsReady : IsReady (config class_s) start
unfolding config
start-IsReady = record {
  keys-lt = λ i i-lt. omega arith;
  index-lt = λ i i-lt. omega arith;
  room = omega arith;
  buckets = omega arith;
}

IsIteration-class_s :
    (iteration : ℕ) → 0 < iteration → iteration < 11 → IsIteration (config class_s) iteration
unfolding config
IsIteration-class_s iteration from upto = omega arith

HasRanks-class_s : (iteration : ℕ) → iteration < 11 → HasRanks (config class_s) iteration start
unfolding config
HasRanks-class_s iteration upto i i-lt = omega arith

rank-Ensures_example :
    Ensures (rank (config class_s) class_s 1 start) (Ranked (config class_s) class_s 1 start)
rank-Ensures_example =
    rank-Ensures (config class_s) (config-IsConfig class_s) class_s 1 start start-IsReady
      (IsIteration-class_s 1 (omega arith) (omega arith)) (HasRanks-class_s 1 (omega arith))

-- The last iteration, and the state behind it.
last_rank :
    Ensures (rank (config class_s) class_s 10 start) (Ranked (config class_s) class_s 10 start)
last_rank =
    rank-Ensures (config class_s) (config-IsConfig class_s) class_s 10 start start-IsReady
      (IsIteration-class_s 10 (omega arith) (omega arith)) (HasRanks-class_s 10 (omega arith))

many_keys : 0 < (config class_s).num_keys
unfolding config
many_keys = omega arith

room_left : last_rank.value.passed_verification + 1 < 2 ^ 31
room_left = omega (
  arith,
  last_rank.holds.passed,
  count-le
      (agrees (config class_s) class_s 10 last_rank.value.key_array start.test_index_array
        start.test_rank_array)
      test_array_size,
)

full_verify-Ensures_example : Ensures (full_verify (config class_s) last_rank.value) (λ out.
    IsSortOf (config class_s).num_keys last_rank.value.key_array out.key_array
    × (out.passed_verification ≡ last_rank.value.passed_verification + 1))
full_verify-Ensures_example =
    full_verify-Ensures (config class_s) (config-IsConfig class_s) last_rank.value many_keys
      last_rank.holds.global last_rank.holds.keys-lt last_rank.holds.ranks last_rank.holds.buckets
      room_left

-- Pointers at the starts of the buckets.
abbrev pointed : Sorting
pointed = record {
  buff = λ _. 0;
  ptrs = below (bucket_of (config class_s) sample_keys) (config class_s).num_keys;
}

sample_keys-lt : (i : ℕ) → i < (config class_s).num_keys → sample_keys i < (config class_s).max_key
unfolding config
sample_keys-lt i i-lt = omega arith

scatter-Ensures_example :
    Ensures
      (scatter (config class_s) sample_keys pointed)
      (Scattered (config class_s) sample_keys (config class_s).num_keys)
scatter-Ensures_example =
    scatter-Ensures (config class_s) (config-IsConfig class_s) sample_keys sample_keys-lt pointed
      (λ b b-lt. refl)

-- The keys in their buckets.
moved :
    Ensures
      (scatter (config class_s) sample_keys pointed)
      (Scattered (config class_s) sample_keys (config class_s).num_keys)
moved =
    scatter-Ensures (config class_s) (config-IsConfig class_s) sample_keys sample_keys-lt pointed
      (λ b b-lt. refl)

rank_buckets-Ensures_example : Ensures (rank_buckets (config class_s) moved.value (λ _. 5)) (λ r.
    (k : ℕ)
    → k < (config class_s).max_key
    → r k ≡ below sample_keys (config class_s).num_keys (suc k))
rank_buckets-Ensures_example =
    rank_buckets-Ensures (config class_s) (config-IsConfig class_s) sample_keys moved.value
      moved.holds (λ _. 5)

randlc_lem_example : randlc none 314159265 1220703125 ≡ some (make_scales, lcg 1220703125 314159265)
randlc_lem_example = randlc_lem none 314159265 1220703125 unset (omega arith) (omega arith)

find_my_seed_lem_example :
    (ks : Option Scales) × (find_my_seed none 3 4 262144 314159265 1220703125
      ≡ some (ks, lcg_iter (16384 * 4 * 3) 1220703125 314159265))
    × IsScaled ks
find_my_seed_lem_example =
    find_my_seed_lem none 3 4 262144 314159265 1220703125 16384 unset (omega arith) (omega arith)
      (omega arith) (omega arith) (omega arith) (omega arith) (omega arith) (omega arith)
      (omega arith) (omega arith)

create_seq-keys_example :
    Ensures (create_seq (config class_s) 314159265 1220703125 (λ _. 0)) (λ keys.
      (j : ℕ)
      → j < (config class_s).num_keys
      → (keys j ≡ key_of (config class_s) 314159265 1220703125 j)
        × (keys j < (config class_s).max_key))
create_seq-keys_example =
    create_seq-keys (config class_s) 314159265 1220703125 (λ _. 0) (class-IsSequence class_s)
      (omega arith) (omega arith)

small_ranks : (i : ℕ) → i < test_array_size → 0 + 1 + 4 < (config class_s).limit
unfolding config
small_ranks i i-lt = omega arith

first_keys : (i : ℕ) → i < test_array_size → i < (config class_s).num_keys
unfolding config
first_keys i i-lt = omega arith

verify_test_keys-Ensures_example :
    Ensures
      (verify_test_keys
        (config class_s)
        class_s
        1
        sample_keys
        (λ _. 0)
        (λ k. below sample_keys (config class_s).num_keys (suc k))
        0)
      (λ r.
        r
        ≡ 0
          + count (agrees (config class_s) class_s 1 sample_keys (λ i. i) (λ _. 0)) test_array_size)
verify_test_keys-Ensures_example =
    verify_test_keys-Ensures (config class_s) sample_keys (λ i. i) sample_keys-lt first_keys class_s
      1 sample_keys (λ _. 0) (λ k. below sample_keys (config class_s).num_keys (suc k))
      (λ i i-lt. refl) (λ k k-lt. refl) small_ranks 0 (omega arith)
