-- ===== src/Npb/Rank.antt =====
-- The state of is.c and its two entry points `rank` and `full_verify`
-- (emulator/run/src/npb/npb_is_s/is.c), with buckets and one thread.
pub mod Shifts
pub mod Partial
pub mod Correct
use vectorizer_experiments.Base.{
  ℕ, ◌+◌, ◌-◌, ◌^◌, ◌≤◌, Bool, true, false, Option, none, some, ltb, leb, ◌==◌, ◌&&◌, ◌||◌,
  if◌then◌else◌, ◌>>=◌, ◌>>◌, guard, for_up, Cells, load, store,
}
use vectorizer_experiments.Base.Int.{ℤ, pos, ◌+ℤ◌, ◌-ℤ◌}
use vectorizer_experiments.Npb.Config.{
  Class, class_s, class_w, class_a, class_b, class_c, class_d, class_e, Config, count_up,
  test_array_size, max_iterations,
}
use vectorizer_experiments.Npb.Buckets.{
  Sorting, clear_sizes, count_sizes, accumulate, scatter, rank_buckets,
}
use vectorizer_experiments.Npb.Verify.{Placing, place_keys, unsorted}

-- The arrays, for how many elements the block of `bucket_size[0]` has room, and whether `key_buff_ptr_global` points to `key_buff1` or is still null.
pub record State : Type 0 where
  pub key_array : Cells
  pub key_buff1 : Cells
  pub key_buff2 : Cells
  pub bucket_size : Cells
  pub bucket_room : ℕ
  pub bucket_ptrs : Cells
  pub partial_verify_vals : Cells
  pub test_index_array : Cells
  pub test_rank_array : Cells
  pub key_buff_ptr_global : Bool
  pub passed_verification : ℕ

-- A signed sum and difference in INT_TYPE: a fault where it overflows.
abbrev pub fits_int : Config → ℤ → Bool
fits_int c (pos n) = ltb n c.limit
fits_int c (ℤ.negsuc n) = ltb n c.limit

unfoldable pub int_sum : Config → ℤ → ℤ → Option ℤ
int_sum c a b = guard (fits_int c (a +ℤ b)) >> some (a +ℤ b)

unfoldable pub int_difference : Config → ℤ → ℤ → Option ℤ
int_difference c a b = guard (fits_int c (a -ℤ b)) >> some (a -ℤ b)

-- `test_rank` of test key i, shifted as the class asks. `iteration`, an `int` that is not negative, less
-- 1 or 2 is an `int`.
unfoldable pub expected_rank : Config → Class → ℕ → ℕ → ℕ → Option ℤ
unfolding int_sum int_difference
expected_rank c class_s i iteration test_rank =
    if leb i 2
    then int_sum c (pos test_rank) (pos iteration)
    else int_difference c (pos test_rank) (pos iteration)
expected_rank c class_w i iteration test_rank =
    if ltb i 2
    then int_sum c (pos test_rank) (pos iteration -ℤ pos 2)
    else int_difference c (pos test_rank) (pos iteration)
expected_rank c class_a i iteration test_rank =
    if leb i 2
    then int_sum c (pos test_rank) (pos iteration -ℤ pos 1)
    else int_difference c (pos test_rank) (pos iteration -ℤ pos 1)
expected_rank c class_b i iteration test_rank =
    if i == 1 || i == 2 || i == 4
    then int_sum c (pos test_rank) (pos iteration)
    else int_difference c (pos test_rank) (pos iteration)
expected_rank c class_c i iteration test_rank =
    if leb i 2
    then int_sum c (pos test_rank) (pos iteration)
    else int_difference c (pos test_rank) (pos iteration)
expected_rank c class_d i iteration test_rank =
    if ltb i 2
    then int_sum c (pos test_rank) (pos iteration)
    else int_difference c (pos test_rank) (pos iteration)
expected_rank c class_e i iteration test_rank =
    let third = int_sum c (pos test_rank) (pos iteration -ℤ pos 2) >>= λ sum.
    if ltb 4 iteration
    then int_difference c sum (pos 2)
    else if ltb 2 iteration
    then int_difference c sum (pos 1)
    else some sum in
    if ltb i 2
    then int_sum c (pos test_rank) (pos iteration -ℤ pos 2)
    else if i == 2
    then third
    else int_difference c (pos test_rank) (pos iteration -ℤ pos 2)

-- `key_rank == test_rank`, where the second may be negative.
unfoldable pub equals_rank : ℕ → ℤ → Bool
equals_rank n (pos m) = n == m
equals_rank n (ℤ.negsuc m) = false

-- Determine where the partial verify test keys are.
unfoldable pub pick_test_keys : Config → Cells → Cells → Cells → Option Cells
pick_test_keys c key_array test_index vals =
    for_up test_array_size
      (λ i vals'. do
        j ← load test_array_size test_index i
        k ← load c.num_keys key_array j
        store test_array_size vals' i k)
      vals

-- The partial verify test of the key k of test i.
unfoldable pub compare_rank : Config → Class → ℕ → Cells → Cells → ℕ → ℕ → ℕ → Option ℕ
unfolding load count_up
compare_rank c class iteration test_rank buff1 i k passed = do
  key_rank ← load c.max_key buff1 (k - 1)
  rank ← load test_array_size test_rank i
  expected ← expected_rank c class i iteration rank
  if equals_rank key_rank expected then count_up passed else some passed

unfoldable pub verify_test_key : Config → Class → ℕ → Cells → Cells → Cells → ℕ → ℕ → Option ℕ
unfolding load compare_rank
verify_test_key c class iteration vals test_rank buff1 i passed = do
  k ← load test_array_size vals i
  if ltb 0 k && leb k (c.num_keys - 1)
      then compare_rank c class iteration test_rank buff1 i k passed
      else some passed

unfoldable pub verify_test_keys : Config → Class → ℕ → Cells → Cells → Cells → ℕ → Option ℕ
verify_test_keys c class iteration vals test_rank buff1 passed =
    for_up test_array_size (verify_test_key c class iteration vals test_rank buff1) passed

-- The two keys that an iteration changes. A negative key would be no index of a bucket: a fault. The
-- second index is an `int`.
unfoldable pub mark_iteration : Config → ℕ → Cells → Option Cells
unfolding store
mark_iteration c iteration key_array = do
  keys ← store c.num_keys key_array iteration iteration
  guard (leb iteration c.max_key && ltb (iteration + max_iterations) (2 ^ 31))
  store c.num_keys keys (iteration + max_iterations) (c.max_key - iteration)

unfoldable pub rank : Config → Class → ℕ → State → Option State
rank c class iteration st = do
  keys ← mark_iteration c iteration st.key_array
  vals ← pick_test_keys c keys st.test_index_array st.partial_verify_vals
  cleared ← clear_sizes c st.bucket_room st.bucket_size
  sizes ← count_sizes c st.bucket_room keys cleared
  ptrs ← accumulate c st.bucket_room sizes st.bucket_ptrs
  s ← scatter c keys (record { buff = st.key_buff2; ptrs = ptrs })
  buff1 ← rank_buckets c s st.key_buff1
  passed ← verify_test_keys c class iteration vals st.test_rank_array buff1 st.passed_verification
  some (record st {
    key_array = keys;
    key_buff1 = buff1;
    key_buff2 = s.buff;
    bucket_size = sizes;
    bucket_ptrs = s.ptrs;
    partial_verify_vals = vals;
    key_buff_ptr_global = if iteration == max_iterations then true else st.key_buff_ptr_global;
    passed_verification = passed;
  })

-- The ranks are read through `key_buff_ptr_global`: a null pointer is a fault.
unfoldable pub full_verify : Config → State → Option State
full_verify c st = do
  guard st.key_buff_ptr_global
  out ←
      place_keys c (record { buff = st.key_buff2; ptrs = st.bucket_ptrs })
        (record { ranks = st.key_buff1; keys = st.key_array })
  j ← unsorted c out.keys
  passed ← if j == 0 then count_up st.passed_verification else some st.passed_verification
  some (record st { key_array = out.keys; key_buff1 = out.ranks; passed_verification = passed })
