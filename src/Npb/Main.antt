-- ===== src/Npb/Main.antt =====
-- `main` of emulator/run/src/npb/npb_is_s/is.c without its timers and prints, the verification data,
-- the work buffers, and `workload_verify` of npb_verify_is.c.
pub mod Buffers
pub mod Iterations
pub mod Correct
pub mod Classes
use vectorizer_experiments.Base.{
  ℕ, zero, suc, ◌+◌, ◌*◌, ◌/◌, ◌^◌, Bool, true, false, Option, none, some, List, [], ◌∷◌, ◌==◌, not,
  if◌then◌else◌, ◌>>=◌, for_up, for_range, Cells, load, store,
}
use vectorizer_experiments.Npb.Config.{
  Class, class_s, class_w, class_a, class_b, class_c, class_d, class_e, Config, test_array_size,
  max_iterations,
}
use vectorizer_experiments.Npb.Random.{create_seq}
use vectorizer_experiments.Npb.Rank.{State, rank, full_verify}
use vectorizer_experiments.Runtime.Heap.{Arena, Allocated, npb_malloc}

-- The entries of an array that is written out.
unfoldable pub entries : List ℕ → Cells
entries [] i = 0
entries (v ∷ vs) zero = v
entries (v ∷ vs) (suc i) = entries vs i

-- `S_test_index_array` and its kin.
unfoldable pub test_index_data : Class → List ℕ
test_index_data class_s = 48427 ∷ 17148 ∷ 23627 ∷ 62548 ∷ 4431 ∷ []
test_index_data class_w = 357773 ∷ 934767 ∷ 875723 ∷ 898999 ∷ 404505 ∷ []
test_index_data class_a = 2112377 ∷ 662041 ∷ 5336171 ∷ 3642833 ∷ 4250760 ∷ []
test_index_data class_b = 41869 ∷ 812306 ∷ 5102857 ∷ 18232239 ∷ 26860214 ∷ []
test_index_data class_c = 44172927 ∷ 72999161 ∷ 74326391 ∷ 129606274 ∷ 21736814 ∷ []
test_index_data class_d = 1317351170 ∷ 995930646 ∷ 1157283250 ∷ 1503301535 ∷ 1453734525 ∷ []
test_index_data class_e = 21492309536 ∷ 24606226181 ∷ 12608530949 ∷ 4065943607 ∷ 3324513396 ∷ []

-- `S_test_rank_array` and its kin.
unfoldable pub test_rank_data : Class → List ℕ
test_rank_data class_s = 0 ∷ 18 ∷ 346 ∷ 64917 ∷ 65463 ∷ []
test_rank_data class_w = 1249 ∷ 11698 ∷ 1039987 ∷ 1043896 ∷ 1048018 ∷ []
test_rank_data class_a = 104 ∷ 17523 ∷ 123928 ∷ 8288932 ∷ 8388264 ∷ []
test_rank_data class_b = 33422937 ∷ 10244 ∷ 59149 ∷ 33135281 ∷ 99 ∷ []
test_rank_data class_c = 61147 ∷ 882988 ∷ 266290 ∷ 133997595 ∷ 133525895 ∷ []
test_rank_data class_d = 1 ∷ 36538729 ∷ 1978098519 ∷ 2145192618 ∷ 2147425337 ∷ []
test_rank_data class_e = 3 ∷ 27580354 ∷ 3248475153 ∷ 30048754302 ∷ 31485259697 ∷ []

unfoldable pub class_test_index : Class → Cells
unfolding entries test_index_data
class_test_index class = entries (test_index_data class)

unfoldable pub class_test_rank : Class → Cells
unfolding entries test_rank_data
class_test_rank class = entries (test_rank_data class)

-- Initialize a verification array.
unfoldable pub copy_test_array : Cells → Cells → Option Cells
copy_test_array source target =
    for_up test_array_size
      (λ i t. do v ← load test_array_size source i; store test_array_size t i v) target

-- A block of the heap, and the offset behind it.
pub record HeapBlock : Type 0 where
  pub start : ℕ
  pub bytes : ℕ
  pub offset : ℕ

-- The block of an allocation, if there is one.
unfoldable pub non_null : ℕ → Allocated → Option HeapBlock
non_null size block = elim block.pointer [
  | none ↦ none
  | some p ↦ some (record { start = p; bytes = size; offset = block.offset })
]

-- `alloc_mem`: where there is no memory it reports and calls `exit`, which does not return.
unfoldable pub alloc_mem : Arena → ℕ → ℕ → Option HeapBlock
unfolding non_null
alloc_mem arena size offset = non_null size (npb_malloc arena size offset)

-- What `alloc_key_buff` leaves: how many elements `bucket_size[0]` has room for, and `key_buff2`.
pub record WorkBuffers : Type 0 where
  pub bucket_room : ℕ
  pub key_buff2 : Cells

-- The table of bucket sizes with room for the pointer of the one thread, the sizes, and zeros in
-- `key_buff2`. A pointer has 8 bytes.
unfoldable pub alloc_key_buff : Arena → Config → ℕ → Cells → Option WorkBuffers
alloc_key_buff arena c offset buff2 = do
  table ← alloc_mem arena (8 * 1) offset
  sizes ← alloc_mem arena (c.int_size * c.num_buckets) table.offset
  bucket_size ← store (table.bytes / 8) (λ _. 0) 0 sizes.start
  zeros ← for_up c.num_keys (λ i b. store c.num_keys b i 0) buff2
  some (record { bucket_room = sizes.bytes / c.int_size; key_buff2 = zeros })

-- All test keys of all iterations, and the sorted array.
abbrev pub all_passed : ℕ
all_passed = 5 * max_iterations + 1

-- `main` from the untimed iteration on: the timed iterations, the full verification, the verdict.
unfoldable pub run : Config → Class → State → Option State
run c class st = do
  ranked ← rank c class 1 st
  iterated ←
      for_range 1 (max_iterations + 1) (rank c class) (record ranked { passed_verification = 0 })
  verified ← full_verify c iterated
  some (record verified {
    passed_verification =
        if verified.passed_verification == all_passed then verified.passed_verification else 0;
  })

unfoldable pub main : Arena → Config → Class → ℕ → State → Option State
main arena c class offset st = do
  test_index ← copy_test_array (class_test_index class) st.test_index_array
  test_rank ← copy_test_array (class_test_rank class) st.test_rank_array
  keys ← create_seq c 314159265 1220703125 st.key_array
  heap ← alloc_key_buff arena c offset st.key_buff2
  run c class (record st {
    key_array = keys;
    key_buff2 = heap.key_buff2;
    bucket_room = heap.bucket_room;
    test_index_array = test_index;
    test_rank_array = test_rank;
  })

-- `workload_verify`.
unfoldable pub workload_verify : State → Bool
workload_verify st = not (st.passed_verification == 0)
