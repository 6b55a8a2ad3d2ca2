-- ===== src/Npb/Main/Correct.antt =====
-- What the whole benchmark does: it sorts the marked keys, and reports success just when every test key
-- of every iteration has the rank that the verification data names.
use vectorizer_experiments.Base.{
  ℕ, ◌+◌, ◌*◌, ◌≤◌, ◌<◌, ◌≡◌, ◌∙◌, refl, ap, ◌↔◌, true, some, arith, ◌==◌, not, if◌then◌else◌,
  Cells, update, Ensures, Ensures-some, Ensures-bind, for_range-Ensures, subst, ◌>>=◌,
}
use vectorizer_experiments.Npb.Config.{Class, Config, test_array_size, max_iterations}
use vectorizer_experiments.Npb.Verify.Order.{IsSortOf}
use vectorizer_experiments.Npb.Random.Keys.{key_of, key_of-lt, many_keys, create_seq-Ensures}
use vectorizer_experiments.Npb.Rank.{State, rank, full_verify}
use vectorizer_experiments.Npb.Rank.Correct.{
  IsReady, IsIteration, HasRanks, marked, rank-Ensures, full_verify-Ensures, marked-lt,
}
use vectorizer_experiments.Npb.Main.{
  class_test_index, class_test_rank, all_passed, run, main, workload_verify,
}
use vectorizer_experiments.Runtime.Heap.{Arena}
use vectorizer_experiments.Runtime.Heap.Blocks.{IsArena}
use vectorizer_experiments.Npb.Main.Buffers.{
  IsClass, copy_test_array-Ensures, alloc_key_buff-Ensures,
}
use vectorizer_experiments.Npb.Main.Iterations.{
  keys_before, agreed_before, Iterating, agreed-le, rank-Iterating,
}

module _ (c : Config) (class : Class) (ok : IsClass c class) where
  -- The keys that the timed iterations start from, and those that they leave.
  abbrev sequence : Cells
  sequence = key_of c 314159265 1220703125

  -- The whole run.
  pub record Verified (st : State) : Type 0 where
    pub start : Cells
    pub index : Cells
    pub expected : Cells
    pub created : (i : ℕ) → i < c.num_keys → start i ≡ marked c 1 sequence i
    pub index_data : (i : ℕ) → i < test_array_size → index i ≡ class_test_index class i
    pub expected_data : (i : ℕ) → i < test_array_size → expected i ≡ class_test_rank class i
    pub sorted : IsSortOf c.num_keys (keys_before c start (max_iterations + 1)) st.key_array
    pub verdict :
        (workload_verify st ≡ true)
        ↔ (agreed_before c class start index expected (max_iterations + 1) ≡ 5 * max_iterations)

  marked_congr :
      (iteration : ℕ) (f g : Cells)
      → ((i : ℕ) → i < c.num_keys → f i ≡ g i)
      → (i : ℕ) → i < c.num_keys
      → marked c iteration f i ≡ marked c iteration g i
  unfolding update
  marked_congr iteration f g h i i-lt = ground (arith, h i i-lt)

  verdict_lem :
      (agreed passed : ℕ)
      → passed ≡ agreed + 1
      → (not ((if passed == all_passed then passed else 0) == 0) ≡ true)
        ↔ (agreed ≡ 5 * max_iterations)
  verdict_lem agreed passed e = (λ h. ground arith, λ h. ground arith)

  first-IsIteration : IsIteration c 1
  first-IsIteration = omega (arith, ok.iterations, ok.places)

  -- `full_verify` and the verdict, behind the last iteration.
  finish :
      (start index expected : Cells)
      → ((i : ℕ) → i < c.num_keys → start i ≡ marked c 1 sequence i)
      → ((i : ℕ) → i < test_array_size → index i ≡ class_test_index class i)
      → ((i : ℕ) → i < test_array_size → expected i ≡ class_test_rank class i)
      → (start-lt : (i : ℕ) → i < c.num_keys → start i < c.max_key)
      → (index-lt : (i : ℕ) → i < test_array_size → index i < c.num_keys)
      → (expected-lt : (i : ℕ) → i < test_array_size → expected i + max_iterations + 4 < c.limit)
      → (st : State)
      → Iterating c class ok start index expected start-lt index-lt expected-lt
          (max_iterations + 1)
          st
      → Ensures
          (full_verify c st >>= λ verified. some (record verified {
            passed_verification =
                if verified.passed_verification == all_passed
                then verified.passed_verification
                else 0;
          }))
          Verified
  unfolding workload_verify
  finish start index expected created index_data expected_data start-lt index-lt expected-lt st h =
      let few =
        agreed-le c class ok start index expected start-lt index-lt expected-lt
          (max_iterations + 1) in
      Ensures-bind _ _ _ _
        (full_verify-Ensures c ok.config st (omega (arith, ok.places)) (h.global (omega arith))
          h.keys-lt h.ranks h.buckets (omega (arith, h.passed, ok.room)))
        λ verified (sorted, passed). Ensures-some _ _ (record {
          start = start;
          index = index;
          expected = expected;
          created = created;
          index_data = index_data;
          expected_data = expected_data;
          sorted = subst (λ (x : Cells). IsSortOf c.num_keys x verified.key_array) h.keys sorted;
          verdict = verdict_lem _ _ (passed ∙ ap (λ (x : ℕ). x + 1) h.passed);
        })

  run-Ensures :
      (st : State)
      → ((i : ℕ) → i < c.num_keys → st.key_array i ≡ sequence i)
      → ((i : ℕ) → i < test_array_size → st.test_index_array i ≡ class_test_index class i)
      → ((i : ℕ) → i < test_array_size → st.test_rank_array i ≡ class_test_rank class i)
      → st.passed_verification ≡ 0
      → c.num_buckets ≤ st.bucket_room
      → Ensures (run c class st) Verified
  unfolding run keys_before agreed_before
  run-Ensures st created index_data expected_data fresh buckets =
      let keys-lt : (i : ℕ) → i < c.num_keys → st.key_array i < c.max_key = λ i i-lt.
        rw (created i i-lt) (key_of-lt c 314159265 1220703125 i (many_keys c ok.sequence)) in
      let index-lt : (i : ℕ) → i < test_array_size → st.test_index_array i < c.num_keys =
        λ i i-lt. rw (index_data i i-lt) (ok.index-lt i i-lt) in
      let ready : IsReady c st = record {
        keys-lt = keys-lt;
        index-lt = index-lt;
        room = omega (arith, ok.room);
        buckets = buckets;
      } in
      let expected-lt : (i : ℕ)
          → i < test_array_size
          → st.test_rank_array i + max_iterations + 4 < c.limit =
        λ i i-lt. rw (expected_data i i-lt) (ok.expected-lt i i-lt) in
      let expected : HasRanks c 1 st = λ i i-lt. omega (arith, expected-lt i i-lt) in
      Ensures-bind _ _ _ _ (rank-Ensures c ok.config class 1 st ready first-IsIteration expected)
        λ ranked r.
          let start = marked c 1 st.key_array in
          let start-lt = marked-lt c ok.config 1 st.key_array first-IsIteration keys-lt in
          Ensures-bind _ _ _ _
            (for_range-Ensures
              (Iterating c class ok start st.test_index_array st.test_rank_array start-lt index-lt
                expected-lt)
              1 (max_iterations + 1) (rank c class) (omega arith)
              (rank-Iterating c class ok start st.test_index_array st.test_rank_array start-lt
                index-lt expected-lt)
              (record ranked { passed_verification = 0 })
              (record {
                keys = r.keys;
                keys-lt = r.keys-lt;
                ranks = r.ranks;
                buckets = r.buckets;
                same_index = r.index;
                same_expected = r.expected;
                passed = refl;
                bucket_room = rw r.room buckets;
                global = λ late. absurd (omega arith);
              }))
            λ iterated h.
              finish start st.test_index_array st.test_rank_array
                (marked_congr 1 st.key_array sequence created) index_data expected_data start-lt
                index-lt expected-lt iterated h

  -- `main` returns, and what it leaves is `Verified`.
  pub main-Ensures :
      (arena : Arena) (offset : ℕ) (st : State)
      → IsArena arena
      → offset + 8300 ≤ arena.bytes
      → st.passed_verification ≡ 0
      → Ensures (main arena c class offset st) Verified
  unfolding main
  main-Ensures arena offset st a fits fresh =
      Ensures-bind _ _ _ _
        (copy_test_array-Ensures c class ok (class_test_index class) st.test_index_array)
        λ index index_data.
          Ensures-bind _ _ _ _
            (copy_test_array-Ensures c class ok (class_test_rank class) st.test_rank_array)
            λ expected expected_data.
              Ensures-bind _ _ _ _
                (create_seq-Ensures c ok.sequence 314159265 1220703125 (omega arith) (omega arith)
                  st.key_array)
                λ keys created.
                  Ensures-bind _ _ _ _
                    (alloc_key_buff-Ensures c class ok arena offset st.key_buff2 a fits)
                    λ heap buckets. run-Ensures _ created index_data expected_data fresh buckets
