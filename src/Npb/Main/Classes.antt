-- ===== src/Npb/Main/Classes.antt =====
-- Every class of the benchmark runs to a verdict.
use vectorizer_experiments.Base.{
  ℕ, zero, suc, ◌-◌, ◌*◌, ◌≤◌, ◌<◌, ◌≡◌, List, [], ◌∷◌, arith, Ensures,
}
use vectorizer_experiments.Npb.Config.{
  Class, class_s, class_w, class_a, class_b, class_c, class_d, class_e, config, config-IsConfig,
  max_iterations,
}
use vectorizer_experiments.Npb.Rank.{State}
use vectorizer_experiments.Npb.Main.{entries, class_test_index, main}
use vectorizer_experiments.Runtime.Heap.{Arena}
use vectorizer_experiments.Runtime.Heap.Blocks.{IsArena}
use vectorizer_experiments.Npb.Main.{test_index_data, test_rank_data, class_test_rank}
use vectorizer_experiments.Npb.Random.Keys.{IsSequence}
use vectorizer_experiments.Npb.Main.Buffers.{IsClass}
use vectorizer_experiments.Npb.Main.Correct.{Verified, main-Ensures}

abbrev AllBelow : ℕ → List ℕ → Type 0
AllBelow n [] = Unit
AllBelow n (v ∷ vs) = (v < n) × AllBelow n vs

entries-lt : (n : ℕ) (vs : List ℕ) → 0 < n → AllBelow n vs → (i : ℕ) → entries vs i < n
unfolding entries
entries-lt n [] pos all i = pos
entries-lt n (v ∷ vs) pos (this, all) zero = this
entries-lt n (v ∷ vs) pos (this, all) (suc i) = entries-lt n vs pos all i

test_index_data-AllBelow :
    (class : Class) → AllBelow (config class).num_keys (test_index_data class)
unfolding config test_index_data
test_index_data-AllBelow class_s = omega arith
test_index_data-AllBelow class_w = omega arith
test_index_data-AllBelow class_a = omega arith
test_index_data-AllBelow class_b = omega arith
test_index_data-AllBelow class_c = omega arith
test_index_data-AllBelow class_d = omega arith
test_index_data-AllBelow class_e = omega arith

test_rank_data-AllBelow :
    (class : Class) → AllBelow ((config class).limit - 14) (test_rank_data class)
unfolding config test_rank_data
test_rank_data-AllBelow class_s = omega arith
test_rank_data-AllBelow class_w = omega arith
test_rank_data-AllBelow class_a = omega arith
test_rank_data-AllBelow class_b = omega arith
test_rank_data-AllBelow class_c = omega arith
test_rank_data-AllBelow class_d = omega arith
test_rank_data-AllBelow class_e = omega arith

-- The keys of a class are powers of two, and numbers of its INT_TYPE.
pub class-IsSequence : (class : Class) → IsSequence (config class)
unfolding config
class-IsSequence class_s = record {
  half = 9;
  few = omega arith;
  power = omega arith;
  keys-lt = omega arith;
  number-lt = omega arith;
  long = omega arith;
}
class-IsSequence class_w = record {
  half = 14;
  few = omega arith;
  power = omega arith;
  keys-lt = omega arith;
  number-lt = omega arith;
  long = omega arith;
}
class-IsSequence class_a = record {
  half = 17;
  few = omega arith;
  power = omega arith;
  keys-lt = omega arith;
  number-lt = omega arith;
  long = omega arith;
}
class-IsSequence class_b = record {
  half = 19;
  few = omega arith;
  power = omega arith;
  keys-lt = omega arith;
  number-lt = omega arith;
  long = omega arith;
}
class-IsSequence class_c = record {
  half = 21;
  few = omega arith;
  power = omega arith;
  keys-lt = omega arith;
  number-lt = omega arith;
  long = omega arith;
}
class-IsSequence class_d = record {
  half = 25;
  few = omega arith;
  power = omega arith;
  keys-lt = omega arith;
  number-lt = omega arith;
  long = omega arith;
}
class-IsSequence class_e = record {
  half = 29;
  few = omega arith;
  power = omega arith;
  keys-lt = omega arith;
  number-lt = omega arith;
  long = omega arith;
}

-- The sizes of a class leave room for the iterations and the work buffers.
class_sizes :
    (class : Class)
    → (max_iterations < (config class).max_key)
      × (2 * max_iterations < (config class).num_keys)
      × (14 < (config class).limit)
      × (0 < (config class).int_size)
      × ((config class).int_size * (config class).num_buckets ≤ 8192)
unfolding config
class_sizes class_s = omega arith
class_sizes class_w = omega arith
class_sizes class_a = omega arith
class_sizes class_b = omega arith
class_sizes class_c = omega arith
class_sizes class_d = omega arith
class_sizes class_e = omega arith

-- Every class of the benchmark meets what the iterations need.
pub class-IsClass : (class : Class) → IsClass (config class) class
unfolding class_test_index class_test_rank
class-IsClass class =
    let (iterations, places, limit, some_bytes, few_buckets) = class_sizes class in
    record {
      config = config-IsConfig class;
      sequence = class-IsSequence class;
      iterations = iterations;
      places = places;
      room = omega arith;
      expected-lt = λ i i-lt. omega (
        arith,
        entries-lt ((config class).limit - 14) (test_rank_data class) (omega arith)
            (test_rank_data-AllBelow class) i,
      );
      some_bytes = some_bytes;
      index-lt = λ i i-lt.
          entries-lt (config class).num_keys (test_index_data class) (omega arith)
            (test_index_data-AllBelow class) i;
      few_buckets = few_buckets;
    }

-- `main` of any class, started with `passed_verification` 0 in an empty heap of 64 kB inside the
-- address space, returns: no access is out of bounds, that of the block of bucket sizes included, no
-- integer overflows, no double is rounded and no allocation fails. The keys it leaves are those of
-- the last iteration in ascending order, each as often as before, and the verdict
-- `passed_verification != 0` holds just when in all 50 tests of the partial verification the test key
-- is neither 0 nor NUM_KEYS or more, and has as many smaller keys as its test rank says, with the
-- shift that a table names for the class and iteration.
pub main-Verified :
    (arena : Arena) (class : Class) (st : State)
    → IsArena arena
    → arena.bytes ≡ 65536
    → st.passed_verification ≡ 0
    → Ensures
        (main arena (config class) class 0 st)
        (Verified (config class) class (class-IsClass class))
main-Verified arena class st a bytes fresh =
    main-Ensures (config class) class (class-IsClass class) arena 0 st a (omega arith) fresh
