-- ===== src/Npb/Config.antt =====
-- Problem classes of is.c: the macros that size the arrays, and what the code needs of them.
use vectorizer_experiments.Base.{
  ℕ, ◌+◌, ◌-◌, ◌*◌, ◌^◌, ◌<◌, ◌≡◌, Option, none, some, arith, ltb, lt→ltb, if◌then◌else◌,
}

-- `CLASS`.
pub data Class : Type 0 where
  class_s class_w class_a class_b class_c class_d class_e : Class

unfoldable pub total_keys_log_2 : Class → ℕ
total_keys_log_2 class_s = 16
total_keys_log_2 class_w = 20
total_keys_log_2 class_a = 23
total_keys_log_2 class_b = 25
total_keys_log_2 class_c = 27
total_keys_log_2 class_d = 31
total_keys_log_2 class_e = 35

unfoldable pub max_key_log_2 : Class → ℕ
max_key_log_2 class_s = 11
max_key_log_2 class_w = 16
max_key_log_2 class_a = 19
max_key_log_2 class_b = 21
max_key_log_2 class_c = 23
max_key_log_2 class_d = 27
max_key_log_2 class_e = 31

unfoldable pub num_buckets_log_2 : Class → ℕ
num_buckets_log_2 class_s = 9
num_buckets_log_2 _ = 10

-- The bound that a signed value of `INT_TYPE` stays below: an `int`, or a `long` for D and E.
unfoldable pub int_limit : Class → ℕ
int_limit class_d = 2 ^ 63
int_limit class_e = 2 ^ 63
int_limit _ = 2 ^ 31

-- `sizeof(INT_TYPE)`.
unfoldable pub int_bytes : Class → ℕ
int_bytes class_d = 8
int_bytes class_e = 8
int_bytes _ = 4

-- The sizes that the routines use: NUM_KEYS, MAX_KEY, NUM_BUCKETS, the `shift` of `rank`, and the bound and
-- the size of INT_TYPE.
pub record Config : Type 0 where
  pub num_keys : ℕ
  pub max_key : ℕ
  pub num_buckets : ℕ
  pub shift : ℕ
  pub limit : ℕ
  pub int_size : ℕ

unfoldable pub config : Class → Config
unfolding total_keys_log_2 max_key_log_2 num_buckets_log_2 int_limit int_bytes
config c = record {
  num_keys = 2 ^ total_keys_log_2 c;
  max_key = 2 ^ max_key_log_2 c;
  num_buckets = 2 ^ num_buckets_log_2 c;
  shift = max_key_log_2 c - num_buckets_log_2 c;
  limit = int_limit c;
  int_size = int_bytes c;
}

-- `num_bucket_keys`, the keys of one bucket.
abbrev pub num_bucket_keys : Config → ℕ
num_bucket_keys c = 2 ^ c.shift

-- `TEST_ARRAY_SIZE` and `MAX_ITERATIONS`.
abbrev pub test_array_size : ℕ
test_array_size = 5

abbrev pub max_iterations : ℕ
max_iterations = 10

-- The buckets divide the keys evenly, counts of keys fit in `INT_TYPE`, and its bytes hold its values.
pub record IsConfig (c : Config) : Type 0 where
  pub some_buckets : 0 < c.num_buckets
  pub some_keys : 0 < num_bucket_keys c
  pub even : c.num_buckets * num_bucket_keys c ≡ c.max_key
  pub fits : c.num_keys < c.limit
  pub bytes : 256 ^ c.int_size ≡ 2 * c.limit

-- A signed addition: a fault where the sum overflows.
unfoldable pub add_int : Config → ℕ → ℕ → Option ℕ
add_int c a b = if ltb (a + b) c.limit then some (a + b) else none

-- `n++` on an `int`.
unfoldable pub count_up : ℕ → Option ℕ
count_up n = if ltb (n + 1) (2 ^ 31) then some (n + 1) else none

pub count_up-some : (n : ℕ) → n + 1 < 2 ^ 31 → count_up n ≡ some (n + 1)
unfolding count_up
count_up-some n h = rw (lt→ltb (n + 1) (2 ^ 31) h)

pub add_int-some : (c : Config) (a b : ℕ) → a + b < c.limit → add_int c a b ≡ some (a + b)
unfolding add_int
add_int-some c a b h = rw (lt→ltb (a + b) c.limit h)

-- Every class of the benchmark is laid out so.
pub config-IsConfig : (c : Class) → IsConfig (config c)
unfolding config
config-IsConfig class_s = omega arith
config-IsConfig class_w = omega arith
config-IsConfig class_a = omega arith
config-IsConfig class_b = omega arith
config-IsConfig class_c = omega arith
config-IsConfig class_d = omega arith
config-IsConfig class_e = omega arith
