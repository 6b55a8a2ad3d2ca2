-- ===== src/Npb/Verify.antt =====
-- `full_verify` of emulator/run/src/npb/npb_is_s/is.c, with buckets and one thread: the keys are put
-- back in the order of their ranks, and neighbours out of order are counted.
pub mod Order
pub mod Place
use vectorizer_experiments.Base.{
  ℕ, ◌-◌, Option, none, some, ltb, ◌==◌, if◌then◌else◌, ◌>>=◌, for_up, for_range, Cells, load,
  store,
}
use vectorizer_experiments.Npb.Config.{Config, add_int}
use vectorizer_experiments.Npb.Buckets.{Sorting, section_start}

-- The ranks behind `key_buff_ptr_global`, and `key_array`.
pub record Placing : Type 0 where
  pub ranks : Cells
  pub keys : Cells

-- `--n`, whose value is the index of the next write: below 0 that write is out of bounds.
unfoldable pub decrement : ℕ → Option ℕ
decrement n = if n == 0 then none else some (n - 1)

unfoldable pub place_key : Config → Cells → ℕ → Placing → Option Placing
unfolding load store decrement
place_key c buff2 i s = do
  v ← load c.num_keys buff2 i
  rank ← load c.max_key s.ranks v
  k ← decrement rank
  ranks ← store c.max_key s.ranks v k
  keys ← store c.num_keys s.keys k v
  some (record { ranks = ranks; keys = keys })

-- The keys of bucket j.
unfoldable pub place_bucket : Config → Sorting → ℕ → Placing → Option Placing
place_bucket c s j out = do
  k1 ← section_start c s.ptrs j
  end ← load c.num_buckets s.ptrs j
  for_range k1 end (place_key c s.buff) out

unfoldable pub place_keys : Config → Sorting → Placing → Option Placing
place_keys c s out = for_up c.num_buckets (place_bucket c s) out

-- Count incorrectly sorted keys, if any.
unfoldable pub count_unsorted : Config → Cells → ℕ → ℕ → Option ℕ
unfolding load add_int
count_unsorted c keys i j = do
  before ← load c.num_keys keys (i - 1)
  here ← load c.num_keys keys i
  if ltb here before then add_int c j 1 else some j

unfoldable pub unsorted : Config → Cells → Option ℕ
unsorted c keys = for_range 1 c.num_keys (count_unsorted c keys) 0
