-- ===== src/Npb/Buckets.antt =====
-- The loops of `rank` over the buckets, for one thread (`myid` 0 of 1), each on the arrays that it
-- changes: emulator/run/src/npb/npb_is_s/is.c.
pub mod Sizes
pub mod Scatter
pub mod Section
use vectorizer_experiments.Base.{
  ℕ, ◌+◌, ◌-◌, ◌*◌, ◌/◌, ◌^◌, Option, some, ltb, if◌then◌else◌, ◌>>=◌, for_up, for_range, Cells,
  load, store,
}
use vectorizer_experiments.Npb.Config.{Config, num_bucket_keys, add_int}

-- `cells[i]++`.
unfoldable pub increment : Config → ℕ → Cells → ℕ → Option Cells
unfolding load store add_int
increment c len cells i = do n ← load len cells i; n' ← add_int c n 1; store len cells i n'

-- `work_buff[i] = 0` for every bucket. The block of `work_buff` has room for `room` of them.
unfoldable pub clear_sizes : Config → ℕ → Cells → Option Cells
clear_sizes c room work = for_up c.num_buckets (λ i w. store room w i 0) work

-- Determine the number of keys in each bucket.
unfoldable pub count_size : Config → ℕ → Cells → ℕ → Cells → Option Cells
unfolding load increment
count_size c room key_array i work = do
  k ← load c.num_keys key_array i
  increment c room work (k / 2 ^ c.shift)

unfoldable pub count_sizes : Config → ℕ → Cells → Cells → Option Cells
count_sizes c room key_array work = for_up c.num_keys (count_size c room key_array) work

-- Accumulated bucket sizes are the bucket pointers.
unfoldable pub accumulate_step : Config → ℕ → Cells → ℕ → Cells → Option Cells
unfolding load store add_int
accumulate_step c room sizes i ptrs = do
  before ← load c.num_buckets ptrs (i - 1)
  ptrs' ← store c.num_buckets ptrs i before
  here ← load c.num_buckets ptrs' i
  size ← load room sizes (i - 1)
  sum ← add_int c here size
  store c.num_buckets ptrs' i sum

unfoldable pub accumulate : Config → ℕ → Cells → Cells → Option Cells
accumulate c room sizes ptrs = do
  ptrs' ← store c.num_buckets ptrs 0 0
  for_range 1 c.num_buckets (accumulate_step c room sizes) ptrs'

-- Sort into the appropriate bucket: `key_buff2` and `bucket_ptrs`.
pub record Sorting : Type 0 where
  pub buff : Cells
  pub ptrs : Cells

unfoldable pub scatter_step : Config → Cells → ℕ → Sorting → Option Sorting
unfolding load store add_int
scatter_step c key_array i s = do
  k ← load c.num_keys key_array i
  p ← load c.num_buckets s.ptrs (k / 2 ^ c.shift)
  p' ← add_int c p 1
  ptrs ← store c.num_buckets s.ptrs (k / 2 ^ c.shift) p'
  buff ← store c.num_keys s.buff p k
  some (record { buff = buff; ptrs = ptrs })

unfoldable pub scatter : Config → Cells → Sorting → Option Sorting
scatter c key_array s = for_up c.num_keys (scatter_step c key_array) s

-- Clear the work array section of one bucket.
unfoldable pub clear_section : Config → ℕ → Cells → Option Cells
clear_section c k1 buff1 =
    for_range k1 (k1 + num_bucket_keys c) (λ k b. store c.max_key b k 0) buff1

-- The population of each key of one bucket, whose keys lie at `m ≤ k < end` of `key_buff2`.
unfoldable pub count_key : Config → Cells → ℕ → Cells → Option Cells
unfolding load increment
count_key c buff2 k buff1 = do v ← load c.num_keys buff2 k; increment c c.max_key buff1 v

unfoldable pub count_population : Config → Cells → ℕ → ℕ → Cells → Option Cells
count_population c buff2 m end buff1 = for_range m end (count_key c buff2) buff1

-- Add the keys of the lesser buckets to the first key, then each key's population to the next.
unfoldable pub add_population : Config → ℕ → Cells → Option Cells
unfolding load store add_int
add_population c k buff1 = do
  here ← load c.max_key buff1 k
  before ← load c.max_key buff1 (k - 1)
  sum ← add_int c here before
  store c.max_key buff1 k sum

unfoldable pub add_populations : Config → ℕ → ℕ → Cells → Option Cells
add_populations c k1 m buff1 = do
  first ← load c.max_key buff1 k1
  first' ← add_int c first m
  b ← store c.max_key buff1 k1 first'
  for_range (k1 + 1) (k1 + num_bucket_keys c) (add_population c) b

-- `bucket_ptrs[i-1]`, or 0 for the first bucket.
unfoldable pub section_start : Config → Cells → ℕ → Option ℕ
section_start c ptrs i = if ltb 0 i then load c.num_buckets ptrs (i - 1) else some 0

-- Sort the keys inside bucket `i`.
unfoldable pub rank_bucket : Config → Sorting → ℕ → Cells → Option Cells
rank_bucket c s i buff1 = do
  cleared ← clear_section c (i * num_bucket_keys c) buff1
  m ← section_start c s.ptrs i
  end ← load c.num_buckets s.ptrs i
  counted ← count_population c s.buff m end cleared
  add_populations c (i * num_bucket_keys c) m counted

unfoldable pub rank_buckets : Config → Sorting → Cells → Option Cells
rank_buckets c s buff1 = for_up c.num_buckets (rank_bucket c s) buff1
