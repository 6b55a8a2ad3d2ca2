-- ===== src/Npb/Main/Buffers.antt =====
-- The verification arrays and the work buffers of `main`, and what the run needs of a class.
use Prim.Native.Nat.{max}
use native.Mathlib.Nat.{mul-pos, mul-div_cancel_left}
use vectorizer_experiments.Base.{
  ℕ, ◌+◌, ◌-◌, ◌*◌, ◌/◌, ◌^◌, ◌≤◌, ◌<◌, ◌≡◌, refl, ap, arith, Cells, update, update_lem, load-some,
  store-some, Ensures, Ensures-some, Ensures-bind, for_up-Ensures,
}
use vectorizer_experiments.Npb.Config.{Class, Config, IsConfig, test_array_size, max_iterations}
use vectorizer_experiments.Npb.Main.{
  class_test_index, class_test_rank, copy_test_array, non_null, alloc_mem, alloc_key_buff,
  all_passed,
}
use vectorizer_experiments.Npb.Random.Keys.{IsSequence}
use vectorizer_experiments.Runtime.Heap.{Arena, Allocated, npb_malloc}
use vectorizer_experiments.Runtime.Heap.Blocks.{
  IsArena, npb_malloc-Outcome, Outcome, refused, placed,
}

-- What the iterations need of the class.
pub record IsClass (c : Config) (class : Class) : Type 0 where
  pub config : IsConfig c
  pub sequence : IsSequence c
  pub iterations : max_iterations < c.max_key
  pub places : 2 * max_iterations < c.num_keys
  pub room : all_passed + test_array_size < 2 ^ 31
  pub index-lt : (i : ℕ) → i < test_array_size → class_test_index class i < c.num_keys
  pub expected-lt :
      (i : ℕ) → i < test_array_size → class_test_rank class i + max_iterations + 4 < c.limit
  pub some_bytes : 0 < c.int_size
  pub few_buckets : c.int_size * c.num_buckets ≤ 8192

module _ (c : Config) (class : Class) (ok : IsClass c class) where
  pub copy_test_array-Ensures :
      (source target : Cells)
      → Ensures
          (copy_test_array source target)
          (λ t. (i : ℕ) → i < test_array_size → t i ≡ source i)
  unfolding copy_test_array
  copy_test_array-Ensures source target =
      for_up-Ensures (λ n t. (i : ℕ) → i < n → t i ≡ source i) test_array_size _
        (λ i i-lt t h. record {
          value = update t i (source i);
          returns = rw (
            load-some test_array_size source i i-lt,
            store-some test_array_size t i (source i) i-lt,
          );
          holds = λ j j-lt. ground (arith, h j, update_lem t i j (source i), ap source);
        })
        target (λ i i-lt. absurd (omega arith))

  non_null-Ensures :
      (arena : Arena) (offset size : ℕ) (r : Allocated)
      → offset + size + 16 ≤ arena.bytes
      → 0 < size
      → Outcome arena 16 (max size 1) offset r
      → Ensures (non_null size r) (λ b. (b.offset ≤ offset + size + 16) × (b.bytes ≡ size))
  unfolding non_null
  non_null-Ensures arena offset size r fits pos (refused p from upto aligned over e) =
      absurd (omega arith)
  non_null-Ensures arena offset size r fits pos (placed p from upto aligned room e) = rw e (
      Ensures-some _ (record { start = p; bytes = size; offset = p + max size 1 - arena.base })
        (omega arith, refl))

  alloc_mem-Ensures :
      (arena : Arena) (offset size : ℕ)
      → IsArena arena
      → offset + size + 16 ≤ arena.bytes
      → 0 < size
      → Ensures
          (alloc_mem arena size offset)
          (λ b. (b.offset ≤ offset + size + 16) × (b.bytes ≡ size))
  unfolding alloc_mem
  alloc_mem-Ensures arena offset size a fits pos =
      non_null-Ensures arena offset size (npb_malloc arena size offset) fits pos
        (npb_malloc-Outcome arena a offset (omega arith) size (omega arith))

  sizes-pos : 0 < c.int_size * c.num_buckets
  sizes-pos = mul-pos ok.some_bytes ok.config.some_buckets

  -- The block of the bucket sizes holds them all.
  pub alloc_key_buff-Ensures :
      (arena : Arena) (offset : ℕ) (buff2 : Cells)
      → IsArena arena
      → offset + 8300 ≤ arena.bytes
      → Ensures (alloc_key_buff arena c offset buff2) (λ w. c.num_buckets ≤ w.bucket_room)
  unfolding alloc_key_buff
  alloc_key_buff-Ensures arena offset buff2 a fits =
      Ensures-bind _ _ _ _ (alloc_mem-Ensures arena offset 8 a (omega arith) (omega arith))
        λ table t.
          Ensures-bind _ _ _ _
            (alloc_mem-Ensures arena table.offset (c.int_size * c.num_buckets) a
              (omega (arith, ok.few_buckets, t.0)) sizes-pos)
            λ sizes z.
              let one : 8 / 8 ≡ 1 = omega arith in
              let room : c.int_size * c.num_buckets / c.int_size ≡ c.num_buckets =
                mul-div_cancel_left c.num_buckets ok.some_bytes in
              rw (t.1, one, store-some 1 (λ (_ : ℕ). 0) 0 sizes.start (omega arith))
                (Ensures-bind (λ _. Unit {0}) _ _ _
                  (for_up-Ensures (λ _ _. Unit {0}) c.num_keys _
                    (λ i i-lt b h. record {
                      value = update b i 0;
                      returns = store-some c.num_keys b i 0 i-lt;
                      holds = tt;
                    })
                    buff2 tt)
                  λ zeros _. Ensures-some _ _ (rw (z.1, room) (omega arith)))
