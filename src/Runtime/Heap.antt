-- ===== src/Runtime/Heap.antt =====
-- The bump allocators: `malloc` of emulator/run/src/npb/npb_is_s/npb_runtime_is.c, `malloc`, `calloc`
-- and `realloc` of emulator/run/src/parsec/common/parsec_runtime.c, and `memalign` of
-- emulator/run/common/tsvc_runtime.c. Addresses and sizes are words of 64 bits, and wrap.
pub mod Blocks
pub mod Contents
use Prim.Native.Nat.{bit_and}
use vectorizer_experiments.Base.{
  ℕ, ◌+◌, ◌-◌, ◌*◌, ◌%◌, ◌^◌, Option, none, some, ltb, leb, ◌&&◌, ◌==◌, if◌then◌else◌, ◌>>=◌, ◌>>◌,
  guard, Cells, update,
}

abbrev pub word : ℕ
word = 2 ^ 64

-- The array behind an allocator: where it starts, and its size in bytes.
pub record Arena : Type 0 where
  pub base : ℕ
  pub bytes : ℕ

-- `(value + mask) & ~mask`, with `mask = alignment - 1`.
unfoldable pub align_up : ℕ → ℕ → ℕ
align_up value alignment =
    let mask = (alignment + word - 1) % word in bit_and ((value + mask) % word) (word - 1 - mask)

-- The version that replaces alignment 0 by the size of a pointer.
unfoldable pub align_up_or_pointer : ℕ → ℕ → ℕ
align_up_or_pointer value alignment = align_up value (if alignment == 0 then 8 else alignment)

-- The pointer, `none` for NULL, and the new offset.
pub record Allocated : Type 0 where
  pub pointer : Option ℕ
  pub offset : ℕ

-- What the three allocators do with an aligned address.
unfoldable pub take_block : Arena → ℕ → ℕ → ℕ → Allocated
take_block arena aligned size offset =
    let next_offset = ((aligned + word - arena.base) % word + size) % word in
    if ltb arena.bytes next_offset
    then record { pointer = none; offset = offset }
    else record { pointer = some aligned; offset = next_offset }

unfoldable pub npb_malloc : Arena → ℕ → ℕ → Allocated
npb_malloc arena size offset =
    let size' = if size == 0 then 1 else size in
    take_block arena (align_up ((arena.base + offset) % word) 16) size' offset

unfoldable pub malloc : Arena → ℕ → ℕ → Allocated
malloc arena size offset =
    let size' = if size == 0 then 1 else size in
    take_block arena (align_up_or_pointer ((arena.base + offset) % word) 16) size' offset

unfoldable pub memalign : Arena → ℕ → ℕ → ℕ → Allocated
memalign arena alignment size offset =
    take_block arena (align_up_or_pointer ((arena.base + offset) % word) alignment) size offset

-- The bytes of memory beside the allocator's offset.
pub record Store : Type 0 where
  pub bytes : Cells
  pub offset : ℕ

pub record Returned : Type 0 where
  pub pointer : Option ℕ
  pub store : Store

-- A byte written through a pointer into the arena; elsewhere it is a fault.
unfoldable pub store_byte : Arena → Cells → ℕ → ℕ → Option Cells
store_byte arena bytes address value =
    guard (leb arena.base address && ltb address (arena.base + arena.bytes))
    >> some (update bytes address (value % 256))

-- `memset` of parsec_runtime.c on the arena: `count` bytes from `dst` on.
unfoldable pub memset : Arena → ℕ → ℕ → ℕ → Cells → Option Cells
memset arena dst value ℕ.zero bytes = some bytes
memset arena dst value (ℕ.suc count) bytes =
    memset arena dst value count bytes >>= λ b. store_byte arena b ((dst + count) % word) value

-- The zeroed block, unless there is none.
unfoldable pub clear_block : Arena → Option ℕ → ℕ → Cells → Option Cells
unfolding memset
clear_block arena none total bytes = some bytes
clear_block arena (some ptr) total bytes = memset arena ptr 0 total bytes

unfoldable pub calloc : Arena → ℕ → ℕ → Store → Option Returned
calloc arena count size s =
    let total = count * size % word in
    let block = malloc arena total s.offset in
    clear_block arena block.pointer total s.bytes >>= λ bytes.
    some
      (record { pointer = block.pointer; store = record { bytes = bytes; offset = block.offset } })

-- The old block is never read: the new one keeps what its bytes held.
unfoldable pub realloc : Arena → Option ℕ → ℕ → Store → Returned
realloc arena none size s =
    let block = malloc arena size s.offset in
    record { pointer = block.pointer; store = record s { offset = block.offset } }
realloc arena (some ptr) size s =
    let block = malloc arena size s.offset in
    if size == 0
    then record { pointer = some ptr; store = s }
    else record { pointer = block.pointer; store = record s { offset = block.offset } }
