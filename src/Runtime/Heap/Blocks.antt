-- ===== src/Runtime/Heap/Blocks.antt =====
-- What the bump allocators hand out: aligned blocks inside the arena that do not overlap.
use Prim.Native.Nat.{max}
use vectorizer_experiments.Base.{
  ℕ, ◌+◌, ◌-◌, ◌%◌, ◌^◌, ◌≤◌, ◌<◌, ◌≡◌, inl, inr, Option, none, some, List, [], ◌∷◌, arith, ltb,
  ◌==◌, if◌then◌else◌, Bool-cases,
}
use vectorizer_experiments.Base.Bits.{clear_4, clear_6}
use vectorizer_experiments.Runtime.Heap.{
  word, Arena, align_up, align_up_or_pointer, Allocated, take_block, npb_malloc, malloc, memalign,
}

-- The arena and its alignment lie inside the address space, and it has at most 4 GB.
abbrev pub IsArena : Arena → Type 0
IsArena arena = (arena.base + arena.bytes + 64 < word) × (arena.bytes ≤ 2 ^ 32)

pub align_up_16 : (v : ℕ) → v + 15 < word → align_up v 16 ≡ v + 15 - (v + 15) % 16
unfolding align_up
align_up_16 v h =
    let no_wrap : (v + 15) % word ≡ v + 15 = omega arith in rw no_wrap (clear_4 (v + 15) h)

align_up_64 : (v : ℕ) → v + 63 < word → align_up v 64 ≡ v + 63 - (v + 63) % 64
unfolding align_up
align_up_64 v h =
    let no_wrap : (v + 63) % word ≡ v + 63 = omega arith in rw no_wrap (clear_6 (v + 63) h)

-- What a caller sees of one allocation of `need` bytes at an alignment: NULL and nothing changed, if
-- the block does not fit, or the first aligned block behind the offset.
pub data Outcome (arena : Arena) (alignment need offset : ℕ) (r : Allocated) : Type 0 where
  refused :
      (p : ℕ)
      → arena.base + offset ≤ p
      → p < arena.base + offset + alignment
      → p % alignment ≡ 0
      → arena.base + arena.bytes < p + need
      → r ≡ record { pointer = none; offset = offset }
      → Outcome arena alignment need offset r
  placed :
      (p : ℕ)
      → arena.base + offset ≤ p
      → p < arena.base + offset + alignment
      → p % alignment ≡ 0
      → p + need ≤ arena.base + arena.bytes
      → r ≡ record { pointer = some p; offset = p + need - arena.base }
      → Outcome arena alignment need offset r

module _ (arena : Arena) (ok : IsArena arena) (offset : ℕ) (inside : offset ≤ arena.bytes) where
  take_block_lem :
      (alignment p need : ℕ)
      → arena.base + offset ≤ p
      → p < arena.base + offset + alignment
      → p % alignment ≡ 0
      → alignment ≤ 64
      → need + arena.bytes + 64 < word
      → Outcome arena alignment need offset (take_block arena p need offset)
  unfolding take_block
  take_block_lem alignment p need from upto aligned small fits =
      let next : ((p + word - arena.base) % word + need) % word ≡ p + need - arena.base =
        omega arith in
      elim (Bool-cases (ltb arena.bytes (p + need - arena.base))) [
        | inl over ↦ refused p from upto aligned (ground arith) (rw (next, over))
        | inr room ↦ placed p from upto aligned (ground arith) (rw (next, room))
      ]

  at_least_one : (size : ℕ) → (if size == 0 then 1 else size) ≡ max size 1
  at_least_one size = ground arith

  -- In an arena of at most 4 GB inside the address space, with the offset inside it, `malloc` of
  -- npb_runtime_is.c of a size that does not wrap takes the first multiple of 16 from the offset
  -- on: if the size, or one byte for size 0, fits behind it, the block starts there and the offset
  -- moves to its end; otherwise the result is NULL and the offset stays.
  pub npb_malloc-Outcome :
      (size : ℕ)
      → size + arena.bytes + 65 < word
      → Outcome arena 16 (max size 1) offset (npb_malloc arena size offset)
  unfolding npb_malloc
  npb_malloc-Outcome size fits =
      let here : (arena.base + offset) % word ≡ arena.base + offset = omega arith in
      rw (here, align_up_16 (arena.base + offset) (omega arith), at_least_one size)
        (take_block_lem 16 _ (max size 1) (omega arith) (omega arith) (omega arith) (omega arith)
          (omega arith))

  -- In an arena of at most 4 GB inside the address space, with the offset inside it, `malloc` of
  -- parsec_runtime.c of a size that does not wrap takes the first multiple of 16 from the offset
  -- on: if the size, or one byte for size 0, fits behind it, the block starts there and the offset
  -- moves to its end; otherwise the result is NULL and the offset stays.
  pub malloc-Outcome :
      (size : ℕ)
      → size + arena.bytes + 65 < word
      → Outcome arena 16 (max size 1) offset (malloc arena size offset)
  unfolding malloc align_up_or_pointer
  malloc-Outcome size fits =
      let here : (arena.base + offset) % word ≡ arena.base + offset = omega arith in
      rw (here, align_up_16 (arena.base + offset) (omega arith), at_least_one size)
        (take_block_lem 16 _ (max size 1) (omega arith) (omega arith) (omega arith) (omega arith)
          (omega arith))

  -- In an arena of at most 4 GB inside the address space, with the offset inside it, `memalign` at
  -- 64 bytes of a size that does not wrap takes the first multiple of 64 from the offset on: if the
  -- size fits behind it, the block starts there and the offset moves to its end; otherwise the
  -- result is NULL and the offset stays.
  pub memalign-Outcome :
      (size : ℕ)
      → size + arena.bytes + 65 < word
      → Outcome arena 64 size offset (memalign arena 64 size offset)
  unfolding memalign align_up_or_pointer
  memalign-Outcome size fits =
      let here : (arena.base + offset) % word ≡ arena.base + offset = omega arith in
      rw (here, align_up_64 (arena.base + offset) (omega arith))
        (take_block_lem 64 _ size (omega arith) (omega arith) (omega arith) (omega arith)
          (omega arith))

  -- In an arena of at most 4 GB inside the address space, with the offset inside it, `malloc` of
  -- parsec_runtime.c, `malloc` of npb_runtime_is.c, and `memalign` at 64 bytes, of a size that does
  -- not wrap, take the first multiple of 16, 16 or 64 from the offset on: if the size, or in
  -- `malloc` one byte for size 0, fits behind it, the block starts there and the offset moves to
  -- its end; otherwise the result is NULL and the offset stays.
  pub allocators-Outcome :
      (size : ℕ)
      → size + arena.bytes + 65 < word
      → Outcome arena 16 (max size 1) offset (malloc arena size offset)
        × Outcome arena 16 (max size 1) offset (npb_malloc arena size offset)
        × Outcome arena 64 size offset (memalign arena 64 size offset)
  allocators-Outcome size fits =
      (malloc-Outcome size fits, npb_malloc-Outcome size fits, memalign-Outcome size fits)

-- The blocks of a series of requests, as start and size, in order. NULL leaves no block.
pub record Block : Type 0 where
  pub start : ℕ
  pub size : ℕ

unfoldable pub push_block : Option ℕ → ℕ → List Block → List Block
push_block none size rest = rest
push_block (some p) size rest = (record { start = p; size = size }) ∷ rest

unfoldable pub malloc_all : Arena → List ℕ → ℕ → List Block
unfolding push_block
malloc_all arena [] offset = []
malloc_all arena (size ∷ sizes) offset =
    push_block (malloc arena size offset).pointer (max size 1)
      (malloc_all arena sizes (malloc arena size offset).offset)

-- Blocks one behind the other from `lo` on, all up to `hi`: none overlaps another.
abbrev pub Ascending : ℕ → ℕ → List Block → Type 0
Ascending lo hi [] = Unit
Ascending lo hi (b ∷ bs) =
    (lo ≤ b.start)
    × (b.start % 16 ≡ 0)
    × (b.start + b.size ≤ hi)
    × Ascending (b.start + b.size) hi bs

abbrev pub AllSmall : Arena → List ℕ → Type 0
AllSmall arena [] = Unit
AllSmall arena (size ∷ sizes) = (size + arena.bytes + 65 < word) × AllSmall arena sizes

push_block-Ascending :
    (arena : Arena) (offset need : ℕ) (r : Allocated) (rest : ℕ → List Block)
    → offset ≤ arena.bytes
    → Outcome arena 16 need offset r
    → ((offset' : ℕ)
        → offset' ≤ arena.bytes
        → Ascending (arena.base + offset') (arena.base + arena.bytes) (rest offset'))
    → Ascending
        (arena.base + offset)
        (arena.base + arena.bytes)
        (push_block r.pointer need (rest r.offset))
unfolding push_block
push_block-Ascending arena offset need r rest inside (refused p from upto aligned over e) h =
    rw e (h offset inside)
push_block-Ascending arena offset need r rest inside (placed p from upto aligned room e) h =
    let next : arena.base + (p + need - arena.base) ≡ p + need = omega arith in
    rw e (from, aligned, room, rw next at (h (p + need - arena.base) (omega arith)))

-- In an arena of at most 4 GB inside the address space, any series of requests that do not wrap gets
-- blocks that start at multiples of 16, lie inside the arena behind the offset, and follow one
-- another without overlap.
pub malloc_all-Ascending :
    (arena : Arena) (sizes : List ℕ) (offset : ℕ)
    → IsArena arena
    → AllSmall arena sizes
    → offset ≤ arena.bytes
    → Ascending (arena.base + offset) (arena.base + arena.bytes) (malloc_all arena sizes offset)
unfolding malloc_all
malloc_all-Ascending arena [] offset ok small inside = tt
malloc_all-Ascending arena (size ∷ sizes) offset ok (this, small) inside =
    push_block-Ascending arena offset (max size 1) (malloc arena size offset)
      (malloc_all arena sizes) inside (malloc-Outcome arena ok offset inside size this)
      (λ offset' inside'. malloc_all-Ascending arena sizes offset' ok small inside')
