-- ===== src/Runtime/Heap/Contents.antt =====
-- Where the size of a request wraps, and what `calloc` and `realloc` leave in memory.
use Prim.Native.Nat.{max}
use vectorizer_experiments.Base.{
  ℕ, ◌+◌, ◌-◌, ◌%◌, ◌≤◌, ◌<◌, ◌≡◌, ◌↔◌, sym, ap, ◌∙◌, refl, Option, none, some, false, arith, ltb,
  leb, ◌&&◌, ◌==◌, if◌then◌else◌, Cells,
}
use vectorizer_experiments.Runtime.Heap.{
  word, Arena, align_up_or_pointer, take_block, malloc, Store, Returned, Allocated, realloc,
}
use vectorizer_experiments.Runtime.Heap.Blocks.{
  IsArena, align_up_16, Outcome, refused, placed, malloc-Outcome,
}

-- With k bytes or more in use, k positive, and an offset at a multiple of 16, a request of 2^64 - k
-- bytes wraps: `malloc` of parsec_runtime.c grants it, and the offset goes back by k.
pub malloc_wraps :
    (arena : Arena) (offset k : ℕ)
    → IsArena arena
    → offset ≤ arena.bytes
    → (arena.base + offset) % 16 ≡ 0
    → 0 < k
    → k ≤ offset
    → malloc arena (word - k) offset
      ≡ record { pointer = some (arena.base + offset); offset = offset - k }
unfolding malloc align_up_or_pointer take_block
malloc_wraps arena offset k ok inside aligned pos le =
    let here : (arena.base + offset) % word ≡ arena.base + offset = omega arith in
    let same : arena.base + offset + 15 - (arena.base + offset + 15) % 16 ≡ arena.base + offset =
      omega arith in
    let not_zero : (if word - k == 0 then 1 else word - k) ≡ word - k = ground arith in
    let back : ((arena.base + offset + word - arena.base) % word + (word - k)) % word ≡ offset - k =
      omega arith in
    let fits : ltb arena.bytes (offset - k) ≡ false = ground arith in
    rw (here, align_up_16 (arena.base + offset) (omega arith), same, not_zero, back, fits)

-- The block reads zero, and all else is as before; without a block all is as before.
abbrev pub Cleared : Option ℕ → ℕ → Cells → Cells → Type 0
Cleared none total before after = (i : ℕ) → after i ≡ before i
Cleared (some p) total before after =
    (i : ℕ) → after i ≡ (if leb p i && ltb i (p + total) then 0 else before i)

-- What `malloc` promises of the block, and what memory holds.
pub record Zeroed (arena : Arena) (total : ℕ) (s : Store) (r : Returned) : Type 0 where
  pub block :
      Outcome arena 16
        (max total 1)
        s.offset
        (record { pointer = r.pointer; offset = r.store.offset })
  pub cleared : Cleared r.pointer total s.bytes r.store.bytes

-- The first n bytes at p are those at ptr.
abbrev pub SameBytes : Cells → ℕ → ℕ → ℕ → Type 0
SameBytes bytes ptr p n = (i : ℕ) → i < n → bytes (p + i) ≡ bytes (ptr + i)

-- The start of a block that was placed.
placed_behind :
    (arena : Arena) (need offset : ℕ) (r : Allocated) (p : ℕ)
    → Outcome arena 16 need offset r
    → r.pointer ≡ some p
    → (arena.base + offset ≤ p) × (p + need ≤ arena.base + arena.bytes)
placed_behind arena need offset r p (refused p' from upto aligned over e) h =
    let no_block : none ≡ some p = sym (ap (λ (b : Allocated). b.pointer) e) ∙ h in
    absurd (ground (arith, no_block))
placed_behind arena need offset r p (placed p' from upto aligned room e) h =
    let same : some p' ≡ some p = sym (ap (λ (b : Allocated). b.pointer) e) ∙ h in
    ground (arith, same)

-- In an arena of at most 4 GB inside the address space, with the offset inside it, where `realloc` of
-- a block to a positive size that does not wrap returns a block, this is a fresh one behind the
-- offset and inside the arena, and every byte of memory is as before; so for any n its first n bytes
-- are those of the old block just if they were before the call.
pub realloc-forgets :
    (arena : Arena) (ptr size n p : ℕ) (s : Store)
    → IsArena arena
    → s.offset ≤ arena.bytes
    → 0 < size
    → size + arena.bytes + 65 < word
    → (realloc arena (some ptr) size s).pointer ≡ some p
    → (arena.base + s.offset ≤ p)
      × (p + size ≤ arena.base + arena.bytes)
      × ((i : ℕ) → (realloc arena (some ptr) size s).store.bytes i ≡ s.bytes i)
      × (SameBytes (realloc arena (some ptr) size s).store.bytes ptr p n
          ↔ SameBytes s.bytes ptr p n)
unfolding realloc
realloc-forgets arena ptr size n p s ok inside pos fits e =
    let not_zero : (size == 0) ≡ false = ground arith in
    let behind =
      placed_behind arena (max size 1) s.offset (malloc arena size s.offset) p
        (malloc-Outcome arena ok s.offset inside size fits) (rw not_zero at e) in
    rw not_zero (behind.0, omega (arith, behind.1), λ i. refl, (λ h. h, λ h. h))
