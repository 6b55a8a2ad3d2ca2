-- ===== src/Runtime/Tests.antt =====
-- The allocators on an arena of 64 KB, and the theorems on it.
use vectorizer_experiments.Base.{◌+◌, ◌-◌, ◌%◌, ◌≡◌, refl, some, [], ◌∷◌, arith, if◌then◌else◌}
use Prim.Native.Nat.{max}
use vectorizer_experiments.Runtime.Heap.{
  word, Arena, align_up, align_up_or_pointer, take_block, npb_malloc, malloc, memalign, Store,
  realloc,
}
use vectorizer_experiments.Runtime.Heap.Blocks.{
  IsArena, Outcome, allocators-Outcome, malloc_all, Ascending, malloc_all-Ascending,
}
use vectorizer_experiments.Runtime.Heap.Contents.{malloc_wraps, SameBytes, realloc-forgets}
use vectorizer_experiments.Base.{ℕ, ◌≤◌, List, true, ◌==◌, Cells, Ensures, ◌↔◌, inr}
use vectorizer_experiments.Base.Int.{pos, sub_ℕ}
use vectorizer_experiments.Harness.Decimal.Digits.{digits, decimal}
use vectorizer_experiments.Runtime.Text.{strlen, strcmp, atoi, memcpy, strcpy}
use vectorizer_experiments.Runtime.Text.Reads.{Text, strlen-strcmp, atoi-decimal}
use vectorizer_experiments.Runtime.Text.Copies.{Copied, memcpy-strcpy-Copied}

abbrev heap : Arena
heap = record { base = 64; bytes = 65536 }

abbrev stored : Store
stored = record { bytes = λ i. i % 256; offset = 32 }

heap-IsArena : IsArena heap
heap-IsArena = (omega arith, omega arith)

malloc_runs : malloc heap 24 20 ≡ record { pointer = some 96; offset = 56 }
unfolding malloc align_up_or_pointer align_up take_block
malloc_runs = refl

allocators-Outcome_example :
    Outcome heap 16 (max 24 1) 20 (malloc heap 24 20)
    × Outcome heap 16 (max 24 1) 20 (npb_malloc heap 24 20)
    × Outcome heap 64 24 20 (memalign heap 64 24 20)
allocators-Outcome_example = allocators-Outcome heap heap-IsArena 20 (omega arith) 24 (omega arith)

malloc_all-Ascending_example :
    Ascending (64 + 0) (64 + 65536) (malloc_all heap (24 ∷ 70000 ∷ 8 ∷ []) 0)
malloc_all-Ascending_example =
    malloc_all-Ascending heap (24 ∷ 70000 ∷ 8 ∷ []) 0 heap-IsArena
      (omega arith, (omega arith, (omega arith, tt))) (omega arith)

malloc_wraps_example :
    malloc heap (word - 16) 32 ≡ record { pointer = some (64 + 32); offset = 32 - 16 }
malloc_wraps_example =
    malloc_wraps heap 32 16 heap-IsArena (omega arith) refl (omega arith) (omega arith)

realloc_block : (realloc heap (some 80) 8 stored).pointer ≡ some 96
unfolding realloc malloc align_up_or_pointer align_up take_block
realloc_block = refl

realloc-forgets_example :
    (64 + 32 ≤ 96)
    × (96 + 8 ≤ 64 + 65536)
    × ((i : ℕ) → (realloc heap (some 80) 8 stored).store.bytes i ≡ stored.bytes i)
    × (SameBytes (realloc heap (some 80) 8 stored).store.bytes 80 96 8
        ↔ SameBytes stored.bytes 80 96 8)
realloc-forgets_example =
    realloc-forgets heap 80 8 8 96 stored heap-IsArena (omega arith) (omega arith) (omega arith)
      realloc_block

-- " -407" at 100, and "40" at 200.
abbrev strings : Cells
strings = λ i.
    if i == 100
    then 32
    else if i == 101
    then 45
    else if i == 102
    then 52
    else if i == 103
    then 48
    else if i == 104
    then 55
    else if i == 200
    then 52
    else if i == 201
    then 48
    else 0

abbrev first_bytes : List ℕ
first_bytes = 52 ∷ 48 ∷ 55 ∷ []

abbrev second_bytes : List ℕ
second_bytes = 52 ∷ 48 ∷ []

first_Text : Text strings 102 first_bytes
first_Text = (omega arith, refl, (omega arith, refl, (omega arith, refl, refl)))

second_Text : Text strings 200 second_bytes
second_Text = (omega arith, refl, (omega arith, refl, refl))

strlen-strcmp_example :
    (strlen 10 strings (some 102) ≡ some 3)
    × Ensures (strcmp 10 strings 102 200) (λ v. (v ≡ pos 0) ↔ (first_bytes ≡ second_bytes))
strlen-strcmp_example =
    strlen-strcmp strings 10 102 200 first_bytes second_bytes first_Text second_Text (omega arith)

atoi-decimal_example : atoi 10 strings (some 100) ≡ some (if true then sub_ℕ 0 407 else pos 407)
unfolding digits decimal
atoi-decimal_example =
    atoi-decimal strings 10 100 407 (32 ∷ []) true (refl, tt) (omega arith)
      (omega arith, refl, (omega arith, refl, first_Text)) (omega arith)

memcpy-strcpy-Copied_example :
    Copied strings 300 102 4 (memcpy strings 300 102 4)
    × Ensures (strcpy 10 strings 300 102) (Copied strings 300 102 4)
memcpy-strcpy-Copied_example =
    memcpy-strcpy-Copied 10 strings 300 102 first_bytes first_Text (inr (omega arith)) (omega arith)
