-- ===== src/Runtime/Text/Copies.antt =====
-- What `memcpy` and `strcpy` leave in memory.
use vectorizer_experiments.Base.{
  ℕ, zero, suc, ◌+◌, ◌-◌, ◌≤◌, ◌<◌, ◌≡◌, ◌⊎◌, false, if◌then◌else◌, ltb, leb, ◌&&◌, ◌==◌, Cells,
  update, List, [], ◌∷◌, arith, Ensures, Ensures-some, Ensures-weaken,
}
use native.Mathlib.Decide.{dec_lt}
use vectorizer_experiments.Harness.Decimal.Digits.{length}
use vectorizer_experiments.Runtime.Text.{memcpy, strcpy}
use vectorizer_experiments.Runtime.Text.Reads.{Text}

-- `count` bytes from `dst` on are those that stood from `src` on.
abbrev pub Copied : Cells → ℕ → ℕ → ℕ → Cells → Type 0
Copied mem dst src count mem' =
    (j : ℕ) → mem' j ≡ (if leb dst j && ltb j (dst + count) then mem (src + (j - dst)) else mem j)

-- The two blocks do not overlap.
abbrev pub Apart : ℕ → ℕ → ℕ → Type 0
Apart dst src count = (dst + count ≤ src) ⊎ (src + count ≤ dst)

memcpy-Copied :
    (mem : Cells) (dst src count : ℕ)
    → Apart dst src count
    → Copied mem dst src count (memcpy mem dst src count)
unfolding memcpy update
memcpy-Copied mem dst src zero apart j = ground arith
memcpy-Copied mem dst src (suc count) apart j =
    let shorter : Apart dst src count = ground (arith, apart) in
    let old : memcpy mem dst src count (src + count) ≡ mem (src + count) =
      ground (arith, apart, memcpy-Copied mem dst src count shorter (src + count)) in
    rw old (ground (arith, memcpy-Copied mem dst src count shorter j))

-- A store outside a string leaves the string.
Text-update :
    (mem : Cells) (i v p : ℕ) (s : List ℕ)
    → ((i < p) ⊎ (p + length s < i))
    → Text mem p s
    → Text (update mem i v) p s
unfolding update
Text-update mem i v p [] out h = ground (arith, out, h)
Text-update mem i v p (c ∷ s) out h =
    let later : (i < p + 1) ⊎ (p + 1 + length s < i) = ground (arith, out) in
    (h.0, ground (arith, out, h.1), Text-update mem i v (p + 1) s later h.2)

-- A byte stored, and the rest copied behind it.
Copied-cons :
    (mem mem' : Cells) (dst src n : ℕ)
    → Apart dst src (suc n)
    → Copied (update mem dst (mem src)) (dst + 1) (src + 1) n mem'
    → Copied mem dst src (suc n) mem'
unfolding update
Copied-cons mem mem' dst src n apart p j = elim (dec_lt dst j) [
  | yes behind ↦
      let here : src + 1 + (j - (dst + 1)) ≡ src + (j - dst) = omega arith in
      let q = rw here at (p j) in ground (arith, q, apart)
  | no upto ↦ elim (dec_lt j dst) [
    | yes before ↦ ground (arith, p j)
    | no last ↦
        let e : dst ≡ j = omega arith in
        let start : src + (j - j) ≡ src = omega arith in
        let q = p j in rw (e, start) (ground (arith, q))
  ]
]

strcpy-Copied :
    (fuel : ℕ) (mem : Cells) (dst src : ℕ) (s : List ℕ)
    → Text mem src s
    → Apart dst src (length s + 1)
    → length s < fuel
    → Ensures (strcpy fuel mem dst src) (Copied mem dst src (length s + 1))
unfolding strcpy update
strcpy-Copied zero mem dst src s h apart le = absurd (omega arith)
strcpy-Copied (suc fuel) mem dst src [] h apart le = rw h (Ensures-some _ _ λ j. ground (arith, h))
strcpy-Copied (suc fuel) mem dst src (c ∷ s) h apart le =
    let more : (c == 0) ≡ false = ground (arith, h.0) in
    let next = update mem dst c in
    let size : suc (length s) + 1 ≡ suc (length s + 1) = omega arith in
    let clear : (dst < src + 1) ⊎ (src + 1 + length s < dst) = ground (arith, apart) in
    let closer : Apart (dst + 1) (src + 1) (length s + 1) = ground (arith, apart) in
    rw (h.1, more, size)
      (Ensures-weaken _ _ _
        (strcpy-Copied fuel next (dst + 1) (src + 1) s (Text-update mem dst c (src + 1) s clear h.2)
          closer (omega arith))
        λ mem' p. Copied-cons mem mem' dst src (length s + 1) (rw size at apart) (rw (h.1) p))

-- For a string in memory and a destination block that does not overlap it, both as long as the string
-- with its end, `memcpy` of that length, and `strcpy` with more fuel than the string has bytes, which
-- returns, leave at the destination the bytes of the source and all other memory as it was.
pub memcpy-strcpy-Copied :
    (fuel : ℕ) (mem : Cells) (dst src : ℕ) (s : List ℕ)
    → Text mem src s
    → Apart dst src (length s + 1)
    → length s < fuel
    → Copied mem dst src (length s + 1) (memcpy mem dst src (length s + 1))
      × Ensures (strcpy fuel mem dst src) (Copied mem dst src (length s + 1))
memcpy-strcpy-Copied fuel mem dst src s h apart le =
    (memcpy-Copied mem dst src (length s + 1) apart, strcpy-Copied fuel mem dst src s h apart le)
