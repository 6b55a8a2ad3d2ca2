-- ===== src/Tsvc/Dependence/Parallel.antt =====
-- The kernels of Ahead and of Halves: their loops need the old elements alone.
use vectorizer_experiments.Base.{ℕ, ◌+◌, ◌-◌, ◌/◌, Ensures}
use vectorizer_experiments.Tsvc.Memory.{Floats, Memory}
use vectorizer_experiments.Tsvc.Dependence.{s112, s121, s421, s1113, s212, s151, s173, s1421}
use vectorizer_experiments.Tsvc.Dependence.Ahead.{
  OnA, OnC, OnTwo, mid, product, moved, s112-OnA, s121-OnA, s421-OnC, s1113-OnA, s212-OnTwo,
}
use vectorizer_experiments.Tsvc.Dependence.Halves.{OnB, half, folded, s151-OnA, s173-OnA, s1421-OnB}

-- Eight kernels that read an element before an iteration writes it return and do what their statement
-- does with the old elements, and nothing else: s112, whose loop runs downwards, stores the sum of
-- the elements of a and b one place further in a; s121 (and s131), s151 and s421 put below LEN_1D - 1
-- the sum of the next element and the element of b or a; s1113 puts everywhere the sum of the element
-- of b and the middle element of a, the old one up to the middle, the new one behind it; s212
-- multiplies a by c, and adds to b the next element of a times d, below LEN_1D - 1; s173 (and s174)
-- puts the sums of a and b in the first half into the second half of a; s1421 puts into the first
-- half of b the sum of the second half and a.
pub kernels-Ahead :
    (f : Floats) (n : ℕ) (s : Memory f)
    → Ensures (s112 f n s) (OnA f n s 1 n (λ j. f.add (s.a (j - 1)) (s.b (j - 1))))
      × Ensures (s121 f n s) (OnA f n s 0 (n - 1) (λ j. f.add (s.a (j + 1)) (s.b j)))
      × Ensures (s151 f n s) (OnA f n s 0 (n - 1) (λ j. f.add (s.a (j + 1)) (s.b j)))
      × Ensures (s421 f n s) (OnC f n s 0 (n - 1) (λ j. f.add (s.c (j + 1)) (s.a j)))
      × Ensures (s1113 f n s) (OnA f n s 0 n (λ j. f.add (mid f n s j) (s.b j)))
      × Ensures (s212 f n s) (OnTwo f n s (n - 1) (product f n s) (moved f n s))
      × Ensures (s173 f n s) (OnA f n s (n / 2) (n / 2 + n / 2) (half f n s))
      × Ensures (s1421 f n s) (OnB f n s 0 (n / 2) (folded f n s))
kernels-Ahead f n s = (
  s112-OnA f n s,
  s121-OnA f n s,
  s151-OnA f n s,
  s421-OnC f n s,
  s1113-OnA f n s,
  s212-OnTwo f n s,
  s173-OnA f n s,
  s1421-OnB f n s,
)
