-- ===== src/Dlmul/Widen/Stores.antt =====
-- The stores of db6 by halves.
use Prim.Native.Nat.{min}
use vectorizer_experiments.Base.{
  ℕ, ◌+◌, ◌-◌, ◌*◌, ◌≤◌, ◌<◌, ◌≡◌, ◌∙◌, ap, inl, inr, arith, ltb, Bool-cases, Ensures, Ensures-some,
  Ensures-bind,
}
use vectorizer_experiments.Dlmul.Rvv.{m2, m4, Rvv, IsRvv}
use vectorizer_experiments.Dlmul.Rvv.Lanes.{vsetvl-le_avl}
use vectorizer_experiments.Dlmul.Bench.Chunks.{IsGreedy, chunk-start, chunk-behind, part-le}
use vectorizer_experiments.Dlmul.Bench.Stored.{Holds, Holds-both}
use vectorizer_experiments.Dlmul.Ints.{IntRvv, IsIntRvv}
use vectorizer_experiments.Dlmul.Ints.Lanes.{Words, RunsWord, vse32-Words, store_word-some}
use vectorizer_experiments.Dlmul.Widen.{store_word_chunk, store_word_chunks}

module _ (r : Rvv) (law : IsRvv r) (n : IntRvv) (int_law : IsIntRvv r n) (greedy : IsGreedy r)
    (offset avl : ℕ) (fits : avl ≤ r.vlmax m4) (inside : offset + avl ≤ r.len_1d) (v : n.Word m4)
    (h : ℕ → ℕ) (p : Words n m4 offset avl v h) where
  -- Part k of the group, as far as it holds values.
  vget_word-Words :
      (k vlc : ℕ)
      → k < 2
      → vlc ≤ r.vlmax m2
      → k * r.vlmax m2 + vlc ≤ avl
      → Words n m2 (offset + k * r.vlmax m2) vlc (n.vget_word m4 m2 v k) h
  vget_word-Words k vlc lt few le = record {
    at_lane = λ i i-lt.
        let same : offset + (k * r.vlmax m2 + i) ≡ offset + k * r.vlmax m2 + i = omega arith in
        int_law.vget_word-lane m4 m2 v k i
          (omega (arith, part-le k 2 (r.vlmax m2) lt, law.vlmax-m4)) (omega arith)
        ∙ p.at_lane (k * r.vlmax m2 + i) (omega arith)
        ∙ ap h same;
  }

  store_word_chunk-Holds :
      (arr : ℕ → ℕ) (k done more : ℕ) (mid : ℕ → ℕ)
      → k < 2
      → done ≡ min avl (k * r.vlmax m2)
      → more ≡ min avl (k * r.vlmax m2 + r.vlmax m2)
      → Holds offset done arr h mid
      → Ensures (store_word_chunk r n offset avl v k mid) (Holds offset more arr h)
  unfolding store_word_chunk
  store_word_chunk-Holds arr k done more mid lt is_done is_more q =
      elim (Bool-cases (ltb (k * r.vsetvl m2 avl) avl)) [
        | inl some_left ↦
            let start = chunk-start r law m2 greedy avl k (ground arith) in
            let rest = avl - k * r.vlmax m2 in
            let vlc = r.vsetvl m2 rest in
            let vlc-le : vlc ≤ rest = vsetvl-le_avl r law m2 rest in
            let at_start : k * r.vsetvl m2 avl < avl = ground arith in
            let before : k * r.vlmax m2 < avl = omega (arith, start) in
            let filled : k * r.vlmax m2 + vlc ≡ more = elim (Bool-cases (ltb rest (r.vlmax m2))) [
              | inl few ↦ omega (arith, law.vsetvl-all m2 rest (ground arith), start)
              | inr many ↦ omega (arith, greedy rest (ground arith), start)
            ] in
            let reached : done ≡ k * r.vlmax m2 = omega (arith, is_done) in
            let words = vget_word-Words k vlc lt (law.vsetvl-le m2 rest) (omega (arith, start)) in
            let run : RunsWord r n m2 vlc = record {
              law = int_law;
              fits = law.vsetvl-le m2 rest;
            } in
            let now = vse32-Words run mid words in
            rw
              (
                some_left,
                start,
                store_word-some n m2 r.len_1d (offset + k * r.vlmax m2) vlc (omega (arith, start))
                    mid (n.vget_word m4 m2 v k),
              )
              (Ensures-some _ _ (
                rw filled at
                  (Holds-both offset (k * r.vlmax m2) vlc arr h mid _ (rw reached at q) now)))
        | inr none_left ↦
            let behind = chunk-behind r law m2 greedy avl k (ground arith) in
            let all : more ≡ done = omega arith in rw (none_left, all) (Ensures-some _ _ q)
      ]

  pub store_word_chunks-Holds :
      (arr : ℕ → ℕ) → Ensures (store_word_chunks r n arr offset avl v) (Holds offset avl arr h)
  unfolding store_word_chunks
  store_word_chunks-Holds arr =
      let start : Holds offset 0 arr h arr = λ j. ground arith in
      Ensures-bind _ _ _ _
        (store_word_chunk-Holds arr 0 0 (min avl (r.vlmax m2)) arr (omega arith) (omega arith)
          (omega arith) start)
        λ mid q.
          store_word_chunk-Holds arr 1 (min avl (r.vlmax m2)) avl mid (omega arith) (omega arith)
            (omega (arith, law.vlmax-m4)) q
