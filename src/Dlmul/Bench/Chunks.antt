-- ===== src/Dlmul/Bench/Chunks.antt =====
-- The middle phase of the dynamic variants, part by part, fills all the lanes that are stored.
use Prim.Native.Nat.{min}
use vectorizer_experiments.Base.{
  ℕ, zero, suc, ◌+◌, ◌-◌, ◌*◌, ◌≤◌, ◌<◌, ◌≡◌, ◌∙◌, ap, subst, inl, inr, arith, false, ltb,
  Bool-cases,
}
use vectorizer_experiments.Dlmul.Rvv.{Lmul, m2, Rvv, IsRvv, touched}
use vectorizer_experiments.Dlmul.Rvv.Lanes.{Lanes, vsetvl-le_avl}
use vectorizer_experiments.Dlmul.Bench.{chunk, chunks_from, chunks}

-- `vsetvl` at this LMUL gives the full group whenever it can. The specification lets it give less
-- for up to twice the group.
abbrev pub IsGreedyAt : Rvv → Lmul → Type 0
IsGreedyAt r l = (avl : ℕ) → r.vlmax l ≤ avl → r.vsetvl l avl ≡ r.vlmax l

abbrev pub IsGreedy : Rvv → Type 0
IsGreedy r = IsGreedyAt r m2

-- Part k of n parts lies in the whole.
pub part-le : (k n v : ℕ) → k < n → k * v + v ≤ n * v
part-le k zero v lt = absurd (omega arith)
part-le k (suc n) v lt = elim (Bool-cases (ltb k n)) [
  | inl before ↦
      let more : n * v + v ≡ suc n * v = omega arith in
      omega (arith, part-le k n v (ground arith), more)
  | inr last ↦
      let same : k ≡ n = ground arith in
      let more : n * v + v ≡ suc n * v = omega arith in rw same (omega (arith, more))
]

-- Where part k starts, for a chunk of v elements or of all, if they are fewer.
module _ (v size avl : ℕ) (whole : v ≤ avl → size ≡ v) (short : avl < v → size ≡ avl) where
  pub start_lem : (k : ℕ) → k * size < avl → k * size ≡ k * v
  start_lem zero lt = omega arith
  start_lem (suc k) lt = elim (Bool-cases (ltb avl v)) [
    | inl few ↦ absurd (omega (arith, short (ground arith)))
    | inr many ↦ ap (λ (x : ℕ). suc k * x) (whole (ground arith))
  ]

  pub behind_lem : (k : ℕ) → avl ≤ k * size → avl ≤ k * v
  behind_lem zero le = omega arith
  behind_lem (suc k) le = elim (Bool-cases (ltb avl v)) [
    | inl few ↦ ground arith
    | inr many ↦ subst (λ (x : ℕ). avl ≤ suc k * x) (whole (ground arith)) le
  ]

module _ (r : Rvv) (law : IsRvv r) (small : Lmul) (greedy : IsGreedyAt r small) (avl : ℕ) where
  -- The last part has a lane for every element that is left.
  pub last_lane :
      (rest k i : ℕ)
      → rest ≡ avl - k * r.vlmax small
      → k * r.vlmax small ≤ i
      → i < min avl (k * r.vlmax small + r.vlmax small)
      → i - k * r.vlmax small < r.vsetvl small rest
  last_lane rest k i e le lt = elim (Bool-cases (ltb rest (r.vlmax small))) [
    | inl few ↦ omega (arith, law.vsetvl-all small rest (ground arith))
    | inr many ↦ omega (arith, greedy rest (ground arith))
  ]

  pub chunk-start :
      (k : ℕ) → k * r.vsetvl small avl < avl → k * r.vsetvl small avl ≡ k * r.vlmax small
  chunk-start k lt =
      start_lem (r.vlmax small) (r.vsetvl small avl) avl (greedy avl)
        (λ le. law.vsetvl-all small avl (omega arith)) k lt

  pub chunk-behind : (k : ℕ) → avl ≤ k * r.vsetvl small avl → avl ≤ k * r.vlmax small
  chunk-behind k le =
      behind_lem (r.vlmax small) (r.vsetvl small avl) avl (greedy avl)
        (λ lt. law.vsetvl-all small avl (omega arith)) k le

module _ (r : Rvv) (law : IsRvv r) (big small : Lmul) (parts : ℕ)
    (split : r.vlmax big ≡ parts * r.vlmax small) (offset avl : ℕ) where
  -- Part k of a register group, as far as it holds values.
  pub vget-Lanes :
      (v : r.Vec big) (h : ℕ → r.Real) (k vlc : ℕ)
      → Lanes r big offset avl v h
      → k < parts
      → vlc ≤ r.vlmax small
      → k * r.vlmax small + vlc ≤ avl
      → Lanes r small (offset + k * r.vlmax small) vlc (r.vget big small v k) h
  vget-Lanes v h k vlc p k-lt fits inside = record {
    at_lane = λ i lt.
        let same : offset + (k * r.vlmax small + i) ≡ offset + k * r.vlmax small + i =
          omega arith in
        law.vget-lane big small v k i (omega (arith, part-le k parts (r.vlmax small) k-lt, split))
          (omega arith)
        ∙ p.at_lane (k * r.vlmax small + i) (omega arith)
        ∙ ap h same;
  }

pub fewer-Lanes :
    (r : Rvv) (l : Lmul) (offset : ℕ) (v : r.Vec l) (h : ℕ → r.Real) (m n : ℕ)
    → n ≤ m
    → Lanes r l offset m v h
    → Lanes r l offset n v h
fewer-Lanes r l offset v h m n le p = record { at_lane = λ i lt. p.at_lane i (omega arith) }

module _ (r : Rvv) (law : IsRvv r) (big : Lmul) (parts : ℕ)
    (split : r.vlmax big ≡ parts * r.vlmax m2) (offset avl : ℕ) (greedy : IsGreedy r)
    (few : avl ≤ r.vlmax big) where
  -- What a phase has to compute in part k: the values of h.
  abbrev pub FillsPart : (ℕ → ℕ → r.Vec m2) → (ℕ → r.Real) → ℕ → Type 0
  FillsPart phase h k =
      (vlc : ℕ)
      → k * r.vsetvl m2 avl ≡ k * r.vlmax m2
      → vlc ≤ r.vlmax m2
      → k * r.vlmax m2 + vlc ≤ avl
      → Lanes r m2 (offset + k * r.vlmax m2) vlc (phase k vlc) h

  -- The same in every part.
  abbrev pub Fills : (ℕ → ℕ → r.Vec m2) → (ℕ → r.Real) → Type 0
  Fills phase h =
      (k vlc : ℕ)
      → k < parts
      → k * r.vsetvl m2 avl ≡ k * r.vlmax m2
      → vlc ≤ r.vlmax m2
      → k * r.vlmax m2 + vlc ≤ avl
      → Lanes r m2 (offset + k * r.vlmax m2) vlc (phase k vlc) h

  -- One more part, set in the group.
  pub vset-Lanes :
      (u : r.Vec m2) (h : ℕ → r.Real) (k : ℕ) (v : r.Vec big)
      → k * r.vsetvl m2 avl < avl
      → k < parts
      → Lanes r m2 (offset + k * r.vlmax m2) (r.vsetvl m2 (avl - k * r.vsetvl m2 avl)) u h
      → Lanes r big offset (min avl (k * r.vlmax m2)) v h
      → Lanes r big offset (min avl (suc k * r.vlmax m2)) (r.vset big m2 v k u) h
  vset-Lanes u h k v before k-lt part p =
      let one_more : suc k * r.vlmax m2 ≡ k * r.vlmax m2 + r.vlmax m2 = omega arith in
      let start = chunk-start r law m2 greedy avl k before in
      let rest = avl - k * r.vsetvl m2 avl in
      let room = part-le k parts (r.vlmax m2) k-lt in
      record {
        at_lane = λ i lt.
            law.vset-lane big m2 v k u i (omega (arith, room, split)) (omega arith)
            ∙ elim (Bool-cases (touched (k * r.vlmax m2) (r.vlmax m2) i)) [
              | inl inside ↦ rw inside (
                  part.at_lane (i - k * r.vlmax m2) (
                    last_lane r law m2 greedy avl rest k i (omega (arith, start)) (ground arith)
                      (omega arith))
                  ∙ ap h (ground arith))
              | inr outside ↦ rw outside (p.at_lane i (ground arith))
            ];
      }

  -- There is no part k: the group is full already.
  pub full-Lanes :
      (h : ℕ → r.Real) (k : ℕ) (v : r.Vec big)
      → avl ≤ k * r.vsetvl m2 avl
      → Lanes r big offset (min avl (k * r.vlmax m2)) v h
      → Lanes r big offset (min avl (suc k * r.vlmax m2)) v h
  full-Lanes h k v done p =
      let behind = chunk-behind r law m2 greedy avl k done in
      record { at_lane = λ i lt. p.at_lane i (omega arith) }

  -- One more chunk.
  pub chunk-Lanes :
      (phase : ℕ → ℕ → r.Vec m2) (h : ℕ → r.Real) (k : ℕ) (v : r.Vec big)
      → FillsPart phase h k
      → k < parts
      → Lanes r big offset (min avl (k * r.vlmax m2)) v h
      → Lanes r big offset (min avl (suc k * r.vlmax m2)) (chunk r big avl phase k v) h
  unfolding chunk
  chunk-Lanes phase h k v ok k-lt p = elim (Bool-cases (ltb (k * r.vsetvl m2 avl) avl)) [
    | inl more ↦
        let before : k * r.vsetvl m2 avl < avl = ground arith in
        let start = chunk-start r law m2 greedy avl k before in
        let rest = avl - k * r.vsetvl m2 avl in
        let vlc-le = vsetvl-le_avl r law m2 rest in
        rw more (
          vset-Lanes _ h k v before k-lt
            (ok (r.vsetvl m2 rest) start (law.vsetvl-le m2 rest) (omega arith)) p)
    | inr done ↦ rw done (full-Lanes h k v (ground arith) p)
  ]

  -- The lanes behind a part keep their values while it is filled.
  pub chunk-kept :
      (phase : ℕ → ℕ → r.Vec m2) (k i : ℕ) (v : r.Vec big)
      → k < parts
      → suc k * r.vlmax m2 ≤ i
      → i < r.vlmax big
      → r.lane big (chunk r big avl phase k v) i ≡ r.lane big v i
  unfolding chunk
  chunk-kept phase k i v k-lt behind lt = elim (Bool-cases (ltb (k * r.vsetvl m2 avl) avl)) [
    | inl more ↦
        let one_more : suc k * r.vlmax m2 ≡ k * r.vlmax m2 + r.vlmax m2 = omega arith in
        let outside : touched (k * r.vlmax m2) (r.vlmax m2) i ≡ false = ground (arith, one_more) in
        let room = part-le k parts (r.vlmax m2) k-lt in
        rw more (law.vset-lane big m2 v k _ i (omega (arith, room, split)) lt ∙ rw outside)
    | inr done ↦ rw done
  ]

  chunks_from-Lanes :
      (phase : ℕ → ℕ → r.Vec m2) (h : ℕ → r.Real) (v : r.Vec big) (n : ℕ)
      → Fills phase h
      → n ≤ parts
      → Lanes r big offset (min avl (n * r.vlmax m2)) (chunks_from r big avl phase n v) h
  unfolding chunks_from
  chunks_from-Lanes phase h v zero ok le = record { at_lane = λ i lt. absurd (omega arith) }
  chunks_from-Lanes phase h v (suc n) ok le =
      chunk-Lanes phase h n _ (λ vlc. ok n vlc (omega arith)) (omega arith)
        (chunks_from-Lanes phase h v n ok (omega arith))

  -- All parts together, on whatever the vector held.
  pub chunks-Lanes :
      (phase : ℕ → ℕ → r.Vec m2) (h : ℕ → r.Real)
      → Fills phase h
      → Lanes r big offset avl (chunks r big parts avl phase) h
  unfolding chunks
  chunks-Lanes phase h ok =
      fewer-Lanes r big offset _ h _ _ (omega (arith, split))
        (chunks_from-Lanes phase h _ parts ok (omega arith))
