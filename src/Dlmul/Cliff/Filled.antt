-- ===== src/Dlmul/Cliff/Filled.antt =====
-- What mb5 and mb8 in class 3 leave in their result, whatever the length of the vectors.
use native.Mathlib.Decide.{dec_lt}
use vectorizer_experiments.Base.{
  ℕ, zero, suc, ◌+◌, ◌≤◌, ◌<◌, ◌≡◌, ◌>>=◌, true, false, refl, ◌∙◌, inl, inr, arith, ltb, Bool-cases,
  if◌then◌else◌, for_up-Ensures, Ensures, Ensures-some, Ensures-weaken, Ensures-bind, store-some,
  update,
}
use vectorizer_experiments.Dlmul.Rvv.{Lmul, Rvv, touched}
use vectorizer_experiments.Dlmul.Strip.Rule.{strip_while-Ensures}
use vectorizer_experiments.Dlmul.Strip.Sweep.{times}
use vectorizer_experiments.Dlmul.Strip.Indexed.{Changed, Changed-Composes, sweeps-Changed}
use vectorizer_experiments.Dlmul.Ints.{IntRvv, IsIntRvv, IsNarrow, wide}
use vectorizer_experiments.Dlmul.Ints.Lanes.{
  Shorts, Words, RunsShort, vle16-Shorts, vse32-Words, load_short-some, store_word-some,
}
use vectorizer_experiments.Dlmul.Widen.Phases.{run_wide}
use vectorizer_experiments.Dlmul.Cliff.{
  CliffMemory, mb5_result, mb8_result, cliff_step, mb5_step, mb8_wide_step, mb5_src0, mb5_src1,
  mb8_src0, mb8_src1, fill_sources, cliff_sweeps, mb5_kernel, mb8_wide_kernel,
}
use vectorizer_experiments.Dlmul.Cliff.Values.{
  mb5_value, mb8_value, mb5_plain, mb8_plain, mb5_value-plain, mb8_value-plain,
}
use vectorizer_experiments.Dlmul.Cliff.Blocks.{mb5_result-Words, mb8_result-Words}

-- The arrays that the sweeps only read.
abbrev pub sources : CliffMemory → (ℕ → ℕ) × (ℕ → ℕ)
sources s = (s.src0, s.src1)

-- A step fills its range with the value of the sources.
abbrev pub Fills : (ℕ → ℕ → ℕ) → ℕ → ℕ → CliffMemory → CliffMemory → Type 0
Fills value = Changed sources (λ s j. s.dst j) (λ env j old. value (env.0 j) (env.1 j))

module _ (r : Rvv) (n : IntRvv) (law : IsIntRvv r n) (l : Lmul) (narrow : IsNarrow l) (len : ℕ)
    (result : n.Short l → n.Short l → ℕ → n.Word (wide l)) (value : ℕ → ℕ → ℕ)
    (ok : (offset vl : ℕ) (run : RunsShort r n l vl) (u v : n.Short l) (f g : ℕ → ℕ)
      → Shorts n l offset vl u f
      → Shorts n l offset vl v g
      → Words n (wide l) offset vl (result u v vl) (λ j. value (f j) (g j))) where
  cliff_step-Ensures :
      (offset avl : ℕ) (st : CliffMemory)
      → 0 < avl
      → offset + avl ≤ len
      → Ensures
          (cliff_step n l len result offset avl st)
          (λ out. (0 < out.0) × (out.0 ≤ avl) × Fills value offset out.0 st out.1)
  unfolding cliff_step
  cliff_step-Ensures offset avl st pos inside =
      let vl = n.vsetvl16 l avl in
      let le = law.vsetvl16-le_avl l avl in
      let run : RunsShort r n l vl = record {
        law = law;
        narrow = narrow;
        fits = law.vsetvl16-le l avl;
      } in
      let room : offset + vl ≤ len = omega (arith, le) in
      let from = load_short-some n l len offset vl room in
      let x = vle16-Shorts run st.src0 in
      let y = vle16-Shorts run st.src1 in
      rw (from st.src0, from st.src1, store_word-some n (wide l) len offset vl room st.dst)
        (Ensures-some _ _ (
          law.vsetvl16-pos l avl pos,
          le,
          record {
            same_env = refl;
            cells =
                vse32-Words (run_wide r n l offset vl run) st.dst (ok offset vl run _ _ _ _ x y);
          },
        ))

  cliff_sweeps-Ensures :
      (total iters : ℕ) (st : CliffMemory)
      → total ≤ len
      → Ensures (cliff_sweeps iters total (cliff_step n l len result) st) (
          Changed sources
            (λ s j. s.dst j)
            (λ env j. times iters (λ old. value (env.0 j) (env.1 j)))
            0
            total
            st)
  unfolding cliff_sweeps
  cliff_sweeps-Ensures total iters st room =
      sweeps-Changed sources (λ s j. s.dst j) (λ env j old. value (env.0 j) (env.1 j)) total _
        (λ s.
          strip_while-Ensures (Fills value) (Changed-Composes sources (λ s j. s.dst j) _) total
            (cliff_step n l len result)
            (λ offset avl t pos inside. cliff_step-Ensures offset avl t pos (omega arith))
            (suc total) 0 total s (omega arith) (omega arith))
        iters st

times-constant : (iters v w : ℕ) → 0 < iters → times iters (λ old. v) w ≡ v
unfolding times
times-constant zero v w pos = absurd (omega arith)
times-constant (suc n) v w pos = refl

update-below :
    (arr f : ℕ → ℕ) (i j : ℕ) → j < suc i → (j < i → arr j ≡ f j) → update arr i (f i) j ≡ f j
unfolding update
update-below arr f i j below before = elim (dec_lt j i) [
  | yes lt ↦ let old = before lt in ground (arith, old)
  | no ge ↦ let e : j ≡ i = omega arith in rw e (ground arith)
]

module _ (len : ℕ) (f g : ℕ → ℕ) where
  -- The sources hold f and g below `total`.
  abbrev Sourced : ℕ → CliffMemory → CliffMemory → Type 0
  Sourced total st s =
      (s.dst ≡ st.dst) × ((j : ℕ) → j < total → (s.src0 j ≡ f j) × (s.src1 j ≡ g j))

  fill_sources-Ensures :
      (total : ℕ) (st : CliffMemory)
      → total ≤ len
      → Ensures (fill_sources len f g total st) (Sourced total st)
  unfolding fill_sources
  fill_sources-Ensures total st room =
      for_up-Ensures (λ i s. Sourced i st s) total _
        (λ i lt s p.
          rw
            (
              store-some len s.src0 i (f i) (omega arith),
              store-some len s.src1 i (g i) (omega arith),
            )
            (Ensures-some _ _ (
              p.0,
              λ j below. (
                update-below s.src0 f i j below (λ lt. (p.1 j lt).0),
                update-below s.src1 g i j below (λ lt. (p.1 j lt).1),
              ),
            )))
        st (refl, λ j below. absurd (omega arith))

-- The first `total` elements of the result are those of h, and the others are as before.
abbrev pub Filled : (ℕ → ℕ) → ℕ → CliffMemory → CliffMemory → Type 0
Filled h total st t = (j : ℕ) → t.dst j ≡ (if ltb j total then h j else st.dst j)

module _ (r : Rvv) (n : IntRvv) (law : IsIntRvv r n) (l : Lmul) (narrow : IsNarrow l)
    (len k total iters : ℕ) (st : CliffMemory) (pos : 0 < iters) (room : total ≤ len) where
  -- A kernel, for sources on which the value of its steps is a plain one.
  cliff_kernel-Filled :
      (f g : ℕ → ℕ) (result : n.Short l → n.Short l → ℕ → n.Word (wide l)) (value plain : ℕ → ℕ → ℕ)
      → ((offset vl : ℕ) (run : RunsShort r n l vl) (u v : n.Short l) (f' g' : ℕ → ℕ)
          → Shorts n l offset vl u f'
          → Shorts n l offset vl v g'
          → Words n (wide l) offset vl (result u v vl) (λ j. value (f' j) (g' j)))
      → ((j : ℕ) → value (f j) (g j) ≡ plain (f j) (g j))
      → Ensures
          (fill_sources len f g total st >>= λ s.
            cliff_sweeps iters total (cliff_step n l len result) s)
          (Filled (λ j. plain (f j) (g j)) total st)
  cliff_kernel-Filled f g result value plain ok same =
      Ensures-bind _ _ _ _ (fill_sources-Ensures len f g total st room) λ s p.
        Ensures-weaken _ _ _
          (cliff_sweeps-Ensures r n law l narrow len result value ok total iters s room)
          λ t q j. q.cells j ∙ elim (Bool-cases (ltb j total)) [
            | inl e ↦
                let lt : j < total = ground arith in
                let inside : touched 0 total j ≡ true = ground arith in
                rw
                  (
                    inside,
                    e,
                    times-constant iters (value (s.src0 j) (s.src1 j)) (s.dst j) pos,
                    (p.1 j lt).0,
                    (p.1 j lt).1,
                  )
                  (same j)
            | inr e ↦
                let outside : touched 0 total j ≡ false = ground arith in rw (outside, e, p.0) refl
          ]

  -- For any LMUL below 8, any MB5_ACC_COUNT and MB8_K, at least one outer iteration and at most
  -- LEN_1D elements, on any machine with the documented laws of the vector intrinsics on integers,
  -- mb5, and mb8 in its class 3, return with no access out of bounds, whatever the arrays held;
  -- each element of the result is the plain sum u + v + u v of what the initialisation stores for
  -- it in the two sources, twice for a count of 4 or more, with 2 (u + v) + u u + v v in addition
  -- from 8 on, and in mb8 with twice the sum in addition from 12 on, so that no operation
  -- overflows; the other elements are as before.
  pub cliffs-Filled :
      Ensures
        (mb5_kernel n l len k total iters st)
        (Filled (λ j. mb5_plain k (mb5_src0 j) (mb5_src1 j)) total st)
      × Ensures
          (mb8_wide_kernel n l len k total iters st)
          (Filled (λ j. mb8_plain k (mb8_src0 j) (mb8_src1 j)) total st)
  unfolding mb5_kernel mb5_step mb8_wide_kernel mb8_wide_step
  cliffs-Filled = (
    cliff_kernel-Filled mb5_src0 mb5_src1 (mb5_result n l k) (mb5_value k) (mb5_plain k)
        (λ offset vl run u v f g p q. mb5_result-Words run p q k)
        (λ j. mb5_value-plain (mb5_src0 j) (mb5_src1 j) (omega arith) (omega arith) k),
    cliff_kernel-Filled mb8_src0 mb8_src1 (mb8_result n l k) (mb8_value k) (mb8_plain k)
        (λ offset vl run u v f g p q. mb8_result-Words run p q k)
        (λ j. mb8_value-plain (mb8_src0 j) (mb8_src1 j) (omega arith) (omega arith) k),
  )
