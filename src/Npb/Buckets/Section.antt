-- ===== src/Npb/Buckets/Section.antt =====
-- The loops of `rank` inside one bucket, and the loop over the buckets.
use native.Mathlib.Decide.{dec_lt}
use native.Mathlib.Nat.{mul-le-mul_right}
use vectorizer_experiments.Base.{
  ℕ, zero, suc, ◌+◌, ◌-◌, ◌*◌, ◌≤◌, ◌<◌, ◌≡◌, ◌∙◌, refl, sym, ap, subst, some, arith, tally, Cells,
  update, update_lem, load-some, store-some, Ensures, Ensures-bind, Ensures-weaken, lt→ltb,
  for_range, for_up-Ensures, for_range-Ensures,
}
use vectorizer_experiments.Npb.Config.{Config, IsConfig, num_bucket_keys, add_int-some}
use vectorizer_experiments.Npb.Population.{
  population, below, population-suc, population-zero, population-le, population_mono,
  population_none, below-suc, below-zero, below-le, below-bucket, div-eq_iff,
}
use vectorizer_experiments.Npb.Buckets.{
  Sorting, clear_section, count_key, count_population, add_population, add_populations,
  section_start, rank_bucket, rank_buckets,
}
use vectorizer_experiments.Npb.Buckets.Sizes.{bucket_of, increment_lem}
use vectorizer_experiments.Npb.Buckets.Scatter.{Scattered}

-- The array has `spec` at the keys from lo to hi, and is as it was elsewhere.
pub record Changed (lo hi : ℕ) (spec old new : Cells) : Type 0 where
  pub inside : (k : ℕ) → lo ≤ k → k < hi → new k ≡ spec k
  pub outside : (k : ℕ) → ¬ ((lo ≤ k) × (k < hi)) → new k ≡ old k

-- One more key.
Changed-update :
    (lo hi : ℕ) (spec old new : Cells)
    → lo ≤ hi
    → Changed lo hi spec old new
    → Changed lo (suc hi) spec old (update new hi (spec hi))
Changed-update lo hi spec old new le h = record {
  inside = λ k a b. ground (arith, update_lem new hi k (spec hi), h.inside k a, ap spec);
  outside = λ k no_k. ground (arith, update_lem new hi k (spec hi), h.outside k);
}

Changed-none : (lo : ℕ) (spec old : Cells) → Changed lo lo spec old old
Changed-none lo spec old = record { inside = λ k a b. absurd (omega arith); outside = λ k h. refl }

Changed-trans :
    {lo hi : ℕ} {spec spec' old mid new : Cells}
    → Changed lo hi spec old mid
    → Changed lo hi spec' mid new
    → Changed lo hi spec' old new
Changed-trans h h' = record {
  inside = h'.inside;
  outside = λ k out. h'.outside k out ∙ h.outside k out;
}

module _ (c : Config) (ok : IsConfig c) where
  clear_section-Ensures :
      (k1 : ℕ) (buff1 : Cells)
      → k1 + num_bucket_keys c ≤ c.max_key
      → Ensures (clear_section c k1 buff1) (Changed k1 (k1 + num_bucket_keys c) (λ _. 0) buff1)
  unfolding clear_section
  clear_section-Ensures k1 buff1 fits =
      for_range-Ensures (λ k. Changed k1 k (λ _. 0) buff1) k1 (k1 + num_bucket_keys c) _
        (omega arith)
        (λ k a b new h. record {
          value = update new k 0;
          returns = store-some c.max_key new k 0 (omega arith);
          holds = Changed-update k1 k (λ _. 0) buff1 new a h;
        })
        buff1 (Changed-none k1 (λ _. 0) buff1)

  module _ (keys : Cells) where
    abbrev ranks : Cells
    ranks k = below keys c.num_keys (suc k)

    ranks-lt : (k : ℕ) → ranks k < c.limit
    ranks-lt k = omega (arith, below-le keys c.num_keys (suc k), ok.fits)

    add_population-Ensures :
        (k1 : ℕ) (counted : Cells) (k : ℕ)
        → k1 < k
        → k < c.max_key
        → counted k ≡ population keys c.num_keys k
        → (new : Cells) → Changed k1 k ranks counted new
        → Ensures (add_population c k new) (Changed k1 (suc k) ranks counted)
    unfolding add_population
    add_population-Ensures k1 counted zero above inside pop new h = elim above [ ]
    add_population-Ensures k1 counted (suc k) above inside pop new h =
        let pred_suc : suc k - 1 ≡ k = omega arith in
        let before = h.inside k (omega arith) (omega arith) in
        let here = h.outside (suc k) (λ p. omega (arith, p.1)) in
        let total : new (suc k) + new k ≡ ranks (suc k) =
          omega (arith, below-suc keys c.num_keys (suc k)) in
        record {
          value = update new (suc k) (ranks (suc k));
          returns = rw pred_suc (
              rw (
                load-some c.max_key new (suc k) inside,
                load-some c.max_key new k (omega arith),
                add_int-some c (new (suc k)) (new k) (omega (arith, ranks-lt (suc k))),
                total,
                store-some c.max_key new (suc k) (ranks (suc k)) inside,
              ));
          holds = Changed-update k1 (suc k) ranks counted new (omega arith) h;
        }

    add_populations-Ensures :
        (k1 : ℕ) (counted : Cells)
        → k1 + num_bucket_keys c ≤ c.max_key
        → ((k : ℕ) → k1 ≤ k → k < k1 + num_bucket_keys c → counted k ≡ population keys c.num_keys k)
        → Ensures
            (add_populations c k1 (below keys c.num_keys k1) counted)
            (Changed k1 (k1 + num_bucket_keys c) ranks counted)
    unfolding add_populations
    add_populations-Ensures k1 counted fits pop =
        let first : counted k1 + below keys c.num_keys k1 ≡ ranks k1 = omega (
          arith,
          pop k1 (omega arith) (omega (arith, ok.some_keys)),
          below-suc keys c.num_keys k1,
        ) in
        let inside : k1 < c.max_key = omega (arith, ok.some_keys) in
        let one_done =
          Changed-update k1 k1 ranks counted counted (omega arith)
            (Changed-none k1 ranks counted) in
        let next : suc k1 ≡ k1 + 1 = omega arith in
        rw
          (
            load-some c.max_key counted k1 inside,
            add_int-some c (counted k1) (below keys c.num_keys k1) (omega (arith, ranks-lt k1)),
            first,
            store-some c.max_key counted k1 (ranks k1) inside,
          )
          (for_range-Ensures (λ k. Changed k1 k ranks counted) (k1 + 1) (k1 + num_bucket_keys c)
            (add_population c) (omega (arith, ok.some_keys))
            (λ k a b new h.
              add_population-Ensures k1 counted k (omega arith) (omega arith)
                (pop k (omega arith) b) new h)
            (update counted k1 (ranks k1))
            (subst (λ x. Changed k1 x ranks counted (update counted k1 (ranks k1))) next one_done))

    -- The rest of the loop is about the sections that `scatter` left.
    module _ (s : Sorting) (moved : Scattered c keys c.num_keys s) where
      pub section_start_lem :
          (b : ℕ)
          → b < c.num_buckets
          → section_start c s.ptrs b ≡ some (below (bucket_of c keys) c.num_keys b)
      unfolding section_start
      section_start_lem zero b-lt = rw (below-zero (bucket_of c keys) c.num_keys)
      section_start_lem (suc b) b-lt =
          let pred_suc : suc b - 1 ≡ b = omega arith in
          rw
            (
              lt→ltb 0 (suc b) (omega arith),
              pred_suc,
              load-some c.num_buckets s.ptrs b (omega arith),
              moved.pointed b (omega arith),
            )
            (ap some (sym (below-suc (bucket_of c keys) c.num_keys b)))

      pub section-place :
          (b t : ℕ)
          → b < c.num_buckets
          → t < population (bucket_of c keys) c.num_keys b
          → below (bucket_of c keys) c.num_keys b + t < c.num_keys
      section-place b t b-lt inside = omega (
        arith,
        below-suc (bucket_of c keys) c.num_keys b,
        below-le (bucket_of c keys) c.num_keys (suc b),
      )

      module _ (b : ℕ) (b-lt : b < c.num_buckets) where
        abbrev section : Cells
        section k = s.buff (below (bucket_of c keys) c.num_keys b + k)

        abbrev first_key : ℕ
        first_key = b * num_bucket_keys c

        pub section-fits : first_key + num_bucket_keys c ≤ c.max_key
        section-fits = grind (arith, ok.even, mul-le-mul_right)

        -- A key of the section is one of the bucket's keys.
        pub in_section :
            (t : ℕ)
            → t < population (bucket_of c keys) c.num_keys b
            → (first_key ≤ section t) × (section t < first_key + num_bucket_keys c)
        in_section t inside =
            (div-eq_iff (section t) b (num_bucket_keys c) ok.some_keys).0
              (moved.placed b t b-lt inside).0

        pub none_outside :
            (k : ℕ)
            → ¬ ((first_key ≤ k) × (k < first_key + num_bucket_keys c))
            → population section (population (bucket_of c keys) c.num_keys b) k ≡ 0
        none_outside k out =
            population_none section _ k λ t inside e. out (rw e at (in_section t inside))

        module _ (cleared : Cells)
            (zeros : (k : ℕ)
              → first_key ≤ k
              → k < first_key + num_bucket_keys c
              → cleared k ≡ 0) where
          count_key-Ensures :
              (t : ℕ)
              → t < population (bucket_of c keys) c.num_keys b
              → (new : Cells) → ((v : ℕ) → new v ≡ cleared v + population section t v)
              → Ensures
                  (count_key c s.buff (below (bucket_of c keys) c.num_keys b + t) new)
                  (λ r. (v : ℕ) → r v ≡ cleared v + population section (suc t) v)
          unfolding count_key tally
          count_key-Ensures t inside new h =
              let v0 = section t in
              let (from, upto) = in_section t inside in
              let v0-lt = (moved.placed b t b-lt inside).1 in
              let all = population (bucket_of c keys) c.num_keys b in
              let few : new v0 + 1 < c.limit = ground (
                arith,
                h v0,
                zeros v0 from upto,
                population-suc section t v0,
                population_mono section (suc t) all v0 inside,
                moved.complete b v0 b-lt (moved.placed b t b-lt inside).0,
                population-le keys c.num_keys v0,
                ok.fits,
              ) in
              record {
                value = update new v0 (new v0 + 1);
                returns = rw (
                  load-some c.num_keys s.buff _ (section-place b t b-lt inside),
                  increment_lem c ok c.max_key new v0 v0-lt few,
                );
                holds = λ v.
                    ground
                      (arith, h v, population-suc section t v, update_lem new v0 v (new v0 + 1));
              }

          count_population-Ensures :
              Ensures
                (count_population c s.buff
                  (below (bucket_of c keys) c.num_keys b)
                  (below (bucket_of c keys) c.num_keys (suc b))
                  cleared)
                (Changed first_key
                  (first_key + num_bucket_keys c)
                  (population keys c.num_keys)
                  cleared)
          unfolding count_population for_range
          count_population-Ensures =
              let g = bucket_of c keys in
              let lo = below g c.num_keys b in
              let all = population g c.num_keys b in
              let size : below g c.num_keys (suc b) - lo ≡ all =
                omega (arith, below-suc g c.num_keys b) in
              rw size (
                Ensures-weaken (λ new. (v : ℕ) → new v ≡ cleared v + population section all v) _ _
                  (for_up-Ensures (λ t new. (v : ℕ) → new v ≡ cleared v + population section t v)
                    all (λ t. count_key c s.buff (lo + t)) count_key-Ensures cleared
                    (λ v. omega (arith, population-zero section v)))
                  (λ new h. record {
                    inside = λ k from upto.
                        let mine =
                          (div-eq_iff k b (num_bucket_keys c) ok.some_keys).1 (from, upto) in
                        omega (arith, h k, zeros k from upto, moved.complete b k b-lt mine);
                    outside = λ k out. omega (arith, h k, none_outside k out);
                  }))

        rank_bucket-Ensures :
            (buff1 : Cells)
            → Ensures
                (rank_bucket c s b buff1)
                (Changed first_key (first_key + num_bucket_keys c) ranks buff1)
        unfolding rank_bucket
        rank_bucket-Ensures buff1 =
            let g = bucket_of c keys in
            let upto = first_key + num_bucket_keys c in
            let end : s.ptrs b ≡ below g c.num_keys (suc b) =
              moved.pointed b b-lt ∙ sym (below-suc g c.num_keys b) in
            Ensures-bind (Changed first_key upto (λ _. 0) buff1) _ _ _
              (clear_section-Ensures first_key buff1 section-fits)
              λ cleared h1.
                rw (section_start_lem b b-lt, load-some c.num_buckets s.ptrs b b-lt, end)
                  (Ensures-bind (Changed first_key upto (population keys c.num_keys) cleared) _ _ _
                    (count_population-Ensures cleared h1.inside)
                    λ counted h2.
                      rw (below-bucket keys c.num_keys b (num_bucket_keys c) ok.some_keys) (
                        Ensures-weaken _ _ _
                          (add_populations-Ensures first_key counted section-fits h2.inside)
                          (λ new h3. Changed-trans h1 (Changed-trans h2 h3))))

      -- In a configuration with even buckets whose number of keys is an INT_TYPE, where the
      -- keys lie in their buckets, the loop over the buckets returns with any earlier contents
      -- of `key_buff1`, and leaves in `key_buff1[k]` the number of keys up to k, for every k
      -- below MAX_KEY.
      pub rank_buckets-Ensures :
          (buff1 : Cells)
          → Ensures (rank_buckets c s buff1) (λ r. (k : ℕ) → k < c.max_key → r k ≡ ranks k)
      unfolding rank_buckets
      rank_buckets-Ensures buff1 =
          Ensures-weaken _ _ _
            (for_up-Ensures (λ b r. (k : ℕ) → k < b * num_bucket_keys c → r k ≡ ranks k)
              c.num_buckets (rank_bucket c s)
              (λ b b-lt r h.
                Ensures-weaken _ _ _ (rank_bucket-Ensures b b-lt r) λ new changed k k-lt.
                  elim (dec_lt k (b * num_bucket_keys c)) [
                    | yes old ↦ changed.outside k (λ p. omega (arith, p.0)) ∙ h k old
                    | no new_key ↦ changed.inside k (omega arith) (omega arith)
                  ])
              buff1 (λ k k-lt. absurd (omega arith)))
            (λ r h k k-lt. h k (omega (arith, ok.even)))
