-- ===== src/Npb/Buckets/Scatter.antt =====
-- The loop of `rank` that moves the keys to their buckets.
use native.Mathlib.Decide.{dec_lt, ℕ_discrete}
use vectorizer_experiments.Base.{
  ℕ, suc, ◌+◌, ◌/◌, ◌^◌, ◌<◌, ◌≡◌, ◌≢◌, ◌∙◌, refl, sym, ap, some, arith, tally, Cells, update,
  update_lem, update_self, update_ne, Ensures, for_up-Ensures,
}
use vectorizer_experiments.Npb.Config.{Config, IsConfig}
use vectorizer_experiments.Npb.Population.{
  population, below, population-suc, population-zero, population_mono, population_congr, below-suc,
  below_mono, below-le,
}
use vectorizer_experiments.Npb.Buckets.{Sorting, scatter_step, scatter}
use vectorizer_experiments.Npb.Buckets.Sizes.{bucket_of, bucket-lt}

-- Sections of different buckets do not meet: a place of bucket b lies before the start of a later one.
pub section_apart :
    (g : Cells) (n b b' k : ℕ) → b < b' → k < population g n b → below g n b + k < below g n b'
section_apart g n b b' k lt inside = omega (arith, below_mono g n (suc b) b' lt, below-suc g n b)

pub section_unique :
    (g : Cells) (n b b' k k' : ℕ)
    → k < population g n b
    → k' < population g n b'
    → below g n b + k ≡ below g n b' + k'
    → (b ≡ b') × (k ≡ k')
section_unique g n b b' k k' inside inside' e = elim (dec_lt b b') [
  | yes p ↦ absurd (omega (arith, section_apart g n b b' k p inside))
  | no p ↦ elim (dec_lt b' b) [
    | yes q ↦ absurd (omega (arith, section_apart g n b' b k' q inside'))
    | no q ↦
        let same : b ≡ b' = omega arith in (same, omega (arith, ap (λ (x : ℕ). below g n x) same))
  ]
]

-- After i keys: each bucket has its keys among them, from its start on, and its pointer behind them.
pub record Scattered (c : Config) (keys : Cells) (i : ℕ) (s : Sorting) : Type 0 where
  pub pointed :
      (b : ℕ)
      → b < c.num_buckets
      → s.ptrs b ≡ below (bucket_of c keys) c.num_keys b + population (bucket_of c keys) i b
  pub placed :
      (b k : ℕ)
      → b < c.num_buckets
      → k < population (bucket_of c keys) i b
      → (s.buff (below (bucket_of c keys) c.num_keys b + k) / 2 ^ c.shift ≡ b)
        × (s.buff (below (bucket_of c keys) c.num_keys b + k) < c.max_key)
  pub complete :
      (b v : ℕ)
      → b < c.num_buckets
      → v / 2 ^ c.shift ≡ b
      → population
          (λ k. s.buff (below (bucket_of c keys) c.num_keys b + k))
          (population (bucket_of c keys) i b)
          v
        ≡ population keys i v

module _ (c : Config) (ok : IsConfig c) (keys : Cells)
    (in_range : (i : ℕ) → i < c.num_keys → keys i < c.max_key) where
  module _ (i : ℕ) (lt : i < c.num_keys) (s : Sorting) (inv : Scattered c keys i s) where
    abbrev here : ℕ
    here = bucket_of c keys i

    abbrev place : ℕ
    place = below (bucket_of c keys) c.num_keys here + population (bucket_of c keys) i here

    abbrev after : Sorting
    after = record { buff = update s.buff place (keys i); ptrs = update s.ptrs here (place + 1) }

    here-lt : here < c.num_buckets
    here-lt = bucket-lt c ok (keys i) (in_range i lt)

    room : population (bucket_of c keys) i here < population (bucket_of c keys) c.num_keys here
    unfolding tally
    room = ground (
      arith,
      population-suc (bucket_of c keys) i here,
      population_mono (bucket_of c keys) (suc i) c.num_keys here lt,
    )

    place-lt : place < c.num_keys
    place-lt = omega (
      arith,
      section_apart (bucket_of c keys) c.num_keys here (suc here)
          (population (bucket_of c keys) i here) (omega arith) room,
      below-le (bucket_of c keys) c.num_keys (suc here),
    )

    scatter_step_lem : scatter_step c keys i s ≡ some after
    unfolding scatter_step update
    scatter_step_lem = ground (arith, inv.pointed here here-lt, here-lt, place-lt, ok.fits)

    -- A place that a bucket already fills is another than the one that is written.
    old_place :
        (b k : ℕ)
        → k < population (bucket_of c keys) i b
        → place ≢ below (bucket_of c keys) c.num_keys b + k
    old_place b k inside e =
        let g = bucket_of c keys in
        let (same, count) =
          section_unique g c.num_keys here b (population g i here) k room
            (omega (arith, population_mono g i c.num_keys b (omega arith))) e in
        omega (arith, ap (λ (x : ℕ). population g i x) same)

    kept :
        (b k : ℕ)
        → k < population (bucket_of c keys) i b
        → after.buff (below (bucket_of c keys) c.num_keys b + k)
          ≡ s.buff (below (bucket_of c keys) c.num_keys b + k)
    kept b k inside = update_ne s.buff place _ (keys i) (old_place b k inside)

    after-pointed :
        (b : ℕ)
        → b < c.num_buckets
        → after.ptrs b
          ≡ below (bucket_of c keys) c.num_keys b + population (bucket_of c keys) (suc i) b
    unfolding tally
    after-pointed b b-lt = ground (
      arith,
      inv.pointed b b-lt,
      population-suc (bucket_of c keys) i b,
      update_lem s.ptrs here b (place + 1),
    )

    -- The one place that a bucket gains.
    grown :
        (b k : ℕ)
        → ¬ (k < population (bucket_of c keys) i b)
        → k < population (bucket_of c keys) (suc i) b
        → (here ≡ b) × (k ≡ population (bucket_of c keys) i b)
    unfolding tally
    grown b k new inside = ground (arith, population-suc (bucket_of c keys) i b)

    new_place :
        (b k : ℕ)
        → here ≡ b
        → k ≡ population (bucket_of c keys) i b
        → place ≡ below (bucket_of c keys) c.num_keys b + k
    new_place b k same top =
        let g = bucket_of c keys in
        omega
          (arith, ap (λ (x : ℕ). population g i x) same, ap (λ (x : ℕ). below g c.num_keys x) same)

    after-placed :
        (b k : ℕ)
        → b < c.num_buckets
        → k < population (bucket_of c keys) (suc i) b
        → (after.buff (below (bucket_of c keys) c.num_keys b + k) / 2 ^ c.shift ≡ b)
          × (after.buff (below (bucket_of c keys) c.num_keys b + k) < c.max_key)
    unfolding tally
    after-placed b k b-lt inside = elim (dec_lt k (population (bucket_of c keys) i b)) [
      | yes old ↦ rw (kept b k old) (inv.placed b k b-lt old)
      | no new ↦
          let (same, top) = grown b k new inside in
          rw (sym (new_place b k same top), update_self s.buff place (keys i)) (same, in_range i lt)
    ]

    -- Of the keys of a value, the old ones lie where they were.
    old_complete :
        (b v : ℕ)
        → b < c.num_buckets
        → v / 2 ^ c.shift ≡ b
        → population
            (λ k. after.buff (below (bucket_of c keys) c.num_keys b + k))
            (population (bucket_of c keys) i b)
            v
          ≡ population keys i v
    old_complete b v b-lt e =
        population_congr _ _ (population (bucket_of c keys) i b) v (kept b)
        ∙ inv.complete b v b-lt e

    after_complete :
        (b v : ℕ)
        → b < c.num_buckets
        → v / 2 ^ c.shift ≡ b
        → population
            (λ k. after.buff (below (bucket_of c keys) c.num_keys b + k))
            (population (bucket_of c keys) (suc i) b)
            v
          ≡ population keys (suc i) v
    unfolding tally
    after_complete b v b-lt e = elim (ℕ_discrete here b) [
      | yes same ↦
          let g = bucket_of c keys in
          let top = population g i b in
          let more : population g (suc i) b ≡ suc top = ground (arith, population-suc g i b) in
          let last : after.buff (below g c.num_keys b + top) ≡ keys i =
            rw (sym (new_place b top same refl)) (update_self s.buff place (keys i)) in
          rw (more, population-suc _ top v, old_complete b v b-lt e, last)
            (sym (population-suc keys i v))
      | no other ↦
          let g = bucket_of c keys in
          let none_more : population g (suc i) b ≡ population g i b =
            ground (arith, population-suc g i b) in
          let another : keys i ≢ v = λ same. other (ap (λ (x : ℕ). x / 2 ^ c.shift) same ∙ e) in
          rw (none_more, old_complete b v b-lt e) (ground (arith, population-suc keys i v))
    ]

    scatter_step-Ensures : Ensures (scatter_step c keys i s) (Scattered c keys (suc i))
    scatter_step-Ensures = record {
      value = after;
      returns = scatter_step_lem;
      holds = record { pointed = after-pointed; placed = after-placed; complete = after_complete };
    }

  -- In a configuration with even buckets and keys below MAX_KEY, the loop that sorts into buckets,
  -- started with every pointer at the number of keys of lower buckets, returns; each pointer ends
  -- behind the section of its bucket, every place of a section holds a key of that bucket, and
  -- every key occurs in its section as often as in the array.
  pub scatter-Ensures :
      (s : Sorting)
      → ((b : ℕ) → b < c.num_buckets → s.ptrs b ≡ below (bucket_of c keys) c.num_keys b)
      → Ensures (scatter c keys s) (Scattered c keys c.num_keys)
  unfolding scatter
  scatter-Ensures s start =
      for_up-Ensures (Scattered c keys) c.num_keys (scatter_step c keys) scatter_step-Ensures s
        (record {
          pointed = λ b b-lt. omega (arith, start b b-lt, population-zero (bucket_of c keys) b);
          placed = λ b k b-lt inside. absurd (omega (arith, population-zero (bucket_of c keys) b));
          complete = λ b v b-lt e.
              rw (population-zero (bucket_of c keys) b, population-zero _ v)
                (sym (population-zero keys v));
        })
