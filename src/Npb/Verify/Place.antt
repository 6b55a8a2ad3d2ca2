-- ===== src/Npb/Verify/Place.antt =====
-- Where `full_verify` puts the keys: each value between its two ranks.
use native.Mathlib.Decide.{dec_lt, ℕ_discrete}
use vectorizer_experiments.Base.{
  ℕ, suc, ◌+◌, ◌-◌, ◌*◌, ◌≤◌, ◌<◌, ◌≡◌, ◌≢◌, ◌∙◌, sym, ap, some, arith, tally, Cells, update,
  update_lem, update_ne, load-some, store-some, Ensures, Ensures-weaken, for_range, for_up-Ensures,
}
use vectorizer_experiments.Npb.Config.{Config, IsConfig, num_bucket_keys}
use vectorizer_experiments.Npb.Population.{
  population, below, population-suc, population-zero, population_mono, below-suc, below_mono,
  below-le, div-eq_iff,
}
use vectorizer_experiments.Npb.Buckets.{Sorting}
use vectorizer_experiments.Npb.Buckets.Sizes.{bucket_of}
use vectorizer_experiments.Npb.Buckets.Scatter.{Scattered}
use vectorizer_experiments.Npb.Buckets.Section.{
  section_start_lem, section-place, section-fits, in_section,
}
use vectorizer_experiments.Npb.Verify.{Placing, decrement, place_key, place_bucket, place_keys}
use vectorizer_experiments.Npb.Verify.Order.{Filled}

module _ (c : Config) (ok : IsConfig c) (keys : Cells) (s : Sorting)
    (moved : Scattered c keys c.num_keys s) where
  -- Before bucket b: the lesser keys are in place, the ranks of the others are untouched.
  pub record Placed (b : ℕ) (out : Placing) : Type 0 where
    pub done : Filled c.num_keys keys (b * num_bucket_keys c) out.keys
    pub waiting :
        (v : ℕ)
        → b * num_bucket_keys c ≤ v
        → v < c.max_key
        → out.ranks v ≡ below keys c.num_keys (suc v)

  module _ (b : ℕ) (b-lt : b < c.num_buckets) where
    abbrev section : Cells
    section k = s.buff (below (bucket_of c keys) c.num_keys b + k)

    abbrev first_key : ℕ
    first_key = b * num_bucket_keys c

    -- After t keys of the bucket: each of its values fills its last places, and its rank has gone down
    -- by the keys that were placed.
    record PlacedTo (t : ℕ) (out : Placing) : Type 0 where
      before : Filled c.num_keys keys first_key out.keys
      behind :
          (v : ℕ)
          → first_key + num_bucket_keys c ≤ v
          → v < c.max_key
          → out.ranks v ≡ below keys c.num_keys (suc v)
      lowered :
          (v : ℕ)
          → first_key ≤ v
          → v < first_key + num_bucket_keys c
          → out.ranks v + population section t v ≡ below keys c.num_keys (suc v)
      filled :
          (v slot : ℕ)
          → first_key ≤ v
          → v < first_key + num_bucket_keys c
          → out.ranks v ≤ slot
          → slot < below keys c.num_keys (suc v)
          → out.keys slot ≡ v

    module _ (t : ℕ) (inside : t < population (bucket_of c keys) c.num_keys b) (out : Placing)
        (h : PlacedTo t out) where
      abbrev v0 : ℕ
      v0 = section t

      abbrev place : ℕ
      place = out.ranks v0 - 1

      abbrev after : Placing
      after = record { ranks = update out.ranks v0 place; keys = update out.keys place v0 }

      v0-in : (first_key ≤ v0) × (v0 < first_key + num_bucket_keys c)
      v0-in = in_section c ok keys s moved b b-lt t inside

      v0-lt : v0 < c.max_key
      v0-lt = (moved.placed b t b-lt inside).1

      -- There is a key of this value left to place.
      place-in :
          (below keys c.num_keys v0 ≤ place)
          × (out.ranks v0 ≡ suc place)
          × (place < below keys c.num_keys (suc v0))
      unfolding tally
      place-in = ground (
        arith,
        h.lowered v0 v0-in.0 v0-in.1,
        population-suc section t v0,
        population_mono section (suc t) (population (bucket_of c keys) c.num_keys b) v0 inside,
        moved.complete b v0 b-lt (moved.placed b t b-lt inside).0,
        below-suc keys c.num_keys v0,
      )

      decrement_lem : decrement (out.ranks v0) ≡ some place
      unfolding decrement
      decrement_lem = ground (arith, place-in)

      place_key_lem :
          place_key c s.buff (below (bucket_of c keys) c.num_keys b + t) out ≡ some after
      unfolding place_key
      place_key_lem = rw (
        load-some c.num_keys s.buff _ (section-place c ok keys s moved b t b-lt inside),
        load-some c.max_key out.ranks v0 v0-lt,
        decrement_lem,
        store-some c.max_key out.ranks v0 place v0-lt,
        store-some c.num_keys out.keys place v0
            (omega (arith, place-in, below-le keys c.num_keys (suc v0))),
      )

      after-lowered :
          (v : ℕ)
          → first_key ≤ v
          → v < first_key + num_bucket_keys c
          → after.ranks v + population section (suc t) v ≡ below keys c.num_keys (suc v)
      unfolding tally
      after-lowered v from upto = ground (
        arith,
        place-in,
        h.lowered v from upto,
        population-suc section t v,
        update_lem out.ranks v0 v place,
      )

      -- Places of different values do not meet.
      apart :
          (v slot : ℕ)
          → v ≢ v0
          → below keys c.num_keys v ≤ slot
          → slot < below keys c.num_keys (suc v)
          → place ≢ slot
      apart v slot other from upto e = elim (dec_lt v v0) [
        | yes lower ↦ omega (arith, place-in, below_mono keys c.num_keys (suc v) v0 lower)
        | no not_lower ↦
            omega (arith, place-in, below_mono keys c.num_keys (suc v0) v (omega arith))
      ]

      after-before : Filled c.num_keys keys first_key after.keys
      after-before v slot v-lt from upto =
          update_ne out.keys place slot v0 (apart v slot (λ e. omega (arith, v0-in)) from upto)
          ∙ h.before v slot v-lt from upto

      after-behind :
          (v : ℕ)
          → first_key + num_bucket_keys c ≤ v
          → v < c.max_key
          → after.ranks v ≡ below keys c.num_keys (suc v)
      after-behind v from upto =
          update_ne out.ranks v0 v place (λ e. omega (arith, v0-in)) ∙ h.behind v from upto

      -- The places of a value that are left begin at its lower rank.
      rank-from :
          (v : ℕ)
          → first_key ≤ v
          → v < first_key + num_bucket_keys c
          → below keys c.num_keys v ≤ after.ranks v
      rank-from v from upto =
          let mine = (div-eq_iff v b (num_bucket_keys c) ok.some_keys).1 (from, upto) in
          omega (
            arith,
            after-lowered v from upto,
            population_mono section (suc t) (population (bucket_of c keys) c.num_keys b) v inside,
            moved.complete b v b-lt mine,
            below-suc keys c.num_keys v,
          )

      after-filled :
          (v slot : ℕ)
          → first_key ≤ v
          → v < first_key + num_bucket_keys c
          → after.ranks v ≤ slot
          → slot < below keys c.num_keys (suc v)
          → after.keys slot ≡ v
      after-filled v slot from upto lo hi = elim (ℕ_discrete v v0) [
        | yes same ↦
            let left : place ≤ slot = ground (arith, update_lem out.ranks v0 v place) in
            elim (ℕ_discrete place slot) [
              | yes here ↦ ground (arith, update_lem out.keys place slot v0)
              | no above ↦
                  update_ne out.keys place slot v0 above
                  ∙ h.filled v slot from upto (omega (arith, place-in, ap out.ranks same)) hi
            ]
        | no other ↦
            update_ne out.keys place slot v0
              (apart v slot other (omega (arith, rank-from v from upto)) hi)
            ∙ h.filled v slot from upto
                (rw (update_ne out.ranks v0 v place (λ e. other (sym e))) at lo) hi
      ]

      place_key-Ensures :
          Ensures
            (place_key c s.buff (below (bucket_of c keys) c.num_keys b + t) out)
            (PlacedTo (suc t))
      place_key-Ensures = record {
        value = after;
        returns = place_key_lem;
        holds = record {
          before = after-before;
          behind = after-behind;
          lowered = after-lowered;
          filled = after-filled;
        };
      }

    place_bucket-Ensures :
        (out : Placing) → Placed b out → Ensures (place_bucket c s b out) (Placed (suc b))
    unfolding place_bucket for_range
    place_bucket-Ensures out h =
        let g = bucket_of c keys in
        let lo = below g c.num_keys b in
        let all = population g c.num_keys b in
        let end : s.ptrs b ≡ below g c.num_keys (suc b) =
          moved.pointed b b-lt ∙ sym (below-suc g c.num_keys b) in
        let size : below g c.num_keys (suc b) - lo ≡ all =
          omega (arith, below-suc g c.num_keys b) in
        rw
          (
            section_start_lem c ok keys s moved b b-lt,
            load-some c.num_buckets s.ptrs b b-lt,
            end,
            size,
          )
          (Ensures-weaken (PlacedTo all) (Placed (suc b)) _
            (for_up-Ensures PlacedTo all (λ t. place_key c s.buff (lo + t)) place_key-Ensures out
              start)
            finish)
      where
        start : PlacedTo 0 out
        start = record {
          before = h.done;
          behind = λ v from upto. h.waiting v (omega arith) upto;
          lowered = λ v from upto. omega (
            arith,
            population-zero section v,
            h.waiting v from (omega (arith, section-fits c ok keys s moved b b-lt)),
          );
          filled = λ v slot from upto lo hi. absurd (
              omega
                (arith, h.waiting v from (omega (arith, section-fits c ok keys s moved b b-lt))));
        }

        finish :
            (r : Placing)
            → PlacedTo (population (bucket_of c keys) c.num_keys b) r
            → Placed (suc b) r
        finish r e = record {
          done = λ v slot v-lt from upto. elim (dec_lt v first_key) [
            | yes lesser ↦ e.before v slot lesser from upto
            | no mine ↦
                e.filled v slot (omega arith) (omega arith)
                  (omega (
                    arith,
                    e.lowered v (omega arith) (omega arith),
                    below-suc keys c.num_keys v,
                    moved.complete b v b-lt
                        ((div-eq_iff v b (num_bucket_keys c) ok.some_keys).1 (omega arith)),
                  ))
                  upto
          ];
          waiting = λ v from upto. e.behind v (omega arith) upto;
        }

  -- All keys in place.
  pub place_keys-Ensures :
      (out : Placing)
      → ((v : ℕ) → v < c.max_key → out.ranks v ≡ below keys c.num_keys (suc v))
      → Ensures (place_keys c s out) (λ r. Filled c.num_keys keys c.max_key r.keys)
  unfolding place_keys
  place_keys-Ensures out h =
      Ensures-weaken _ _ _
        (for_up-Ensures Placed c.num_buckets (place_bucket c s) place_bucket-Ensures out (record {
          done = λ v slot v-lt from upto. absurd (omega arith);
          waiting = λ v from upto. h v upto;
        }))
        (λ r e v slot v-lt. e.done v slot (omega (arith, ok.even)))
