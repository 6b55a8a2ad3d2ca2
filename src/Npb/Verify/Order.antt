-- ===== src/Npb/Verify/Order.antt =====
-- An array in which every key value fills the places between its two ranks is the keys in ascending
-- order.
use native.Mathlib.Decide.{dec_lt}
use vectorizer_experiments.Base.{
  ℕ, zero, suc, ◌-◌, ◌≤◌, ◌<◌, ◌≡◌, ◌∙◌, refl, sym, ap, some, arith, ltb, leb, ◌==◌, ◌&&◌,
  count_congr, count_interval, Cells, Ensures, for_range-Ensures,
}
use vectorizer_experiments.Npb.Config.{Config}
use vectorizer_experiments.Npb.Population.{
  population, below, below-suc, below-zero, below_mono, below-le, below-bound, population_none,
}
use vectorizer_experiments.Npb.Verify.{count_unsorted, unsorted}

-- `out` holds the n keys in ascending order, each as often as in `keys`.
pub record IsSortOf (n : ℕ) (keys out : Cells) : Type 0 where
  pub ascending : (i j : ℕ) → i ≤ j → j < n → out i ≤ out j
  pub same : (v : ℕ) → population out n v ≡ population keys n v

-- Every key value fills the places between its two ranks.
abbrev pub Filled : ℕ → Cells → ℕ → Cells → Type 0
Filled n keys top out =
    (v slot : ℕ) → v < top → below keys n v ≤ slot → slot < below keys n (suc v) → out slot ≡ v

module _ (n : ℕ) (keys : Cells) where
  -- The value whose ranks enclose a place.
  find :
      (slot top : ℕ)
      → slot < below keys n top
      → (v : ℕ) × (v < top) × (below keys n v ≤ slot) × (slot < below keys n (suc v))
  find slot zero h = absurd (omega (arith, below-zero keys n))
  find slot (suc top) h = elim (dec_lt slot (below keys n top)) [
    | yes lower ↦ let (v, v-lt, from, upto) = find slot top lower in (v, omega arith, from, upto)
    | no here ↦ (top, omega arith, omega arith, h)
  ]

  module _ (top : ℕ) (in_range : (i : ℕ) → i < n → keys i < top) (out : Cells)
      (filled : Filled n keys top out) where
    all_below : below keys n top ≡ n
    all_below = below-bound keys n top in_range

    Filled-ascending : (i j : ℕ) → i ≤ j → j < n → out i ≤ out j
    Filled-ascending i j le lt =
        let (v, v-lt, from, upto) = find i top (omega (arith, all_below)) in
        let (w, w-lt, from', upto') = find j top (omega (arith, all_below)) in
        elim (dec_lt w v) [
          | yes worse ↦ absurd (omega (arith, below_mono keys n (suc w) v worse))
          | no fine ↦ omega (arith, filled v i v-lt from upto, filled w j w-lt from' upto')
        ]

    -- A place holds a value just where it lies between the value's ranks.
    Filled-test :
        (v : ℕ)
        → v < top
        → (i : ℕ) → i < n
        → (out i == v) ≡ (leb (below keys n v) i && ltb i (below keys n (suc v)))
    Filled-test v v-lt i i-lt =
        let (w, w-lt, from, upto) = find i top (omega (arith, all_below)) in
        let value = filled w i w-lt from upto in
        elim (dec_lt w v) [
          | yes lower ↦ ground (arith, below_mono keys n (suc w) v lower)
          | no not_lower ↦ elim (dec_lt v w) [
            | yes higher ↦ ground (arith, below_mono keys n (suc v) w higher)
            | no not_higher ↦
                let same : w ≡ v = omega arith in
                ground (
                  arith,
                  ap (λ (x : ℕ). below keys n x) same,
                  ap (λ (x : ℕ). below keys n (suc x)) same,
                )
          ]
        ]

    out-lt : (i : ℕ) → i < n → out i < top
    out-lt i i-lt =
        let (w, w-lt, from, upto) = find i top (omega (arith, all_below)) in
        omega (arith, filled w i w-lt from upto)

    -- The places between the two ranks of a value, counted.
    places : (v : ℕ) → v < top → population out n v ≡ below keys n (suc v) - below keys n v
    unfolding population
    places v v-lt =
        count_congr _ _ n (Filled-test v v-lt)
        ∙ count_interval (below keys n v) (below keys n (suc v)) n
            (below_mono keys n v (suc v) (omega arith)) (below-le keys n (suc v))

    Filled-same : (v : ℕ) → population out n v ≡ population keys n v
    Filled-same v = elim (dec_lt v top) [
      | yes v-lt ↦ omega (arith, places v v-lt, below-suc keys n v)
      | no beyond ↦
          population_none out n v (λ i i-lt e. beyond (omega (arith, out-lt i i-lt)))
          ∙ sym (population_none keys n v (λ i i-lt e. beyond (omega (arith, in_range i i-lt))))
    ]

    pub Filled-IsSortOf : IsSortOf n keys out
    Filled-IsSortOf = record { ascending = Filled-ascending; same = Filled-same }

-- Of ascending keys none is counted.
pub unsorted-ascending :
    (c : Config) (keys : Cells)
    → 0 < c.num_keys
    → ((i j : ℕ) → i ≤ j → j < c.num_keys → keys i ≤ keys j)
    → Ensures (unsorted c keys) (λ j. j ≡ 0)
unfolding unsorted
unsorted-ascending c keys some_keys ascending =
    for_range-Ensures (λ _ j. j ≡ 0) 1 c.num_keys (count_unsorted c keys) some_keys
      (λ i from upto j j-zero. record { value = 0; returns = step i upto j j-zero; holds = refl }) 0
      refl
  where
    step : (i : ℕ) → i < c.num_keys → (j : ℕ) → j ≡ 0 → count_unsorted c keys i j ≡ some 0
    step i upto j j-zero =
        unfold count_unsorted in ground (arith, ascending (i - 1) i (omega arith) upto)
