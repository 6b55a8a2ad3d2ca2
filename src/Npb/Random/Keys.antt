-- ===== src/Npb/Random/Keys.antt =====
-- `create_seq` fills the whole array with keys below MAX_KEY, each from four numbers of the generator.
use native.Mathlib.Nat.{div-lt_iff_lt-mul, mul-le-mul_left, pow-suc}
use vectorizer_experiments.Base.{
  ℕ, zero, suc, ◌+◌, ◌-◌, ◌*◌, ◌/◌, ◌%◌, ◌^◌, true, ltb, lt→ltb, ◌≤◌, ◌<◌, ◌≡◌, sym, ap, none, some,
  arith, Cells, update, update_lem, store-some, Ensures, Ensures-some, Ensures-weaken, Ensures-bind,
  for_range-Ensures, ltb-false,
}
use vectorizer_experiments.Npb.Config.{Config, add_int-some}
use vectorizer_experiments.Npb.Random.{
  make_scales, to_long, is_double, scale_key, find_my_seed, Generator, create_key, create_seq,
}
use vectorizer_experiments.Npb.Random.Exact.{
  IsScaled, unset, scaled, lcg, randlc_lem, lcg-lt, exact-some,
}
use vectorizer_experiments.Npb.Random.Seed.{lcg_iter, lcg_iter_zero, lcg_iter-add}

-- The i-th key of a sequence: the sum of its four numbers, scaled from [0, 4) to [0, 4 (MAX_KEY / 4)).
unfoldable pub key_of : Config → ℕ → ℕ → ℕ → ℕ
unfolding lcg_iter
key_of c seed a i =
    let first = lcg_iter (4 * i) a seed in
    c.max_key
    / 4
    * (lcg_iter 1 a first + lcg_iter 2 a first + lcg_iter 3 a first + lcg_iter 4 a first)
    / 2 ^ 46

-- `k` is 2^half: a power of two times a double is one, if its factors of two can be taken off.
is_double-power :
    (half taken x : ℕ) → x ≤ 2 ^ 53 → half ≤ taken → is_double taken (2 ^ half * x) ≡ true
unfolding is_double
is_double-power zero zero x small le = ground arith
is_double-power zero (suc taken) x small le = ground arith
is_double-power (suc half) zero x small le = absurd (omega arith)
is_double-power (suc half) (suc taken) x small le =
    let twice : 2 ^ suc half * x ≡ 2 * (2 ^ half * x) = rw (pow-suc 2 half) (omega arith) in
    let even : 2 * (2 ^ half * x) % 2 ≡ 0 = omega arith in
    let back : 2 * (2 ^ half * x) / 2 ≡ 2 ^ half * x = omega arith in
    let rest = is_double-power half taken x small (omega arith) in
    rw (twice, even, back, rest) (ground arith)

to_long-some : (v : ℕ) → v < 2 ^ 63 → to_long v ≡ some v
unfolding to_long
to_long-some v small = rw (lt→ltb v (2 ^ 63) small)

-- The first processor starts with the seed.
first_seed : (nn seed a : ℕ) → nn < 2 ^ 63 → find_my_seed none 0 1 nn seed a ≡ some (none, seed)
unfolding find_my_seed
first_seed nn seed a small = rw (lt→ltb nn (2 ^ 63) small)

-- MAX_KEY is four times a power of two, and it, the number of keys and the sums with it are INT_TYPEs.
pub record IsSequence (c : Config) : Type 0 where
  pub half : ℕ
  pub few : half ≤ 64
  pub power : c.max_key ≡ 4 * 2 ^ half
  pub keys-lt : c.max_key ≤ c.limit
  pub number-lt : c.num_keys + 1 < c.limit
  pub long : 4 * c.num_keys < 2 ^ 63

-- Every key is a key of the class.
key-lt :
    (c : Config) (x : ℕ)
    → 4 ≤ c.max_key
    → x ≤ 4 * 2 ^ 46 - 4
    → c.max_key / 4 * x / 2 ^ 46 < c.max_key
key-lt c x h small =
    (div-lt_iff_lt-mul (omega arith)).1 (omega (arith, mul-le-mul_left (c.max_key / 4) small))

power-pos : (half : ℕ) → 1 ≤ 2 ^ half
power-pos zero = omega arith
power-pos (suc half) = omega (arith, pow-suc 2 half, power-pos half)

module _ (c : Config) (ok : IsSequence c) where
  pub many_keys : 4 ≤ c.max_key
  many_keys = omega (arith, ok.power, power-pos ok.half)

  scale_key-some :
      (x : ℕ)
      → x ≤ 4 * 2 ^ 46 - 4
      → scale_key c (c.max_key / 4) x ≡ some (c.max_key / 4 * x / 2 ^ 46)
  unfolding scale_key
  scale_key-some x small =
      let quarter : c.max_key / 4 ≡ 2 ^ ok.half = omega (arith, ok.power) in
      let exact_product : is_double 64 (c.max_key / 4 * x) ≡ true =
        rw quarter (is_double-power ok.half 64 x (omega arith) ok.few) in
      let lt = key-lt c x many_keys small in
      let int : ltb (c.max_key / 4 * x / 2 ^ 46) c.limit ≡ true =
        lt→ltb _ c.limit (omega (arith, lt, ok.keys-lt)) in
      rw (exact_product, int)

module _ (c : Config) (ok : IsSequence c) (seed a : ℕ) (seed-lt : seed < 2 ^ 46)
    (a-lt : a < 2 ^ 46) where
  -- After i keys the generator has made 4 i steps.
  record Created (i : ℕ) (g : Generator) : Type 0 where
    ready : IsScaled g.ks
    state : g.seed ≡ lcg_iter (4 * i) a seed
    small : g.seed < 2 ^ 46
    keys : (j : ℕ) → j < i → g.keys j ≡ key_of c seed a j

  next_key :
      (i x : ℕ)
      → x ≡ lcg_iter (4 * i) a seed
      → key_of c seed a i
        ≡ c.max_key
          / 4
          * (lcg a x + lcg a (lcg a x) + lcg a (lcg a (lcg a x)) + lcg a (lcg a (lcg a (lcg a x))))
          / 2 ^ 46
  unfolding key_of
  next_key i x e = rw (sym e)

  next_state :
      (i x : ℕ)
      → x ≡ lcg_iter (4 * i) a seed
      → lcg a (lcg a (lcg a (lcg a x))) ≡ lcg_iter (4 * suc i) a seed
  unfolding lcg_iter
  next_state i x e =
      let four : 4 * suc i ≡ 4 * i + 4 = omega arith in
      rw (four, lcg_iter-add (4 * i) 4 a seed, sym e)

  create_key-Ensures :
      (i : ℕ)
      → i < c.num_keys
      → (g : Generator) → Created i g
      → Ensures (create_key c a i g) (Created (suc i))
  unfolding create_key
  create_key-Ensures i i-lt g h =
      let s1 = lcg a g.seed in
      let s2 = lcg a s1 in
      let s3 = lcg a s2 in
      let s4 = lcg a s3 in
      let b1 = lcg-lt a g.seed in
      let b2 = lcg-lt a s1 in
      let b3 = lcg-lt a s2 in
      let b4 = lcg-lt a s3 in
      let key = c.max_key / 4 * (s1 + s2 + s3 + s4) / 2 ^ 46 in
      record {
        value = record { ks = some make_scales; seed = s4; keys = update g.keys i key };
        returns = rw (
          randlc_lem g.ks g.seed a h.ready h.small a-lt,
          randlc_lem _ s1 a scaled b1 a-lt,
          exact-some (s1 + s2) (omega arith),
          randlc_lem _ s2 a scaled b2 a-lt,
          exact-some (s1 + s2 + s3) (omega arith),
          randlc_lem _ s3 a scaled b3 a-lt,
          exact-some (s1 + s2 + s3 + s4) (omega arith),
          scale_key-some c ok (s1 + s2 + s3 + s4) (omega arith),
          store-some c.num_keys g.keys i key i-lt,
        );
        holds = record {
          ready = scaled;
          state = next_state i g.seed h.state;
          small = b4;
          keys = λ j j-lt. ground (
            arith,
            h.keys j,
            update_lem g.keys i j key,
            next_key i g.seed h.state,
            ap (key_of c seed a),
          );
        };
      }

  -- The keys that `create_seq` leaves are those of the generator, in order.
  pub create_seq-Ensures :
      (key_array : Cells)
      → Ensures
          (create_seq c seed a key_array)
          (λ keys. (j : ℕ) → j < c.num_keys → keys j ≡ key_of c seed a j)
  unfolding create_seq
  create_seq-Ensures key_array =
      let n = c.num_keys in
      let all : (n + 1 - 1) / 1 ≡ n = omega arith in
      let from : n * 0 ≡ 0 = omega arith in
      let upto : 0 + n ≡ n = omega arith in
      let start : 0 ≡ 4 * 0 = omega arith in
      rw
        (
          add_int-some c n 1 ok.number-lt,
          all,
          from,
          add_int-some c 0 n (omega (arith, ok.number-lt)),
          upto,
          ltb-false n n (omega arith),
          to_long-some (4 * n) ok.long,
          first_seed (4 * n) seed a ok.long,
        )
        (Ensures-bind (Created n) _ _ _
          (for_range-Ensures Created 0 n (create_key c a) (omega arith)
            (λ i from-lo i-lt g h. create_key-Ensures i i-lt g h)
            (record { ks = none; seed = seed; keys = key_array })
            (record {
              ready = unset;
              state = lcg_iter_zero a seed;
              small = seed-lt;
              keys = λ j j-lt. absurd (omega arith);
            }))
          λ g h. Ensures-some _ g.keys h.keys)

pub key_of-lt : (c : Config) (seed a i : ℕ) → 4 ≤ c.max_key → key_of c seed a i < c.max_key
unfolding key_of
key_of-lt c seed a i h =
    let x = lcg_iter (4 * i) a seed in
    key-lt c _ h (
      omega (
        arith,
        lcg-lt a x,
        lcg-lt a (lcg a x),
        lcg-lt a (lcg a (lcg a x)),
        lcg-lt a (lcg a (lcg a (lcg a x))),
      ))

-- For a configuration whose MAX_KEY is four times a power of two up to 2^64 and is, like NUM_KEYS +
-- 1, an INT_TYPE, with 4 NUM_KEYS a `long`, and a seed and a multiplier below 2^46, `create_seq` with
-- one thread returns, rounds no double and overflows no integer; key j of the array is computed from
-- the four numbers of the generator behind the first 4 j, and lies below MAX_KEY.
pub create_seq-keys :
    (c : Config) (seed a : ℕ) (key_array : Cells)
    → IsSequence c
    → seed < 2 ^ 46
    → a < 2 ^ 46
    → Ensures
        (create_seq c seed a key_array)
        (λ keys. (j : ℕ) → j < c.num_keys → (keys j ≡ key_of c seed a j) × (keys j < c.max_key))
create_seq-keys c seed a key_array ok seed-lt a-lt =
    Ensures-weaken _ _ _ (create_seq-Ensures c ok seed a seed-lt a-lt key_array)
      (λ keys h j j-lt. (h j j-lt, rw (h j j-lt) (key_of-lt c seed a j (many_keys c ok))))
