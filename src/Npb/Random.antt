-- ===== src/Npb/Random.antt =====
-- `randlc`, `find_my_seed` and `create_seq` of emulator/run/src/npb/npb_is_s/is.c. A double that holds a
-- whole number is that number, and one in (0, 1) its multiple by 2^46; a result that a double does not
-- hold exactly, or that does not fit the `int` it is converted to, is a fault.
pub mod Exact
pub mod Seed
pub mod Keys
use vectorizer_experiments.Base.{
  ℕ, zero, suc, ◌+◌, ◌-◌, ◌*◌, ◌/◌, ◌%◌, ◌^◌, Bool, ◌&&◌, ◌||◌, ◌>>◌, guard, Option, none, some,
  ltb, leb, ◌==◌, if◌then◌else◌, ◌>>=◌, for_up, for_range, Cells, store,
}
use vectorizer_experiments.Npb.Config.{Config, add_int}

-- The whole numbers up to 2^53 are doubles.
unfoldable pub exact : ℕ → Option ℕ
exact v = if leb v (2 ^ 53) then some v else none

-- `(int) v`, for a double v that is not negative.
unfoldable pub to_int : ℕ → Option ℕ
to_int v = if ltb v (2 ^ 31) then some v else none

-- A `long` that is not negative.
unfoldable pub to_long : ℕ → Option ℕ
to_long v = if ltb v (2 ^ 63) then some v else none

-- Whether a double holds v * 2^e for some e: v has at most 53 bits behind its last zeros, of which the
-- first argument is the number that may be taken off.
unfoldable pub is_double : ℕ → ℕ → Bool
is_double zero v = leb v (2 ^ 53)
is_double (suc zeros) v = let rest = is_double zeros (v / 2) in leb v (2 ^ 53) || v % 2 == 0 && rest

-- A difference that is not negative, as every one in `randlc` must be.
unfoldable pub minus : ℕ → ℕ → Option ℕ
minus a b = if leb b a then some (a - b) else none

-- The static constants. R23 and R46 are 1 / r23 and 1 / r46.
pub record Scales : Type 0 where
  pub r23 : ℕ
  pub r46 : ℕ
  pub t23 : ℕ
  pub t46 : ℕ

-- The two loops that compute the constants: 0.5 * R doubles the reciprocal.
unfoldable pub double_scale : ℕ → ℕ → ℕ
double_scale zero v = v
double_scale (suc rounds) v = double_scale rounds (2 * v)

unfoldable pub make_scales : Scales
unfolding double_scale
make_scales = record {
  r23 = double_scale 23 1;
  r46 = double_scale 46 1;
  t23 = double_scale 23 1;
  t46 = double_scale 46 1;
}

-- `KS` with the constants: `none` before the first call.
unfoldable pub scales_of : Option Scales → Scales
scales_of none = make_scales
scales_of (some s) = s

-- `randlc(&x, &a)`: the new x, and the value returned is that by 2^46.
unfoldable pub randlc : Option Scales → ℕ → ℕ → Option (Scales × ℕ)
randlc ks x a = do
  let s = scales_of ks
  a1 ← to_int (a / s.r23)
  a2 ← minus a (s.t23 * a1)
  x1 ← to_int (x / s.r23)
  x2 ← minus x (s.t23 * x1)
  t1 ← exact (a1 * x2 + a2 * x1)
  t2 ← to_int (t1 / s.r23)
  z ← minus t1 (s.t23 * t2)
  t3 ← exact (s.t23 * z + a2 * x2)
  t4 ← to_int (t3 / s.r46)
  x' ← minus t3 (s.t46 * t4)
  some (s, x')

-- The loop of `find_my_seed` with fuel, and the call after it.
unfoldable pub seed_loop : ℕ → Option Scales → ℕ → ℕ → ℕ → Option (Scales × ℕ)
seed_loop zero ks t1 t2 kk = none
seed_loop (suc fuel) ks t1 t2 kk =
    let ik = kk / 2 in
    let even = randlc ks t2 t2 >>= λ r. seed_loop fuel (some r.0) t1 r.1 ik in
    let odd = randlc ks t1 t2 >>= λ r. seed_loop fuel (some r.0) r.1 t2 (kk - 1) in
    if ltb 1 kk then (if 2 * ik == kk then even else odd) else randlc ks t1 t2

-- `nq`, the random numbers that processor `kn` of `np` skips: a fault where a `long` overflows.
unfoldable pub skipped : ℕ → ℕ → ℕ → Option ℕ
unfolding to_long
skipped kn np nn = do
  guard (ltb 0 np)
  sum ← to_long (nn / 4 + np)
  let mq = (sum - 1) / np
  four ← to_long (mq * 4)
  to_long (four * kn)

-- `kn` and `np` are `int`s, `nn` is a `long`.
unfoldable pub find_my_seed : Option Scales → ℕ → ℕ → ℕ → ℕ → ℕ → Option (Option Scales × ℕ)
unfolding seed_loop
find_my_seed ks kn np nn s a =
    let skip =
      skipped kn np nn >>= λ nq. seed_loop (suc nq) ks s a nq >>= λ r. some (some r.0, r.1) in
    guard (ltb kn (2 ^ 31) && ltb np (2 ^ 31) && ltb nn (2 ^ 63))
    >> (if kn == 0 then some (ks, s) else skip)

-- The generator of `create_seq` and the array that it fills.
pub record Generator : Type 0 where
  pub ks : Option Scales
  pub seed : ℕ
  pub keys : Cells

-- `key_array[i] = k*x`: the product is a double, and without its fraction an INT_TYPE. x and the product
-- are the multiples of 2^46.
unfoldable pub scale_key : Config → ℕ → ℕ → Option ℕ
unfolding is_double
scale_key c k x =
    guard (is_double 64 (k * x) && ltb (k * x / 2 ^ 46) c.limit) >> some (k * x / 2 ^ 46)

-- One key: four random numbers, the sum scaled to the keys.
unfoldable pub create_key : Config → ℕ → ℕ → Generator → Option Generator
create_key c a i g = do
  r1 ← randlc g.ks g.seed a
  r2 ← randlc (some r1.0) r1.1 a
  x2 ← exact (r1.1 + r2.1)
  r3 ← randlc (some r2.0) r2.1 a
  x3 ← exact (x2 + r3.1)
  r4 ← randlc (some r3.0) r3.1 a
  x ← exact (x3 + r4.1)
  key ← scale_key c (c.max_key / 4) x
  keys ← store c.num_keys g.keys i key
  some (record { ks = some r4.0; seed = r4.1; keys = keys })

-- `create_seq` for thread `myid` 0 of 1: `KS` is reset, and the thread fills the whole array.
unfoldable pub create_seq : Config → ℕ → ℕ → Cells → Option Cells
create_seq c seed a key_array = do
  sum ← add_int c c.num_keys 1
  let mq = (sum - 1) / 1
  let k1 = mq * 0
  k2 ← add_int c k1 mq
  let k2' = if ltb c.num_keys k2 then c.num_keys else k2
  nn ← to_long (4 * c.num_keys)
  s ← find_my_seed none 0 1 nn seed a
  g ← for_range k1 k2' (create_key c a) (record { ks = s.0; seed = s.1; keys = key_array })
  some g.keys
