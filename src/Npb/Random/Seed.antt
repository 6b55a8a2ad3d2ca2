-- ===== src/Npb/Random/Seed.antt =====
-- `find_my_seed` jumps ahead: its seed is the generator's state behind the skipped numbers.
use native.Mathlib.Nat.{div-add-mod, le-div_iff_mul-le, div-lt_iff_lt-mul}
use vectorizer_experiments.Base.{
  ℕ, zero, suc, ◌+◌, ◌-◌, ◌*◌, ◌/◌, ◌%◌, ◌^◌, ◌≤◌, ◌<◌, ◌≡◌, ◌≢◌, refl, ap, inl, inr, true, false,
  ◌&&◌, Option, some, arith, ltb, ◌==◌, Bool-cases,
}
use vectorizer_experiments.Npb.Random.{
  Scales, make_scales, to_long, seed_loop, skipped, find_my_seed,
}
use vectorizer_experiments.Npb.Random.Exact.{IsScaled, scaled, lcg, randlc_lem, lcg-lt}

-- n steps of the generator.
unfoldable pub lcg_iter : ℕ → ℕ → ℕ → ℕ
lcg_iter zero a x = x
lcg_iter (suc n) a x = lcg_iter n a (lcg a x)

mul-mod_46 : (a t : ℕ) → a * (t % 2 ^ 46) % 2 ^ 46 ≡ a * t % 2 ^ 46
mul-mod_46 a t = omega (arith, ap (λ (u : ℕ). a * u) (div-add-mod t (2 ^ 46)))

-- Two steps are one step by the square of the multiplier.
lcg_square : (a x : ℕ) → lcg (lcg a a) x ≡ lcg a (lcg a x)
unfolding lcg
lcg_square a x = omega (arith, mul-mod_46 a (a * x), mul-mod_46 x (a * a))

lcg_iter_double : (n a x : ℕ) → lcg_iter n (lcg a a) x ≡ lcg_iter (2 * n) a x
unfolding lcg_iter
lcg_iter_double zero a x = refl
lcg_iter_double (suc n) a x =
    let twice : 2 * suc n ≡ suc (suc (2 * n)) = omega arith in
    rw (twice, lcg_square a x) (lcg_iter_double n a (lcg a (lcg a x)))

pub lcg_iter-add : (m n a x : ℕ) → lcg_iter (m + n) a x ≡ lcg_iter n a (lcg_iter m a x)
unfolding lcg_iter
lcg_iter-add zero n a x = let e : 0 + n ≡ n = omega arith in rw e
lcg_iter-add (suc m) n a x =
    let e : suc m + n ≡ suc (m + n) = omega arith in rw e (lcg_iter-add m n a (lcg a x))

lcg_iter_one : (a x : ℕ) → lcg a x ≡ lcg_iter 1 a x
unfolding lcg_iter
lcg_iter_one a x = refl

lcg_iter_pred : (n a x : ℕ) → 0 < n → lcg_iter (n - 1) a (lcg a x) ≡ lcg_iter n a x
unfolding lcg_iter
lcg_iter_pred zero a x p = elim p [ ]
lcg_iter_pred (suc n) a x p = let e : suc n - 1 ≡ n = omega arith in rw e

pub lcg_iter_zero : (a x : ℕ) → x ≡ lcg_iter 0 a x
unfolding lcg_iter
lcg_iter_zero a x = refl

==_false : (m n : ℕ) → m ≢ n → (m == n) ≡ false
==_false m n h = ground arith

-- The fuel is enough: kk falls in every round.
seed_loop_lem :
    (fuel : ℕ) (ks : Option Scales) (t1 t2 kk : ℕ)
    → IsScaled ks
    → t1 < 2 ^ 46
    → t2 < 2 ^ 46
    → 0 < kk
    → kk < fuel
    → seed_loop fuel ks t1 t2 kk ≡ some (make_scales, lcg_iter kk t2 t1)
unfolding seed_loop
seed_loop_lem zero ks t1 t2 kk h h1 h2 pos enough = absurd (omega arith)
seed_loop_lem (suc fuel) ks t1 t2 kk h h1 h2 pos enough = elim (Bool-cases (ltb 1 kk)) [
  | inr last ↦
      let one : kk ≡ 1 = ground arith in
      rw (last, randlc_lem ks t1 t2 h h1 h2, one)
        (ap (λ (x : ℕ). some (make_scales, x)) (lcg_iter_one t2 t1))
  | inl more ↦ elim (Bool-cases (2 * (kk / 2) == kk)) [
    | inl even ↦
        let two : 2 * (kk / 2) ≡ kk = ground arith in
        let e =
          seed_loop_lem fuel (some make_scales) t1 (lcg t2 t2) (kk / 2) scaled h1 (lcg-lt t2 t2)
            (ground arith) (ground arith) in
        rw (more, even, randlc_lem ks t2 t2 h h2 h2, e, lcg_iter_double (kk / 2) t2 t1, two)
    | inr odd ↦
        let next : kk ≡ suc (kk - 1) = omega arith in
        let e =
          seed_loop_lem fuel (some make_scales) (lcg t2 t1) t2 (kk - 1) scaled (lcg-lt t2 t1) h2
            (ground arith) (omega arith) in
        rw (more, odd, randlc_lem ks t1 t2 h h1 h2, e)
          (ap (λ (x : ℕ). some (make_scales, x)) (lcg_iter_pred kk t2 t1 pos))
  ]
]

-- The quotient, from what it has to be.
rounds_lem : (m np q : ℕ) → 0 < np → m ≤ q * np → q * np < m + np → (m + np - 1) / np ≡ q
rounds_lem m np q pos enough least =
    let upto : q ≤ (m + np - 1) / np = (le-div_iff_mul-le pos).1 (omega arith) in
    let over : (m + np - 1) / np < suc q = (div-lt_iff_lt-mul pos).1 (omega arith) in omega arith

rounds-pos : (m np q : ℕ) → 0 < m → m ≤ q * np → 0 < q
rounds-pos m np zero some_left enough = absurd (omega arith)
rounds-pos m np (suc q) some_left enough = omega arith

skipped_lem :
    (kn np nn q : ℕ)
    → 0 < np
    → np < 2 ^ 31
    → nn < 2 ^ 63
    → nn / 4 ≤ q * np
    → q * np < nn / 4 + np
    → q * 4 * suc kn < 2 ^ 63
    → skipped (suc kn) np nn ≡ some (q * 4 * suc kn)
unfolding skipped to_long
skipped_lem kn np nn q pos int long enough least small =
    let rounds = rounds_lem (nn / 4) np q pos enough least in
    let some_processor : ltb 0 np ≡ true = ground arith in
    let first : ltb (nn / 4 + np) (2 ^ 63) ≡ true = ground arith in
    let second : ltb (q * 4) (2 ^ 63) ≡ true = ground arith in
    let third : ltb (q * 4 * suc kn) (2 ^ 63) ≡ true = ground arith in
    rw (some_processor, first, rounds, second, third)

-- With scales that are unset or set, at least one processor, kn and np that are `int`s, at least four
-- numbers, nn a `long`, a seed and a multiplier below 2^46, and q the least number of rounds in which
-- np processors cover nn / 4 groups of four, with 4 q kn a `long`, `find_my_seed` returns, overflows
-- nothing, and its seed is the state of the generator after 4 q kn steps; the scales are still unset
-- or set.
pub find_my_seed_lem :
    (ks : Option Scales) (kn np nn s a q : ℕ)
    → IsScaled ks
    → 0 < np
    → kn < 2 ^ 31
    → np < 2 ^ 31
    → 4 ≤ nn
    → nn < 2 ^ 63
    → nn / 4 ≤ q * np
    → q * np < nn / 4 + np
    → q * 4 * kn < 2 ^ 63
    → s < 2 ^ 46
    → a < 2 ^ 46
    → (ks' : Option Scales) × (find_my_seed ks kn np nn s a ≡ some (ks', lcg_iter (q * 4 * kn) a s))
      × IsScaled ks'
unfolding find_my_seed
find_my_seed_lem ks zero np nn s a q h hp hk hnp hn hnn enough least small hs ha =
    let none_skipped : q * 4 * 0 ≡ 0 = omega arith in
    let ints : (ltb 0 (2 ^ 31) && ltb np (2 ^ 31) && ltb nn (2 ^ 63)) ≡ true = ground arith in
    (ks, rw (ints, none_skipped) (ap (λ (x : ℕ). some (ks, x)) (lcg_iter_zero a s)), h)
find_my_seed_lem ks (suc kn) np nn s a q h hp hk hnp hn hnn enough least small hs ha =
    let some_round = rounds-pos (nn / 4) np q (omega arith) enough in
    let positive : 0 < q * 4 * suc kn = omega arith in
    let ints : (ltb (suc kn) (2 ^ 31) && ltb np (2 ^ 31) && ltb nn (2 ^ 63)) ≡ true =
      ground arith in
    (
      some make_scales,
      rw (
        ints,
        ==_false (suc kn) 0 (omega arith),
        skipped_lem kn np nn q hp hnp hnn enough least small,
        seed_loop_lem (suc (q * 4 * suc kn)) ks s a (q * 4 * suc kn) h hs ha positive (omega arith),
      ),
      scaled,
    )
