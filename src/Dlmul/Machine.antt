-- ===== src/Dlmul/Machine.antt =====
-- A machine with 4 elements in a register, and whole numbers for the floats, on which the theorems run.
use Prim.Native.Nat.{min}
use vectorizer_experiments.Base.{ℕ, ◌+◌, ◌-◌, ◌*◌, ◌<◌, ◌≡◌, refl, arith, if◌then◌else◌}
use vectorizer_experiments.Dlmul.Rvv.{Lmul, mf4, mf2, m1, m2, m4, m8, Rvv, IsRvv, Memory, touched}
use vectorizer_experiments.Dlmul.Bench.Chunks.{IsGreedyAt}
use vectorizer_experiments.Dlmul.Ints.{IntRvv, IsIntRvv, IsNarrow, wide, extend, word, IntMemory}
use vectorizer_experiments.Dlmul.Cliff.{CliffMemory}

abbrev pub lanes_of : Lmul → ℕ
lanes_of mf4 = 1
lanes_of mf2 = 2
lanes_of m1 = 4
lanes_of m2 = 8
lanes_of m4 = 16
lanes_of m8 = 32

abbrev pub machine : Rvv
machine = record {
  len_1d = 256;
  len_2d = 32;
  Real = ℕ;
  lit = λ n d. n;
  add = λ u v. u + v;
  sub = λ u v. u - v;
  mul = λ u v. u * v;
  fma = λ acc u v. acc + u * v;
  div = λ u v. u;
  sqrt = λ u. u;
  neg = λ u. u;
  Vec = λ l. ℕ → ℕ;
  lane = λ l v i. v i;
  vlmax = lanes_of;
  vsetvl = λ l avl. min avl (lanes_of l);
  vle = λ l arr offset vl i. arr (offset + i);
  vse = λ l arr offset v vl j. if touched offset vl j then v (j - offset) else arr j;
  vfadd_vv = λ l u v vl i. u i + v i;
  vfsub_vv = λ l u v vl i. u i - v i;
  vfmul_vv = λ l u v vl i. u i * v i;
  vfadd_vf = λ l u s vl i. u i + s;
  vfmul_vf = λ l u s vl i. u i * s;
  vfmacc_vv = λ l acc u v vl i. acc i + u i * v i;
  vfmacc_vf = λ l acc s v vl i. acc i + s * v i;
  vfsqrt_v = λ l u vl i. u i;
  vfrdiv_vf = λ l u s vl i. s;
  vfmv_v_f = λ l s vl i. s;
  vget = λ big small v k i. v (k * lanes_of small + i);
  vset = λ big small v k u i.
      if touched (k * lanes_of small) (lanes_of small) i then u (i - k * lanes_of small) else v i;
}

lanes_of-pos : (l : Lmul) → 0 < lanes_of l
lanes_of-pos mf4 = omega arith
lanes_of-pos mf2 = omega arith
lanes_of-pos m1 = omega arith
lanes_of-pos m2 = omega arith
lanes_of-pos m4 = omega arith
lanes_of-pos m8 = omega arith

pub machine-IsRvv : IsRvv machine
machine-IsRvv = record {
  vlmax-pos = lanes_of-pos;
  vsetvl-le = λ l avl. omega arith;
  vsetvl-all = λ l avl le. omega arith;
  vsetvl-half = λ l avl gt lt. omega arith;
  vsetvl-full = λ l avl le. omega arith;
  vle-lane = λ l arr offset vl i fits lt. refl;
  vse-lane = λ l arr offset v vl j fits. refl;
  vfadd_vv-lane = λ l u v vl i fits lt. refl;
  vfsub_vv-lane = λ l u v vl i fits lt. refl;
  vfmul_vv-lane = λ l u v vl i fits lt. refl;
  vfadd_vf-lane = λ l u s vl i fits lt. refl;
  vfmul_vf-lane = λ l u s vl i fits lt. refl;
  vfmacc_vv-lane = λ l acc u v vl i fits lt. refl;
  vfmacc_vf-lane = λ l acc s v vl i fits lt. refl;
  vfsqrt_v-lane = λ l u vl i fits lt. refl;
  vfrdiv_vf-lane = λ l u s vl i fits lt. refl;
  vlmax-m4 = refl;
  vlmax-m8 = refl;
  vfmv_v_f-lane = λ l s vl i fits lt. refl;
  vget-lane = λ big small v k i fits lt. refl;
  vset-lane = λ big small v k u i fits lt. refl;
}

pub machine-IsGreedyAt : (l : Lmul) → IsGreedyAt machine l
machine-IsGreedyAt l avl le = omega arith

abbrev pub memory : Memory machine
memory = record {
  a = λ i. i;
  b = λ i. 2 * i;
  c = λ i. 3;
  d = λ i. 4 + i;
  e = λ i. 5;
  x = λ i. 6 * i;
  aa = λ i. 7;
  bb = λ i. i;
  cc = λ i. 9;
  tt = λ i. 2;
  flat_2d_array = λ i. 8;
}

abbrev pub int_machine : IntRvv
int_machine = record {
  Short = λ l. ℕ → ℕ;
  Word = λ l. ℕ → ℕ;
  short_lane = λ l v i. v i;
  word_lane = λ l v i. v i;
  vlmax16 = λ l. 2 * lanes_of l;
  vsetvl16 = λ l avl. min avl (2 * lanes_of l);
  vle16 = λ l arr offset vl i. arr (offset + i);
  vle32 = λ l arr offset vl i. arr (offset + i);
  vse32 = λ l arr offset v vl j. if touched offset vl j then v (j - offset) else arr j;
  vwadd_vv = λ l u v vl i. word (extend (u i) + extend (v i));
  vwmul_vv = λ l u v vl i. word (extend (u i) * extend (v i));
  vadd_vv = λ l u v vl i. word (u i + v i);
  vget_word = λ big small v k i. v (k * lanes_of small + i);
}

lanes_of-wide : (l : Lmul) → IsNarrow l → 2 * lanes_of l ≡ lanes_of (wide l)
lanes_of-wide mf4 narrow = refl
lanes_of-wide mf2 narrow = refl
lanes_of-wide m1 narrow = refl
lanes_of-wide m2 narrow = refl
lanes_of-wide m4 narrow = refl
lanes_of-wide m8 narrow = absurd narrow

pub int_machine-IsIntRvv : IsIntRvv machine int_machine
int_machine-IsIntRvv = record {
  vlmax16-wide = lanes_of-wide;
  vlmax16-enough = λ l narrow. omega arith;
  vsetvl16-le = λ l avl. omega arith;
  vsetvl16-le_avl = λ l avl. omega arith;
  vsetvl16-pos = λ l avl pos. omega (arith, lanes_of-pos l);
  vle16-lane = λ l arr offset vl i fits lt. refl;
  vle32-lane = λ l arr offset vl i fits lt. refl;
  vse32-lane = λ l arr offset v vl j fits. refl;
  vwadd_vv-lane = λ l u v vl i narrow fits lt. refl;
  vwmul_vv-lane = λ l u v vl i narrow fits lt. refl;
  vadd_vv-lane = λ l u v vl i fits lt. refl;
  vget_word-lane = λ big small v k i fits lt. refl;
}

abbrev pub int_memory : IntMemory machine
int_memory = record {
  reals = memory;
  indx = λ i. 0;
  statics = record { lhs = λ i. i; rhs = λ i. 65_535 - i; zp = λ i. 3; bias = λ i. 4_294_967_295 };
}

abbrev pub cliff_memory : CliffMemory
cliff_memory = record { src0 = λ i. 65_535; src1 = λ i. i; dst = λ i. 4_294_967_295 }
