-- ===== src/Dlmul/Rvv.antt =====
-- What the benches of emulator/run/src/dlmul-synthesis use of riscv_vector.h, as parameters with the laws
-- that the vector specification documents, and the arrays of the benches.
pub mod Lanes
pub mod Steps
use vectorizer_experiments.Base.{
  ℕ, ◌+◌, ◌-◌, ◌*◌, ◌≤◌, ◌<◌, ◌≡◌, Option, some, ltb, leb, ◌&&◌, Bool, if◌then◌else◌, ◌>>=◌, ◌>>◌,
  guard,
}

-- The suffixes of the intrinsics: how many registers make a group.
pub data Lmul : Type 0 where
  mf4 : Lmul
  mf2 : Lmul
  m1 : Lmul
  m2 : Lmul
  m4 : Lmul
  m8 : Lmul

-- The build's LEN_1D and LEN_2D, the floats and the intrinsics. `lit n d` is the constant n / d.
pub record Rvv : Type 1 where
  pub len_1d : ℕ
  pub len_2d : ℕ
  pub Real : Type 0
  pub lit : ℕ → ℕ → Real
  pub add : Real → Real → Real
  pub sub : Real → Real → Real
  pub mul : Real → Real → Real
  pub fma : Real → Real → Real → Real
  pub div : Real → Real → Real
  pub sqrt : Real → Real
  pub neg : Real → Real
  pub Vec : Lmul → Type 0
  pub lane : (l : Lmul) → Vec l → ℕ → Real
  pub vlmax : Lmul → ℕ
  pub vsetvl : Lmul → ℕ → ℕ
  pub vle : (l : Lmul) → (ℕ → Real) → ℕ → ℕ → Vec l
  pub vse : (l : Lmul) → (ℕ → Real) → ℕ → Vec l → ℕ → ℕ → Real
  pub vfadd_vv : (l : Lmul) → Vec l → Vec l → ℕ → Vec l
  pub vfsub_vv : (l : Lmul) → Vec l → Vec l → ℕ → Vec l
  pub vfmul_vv : (l : Lmul) → Vec l → Vec l → ℕ → Vec l
  pub vfadd_vf : (l : Lmul) → Vec l → Real → ℕ → Vec l
  pub vfmul_vf : (l : Lmul) → Vec l → Real → ℕ → Vec l
  pub vfmacc_vv : (l : Lmul) → Vec l → Vec l → Vec l → ℕ → Vec l
  pub vfmacc_vf : (l : Lmul) → Vec l → Real → Vec l → ℕ → Vec l
  pub vfsqrt_v : (l : Lmul) → Vec l → ℕ → Vec l
  pub vfrdiv_vf : (l : Lmul) → Vec l → Real → ℕ → Vec l
  pub vfmv_v_f : (l : Lmul) → Real → ℕ → Vec l
  pub vget : (big small : Lmul) → Vec big → ℕ → Vec small
  pub vset : (big small : Lmul) → Vec big → ℕ → Vec small → Vec big

-- Index j is one of the `vl` from `offset` on.
abbrev pub touched : ℕ → ℕ → ℕ → Bool
touched offset vl j = leb offset j && ltb j (offset + vl)

-- An operation with `vl` lanes, at most as many as the group has, defines those lanes; the others stay
-- open. `vsetvl` gives what is asked for if the group has it, and else at least half of it.
pub record IsRvv (r : Rvv) : Type 0 where
  pub vlmax-pos : (l : Lmul) → 0 < r.vlmax l
  pub vsetvl-le : (l : Lmul) (avl : ℕ) → r.vsetvl l avl ≤ r.vlmax l
  pub vsetvl-all : (l : Lmul) (avl : ℕ) → avl ≤ r.vlmax l → r.vsetvl l avl ≡ avl
  pub vsetvl-half :
      (l : Lmul) (avl : ℕ) → r.vlmax l < avl → avl < 2 * r.vlmax l → avl ≤ 2 * r.vsetvl l avl
  pub vsetvl-full : (l : Lmul) (avl : ℕ) → 2 * r.vlmax l ≤ avl → r.vsetvl l avl ≡ r.vlmax l
  pub vle-lane :
      (l : Lmul) (arr : ℕ → r.Real) (offset vl i : ℕ)
      → vl ≤ r.vlmax l
      → i < vl
      → r.lane l (r.vle l arr offset vl) i ≡ arr (offset + i)
  pub vse-lane :
      (l : Lmul) (arr : ℕ → r.Real) (offset : ℕ) (v : r.Vec l) (vl j : ℕ)
      → vl ≤ r.vlmax l
      → r.vse l arr offset v vl j ≡ (if touched offset vl j then r.lane l v (j - offset) else arr j)
  pub vfadd_vv-lane :
      (l : Lmul) (u v : r.Vec l) (vl i : ℕ)
      → vl ≤ r.vlmax l
      → i < vl
      → r.lane l (r.vfadd_vv l u v vl) i ≡ r.add (r.lane l u i) (r.lane l v i)
  pub vfsub_vv-lane :
      (l : Lmul) (u v : r.Vec l) (vl i : ℕ)
      → vl ≤ r.vlmax l
      → i < vl
      → r.lane l (r.vfsub_vv l u v vl) i ≡ r.sub (r.lane l u i) (r.lane l v i)
  pub vfmul_vv-lane :
      (l : Lmul) (u v : r.Vec l) (vl i : ℕ)
      → vl ≤ r.vlmax l
      → i < vl
      → r.lane l (r.vfmul_vv l u v vl) i ≡ r.mul (r.lane l u i) (r.lane l v i)
  pub vfadd_vf-lane :
      (l : Lmul) (u : r.Vec l) (s : r.Real) (vl i : ℕ)
      → vl ≤ r.vlmax l
      → i < vl
      → r.lane l (r.vfadd_vf l u s vl) i ≡ r.add (r.lane l u i) s
  pub vfmul_vf-lane :
      (l : Lmul) (u : r.Vec l) (s : r.Real) (vl i : ℕ)
      → vl ≤ r.vlmax l
      → i < vl
      → r.lane l (r.vfmul_vf l u s vl) i ≡ r.mul (r.lane l u i) s
  pub vfmacc_vv-lane :
      (l : Lmul) (acc u v : r.Vec l) (vl i : ℕ)
      → vl ≤ r.vlmax l
      → i < vl
      → r.lane l (r.vfmacc_vv l acc u v vl) i ≡ r.fma (r.lane l acc i) (r.lane l u i) (r.lane l v i)
  pub vfmacc_vf-lane :
      (l : Lmul) (acc : r.Vec l) (s : r.Real) (v : r.Vec l) (vl i : ℕ)
      → vl ≤ r.vlmax l
      → i < vl
      → r.lane l (r.vfmacc_vf l acc s v vl) i ≡ r.fma (r.lane l acc i) s (r.lane l v i)
  pub vfsqrt_v-lane :
      (l : Lmul) (u : r.Vec l) (vl i : ℕ)
      → vl ≤ r.vlmax l
      → i < vl
      → r.lane l (r.vfsqrt_v l u vl) i ≡ r.sqrt (r.lane l u i)
  pub vfrdiv_vf-lane :
      (l : Lmul) (u : r.Vec l) (s : r.Real) (vl i : ℕ)
      → vl ≤ r.vlmax l
      → i < vl
      → r.lane l (r.vfrdiv_vf l u s vl) i ≡ r.div s (r.lane l u i)
  pub vlmax-m4 : r.vlmax m4 ≡ 2 * r.vlmax m2
  pub vlmax-m8 : r.vlmax m8 ≡ 4 * r.vlmax m2
  pub vfmv_v_f-lane :
      (l : Lmul) (s : r.Real) (vl i : ℕ)
      → vl ≤ r.vlmax l
      → i < vl
      → r.lane l (r.vfmv_v_f l s vl) i ≡ s
  pub vget-lane :
      (big small : Lmul) (v : r.Vec big) (k i : ℕ)
      → k * r.vlmax small + r.vlmax small ≤ r.vlmax big
      → i < r.vlmax small
      → r.lane small (r.vget big small v k) i ≡ r.lane big v (k * r.vlmax small + i)
  pub vset-lane :
      (big small : Lmul) (v : r.Vec big) (k : ℕ) (u : r.Vec small) (i : ℕ)
      → k * r.vlmax small + r.vlmax small ≤ r.vlmax big
      → i < r.vlmax big
      → r.lane big (r.vset big small v k u) i ≡ (
          if touched (k * r.vlmax small) (r.vlmax small) i
          then r.lane small u (i - k * r.vlmax small)
          else r.lane big v i)

-- The global arrays, the matrices row by row in one, and the elements at one index.
pub record Arrays (A : Type 0) : Type 0 where
  pub a : A
  pub b : A
  pub c : A
  pub d : A
  pub e : A
  pub x : A
  pub aa : A
  pub bb : A
  pub cc : A
  pub tt : A
  pub flat_2d_array : A

abbrev pub Memory : Rvv → Type 0
Memory r = Arrays (ℕ → r.Real)

abbrev pub Row : Rvv → Type 0
Row r = Arrays r.Real

abbrev pub row : (r : Rvv) → Memory r → ℕ → Row r
row r st j = record {
  a = st.a j;
  b = st.b j;
  c = st.c j;
  d = st.d j;
  e = st.e j;
  x = st.x j;
  aa = st.aa j;
  bb = st.bb j;
  cc = st.cc j;
  tt = st.tt j;
  flat_2d_array = st.flat_2d_array j;
}

-- The elements of a matrix and of `flat_2d_array`.
abbrev pub area : Rvv → ℕ
area r = r.len_2d * r.len_2d

-- `vle32(&arr[offset], vl)` and `vse32(&arr[offset], v, vl)` on an array of `len` elements.
unfoldable pub load_vec : (r : Rvv) (l : Lmul) (len : ℕ) → (ℕ → r.Real) → ℕ → ℕ → Option (r.Vec l)
load_vec r l len arr offset vl = guard (leb (offset + vl) len) >> some (r.vle l arr offset vl)

unfoldable pub store_vec :
    (r : Rvv) (l : Lmul) (len : ℕ) → (ℕ → r.Real) → ℕ → r.Vec l → ℕ → Option (ℕ → r.Real)
store_vec r l len arr offset v vl = guard (leb (offset + vl) len) >> some (r.vse l arr offset v vl)
