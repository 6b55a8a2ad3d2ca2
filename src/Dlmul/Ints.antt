-- ===== src/Dlmul/Ints.antt =====
-- What the benches db1, db3, db4 and db6 of emulator/run/src/dlmul-synthesis/bench use of riscv_vector.h on integers,
-- as parameters with the laws that the vector specification documents, and their arrays. An int16_t and an
-- int32_t is its bit pattern, a number below 2^16 and 2^32.
pub mod Lanes
use vectorizer_experiments.Base.{
  ℕ, ◌+◌, ◌-◌, ◌*◌, ◌%◌, ◌≤◌, ◌<◌, ◌≡◌, Option, some, ltb, leb, if◌then◌else◌, ◌>>◌, guard,
}
use vectorizer_experiments.Dlmul.Rvv.{
  Lmul, mf4, mf2, m1, m2, m4, m8, Rvv, Memory, Row, row, touched,
}

-- The group that a widening operation fills. There is none for m8.
abbrev pub wide : Lmul → Lmul
wide mf4 = mf2
wide mf2 = m1
wide m1 = m2
wide m2 = m4
wide _ = m8

abbrev pub IsNarrow : Lmul → Type 0
IsNarrow m8 = ⊥
IsNarrow _ = Unit

-- The sign extension of 16 bits to 32.
unfoldable pub extend : ℕ → ℕ
extend x = if ltb x 32_768 then x else x + 4_294_901_760

abbrev pub word : ℕ → ℕ
word x = x % 4_294_967_296

pub record IntRvv : Type 1 where
  pub Short : Lmul → Type 0
  pub Word : Lmul → Type 0
  pub short_lane : (l : Lmul) → Short l → ℕ → ℕ
  pub word_lane : (l : Lmul) → Word l → ℕ → ℕ
  pub vlmax16 : Lmul → ℕ
  pub vsetvl16 : Lmul → ℕ → ℕ
  pub vle16 : (l : Lmul) → (ℕ → ℕ) → ℕ → ℕ → Short l
  pub vle32 : (l : Lmul) → (ℕ → ℕ) → ℕ → ℕ → Word l
  pub vse32 : (l : Lmul) → (ℕ → ℕ) → ℕ → Word l → ℕ → ℕ → ℕ
  pub vwadd_vv : (l : Lmul) → Short l → Short l → ℕ → Word (wide l)
  pub vwmul_vv : (l : Lmul) → Short l → Short l → ℕ → Word (wide l)
  pub vadd_vv : (l : Lmul) → Word l → Word l → ℕ → Word l
  pub vget_word : (big small : Lmul) → Word big → ℕ → Word small

-- A group of registers has twice as many lanes of 16 bits as of 32 bits. Widening operations extend the
-- sign; all results wrap around.
pub record IsIntRvv (r : Rvv) (n : IntRvv) : Type 0 where
  pub vlmax16-wide : (l : Lmul) → IsNarrow l → n.vlmax16 l ≡ r.vlmax (wide l)
  pub vlmax16-enough : (l : Lmul) → IsNarrow l → r.vlmax l ≤ n.vlmax16 l
  pub vsetvl16-le : (l : Lmul) (avl : ℕ) → n.vsetvl16 l avl ≤ n.vlmax16 l
  pub vsetvl16-le_avl : (l : Lmul) (avl : ℕ) → n.vsetvl16 l avl ≤ avl
  pub vsetvl16-pos : (l : Lmul) (avl : ℕ) → 0 < avl → 0 < n.vsetvl16 l avl
  pub vle16-lane :
      (l : Lmul) (arr : ℕ → ℕ) (offset vl i : ℕ)
      → vl ≤ n.vlmax16 l
      → i < vl
      → n.short_lane l (n.vle16 l arr offset vl) i ≡ arr (offset + i)
  pub vle32-lane :
      (l : Lmul) (arr : ℕ → ℕ) (offset vl i : ℕ)
      → vl ≤ r.vlmax l
      → i < vl
      → n.word_lane l (n.vle32 l arr offset vl) i ≡ arr (offset + i)
  pub vse32-lane :
      (l : Lmul) (arr : ℕ → ℕ) (offset : ℕ) (v : n.Word l) (vl j : ℕ)
      → vl ≤ r.vlmax l
      → n.vse32 l arr offset v vl j
        ≡ (if touched offset vl j then n.word_lane l v (j - offset) else arr j)
  pub vwadd_vv-lane :
      (l : Lmul) (u v : n.Short l) (vl i : ℕ)
      → IsNarrow l
      → vl ≤ n.vlmax16 l
      → i < vl
      → n.word_lane (wide l) (n.vwadd_vv l u v vl) i
        ≡ word (extend (n.short_lane l u i) + extend (n.short_lane l v i))
  pub vwmul_vv-lane :
      (l : Lmul) (u v : n.Short l) (vl i : ℕ)
      → IsNarrow l
      → vl ≤ n.vlmax16 l
      → i < vl
      → n.word_lane (wide l) (n.vwmul_vv l u v vl) i
        ≡ word (extend (n.short_lane l u i) * extend (n.short_lane l v i))
  pub vadd_vv-lane :
      (l : Lmul) (u v : n.Word l) (vl i : ℕ)
      → vl ≤ r.vlmax l
      → i < vl
      → n.word_lane l (n.vadd_vv l u v vl) i ≡ word (n.word_lane l u i + n.word_lane l v i)
  pub vget_word-lane :
      (big small : Lmul) (v : n.Word big) (k i : ℕ)
      → k * r.vlmax small + r.vlmax small ≤ r.vlmax big
      → i < r.vlmax small
      → n.word_lane small (n.vget_word big small v k) i ≡ n.word_lane big v (k * r.vlmax small + i)

-- The static arrays of a bench: three of int16_t and, in db4 and db6, one of int32_t.
pub record Statics : Type 0 where
  pub lhs : ℕ → ℕ
  pub rhs : ℕ → ℕ
  pub zp : ℕ → ℕ
  pub bias : ℕ → ℕ

-- The global arrays of floats, `indx`, and the static arrays. All have LEN_1D elements.
pub record IntMemory (r : Rvv) : Type 0 where
  pub reals : Memory r
  pub indx : ℕ → ℕ
  pub statics : Statics

-- What they hold at one index.
pub record Cell (r : Rvv) : Type 0 where
  pub reals : Row r
  pub indx : ℕ

abbrev pub cell : (r : Rvv) → IntMemory r → ℕ → Cell r
cell r st j = record { reals = row r st.reals j; indx = st.indx j }

-- `vle16(&arr[offset], vl)`, `vle32` and `vse32` on an array of `len` integers.
unfoldable pub load_short : (n : IntRvv) (l : Lmul) → ℕ → (ℕ → ℕ) → ℕ → ℕ → Option (n.Short l)
load_short n l len arr offset vl = guard (leb (offset + vl) len) >> some (n.vle16 l arr offset vl)

unfoldable pub load_word : (n : IntRvv) (l : Lmul) → ℕ → (ℕ → ℕ) → ℕ → ℕ → Option (n.Word l)
load_word n l len arr offset vl = guard (leb (offset + vl) len) >> some (n.vle32 l arr offset vl)

unfoldable pub store_word :
    (n : IntRvv) (l : Lmul) → ℕ → (ℕ → ℕ) → ℕ → n.Word l → ℕ → Option (ℕ → ℕ)
store_word n l len arr offset v vl =
    guard (leb (offset + vl) len) >> some (n.vse32 l arr offset v vl)
