-- ===== src/Dlmul/Bench.antt =====
-- The benches db5 and db10 of emulator/run/src/dlmul-synthesis/bench, behind the initialisation of their
-- arrays: the variants FIXED_M2, FIXED_M4 and FIXED_M8, which differ in the LMUL alone, and
-- DYN_M8_M2_M8, which works on quarters of the registers in its middle phase.
pub mod Chunks
pub mod Stored
pub mod Rounds
pub mod Agree
use vectorizer_experiments.Base.{
  ℕ, zero, suc, ◌+◌, ◌-◌, ◌*◌, Option, some, ltb, if◌then◌else◌, ◌>>=◌, for_up,
}
use vectorizer_experiments.Dlmul.Rvv.{Lmul, m2, m4, m8, Rvv, Memory, load_vec, store_vec}
use vectorizer_experiments.Dlmul.Strip.{strip_for}

-- `DLB_BENCH_VARIANT`: one LMUL throughout, or the dynamic one.
pub data Variant : Type 0 where
  fixed : Lmul → Variant
  dynamic : Variant

-- One sweep by the LMUL l: `vl_base = vsetvl(total)`, then the loop over the offsets.
unfoldable pub bench_sweep {ℓ} :
    {S : Type ℓ} (r : Rvv) → Lmul → ℕ → (ℕ → ℕ → S → Option S) → S → Option S
bench_sweep r l total body st = strip_for (suc total) total (r.vsetvl l total) body 0 st

abbrev pub db5_total : ℕ
db5_total = 192

abbrev pub db5_iters : ℕ
db5_iters = 36

-- The phase that all three outputs of db5 share: u + v, plus 0.25 c, plus 0.125 d.
unfoldable pub db5_phase :
    (r : Rvv) (l : Lmul) → r.Vec l → r.Vec l → r.Vec l → r.Vec l → ℕ → r.Vec l
db5_phase r l u v vc vd vl =
    let out = r.vfadd_vv l u v vl in
    let out' = r.vfmacc_vf l out (r.lit 1 4) vc vl in r.vfmacc_vf l out' (r.lit 1 8) vd vl

unfoldable pub db5_fixed : (r : Rvv) → Lmul → ℕ → ℕ → Memory r → Option (Memory r)
db5_fixed r l offset avl st = do
  va ← load_vec r l r.len_1d st.a offset avl
  vb ← load_vec r l r.len_1d st.b offset avl
  vc ← load_vec r l r.len_1d st.c offset avl
  vd ← load_vec r l r.len_1d st.d offset avl
  let a_out = db5_phase r l va vb vc vd avl
  let b_out = db5_phase r l a_out vb vc vd avl
  let c_out = db5_phase r l a_out b_out vc vd avl
  a ← store_vec r l r.len_1d st.a offset a_out avl
  b ← store_vec r l r.len_1d st.b offset b_out avl
  c ← store_vec r l r.len_1d st.c offset c_out avl
  some (record st { a = a; b = b; c = c })

-- `DB5_CHUNK(k)` and those of the other benches, for the vector that the phase computes from part k of
-- the `big` group with `vlc` lanes.
unfoldable pub chunk : (r : Rvv) (big : Lmul) → ℕ → (ℕ → ℕ → r.Vec m2) → ℕ → r.Vec big → r.Vec big
chunk r big avl phase k out =
    let start = k * r.vsetvl m2 avl in
    if ltb start avl then r.vset big m2 out k (phase k (r.vsetvl m2 (avl - start))) else out

-- The chunks 0 to parts - 1, one behind the other.
unfoldable pub chunks_from :
    (r : Rvv) (big : Lmul) → ℕ → (ℕ → ℕ → r.Vec m2) → ℕ → r.Vec big → r.Vec big
chunks_from r big avl phase zero out = out
chunks_from r big avl phase (suc parts) out =
    chunk r big avl phase parts (chunks_from r big avl phase parts out)

-- They start on the zero vector.
unfoldable pub chunks : (r : Rvv) (big : Lmul) → ℕ → ℕ → (ℕ → ℕ → r.Vec m2) → r.Vec big
chunks r big parts avl phase = chunks_from r big avl phase parts (r.vfmv_v_f big (r.lit 0 1) avl)

-- `DB7_STORE_CHUNK(k)` and `DB9_STORE_CHUNK(k)`: half k of the group, stored at its place.
unfoldable pub store_chunk :
    (r : Rvv) → ℕ → ℕ → ℕ → r.Vec m8 → ℕ → (ℕ → r.Real) → Option (ℕ → r.Real)
store_chunk r len offset avl v k arr =
    let start = k * r.vsetvl m4 avl in
    let part = r.vget m8 m4 v k in
    let stored = store_vec r m4 len arr (offset + start) part (r.vsetvl m4 (avl - start)) in
    if ltb start avl then stored else some arr

unfoldable pub store_chunks : (r : Rvv) → ℕ → (ℕ → r.Real) → ℕ → ℕ → r.Vec m8 → Option (ℕ → r.Real)
store_chunks r len arr offset avl v = do
  half ← store_chunk r len offset avl v 0 arr
  store_chunk r len offset avl v 1 half

unfoldable pub db5_dynamic : (r : Rvv) → ℕ → ℕ → Memory r → Option (Memory r)
db5_dynamic r offset avl st = do
  va ← load_vec r m8 r.len_1d st.a offset avl
  vb ← load_vec r m8 r.len_1d st.b offset avl
  vc ← load_vec r m8 r.len_1d st.c offset avl
  vd ← load_vec r m8 r.len_1d st.d offset avl
  let a_out = db5_phase r m8 va vb vc vd avl
  let part = r.vget m8 m2
  let b_out =
      chunks r m8 4 avl
        (λ k vlc. db5_phase r m2 (part a_out k) (part vb k) (part vc k) (part vd k) vlc)
  let c_out = db5_phase r m8 a_out b_out vc vd avl
  a ← store_vec r m8 r.len_1d st.a offset a_out avl
  b ← store_vec r m8 r.len_1d st.b offset b_out avl
  c ← store_vec r m8 r.len_1d st.c offset c_out avl
  some (record st { a = a; b = b; c = c })

unfoldable pub db5_sweep : (r : Rvv) → Variant → Memory r → Option (Memory r)
db5_sweep r (fixed l) st = bench_sweep r l db5_total (db5_fixed r l) st
db5_sweep r dynamic st = bench_sweep r m8 db5_total (db5_dynamic r) st

unfoldable pub db5_kernel : (r : Rvv) → Variant → Memory r → Option (Memory r)
db5_kernel r variant st = for_up db5_iters (λ _ s. db5_sweep r variant s) st

abbrev pub db10_total : ℕ
db10_total = 224

abbrev pub db10_iters : ℕ
db10_iters = 32

-- The phase of db10: u + v, plus 0.125 u.
unfoldable pub db10_phase : (r : Rvv) (l : Lmul) → r.Vec l → r.Vec l → ℕ → r.Vec l
db10_phase r l u v vl = r.vfmacc_vf l (r.vfadd_vv l u v vl) (r.lit 1 8) u vl

unfoldable pub db10_fixed : (r : Rvv) → Lmul → ℕ → ℕ → Memory r → Option (Memory r)
db10_fixed r l offset avl st = do
  va ← load_vec r l r.len_1d st.a offset avl
  vb ← load_vec r l r.len_1d st.b offset avl
  vc ← load_vec r l r.len_1d st.c offset avl
  vd ← load_vec r l r.len_1d st.d offset avl
  ve ← load_vec r l r.len_1d st.e offset avl
  vx ← load_vec r l r.len_1d st.x offset avl
  a ← store_vec r l r.len_1d st.a offset (db10_phase r l va vb avl) avl
  b ← store_vec r l r.len_1d st.b offset (db10_phase r l vc vd avl) avl
  c ← store_vec r l r.len_1d st.c offset (db10_phase r l ve vx avl) avl
  some (record st { a = a; b = b; c = c })

unfoldable pub db10_dynamic : (r : Rvv) → ℕ → ℕ → Memory r → Option (Memory r)
db10_dynamic r offset avl st = do
  va ← load_vec r m8 r.len_1d st.a offset avl
  vb ← load_vec r m8 r.len_1d st.b offset avl
  vc ← load_vec r m8 r.len_1d st.c offset avl
  vd ← load_vec r m8 r.len_1d st.d offset avl
  ve ← load_vec r m8 r.len_1d st.e offset avl
  vx ← load_vec r m8 r.len_1d st.x offset avl
  let part = r.vget m8 m2
  let b_out = chunks r m8 4 avl (λ k vlc. db10_phase r m2 (part vc k) (part vd k) vlc)
  a ← store_vec r m8 r.len_1d st.a offset (db10_phase r m8 va vb avl) avl
  b ← store_vec r m8 r.len_1d st.b offset b_out avl
  c ← store_vec r m8 r.len_1d st.c offset (db10_phase r m8 ve vx avl) avl
  some (record st { a = a; b = b; c = c })

unfoldable pub db10_sweep : (r : Rvv) → Variant → Memory r → Option (Memory r)
db10_sweep r (fixed l) st = bench_sweep r l db10_total (db10_fixed r l) st
db10_sweep r dynamic st = bench_sweep r m8 db10_total (db10_dynamic r) st

unfoldable pub db10_kernel : (r : Rvv) → Variant → Memory r → Option (Memory r)
db10_kernel r variant st = for_up db10_iters (λ _ s. db10_sweep r variant s) st
