-- ===== src/Dlmul/Alias.antt =====
-- The bench alias_transfer of emulator/run/src/dlmul-synthesis/bench, behind the initialisation of its arrays: a
-- phase that works in place, or beside the vector it reads, as DLB_ALIAS_MODE asks for.
pub mod Rows
use vectorizer_experiments.Base.{ℕ, Option, some, ◌>>=◌, for_up}
use vectorizer_experiments.Dlmul.Rvv.{Lmul, m2, m4, Rvv, Memory, load_vec, store_vec}
use vectorizer_experiments.Dlmul.Bench.{Variant, fixed, dynamic, bench_sweep, chunk, chunks}

abbrev pub alias_total : ℕ
alias_total = 192

abbrev pub alias_iters : ℕ
alias_iters = 40

-- `DLB_ALIAS_MODE`.
pub data AliasMode : Type 0 where
  alias_ok : AliasMode
  alias_bad : AliasMode

unfoldable pub alias_phase1 : (r : Rvv) (l : Lmul) → r.Vec l → r.Vec l → r.Vec l → ℕ → r.Vec l
alias_phase1 r l va vb vc vl = r.vfmacc_vf l (r.vfadd_vv l va vb vl) (r.lit 1 4) vc vl

unfoldable pub store_ok : (r : Rvv) (l : Lmul) → r.Vec l → ℕ → ℕ → Memory r → Option (Memory r)
store_ok r l phase1 offset avl st = do
  a ← store_vec r l r.len_1d st.a offset phase1 avl
  some (record st { a = a })

-- The original, and the three results beside it.
unfoldable pub store_bad :
    (r : Rvv) (l : Lmul)
    → r.Vec l
    → r.Vec l
    → r.Vec l
    → r.Vec l
    → r.Vec l
    → ℕ
    → ℕ
    → Memory r
    → Option (Memory r)
store_bad r l phase1 aux t0 t1 t2 offset avl st = do
  let square = r.vfmul_vv l phase1 phase1 avl
  let orig = r.vfmacc_vf l square (r.lit 1 16) aux avl
  a ← store_vec r l r.len_1d st.a offset orig avl
  b ← store_vec r l r.len_1d st.b offset t0 avl
  c ← store_vec r l r.len_1d st.c offset t1 avl
  d ← store_vec r l r.len_1d st.d offset t2 avl
  some (record st { a = a; b = b; c = c; d = d })

-- The second phase and the stores of the fixed variants, in the two modes.
unfoldable pub fixed_rest :
    (r : Rvv) (l : Lmul) → AliasMode → r.Vec l → r.Vec l → ℕ → ℕ → Memory r → Option (Memory r)
fixed_rest r l alias_ok phase1 aux offset avl st =
    store_ok r l (r.vfadd_vv l phase1 phase1 avl) offset avl st
fixed_rest r l alias_bad phase1 aux offset avl st =
    let t0 = r.vfadd_vv l phase1 phase1 avl in
    let t1 = r.vfmul_vv l phase1 phase1 avl in
    let t2 = r.vfmacc_vf l aux (r.lit 1 8) phase1 avl in
    store_bad r l phase1 aux t0 t1 t2 offset avl st

unfoldable pub alias_fixed : (r : Rvv) → Lmul → AliasMode → ℕ → ℕ → Memory r → Option (Memory r)
alias_fixed r l mode offset avl st = do
  va ← load_vec r l r.len_1d st.a offset avl
  vb ← load_vec r l r.len_1d st.b offset avl
  vc ← load_vec r l r.len_1d st.c offset avl
  aux ← load_vec r l r.len_1d st.d offset avl
  fixed_rest r l mode (alias_phase1 r l va vb vc avl) aux offset avl st

-- `ALIAS_OK_CHUNK(k)`: the part is read from the vector that it is written to.
unfoldable pub ok_chunk : (r : Rvv) → ℕ → ℕ → r.Vec m4 → r.Vec m4
ok_chunk r avl k phase1 =
    chunk r m4 avl (λ i vlc. r.vfadd_vv m2 (r.vget m4 m2 phase1 i) (r.vget m4 m2 phase1 i) vlc) k
      phase1

unfoldable pub dynamic_rest :
    (r : Rvv) → AliasMode → r.Vec m4 → r.Vec m4 → ℕ → ℕ → Memory r → Option (Memory r)
dynamic_rest r alias_ok phase1 aux offset avl st =
    store_ok r m4 (ok_chunk r avl 1 (ok_chunk r avl 0 phase1)) offset avl st
dynamic_rest r alias_bad phase1 aux offset avl st =
    let xa = r.vget m4 m2 phase1 in
    let xaux = r.vget m4 m2 aux in
    let t0 = chunks r m4 2 avl (λ k vlc. r.vfadd_vv m2 (xa k) (xa k) vlc) in
    let t1 = chunks r m4 2 avl (λ k vlc. r.vfmul_vv m2 (xa k) (xa k) vlc) in
    let t2 = chunks r m4 2 avl (λ k vlc. r.vfmacc_vf m2 (xaux k) (r.lit 1 8) (xa k) vlc) in
    store_bad r m4 phase1 aux t0 t1 t2 offset avl st

unfoldable pub alias_dynamic : (r : Rvv) → AliasMode → ℕ → ℕ → Memory r → Option (Memory r)
alias_dynamic r mode offset avl st = do
  va ← load_vec r m4 r.len_1d st.a offset avl
  vb ← load_vec r m4 r.len_1d st.b offset avl
  vc ← load_vec r m4 r.len_1d st.c offset avl
  aux ← load_vec r m4 r.len_1d st.d offset avl
  dynamic_rest r mode (alias_phase1 r m4 va vb vc avl) aux offset avl st

unfoldable pub alias_sweep : (r : Rvv) → Variant → AliasMode → Memory r → Option (Memory r)
alias_sweep r (fixed l) mode st = bench_sweep r l alias_total (alias_fixed r l mode) st
alias_sweep r dynamic mode st = bench_sweep r m4 alias_total (alias_dynamic r mode) st

unfoldable pub alias_kernel : (r : Rvv) → Variant → AliasMode → Memory r → Option (Memory r)
alias_kernel r variant mode st = for_up alias_iters (λ _ s. alias_sweep r variant mode s) st
