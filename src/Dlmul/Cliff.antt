-- ===== src/Dlmul/Cliff.antt =====
-- mb5_widening_cliff of emulator/run/src/dlmul-synthesis/microbench, and mb8_live_temporary_sweep in its class 3:
-- widening operations on two arrays of int16_t. The LMUL, MB5_ACC_COUNT and MB8_K, the number of
-- elements and of outer iterations are arguments.
pub mod Values
pub mod Blocks
pub mod Filled
use vectorizer_experiments.Base.{
  ℕ, suc, ◌+◌, ◌%◌, Option, some, leb, if◌then◌else◌, ◌>>=◌, for_up, store,
}
use vectorizer_experiments.Dlmul.Rvv.{Lmul}
use vectorizer_experiments.Dlmul.Strip.{strip_while}
use vectorizer_experiments.Dlmul.Ints.{IntRvv, wide, load_short, store_word}

-- The two sources, and the array that the kernel fills: `mb5_dst`, or `indx`. All have LEN_1D elements.
pub record CliffMemory : Type 0 where
  pub src0 : ℕ → ℕ
  pub src1 : ℕ → ℕ
  pub dst : ℕ → ℕ

-- A widening sum and a widening product go into the result.
unfoldable pub cliff_pair :
    (n : IntRvv) (l : Lmul) → n.Word (wide l) → n.Short l → n.Short l → ℕ → n.Word (wide l)
cliff_pair n l out x y vl =
    n.vadd_vv (wide l) (n.vadd_vv (wide l) out (n.vwadd_vv l x y vl) vl) (n.vwmul_vv l x y vl) vl

-- The block of `MB5_ACC_COUNT >= 8`.
unfoldable pub cliff_squares :
    (n : IntRvv) (l : Lmul) → n.Word (wide l) → n.Short l → n.Short l → ℕ → n.Word (wide l)
cliff_squares n l out x y vl =
    let add = n.vadd_vv (wide l) in
    let sums = add (add out (n.vwadd_vv l x x vl) vl) (n.vwadd_vv l y y vl) vl in
    add (add sums (n.vwmul_vv l x x vl) vl) (n.vwmul_vv l y y vl) vl

-- The result of `mb5_step`, by MB5_ACC_COUNT.
unfoldable pub mb5_result :
    (n : IntRvv) (l : Lmul) → ℕ → n.Short l → n.Short l → ℕ → n.Word (wide l)
mb5_result n l k x y vl =
    let out = n.vadd_vv (wide l) (n.vwadd_vv l x y vl) (n.vwmul_vv l x y vl) vl in
    let out_4 = if leb 4 k then cliff_pair n l out y x vl else out in
    if leb 8 k then cliff_squares n l out_4 x y vl else out_4

-- The result of `mb8_step`, by MB8_K: up to 8 it is that of mb5.
unfoldable pub mb8_result :
    (n : IntRvv) (l : Lmul) → ℕ → n.Short l → n.Short l → ℕ → n.Word (wide l)
mb8_result n l k x y vl =
    let out_8 = mb5_result n l k x y vl in
    let out_12 = cliff_pair n l (cliff_pair n l out_8 x y vl) y x vl in
    if leb 12 k then out_12 else out_8

-- The step that the two share, for the result of each.
unfoldable pub cliff_step :
    (n : IntRvv) (l : Lmul)
    → ℕ
    → (n.Short l → n.Short l → ℕ → n.Word (wide l))
    → ℕ
    → ℕ
    → CliffMemory
    → Option (ℕ × CliffMemory)
cliff_step n l len result offset avl st = do
  let vl = n.vsetvl16 l avl
  x ← load_short n l len st.src0 offset vl
  y ← load_short n l len st.src1 offset vl
  dst ← store_word n (wide l) len st.dst offset (result x y vl) vl
  some (vl, record st { dst = dst })

unfoldable pub mb5_step :
    (n : IntRvv) → Lmul → ℕ → ℕ → ℕ → ℕ → CliffMemory → Option (ℕ × CliffMemory)
mb5_step n l len k = cliff_step n l len (mb5_result n l k)

unfoldable pub mb8_wide_step :
    (n : IntRvv) → Lmul → ℕ → ℕ → ℕ → ℕ → CliffMemory → Option (ℕ × CliffMemory)
mb8_wide_step n l len k = cliff_step n l len (mb8_result n l k)

-- What the loops that fill the sources store at the index i.
abbrev pub mb5_src0 : ℕ → ℕ
mb5_src0 i = i % 17 + 1

abbrev pub mb5_src1 : ℕ → ℕ
mb5_src1 i = i % 13 + 2

abbrev pub mb8_src0 : ℕ → ℕ
mb8_src0 i = i % 9 + 1

abbrev pub mb8_src1 : ℕ → ℕ
mb8_src1 i = i % 7 + 3

unfoldable pub fill_sources : ℕ → (ℕ → ℕ) → (ℕ → ℕ) → ℕ → CliffMemory → Option CliffMemory
fill_sources len f g total st =
    for_up total
      (λ i s. do
        src0 ← store len s.src0 i (f i)
        src1 ← store len s.src1 i (g i)
        some (record s { src0 = src0; src1 = src1 }))
      st

unfoldable pub cliff_sweeps :
    ℕ → ℕ → (ℕ → ℕ → CliffMemory → Option (ℕ × CliffMemory)) → CliffMemory → Option CliffMemory
cliff_sweeps iters total step st = for_up iters (λ _ s. strip_while (suc total) step 0 total s) st

unfoldable pub mb5_kernel : IntRvv → Lmul → ℕ → ℕ → ℕ → ℕ → CliffMemory → Option CliffMemory
mb5_kernel n l len k total iters st = fill_sources len mb5_src0 mb5_src1 total st >>= λ s.
    cliff_sweeps iters total (mb5_step n l len k) s

unfoldable pub mb8_wide_kernel : IntRvv → Lmul → ℕ → ℕ → ℕ → ℕ → CliffMemory → Option CliffMemory
mb8_wide_kernel n l len k total iters st = fill_sources len mb8_src0 mb8_src1 total st >>= λ s.
    cliff_sweeps iters total (mb8_wide_step n l len k) s
