-- ===== src/Dlmul/Alias/Rows.antt =====
-- Every variant of alias_transfer computes the same rows in each mode, whatever the length of the vectors.
use Prim.Native.Nat.{min}
use vectorizer_experiments.Base.{
  ℕ, ◌+◌, ◌*◌, ◌≤◌, ◌<◌, ◌≡◌, ◌∙◌, refl, ap, arith, Ensures, Ensures-some,
}
use vectorizer_experiments.Dlmul.Rvv.{Lmul, m2, m4, Rvv, IsRvv, Memory, Row, row}
use vectorizer_experiments.Dlmul.Rvv.Lanes.{Lanes, vle-Lanes, load_vec-some, store_vec-some}
use vectorizer_experiments.Dlmul.Rvv.Steps.{Runs, add, mul, macc_s}
use vectorizer_experiments.Dlmul.Strip.Sweep.{times}
use vectorizer_experiments.Dlmul.Strip.Indexed.{RowMap, SweptBy, sweeps-SweptBy}
use vectorizer_experiments.Dlmul.Bench.{Variant, fixed, dynamic, chunk}
use vectorizer_experiments.Dlmul.Bench.Chunks.{
  IsGreedy, vget-Lanes, fewer-Lanes, chunk-Lanes, chunk-kept, chunks-Lanes,
}
use vectorizer_experiments.Dlmul.Bench.Stored.{
  Holds-same, stored, vse-Holds, bench_sweep-SweptBy, Serves,
}
use vectorizer_experiments.Dlmul.Alias.{
  AliasMode, alias_ok, alias_bad, alias_total, alias_iters, alias_phase1, store_ok, store_bad,
  fixed_rest, alias_fixed, ok_chunk, dynamic_rest, alias_dynamic, alias_sweep, alias_kernel,
}

module _ (r : Rvv) where
  abbrev pub alias_phase1_value : Row r → r.Real
  alias_phase1_value w = r.fma (r.add w.a w.b) (r.lit 1 4) w.c

  abbrev pub alias_row : AliasMode → RowMap r
  alias_row alias_ok flat j w =
      let phase1 = alias_phase1_value w in record w { a = r.add phase1 phase1 }
  alias_row alias_bad flat j w =
      let phase1 = alias_phase1_value w in
      record w {
        a = r.fma (r.mul phase1 phase1) (r.lit 1 16) w.d;
        b = r.add phase1 phase1;
        c = r.mul phase1 phase1;
        d = r.fma w.d (r.lit 1 8) phase1;
      }

module _ (r : Rvv) (law : IsRvv r) where
  module _ (l : Lmul) (offset avl : ℕ) (st : Memory r) (fits : avl ≤ r.vlmax l)
      (inside : offset + avl ≤ r.len_1d) where
    abbrev Phase1 : ℕ → r.Real
    Phase1 j = alias_phase1_value r (row r st j)

    store_ok-SweptBy :
        (v : r.Vec l)
        → Lanes r l offset avl v (λ j. r.add (Phase1 j) (Phase1 j))
        → Ensures (store_ok r l v offset avl st) (SweptBy r (alias_row r alias_ok) offset avl st)
    unfolding store_ok
    store_ok-SweptBy v p = rw (store_vec-some r l r.len_1d offset avl inside st.a v) (
        Ensures-some _ _ (
          stored r (alias_row r alias_ok) offset avl st (vse-Holds r law l offset avl st.a fits p)
            (Holds-same offset avl st.b) (Holds-same offset avl st.c) (Holds-same offset avl st.d)
            λ j. refl))

    store_bad-SweptBy :
        (phase1 aux t0 t1 t2 : r.Vec l)
        → Lanes r l offset avl phase1 Phase1
        → Lanes r l offset avl aux st.d
        → Lanes r l offset avl t0 (λ j. r.add (Phase1 j) (Phase1 j))
        → Lanes r l offset avl t1 (λ j. r.mul (Phase1 j) (Phase1 j))
        → Lanes r l offset avl t2 (λ j. r.fma (st.d j) (r.lit 1 8) (Phase1 j))
        → Ensures
            (store_bad r l phase1 aux t0 t1 t2 offset avl st)
            (SweptBy r (alias_row r alias_bad) offset avl st)
    unfolding store_bad
    store_bad-SweptBy phase1 aux t0 t1 t2 pp pa p0 p1 p2 =
        let run : Runs r l avl = record { law = law; fits = fits } in
        let orig = macc_s run (r.lit 1 16) (mul run pp pp) pa in
        let into =
          λ (arr : ℕ → r.Real) (v : r.Vec l). store_vec-some r l r.len_1d offset avl inside arr v in
        rw (into st.a _, into st.b t0, into st.c t1, into st.d t2)
          (Ensures-some _ _ (
            stored r (alias_row r alias_bad) offset avl st
              (vse-Holds r law l offset avl st.a fits orig)
              (vse-Holds r law l offset avl st.b fits p0)
              (vse-Holds r law l offset avl st.c fits p1)
              (vse-Holds r law l offset avl st.d fits p2) λ j. refl))

    phase1-Lanes :
        Lanes r l offset avl
          (alias_phase1 r l
            (r.vle l st.a offset avl)
            (r.vle l st.b offset avl)
            (r.vle l st.c offset avl)
            avl)
          Phase1
    unfolding alias_phase1
    phase1-Lanes =
        let run : Runs r l avl = record { law = law; fits = fits } in
        let ld = λ (arr : ℕ → r.Real). vle-Lanes r law l offset avl fits arr in
        macc_s run (r.lit 1 4) (add run (ld st.a) (ld st.b)) (ld st.c)

    fixed_rest-SweptBy :
        (mode : AliasMode) (phase1 aux : r.Vec l)
        → Lanes r l offset avl phase1 Phase1
        → Lanes r l offset avl aux st.d
        → Ensures
            (fixed_rest r l mode phase1 aux offset avl st)
            (SweptBy r (alias_row r mode) offset avl st)
    unfolding fixed_rest
    fixed_rest-SweptBy alias_ok phase1 aux pp pa =
        store_ok-SweptBy _ (add (record { law = law; fits = fits }) pp pp)
    fixed_rest-SweptBy alias_bad phase1 aux pp pa =
        let run : Runs r l avl = record { law = law; fits = fits } in
        store_bad-SweptBy phase1 aux _ _ _ pp pa (add run pp pp) (mul run pp pp)
          (macc_s run (r.lit 1 8) pa pp)

    alias_fixed-SweptBy :
        (mode : AliasMode)
        → Ensures (alias_fixed r l mode offset avl st) (SweptBy r (alias_row r mode) offset avl st)
    unfolding alias_fixed
    alias_fixed-SweptBy mode =
        let load = load_vec-some r l r.len_1d offset avl inside in
        rw (load st.a, load st.b, load st.c, load st.d)
          (fixed_rest-SweptBy mode _ _ phase1-Lanes (vle-Lanes r law l offset avl fits st.d))

  module _ (greedy : IsGreedy r) (offset avl : ℕ) (fits : avl ≤ r.vlmax m4) where
    -- One chunk in place: the part that it reads has not been written yet.
    ok_chunk-Lanes :
        (h : ℕ → r.Real) (v : r.Vec m4)
        → Lanes r m4 offset avl v h
        → Lanes r m4 offset avl (ok_chunk r avl 1 (ok_chunk r avl 0 v)) (λ j. r.add (h j) (h j))
    unfolding ok_chunk
    ok_chunk-Lanes h v p =
        let doubled =
          λ (u : r.Vec m4) (i vlc : ℕ). r.vfadd_vv m2 (r.vget m4 m2 u i) (r.vget m4 m2 u i) vlc in
        let one = chunk r m4 avl (doubled v) 0 v in
        let begin : Lanes r m4 offset (min avl (0 * r.vlmax m2)) v (λ j. r.add (h j) (h j)) =
          record { at_lane = λ i lt. absurd (omega arith) } in
        let first =
          chunk-Lanes r law m4 2 law.vlmax-m4 offset avl greedy fits (doubled v)
            (λ j. r.add (h j) (h j)) 0 v
            (λ vlc start few le.
              let part =
                vget-Lanes r law m4 m2 2 law.vlmax-m4 offset avl v h 0 vlc p (omega arith) few le in
              add (record { law = law; fits = few }) part part)
            (omega arith) begin in
        let unread : (vlc : ℕ)
            → vlc ≤ r.vlmax m2
            → 1 * r.vlmax m2 + vlc ≤ avl
            → Lanes r m2 (offset + 1 * r.vlmax m2) vlc (r.vget m4 m2 one 1) h =
          λ vlc few le. record {
            at_lane = λ i lt.
                let same : offset + (1 * r.vlmax m2 + i) ≡ offset + 1 * r.vlmax m2 + i =
                  omega arith in
                law.vget-lane m4 m2 one 1 i (omega (arith, law.vlmax-m4)) (omega arith)
                ∙ chunk-kept r law m4 2 law.vlmax-m4 offset avl greedy fits (doubled v) 0
                    (1 * r.vlmax m2 + i) v (omega arith) (omega arith) (omega (arith, law.vlmax-m4))
                ∙ p.at_lane (1 * r.vlmax m2 + i) (omega arith)
                ∙ ap h same;
          } in
        let second =
          chunk-Lanes r law m4 2 law.vlmax-m4 offset avl greedy fits (doubled one)
            (λ j. r.add (h j) (h j)) 1 one
            (λ vlc start few le.
              let part = unread vlc few le in add (record { law = law; fits = few }) part part)
            (omega arith) first in
        fewer-Lanes r m4 offset _ _ _ _ (omega (arith, law.vlmax-m4)) second

  alias_dynamic-SweptBy :
      IsGreedy r
      → (mode : AliasMode) (offset avl : ℕ) (st : Memory r) → avl ≤ r.vlmax m4
      → offset + avl ≤ r.len_1d
      → Ensures (alias_dynamic r mode offset avl st) (SweptBy r (alias_row r mode) offset avl st)
  unfolding alias_dynamic dynamic_rest
  alias_dynamic-SweptBy greedy alias_ok offset avl st fits inside =
      let load = load_vec-some r m4 r.len_1d offset avl inside in
      rw (load st.a, load st.b, load st.c, load st.d)
        (store_ok-SweptBy m4 offset avl st fits inside _
          (ok_chunk-Lanes greedy offset avl fits _ _ (phase1-Lanes m4 offset avl st fits inside)))
  alias_dynamic-SweptBy greedy alias_bad offset avl st fits inside =
      let load = load_vec-some r m4 r.len_1d offset avl inside in
      let phase1 = phase1-Lanes m4 offset avl st fits inside in
      let aux = vle-Lanes r law m4 offset avl fits st.d in
      let filled = chunks-Lanes r law m4 2 law.vlmax-m4 offset avl greedy fits in
      let part : (k vlc : ℕ)
          → k < 2
          → vlc ≤ r.vlmax m2
          → k * r.vlmax m2 + vlc ≤ avl
          → (v : r.Vec m4) (h : ℕ → r.Real) → Lanes r m4 offset avl v h
          → Lanes r m2 (offset + k * r.vlmax m2) vlc (r.vget m4 m2 v k) h =
        λ k vlc lt few le v h q.
          vget-Lanes r law m4 m2 2 law.vlmax-m4 offset avl v h k vlc q lt few le in
      let t0 = filled _ _ λ k vlc lt start few le.
        let xa = part k vlc lt few le _ _ phase1 in add (record { law = law; fits = few }) xa xa in
      let t1 = filled _ _ λ k vlc lt start few le.
        let xa = part k vlc lt few le _ _ phase1 in mul (record { law = law; fits = few }) xa xa in
      let t2 = filled _ _ λ k vlc lt start few le.
        macc_s (record { law = law; fits = few }) (r.lit 1 8) (part k vlc lt few le _ _ aux)
          (part k vlc lt few le _ _ phase1) in
      rw (load st.a, load st.b, load st.c, load st.d)
        (store_bad-SweptBy m4 offset avl st fits inside _ _ _ _ _ phase1 aux t0 t1 t2)

  module _ (room : alias_total ≤ r.len_1d) where
    alias_sweep-SweptBy :
        (variant : Variant) (mode : AliasMode) (st : Memory r)
        → Serves (IsGreedy r) variant
        → Ensures (alias_sweep r variant mode st) (SweptBy r (alias_row r mode) 0 alias_total st)
    unfolding alias_sweep
    alias_sweep-SweptBy (fixed l) mode st served =
        bench_sweep-SweptBy r law (alias_row r mode) l alias_total (alias_fixed r l mode)
          (omega arith)
          (λ offset avl s fits inside. alias_fixed-SweptBy l offset avl s fits (omega arith) mode)
          st
    alias_sweep-SweptBy dynamic mode st greedy =
        bench_sweep-SweptBy r law (alias_row r mode) m4 alias_total (alias_dynamic r mode)
          (omega arith)
          (λ offset avl s fits inside.
            alias_dynamic-SweptBy greedy mode offset avl s fits (omega arith))
          st

    -- The kernel of alias_transfer.
    pub alias_kernel-SweptBy :
        (variant : Variant) (mode : AliasMode) (st : Memory r)
        → Serves (IsGreedy r) variant
        → Ensures
            (alias_kernel r variant mode st)
            (SweptBy r (λ flat j. times alias_iters (alias_row r mode flat j)) 0 alias_total st)
    unfolding alias_kernel
    alias_kernel-SweptBy variant mode st served =
        sweeps-SweptBy r (alias_row r mode) alias_total (λ s. alias_sweep r variant mode s)
          (λ s. alias_sweep-SweptBy variant mode s served) alias_iters st
