-- ===== src/Dlmul/Bench/Stored.antt =====
-- What the benches store, and their sweeps, for row functions that read the flat array.
use Prim.Native.Nat.{min}
use vectorizer_experiments.Base.{
  ℕ, suc, ◌+◌, ◌-◌, ◌*◌, ◌≤◌, ◌<◌, ◌≡◌, refl, inl, inr, arith, Option, some, ltb, Bool-cases,
  if◌then◌else◌, ◌>>=◌, Ensures, Ensures-some, Ensures-bind,
}
use vectorizer_experiments.Dlmul.Rvv.{Lmul, m4, m8, Rvv, IsRvv, Memory, row, touched, store_vec}
use vectorizer_experiments.Dlmul.Rvv.Lanes.{
  Lanes, vsetvl-pos, vsetvl-le_avl, vse-Lanes, store_vec-some,
}
use vectorizer_experiments.Dlmul.Strip.Rule.{Composes, strip_for-Ensures}
use vectorizer_experiments.Dlmul.Strip.Indexed.{RowMap, SweptBy, Changed-Composes}
use vectorizer_experiments.Dlmul.Bench.{
  Variant, fixed, dynamic, bench_sweep, store_chunk, store_chunks,
}
use vectorizer_experiments.Dlmul.Bench.Chunks.{IsGreedyAt, vget-Lanes, chunk-start, chunk-behind}

module _ {A : Type 0} where
  -- The array holds the values of h in the range, and what it held elsewhere.
  abbrev pub Holds : ℕ → ℕ → (ℕ → A) → (ℕ → A) → (ℕ → A) → Type 0
  Holds offset vl arr h arr' = (j : ℕ) → arr' j ≡ (if touched offset vl j then h j else arr j)

  pub Holds-same : (offset vl : ℕ) (arr : ℕ → A) → Holds offset vl arr arr arr
  Holds-same offset vl arr j = elim (Bool-cases (touched offset vl j)) [
    | inl e ↦ rw e
    | inr e ↦ rw e
  ]

  pub Holds-both :
      (offset m n : ℕ) (arr h mid arr' : ℕ → A)
      → Holds offset m arr h mid
      → Holds (offset + m) n mid h arr'
      → Holds offset (m + n) arr h arr'
  Holds-both offset m n arr h mid arr' p q j = grind (arith, p j, q j)

module _ (r : Rvv) where
  -- The arrays that the benches store, for the row function that gives these values.
  pub stored :
      (f : RowMap r) (offset vl : ℕ) (st : Memory r) {a b c d f_a f_b f_c f_d : ℕ → r.Real}
      → Holds offset vl st.a f_a a
      → Holds offset vl st.b f_b b
      → Holds offset vl st.c f_c c
      → Holds offset vl st.d f_d d
      → ((j : ℕ)
          → f st.flat_2d_array j (row r st j)
            ≡ record (row r st j) { a = f_a j; b = f_b j; c = f_c j; d = f_d j })
      → SweptBy r f offset vl st (record st { a = a; b = b; c = c; d = d })
  stored f offset vl st pa pb pc pd same = record {
    same_env = refl;
    cells = λ j.
        rw (pa j, pb j, pc j, pd j, same j)
          (elim (Bool-cases (touched offset vl j)) [ inl e ↦ rw e | inr e ↦ rw e ]);
  }

module _ (r : Rvv) (law : IsRvv r) where
  pub vse-Holds :
      (l : Lmul) (offset vl : ℕ) (arr : ℕ → r.Real)
      → vl ≤ r.vlmax l
      → {v : r.Vec l} {h : ℕ → r.Real} → Lanes r l offset vl v h
      → Holds offset vl arr h (r.vse l arr offset v vl)
  vse-Holds l offset vl arr fits {v} {h} p = vse-Lanes r law l offset vl fits arr v h p

  -- A sweep by one LMUL, for a body that is right up to the length of its vectors.
  pub bench_sweep-Ensures :
      {S : Type 0} (R : ℕ → ℕ → S → S → Type 0)
      → Composes R
      → (l : Lmul) (total : ℕ) (body : ℕ → ℕ → S → Option S) → 0 < total
      → ((offset avl : ℕ) (st : S)
          → avl ≤ r.vlmax l
          → offset + avl ≤ total
          → Ensures (body offset avl st) (R offset avl st))
      → (st : S) → Ensures (bench_sweep r l total body st) (R 0 total st)
  unfolding bench_sweep
  bench_sweep-Ensures R rule l total body some_elems ok st =
      let all : total - 0 ≡ total = omega arith in
      rw all at (
        strip_for-Ensures R rule total (r.vsetvl l total) body (vsetvl-pos r law l total some_elems)
          (λ offset avl s pos le within.
            ok offset avl s (omega (arith, law.vsetvl-le l total)) within)
          (suc total) 0 st (omega arith))

  pub bench_sweep-SweptBy :
      (f : RowMap r) (l : Lmul) (total : ℕ) (body : ℕ → ℕ → Memory r → Option (Memory r))
      → 0 < total
      → ((offset avl : ℕ) (st : Memory r)
          → avl ≤ r.vlmax l
          → offset + avl ≤ total
          → Ensures (body offset avl st) (SweptBy r f offset avl st))
      → (st : Memory r) → Ensures (bench_sweep r l total body st) (SweptBy r f 0 total st)
  bench_sweep-SweptBy f =
      bench_sweep-Ensures (SweptBy r f)
        (Changed-Composes (λ (s : Memory r). s.flat_2d_array) (row r) f)

module _ (r : Rvv) (law : IsRvv r) (l : Lmul) (f : RowMap r) (offset avl : ℕ) (st : Memory r)
    (fits : avl ≤ r.vlmax l) (inside : offset + avl ≤ r.len_1d) {u v w : r.Vec l}
    {f_u f_v f_w : ℕ → r.Real} (pu : Lanes r l offset avl u f_u) (pv : Lanes r l offset avl v f_v)
    (pw : Lanes r l offset avl w f_w) where
  into :
      (arr : ℕ → r.Real) (x : r.Vec l)
      → store_vec r l r.len_1d arr offset x avl ≡ some (r.vse l arr offset x avl)
  into = λ (arr : ℕ → r.Real) (x : r.Vec l). store_vec-some r l r.len_1d offset avl inside arr x

  -- The stores at the end of a body: to a, b and c, or to a, b and d.
  pub store_abc :
      ((j : ℕ)
        → f st.flat_2d_array j (row r st j)
          ≡ record (row r st j) { a = f_u j; b = f_v j; c = f_w j })
      → Ensures
          (store_vec r l r.len_1d st.a offset u avl >>= λ a.
            store_vec r l r.len_1d st.b offset v avl >>= λ b.
            store_vec r l r.len_1d st.c offset w avl >>= λ c.
            some (record st { a = a; b = b; c = c }))
          (SweptBy r f offset avl st)
  store_abc same =
      rw (into st.a u, into st.b v, into st.c w)
        (Ensures-some _ _ (
          stored r f offset avl st (vse-Holds r law l offset avl st.a fits pu)
            (vse-Holds r law l offset avl st.b fits pv) (vse-Holds r law l offset avl st.c fits pw)
            (Holds-same offset avl st.d) same))

  pub store_abd :
      ((j : ℕ)
        → f st.flat_2d_array j (row r st j)
          ≡ record (row r st j) { a = f_u j; b = f_v j; d = f_w j })
      → Ensures
          (store_vec r l r.len_1d st.a offset u avl >>= λ a.
            store_vec r l r.len_1d st.b offset v avl >>= λ b.
            store_vec r l r.len_1d st.d offset w avl >>= λ d.
            some (record st { a = a; b = b; d = d }))
          (SweptBy r f offset avl st)
  store_abd same =
      rw (into st.a u, into st.b v, into st.d w)
        (Ensures-some _ _ (
          stored r f offset avl st (vse-Holds r law l offset avl st.a fits pu)
            (vse-Holds r law l offset avl st.b fits pv) (Holds-same offset avl st.c)
            (vse-Holds r law l offset avl st.d fits pw) same))

-- The fixed variants need no more of `vsetvl` than its specification, the dynamic ones what is given.
abbrev pub Serves : Type 0 → Variant → Type 0
Serves needed (fixed l) = Unit
Serves needed dynamic = needed

pub Serves-weaken :
    {P Q : Type 0} (variant : Variant) → (P → Q) → Serves P variant → Serves Q variant
Serves-weaken (fixed l) f served = tt
Serves-weaken dynamic f served = f served

module _ (r : Rvv) (law : IsRvv r) (greedy : IsGreedyAt r m4) (len offset avl : ℕ)
    (fits : avl ≤ r.vlmax m8) (inside : offset + avl ≤ len) (v : r.Vec m8) (h : ℕ → r.Real)
    (p : Lanes r m8 offset avl v h) where
  halves : r.vlmax m8 ≡ 2 * r.vlmax m4
  halves = omega (arith, law.vlmax-m8, law.vlmax-m4)

  -- One more half stored: the elements before `done` hold their values.
  store_chunk-Holds :
      (arr : ℕ → r.Real) (k done more : ℕ) (mid : ℕ → r.Real)
      → k < 2
      → done ≡ min avl (k * r.vlmax m4)
      → more ≡ min avl (k * r.vlmax m4 + r.vlmax m4)
      → Holds offset done arr h mid
      → Ensures (store_chunk r len offset avl v k mid) (Holds offset more arr h)
  unfolding store_chunk
  store_chunk-Holds arr k done more mid lt is_done is_more q =
      elim (Bool-cases (ltb (k * r.vsetvl m4 avl) avl)) [
        | inl some_left ↦
            let start = chunk-start r law m4 greedy avl k (ground arith) in
            let rest = avl - k * r.vlmax m4 in
            let vlc = r.vsetvl m4 rest in
            let vlc-le : vlc ≤ rest = vsetvl-le_avl r law m4 rest in
            let at_start : k * r.vsetvl m4 avl < avl = ground arith in
            let before : k * r.vlmax m4 < avl = omega (arith, start) in
            let filled : k * r.vlmax m4 + vlc ≡ more = elim (Bool-cases (ltb rest (r.vlmax m4))) [
              | inl few ↦ omega (arith, law.vsetvl-all m4 rest (ground arith), start)
              | inr many ↦ omega (arith, greedy rest (ground arith), start)
            ] in
            let reached : done ≡ k * r.vlmax m4 = omega (arith, is_done) in
            let lanes =
              vget-Lanes r law m8 m4 2 halves offset avl v h k vlc p lt (law.vsetvl-le m4 rest)
                (omega (arith, start)) in
            let now =
              vse-Lanes r law m4 (offset + k * r.vlmax m4) vlc (law.vsetvl-le m4 rest) mid
                (r.vget m8 m4 v k) h lanes in
            rw
              (
                some_left,
                start,
                store_vec-some r m4 len (offset + k * r.vlmax m4) vlc (omega (arith, start)) mid
                    (r.vget m8 m4 v k),
              )
              (Ensures-some _ _ (
                rw filled at
                  (Holds-both offset (k * r.vlmax m4) vlc arr h mid _ (rw reached at q) now)))
        | inr none_left ↦
            let behind = chunk-behind r law m4 greedy avl k (ground arith) in
            let all : more ≡ done = omega arith in rw (none_left, all) (Ensures-some _ _ q)
      ]

  -- Both halves stored.
  pub store_chunks-Holds :
      (arr : ℕ → r.Real) → Ensures (store_chunks r len arr offset avl v) (Holds offset avl arr h)
  unfolding store_chunks
  store_chunks-Holds arr =
      let start : Holds offset 0 arr h arr = λ j. ground arith in
      Ensures-bind _ _ _ _
        (store_chunk-Holds arr 0 0 (min avl (r.vlmax m4)) arr (omega arith) (omega arith)
          (omega arith) start)
        λ mid q.
          store_chunk-Holds arr 1 (min avl (r.vlmax m4)) avl mid (omega arith) (omega arith)
            (omega (arith, halves)) q

-- The stores of a body that stores c by halves.
pub store_halves :
    (r : Rvv) (law : IsRvv r) (greedy : IsGreedyAt r m4) (f : RowMap r) (offset avl : ℕ)
    (st : Memory r) (fits : avl ≤ r.vlmax m8) (inside : offset + avl ≤ r.len_1d) {u v w : r.Vec m8}
    {f_u f_v f_w : ℕ → r.Real}
    → Lanes r m8 offset avl u f_u
    → Lanes r m8 offset avl v f_v
    → Lanes r m8 offset avl w f_w
    → ((j : ℕ)
        → f st.flat_2d_array j (row r st j)
          ≡ record (row r st j) { a = f_u j; b = f_v j; c = f_w j })
    → Ensures
        (store_chunks r r.len_1d st.c offset avl w >>= λ c.
          store_vec r m8 r.len_1d st.a offset u avl >>= λ a.
          store_vec r m8 r.len_1d st.b offset v avl >>= λ b.
          some (record st { a = a; b = b; c = c }))
        (SweptBy r f offset avl st)
store_halves r law greedy f offset avl st fits inside {u} {v} {w} pu pv pw same =
    Ensures-bind _ _ _ _
      (store_chunks-Holds r law greedy r.len_1d offset avl fits inside w _ pw st.c)
      λ c q.
        rw
          (
            store_vec-some r m8 r.len_1d offset avl inside st.a u,
            store_vec-some r m8 r.len_1d offset avl inside st.b v,
          )
          (Ensures-some _ _ (
            stored r f offset avl st (vse-Holds r law m8 offset avl st.a fits pu)
              (vse-Holds r law m8 offset avl st.b fits pv) q (Holds-same offset avl st.d) same))
