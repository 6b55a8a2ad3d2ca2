-- ===== src/Tsvc/Sweep/Steps.antt =====
-- What an iteration of each kernel makes of its row.
use vectorizer_experiments.Base.{
  ℕ, ◌+◌, ◌-◌, ◌≤◌, ◌<◌, load-some, store-some, update, Ensures, Ensures-some, arith,
}
use vectorizer_experiments.Tsvc.Memory.{Floats, Memory, Row, row}
use vectorizer_experiments.Tsvc.Pointwise.Rows.{RowStep}
use vectorizer_experiments.Tsvc.Sweep.{
  Sweep, s321, s322, s323, s222, s221, s211, s241, s242, s243, s1213, s1244, s321_body, s322_body,
  s323_body, s222_body, s221_body, s211_body, s241_body, s242_body, s243_body, s1213_body,
  s1244_body, sweep_body, lowest, highest,
}

-- The new row, from the row before it, the one before that, its old contents and the row behind it.
abbrev pub next_row : (f : Floats) → f.Real → f.Real → Sweep → Row f → Row f → Row f → Row f → Row f
next_row f s1 s2 s321 p q w r = record w { a = f.add w.a (f.mul p.a w.b) }
next_row f s1 s2 s322 p q w r = record w { a = f.add (f.add w.a (f.mul p.a w.b)) (f.mul q.a w.c) }
next_row f s1 s2 s323 p q w r =
    let new_a_i = f.add p.b (f.mul w.c w.d) in
    record w { a = new_a_i; b = f.add new_a_i (f.mul w.c w.e) }
next_row f s1 s2 s222 p q w r =
    let new_a_i = f.add w.a (f.mul w.b w.c) in
    record w { a = f.sub new_a_i (f.mul w.b w.c); e = f.mul p.e p.e }
next_row f s1 s2 s221 p q w r =
    let new_a_i = f.add w.a (f.mul w.c w.d) in
    record w { a = new_a_i; b = f.add (f.add p.b new_a_i) w.d }
next_row f s1 s2 s211 p q w r = record w {
  a = f.add p.b (f.mul w.c w.d);
  b = f.sub r.b (f.mul w.e w.d);
}
next_row f s1 s2 s241 p q w r =
    let new_a_i = f.mul (f.mul w.b w.c) w.d in
    record w { a = new_a_i; b = f.mul (f.mul new_a_i r.a) w.d }
next_row f s1 s2 s242 p q w r = record w {
  a = f.add (f.add (f.add (f.add (f.add p.a s1) s2) w.b) w.c) w.d;
}
next_row f s1 s2 s243 p q w r =
    let new_a_i = f.add w.b (f.mul w.c w.d) in
    let new_b_i = f.add new_a_i (f.mul w.d w.e) in
    record w { a = f.add new_b_i (f.mul r.a w.d); b = new_b_i }
next_row f s1 s2 s1213 p q w r = record w { a = f.add p.b w.c; b = f.mul r.a w.d }
next_row f s1 s2 s1244 p q w r =
    let new_a_i = f.add (f.add (f.add w.b (f.mul w.c w.c)) (f.mul w.b w.b)) w.c in
    record w { a = new_a_i; d = f.add new_a_i r.a }

abbrev pub Swept : (f : Floats) → f.Real → f.Real → Sweep → ℕ → Memory f → Memory f → Type 0
Swept f s1 s2 k i t =
    RowStep f (λ w. next_row f s1 s2 k (row f t (i - 1)) (row f t (i - 2)) w (row f t (i + 1))) i t

module _ (f : Floats) (s1 s2 : f.Real) (n i : ℕ) (t : Memory f) where
  s321_body-Swept : 1 ≤ i → i < n → Ensures (s321_body f n i t) (Swept f s1 s2 s321 i t)
  unfolding s321_body update
  s321_body-Swept le lt =
      rw
        (
          load-some n t.a i (omega arith),
          load-some n t.b i (omega arith),
          load-some n t.a (i - 1) (omega arith),
          store-some n t.a i _ (omega arith),
        )
        (Ensures-some _ _ λ j. ground arith)

  s322_body-Swept : 2 ≤ i → i < n → Ensures (s322_body f n i t) (Swept f s1 s2 s322 i t)
  unfolding s322_body update
  s322_body-Swept le lt =
      rw
        (
          load-some n t.a i (omega arith),
          load-some n t.a (i - 1) (omega arith),
          load-some n t.b i (omega arith),
          load-some n t.a (i - 2) (omega arith),
          load-some n t.c i (omega arith),
          store-some n t.a i _ (omega arith),
        )
        (Ensures-some _ _ λ j. ground arith)

  s323_body-Swept : 1 ≤ i → i < n → Ensures (s323_body f n i t) (Swept f s1 s2 s323 i t)
  unfolding s323_body update
  s323_body-Swept le lt =
      rw
        (
          load-some n t.b (i - 1) (omega arith),
          load-some n t.c i (omega arith),
          load-some n t.d i (omega arith),
          store-some n t.a i _ (omega arith),
          load-some n (update t.a i _) i (omega arith),
          load-some n t.e i (omega arith),
          store-some n t.b i _ (omega arith),
        )
        (Ensures-some _ _ λ j. ground arith)

  s222_body-Swept : 1 ≤ i → i < n → Ensures (s222_body f n i t) (Swept f s1 s2 s222 i t)
  unfolding s222_body update
  s222_body-Swept le lt =
      rw
        (
          load-some n t.a i (omega arith),
          load-some n t.b i (omega arith),
          load-some n t.c i (omega arith),
          store-some n t.a i _ (omega arith),
          load-some n t.e (i - 1) (omega arith),
          store-some n t.e i _ (omega arith),
          load-some n (update t.a i _) i (omega arith),
          store-some n (update t.a i _) i _ (omega arith),
        )
        (Ensures-some _ _ λ j. ground arith)

  s221_body-Swept : 1 ≤ i → i < n → Ensures (s221_body f n i t) (Swept f s1 s2 s221 i t)
  unfolding s221_body update
  s221_body-Swept le lt =
      rw
        (
          load-some n t.a i (omega arith),
          load-some n t.c i (omega arith),
          load-some n t.d i (omega arith),
          store-some n t.a i _ (omega arith),
          load-some n t.b (i - 1) (omega arith),
          load-some n (update t.a i _) i (omega arith),
          store-some n t.b i _ (omega arith),
        )
        (Ensures-some _ _ λ j. ground arith)

  s211_body-Swept : 1 ≤ i → i < n - 1 → Ensures (s211_body f n i t) (Swept f s1 s2 s211 i t)
  unfolding s211_body update
  s211_body-Swept le lt =
      rw
        (
          load-some n t.b (i - 1) (omega arith),
          load-some n t.c i (omega arith),
          load-some n t.d i (omega arith),
          store-some n t.a i _ (omega arith),
          load-some n t.b (i + 1) (omega arith),
          load-some n t.e i (omega arith),
          store-some n t.b i _ (omega arith),
        )
        (Ensures-some _ _ λ j. ground arith)

  s241_body-Swept : 0 ≤ i → i < n - 1 → Ensures (s241_body f n i t) (Swept f s1 s2 s241 i t)
  unfolding s241_body update
  s241_body-Swept le lt =
      rw
        (
          load-some n t.b i (omega arith),
          load-some n t.c i (omega arith),
          load-some n t.d i (omega arith),
          store-some n t.a i _ (omega arith),
          load-some n (update t.a i _) i (omega arith),
          load-some n (update t.a i _) (i + 1) (omega arith),
          store-some n t.b i _ (omega arith),
        )
        (Ensures-some _ _ λ j. ground arith)

  s242_body-Swept : 1 ≤ i → i < n → Ensures (s242_body f s1 s2 n i t) (Swept f s1 s2 s242 i t)
  unfolding s242_body update
  s242_body-Swept le lt =
      rw
        (
          load-some n t.a (i - 1) (omega arith),
          load-some n t.b i (omega arith),
          load-some n t.c i (omega arith),
          load-some n t.d i (omega arith),
          store-some n t.a i _ (omega arith),
        )
        (Ensures-some _ _ λ j. ground arith)

  s243_body-Swept : 0 ≤ i → i < n - 1 → Ensures (s243_body f n i t) (Swept f s1 s2 s243 i t)
  unfolding s243_body update
  s243_body-Swept le lt =
      rw
        (
          load-some n t.b i (omega arith),
          load-some n t.c i (omega arith),
          load-some n t.d i (omega arith),
          store-some n t.a i _ (omega arith),
          load-some n (update t.a i _) i (omega arith),
          load-some n t.e i (omega arith),
          store-some n t.b i _ (omega arith),
          load-some n (update t.b i _) i (omega arith),
          load-some n (update t.a i _) (i + 1) (omega arith),
          store-some n (update t.a i _) i _ (omega arith),
        )
        (Ensures-some _ _ λ j. ground arith)

  s1213_body-Swept : 1 ≤ i → i < n - 1 → Ensures (s1213_body f n i t) (Swept f s1 s2 s1213 i t)
  unfolding s1213_body update
  s1213_body-Swept le lt =
      rw
        (
          load-some n t.b (i - 1) (omega arith),
          load-some n t.c i (omega arith),
          store-some n t.a i _ (omega arith),
          load-some n (update t.a i _) (i + 1) (omega arith),
          load-some n t.d i (omega arith),
          store-some n t.b i _ (omega arith),
        )
        (Ensures-some _ _ λ j. ground arith)

  s1244_body-Swept : 0 ≤ i → i < n - 1 → Ensures (s1244_body f n i t) (Swept f s1 s2 s1244 i t)
  unfolding s1244_body update
  s1244_body-Swept le lt =
      rw
        (
          load-some n t.b i (omega arith),
          load-some n t.c i (omega arith),
          store-some n t.a i _ (omega arith),
          load-some n (update t.a i _) i (omega arith),
          load-some n (update t.a i _) (i + 1) (omega arith),
          store-some n t.d i _ (omega arith),
        )
        (Ensures-some _ _ λ j. ground arith)

pub sweep_body-Swept :
    (f : Floats) (s1 s2 : f.Real) (k : Sweep) (n i : ℕ) (t : Memory f)
    → lowest k ≤ i
    → i < highest k n
    → Ensures (sweep_body f s1 s2 k n i t) (Swept f s1 s2 k i t)
unfolding sweep_body
sweep_body-Swept f s1 s2 s321 n i t le lt = s321_body-Swept f s1 s2 n i t le lt
sweep_body-Swept f s1 s2 s322 n i t le lt = s322_body-Swept f s1 s2 n i t le lt
sweep_body-Swept f s1 s2 s323 n i t le lt = s323_body-Swept f s1 s2 n i t le lt
sweep_body-Swept f s1 s2 s222 n i t le lt = s222_body-Swept f s1 s2 n i t le lt
sweep_body-Swept f s1 s2 s221 n i t le lt = s221_body-Swept f s1 s2 n i t le lt
sweep_body-Swept f s1 s2 s211 n i t le lt = s211_body-Swept f s1 s2 n i t le lt
sweep_body-Swept f s1 s2 s241 n i t le lt = s241_body-Swept f s1 s2 n i t le lt
sweep_body-Swept f s1 s2 s242 n i t le lt = s242_body-Swept f s1 s2 n i t le lt
sweep_body-Swept f s1 s2 s243 n i t le lt = s243_body-Swept f s1 s2 n i t le lt
sweep_body-Swept f s1 s2 s1213 n i t le lt = s1213_body-Swept f s1 s2 n i t le lt
sweep_body-Swept f s1 s2 s1244 n i t le lt = s1244_body-Swept f s1 s2 n i t le lt
