-- ===== src/Tsvc/Tests.antt =====
-- The kernels on four or eight elements, over whole numbers in which 8 stands for zero.
use vectorizer_experiments.Base.{
  ℕ, ◌+◌, ◌-◌, ◌*◌, ◌/◌, ◌%◌, ◌≡◌, true, false, none, some, if◌then◌else◌, ◌==◌, ltb, leb, for_up,
  for_down, Ensures, arith,
}
use vectorizer_experiments.Tsvc.Memory.{Floats, Memory}
use vectorizer_experiments.Tsvc.Pointwise.{s274, body, kernel}
use vectorizer_experiments.Tsvc.Pointwise.Rows.{row_of}
use vectorizer_experiments.Tsvc.Pointwise.Order.{RowsBelow, kernel-Rows}
use vectorizer_experiments.Tsvc.Dependence.{
  s151, s173, s1421, s112, s121, s421, s212, s1113, s1221, s124, s254, s291,
}
use vectorizer_experiments.Tsvc.Dependence.Ahead.{OnA, OnC, OnTwo, mid, product, moved}
use vectorizer_experiments.Tsvc.Dependence.Halves.{OnB, half, folded}
use vectorizer_experiments.Tsvc.Dependence.Parallel.{kernels-Ahead}
use vectorizer_experiments.Tsvc.Dependence.Carried.{Recurrent, around, picked, kernels-Carried}
use vectorizer_experiments.Tsvc.Sweep.{s322, sweep}
use vectorizer_experiments.Tsvc.Sweep.Solved.{SolvedBelow, sweep-Solved}
use vectorizer_experiments.Tsvc.Bounds.{
  s351, s424, scaled, Strips, s351-whole-part, s424-fits, s424-short,
}
use vectorizer_experiments.Tsvc.Packing.{s341, s342, PackedBelow, unpacked, s341-s342-Packed}
use vectorizer_experiments.Tsvc.Search.{
  s331, s332, s314, s316, LastNegative, FirstAbove, Extreme, s331-s332-Found, s314-s316-Extreme,
}

abbrev biased : Floats
biased = record {
  Real = ℕ;
  lit = λ n d. 8 + n / d;
  of_nat = λ n. 8 + n;
  add = λ x y. x + y - 8;
  sub = λ x y. x + 8 - y;
  mul = λ x y. 8 + (x - 8) * (y - 8);
  neg = λ x. 16 - x;
  lt = ltb;
  le = leb;
  eq = λ x y. x == y;
}

-- Some elements are negative.
abbrev arrays : Memory biased
arrays = record {
  a = λ j. 5 + 3 * j;
  b = λ j. 12 - 2 * j;
  c = λ j. 10;
  d = λ j. 7 + j;
  e = λ j. if j == 1 then 6 else 9;
}

kernel-Rows_example :
    Ensures (kernel biased s274 4 arrays) (RowsBelow biased (row_of biased s274 4) 4 arrays)
    × Ensures
        (for_up 4 (body biased s274 4) arrays)
        (RowsBelow biased (row_of biased s274 4) 4 arrays)
    × Ensures
        (for_down 4 (body biased s274 4) arrays)
        (RowsBelow biased (row_of biased s274 4) 4 arrays)
kernel-Rows_example = kernel-Rows biased 4 s274 arrays

kernels-Ahead_example :
    Ensures
      (s112 biased 4 arrays)
      (OnA biased 4 arrays 1 4 (λ j. biased.add (arrays.a (j - 1)) (arrays.b (j - 1))))
    × Ensures
        (s121 biased 4 arrays)
        (OnA biased 4 arrays 0 3 (λ j. biased.add (arrays.a (j + 1)) (arrays.b j)))
    × Ensures
        (s151 biased 4 arrays)
        (OnA biased 4 arrays 0 3 (λ j. biased.add (arrays.a (j + 1)) (arrays.b j)))
    × Ensures
        (s421 biased 4 arrays)
        (OnC biased 4 arrays 0 3 (λ j. biased.add (arrays.c (j + 1)) (arrays.a j)))
    × Ensures
        (s1113 biased 4 arrays)
        (OnA biased 4 arrays 0 4 (λ j. biased.add (mid biased 4 arrays j) (arrays.b j)))
    × Ensures
        (s212 biased 4 arrays)
        (OnTwo biased 4 arrays 3 (product biased 4 arrays) (moved biased 4 arrays))
    × Ensures (s173 biased 4 arrays) (OnA biased 4 arrays 2 4 (half biased 4 arrays))
    × Ensures (s1421 biased 4 arrays) (OnB biased 4 arrays 0 2 (folded biased 4 arrays))
kernels-Ahead_example = kernels-Ahead biased 4 arrays

kernels-Carried_example :
    (s254 biased 8 arrays ≡ s291 biased 8 arrays)
    × Ensures (s254 biased 8 arrays) (OnA biased 8 arrays 0 8 (around biased 8 arrays))
    × Ensures (s124 biased 8 arrays) (OnA biased 8 arrays 0 8 (picked biased 8 arrays))
    × Ensures (s1221 biased 8 arrays) (Recurrent biased 8 arrays 8)
kernels-Carried_example = kernels-Carried biased 8 arrays (omega arith)

sweep-Solved_example :
    Ensures (sweep biased 9 10 s322 4 arrays) (SolvedBelow biased 9 10 s322 arrays 4)
sweep-Solved_example = sweep-Solved biased 9 10 s322 arrays 4 (omega arith)

s351-whole-part_example : s351 biased 7 arrays ≡ (
    if 7 % 5 == 0
    then some (record arrays { a = λ j. if ltb j 7 then scaled biased 7 arrays j else arrays.a j })
    else none)
s351-whole-part_example = s351-whole-part biased 7 arrays (omega arith)

s424-fits_example :
    Ensures (s424 biased 4 67 arrays.a arrays.b) (Strips biased 4 67 arrays.a arrays.b 3)
s424-fits_example = s424-fits biased 4 67 arrays.a arrays.b (omega arith)

-- The sizes that the build sets.
s424-short_example : s424 biased 1000 1024 arrays.a arrays.b ≡ none
s424-short_example = s424-short biased 1000 1024 arrays.a arrays.b (omega arith) (omega arith)

s341-s342-Packed_example :
    Ensures (s341 biased 4 arrays) (PackedBelow biased 4 arrays 4)
    × Ensures (s342 biased 4 arrays) (OnA biased 4 arrays 0 4 (unpacked biased 4 arrays))
s341-s342-Packed_example = s341-s342-Packed biased 4 arrays

s331-s332-Found_example :
    Ensures (s331 biased 4 arrays.b) (LastNegative biased 4 arrays.b 4)
    × Ensures (s332 biased 4 arrays.b) (FirstAbove biased 4 arrays.b 0)
s331-s332-Found_example = s331-s332-Found biased 4 arrays.b

ltb_irreflexive : (x : ℕ) → ltb x x ≡ false
ltb_irreflexive x = ground arith

ltb_transitive : (x y z : ℕ) → ltb x y ≡ true → ltb y z ≡ true → ltb x z ≡ true
ltb_transitive x y z p q = ground arith

s314-s316-Extreme_example :
    Ensures (s314 biased 4 arrays.b) (Extreme biased biased.lt 4 arrays.b 4)
    × Ensures (s316 biased 4 arrays.b) (Extreme biased (λ x y. biased.lt y x) 4 arrays.b 4)
s314-s316-Extreme_example =
    s314-s316-Extreme biased ltb_irreflexive ltb_transitive 4 arrays.b (omega arith)
