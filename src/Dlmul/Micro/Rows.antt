-- ===== src/Dlmul/Micro/Rows.antt =====
-- What the microbenchmarks compute from one row of the arrays.
use vectorizer_experiments.Base.{ℕ, ◌*◌}
use vectorizer_experiments.Dlmul.Rvv.{Rvv, Row}
use vectorizer_experiments.Dlmul.Strip.Sweep.{times}
use vectorizer_experiments.Dlmul.Micro.{
  Shape, shape_1, shape_2, shape_3, shape_4, ChainOp, op_1, op_2,
}

abbrev pub mb2_row : (r : Rvv) → Row r → Row r
mb2_row r w = record w { a = r.add w.b w.c }

abbrev pub mb3_row : (r : Rvv) → Row r → Row r
mb3_row r w = record w {
  d =
      r.add (r.sub (r.add (r.add (r.add w.a w.b) (r.mul w.c w.d)) (r.mul w.e w.x)) w.aa)
        w.flat_2d_array;
}

abbrev pub mb6_value : (r : Rvv) → Shape → r.Real → r.Real → r.Real
mb6_value r shape_1 b c = b
mb6_value r shape_2 b c = r.add (r.mul b (r.lit 5 4)) (r.lit 1 2)
mb6_value r shape_3 b c = r.add b c
mb6_value r shape_4 b c = r.add (r.mul b (r.lit 5 4)) c

abbrev pub mb6_row : (r : Rvv) → Shape → Row r → Row r
mb6_row r shape w = record w { a = mb6_value r shape w.b w.c }

abbrev pub mb7_value : (r : Rvv) → ChainOp → r.Real → r.Real → r.Real → r.Real
mb7_value r op_1 x y acc = r.add acc x
mb7_value r op_2 x y acc = r.fma acc x y

abbrev pub mb7_row : (r : Rvv) → ChainOp → ℕ → Row r → Row r
mb7_row r op depth w = record w { d = times depth (mb7_value r op w.b w.c) w.a }

abbrev pub spill_row : (r : Rvv) → Row r → Row r
spill_row r w = record w { e = w.d }

abbrev pub mb10_row : (r : Rvv) → ℕ → Row r → Row r
mb10_row r level w = times (level * 2) (spill_row r) (record w { d = r.fma w.a w.b w.b })
