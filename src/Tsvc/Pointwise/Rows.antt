-- ===== src/Tsvc/Pointwise/Rows.antt =====
-- What an iteration of each kernel makes of its row.
use vectorizer_experiments.Base.{
  ℕ, ◌+◌, ◌/◌, ◌<◌, ◌≡◌, ◌&&◌, some, if◌then◌else◌, ◌==◌, ltb, load, store, load-some, store-some,
  update,
}
use vectorizer_experiments.Tsvc.Memory.{Floats, Memory, Row, row}
use vectorizer_experiments.Tsvc.Pointwise.{
  Pointwise, s000, s1112, s1161, s1251, s1281, s251, s253, s271, s2711, s2712, s273, s274, s276,
  s278, s441, s443, s452, s1279, s2710, s279, s1351, s431, s4121,
}

-- The row behind iteration i.
abbrev pub row_of : (f : Floats) → Pointwise → ℕ → ℕ → Row f → Row f
row_of f s000 n i w = record w { a = f.add w.b w.c }
row_of f s1112 n i w = record w { a = f.add w.b (f.lit 1 1) }
row_of f s1161 n i w =
    if f.lt w.c (f.lit 0 1)
    then record w { b = f.add w.a (f.mul w.d w.d) }
    else record w { a = f.add w.c (f.mul w.d w.e) }
row_of f s1251 n i w = record w { a = f.mul (f.add w.b w.c) w.e; b = f.add w.a w.d }
row_of f s1281 n i w =
    let x = f.add (f.add (f.mul w.b w.c) (f.mul w.a w.d)) w.e in
    record w { a = f.sub x (f.lit 1 1); b = x }
row_of f s251 n i w = let t = f.add w.b (f.mul w.c w.d) in record w { a = f.mul t t }
row_of f s253 n i w =
    let t = f.sub w.a (f.mul w.b w.d) in
    if f.lt w.b w.a then record w { a = t; c = f.add w.c t } else w
row_of f s271 n i w = if f.lt (f.lit 0 1) w.b then record w { a = f.add w.a (f.mul w.b w.c) } else w
row_of f s2711 n i w =
    if f.eq w.b (f.lit 0 1) then w else record w { a = f.add w.a (f.mul w.b w.c) }
row_of f s2712 n i w = if f.lt w.b w.a then record w { a = f.add w.a (f.mul w.b w.c) } else w
row_of f s273 n i w =
    let a_i = f.add w.a (f.mul w.d w.e) in
    record w {
      a = a_i;
      b = if f.lt a_i (f.lit 0 1) then f.add w.b (f.mul w.d w.e) else w.b;
      c = f.add w.c (f.mul a_i w.d);
    }
row_of f s274 n i w =
    let a_i = f.add w.c (f.mul w.e w.d) in
    if f.lt (f.lit 0 1) a_i
    then record w { a = a_i; b = f.add a_i w.b }
    else record w { a = f.mul w.d w.e }
row_of f s276 n i w = record w {
  a = f.add w.a (f.mul w.b (if ltb (i + 1) (n / 2) then w.c else w.d));
}
row_of f s278 n i w =
    let p = f.mul w.d w.e in
    if f.lt (f.lit 0 1) w.a
    then record w { a = f.add w.b (f.mul (f.add (f.neg w.c) p) w.d); c = f.add (f.neg w.c) p }
    else record w { a = f.add (f.add (f.neg w.b) p) (f.mul w.c w.d); b = f.add (f.neg w.b) p }
row_of f s441 n i w = record w {
  a = f.add w.a (
      if f.lt w.d (f.lit 0 1)
      then f.mul w.b w.c
      else if f.eq w.d (f.lit 0 1)
      then f.mul w.b w.b
      else f.mul w.c w.c);
}
row_of f s443 n i w = record w {
  a = f.add w.a (if f.le w.d (f.lit 0 1) then f.mul w.b w.c else f.mul w.b w.b);
}
row_of f s452 n i w = record w { a = f.add w.b (f.mul w.c (f.of_nat (i + 1))) }
row_of f s1279 n i w =
    if f.lt w.a (f.lit 0 1) && f.lt w.a w.b then record w { c = f.add w.c (f.mul w.d w.e) } else w
row_of f s2710 n i w =
    if f.lt w.b w.a
    then record w {
      a = f.add w.a (f.mul w.b w.d);
      c = if ltb 10 n then f.add w.c (f.mul w.d w.d) else f.add (f.mul w.d w.e) (f.lit 1 1);
    }
    else record w {
      b = f.add w.a (f.mul w.e w.e);
      c =
          if f.lt (f.lit 0 1) (f.of_nat 1)
          then f.add w.a (f.mul w.d w.d)
          else f.add w.c (f.mul w.e w.e);
    }
row_of f s279 n i w =
    let flip = f.add (f.neg w.b) (f.mul w.d w.d) in
    let b = if f.lt (f.lit 0 1) w.a then w.b else flip in
    let c =
      if f.lt (f.lit 0 1) w.a
      then f.add (f.neg w.c) (f.mul w.e w.e)
      else if f.le flip w.a
      then w.c
      else f.add w.c (f.mul w.d w.e) in
    record w { a = f.add b (f.mul c w.d); b = b; c = c }
row_of f s1351 n i w = record w { a = f.add w.b w.c }
row_of f s431 n i w = record w { a = f.add w.a w.b }
row_of f s4121 n i w = record w { a = f.add w.a (f.mul w.b w.c) }

-- The step at index i changes row i by g, and no other row.
abbrev pub RowStep : (f : Floats) → (Row f → Row f) → ℕ → Memory f → Memory f → Type 0
RowStep f g i s t = (j : ℕ) → row f t j ≡ (if i == j then g (row f s j) else row f s j)

module _ {A : Type 0} (n i : ℕ) (lt : i < n) where
  pub load_at : (arr : ℕ → A) → load n arr i ≡ some (arr i)
  load_at arr = load-some n arr i lt

  pub store_at : (arr : ℕ → A) (v : A) → store n arr i v ≡ some (update arr i v)
  store_at arr v = store-some n arr i v lt
