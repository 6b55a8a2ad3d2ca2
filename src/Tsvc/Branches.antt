-- ===== src/Tsvc/Branches.antt =====
-- Iterations that work on one index, with branches:
-- s1161, s253, s271, s2711, s2712, s273, s274, s276, s278, s441, s443, s1279, s2710, s279 of
-- emulator/run/src/tsvc.
use vectorizer_experiments.Base.{ℕ, ◌+◌, ◌/◌, Option, some, ◌>>=◌, if◌then◌else◌, ltb, load, store}
use vectorizer_experiments.Tsvc.Memory.{Floats, Memory}

unfoldable pub s1161_body : (f : Floats) → ℕ → ℕ → Memory f → Option (Memory f)
s1161_body f n i s = do
  c_i ← load n s.c i
  d_i ← load n s.d i
  let negative = do
    a_i ← load n s.a i
    b ← store n s.b i (f.add a_i (f.mul d_i d_i))
    some (record s { b = b })
  let other = do
    e_i ← load n s.e i
    a ← store n s.a i (f.add c_i (f.mul d_i e_i))
    some (record s { a = a })
  if f.lt c_i (f.lit 0 1) then negative else other

unfoldable pub s253_body : (f : Floats) → ℕ → ℕ → Memory f → Option (Memory f)
s253_body f n i s = do
  a_i ← load n s.a i
  b_i ← load n s.b i
  let more = do
    d_i ← load n s.d i
    let t = f.sub a_i (f.mul b_i d_i)
    c_i ← load n s.c i
    c ← store n s.c i (f.add c_i t)
    a ← store n s.a i t
    some (record s { a = a; c = c })
  if f.lt b_i a_i then more else some s

unfoldable pub s271_body : (f : Floats) → ℕ → ℕ → Memory f → Option (Memory f)
s271_body f n i s = do
  b_i ← load n s.b i
  let more = do
    a_i ← load n s.a i
    c_i ← load n s.c i
    a ← store n s.a i (f.add a_i (f.mul b_i c_i))
    some (record s { a = a })
  if f.lt (f.lit 0 1) b_i then more else some s

unfoldable pub s2711_body : (f : Floats) → ℕ → ℕ → Memory f → Option (Memory f)
s2711_body f n i s = do
  b_i ← load n s.b i
  let more = do
    a_i ← load n s.a i
    c_i ← load n s.c i
    a ← store n s.a i (f.add a_i (f.mul b_i c_i))
    some (record s { a = a })
  if f.eq b_i (f.lit 0 1) then some s else more

unfoldable pub s2712_body : (f : Floats) → ℕ → ℕ → Memory f → Option (Memory f)
s2712_body f n i s = do
  a_i ← load n s.a i
  b_i ← load n s.b i
  let more = do
    c_i ← load n s.c i
    a ← store n s.a i (f.add a_i (f.mul b_i c_i))
    some (record s { a = a })
  if f.lt b_i a_i then more else some s

unfoldable pub s273_body : (f : Floats) → ℕ → ℕ → Memory f → Option (Memory f)
s273_body f n i s = do
  a_i ← load n s.a i
  d_i ← load n s.d i
  e_i ← load n s.e i
  a ← store n s.a i (f.add a_i (f.mul d_i e_i))
  new_a ← load n a i
  b_i ← load n s.b i
  let more = store n s.b i (f.add b_i (f.mul d_i e_i))
  b ← if f.lt new_a (f.lit 0 1) then more else some s.b
  c_i ← load n s.c i
  c ← store n s.c i (f.add c_i (f.mul new_a d_i))
  some (record s { a = a; b = b; c = c })

unfoldable pub s274_body : (f : Floats) → ℕ → ℕ → Memory f → Option (Memory f)
s274_body f n i s = do
  c_i ← load n s.c i
  e_i ← load n s.e i
  d_i ← load n s.d i
  a ← store n s.a i (f.add c_i (f.mul e_i d_i))
  new_a ← load n a i
  let positive = do
    b_i ← load n s.b i
    b ← store n s.b i (f.add new_a b_i)
    some (record s { a = a; b = b })
  let other = do again ← store n a i (f.mul d_i e_i); some (record s { a = again })
  if f.lt (f.lit 0 1) new_a then positive else other

unfoldable pub s276_body : (f : Floats) → ℕ → ℕ → Memory f → Option (Memory f)
s276_body f n i s = do
  let mid = n / 2
  a_i ← load n s.a i
  b_i ← load n s.b i
  let low = load n s.c i
  let high = load n s.d i
  factor ← if ltb (i + 1) mid then low else high
  a ← store n s.a i (f.add a_i (f.mul b_i factor))
  some (record s { a = a })

unfoldable pub s278_body : (f : Floats) → ℕ → ℕ → Memory f → Option (Memory f)
s278_body f n i s = do
  a_i ← load n s.a i
  d_i ← load n s.d i
  e_i ← load n s.e i
  let positive = do
    c_i ← load n s.c i
    c ← store n s.c i (f.add (f.neg c_i) (f.mul d_i e_i))
    some (record s { c = c })
  let other = do
    b_i ← load n s.b i
    b ← store n s.b i (f.add (f.neg b_i) (f.mul d_i e_i))
    some (record s { b = b })
  t ← if f.lt (f.lit 0 1) a_i then positive else other
  b_i ← load n t.b i
  c_i ← load n t.c i
  a ← store n t.a i (f.add b_i (f.mul c_i d_i))
  some (record t { a = a })

unfoldable pub s441_body : (f : Floats) → ℕ → ℕ → Memory f → Option (Memory f)
s441_body f n i s = do
  d_i ← load n s.d i
  a_i ← load n s.a i
  b_i ← load n s.b i
  c_i ← load n s.c i
  let negative = store n s.a i (f.add a_i (f.mul b_i c_i))
  let zero_d = store n s.a i (f.add a_i (f.mul b_i b_i))
  let other = store n s.a i (f.add a_i (f.mul c_i c_i))
  a ← if f.lt d_i (f.lit 0 1) then negative else if f.eq d_i (f.lit 0 1) then zero_d else other
  some (record s { a = a })

unfoldable pub s443_body : (f : Floats) → ℕ → ℕ → Memory f → Option (Memory f)
s443_body f n i s = do
  d_i ← load n s.d i
  a_i ← load n s.a i
  b_i ← load n s.b i
  let low = load n s.c i >>= λ c_i. store n s.a i (f.add a_i (f.mul b_i c_i))
  let high = store n s.a i (f.add a_i (f.mul b_i b_i))
  a ← if f.le d_i (f.lit 0 1) then low else high
  some (record s { a = a })

unfoldable pub s1279_body : (f : Floats) → ℕ → ℕ → Memory f → Option (Memory f)
s1279_body f n i s = do
  a_i ← load n s.a i
  let below = do
    b_i ← load n s.b i
    let above = do
      c_i ← load n s.c i
      d_i ← load n s.d i
      e_i ← load n s.e i
      c ← store n s.c i (f.add c_i (f.mul d_i e_i))
      some (record s { c = c })
    if f.lt a_i b_i then above else some s
  if f.lt a_i (f.lit 0 1) then below else some s

unfoldable pub s2710_body : (f : Floats) → ℕ → ℕ → Memory f → Option (Memory f)
s2710_body f n i s = do
  a_i ← load n s.a i
  b_i ← load n s.b i
  let above = do
    d_i ← load n s.d i
    a ← store n s.a i (f.add a_i (f.mul b_i d_i))
    let long = load n s.c i >>= λ c_i. store n s.c i (f.add c_i (f.mul d_i d_i))
    let short = load n s.e i >>= λ e_i. store n s.c i (f.add (f.mul d_i e_i) (f.lit 1 1))
    c ← if ltb 10 n then long else short
    some (record s { a = a; c = c })
  let other = do
    e_i ← load n s.e i
    b ← store n s.b i (f.add a_i (f.mul e_i e_i))
    let positive = load n s.d i >>= λ d_i. store n s.c i (f.add a_i (f.mul d_i d_i))
    let negative = load n s.c i >>= λ c_i. store n s.c i (f.add c_i (f.mul e_i e_i))
    c ← if f.lt (f.lit 0 1) (f.of_nat 1) then positive else negative
    some (record s { b = b; c = c })
  if f.lt b_i a_i then above else other

-- `high` is the code at L20, and the rest of the iteration is that at L30.
unfoldable pub s279_body : (f : Floats) → ℕ → ℕ → Memory f → Option (Memory f)
s279_body f n i s = do
  a_i ← load n s.a i
  let high = do
    c_i ← load n s.c i
    e_i ← load n s.e i
    c ← store n s.c i (f.add (f.neg c_i) (f.mul e_i e_i))
    some (record s { c = c })
  let low = do
    b_i ← load n s.b i
    d_i ← load n s.d i
    b ← store n s.b i (f.add (f.neg b_i) (f.mul d_i d_i))
    new_b_i ← load n b i
    let above = do
      c_i ← load n s.c i
      e_i ← load n s.e i
      c ← store n s.c i (f.add c_i (f.mul d_i e_i))
      some (record s { b = b; c = c })
    if f.le new_b_i a_i then some (record s { b = b }) else above
  t ← if f.lt (f.lit 0 1) a_i then high else low
  b_i ← load n t.b i
  c_i ← load n t.c i
  d_i ← load n t.d i
  a ← store n t.a i (f.add b_i (f.mul c_i d_i))
  some (record t { a = a })
