-- ===== src/Harness/Decimal.antt =====
-- The printers of cycle counts: `print_dec` of harness.c, main_harness.c and, on 32 bits, of the harnesses
-- of T1 and Vicuna; `write_dec` of the gem5 harnesses; `uart_print_u64` of the XiangShan harnesses, all in
-- emulator/run/common. A character is its code.
pub mod Digits
pub mod Printed
use vectorizer_experiments.Base.{
  ℕ, zero, suc, ◌+◌, ◌-◌, ◌/◌, ◌%◌, Option, none, some, ◌>>=◌, ◌>>◌, guard, List, [], ◌∷◌, ltb,
  ◌==◌, ◌&&◌, if◌then◌else◌, Cells, load, store,
}

-- `'0' + n % 10`.
abbrev pub digit : ℕ → ℕ
digit n = 48 + n % 10

-- while (n > 0) { buf[i--] = '0' + (n % 10); n /= 10; }, with `free` for i + 1: the index has not gone below
-- the buffer, or the access is a fault.
unfoldable pub fill : ℕ → ℕ → ℕ → ℕ → Cells → Option (ℕ × Cells)
fill zero len n free buf = none
fill (suc fuel) len n free buf =
    let round =
      guard (ltb 0 free)
      >> (store len buf (free - 1) (digit n) >>= λ b. fill fuel len (n / 10) (free - 1) b) in
    if ltb 0 n then round else some (free, buf)

-- `print_str(&buf[i])`: the characters up to the zero.
unfoldable pub print_str : ℕ → ℕ → Cells → ℕ → Option (List ℕ)
print_str zero len buf i = none
print_str (suc fuel) len buf i = load len buf i >>= λ c.
    let rest = print_str fuel len buf (i + 1) >>= λ cs. some (c ∷ cs) in
    if c == 0 then some [] else rest

-- `print_dec` with a buffer of `len` characters: 24 for 64 bits, 12 for 32 bits.
unfoldable pub print_dec : ℕ → Cells → ℕ → Option (List ℕ)
print_dec len buf n = do
  ended ← store len buf (len - 1) 0
  let zero_digit = store len ended (len - 2) 48 >>= λ b. some (len - 2, b)
  let digits = fill (suc n) len n (len - 1) ended
  r ← if n == 0 then zero_digit else digits
  print_str (suc len) len r.1 r.0

-- The loop of `write_dec`, which stops at the start of the buffer.
unfoldable pub fill_inside : ℕ → ℕ → ℕ → ℕ → Cells → Option (ℕ × Cells)
fill_inside zero len n free buf = none
fill_inside (suc fuel) len n free buf =
    let round =
      store len buf (free - 1) (digit n) >>= λ b. fill_inside fuel len (n / 10) (free - 1) b in
    if ltb 0 n && ltb 0 free then round else some (free, buf)

-- `write_str(&buf[i], count)`.
unfoldable pub write_str : ℕ → Cells → ℕ → ℕ → Option (List ℕ)
write_str len buf i zero = some []
write_str len buf i (suc count) =
    load len buf i >>= λ c. write_str len buf (i + 1) count >>= λ cs. some (c ∷ cs)

unfoldable pub write_dec : Cells → ℕ → Option (List ℕ)
write_dec buf value = do
  ended ← store 32 buf 31 0
  let zero_digit = store 32 ended 30 48 >>= λ b. some (30, b)
  let digits = fill_inside (suc value) 32 value 31 ended
  r ← if value == 0 then zero_digit else digits
  write_str 32 r.1 r.0 (31 - r.0)

-- The loops of `uart_print_u64`: the digits from the last to the first, then back.
unfoldable pub fill_up : ℕ → ℕ → ℕ → Cells → Option (ℕ × Cells)
fill_up zero val i buf = none
fill_up (suc fuel) val i buf =
    let round = store 20 buf i (digit val) >>= λ b. fill_up fuel (val / 10) (i + 1) b in
    if ltb 0 val then round else some (i, buf)

unfoldable pub emit_down : ℕ → Cells → Option (List ℕ)
emit_down zero buf = some []
emit_down (suc i) buf = load 20 buf i >>= λ c. emit_down i buf >>= λ cs. some (c ∷ cs)

unfoldable pub uart_print_u64 : Cells → ℕ → Option (List ℕ)
uart_print_u64 buf val =
    let digits = fill_up (suc val) val 0 buf >>= λ r. emit_down r.0 r.1 in
    if val == 0 then some (48 ∷ []) else digits
