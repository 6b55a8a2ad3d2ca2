-- ===== src/Harness/Verdict.antt =====
-- The programs around a workload with a verdict: main_harness.c, main_harness_gem5.c, main_harness_t1.c,
-- main_harness_vicuna.c, main_harness_xiangshan.c and main_harness_rtl.c of emulator/run/common. The
-- counter before and after the workload, what it returns, and whether `workload_verify` is not 0, are
-- arguments; `buf` is what the printer's buffer held.
pub mod Log
use Prim.Native.Char.{code}
use Prim.Native.String.{String}
use vectorizer_experiments.Base.{
  ℕ, ◌+◌, ◌-◌, ◌%◌, ◌^◌, Bool, Option, some, ◌>>=◌, List, [], ◌∷◌, ◌++◌, ◌==◌, ◌&&◌, if◌then◌else◌,
  Cells,
}
use vectorizer_experiments.Harness.Decimal.{print_dec, write_dec, uart_print_u64}

-- A literal, as what is printed of it.
abbrev pub text : String → List ℕ
text String.[] = []
text (String.◌∷◌ c s) = code c ∷ text s

-- `end - start` on w bits, of two counter values of w bits.
abbrev pub elapsed : ℕ → ℕ → ℕ → ℕ
elapsed w start end = (end % 2 ^ w + 2 ^ w - start % 2 ^ w) % 2 ^ w

-- What a workload leaves to its harness.
pub record Run : Type 0 where
  pub start : ℕ
  pub rc : ℕ
  pub end : ℕ
  pub verify : Bool

abbrev pub ok : Run → Bool
ok run = run.rc == 0 && run.verify

-- What a simulation shows: the characters, and the value that ends it.
pub record Shown : Type 0 where
  pub output : List ℕ
  pub status : ℕ

abbrev verdict : Run → List ℕ
verdict run = if ok run then text "PASSED\n" else text "FAILED\n"

abbrev report : String → Run → List ℕ → List ℕ
report prefix run digits = text prefix ++ (digits ++ (text "\n" ++ verdict run))

-- main_harness.c: the value is that of `tohost`.
unfoldable pub main_harness : Cells → Run → Option Shown
main_harness buf run = do
  digits ← print_dec 24 buf (elapsed 64 run.start run.end)
  some (record { output = report "cycles=" run digits; status = if ok run then 1 else 3 })

-- main_harness_gem5.c: the value is the exit code.
unfoldable pub main_harness_gem5 : Cells → Run → Option Shown
main_harness_gem5 buf run = do
  digits ← write_dec buf (elapsed 64 run.start run.end)
  some (record { output = report "cycles=" run digits; status = if ok run then 0 else 1 })

-- main_harness_vicuna.c counts on 32 bits; the value is the exit code.
unfoldable pub main_harness_vicuna : Cells → Run → Option Shown
main_harness_vicuna buf run = do
  digits ← print_dec 12 buf (elapsed 32 run.start run.end)
  some (record { output = report "cycles=" run digits; status = if ok run then 0 else 1 })

-- main_harness_t1.c counts on 32 bits, and `test` returns nothing.
unfoldable pub main_harness_t1 : Cells → Run → Option (List ℕ)
main_harness_t1 buf run = do
  digits ← print_dec 12 buf (elapsed 32 run.start run.end)
  some (report "cycles=" run digits)

-- main_harness_xiangshan.c: the value is that of `nemu_trap`.
unfoldable pub main_harness_xiangshan : Cells → Run → Option Shown
main_harness_xiangshan buf run = do
  digits ← uart_print_u64 buf (elapsed 64 run.start run.end)
  some (record { output = report "KC=" run digits; status = if ok run then 0 else 1 })

-- main_harness_rtl.c prints nothing: `measured_cycles` and `tohost`.
unfoldable pub main_harness_rtl : Run → ℕ × ℕ
main_harness_rtl run = (elapsed 64 run.start run.end, if ok run then 1 else 3)
