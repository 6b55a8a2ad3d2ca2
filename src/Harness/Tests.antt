-- ===== src/Harness/Tests.antt =====
-- Prints, and the theorems at one run.
use vectorizer_experiments.Base.{
  ◌%◌, ◌^◌, ◌≡◌, refl, true, some, [], ◌∷◌, arith, Cells, Ensures, update, load, store,
}
use vectorizer_experiments.Harness.Decimal.{fill, print_str, print_dec, write_dec, uart_print_u64}
use vectorizer_experiments.Harness.Decimal.Digits.{read, AllDigits}
use vectorizer_experiments.Harness.Decimal.Printed.{printers-read}
use vectorizer_experiments.Harness.Verdict.{
  Run, main_harness, main_harness_gem5, main_harness_vicuna, main_harness_xiangshan,
  main_harness_t1,
}
use vectorizer_experiments.Harness.Verdict.Log.{Tells, TellsLog, harness-logs}

abbrev garbage : Cells
garbage = λ i. 170

print_dec_runs : print_dec 24 garbage 407 ≡ some (52 ∷ 48 ∷ 55 ∷ [])
unfolding print_dec fill print_str load store update
print_dec_runs = refl

printers-read_example :
    Ensures (print_dec 24 garbage 407) (λ out. (read 0 out ≡ 407) × AllDigits out)
    × (write_dec garbage 407 ≡ print_dec 24 garbage 407)
    × (uart_print_u64 garbage 407 ≡ print_dec 24 garbage 407)
    × (print_dec 12 garbage (407 % 2 ^ 32) ≡ print_dec 24 garbage (407 % 2 ^ 32))
printers-read_example = printers-read garbage 407 (omega arith)

abbrev passing : Run
passing = record { start = 1000; rc = 0; end = 1407; verify = true }

harness-logs_example :
    Ensures (main_harness garbage passing) (Tells "cycles=" 64 1 3 passing)
    × Ensures (main_harness_gem5 garbage passing) (Tells "cycles=" 64 0 1 passing)
    × Ensures (main_harness_vicuna garbage passing) (Tells "cycles=" 32 0 1 passing)
    × Ensures (main_harness_xiangshan garbage passing) (Tells "KC=" 64 0 1 passing)
    × Ensures (main_harness_t1 garbage passing) (TellsLog "cycles=" 32 passing)
harness-logs_example = harness-logs garbage passing
