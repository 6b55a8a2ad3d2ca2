-- ===== src/Harness/Verdict/Log.antt =====
-- The log of a run, read back.
use Prim.Native.String.{String}
use vectorizer_experiments.Base.{
  ℕ, ◌+◌, ◌-◌, ◌*◌, ◌^◌, ◌<◌, ◌≡◌, ◌↔◌, ◌%◌, refl, Bool, true, false, Option, none, some, ◌>>=◌,
  List, [], ◌∷◌, ◌++◌, ◌==◌, leb, ◌&&◌, if◌then◌else◌, arith, Cells, Ensures, Ensures-some,
}
use vectorizer_experiments.Harness.Decimal.Digits.{
  decimal, read, read-decimal, AllDigits, decimal-AllDigits,
}
use vectorizer_experiments.Harness.Decimal.Printed.{
  print_dec-decimal, write_dec-decimal, uart_print_u64-decimal,
}
use vectorizer_experiments.Harness.Verdict.{
  text, elapsed, Run, ok, Shown, main_harness, main_harness_gem5, main_harness_vicuna,
  main_harness_t1, main_harness_xiangshan,
}

-- A text without its prefix.
unfoldable pub strip : List ℕ → List ℕ → Option (List ℕ)
strip [] s = some s
strip (p ∷ ps) [] = none
strip (p ∷ ps) (c ∷ s) = let rest = strip ps s in if p == c then rest else none

-- A number at the start of a text, and the rest.
unfoldable pub scan : ℕ → List ℕ → ℕ × List ℕ
scan acc [] = (acc, [])
scan acc (c ∷ s) =
    let rest = scan (10 * acc + (c - 48)) s in if leb 48 c && leb c 57 then rest else (acc, c ∷ s)

unfoldable pub same_text : List ℕ → List ℕ → Bool
same_text [] [] = true
same_text [] (d ∷ t) = false
same_text (c ∷ s) [] = false
same_text (c ∷ s) (d ∷ t) = let rest = same_text s t in c == d && rest

-- The cycles and the verdict in a log: the prefix, a number, a line end, and one of two words.
unfoldable pub parse_log : String → List ℕ → Option (ℕ × Bool)
parse_log prefix log = do
  s ← strip (text prefix) log
  let r = scan 0 s
  if same_text r.1 (text "\nPASSED\n")
      then some (r.0, true)
      else if same_text r.1 (text "\nFAILED\n")
      then some (r.0, false)
      else none

strip-append : (p s : List ℕ) → strip p (p ++ s) ≡ some s
unfolding strip
strip-append [] s = refl
strip-append (c ∷ p) s = ground (arith, strip-append p s)

scan-digits :
    (acc : ℕ) (ds s : List ℕ) → AllDigits ds → scan acc (ds ++ (10 ∷ s)) ≡ (read acc ds, 10 ∷ s)
unfolding scan read
scan-digits acc [] s h = refl
scan-digits acc (d ∷ ds) s h = ground (arith, scan-digits (10 * acc + (d - 48)) ds s h.2, h.0, h.1)

-- A report reads back as its number and its verdict.
report-parse :
    (prefix : String) (n : ℕ) (passed : Bool)
    → parse_log prefix (
        text prefix
        ++ (decimal n ++ (text "\n" ++ (if passed then text "PASSED\n" else text "FAILED\n"))))
      ≡ some (n, passed)
unfolding parse_log same_text
report-parse prefix n true = rw (
  strip-append (text prefix) (decimal n ++ (text "\n" ++ text "PASSED\n")),
  scan-digits 0 (decimal n) (text "PASSED\n") (decimal-AllDigits n),
  read-decimal n,
)
report-parse prefix n false = rw (
  strip-append (text prefix) (decimal n ++ (text "\n" ++ text "FAILED\n")),
  scan-digits 0 (decimal n) (text "FAILED\n") (decimal-AllDigits n),
  read-decimal n,
)

-- What a log says of a run: the number of cycles below 2^w that leads from the first counter value to
-- the second, and a verdict, `PASSED` just for a workload that returned 0 and was verified.
pub record IsReading (w : ℕ) (run : Run) (cycles : ℕ) (passed : Bool) : Type 0 where
  pub small : cycles < 2 ^ w
  pub between : (run.start + cycles) % 2 ^ w ≡ run.end % 2 ^ w
  pub verdict : (passed ≡ true) ↔ ((run.rc ≡ 0) × (run.verify ≡ true))

elapsed_64 : (start end : ℕ) → (start + elapsed 64 start end) % 2 ^ 64 ≡ end % 2 ^ 64
elapsed_64 start end = omega arith

elapsed_32 : (start end : ℕ) → (start + elapsed 32 start end) % 2 ^ 32 ≡ end % 2 ^ 32
elapsed_32 start end = omega arith

ok_lem : (rc : ℕ) (verify : Bool) → ((rc == 0 && verify) ≡ true) ↔ ((rc ≡ 0) × (verify ≡ true))
ok_lem rc verify = (λ h. (ground arith, ground arith), λ h. ground (arith, h.0, h.1))

-- A reading, from the log of the run.
abbrev pub Logs : (prefix : String) (w : ℕ) → Run → List ℕ → ℕ → Bool → Type 0
Logs prefix w run log cycles passed =
    (parse_log prefix log ≡ some (cycles, passed)) × IsReading w run cycles passed

-- A log and a value that tell how long a run took and whether it passed.
abbrev pub Tells : (prefix : String) (w good bad : ℕ) → Run → Shown → Type 0
Tells prefix w good bad run r =
    (cycles : ℕ) × (passed : Bool) × Logs prefix w run r.output cycles passed
    × (r.status ≡ (if passed then good else bad))

abbrev pub TellsLog : (prefix : String) (w : ℕ) → Run → List ℕ → Type 0
TellsLog prefix w run log = (cycles : ℕ) × (passed : Bool) × Logs prefix w run log cycles passed

module _ (buf : Cells) (run : Run) where
  elapsed_64-IsReading : IsReading 64 run (elapsed 64 run.start run.end) (ok run)
  elapsed_64-IsReading = record {
    small = omega arith;
    between = elapsed_64 run.start run.end;
    verdict = ok_lem run.rc run.verify;
  }

  elapsed_32-IsReading : IsReading 32 run (elapsed 32 run.start run.end) (ok run)
  elapsed_32-IsReading = record {
    small = omega arith;
    between = elapsed_32 run.start run.end;
    verdict = ok_lem run.rc run.verify;
  }

  main_harness-Tells : Ensures (main_harness buf run) (Tells "cycles=" 64 1 3 run)
  unfolding main_harness
  main_harness-Tells =
      let n = elapsed 64 run.start run.end in
      rw (print_dec-decimal 24 buf n (omega arith) (omega arith)) (
        Ensures-some _ _
          (n, ok run, (report-parse "cycles=" n (ok run), elapsed_64-IsReading), refl))

  main_harness_gem5-Tells : Ensures (main_harness_gem5 buf run) (Tells "cycles=" 64 0 1 run)
  unfolding main_harness_gem5
  main_harness_gem5-Tells =
      let n = elapsed 64 run.start run.end in
      rw (write_dec-decimal buf n (omega arith)) (
        Ensures-some _ _
          (n, ok run, (report-parse "cycles=" n (ok run), elapsed_64-IsReading), refl))

  main_harness_vicuna-Tells : Ensures (main_harness_vicuna buf run) (Tells "cycles=" 32 0 1 run)
  unfolding main_harness_vicuna
  main_harness_vicuna-Tells =
      let n = elapsed 32 run.start run.end in
      rw (print_dec-decimal 12 buf n (omega arith) (omega arith)) (
        Ensures-some _ _
          (n, ok run, (report-parse "cycles=" n (ok run), elapsed_32-IsReading), refl))

  main_harness_xiangshan-Tells : Ensures (main_harness_xiangshan buf run) (Tells "KC=" 64 0 1 run)
  unfolding main_harness_xiangshan
  main_harness_xiangshan-Tells =
      let n = elapsed 64 run.start run.end in
      rw (uart_print_u64-decimal buf n (omega arith))
        (Ensures-some _ _ (n, ok run, (report-parse "KC=" n (ok run), elapsed_64-IsReading), refl))

  main_harness_t1-TellsLog : Ensures (main_harness_t1 buf run) (TellsLog "cycles=" 32 run)
  unfolding main_harness_t1
  main_harness_t1-TellsLog =
      let n = elapsed 32 run.start run.end in
      rw (print_dec-decimal 12 buf n (omega arith) (omega arith))
        (Ensures-some _ _ (n, ok run, (report-parse "cycles=" n (ok run), elapsed_32-IsReading)))

  -- Whatever the buffer of the printer held and whatever a run did, the five main programs that
  -- print return, without a fault; the text of each, read back, gives a number of cycles below
  -- 2^64, or 2^32 for Vicuna and T1, that leads from the first counter value to the second on that
  -- many bits, and a verdict that is `PASSED` if and only if the workload returned 0 and was
  -- verified; and the value that ends the simulation, which T1 does not have, is the one for that
  -- verdict (`tohost` 1 or 3, else 0 or 1).
  pub harness-logs :
      Ensures (main_harness buf run) (Tells "cycles=" 64 1 3 run)
      × Ensures (main_harness_gem5 buf run) (Tells "cycles=" 64 0 1 run)
      × Ensures (main_harness_vicuna buf run) (Tells "cycles=" 32 0 1 run)
      × Ensures (main_harness_xiangshan buf run) (Tells "KC=" 64 0 1 run)
      × Ensures (main_harness_t1 buf run) (TellsLog "cycles=" 32 run)
  harness-logs = (
    main_harness-Tells, main_harness_gem5-Tells, main_harness_vicuna-Tells,
    main_harness_xiangshan-Tells, main_harness_t1-TellsLog,
  )
