-- ===== src/Harness/Decimal/Printed.antt =====
-- Every printer writes the decimal string of its number.
use vectorizer_experiments.Base.{
  ℕ, zero, suc, ◌+◌, ◌-◌, ◌/◌, ◌%◌, ◌^◌, ◌<◌, ◌≤◌, ◌≡◌, refl, sym, ◌∙◌, ap, fun_ext, inl, inr, true,
  false, some, ◌>>=◌, List, [], ◌∷◌, ltb, ◌==◌, arith, Bool-cases, Cells, update, update_lem,
  update_self, load, store, load-some, store-some, Ensures, Ensures-some,
}
use vectorizer_experiments.Harness.Decimal.{
  digit, fill, print_str, print_dec, fill_inside, write_str, write_dec, fill_up, emit_down,
  uart_print_u64,
}
use vectorizer_experiments.Harness.Decimal.Digits.{
  length, digits, decimal, read, read-decimal, AllDigits, decimal-AllDigits,
}

-- The buffer holds the string from i on.
abbrev Holds : Cells → ℕ → List ℕ → Type 0
Holds buf i [] = Unit
Holds buf i (c ∷ cs) = (buf i ≡ c) × (0 < c) × Holds buf (i + 1) cs

Holds-update :
    (buf : Cells) (j v i : ℕ) (out : List ℕ)
    → j < i
    → Holds buf i out
    → Holds (update buf j v) i out
Holds-update buf j v i [] lt h = tt
Holds-update buf j v i (c ∷ cs) lt h = (
  ground (arith, update_lem buf j i v, h.0),
  h.1,
  Holds-update buf j v (i + 1) cs (omega arith) h.2,
)

-- What the loop has written: the string reaches from the first free place to the end.
record Filled (end : ℕ) (out : List ℕ) (r : ℕ × Cells) : Type 0 where
  reach : r.0 + length out ≡ end
  holds : Holds r.1 r.0 out
  ends : r.1 end ≡ 0

tenth-lt : (n k : ℕ) → n < 10 ^ suc k → n / 10 < 10 ^ k
tenth-lt n k lt = omega arith

-- One more digit in front.
Filled-cons :
    (end n k : ℕ) (buf : Cells) (out : List ℕ)
    → Filled end out (suc k, buf)
    → Filled end (digit n ∷ out) (k, update buf k (digit n))
Filled-cons end n k buf out h =
    let next : k + 1 ≡ suc k = omega arith in
    record {
      reach = omega (arith, h.reach);
      holds = (
        ground (arith, update_lem buf k k (digit n)),
        omega arith,
        rw next (Holds-update buf k (digit n) (suc k) out (omega arith) h.holds),
      );
      ends = ground (arith, h.reach, h.ends, update_lem buf k end (digit n));
    }

fill-Filled :
    (len fuel n free : ℕ) (buf : Cells) (out : List ℕ)
    → n < fuel
    → n < 10 ^ free
    → Filled (len - 1) out (free, buf)
    → 0 < len
    → Ensures (fill fuel len n free buf) (Filled (len - 1) (digits fuel n out))
unfolding fill digits
fill-Filled len zero n free buf out enough fits h pos = absurd (omega arith)
fill-Filled len (suc fuel) n zero buf out enough fits h pos =
    let none_left : ltb 0 n ≡ false = ground arith in rw none_left (Ensures-some _ _ h)
fill-Filled len (suc fuel) n (suc k) buf out enough fits h pos = elim (Bool-cases (ltb 0 n)) [
  | inl more ↦
      let back : suc k - 1 ≡ k = omega arith in
      let inside : k < len = omega (arith, h.reach) in
      let free_pos : ltb 0 (suc k) ≡ true = ground arith in
      rw (more, free_pos, back, store-some len buf k (digit n) inside)
        (fill-Filled len fuel (n / 10) k (update buf k (digit n)) (digit n ∷ out) (ground arith)
          (tenth-lt n k fits) (Filled-cons (len - 1) n k buf out h) pos)
  | inr none_left ↦ rw none_left (Ensures-some _ _ h)
]

print_str-some :
    (fuel len : ℕ) (buf : Cells) (i : ℕ) (out : List ℕ)
    → Holds buf i out
    → i + length out ≡ len - 1
    → buf (len - 1) ≡ 0
    → 0 < len
    → length out < fuel
    → print_str fuel len buf i ≡ some out
unfolding print_str
print_str-some zero len buf i out h reach ends pos enough = absurd (omega arith)
print_str-some (suc fuel) len buf i [] h reach ends pos enough =
    let here : i ≡ len - 1 = omega arith in rw (load-some len buf i (omega arith), here, ends)
print_str-some (suc fuel) len buf i (c ∷ cs) h reach ends pos enough =
    let go_on : (c == 0) ≡ false = ground (arith, h.1) in
    rw (
      load-some len buf i (omega (arith, reach)),
      h.0,
      go_on,
      print_str-some fuel len buf (i + 1) cs h.2 (omega (arith, reach)) ends pos (omega arith),
    )

ended-Filled :
    (len : ℕ) (buf : Cells) → 2 ≤ len → Filled (len - 1) [] (len - 1, update buf (len - 1) 0)
ended-Filled len buf room = record {
  reach = omega arith;
  holds = tt;
  ends = ground (arith, update_lem buf (len - 1) (len - 1) 0);
}

zero-Filled :
    (len : ℕ) (buf : Cells)
    → 2 ≤ len
    → Filled (len - 1) (48 ∷ []) (len - 2, update (update buf (len - 1) 0) (len - 2) 48)
zero-Filled len buf room =
    let next : suc (len - 2) ≡ len - 1 = omega arith in
    Filled-cons (len - 1) 0 (len - 2) (update buf (len - 1) 0) []
      (rw next (ended-Filled len buf room))

-- Where the buffer has a place for every digit and one for the zero, `print_dec` writes the decimal
-- string.
pub print_dec-decimal :
    (len : ℕ) (buf : Cells) (n : ℕ)
    → 2 ≤ len
    → n < 10 ^ (len - 1)
    → print_dec len buf n ≡ some (decimal n)
unfolding print_dec decimal
print_dec-decimal len buf n room fits =
    let first = ended-Filled len buf room in
    let last : len - 1 < len = omega arith in
    elim (Bool-cases (n == 0)) [
      | inl none_left ↦
          let h = zero-Filled len buf room in
          rw
            (
              store-some len buf (len - 1) 0 last,
              none_left,
              store-some len (update buf (len - 1) 0) (len - 2) 48 (omega arith),
            )
            (print_str-some (suc len) len _ (len - 2) (48 ∷ []) h.holds h.reach h.ends (omega arith)
              (omega arith))
      | inr some_left ↦
          let h =
            fill-Filled len (suc n) n (len - 1) (update buf (len - 1) 0) [] (omega arith) fits first
              (omega arith) in
          rw (store-some len buf (len - 1) 0 last, some_left, h.returns)
            (print_str-some (suc len) len h.value.1 h.value.0 (digits (suc n) n []) h.holds.holds
              h.holds.reach h.holds.ends (omega arith) (omega (arith, h.holds.reach)))
    ]

-- The bound of `write_dec` is never met.
fill_inside-fill :
    (len fuel n free : ℕ) (buf : Cells)
    → n < 10 ^ free
    → fill_inside fuel len n free buf ≡ fill fuel len n free buf
unfolding fill_inside fill
fill_inside-fill len zero n free buf fits = refl
fill_inside-fill len (suc fuel) n zero buf fits = ground arith
fill_inside-fill len (suc fuel) n (suc k) buf fits = elim (Bool-cases (ltb 0 n)) [
  | inl more ↦
      let back : suc k - 1 ≡ k = omega arith in
      let free_pos : ltb 0 (suc k) ≡ true = ground arith in
      rw (more, free_pos, back)
        (ap (λ f. store len buf k (digit n) >>= f)
          (fun_ext (λ b. fill_inside-fill len fuel (n / 10) k b (tenth-lt n k fits))))
  | inr none_left ↦ rw none_left
]

write_str-some :
    (len : ℕ) (buf : Cells) (i : ℕ) (out : List ℕ)
    → Holds buf i out
    → i + length out < len
    → write_str len buf i (length out) ≡ some out
unfolding write_str
write_str-some len buf i [] h lt = refl
write_str-some len buf i (c ∷ cs) h lt =
    rw (load-some len buf i (omega arith), h.0, write_str-some len buf (i + 1) cs h.2 (omega arith))

-- `write_dec` writes the decimal string of every value below 10^31.
pub write_dec-decimal : (buf : Cells) (n : ℕ) → n < 10 ^ 31 → write_dec buf n ≡ some (decimal n)
unfolding write_dec decimal
write_dec-decimal buf n fits = elim (Bool-cases (n == 0)) [
  | inl none_left ↦
      let h = zero-Filled 32 buf (omega arith) in
      rw
        (
          store-some 32 buf 31 0 (omega arith),
          none_left,
          store-some 32 (update buf 31 0) 30 48 (omega arith),
        )
        (write_str-some 32 _ 30 (48 ∷ []) h.holds (omega arith))
  | inr some_left ↦
      let h =
        fill-Filled 32 (suc n) n 31 (update buf 31 0) [] (omega arith) fits
          (ended-Filled 32 buf (omega arith)) (omega arith) in
      let count : 31 - h.value.0 ≡ length (digits (suc n) n []) = omega (arith, h.holds.reach) in
      rw
        (
          store-some 32 buf 31 0 (omega arith),
          some_left,
          fill_inside-fill 32 (suc n) n 31 (update buf 31 0) fits,
          h.returns,
          count,
        )
        (write_str-some 32 h.value.1 h.value.0 (digits (suc n) n []) h.holds.holds
          (omega (arith, h.holds.reach)))
]

emit_down-update :
    (buf : Cells) (j v i : ℕ) → i ≤ j → emit_down i (update buf j v) ≡ emit_down i buf
unfolding emit_down load
emit_down-update buf j v zero le = refl
emit_down-update buf j v (suc i) le =
    let same : update buf j v i ≡ buf i = ground (arith, update_lem buf j i v) in
    rw (same, emit_down-update buf j v i (omega arith))

-- The digits in the order in which `uart_print_u64` emits them.
fill_up-some :
    (fuel n i room : ℕ) (buf : Cells) (out : List ℕ)
    → n < fuel
    → n < 10 ^ room
    → i + room ≡ 20
    → emit_down i buf ≡ some out
    → (fill_up fuel n i buf >>= λ r. emit_down r.0 r.1) ≡ some (digits fuel n out)
unfolding fill_up digits emit_down
fill_up-some zero n i room buf out enough fits all h = absurd (omega arith)
fill_up-some (suc fuel) n i zero buf out enough fits all h =
    let none_left : ltb 0 n ≡ false = ground arith in rw (none_left, h)
fill_up-some (suc fuel) n i (suc k) buf out enough fits all h = elim (Bool-cases (ltb 0 n)) [
  | inl more ↦
      let inside : i < 20 = omega arith in
      let new = update buf i (digit n) in
      let next : i + 1 ≡ suc i = omega arith in
      rw (more, store-some 20 buf i (digit n) inside)
        (fill_up-some fuel (n / 10) (i + 1) k new (digit n ∷ out) (ground arith) (tenth-lt n k fits)
          (omega arith)
          (rw (
            next,
            load-some 20 new i inside,
            emit_down-update buf i (digit n) i (omega arith),
            h,
            update_self buf i (digit n),
          )))
  | inr none_left ↦ rw (none_left, h)
]

-- `uart_print_u64` emits the decimal string of every value below 10^20.
pub uart_print_u64-decimal :
    (buf : Cells) (n : ℕ) → n < 10 ^ 20 → uart_print_u64 buf n ≡ some (decimal n)
unfolding uart_print_u64 decimal emit_down
uart_print_u64-decimal buf n fits = elim (Bool-cases (n == 0)) [
  | inl none_left ↦ rw none_left
  | inr some_left ↦
      rw (some_left, fill_up-some (suc n) n 0 20 buf [] (omega arith) fits (omega arith) refl)
]

-- For a number below 2^64 and any contents of the buffer, `print_dec` with 24 characters returns,
-- stays inside its buffer, and prints digits only, which read as the number; `write_dec` and
-- `uart_print_u64` print the same; and `print_dec` with 12 characters prints the same for a number on
-- 32 bits.
pub printers-read :
    (buf : Cells) (n : ℕ)
    → n < 2 ^ 64
    → Ensures (print_dec 24 buf n) (λ out. (read 0 out ≡ n) × AllDigits out)
      × (write_dec buf n ≡ print_dec 24 buf n)
      × (uart_print_u64 buf n ≡ print_dec 24 buf n)
      × (print_dec 12 buf (n % 2 ^ 32) ≡ print_dec 24 buf (n % 2 ^ 32))
printers-read buf n fits =
    let here = print_dec-decimal 24 buf n (omega arith) (omega arith) in
    rw here (
      Ensures-some _ _ (read-decimal n, decimal-AllDigits n),
      write_dec-decimal buf n (omega arith),
      uart_print_u64-decimal buf n (omega arith),
      print_dec-decimal 12 buf (n % 2 ^ 32) (omega arith) (omega arith)
          ∙ sym (print_dec-decimal 24 buf (n % 2 ^ 32) (omega arith) (omega arith)),
    )
