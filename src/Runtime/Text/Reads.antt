-- ===== src/Runtime/Text/Reads.antt =====
-- What `strlen`, `strcmp` and `atoi` return for the strings in memory.
use vectorizer_experiments.Base.{
  ℕ, zero, suc, ◌+◌, ◌-◌, ◌*◌, ◌^◌, ◌≤◌, ◌<◌, ◌≡◌, ◌≢◌, ◌↔◌, refl, inl, inr, Bool, true, false,
  some, if◌then◌else◌, ltb, leb, ◌==◌, Cells, List, [], ◌∷◌, ◌++◌, arith, Bool-cases, Ensures,
  Ensures-some,
}
use vectorizer_experiments.Base.Int.{ℤ, pos, sub_ℕ}
use vectorizer_experiments.Harness.Decimal.Digits.{
  length, read, decimal, read-decimal, AllDigits, decimal-AllDigits,
}
use vectorizer_experiments.Runtime.Text.{
  strlen_loop, strlen, strcmp, is_space, skip_spaces, take_digits, atoi,
}

-- The string at an address: bytes that are not zero, then a zero.
abbrev pub Text : Cells → ℕ → List ℕ → Type 0
Text mem p [] = mem p ≡ 0
Text mem p (c ∷ s) = (0 < c) × (mem p ≡ c) × Text mem (p + 1) s

abbrev pub AllSpaces : List ℕ → Type 0
AllSpaces [] = Unit
AllSpaces (c ∷ s) = (is_space c ≡ true) × AllSpaces s

abbrev NoSpace : List ℕ → Type 0
NoSpace [] = Unit
NoSpace (c ∷ s) = is_space c ≡ false

digits-NoSpace : (ds : List ℕ) → AllDigits ds → NoSpace ds
digits-NoSpace [] a = tt
digits-NoSpace (c ∷ ds) a = ground (arith, a.0)

-- A minus or none, and the digits of n.
abbrev pub signed : Bool → ℕ → List ℕ
signed minus n = if minus then 45 ∷ decimal n else decimal n

read-le : (acc : ℕ) (ds : List ℕ) → acc ≤ read acc ds
unfolding read
read-le acc [] = omega arith
read-le acc (c ∷ ds) = omega (arith, read-le (10 * acc + (c - 48)) ds)

-- The difference of the first bytes that differ, with zero for the end.
abbrev order : List ℕ → List ℕ → ℤ
order [] [] = pos 0
order [] (d ∷ t) = sub_ℕ 0 d
order (c ∷ s) [] = sub_ℕ c 0
order (c ∷ s) (d ∷ t) = if c == d then order s t else sub_ℕ c d

sub_ℕ-zero : (a b : ℕ) → sub_ℕ a b ≡ pos 0 → a ≡ b
sub_ℕ-zero a b e = elim (Bool-cases (leb b a)) [
  | inl le ↦ ground (arith, rw le at e)
  | inr lt ↦ absurd (ground (arith, rw lt at e))
]

-- No byte is zero.
abbrev Full : List ℕ → Type 0
Full [] = Unit
Full (c ∷ s) = (0 < c) × Full s

order_refl : (s : List ℕ) → order s s ≡ pos 0
order_refl [] = refl
order_refl (c ∷ s) = ground (arith, order_refl s)

order-zero : (s t : List ℕ) → Full s → Full t → order s t ≡ pos 0 → s ≡ t
order-zero [] [] a b e = refl
order-zero [] (d ∷ t) a b e = let z = sub_ℕ-zero 0 d e in absurd (omega (arith, z, b.0))
order-zero (c ∷ s) [] a b e = let z = sub_ℕ-zero c 0 e in absurd (omega (arith, z, a.0))
order-zero (c ∷ s) (d ∷ t) a b e = elim (Bool-cases (c == d)) [
  | inl same ↦
      let rest = order-zero s t a.1 b.1 (rw same at e) in
      let head : c ≡ d = ground (arith, same) in rw (head, rest) refl
  | inr other ↦ let z = sub_ℕ-zero c d (rw other at e) in absurd (ground (arith, z, other))
]

module _ (mem : Cells) where
  strlen_loop-length :
      (fuel p len : ℕ) (s : List ℕ)
      → Text mem (p + len) s
      → length s < fuel
      → strlen_loop fuel mem p len ≡ some (len + length s)
  unfolding strlen_loop
  strlen_loop-length zero p len s h le = absurd (omega arith)
  strlen_loop-length (suc fuel) p len [] h le =
      let e : len + 0 ≡ len = omega arith in rw (h, e) refl
  strlen_loop-length (suc fuel) p len (c ∷ s) h le =
      let next : p + len + 1 ≡ p + (len + 1) = omega arith in
      let total : len + 1 + length s ≡ len + suc (length s) = omega arith in
      let rest = strlen_loop-length fuel p (len + 1) s (rw next at h.2) (omega arith) in
      let more : (mem (p + len) == 0) ≡ false = ground (arith, h.0, h.1) in
      rw (more, rest, total) refl

  strcmp-order :
      (fuel p q : ℕ) (s t : List ℕ)
      → Text mem p s
      → Text mem q t
      → length s < fuel
      → strcmp fuel mem p q ≡ some (order s t)
  unfolding strcmp
  strcmp-order zero p q s t h k le = absurd (omega arith)
  strcmp-order (suc fuel) p q [] [] h k le = rw (h, k) refl
  strcmp-order (suc fuel) p q [] (d ∷ t) h k le = rw (h, k.1) refl
  strcmp-order (suc fuel) p q (c ∷ s) [] h k le =
      let other : (c == 0) ≡ false = ground (arith, h.0) in rw (h.1, k, other) refl
  strcmp-order (suc fuel) p q (c ∷ s) (d ∷ t) h k le =
      let some_left : (c == 0) ≡ false = ground (arith, h.0) in
      rw (h.1, k.1, some_left)
        elim (Bool-cases (c == d)) [
          | inl e ↦ rw e (strcmp-order fuel (p + 1) (q + 1) s t h.2 k.2 (omega arith))
          | inr e ↦ rw e refl
        ]

  skip_spaces-Text :
      (fuel p : ℕ) (spaces t : List ℕ)
      → AllSpaces spaces
      → NoSpace t
      → Text mem p (spaces ++ t)
      → length spaces < fuel
      → Ensures (skip_spaces fuel mem p) (λ q. Text mem q t)
  unfolding skip_spaces
  skip_spaces-Text zero p spaces t a n h le = absurd (omega arith)
  skip_spaces-Text (suc fuel) p [] [] a n h le = rw h (Ensures-some _ _ h)
  skip_spaces-Text (suc fuel) p [] (c ∷ t) a n h le = rw (h.1, n) (Ensures-some _ _ h)
  skip_spaces-Text (suc fuel) p (c ∷ spaces) t a n h le =
      rw (h.1, a.0) (skip_spaces-Text fuel (p + 1) spaces t a.1 n h.2 (omega arith))

  take_digits-read :
      (fuel p value : ℕ) (ds : List ℕ)
      → AllDigits ds
      → Text mem p ds
      → length ds < fuel
      → read value ds < 2 ^ 31
      → take_digits fuel mem p value ≡ some (read value ds)
  unfolding take_digits read
  take_digits-read zero p value ds a h le fits = absurd (omega arith)
  take_digits-read (suc fuel) p value [] a h le fits = rw h refl
  take_digits-read (suc fuel) p value (c ∷ ds) a h le fits =
      let next : value * 10 + (c - 48) ≡ 10 * value + (c - 48) = omega arith in
      let low : leb 48 c ≡ true = ground (arith, a.0) in
      let high : leb c 57 ≡ true = ground (arith, a.1) in
      let grows = read-le (10 * value + (c - 48)) ds in
      let small : ltb (10 * value + (c - 48)) (2 ^ 31) ≡ true = ground (arith, grows, fits) in
      rw (h.1, next, low, high, small)
        (take_digits-read fuel (p + 1) (10 * value + (c - 48)) ds a.2 h.2 (omega arith) fits)

  -- The byte where digits begin, or end, is no sign.
  first_digit : (p : ℕ) (ds : List ℕ) → AllDigits ds → Text mem p ds → (mem p ≢ 45) × (mem p ≢ 43)
  first_digit p [] a h = rw h ((λ e. absurd (omega (arith, e))), (λ e. absurd (omega (arith, e))))
  first_digit p (c ∷ ds) a h =
      rw (h.1) ((λ e. absurd (omega (arith, e, a.0))), (λ e. absurd (omega (arith, e, a.0))))

  -- Where memory holds spaces, a minus or none, and the decimal digits of a number below 2^31, as a
  -- string, `atoi` with more fuel than the string has bytes returns without overflow and gives that
  -- number, negated behind a minus.
  pub atoi-decimal :
      (fuel p n : ℕ) (spaces : List ℕ) (minus : Bool)
      → AllSpaces spaces
      → n < 2 ^ 31
      → Text mem p (spaces ++ signed minus n)
      → length spaces + length (signed minus n) < fuel
      → atoi fuel mem (some p) ≡ some (if minus then sub_ℕ 0 n else pos n)
  unfolding atoi
  atoi-decimal fuel p n spaces false a fits h le =
      let q =
        skip_spaces-Text fuel p spaces (decimal n) a
          (digits-NoSpace (decimal n) (decimal-AllDigits n)) h (omega arith) in
      let first = first_digit q.value (decimal n) (decimal-AllDigits n) q.holds in
      let no_minus : (mem q.value == 45) ≡ false = ground (arith, first.0) in
      let no_plus : (mem q.value == 43) ≡ false = ground (arith, first.1) in
      let number : read 0 (decimal n) < 2 ^ 31 = rw (read-decimal n) fits in
      rw
        (
          q.returns,
          no_minus,
          no_plus,
          take_digits-read fuel q.value 0 (decimal n) (decimal-AllDigits n) q.holds (omega arith)
              number,
          read-decimal n,
        )
        refl
  atoi-decimal fuel p n spaces true a fits h le =
      let q = skip_spaces-Text fuel p spaces (45 ∷ decimal n) a refl h (omega arith) in
      let number : read 0 (decimal n) < 2 ^ 31 = rw (read-decimal n) fits in
      rw
        (
          q.returns,
          q.holds.1,
          take_digits-read fuel (q.value + 1) 0 (decimal n) (decimal-AllDigits n) q.holds.2
              (omega arith) number,
          read-decimal n,
        )
        refl

  Text-Full : (p : ℕ) (s : List ℕ) → Text mem p s → Full s
  Text-Full p [] h = tt
  Text-Full p (c ∷ s) h = (h.0, Text-Full (p + 1) s h.2)

  -- For two strings in memory, with more fuel than the first has bytes, `strlen` of the first
  -- returns its length, and `strcmp` returns, zero if and only if the two are the same.
  pub strlen-strcmp :
      (fuel p q : ℕ) (s t : List ℕ)
      → Text mem p s
      → Text mem q t
      → length s < fuel
      → (strlen fuel mem (some p) ≡ some (length s))
        × Ensures (strcmp fuel mem p q) (λ v. (v ≡ pos 0) ↔ (s ≡ t))
  unfolding strlen
  strlen-strcmp fuel p q s t h k le =
      let start : p ≡ p + 0 = omega arith in
      let total : 0 + length s ≡ length s = omega arith in
      let there = λ (e : order s t ≡ pos 0). order-zero s t (Text-Full p s h) (Text-Full q t k) e in
      let back : s ≡ t → order s t ≡ pos 0 = λ e. rw e (order_refl t) in
      (
        rw total at (strlen_loop-length fuel p 0 s (rw start at h) le),
        rw (strcmp-order fuel p q s t h k le) (Ensures-some _ _ (there, back)),
      )
