-- ===== src/Harness/Decimal/Digits.antt =====
-- The decimal digits of a number as a list, and how they read.
use vectorizer_experiments.Base.{
  ℕ, zero, suc, ◌+◌, ◌-◌, ◌*◌, ◌/◌, ◌≤◌, ◌≡◌, List, [], ◌∷◌, ltb, ◌==◌, if◌then◌else◌, arith,
}
use vectorizer_experiments.Harness.Decimal.{digit}

abbrev pub length {ℓ} : {A : Type ℓ} → List A → ℕ
length [] = 0
length (x ∷ xs) = suc (length xs)

-- The digits of n before `out`, with at least as much fuel as n.
unfoldable pub digits : ℕ → ℕ → List ℕ → List ℕ
digits zero n out = out
digits (suc fuel) n out =
    let rest = digits fuel (n / 10) (digit n ∷ out) in if ltb 0 n then rest else out

unfoldable pub decimal : ℕ → List ℕ
decimal n = if n == 0 then 48 ∷ [] else digits (suc n) n []

-- The number that a string of digits denotes, behind the digits that `acc` stands for.
unfoldable pub read : ℕ → List ℕ → ℕ
read acc [] = acc
read acc (c ∷ cs) = read (10 * acc + (c - 48)) cs

read-digits : (fuel n : ℕ) (out : List ℕ) → n ≤ fuel → read 0 (digits fuel n out) ≡ read n out
unfolding digits read
read-digits zero n out le = ground arith
read-digits (suc fuel) n out le =
    let last : 10 * (n / 10) + (digit n - 48) ≡ n = omega arith in
    ground (arith, read-digits fuel (n / 10) (digit n ∷ out), last)

-- The decimal string reads back as the number.
pub read-decimal : (n : ℕ) → read 0 (decimal n) ≡ n
unfolding decimal read
read-decimal n = ground (arith, read-digits (suc n) n [])

-- A string of digits.
abbrev pub AllDigits : List ℕ → Type 0
AllDigits [] = Unit
AllDigits (c ∷ cs) = (48 ≤ c) × (c ≤ 57) × AllDigits cs

digits-AllDigits : (fuel n : ℕ) (out : List ℕ) → AllDigits out → AllDigits (digits fuel n out)
unfolding digits
digits-AllDigits zero n out h = h
digits-AllDigits (suc fuel) n out h =
    ground (arith, digits-AllDigits fuel (n / 10) (digit n ∷ out) (omega arith, omega arith, h), h)

pub decimal-AllDigits : (n : ℕ) → AllDigits (decimal n)
unfolding decimal
decimal-AllDigits n = ground (arith, digits-AllDigits (suc n) n [] tt)
