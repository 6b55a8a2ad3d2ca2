-- ===== src/Base/Fault.antt =====
-- Code that may fault. `none` stands for what C leaves undefined: an access outside an array, a null
-- dereference, a signed overflow. `Ensures m P` is total correctness: `m` returns, and its value has P.
use Prim.Native.Nat.{ℕ, zero, suc, ◌+◌, ◌-◌, ◌≤◌, ◌<◌}
use mathlib.Core.Path.{◌≡◌, refl}
use mathlib.Core.Bool.{Bool}
use mathlib.Core.Option.{Option, none, some}
use native.Mathlib.Omega.{arith}
use native.Mathlib.Decide.{dec_lt}
use vectorizer_experiments.Base.Tests.{if◌then◌else◌}

infixl 5 ◌>>=◌ ◌>>◌
abbrev pub ◌>>=◌ {ℓ κ} : {A : Type ℓ} {B : Type κ} → Option A → (A → Option B) → Option B
none >>= f = none
some a >>= f = f a

abbrev pub ◌>>◌ {ℓ} : {B : Type ℓ} → Option (Unit {0}) → Option B → Option B
m >> k = m >>= λ _. k

abbrev pub guard : Bool → Option (Unit {0})
guard b = if b then some tt else none

pub record Ensures {ℓ} {A : Type ℓ} (m : Option A) (P : A → Type 0) : Type ℓ where
  pub value : A
  pub returns : m ≡ some value
  pub holds : P value

pub Ensures-some {ℓ} : {A : Type ℓ} (P : A → Type 0) (a : A) → P a → Ensures (some a) P
Ensures-some P a h = record { value = a; returns = refl; holds = h }

-- A weaker postcondition.
pub Ensures-weaken {ℓ} :
    {A : Type ℓ} (P Q : A → Type 0) (m : Option A)
    → Ensures m P
    → ((a : A) → P a → Q a)
    → Ensures m Q
Ensures-weaken P Q m h k = record {
  value = h.value;
  returns = h.returns;
  holds = k h.value h.holds;
}

module _ {ℓ κ} {A : Type ℓ} {B : Type κ} where
  pub Ensures-bind :
      (P : A → Type 0) (Q : B → Type 0) (m : Option A) (f : A → Option B)
      → Ensures m P
      → ((a : A) → P a → Ensures (f a) Q)
      → Ensures (m >>= f) Q
  Ensures-bind P Q m f h k =
      let r = k h.value h.holds in
      record { value = r.value; returns = rw h.returns r.returns; holds = r.holds }

pub bind-none {ℓ κ} :
    {A : Type ℓ} {B : Type κ} (m : Option A) (f : A → Option B)
    → ((a : A) → f a ≡ none)
    → m >>= f ≡ none
bind-none none f h = refl
bind-none (some a) f h = h a

-- for (i = 0; i < n; i++) s = body(i, s): the rounds run in ascending order.
unfoldable pub for_up {ℓ} : {S : Type ℓ} → ℕ → (ℕ → S → Option S) → S → Option S
for_up zero body s = some s
for_up (suc n) body s = for_up n body s >>= body n

-- for (i = n - 1; i >= 0; i--) s = body(i, s).
unfoldable pub for_down {ℓ} : {S : Type ℓ} → ℕ → (ℕ → S → Option S) → S → Option S
for_down zero body s = some s
for_down (suc n) body s = body n s >>= for_down n body

-- for (i = lo; i < hi; i++) s = body(i, s).
unfoldable pub for_range {ℓ} : {S : Type ℓ} → ℕ → ℕ → (ℕ → S → Option S) → S → Option S
unfolding for_up
for_range lo hi body s = for_up (hi - lo) (λ i. body (lo + i)) s

-- The invariant rule: what every round keeps, holds after the loop, and the loop returns.
pub for_up-Ensures {ℓ} :
    {S : Type ℓ} (P : ℕ → S → Type 0) (n : ℕ) (body : ℕ → S → Option S)
    → ((i : ℕ) → i < n → (s : S) → P i s → Ensures (body i s) (P (suc i)))
    → (s : S) → P 0 s
    → Ensures (for_up n body s) (P n)
unfolding for_up
for_up-Ensures P zero body keep s h = Ensures-some (P 0) s h
for_up-Ensures P (suc n) body keep s h =
    Ensures-bind (P n) (P (suc n)) (for_up n body s) (body n)
      (for_up-Ensures P n body (λ i lt. keep i (omega arith)) s h) (keep n (omega arith))

pub for_range-Ensures {ℓ} :
    {S : Type ℓ} (P : ℕ → S → Type 0) (lo hi : ℕ) (body : ℕ → S → Option S)
    → lo ≤ hi
    → ((i : ℕ) → lo ≤ i → i < hi → (s : S) → P i s → Ensures (body i s) (P (suc i)))
    → (s : S) → P lo s
    → Ensures (for_range lo hi body s) (P hi)
unfolding for_range
for_range-Ensures P lo hi body le keep s h =
    let start : lo + 0 ≡ lo = omega arith in
    let finish : lo + (hi - lo) ≡ hi = omega arith in
    let next = λ (i : ℕ). let e : suc (lo + i) ≡ lo + suc i = omega arith in e in
    rw finish at (
      for_up-Ensures (λ i. P (lo + i)) (hi - lo) (λ i. body (lo + i))
        (λ i lt s' p. rw (next i) at (keep (lo + i) (omega arith) (omega arith) s' p)) s
        (rw start h))

-- A round that faults whatever it is given makes the loop fault.
pub for_up-none {ℓ} :
    {S : Type ℓ} (n i : ℕ) (body : ℕ → S → Option S) (s : S)
    → i < n
    → ((t : S) → body i t ≡ none)
    → for_up n body s ≡ none
unfolding for_up
for_up-none zero i body s lt h = absurd (omega arith)
for_up-none (suc n) i body s lt h = elim (dec_lt i n) [
  | yes before ↦ rw (for_up-none n i body s before h)
  | no last ↦ let e : n ≡ i = omega arith in rw e (bind-none (for_up i body s) (body i) h)
]
