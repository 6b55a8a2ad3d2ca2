-- ===== src/Base/Arrays.antt =====
-- Arrays of a fixed length as functions on the index, with every access checked.
use Prim.Native.Nat.{ℕ, ◌<◌}
use mathlib.Core.Path.{◌≡◌, refl}
use mathlib.Core.Logic.{◌≢◌}
use mathlib.Core.Option.{Option, none, some}
use native.Mathlib.Omega.{arith}
use vectorizer_experiments.Base.Tests.{ltb, lt→ltb, ◌==◌, if◌then◌else◌}

-- The contents of an array.
abbrev pub Cells : Type 0
Cells = ℕ → ℕ

unfoldable pub update {ℓ} : {A : Type ℓ} → (ℕ → A) → ℕ → A → ℕ → A
update f i v j = if i == j then v else f j

-- `f[i]` and `f[i] = v`, for an array of `len` elements.
unfoldable pub load {ℓ} : {A : Type ℓ} → ℕ → (ℕ → A) → ℕ → Option A
load len f i = if ltb i len then some (f i) else none

unfoldable pub store {ℓ} : {A : Type ℓ} → ℕ → (ℕ → A) → ℕ → A → Option (ℕ → A)
unfolding update
store len f i v = if ltb i len then some (update f i v) else none

pub update_self {ℓ} : {A : Type ℓ} (f : ℕ → A) (i : ℕ) (v : A) → update f i v i ≡ v
unfolding update
update_self f i v = ground arith

pub update_ne {ℓ} : {A : Type ℓ} (f : ℕ → A) (i j : ℕ) (v : A) → i ≢ j → update f i v j ≡ f j
unfolding update
update_ne f i j v h = ground arith

pub update_lem {ℓ} :
    {A : Type ℓ} (f : ℕ → A) (i j : ℕ) (v : A) → update f i v j ≡ (if i == j then v else f j)
unfolding update
update_lem f i j v = refl

pub load-some {ℓ} : {A : Type ℓ} (len : ℕ) (f : ℕ → A) (i : ℕ) → i < len → load len f i ≡ some (f i)
unfolding load
load-some len f i h = rw (lt→ltb i len h)

pub store-some {ℓ} :
    {A : Type ℓ} (len : ℕ) (f : ℕ → A) (i : ℕ) (v : A)
    → i < len
    → store len f i v ≡ some (update f i v)
unfolding store
store-some len f i v h = rw (lt→ltb i len h)
