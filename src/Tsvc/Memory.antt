-- ===== src/Tsvc/Memory.antt =====
-- The floats and the arrays of the kernels. A kernel is a function into Option: `none` is an access outside
-- an array.
use vectorizer_experiments.Base.{ℕ, Bool}

-- What the kernels do with floats. `lit n d` is the constant n / d. No law is assumed.
pub record Floats : Type 1 where
  pub Real : Type 0
  pub lit : ℕ → ℕ → Real
  pub of_nat : ℕ → Real
  pub add : Real → Real → Real
  pub sub : Real → Real → Real
  pub mul : Real → Real → Real
  pub neg : Real → Real
  pub lt : Real → Real → Bool
  pub le : Real → Real → Bool
  pub eq : Real → Real → Bool

-- The global arrays, and the elements at one index.
pub record Globals (A : Type 0) : Type 0 where
  pub a : A
  pub b : A
  pub c : A
  pub d : A
  pub e : A

abbrev pub Memory : Floats → Type 0
Memory f = Globals (ℕ → f.Real)

abbrev pub Row : Floats → Type 0
Row f = Globals f.Real

abbrev pub row : (f : Floats) → Memory f → ℕ → Row f
row f s j = record { a = s.a j; b = s.b j; c = s.c j; d = s.d j; e = s.e j }
