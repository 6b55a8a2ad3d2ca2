-- ===== src/Npb/Rank/Shifts.antt =====
-- The ranks that the partial verification expects, by a table of the classes.
use Prim.Native.Nat.{min}
use vectorizer_experiments.Base.{
  ℕ, zero, suc, ◌+◌, ◌-◌, ◌/◌, ◌≤◌, ◌<◌, ◌≡◌, true, some, List, [], ◌∷◌, arith, ltb, ◌==◌, inl, inr,
  Bool-cases, ◌>>=◌, if◌then◌else◌, Ensures, Ensures-some, Ensures-bind,
}
use vectorizer_experiments.Base.Int.{ℤ, pos, ◌+ℤ◌, ◌-ℤ◌, pos_part, neg_part, int_laws}
use vectorizer_experiments.Npb.Config.{
  Class, class_s, class_w, class_a, class_b, class_c, class_d, class_e, Config,
}
use vectorizer_experiments.Npb.Rank.{int_sum, int_difference, expected_rank, equals_rank, fits_int}

-- What is added to the rank of a test key, and what is taken from it.
pub record Shift : Type 0 where
  pub up : ℕ
  pub down : ℕ

abbrev risen : ℕ → Shift
risen n = record { up = n; down = 0 }

abbrev fallen : ℕ → Shift
fallen n = record { up = 0; down = n }

-- The third rank of class E falls behind by one after two iterations, and by two after four.
abbrev late : ℕ → ℕ
late iteration = min 2 ((iteration - 1) / 2)

-- The shifts of the five test keys in an iteration.
unfoldable pub shifts : Class → ℕ → List Shift
shifts class_s n = risen n ∷ risen n ∷ risen n ∷ fallen n ∷ fallen n ∷ []
shifts class_w n =
    record { up = n; down = 2 } ∷ record { up = n; down = 2 } ∷ fallen n ∷ fallen n ∷ fallen n ∷ []
shifts class_a n =
    record { up = n; down = 1 }
    ∷ record { up = n; down = 1 }
    ∷ record { up = n; down = 1 }
    ∷ record { up = 1; down = n }
    ∷ record { up = 1; down = n }
    ∷ []
shifts class_b n = fallen n ∷ risen n ∷ risen n ∷ fallen n ∷ risen n ∷ []
shifts class_c n = risen n ∷ risen n ∷ risen n ∷ fallen n ∷ fallen n ∷ []
shifts class_d n = risen n ∷ risen n ∷ fallen n ∷ fallen n ∷ fallen n ∷ []
shifts class_e n =
    record { up = n; down = 2 }
    ∷ record { up = n; down = 2 }
    ∷ record { up = n; down = 2 + late n }
    ∷ record { up = 2; down = n }
    ∷ record { up = 2; down = n }
    ∷ []

unfoldable pub shift_at : List Shift → ℕ → Shift
shift_at [] i = record { up = 0; down = 0 }
shift_at (s ∷ rest) zero = s
shift_at (s ∷ rest) (suc i) = shift_at rest i

-- v is up - down.
abbrev pub Stands : ℕ → ℕ → ℤ → Type 0
Stands up down v = pos_part v + down ≡ up + neg_part v

pub equals_rank-Stands :
    (n up down : ℕ) (v : ℤ) → Stands up down v → equals_rank n v ≡ (n + down == up)
unfolding equals_rank
equals_rank-Stands n up down (pos m) h = ground arith
equals_rank-Stands n up down (ℤ.negsuc m) h = ground arith

fits_int-Stands :
    (c : Config) (up down : ℕ) (v : ℤ)
    → Stands up down v
    → up < c.limit
    → down ≤ c.limit
    → fits_int c v ≡ true
fits_int-Stands c up down (pos m) h high low = ground arith
fits_int-Stands c up down (ℤ.negsuc m) h high low = ground arith

module _ (c : Config) (up down : ℕ) (high : up < c.limit) (low : down ≤ c.limit) where
  sum-Stands : (a b : ℤ) → Stands up down (a +ℤ b) → Ensures (int_sum c a b) (Stands up down)
  unfolding int_sum
  sum-Stands a b h = rw (fits_int-Stands c up down (a +ℤ b) h high low) (Ensures-some _ _ h)

  difference-Stands :
      (a b : ℤ) → Stands up down (a -ℤ b) → Ensures (int_difference c a b) (Stands up down)
  unfolding int_difference
  difference-Stands a b h = rw (fits_int-Stands c up down (a -ℤ b) h high low) (Ensures-some _ _ h)

five : (P : ℕ → Type 0) → P 0 → P 1 → P 2 → P 3 → P 4 → (i : ℕ) → i < 5 → P i
five P p0 p1 p2 p3 p4 zero lt = p0
five P p0 p1 p2 p3 p4 (suc zero) lt = p1
five P p0 p1 p2 p3 p4 (suc (suc zero)) lt = p2
five P p0 p1 p2 p3 p4 (suc (suc (suc zero))) lt = p3
five P p0 p1 p2 p3 p4 (suc (suc (suc (suc zero)))) lt = p4
five P p0 p1 p2 p3 p4 (suc (suc (suc (suc (suc i))))) lt = absurd (omega arith)

-- The rank that the code computes for test key i.
abbrev RankedAs : Config → Class → ℕ → ℕ → ℕ → Type 0
RankedAs c class iteration rank i =
    let s = shift_at (shifts class iteration) i in
    Ensures (expected_rank c class i iteration rank) (Stands (rank + s.up) s.down)

module _ (c : Config) (iteration rank : ℕ) (small : rank + iteration + 4 < c.limit) where
  abbrev n : ℤ
  n = pos iteration

  abbrev k : ℤ
  k = pos rank

  up_n : Ensures (int_sum c k n) (Stands (rank + iteration) 0)
  up_n = sum-Stands c (rank + iteration) 0 (omega arith) (omega arith) k n (omega int_laws)

  down_n : Ensures (int_difference c k n) (Stands (rank + 0) iteration)
  down_n = difference-Stands c (rank + 0) iteration (omega arith) (omega arith) k n (omega int_laws)

  up_less : (m : ℕ) → m ≤ 2 → Ensures (int_sum c k (n -ℤ pos m)) (Stands (rank + iteration) m)
  up_less m le =
      sum-Stands c (rank + iteration) m (omega arith) (omega arith) k (n -ℤ pos m) (omega int_laws)

  down_less :
      (m : ℕ) → m ≤ 2 → Ensures (int_difference c k (n -ℤ pos m)) (Stands (rank + m) iteration)
  down_less m le =
      difference-Stands c (rank + m) iteration (omega arith) (omega arith) k (n -ℤ pos m)
        (omega int_laws)

  third :
      Ensures
        (int_sum c k (n -ℤ pos 2) >>= λ sum.
          if ltb 4 iteration
          then int_difference c sum (pos 2)
          else if ltb 2 iteration
          then int_difference c sum (pos 1)
          else some sum)
        (Stands (rank + iteration) (2 + late iteration))
  third = Ensures-bind _ _ _ _ (up_less 2 (omega arith)) λ sum h.
      elim (Bool-cases (ltb 4 iteration)) [
        | inl e ↦
            let two : 2 + late iteration ≡ 4 = ground arith in
            rw (e, two)
              (difference-Stands c (rank + iteration) 4 (omega arith) (omega arith) sum (pos 2)
                (omega (int_laws, h)))
        | inr e ↦ elim (Bool-cases (ltb 2 iteration)) [
          | inl e2 ↦
              let one : 2 + late iteration ≡ 3 = ground arith in
              rw (e, e2, one)
                (difference-Stands c (rank + iteration) 3 (omega arith) (omega arith) sum (pos 1)
                  (omega (int_laws, h)))
          | inr e2 ↦
              let none_late : 2 + late iteration ≡ 2 = ground arith in
              rw (e, e2, none_late) (Ensures-some _ sum h)
        ]
      ]

  pub expected_rank-RankedAs : (class : Class) (i : ℕ) → i < 5 → RankedAs c class iteration rank i
  unfolding expected_rank shift_at shifts
  expected_rank-RankedAs class_s i lt =
      five (RankedAs c class_s iteration rank) up_n up_n up_n down_n down_n i lt
  expected_rank-RankedAs class_w i lt =
      five (RankedAs c class_w iteration rank) (up_less 2 (omega arith)) (up_less 2 (omega arith))
        down_n down_n down_n i lt
  expected_rank-RankedAs class_a i lt =
      five (RankedAs c class_a iteration rank) (up_less 1 (omega arith)) (up_less 1 (omega arith))
        (up_less 1 (omega arith)) (down_less 1 (omega arith)) (down_less 1 (omega arith)) i lt
  expected_rank-RankedAs class_b i lt =
      five (RankedAs c class_b iteration rank) down_n up_n up_n down_n up_n i lt
  expected_rank-RankedAs class_c i lt =
      five (RankedAs c class_c iteration rank) up_n up_n up_n down_n down_n i lt
  expected_rank-RankedAs class_d i lt =
      five (RankedAs c class_d iteration rank) up_n up_n down_n down_n down_n i lt
  expected_rank-RankedAs class_e i lt =
      five (RankedAs c class_e iteration rank) (up_less 2 (omega arith)) (up_less 2 (omega arith))
        third (down_less 2 (omega arith)) (down_less 2 (omega arith)) i lt
