-- ===== src/Tsvc/Pointwise.antt =====
-- Kernels whose iteration i reads and writes index i alone. `n` is LEN_1D.
pub mod Rows
pub mod StraightRows
pub mod BranchRows
pub mod Order
use vectorizer_experiments.Base.{ℕ, ◌-◌, Bool, true, false, Option, if◌then◌else◌, for_up, for_down}
use vectorizer_experiments.Tsvc.Memory.{Floats, Memory}
use vectorizer_experiments.Tsvc.Straight.{
  s000_body, s1112_body, s1251_body, s1281_body, s251_body, s452_body, s1351_body, s431_body,
  s4121_body,
}
use vectorizer_experiments.Tsvc.Branches.{
  s1161_body, s253_body, s271_body, s2711_body, s2712_body, s273_body, s274_body, s276_body,
  s278_body, s441_body, s443_body, s1279_body, s2710_body, s279_body,
}

pub data Pointwise : Type 0 where
  s000 : Pointwise
  s1112 : Pointwise
  s1161 : Pointwise
  s1251 : Pointwise
  s1281 : Pointwise
  s251 : Pointwise
  s253 : Pointwise
  s271 : Pointwise
  s2711 : Pointwise
  s2712 : Pointwise
  s273 : Pointwise
  s274 : Pointwise
  s276 : Pointwise
  s278 : Pointwise
  s441 : Pointwise
  s443 : Pointwise
  s452 : Pointwise
  s1279 : Pointwise
  s2710 : Pointwise
  s279 : Pointwise
  s1351 : Pointwise
  s431 : Pointwise
  s4121 : Pointwise

-- The bodies of the loops.
unfoldable pub body : (f : Floats) → Pointwise → ℕ → ℕ → Memory f → Option (Memory f)
body f s000 n i s = s000_body f n i s
body f s1112 n i s = s1112_body f n i s
body f s1161 n i s = s1161_body f n i s
body f s1251 n i s = s1251_body f n i s
body f s1281 n i s = s1281_body f n i s
body f s251 n i s = s251_body f n i s
body f s253 n i s = s253_body f n i s
body f s271 n i s = s271_body f n i s
body f s2711 n i s = s2711_body f n i s
body f s2712 n i s = s2712_body f n i s
body f s273 n i s = s273_body f n i s
body f s274 n i s = s274_body f n i s
body f s276 n i s = s276_body f n i s
body f s278 n i s = s278_body f n i s
body f s441 n i s = s441_body f n i s
body f s443 n i s = s443_body f n i s
body f s452 n i s = s452_body f n i s
body f s1279 n i s = s1279_body f n i s
body f s2710 n i s = s2710_body f n i s
body f s279 n i s = s279_body f n i s
body f s1351 n i s = s1351_body f n i s
body f s431 n i s = s431_body f n i s
body f s4121 n i s = s4121_body f n i s

-- The number of iterations: s1161 leaves out the last index.
abbrev pub extent : Pointwise → ℕ → ℕ
extent s1161 n = n - 1
extent _ n = n

-- for (i = LEN_1D - 1; i >= 0; i--).
abbrev pub descends : Pointwise → Bool
descends s1112 = true
descends _ = false

unfoldable pub kernel : (f : Floats) → Pointwise → ℕ → Memory f → Option (Memory f)
kernel f k n s =
    if descends k then for_down (extent k n) (body f k n) s else for_up (extent k n) (body f k n) s
