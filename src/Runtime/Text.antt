-- ===== src/Runtime/Text.antt =====
-- The string functions of emulator/run/src/parsec/common/parsec_runtime.c. Memory is a function from the
-- address to the byte; a pointer that may be NULL is an Option. The loops run on fuel: more of it than the
-- string has bytes is enough.
pub mod Reads
pub mod Copies
use vectorizer_experiments.Base.{
  ℕ, zero, suc, ◌+◌, ◌-◌, ◌*◌, ◌^◌, Bool, not, ◌&&◌, ◌||◌, Option, none, some, ◌>>=◌, ◌>>◌, guard,
  if◌then◌else◌, ltb, leb, ◌==◌, Cells, update,
}
use vectorizer_experiments.Base.Int.{ℤ, pos, sub_ℕ}

-- while (text[len] != '\0') len++;
unfoldable pub strlen_loop : ℕ → Cells → ℕ → ℕ → Option ℕ
strlen_loop zero mem text len = none
strlen_loop (suc fuel) mem text len =
    let more = strlen_loop fuel mem text (len + 1) in
    if mem (text + len) == 0 then some len else more

unfoldable pub strlen : ℕ → Cells → Option ℕ → Option ℕ
strlen fuel mem none = some 0
strlen fuel mem (some text) = strlen_loop fuel mem text 0

unfoldable pub strcmp : ℕ → Cells → ℕ → ℕ → Option ℤ
strcmp zero mem lhs rhs = none
strcmp (suc fuel) mem lhs rhs =
    let more = strcmp fuel mem (lhs + 1) (rhs + 1) in
    if not (mem lhs == 0) && (mem lhs == mem rhs) then more else some (sub_ℕ (mem lhs) (mem rhs))

-- ' ', '\t' and '\n'.
abbrev pub is_space : ℕ → Bool
is_space c = c == 32 || (c == 9 || c == 10)

unfoldable pub skip_spaces : ℕ → Cells → ℕ → Option ℕ
skip_spaces zero mem text = none
skip_spaces (suc fuel) mem text =
    let more = skip_spaces fuel mem (text + 1) in if is_space (mem text) then more else some text

-- The loop over the digits; an int overflow is a fault.
unfoldable pub take_digits : ℕ → Cells → ℕ → ℕ → Option ℕ
take_digits zero mem text value = none
take_digits (suc fuel) mem text value =
    let next = value * 10 + (mem text - 48) in
    let more = guard (ltb next (2 ^ 31)) >> take_digits fuel mem (text + 1) next in
    if leb 48 (mem text) && leb (mem text) 57 then more else some value

unfoldable pub atoi : ℕ → Cells → Option ℕ → Option ℤ
atoi fuel mem none = some (pos 0)
atoi fuel mem (some text) = do
  start ← skip_spaces fuel mem text
  let minus = mem start == 45
  let digits = if minus || mem start == 43 then start + 1 else start
  value ← take_digits fuel mem digits 0
  some (if minus then sub_ℕ 0 value else pos value)

unfoldable pub memcpy : Cells → ℕ → ℕ → ℕ → Cells
memcpy mem dst src zero = mem
memcpy mem dst src (suc count) =
    let done = memcpy mem dst src count in update done (dst + count) (done (src + count))

-- The loop of `strcpy` with the store of the end.
unfoldable pub strcpy : ℕ → Cells → ℕ → ℕ → Option Cells
strcpy zero mem cursor src = none
strcpy (suc fuel) mem cursor src =
    let more = strcpy fuel (update mem cursor (mem src)) (cursor + 1) (src + 1) in
    if mem src == 0 then some (update mem cursor 0) else more
