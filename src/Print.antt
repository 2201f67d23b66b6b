-- ===== src/Print.antt =====
-- src/cc_print.c and include/cc_print.h: numbers as decimal text.
-- A buffer is the list of its bytes, and `none` a write outside it or a read outside a table.
pub mod Decimal
pub mod Unsigned
pub mod Signed
mod Tests
use ccommon.Prelude.{
  ℕ, zero, suc, ◌+◌, ◌-◌, ◌*◌, ◌/◌, ◌%◌, ◌^◌, List, [], ◌∷◌, ◌++◌, Option, none, some, Bool, true,
  false, if◌then◌else◌, ltb, leb, ◌>>=◌, drop,
}
use ccommon.Prelude.Words.{u64_mod}
use ccommon.Prelude.Memory.{store}
use ccommon.Prelude.Int.{ℤ, pos, negsuc}

-- `BASE10`, whose first entry is never read.
abbrev pub base10 : List ℕ
base10 =
    0 ∷ 10 ∷ 100 ∷ 1000 ∷ 10000 ∷ 100000 ∷ 1000000 ∷ 10000000 ∷ 100000000 ∷ 1000000000 ∷ 10000000000
    ∷ 100000000000 ∷ 1000000000000 ∷ 10000000000000 ∷ 100000000000000 ∷ 1000000000000000
    ∷ 10000000000000000 ∷ 100000000000000000 ∷ 1000000000000000000 ∷ 10000000000000000000 ∷ []

-- The loop of `digits`, over the entries of the table from index `d` on.
pub digits_from : List ℕ → ℕ → ℕ → Option ℕ
digits_from [] d n = none
digits_from (b ∷ bs) d n = let rest = digits_from bs (d + 1) n in if leb b n then rest else some d

-- `digits`.
unfoldable pub digits : ℕ → Option ℕ
unfolding digits_from
digits n = digits_from (drop 1 base10) 1 n

-- `_print_uint64`, from the index `p` behind the last digit down. The index 0 is the start of the
-- buffer, and there is nothing before it.
unfoldable pub print_loop : List ℕ → ℕ → ℕ → Option (List ℕ)
print_loop buf zero n = none
print_loop buf (suc p) n = do
  buf' ← store buf p ((b'0' + n % 10) ∷ [])
  let rest = print_loop buf' p (n / 10)
  if ltb 0 (n / 10) then rest else some buf'

-- `cc_print_uint64_unsafe`.
unfoldable pub cc_print_uint64_unsafe : List ℕ → ℕ → Option (ℕ × List ℕ)
cc_print_uint64_unsafe buf n = do d ← digits n; buf' ← print_loop buf d n; some (d, buf')

-- `abs_int64`, as the `uint64_t` that it is stored in. The negation of the least `int64_t` overflows,
-- which is undefined.
abbrev pub abs_int64 : ℤ → Option ℕ
abs_int64 (pos n) = some n
abs_int64 (negsuc n) = if ltb n (2 ^ 63 - 1) then some (suc n) else none

abbrev pub is_negative : ℤ → Bool
is_negative (pos n) = false
is_negative (negsuc n) = true

-- An `int64_t` converted to `uint64_t`.
abbrev pub to_u64 : ℤ → ℕ
to_u64 (pos n) = n
to_u64 (negsuc n) = u64_mod - suc n

-- `cc_print_int64_unsafe`.
unfoldable pub cc_print_int64_unsafe : List ℕ → ℤ → Option (ℕ × List ℕ)
cc_print_int64_unsafe buf n = abs_int64 n >>= λ ab.
    if is_negative n
    then (do
      buf' ← store buf 0 (b'-' ∷ [])
      d ← digits ab
      buf'' ← print_loop buf' (1 + d) ab
      some (d + 1, buf''))
    else (do d ← digits ab; buf' ← print_loop buf d ab; some (d, buf'))

-- `cc_print_uint64`, in a buffer said to have `size` bytes.
unfoldable pub cc_print_uint64 : List ℕ → ℕ → ℕ → Option (ℕ × List ℕ)
cc_print_uint64 buf size n = do
  d ← digits n
  if ltb size d then some (0, buf) else (do buf' ← print_loop buf d n; some (d, buf'))

-- `cc_print_int64`, which hands the number itself to `_print_uint64`, and not its absolute value.
unfoldable pub cc_print_int64 : List ℕ → ℕ → ℤ → Option (ℕ × List ℕ)
cc_print_int64 buf size n = do
  ab ← abs_int64 n
  d ← digits ab
  if is_negative n
      then (if ltb size (d + 1) then some (0, buf) else (do
        buf' ← store buf 0 (b'-' ∷ [])
        buf'' ← print_loop buf' (1 + d) (to_u64 n)
        some (d + 1, buf'')))
      else (if ltb size d
          then some (0, buf)
          else (do buf' ← print_loop buf d (to_u64 n); some (d, buf')))
