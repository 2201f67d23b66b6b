-- ===== src/Bstring.antt =====
-- src/cc_bstring.c and include/cc_bstring.h: byte strings.
-- The assertions of every function say that a string has no data exactly when its length is 0, so a
-- string is the list of its bytes, and its length is theirs.
pub mod Parse
pub mod Signed
pub mod Copy
mod Tests
use ccommon.Prelude.{
  ℕ, zero, suc, ◌+◌, ◌-◌, ◌*◌, ◌/◌, ◌%◌, ◌^◌, List, [], ◌∷◌, ◌++◌, Option, none, some, Bool, true,
  false, if◌then◌else◌, ltb, leb, ◌==◌, ◌&&◌, ◌||◌, not, length,
}
use ccommon.Prelude.Words.{u64_mod, u32_mod, sub32}
use ccommon.Prelude.Int.{ℤ, pos, negsuc}
use ccommon.Status.{Status, ok, error, enomem}

-- `struct bstring`.
abbrev pub Bstring : Type 0
Bstring = List ℕ

-- `CC_UINT64_MAXLEN` and `CC_INT64_MAXLEN`.
abbrev pub uint64_maxlen : ℕ
uint64_maxlen = 20 + 1

abbrev pub int64_maxlen : ℕ
int64_maxlen = 1 + 19 + 1

-- `isdigit` of the C library.
abbrev pub is_digit : ℕ → Bool
is_digit c = leb b'0' c && leb c b'9'

-- The loop of `bstring_atou64`, over the bytes from `offset` on: the status, and what `*u64` holds.
pub atou64_from : List ℕ → ℕ → ℕ → Status × ℕ
atou64_from [] offset u64 = (ok, u64)
atou64_from (c ∷ cs) offset u64 =
    let rest = atou64_from cs (offset + 1) ((u64 * 10 + (c - b'0')) % u64_mod) in
    if not (is_digit c)
    then (error, u64)
    else if offset == uint64_maxlen - 2
        && (u64 == (u64_mod - 1) / 10 && ltb ((u64_mod - 1) % 10 + b'0') c)
    then (error, u64)
    else rest

-- `bstring_atou64`.
unfoldable pub bstring_atou64 : Bstring → Status × ℕ
unfolding atou64_from
bstring_atou64 str =
    if length str == 0 || leb uint64_maxlen (length str) then (error, 0) else atou64_from str 0 0

-- The magnitudes of `INT64_MAX` and `INT64_MIN`.
abbrev pub int64_limit : Bool → ℕ
int64_limit false = 2 ^ 63 - 1
int64_limit true = 2 ^ 63

-- The overflow test of `bstring_atoi64` at the last possible byte.
abbrev pub atoi64_overflows : Bool → ℕ → ℕ → ℕ → Bool
atoi64_overflows negative offset m c =
    offset == int64_maxlen - 2
    && (m == int64_limit negative / 10 && ltb (int64_limit negative % 10) (c - b'0'))

-- The loop of `bstring_atoi64`. `*i64` is `sign` times the magnitude `m`; a result that does not
-- fit in 64 bits is a signed overflow, which is undefined, `none`.
pub atoi64_from : Bool → List ℕ → ℕ → ℕ → Option (Status × ℕ)
atoi64_from negative [] offset m = some (ok, m)
atoi64_from negative (c ∷ cs) offset m =
    let rest = atoi64_from negative cs (offset + 1) (m * 10 + (c - b'0')) in
    if not (is_digit c)
    then some (error, m)
    else if atoi64_overflows negative offset m c
    then some (error, m)
    else if ltb (int64_limit negative) (m * 10 + (c - b'0'))
    then none
    else rest

-- A magnitude with its sign.
abbrev pub signed : Bool → ℕ → ℤ
signed false m = pos m
signed true zero = pos zero
signed true (suc m) = negsuc m

with_sign : Bool → Option (Status × ℕ) → Option (Status × ℤ)
with_sign negative none = none
with_sign negative (some (s, m)) = some (s, signed negative m)

-- The sign and the loop, on a string of a length that is accepted.
atoi64_bytes : List ℕ → Option (Status × ℤ)
unfolding atoi64_from with_sign
atoi64_bytes [] = some (ok, pos 0)
atoi64_bytes (c ∷ cs) =
    if c == b'-'
    then with_sign true (atoi64_from true cs 1 0)
    else with_sign false (atoi64_from false (c ∷ cs) 0 0)

-- `bstring_atoi64`, where `*i64` holds `old` before the call.
unfoldable pub bstring_atoi64 : ℤ → Bstring → Option (Status × ℤ)
unfolding atoi64_bytes
bstring_atoi64 old str =
    if length str == 0 || leb int64_maxlen (length str) then some (error, old) else atoi64_bytes str

-- `bstring_compare`. The difference of the lengths is unsigned; `cc_bcmp` is 0 on equal bytes and
-- of an unstated value otherwise, which the argument gives.
unfoldable pub bstring_compare : (List ℕ → List ℕ → ℤ) → Bstring → Bstring → ℤ
bstring_compare bcmp s1 s2 =
    if not (length s1 == length s2)
    then (if ltb 0 (sub32 (length s1) (length s2)) then pos 256 else negsuc 255)
    else bcmp s1 s2

-- `bstring_init`.
unfoldable pub bstring_init : Bstring
bstring_init = []

-- `bstring_deinit`, whose `cc_free` is not modelled.
unfoldable pub bstring_deinit : Bstring → Bstring
unfolding bstring_init
bstring_deinit [] = []
bstring_deinit (c ∷ cs) = bstring_init

-- `bstring_empty`.
unfoldable pub bstring_empty : Bstring → Bool
bstring_empty str = length str == 0

-- `bstring_copy` of the `srclen` bytes of `src` to an empty string; the allocator's block of the
-- size asked for is overwritten, or there is none.
unfoldable pub bstring_copy : (ℕ → Bool) → List ℕ → Status × Bstring
bstring_copy alloc src = if alloc (length src) then (ok, src) else (enomem, [])

-- `bstring_duplicate`.
unfoldable pub bstring_duplicate : (ℕ → Bool) → Bstring → Status × Bstring
bstring_duplicate alloc src = if alloc (length src) then (ok, src) else (enomem, [])
