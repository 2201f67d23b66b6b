-- ===== src/Bstring/Signed.antt =====
-- What `bstring_atoi64` accepts, and the value it returns.
use ccommon.Prelude.{
  append-nil, ℕ, suc, ◌+◌, ◌-◌, ◌*◌, ◌^◌, ◌≤◌, ◌<◌, List, [], ◌∷◌, ◌++◌, none, some, ◌≡◌, refl,
  arith, length, length-append, ◌∙◌, ap, sym, lt→leb, le→ltb, lt→ltb, ne→==, Bool, true, false,
}
use ccommon.Prelude.Int.{ℤ, pos, negsuc}
use ccommon.Status.{ok}
use ccommon.Bstring.{
  Bstring, bstring_atoi64, atoi64_from, atoi64_bytes, signed, int64_limit, int64_maxlen,
  atoi64_overflows,
}
use ccommon.Prelude.Memory.{slice}
use ccommon.Print.{cc_print_int64_unsafe}
use ccommon.Print.Decimal.{
  AreDigits, value_from, value_from-append, value-decimal, AreDigits-decimal, length-decimal,
  decimal, HasDigits-le,
}
use ccommon.Print.Signed.{cc_print_int64_unsafe_lem}
use ccommon.Bstring.Parse.{digit, value_from-ge, value_from-lt}

-- While the magnitude fits, the loop goes through the digits of a text.
atoi64_from-append :
    (negative : Bool) (cs rest : List ℕ) (offset v : ℕ)
    → AreDigits cs
    → value_from v cs ≤ int64_limit negative
    → atoi64_from negative (cs ++ rest) offset v
      ≡ atoi64_from negative rest (offset + length cs) (value_from v cs)
unfolding atoi64_from
atoi64_from-append negative [] rest offset v h k =
    ap (λ i. atoi64_from negative rest i v) {x = offset} {y = offset + 0} (omega arith)
atoi64_from-append negative (c ∷ cs) rest offset v h k =
    let next = 10 * v + (c - b'0') in
    let small : next ≤ int64_limit negative = omega (arith, value_from-ge next cs) in
    let e : v * 10 + (c - b'0') ≡ next = omega arith in
    let ih = atoi64_from-append negative cs rest (offset + 1) next h.2 k in
    let i : offset + 1 + length cs ≡ offset + suc (length cs) = omega arith in
    let passes : atoi64_overflows negative offset v c ≡ false =
      no_overflow negative offset v c small in
    rw (digit c h.0 h.1, e, ih, passes, le→ltb (int64_limit negative) next small, i)
  where
    no_overflow :
        (negative : Bool) (offset v c : ℕ)
        → 10 * v + (c - b'0') ≤ int64_limit negative
        → atoi64_overflows negative offset v c ≡ false
    no_overflow true offset v c h = ground arith
    no_overflow false offset v c h = ground arith

from_value :
    (negative : Bool) (cs : List ℕ) (offset : ℕ)
    → AreDigits cs
    → value_from 0 cs ≤ int64_limit negative
    → atoi64_from negative cs offset 0 ≡ some (ok, value_from 0 cs)
from_value negative cs offset h k =
    ap (λ t. atoi64_from negative t offset 0) (sym (append-nil cs))
    ∙ atoi64_from-append negative cs [] offset 0 h k
    ∙ unfold atoi64_from in refl

accepted_length :
    (old : ℤ) (str : Bstring)
    → 0 < length str
    → length str ≤ 20
    → bstring_atoi64 old str ≡ atoi64_bytes str
unfolding bstring_atoi64
accepted_length old str h k =
    rw (ne→== (length str) 0 (omega arith), lt→leb int64_maxlen (length str) (omega arith))

-- A string of 1 to 20 digits whose value is at most the largest `int64_t` is accepted with that
-- value.
bstring_atoi64-value :
    (old : ℤ) (str : Bstring)
    → AreDigits str
    → 0 < length str
    → length str ≤ 20
    → value_from 0 str < 2 ^ 63
    → bstring_atoi64 old str ≡ some (ok, pos (value_from 0 str))
bstring_atoi64-value old str h some_len len k =
    accepted_length old str some_len len ∙ bytes str h some_len k
  where
    bytes :
        (str : Bstring)
        → AreDigits str
        → 0 < length str
        → value_from 0 str < 2 ^ 63
        → atoi64_bytes str ≡ some (ok, pos (value_from 0 str))
    bytes [] h some_len k = absurd (omega arith)
    bytes (c ∷ cs) h some_len k =
        let run : atoi64_from false (c ∷ cs) 0 0 ≡ some (ok, value_from 0 (c ∷ cs)) =
          from_value false (c ∷ cs) 0 h (omega arith) in
        unfold atoi64_bytes in rw (ne→== c b'-' (omega arith), run)

-- A minus sign and 1 to 19 digits whose value is at most 2^63 are accepted with the negated value.
bstring_atoi64-negative :
    (old : ℤ) (cs : List ℕ)
    → AreDigits cs
    → 0 < length cs
    → length cs ≤ 19
    → value_from 0 cs ≤ 2 ^ 63
    → bstring_atoi64 old (b'-' ∷ cs) ≡ some (ok, signed true (value_from 0 cs))
bstring_atoi64-negative old cs h some_len len k =
    let run : atoi64_from true cs 1 0 ≡ some (ok, value_from 0 cs) = from_value true cs 1 h k in
    accepted_length old (b'-' ∷ cs) (omega arith) (omega arith) ∙ unfold atoi64_bytes in rw run

last_overflows :
    (v c : ℕ)
    → b'0' ≤ c
    → c ≤ b'9'
    → 2 ^ 63 ≤ 10 * v + (c - b'0')
    → atoi64_from false (c ∷ []) 18 v ≡ none
unfolding atoi64_from
last_overflows v c lo hi big =
    rw (digit c lo hi, lt→ltb (int64_limit false) (v * 10 + (c - b'0')) (omega arith))

-- A string of digits is read without a sign.
digits_bytes :
    (c : ℕ) (cs : List ℕ)
    → b'0' ≤ c
    → atoi64_from false (c ∷ cs) 0 0 ≡ none
    → atoi64_bytes (c ∷ cs) ≡ none
unfolding atoi64_bytes
digits_bytes c cs h e = rw (ne→== c b'-' (omega arith), e)

-- A string of 19 digits whose value exceeds the largest `int64_t` makes the multiplication or the
-- addition overflow, which is undefined: the overflow test looks at the 20th byte only.
pub bstring_atoi64-overflow :
    (old : ℤ) (front : List ℕ) (c : ℕ)
    → AreDigits front
    → b'0' ≤ c
    → c ≤ b'9'
    → length front ≡ 18
    → 2 ^ 63 ≤ value_from 0 (front ++ (c ∷ []))
    → bstring_atoi64 old (front ++ (c ∷ [])) ≡ none
bstring_atoi64-overflow old [] c h lo hi len big = absurd (omega arith)
bstring_atoi64-overflow old (f ∷ fs) c h lo hi len big =
    let front = f ∷ fs in
    let v = value_from 0 front in
    let bound : v < (0 + 1) * 10 ^ length front = value_from-lt 0 front h in
    let power : 10 ^ length front ≡ 10 ^ 18 = ap (λ j. 10 ^ j) len in
    let value : value_from 0 (front ++ (c ∷ [])) ≡ 10 * v + (c - b'0') =
      value_from-append 0 front (c ∷ []) in
    let total : length (front ++ (c ∷ [])) ≡ 19 = omega (arith, length-append front (c ∷ [])) in
    let at : 0 + length front ≡ 18 = omega arith in
    accepted_length old (front ++ (c ∷ [])) (omega arith) (omega arith)
    ∙ digits_bytes f (fs ++ (c ∷ [])) h.0 (
        atoi64_from-append false front (c ∷ []) 0 0 h (omega arith)
        ∙ ap (λ i. atoi64_from false (c ∷ []) i v) at
        ∙ last_overflows v c lo hi (omega arith))

-- The numbers of type `int64_t` whose absolute value is one too: all but the least.
abbrev pub IsInt64 : ℤ → Type 0
IsInt64 (pos n) = n < 2 ^ 63
IsInt64 (negsuc n) = n < 2 ^ 63 - 1

-- What `cc_print_int64_unsafe` writes, `bstring_atoi64` reads back, for every `int64_t` but the least,
-- whose absolute value overflows, in a buffer of 20 bytes or more.
pub atoi64-print :
    (old : ℤ) (buf : List ℕ) (n : ℤ)
    → IsInt64 n
    → 20 ≤ length buf
    → (len : ℕ) × (buf' : List ℕ) × (cc_print_int64_unsafe buf n ≡ some (len, buf'))
      × (bstring_atoi64 old (slice buf' 0 len) ≡ some (ok, n))
atoi64-print old buf (pos n) range room =
    let (d, has, buf', run, text, size) =
      cc_print_int64_unsafe_lem buf (pos n) (omega arith) room in
    let few : d ≤ 19 = HasDigits-le n d 19 has (omega arith) (omega arith) in
    let value : value_from 0 (decimal d n) ≡ n = value-decimal d n has.below in
    (
      d + 0,
      buf',
      run,
      ap (bstring_atoi64 old) text
          ∙ bstring_atoi64-value old (decimal d n) (AreDigits-decimal d n)
              (omega (arith, length-decimal d n, has.nonzero)) (omega (arith, length-decimal d n))
              (omega arith)
          ∙ ap (λ t. some (ok, pos t)) value,
    )
atoi64-print old buf (negsuc n) range room =
    let (d, has, buf', run, text, size) =
      cc_print_int64_unsafe_lem buf (negsuc n) (omega arith) room in
    let few : d ≤ 19 = HasDigits-le (suc n) d 19 has (omega arith) (omega arith) in
    let value : value_from 0 (decimal d (suc n)) ≡ suc n = value-decimal d (suc n) has.below in
    (
      d + 1,
      buf',
      run,
      ap (bstring_atoi64 old) text
          ∙ bstring_atoi64-negative old (decimal d (suc n)) (AreDigits-decimal d (suc n))
              (omega (arith, length-decimal d (suc n), has.nonzero))
              (omega (arith, length-decimal d (suc n))) (omega arith)
          ∙ ap (λ t. some (ok, signed true t)) value,
    )
