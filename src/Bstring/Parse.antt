-- ===== src/Bstring/Parse.antt =====
-- What `bstring_atou64` accepts, and the value it returns.
use native.Mathlib.Nat.{pow-suc, mul-le-mul_right, pow-le-pow_right}
use ccommon.Prelude.{
  append-nil, ℕ, suc, ◌+◌, ◌-◌, ◌*◌, ◌/◌, ◌%◌, ◌^◌, ◌≤◌, ◌<◌, List, [], ◌∷◌, ◌++◌, some, ◌≡◌, ◌⊎◌,
  inl, inr, arith, length, length-append, ltb, ◌∙◌, ap, sym, subst, lt→leb, ℕ_discrete, ◌==◌, ne→==,
  true, false, ◌&&◌,
}
use ccommon.Prelude.Words.{u64_mod}
use ccommon.Status.{ok}
use ccommon.Bstring.{Bstring, bstring_atou64, atou64_from, is_digit, uint64_maxlen}
use ccommon.Prelude.Memory.{slice}
use ccommon.Print.{cc_print_uint64}
use ccommon.Print.Decimal.{
  AreDigits, value_from, value_from-append, value-decimal, AreDigits-decimal, length-decimal,
  decimal, HasDigits, HasDigits-le,
}
use ccommon.Print.Unsigned.{Prints, cc_print_uint64_lem}

-- Reading on never makes the value smaller.
pub value_from-ge : (v : ℕ) (cs : List ℕ) → v ≤ value_from v cs
value_from-ge v [] = omega arith
value_from-ge v (c ∷ cs) = omega (arith, value_from-ge (10 * v + (c - b'0')) cs)

pub digit : (c : ℕ) → b'0' ≤ c → c ≤ b'9' → is_digit c ≡ true
digit c h k = ground arith

-- A value of `k` more digits is at most `k` powers of ten larger.
pub value_from-lt :
    (v : ℕ) (cs : List ℕ) → AreDigits cs → value_from v cs < (v + 1) * 10 ^ length cs
value_from-lt v [] h = omega arith
value_from-lt v (c ∷ cs) h =
    let p = 10 ^ length cs in
    let ih : value_from (10 * v + (c - b'0')) cs < (10 * v + (c - b'0') + 1) * p =
      value_from-lt (10 * v + (c - b'0')) cs h.2 in
    let split : 10 ^ suc (length cs) ≡ p * 10 = pow-suc 10 (length cs) in
    let step : (10 * v + (c - b'0') + 1) * p ≤ (10 * v + 10) * p =
      mul-le-mul_right p (omega arith) in
    subst (λ t. value_from v (c ∷ cs) < (v + 1) * t) (sym split) (omega arith)

-- While the value fits in 64 bits, the loop goes through the digits of a text.
pub atou64_from-append :
    (cs rest : List ℕ) (offset v : ℕ)
    → AreDigits cs
    → value_from v cs < u64_mod
    → atou64_from (cs ++ rest) offset v ≡ atou64_from rest (offset + length cs) (value_from v cs)
unfolding atou64_from
atou64_from-append [] rest offset v h k =
    ap (λ i. atou64_from rest i v) {x = offset} {y = offset + 0} (omega arith)
atou64_from-append (c ∷ cs) rest offset v h k =
    let next = 10 * v + (c - b'0') in
    let small : next < u64_mod = omega (arith, value_from-ge next cs) in
    let e : (v * 10 + (c - b'0')) % u64_mod ≡ next = omega arith in
    let ih = atou64_from-append cs rest (offset + 1) next h.2 k in
    let i : offset + 1 + length cs ≡ offset + suc (length cs) = omega arith in
    let passes : offset == uint64_maxlen - 2
          && (v == (u64_mod - 1) / 10 && ltb ((u64_mod - 1) % 10 + b'0') c)
        ≡ false =
      ground arith in
    rw (digit c h.0 h.1, e, ih, passes, i)

-- A string of 1 to 20 digits whose value fits in 64 bits is accepted with that value.
bstring_atou64-value :
    (str : Bstring)
    → AreDigits str
    → 0 < length str
    → length str ≤ 20
    → value_from 0 str < u64_mod
    → bstring_atou64 str ≡ (ok, value_from 0 str)
unfolding bstring_atou64
bstring_atou64-value str h some_len len k =
    let run : atou64_from str 0 0 ≡ (ok, value_from 0 str) =
      ap (λ t. atou64_from t 0 0) (sym (append-nil str)) ∙ atou64_from-append str [] 0 0 h k in
    rw (ne→== (length str) 0 (omega arith), lt→leb uint64_maxlen (length str) (omega arith), run)

from_digits : (cs : List ℕ) (offset v : ℕ) → (atou64_from cs offset v).0 ≡ ok → AreDigits cs
unfolding atou64_from
from_digits [] offset v h = tt
from_digits (c ∷ cs) offset v h =
    ground (arith, from_digits cs (offset + 1) ((v * 10 + (c - b'0')) % u64_mod))

bstring_atou64_tests :
    (str : Bstring)
    → (bstring_atou64 str).0 ≡ ok
    → (0 < length str) × (length str ≤ 20) × ((atou64_from str 0 0).0 ≡ ok)
unfolding bstring_atou64
bstring_atou64_tests str h = ground arith

-- A string that is accepted has 1 to 20 bytes, all of them digits; if it has at most 19, the value
-- returned is its decimal value.
bstring_atou64-ok :
    (str : Bstring)
    → (bstring_atou64 str).0 ≡ ok
    → AreDigits str
      × (0 < length str)
      × (length str ≤ 20)
      × ((length str ≡ 20) ⊎ ((bstring_atou64 str).1 ≡ value_from 0 str))
bstring_atou64-ok str h =
    let (some_len, len, run) = bstring_atou64_tests str h in
    let are = from_digits str 0 0 run in
    (
      are,
      some_len,
      len,
      elim (ℕ_discrete (length str) 20) [
        | yes e ↦ inl e
        | no ne ↦
            let short : 10 ^ length str ≤ 10 ^ 19 =
              pow-le-pow_right {n = 10} (omega arith) {i = length str} {j = 19} (omega arith) in
            let small : value_from 0 str < u64_mod = omega (arith, value_from-lt 0 str are) in
            inr (ap (λ r. r.1) (bstring_atou64-value str are some_len len small))
      ],
    )

unfold_atou64 :
    (str : Bstring) → 0 < length str → length str ≤ 20 → bstring_atou64 str ≡ atou64_from str 0 0
unfolding bstring_atou64
unfold_atou64 str h k =
    rw (ne→== (length str) 0 (omega arith), lt→leb uint64_maxlen (length str) (omega arith))

last_digit :
    (v c : ℕ)
    → b'0' ≤ c
    → c ≤ b'9'
    → (u64_mod - 1) / 10 < v
    → atou64_from (c ∷ []) 19 v ≡ (ok, (v * 10 + (c - b'0')) % u64_mod)
unfolding atou64_from
last_digit v c lo hi big = rw (digit c lo hi, ne→== v ((u64_mod - 1) / 10) (omega arith))

-- A string of 20 digits whose first 19 exceed a tenth of the largest `uint64_t` is accepted, with
-- its value reduced modulo 2^64: the overflow test misses it.
pub bstring_atou64-wraps :
    (front : List ℕ) (c : ℕ)
    → AreDigits front
    → length front ≡ 19
    → b'0' ≤ c
    → c ≤ b'9'
    → (u64_mod - 1) / 10 < value_from 0 front
    → (bstring_atou64 (front ++ (c ∷ [])) ≡ (ok, value_from 0 (front ++ (c ∷ [])) % u64_mod))
      × (u64_mod ≤ value_from 0 (front ++ (c ∷ [])))
bstring_atou64-wraps front c h len lo hi big =
    let v = value_from 0 front in
    let str = front ++ (c ∷ []) in
    let len' : length str ≡ 20 = omega (arith, length-append front (c ∷ [])) in
    let bound : v < (0 + 1) * 10 ^ length front = value_from-lt 0 front h in
    let power : 10 ^ length front ≡ 10 ^ 19 = ap (λ j. 10 ^ j) len in
    let small : v < u64_mod = omega arith in
    let value : value_from 0 str ≡ 10 * v + (c - b'0') = value_from-append 0 front (c ∷ []) in
    let at : 0 + length front ≡ 19 = omega arith in
    (
      unfold_atou64 str (omega arith) (omega arith)
          ∙ atou64_from-append front (c ∷ []) 0 0 h small
          ∙ ap (λ i. atou64_from (c ∷ []) i v) at
          ∙ last_digit v c lo hi big
          ∙ ap (λ t. (ok, t))
              (ap (λ t. t % u64_mod) {x = v * 10 + (c - b'0')} {y = 10 * v + (c - b'0')}
                  (omega arith)
                ∙ ap (λ t. t % u64_mod) (sym value)),
      omega arith,
    )

-- What `cc_print_uint64` writes, `bstring_atou64` reads back: printing a number below 10^19 into a
-- buffer of 19 bytes or more and parsing the bytes written gives the number.
pub atou64-print :
    (buf : List ℕ) (n : ℕ)
    → n < 10 ^ 19
    → 19 ≤ length buf
    → (d : ℕ) × (buf' : List ℕ) × (cc_print_uint64 buf (length buf) n ≡ some (d, buf'))
      × (bstring_atou64 (slice buf' 0 d) ≡ (ok, n))
atou64-print buf n h room =
    let (d, has, out) = cc_print_uint64_lem buf (length buf) n h (omega arith) in
    let few : d ≤ 19 = HasDigits-le n d 19 has h (omega arith) in
    let (buf', run, back) = printed d has few out in (d, buf', run, back)
  where
    printed :
        (d : ℕ)
        → HasDigits n d
        → d ≤ 19
        → ((d ≤ length buf)
            × (buf' : List ℕ) × (cc_print_uint64 buf (length buf) n ≡ some (d, buf'))
            × Prints buf buf' 0 d n)
          ⊎ ((length buf < d) × (cc_print_uint64 buf (length buf) n ≡ some (0, buf)))
        → (buf' : List ℕ) × (cc_print_uint64 buf (length buf) n ≡ some (d, buf'))
          × (bstring_atou64 (slice buf' 0 d) ≡ (ok, n))
    printed d has few (inr x) = absurd (omega arith)
    printed d has few (inl (fits, buf', run, text)) =
        let value : value_from 0 (decimal d n) ≡ n = value-decimal d n has.below in
        (
          buf',
          run,
          ap bstring_atou64 text.text
              ∙ bstring_atou64-value (decimal d n) (AreDigits-decimal d n)
                  (omega (arith, length-decimal d n, has.nonzero))
                  (omega (arith, length-decimal d n)) (omega arith)
              ∙ ap (λ t. (ok, t)) value,
        )
