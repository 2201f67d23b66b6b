-- ===== src/Bstring/Tests.antt =====
-- Runs of the parsers on concrete inputs, and the theorems on byte strings at them.
use ccommon.Prelude.{
  ℕ, ◌%◌, ◌≤◌, List, [], ◌∷◌, ◌++◌, none, some, ◌≡◌, refl, ◌↔◌, arith, length, Bool, true, false,
  ◌==◌, leb, if◌then◌else◌, ◌∙◌, ap, sym,
}
use ccommon.Prelude.Words.{u64_mod}
use ccommon.Prelude.Int.{ℤ, pos, negsuc}
use ccommon.Prelude.Memory.{slice}
use ccommon.Status.{ok, error}
use ccommon.Print.{cc_print_uint64, cc_print_int64_unsafe}
use ccommon.Print.Decimal.{value_from}
use ccommon.Bstring.{
  bstring_atou64, atou64_from, bstring_atoi64, atoi64_bytes, atoi64_from, with_sign,
}
use ccommon.Bstring.Parse.{bstring_atou64-wraps, atou64-print}
use ccommon.Bstring.Signed.{bstring_atoi64-overflow, atoi64-print}

abbrev text : List ℕ
text = b'3' ∷ b'0' ∷ b'7' ∷ []

abbrev nines : List ℕ
nines =
    b'9' ∷ b'9' ∷ b'9' ∷ b'9' ∷ b'9' ∷ b'9' ∷ b'9' ∷ b'9' ∷ b'9' ∷ b'9' ∷ b'9' ∷ b'9' ∷ b'9' ∷ b'9'
    ∷ b'9' ∷ b'9' ∷ b'9' ∷ b'9' ∷ []

abbrev twenty : List ℕ
twenty = 0 ∷ 0 ∷ 0 ∷ 0 ∷ 0 ∷ 0 ∷ 0 ∷ 0 ∷ 0 ∷ 0 ∷ 0 ∷ 0 ∷ 0 ∷ 0 ∷ 0 ∷ 0 ∷ 0 ∷ 0 ∷ 0 ∷ 0 ∷ []

atou64_run : bstring_atou64 (b'3' ∷ b'x' ∷ []) ≡ (error, 3)
unfolding bstring_atou64 atou64_from
atou64_run = refl

atoi64_run : bstring_atoi64 (pos 5) (b'-' ∷ b'4' ∷ b'2' ∷ []) ≡ some (ok, negsuc 41)
unfolding bstring_atoi64 atoi64_bytes atoi64_from with_sign
atoi64_run = refl

-- A minus sign alone is read as 0.
atoi64_sign_run : bstring_atoi64 (pos 5) (b'-' ∷ []) ≡ some (ok, pos 0)
unfolding bstring_atoi64 atoi64_bytes atoi64_from with_sign
atoi64_sign_run = refl

bstring_atou64-wraps_example :
    (bstring_atou64 ((b'9' ∷ nines) ++ (b'0' ∷ []))
      ≡ (ok, value_from 0 ((b'9' ∷ nines) ++ (b'0' ∷ [])) % u64_mod))
    × (u64_mod ≤ value_from 0 ((b'9' ∷ nines) ++ (b'0' ∷ [])))
bstring_atou64-wraps_example =
    bstring_atou64-wraps (b'9' ∷ nines) b'0' (omega arith) refl (omega arith) (omega arith)
      (omega arith)

atou64-print_example :
    (d : ℕ) × (buf' : List ℕ) × (cc_print_uint64 twenty (length twenty) 307 ≡ some (d, buf'))
    × (bstring_atou64 (slice buf' 0 d) ≡ (ok, 307))
atou64-print_example = atou64-print twenty 307 (omega arith) (omega arith)

bstring_atoi64-overflow_example : bstring_atoi64 (pos 5) (nines ++ (b'9' ∷ [])) ≡ none
bstring_atoi64-overflow_example =
    bstring_atoi64-overflow (pos 5) nines b'9' (omega arith) (omega arith) (omega arith) refl
      (omega arith)

atoi64-print_example :
    (len : ℕ) × (buf' : List ℕ) × (cc_print_int64_unsafe twenty (negsuc 41) ≡ some (len, buf'))
    × (bstring_atoi64 (pos 5) (slice buf' 0 len) ≡ some (ok, negsuc 41))
atoi64-print_example = atoi64-print (pos 5) twenty (negsuc 41) (omega arith) (omega arith)

-- A comparison of bytes of the documented kind.
abbrev same_bytes : List ℕ → List ℕ → Bool
same_bytes [] [] = true
same_bytes [] (y ∷ ys) = false
same_bytes (x ∷ xs) [] = false
same_bytes (x ∷ xs) (y ∷ ys) = let rest = same_bytes xs ys in if x == y then rest else false

abbrev bcmp : List ℕ → List ℕ → ℤ
bcmp xs ys = if same_bytes xs ys then pos 0 else pos 1

same_bytes-true : (xs ys : List ℕ) → same_bytes xs ys ≡ true → xs ≡ ys
same_bytes-true [] [] h = refl
same_bytes-true [] (y ∷ ys) h = ground arith
same_bytes-true (x ∷ xs) [] h = ground arith
same_bytes-true (x ∷ xs) (y ∷ ys) h = ground (arith, same_bytes-true xs ys)

same_bytes_refl : (xs : List ℕ) → same_bytes xs xs ≡ true
same_bytes_refl [] = refl
same_bytes_refl (x ∷ xs) = ground (arith, same_bytes_refl xs)

bcmp_law : (a b : List ℕ) → length a ≡ length b → (bcmp a b ≡ pos 0) ↔ (a ≡ b)
bcmp_law a b h = (
  (λ z. ground (arith, same_bytes-true a b)),
  λ e. ap (bcmp a) (sym e) ∙ rw (same_bytes_refl a) refl,
)

abbrev enough : ℕ → Bool
enough n = leb n 100
