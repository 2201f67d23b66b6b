-- ===== src/Print/Tests.antt =====
-- Runs of the printers on concrete inputs, and their theorems at them.
use ccommon.Prelude.{ℕ, ◌^◌, ◌≤◌, ◌<◌, List, [], ◌∷◌, none, some, ◌≡◌, refl, ◌⊎◌, arith}
use ccommon.Prelude.Int.{negsuc}
use ccommon.Prelude.Memory.{store, overwrite}
use ccommon.Print.{
  digits, digits_from, print_loop, cc_print_uint64, cc_print_int64_unsafe, cc_print_int64,
}
use ccommon.Print.Decimal.{HasDigits, digits_lem}
use ccommon.Print.Unsigned.{Prints, cc_print_uint64_lem}
use ccommon.Print.Signed.{cc_print_int64_underrun}

abbrev four : List ℕ
four = 0 ∷ 0 ∷ 0 ∷ 0 ∷ []

abbrev twenty : List ℕ
twenty = 0 ∷ 0 ∷ 0 ∷ 0 ∷ 0 ∷ 0 ∷ 0 ∷ 0 ∷ 0 ∷ 0 ∷ 0 ∷ 0 ∷ 0 ∷ 0 ∷ 0 ∷ 0 ∷ 0 ∷ 0 ∷ 0 ∷ 0 ∷ []

cc_print_uint64_run : cc_print_uint64 four 4 307 ≡ some (3, b'3' ∷ b'0' ∷ b'7' ∷ 0 ∷ [])
unfolding cc_print_uint64 digits digits_from print_loop store overwrite
cc_print_uint64_run = refl

cc_print_int64_unsafe_run :
    cc_print_int64_unsafe four (negsuc 41) ≡ some (3, b'-' ∷ b'4' ∷ b'2' ∷ 0 ∷ [])
unfolding cc_print_int64_unsafe digits digits_from print_loop store overwrite
cc_print_int64_unsafe_run = refl

digits_lem_example :
    ((307 < 10 ^ 19) × (d : ℕ) × (digits 307 ≡ some d) × HasDigits 307 d × (d ≤ 19))
    ⊎ ((10 ^ 19 ≤ 307) × (digits 307 ≡ none))
digits_lem_example = digits_lem 307

cc_print_uint64_lem_example :
    (d : ℕ) × HasDigits 307 d
    × (((d ≤ 4)
          × (buf' : List ℕ) × (cc_print_uint64 four 4 307 ≡ some (d, buf'))
          × Prints four buf' 0 d 307)
        ⊎ ((4 < d) × (cc_print_uint64 four 4 307 ≡ some (0, four))))
cc_print_uint64_lem_example = cc_print_uint64_lem four 4 307 (omega arith) (omega arith)

cc_print_int64_underrun_example : cc_print_int64 twenty 20 (negsuc 41) ≡ none
cc_print_int64_underrun_example =
    cc_print_int64_underrun twenty 20 41 (omega arith) (omega arith) (omega arith)
