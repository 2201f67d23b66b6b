-- ===== src/Print/Signed.antt =====
-- What the printers of signed numbers write.
use ccommon.Prelude.{
  ℕ, zero, suc, ◌+◌, ◌-◌, ◌/◌, ◌%◌, ◌^◌, ◌≤◌, ◌<◌, List, [], ◌∷◌, ◌++◌, Option, none, some, ◌≡◌,
  refl, ◌⊎◌, inl, inr, arith, length, leb, ◌∙◌, ap, ap₂, subst, le→ltb, lt→ltb, Bool-cases,
  ℕ_discrete,
}
use ccommon.Prelude.Int.{ℤ, pos, negsuc}
use ccommon.Prelude.Memory.{
  store-some, slice, store, overwrite, length-overwrite, slice-add, slice-overwrite_same, slice_at,
}
use ccommon.Print.{digits, print_loop, cc_print_int64_unsafe, cc_print_int64, to_u64}
use ccommon.Print.Decimal.{HasDigits, decimal, digits_lem}
use ccommon.Print.Unsigned.{print_loop-Prints, HasDigits-fewer}

-- The absolute value.
abbrev pub magnitude : ℤ → ℕ
magnitude (pos n) = n
magnitude (negsuc n) = suc n

-- The sign and the digits of a number of `d` digits.
abbrev pub signed_text : ℕ → ℤ → List ℕ
signed_text d (pos n) = decimal d n
signed_text d (negsuc n) = b'-' ∷ decimal d (suc n)

abbrev pub sign_width : ℤ → ℕ
sign_width (pos n) = 0
sign_width (negsuc n) = 1

-- The loop meets the start of the buffer if the number has more digits than there is room for.
print_loop-none :
    (p : ℕ) (buf : List ℕ) (n d : ℕ) → HasDigits n d → p < d → print_loop buf p n ≡ none
unfolding print_loop store
print_loop-none zero buf n d h k = refl
print_loop-none (suc p) buf n zero h k = absurd (omega arith)
print_loop-none (suc p) buf n (suc zero) h k = absurd (omega arith)
print_loop-none (suc p) buf n (suc (suc d)) h k =
    let (fewer, more) = HasDigits-fewer n d h in
    let c = (b'0' + n % 10) ∷ [] in
    elim (Bool-cases (leb (p + 1) (length buf))) [
      | inl fits ↦
          rw (fits, lt→ltb 0 (n / 10) more)
            (print_loop-none p (overwrite buf p c) (n / 10) (suc d) fewer (omega arith))
      | inr out ↦ rw out
    ]

-- What a printer of a signed number returns and writes at the start of a buffer.
abbrev pub PrintsSigned : List ℕ → ℤ → Option (ℕ × List ℕ) → Type 0
PrintsSigned buf n r =
    (d : ℕ) × HasDigits (magnitude n) d
    × (buf' : List ℕ) × (r ≡ some (d + sign_width n, buf'))
    × (slice buf' 0 (d + sign_width n) ≡ signed_text d n)
    × (length buf' ≡ length buf)

-- The digits, known to exist below 10^19.
digits-some : (n : ℕ) → n < 10 ^ 19 → (d : ℕ) × (digits n ≡ some d) × HasDigits n d × (d ≤ 19)
digits-some n h = split (digits_lem n)
  where
    split :
        ((n < 10 ^ 19) × (d : ℕ) × (digits n ≡ some d) × HasDigits n d × (d ≤ 19))
          ⊎ ((10 ^ 19 ≤ n) × (digits n ≡ none))
        → (d : ℕ) × (digits n ≡ some d) × HasDigits n d × (d ≤ 19)
    split (inr x) = absurd (omega arith)
    split (inl (lt, d, e, has, k)) = (d, e, has, k)

-- A positive number, at the start of the buffer.
print_pos :
    (buf : List ℕ) (n d : ℕ)
    → HasDigits n d
    → d ≤ length buf
    → (buf' : List ℕ) × (print_loop buf d n ≡ some buf')
      × (slice buf' 0 (d + 0) ≡ decimal d n)
      × (length buf' ≡ length buf)
print_pos buf n d has room =
    let (buf', run, out) = print_loop-Prints buf 0 d n has (omega arith) in
    (
      buf',
      ap (λ p. print_loop buf p n) {x = d} {y = 0 + d} (omega arith) ∙ run,
      slice_at buf' 0 (d + 0) d (omega arith) ∙ out.text,
      out.size,
    )

-- A negative number, behind its sign.
print_neg :
    (buf : List ℕ) (n d : ℕ)
    → HasDigits n d
    → 1 + d ≤ length buf
    → (buf' : List ℕ) × (print_loop (overwrite buf 0 (b'-' ∷ [])) (1 + d) n ≡ some buf')
      × (slice buf' 0 (d + 1) ≡ b'-' ∷ decimal d n)
      × (length buf' ≡ length buf)
print_neg buf n d has room =
    let buf1 = overwrite buf 0 (b'-' ∷ []) in
    let len : length buf1 ≡ length buf = length-overwrite buf 0 (b'-' ∷ []) (omega arith) in
    let (buf', run, out) = print_loop-Prints buf1 1 d n has (omega arith) in
    (
      buf',
      run,
      slice_at buf' 0 (d + 1) (1 + d) (omega arith)
          ∙ slice-add buf' 0 1 d
          ∙ ap₂ ◌++◌ (out.before ∙ slice-overwrite_same buf 0 (b'-' ∷ []) (omega arith))
              (ap (λ i. slice buf' i d) {x = 0 + 1} {y = 1} (omega arith) ∙ out.text),
      out.size ∙ len,
    )

-- `cc_print_int64_unsafe` of a number of absolute value below 2^63, in a buffer of 20 bytes or more,
-- writes the sign of a negative number and the decimal digits of the absolute value at the start
-- of the buffer, and returns the length of that text.
pub cc_print_int64_unsafe_lem :
    (buf : List ℕ) (n : ℤ)
    → magnitude n < 2 ^ 63
    → 20 ≤ length buf
    → PrintsSigned buf n (cc_print_int64_unsafe buf n)
unfolding cc_print_int64_unsafe
cc_print_int64_unsafe_lem buf (pos n) h room =
    let (d, e, has, k) = digits-some n (omega arith) in
    let (buf', run, text, size) = print_pos buf n d has (omega arith) in
    let zero_width : d ≡ d + 0 = omega arith in
    (d, has, buf', rw (e, run) (ap (λ t. some (t, buf')) zero_width), text, size)
cc_print_int64_unsafe_lem buf (negsuc n) h room =
    let (d, e, has, k) = digits-some (suc n) (omega arith) in
    let (buf', run, text, size) = print_neg buf (suc n) d has (omega arith) in
    (
      d,
      has,
      buf',
      rw (lt→ltb n (2 ^ 63 - 1) (omega arith), store-some buf 0 (b'-' ∷ []) (omega arith), e, run),
      text,
      size,
    )

-- The 20 digits of a small negative number, converted to 64 bits without sign.
to_u64-HasDigits : (k : ℕ) → k < 10 ^ 18 → HasDigits (to_u64 (negsuc k)) 20
to_u64-HasDigits k h = record {
  below = omega arith;
  above = inr (omega arith);
  nonzero = omega arith;
}

digits_bound : (n d : ℕ) → HasDigits n d → n < 10 ^ 18 → d ≤ 19 → d ≤ 18
digits_bound n d has h k = elim (ℕ_discrete d 19) [
  | yes e ↦ absurd (too_many (subst (λ j. HasDigits n j) e has))
  | no ne ↦ omega arith
]
  where
    high : ◌≡◌ {A = ℕ} 19 1 ⊎ (10 ^ (19 - 1) ≤ n) → ⊥
    high (inl x) = omega arith
    high (inr x) = omega arith

    too_many : HasDigits n 19 → ⊥
    too_many x = high x.above

-- `cc_print_int64` of a negative number of absolute value below 10^18, in a buffer of 20 bytes or
-- more whose stated size is 20 or more too, writes before the start of the buffer: it lays out
-- the 20 digits of the number's unsigned conversion where there is room for its own digits only.
pub cc_print_int64_underrun :
    (buf : List ℕ) (size k : ℕ)
    → k < 10 ^ 18 - 1
    → 20 ≤ length buf
    → 20 ≤ size
    → cc_print_int64 buf size (negsuc k) ≡ none
unfolding cc_print_int64
cc_print_int64_underrun buf size k h room enough =
    let (d, e, has, bound) = digits-some (suc k) (omega arith) in
    let small : d ≤ 18 = digits_bound (suc k) d has (omega arith) bound in
    rw (
      lt→ltb k (2 ^ 63 - 1) (omega arith),
      e,
      le→ltb size (d + 1) (omega arith),
      store-some buf 0 (b'-' ∷ []) (omega arith),
      print_loop-none (1 + d) (overwrite buf 0 (b'-' ∷ [])) (to_u64 (negsuc k)) 20
          (to_u64-HasDigits k (omega arith)) (omega arith),
    )

-- `cc_print_int64` of a number that is not negative and below 10^19 writes its decimal digits at the
-- start of a buffer of 20 bytes or more, and returns their count.
cc_print_int64_pos :
    (buf : List ℕ) (size n : ℕ)
    → n < 10 ^ 19
    → 20 ≤ length buf
    → 20 ≤ size
    → PrintsSigned buf (pos n) (cc_print_int64 buf size (pos n))
unfolding cc_print_int64
cc_print_int64_pos buf size n h room enough =
    let (d, e, has, k) = digits-some n h in
    let (buf', run, text, size') = print_pos buf n d has (omega arith) in
    let zero_width : d ≡ d + 0 = omega arith in
    (
      d,
      has,
      buf',
      rw (e, le→ltb size d (omega arith), run) (ap (λ t. some (t, buf')) zero_width),
      text,
      size',
    )
