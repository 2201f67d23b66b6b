-- ===== src/Print/Unsigned.antt =====
-- What the printers of unsigned numbers write.
use native.Mathlib.Nat.{pow-suc, one-le-pow}
use ccommon.Prelude.{
  ℕ, zero, suc, ◌+◌, ◌-◌, ◌*◌, ◌/◌, ◌%◌, ◌^◌, ◌≤◌, ◌<◌, List, [], ◌∷◌, ◌++◌, none, some, ◌≡◌, ◌⊎◌,
  inl, inr, arith, length, ◌∙◌, ap, ap₂, subst, dec_lt, le→ltb, lt→ltb,
}
use ccommon.Prelude.Memory.{
  store-some, slice, overwrite, length-overwrite, slice-add, slice-overwrite_same,
  slice-overwrite_before, slice-overwrite_after, slice_at,
}
use ccommon.Print.{digits, print_loop, cc_print_uint64}
use ccommon.Print.Decimal.{HasDigits, decimal, digits_lem}

-- The loop lays the `d` digits of `n` over the buffer from index `b` on, and leaves the rest alone.
pub record Prints (buf buf' : List ℕ) (b d n : ℕ) : Type 0 where
  pub size : length buf' ≡ length buf
  pub text : slice buf' b d ≡ decimal d n
  pub before : slice buf' 0 b ≡ slice buf 0 b
  pub after : (j m : ℕ) → b + d ≤ j → slice buf' j m ≡ slice buf j m

-- A number of more than one digit, without its last.
pub HasDigits-fewer :
    (n d : ℕ) → HasDigits n (suc (suc d)) → HasDigits (n / 10) (suc d) × (0 < n / 10)
HasDigits-fewer n d h =
    let e : suc (suc d) - 1 ≡ suc d = omega arith in
    let lo : 10 ^ suc d ≤ n = low (suc (suc d) - 1) e h.above in
    let hi : n < 10 ^ suc d * 10 = subst (λ t. n < t) (pow-suc 10 (suc d)) h.below in
    let split : 10 ^ suc d ≡ 10 ^ d * 10 = pow-suc 10 d in
    let one : 1 ≤ 10 ^ d = one-le-pow d 10 (omega arith) in
    let e' : d ≡ suc d - 1 = omega arith in
    (
      record {
        below = omega arith;
        above = inr (subst (λ j. 10 ^ j ≤ n / 10) e' (omega arith));
        nonzero = omega arith;
      },
      omega arith,
    )
  where
    low : (j : ℕ) → j ≡ suc d → (suc (suc d) ≡ 1) ⊎ (10 ^ j ≤ n) → 10 ^ suc d ≤ n
    low j e (inl x) = absurd (omega arith)
    low j e (inr x) = subst (λ t. 10 ^ t ≤ n) e x

print_loop_last :
    (buf : List ℕ) (p n : ℕ)
    → suc p ≤ length buf
    → n / 10 ≡ 0
    → print_loop buf (suc p) n ≡ some (overwrite buf p ((b'0' + n % 10) ∷ []))
unfolding print_loop
print_loop_last buf p n h z =
    rw (store-some buf p ((b'0' + n % 10) ∷ []) (omega arith), le→ltb 0 (n / 10) (omega arith))

print_loop_more :
    (buf : List ℕ) (p n : ℕ)
    → suc p ≤ length buf
    → 0 < n / 10
    → print_loop buf (suc p) n ≡ print_loop (overwrite buf p ((b'0' + n % 10) ∷ [])) p (n / 10)
unfolding print_loop
print_loop_more buf p n h more =
    rw (store-some buf p ((b'0' + n % 10) ∷ []) (omega arith), lt→ltb 0 (n / 10) more)

pub print_loop-Prints :
    (buf : List ℕ) (b d n : ℕ)
    → HasDigits n d
    → b + d ≤ length buf
    → (buf' : List ℕ) × (print_loop buf (b + d) n ≡ some buf') × Prints buf buf' b d n
print_loop-Prints buf b zero n h fits = absurd (omega (arith, h.nonzero))
print_loop-Prints buf b (suc zero) n h fits =
    let c = (b'0' + n % 10) ∷ [] in
    let e : b + 1 ≡ suc b = omega arith in
    let small : n / 10 ≡ 0 = omega (arith, h.below) in
    (
      overwrite buf b c,
      ap (λ p. print_loop buf p n) e ∙ print_loop_last buf b n (omega arith) small,
      record {
        size = length-overwrite buf b c (omega arith);
        text = slice-overwrite_same buf b c (omega arith);
        before = slice-overwrite_before buf b 0 b c (omega arith) (omega arith);
        after = λ j m k. slice-overwrite_after buf b j m c (omega arith) (omega arith);
      },
    )
print_loop-Prints buf b (suc (suc d)) n h fits =
    let c = (b'0' + n % 10) ∷ [] in
    let p = b + suc d in
    let e : b + suc (suc d) ≡ suc p = omega arith in
    let (fewer, more) = HasDigits-fewer n d h in
    let buf1 = overwrite buf p c in
    let len : length buf1 ≡ length buf = length-overwrite buf p c (omega arith) in
    let (buf', run, out) = print_loop-Prints buf1 b (suc d) (n / 10) fewer (omega arith) in
    (
      buf',
      ap (λ q. print_loop buf q n) e ∙ print_loop_more buf p n (omega arith) more ∙ run,
      record {
        size = out.size ∙ len;
        text =
            slice_at buf' b (suc (suc d)) (suc d + 1) (omega arith)
            ∙ slice-add buf' b (suc d) 1
            ∙ ap₂ ◌++◌ out.text
                (out.after p 1 (omega arith) ∙ slice-overwrite_same buf p c (omega arith));
        before = out.before ∙ slice-overwrite_before buf p 0 b c (omega arith) (omega arith);
        after = λ j m k.
            out.after j m (omega arith)
            ∙ slice-overwrite_after buf p j m c (omega arith) (omega arith);
      },
    )

-- `cc_print_uint64` of a number below 10^19, in a buffer of at least `size` bytes, writes the decimal
-- digits of the number at the start, with no leading zero, and returns their count, if `size` has
-- room for them; else it returns 0 and writes nothing. Nothing outside the digits is written.
pub cc_print_uint64_lem :
    (buf : List ℕ) (size n : ℕ)
    → n < 10 ^ 19
    → size ≤ length buf
    → (d : ℕ) × HasDigits n d
      × (((d ≤ size)
            × (buf' : List ℕ) × (cc_print_uint64 buf size n ≡ some (d, buf'))
            × Prints buf buf' 0 d n)
          ⊎ ((size < d) × (cc_print_uint64 buf size n ≡ some (0, buf))))
unfolding cc_print_uint64
cc_print_uint64_lem buf size n h room = split (digits_lem n)
  where
    split :
        ((n < 10 ^ 19) × (d : ℕ) × (digits n ≡ some d) × HasDigits n d × (d ≤ 19))
          ⊎ ((10 ^ 19 ≤ n) × (digits n ≡ none))
        → (d : ℕ) × HasDigits n d
          × (((d ≤ size)
                × (buf' : List ℕ) × (cc_print_uint64 buf size n ≡ some (d, buf'))
                × Prints buf buf' 0 d n)
              ⊎ ((size < d) × (cc_print_uint64 buf size n ≡ some (0, buf))))
    split (inr x) = absurd (omega arith)
    split (inl (lt, d, e, has, k)) = (
      d,
      has,
      elim (dec_lt size d) [
        | yes small ↦ inr (small, rw (e, cc_print_uint64, lt→ltb size d small))
        | no enough ↦
            let (buf', run, out) = print_loop-Prints buf 0 d n has (omega arith) in
            let run' : print_loop buf d n ≡ some buf' =
              ap (λ p. print_loop buf p n) {x = d} {y = 0 + d} (omega arith) ∙ run in
            inl (omega arith, buf', rw (e, le→ltb size d (omega arith), run'), out)
      ],
    )
