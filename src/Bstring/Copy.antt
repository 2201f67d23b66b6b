-- ===== src/Bstring/Copy.antt =====
-- Comparing and copying byte strings.
use ccommon.Prelude.{
  ℕ, ◌<◌, List, [], ◌∷◌, ◌≡◌, arith, length, ap, ◌≢◌, ne→==, eq→==, lt→ltb, Bool, true, false, ◌↔◌,
  ℕ_discrete, ◌⊎◌, sym, ◌∙◌,
}
use ccommon.Prelude.Words.{u32_mod, sub32}
use ccommon.Prelude.Int.{ℤ, pos}
use ccommon.Status.{ok, enomem}
use ccommon.Bstring.{
  Bstring, bstring_compare, bstring_copy, bstring_duplicate, bstring_deinit, bstring_empty,
  bstring_init,
}

-- `bstring_compare` of strings of different lengths below 2^32 is 256 whichever is the longer: the
-- difference of the lengths is unsigned, so it is never below 0.
bstring_compare-lengths :
    (bcmp : List ℕ → List ℕ → ℤ) (s1 s2 : Bstring)
    → length s1 < u32_mod
    → length s2 < u32_mod
    → length s1 ≢ length s2
    → bstring_compare bcmp s1 s2 ≡ pos 256
unfolding bstring_compare
bstring_compare-lengths bcmp s1 s2 h k ne =
    rw (ne→== (length s1) (length s2) ne, lt→ltb 0 (sub32 (length s1) (length s2)) (omega arith))

-- With a `bcmp` that is 0 exactly on equal bytes of one length, as documented, `bstring_compare` of
-- strings shorter than 2^32 bytes is 0 exactly on equal strings.
bstring_compare-zero :
    (bcmp : List ℕ → List ℕ → ℤ) (s1 s2 : Bstring)
    → ((a b : List ℕ) → length a ≡ length b → (bcmp a b ≡ pos 0) ↔ (a ≡ b))
    → length s1 < u32_mod
    → length s2 < u32_mod
    → (bstring_compare bcmp s1 s2 ≡ pos 0) ↔ (s1 ≡ s2)
bstring_compare-zero bcmp s1 s2 law h k = elim (ℕ_discrete (length s1) (length s2)) [
  | yes e ↦
      let same : bstring_compare bcmp s1 s2 ≡ bcmp s1 s2 =
        unfold bstring_compare in rw (eq→== (length s1) (length s2) e) in
      ((λ z. (law s1 s2 e).0 (sym same ∙ z)), λ q. same ∙ (law s1 s2 e).1 q)
  | no ne ↦
      let far : bstring_compare bcmp s1 s2 ≡ pos 256 = bstring_compare-lengths bcmp s1 s2 h k ne in
      ((λ z. absurd (ground (arith, far))), λ q. absurd (ne (ap length q)))
]

-- A copy of a string is that string, and needs as many bytes as the string has; when they cannot be
-- had the result is the empty string and says so. Releasing a string leaves it empty.
bstring_copy_lem :
    (alloc : ℕ → Bool) (src : Bstring)
    → (bstring_duplicate alloc src ≡ bstring_copy alloc src)
      × (((alloc (length src) ≡ true) × (bstring_copy alloc src ≡ (ok, src)))
          ⊎ ((alloc (length src) ≡ false) × (bstring_copy alloc src ≡ (enomem, bstring_init))))
      × (bstring_empty (bstring_deinit src) ≡ true)
unfolding bstring_copy bstring_duplicate bstring_deinit bstring_empty bstring_init
bstring_copy_lem alloc [] = ground arith
bstring_copy_lem alloc (c ∷ cs) = ground arith
