-- ===== src/Array/Tests.antt =====
-- Runs of the arrays on concrete inputs, and their theorems at them.
use ccommon.Prelude.{
  ℕ, zero, suc, ◌+◌, ◌≤◌, List, [], ◌∷◌, ◌++◌, Option, some, none, ◌≡◌, refl, ◌∙◌, ap, sym, arith,
  length, take, min, length-take, length-append, take-take, take_at, take-append_le, eq_of_some,
  ltb, if◌then◌else◌,
}
use ccommon.Status.{Status, ok, error}
use ccommon.Array.{Array, array_push, array_each, array_get, each_from, expanded}
use ccommon.Array.Grow.{IsValid, Grows, Pushes, array_push-Pushes}

zeros : ℕ → List ℕ
zeros zero = []
zeros (suc n) = 0 ∷ zeros n

length-zeros : (n : ℕ) → length (zeros n) ≡ n
unfolding zeros
length-zeros zero = refl
length-zeros (suc n) = omega (arith, length-zeros n)

abbrev grow : Option (List ℕ) → ℕ → Option (List ℕ)
grow none n = none
grow (some bytes) n = some (take n (bytes ++ zeros n))

length-grown : (bytes : List ℕ) (m : ℕ) → length (take m (bytes ++ zeros m)) ≡ m
length-grown bytes m =
    omega (arith, length-take m (bytes ++ zeros m), length-append bytes (zeros m), length-zeros m)

take-grown :
    (bytes : List ℕ) (m k : ℕ)
    → k ≤ length bytes
    → k ≤ m
    → take k (take m (bytes ++ zeros m)) ≡ take k bytes
take-grown bytes m k h l =
    take-take k m (bytes ++ zeros m)
    ∙ take_at (min k m) k (bytes ++ zeros m) (omega arith)
    ∙ take-append_le k bytes (zeros m) h

grow-Grows : Grows grow
grow-Grows = record {
  size = λ bytes n out e. omega (arith, length-grown bytes n, ap length (eq_of_some e));
  keeps = λ bytes n out k h l e. ap (take k) (sym (eq_of_some e)) ∙ take-grown bytes n k h l;
}

-- Two elements of two bytes.
abbrev full : Array ℕ
full = record { size = 2; nalloc = 2; nelem = 2; bytes = some (1 ∷ 2 ∷ 3 ∷ 4 ∷ []) }

full-IsValid : IsValid full (1 ∷ 2 ∷ 3 ∷ 4 ∷ [])
full-IsValid = record {
  storage = refl;
  room = refl;
  some_size = omega arith;
  some_alloc = omega arith;
  few = omega arith;
  small = omega arith;
  fits = omega arith;
}

expanded_run : expanded 16 2 ≡ 4
unfolding expanded
expanded_run = refl

array_push-Pushes_example : Pushes grow 16 full (1 ∷ 2 ∷ 3 ∷ 4 ∷ []) (array_push grow 16 full)
array_push-Pushes_example =
    array_push-Pushes grow 16 full (1 ∷ 2 ∷ 3 ∷ 4 ∷ []) grow-Grows full-IsValid (omega arith)
      (omega arith) (omega arith)

-- It adds up the addresses, and fails on the second element.
abbrev until_two : ℕ → ℕ → Status × ℕ
until_two s off = (if ltb off 2 then ok else error, s + off)

array_each_run : array_each until_two full 7 ≡ (1, error, 9)
unfolding array_each each_from array_get
array_each_run = refl
