-- ===== src/Array/Grow.antt =====
-- Pushing and popping: the new element is inside the block, and the others keep their bytes.
use native.Mathlib.Nat.{mul-le-mul_right}
use ccommon.Prelude.{
  ℕ, ◌+◌, ◌-◌, ◌*◌, ◌≤◌, ◌<◌, List, Option, none, some, ◌≡◌, refl, ◌∙◌, ap, ap₂, arith, length,
  take, min, eq→==, ne→==, ℕ_discrete, ◌⊎◌, inl, inr, Option-cases,
}
use ccommon.Prelude.Words.{add32, sub32, mul64, u32_mod, u64_mod}
use ccommon.Status.{ok, error}
use ccommon.Array.{
  Array, array_get, array_last, array_push, array_pop, _array_expand, expanded, pushed, expand_to,
}

-- `bytes` is the block of an array of elements of one byte or more.
pub record IsValid {ℓ} {A : Type ℓ} (arr : Array A) (bytes : List A) : Type ℓ where
  pub storage : arr.bytes ≡ some bytes
  pub room : length bytes ≡ arr.nalloc * arr.size
  pub some_size : 0 < arr.size
  pub some_alloc : 0 < arr.nalloc
  pub few : arr.nelem ≤ arr.nalloc
  pub small : arr.nalloc < u32_mod
  pub fits : arr.nalloc * arr.size < u64_mod

-- What the code relies on of `realloc`.
pub record Grows {ℓ} {A : Type ℓ} (realloc : Option (List A) → ℕ → Option (List A)) : Type ℓ where
  pub size :
      (bytes : List A) (n : ℕ) (out : List A) → realloc (some bytes) n ≡ some out → length out ≡ n
  pub keeps :
      (bytes : List A) (n : ℕ) (out : List A) (k : ℕ)
      → k ≤ length bytes
      → k ≤ n
      → realloc (some bytes) n ≡ some out
      → take k out ≡ take k bytes

expanded_lem :
    (delta nalloc : ℕ)
    → 2 * nalloc + delta < u32_mod
    → expanded delta nalloc ≡ nalloc + min nalloc delta
unfolding expanded
expanded_lem delta nalloc l = ground arith

module _ {ℓ} {A : Type ℓ} where
  -- The number of elements that a full array grows to.
  abbrev pub grown_to : ℕ → Array A → ℕ
  grown_to delta arr = arr.nalloc + min arr.nalloc delta

  -- A new element of an array whose block is `bytes`, or none when the array is full and `realloc`
  -- refuses the larger block.
  abbrev pub Pushes :
      (Option (List A) → ℕ → Option (List A)) → ℕ → Array A → List A → Option ℕ × Array A → Type ℓ
  Pushes realloc delta arr bytes r =
      ((arr' : Array A) × (bytes' : List A) × (r ≡ (some (arr.nelem * arr.size), arr'))
        × (arr.nelem * arr.size + arr.size ≤ length bytes')
        × (take (arr.nelem * arr.size) bytes' ≡ take (arr.nelem * arr.size) bytes)
        × (arr'.nelem ≡ arr.nelem + 1)
        × (arr'.size ≡ arr.size)
        × (((arr.nelem < arr.nalloc) × (arr'.nalloc ≡ arr.nalloc))
            ⊎ ((arr.nelem ≡ arr.nalloc) × (arr'.nalloc ≡ grown_to delta arr)))
        × IsValid arr' bytes')
      ⊎ ((arr.nelem ≡ arr.nalloc)
          × (realloc (some bytes) (grown_to delta arr * arr.size) ≡ none)
          × (r ≡ (none, arr)))

  -- The next element of an array that is not full.
  pushed-Pushes :
      (arr : Array A) (bytes : List A)
      → IsValid arr bytes
      → arr.nelem < arr.nalloc
      → (pushed (ok, arr) ≡ (some (arr.nelem * arr.size), record arr { nelem = arr.nelem + 1 }))
        × (arr.nelem * arr.size + arr.size ≤ length bytes)
        × IsValid (record arr { nelem = arr.nelem + 1 }) bytes
  unfolding array_last array_get
  pushed-Pushes arr bytes v h =
      let next : (arr.nelem + 1) * arr.size ≤ arr.nalloc * arr.size =
        mul-le-mul_right arr.size (omega arith) in
      let count : add32 arr.nelem 1 ≡ arr.nelem + 1 = omega arith in
      let back : sub32 (arr.nelem + 1) 1 ≡ arr.nelem = omega arith in
      let off : mul64 arr.size arr.nelem ≡ arr.nelem * arr.size = omega arith in
      (
        rw (count, back, off),
        omega arith,
        record {
          storage = v.storage;
          room = v.room;
          some_size = v.some_size;
          some_alloc = v.some_alloc;
          few = omega arith;
          small = v.small;
          fits = v.fits;
        },
      )

  expand_none :
      (realloc : Option (List A) → ℕ → Option (List A)) (delta : ℕ) (arr : Array A)
      → realloc arr.bytes (mul64 (expanded delta arr.nalloc) arr.size) ≡ none
      → _array_expand realloc delta arr ≡ (error, arr)
  unfolding _array_expand
  expand_none realloc delta arr e = ap (expand_to arr (expanded delta arr.nalloc)) e

  expand_some :
      (realloc : Option (List A) → ℕ → Option (List A)) (delta : ℕ) (arr : Array A) (out : List A)
      → realloc arr.bytes (mul64 (expanded delta arr.nalloc) arr.size) ≡ some out
      → _array_expand realloc delta arr
        ≡ (ok, record arr { bytes = some out; nalloc = expanded delta arr.nalloc })
  unfolding _array_expand
  expand_some realloc delta arr out e = ap (expand_to arr (expanded delta arr.nalloc)) e

  -- `array_push` on a valid array, over a `realloc` as documented and while the sizes fit in their
  -- types, gives the address right behind the last element, inside the block, where there is room
  -- for a whole element, and keeps the bytes of all the elements. A full array grows for it, to
  -- twice its size or by `max_nelem_delta`, which is not 0, if that is less; the push fails only when
  -- the array is full and `realloc` does not give a block of that size, and then changes nothing.
  pub array_push-Pushes :
      (realloc : Option (List A) → ℕ → Option (List A)) (delta : ℕ) (arr : Array A) (bytes : List A)
      → Grows realloc
      → IsValid arr bytes
      → 0 < delta
      → 2 * arr.nalloc + delta < u32_mod
      → grown_to delta arr * arr.size < u64_mod
      → Pushes realloc delta arr bytes (array_push realloc delta arr)
  array_push-Pushes realloc delta arr bytes law v h small fits =
      elim (ℕ_discrete arr.nelem arr.nalloc) [
        | no ne ↦
            let (run, room, v') = pushed-Pushes arr bytes v (omega arith) in
            inl (
              record arr { nelem = arr.nelem + 1 },
              bytes,
              unfold array_push in rw (ne→== arr.nelem arr.nalloc ne) run,
              room,
              refl,
              refl,
              refl,
              inl (omega arith, refl),
              v',
            )
        | yes full ↦
            grown full (Option-cases (realloc (some bytes) (grown_to delta arr * arr.size)))
      ]
    where
      target : expanded delta arr.nalloc ≡ grown_to delta arr
      target = expanded_lem delta arr.nalloc small

      asked : mul64 (expanded delta arr.nalloc) arr.size ≡ grown_to delta arr * arr.size
      asked = ap (λ n. mul64 n arr.size) target ∙ omega arith

      grown :
          arr.nelem ≡ arr.nalloc
          → (realloc (some bytes) (grown_to delta arr * arr.size) ≡ none)
            ⊎ ((out : List A) × (realloc (some bytes) (grown_to delta arr * arr.size) ≡ some out))
          → Pushes realloc delta arr bytes (array_push realloc delta arr)
      grown full (inl e) =
          let size = asked in
          inr (
            full,
            e,
            unfold array_push in
                rw (
                  eq→== arr.nelem arr.nalloc full,
                  expand_none realloc delta arr (ap₂ realloc v.storage size ∙ e),
                ),
          )
      grown full (inr (out, e)) =
          let n = grown_to delta arr in
          let size = asked in
          let more : arr.nalloc < n = omega (arith, v.some_alloc, h) in
          let bound : n < u32_mod = omega arith in
          let len = law.size bytes (n * arr.size) out e in
          let arr1 = record arr { bytes = some out; nalloc = n } in
          let v1 : IsValid arr1 out = record {
            storage = refl;
            room = len;
            some_size = v.some_size;
            some_alloc = omega arith;
            few = omega arith;
            small = bound;
            fits = fits;
          } in
          let (run, room, v') = pushed-Pushes arr1 out v1 (omega arith) in
          let same : arr.nelem * arr.size ≡ arr.nalloc * arr.size = ap (λ k. k * arr.size) full in
          let wider : arr.nalloc * arr.size ≤ n * arr.size =
            mul-le-mul_right arr.size (omega arith) in
          inl (
            record arr1 { nelem = arr.nelem + 1 },
            out,
            unfold array_push in
                rw
                  (
                    eq→== arr.nelem arr.nalloc full,
                    (expand_some realloc delta arr out (ap₂ realloc v.storage size ∙ e)
                        ∙ ap (λ k. (ok, record arr { bytes = some out; nalloc = k })) target),
                  )
                  run,
            room,
            law.keeps bytes (n * arr.size) out (arr.nelem * arr.size) (omega (arith, v.room))
                (omega arith) e,
            refl,
            refl,
            inr (full, refl),
            v',
          )

  -- `array_pop` of a valid array that is not empty gives the address of the last element, and leaves a
  -- valid array of one element fewer with the same block, to which `array_push` gives that address
  -- again.
  array_pop_lem :
      (realloc : Option (List A) → ℕ → Option (List A)) (delta : ℕ) (arr : Array A) (bytes : List A)
      → IsValid arr bytes
      → 0 < arr.nelem
      → (arr' : Array A) × (array_pop arr ≡ ((arr.nelem - 1) * arr.size, arr'))
        × IsValid arr' bytes
        × (array_push realloc delta arr' ≡ (some ((arr.nelem - 1) * arr.size), arr))
  array_pop_lem realloc delta arr bytes v h =
      let k = arr.nelem - 1 in
      let arr' = record arr { nelem = k } in
      let v' : IsValid arr' bytes = record {
        storage = v.storage;
        room = v.room;
        some_size = v.some_size;
        some_alloc = v.some_alloc;
        few = omega arith;
        small = v.small;
        fits = v.fits;
      } in
      let less : k * arr.size ≤ arr.nalloc * arr.size = mul-le-mul_right arr.size (omega arith) in
      let (run, room, v'') = pushed-Pushes arr' bytes v' (omega arith) in
      let back : sub32 arr.nelem 1 ≡ k = omega arith in
      let off : mul64 arr.size k ≡ k * arr.size = omega arith in
      let again : k + 1 ≡ arr.nelem = omega arith in
      (
        arr',
        unfold array_pop array_get in rw (back, off),
        v',
        unfold array_push in
            rw (ne→== k arr.nalloc (omega arith))
              (run ∙ ap (λ n. (some (k * arr.size), record arr { nelem = n })) again),
      )
