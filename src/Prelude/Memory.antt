-- ===== src/Prelude/Memory.antt =====
-- A block of memory as the list of its bytes. A copy that leaves the block is undefined, `none`.
use ccommon.Prelude.{
  dec_lt, drop-all, lt→leb, le→leb, ◌<◌, ℕ, ◌+◌, ◌-◌, ◌≤◌, ◌≡◌, refl, sym, ap, ◌∙◌, Option, none,
  some, List, [], ◌++◌, arith, length, take, drop, leb, if◌then◌else◌, length-append, length-take,
  length-drop, take-all, take-take, take-add, drop-take, take_at, drop_at, take-append_le,
  drop-append_le, drop-append_ge, drop-drop, min,
}

module _ {ℓ} {A : Type ℓ} where
  -- The `n` cells from index `i` on.
  unfoldable pub slice : List A → ℕ → ℕ → List A
  slice mem i n = take n (drop i mem)

  -- `bytes` laid over the block from index `i` on.
  unfoldable pub overwrite : List A → ℕ → List A → List A
  overwrite mem i bytes = take i mem ++ (bytes ++ drop (i + length bytes) mem)

  -- `cc_memcpy(dst, mem + i, n)`: what is read.
  unfoldable pub load : List A → ℕ → ℕ → Option (List A)
  load mem i n = if leb (i + n) (length mem) then some (slice mem i n) else none

  -- `cc_memcpy(mem + i, bytes, n)`: the block after it.
  unfoldable pub store : List A → ℕ → List A → Option (List A)
  store mem i bytes =
      if leb (i + length bytes) (length mem) then some (overwrite mem i bytes) else none

  pub length-slice : (mem : List A) (i n : ℕ) → i + n ≤ length mem → length (slice mem i n) ≡ n
  unfolding slice
  length-slice mem i n h = omega (arith, length-take n (drop i mem), length-drop i mem)

  -- A slice is its first `n` cells and the `k` cells after them.
  pub slice-add :
      (mem : List A) (i n k : ℕ) → slice mem i (n + k) ≡ slice mem i n ++ slice mem (i + n) k
  unfolding slice
  slice-add mem i n k =
      take-add n k (drop i mem) ∙ ap (λ t. take n (drop i mem) ++ take k t) (drop-drop n i mem)

  pub take-slice : (mem : List A) (i n k : ℕ) → k ≤ n → take k (slice mem i n) ≡ slice mem i k
  unfolding slice
  take-slice mem i n k h =
      take-take k n (drop i mem) ∙ take_at (min k n) k (drop i mem) (omega arith)

  pub length-overwrite :
      (mem : List A) (i : ℕ) (bytes : List A)
      → i + length bytes ≤ length mem
      → length (overwrite mem i bytes) ≡ length mem
  unfolding overwrite
  length-overwrite mem i bytes h = omega (
    arith,
    length-append (take i mem) (bytes ++ drop (i + length bytes) mem),
    length-append bytes (drop (i + length bytes) mem),
    length-take i mem,
    length-drop (i + length bytes) mem,
  )

  drop-overwrite :
      (mem : List A) (i : ℕ) (bytes : List A)
      → i + length bytes ≤ length mem
      → drop i (overwrite mem i bytes) ≡ bytes ++ drop (i + length bytes) mem
  unfolding overwrite
  drop-overwrite mem i bytes h =
      let tail = bytes ++ drop (i + length bytes) mem in
      let len : length (take i mem) ≡ i = omega (arith, length-take i mem) in
      drop-append_ge i (take i mem) tail (omega arith)
      ∙ drop_at (i - length (take i mem)) 0 tail (omega arith)

  -- What was written is read back.
  pub slice-overwrite_same :
      (mem : List A) (i : ℕ) (bytes : List A)
      → i + length bytes ≤ length mem
      → slice (overwrite mem i bytes) i (length bytes) ≡ bytes
  unfolding slice
  slice-overwrite_same mem i bytes h =
      ap (take (length bytes)) (drop-overwrite mem i bytes h)
      ∙ take-append_le (length bytes) bytes (drop (i + length bytes) mem) (omega arith)
      ∙ take-all (length bytes) bytes (omega arith)

  -- Cells before the written ones are unchanged.
  pub slice-overwrite_before :
      (mem : List A) (i j n : ℕ) (bytes : List A)
      → j + n ≤ i
      → i + length bytes ≤ length mem
      → slice (overwrite mem i bytes) j n ≡ slice mem j n
  unfolding slice overwrite
  slice-overwrite_before mem i j n bytes h k =
      let tail = bytes ++ drop (i + length bytes) mem in
      let len : length (take i mem) ≡ i = omega (arith, length-take i mem) in
      ap (take n) (drop-append_le j (take i mem) tail (omega arith))
      ∙ take-append_le n (drop j (take i mem)) tail (omega (arith, length-drop j (take i mem)))
      ∙ ap (λ t. take n (drop j t)) (take_at i (j + (i - j)) mem (omega arith))
      ∙ ap (take n) (drop-take j (i - j) mem)
      ∙ take-take n (i - j) (drop j mem)
      ∙ take_at (min n (i - j)) n (drop j mem) (omega arith)

  -- Cells after the written ones are unchanged.
  pub slice-overwrite_after :
      (mem : List A) (i j n : ℕ) (bytes : List A)
      → i + length bytes ≤ j
      → i + length bytes ≤ length mem
      → slice (overwrite mem i bytes) j n ≡ slice mem j n
  unfolding slice
  slice-overwrite_after mem i j n bytes h k =
      let rest = drop (i + length bytes) mem in
      ap (take n) (
        drop_at j (i + (j - i)) (overwrite mem i bytes) (omega arith)
        ∙ sym (drop-drop (j - i) i (overwrite mem i bytes))
        ∙ ap (drop (j - i)) (drop-overwrite mem i bytes k)
        ∙ drop-append_ge (j - i) bytes rest (omega arith)
        ∙ drop-drop (j - i - length bytes) (i + length bytes) mem
        ∙ drop_at (i + length bytes + (j - i - length bytes)) j mem (omega arith))

  pub slice_at : (mem : List A) (i n m : ℕ) → n ≡ m → slice mem i n ≡ slice mem i m
  slice_at mem i n m e = ap (slice mem i) e

  pub slice-zero : (mem : List A) (i : ℕ) → slice mem i 0 ≡ []
  unfolding slice
  slice-zero mem i = refl

  pub drop-slice :
      (mem : List A) (i n k : ℕ) → k ≤ n → drop k (slice mem i n) ≡ slice mem (i + k) (n - k)
  unfolding slice
  drop-slice mem i n k h =
      ap (drop k) (take_at n (k + (n - k)) (drop i mem) (omega arith))
      ∙ drop-take k (n - k) (drop i mem)
      ∙ ap (take (n - k)) (drop-drop k i mem)

  pub load-some :
      (mem : List A) (i n : ℕ) → i + n ≤ length mem → load mem i n ≡ some (slice mem i n)
  unfolding load
  load-some mem i n h = rw (le→leb (i + n) (length mem) h)

  pub take-min : (n : ℕ) (xs : List A) → take (min n (length xs)) xs ≡ take n xs
  take-min n xs = elim (dec_lt n (length xs)) [
    | yes h ↦ take_at (min n (length xs)) n xs (omega arith)
    | no h ↦
        take_at (min n (length xs)) (length xs) xs (omega arith)
        ∙ take-all (length xs) xs (omega arith)
        ∙ sym (take-all n xs (omega arith))
  ]

  pub drop-min : (n : ℕ) (xs : List A) → drop (min n (length xs)) xs ≡ drop n xs
  drop-min n xs = elim (dec_lt n (length xs)) [
    | yes h ↦ drop_at (min n (length xs)) n xs (omega arith)
    | no h ↦
        drop_at (min n (length xs)) (length xs) xs (omega arith)
        ∙ drop-all (length xs) xs (omega arith)
        ∙ sym (drop-all n xs (omega arith))
  ]

  pub store-some :
      (mem : List A) (i : ℕ) (bytes : List A)
      → i + length bytes ≤ length mem
      → store mem i bytes ≡ some (overwrite mem i bytes)
  unfolding store
  store-some mem i bytes h = rw (le→leb (i + length bytes) (length mem) h)

  pub store-none :
      (mem : List A) (i : ℕ) (bytes : List A)
      → length mem < i + length bytes
      → store mem i bytes ≡ none
  unfolding store
  store-none mem i bytes h = rw (lt→leb (i + length bytes) (length mem) h)
