-- ===== src/RingArray.antt =====
-- src/cc_ring_array.c: a ring of fixed-size elements between one pusher and one popper.
-- An element is one opaque cell, so `arr->data + elem_size * pos` is cell `pos`.
pub mod Queue
pub mod Inv
pub mod Refine
pub mod Create
mod Tests
use ccommon.Prelude.{
  ℕ, ◌+◌, ◌-◌, ◌%◌, ◌^◌, List, [], ◌∷◌, Option, none, some, Bool, true, false, if◌then◌else◌, leb,
  ◌==◌, ◌>>=◌,
}
use ccommon.Prelude.Words.{add32, sub32}
use ccommon.Prelude.Memory.{load, store}
use ccommon.Status.{Status, ok, error}
use Queue.{Call, push, pop, flush, Reply}

-- `struct ring_array`.
pub record RingArray {ℓ} (A : Type ℓ) : Type ℓ where
  pub elem_size : ℕ
  pub cap : ℕ
  pub rpos : ℕ
  pub wpos : ℕ
  pub cells : List A

-- `ring_array_nelem`.
pub ring_array_nelem : ℕ → ℕ → ℕ → ℕ
ring_array_nelem rpos wpos cap =
    if leb rpos wpos then sub32 wpos rpos else add32 wpos (add32 (sub32 cap rpos) 1)

module _ {ℓ} {A : Type ℓ} where
  -- `ring_array_full`.
  pub ring_array_full : RingArray A → Bool
  unfolding ring_array_nelem
  ring_array_full arr = ring_array_nelem arr.rpos arr.wpos arr.cap == arr.cap

  -- `ring_array_empty`.
  pub ring_array_empty : RingArray A → Bool
  unfolding ring_array_nelem
  ring_array_empty arr = ring_array_nelem arr.rpos arr.wpos arr.cap == 0

  -- `ring_array_push`. `none` is a copy outside the array.
  pub ring_array_push : A → RingArray A → Option (Status × RingArray A)
  unfolding ring_array_full
  ring_array_push elem arr = if ring_array_full arr then some (error, arr) else (do
    cells ← store arr.cells arr.wpos (elem ∷ [])
    some (ok, record arr { cells = cells; wpos = add32 arr.wpos 1 % add32 arr.cap 1 }))

  -- `ring_array_pop`, where `wanted` says that the caller gave a place for the element. The list
  -- holds what is copied to that place.
  pub ring_array_pop : Bool → RingArray A → Option (Status × List A × RingArray A)
  unfolding ring_array_empty
  ring_array_pop wanted arr = if ring_array_empty arr then some (error, [], arr) else (do
    out ← if wanted then load arr.cells arr.rpos 1 else some []
    some (ok, out, record arr { rpos = add32 arr.rpos 1 % add32 arr.cap 1 }))

  -- `ring_array_flush`.
  pub ring_array_flush : RingArray A → RingArray A
  ring_array_flush arr = record arr { rpos = arr.wpos }

  -- `ring_array_create`. The allocator gets the number of cells, which `cap + 1` computes in 32
  -- bits; the cells that it returns are not initialised.
  pub ring_array_create : (ℕ → Option (List A)) → ℕ → ℕ → Option (RingArray A)
  ring_array_create alloc elem_size cap = do
    cells ← alloc (add32 cap 1)
    some (record { elem_size = elem_size; cap = cap; rpos = 0; wpos = 0; cells = cells })

  -- A client's calls in order, with what each returns and copies out.
  pub run : RingArray A → List (Call A) → Option (List (Reply A))
  run arr [] = some []
  run arr (push x ∷ cs) = do
    (s, arr') ← ring_array_push x arr
    rest ← run arr' cs
    some ((s, []) ∷ rest)
  run arr (pop wanted ∷ cs) = do
    (s, out, arr') ← ring_array_pop wanted arr
    rest ← run arr' cs
    some ((s, out) ∷ rest)
  run arr (flush ∷ cs) = do rest ← run (ring_array_flush arr) cs; some ((ok, []) ∷ rest)
