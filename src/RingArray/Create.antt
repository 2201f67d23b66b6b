-- ===== src/RingArray/Create.antt =====
-- What `ring_array_create` returns.
use ccommon.Prelude.{
  ℕ, ◌+◌, ◌-◌, ◌<◌, List, [], Option, none, some, ◌≡◌, refl, arith, length, ◌∙◌, Option-cases, inl,
  inr, ◌⊎◌,
}
use ccommon.Prelude.Words.{u32_mod, add32}
use ccommon.Prelude.Memory.{slice_at, slice-zero}
use ccommon.Window.{window-flat}
use ccommon.RingArray.{RingArray, ring_array_create}
use ccommon.RingArray.Inv.{IsValid, contents}

module _ {ℓ} {A : Type ℓ} where
  -- An allocator that returns as many cells as it is asked for.
  abbrev pub Allocates : (ℕ → Option (List A)) → Type ℓ
  Allocates alloc = (n : ℕ) (cells : List A) → alloc n ≡ some cells → length cells ≡ n

  -- A ring array is created exactly when the allocation succeeds; with an allocator that returns as
  -- many cells as asked for, and a capacity below 2^32 - 1, it is then valid, empty and of the
  -- capacity asked for.
  ring_array_create_lem :
      (alloc : ℕ → Option (List A)) (elem_size cap : ℕ)
      → Allocates alloc
      → cap + 1 < u32_mod
      → ((arr : RingArray A) × ((ring_array_create alloc elem_size cap ≡ some arr)
            × IsValid arr
            × (contents arr ≡ [])
            × (arr.cap ≡ cap)))
        ⊎ ((alloc (cap + 1) ≡ none) × (ring_array_create alloc elem_size cap ≡ none))
  unfolding ring_array_create
  ring_array_create_lem alloc elem_size cap law h =
      let e : add32 cap 1 ≡ cap + 1 = omega arith in
      elim (Option-cases (alloc (cap + 1))) [
        | inl out ↦ inr (out, rw (e, out))
        | inr (cells, got) ↦ inl (
          record { elem_size = elem_size; cap = cap; rpos = 0; wpos = 0; cells = cells },
          (
            rw (e, got),
            omega (arith, law (cap + 1) cells got),
            window-flat cells (cap + 1) 0 0 (omega arith)
                ∙ slice_at cells 0 (0 - 0) 0 (omega arith)
                ∙ slice-zero cells 0,
            refl,
          ),
        )
      ]
