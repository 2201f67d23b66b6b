-- ===== src/Array.antt =====
-- src/cc_array.c and include/cc_array.h: growing arrays of elements of one size.
-- `bytes` is the block at `data`, of bytes; the address of an element is its offset in the block, and the
-- caller writes the element there. The static `max_nelem_delta` is a parameter.
pub mod Grow
pub mod Each
mod Tests
use ccommon.Prelude.{
  ℕ, zero, suc, ◌+◌, ◌-◌, ◌*◌, ◌/◌, ◌%◌, ◌^◌, List, Option, none, some, Bool, true, false,
  if◌then◌else◌, leb, ◌==◌,
}
use ccommon.Prelude.Words.{add32, sub32, mul64, u32_mod}
use ccommon.Status.{Status, ok, error, enomem, is_ok}

-- `struct array`.
pub record Array {ℓ} (A : Type ℓ) : Type ℓ where
  pub size : ℕ
  pub nalloc : ℕ
  pub nelem : ℕ
  pub bytes : Option (List A)

-- What a `struct array *` is after a call: null, an array, or the address of a block that has been
-- freed.
pub data Pointer {ℓ} (A : Type ℓ) : Type ℓ where
  null : Pointer A
  live : Array A → Pointer A
  freed : Pointer A

-- `array_get`: the offset of an element.
unfoldable pub array_get {ℓ} : {A : Type ℓ} → Array A → ℕ → ℕ
array_get arr idx = mul64 arr.size idx

-- The status and the state after a call of the caller's function on each element from `i` on.
unfoldable pub each_from {ℓ κ} :
    {A : Type ℓ} {S : Type κ} → (S → ℕ → Status × S) → Array A → ℕ → ℕ → S → ℕ × Status × S
each_from func arr zero i s = (i, ok, s)
each_from func arr (suc left) i s =
    let (status, s') = func s (array_get arr i) in
    let rest = each_from func arr left (i + 1) s' in if is_ok status then rest else (i, status, s')

-- The number of elements that `_array_expand` asks for.
unfoldable pub expanded : ℕ → ℕ → ℕ
expanded delta nalloc = if leb delta nalloc then add32 nalloc delta else nalloc * 2 % u32_mod

module _ {ℓ} {A : Type ℓ} where
  -- `array_nfree`: the difference is of two `uint32_t`.
  unfoldable pub array_nfree : Array A → ℕ
  array_nfree arr = sub32 arr.nalloc arr.nelem

  -- `array_last`.
  unfoldable pub array_last : Array A → ℕ
  unfolding array_get
  array_last arr = array_get arr (sub32 arr.nelem 1)

  -- `array_locate` of an address at or behind the start of the block, where the index fits in an
  -- `int`.
  unfoldable pub array_locate : Array A → ℕ → Option ℕ
  array_locate arr elem =
      if elem / arr.size * arr.size == elem then some (elem / arr.size) else none

  -- `array_data_create`.
  unfoldable pub array_data_create : (ℕ → Option (List A)) → Array A → ℕ → ℕ → Status × Array A
  array_data_create alloc arr nalloc size = elim (alloc (mul64 nalloc size)) [
    | none ↦ (enomem, record arr { bytes = none })
    | some bytes ↦ (ok, record { size = size; nalloc = nalloc; nelem = 0; bytes = some bytes })
  ]

  -- `array_create`, where `fresh` is the new structure if it can be allocated.
  unfoldable pub array_create :
      Option (Array A) → (ℕ → Option (List A)) → ℕ → ℕ → Status × Pointer A
  unfolding array_data_create
  array_create none alloc nalloc size = (enomem, null)
  array_create (some fresh) alloc nalloc size =
      let (status, arr) = array_data_create alloc fresh nalloc size in
      if is_ok status then (ok, live arr) else (status, freed)

  -- `array_destroy`. Freeing the array again is undefined, `none`.
  unfoldable pub array_destroy : Pointer A → Option (Pointer A)
  array_destroy null = some null
  array_destroy (live arr) = some null
  array_destroy freed = none

  -- `_array_expand` after the call of `realloc`.
  abbrev pub expand_to : Array A → ℕ → Option (List A) → Status × Array A
  expand_to arr nalloc none = (error, arr)
  expand_to arr nalloc (some bytes) = (ok, record arr { bytes = some bytes; nalloc = nalloc })

  -- `_array_expand`.
  unfoldable pub _array_expand :
      (Option (List A) → ℕ → Option (List A)) → ℕ → Array A → Status × Array A
  _array_expand realloc delta arr =
      let nalloc = expanded delta arr.nalloc in
      expand_to arr nalloc (realloc arr.bytes (mul64 nalloc arr.size))

  -- The end of `array_push`.
  abbrev pub pushed : Status × Array A → Option ℕ × Array A
  pushed (status, arr) = elim status [
    | ok ↦ let arr' = record arr { nelem = add32 arr.nelem 1 } in (some (array_last arr'), arr')
    | _ ↦ (none, arr)
  ]

  -- `array_push`: the offset of the new element, or none.
  unfoldable pub array_push :
      (Option (List A) → ℕ → Option (List A)) → ℕ → Array A → Option ℕ × Array A
  unfolding _array_expand array_last
  array_push realloc delta arr =
      if arr.nelem == arr.nalloc then pushed (_array_expand realloc delta arr) else pushed (ok, arr)

  -- `array_pop`: the offset of the last element, and the array without it.
  unfoldable pub array_pop : Array A → ℕ × Array A
  unfolding array_get
  array_pop arr = (array_get arr (sub32 arr.nelem 1), record arr { nelem = sub32 arr.nelem 1 })

  -- `array_each`: the index returned, `*err` if it is set, and the state after it.
  unfoldable pub array_each {κ} : {S : Type κ} → (S → ℕ → Status × S) → Array A → S → ℕ × Status × S
  unfolding each_from
  array_each func arr s = each_from func arr arr.nelem 0 s
