-- ===== src/RingArray/Inv.antt =====
-- The representation invariant, and the contents of a ring array.
use ccommon.Prelude.{◌+◌, ◌≤◌, ◌<◌, List, ◌≡◌, arith, length}
use ccommon.Prelude.Words.{u32_mod}
use ccommon.Window.{window, length-window_flat, length-window_wrapped}
use ccommon.RingArray.{RingArray, ring_array_nelem}

-- Both positions lie in the array of `cap + 1` cells, and 32 bits hold `cap + 1`.
pub record IsValid {ℓ} {A : Type ℓ} (arr : RingArray A) : Type ℓ where
  pub storage : length arr.cells ≡ arr.cap + 1
  pub small : arr.cap + 1 < u32_mod
  pub rpos_in : arr.rpos ≤ arr.cap
  pub wpos_in : arr.wpos ≤ arr.cap

module _ {ℓ} {A : Type ℓ} where
  abbrev pub contents : RingArray A → List A
  contents arr = window arr.cells (arr.cap + 1) arr.rpos arr.wpos

  -- `ring_array_nelem` is the number of elements held, which is at most the capacity.
  pub nelem-length :
      {arr : RingArray A}
      → IsValid arr
      → (ring_array_nelem arr.rpos arr.wpos arr.cap ≡ length (contents arr))
        × (length (contents arr) ≤ arr.cap)
  unfolding ring_array_nelem
  nelem-length {arr} v = ground (
    arith,
    length-window_flat arr.cells (arr.cap + 1) arr.rpos arr.wpos,
    length-window_wrapped arr.cells (arr.cap + 1) arr.rpos arr.wpos,
  )
