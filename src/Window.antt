-- ===== src/Window.antt =====
-- The cells that a ring holds: those from the read position up to the write position, going round
-- at `size`. Shared by the models of cc_ring_array.c and cc_rbuf.c.
use ccommon.Prelude.{
  ℕ, ◌+◌, ◌-◌, ◌≤◌, ◌<◌, ◌≡◌, sym, ap, ap₂, ◌∙◌, List, ◌++◌, arith, length, take, drop, leb,
  if◌then◌else◌, length-append, take-append_le, drop-append_le, append-nil, append_assoc, le→leb,
  lt→leb,
}
use ccommon.Prelude.Memory.{
  slice, overwrite, slice-add, length-slice, take-slice, slice-overwrite_same,
  slice-overwrite_before, slice-overwrite_after, slice_at, slice-zero, drop-slice,
}

module _ {ℓ} {A : Type ℓ} where
  unfoldable pub window : List A → ℕ → ℕ → ℕ → List A
  window mem size r w =
      if leb r w then slice mem r (w - r) else slice mem r (size - r) ++ slice mem 0 w

  pub window-flat :
      (mem : List A) (size r w : ℕ) → r ≤ w → window mem size r w ≡ slice mem r (w - r)
  unfolding window
  window-flat mem size r w h = rw (le→leb r w h)

  pub window-wrapped :
      (mem : List A) (size r w : ℕ)
      → w < r
      → window mem size r w ≡ slice mem r (size - r) ++ slice mem 0 w
  unfolding window
  window-wrapped mem size r w h = rw (lt→leb r w h)

  -- A write position at the end stands for the start.
  pub window_write_end :
      (mem : List A) (size r : ℕ) → 0 < r → r ≤ size → window mem size r size ≡ window mem size r 0
  window_write_end mem size r h k =
      window-flat mem size r size k
      ∙ sym (append-nil _)
      ∙ ap (◌++◌ (slice mem r (size - r))) (sym (slice-zero mem 0))
      ∙ sym (window-wrapped mem size r 0 h)

  -- A read position at the end stands for the start.
  pub window_read_end :
      (mem : List A) (size w : ℕ) → w < size → window mem size size w ≡ window mem size 0 w
  window_read_end mem size w h =
      window-wrapped mem size size w h
      ∙ ap (λ t. t ++ slice mem 0 w)
          (slice_at mem size (size - size) 0 (omega arith) ∙ slice-zero mem size)
      ∙ slice_at mem 0 w (w - 0) (omega arith)
      ∙ sym (window-flat mem size 0 w (omega arith))

  pub length-window_flat :
      (mem : List A) (size r w : ℕ) → r ≤ w → w ≤ length mem → length (window mem size r w) ≡ w - r
  length-window_flat mem size r w h k =
      ap length (window-flat mem size r w h) ∙ length-slice mem r (w - r) (omega arith)

  pub length-window_wrapped :
      (mem : List A) (size r w : ℕ)
      → w < r
      → r ≤ size
      → size ≤ length mem
      → length (window mem size r w) ≡ size - r + w
  length-window_wrapped mem size r w h k l = omega (
    arith,
    ap length (window-wrapped mem size r w h),
    length-append (slice mem r (size - r)) (slice mem 0 w),
    length-slice mem r (size - r),
    length-slice mem 0 w,
  )

  -- Writing from the write position on extends the window, if the read position is behind.
  pub window-overwrite_flat :
      (mem : List A) (size r w : ℕ) (bytes : List A)
      → r ≤ w
      → w + length bytes ≤ length mem
      → window (overwrite mem w bytes) size r (w + length bytes) ≡ window mem size r w ++ bytes
  window-overwrite_flat mem size r w bytes h k =
      let mem' = overwrite mem w bytes in
      window-flat mem' size r (w + length bytes) (omega arith)
      ∙ slice_at mem' r (w + length bytes - r) (w - r + length bytes) (omega arith)
      ∙ slice-add mem' r (w - r) (length bytes)
      ∙ ap₂ ◌++◌ (slice-overwrite_before mem w r (w - r) bytes (omega arith) k) (
          ap (λ i. slice mem' i (length bytes)) {x = r + (w - r)} {y = w} (omega arith)
          ∙ slice-overwrite_same mem w bytes k)
      ∙ ap (λ t. t ++ bytes) (sym (window-flat mem size r w h))

  -- The same, if the read position is ahead and is not reached.
  pub window-overwrite_wrapped :
      (mem : List A) (size r w : ℕ) (bytes : List A)
      → w + length bytes < r
      → r ≤ size
      → size ≤ length mem
      → window (overwrite mem w bytes) size r (w + length bytes) ≡ window mem size r w ++ bytes
  window-overwrite_wrapped mem size r w bytes h k l =
      let mem' = overwrite mem w bytes in
      window-wrapped mem' size r (w + length bytes) h
      ∙ ap₂ ◌++◌ (slice-overwrite_after mem w r (size - r) bytes (omega arith) (omega arith)) (
          slice-add mem' 0 w (length bytes)
          ∙ ap₂ ◌++◌ (slice-overwrite_before mem w 0 w bytes (omega arith) (omega arith)) (
              ap (λ i. slice mem' i (length bytes)) {x = 0 + w} {y = w} (omega arith)
              ∙ slice-overwrite_same mem w bytes (omega arith)))
      ∙ sym (append_assoc (slice mem r (size - r)) (slice mem 0 w) bytes)
      ∙ ap (λ t. t ++ bytes) (sym (window-wrapped mem size r w (omega arith)))

  -- What is read first, and what is left after it.
  pub window-take_flat :
      (mem : List A) (size r w n : ℕ)
      → r + n ≤ w
      → w ≤ length mem
      → (take n (window mem size r w) ≡ slice mem r n)
        × (drop n (window mem size r w) ≡ window mem size (r + n) w)
  window-take_flat mem size r w n h k = (
    ap (take n) (window-flat mem size r w (omega arith)) ∙ take-slice mem r (w - r) n (omega arith),
    ap (drop n) (window-flat mem size r w (omega arith))
        ∙ drop-slice mem r (w - r) n (omega arith)
        ∙ slice_at mem (r + n) (w - r - n) (w - (r + n)) (omega arith)
        ∙ sym (window-flat mem size (r + n) w h),
  )

  pub window-take_wrapped :
      (mem : List A) (size r w n : ℕ)
      → w < r
      → r + n ≤ size
      → size ≤ length mem
      → (take n (window mem size r w) ≡ slice mem r n)
        × (drop n (window mem size r w) ≡ window mem size (r + n) w)
  window-take_wrapped mem size r w n h k l =
      let first = slice mem r (size - r) in
      let len : length first ≡ size - r = length-slice mem r (size - r) (omega arith) in
      (
        ap (take n) (window-wrapped mem size r w h)
            ∙ take-append_le n first (slice mem 0 w) (omega arith)
            ∙ take-slice mem r (size - r) n (omega arith),
        ap (drop n) (window-wrapped mem size r w h)
            ∙ drop-append_le n first (slice mem 0 w) (omega arith)
            ∙ ap (λ t. t ++ slice mem 0 w)
                (drop-slice mem r (size - r) n (omega arith)
                  ∙ slice_at mem (r + n) (size - r - n) (size - (r + n)) (omega arith))
            ∙ sym (window-wrapped mem size (r + n) w (omega arith)),
      )
