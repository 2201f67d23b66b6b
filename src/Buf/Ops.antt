-- ===== src/Buf/Ops.antt =====
-- What reading, writing and shifting do to the unread bytes.
use ccommon.Prelude.{
  ℕ, ◌+◌, ◌-◌, ◌≤◌, List, [], ◌∷◌, ◌++◌, some, ◌≡◌, refl, arith, length, ◌∙◌, ap, ap₂, sym, take,
  drop, min, lt→ltb, le→ltb, dec_lt, ne→==, length-take, append-nil, take-nil, take-take, take_at,
  drop_at,
}
use ccommon.Prelude.Memory.{
  slice, overwrite, length-slice, length-overwrite, slice_at, slice-zero, slice-add, take-slice,
  drop-slice, slice-overwrite_same, slice-overwrite_before, load-some, store-some, take-min,
  drop-min,
}
use ccommon.Buf.{
  Buf, buf_rsize, buf_wsize, buf_read, buf_write, buf_lshift, buf_rshift, move_unread,
}
use ccommon.Buf.Inv.{IsValid, unread, rsize_lem, wsize_lem}

module _ {ℓ} {A : Type ℓ} where
  -- `buf_read` copies out the first `count` unread bytes, or all of them if there are fewer,
  -- returns their number and leaves the others unread; it keeps a valid buffer valid, and its size.
  pub buf_read_lem :
      {buf : Buf A} (count : ℕ)
      → IsValid buf
      → (buf' : Buf A) × (buf_read buf count
          ≡ some (min (length (unread buf)) count, take count (unread buf), buf'))
        × (unread buf' ≡ drop count (unread buf))
        × IsValid buf'
        × (buf'.end ≡ buf.end)
  buf_read_lem {buf} count v =
      let n = buf.wpos - buf.rpos in
      let all = unread buf in
      let len : length all ≡ n = length-slice buf.bytes buf.rpos n (omega arith) in
      let k = min (length all) count in
      let size : buf_rsize buf ≡ length all = rsize_lem v ∙ sym len in
      let k' : min count (length all) ≡ k = omega arith in
      let out : slice buf.bytes buf.rpos k ≡ take count all =
        sym (take-slice buf.bytes buf.rpos n k (omega arith))
        ∙ take_at k (min count (length all)) all (sym k')
        ∙ take-min count all in
      (
        record buf { rpos = buf.rpos + k },
        unfold buf_read in rw (size, load-some buf.bytes buf.rpos k (omega arith), out),
        slice_at buf.bytes (buf.rpos + k) (buf.wpos - (buf.rpos + k)) (n - k) (omega arith)
            ∙ sym (drop-slice buf.bytes buf.rpos n k (omega arith))
            ∙ drop_at k (min count (length all)) all (sym k')
            ∙ drop-min count all,
        omega arith,
        refl,
      )

  lshift_run :
      (buf : Buf A) (bytes' : List A)
      → move_unread buf (buf_rsize buf) 0 ≡ some bytes'
      → buf_lshift buf ≡ some (record buf { bytes = bytes'; rpos = 0; wpos = buf_rsize buf })
  unfolding buf_lshift
  lshift_run buf bytes' e = rw e

  rshift_run :
      (buf : Buf A) (bytes' : List A)
      → move_unread buf (buf_rsize buf) (buf.end - buf_rsize buf) ≡ some bytes'
      → buf_rshift buf
        ≡ some (record buf { bytes = bytes'; rpos = buf.end - buf_rsize buf; wpos = buf.end })
  unfolding buf_rshift
  rshift_run buf bytes' e = rw e

  -- Taking no more than there is.
  take_at_wsize :
      (k w : ℕ) (src : List A) → k ≡ min w (length src) → take k (take k src) ≡ take w src
  take_at_wsize k w src e =
      take-take k k src ∙ take_at (min k k) (min w (length src)) src (omega arith) ∙ take-min w src

  -- `buf_write` to a valid buffer appends the first bytes of `src` to the unread bytes, as many as there
  -- are bytes from the write position to the end, or all of `src` if it is shorter, and returns their
  -- number; it keeps the buffer valid, and its size.
  pub buf_write_lem :
      {buf : Buf A} (src : List A)
      → IsValid buf
      → (buf' : Buf A) × (buf_write buf src ≡ some (min (buf.end - buf.wpos) (length src), buf'))
        × (unread buf' ≡ unread buf ++ take (buf.end - buf.wpos) src)
        × IsValid buf'
        × (buf'.end ≡ buf.end)
  buf_write_lem {buf} [] v = (
    buf,
    unfold buf_write in
        (ap (λ k. some (k, buf)) {x = 0} {y = min (buf.end - buf.wpos) 0} (omega arith)),
    sym (append-nil (unread buf)) ∙ ap (◌++◌ (unread buf)) (sym (take-nil (buf.end - buf.wpos))),
    v,
    refl,
  )
  buf_write_lem {buf} (x ∷ xs) v =
      let src = x ∷ xs in
      let k = min (buf.end - buf.wpos) (length src) in
      let room : buf_wsize buf ≡ buf.end - buf.wpos = wsize_lem v in
      let len : length (take k src) ≡ k = omega (arith, length-take k src) in
      let bytes' = overwrite buf.bytes buf.wpos (take k src) in
      let n = buf.wpos - buf.rpos in
      (
        record buf { bytes = bytes'; wpos = buf.wpos + k },
        unfold buf_write in
            rw (
              ne→== (length src) 0 (omega arith),
              room,
              store-some buf.bytes buf.wpos (take k src) (omega arith),
            ),
        slice_at bytes' buf.rpos (buf.wpos + k - buf.rpos) (n + k) (omega arith)
            ∙ slice-add bytes' buf.rpos n k
            ∙ ap₂ ◌++◌
                (slice-overwrite_before buf.bytes buf.wpos buf.rpos n (take k src) (omega arith)
                  (omega arith))
                (ap (λ i. slice bytes' i k) {x = buf.rpos + n} {y = buf.wpos} (omega arith)
                  ∙ slice_at bytes' buf.wpos k (length (take k src)) (sym len)
                  ∙ slice-overwrite_same buf.bytes buf.wpos (take k src) (omega arith)
                  ∙ sym (take-take k k src ∙ take_at (min k k) k src (omega arith))
                  ∙ take_at_wsize k (buf.end - buf.wpos) src refl),
        omega (arith, length-overwrite buf.bytes buf.wpos (take k src)),
        refl,
      )

  -- Moving the unread bytes inside the block keeps them.
  move_unread_lem :
      {buf : Buf A} (size to : ℕ)
      → IsValid buf
      → size ≡ buf.wpos - buf.rpos
      → to + size ≤ buf.end
      → (bytes' : List A) × (move_unread buf size to ≡ some bytes')
        × (slice bytes' to size ≡ unread buf)
        × (length bytes' ≡ buf.end)
  move_unread_lem {buf} size to v e fits = elim (dec_lt 0 size) [
    | yes more ↦
        let moved = slice buf.bytes buf.rpos size in
        let len : length moved ≡ size = length-slice buf.bytes buf.rpos size (omega arith) in
        (
          overwrite buf.bytes to moved,
          unfold move_unread in
              rw (
                lt→ltb 0 size more,
                load-some buf.bytes buf.rpos size (omega arith),
                store-some buf.bytes to moved (omega arith),
              ),
          slice_at (overwrite buf.bytes to moved) to size (length moved) (sym len)
              ∙ slice-overwrite_same buf.bytes to moved (omega arith)
              ∙ slice_at buf.bytes buf.rpos size (buf.wpos - buf.rpos) e,
          length-overwrite buf.bytes to moved (omega arith) ∙ v.storage,
        )
    | no none_left ↦ (
      buf.bytes,
      unfold move_unread in rw (le→ltb 0 size (omega arith)),
      slice_at buf.bytes to size 0 (omega arith)
          ∙ slice-zero buf.bytes to
          ∙ sym (slice-zero buf.bytes buf.rpos)
          ∙ slice_at buf.bytes buf.rpos 0 (buf.wpos - buf.rpos) (omega arith),
      v.storage,
    )
  ]

  -- `buf_lshift` moves the unread bytes to the start, in order, so that all the other room is behind
  -- them; it keeps a valid buffer valid, and its size.
  pub buf_lshift_lem :
      {buf : Buf A}
      → IsValid buf
      → (buf' : Buf A) × (buf_lshift buf ≡ some buf')
        × (unread buf' ≡ unread buf)
        × (buf'.rpos ≡ 0)
        × IsValid buf'
        × (buf'.end ≡ buf.end)
  buf_lshift_lem {buf} v =
      let size : buf_rsize buf ≡ buf.wpos - buf.rpos = rsize_lem v in
      let (bytes', run, kept, len) = move_unread_lem (buf_rsize buf) 0 v size (omega arith) in
      (
        record buf { bytes = bytes'; rpos = 0; wpos = buf_rsize buf },
        lshift_run buf bytes' run,
        slice_at bytes' 0 (buf_rsize buf - 0) (buf_rsize buf) (omega arith) ∙ kept,
        refl,
        omega arith,
        refl,
      )

  -- `buf_rshift` moves the unread bytes to the end, in order, so that no room is behind them; it
  -- keeps a valid buffer valid, and its size.
  buf_rshift_lem :
      {buf : Buf A}
      → IsValid buf
      → (buf' : Buf A) × (buf_rshift buf ≡ some buf')
        × (unread buf' ≡ unread buf)
        × (buf'.wpos ≡ buf.end)
        × IsValid buf'
        × (buf'.end ≡ buf.end)
  buf_rshift_lem {buf} v =
      let size : buf_rsize buf ≡ buf.wpos - buf.rpos = rsize_lem v in
      let to = buf.end - buf_rsize buf in
      let (bytes', run, kept, len) = move_unread_lem (buf_rsize buf) to v size (omega arith) in
      (
        record buf { bytes = bytes'; rpos = to; wpos = buf.end },
        rshift_run buf bytes' run,
        slice_at bytes' to (buf.end - to) (buf_rsize buf) (omega arith) ∙ kept,
        refl,
        omega arith,
        refl,
      )
