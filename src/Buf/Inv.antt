-- ===== src/Buf/Inv.antt =====
-- The representation invariant and the contents of a buffer.
use ccommon.Prelude.{◌+◌, ◌-◌, ◌≤◌, ◌<◌, List, ◌≡◌, arith, length}
use ccommon.Prelude.Words.{u32_mod}
use ccommon.Prelude.Memory.{slice, length-slice}
use ccommon.Buf.{Buf, buf_hdr_size, buf_rsize, buf_wsize, buf_size, buf_capacity}

pub record IsValid {ℓ} {A : Type ℓ} (buf : Buf A) : Type ℓ where
  pub storage : length buf.bytes ≡ buf.end
  pub small : buf.end + buf_hdr_size < u32_mod
  pub rpos_in : buf.rpos ≤ buf.wpos
  pub wpos_in : buf.wpos ≤ buf.end

module _ {ℓ} {A : Type ℓ} where
  -- The bytes written and not yet read.
  abbrev pub unread : Buf A → List A
  unread buf = slice buf.bytes buf.rpos (buf.wpos - buf.rpos)

  -- On a valid buffer the sizes are those of the parts: unread bytes, room to write, and the whole
  -- with and without the header; the read offset, the unread bytes and the room make up the
  -- capacity.
  sizes_lem :
      {buf : Buf A}
      → IsValid buf
      → (buf_rsize buf ≡ length (unread buf))
        × (buf.rpos + buf_rsize buf + buf_wsize buf ≡ buf_capacity buf)
        × (buf_capacity buf + buf_hdr_size ≡ buf_size buf)
  unfolding buf_rsize buf_wsize buf_size buf_capacity
  sizes_lem {buf} v = (
    omega (arith, length-slice buf.bytes buf.rpos (buf.wpos - buf.rpos)),
    omega arith,
    omega arith,
  )

  pub rsize_lem : {buf : Buf A} → IsValid buf → buf_rsize buf ≡ buf.wpos - buf.rpos
  unfolding buf_rsize
  rsize_lem v = omega arith

  pub wsize_lem : {buf : Buf A} → IsValid buf → buf_wsize buf ≡ buf.end - buf.wpos
  unfolding buf_wsize
  wsize_lem v = omega arith

  pub size_lem : {buf : Buf A} → IsValid buf → buf_size buf ≡ buf.end + buf_hdr_size
  unfolding buf_size
  size_lem v = omega arith
