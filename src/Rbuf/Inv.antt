-- ===== src/Rbuf/Inv.antt =====
-- The representation invariant and the contents of a ring buffer, and what the two capacity
-- functions say of them.
use ccommon.Prelude.{ℕ, ◌+◌, ◌≤◌, ◌<◌, List, ◌≡◌, arith, length, min}
use ccommon.Prelude.Words.{u32_mod}
use ccommon.Window.{window, length-window_flat, length-window_wrapped}
use ccommon.Rbuf.{Rbuf, rbuf_rcap, rbuf_wcap, min32}

-- A position may stand at `cap + 1`, one past the end: a copy that ends there leaves it there, and
-- the next one goes on at the start.
pub record IsValid {ℓ} {A : Type ℓ} (buf : Rbuf A) : Type ℓ where
  pub storage : length buf.bytes ≡ buf.cap + 1
  pub small : buf.cap + 1 < u32_mod
  pub rpos_in : buf.rpos ≤ buf.cap + 1
  pub wpos_in : buf.wpos ≤ buf.cap + 1
  pub held : buf.wpos ≤ buf.rpos + buf.cap

module _ {ℓ} {A : Type ℓ} where
  abbrev pub contents : Rbuf A → List A
  contents buf = window buf.bytes (buf.cap + 1) buf.rpos buf.wpos

  -- `rbuf_rcap` is the number of unread bytes, and `rbuf_wcap` makes it up to the capacity.
  rbuf_rcap-add-wcap :
      {buf : Rbuf A}
      → IsValid buf
      → (rbuf_rcap buf ≡ length (contents buf)) × (rbuf_rcap buf + rbuf_wcap buf ≡ buf.cap)
  unfolding rbuf_rcap rbuf_wcap
  rbuf_rcap-add-wcap {buf} v = ground (
    arith,
    length-window_flat buf.bytes (buf.cap + 1) buf.rpos buf.wpos,
    length-window_wrapped buf.bytes (buf.cap + 1) buf.rpos buf.wpos,
  )

pub min32_lem : (a b : ℕ) → a < u32_mod → b < u32_mod → min32 a b ≡ min a b
min32_lem a b h k = ground arith
