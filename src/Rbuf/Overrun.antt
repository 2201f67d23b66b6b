-- ===== src/Rbuf/Overrun.antt =====
-- `rbuf_write` when the read position is 0 and the bytes do not fit: the limit `rpos - 1` of the
-- second copy wraps round.
use ccommon.Prelude.{
  ◌+◌, ◌-◌, ◌≤◌, ◌<◌, List, ◌++◌, none, some, ◌≡◌, arith, length, ◌∙◌, ap, take, drop, lt→ltb,
  le→ltb, take-all, ◌>>=◌, length-take, length-drop, ◌≢◌, length-append,
}
use ccommon.Prelude.Words.{u32_mod, add32, sub32, sub64, add64}
use ccommon.Prelude.Memory.{store-none, store-some, store, overwrite, length-overwrite}
use ccommon.Window.{length-window_flat}
use ccommon.Rbuf.{Rbuf, rbuf_write, rbuf_wcap, write_wrapped, min32}
use ccommon.Rbuf.Inv.{IsValid, contents, min32_lem}
use ccommon.Rbuf.Write.{wcap_wrapped}

module _ {ℓ} {A : Type ℓ} where
  -- The state of the second copy: all the bytes that are left over go to the start.
  first_copy :
      {buf : Rbuf A} (src : List A)
      → IsValid buf
      → buf.rpos ≡ 0
      → length src < u32_mod
      → buf.cap + 1 < buf.wpos + length src
      → let a = buf.cap + 1 - buf.wpos in
        let mem = overwrite buf.bytes buf.wpos (take a src) in
        (rbuf_write buf src ≡ (
          store mem 0 (drop a src) >>= λ bytes'.
          some (length src, record buf { bytes = bytes'; wpos = length src - a })))
        × (length mem ≡ buf.cap + 1)
        × (length (drop a src) ≡ length src - a)
  unfolding rbuf_write write_wrapped
  first_copy {buf} src v z h long =
      let n = length src in
      let a = buf.cap + 1 - buf.wpos in
      let len1 : length (take a src) ≡ a = omega (arith, length-take a src) in
      let len2 : length (drop a src) ≡ n - a = length-drop a src in
      let cnt : min32 (add32 (sub32 buf.cap buf.wpos) 1) n ≡ a =
        min32_lem (add32 (sub32 buf.cap buf.wpos) 1) n (omega arith) h ∙ omega arith in
      let left : sub64 n a ≡ n - a = omega arith in
      let cnt' : min32 (sub32 buf.rpos 1) (n - a) ≡ n - a =
        min32_lem (sub32 buf.rpos 1) (n - a) (omega arith) (omega arith) ∙ omega arith in
      let total : add64 a (n - a) ≡ n = omega arith in
      let all : take (n - a) (drop a src) ≡ drop a src =
        take-all (n - a) (drop a src) (omega arith) in
      (
        rw (
          le→ltb buf.wpos buf.rpos (omega arith),
          cnt,
          store-some buf.bytes buf.wpos (take a src) (omega arith),
          lt→ltb a n (omega arith),
          left,
          cnt',
          all,
          total,
        ),
        omega (arith, length-overwrite buf.bytes buf.wpos (take a src)),
        len2,
      )

  -- In a valid ring whose read position is 0, a write of fewer than 2^32 bytes that exceeds the space
  -- that `rbuf_wcap` reports by more than the capacity and two bytes copies outside the ring.
  pub rbuf_write-overrun :
      {buf : Rbuf A} (src : List A)
      → IsValid buf
      → buf.rpos ≡ 0
      → length src < u32_mod
      → rbuf_wcap buf + (buf.cap + 2) < length src
      → rbuf_write buf src ≡ none
  rbuf_write-overrun {buf} src v z h long =
      let room = wcap_wrapped v (omega arith) in
      let a = buf.cap + 1 - buf.wpos in
      let (e, len, rest) = first_copy src v z h (omega arith) in
      e
      ∙ ap
          (λ r.
            r >>= λ bytes'. some (length src, record buf { bytes = bytes'; wpos = length src - a }))
          (store-none (overwrite buf.bytes buf.wpos (take a src)) 0 (drop a src) (omega arith))

  -- In a valid ring whose read position is 0, a write that exceeds the space that `rbuf_wcap`
  -- reports by at least two bytes and at most the capacity and two reports that all its bytes were
  -- taken, and the unread bytes are then not the former ones followed by those written.
  rbuf_write-overfull :
      {buf : Rbuf A} (src : List A)
      → IsValid buf
      → buf.rpos ≡ 0
      → length src < u32_mod
      → rbuf_wcap buf + 1 < length src
      → length src ≤ rbuf_wcap buf + (buf.cap + 2)
      → (buf' : Rbuf A) × (rbuf_write buf src ≡ some (length src, buf'))
        × (contents buf' ≢ contents buf ++ src)
  rbuf_write-overfull {buf} src v z h long fits =
      let room = wcap_wrapped v (omega arith) in
      let a = buf.cap + 1 - buf.wpos in
      let mem = overwrite buf.bytes buf.wpos (take a src) in
      let mem' = overwrite mem 0 (drop a src) in
      let (e, len, rest) = first_copy src v z h (omega arith) in
      let len' : length mem' ≡ buf.cap + 1 =
        length-overwrite mem 0 (drop a src) (omega arith) ∙ len in
      let w = length src - a in
      (
        record buf { bytes = mem'; wpos = w },
        e
            ∙ ap (λ r. r >>= λ bytes'. some (length src, record buf { bytes = bytes'; wpos = w }))
                (store-some mem 0 (drop a src) (omega arith)),
        λ same. omega (
          arith,
          ap length same,
          length-append (contents buf) src,
          length-window_flat mem' (buf.cap + 1) buf.rpos w (omega arith) (omega arith),
          length-window_flat buf.bytes (buf.cap + 1) buf.rpos buf.wpos (omega arith) (omega arith),
        ),
      )
