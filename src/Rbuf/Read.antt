-- ===== src/Rbuf/Read.antt =====
-- `rbuf_read` takes bytes off the front of the contents.
use ccommon.Prelude.{
  ℕ, ◌+◌, ◌-◌, ◌≤◌, ◌<◌, List, ◌++◌, Option, some, ◌≡◌, refl, arith, length, min, ◌∙◌, ap, sym,
  take, drop, lt→ltb, le→ltb, take-append_ge, drop-append_ge, dec_lt, take_at, drop_at,
}
use ccommon.Prelude.Words.{u32_mod, add32, sub32, sub64, add64}
use ccommon.Prelude.Memory.{load-some, take-min, drop-min, slice, length-slice, slice_at}
use ccommon.Window.{
  window, length-window_flat, length-window_wrapped, window-take_flat, window-take_wrapped,
  window-flat, window-wrapped,
}
use ccommon.Rbuf.{Rbuf, rbuf_read, read_flat, read_wrapped, min32}
use ccommon.Rbuf.Inv.{IsValid, contents, min32_lem}

module _ {ℓ} {A : Type ℓ} where
  -- What a read of `n` bytes does to a ring.
  abbrev pub Reads : Rbuf A → ℕ → Option (ℕ × List A × Rbuf A) → Type ℓ
  Reads buf n r =
      (buf' : Rbuf A) × (r ≡ some (min n (length (contents buf)), take n (contents buf), buf'))
      × (contents buf' ≡ drop n (contents buf))
      × IsValid buf'
      × (buf'.cap ≡ buf.cap)

  read_flat-Reads :
      {buf : Rbuf A} (n : ℕ)
      → IsValid buf
      → n < u32_mod
      → buf.rpos ≤ buf.wpos
      → Reads buf n (read_flat buf n)
  unfolding read_flat
  read_flat-Reads {buf} n v h k =
      let m = min n (length (contents buf)) in
      let len : length (contents buf) ≡ buf.wpos - buf.rpos =
        length-window_flat buf.bytes (buf.cap + 1) buf.rpos buf.wpos k (omega arith) in
      let cnt : min32 (sub32 buf.wpos buf.rpos) n ≡ m =
        min32_lem (sub32 buf.wpos buf.rpos) n (omega arith) h ∙ omega arith in
      let pos : add32 buf.rpos m ≡ buf.rpos + m = omega arith in
      let (first, left) =
        window-take_flat buf.bytes (buf.cap + 1) buf.rpos buf.wpos m (omega arith) (omega arith) in
      (
        record buf { rpos = buf.rpos + m },
        rw (cnt, load-some buf.bytes buf.rpos m (omega arith), ← first, pos)
            (rw (take-min n (contents buf))),
        sym left ∙ drop-min n (contents buf),
        omega arith,
        refl,
      )

  -- A read that stops before the end of the array, or at it.
  read_wrapped-Reads_short :
      {buf : Rbuf A} (n : ℕ)
      → IsValid buf
      → n < u32_mod
      → buf.wpos < buf.rpos
      → buf.rpos + n ≤ buf.cap + 1
      → Reads buf n (read_wrapped buf n)
  unfolding read_wrapped
  read_wrapped-Reads_short {buf} n v h k fits =
      let len : length (contents buf) ≡ buf.cap + 1 - buf.rpos + buf.wpos =
        length-window_wrapped buf.bytes (buf.cap + 1) buf.rpos buf.wpos k (omega arith)
          (omega arith) in
      let cnt : min32 (add32 (sub32 buf.cap buf.rpos) 1) n ≡ n =
        min32_lem (add32 (sub32 buf.cap buf.rpos) 1) n (omega arith) h ∙ omega arith in
      let pos : add32 buf.rpos n ≡ buf.rpos + n = omega arith in
      let all : min n (length (contents buf)) ≡ n = omega arith in
      let (first, left) =
        window-take_wrapped buf.bytes (buf.cap + 1) buf.rpos buf.wpos n k (omega arith)
          (omega arith) in
      (
        record buf { rpos = buf.rpos + n },
        rw
            (
              cnt,
              load-some buf.bytes buf.rpos n (omega arith),
              le→ltb n n (omega arith),
              ← first,
              pos,
              all,
            )
            refl,
        sym left,
        omega arith,
        refl,
      )

  -- A read that goes on at the start.
  read_wrapped-Reads_long :
      {buf : Rbuf A} (n : ℕ)
      → IsValid buf
      → n < u32_mod
      → buf.wpos < buf.rpos
      → buf.cap + 1 < buf.rpos + n
      → Reads buf n (read_wrapped buf n)
  unfolding read_wrapped
  read_wrapped-Reads_long {buf} n v h k long =
      let a = buf.cap + 1 - buf.rpos in
      let m = min (n - a) buf.wpos in
      let front = slice buf.bytes buf.rpos a in
      let back = window buf.bytes (buf.cap + 1) 0 buf.wpos in
      let len : length (contents buf) ≡ a + buf.wpos =
        length-window_wrapped buf.bytes (buf.cap + 1) buf.rpos buf.wpos k (omega arith)
          (omega arith) in
      let len_front : length front ≡ a = length-slice buf.bytes buf.rpos a (omega arith) in
      let len_back : length back ≡ buf.wpos =
        length-window_flat buf.bytes (buf.cap + 1) 0 buf.wpos (omega arith) (omega arith)
        ∙ omega arith in
      let parts : contents buf ≡ front ++ back =
        window-wrapped buf.bytes (buf.cap + 1) buf.rpos buf.wpos k
        ∙ ap (◌++◌ front) (
            sym (
              window-flat buf.bytes (buf.cap + 1) 0 buf.wpos (omega arith)
              ∙ slice_at buf.bytes 0 (buf.wpos - 0) buf.wpos (omega arith))) in
      let cnt : min32 (add32 (sub32 buf.cap buf.rpos) 1) n ≡ a =
        min32_lem (add32 (sub32 buf.cap buf.rpos) 1) n (omega arith) h ∙ omega arith in
      let left32 : sub64 n a ≡ n - a = omega arith in
      let cnt' : min32 buf.wpos (n - a) ≡ m =
        min32_lem buf.wpos (n - a) (omega arith) (omega arith) ∙ omega arith in
      let total : add64 a m ≡ min n (length (contents buf)) = omega arith in
      let (first, left) =
        window-take_flat buf.bytes (buf.cap + 1) 0 buf.wpos m (omega arith) (omega arith) in
      let rest : min (n - a) (length back) ≡ m = omega arith in
      let out : front ++ slice buf.bytes 0 m ≡ take n (contents buf) =
        ap (◌++◌ front) (
          sym first
          ∙ take_at m (min (n - a) (length back)) back (sym rest)
          ∙ take-min (n - a) back
          ∙ take_at (n - a) (n - length front) back (omega arith))
        ∙ sym (take-append_ge n front back (omega arith))
        ∙ ap (take n) (sym parts) in
      (
        record buf { rpos = m },
        rw (
          cnt,
          load-some buf.bytes buf.rpos a (omega arith),
          lt→ltb a n (omega arith),
          left32,
          cnt',
          load-some buf.bytes 0 m (omega arith),
          total,
          out,
        ),
        ap (λ i. window buf.bytes (buf.cap + 1) i buf.wpos) {x = m} {y = 0 + m} (omega arith)
            ∙ sym left
            ∙ drop_at m (min (n - a) (length back)) back (sym rest)
            ∙ drop-min (n - a) back
            ∙ drop_at (n - a) (n - length front) back (omega arith)
            ∙ sym (drop-append_ge n front back (omega arith))
            ∙ ap (drop n) (sym parts),
        omega arith,
        refl,
      )

  -- `rbuf_read` of `n` bytes, `n` below 2^32, copies the first `n` unread bytes out in order, or all
  -- of them if there are fewer, returns their number, and leaves the others unread; it copies from
  -- inside the ring only, keeps a valid ring valid and does not change its capacity.
  pub rbuf_read-Reads :
      {buf : Rbuf A} (n : ℕ) → IsValid buf → n < u32_mod → Reads buf n (rbuf_read buf n)
  unfolding rbuf_read
  rbuf_read-Reads {buf} n v h = elim (dec_lt buf.wpos buf.rpos) [
    | yes w ↦ rw (lt→ltb buf.wpos buf.rpos w) (elim (dec_lt (buf.cap + 1) (buf.rpos + n)) [
      | yes long ↦ read_wrapped-Reads_long n v h w long
      | no short ↦ read_wrapped-Reads_short n v h w (omega arith)
    ])
    | no f ↦ rw (le→ltb buf.wpos buf.rpos (omega arith)) (read_flat-Reads n v h (omega arith))
  ]
