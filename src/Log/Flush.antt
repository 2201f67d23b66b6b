-- ===== src/Log/Flush.antt =====
-- Flushing moves bytes from the ring buffer to the file, in order.
use ccommon.Prelude.{
  ℕ, zero, suc, ◌+◌, ◌-◌, ◌%◌, ◌≤◌, ◌<◌, List, ◌++◌, Option, some, ◌≡◌, refl, sym, ap, subst, ◌∙◌,
  arith, length, ◌⊎◌, inl, inr, lt→ltb, le→ltb, take, drop, dec_lt, append-nil, append_assoc,
  take-append_ge, drop-append_ge, take-all, take_at, drop_at, eq→==, ne→==, ℕ_discrete, false,
}
use ccommon.Prelude.Int.{ℤ, pos, negsuc}
use ccommon.Prelude.Words.{u32_mod, add32, sub32}
use ccommon.Prelude.Memory.{slice, load-some, length-slice, take-slice, slice_at}
use ccommon.Window.{
  window, window-flat, window-wrapped, window-take_flat, window-take_wrapped, length-window_flat,
  length-window_wrapped,
}
use ccommon.Rbuf.{Rbuf}
use ccommon.Rbuf.Inv.{IsValid, contents}
use ccommon.Log.{_rbuf_flush, flush_wrapped, advance, is_count, second_written, count_of}
use ccommon.Log.System.{Sys, Posix}

module _ {ℓ} {W : Type ℓ} (sys : Sys W) (file : W → ℤ → List ℕ) where
  -- Some of the unread bytes, from the first on, are now at the end of the file, and the others are
  -- unread still.
  abbrev pub Drains : W → ℤ → Rbuf ℕ → ℕ → Rbuf ℕ → W → Type 0
  Drains w fd buf n buf' w' =
      (n ≤ length (contents buf))
      × (file w' fd ≡ file w fd ++ take n (contents buf))
      × (contents buf' ≡ drop n (contents buf))
      × IsValid buf'
      × (buf'.cap ≡ buf.cap)

  abbrev pub Flushes : W → ℤ → Rbuf ℕ → Option (ℤ × Rbuf ℕ × W) → Type ℓ
  Flushes w fd buf r =
      (ret : ℤ) × (buf' : Rbuf ℕ) × (w' : W) × (r ≡ some (ret, buf', w'))
      × Drains w fd buf (count_of ret) buf' w'

  Drains-zero :
      (w : W) (fd : ℤ) (buf : Rbuf ℕ) (w' : W)
      → IsValid buf
      → file w' fd ≡ file w fd
      → Drains w fd buf 0 buf w'
  Drains-zero w fd buf w' v e = (omega arith, e ∙ sym (append-nil (file w fd)), refl, v, refl)

  advance_lem : (rpos n : ℕ) → rpos + n < u32_mod → advance rpos (pos n) ≡ rpos + n
  advance_lem rpos zero h = omega arith
  advance_lem rpos (suc n) h = omega arith

  -- What the law of `write` says of one call.
  abbrev Wrote : W → ℤ → List ℕ → ℤ → W → Type 0
  Wrote w fd bytes ret w' =
      ((n : ℕ) × (ret ≡ pos n) × (n ≤ length bytes) × (file w' fd ≡ file w fd ++ take n bytes))
      ⊎ ((ret ≡ negsuc 0) × (file w' fd ≡ file w fd))

  Drains-at :
      (w : W) (fd : ℤ) (buf buf' : Rbuf ℕ) (w' : W) (n m : ℕ)
      → n ≡ m
      → Drains w fd buf n buf' w'
      → Drains w fd buf m buf' w'
  Drains-at w fd buf buf' w' n m e d = subst (λ k. Drains w fd buf k buf' w') e d

  -- One write from the read position on, of bytes that the contents begin with.
  one_write-Drains :
      {buf : Rbuf ℕ} (w w' : W) (fd : ℤ) (a : ℕ) (ret : ℤ)
      → IsValid buf
      → ((n : ℕ)
          → n ≤ a
          → (take n (contents buf) ≡ slice buf.bytes buf.rpos n)
            × (drop n (contents buf) ≡ window buf.bytes (buf.cap + 1) (buf.rpos + n) buf.wpos)
            × (buf.rpos + n ≤ buf.cap + 1)
            × (buf.wpos ≤ buf.rpos + n + buf.cap)
            × (n ≤ length (contents buf)))
      → buf.rpos + a ≤ length buf.bytes
      → Wrote w fd (slice buf.bytes buf.rpos a) ret w'
      → Drains w fd buf (count_of ret) (record buf { rpos = advance buf.rpos ret }) w'
  one_write-Drains {buf} w w' fd a ret v reads room (inr (neg, kept)) =
      rw neg (Drains-zero w fd buf w' v kept)
  one_write-Drains {buf} w w' fd a ret v reads room (inl (n, count, bound, text)) =
      let len : length (slice buf.bytes buf.rpos a) ≡ a = length-slice buf.bytes buf.rpos a room in
      let (first, left, inside, held, few) = reads n (omega arith) in
      let at : advance buf.rpos (pos n) ≡ buf.rpos + n = advance_lem buf.rpos n (omega arith) in
      rw (count, at)
        (
          few,
          text
              ∙ ap (◌++◌ (file w fd)) (take-slice buf.bytes buf.rpos a n (omega arith) ∙ sym first),
          sym left,
          omega arith,
          refl,
        )

  flat-Flushes :
      {buf : Rbuf ℕ} (w : W) (fd : ℤ)
      → Posix sys file
      → IsValid buf
      → buf.rpos ≤ buf.wpos
      → Flushes w fd buf (_rbuf_flush sys w buf fd)
  flat-Flushes {buf} w fd law v h =
      let a = buf.wpos - buf.rpos in
      let bytes = slice buf.bytes buf.rpos a in
      let size : sub32 buf.wpos buf.rpos ≡ a = omega arith in
      let (ret, w') = sys.write w fd bytes in
      let len : length (contents buf) ≡ a =
        length-window_flat buf.bytes (buf.cap + 1) buf.rpos buf.wpos h (omega arith) in
      (
        ret,
        record buf { rpos = advance buf.rpos ret },
        w',
        unfold _rbuf_flush in
            rw (le→ltb buf.wpos buf.rpos h, size, load-some buf.bytes buf.rpos a (omega arith)),
        one_write-Drains w w' fd a ret v
            (λ n few.
              let (first, left) =
                window-take_flat buf.bytes (buf.cap + 1) buf.rpos buf.wpos n (omega arith)
                  (omega arith) in
              (first, left, omega arith, omega arith, omega arith))
            (omega arith) (law.written w fd bytes),
      )

  -- The bytes up to the end, of contents that go round it.
  wrapped_reads :
      {buf : Rbuf ℕ}
      → IsValid buf
      → buf.wpos < buf.rpos
      → (n : ℕ) → n ≤ buf.cap + 1 - buf.rpos
      → (take n (contents buf) ≡ slice buf.bytes buf.rpos n)
        × (drop n (contents buf) ≡ window buf.bytes (buf.cap + 1) (buf.rpos + n) buf.wpos)
        × (buf.rpos + n ≤ buf.cap + 1)
        × (buf.wpos ≤ buf.rpos + n + buf.cap)
        × (n ≤ length (contents buf))
  wrapped_reads {buf} v h n few =
      let (first, left) =
        window-take_wrapped buf.bytes (buf.cap + 1) buf.rpos buf.wpos n h (omega arith)
          (omega arith) in
      (
        first,
        left,
        omega arith,
        omega arith,
        omega (
          arith,
          length-window_wrapped buf.bytes (buf.cap + 1) buf.rpos buf.wpos h (omega arith)
              (omega arith),
        ),
      )

  -- The second write, after a first one of all the bytes up to the end.
  second_write-Drains :
      {buf : Rbuf ℕ} (w w1 w2 : W) (fd : ℤ) (ret2 : ℤ)
      → IsValid buf
      → buf.wpos < buf.rpos
      → file w1 fd ≡ file w fd ++ slice buf.bytes buf.rpos (buf.cap + 1 - buf.rpos)
      → Wrote w1 fd (slice buf.bytes 0 buf.wpos) ret2 w2
      → let (n, buf') = second_written buf (buf.cap + 1) (buf.cap + 1 - buf.rpos) ret2 in
        Drains w fd buf (count_of n) buf' w2
  second_write-Drains {buf} w w1 w2 fd ret2 v h text1 (inr (neg, kept)) =
      let a = buf.cap + 1 - buf.rpos in
      let (first, left, inside, held, few) = wrapped_reads v h a (omega arith) in
      let at : buf.rpos + a ≡ buf.cap + 1 = omega arith in
      rw neg (
        few,
        kept ∙ text1 ∙ ap (◌++◌ (file w fd)) (sym first),
        ap (λ i. window buf.bytes (buf.cap + 1) i buf.wpos) (sym at) ∙ sym left,
        omega arith,
        refl,
      )
  second_write-Drains {buf} w w1 w2 fd ret2 v h text1 (inl (n, count, bound, text2)) =
      let a = buf.cap + 1 - buf.rpos in
      let front = slice buf.bytes buf.rpos a in
      let back = slice buf.bytes 0 buf.wpos in
      let len : length front ≡ a = length-slice buf.bytes buf.rpos a (omega arith) in
      let len' : length back ≡ buf.wpos = length-slice buf.bytes 0 buf.wpos (omega arith) in
      let parts : contents buf ≡ front ++ back =
        window-wrapped buf.bytes (buf.cap + 1) buf.rpos buf.wpos h in
      let small : n % u32_mod ≡ n = omega arith in
      let start : window buf.bytes (buf.cap + 1) 0 buf.wpos ≡ back =
        window-flat buf.bytes (buf.cap + 1) 0 buf.wpos (omega arith)
        ∙ slice_at buf.bytes 0 (buf.wpos - 0) buf.wpos (omega arith) in
      let (read, left) =
        window-take_flat buf.bytes (buf.cap + 1) 0 buf.wpos n (omega arith) (omega arith) in
      let total : length (contents buf) ≡ a + buf.wpos =
        length-window_wrapped buf.bytes (buf.cap + 1) buf.rpos buf.wpos h (omega arith)
          (omega arith) in
      rw (count, small)
        (
          omega arith,
          text2
              ∙ ap (λ t. t ++ take n back) text1
              ∙ append_assoc (file w fd) front (take n back)
              ∙ ap (◌++◌ (file w fd)) (
                  ap (◌++◌ front) (take_at n (a + n - length front) back (omega arith))
                  ∙ sym (take-append_ge (a + n) front back (omega arith))
                  ∙ ap (take (a + n)) (sym parts)),
          ap (λ i. window buf.bytes (buf.cap + 1) i buf.wpos) {x = n} {y = 0 + n} (omega arith)
              ∙ sym left
              ∙ ap (drop n) start
              ∙ drop_at n (a + n - length front) back (omega arith)
              ∙ sym (drop-append_ge (a + n) front back (omega arith))
              ∙ ap (drop (a + n)) (sym parts),
          omega arith,
          refl,
        )

  once-Flushes :
      {buf : Rbuf ℕ} (w : W) (fd : ℤ)
      → Posix sys file
      → IsValid buf
      → buf.wpos < buf.rpos
      → let a = buf.cap + 1 - buf.rpos in
        is_count (sys.write w fd (slice buf.bytes buf.rpos a)).0 a ≡ false
        → Flushes w fd buf (flush_wrapped sys w buf fd)
  once-Flushes {buf} w fd law v h e =
      let a = buf.cap + 1 - buf.rpos in
      let bytes = slice buf.bytes buf.rpos a in
      let size : add32 (sub32 buf.cap buf.rpos) 1 ≡ a = omega arith in
      let (ret, w1) = sys.write w fd bytes in
      (
        ret,
        record buf { rpos = advance buf.rpos ret },
        w1,
        unfold flush_wrapped in rw (size, load-some buf.bytes buf.rpos a (omega arith), e),
        one_write-Drains w w1 fd a ret v (wrapped_reads v h) (omega arith) (law.written w fd bytes),
      )

  twice-Flushes :
      {buf : Rbuf ℕ} (w : W) (fd : ℤ)
      → Posix sys file
      → IsValid buf
      → buf.wpos < buf.rpos
      → let a = buf.cap + 1 - buf.rpos in
        let (ret, w1) = sys.write w fd (slice buf.bytes buf.rpos a) in
        ret ≡ pos a
        → file w1 fd ≡ file w fd ++ slice buf.bytes buf.rpos a
        → Flushes w fd buf (flush_wrapped sys w buf fd)
  twice-Flushes {buf} w fd law v h e text =
      let a = buf.cap + 1 - buf.rpos in
      let size : add32 (sub32 buf.cap buf.rpos) 1 ≡ a = omega arith in
      let (ret, w1) = sys.write w fd (slice buf.bytes buf.rpos a) in
      let (ret2, w2) = sys.write w1 fd (slice buf.bytes 0 buf.wpos) in
      let at : advance buf.rpos (pos a) ≡ buf.cap + 1 =
        advance_lem buf.rpos a (omega arith) ∙ omega arith in
      let (n, buf') = second_written buf (buf.cap + 1) a ret2 in
      (
        n,
        buf',
        w2,
        unfold flush_wrapped in
            rw (
              size,
              load-some buf.bytes buf.rpos a (omega arith),
              e,
              eq→== a a refl,
              load-some buf.bytes 0 buf.wpos (omega arith),
              at,
            ),
        second_write-Drains w w1 w2 fd ret2 v h text
            (law.written w1 fd (slice buf.bytes 0 buf.wpos)),
      )

  wrapped-Flushes :
      {buf : Rbuf ℕ} (w : W) (fd : ℤ)
      → Posix sys file
      → IsValid buf
      → buf.wpos < buf.rpos
      → Flushes w fd buf (flush_wrapped sys w buf fd)
  wrapped-Flushes {buf} w fd law v h =
      split (law.written w fd (slice buf.bytes buf.rpos (buf.cap + 1 - buf.rpos)))
    where
      split :
          Wrote w fd
            (slice buf.bytes buf.rpos (buf.cap + 1 - buf.rpos))
            (sys.write w fd (slice buf.bytes buf.rpos (buf.cap + 1 - buf.rpos))).0
            (sys.write w fd (slice buf.bytes buf.rpos (buf.cap + 1 - buf.rpos))).1
          → Flushes w fd buf (flush_wrapped sys w buf fd)
      split (inr (neg, kept)) =
          once-Flushes w fd law v h (ap (λ r. is_count r (buf.cap + 1 - buf.rpos)) neg)
      split (inl (n, count, bound, text)) =
          let a = buf.cap + 1 - buf.rpos in
          let front = slice buf.bytes buf.rpos a in
          let len : length front ≡ a = length-slice buf.bytes buf.rpos a (omega arith) in
          elim (ℕ_discrete n a) [
            | yes e ↦
                twice-Flushes w fd law v h (count ∙ ap pos e)
                  (text ∙ ap (◌++◌ (file w fd)) (take-all n front (omega arith)))
            | no ne ↦ once-Flushes w fd law v h (ap (λ r. is_count r a) count ∙ ne→== n a ne)
          ]

  -- `_rbuf_flush` of a valid ring, over a `write` as documented, appends some of the unread bytes to
  -- the file, from the first one on and in order, returns their number, and leaves exactly the other
  -- bytes unread, in whichever way the one or two writes end; the ring stays valid.
  pub _rbuf_flush-Flushes :
      {buf : Rbuf ℕ} (w : W) (fd : ℤ)
      → Posix sys file
      → IsValid buf
      → Flushes w fd buf (_rbuf_flush sys w buf fd)
  _rbuf_flush-Flushes {buf} w fd law v = elim (dec_lt buf.wpos buf.rpos) [
    | yes h ↦
        let (ret, buf', w', run, drains) = wrapped-Flushes w fd law v h in
        (ret, buf', w', unfold _rbuf_flush in rw (lt→ltb buf.wpos buf.rpos h) run, drains)
    | no h ↦ flat-Flushes w fd law v (omega arith)
  ]
