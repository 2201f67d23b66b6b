-- ===== src/Rbuf/Write.antt =====
-- `rbuf_write` adds bytes at the end of the contents.
use ccommon.Prelude.{
  ℕ, ◌+◌, ◌-◌, ◌≤◌, ◌<◌, List, ◌++◌, Option, some, ◌≡◌, refl, arith, length, ◌⊎◌, min, ◌∙◌, ap, sym,
  take, drop, lt→ltb, le→ltb, take-all, dec_lt, take_at, ◌≢◌, subst, length-take, length-drop,
  append_assoc, take-add,
}
use ccommon.Prelude.Words.{u32_mod, add32, sub32, sub64, add64}
use ccommon.Prelude.Memory.{store-some, overwrite, length-overwrite}
use ccommon.Window.{window, window-overwrite_flat, window-overwrite_wrapped, window_write_end}
use ccommon.Rbuf.{Rbuf, rbuf_write, rbuf_wcap, write_flat, write_wrapped, min32}
use ccommon.Rbuf.Inv.{IsValid, contents, min32_lem}

module _ {ℓ} {A : Type ℓ} where
  -- What a write that takes `k` bytes of `src` does to a ring.
  abbrev pub Writes : Rbuf A → List A → ℕ → Option (ℕ × Rbuf A) → Type ℓ
  Writes buf src k r =
      (buf' : Rbuf A) × (r ≡ some (k, buf'))
      × (contents buf' ≡ contents buf ++ take k src)
      × IsValid buf'
      × (buf'.cap ≡ buf.cap)

  write_flat-Writes :
      {buf : Rbuf A} (src : List A)
      → IsValid buf
      → length src < u32_mod
      → buf.wpos < buf.rpos
      → Writes buf src (min (length src) (buf.rpos - buf.wpos - 1)) (write_flat buf src)
  unfolding write_flat
  write_flat-Writes {buf} src v h k =
      let m = min (length src) (buf.rpos - buf.wpos - 1) in
      let cnt : min32 (sub32 (sub32 buf.rpos buf.wpos) 1) (length src) ≡ m =
        min32_lem (sub32 (sub32 buf.rpos buf.wpos) 1) (length src) (omega arith) h ∙ omega arith in
      let len : length (take m src) ≡ m = omega (arith, length-take m src) in
      let pos : add32 buf.wpos m ≡ buf.wpos + length (take m src) = omega arith in
      (
        record buf {
          bytes = overwrite buf.bytes buf.wpos (take m src);
          wpos = buf.wpos + length (take m src);
        },
        rw (cnt, store-some buf.bytes buf.wpos (take m src) (omega arith), pos),
        window-overwrite_wrapped buf.bytes (buf.cap + 1) buf.rpos buf.wpos (take m src)
            (omega arith) (omega arith) (omega arith),
        omega (arith, length-overwrite buf.bytes buf.wpos (take m src)),
        refl,
      )

  -- A write that ends before the end of the array, or at it.
  write_wrapped-Writes_short :
      {buf : Rbuf A} (src : List A)
      → IsValid buf
      → length src < u32_mod
      → buf.rpos ≤ buf.wpos
      → buf.wpos + length src ≤ buf.cap + 1
      → buf.wpos + length src ≤ buf.rpos + buf.cap
      → Writes buf src (length src) (write_wrapped buf src)
  unfolding write_wrapped
  write_wrapped-Writes_short {buf} src v h k fits room =
      let n = length src in
      let cnt : min32 (add32 (sub32 buf.cap buf.wpos) 1) n ≡ n =
        min32_lem (add32 (sub32 buf.cap buf.wpos) 1) n (omega arith) h ∙ omega arith in
      let all : take n src ≡ src = take-all n src (omega arith) in
      let pos : add32 buf.wpos n ≡ buf.wpos + n = omega arith in
      (
        record buf { bytes = overwrite buf.bytes buf.wpos src; wpos = buf.wpos + n },
        rw (
          cnt,
          all,
          store-some buf.bytes buf.wpos src (omega arith),
          le→ltb n n (omega arith),
          pos,
        ),
        rw all
            (window-overwrite_flat buf.bytes (buf.cap + 1) buf.rpos buf.wpos src k (omega arith)),
        omega (arith, length-overwrite buf.bytes buf.wpos src),
        refl,
      )

  -- The contents after a write up to the end and another at the start.
  contents-two_stores :
      (mem : List A) (size r w : ℕ) (first second : List A)
      → length mem ≡ size
      → r ≤ w
      → r ≤ size
      → w + length first ≡ size
      → length second < r
      → window (overwrite (overwrite mem w first) 0 second) size r (length second)
        ≡ window mem size r w ++ (first ++ second)
  contents-two_stores mem size r w first second e h hr end room =
      let mem' = overwrite mem w first in
      let len : length mem' ≡ size = omega (arith, length-overwrite mem w first) in
      ap (window (overwrite mem' 0 second) size r) {x = length second} {y = 0 + length second}
        (omega arith)
      ∙ window-overwrite_wrapped mem' size r 0 second (omega arith) hr (omega arith)
      ∙ ap (λ t. t ++ second)
          (sym (window_write_end mem' size r (omega arith) hr)
            ∙ ap (window mem' size r) (sym end)
            ∙ window-overwrite_flat mem size r w first h (omega arith))
      ∙ append_assoc (window mem size r w) first second

  -- A write that goes on at the start.
  write_wrapped-Writes_long :
      {buf : Rbuf A} (src : List A)
      → IsValid buf
      → length src < u32_mod
      → buf.rpos ≤ buf.wpos
      → buf.rpos ≢ 0
      → buf.cap + 1 < buf.wpos + length src
      → Writes buf src (min (length src) (buf.cap + buf.rpos - buf.wpos)) (write_wrapped buf src)
  unfolding write_wrapped
  write_wrapped-Writes_long {buf} src v h k nz long =
      let n = length src in
      let a = buf.cap + 1 - buf.wpos in
      let m = min (n - a) (buf.rpos - 1) in
      let first = take a src in
      let second = take m (drop a src) in
      let len1 : length first ≡ a = omega (arith, length-take a src) in
      let len2 : length second ≡ m = omega (arith, length-take m (drop a src), length-drop a src) in
      let cnt : min32 (add32 (sub32 buf.cap buf.wpos) 1) n ≡ a =
        min32_lem (add32 (sub32 buf.cap buf.wpos) 1) n (omega arith) h ∙ omega arith in
      let left : sub64 n a ≡ n - a = omega arith in
      let cnt' : min32 (sub32 buf.rpos 1) (n - a) ≡ m =
        min32_lem (sub32 buf.rpos 1) (n - a) (omega arith) (omega arith) ∙ omega arith in
      let total : add64 a m ≡ min n (buf.cap + buf.rpos - buf.wpos) = omega arith in
      let mem' = overwrite buf.bytes buf.wpos first in
      let len' : length mem' ≡ buf.cap + 1 =
        omega (arith, length-overwrite buf.bytes buf.wpos first) in
      (
        record buf { bytes = overwrite mem' 0 second; wpos = m },
        rw (
          cnt,
          store-some buf.bytes buf.wpos first (omega arith),
          lt→ltb a n (omega arith),
          left,
          cnt',
          store-some mem' 0 second (omega arith),
          total,
        ),
        ap (window (overwrite mem' 0 second) (buf.cap + 1) buf.rpos) (sym len2)
            ∙ contents-two_stores buf.bytes (buf.cap + 1) buf.rpos buf.wpos first second v.storage k
                v.rpos_in (omega arith) (omega arith)
            ∙ ap (◌++◌ (contents buf)) (
                sym (take-add a m src)
                ∙ take_at (a + m) (min n (buf.cap + buf.rpos - buf.wpos)) src (omega arith)),
        omega (arith, length-overwrite mem' 0 second),
        refl,
      )

  wcap_flat :
      {buf : Rbuf A} → IsValid buf → buf.wpos < buf.rpos → rbuf_wcap buf ≡ buf.rpos - buf.wpos - 1
  unfolding rbuf_wcap
  wcap_flat {buf} v h = rw (lt→ltb buf.wpos buf.rpos h) (omega arith)

  pub wcap_wrapped :
      {buf : Rbuf A}
      → IsValid buf
      → buf.rpos ≤ buf.wpos
      → rbuf_wcap buf ≡ buf.cap + buf.rpos - buf.wpos
  unfolding rbuf_wcap
  wcap_wrapped {buf} v h = rw (le→ltb buf.wpos buf.rpos h) (omega arith)

  Writes-at :
      (buf : Rbuf A) (src : List A) (k k' : ℕ) {r : Option (ℕ × Rbuf A)}
      → k ≡ k'
      → Writes buf src k r
      → Writes buf src k' r
  Writes-at buf src k k' {r} e w = subst (λ j. Writes buf src j r) e w

  -- `rbuf_write` of fewer than 2^32 bytes, where the read position is not 0 or the bytes fit in the
  -- space that `rbuf_wcap` reports, appends as many of them as fit in that space to the unread bytes,
  -- in order, and returns their number; it copies to inside the ring only, keeps a valid ring
  -- valid and does not change its capacity.
  pub rbuf_write-Writes :
      {buf : Rbuf A} (src : List A)
      → IsValid buf
      → length src < u32_mod
      → (buf.rpos ≢ 0) ⊎ (length src ≤ rbuf_wcap buf)
      → Writes buf src (min (length src) (rbuf_wcap buf)) (rbuf_write buf src)
  unfolding rbuf_write
  rbuf_write-Writes {buf} src v h ok = elim (dec_lt buf.wpos buf.rpos) [
    | yes w ↦ rw (lt→ltb buf.wpos buf.rpos w) (
        Writes-at buf src (min (length src) (buf.rpos - buf.wpos - 1))
          (min (length src) (rbuf_wcap buf)) (ap (min (length src)) (sym (wcap_flat v w)))
          (write_flat-Writes src v h w))
    | no f ↦
        let le : buf.rpos ≤ buf.wpos = omega arith in
        let room : rbuf_wcap buf ≡ buf.cap + buf.rpos - buf.wpos = wcap_wrapped v le in
        rw (le→ltb buf.wpos buf.rpos le) (elim (dec_lt (buf.cap + 1) (buf.wpos + length src)) [
          | yes long ↦
              Writes-at buf src (min (length src) (buf.cap + buf.rpos - buf.wpos))
                (min (length src) (rbuf_wcap buf)) (ap (min (length src)) (sym room))
                (write_wrapped-Writes_long src v h le (omega arith) long)
          | no short ↦
              Writes-at buf src (length src) (min (length src) (rbuf_wcap buf)) (omega arith)
                (write_wrapped-Writes_short src v h le (omega arith) (omega arith))
        ])
  ]
