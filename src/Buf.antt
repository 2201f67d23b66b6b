-- ===== src/Buf.antt =====
-- include/buffer/cc_buf.h and src/buffer/cc_buf.c: contiguous buffers of bytes.
-- The pointers `rpos`, `wpos` and `end` are offsets from `begin`, and `bytes` is the block from
-- `begin` on. The link to the next buffer of the pool is in the model of the pool.
pub mod Inv
pub mod Ops
mod Tests
use ccommon.Prelude.{
  ℕ, ◌+◌, ◌-◌, ◌*◌, ◌%◌, ◌^◌, List, [], ◌∷◌, ◌++◌, Option, none, some, Bool, true, false,
  if◌then◌else◌, ltb, leb, ◌==◌, ◌>>=◌, length, take, min,
}
use ccommon.Prelude.Words.{add32, sub32, sub64, u32_mod}
use ccommon.Prelude.Memory.{load, store}
use ccommon.Metric.{Metric, on, incr, decr, incr_n, decr_n}

-- `struct buf`.
pub record Buf {ℓ} (A : Type ℓ) : Type ℓ where
  pub rpos : ℕ
  pub wpos : ℕ
  pub end : ℕ
  pub free : Bool
  pub bytes : List A

-- `buf_metrics_st`.
pub record BufMetrics : Type 0 where
  pub buf_curr : Metric
  pub buf_active : Metric
  pub buf_create : Metric
  pub buf_create_ex : Metric
  pub buf_destroy : Metric
  pub buf_borrow : Metric
  pub buf_borrow_ex : Metric
  pub buf_return : Metric
  pub buf_memory : Metric

-- `BUF_HDR_SIZE` where pointers have 8 bytes: four of them and a `bool`.
abbrev pub buf_hdr_size : ℕ
buf_hdr_size = 33

-- A difference of pointers, cut to `uint32_t`.
abbrev pub span : ℕ → ℕ → ℕ
span hi lo = sub64 hi lo % u32_mod

module _ {ℓ} {A : Type ℓ} where
  -- `buf_rsize`, `buf_wsize`, `buf_size` and `buf_capacity`.
  unfoldable pub buf_rsize : Buf A → ℕ
  buf_rsize buf = span buf.wpos buf.rpos

  unfoldable pub buf_wsize : Buf A → ℕ
  buf_wsize buf = span buf.end buf.wpos

  unfoldable pub buf_size : Buf A → ℕ
  buf_size buf = span (buf.end + buf_hdr_size) 0

  unfoldable pub buf_capacity : Buf A → ℕ
  buf_capacity buf = span buf.end 0

  -- `buf_new_cap`.
  unfoldable pub buf_new_cap : Buf A → ℕ → ℕ
  unfolding buf_wsize
  buf_new_cap buf count = if leb count (buf_wsize buf) then 0 else sub32 count (buf_wsize buf)

  -- `buf_reset`.
  unfoldable pub buf_reset : Buf A → Buf A
  buf_reset buf = record buf { rpos = 0; wpos = 0; free = false }

  -- `buf_read`: the count returned, what is copied to `dst`, and the buffer after it.
  unfoldable pub buf_read : Buf A → ℕ → Option (ℕ × List A × Buf A)
  unfolding buf_rsize
  buf_read src count =
      let len = min (buf_rsize src) count in
      (do out ← load src.bytes src.rpos len; some (len, out, record src { rpos = src.rpos + len }))

  -- `buf_write` of all of `src`, whose length is `count`.
  unfoldable pub buf_write : Buf A → List A → Option (ℕ × Buf A)
  unfolding buf_wsize
  buf_write dst src =
      if length src == 0
      then some (0, dst)
      else (let len = min (buf_wsize dst) (length src) in
          (do
            bytes ← store dst.bytes dst.wpos (take len src)
            some (len, record dst { bytes = bytes; wpos = dst.wpos + len })))

  -- The unread bytes moved to the offset `to`, if there are any.
  unfoldable pub move_unread : Buf A → ℕ → ℕ → Option (List A)
  move_unread buf size to =
      if ltb 0 size
      then (do moved ← load buf.bytes buf.rpos size; store buf.bytes to moved)
      else some buf.bytes

  -- `buf_lshift`.
  unfoldable pub buf_lshift : Buf A → Option (Buf A)
  unfolding buf_rsize move_unread
  buf_lshift buf = do
    bytes ← move_unread buf (buf_rsize buf) 0
    some (record buf { bytes = bytes; rpos = 0; wpos = buf_rsize buf })

  -- `buf_rshift`.
  unfoldable pub buf_rshift : Buf A → Option (Buf A)
  unfolding buf_rsize move_unread
  buf_rshift buf = do
    bytes ← move_unread buf (buf_rsize buf) (buf.end - buf_rsize buf)
    some (record buf { bytes = bytes; rpos = buf.end - buf_rsize buf; wpos = buf.end })

  -- `buf_create` under the size `init_size`; the allocator returns the bytes behind the header.
  unfoldable pub buf_create :
      ℕ → (ℕ → Option (List A)) → Option BufMetrics → Option (Buf A) × Option BufMetrics
  unfolding buf_reset
  buf_create init_size alloc metrics = elim (alloc init_size) [
    | none ↦ (none, on metrics (λ m. record m { buf_create_ex = incr m.buf_create_ex }))
    | some bytes ↦ (
      some (
          buf_reset (record {
            rpos = 0;
            wpos = 0;
            end = init_size - buf_hdr_size;
            free = false;
            bytes = bytes;
          })),
      on metrics (λ m. record m {
        buf_create = incr m.buf_create;
        buf_curr = incr m.buf_curr;
        buf_memory = incr_n m.buf_memory init_size;
      }),
    )
  ]

  -- `buf_destroy`, through the pointer that the caller holds.
  unfoldable pub buf_destroy :
      Option (Buf A) → Option BufMetrics → Option (Buf A) × Option BufMetrics
  unfolding buf_size
  buf_destroy none metrics = (none, metrics)
  buf_destroy (some buf) metrics = (
    none,
    on metrics (λ m. record m {
      buf_destroy = incr m.buf_destroy;
      buf_curr = decr m.buf_curr;
      buf_memory = decr_n m.buf_memory (buf_size buf);
    }),
  )
