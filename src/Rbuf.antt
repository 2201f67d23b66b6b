-- ===== src/Rbuf.antt =====
-- src/cc_rbuf.c and include/cc_rbuf.h: a ring buffer of bytes.
-- A byte is only moved, so it may be of any type. Positions are `uint32_t`, counts `size_t`.
pub mod Inv
pub mod Read
pub mod Write
pub mod Overrun
pub mod Life
mod Tests
use ccommon.Prelude.{
  ℕ, ◌+◌, ◌-◌, ◌%◌, ◌^◌, List, [], ◌∷◌, ◌++◌, Option, none, some, Bool, true, false, if◌then◌else◌,
  ltb, ◌>>=◌, length, take, drop,
}
use ccommon.Prelude.Words.{add32, sub32, add64, sub64, u32_mod}
use ccommon.Prelude.Memory.{load, store}
use ccommon.Metric.{Metric, on, incr, decr, incr_n, decr_n}

-- `struct rbuf`.
pub record Rbuf {ℓ} (A : Type ℓ) : Type ℓ where
  pub rpos : ℕ
  pub wpos : ℕ
  pub cap : ℕ
  pub bytes : List A

-- `rbuf_metrics_st`.
pub record RbufMetrics : Type 0 where
  pub rbuf_create : Metric
  pub rbuf_create_ex : Metric
  pub rbuf_destroy : Metric
  pub rbuf_curr : Metric
  pub rbuf_byte : Metric

-- `_min`: both arguments are converted to `uint32_t`.
abbrev pub min32 : ℕ → ℕ → ℕ
min32 first second =
    if ltb (first % u32_mod) (second % u32_mod) then first % u32_mod else second % u32_mod

module _ {ℓ} {A : Type ℓ} where
  -- `rbuf_rcap`.
  pub rbuf_rcap : Rbuf A → ℕ
  rbuf_rcap buf =
      if ltb buf.wpos buf.rpos
      then add32 (sub32 (add32 buf.cap buf.wpos) buf.rpos) 1
      else sub32 buf.wpos buf.rpos

  -- `rbuf_wcap`.
  pub rbuf_wcap : Rbuf A → ℕ
  rbuf_wcap buf =
      if ltb buf.wpos buf.rpos
      then sub32 (sub32 buf.rpos buf.wpos) 1
      else add32 (sub32 buf.cap buf.wpos) buf.rpos

  -- The read when the write position is behind: up to the end, then from the start.
  read_wrapped : Rbuf A → ℕ → Option (ℕ × List A × Rbuf A)
  read_wrapped src n =
      let ret = min32 (add32 (sub32 src.cap src.rpos) 1) n in
      (do
        first ← load src.bytes src.rpos ret
        if ltb ret n
            then (let remaining = min32 src.wpos (sub64 n ret) in
                (do
                  second ← load src.bytes 0 remaining
                  some (add64 ret remaining, first ++ second, record src { rpos = remaining })))
            else some (ret, first, record src { rpos = add32 src.rpos ret }))

  -- The read when there is no wrapping around.
  read_flat : Rbuf A → ℕ → Option (ℕ × List A × Rbuf A)
  read_flat src n =
      let ret = min32 (sub32 src.wpos src.rpos) n in
      (do
        out ← load src.bytes src.rpos ret
        some (ret, out, record src { rpos = add32 src.rpos ret }))

  -- `rbuf_read`: the count returned, the bytes copied to `dst`, and the ring after it. `none` is a
  -- copy from outside the ring.
  pub rbuf_read : Rbuf A → ℕ → Option (ℕ × List A × Rbuf A)
  unfolding read_wrapped read_flat
  rbuf_read src n = if ltb src.wpos src.rpos then read_wrapped src n else read_flat src n

  -- The write when the read position is ahead.
  write_flat : Rbuf A → List A → Option (ℕ × Rbuf A)
  write_flat dst src =
      let ret = min32 (sub32 (sub32 dst.rpos dst.wpos) 1) (length src) in
      (do
        bytes ← store dst.bytes dst.wpos (take ret src)
        some (ret, record dst { bytes = bytes; wpos = add32 dst.wpos ret }))

  -- The write up to the end, then from the start.
  write_wrapped : Rbuf A → List A → Option (ℕ × Rbuf A)
  write_wrapped dst src =
      let n = length src in
      let ret = min32 (add32 (sub32 dst.cap dst.wpos) 1) n in
      (do
        bytes ← store dst.bytes dst.wpos (take ret src)
        if ltb ret n
            then (let remaining = min32 (sub32 dst.rpos 1) (sub64 n ret) in
                (do
                  bytes' ← store bytes 0 (take remaining (drop ret src))
                  some (add64 ret remaining, record dst { bytes = bytes'; wpos = remaining })))
            else some (ret, record dst { bytes = bytes; wpos = add32 dst.wpos ret }))

  -- `rbuf_write` of all of `src`, whose length is the argument `n`: the count returned, and the
  -- ring after it. `none` is a copy to outside the ring.
  pub rbuf_write : Rbuf A → List A → Option (ℕ × Rbuf A)
  unfolding write_flat write_wrapped
  rbuf_write dst src = if ltb dst.wpos dst.rpos then write_flat dst src else write_wrapped dst src

-- The bytes before `data` in `struct rbuf`.
abbrev pub rbuf_hdr_size : ℕ
rbuf_hdr_size = 12

module _ {ℓ} {A : Type ℓ} where
  -- `rbuf_create`. The allocator gets the size in bytes and returns the bytes after the header,
  -- not initialised; the module's metrics are counted if there are any.
  unfoldable pub rbuf_create :
      (ℕ → Option (List A)) → ℕ → Option RbufMetrics → Option (Rbuf A) × Option RbufMetrics
  rbuf_create alloc cap metrics = elim (alloc (add64 (add64 rbuf_hdr_size cap) 1)) [
    | none ↦ (none, on metrics (λ m. record m { rbuf_create_ex = incr m.rbuf_create_ex }))
    | some bytes ↦ (
      some (record { rpos = 0; wpos = 0; cap = cap; bytes = bytes }),
      on metrics (λ m. record m {
        rbuf_create = incr m.rbuf_create;
        rbuf_curr = incr m.rbuf_curr;
        rbuf_byte = incr_n m.rbuf_byte (add64 (add64 rbuf_hdr_size cap) 1);
      }),
    )
  ]

  -- `rbuf_destroy`, through the pointer that the caller holds.
  pub rbuf_destroy : Option (Rbuf A) → Option RbufMetrics → Option (Rbuf A) × Option RbufMetrics
  rbuf_destroy none metrics = (none, metrics)
  rbuf_destroy (some buf) metrics = (
    none,
    on metrics (λ m. record m {
      rbuf_destroy = incr m.rbuf_destroy;
      rbuf_curr = decr m.rbuf_curr;
      rbuf_byte = decr_n m.rbuf_byte (add64 (add64 rbuf_hdr_size buf.cap) 1);
    }),
  )
