-- ===== src/Log.antt =====
-- src/cc_log.c and include/cc_log.h: loggers, with a ring buffer between the caller and the file.
-- System calls are the operations of a record; the results of the C library are as documented.
pub mod System
pub mod Flush
pub mod Messages
pub mod Open
pub mod Life
mod Tests
use ccommon.Prelude.{
  ℕ, zero, suc, ◌+◌, ◌-◌, ◌%◌, ◌^◌, List, [], ◌∷◌, ◌++◌, Option, none, some, Bool, true, false,
  if◌then◌else◌, ltb, leb, ◌==◌, ◌>>=◌, length, not, ◌&&◌, ◌||◌,
}
use ccommon.Prelude.Int.{ℤ, pos, negsuc}
use ccommon.Prelude.Words.{add32, sub32, u32_mod, u64_mod}
use ccommon.Prelude.Memory.{load}
use ccommon.Metric.{Metric, on, incr, decr, incr_n}
use ccommon.Status.{Status, ok, error}
use ccommon.Rbuf.{Rbuf, RbufMetrics, rbuf_rcap, rbuf_wcap, rbuf_write, rbuf_create, rbuf_destroy}
use ccommon.Log.System.{Sys}

-- `log_metrics_st`.
pub record LogMetrics : Type 0 where
  pub log_create : Metric
  pub log_create_ex : Metric
  pub log_destroy : Metric
  pub log_curr : Metric
  pub log_open : Metric
  pub log_open_ex : Metric
  pub log_write : Metric
  pub log_write_byte : Metric
  pub log_write_ex : Metric
  pub log_skip : Metric
  pub log_skip_byte : Metric
  pub log_flush : Metric
  pub log_flush_ex : Metric

-- `struct logger`.
pub record Logger : Type 0 where
  pub name : Option (List ℕ)
  pub fd : ℤ
  pub buf : Option (Rbuf ℕ)

-- `rpos += ret` where `ret > 0`.
abbrev pub advance : ℕ → ℤ → ℕ
advance rpos (pos zero) = rpos
advance rpos (pos (suc n)) = add32 rpos (suc n)
advance rpos (negsuc n) = rpos

abbrev pub is_count : ℤ → ℕ → Bool
is_count (pos n) count = n == count
is_count (negsuc n) count = false

-- The count and the ring after the second write of a flush: `first` bytes were written before it.
abbrev pub second_written : Rbuf ℕ → ℕ → ℕ → ℤ → ℤ × Rbuf ℕ
second_written buf rpos first (pos n) = (pos (first + n), record buf { rpos = n % u32_mod })
second_written buf rpos first (negsuc n) = (pos first, record buf { rpos = rpos })

abbrev pub less_than : ℤ → ℕ → Bool
less_than (pos n) count = ltb n count
less_than (negsuc n) count = true

-- `len - n`.
abbrev pub missing : ℕ → ℤ → ℕ
missing len (pos n) = len - n
missing len (negsuc n) = len + suc n

-- Standard output and standard error.
abbrev pub is_std : ℤ → Bool
is_std (pos n) = n == 1 || n == 2
is_std (negsuc n) = false

-- `n > 0 ? n : 0`.
abbrev pub count_of : ℤ → ℕ
count_of (pos n) = n
count_of (negsuc n) = 0

module _ {ℓ} {W : Type ℓ} (sys : Sys W) where
  -- The two writes of a flush when the contents go round the end.
  flush_wrapped : W → Rbuf ℕ → ℤ → Option (ℤ × Rbuf ℕ × W)
  flush_wrapped w buf fd = do
    first ← load buf.bytes buf.rpos (add32 (sub32 buf.cap buf.rpos) 1)
    let (ret, w1) = sys.write w fd first in
        if is_count ret (add32 (sub32 buf.cap buf.rpos) 1)
        then (do
          second ← load buf.bytes 0 buf.wpos
          let (ret2, w2) = sys.write w1 fd second in
              let (n, buf') =
                second_written buf (advance buf.rpos ret) (add32 (sub32 buf.cap buf.rpos) 1) ret2 in
              some (n, buf', w2))
        else some (ret, record buf { rpos = advance buf.rpos ret }, w1)

  -- `_rbuf_flush`: what it returns, the ring and the system after it.
  unfoldable pub _rbuf_flush : W → Rbuf ℕ → ℤ → Option (ℤ × Rbuf ℕ × W)
  unfolding flush_wrapped
  _rbuf_flush w buf fd = if ltb buf.wpos buf.rpos then flush_wrapped w buf fd else (do
    bytes ← load buf.bytes buf.rpos (sub32 buf.wpos buf.rpos)
    let (ret, w1) = sys.write w fd bytes in
        some (ret, record buf { rpos = advance buf.rpos ret }, w1))

  -- `_log_fd` after formatting: `text` is what `cc_vscnprintf` made.
  unfoldable pub _log_fd : W → ℤ → List ℕ → Option LogMetrics → Option LogMetrics × W
  _log_fd w fd text metrics =
      let line = text ++ (10 ∷ []) in
      let (n, w') = sys.write w fd line in
      let metrics' =
        if less_than n 0
        then on metrics (λ m. record m { log_write_ex = incr m.log_write_ex })
        else metrics in
      (
        on metrics' (λ m.
            if less_than n (length line)
            then record m {
              log_skip = incr m.log_skip;
              log_skip_byte = incr_n m.log_skip_byte (missing (length line) n);
            }
            else record m {
              log_write = incr m.log_write;
              log_write_byte = incr_n m.log_write_byte (length line);
            }),
        w',
      )

  -- `log_flush` of a logger with a buffer. `log_stderr` is `_log_fd` on the standard error.
  unfoldable pub flush_buffer :
      W → Logger → Rbuf ℕ → Option LogMetrics → Option (ℕ × Logger × Option LogMetrics × W)
  unfolding _rbuf_flush _log_fd
  flush_buffer w logger buf metrics =
      if less_than logger.fd 0
      then (let (metrics', w') = _log_fd w (pos 2) sys.cannot_flush metrics in
          some (0, logger, on metrics' (λ m. record m { log_flush_ex = incr m.log_flush_ex }), w'))
      else (do
        (n, buf', w') ← _rbuf_flush w buf logger.fd
        some (
          count_of n,
          record logger { buf = some buf' },
          on metrics (λ m.
              if less_than n (rbuf_rcap buf)
              then record m { log_flush_ex = incr m.log_flush_ex }
              else record m { log_flush = incr m.log_flush }),
          w',
        ))

  -- `log_flush`.
  unfoldable pub log_flush :
      W → Logger → Option LogMetrics → Option (ℕ × Logger × Option LogMetrics × W)
  unfolding flush_buffer
  log_flush w logger metrics = elim logger.buf [
    | none ↦ some (0, logger, metrics, w)
    | some buf ↦ flush_buffer w logger buf metrics
  ]

  -- `log_write` into a ring buffer.
  unfoldable pub write_buffer :
      W
      → Logger
      → Rbuf ℕ
      → List ℕ
      → Option LogMetrics
      → Option (Bool × Logger × Option LogMetrics × W)
  write_buffer w logger buf msg metrics =
      if leb (length msg) (rbuf_wcap buf)
      then (do
        (k, buf') ← rbuf_write buf msg
        some (
          true,
          record logger { buf = some buf' },
          on metrics (λ m. record m {
            log_write = incr m.log_write;
            log_write_byte = incr_n m.log_write_byte (length msg);
          }),
          w,
        ))
      else some (
        false,
        logger,
        on metrics (λ m. record m {
          log_skip = incr m.log_skip;
          log_skip_byte = incr_n m.log_skip_byte (length msg);
        }),
        w,
      )

  -- `log_write` without one.
  unfoldable pub write_file :
      W → Logger → List ℕ → Option LogMetrics → Option (Bool × Logger × Option LogMetrics × W)
  write_file w logger msg metrics =
      if less_than logger.fd 0
      then some
          (false, logger, on metrics (λ m. record m { log_write_ex = incr m.log_write_ex }), w)
      else (let (n, w') = sys.write w logger.fd msg in
          if less_than n (length msg)
          then some
              (false, logger, on metrics (λ m. record m { log_write_ex = incr m.log_write_ex }), w')
          else some (
            true,
            logger,
            on metrics (λ m. record m {
              log_write = incr m.log_write;
              log_write_byte = incr_n m.log_write_byte (length msg);
            }),
            w',
          ))

  -- `log_write` of the `len` bytes `msg`. `none` is a copy to outside the ring.
  unfoldable pub log_write :
      W → Logger → List ℕ → Option LogMetrics → Option (Bool × Logger × Option LogMetrics × W)
  unfolding write_buffer write_file
  log_write w logger msg metrics = elim logger.buf [
    | none ↦ write_file w logger msg metrics
    | some buf ↦ write_buffer w logger buf msg metrics
  ]
