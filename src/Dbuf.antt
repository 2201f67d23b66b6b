-- ===== src/Dbuf.antt =====
-- src/buffer/cc_dbuf.c: buffers that double and shrink.
-- `realloc` gets the bytes behind the old header and the new size of the whole block, and returns
-- the bytes behind the new header. The statics `buf_init_size` and `max_size` are parameters.
pub mod Fit
pub mod Resize
mod Tests
use ccommon.Prelude.{
  ℕ, zero, suc, ◌+◌, ◌-◌, ◌*◌, ◌%◌, ◌^◌, List, Option, none, some, Bool, true, false, if◌then◌else◌,
  ltb, ◌==◌, not, ◌>>=◌,
}
use ccommon.Prelude.Words.{u32_mod}
use ccommon.Metric.{Metric, on, incr, incr_n, decr_n}
use ccommon.Status.{Status, ok, error, enomem}
use ccommon.Buf.{Buf, BufMetrics, buf_hdr_size, buf_size, buf_rsize, buf_lshift}

-- `dbuf_metrics_st`.
pub record DbufMetrics : Type 0 where
  pub dbuf_double : Metric
  pub dbuf_double_ex : Metric
  pub dbuf_shrink : Metric
  pub dbuf_shrink_ex : Metric
  pub dbuf_fit : Metric
  pub dbuf_fit_ex : Metric

-- The two modules' metrics.
pub record Counters : Type 0 where
  pub buf_metrics : Option BufMetrics
  pub dbuf_metrics : Option DbufMetrics

-- What a resizing returns, the buffer after it, and the metrics.
pub record Outcome {ℓ} (A : Type ℓ) : Type ℓ where
  pub status : Status
  pub buf : Buf A
  pub counters : Counters

-- The loop of `dbuf_fit` and `dbuf_shrink`: `nsize` doubled, as a `uint32_t`, until it reaches `target`.
-- `none` is the end of the fuel.
unfoldable pub fit_size : ℕ → ℕ → ℕ → Option ℕ
fit_size zero nsize target = none
fit_size (suc fuel) nsize target =
    let rest = fit_size fuel (nsize * 2 % u32_mod) target in
    if ltb nsize target then rest else some nsize

-- The counter for the status.
abbrev pub counted :
    Status → (DbufMetrics → DbufMetrics) → (DbufMetrics → DbufMetrics) → DbufMetrics → DbufMetrics
counted ok done failed m = done m
counted s done failed m = failed m

-- The end of the three functions: one counter for success and one for failure.
abbrev pub count_outcome {ℓ} :
    {A : Type ℓ} → (DbufMetrics → DbufMetrics) → (DbufMetrics → DbufMetrics) → Outcome A → Outcome A
count_outcome done failed out = record out {
  counters = record out.counters {
    dbuf_metrics = on out.counters.dbuf_metrics (counted out.status done failed);
  };
}

-- `_dbuf_resize` after the call of `realloc`.
abbrev pub reallocated {ℓ} : {A : Type ℓ} → Buf A → Counters → ℕ → Option (List A) → Outcome A
reallocated buf c nsize none = record { status = enomem; buf = buf; counters = c }
reallocated buf c nsize (some bytes) = record {
  status = ok;
  buf = record buf { bytes = bytes; end = nsize - buf_hdr_size };
  counters = record c {
    buf_metrics =
        on c.buf_metrics
          (λ m. record m { buf_memory = incr_n (decr_n m.buf_memory (buf_size buf)) nsize });
  };
}

module _ {ℓ} {A : Type ℓ} (realloc : List A → ℕ → Option (List A))
    (buf_init_size max_size : ℕ) where
  -- `_dbuf_resize`.
  unfoldable pub _dbuf_resize : Buf A → Counters → ℕ → Outcome A
  unfolding buf_size
  _dbuf_resize buf c nsize =
      if ltb max_size nsize
      then record { status = error; buf = buf; counters = c }
      else reallocated buf c nsize (realloc buf.bytes nsize)

  -- `dbuf_double`.
  unfoldable pub dbuf_double : Buf A → Counters → Outcome A
  unfolding _dbuf_resize buf_size
  dbuf_double buf c =
      count_outcome (λ m. record m { dbuf_double = incr m.dbuf_double })
        (λ m. record m { dbuf_double_ex = incr m.dbuf_double_ex })
        (_dbuf_resize buf c (buf_size buf * 2 % u32_mod))

  -- `dbuf_fit`, whose loop has `fuel` rounds.
  unfoldable pub dbuf_fit : ℕ → Buf A → Counters → ℕ → Option (Outcome A)
  unfolding buf_rsize buf_lshift fit_size buf_size _dbuf_resize
  dbuf_fit fuel buf c cap =
      if ltb cap (buf_rsize buf)
      then some (record { status = error; buf = buf; counters = c })
      else (do
        buf' ← buf_lshift buf
        nsize ← fit_size fuel buf_init_size (cap + buf_hdr_size)
        if not (nsize == buf_size buf')
            then some (
                count_outcome (λ m. record m { dbuf_fit = incr m.dbuf_fit })
                  (λ m. record m { dbuf_fit_ex = incr m.dbuf_fit_ex }) (_dbuf_resize buf' c nsize))
            else some (record { status = ok; buf = buf'; counters = c }))

  -- `dbuf_shrink`, whose loop has `fuel` rounds.
  unfoldable pub dbuf_shrink : ℕ → Buf A → Counters → Option (Outcome A)
  unfolding buf_rsize buf_lshift fit_size buf_size _dbuf_resize
  dbuf_shrink fuel buf c = do
    buf' ← buf_lshift buf
    nsize ← fit_size fuel buf_init_size (buf_rsize buf + buf_hdr_size)
    if not (nsize == buf_size buf')
        then some (
            count_outcome (λ m. record m { dbuf_shrink = incr m.dbuf_shrink })
              (λ m. record m { dbuf_shrink_ex = incr m.dbuf_shrink_ex })
              (_dbuf_resize buf' c nsize))
        else some (record { status = ok; buf = buf'; counters = c })
