-- ===== src/Log/Open.antt =====
-- Opening and closing loggers: `log_create`, `log_destroy` and `log_reopen` of src/cc_log.c.
use ccommon.Prelude.{ℕ, List, Option, none, some, Bool, if◌then◌else◌, ltb, ◌>>=◌, not, ◌&&◌}
use ccommon.Prelude.Int.{ℤ, pos, negsuc}
use ccommon.Metric.{on, incr, decr}
use ccommon.Status.{Status, ok, error}
use ccommon.Rbuf.{Rbuf, RbufMetrics, rbuf_create, rbuf_destroy}
use ccommon.Log.System.{Sys}
use ccommon.Log.{Logger, LogMetrics, log_flush, less_than, is_std}

module _ {ℓ} {W : Type ℓ} (sys : Sys W) where
  -- The file that `log_create` opens: its descriptor, or standard error.
  abbrev pub opened : W → Option (List ℕ) → ℤ × W
  opened w none = (pos 2, w)
  opened w (some name) = sys.open_append w name

  -- `log_create` after the allocations. Only the open of a named file can fail.
  unfoldable pub create_opened :
      W
      → Option (List ℕ)
      → Option (Rbuf ℕ)
      → Option LogMetrics
      → Option Logger × Option LogMetrics × W
  create_opened w name buf m =
      let created : LogMetrics → LogMetrics =
        λ m. record m { log_create = incr m.log_create; log_curr = incr m.log_curr } in
      let (fd, w') = opened w name in
      elim name [
        | none ↦ (some (record { name = none; fd = fd; buf = buf }), on m created, w')
        | some text ↦
            if less_than fd 0
            then (
              none,
              on m (λ m. record m {
                log_open_ex = incr m.log_open_ex;
                log_create_ex = incr m.log_create_ex;
              }),
              w',
            )
            else (
              some (record { name = some text; fd = fd; buf = buf }),
              on (on m (λ m. record m { log_open = incr m.log_open })) created,
              w',
            )
      ]

  -- `log_create`. `alloc_logger` tells whether the logger itself can be allocated, and `alloc` is the
  -- allocator of the ring.
  unfoldable pub log_create :
      Bool
      → (ℕ → Option (List ℕ))
      → W
      → Option (List ℕ)
      → ℕ
      → Option LogMetrics
      → Option RbufMetrics
      → (Option Logger × Option LogMetrics × W) × Option RbufMetrics
  unfolding create_opened
  log_create alloc_logger alloc w name buf_cap m rm =
      let failed = on m (λ m. record m { log_create_ex = incr m.log_create_ex }) in
      if alloc_logger
      then (if ltb 0 buf_cap
          then (let (made, rm') = rbuf_create alloc buf_cap rm in
              elim made [
                | none ↦ ((none, failed, w), rm')
                | some buf ↦ (create_opened w name (some buf) m, rm')
              ])
          else (create_opened w name none m, rm))
      else ((none, failed, w), rm)

  -- `log_destroy`, through the pointer that the caller holds.
  unfoldable pub log_destroy :
      W
      → Option Logger
      → Option LogMetrics
      → Option RbufMetrics
      → Option (Option Logger × Option LogMetrics × Option RbufMetrics × W)
  unfolding log_flush
  log_destroy w none m rm = some (none, m, rm, w)
  log_destroy w (some logger) m rm = do
    (n, logger', m', w') ← log_flush sys w logger m
    some (
      none,
      on m' (λ m. record m { log_destroy = incr m.log_destroy; log_curr = decr m.log_curr }),
      (rbuf_destroy logger'.buf rm).1,
      if not (less_than logger'.fd 0) && not (is_std logger'.fd)
          then sys.close w' logger'.fd
          else w',
    )

  -- The renaming in `log_reopen`; its result is only logged.
  abbrev pub renamed : W → Option (List ℕ) → Option (List ℕ) → W
  renamed w (some name) (some target) = (sys.rename w name target).1
  renamed w (some name) none = w
  renamed w none target = w

  -- The open in `log_reopen`.
  abbrev pub reopened : W → Option (List ℕ) → ℤ × W
  reopened w none = (negsuc 0, w)
  reopened w (some name) = sys.open_truncate w name

  -- `log_reopen`: the status, and the logger, metrics and system after it. A logger that is not on a
  -- standard stream has a name.
  unfoldable pub log_reopen :
      W → Logger → Option (List ℕ) → Option LogMetrics → Status × Logger × Option LogMetrics × W
  log_reopen w logger target m =
      let done = on m (λ m. record m { log_open = incr m.log_open }) in
      if is_std logger.fd
      then (ok, logger, done, w)
      else (let w' = renamed (sys.close w logger.fd) logger.name target in
          let (fd, w'') = reopened w' logger.name in
          if less_than fd 0
          then (
            error,
            record logger { fd = fd },
            on m (λ m. record m { log_open_ex = incr m.log_open_ex }),
            w'',
          )
          else (ok, record logger { fd = fd }, done, w''))
