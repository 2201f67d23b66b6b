-- ===== src/Log/Life.antt =====
-- What a logger is made with, and what becomes of its bytes when it is destroyed.
use ccommon.Prelude.{
  ℕ, ◌+◌, ◌<◌, List, [], Option, none, some, true, false, ◌≡◌, refl, arith, if◌then◌else◌, lt→ltb,
  le→ltb, not, ◌⊎◌, inl, inr,
}
use ccommon.Prelude.Int.{ℤ, pos}
use ccommon.Prelude.Words.{u32_mod}
use ccommon.Metric.{on, incr, decr}
use ccommon.Rbuf.{Rbuf, RbufMetrics, rbuf_create, rbuf_destroy, rbuf_hdr_size, rbuf_rcap}
use ccommon.Rbuf.Inv.{IsValid, contents}
use ccommon.Rbuf.Life.{Allocates, rbuf_create_lem}
use ccommon.Log.System.{Sys, Posix}
use ccommon.Log.{Logger, LogMetrics, log_flush, flush_buffer, less_than, is_std, count_of}
use ccommon.Log.Open.{create_opened, log_create, log_destroy}
use ccommon.Log.Flush.{Drains, _rbuf_flush-Flushes}

not_negative : (fd : ℕ) → less_than (pos fd) 0 ≡ false
not_negative fd = le→ltb fd 0 (omega arith)

module _ {ℓ} {W : Type ℓ} (sys : Sys W) where
  -- When the ring of a new logger has been made and its file cannot be opened, `log_create` returns
  -- no logger, and the ring stays counted as in use: nothing destroys it.
  log_create-leak :
      (alloc : ℕ → Option (List ℕ)) (w : W) (name : List ℕ) (buf_cap : ℕ) (m : Option LogMetrics)
      (rm : RbufMetrics) (ring : Rbuf ℕ)
      → 0 < buf_cap
      → (rbuf_create alloc buf_cap (some rm)).0 ≡ some ring
      → less_than (sys.open_append w name).0 0 ≡ true
      → let (made, rm') = log_create sys true alloc w (some name) buf_cap m (some rm) in
        (made.0 ≡ none) × (rm' ≡ (rbuf_create alloc buf_cap (some rm)).1)
  unfolding log_create create_opened
  log_create-leak alloc w name buf_cap m rm ring h e closed =
      rw (lt→ltb 0 buf_cap h, e, closed) (refl, refl)

  -- `log_create` with a named file that opens, a capacity above 0 and below 2^32 - 1, and an
  -- allocator that returns blocks of the size asked for: when the ring can be allocated the logger has
  -- the file's descriptor and a valid, empty ring of the capacity asked for, and otherwise there is
  -- no logger.
  log_create_lem :
      (alloc : ℕ → Option (List ℕ)) (w : W) (name : List ℕ) (buf_cap fd : ℕ) (m : Option LogMetrics)
      (rm : Option RbufMetrics)
      → Allocates alloc
      → 0 < buf_cap
      → buf_cap + 1 < u32_mod
      → (sys.open_append w name).0 ≡ pos fd
      → ((buf : Rbuf ℕ) × ((log_create sys true alloc w (some name) buf_cap m rm).0.0
            ≡ some (record { name = some name; fd = pos fd; buf = some buf }))
          × IsValid buf
          × (contents buf ≡ [])
          × (buf.cap ≡ buf_cap))
        ⊎ ((alloc (rbuf_hdr_size + buf_cap + 1) ≡ none)
            × ((log_create sys true alloc w (some name) buf_cap m rm).0.0 ≡ none))
  log_create_lem alloc w name buf_cap fd m rm law h k opens =
      split (rbuf_create_lem alloc buf_cap rm law k)
    where
      split :
          ((buf : Rbuf ℕ) × ((rbuf_create alloc buf_cap rm).0 ≡ some buf)
              × IsValid buf
              × (contents buf ≡ [])
              × (buf.cap ≡ buf_cap))
            ⊎ ((alloc (rbuf_hdr_size + buf_cap + 1) ≡ none)
                × ((rbuf_create alloc buf_cap rm).0 ≡ none))
          → ((buf : Rbuf ℕ) × ((log_create sys true alloc w (some name) buf_cap m rm).0.0
                ≡ some (record { name = some name; fd = pos fd; buf = some buf }))
              × IsValid buf
              × (contents buf ≡ [])
              × (buf.cap ≡ buf_cap))
            ⊎ ((alloc (rbuf_hdr_size + buf_cap + 1) ≡ none)
                × ((log_create sys true alloc w (some name) buf_cap m rm).0.0 ≡ none))
      split (inl (buf, made, v, empty, cap)) = inl (
        buf,
        unfold log_create create_opened in rw (lt→ltb 0 buf_cap h, made, opens, not_negative fd),
        v,
        empty,
        cap,
      )
      split (inr (out, failed)) =
          inr (out, unfold log_create create_opened in rw (lt→ltb 0 buf_cap h, failed))

module _ {ℓ} {W : Type ℓ} (sys : Sys W) (file : W → ℤ → List ℕ) where
  destroy_run :
      (w w1 : W) (logger logger' : Logger) (n fd : ℕ) (m m' : Option LogMetrics)
      (rm : Option RbufMetrics)
      → log_flush sys w logger m ≡ some (n, logger', m', w1)
      → logger'.fd ≡ pos fd
      → log_destroy sys w (some logger) m rm
        ≡ some (
          none,
          on m' (λ m. record m { log_destroy = incr m.log_destroy; log_curr = decr m.log_curr }),
          (rbuf_destroy logger'.buf rm).1,
          if not (is_std (pos fd)) then sys.close w1 (pos fd) else w1,
        )
  unfolding log_destroy
  destroy_run w w1 logger logger' n fd m m' rm run e = rw (run, e, not_negative fd)

  -- `log_destroy` of a logger with a valid ring and an open file first flushes: some of the unread
  -- bytes, from the first on, are appended to the file. Then it closes the file, if it is not a
  -- standard stream, and destroys the ring with whatever the flush left in it.
  log_destroy_lem :
      {buf : Rbuf ℕ} (w : W) (logger : Logger) (fd : ℕ) (m : Option LogMetrics)
      (rm : Option RbufMetrics)
      → Posix sys file
      → logger.buf ≡ some buf
      → logger.fd ≡ pos fd
      → IsValid buf
      → (n : ℕ) × (buf' : Rbuf ℕ) × (w1 : W) × (m' : Option LogMetrics) × Drains sys file w
          (pos fd)
          buf
          n
          buf'
          w1
        × (log_destroy sys w (some logger) m rm
            ≡ some (
              none,
              m',
              (rbuf_destroy (some buf') rm).1,
              if not (is_std (pos fd)) then sys.close w1 (pos fd) else w1,
            ))
  log_destroy_lem {buf} w logger fd m rm law e f v =
      let (ret, buf', w1, run, drains) = _rbuf_flush-Flushes sys file w (pos fd) law v in
      let m1 = on m (λ m.
        if less_than ret (rbuf_rcap buf)
        then record m { log_flush_ex = incr m.log_flush_ex }
        else record m { log_flush = incr m.log_flush }) in
      let flushed : log_flush sys w logger m
          ≡ some (count_of ret, record logger { buf = some buf' }, m1, w1) =
        unfold log_flush flush_buffer in rw (e, f, not_negative fd, run) in
      (
        count_of ret,
        buf',
        w1,
        on m1 (λ m. record m { log_destroy = incr m.log_destroy; log_curr = decr m.log_curr }),
        drains,
        destroy_run w w1 logger (record logger { buf = some buf' }) (count_of ret) fd m m1 rm
            flushed f,
      )
