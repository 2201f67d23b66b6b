-- ===== src/Log/Messages.antt =====
-- What becomes of the messages given to a logger.
use ccommon.Prelude.{
  ℕ, ◌≤◌, ◌<◌, List, [], ◌∷◌, ◌++◌, Option, some, ◌≡◌, refl, sym, ap, ap₂, subst, ◌∙◌, arith,
  length, ◌⊎◌, inl, inr, le→leb, lt→leb, if◌then◌else◌, take, drop, min, dec_lt, append-nil,
  append_assoc, take-all, take-append-drop, ◌>>=◌, true, false, Bool, Bool-cases,
}
use ccommon.Prelude.Int.{ℤ, pos, negsuc}
use ccommon.Prelude.Words.{u32_mod}
use ccommon.Rbuf.{Rbuf, rbuf_wcap, rbuf_rcap}
use ccommon.Rbuf.Inv.{IsValid, contents}
use ccommon.Rbuf.Write.{rbuf_write-Writes}
use ccommon.Metric.{on, incr, incr_n}
use ccommon.Log.{
  count_of, Logger, LogMetrics, log_write, log_flush, write_buffer, flush_buffer, less_than,
  _log_fd,
}
use ccommon.Log.System.{Sys, Posix}
use ccommon.Log.Flush.{_rbuf_flush-Flushes}

module _ {ℓ} {W : Type ℓ} (sys : Sys W) where
  -- A message goes into the ring whole, or not at all.
  abbrev pub Logs :
      W → Logger → Rbuf ℕ → List ℕ → Option (Bool × Logger × Option LogMetrics × W) → Type ℓ
  Logs w logger buf msg r =
      ((length msg ≤ rbuf_wcap buf)
        × (buf' : Rbuf ℕ) × (m' : Option LogMetrics) × (r
            ≡ some (true, record logger { buf = some buf' }, m', w))
        × (contents buf' ≡ contents buf ++ msg)
        × IsValid buf'
        × (buf'.cap ≡ buf.cap))
      ⊎ ((rbuf_wcap buf < length msg)
          × (m' : Option LogMetrics) × (r ≡ some (false, logger, m', w)))

  -- `log_write` through a valid ring either adds the whole message behind the unread bytes and
  -- returns true, if there is room for it, or returns false and changes nothing but the metrics; it
  -- makes no system call.
  pub log_write-Logs :
      {buf : Rbuf ℕ} (w : W) (logger : Logger) (msg : List ℕ) (m : Option LogMetrics)
      → logger.buf ≡ some buf
      → IsValid buf
      → length msg < u32_mod
      → Logs w logger buf msg (log_write sys w logger msg m)
  log_write-Logs {buf} w logger msg m e v h = elim (dec_lt (rbuf_wcap buf) (length msg)) [
    | yes full ↦ inr (
      full,
      on m (λ m. record m {
        log_skip = incr m.log_skip;
        log_skip_byte = incr_n m.log_skip_byte (length msg);
      }),
      unfold log_write write_buffer in rw (e, lt→leb (length msg) (rbuf_wcap buf) full),
    )
    | no room ↦
        let fits : length msg ≤ rbuf_wcap buf = omega arith in
        let (buf', run, text, v', cap) = rbuf_write-Writes msg v h (inr fits) in
        let all : min (length msg) (rbuf_wcap buf) ≡ length msg = omega arith in
        inl (
          omega arith,
          buf',
          on m (λ m. record m {
            log_write = incr m.log_write;
            log_write_byte = incr_n m.log_write_byte (length msg);
          }),
          unfold log_write write_buffer in
              rw (e, le→leb (length msg) (rbuf_wcap buf) (omega arith), run),
          text
              ∙ ap (◌++◌ (contents buf))
                  (take-all (min (length msg) (rbuf_wcap buf)) msg (omega arith)),
          v',
          cap,
        )
  ]

-- A use of a logger.
pub data Call : Type 0 where
  write : List ℕ → Call
  flush : Call

abbrev accepted : Bool → List ℕ → List ℕ
accepted true msg = msg
accepted false msg = []

-- The messages of a `write` are shorter than 2^32 bytes, as `len` is a `uint32_t`.
abbrev pub AreSmall : List Call → Type 0
AreSmall [] = Unit
AreSmall (write msg ∷ calls) = (length msg < u32_mod) × AreSmall calls
AreSmall (flush ∷ calls) = AreSmall calls

module _ {ℓ} {W : Type ℓ} (sys : Sys W) where
  -- One call: the bytes for which it returned true, and the logger, metrics and system after it.
  unfoldable pub call :
      W → Logger → Option LogMetrics → Call → Option (List ℕ × Logger × Option LogMetrics × W)
  call w logger m (write msg) = do
    (done, logger', m', w') ← log_write sys w logger msg m
    some (accepted done msg, logger', m', w')
  call w logger m flush = do
    (n, logger', m', w') ← log_flush sys w logger m
    some ([], logger', m', w')

  unfoldable pub calls :
      W → Logger → Option LogMetrics → List Call → Option (List ℕ × Logger × Option LogMetrics × W)
  unfolding call
  calls w logger m [] = some ([], logger, m, w)
  calls w logger m (c ∷ cs) = do
    (bytes, logger', m', w') ← call w logger m c
    (rest, logger'', m'', w'') ← calls w' logger' m' cs
    some (bytes ++ rest, logger'', m'', w'')

module _ {ℓ} {W : Type ℓ} (sys : Sys W) (file : W → ℤ → List ℕ) where
  -- The file and the unread bytes together have grown by the bytes accepted.
  abbrev pub Conserves :
      W → Logger → Rbuf ℕ → Option (List ℕ × Logger × Option LogMetrics × W) → Type ℓ
  Conserves w logger buf r =
      (bytes : List ℕ) × (logger' : Logger) × (m' : Option LogMetrics) × (w' : W) × (buf' : Rbuf ℕ)
      × (r ≡ some (bytes, logger', m', w'))
      × (logger'.buf ≡ some buf')
      × (logger'.fd ≡ logger.fd)
      × IsValid buf'
      × (file w' logger.fd ++ contents buf' ≡ (file w logger.fd ++ contents buf) ++ bytes)

  flush-Conserves :
      {buf : Rbuf ℕ} (w : W) (logger : Logger) (m : Option LogMetrics)
      → Posix sys file
      → logger.buf ≡ some buf
      → IsValid buf
      → Conserves w logger buf (call sys w logger m flush)
  flush-Conserves {buf} w logger m law e v = elim (Bool-cases (less_than logger.fd 0)) [
    | inl closed ↦ (
      [],
      logger,
      on (_log_fd sys w (pos 2) sys.cannot_flush m).0
          (λ m. record m { log_flush_ex = incr m.log_flush_ex }),
      (_log_fd sys w (pos 2) sys.cannot_flush m).1,
      buf,
      unfold call log_flush flush_buffer in rw (e, closed),
      e,
      refl,
      v,
      ap (λ t. t ++ contents buf) (unread logger.fd closed)
          ∙ sym (append-nil (file w logger.fd ++ contents buf)),
    )
    | inr opened ↦
        let (ret, buf', w', run, (few, text, left, v', cap)) =
          _rbuf_flush-Flushes sys file w logger.fd law v in
        (
          [],
          record logger { buf = some buf' },
          on m (λ m.
              if less_than ret (rbuf_rcap buf)
              then record m { log_flush_ex = incr m.log_flush_ex }
              else record m { log_flush = incr m.log_flush }),
          w',
          buf',
          unfold call log_flush flush_buffer in rw (e, opened, run),
          refl,
          refl,
          v',
          ap₂ ◌++◌ text left
              ∙ append_assoc (file w logger.fd) (take (count_of ret) (contents buf))
                  (drop (count_of ret) (contents buf))
              ∙ ap (◌++◌ (file w logger.fd)) (take-append-drop (count_of ret) (contents buf))
              ∙ sym (append-nil (file w logger.fd ++ contents buf)),
        )
  ]
    where
      unread :
          (fd : ℤ)
          → less_than fd 0 ≡ true
          → file (_log_fd sys w (pos 2) sys.cannot_flush m).1 fd ≡ file w fd
      unread (pos n) h = absurd (ground (arith, h))
      unread (negsuc n) h = unfold _log_fd in law.closed w (pos 2) (sys.cannot_flush ++ 10 ∷ []) n

  write-Conserves :
      {buf : Rbuf ℕ} (w : W) (logger : Logger) (m : Option LogMetrics) (msg : List ℕ)
      → logger.buf ≡ some buf
      → IsValid buf
      → length msg < u32_mod
      → Conserves w logger buf (call sys w logger m (write msg))
  write-Conserves {buf} w logger m msg e v h = split (log_write-Logs sys w logger msg m e v h)
    where
      split :
          Logs sys w logger buf msg (log_write sys w logger msg m)
          → Conserves w logger buf (call sys w logger m (write msg))
      split (inl (room, buf', m', run, text, v', cap)) = (
        msg,
        record logger { buf = some buf' },
        m',
        w,
        buf',
        unfold call in rw run,
        refl,
        refl,
        v',
        ap (◌++◌ (file w logger.fd)) text
            ∙ sym (append_assoc (file w logger.fd) (contents buf) msg),
      )
      split (inr (full, m', run)) = (
        [],
        logger,
        m',
        w,
        buf,
        unfold call in rw run,
        e,
        refl,
        v,
        sym (append-nil (file w logger.fd ++ contents buf)),
      )

  call-Conserves :
      {buf : Rbuf ℕ} (w : W) (logger : Logger) (m : Option LogMetrics) (c : Call)
      → Posix sys file
      → logger.buf ≡ some buf
      → IsValid buf
      → AreSmall (c ∷ [])
      → Conserves w logger buf (call sys w logger m c)
  call-Conserves w logger m (write msg) law e v small = write-Conserves w logger m msg e v small.0
  call-Conserves w logger m flush law e v small = flush-Conserves w logger m law e v

  calls_step :
      (w w' w'' : W) (logger logger' logger'' : Logger) (m m' m'' : Option LogMetrics) (c : Call)
      (cs : List Call) (bytes rest : List ℕ)
      → call sys w logger m c ≡ some (bytes, logger', m', w')
      → calls sys w' logger' m' cs ≡ some (rest, logger'', m'', w'')
      → calls sys w logger m (c ∷ cs) ≡ some (bytes ++ rest, logger'', m'', w'')
  unfolding calls
  calls_step w w' w'' logger logger' logger'' m m' m'' c cs bytes rest one others = rw (one, others)

  small_first : (c : Call) (cs : List Call) → AreSmall (c ∷ cs) → AreSmall (c ∷ []) × AreSmall cs
  small_first (write msg) cs small = ((small.0, tt), small.1)
  small_first flush cs small = (tt, small)

  -- Any sequence of writes and flushes of a logger with a valid ring, over a `write` system call as
  -- documented, runs without a copy outside the ring and loses, repeats and reorders nothing: the
  -- file followed by the unread bytes is at the end what it was at the start, followed by exactly the
  -- messages for which `log_write` returned true.
  pub calls-Conserves :
      (buf : Rbuf ℕ) (w : W) (logger : Logger) (m : Option LogMetrics) (cs : List Call)
      → Posix sys file
      → logger.buf ≡ some buf
      → IsValid buf
      → AreSmall cs
      → Conserves w logger buf (calls sys w logger m cs)
  calls-Conserves buf w logger m [] law e v small = (
    [],
    logger,
    m,
    w,
    buf,
    unfold calls in refl,
    e,
    refl,
    v,
    sym (append-nil (file w logger.fd ++ contents buf)),
  )
  calls-Conserves buf w logger m (c ∷ cs) law e v small =
      let (first, others) = small_first c cs small in
      let (bytes, logger', m', w', buf', run, e', fd', v', text) =
        call-Conserves w logger m c law e v first in
      let (rest, logger'', m'', w'', buf'', run', e'', fd'', v'', text') =
        calls-Conserves buf' w' logger' m' cs law e' v' others in
      (
        bytes ++ rest,
        logger'',
        m'',
        w'',
        buf'',
        calls_step w w' w'' logger logger' logger'' m m' m'' c cs bytes rest run run',
        e'',
        fd'' ∙ fd',
        v'',
        subst (λ fd. file w'' fd ++ contents buf'' ≡ (file w' fd ++ contents buf') ++ rest) fd'
              text'
            ∙ ap (λ t. t ++ rest) text
            ∙ append_assoc (file w logger.fd ++ contents buf) bytes rest,
      )
