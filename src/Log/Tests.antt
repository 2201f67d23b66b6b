-- ===== src/Log/Tests.antt =====
-- Runs of a logger on a file that takes two bytes at a time, and the theorems at it.
use ccommon.Prelude.{
  ℕ, List, [], ◌∷◌, ◌++◌, Option, some, none, ◌≡◌, refl, ◌∙◌, ap, sym, arith, length, min, take,
  length-take, take_at, inl, inr, ◌⊎◌, ◌≤◌, if◌then◌else◌, ◌==◌, eq→==, eq_of_some, ℕ_discrete,
}
use ccommon.Prelude.Memory.{take-min, load, slice}
use ccommon.Prelude.Int.{ℤ, pos, negsuc}
use ccommon.Rbuf.{Rbuf, RbufMetrics, rbuf_create}
use ccommon.Rbuf.Inv.{IsValid}
use ccommon.Rbuf.Life.{Allocates}
use ccommon.Metric.{counter, gauge}
use ccommon.Log.{Logger, _rbuf_flush, flush_wrapped, log_write}
use ccommon.Log.System.{Sys, Posix}
use ccommon.Log.Flush.{Flushes, _rbuf_flush-Flushes}
use ccommon.Log.Messages.{
  Logs, Call, write, flush, calls, Conserves, log_write-Logs, calls-Conserves,
}

-- One file, which takes at most two bytes in a call. The name with the byte 0 cannot be opened.
abbrev slow_write : List ℕ → ℤ → List ℕ → ℤ × List ℕ
slow_write w (pos fd) bytes = (pos (length (take 2 bytes)), w ++ take 2 bytes)
slow_write w (negsuc n) bytes = (negsuc 0, w)

abbrev slow : Sys (List ℕ)
slow = record {
  write = slow_write;
  open_append = λ w name. (if length name == 1 then pos 5 else negsuc 0, w);
  open_truncate = λ w name. (pos 5, []);
  close = λ w fd. w;
  rename = λ w old new. (pos 0, w);
  cannot_flush = 63 ∷ [];
}

abbrev one_file : List ℕ → ℤ → List ℕ
one_file w (pos fd) = w
one_file w (negsuc n) = []

slow-Posix : Posix slow one_file
slow-Posix = record { written = written; closed = closed }
  where
    written :
        (w : List ℕ) (fd : ℤ) (bytes : List ℕ)
        → ((n : ℕ) × ((slow_write w fd bytes).0 ≡ pos n)
            × (n ≤ length bytes)
            × (one_file (slow_write w fd bytes).1 fd ≡ one_file w fd ++ take n bytes))
          ⊎ (((slow_write w fd bytes).0 ≡ negsuc 0)
              × (one_file (slow_write w fd bytes).1 fd ≡ one_file w fd))
    written w (pos fd) bytes = inl (
      length (take 2 bytes),
      refl,
      omega (arith, length-take 2 bytes),
      ap (◌++◌ w) (
          sym (
            take_at (length (take 2 bytes)) (min 2 (length bytes)) bytes (length-take 2 bytes)
            ∙ take-min 2 bytes)),
    )
    written w (negsuc n) bytes = inr (refl, refl)

    closed :
        (w : List ℕ) (fd : ℤ) (bytes : List ℕ) (n : ℕ)
        → one_file (slow_write w fd bytes).1 (negsuc n) ≡ one_file w (negsuc n)
    closed w fd bytes n = refl

-- 7, 8 and 9, round the end of an array of five bytes.
abbrev wrapped : Rbuf ℕ
wrapped = record { rpos = 3; wpos = 1; cap = 4; bytes = 9 ∷ 0 ∷ 0 ∷ 7 ∷ 8 ∷ [] }

wrapped-IsValid : IsValid wrapped
wrapped-IsValid = omega arith

abbrev logger : Logger
logger = record { name = some (1 ∷ []); fd = pos 5; buf = some wrapped }

flush_run :
    _rbuf_flush slow (1 ∷ []) wrapped (pos 5)
    ≡ some (pos 3, record wrapped { rpos = 1 }, 1 ∷ 7 ∷ 8 ∷ 9 ∷ [])
unfolding _rbuf_flush flush_wrapped load slice
flush_run = refl

_rbuf_flush-Flushes_example :
    Flushes slow one_file [] (pos 5) wrapped (_rbuf_flush slow [] wrapped (pos 5))
_rbuf_flush-Flushes_example =
    _rbuf_flush-Flushes slow one_file [] (pos 5) slow-Posix wrapped-IsValid

log_write-Logs_example :
    Logs slow [] logger wrapped (4 ∷ []) (log_write slow [] logger (4 ∷ []) none)
log_write-Logs_example =
    log_write-Logs slow [] logger (4 ∷ []) none refl wrapped-IsValid (omega arith)

abbrev history : List Call
history = write (4 ∷ []) ∷ flush ∷ write (5 ∷ 6 ∷ []) ∷ write (1 ∷ 2 ∷ 3 ∷ []) ∷ []

calls-Conserves_example :
    Conserves slow one_file [] logger wrapped (calls slow [] logger none history)
calls-Conserves_example =
    calls-Conserves slow one_file wrapped [] logger none history slow-Posix refl wrapped-IsValid
      (omega arith, (omega arith, (omega arith, tt)))

-- An allocator that only knows the block that the example asks for.
abbrev fifteen : ℕ → Option (List ℕ)
fifteen n = if n == 15 then some (0 ∷ 0 ∷ 0 ∷ []) else none

fifteen-Allocates : Allocates fifteen
fifteen-Allocates n bytes e = elim (ℕ_discrete n 15) [
  | yes h ↦
      let e' : some (0 ∷ 0 ∷ 0 ∷ []) ≡ some bytes = rw (eq→== n 15 h) at e in
      omega (arith, ap length (eq_of_some e'))
  | no h ↦ absurd (ground arith)
]

abbrev zero_metrics : RbufMetrics
zero_metrics = record {
  rbuf_create = record { type = counter; bits = 0 };
  rbuf_create_ex = record { type = counter; bits = 0 };
  rbuf_destroy = record { type = counter; bits = 0 };
  rbuf_curr = record { type = gauge; bits = 0 };
  rbuf_byte = record { type = gauge; bits = 0 };
}

ring_made :
    (rbuf_create fifteen 2 (some zero_metrics)).0
    ≡ some (record { rpos = 0; wpos = 0; cap = 2; bytes = 0 ∷ 0 ∷ 0 ∷ [] })
unfolding rbuf_create
ring_made = refl
