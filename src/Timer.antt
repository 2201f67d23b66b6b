-- ===== src/Timer.antt =====
-- src/time/cc_timer_linux.c and include/time/cc_timer.h: timeouts, and the durations that a clock
-- measures.
-- An `int64_t` is its 64-bit pattern, which is what conversions to and from `uint64_t` keep. A clock is
-- a function that reads it: the seconds and nanoseconds, or none when the reading fails, and the clock
-- after that.
pub mod Duration
pub mod Laws
mod Tests
use ccommon.Prelude.{
  ℕ, ◌+◌, ◌-◌, ◌*◌, ◌/◌, ◌%◌, ◌^◌, Option, none, some, Bool, true, false, if◌then◌else◌, ltb, leb,
  not, ◌==◌, ◌&&◌, ◌>>=◌,
}
use ccommon.Prelude.Words.{u64_mod, add64, sub64, mul64}

abbrev pub nsec_per_usec : ℕ
nsec_per_usec = 1000

abbrev pub nsec_per_msec : ℕ
nsec_per_msec = 1000000

abbrev pub nsec_per_sec : ℕ
nsec_per_sec = 1000000000

-- The sign bit, the comparison, and the division of signed patterns, which rounds towards zero.
abbrev pub is_negative : ℕ → Bool
is_negative a = leb (2 ^ 63) a

abbrev pub signed_leb : ℕ → ℕ → Bool
signed_leb a b = leb (add64 a (2 ^ 63)) (add64 b (2 ^ 63))

abbrev pub signed_div : ℕ → ℕ → ℕ
signed_div a b = if is_negative a then sub64 0 ((u64_mod - a) / b) else a / b

-- A signed sum or difference; none where it overflows, which is undefined.
abbrev pub signed_add : ℕ → ℕ → Option ℕ
signed_add a b =
    if (if is_negative a then is_negative b else not (is_negative b))
      && not (if is_negative a then is_negative (add64 a b) else not (is_negative (add64 a b)))
    then none
    else some (add64 a b)

abbrev pub signed_sub : ℕ → ℕ → Option ℕ
signed_sub a b =
    if (if is_negative a then not (is_negative b) else is_negative b)
      && not (if is_negative a then is_negative (sub64 a b) else not (is_negative (sub64 a b)))
    then none
    else some (sub64 a b)

-- `struct timeout`.
pub record Timeout : Type 0 where
  pub tp : ℕ
  pub is_set : Bool
  pub is_intvl : Bool

-- `timeout_reset`.
abbrev pub timeout_reset : Timeout
timeout_reset = record { tp = 0; is_set = false; is_intvl = false }

-- `timeout_set_ns`, `timeout_set_us`, `timeout_set_ms` and `timeout_set_sec`, on `uint64_t`.
unfoldable pub timeout_set_ns : ℕ → Timeout
timeout_set_ns ns = record { tp = ns; is_set = true; is_intvl = true }

unfoldable pub timeout_set_us : ℕ → Timeout
unfolding timeout_set_ns
timeout_set_us us = timeout_set_ns (mul64 us nsec_per_usec)

unfoldable pub timeout_set_ms : ℕ → Timeout
unfolding timeout_set_ns
timeout_set_ms ms = timeout_set_ns (mul64 ms nsec_per_msec)

unfoldable pub timeout_set_sec : ℕ → Timeout
unfolding timeout_set_ns
timeout_set_sec sec = timeout_set_ns (mul64 sec nsec_per_sec)

-- `timeout_sum_intvl` and `timeout_sub_intvl`, of `b` and `t`.
unfoldable pub timeout_sum_intvl : Timeout → Timeout → Option Timeout
timeout_sum_intvl b t = do
  tp ← signed_add b.tp t.tp
  some (record { tp = tp; is_set = true; is_intvl = b.is_intvl })

unfoldable pub timeout_sub_intvl : Timeout → Timeout → Option Timeout
timeout_sub_intvl b t = do
  tp ← signed_sub b.tp t.tp
  some (record { tp = tp; is_set = true; is_intvl = b.is_intvl })

module _ {ℓ} {K : Type ℓ} (clock_gettime : K → Option (ℕ × ℕ) × K) where
  abbrev pub or_zero : Option (ℕ × ℕ) → ℕ × ℕ
  or_zero none = (0, 0)
  or_zero (some ts) = ts

  -- `_gettime`: zero when the clock cannot be read.
  unfoldable pub _gettime : K → (ℕ × ℕ) × K
  _gettime k = let (ts, k') = clock_gettime k in (or_zero ts, k')

  -- `_now_ns`. The product of a clock's seconds does not overflow before the year 2262, so that it is
  -- that of `uint64_t`.
  unfoldable pub _now_ns : K → ℕ × K
  unfolding _gettime
  _now_ns k =
      let ((tv_sec, tv_nsec), k') = _gettime k in (add64 (mul64 tv_sec nsec_per_sec) tv_nsec, k')

  -- `timeout_add_ns`, `timeout_add_us`, `timeout_add_ms` and `timeout_add_sec`.
  unfoldable pub timeout_add_ns : ℕ → K → Timeout × K
  unfolding _now_ns
  timeout_add_ns ns k =
      let (now, k') = _now_ns k in
      (record { tp = add64 now ns; is_set = true; is_intvl = false }, k')

  unfoldable pub timeout_add_us : ℕ → K → Timeout × K
  unfolding timeout_add_ns
  timeout_add_us us k = timeout_add_ns (mul64 us nsec_per_usec) k

  unfoldable pub timeout_add_ms : ℕ → K → Timeout × K
  unfolding timeout_add_ns
  timeout_add_ms ms k = timeout_add_ns (mul64 ms nsec_per_msec) k

  unfoldable pub timeout_add_sec : ℕ → K → Timeout × K
  unfolding timeout_add_ns
  timeout_add_sec sec k = timeout_add_ns (mul64 sec nsec_per_sec) k

  -- `timeout_add_intvl`.
  unfoldable pub timeout_add_intvl : Timeout → K → Timeout × K
  unfolding timeout_add_ns
  timeout_add_intvl t k = timeout_add_ns t.tp k

  -- `timeout_ns`, and the coarser units.
  unfoldable pub timeout_ns : Timeout → K → ℕ × K
  unfolding _now_ns
  timeout_ns e k =
      if e.is_intvl then (e.tp, k) else (let (now, k') = _now_ns k in (sub64 e.tp now, k'))

  unfoldable pub timeout_us : Timeout → K → ℕ × K
  unfolding timeout_ns
  timeout_us e k = let (ns, k') = timeout_ns e k in (signed_div ns nsec_per_usec, k')

  unfoldable pub timeout_ms : Timeout → K → ℕ × K
  unfolding timeout_ns
  timeout_ms e k = let (ns, k') = timeout_ns e k in (signed_div ns nsec_per_msec, k')

  unfoldable pub timeout_sec : Timeout → K → ℕ × K
  unfolding timeout_ns
  timeout_sec e k = let (ns, k') = timeout_ns e k in (signed_div ns nsec_per_sec, k')

  -- `timeout_timespec`, for a timeout that is not past.
  unfoldable pub timeout_timespec : Timeout → K → (ℕ × ℕ) × K
  unfolding timeout_ns
  timeout_timespec e k =
      let (ns, k') = timeout_ns e k in ((ns / nsec_per_sec, ns % nsec_per_sec), k')

  -- `timeout_expired`.
  unfoldable pub timeout_expired : Timeout → K → Bool × K
  unfolding _now_ns
  timeout_expired e k =
      if not e.is_set then (false, k) else (let (now, k') = _now_ns k in (signed_leb e.tp now, k'))
