-- ===== src/Timer/Duration.antt =====
-- Durations of src/time/cc_timer_linux.c. Floating point is a record of the operations that are used.
use ccommon.Prelude.{ℕ, Option, Bool, true, false, if◌then◌else◌}
use ccommon.Prelude.Words.{sub64}
use ccommon.Timer.{_gettime, nsec_per_usec, nsec_per_msec, nsec_per_sec}

-- `double`: from an `int64_t`, as a 64-bit pattern, and to a `uint64_t`.
pub record Doubles : Type 1 where
  pub Double : Type 0
  pub of_int64 : ℕ → Double
  pub to_uint64 : Double → ℕ
  pub add : Double → Double → Double
  pub sub : Double → Double → Double
  pub mul : Double → Double → Double
  pub div : Double → Double → Double
  pub is_below_zero : Double → Bool
  pub dbl_epsilon : Double

-- `enum duration_type`.
pub data DurationType : Type 0 where
  precise fast : DurationType

-- `struct duration`.
pub record Duration : Type 0 where
  pub type : DurationType
  pub started : Bool
  pub stopped : Bool
  pub start : ℕ × ℕ
  pub stop : ℕ × ℕ

-- `duration_reset`.
unfoldable pub duration_reset : Duration → Duration
duration_reset d = record d { started = false; stopped = false }

module _ {ℓ} {K : Type ℓ} (clock_gettime : DurationType → K → Option (ℕ × ℕ) × K) where
  -- `duration_start_type` and `duration_start`.
  unfoldable pub duration_start_type : Duration → DurationType → K → Duration × K
  unfolding _gettime
  duration_start_type d type k =
      let (start, k') = _gettime (clock_gettime type) k in
      (record d { start = start; type = type; started = true }, k')

  unfoldable pub duration_start : Duration → K → Duration × K
  unfolding duration_start_type
  duration_start d k = duration_start_type d precise k

  -- `duration_snapshot` of `d`.
  unfoldable pub duration_snapshot : Duration → K → Duration × K
  unfolding _gettime
  duration_snapshot d k =
      let (stop, k') = _gettime (clock_gettime d.type) k in
      (record { type = d.type; started = true; stopped = true; start = d.start; stop = stop }, k')

  -- `duration_stop`.
  unfoldable pub duration_stop : Duration → K → Duration × K
  unfolding _gettime
  duration_stop d k =
      let (stop, k') = _gettime (clock_gettime d.type) k in
      (record d { stop = stop; stopped = true }, k')

module _ (f : Doubles) where
  -- `duration_ns`, and the coarser units. A negative duration becomes the smallest step.
  unfoldable pub duration_ns : Duration → f.Double
  duration_ns d =
      let elapsed : f.Double =
        f.sub
          (f.add (f.mul (f.of_int64 (sub64 d.stop.0 d.start.0)) (f.of_int64 nsec_per_sec))
            (f.of_int64 d.stop.1))
          (f.of_int64 d.start.1) in
      if f.is_below_zero elapsed then f.dbl_epsilon else elapsed

  unfoldable pub duration_us : Duration → f.Double
  unfolding duration_ns
  duration_us d = f.div (duration_ns d) (f.of_int64 nsec_per_usec)

  unfoldable pub duration_ms : Duration → f.Double
  unfolding duration_ns
  duration_ms d = f.div (duration_ns d) (f.of_int64 nsec_per_msec)

  unfoldable pub duration_sec : Duration → f.Double
  unfolding duration_ns
  duration_sec d = f.div (duration_ns d) (f.of_int64 nsec_per_sec)
