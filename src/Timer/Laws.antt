-- ===== src/Timer/Laws.antt =====
-- Timeouts that are set, added and read.
use native.Mathlib.Nat.{mul-div_left}
use ccommon.Prelude.{ℕ, ◌+◌, ◌*◌, ◌^◌, ◌<◌, ◌≡◌, ap, arith, Option, leb, lt→leb}
use ccommon.Prelude.Words.{add64, mul64}
use ccommon.Timer.{
  timeout_set_ms, timeout_ms, timeout_add_ns, timeout_expired, _now_ns, signed_leb, signed_div,
  nsec_per_msec,
}

scaled : (n c : ℕ) → 0 < c → n * c < 2 ^ 63 → signed_div (mul64 n c) c ≡ n
scaled n c pos h =
    let whole : mul64 n c ≡ n * c = omega arith in
    rw (whole, lt→leb (2 ^ 63) (n * c) h) (mul-div_left n pos)

signed_small :
    (a ns b : ℕ) → a + ns < 2 ^ 63 → b < 2 ^ 63 → signed_leb (add64 a ns) b ≡ leb (a + ns) b
signed_small a ns b h k =
    let left : add64 (add64 a ns) (2 ^ 63) ≡ a + ns + 2 ^ 63 = omega arith in
    let right : add64 b (2 ^ 63) ≡ b + 2 ^ 63 = omega arith in rw (left, right) (ground arith)

module _ {ℓ} {K : Type ℓ} (clock_gettime : K → Option (ℕ × ℕ) × K) where
  -- An interval that fits in an `int64_t` is read in the unit it was set in, without the clock.
  pub timeout_ms-timeout_set_ms :
      (ms : ℕ) (k : K)
      → ms * nsec_per_msec < 2 ^ 63
      → timeout_ms clock_gettime (timeout_set_ms ms) k ≡ (ms, k)
  unfolding timeout_ms timeout_set_ms
  timeout_ms-timeout_set_ms ms k h = ap (λ n. (n, k)) (scaled ms nsec_per_msec (omega arith) h)

  -- A timeout of `ns` from now has expired at a later reading of the clock exactly when `ns` have gone
  -- by between the two readings, if no sum exceeds the range of an `int64_t`.
  pub timeout_expired-timeout_add_ns :
      (ns : ℕ) (k k' : K)
      → (_now_ns clock_gettime k).0 + ns < 2 ^ 63
      → (_now_ns clock_gettime k').0 < 2 ^ 63
      → (timeout_expired clock_gettime (timeout_add_ns clock_gettime ns k).0 k').0
        ≡ leb ((_now_ns clock_gettime k).0 + ns) (_now_ns clock_gettime k').0
  unfolding timeout_expired timeout_add_ns
  timeout_expired-timeout_add_ns ns k k' h h' =
      signed_small (_now_ns clock_gettime k).0 ns (_now_ns clock_gettime k').0 h h'
