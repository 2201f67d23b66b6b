-- ===== src/Timer/Tests.antt =====
-- Timeouts on a clock that is its reading in nanoseconds.
use ccommon.Prelude.{ℕ, ◌+◌, ◌/◌, ◌%◌, ◌≡◌, refl, arith, Option, none, some, true, false, leb}
use ccommon.Timer.{
  timeout_set_ms, timeout_ms, timeout_add_ns, timeout_add_sec, timeout_expired, _now_ns,
}
use ccommon.Timer.Laws.{timeout_ms-timeout_set_ms, timeout_expired-timeout_add_ns}

abbrev reading : ℕ → Option (ℕ × ℕ) × ℕ
reading n = (some (n / 1000000000, n % 1000000000), n)

-- A clock that cannot be read.
abbrev broken : ℕ → Option (ℕ × ℕ) × ℕ
broken n = (none, n)

late_run :
    timeout_expired reading (timeout_add_sec reading 2 1000000000).0 3000000000 ≡ (true, 3000000000)
unfolding timeout_expired timeout_add_sec
late_run = refl

early_run :
    timeout_expired reading (timeout_add_sec reading 2 1000000000).0 2999999999
    ≡ (false, 2999999999)
unfolding timeout_expired timeout_add_sec
early_run = refl

-- At time zero, which a broken clock stands for, nothing in the future has expired.
broken_run : timeout_expired broken (timeout_add_sec reading 2 1000000000).0 5 ≡ (false, 5)
unfolding timeout_expired timeout_add_sec
broken_run = refl

set_run : timeout_ms reading (timeout_set_ms 1500) 7 ≡ (1500, 7)
set_run = timeout_ms-timeout_set_ms reading 1500 7 (omega arith)

timeout_expired-timeout_add_ns_example :
    (timeout_expired reading (timeout_add_ns reading 10 100).0 111).0
    ≡ leb ((_now_ns reading 100).0 + 10) (_now_ns reading 111).0
unfolding _now_ns
timeout_expired-timeout_add_ns_example =
    timeout_expired-timeout_add_ns reading 10 100 111 (omega arith) (omega arith)
