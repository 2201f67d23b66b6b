-- ===== src/Wheel/Setup.antt =====
-- The pool of events and the setting up of the module in src/time/cc_wheel.c.
use ccommon.Prelude.{ℕ, Option, none, some, true, false, if◌then◌else◌, ltb, ◌>>=◌}
use ccommon.Metric.{decr, on}
use ccommon.Pool.{freepool_create, freepool_prealloc, freepool_destroy}
use ccommon.Wheel.Events.{WheelMetrics, Statics, timeout_event_create}

-- `timeout_event_destroy`, of an event that is not null: what it counts.
unfoldable pub timeout_event_destroy :
    {S : Type 0} → ℕ → S × Option WheelMetrics → S × Option WheelMetrics
timeout_event_destroy t (s, metrics) =
    (s, on metrics (λ m. record m { timeout_event_curr = decr m.timeout_event_curr }))

-- `timeout_event_pool_destroy`.
unfoldable pub timeout_event_pool_destroy : {S : Type 0} → Statics S → Statics S
unfolding freepool_destroy timeout_event_destroy
timeout_event_pool_destroy st =
    let (pool, (s, metrics)) =
      freepool_destroy timeout_event_destroy st.pool.freeq (st.heap, st.metrics) st.pool in
    if st.teventp_init
    then record st { pool = pool; heap = s; metrics = metrics; teventp_init = false }
    else st

-- `timing_wheel_teardown`.
unfoldable pub timing_wheel_teardown : {S : Type 0} → Statics S → Statics S
unfolding timeout_event_pool_destroy
timing_wheel_teardown st = record (timeout_event_pool_destroy st) {
  metrics = none;
  timing_wheel_init = false;
}

module _ {S : Type 0} (alloc : S → Option ℕ × S) where
  -- `timeout_event_pool_create`; none where it exits for want of memory. Each round of the
  -- preallocation adds an event, so that `max` rounds are enough.
  unfoldable pub timeout_event_pool_create : ℕ → Statics S → Option (Statics S)
  unfolding freepool_create freepool_prealloc timeout_event_create
  timeout_event_pool_create max st =
      let (pool, (s, metrics)) =
        freepool_prealloc (timeout_event_create alloc) max max (st.heap, st.metrics)
          (freepool_create max) in
      if st.teventp_init
      then some st
      else if ltb pool.nfree max
      then none
      else some (record st { pool = pool; heap = s; metrics = metrics; teventp_init = true })

  -- `timing_wheel_setup`.
  unfoldable pub timing_wheel_setup : Option WheelMetrics → Statics S → Option (Statics S)
  unfolding timeout_event_pool_create
  timing_wheel_setup metrics st = do
    st' ← timeout_event_pool_create 0 (record st { metrics = metrics })
    some (record st' { timing_wheel_init = true })
