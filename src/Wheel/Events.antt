-- ===== src/Wheel/Events.antt =====
-- Timeout events and their pool in src/time/cc_wheel.c.
use ccommon.Prelude.{ℕ, Option, none, some, Bool, false, if◌then◌else◌}
use ccommon.Metric.{Metric, incr, decr, on}
use ccommon.Pool.{Pool, freepool_borrow, freepool_return}
use ccommon.Timer.{Timeout, timeout_reset}

-- `struct timeout_event`, with its address; the callback comes with its data.
pub record TimeoutEvent (U : Type 0) : Type 0 where
  pub id : ℕ
  pub cb : Option (U → U)
  pub recur : Bool
  pub delay : Timeout
  pub offset : ℕ
  pub free : Bool

-- `timing_wheel_metrics_st`.
pub record WheelMetrics : Type 0 where
  pub timeout_event_curr : Metric
  pub timeout_event_active : Metric
  pub timeout_event_borrow : Metric
  pub timeout_event_borrow_ex : Metric
  pub timeout_event_return : Metric
  pub timing_wheel_insert : Metric
  pub timing_wheel_remove : Metric
  pub timing_wheel_event : Metric
  pub timing_wheel_process : Metric
  pub timing_wheel_tick : Metric
  pub timing_wheel_exec : Metric

-- The static variables of the file: the pool of events and the metrics; and the allocator.
pub record Statics (S : Type 0) : Type 0 where
  pub pool : Pool ℕ
  pub heap : S
  pub metrics : Option WheelMetrics
  pub teventp_init : Bool
  pub timing_wheel_init : Bool

-- `timeout_event_reset`, of the event at an address.
abbrev pub timeout_event_reset : {U : Type 0} → ℕ → TimeoutEvent U
timeout_event_reset id = record {
  id = id;
  cb = none;
  recur = false;
  delay = timeout_reset;
  offset = 0;
  free = false;
}

module _ {S : Type 0} (alloc : S → Option ℕ × S) where
  -- `timeout_event_create`: the allocation, counted if it goes well.
  unfoldable pub timeout_event_create :
      S × Option WheelMetrics → Option ℕ × (S × Option WheelMetrics)
  timeout_event_create (s, metrics) =
      let (t, s') = alloc s in
      elim t [
        | none ↦ (none, (s', metrics))
        | some id ↦ (
          some id,
          (s', on metrics (λ m. record m { timeout_event_curr = incr m.timeout_event_curr })),
        )
      ]

module _ {U S : Type 0} (alloc : S → Option ℕ × S) where
  -- The end of `timeout_event_borrow`.
  abbrev pub borrowed_event :
      Statics S
      → Option ℕ × Pool ℕ × (S × Option WheelMetrics)
      → Option (TimeoutEvent U) × Statics S
  borrowed_event st (none, pool, (s, metrics)) = (
    none,
    record st {
      pool = pool;
      heap = s;
      metrics =
          on metrics (λ m. record m { timeout_event_borrow_ex = incr m.timeout_event_borrow_ex });
    },
  )
  borrowed_event st (some id, pool, (s, metrics)) = (
    some (timeout_event_reset id),
    record st {
      pool = pool;
      heap = s;
      metrics = on metrics (λ m. record m {
        timeout_event_borrow = incr m.timeout_event_borrow;
        timeout_event_active = incr m.timeout_event_active;
      });
    },
  )

  -- `timeout_event_borrow`.
  unfoldable pub timeout_event_borrow : Statics S → Option (TimeoutEvent U) × Statics S
  unfolding freepool_borrow timeout_event_create
  timeout_event_borrow st =
      borrowed_event st (freepool_borrow (timeout_event_create alloc) (st.heap, st.metrics) st.pool)

module _ {U S : Type 0} where
  -- `timeout_event_return`, of an event that is not null: nothing if it has been returned.
  unfoldable pub timeout_event_return : TimeoutEvent U → Statics S → Statics S
  unfolding freepool_return
  timeout_event_return t st = if t.free then st else record st {
    pool = freepool_return t.id st.pool;
    metrics = on st.metrics (λ m. record m {
      timeout_event_return = incr m.timeout_event_return;
      timeout_event_active = decr m.timeout_event_active;
    });
  }
