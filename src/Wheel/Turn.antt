-- ===== src/Wheel/Turn.antt =====
-- The turning of the wheel in src/time/cc_wheel.c: ticks, executions and flushes.
use ccommon.Prelude.{
  ℕ, zero, suc, ◌+◌, ◌%◌, List, [], ◌∷◌, Option, none, some, Bool, true, false, if◌then◌else◌, not,
  ◌==◌, ◌&&◌, ◌>>=◌,
}
use ccommon.Prelude.Words.{add64}
use ccommon.Metric.{incr}
use ccommon.Timer.{
  Timeout, timeout_set_ns, timeout_sum_intvl, timeout_sub_intvl, timeout_expired, signed_leb,
}
use ccommon.Timer.Duration.{
  Doubles, DurationType, precise, Duration, duration_start, duration_stop, duration_ns,
}
use ccommon.Wheel.{
  TimingWheel, slot, count, removed, inserted, _offset, _timing_wheel_insert, _timing_wheel_remove,
  _advance_curr, _tick_allowed,
}
use ccommon.Wheel.Events.{TimeoutEvent, WheelMetrics, Statics, timeout_event_return}

-- The wheel, the static variables, and the state of the caller that callbacks act on.
pub record Turning (U S : Type 0) : Type 0 where
  pub tw : TimingWheel U
  pub statics : Statics S
  pub user : U

abbrev pub processed : WheelMetrics → WheelMetrics
processed m = record m { timing_wheel_process = incr m.timing_wheel_process }

abbrev pub ticked : WheelMetrics → WheelMetrics
ticked m = record m { timing_wheel_tick = incr m.timing_wheel_tick }

abbrev pub executed : WheelMetrics → WheelMetrics
executed m = record m { timing_wheel_exec = incr m.timing_wheel_exec }

-- A callback may be null.
abbrev pub call_cb : {U : Type 0} → Option (U → U) → U → U
call_cb none u = u
call_cb (some cb) u = cb u

-- A recurring event with the slot that it goes to next.
abbrev pub rescheduled : {U : Type 0} → TimingWheel U → TimeoutEvent U → TimeoutEvent U
rescheduled tw t = record t { offset = add64 tw.curr (_offset tw t.delay) % tw.cap }

module _ {U S : Type 0} where
  -- The first part of a round of the loop of `_process_tick`: the event is taken out, and its callback
  -- called.
  unfoldable pub take_out : TimeoutEvent U → Turning U S → Turning U S
  unfolding _timing_wheel_remove
  take_out t s = record {
    tw = _timing_wheel_remove (record s.tw { nprocess = add64 s.tw.nprocess 1 }) t;
    statics = count removed (count processed s.statics);
    user = call_cb t.cb s.user;
  }

  -- The second part: a recurring event is put back, any other is returned to the pool.
  unfoldable pub put_back : Bool → TimeoutEvent U → Turning U S → Turning U S
  unfolding _timing_wheel_insert timeout_event_return
  put_back true t s = record s {
    tw = _timing_wheel_insert s.tw (rescheduled s.tw t);
    statics = count inserted s.statics;
  }
  put_back false t s = record s { statics = timeout_event_return t s.statics }

  -- One round.
  unfoldable pub process_event : Bool → TimeoutEvent U → Turning U S → Turning U S
  unfolding take_out put_back
  process_event endmode t s = put_back (not endmode && t.recur) t (take_out t s)

  -- The loop over the events of the current slot. In a well-formed wheel (Wheel/Slots) an event that is
  -- put back goes to another slot, so that the loop is over the events that were there at its start.
  -- If it went into the same one, the loop of the code would go on with it.
  unfoldable pub process_events : Bool → List (TimeoutEvent U) → Turning U S → Turning U S
  unfolding process_event
  process_events endmode [] s = s
  process_events endmode (t ∷ ts) s = process_events endmode ts (process_event endmode t s)

  -- `_process_tick`.
  unfoldable pub _process_tick : Bool → Turning U S → Turning U S
  unfolding process_events
  _process_tick endmode s = process_events endmode (slot s.tw s.tw.curr) s

  -- `_advance_curr`, with its metric.
  unfoldable pub advance_tick : Turning U S → Turning U S
  unfolding _advance_curr
  advance_tick s = record s { tw = _advance_curr s.tw; statics = count ticked s.statics }

  -- The loop of `timing_wheel_flush` on fuel, which is none when it ends.
  unfoldable pub flush_from : ℕ → ℕ → Turning U S → Option (Turning U S)
  unfolding _process_tick advance_tick
  flush_from zero start s = none
  flush_from (suc fuel) start s =
      let s' : Turning U S = advance_tick (_process_tick true s) in
      let rest = flush_from fuel start s' in if not (s'.tw.curr == start) then rest else some s'

  -- `timing_wheel_flush`: as many rounds as the wheel has slots.
  unfoldable pub timing_wheel_flush : Turning U S → Option (Turning U S)
  unfolding flush_from
  timing_wheel_flush s = flush_from s.tw.cap s.tw.curr s

module _ {U S : Type 0} where
  -- The end of `timing_wheel_execute`.
  abbrev pub count_exec : Turning U S → Turning U S
  count_exec t = record t {
    tw = record t.tw { nexec = add64 t.tw.nexec 1 };
    statics = count executed t.statics;
  }

-- The next trigger time after a tick that took `to`: not before the last one.
unfoldable pub next_due : {U : Type 0} → TimingWheel U → Timeout → Option (TimingWheel U)
unfolding timeout_sum_intvl timeout_sub_intvl
next_due tw to = if signed_leb tw.tick.tp to.tp then some tw else (do
  sum ← timeout_sum_intvl tw.due tw.tick
  due ← timeout_sub_intvl sum to
  some (record tw { due = due }))

abbrev pub not_started : Duration
not_started = record {
  type = precise;
  started = false;
  stopped = false;
  start = (0, 0);
  stop = (0, 0);
}

-- How an execution ends: with an overflow of the trigger time, which is undefined, at the end of the
-- fuel, or by returning.
pub data Outcome (A : Type 0) : Type 0 where
  overflow : Outcome A
  exhausted : Outcome A
  returns : A → Outcome A

abbrev pub then_return : {A : Type 0} → (A → A) → Outcome A → Outcome A
then_return g overflow = overflow
then_return g exhausted = exhausted
then_return g (returns a) = returns (g a)

module _ {U S K : Type 0} (f : Doubles) (clock : DurationType → K → Option (ℕ × ℕ) × K) where
  -- One tick of `timing_wheel_execute`, with the time that it took.
  unfoldable pub execute_tick : Turning U S → K → Option (Turning U S) × K
  unfolding _process_tick advance_tick next_due duration_start duration_stop duration_ns
      timeout_set_ns
  execute_tick s k =
      let (d, k') = duration_start clock not_started k in
      let s' : Turning U S = advance_tick (_process_tick false s) in
      let (d', k'') = duration_stop clock d k' in
      (
        (do
          tw ← next_due s'.tw (timeout_set_ns (f.to_uint64 (duration_ns f d')))
          some (record s' { tw = tw })),
        k'',
      )

  -- The loop of `timing_wheel_execute` on fuel.
  unfoldable pub execute_from : ℕ → ℕ → Turning U S → K → Outcome (Turning U S) × K
  unfolding _tick_allowed timeout_expired execute_tick
  execute_from zero ntick s k = (exhausted, k)
  execute_from (suc fuel) ntick s k =
      let (expired, k') = timeout_expired (clock precise) s.tw.due k in
      if not (_tick_allowed s.tw ntick)
      then (returns s, k)
      else if not expired
      then (returns s, k')
      else (let (t, k'') = execute_tick s k' in
          elim t [ none ↦ (overflow, k'') | some s' ↦ execute_from fuel (ntick + 1) s' k'' ])

  -- `timing_wheel_execute`.
  unfoldable pub timing_wheel_execute : ℕ → Turning U S → K → Outcome (Turning U S) × K
  unfolding execute_from
  timing_wheel_execute fuel s k =
      let (r, k') = execute_from fuel 0 s k in (then_return count_exec r, k')
