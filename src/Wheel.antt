-- ===== src/Wheel.antt =====
-- The timing wheel of src/time/cc_wheel.c and include/time/cc_wheel.h.
-- A slot of the table is the list of its events from the head on. A callback acts on the state `U` of
-- the caller and does not use the wheel. The pool holds the addresses of events; what is in an event
-- stands in the slot that the event is in.
pub mod Events
pub mod Setup
pub mod Turn
pub mod Slots
pub mod Still
pub mod Fire
pub mod Keep
pub mod Insert
pub mod Schedule
pub mod Drain
pub mod Execute
mod Tests
use ccommon.Prelude.{
  ℕ, zero, suc, ◌+◌, ◌-◌, ◌*◌, ◌/◌, ◌%◌, List, [], ◌∷◌, ◌++◌, Option, none, some, Bool, true, false,
  if◌then◌else◌, ltb, leb, not, ◌==◌, ◌&&◌, ◌||◌, get_or, set, replicate,
}
use ccommon.Prelude.Words.{u64_mod, add64, sub64, mul64}
use ccommon.Metric.{Metric, incr, decr, on}
use ccommon.Timer.{Timeout, timeout_reset, timeout_ns, timeout_add_intvl}
use ccommon.Wheel.Events.{
  TimeoutEvent, WheelMetrics, Statics, timeout_event_borrow, timeout_event_return,
}

-- `struct timing_wheel`.
pub record TimingWheel (U : Type 0) : Type 0 where
  pub tick : Timeout
  pub cap : ℕ
  pub max_ntick : ℕ
  pub tick_ns : ℕ
  pub active : Bool
  pub due : Timeout
  pub curr : ℕ
  pub nevent : ℕ
  pub table : List (List (TimeoutEvent U))
  pub nprocess : ℕ
  pub nexec : ℕ
  pub ntick : ℕ

module _ {K : Type 0} {U : Type 0} (clock_gettime : K → Option (ℕ × ℕ) × K) where
  -- `timing_wheel_create`, with whether there is memory for the wheel and for its table.
  unfoldable pub timing_wheel_create :
      Bool → Bool → Timeout → ℕ → ℕ → K → Option (TimingWheel U) × K
  unfolding timeout_ns
  timing_wheel_create wheel_memory table_memory tick cap ntick k =
      let (tick_ns, k') = timeout_ns clock_gettime tick k in
      if not wheel_memory then (none, k) else if not table_memory then (none, k') else (
        some (record {
          tick = tick;
          cap = cap;
          max_ntick = ntick;
          tick_ns = tick_ns;
          active = false;
          due = timeout_reset;
          curr = 0;
          nevent = 0;
          table = replicate cap [];
          nprocess = 0;
          nexec = 0;
          ntick = 0;
        }),
        k',
      )

  -- `timing_wheel_start`.
  unfoldable pub timing_wheel_start : TimingWheel U → K → TimingWheel U × K
  unfolding timeout_add_intvl
  timing_wheel_start tw k =
      let (due, k') = timeout_add_intvl clock_gettime tw.tick k in
      (record tw { active = true; due = due }, k')

module _ {U : Type 0} where
  -- `timing_wheel_stop`.
  unfoldable pub timing_wheel_stop : TimingWheel U → TimingWheel U
  timing_wheel_stop tw = record tw { active = false; due = timeout_reset }

  -- `_offset`, of a delay that is an interval. A tick of 0 ns is a division by zero in the code; in a
  -- well-formed wheel (Wheel/Slots) a tick has at least one nanosecond.
  abbrev pub _offset : TimingWheel U → Timeout → ℕ
  _offset tw delay = if delay.tp == 0 then 0 else (delay.tp - 1) / tw.tick_ns + 1

  abbrev pub slot : TimingWheel U → ℕ → List (TimeoutEvent U)
  slot tw i = get_or tw.table i []

  -- Without the first event of an address.
  abbrev pub unlink : ℕ → List (TimeoutEvent U) → List (TimeoutEvent U)
  unlink id [] = []
  unlink id (t ∷ ts) = let rest = unlink id ts in if t.id == id then ts else t ∷ rest

  -- `_timing_wheel_insert`.
  unfoldable pub _timing_wheel_insert : TimingWheel U → TimeoutEvent U → TimingWheel U
  _timing_wheel_insert tw tev = record tw {
    table = set tw.table tev.offset (slot tw tev.offset ++ tev ∷ []);
    nevent = add64 tw.nevent 1;
  }

  -- `_timing_wheel_remove`.
  unfoldable pub _timing_wheel_remove : TimingWheel U → TimeoutEvent U → TimingWheel U
  _timing_wheel_remove tw tev = record tw {
    table = set tw.table tev.offset (unlink tev.id (slot tw tev.offset));
    nevent = sub64 tw.nevent 1;
  }

  -- `_advance_curr`.
  unfoldable pub _advance_curr : TimingWheel U → TimingWheel U
  _advance_curr tw = record tw { curr = add64 tw.curr 1 % tw.cap; ntick = add64 tw.ntick 1 }

  -- `_tick_allowed`.
  unfoldable pub _tick_allowed : TimingWheel U → ℕ → Bool
  _tick_allowed tw ntick = tw.max_ntick == 0 || ltb ntick tw.max_ntick

-- The counting of a call in the metrics of the module.
abbrev pub count : {S : Type 0} → (WheelMetrics → WheelMetrics) → Statics S → Statics S
count f st = record st { metrics = on st.metrics f }

abbrev pub inserted : WheelMetrics → WheelMetrics
inserted m = record m {
  timing_wheel_insert = incr m.timing_wheel_insert;
  timing_wheel_event = incr m.timing_wheel_event;
}

abbrev pub removed : WheelMetrics → WheelMetrics
removed m = record m {
  timing_wheel_remove = incr m.timing_wheel_remove;
  timing_wheel_event = decr m.timing_wheel_event;
}

module _ {U S : Type 0} (alloc : S → Option ℕ × S) where
  -- The checks of `timing_wheel_insert`, and what it does when they hold.
  abbrev pub insert_event :
      TimingWheel U
      → TimeoutEvent U
      → Statics S
      → Option (TimeoutEvent U) × TimingWheel U × Statics S
  insert_event tw tev st =
      let offset = _offset tw tev.delay in
      if leb tw.cap offset || tev.recur && offset == 0
      then (none, tw, timeout_event_return tev st)
      else (
        some (record tev { offset = add64 tw.curr offset % tw.cap }),
        _timing_wheel_insert tw (record tev { offset = add64 tw.curr offset % tw.cap }),
        count inserted st,
      )

  -- `timing_wheel_insert`.
  unfoldable pub timing_wheel_insert :
      TimingWheel U
      → Timeout
      → Bool
      → Option (U → U)
      → Statics S
      → Option (TimeoutEvent U) × TimingWheel U × Statics S
  unfolding timeout_event_borrow _timing_wheel_insert timeout_event_return
  timing_wheel_insert tw delay recur cb st =
      let (tev, st') = timeout_event_borrow alloc st in
      elim tev [
        | none ↦ (none, tw, st')
        | some t ↦ insert_event tw (record t { cb = cb; recur = recur; delay = delay }) st'
      ]

  -- `timing_wheel_remove`.
  unfoldable pub timing_wheel_remove :
      TimingWheel U → TimeoutEvent U → Statics S → TimingWheel U × Statics S
  unfolding _timing_wheel_remove timeout_event_return
  timing_wheel_remove tw tev st =
      (_timing_wheel_remove tw tev, timeout_event_return tev (count removed st))
