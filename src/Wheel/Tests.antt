-- ===== src/Wheel/Tests.antt =====
-- A wheel of four slots on concrete inputs; callbacks note the events that fire.
use ccommon.Prelude.{
  ℕ, Bool, zero, suc, ◌+◌, ◌-◌, ◌*◌, ◌/◌, ◌<◌, ◌≡◌, ◌≢◌, refl, arith, List, [], ◌∷◌, ◌++◌, Option,
  none, some, true, false,
}
use ccommon.Timer.{Timeout}
use ccommon.Timer.Duration.{Doubles, DurationType}
use ccommon.Wheel.{TimingWheel, slot, timing_wheel_insert}
use ccommon.Wheel.Events.{TimeoutEvent, Statics}
use ccommon.Wheel.Turn.{
  Turning, advance_tick, _process_tick, timing_wheel_flush, timing_wheel_execute,
}
use ccommon.Wheel.Slots.{IsWheel, AllPlaced}
use ccommon.Wheel.Fire.{Fires, _process_tick-Fires, call_all}
use ccommon.Wheel.Keep.{_process_tick-IsWheel}
use ccommon.Wheel.Insert.{Inserts, timing_wheel_insert-Inserts}
use ccommon.Wheel.Drain.{timing_wheel_flush_lem, upcoming}
use ccommon.Wheel.Schedule.{ticks, ticks-fire, arrivals}
use ccommon.Wheel.Setup.{timing_wheel_setup, timing_wheel_teardown}
use ccommon.Wheel.Execute.{Executes, timing_wheel_execute-Executes}

abbrev fresh : ℕ → Option ℕ × ℕ
fresh n = (some n, n + 1)

abbrev note : ℕ → List ℕ → List ℕ
note n fired = fired ++ n ∷ []

abbrev interval : ℕ → Timeout
interval ns = record { tp = ns; is_set = true; is_intvl = true }

-- A recurring event of 15 ns, which is two ticks of 10 ns.
abbrev recurring : TimeoutEvent (List ℕ)
recurring = record {
  id = 1;
  cb = some (note 1);
  recur = true;
  delay = interval 15;
  offset = 1;
  free = false;
}

abbrev single : TimeoutEvent (List ℕ)
single = record {
  id = 2;
  cb = some (note 2);
  recur = false;
  delay = interval 20;
  offset = 1;
  free = false;
}

abbrev wheel : TimingWheel (List ℕ)
wheel = record {
  tick = interval 10;
  cap = 4;
  max_ntick = 0;
  tick_ns = 10;
  active = true;
  due = record { tp = 10; is_set = true; is_intvl = false };
  curr = 1;
  nevent = 2;
  table = [] ∷ (recurring ∷ single ∷ []) ∷ [] ∷ [] ∷ [];
  nprocess = 0;
  nexec = 0;
  ntick = 0;
}

abbrev statics : Statics ℕ
statics = record {
  pool = record { freeq = []; nfree = 0; nused = 2; nmax = 100; initialized = true };
  heap = 3;
  metrics = none;
  teventp_init = true;
  timing_wheel_init = true;
}

abbrev turning : Turning (List ℕ) ℕ
turning = record { tw = wheel; statics = statics; user = [] }

wheel-IsWheel : IsWheel wheel
wheel-IsWheel = record {
  size = refl;
  inside = omega arith;
  ticking = omega arith;
  small = omega arith;
  placed = placed;
}
  where
    placed : (i : ℕ) → AllPlaced wheel i (slot wheel i)
    placed zero = tt
    placed (suc zero) = (
      record { named = refl; used = refl; returns = λ r. (omega arith, omega arith) },
      (record { named = refl; used = refl; returns = λ r. absurd (ground (arith, r)) }, tt),
    )
    placed (suc (suc zero)) = tt
    placed (suc (suc (suc zero))) = tt
    placed (suc (suc (suc (suc i)))) = tt

tick_run : (_process_tick false turning).user ≡ 1 ∷ 2 ∷ []
unfolding _process_tick
tick_run = refl

-- The recurring event is now two slots ahead.
again_run : slot (_process_tick false turning).tw 3 ≡ record recurring { offset = 3 } ∷ []
unfolding _process_tick
again_run = refl

three_ticks_run : (ticks 3 turning).user ≡ 1 ∷ 2 ∷ 1 ∷ []
unfolding advance_tick _process_tick
three_ticks_run = refl

_process_tick-Fires_example : Fires false (slot wheel 1) turning (_process_tick false turning)
_process_tick-Fires_example = _process_tick-Fires false turning wheel-IsWheel

_process_tick-IsWheel_example : IsWheel (_process_tick false turning).tw
_process_tick-IsWheel_example = _process_tick-IsWheel false turning wheel-IsWheel

timing_wheel_insert-Inserts_example :
    Inserts fresh wheel
      (interval 25)
      false
      (timing_wheel_insert fresh wheel (interval 25) false (some (note 3)) statics)
timing_wheel_insert-Inserts_example =
    timing_wheel_insert-Inserts fresh wheel (interval 25) false (some (note 3)) statics
      wheel-IsWheel

timing_wheel_flush_lem_example :
    (s' : Turning (List ℕ) ℕ) × (timing_wheel_flush turning ≡ some s')
    × (s'.user ≡ call_all (upcoming 4 wheel 1) [])
    × ((i : ℕ) → i < 4 → slot s'.tw i ≡ [])
    × (s'.tw.curr ≡ 1)
    × IsWheel s'.tw
timing_wheel_flush_lem_example = timing_wheel_flush_lem turning wheel-IsWheel

ticks-fire_example :
    ((_process_tick false (ticks 2 turning)).user
      ≡ call_all (slot wheel 3 ++ arrivals 2 3 turning) (ticks 2 turning).user)
    × ((ticks 2 turning).tw.curr ≡ 3)
    × ((j : ℕ) → j < 2 → (ticks j turning).tw.curr ≢ 3)
ticks-fire_example = ticks-fire 2 turning wheel-IsWheel (omega arith)

-- Whole numbers in place of `double`.
abbrev whole : Doubles
whole = record {
  Double = ℕ;
  of_int64 = λ n. n;
  to_uint64 = λ n. n;
  add = λ a b. a + b;
  sub = λ a b. a - b;
  mul = λ a b. a * b;
  div = λ a b. a / b;
  is_below_zero = λ a. false;
  dbl_epsilon = 0;
}

-- A clock of nanoseconds that each reading moves on.
abbrev moving : DurationType → ℕ → Option (ℕ × ℕ) × ℕ
moving type n = (some (0, n), n + 1)

abbrev bounded : Turning (List ℕ) ℕ
bounded = record turning { tw = record wheel { max_ntick = 2 } }

-- At time 12 the tick that was due at 10 is made, and the next is due at 19.
execute_run : (timing_wheel_execute whole moving 3 bounded 12).1 ≡ 16
unfolding timing_wheel_execute
execute_run = refl

timing_wheel_execute-Executes_example :
    Executes whole moving bounded (timing_wheel_execute whole moving 3 bounded 12)
timing_wheel_execute-Executes_example =
    timing_wheel_execute-Executes whole moving 3 bounded 12 (omega arith) (omega arith)

-- After a set-up and a teardown nothing is initialised, and the pool is empty.
abbrev left_over : Option (Statics ℕ) → Option (Bool × List ℕ)
left_over none = none
left_over (some st) =
    some ((timing_wheel_teardown st).teventp_init, (timing_wheel_teardown st).pool.freeq)

setup_run :
    left_over (timing_wheel_setup fresh none (record statics { teventp_init = false }))
    ≡ some (false, [])
unfolding timing_wheel_setup timing_wheel_teardown
setup_run = refl
