-- ===== src/Wheel/Execute.antt =====
-- The loop of `timing_wheel_execute` as a number of ticks.
use ccommon.Prelude.{
  ℕ, zero, suc, ◌+◌, ◌≤◌, ◌<◌, ◌≡◌, ◌∙◌, refl, ap, arith, List, [], ◌∷◌, Option, none, some, Bool,
  true, false, if◌then◌else◌, not, ◌&&◌, ◌>>=◌, Bool-cases, inl, inr,
}
use ccommon.Timer.{
  Timeout, timeout_expired, timeout_set_ns, timeout_sum_intvl, timeout_sub_intvl, signed_leb,
}
use ccommon.Timer.Duration.{
  Doubles, DurationType, precise, duration_start, duration_stop, duration_ns,
}
use ccommon.Wheel.{
  TimingWheel, slot, _timing_wheel_insert, _timing_wheel_remove, _advance_curr, _tick_allowed,
}
use ccommon.Wheel.Events.{TimeoutEvent}
use ccommon.Wheel.Turn.{
  Turning, take_out, put_back, process_event, process_events, _process_tick, advance_tick, next_due,
  not_started, execute_tick, execute_from, Outcome, overflow, exhausted, returns, then_return,
  count_exec, timing_wheel_execute,
}
use ccommon.Wheel.Schedule.{ticks}

module _ {U S : Type 0} where
  -- With another trigger time.
  abbrev pub with_due : Timeout → Turning U S → Turning U S
  with_due d s = record s { tw = record s.tw { due = d } }

  put_back_due :
      (b : Bool) (t : TimeoutEvent U) (d : Timeout) (s : Turning U S)
      → put_back b t (with_due d s) ≡ with_due d (put_back b t s)
  unfolding put_back _timing_wheel_insert
  put_back_due true t d s = refl
  put_back_due false t d s = refl

  take_out_due :
      (t : TimeoutEvent U) (d : Timeout) (s : Turning U S)
      → take_out t (with_due d s) ≡ with_due d (take_out t s)
  unfolding take_out _timing_wheel_remove
  take_out_due t d s = refl

  process_events_due :
      (ts : List (TimeoutEvent U)) (d : Timeout) (s : Turning U S)
      → process_events false ts (with_due d s) ≡ with_due d (process_events false ts s)
  unfolding process_events process_event
  process_events_due [] d s = refl
  process_events_due (t ∷ ts) d s =
      ap (process_events false ts) (
        ap (put_back (not false && t.recur) t) (take_out_due t d s)
        ∙ put_back_due (not false && t.recur) t d (take_out t s))
      ∙ process_events_due ts d (process_event false t s)

  tick_due :
      (d : Timeout) (s : Turning U S)
      → advance_tick (_process_tick false (with_due d s))
        ≡ with_due d (advance_tick (_process_tick false s))
  unfolding advance_tick _advance_curr _process_tick
  tick_due d s = ap advance_tick (process_events_due (slot s.tw s.tw.curr) d s)

  ticks_due :
      (n : ℕ) (d : Timeout) (s : Turning U S) → ticks n (with_due d s) ≡ with_due d (ticks n s)
  ticks_due zero d s = refl
  ticks_due (suc n) d s =
      ap (ticks n) (tick_due d s) ∙ ticks_due n d (advance_tick (_process_tick false s))

  process_events_max :
      (ts : List (TimeoutEvent U)) (s : Turning U S)
      → (process_events false ts s).tw.max_ntick ≡ s.tw.max_ntick
  unfolding process_events process_event
  process_events_max [] s = refl
  process_events_max (t ∷ ts) s =
      process_events_max ts (process_event false t s)
      ∙ put_back_max (not false && t.recur) (take_out t s)
      ∙ take_out_max s
    where
      put_back_max : (b : Bool) (s : Turning U S) → (put_back b t s).tw.max_ntick ≡ s.tw.max_ntick
      put_back_max true s = unfold put_back _timing_wheel_insert in refl
      put_back_max false s = unfold put_back in refl

      take_out_max : (s : Turning U S) → (take_out t s).tw.max_ntick ≡ s.tw.max_ntick
      take_out_max s = unfold take_out _timing_wheel_remove in refl

  tick_max :
      (s : Turning U S) → (advance_tick (_process_tick false s)).tw.max_ntick ≡ s.tw.max_ntick
  unfolding advance_tick _advance_curr _process_tick
  tick_max s = process_events_max (slot s.tw s.tw.curr) s

module _ {U : Type 0} where
  allowed-lt :
      (tw : TimingWheel U) (ntick : ℕ)
      → 0 < tw.max_ntick
      → _tick_allowed tw ntick ≡ true
      → ntick < tw.max_ntick
  unfolding _tick_allowed
  allowed-lt tw ntick ne a = ground (arith, ne, a)

  -- The wheel is the same, but for the trigger time.
  abbrev OnlyDue : TimingWheel U → Option (TimingWheel U) → Type 0
  OnlyDue tw none = Unit
  OnlyDue tw (some tw') = (d : Timeout) × (tw' ≡ record tw { due = d })

  next_due-OnlyDue : (tw : TimingWheel U) (to : Timeout) → OnlyDue tw (next_due tw to)
  unfolding next_due
  next_due-OnlyDue tw to =
      choose (signed_leb tw.tick.tp to.tp) _ (summed (timeout_sum_intvl tw.due tw.tick))
    where
      subtracted : (r : Option Timeout) → OnlyDue tw (r >>= λ due. some (record tw { due = due }))
      subtracted none = tt
      subtracted (some d) = (d, refl)

      summed :
          (r : Option Timeout)
          → OnlyDue tw
              (r >>= λ sum. timeout_sub_intvl sum to >>= λ due. some (record tw { due = due }))
      summed none = tt
      summed (some sum) = subtracted (timeout_sub_intvl sum to)

      choose :
          (b : Bool) (r : Option (TimingWheel U))
          → OnlyDue tw r
          → OnlyDue tw (if b then some tw else r)
      choose true r h = (tw.due, refl)
      choose false r h = h

module _ {U S K : Type 0} (f : Doubles) (clock : DurationType → K → Option (ℕ × ℕ) × K) where
  -- The state is that after one tick, but for the trigger time.
  abbrev Ticked : Turning U S → Option (Turning U S) × K → Type 0
  Ticked s (none, k) = Unit
  Ticked s (some s', k) = (d : Timeout) × (s' ≡ with_due d (advance_tick (_process_tick false s)))

  execute_tick-Ticked : (s : Turning U S) (k : K) → Ticked s (execute_tick f clock s k)
  unfolding execute_tick
  execute_tick-Ticked s k = step _ _ (
      next_due-OnlyDue (advance_tick (_process_tick false s)).tw (
        timeout_set_ns (
          f.to_uint64 (
            duration_ns f
              (duration_stop clock (duration_start clock not_started k).0
                (duration_start clock not_started k).1).0))))
    where
      step :
          (k' : K) (r : Option (TimingWheel U))
          → OnlyDue (advance_tick (_process_tick false s)).tw r
          → Ticked s
              ((r >>= λ tw. some (record (advance_tick (_process_tick false s)) { tw = tw })), k')
      step k' none h = tt
      step k' (some tw) h =
          (h.0, ap (λ w. record (advance_tick (_process_tick false s)) { tw = w }) h.1)

  -- The state is that after a number of ticks, but for the trigger time; neither they nor the fuel
  -- exceed the bound.
  abbrev pub Ran : ℕ → ℕ → Turning U S → Outcome (Turning U S) × K → Type 0
  Ran fuel ntick s (overflow, k) = Unit
  Ran fuel ntick s (exhausted, k) = ntick + fuel ≤ s.tw.max_ntick
  Ran fuel ntick s (returns s', k) =
      (n : ℕ) × (d : Timeout) × (s' ≡ with_due d (ticks n s)) × (ntick + n ≤ s.tw.max_ntick)

  execute_from-Ran :
      (fuel ntick : ℕ) (s : Turning U S) (k : K)
      → 0 < s.tw.max_ntick
      → ntick ≤ s.tw.max_ntick
      → Ran fuel ntick s (execute_from f clock fuel ntick s k)
  unfolding execute_from
  execute_from-Ran zero ntick s k pos le = omega arith
  execute_from-Ran (suc fuel) ntick s k pos le = elim (Bool-cases (_tick_allowed s.tw ntick)) [
    | inr e ↦ rw e (0, s.tw.due, refl, omega arith)
    | inl a ↦ elim (Bool-cases (timeout_expired (clock precise) s.tw.due k).0) [
      | inr e ↦ rw (a, e) (0, s.tw.due, refl, omega arith)
      | inl e ↦
          rw (a, e)
            (go (allowed-lt s.tw ntick pos a)
              (execute_tick f clock s (timeout_expired (clock precise) s.tw.due k).1)
              (execute_tick-Ticked s (timeout_expired (clock precise) s.tw.due k).1)
              (execute_from-Ran fuel (ntick + 1)))
    ]
  ]
    where
      next : Turning U S
      next = advance_tick (_process_tick false s)

      later :
          (s1 : Turning U S)
          → s1.tw.max_ntick ≡ s.tw.max_ntick
          → (d : Timeout) × (s1 ≡ with_due d next)
          → (r : Outcome (Turning U S) × K) → Ran fuel (ntick + 1) s1 r
          → Ran (suc fuel) ntick s r
      later s1 same t (overflow, k) h = tt
      later s1 same t (exhausted, k) h = omega arith
      later s1 same t (returns s', k) h = (
        suc h.0,
        h.1,
        h.2 ∙ ap (λ x. with_due h.1 (ticks h.0 x)) t.1 ∙ ap (with_due h.1) (ticks_due h.0 t.0 next),
        omega (arith, same, h.3),
      )

      go :
          ntick < s.tw.max_ntick
          → (r : Option (Turning U S) × K) → Ticked s r
          → ((s1 : Turning U S) (k : K)
              → 0 < s1.tw.max_ntick
              → ntick + 1 ≤ s1.tw.max_ntick
              → Ran fuel (ntick + 1) s1 (execute_from f clock fuel (ntick + 1) s1 k))
          → Ran (suc fuel) ntick s (elim r.0 [
            | none ↦ (overflow, r.1)
            | some s1 ↦ execute_from f clock fuel (ntick + 1) s1 r.1
          ])
      go room (none, k) t ih = tt
      go room (some s1, k) t ih =
          let same : s1.tw.max_ntick ≡ s.tw.max_ntick = ap (λ x. x.tw.max_ntick) t.1 ∙ tick_max s in
          later s1 same t (execute_from f clock fuel (ntick + 1) s1 k)
            (ih s1 k (omega (arith, same)) (omega (arith, same, room)))

  -- What an execution does, unless the trigger time overflows.
  abbrev pub Executes : Turning U S → Outcome (Turning U S) × K → Type 0
  Executes s (overflow, k) = Unit
  Executes s (exhausted, k) = ⊥
  Executes s (returns s', k) =
      (n : ℕ) × (n ≤ s.tw.max_ntick)
      × (s'.user ≡ (ticks n s).user)
      × (s'.tw.table ≡ (ticks n s).tw.table)
      × (s'.tw.curr ≡ (ticks n s).tw.curr)

  -- An execution of a wheel with a bound on the ticks of one execution ends, with more rounds than
  -- the bound as fuel: either the trigger time overflows, or it returns after a number of ticks that is
  -- within the bound, with the events in the slots, the hand, and the caller's state as these ticks
  -- leave them.
  pub timing_wheel_execute-Executes :
      (fuel : ℕ) (s : Turning U S) (k : K)
      → 0 < s.tw.max_ntick
      → s.tw.max_ntick < fuel
      → Executes s (timing_wheel_execute f clock fuel s k)
  unfolding timing_wheel_execute
  timing_wheel_execute-Executes fuel s k pos enough =
      finish (execute_from f clock fuel 0 s k) (execute_from-Ran fuel 0 s k pos (omega arith))
    where
      finish :
          (r : Outcome (Turning U S) × K)
          → Ran fuel 0 s r
          → Executes s (then_return count_exec r.0, r.1)
      finish (overflow, k) h = tt
      finish (exhausted, k) h = absurd (omega arith)
      finish (returns s', k) h = (
        h.0,
        omega (arith, h.3),
        ap (λ x. x.user) h.2,
        ap (λ x. x.tw.table) h.2,
        ap (λ x. x.tw.curr) h.2,
      )
