-- ===== src/Wheel/Insert.antt =====
-- Insertion and removal of events.
use native.Mathlib.Nat.{mod-lt, div-mul-le_self, lt-div-mul-add}
use ccommon.Prelude.{
  ℕ, ◌+◌, ◌%◌, ◌≤◌, ◌*◌, ◌<◌, ◌-◌, ◌/◌, eq→==, ne→==, ◌≡◌, ◌≢◌, refl, sym, ap, subst, arith, [],
  ◌∷◌, ◌++◌, Bool, true, false, if◌then◌else◌, ◌==◌, ◌&&◌, ◌||◌, leb, length-set, ℕ_discrete,
  Option, none, some,
}
use ccommon.Prelude.Words.{add64}
use ccommon.Wheel.{
  TimingWheel, slot, unlink, _offset, _timing_wheel_insert, _timing_wheel_remove,
  timing_wheel_insert, timing_wheel_remove, insert_event, count, inserted,
}
use ccommon.Pool.{Pool, freepool_borrow}
use ccommon.Timer.{Timeout}
use ccommon.Wheel.Events.{
  TimeoutEvent, Statics, WheelMetrics, timeout_event_borrow, timeout_event_create,
  timeout_event_return, timeout_event_reset, borrowed_event,
}
use ccommon.Wheel.Keep.{IsWheel-IsStill}
use ccommon.Wheel.Slots.{
  IsPlaced, AllPlaced, IsWheel, AllPlaced-append, AllPlaced-unlink, insert_self, insert_other,
  remove_self, remove_other,
}
use ccommon.Wheel.Still.{IsStill}

module _ {U S : Type 0} (alloc : S → Option ℕ × S) where
  -- An insertion that gives no event leaves the wheel as it was; one that gives an event has put it at
  -- the end of the slot that the delay leads to, and the wheel is well-formed after it.
  abbrev pub Inserts :
      TimingWheel U → Timeout → Bool → Option (TimeoutEvent U) × TimingWheel U × Statics S → Type 0
  Inserts tw delay recur (none, tw', st) = tw' ≡ tw
  Inserts tw delay recur (some t, tw', st) =
      (o : ℕ) × (t.offset ≡ (tw.curr + o) % tw.cap)
      × (delay.tp ≤ o * tw.tick_ns)
      × (o * tw.tick_ns < delay.tp + tw.tick_ns)
      × (o < tw.cap)
      × (recur ≡ true → 0 < o)
      × (slot tw' t.offset ≡ slot tw t.offset ++ t ∷ [])
      × ((i : ℕ) → t.offset ≢ i → slot tw' i ≡ slot tw i)
      × IsWheel tw'

  -- The ticks of a delay are as few as take at least that long.
  offset-rounds :
      (tw : TimingWheel U) (delay : Timeout)
      → 0 < tw.tick_ns
      → (delay.tp ≤ _offset tw delay * tw.tick_ns)
        × (_offset tw delay * tw.tick_ns < delay.tp + tw.tick_ns)
  offset-rounds tw delay h = elim (ℕ_discrete delay.tp 0) [
    | yes z ↦ rw (eq→== delay.tp 0 z) (omega arith, omega arith)
    | no ne ↦
        let low : (delay.tp - 1) / tw.tick_ns * tw.tick_ns ≤ delay.tp - 1 =
          div-mul-le_self (delay.tp - 1) tw.tick_ns in
        let high : delay.tp - 1 < (delay.tp - 1) / tw.tick_ns * tw.tick_ns + tw.tick_ns =
          lt-div-mul-add {a = delay.tp - 1} h in
        rw (ne→== delay.tp 0 ne) (omega arith, omega arith)
  ]

  placed_event :
      (tw : TimingWheel U) (t : TimeoutEvent U)
      → IsWheel tw
      → IsPlaced tw t.offset t
      → t.offset < tw.cap
      → IsWheel (_timing_wheel_insert tw t)
  placed_event tw t w p h = IsWheel-IsStill tw (_timing_wheel_insert tw t) still w (λ i.
      elim (ℕ_discrete t.offset i) [
        | yes e ↦
            subst (λ j. AllPlaced tw j (slot (_timing_wheel_insert tw t) j)) e
              (subst (AllPlaced tw t.offset) (sym (insert_self tw t (omega (arith, w.size))))
                (AllPlaced-append tw t.offset (slot tw t.offset) t (w.placed t.offset) p))
        | no ne ↦ subst (AllPlaced tw i) (sym (insert_other tw t i ne)) (w.placed i)
      ])
    where
      still : IsStill tw (_timing_wheel_insert tw t)
      still =
          unfold _timing_wheel_insert in
          record {
            curr = refl;
            cap = refl;
            tick_ns = refl;
            size = length-set tw.table t.offset (slot tw t.offset ++ t ∷ []);
          }

  insert_event-Inserts :
      (tw : TimingWheel U) (t : TimeoutEvent U) (st : Statics S)
      → IsWheel tw
      → t.free ≡ false
      → Inserts tw t.delay t.recur (insert_event alloc tw t st)
  insert_event-Inserts tw t st w used =
      choose (leb tw.cap (_offset tw t.delay) || t.recur && _offset tw t.delay == 0) refl
    where
      tev : TimeoutEvent U
      tev = record t { offset = add64 tw.curr (_offset tw t.delay) % tw.cap }

      recurs :
          t.recur ≡ true
          → (leb tw.cap (_offset tw t.delay) || t.recur && _offset tw t.delay == 0) ≡ false
          → (0 < _offset tw t.delay) × (_offset tw t.delay < tw.cap)
      recurs r e = (ground (arith, e, r), ground (arith, e))

      choose :
          (b : Bool)
          → (leb tw.cap (_offset tw t.delay) || t.recur && _offset tw t.delay == 0) ≡ b
          → Inserts tw t.delay t.recur (
              if b
              then (none, tw, timeout_event_return t st)
              else (some tev, _timing_wheel_insert tw tev, count inserted st))
      choose true e = refl
      choose false e =
          let fits : _offset tw t.delay < tw.cap = ground (arith, e) in
          let inside : tev.offset < tw.cap =
            mod-lt (add64 tw.curr (_offset tw t.delay)) {m = tw.cap} (omega arith) in
          (
            _offset tw t.delay,
            ap (λ x. x % tw.cap) (omega (arith, w.inside, w.small)),
            (offset-rounds tw t.delay w.ticking).0,
            (offset-rounds tw t.delay w.ticking).1,
            fits,
            (λ r. (recurs r e).0),
            insert_self tw tev (omega (arith, w.size)),
            (λ i h. insert_other tw tev i h),
            placed_event tw tev w (record { named = refl; used = used; returns = λ r. recurs r e })
                inside,
          )

  -- An insertion into a well-formed wheel that gives no event leaves the wheel as it was. One that gives
  -- an event has found its delay to be less than a turn, and to be at least a tick if the event recurs;
  -- it has put the event at the end of the slot that is `o` ticks ahead of the hand, `o` the least
  -- number of ticks that take as long as the delay, has left the other slots alone, and the wheel is
  -- well-formed after it. In a well-formed wheel a tick takes at least 1 ns.
  pub timing_wheel_insert-Inserts :
      (tw : TimingWheel U) (delay : Timeout) (recur : Bool) (cb : Option (U → U)) (st : Statics S)
      → IsWheel tw
      → Inserts tw delay recur (timing_wheel_insert alloc tw delay recur cb st)
  unfolding timing_wheel_insert timeout_event_borrow
  timing_wheel_insert-Inserts tw delay recur cb st w =
      choose (freepool_borrow (timeout_event_create alloc) (st.heap, st.metrics) st.pool)
    where
      choose :
          (r : Option ℕ × Pool ℕ × (S × Option WheelMetrics))
          → Inserts tw delay recur (elim (borrowed_event {U = U} alloc st r).0 [
            | none ↦ (none, tw, (borrowed_event {U = U} alloc st r).1)
            | some t ↦
                insert_event alloc tw
                  (record t { cb = cb; recur = recur; delay = delay })
                  (borrowed_event {U = U} alloc st r).1
          ])
      choose (none, pool, (s, metrics)) = refl
      choose (some id, pool, (s, metrics)) =
          insert_event-Inserts tw
            (record (timeout_event_reset id) { cb = cb; recur = recur; delay = delay })
            (borrowed_event {U = U} alloc st (some id, pool, (s, metrics))).1 w refl

  -- Removing an event takes the first of its address out of its slot and keeps the wheel well-formed.
  pub timing_wheel_remove-IsWheel :
      (tw : TimingWheel U) (t : TimeoutEvent U) (st : Statics S)
      → IsWheel tw
      → t.offset < tw.cap
      → (slot (timing_wheel_remove alloc tw t st).0 t.offset ≡ unlink t.id (slot tw t.offset))
        × ((i : ℕ) → t.offset ≢ i → slot (timing_wheel_remove alloc tw t st).0 i ≡ slot tw i)
        × IsWheel (timing_wheel_remove alloc tw t st).0
  unfolding timing_wheel_remove
  timing_wheel_remove-IsWheel tw t st w h = (
    remove_self tw t (omega (arith, w.size)),
    (λ i ne. remove_other tw t i ne),
    IsWheel-IsStill tw (_timing_wheel_remove tw t) still w (λ i. elim (ℕ_discrete t.offset i) [
      | yes e ↦
          subst (λ j. AllPlaced tw j (slot (_timing_wheel_remove tw t) j)) e
            (subst (AllPlaced tw t.offset) (sym (remove_self tw t (omega (arith, w.size))))
              (AllPlaced-unlink tw t.offset t.id (slot tw t.offset) (w.placed t.offset)))
      | no ne ↦ subst (AllPlaced tw i) (sym (remove_other tw t i ne)) (w.placed i)
    ]),
  )
    where
      still : IsStill tw (_timing_wheel_remove tw t)
      still =
          unfold _timing_wheel_remove in
          record {
            curr = refl;
            cap = refl;
            tick_ns = refl;
            size = length-set tw.table t.offset (unlink t.id (slot tw t.offset));
          }
