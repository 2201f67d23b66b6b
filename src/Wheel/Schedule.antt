-- ===== src/Wheel/Schedule.antt =====
-- When the events of a slot fire.
use native.Mathlib.Nat.{mod-eq_of_lt}
use ccommon.Prelude.{
  ℕ, zero, suc, ◌+◌, ◌%◌, ◌<◌, ◌≡◌, ◌≢◌, ◌∙◌, refl, sym, ap, ap₂, arith, List, [], ◌++◌, false,
  append-nil, append_assoc,
}
use ccommon.Prelude.Words.{add64}
use ccommon.Wheel.{slot, _advance_curr}
use ccommon.Wheel.Events.{TimeoutEvent}
use ccommon.Wheel.Turn.{Turning, _process_tick, advance_tick}
use ccommon.Wheel.Slots.{IsWheel}
use ccommon.Wheel.Still.{returned, slot_off}
use ccommon.Wheel.Fire.{call_all, _process_tick-Fires}
use ccommon.Wheel.Keep.{_process_tick-IsWheel, advance_tick-IsWheel}
use ccommon.Wheel.Drain.{next_slot}

module _ {U S : Type 0} where
  -- A number of ticks, as the loop of `timing_wheel_execute` makes them.
  abbrev pub ticks : ℕ → Turning U S → Turning U S
  ticks zero s = s
  ticks (suc n) s = ticks n (advance_tick (_process_tick false s))

  tick_curr :
      (s : Turning U S)
      → IsWheel s.tw
      → ((advance_tick (_process_tick false s)).tw.curr ≡ (s.tw.curr + 1) % s.tw.cap)
        × ((advance_tick (_process_tick false s)).tw.cap ≡ s.tw.cap)
  unfolding advance_tick _advance_curr
  tick_curr s w =
      let fired = _process_tick-Fires false s w in
      (
        ap₂ (λ c n. add64 c 1 % n) fired.still.curr fired.still.cap
            ∙ ap (λ x. x % s.tw.cap) (omega (arith, w.inside, w.small)),
        fired.still.cap,
      )

  tick_slot :
      (s : Turning U S) (i : ℕ)
      → IsWheel s.tw
      → i ≢ s.tw.curr
      → slot (advance_tick (_process_tick false s)).tw i
        ≡ slot s.tw i ++ returned false s.tw i (slot s.tw s.tw.curr)
  unfolding advance_tick _advance_curr
  tick_slot s i w h = (_process_tick-Fires false s w).others i h

  tick-IsWheel :
      (s : Turning U S) → IsWheel s.tw → IsWheel (advance_tick (_process_tick false s)).tw
  tick-IsWheel s w = advance_tick-IsWheel (_process_tick false s) (_process_tick-IsWheel false s w)

  -- The recurring events that `k` ticks put into slot `i`, in order.
  abbrev pub arrivals : ℕ → ℕ → Turning U S → List (TimeoutEvent U)
  arrivals zero i s = []
  arrivals (suc k) i s =
      returned false s.tw i (slot s.tw s.tw.curr)
      ++ arrivals k i (advance_tick (_process_tick false s))

  -- What holds of slot `i`, which the hand reaches after `k` ticks.
  record Reaches (k i : ℕ) (s : Turning U S) : Type 0 where
    pub content : slot (ticks k s).tw i ≡ slot s.tw i ++ arrivals k i s
    pub curr : (ticks k s).tw.curr ≡ i
    pub before : (j : ℕ) → j < k → (ticks j s).tw.curr ≢ i
    pub wheel : IsWheel (ticks k s).tw

  ticks-Reaches :
      (k i : ℕ) (s : Turning U S)
      → IsWheel s.tw
      → k < s.tw.cap
      → (s.tw.curr + k) % s.tw.cap ≡ i
      → Reaches k i s
  ticks-Reaches zero i s w h e = record {
    content = sym (append-nil (slot s.tw i));
    curr = sym (mod-eq_of_lt w.inside) ∙ ap (λ x. x % s.tw.cap) (omega arith) ∙ e;
    before = λ j l. absurd (omega arith);
    wheel = w;
  }
  ticks-Reaches (suc k) i s w h e =
      let moved = tick_curr s w in
      let rest =
        ticks-Reaches k i (advance_tick (_process_tick false s)) (tick-IsWheel s w)
          (omega (arith, moved.1))
          (ap₂ (λ c n. (c + k) % n) moved.0 moved.1 ∙ next_slot s.tw.curr k s.tw.cap ∙ e) in
      record {
        content =
            rest.content
            ∙ ap (λ x. x ++ arrivals k i (advance_tick (_process_tick false s)))
                (tick_slot s i w away)
            ∙ append_assoc (slot s.tw i) (returned false s.tw i (slot s.tw s.tw.curr))
                (arrivals k i (advance_tick (_process_tick false s)));
        curr = rest.curr;
        before = before rest.before;
        wheel = rest.wheel;
      }
    where
      away : i ≢ s.tw.curr
      away z =
          slot_off s.tw.curr (suc k) s.tw.cap (omega arith) h w.inside w.small
            (ap (λ x. x % s.tw.cap) (omega (arith, w.inside, w.small)) ∙ e ∙ z)

      before :
          ((j : ℕ) → j < k → (ticks j (advance_tick (_process_tick false s))).tw.curr ≢ i)
          → (j : ℕ) → j < suc k
          → (ticks j s).tw.curr ≢ i
      before later zero l = λ z. away (sym z)
      before later (suc j) l = later j (omega arith)

  -- In a well-formed wheel, the hand reaches the slot that is `k` ticks ahead of it, `k` less than a
  -- turn, after `k` ticks and not earlier. The next tick then calls, in this order, the callbacks of
  -- the events that were in that slot at first, in the order of insertion, and those of the recurring
  -- events that the `k` ticks have put into it, and no others.
  pub ticks-fire :
      (k : ℕ) (s : Turning U S)
      → IsWheel s.tw
      → k < s.tw.cap
      → ((_process_tick false (ticks k s)).user
          ≡ call_all
              (slot s.tw ((s.tw.curr + k) % s.tw.cap) ++ arrivals k ((s.tw.curr + k) % s.tw.cap) s)
              (ticks k s).user)
        × ((ticks k s).tw.curr ≡ (s.tw.curr + k) % s.tw.cap)
        × ((j : ℕ) → j < k → (ticks j s).tw.curr ≢ (s.tw.curr + k) % s.tw.cap)
  ticks-fire k s w h =
      let r = ticks-Reaches k ((s.tw.curr + k) % s.tw.cap) s w h refl in
      (
        (_process_tick-Fires false (ticks k s) r.wheel).user
            ∙ ap (λ ts. call_all ts (ticks k s).user) (ap (slot (ticks k s).tw) r.curr ∙ r.content),
        r.curr,
        r.before,
      )
