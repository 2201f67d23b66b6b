-- ===== src/Wheel/Keep.antt =====
-- Every operation keeps the wheel well-formed.
use native.Mathlib.Nat.{mod-lt}
use ccommon.Prelude.{
  ℕ, ◌%◌, ◌≡◌, ◌∙◌, sym, ap, subst, arith, List, [], ◌∷◌, ◌++◌, Bool, true, false, if◌then◌else◌,
  ◌==◌, ◌&&◌, not, ℕ_discrete, ne→==,
}
use ccommon.Prelude.Words.{add64}
use ccommon.Wheel.{TimingWheel, slot, _advance_curr}
use ccommon.Wheel.Events.{TimeoutEvent}
use ccommon.Wheel.Turn.{Turning, rescheduled, _process_tick, advance_tick}
use ccommon.Wheel.Slots.{IsPlaced, AllPlaced, IsWheel}
use ccommon.Wheel.Still.{IsStill, returned, AllPlaced-IsStill}
use ccommon.Wheel.Fire.{_process_tick-Fires}

module _ {U : Type 0} where
  AllPlaced-both :
      (tw : TimingWheel U) (i : ℕ) (ts us : List (TimeoutEvent U))
      → AllPlaced tw i ts
      → AllPlaced tw i us
      → AllPlaced tw i (ts ++ us)
  AllPlaced-both tw i [] us h k = k
  AllPlaced-both tw i (t ∷ ts) us h k = (h.0, AllPlaced-both tw i ts us h.1 k)

  rescheduled-IsPlaced :
      (tw : TimingWheel U) (j i : ℕ) (t : TimeoutEvent U)
      → IsPlaced tw j t
      → (rescheduled tw t).offset ≡ i
      → IsPlaced tw i (rescheduled tw t)
  rescheduled-IsPlaced tw j i t p e = record { named = e; used = p.used; returns = p.returns }

  returned-AllPlaced :
      (endmode : Bool) (tw : TimingWheel U) (j i : ℕ) (ts : List (TimeoutEvent U))
      → AllPlaced tw j ts
      → AllPlaced tw i (returned endmode tw i ts)
  returned-AllPlaced endmode tw j i [] p = tt
  returned-AllPlaced endmode tw j i (t ∷ ts) p = elim (ℕ_discrete (rescheduled tw t).offset i) [
    | yes e ↦
        choose ((not endmode && t.recur) && (rescheduled tw t).offset == i)
          (rescheduled-IsPlaced tw j i t p.0 e) (returned-AllPlaced endmode tw j i ts p.1)
    | no ne ↦
        rw (ne→== (rescheduled tw t).offset i ne)
          (skip (not endmode && t.recur) (returned-AllPlaced endmode tw j i ts p.1))
  ]
    where
      choose :
          (b : Bool)
          → IsPlaced tw i (rescheduled tw t)
          → AllPlaced tw i (returned endmode tw i ts)
          → AllPlaced tw i
              (if b then rescheduled tw t ∷ returned endmode tw i ts else returned endmode tw i ts)
      choose true h k = (h, k)
      choose false h k = k

      skip :
          (b : Bool)
          → AllPlaced tw i (returned endmode tw i ts)
          → AllPlaced tw i (
              if b && false
              then rescheduled tw t ∷ returned endmode tw i ts
              else returned endmode tw i ts)
      skip true k = k
      skip false k = k

  -- The invariant after a change of the slots only.
  pub IsWheel-IsStill :
      (tw tw' : TimingWheel U)
      → IsStill tw tw'
      → IsWheel tw
      → ((i : ℕ) → AllPlaced tw i (slot tw' i))
      → IsWheel tw'
  IsWheel-IsStill tw tw' h w p = record {
    size = h.size ∙ w.size ∙ sym h.cap;
    inside = omega (arith, h.curr, h.cap, w.inside);
    ticking = omega (arith, h.tick_ns, w.ticking);
    small = omega (arith, h.cap, w.small);
    placed = λ i. AllPlaced-IsStill tw tw' i (slot tw' i) h (p i);
  }

  _advance_curr-IsWheel : (tw : TimingWheel U) → IsWheel tw → IsWheel (_advance_curr tw)
  unfolding _advance_curr
  _advance_curr-IsWheel tw w = record {
    size = w.size;
    inside = mod-lt (add64 tw.curr 1) {m = tw.cap} (omega (arith, w.inside));
    ticking = w.ticking;
    small = w.small;
    placed = λ i. AllPlaced-moved i (slot tw i) (w.placed i);
  }
    where
      AllPlaced-moved :
          (i : ℕ) (ts : List (TimeoutEvent U))
          → AllPlaced tw i ts
          → AllPlaced (record tw { curr = add64 tw.curr 1 % tw.cap; ntick = add64 tw.ntick 1 }) i ts
      AllPlaced-moved i [] h = tt
      AllPlaced-moved i (t ∷ ts) h = (
        record { named = h.0.named; used = h.0.used; returns = h.0.returns },
        AllPlaced-moved i ts h.1,
      )

module _ {U S : Type 0} where
  -- A tick keeps the wheel well-formed: every event is in the slot that it names and in use, recurring
  -- ones have a delay of at least one tick and less than a turn, and the hand is inside the table.
  pub _process_tick-IsWheel :
      (endmode : Bool) (s : Turning U S) → IsWheel s.tw → IsWheel (_process_tick endmode s).tw
  _process_tick-IsWheel endmode s w =
      let fired = _process_tick-Fires endmode s w in
      IsWheel-IsStill s.tw (_process_tick endmode s).tw fired.still w (λ i.
        elim (ℕ_discrete i s.tw.curr) [
          | yes e ↦
              subst (AllPlaced s.tw i)
                (sym (ap (slot (_process_tick endmode s).tw) e ∙ fired.emptied)) tt
          | no ne ↦ subst (AllPlaced s.tw i) (sym (fired.others i ne)) (
              AllPlaced-both s.tw i (slot s.tw i) (returned endmode s.tw i (slot s.tw s.tw.curr))
                (w.placed i)
                (returned-AllPlaced endmode s.tw s.tw.curr i (slot s.tw s.tw.curr)
                  (w.placed s.tw.curr)))
        ])

  pub advance_tick-IsWheel : (s : Turning U S) → IsWheel s.tw → IsWheel (advance_tick s).tw
  unfolding advance_tick
  advance_tick-IsWheel s w = _advance_curr-IsWheel s.tw w
