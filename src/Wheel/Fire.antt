-- ===== src/Wheel/Fire.antt =====
-- What a tick of the wheel fires, and where its recurring events go.
use native.Mathlib.Nat.{mod-lt}
use ccommon.Prelude.{
  ℕ, ◌^◌, ◌≤◌, ◌<◌, ◌≡◌, ◌≢◌, ◌∙◌, refl, sym, ap, ap₂, subst, arith, List, [], ◌∷◌, ◌++◌, Bool,
  true, false, if◌then◌else◌, ◌==◌, ◌&&◌, not, length, length-set, append-nil, append_assoc, eq→==,
  ne→==, ℕ_discrete,
}
use ccommon.Prelude.Words.{add64}
use ccommon.Wheel.{slot, unlink, _offset, _timing_wheel_insert, _timing_wheel_remove}
use ccommon.Wheel.Events.{TimeoutEvent}
use ccommon.Wheel.Turn.{
  Turning, call_cb, rescheduled, take_out, put_back, process_event, process_events, _process_tick,
}
use ccommon.Wheel.Still.{
  IsStill, IsStill-trans, returned, returned-IsStill, AllPlaced-IsStill, not_back,
}
use ccommon.Wheel.Slots.{
  AllPlaced, IsWheel, unlink_head, insert_self, insert_other, remove_self, remove_other,
}

-- The callbacks of events, one after the other.
abbrev pub call_all : {U : Type 0} → List (TimeoutEvent U) → U → U
call_all [] u = u
call_all (t ∷ ts) u = call_all ts (call_cb t.cb u)

module _ {U S : Type 0} where
  -- The current slot is emptied, its callbacks are called from first to last, and each recurring event
  -- is put at the end of another slot, unless the wheel is being flushed.
  pub record Fires (endmode : Bool) (ts : List (TimeoutEvent U)) (s s' : Turning U S) : Type 0 where
    pub user : s'.user ≡ call_all ts s.user
    pub emptied : slot s'.tw s.tw.curr ≡ []
    pub others : (i : ℕ) → i ≢ s.tw.curr → slot s'.tw i ≡ slot s.tw i ++ returned endmode s.tw i ts
    pub still : IsStill s.tw s'.tw

  take_out_self :
      (t : TimeoutEvent U) (ts : List (TimeoutEvent U)) (s : Turning U S)
      → slot s.tw s.tw.curr ≡ t ∷ ts
      → t.offset ≡ s.tw.curr
      → s.tw.curr < length s.tw.table
      → slot (take_out t s).tw s.tw.curr ≡ ts
  unfolding take_out
  take_out_self t ts s e o h =
      subst
        (λ i.
          slot (_timing_wheel_remove (record s.tw { nprocess = add64 s.tw.nprocess 1 }) t) i ≡ ts)
        o
        (remove_self (record s.tw { nprocess = add64 s.tw.nprocess 1 }) t
            (subst (λ i. i < length s.tw.table) (sym o) h)
          ∙ ap (unlink t.id) (ap (slot s.tw) o ∙ e)
          ∙ unlink_head t ts)

  take_out_other :
      (t : TimeoutEvent U) (s : Turning U S) (i : ℕ)
      → t.offset ≢ i
      → slot (take_out t s).tw i ≡ slot s.tw i
  unfolding take_out
  take_out_other t s i h = remove_other s.tw t i h

  take_out-IsStill : (t : TimeoutEvent U) (s : Turning U S) → IsStill s.tw (take_out t s).tw
  unfolding take_out _timing_wheel_remove
  take_out-IsStill t s = record {
    curr = refl;
    cap = refl;
    tick_ns = refl;
    size = length-set s.tw.table t.offset (unlink t.id (slot s.tw t.offset));
  }

  put_back-IsStill :
      (b : Bool) (t : TimeoutEvent U) (s : Turning U S) → IsStill s.tw (put_back b t s).tw
  unfolding put_back _timing_wheel_insert
  put_back-IsStill true t s = record {
    curr = refl;
    cap = refl;
    tick_ns = refl;
    size =
        length-set s.tw.table (rescheduled s.tw t).offset
          (slot s.tw (rescheduled s.tw t).offset ++ rescheduled s.tw t ∷ []);
  }
  put_back-IsStill false t s = record { curr = refl; cap = refl; tick_ns = refl; size = refl }

  put_back-slot :
      (b : Bool) (t : TimeoutEvent U) (s : Turning U S) (i : ℕ)
      → (rescheduled s.tw t).offset < length s.tw.table
      → slot (put_back b t s).tw i
        ≡ slot s.tw i
          ++ (if b && (rescheduled s.tw t).offset == i then rescheduled s.tw t ∷ [] else [])
  unfolding put_back
  put_back-slot true t s i h = elim (ℕ_discrete (rescheduled s.tw t).offset i) [
    | yes e ↦
        subst
          (λ j.
            slot (_timing_wheel_insert s.tw (rescheduled s.tw t)) j
            ≡ slot s.tw j
              ++ (if (rescheduled s.tw t).offset == j then rescheduled s.tw t ∷ [] else []))
          e
          (rw (eq→== (rescheduled s.tw t).offset (rescheduled s.tw t).offset refl)
            (insert_self s.tw (rescheduled s.tw t) h))
    | no ne ↦
        rw (ne→== (rescheduled s.tw t).offset i ne)
          (insert_other s.tw (rescheduled s.tw t) i ne ∙ sym (append-nil (slot s.tw i)))
  ]
  put_back-slot false t s i h = sym (append-nil (slot s.tw i))

  put_back-user : (b : Bool) (t : TimeoutEvent U) (s : Turning U S) → (put_back b t s).user ≡ s.user
  unfolding put_back
  put_back-user true t s = refl
  put_back-user false t s = refl

  take_out-user : (t : TimeoutEvent U) (s : Turning U S) → (take_out t s).user ≡ call_cb t.cb s.user
  unfolding take_out
  take_out-user t s = refl

  rescheduled-out :
      (t : TimeoutEvent U) (s : Turning U S) → rescheduled (take_out t s).tw t ≡ rescheduled s.tw t
  unfolding take_out _timing_wheel_remove
  rescheduled-out t s = refl

module _ {U S : Type 0} (endmode : Bool) where
  process_event-IsStill :
      (t : TimeoutEvent U) (s : Turning U S) → IsStill s.tw (process_event endmode t s).tw
  unfolding process_event
  process_event-IsStill t s =
      IsStill-trans s.tw (take_out t s).tw (process_event endmode t s).tw (take_out-IsStill t s)
        (put_back-IsStill (not endmode && t.recur) t (take_out t s))

  process_event-slot :
      (t : TimeoutEvent U) (s : Turning U S) (i : ℕ)
      → s.tw.curr < s.tw.cap
      → length s.tw.table ≡ s.tw.cap
      → slot (process_event endmode t s).tw i
        ≡ slot (take_out t s).tw i
          ++ (if (not endmode && t.recur) && (rescheduled s.tw t).offset == i
              then rescheduled s.tw t ∷ []
              else [])
  unfolding process_event take_out _timing_wheel_remove
  process_event-slot t s i inside size = put_back-slot (not endmode && t.recur) t (take_out t s) i (
      omega (
        arith,
        mod-lt (add64 s.tw.curr (_offset s.tw t.delay)) {m = s.tw.cap} (omega arith),
        size,
        (take_out-IsStill t s).size,
      ))

  process_event-user :
      (t : TimeoutEvent U) (s : Turning U S)
      → (process_event endmode t s).user ≡ call_cb t.cb s.user
  unfolding process_event
  process_event-user t s =
      put_back-user (not endmode && t.recur) t (take_out t s) ∙ take_out-user t s

  process_events-Fires :
      (ts : List (TimeoutEvent U)) (s : Turning U S)
      → slot s.tw s.tw.curr ≡ ts
      → AllPlaced s.tw s.tw.curr ts
      → s.tw.curr < s.tw.cap
      → s.tw.cap ≤ 2 ^ 63
      → length s.tw.table ≡ s.tw.cap
      → Fires endmode ts s (process_events endmode ts s)
  unfolding process_events
  process_events-Fires [] s e p inside small size = record {
    user = refl;
    emptied = e;
    others = λ i h. sym (append-nil (slot s.tw i));
    still = record { curr = refl; cap = refl; tick_ns = refl; size = refl };
  }
  process_events-Fires (t ∷ ts) s e p inside small size =
      let s1 : Turning U S = process_event endmode t s in
      let still : IsStill s.tw s1.tw = process_event-IsStill t s in
      let left : slot s1.tw s.tw.curr ≡ ts =
        process_event-slot t s s.tw.curr inside size
        ∙ ap (λ b. slot (take_out t s).tw s.tw.curr ++ (if b then rescheduled s.tw t ∷ [] else []))
            (not_back endmode t s.tw p.0 inside small)
        ∙ append-nil (slot (take_out t s).tw s.tw.curr)
        ∙ take_out_self t ts s e p.0.named (omega arith) in
      let rest =
        process_events-Fires ts s1 (ap (slot s1.tw) still.curr ∙ left)
          (subst (λ c. AllPlaced s1.tw c ts) (sym still.curr)
            (AllPlaced-IsStill s.tw s1.tw s.tw.curr ts still p.1))
          (omega (arith, still.curr, still.cap)) (omega (arith, still.cap))
          (omega (arith, still.cap, still.size)) in
      record {
        user = rest.user ∙ ap (call_all ts) (process_event-user t s);
        emptied = ap (slot (process_events endmode ts s1).tw) (sym still.curr) ∙ rest.emptied;
        others = λ i h.
            rest.others i (λ z. h (z ∙ still.curr))
            ∙ ap₂ ◌++◌
                (process_event-slot t s i inside size
                  ∙ ap (λ x. x ++ one i) (take_out_other t s i (λ z. h (sym z ∙ p.0.named))))
                (returned-IsStill endmode s.tw s1.tw i ts still)
            ∙ append_assoc (slot s.tw i) (one i) (returned endmode s.tw i ts)
            ∙ ap (λ x. slot s.tw i ++ x)
                (collapse ((not endmode && t.recur) && (rescheduled s.tw t).offset == i)
                  (returned endmode s.tw i ts));
        still = IsStill-trans s.tw s1.tw (process_events endmode ts s1).tw still rest.still;
      }
    where
      one : ℕ → List (TimeoutEvent U)
      one i =
          if (not endmode && t.recur) && (rescheduled s.tw t).offset == i
          then rescheduled s.tw t ∷ []
          else []

      collapse :
          (b : Bool) (xs : List (TimeoutEvent U))
          → (if b then rescheduled s.tw t ∷ [] else []) ++ xs
            ≡ (if b then rescheduled s.tw t ∷ xs else xs)
      collapse true xs = refl
      collapse false xs = refl

  -- A tick of a well-formed wheel calls the callbacks of all events of the current slot, in the order
  -- in which they were inserted, and leaves that slot empty. Every recurring event is put at the end of
  -- the slot that its delay leads to, which is another one, unless the wheel is being flushed; the
  -- other slots keep their events, and the hand does not move.
  pub _process_tick-Fires :
      (s : Turning U S)
      → IsWheel s.tw
      → Fires endmode (slot s.tw s.tw.curr) s (_process_tick endmode s)
  unfolding _process_tick
  _process_tick-Fires s w =
      process_events-Fires (slot s.tw s.tw.curr) s refl (w.placed s.tw.curr) w.inside w.small w.size
