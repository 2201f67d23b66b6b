-- ===== src/Wheel/Slots.antt =====
-- The invariant of the wheel, and its slots after an insertion or a removal.
use ccommon.Prelude.{
  ℕ, ◌^◌, ◌≤◌, ◌<◌, ◌≡◌, ◌≢◌, refl, List, [], ◌∷◌, ◌++◌, Bool, true, false, if◌then◌else◌, ◌==◌,
  length, get_or-set_self, get_or-set_ne, eq→==,
}
use ccommon.Wheel.{TimingWheel, slot, unlink, _offset, _timing_wheel_insert, _timing_wheel_remove}
use ccommon.Wheel.Events.{TimeoutEvent}

module _ {U : Type 0} where
  -- The event is in the slot that it names and in use, and its delay fits the wheel if it recurs.
  pub record IsPlaced (tw : TimingWheel U) (i : ℕ) (t : TimeoutEvent U) : Type 0 where
    pub named : t.offset ≡ i
    pub used : t.free ≡ false
    pub returns : t.recur ≡ true → (0 < _offset tw t.delay) × (_offset tw t.delay < tw.cap)

  abbrev pub AllPlaced : TimingWheel U → ℕ → List (TimeoutEvent U) → Type 0
  AllPlaced tw i [] = Unit
  AllPlaced tw i (t ∷ ts) = IsPlaced tw i t × AllPlaced tw i ts

  -- The table has a slot for each tick, the hand is at one of them, a tick takes time, and all events
  -- are placed.
  pub record IsWheel (tw : TimingWheel U) : Type 0 where
    pub size : length tw.table ≡ tw.cap
    pub inside : tw.curr < tw.cap
    pub ticking : 0 < tw.tick_ns
    pub small : tw.cap ≤ 2 ^ 63
    pub placed : (i : ℕ) → AllPlaced tw i (slot tw i)

  pub AllPlaced-append :
      (tw : TimingWheel U) (i : ℕ) (ts : List (TimeoutEvent U)) (t : TimeoutEvent U)
      → AllPlaced tw i ts
      → IsPlaced tw i t
      → AllPlaced tw i (ts ++ t ∷ [])
  AllPlaced-append tw i [] t h k = (k, tt)
  AllPlaced-append tw i (u ∷ ts) t h k = (h.0, AllPlaced-append tw i ts t h.1 k)

  pub unlink_head : (t : TimeoutEvent U) (ts : List (TimeoutEvent U)) → unlink t.id (t ∷ ts) ≡ ts
  unlink_head t ts = rw (eq→== t.id t.id refl)

  pub insert_self :
      (tw : TimingWheel U) (t : TimeoutEvent U)
      → t.offset < length tw.table
      → slot (_timing_wheel_insert tw t) t.offset ≡ slot tw t.offset ++ t ∷ []
  unfolding _timing_wheel_insert
  insert_self tw t h = get_or-set_self tw.table t.offset (slot tw t.offset ++ t ∷ []) [] h

  pub insert_other :
      (tw : TimingWheel U) (t : TimeoutEvent U) (i : ℕ)
      → t.offset ≢ i
      → slot (_timing_wheel_insert tw t) i ≡ slot tw i
  unfolding _timing_wheel_insert
  insert_other tw t i h = get_or-set_ne tw.table (slot tw t.offset ++ t ∷ []) [] h

  pub remove_self :
      (tw : TimingWheel U) (t : TimeoutEvent U)
      → t.offset < length tw.table
      → slot (_timing_wheel_remove tw t) t.offset ≡ unlink t.id (slot tw t.offset)
  unfolding _timing_wheel_remove
  remove_self tw t h = get_or-set_self tw.table t.offset (unlink t.id (slot tw t.offset)) [] h

  pub remove_other :
      (tw : TimingWheel U) (t : TimeoutEvent U) (i : ℕ)
      → t.offset ≢ i
      → slot (_timing_wheel_remove tw t) i ≡ slot tw i
  unfolding _timing_wheel_remove
  remove_other tw t i h = get_or-set_ne tw.table (unlink t.id (slot tw t.offset)) [] h

  pub AllPlaced-unlink :
      (tw : TimingWheel U) (i id : ℕ) (ts : List (TimeoutEvent U))
      → AllPlaced tw i ts
      → AllPlaced tw i (unlink id ts)
  AllPlaced-unlink tw i id [] h = tt
  AllPlaced-unlink tw i id (t ∷ ts) h = choose (t.id == id) (AllPlaced-unlink tw i id ts h.1)
    where
      choose :
          (b : Bool)
          → AllPlaced tw i (unlink id ts)
          → AllPlaced tw i (if b then ts else t ∷ unlink id ts)
      choose true k = h.1
      choose false k = (h.0, k)
