-- ===== src/Wheel/Still.antt =====
-- What stays as it is within a tick of the wheel, and where recurring events go.
use native.Mathlib.Nat.{mod-eq_of_lt, mod-eq-sub-mod}
use ccommon.Prelude.{
  ℕ, ◌+◌, ◌-◌, ◌/◌, ◌%◌, ◌^◌, ◌≤◌, ◌<◌, ◌≡◌, ◌≢◌, ◌∙◌, refl, ap, ap₂, arith, List, [], ◌∷◌, Bool,
  true, false, if◌then◌else◌, ◌==◌, ◌&&◌, not, length, ne→==, Bool-cases, inl, inr, dec_lt,
}
use ccommon.Prelude.Words.{add64}
use ccommon.Wheel.{TimingWheel, _offset}
use ccommon.Wheel.Events.{TimeoutEvent}
use ccommon.Wheel.Turn.{rescheduled}
use ccommon.Wheel.Slots.{IsPlaced, AllPlaced}

-- The part of the wheel that does not turn within a tick.
pub record IsStill {U : Type 0} (tw tw' : TimingWheel U) : Type 0 where
  pub curr : tw'.curr ≡ tw.curr
  pub cap : tw'.cap ≡ tw.cap
  pub tick_ns : tw'.tick_ns ≡ tw.tick_ns
  pub size : length tw'.table ≡ length tw.table

-- The events that a tick at `curr` puts into slot `i`.
abbrev pub returned :
    {U : Type 0} → Bool → TimingWheel U → ℕ → List (TimeoutEvent U) → List (TimeoutEvent U)
returned endmode tw i [] = []
returned endmode tw i (t ∷ ts) =
    let rest = returned endmode tw i ts in
    if (not endmode && t.recur) && (rescheduled tw t).offset == i
    then rescheduled tw t ∷ rest
    else rest

-- A delay of less than a turn leads to another slot.
pub slot_off : (c k n : ℕ) → 0 < k → k < n → c < n → n ≤ 2 ^ 63 → add64 c k % n ≢ c
slot_off c k n h h' h'' small e =
    let whole : add64 c k ≡ c + k = omega arith in
    elim (dec_lt (c + k) n) [
      | yes short ↦
          let low : (c + k) % n ≡ c + k = mod-eq_of_lt short in
          omega (arith, ap (λ x. x % n) whole, low, e)
      | no long ↦
          let once : (c + k) % n ≡ (c + k - n) % n = mod-eq-sub-mod (omega arith) in
          let low : (c + k - n) % n ≡ c + k - n = mod-eq_of_lt (omega arith) in
          omega (arith, ap (λ x. x % n) whole, once, low, e)
    ]

module _ {U : Type 0} where
  pub IsStill-trans : (a b c : TimingWheel U) → IsStill a b → IsStill b c → IsStill a c
  IsStill-trans a b c h k = record {
    curr = k.curr ∙ h.curr;
    cap = k.cap ∙ h.cap;
    tick_ns = k.tick_ns ∙ h.tick_ns;
    size = k.size ∙ h.size;
  }

  _offset-IsStill :
      (tw tw' : TimingWheel U) (t : TimeoutEvent U)
      → IsStill tw tw'
      → _offset tw' t.delay ≡ _offset tw t.delay
  _offset-IsStill tw tw' t h =
      ap (λ n. if t.delay.tp == 0 then 0 else (t.delay.tp - 1) / n + 1) h.tick_ns

  rescheduled-IsStill :
      (tw tw' : TimingWheel U) (t : TimeoutEvent U)
      → IsStill tw tw'
      → rescheduled tw' t ≡ rescheduled tw t
  rescheduled-IsStill tw tw' t h =
      ap (λ n. record t { offset = add64 tw'.curr n % tw'.cap }) (_offset-IsStill tw tw' t h)
      ∙ ap₂ (λ c n. record t { offset = add64 c (_offset tw t.delay) % n }) h.curr h.cap

  pub returned-IsStill :
      (endmode : Bool) (tw tw' : TimingWheel U) (i : ℕ) (ts : List (TimeoutEvent U))
      → IsStill tw tw'
      → returned endmode tw' i ts ≡ returned endmode tw i ts
  returned-IsStill endmode tw tw' i [] h = refl
  returned-IsStill endmode tw tw' i (t ∷ ts) h =
      ap₂ (λ r rest. if (not endmode && t.recur) && r.offset == i then r ∷ rest else rest)
        (rescheduled-IsStill tw tw' t h) (returned-IsStill endmode tw tw' i ts h)

  pub IsPlaced-IsStill :
      (tw tw' : TimingWheel U) (i : ℕ) (t : TimeoutEvent U)
      → IsStill tw tw'
      → IsPlaced tw i t
      → IsPlaced tw' i t
  IsPlaced-IsStill tw tw' i t h p = record {
    named = p.named;
    used = p.used;
    returns = λ r. (
      omega (arith, _offset-IsStill tw tw' t h, p.returns r),
      omega (arith, _offset-IsStill tw tw' t h, h.cap, p.returns r),
    );
  }

  pub AllPlaced-IsStill :
      (tw tw' : TimingWheel U) (i : ℕ) (ts : List (TimeoutEvent U))
      → IsStill tw tw'
      → AllPlaced tw i ts
      → AllPlaced tw' i ts
  AllPlaced-IsStill tw tw' i [] h p = tt
  AllPlaced-IsStill tw tw' i (t ∷ ts) h p =
      (IsPlaced-IsStill tw tw' i t h p.0, AllPlaced-IsStill tw tw' i ts h p.1)

module _ {U : Type 0} (endmode : Bool) where
  -- No event of the slot is put back into it.
  pub not_back :
      (t : TimeoutEvent U) (tw : TimingWheel U)
      → IsPlaced tw tw.curr t
      → tw.curr < tw.cap
      → tw.cap ≤ 2 ^ 63
      → ((not endmode && t.recur) && (rescheduled tw t).offset == tw.curr) ≡ false
  not_back t tw p inside small = elim (Bool-cases t.recur) [
    | inl r ↦
        let off : (rescheduled tw t).offset ≢ tw.curr =
          slot_off tw.curr (_offset tw t.delay) tw.cap (p.returns r).0 (p.returns r).1 inside
            small in
        rw (ne→== (rescheduled tw t).offset tw.curr off) (false_right (not endmode && t.recur))
    | inr r ↦ rw r (ap (λ b. b && (rescheduled tw t).offset == tw.curr) (false_right (not endmode)))
  ]
    where
      false_right : (b : Bool) → (b && false) ≡ false
      false_right true = refl
      false_right false = refl
