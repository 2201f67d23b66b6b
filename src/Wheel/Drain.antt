-- ===== src/Wheel/Drain.antt =====
-- Flushing the wheel.
use native.Mathlib.Nat.{mod-lt, mod-eq_of_lt, mod-eq-sub-mod, mod-add-mod}
use ccommon.Prelude.{
  ℕ, zero, suc, ◌+◌, ◌-◌, ◌%◌, ◌≤◌, ◌<◌, ◌≡◌, ◌≢◌, ◌∙◌, refl, sym, ap, ap₂, arith, List, [], ◌∷◌,
  ◌++◌, some, true, if◌then◌else◌, append-nil, eq→==, ne→==, ℕ_discrete, dec_lt, leb, lt→leb,
  le→leb,
}
use ccommon.Prelude.Words.{add64}
use ccommon.Wheel.{TimingWheel, slot, _advance_curr}
use ccommon.Wheel.Events.{TimeoutEvent}
use ccommon.Wheel.Turn.{
  Turning, call_cb, _process_tick, advance_tick, flush_from, timing_wheel_flush,
}
use ccommon.Wheel.Slots.{IsWheel}
use ccommon.Wheel.Still.{returned, slot_off}
use ccommon.Wheel.Fire.{call_all, _process_tick-Fires}
use ccommon.Wheel.Keep.{_process_tick-IsWheel, advance_tick-IsWheel}

-- The events of the next `n` slots from `i` on, in the order in which the hand meets them.
abbrev pub upcoming : {U : Type 0} → ℕ → TimingWheel U → ℕ → List (TimeoutEvent U)
upcoming zero tw i = []
upcoming (suc n) tw i = slot tw i ++ upcoming n tw ((i + 1) % tw.cap)

call_all-append :
    {U : Type 0} (ts us : List (TimeoutEvent U)) (u : U)
    → call_all (ts ++ us) u ≡ call_all us (call_all ts u)
call_all-append [] us u = refl
call_all-append (t ∷ ts) us u = call_all-append ts us (call_cb t.cb u)

none_returned :
    {U : Type 0} (tw : TimingWheel U) (i : ℕ) (ts : List (TimeoutEvent U))
    → returned true tw i ts ≡ []
none_returned tw i [] = refl
none_returned tw i (t ∷ ts) = none_returned tw i ts

module _ {U S : Type 0} where
  -- One round of the loop of `timing_wheel_flush`.
  abbrev round : Turning U S → Turning U S
  round s = advance_tick (_process_tick true s)

  -- What a round does.
  record Rounds (s s' : Turning U S) : Type 0 where
    pub user : s'.user ≡ call_all (slot s.tw s.tw.curr) s.user
    pub emptied : slot s'.tw s.tw.curr ≡ []
    pub others : (i : ℕ) → i ≢ s.tw.curr → slot s'.tw i ≡ slot s.tw i
    pub curr : s'.tw.curr ≡ (s.tw.curr + 1) % s.tw.cap
    pub cap : s'.tw.cap ≡ s.tw.cap
    pub wheel : IsWheel s'.tw

  round-Rounds : (s : Turning U S) → IsWheel s.tw → Rounds s (round s)
  unfolding advance_tick _advance_curr
  round-Rounds s w =
      let fired = _process_tick-Fires true s w in
      record {
        user = fired.user;
        emptied = fired.emptied;
        others = λ i h.
            fired.others i h
            ∙ ap (λ x. slot s.tw i ++ x) (none_returned s.tw i (slot s.tw s.tw.curr))
            ∙ append-nil (slot s.tw i);
        curr =
            ap₂ (λ c n. add64 c 1 % n) fired.still.curr fired.still.cap
            ∙ ap (λ x. x % s.tw.cap) (omega (arith, w.inside, w.small));
        cap = fired.still.cap;
        wheel = advance_tick-IsWheel (_process_tick true s) (_process_tick-IsWheel true s w);
      }

-- The slot `k` further on from the next one.
pub next_slot : (c k n : ℕ) → ((c + 1) % n + k) % n ≡ (c + suc k) % n
next_slot c k n = mod-add-mod (c + 1) n k ∙ ap (λ x. x % n) (omega arith)

module _ {U : Type 0} where
  -- The upcoming events when only one slot, that is not among them, has changed.
  upcoming-other :
      (m : ℕ) (tw tw' : TimingWheel U) (i c : ℕ)
      → i < tw.cap
      → tw'.cap ≡ tw.cap
      → ((j : ℕ) → j ≢ c → slot tw' j ≡ slot tw j)
      → ((j : ℕ) → j < m → (i + j) % tw.cap ≢ c)
      → upcoming m tw' i ≡ upcoming m tw i
  upcoming-other zero tw tw' i c h e same away = refl
  upcoming-other (suc m) tw tw' i c h e same away = ap₂ ◌++◌ (same i first) (
      ap (λ n. upcoming m tw' ((i + 1) % n)) e
      ∙ upcoming-other m tw tw' ((i + 1) % tw.cap) c (mod-lt (i + 1) {m = tw.cap} (omega arith)) e
          same (λ j k z. away (suc j) (omega arith) (sym (next_slot i j tw.cap) ∙ z)))
    where
      first : i ≢ c
      first z = away 0 (omega arith) (ap (λ x. x % tw.cap) (omega arith) ∙ mod-eq_of_lt h ∙ z)

module _ {U S : Type 0} where
  -- What `m` rounds do.
  record Drains (m start : ℕ) (s s' : Turning U S) : Type 0 where
    pub user : s'.user ≡ call_all (upcoming m s.tw s.tw.curr) s.user
    pub gone : (j : ℕ) → j < m → slot s'.tw ((s.tw.curr + j) % s.tw.cap) ≡ []
    pub stays : (i : ℕ) → slot s.tw i ≡ [] → slot s'.tw i ≡ []
    pub back : s'.tw.curr ≡ start
    pub wheel : IsWheel s'.tw

  emptied-stays :
      (s s' : Turning U S) → Rounds s s' → (i : ℕ) → slot s.tw i ≡ [] → slot s'.tw i ≡ []
  emptied-stays s s' r i e = elim (ℕ_discrete i s.tw.curr) [
    | yes z ↦ ap (slot s'.tw) z ∙ r.emptied
    | no ne ↦ r.others i ne ∙ e
  ]

  last_round :
      (start : ℕ) (s s1 : Turning U S)
      → Rounds s s1
      → IsWheel s.tw
      → (s.tw.curr + 1) % s.tw.cap ≡ start
      → Drains 1 start s s1
  last_round start s s1 r w e = record {
    user = r.user ∙ ap (λ ts. call_all ts s.user) (sym (append-nil (slot s.tw s.tw.curr)));
    gone = λ j h.
        ap (slot s1.tw) (ap (λ x. x % s.tw.cap) (omega arith) ∙ mod-eq_of_lt w.inside) ∙ r.emptied;
    stays = emptied-stays s s1 r;
    back = r.curr ∙ e;
    wheel = r.wheel;
  }

  more_of_them :
      (n start : ℕ) (s s1 s' : Turning U S)
      → Rounds s s1
      → IsWheel s.tw
      → n < s.tw.cap
      → Drains n start s1 s'
      → Drains (suc n) start s s'
  more_of_them n start s s1 s' r w h d = record {
    user =
        d.user
        ∙ ap₂ call_all
            (ap (upcoming n s1.tw) r.curr
              ∙ upcoming-other n s.tw s1.tw ((s.tw.curr + 1) % s.tw.cap) s.tw.curr
                  (mod-lt (s.tw.curr + 1) {m = s.tw.cap} (omega (arith, w.inside))) r.cap r.others
                  away)
            r.user
        ∙ sym (
            call_all-append (slot s.tw s.tw.curr) (upcoming n s.tw ((s.tw.curr + 1) % s.tw.cap))
              s.user);
    gone = gone;
    stays = λ i e. d.stays i (emptied-stays s s1 r i e);
    back = d.back;
    wheel = d.wheel;
  }
    where
      away : (j : ℕ) → j < n → ((s.tw.curr + 1) % s.tw.cap + j) % s.tw.cap ≢ s.tw.curr
      away j k z =
          slot_off s.tw.curr (suc j) s.tw.cap (omega arith) (omega arith) w.inside w.small (
            ap (λ x. x % s.tw.cap) (omega (arith, w.inside, w.small))
            ∙ sym (next_slot s.tw.curr j s.tw.cap)
            ∙ z)

      gone : (j : ℕ) → j < suc n → slot s'.tw ((s.tw.curr + j) % s.tw.cap) ≡ []
      gone zero k =
          ap (slot s'.tw) (ap (λ x. x % s.tw.cap) (omega arith) ∙ mod-eq_of_lt w.inside)
          ∙ d.stays s.tw.curr r.emptied
      gone (suc j) k =
          ap (slot s'.tw) (
            sym (next_slot s.tw.curr j s.tw.cap)
            ∙ ap₂ (λ c m. (c + j) % m) (sym r.curr) (sym r.cap))
          ∙ d.gone j (omega arith)

  flush_from-Drains :
      (n start : ℕ) (s : Turning U S)
      → IsWheel s.tw
      → suc n ≤ s.tw.cap
      → (s.tw.curr + suc n) % s.tw.cap ≡ start
      → (s' : Turning U S) × (flush_from (suc n) start s ≡ some s') × Drains (suc n) start s s'
  unfolding flush_from
  flush_from-Drains zero start s w h e =
      let r : Rounds s (round s) = round-Rounds s w in
      let back : (s.tw.curr + 1) % s.tw.cap ≡ start = ap (λ x. x % s.tw.cap) (omega arith) ∙ e in
      (
        round s,
        rw (eq→== (round s).tw.curr start (r.curr ∙ back)) refl,
        last_round start s (round s) r w back,
      )
  flush_from-Drains (suc n) start s w h e =
      let r : Rounds s (round s) = round-Rounds s w in
      let on : ((round s).tw.curr + suc n) % (round s).tw.cap ≡ start =
        ap₂ (λ c m. (c + suc n) % m) r.curr r.cap ∙ next_slot s.tw.curr (suc n) s.tw.cap ∙ e in
      let rest = flush_from-Drains n start (round s) r.wheel (omega (arith, r.cap)) on in
      (
        rest.0,
        rw (ne→== (round s).tw.curr start (ahead r on)) rest.1,
        more_of_them (suc n) start s (round s) rest.0 r w (omega arith) rest.2,
      )
    where
      ahead :
          Rounds s (round s)
          → ((round s).tw.curr + suc n) % (round s).tw.cap ≡ start
          → (round s).tw.curr ≢ start
      ahead r on z =
          slot_off (round s).tw.curr (suc n) (round s).tw.cap (omega arith) (omega (arith, r.cap))
            r.wheel.inside r.wheel.small
            (ap (λ x. x % (round s).tw.cap) (omega (arith, r.wheel.inside, r.wheel.small, r.cap))
              ∙ on
              ∙ sym z)

  -- Flushing a well-formed wheel ends, after as many rounds as the wheel has slots, with the hand where it
  -- was. The callbacks of all events, recurring ones too, have been called once, slot by slot from the
  -- hand's on and within a slot in the order of insertion, and no slot has an event left.
  pub timing_wheel_flush_lem :
      (s : Turning U S)
      → IsWheel s.tw
      → (s' : Turning U S) × (timing_wheel_flush s ≡ some s')
        × (s'.user ≡ call_all (upcoming s.tw.cap s.tw s.tw.curr) s.user)
        × ((i : ℕ) → i < s.tw.cap → slot s'.tw i ≡ [])
        × (s'.tw.curr ≡ s.tw.curr)
        × IsWheel s'.tw
  unfolding timing_wheel_flush
  timing_wheel_flush_lem s w = whole s.tw.cap refl
    where
      start_again : (s.tw.curr + s.tw.cap) % s.tw.cap ≡ s.tw.curr
      start_again =
          mod-eq-sub-mod (omega (arith, w.inside))
          ∙ ap (λ x. x % s.tw.cap) (omega arith)
          ∙ mod-eq_of_lt w.inside

      steps : ℕ → ℕ
      steps i = if leb s.tw.curr i then i - s.tw.curr else i + s.tw.cap - s.tw.curr

      reached : (i : ℕ) → i < s.tw.cap → (s.tw.curr + steps i) % s.tw.cap ≡ i
      reached i h = elim (dec_lt i s.tw.curr) [
        | yes l ↦ rw (lt→leb s.tw.curr i l) (
            mod-eq-sub-mod (omega (arith, w.inside))
            ∙ ap (λ x. x % s.tw.cap) (omega (arith, w.inside))
            ∙ mod-eq_of_lt h)
        | no g ↦
            rw (le→leb s.tw.curr i (omega arith))
              (ap (λ x. x % s.tw.cap) (omega arith) ∙ mod-eq_of_lt h)
      ]

      steps-lt : (i : ℕ) → i < s.tw.cap → steps i < s.tw.cap
      steps-lt i h = ground (arith, w.inside)

      whole :
          (n : ℕ)
          → s.tw.cap ≡ n
          → (s' : Turning U S) × (flush_from s.tw.cap s.tw.curr s ≡ some s')
            × (s'.user ≡ call_all (upcoming s.tw.cap s.tw s.tw.curr) s.user)
            × ((i : ℕ) → i < s.tw.cap → slot s'.tw i ≡ [])
            × (s'.tw.curr ≡ s.tw.curr)
            × IsWheel s'.tw
      whole zero e = absurd (omega (arith, w.inside))
      whole (suc n) e =
          let d =
            flush_from-Drains n s.tw.curr s w (omega arith)
              (ap (λ m. (s.tw.curr + m) % s.tw.cap) (sym e) ∙ start_again) in
          (
            d.0,
            ap (λ m. flush_from m s.tw.curr s) e ∙ d.1,
            d.2.user ∙ ap (λ m. call_all (upcoming m s.tw s.tw.curr) s.user) (sym e),
            (λ i h.
                ap (slot d.0.tw) (sym (reached i h))
                ∙ d.2.gone (steps i) (omega (arith, steps-lt i h))),
            d.2.back,
            d.2.wheel,
          )
