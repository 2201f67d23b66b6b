-- ===== src/RingArray/Refine.antt =====
-- A valid ring array behaves as the bounded queue of its contents, call by call.
use native.Mathlib.Decide.{dec_lt, ℕ_discrete}
use native.Mathlib.Nat.{mod-eq_of_lt}
use ccommon.Prelude.{
  ℕ, ◌+◌, ◌-◌, ◌%◌, ◌≤◌, ◌<◌, List, [], ◌∷◌, ◌++◌, some, Bool, true, false, ◌≡◌, refl, arith,
  length, ◌==◌, if◌then◌else◌, ◌⊎◌, ◌∙◌, ap, ap₂, sym, ◌≢◌, take, drop, Bool-cases, inl, inr,
  le→leb,
}
use ccommon.Prelude.Words.{u32_mod, add32}
use ccommon.Prelude.Memory.{load, store, overwrite, slice, length-overwrite, slice-zero, slice_at}
use ccommon.Window.{
  length-window_flat, length-window_wrapped, window, window-overwrite_flat,
  window-overwrite_wrapped, window_write_end, window_read_end, window-take_flat,
  window-take_wrapped, window-flat,
}
use ccommon.Status.{ok, error}
use ccommon.RingArray.Queue.{Call, push, pop, flush, Reply, put, get}
use ccommon.RingArray.Queue
use ccommon.RingArray.{
  RingArray, ring_array_full, ring_array_empty, ring_array_push, ring_array_pop, ring_array_flush,
  run,
}
use ccommon.RingArray.Inv.{IsValid, contents, nelem-length}

-- `pos + 1`, going round at `cap + 1`.
abbrev step : ℕ → ℕ → ℕ
step pos cap = add32 pos 1 % add32 cap 1

step_cases :
    (pos cap : ℕ)
    → cap + 1 < u32_mod
    → pos ≤ cap
    → ((pos < cap) × (step pos cap ≡ pos + 1)) ⊎ ((pos ≡ cap) × (step pos cap ≡ 0))
step_cases pos cap h k = elim (dec_lt pos cap) [
  | yes lt ↦ inl (lt, no_wrap ∙ mod-eq_of_lt {n = pos + 1} {m = cap + 1} (omega arith))
  | no ge ↦ inr (omega arith, no_wrap ∙ at_end (omega arith))
]
  where
    no_wrap : step pos cap ≡ (pos + 1) % (cap + 1)
    no_wrap =
        ap₂ ◌%◌ (mod-eq_of_lt {n = pos + 1} {m = u32_mod} (omega arith))
          (mod-eq_of_lt {n = cap + 1} {m = u32_mod} h)

    at_end : pos ≡ cap → (pos + 1) % (cap + 1) ≡ 0
    at_end e = grind arith

module _ {ℓ} {A : Type ℓ} where
  -- Storing at the write position extends the window, in a ring that is not full.
  contents-store :
      (cells : List A) (cap r w w' : ℕ) (x : A)
      → length cells ≡ cap + 1
      → r ≤ cap
      → w ≤ cap
      → (r ≢ 0) ⊎ (w ≢ cap)
      → w + 1 ≢ r
      → ((w < cap) × (w' ≡ w + 1)) ⊎ ((w ≡ cap) × (w' ≡ 0))
      → window (overwrite cells w (x ∷ [])) (cap + 1) r w' ≡ window cells (cap + 1) r w ++ (x ∷ [])
  contents-store cells cap r w w' x e hr hw nf1 nf2 (inl (lt, ew)) =
      let cells' = overwrite cells w (x ∷ []) in
      ap (window cells' (cap + 1) r) ew ∙ elim (dec_lt w r) [
        | yes h ↦
            window-overwrite_wrapped cells (cap + 1) r w (x ∷ []) (omega arith) (omega arith)
              (omega arith)
        | no h ↦ window-overwrite_flat cells (cap + 1) r w (x ∷ []) (omega arith) (omega arith)
      ]
  contents-store cells cap r w w' x e hr hw nf1 nf2 (inr (last, ew)) =
      let cells' = overwrite cells w (x ∷ []) in
      ap (window cells' (cap + 1) r) ew
      ∙ sym (window_write_end cells' (cap + 1) r (omega arith) (omega arith))
      ∙ ap (window cells' (cap + 1) r) {x = cap + 1} {y = w + 1} (omega arith)
      ∙ window-overwrite_flat cells (cap + 1) r w (x ∷ []) (omega arith) (omega arith)

  -- Moving the read position drops the oldest element, in a ring that is not empty.
  contents-advance :
      (cells : List A) (cap r r' w : ℕ)
      → length cells ≡ cap + 1
      → r ≤ cap
      → w ≤ cap
      → r ≢ w
      → ((r < cap) × (r' ≡ r + 1)) ⊎ ((r ≡ cap) × (r' ≡ 0))
      → (take 1 (window cells (cap + 1) r w) ≡ slice cells r 1)
        × (window cells (cap + 1) r' w ≡ drop 1 (window cells (cap + 1) r w))
  contents-advance cells cap r r' w e hr hw ne s = elim (dec_lt w r) [
    | yes h ↦ finish (window-take_wrapped cells (cap + 1) r w 1 h (omega arith) (omega arith)) s
    | no h ↦ finish (window-take_flat cells (cap + 1) r w 1 (omega arith) (omega arith)) s
  ]
    where
      finish :
          (take 1 (window cells (cap + 1) r w) ≡ slice cells r 1)
            × (drop 1 (window cells (cap + 1) r w) ≡ window cells (cap + 1) (r + 1) w)
          → ((r < cap) × (r' ≡ r + 1)) ⊎ ((r ≡ cap) × (r' ≡ 0))
          → (take 1 (window cells (cap + 1) r w) ≡ slice cells r 1)
            × (window cells (cap + 1) r' w ≡ drop 1 (window cells (cap + 1) r w))
      finish (a, b) (inl (lt, er)) = (a, ap (λ k. window cells (cap + 1) k w) er ∙ sym b)
      finish (a, b) (inr (last, er)) = (
        a,
        ap (λ k. window cells (cap + 1) k w) er
            ∙ sym (window_read_end cells (cap + 1) w (omega arith))
            ∙ ap (λ k. window cells (cap + 1) k w) {x = cap + 1} {y = r + 1} (omega arith)
            ∙ sym b,
      )

  -- On a valid ring the tests see the number of elements.
  full-nelem :
      {arr : RingArray A} → IsValid arr → ring_array_full arr ≡ (length (contents arr) == arr.cap)
  unfolding ring_array_full
  full-nelem {arr} v = ap (λ n. n == arr.cap) (nelem-length v).0

  empty-nelem :
      {arr : RingArray A} → IsValid arr → ring_array_empty arr ≡ (length (contents arr) == 0)
  unfolding ring_array_empty
  empty-nelem {arr} v = ap (λ n. n == 0) (nelem-length v).0

  abbrev pushed : RingArray A → A → RingArray A
  pushed arr x = record arr {
    cells = overwrite arr.cells arr.wpos (x ∷ []);
    wpos = step arr.wpos arr.cap;
  }

  pushed-IsValid : {arr : RingArray A} (x : A) → IsValid arr → IsValid (pushed arr x)
  pushed-IsValid {arr} x v =
      ground (arith, step_cases arr.wpos arr.cap, length-overwrite arr.cells arr.wpos (x ∷ []))

  -- What the tests say of the positions and of the contents.
  record HasRoom (arr : RingArray A) : Type 0 where
    flat : (arr.rpos ≢ 0) ⊎ (arr.wpos ≢ arr.cap)
    wrapped : arr.wpos + 1 ≢ arr.rpos
    count : length (contents arr) ≢ arr.cap

  not_full-HasRoom : {arr : RingArray A} → IsValid arr → ring_array_full arr ≡ false → HasRoom arr
  not_full-HasRoom {arr} v nf = record {
    flat = elim (ℕ_discrete arr.rpos 0) [
      | yes z ↦ inr (λ last. count (flat_length (omega arith) ∙ omega arith))
      | no nz ↦ inl nz
    ];
    wrapped = λ e. count (wrapped_length (omega arith) ∙ omega arith);
    count = count;
  }
    where
      count : length (contents arr) ≢ arr.cap
      count = ground (arith, full-nelem v)

      flat_length : arr.rpos ≤ arr.wpos → length (contents arr) ≡ arr.wpos - arr.rpos
      flat_length h = length-window_flat arr.cells (arr.cap + 1) arr.rpos arr.wpos h (omega arith)

      wrapped_length :
          arr.wpos < arr.rpos → length (contents arr) ≡ arr.cap + 1 - arr.rpos + arr.wpos
      wrapped_length h =
          length-window_wrapped arr.cells (arr.cap + 1) arr.rpos arr.wpos h (omega arith)
            (omega arith)

  push-eq-pushed :
      {arr : RingArray A} (x : A)
      → IsValid arr
      → ring_array_full arr ≡ false
      → ring_array_push x arr ≡ some (ok, pushed arr x)
  unfolding ring_array_push store
  push-eq-pushed {arr} x v nf =
      let fits : arr.wpos + 1 ≤ length arr.cells = omega arith in
      rw (nf, le→leb (arr.wpos + 1) (length arr.cells) fits)

  contents-pushed :
      {arr : RingArray A} (x : A)
      → IsValid arr
      → HasRoom arr
      → contents (pushed arr x) ≡ contents arr ++ (x ∷ [])
  contents-pushed {arr} x v room =
      contents-store arr.cells arr.cap arr.rpos arr.wpos (step arr.wpos arr.cap) x v.storage
        v.rpos_in v.wpos_in room.flat room.wrapped (step_cases arr.wpos arr.cap v.small v.wpos_in)

  -- `ring_array_push` refuses exactly when the queue of its contents is full, and otherwise adds
  -- the element at the end of that queue; it never copies outside the array, keeps a valid ring
  -- valid and does not change the capacity.
  push_refines :
      {arr : RingArray A} (x : A)
      → IsValid arr
      → (arr' : RingArray A) × ((ring_array_push x arr
            ≡ some ((put arr.cap x (contents arr)).0, arr'))
          × (contents arr' ≡ (put arr.cap x (contents arr)).1)
          × IsValid arr'
          × (arr'.cap ≡ arr.cap))
  unfolding put
  push_refines {arr} x v = elim (Bool-cases (ring_array_full arr)) [
    | inl full ↦ (
      arr,
      let e : length (contents arr) == arr.cap ≡ true = sym (full-nelem v) ∙ full in
          rw e (refused full, refl, v, refl),
    )
    | inr nf ↦ (
      pushed arr x,
      let e : length (contents arr) == arr.cap ≡ false = sym (full-nelem v) ∙ nf in
          rw e (
            push-eq-pushed x v nf,
            contents-pushed x v (not_full-HasRoom v nf),
            pushed-IsValid x v,
            refl,
          ),
    )
  ]
    where
      refused : ring_array_full arr ≡ true → ring_array_push x arr ≡ some (error, arr)
      refused h = unfold ring_array_push in rw h

  abbrev popped : RingArray A → RingArray A
  popped arr = record arr { rpos = step arr.rpos arr.cap }

  popped-IsValid : {arr : RingArray A} → IsValid arr → IsValid (popped arr)
  popped-IsValid {arr} v = ground (arith, step_cases arr.rpos arr.cap)

  -- A ring that is not empty, as its oldest element and the rest.
  not_empty_cases :
      {arr : RingArray A}
      → IsValid arr
      → ring_array_empty arr ≡ false
      → (x : A) × (q : List A) × (contents arr ≡ x ∷ q)
        × (slice arr.cells arr.rpos 1 ≡ x ∷ [])
        × (contents (popped arr) ≡ q)
  not_empty_cases {arr} v ne = split (contents arr) refl
    where
      count : length (contents arr) ≢ 0
      count = ground (arith, empty-nelem v)

      moved : arr.rpos ≢ arr.wpos
      moved e = count (
          length-window_flat arr.cells (arr.cap + 1) arr.rpos arr.wpos (omega arith) (omega arith)
          ∙ omega arith)

      split :
          (q : List A)
          → contents arr ≡ q
          → (x : A) × (rest : List A) × (contents arr ≡ x ∷ rest)
            × (slice arr.cells arr.rpos 1 ≡ x ∷ [])
            × (contents (popped arr) ≡ rest)
      split [] e = absurd (count (ap length e))
      split (x ∷ rest) e =
          let (first, left) =
            contents-advance arr.cells arr.cap arr.rpos (step arr.rpos arr.cap) arr.wpos v.storage
              v.rpos_in v.wpos_in moved (step_cases arr.rpos arr.cap v.small v.rpos_in) in
          (x, rest, e, sym first ∙ ap (take 1) e, left ∙ ap (drop 1) e)

  empty-of-length : (q : List A) → length q ≡ 0 → q ≡ []
  empty-of-length [] e = refl
  empty-of-length (x ∷ q) e = absurd (omega arith)

  pop-eq-popped :
      (arr : RingArray A) (x : A)
      → ring_array_empty arr ≡ false
      → arr.rpos + 1 ≤ length arr.cells
      → slice arr.cells arr.rpos 1 ≡ x ∷ []
      → (wanted : Bool)
      → ring_array_pop wanted arr ≡ some (ok, (if wanted then x ∷ [] else []), popped arr)
  unfolding ring_array_pop load
  pop-eq-popped arr x ne fits first true =
      rw (ne, le→leb (arr.rpos + 1) (length arr.cells) fits, first)
  pop-eq-popped arr x ne fits first false = rw ne

  -- `ring_array_pop` refuses exactly when the queue of its contents is empty, and otherwise takes
  -- the oldest element off that queue and copies it out if the caller wants it; it never copies
  -- from outside the array, keeps a valid ring valid and does not change the capacity.
  pop_refines :
      {arr : RingArray A} (wanted : Bool)
      → IsValid arr
      → (arr' : RingArray A) × ((ring_array_pop wanted arr
            ≡ some ((get wanted (contents arr)).0, (get wanted (contents arr)).1, arr'))
          × (contents arr' ≡ (get wanted (contents arr)).2)
          × IsValid arr'
          × (arr'.cap ≡ arr.cap))
  unfolding get
  pop_refines {arr} wanted v = elim (Bool-cases (ring_array_empty arr)) [
    | inl none_left ↦ let e = nothing none_left in (arr, rw e (refused none_left, refl, v, refl))
    | inr some_left ↦ (popped arr, taken some_left wanted)
  ]
    where
      nothing : ring_array_empty arr ≡ true → contents arr ≡ []
      nothing h = empty-of-length (contents arr) (ground (arith, empty-nelem v))

      refused : ring_array_empty arr ≡ true → ring_array_pop wanted arr ≡ some (error, [], arr)
      refused h = unfold ring_array_pop in rw h

      taken :
          ring_array_empty arr ≡ false
          → (want : Bool)
          → (ring_array_pop want arr
              ≡ some ((get want (contents arr)).0, (get want (contents arr)).1, popped arr))
            × (contents (popped arr) ≡ (get want (contents arr)).2)
            × IsValid (popped arr)
            × ((popped arr).cap ≡ arr.cap)
      taken h want =
          let (x, q, e, first, left) = not_empty_cases v h in
          let fits : arr.rpos + 1 ≤ length arr.cells = omega arith in
          rw e (pop-eq-popped arr x h fits first want, left, popped-IsValid v, refl)

  -- `ring_array_flush` empties the ring.
  pub flush_refines :
      {arr : RingArray A}
      → IsValid arr
      → (contents (ring_array_flush arr) ≡ [])
        × (IsValid (ring_array_flush arr) × ((ring_array_flush arr).cap ≡ arr.cap))
  unfolding ring_array_flush
  flush_refines {arr} v = (
    window-flat arr.cells (arr.cap + 1) arr.wpos arr.wpos (omega arith)
        ∙ slice_at arr.cells arr.wpos (arr.wpos - arr.wpos) 0 (omega arith)
        ∙ slice-zero arr.cells arr.wpos,
    (omega arith, refl),
  )

  -- No sequence of calls tells a valid ring array from the bounded queue of its contents, and none
  -- of the calls accesses memory outside the array.
  pub run_refines :
      (cs : List (Call A)) {arr : RingArray A}
      → IsValid arr
      → run arr cs ≡ some (Queue.run arr.cap (contents arr) cs)
  unfolding run Queue.run
  run_refines [] v = refl
  run_refines (push x ∷ cs) {arr} v =
      let (arr', p) = push_refines x v in rw (p.0, run_refines cs p.2, p.1, p.3)
  run_refines (pop wanted ∷ cs) {arr} v =
      let (arr', p) = pop_refines wanted v in rw (p.0, run_refines cs p.2, p.1, p.3)
  run_refines (flush ∷ cs) {arr} v =
      let p = flush_refines v in rw (run_refines cs p.1.0, p.0, p.1.1)
