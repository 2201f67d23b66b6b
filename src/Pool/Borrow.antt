-- ===== src/Pool/Borrow.antt =====
-- Borrowing and returning keep the counters right.
use ccommon.Prelude.{
  suc, ◌+◌, ◌-◌, ◌≤◌, ◌<◌, List, [], ◌∷◌, Option, none, some, ◌≡◌, refl, arith, length, lt→ltb,
  le→ltb, dec_lt, ◌⊎◌, inl, inr, ap, ◌∙◌,
}
use ccommon.Prelude.Words.{add32, sub32}
use ccommon.Pool.{Pool, freepool_return, freepool_borrow, take_object}
use ccommon.Pool.Inv.{IsValid}

module _ {ℓ κ} {X : Type ℓ} {S : Type κ} (create : S → Option X × S) where
  -- What borrowing does: the first free object, or a new one, or none.
  abbrev pub Borrows : S → Pool X → Option X × Pool X × S → Type ℓ
  Borrows s pool (var, pool', s') =
      IsValid pool'
      × (pool'.nmax ≡ pool.nmax)
      × (((x : X) × (pool.freeq ≡ x ∷ pool'.freeq)
            × (var ≡ some x)
            × (pool'.nused ≡ pool.nused + 1))
          ⊎ (((x : X) × (pool.freeq ≡ [])
                × (pool.nused < pool.nmax)
                × ((create s).0 ≡ some x)
                × (var ≡ some x)
                × (pool'.freeq ≡ [])
                × (pool'.nused ≡ pool.nused + 1))
              ⊎ ((pool.freeq ≡ [])
                  × ((pool.nused ≡ pool.nmax) ⊎ ((create s).0 ≡ none))
                  × (var ≡ none)
                  × (pool' ≡ pool))))

  from_queue :
      (s : S) (pool : Pool X) (x : X) (xs : List X)
      → IsValid pool
      → pool.freeq ≡ x ∷ xs
      → Borrows s pool (freepool_borrow create s pool)
  unfolding freepool_borrow take_object
  from_queue s pool x xs v e =
      let count : pool.nfree ≡ suc (length xs) = v.free ∙ ap length e in
      let less : sub32 pool.nfree 1 ≡ length xs = omega arith in
      let more : add32 pool.nused 1 ≡ pool.nused + 1 = omega arith in
      rw (e, less, more)
        (
          record { free = refl; total = omega arith; small = v.small },
          refl,
          inl (x, refl, refl, refl),
        )

  when_empty :
      (s : S) (pool : Pool X)
      → IsValid pool
      → pool.freeq ≡ []
      → pool.nused < pool.nmax
      → (var : Option X) → (create s).0 ≡ var
      → Borrows s pool (freepool_borrow create s pool)
  unfolding freepool_borrow take_object
  when_empty s pool v e room none c =
      let count : pool.nfree ≡ 0 = v.free ∙ ap length e in
      let more : add32 pool.nfree pool.nused ≡ pool.nused = omega arith in
      rw (e, more, lt→ltb pool.nused pool.nmax room, c)
        (
          record { free = count; total = omega arith; small = v.small },
          refl,
          inr (inr (refl, inr refl, refl, refl)),
        )
  when_empty s pool v e room (some x) c =
      let count : pool.nfree ≡ 0 = v.free ∙ ap length e in
      let more : add32 pool.nfree pool.nused ≡ pool.nused = omega arith in
      let next : add32 pool.nused 1 ≡ pool.nused + 1 = omega arith in
      rw (e, more, lt→ltb pool.nused pool.nmax room, c, next)
        (
          record { free = count; total = omega arith; small = v.small },
          refl,
          inr (inl (x, refl, room, refl, refl, refl, refl)),
        )

  when_full :
      (s : S) (pool : Pool X)
      → IsValid pool
      → pool.freeq ≡ []
      → pool.nmax ≤ pool.nused
      → Borrows s pool (freepool_borrow create s pool)
  unfolding freepool_borrow take_object
  when_full s pool v e full =
      let count : pool.nfree ≡ 0 = v.free ∙ ap length e in
      let more : add32 pool.nfree pool.nused ≡ pool.nused = omega arith in
      rw (e, more, le→ltb pool.nused pool.nmax full)
        (
          record { free = count; total = omega arith; small = v.small },
          refl,
          inr (inr (refl, inl (omega arith), refl, refl)),
        )

  -- Borrowing from a valid pool takes the first free object if there is one; else it makes a new
  -- object, as long as fewer than `nmax` are used; else, or when none can be made, it gives none and
  -- leaves the pool alone. The pool stays valid.
  pub freepool_borrow-Borrows :
      (s : S) (pool : Pool X) → IsValid pool → Borrows s pool (freepool_borrow create s pool)
  freepool_borrow-Borrows s pool v = split pool.freeq refl
    where
      split : (q : List X) → pool.freeq ≡ q → Borrows s pool (freepool_borrow create s pool)
      split (x ∷ xs) e = from_queue s pool x xs v e
      split [] e = elim (dec_lt pool.nused pool.nmax) [
        | yes room ↦ when_empty s pool v e room (create s).0 refl
        | no full ↦ when_full s pool v e (omega arith)
      ]

  -- What was returned last is borrowed first: borrowing right after a return gives the object back, and
  -- the pool is then what it was, if an object was in use.
  pub freepool_borrow-return :
      (s : S) (x : X) (pool : Pool X)
      → IsValid pool
      → 0 < pool.nused
      → (freepool_borrow create s (freepool_return x pool) ≡ (some x, pool, s))
        × IsValid (freepool_return x pool)
  unfolding freepool_borrow take_object freepool_return
  freepool_borrow-return s x pool v h =
      let up : add32 pool.nfree 1 ≡ pool.nfree + 1 = omega arith in
      let down : sub32 pool.nused 1 ≡ pool.nused - 1 = omega arith in
      let up' : add32 (pool.nused - 1) 1 ≡ pool.nused = omega arith in
      let down' : sub32 (pool.nfree + 1) 1 ≡ pool.nfree = omega arith in
      let free = v.free in
      (
        rw (up, down, up', down'),
        rw (up, down) (record { free = omega arith; total = omega arith; small = v.small }),
      )
