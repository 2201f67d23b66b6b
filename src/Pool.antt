-- ===== src/Pool.antt =====
-- The object pools of include/cc_pool.h, and the pool of buffers of src/buffer/cc_buf.c on top.
-- An object is its address; `create` gets the state of the allocator and returns a new address or
-- none. A queue is the list of its objects from the head on.
pub mod Inv
pub mod Borrow
pub mod Buffers
mod Tests
use ccommon.Prelude.{
  ℕ, zero, suc, ◌+◌, ◌-◌, ◌%◌, ◌^◌, List, [], ◌∷◌, Option, none, some, Bool, true, false,
  if◌then◌else◌, ltb,
}
use ccommon.Prelude.Words.{add32, sub32, u32_mod}

-- The structure that `FREEPOOL` declares.
pub record Pool {ℓ} (X : Type ℓ) : Type ℓ where
  pub freeq : List X
  pub nfree : ℕ
  pub nused : ℕ
  pub nmax : ℕ
  pub initialized : Bool

module _ {ℓ} {X : Type ℓ} where
  -- `FREEPOOL_CREATE`.
  unfoldable pub freepool_create : ℕ → Pool X
  freepool_create max = record {
    freeq = [];
    nfree = 0;
    nused = 0;
    nmax = if ltb 0 max then max else u32_mod - 1;
    initialized = true;
  }

  -- `FREEPOOL_RETURN`.
  unfoldable pub freepool_return : X → Pool X → Pool X
  freepool_return var pool = record pool {
    freeq = var ∷ pool.freeq;
    nfree = add32 pool.nfree 1;
    nused = sub32 pool.nused 1;
  }

module _ {ℓ κ} {X : Type ℓ} {S : Type κ} (create : S → Option X × S) where
  -- One round of the loop of `FREEPOOL_PREALLOC`, and the rest of it on `fuel` rounds.
  unfoldable pub freepool_prealloc : ℕ → ℕ → S → Pool X → Pool X × S
  freepool_prealloc zero size s pool = (pool, s)
  freepool_prealloc (suc fuel) size s pool =
      let (var, s') = create s in
      let rest : Pool X × S = elim var [
        | none ↦ (pool, s')
        | some x ↦
            freepool_prealloc fuel size s'
              (record pool { freeq = x ∷ pool.freeq; nfree = add32 pool.nfree 1 })
      ] in
      if ltb pool.nfree size then rest else (pool, s)

  -- The object got by `FREEPOOL_BORROW`, and the pool and the allocator before `nused` is counted.
  unfoldable pub take_object : S → Pool X → Option X × Pool X × S
  take_object s pool = elim pool.freeq [
    | x ∷ xs ↦ (some x, record pool { freeq = xs; nfree = sub32 pool.nfree 1 }, s)
    | [] ↦
        if ltb (add32 pool.nfree pool.nused) pool.nmax
        then (let (var, s') = create s in (var, pool, s'))
        else (none, pool, s)
  ]

  -- The end of `FREEPOOL_BORROW`.
  abbrev pub count_used : Option X × Pool X × S → Option X × Pool X × S
  count_used (none, pool, s) = (none, pool, s)
  count_used (some x, pool, s) = (some x, record pool { nused = add32 pool.nused 1 }, s)

  -- `FREEPOOL_BORROW`.
  unfoldable pub freepool_borrow : S → Pool X → Option X × Pool X × S
  unfolding take_object
  freepool_borrow s pool = count_used (take_object s pool)

module _ {ℓ κ} {X : Type ℓ} {S : Type κ} (destroy : X → S → S) where
  -- `FREEPOOL_DESTROY`, over the objects of the queue.
  unfoldable pub freepool_destroy : List X → S → Pool X → Pool X × S
  freepool_destroy [] s pool = (record pool { initialized = false }, s)
  freepool_destroy (x ∷ xs) s pool =
      freepool_destroy xs (destroy x s) (record pool { freeq = xs; nfree = sub32 pool.nfree 1 })
