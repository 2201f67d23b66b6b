-- ===== src/Pool/Buffers.antt =====
-- The pool of buffers: `buf_borrow`, `buf_return` and the pool's functions in src/buffer/cc_buf.c.
-- A buffer in the pool is the structure itself. The state of the allocator is `S`, and `init_size` is
-- the static `buf_init_size`.
use ccommon.Prelude.{ℕ, List, Option, none, some, Bool, true, false, if◌then◌else◌, ltb}
use ccommon.Metric.{on, incr, decr}
use ccommon.Buf.{Buf, BufMetrics, buf_create, buf_destroy, buf_reset}
use ccommon.Pool.{
  Pool, freepool_create, freepool_prealloc, freepool_borrow, freepool_return, freepool_destroy,
}

module _ {ℓ κ} {A : Type ℓ} {S : Type κ} (alloc : S → ℕ → Option (List A) × S) (init_size : ℕ) where
  -- `buf_create` in a state of the allocator and the metrics.
  abbrev pub create_buf : S × Option BufMetrics → Option (Buf A) × (S × Option BufMetrics)
  create_buf (s, m) =
      let (bytes, s') = alloc s init_size in
      let (buf, m') = buf_create init_size (λ n. bytes) m in (buf, (s', m'))

  -- `buf_destroy` of a buffer of the pool.
  abbrev pub destroy_buf : Buf A → S × Option BufMetrics → S × Option BufMetrics
  destroy_buf buf (s, m) = (s, (buf_destroy (some buf) m).1)

  -- The end of `buf_borrow`.
  abbrev pub borrowed :
      Option (Buf A) × Pool (Buf A) × (S × Option BufMetrics)
      → Option (Buf A) × Pool (Buf A) × (S × Option BufMetrics)
  borrowed (none, pool, (s, m)) =
      (none, pool, (s, on m (λ m. record m { buf_borrow_ex = incr m.buf_borrow_ex })))
  borrowed (some buf, pool, (s, m)) = (
    some (buf_reset buf),
    pool,
    (s, on m (λ m. record m { buf_borrow = incr m.buf_borrow; buf_active = incr m.buf_active })),
  )

  -- `buf_borrow`.
  unfoldable pub buf_borrow :
      S × Option BufMetrics → Pool (Buf A) → Option (Buf A) × Pool (Buf A) × (S × Option BufMetrics)
  unfolding freepool_borrow
  buf_borrow s pool = borrowed (freepool_borrow create_buf s pool)

  -- `buf_pool_destroy`, where `bufp_init` tells whether there is a pool.
  unfoldable pub buf_pool_destroy :
      Bool → S × Option BufMetrics → Pool (Buf A) → Bool × Pool (Buf A) × (S × Option BufMetrics)
  unfolding freepool_destroy
  buf_pool_destroy false s pool = (false, pool, s)
  buf_pool_destroy true s pool =
      let (pool', s') = freepool_destroy destroy_buf pool.freeq s pool in (false, pool', s')

  -- `buf_pool_create`: `none` is the exit when the pool cannot be filled. The loop runs `max` times at
  -- most, since every round adds one buffer.
  unfoldable pub buf_pool_create :
      Bool
      → ℕ
      → S × Option BufMetrics
      → Pool (Buf A)
      → Option (Pool (Buf A) × (S × Option BufMetrics))
  unfolding buf_pool_destroy freepool_create freepool_prealloc
  buf_pool_create bufp_init max s pool =
      let (init', old, s1) = buf_pool_destroy bufp_init s pool in
      let (filled, s2) = freepool_prealloc create_buf max max s1 (freepool_create max) in
      if ltb filled.nfree max then none else some (filled, s2)

module _ {ℓ} {A : Type ℓ} where
  -- `buf_return`, through the pointer that the caller holds.
  unfoldable pub buf_return :
      Option (Buf A)
      → Pool (Buf A)
      → Option BufMetrics
      → Option (Buf A) × Pool (Buf A) × Option BufMetrics
  unfolding freepool_return
  buf_return none pool m = (none, pool, m)
  buf_return (some elm) pool m = if elm.free then (some elm, pool, m) else (
    none,
    freepool_return (record elm { free = true }) pool,
    on m (λ m. record m { buf_return = incr m.buf_return; buf_active = decr m.buf_active }),
  )
