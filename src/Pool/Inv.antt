-- ===== src/Pool/Inv.antt =====
-- The counters of a pool.
use ccommon.Prelude.{◌+◌, ◌≤◌, ◌<◌, ◌≡◌, length}
use ccommon.Prelude.Words.{u32_mod}
use ccommon.Pool.{Pool}

-- `nfree` is the length of the queue, and the objects, free and used, are at most `nmax`.
pub record IsValid {ℓ} {X : Type ℓ} (pool : Pool X) : Type ℓ where
  pub free : pool.nfree ≡ length pool.freeq
  pub total : pool.nfree + pool.nused ≤ pool.nmax
  pub small : pool.nmax < u32_mod
