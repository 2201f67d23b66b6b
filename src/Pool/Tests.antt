-- ===== src/Pool/Tests.antt =====
-- Runs of a pool of numbers, and its theorems at them.
use ccommon.Prelude.{
  ℕ, ◌+◌, [], ◌∷◌, Option, some, none, ◌≡◌, refl, arith, true, ltb, if◌then◌else◌,
}
use ccommon.Pool.{Pool, freepool_create, freepool_prealloc, freepool_borrow, freepool_return}
use ccommon.Pool.Inv.{IsValid}
use ccommon.Pool.Borrow.{Borrows, freepool_borrow-Borrows, freepool_borrow-return}

-- The objects are 0, 1, 2 and so on; there are five.
abbrev count : ℕ → Option ℕ × ℕ
count n = if ltb n 5 then (some n, n + 1) else (none, n)

abbrev pool : Pool ℕ
pool = record { freeq = 1 ∷ 0 ∷ []; nfree = 2; nused = 1; nmax = 4; initialized = true }

pool-IsValid : IsValid pool
pool-IsValid = record { free = refl; total = omega arith; small = omega arith }

prealloc_run :
    freepool_prealloc count 2 2 0 (freepool_create 2)
    ≡ (record { freeq = 1 ∷ 0 ∷ []; nfree = 2; nused = 0; nmax = 2; initialized = true }, 2)
unfolding freepool_prealloc freepool_create
prealloc_run = refl

freepool_borrow-Borrows_example : Borrows count 3 pool (freepool_borrow count 3 pool)
freepool_borrow-Borrows_example = freepool_borrow-Borrows count 3 pool pool-IsValid

freepool_borrow-return_example :
    (freepool_borrow count 3 (freepool_return 2 pool) ≡ (some 2, pool, 3))
    × IsValid (freepool_return 2 pool)
freepool_borrow-return_example = freepool_borrow-return count 3 2 pool pool-IsValid (omega arith)
