-- ===== src/Metric/Laws.antt =====
-- How the counts move.
use ccommon.Prelude.{ℕ, ◌<◌, List, [], ◌∷◌, none, some, ◌≡◌, refl, arith}
use ccommon.Prelude.Words.{u64_mod}
use ccommon.Metric.{Metric, MetricType, gauge, incr_n, decr_n, reset_all, metric_reset}

-- Taking off a gauge what was added to it restores it, also where the sum wrapped round at 2^64.
pub decr_n-incr_n :
    (m : Metric) (delta : ℕ) → m.bits < u64_mod → m.type ≡ gauge → decr_n (incr_n m delta) delta ≡ m
unfolding incr_n decr_n
decr_n-incr_n m delta h e = ground arith

-- Every metric of an array has the value zero.
abbrev pub AllZero : List Metric → Type 0
AllZero [] = Unit
AllZero (m ∷ ms) = (m.bits ≡ 0) × AllZero ms

abbrev pub types : List Metric → List MetricType
types [] = []
types (m ∷ ms) = m.type ∷ types ms

reset_all_lem : (ms : List Metric) → AllZero (reset_all ms) × (types (reset_all ms) ≡ types ms)
unfolding reset_all
reset_all_lem [] = (tt, refl)
reset_all_lem (m ∷ ms) = ground (arith, reset_all_lem ms)

-- `metric_reset` sets every metric of the array to zero and keeps their types and number; a null
-- array it leaves alone.
metric_reset_lem :
    (ms : List Metric)
    → (metric_reset none ≡ none)
      × (ms' : List Metric) × (metric_reset (some ms) ≡ some ms')
      × AllZero ms'
      × (types ms' ≡ types ms)
unfolding metric_reset
metric_reset_lem ms = (refl, reset_all ms, refl, (reset_all_lem ms).0, (reset_all_lem ms).1)
