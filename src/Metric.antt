-- ===== src/Metric.antt =====
-- The metrics of include/cc_metric.h and src/stats/cc_metric.c, in the build with statistics on.
-- A value is its 64-bit pattern; floating point is a parameter, since no operation here adds to it.
pub mod Laws
mod Tests
use ccommon.Prelude.{
  ℕ, ◌+◌, ◌-◌, ◌%◌, ◌^◌, List, [], ◌∷◌, Option, none, some, Bool, true, false, if◌then◌else◌, ◌≡◌,
}
use ccommon.Prelude.Words.{add64, sub64, u64_mod}

-- `metric_type_e`.
pub data MetricType : Type 0 where
  counter gauge fpn : MetricType

-- `struct metric`, less its name and description: the union's 64 bits.
pub record Metric : Type 0 where
  pub type : MetricType
  pub bits : ℕ

-- `metric_incr_n`.
unfoldable pub incr_n : Metric → ℕ → Metric
incr_n m delta = elim m.type [
  | counter ↦ record m { bits = add64 m.bits (delta % u64_mod) }
  | gauge ↦ record m { bits = add64 m.bits (delta % u64_mod) }
  | fpn ↦ m
]

-- `metric_decr_n`: a counter does not fall.
unfoldable pub decr_n : Metric → ℕ → Metric
decr_n m delta = elim m.type [ gauge ↦ record m { bits = sub64 m.bits (delta % u64_mod) } | _ ↦ m ]

abbrev pub incr : Metric → Metric
incr m = incr_n m 1

abbrev pub decr : Metric → Metric
decr m = decr_n m 1

-- `INCR`, `INCR_N`, `DECR` and `DECR_N` act on one metric of a module's record, if there is one.
abbrev pub on {ℓ} : {M : Type ℓ} → Option M → (M → M) → Option M
on none f = none
on (some m) f = some (f m)

-- `metric_reset`: the value of every type is set to zero, whose bits are 0 for a double too.
pub reset_all : List Metric → List Metric
reset_all [] = []
reset_all (m ∷ ms) = elim m.type [
  | counter ↦ record m { bits = 0 } ∷ reset_all ms
  | gauge ↦ record m { bits = 0 } ∷ reset_all ms
  | fpn ↦ record m { bits = 0 } ∷ reset_all ms
]

-- A null array is left alone.
pub metric_reset : Option (List Metric) → Option (List Metric)
unfolding reset_all
metric_reset none = none
metric_reset (some ms) = some (reset_all ms)
