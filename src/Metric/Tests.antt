-- ===== src/Metric/Tests.antt =====
-- The theorems on metrics at concrete values.
use ccommon.Prelude.{◌^◌, ◌-◌, List, [], ◌∷◌, ◌≡◌, refl}
use ccommon.Metric.{Metric, counter, gauge, fpn, incr_n}

abbrev full_gauge : Metric
full_gauge = record { type = gauge; bits = 2 ^ 64 - 1 }

gauge_wraps : incr_n full_gauge 3 ≡ record { type = gauge; bits = 2 }
unfolding incr_n
gauge_wraps = refl

abbrev three : List Metric
three = full_gauge ∷ record { type = counter; bits = 4 } ∷ record { type = fpn; bits = 9 } ∷ []
